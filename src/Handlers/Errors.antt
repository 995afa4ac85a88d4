-- ===== src/Handlers/Errors.antt =====
-- `validationErrors` and `fieldMessage` of handlers/helpers.go. A map of the fields is the list of
-- its keys with their messages, in the order in which they came.
pub mod Laws
mod Tests
use librelock_server.Common.{
  leb, if◌then◌else◌, least, Text, text, text_eq, ℕ, ◌+◌, String, not, ◌&&◌, List, [], ◌∷◌, ◌++◌,
  map,
}

-- What the validator says of a field: its name in JSON, the tag that failed and the tag's parameter.
pub record FieldError : Type 0 where
  pub field : Text
  pub tag : Text
  pub param : Text

-- strings.ToLower on a name in JSON, which is of ASCII letters.
abbrev lower : ℕ → ℕ
lower c = if leb b'A' c && leb c b'Z' then c + 32 else c

abbrev sentence : String → Text → String → Text
sentence before name after = text before ++ (name ++ text after)

-- `fieldMessage`
unfoldable pub field_message : FieldError → Text
field_message e =
    let name = map lower e.field in
    if text_eq e.tag (text "required")
    then sentence "The " name " field is required."
    else if text_eq e.tag (text "min")
    then sentence "The " name " must be at least " ++ (e.param ++ text ".")
    else if text_eq e.tag (text "max")
    then sentence "The " name " may not be greater than " ++ (e.param ++ text ".")
    else if text_eq e.tag (text "oneof")
    then sentence "The selected " name " is invalid."
    else if text_eq e.tag (text "uuid")
    then sentence "The " name " must be a valid UUID."
    else sentence "The " name " field is invalid."

abbrev pub Errors : Type 0
Errors = List (Text × List Text)

-- `errs[field] = append(errs[field], message)`
unfoldable pub append_error : Text → Text → Errors → Errors
append_error field message [] = (field, message ∷ []) ∷ []
append_error field message ((f, ms) ∷ errs) =
    let rest = append_error field message errs in
    if text_eq f field then (f, ms ++ message ∷ []) ∷ errs else (f, ms) ∷ rest

unfoldable pub collect : List FieldError → Errors → Errors
unfolding append_error
collect [] errs = errs
collect (e ∷ es) errs = collect es (append_error e.field (field_message e) errs)

-- An error of the binding: those of the validator, or another with its text.
pub data BindError : Type 0 where
  validation : List FieldError → BindError
  other : Text → BindError

-- `validationErrors`
unfoldable pub validation_errors : BindError → Errors
unfolding collect
validation_errors (validation es) = collect es []
validation_errors (other why) = (text "_", why ∷ []) ∷ []

-- The messages of a field.
unfoldable pub messages_of : Text → Errors → List Text
messages_of field [] = []
messages_of field ((f, ms) ∷ errs) =
    let rest = messages_of field errs in if text_eq f field then ms else rest
