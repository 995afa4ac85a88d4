-- ===== src/Handlers/Errors/Tests.antt =====
-- Errors of two fields.
use librelock_server.Common.{Text, text, text_eq, ◌≡◌, refl, List, [], ◌∷◌}
use librelock_server.Handlers.Errors.{FieldError, validation_errors, validation, field_message}

abbrev failed : Text → Text → Text → FieldError
failed field tag param = record { field = field; tag = tag; param = param }

abbrev two_fields : List FieldError
two_fields =
    failed (text "name") (text "min") (text "3")
    ∷ failed (text "Theme") (text "oneof") (text "dark light")
    ∷ failed (text "name") (text "max") (text "50")
    ∷ []

messages :
    (validation_errors (validation two_fields)
      ≡ (
        text "name",
        text "The name must be at least 3." ∷ text "The name may not be greater than 50." ∷ [],
      )
        ∷ (text "Theme", text "The selected theme is invalid." ∷ [])
        ∷ [])
unfolding validation_errors text_eq field_message
messages = refl
