-- ===== src/Handlers/Errors/Laws.antt =====
-- Which messages a field gets.
use mathlib.Core.List.{append-nil, append_assoc}
use librelock_server.Common.{
  if◌then◌else◌, Bool-cases, filter, Text, text_eq, text_eq_iff, ◌≡◌, refl, sym, ◌∙◌, inl, inr,
  true, false, List, [], ◌∷◌, ◌++◌, map, arith,
}
use librelock_server.Handlers.Errors.{
  collect, messages_of, validation_errors, FieldError, append_error, Errors, validation,
  field_message,
}

-- Two fields that are not the same are not both the one that is asked for.
other_field :
    (g f field : Text) → text_eq g f ≡ false → text_eq g field ≡ true → text_eq f field ≡ false
other_field g f field apart same = elim (Bool-cases (text_eq f field)) [
  | inr no_match ↦ no_match
  | inl match ↦
      let e = (text_eq_iff g field).0 same ∙ sym ((text_eq_iff f field).0 match) in
      absurd (clash ((text_eq_iff g f).1 e))
]
  where
    clash : text_eq g f ≡ true → ⊥
    clash both = ground arith

messages_of-append_error :
    (field f message : Text) (errs : Errors)
    → messages_of field (append_error f message errs)
      ≡ messages_of field errs ++ (if text_eq f field then message ∷ [] else [])
unfolding messages_of append_error
messages_of-append_error field f message [] = refl
messages_of-append_error field f message ((g, ms) ∷ errs) = elim (Bool-cases (text_eq g f)) [
  | inl same ↦ elim (Bool-cases (text_eq g field)) [
    | inl here ↦ rw (same, here, ← (text_eq_iff g f).0 same, here) refl
    | inr there ↦
        rw (same, there, ← (text_eq_iff g f).0 same, there)
          (sym (append-nil (messages_of field errs)))
  ]
  | inr apart ↦ elim (Bool-cases (text_eq g field)) [
    | inl here ↦ rw (apart, here, other_field g f field apart here) (sym (append-nil ms))
    | inr there ↦ rw (apart, there) (messages_of-append_error field f message errs)
  ]
]

messages_of-collect :
    (field : Text) (es : List FieldError) (errs : Errors)
    → messages_of field (collect es errs)
      ≡ messages_of field errs ++ map field_message (filter (λ e. text_eq e.field field) es)
unfolding collect
messages_of-collect field [] errs = sym (append-nil (messages_of field errs))
messages_of-collect field (e ∷ es) errs =
    let rest = messages_of-collect field es (append_error e.field (field_message e) errs) in
    let this = messages_of-append_error field e.field (field_message e) errs in
    elim (Bool-cases (text_eq e.field field)) [
      | inl here ↦ rw (rest, this, here) (append_assoc (messages_of field errs) _ _)
      | inr there ↦ rw (rest, this, there, append-nil (messages_of field errs)) refl
    ]

pub validation_errors-messages :
    (field : Text) (es : List FieldError)
    → messages_of field (validation_errors (validation es))
      ≡ map field_message (filter (λ e. text_eq e.field field) es)
unfolding validation_errors messages_of
validation_errors-messages field es = messages_of-collect field es []
