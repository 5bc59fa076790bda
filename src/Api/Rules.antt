-- ===== src/Api/Rules.antt =====
-- How the generated `validate(all bool)` bodies run: each rule either returns its violation at
-- once, or appends it to `errors`; at the end the collected errors are wrapped.
use platform_idp_demo.Base.{String, Bool, true, false, Option, none, some, List, [], ◌∷◌, ◌++◌}
use platform_idp_demo.Api.Errors.{
  MessageType, Error, validation_error, multi_error, no_cause, caused_by, errors_of,
}

module _ {F : Type 0} where
  abbrev pub check :
      Bool
      → Option (Error F)
      → List (Error F)
      → (List (Error F) → Option (Error F))
      → Option (Error F)
  check all none errors rest = rest errors
  check true (some e) errors rest = rest (errors ++ e ∷ [])
  check false (some e) errors rest = some e

  -- `if len(errors) > 0 { return <Message>MultiError(errors) }; return nil`
  abbrev pub finish : MessageType → List (Error F) → Option (Error F)
  finish m [] = none
  finish m (e ∷ es) = some (multi_error m (errors_of (e ∷ es)))

  -- `<Message>ValidationError{field: field, reason: reason}`
  abbrev pub violation : MessageType → String → String → Error F
  violation m field reason = validation_error m field reason no_cause false

  -- The same for an embedded message, with the error that its validation returned.
  abbrev pub embedded_violation : MessageType → String → Error F → Error F
  embedded_violation m field e =
      validation_error m field "embedded message failed validation" (caused_by e) false

-- The methods that a value of static type `A` has in its dynamic type, each possibly absent:
-- what `v.(interface{ ValidateAll() error })` and `v.(interface{ Validate() error })` find.
pub record Validators (F A : Type 0) : Type 0 where
  pub validate_all_method : Option (A → Option (Error F))
  pub validate_method : Option (A → Option (Error F))

module _ {F A : Type 0} where
  abbrev pub call_method : Option (A → Option (Error F)) → A → Option (Error F)
  call_method none v = none
  call_method (some validate) v = validate v

  -- The type switch on an embedded value, `ValidateAll` first if all violations are wanted.
  abbrev pub run_embedded : Bool → Validators F A → A → Option (Error F)
  run_embedded true vs v = elim vs.validate_all_method [
    | some validate_all ↦ validate_all v
    | none ↦ call_method vs.validate_method v
  ]
  run_embedded false vs v = call_method vs.validate_method v

  abbrev pub embedded : MessageType → String → Bool → Validators F A → A → Option (Error F)
  embedded m field all vs v = elim (run_embedded all vs v) [
    | none ↦ none
    | some e ↦ some (embedded_violation m field e)
  ]
