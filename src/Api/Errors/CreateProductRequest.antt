-- ===== src/Api/Errors/CreateProductRequest.antt =====
-- `CreateProductRequestMultiError` and `CreateProductRequestValidationError` of api/product/product.pb.validate.go.
use platform_idp_demo.Base.{String, Bool, List, map, if◌then◌else◌}
use platform_idp_demo.Base.Text.{◌<>◌, join}
use platform_idp_demo.Api.Errors.{Error, Cause, error_text, cause_text}

abbrev pub MultiError : Type 0 → Type 0
MultiError F = List (Error F)

abbrev pub all_errors : {F : Type 0} → MultiError F → List (Error F)
all_errors m = m

-- The fields are also what the methods `Field`, `Reason`, `Cause` and `Key` return.
pub record ValidationError (F : Type 0) : Type 0 where
  pub field : String
  pub reason : String
  pub cause : Cause F
  pub key : Bool

abbrev pub validation_error_name : String
validation_error_name = "CreateProductRequestValidationError"

module _ {F : Type 0} (foreign_text : F → String) where
  unfoldable pub multi_error_text : MultiError F → String
  multi_error_text m = join (map (error_text foreign_text) m) "; "

  unfoldable pub validation_error_text : ValidationError F → String
  validation_error_text e =
      let cause = cause_text foreign_text e.cause in
      let key = if e.key then "key for " else "" in
      "invalid " <> key <> "CreateProductRequest." <> e.field <> ": " <> e.reason <> cause
