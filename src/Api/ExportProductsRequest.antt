-- ===== src/Api/ExportProductsRequest.antt =====
-- `ExportProductsRequest` of api/product: the message, its getters (a nil receiver gives zero values), and its
-- generated validation.
use platform_idp_demo.Base.{Bool, true, false, Option, none, some, []}
use platform_idp_demo.Base.Int.{ℤ, pos}
use platform_idp_demo.Api.Errors.{Error, export_products_request}
use platform_idp_demo.Api.Rules.{finish}

pub record ExportProductsRequest : Type 0 where
  pub export_type : ℤ

abbrev pub get_export_type : Option ExportProductsRequest → ℤ
get_export_type none = pos 0
get_export_type (some x) = x.export_type

module _ {F : Type 0} where
  unfoldable pub validate_with : Bool → Option ExportProductsRequest → Option (Error F)
  validate_with all none = none
  validate_with all (some m) = finish export_products_request []

  unfoldable pub validate : Option ExportProductsRequest → Option (Error F)
  unfolding validate_with
  validate = validate_with false

  unfoldable pub validate_all : Option ExportProductsRequest → Option (Error F)
  unfolding validate_with
  validate_all = validate_with true

-- `&ExportProductsRequest{}`
abbrev pub zero : ExportProductsRequest
zero = record { export_type = pos 0 }
