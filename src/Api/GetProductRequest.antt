-- ===== src/Api/GetProductRequest.antt =====
-- `GetProductRequest` of api/product: the message, its getters (a nil receiver gives zero values), and its
-- generated validation.
use platform_idp_demo.Base.{String, Bool, true, false, Option, none, some, []}
use platform_idp_demo.Api.Errors.{Error, get_product_request}
use platform_idp_demo.Api.Rules.{finish}

pub record GetProductRequest : Type 0 where
  pub uid : String

abbrev pub get_uid : Option GetProductRequest → String
get_uid none = ""
get_uid (some x) = x.uid

module _ {F : Type 0} where
  unfoldable pub validate_with : Bool → Option GetProductRequest → Option (Error F)
  validate_with all none = none
  validate_with all (some m) = finish get_product_request []

  unfoldable pub validate : Option GetProductRequest → Option (Error F)
  unfolding validate_with
  validate = validate_with false

  unfoldable pub validate_all : Option GetProductRequest → Option (Error F)
  unfolding validate_with
  validate_all = validate_with true

-- `&GetProductRequest{}`
abbrev pub zero : GetProductRequest
zero = record { uid = "" }
