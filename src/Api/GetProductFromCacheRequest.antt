-- ===== src/Api/GetProductFromCacheRequest.antt =====
-- `GetProductFromCacheRequest` of api/product: the message, its getters (a nil receiver gives zero values), and its
-- generated validation.
use platform_idp_demo.Base.{String, Bool, true, false, Option, none, some, []}
use platform_idp_demo.Api.Errors.{Error, get_product_from_cache_request}
use platform_idp_demo.Api.Rules.{finish}

pub record GetProductFromCacheRequest : Type 0 where
  pub sku : String

abbrev pub get_sku : Option GetProductFromCacheRequest → String
get_sku none = ""
get_sku (some x) = x.sku

module _ {F : Type 0} where
  unfoldable pub validate_with : Bool → Option GetProductFromCacheRequest → Option (Error F)
  validate_with all none = none
  validate_with all (some m) = finish get_product_from_cache_request []

  unfoldable pub validate : Option GetProductFromCacheRequest → Option (Error F)
  unfolding validate_with
  validate = validate_with false

  unfoldable pub validate_all : Option GetProductFromCacheRequest → Option (Error F)
  unfolding validate_with
  validate_all = validate_with true

-- `&GetProductFromCacheRequest{}`
abbrev pub zero : GetProductFromCacheRequest
zero = record { sku = "" }
