-- ===== src/Api/GetProductFromCacheResponse.antt =====
-- `GetProductFromCacheResponse` of api/product: the message, its getters (a nil receiver gives zero values), and its
-- generated validation.
use platform_idp_demo.Base.{String, Bool, true, false, Option, none, some, []}
use platform_idp_demo.Api.Errors.{Error, get_product_from_cache_response}
use platform_idp_demo.Api.Rules.{finish}

pub record GetProductFromCacheResponse : Type 0 where
  pub sku : String
  pub payload : String
  pub from_cache : Bool

abbrev pub get_sku : Option GetProductFromCacheResponse → String
get_sku none = ""
get_sku (some x) = x.sku

abbrev pub get_data : Option GetProductFromCacheResponse → String
get_data none = ""
get_data (some x) = x.payload

abbrev pub get_from_cache : Option GetProductFromCacheResponse → Bool
get_from_cache none = false
get_from_cache (some x) = x.from_cache

module _ {F : Type 0} where
  unfoldable pub validate_with : Bool → Option GetProductFromCacheResponse → Option (Error F)
  validate_with all none = none
  validate_with all (some m) = finish get_product_from_cache_response []

  unfoldable pub validate : Option GetProductFromCacheResponse → Option (Error F)
  unfolding validate_with
  validate = validate_with false

  unfoldable pub validate_all : Option GetProductFromCacheResponse → Option (Error F)
  unfolding validate_with
  validate_all = validate_with true

-- `new(GetProductFromCacheResponse)`
abbrev pub zero : GetProductFromCacheResponse
zero = record { sku = ""; payload = ""; from_cache = false }
