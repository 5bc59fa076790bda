-- ===== src/Api/UpdateProductRequest.antt =====
-- `UpdateProductRequest` of api/product: the message, its getters (a nil receiver gives zero values), and its
-- generated validation.
use platform_idp_demo.Base.{String, Bool, true, false, Option, none, some, []}
use platform_idp_demo.Base.Int.{ℤ, pos}
use platform_idp_demo.Platform.{Platform}
use platform_idp_demo.Api.Errors.{Error, update_product_request}
use platform_idp_demo.Api.Rules.{finish}

pub record UpdateProductRequest (P : Platform) : Type 0 where
  pub uid : String
  pub name : String
  pub sku : String
  pub status : ℤ
  pub price : P.Float

abbrev pub get_uid : {P : Platform} → Option (UpdateProductRequest P) → String
get_uid none = ""
get_uid (some x) = x.uid

abbrev pub get_name : {P : Platform} → Option (UpdateProductRequest P) → String
get_name none = ""
get_name (some x) = x.name

abbrev pub get_sku : {P : Platform} → Option (UpdateProductRequest P) → String
get_sku none = ""
get_sku (some x) = x.sku

abbrev pub get_status : {P : Platform} → Option (UpdateProductRequest P) → ℤ
get_status none = pos 0
get_status (some x) = x.status

abbrev pub get_price : {P : Platform} → Option (UpdateProductRequest P) → P.Float
get_price {P} none = P.zero_float
get_price (some x) = x.price

module _ {P : Platform} where
  unfoldable pub validate_with : Bool → Option (UpdateProductRequest P) → Option (Error P.Failure)
  validate_with all none = none
  validate_with all (some m) = finish update_product_request []

  unfoldable pub validate : Option (UpdateProductRequest P) → Option (Error P.Failure)
  unfolding validate_with
  validate = validate_with false

  unfoldable pub validate_all : Option (UpdateProductRequest P) → Option (Error P.Failure)
  unfolding validate_with
  validate_all = validate_with true

-- `&UpdateProductRequest{}`
abbrev pub zero : {P : Platform} → UpdateProductRequest P
zero {P} = record { uid = ""; name = ""; sku = ""; status = pos 0; price = P.zero_float }
