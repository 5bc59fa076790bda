-- ===== src/Api/CreateProductRequest.antt =====
-- `CreateProductRequest` of api/product: the message, its getters (a nil receiver gives zero values), and its
-- generated validation.
use platform_idp_demo.Base.{String, Bool, true, false, Option, none, some, []}
use platform_idp_demo.Base.Int.{ℤ, pos}
use platform_idp_demo.Platform.{Platform}
use platform_idp_demo.Api.Errors.{Error, create_product_request}
use platform_idp_demo.Api.Rules.{finish}

pub record CreateProductRequest (P : Platform) : Type 0 where
  pub name : String
  pub sku : String
  pub status : ℤ
  pub price : P.Float

abbrev pub get_name : {P : Platform} → Option (CreateProductRequest P) → String
get_name none = ""
get_name (some x) = x.name

abbrev pub get_sku : {P : Platform} → Option (CreateProductRequest P) → String
get_sku none = ""
get_sku (some x) = x.sku

abbrev pub get_status : {P : Platform} → Option (CreateProductRequest P) → ℤ
get_status none = pos 0
get_status (some x) = x.status

abbrev pub get_price : {P : Platform} → Option (CreateProductRequest P) → P.Float
get_price {P} none = P.zero_float
get_price (some x) = x.price

module _ {P : Platform} where
  unfoldable pub validate_with : Bool → Option (CreateProductRequest P) → Option (Error P.Failure)
  validate_with all none = none
  validate_with all (some m) = finish create_product_request []

  unfoldable pub validate : Option (CreateProductRequest P) → Option (Error P.Failure)
  unfolding validate_with
  validate = validate_with false

  unfoldable pub validate_all : Option (CreateProductRequest P) → Option (Error P.Failure)
  unfolding validate_with
  validate_all = validate_with true

-- `&CreateProductRequest{}`
abbrev pub zero : {P : Platform} → CreateProductRequest P
zero {P} = record { name = ""; sku = ""; status = pos 0; price = P.zero_float }
