-- ===== src/Api/ListProductsResponse.antt =====
-- `ListProductsResponse` of api/product: the message, its getters, and its generated validation,
-- which validates each product and the pagination. `vs` is what the dynamic type of the pagination
-- offers: its package is not part of the repository.
use platform_idp_demo.Base.{ℕ, ◌+◌, Bool, true, false, Option, none, some, List, [], ◌∷◌}
use platform_idp_demo.Base.Text.{◌<>◌}
use platform_idp_demo.Base.Decimal.{decimal}
use platform_idp_demo.Platform.{Platform}
use platform_idp_demo.Pmcpb.{Pagination}
use platform_idp_demo.Api.Errors.{Error, list_products_response}
use platform_idp_demo.Api.Rules.{check, finish, Validators, embedded}
use platform_idp_demo.Api.GetProductResponse
use platform_idp_demo.Api.GetProductResponse.{GetProductResponse}

pub record ListProductsResponse (P : Platform) : Type 0 where
  pub products : List (Option (GetProductResponse P))
  pub pagination : Option Pagination

module _ {P : Platform} where
  abbrev pub get_products : Option (ListProductsResponse P) → List (Option (GetProductResponse P))
  get_products none = []
  get_products (some x) = x.products

  abbrev pub get_pagination : Option (ListProductsResponse P) → Option Pagination
  get_pagination none = none
  get_pagination (some x) = x.pagination

  -- A product has both methods.
  abbrev pub product_validators : Validators P.Failure (Option (GetProductResponse P))
  product_validators = record {
    validate_all_method = some GetProductResponse.validate_all;
    validate_method = some GetProductResponse.validate;
  }

  -- The loop over `m.GetProducts()`.
  unfoldable pub check_products :
      Bool
      → ℕ
      → List (Option (GetProductResponse P))
      → List (Error P.Failure)
      → (List (Error P.Failure) → Option (Error P.Failure))
      → Option (Error P.Failure)
  check_products all idx [] errors rest = rest errors
  check_products all idx (item ∷ items) errors rest =
      check all
        (embedded list_products_response ("Products[" <> decimal idx <> "]") all product_validators
          item)
        errors λ errors'. check_products all (idx + 1) items errors' rest

  module _ (vs : Validators P.Failure (Option Pagination)) where
    unfoldable pub validate_with : Bool → Option (ListProductsResponse P) → Option (Error P.Failure)
    unfolding check_products
    validate_with all none = none
    validate_with all (some m) = check_products all 0 m.products [] λ errors.
        check all (embedded list_products_response "Pagination" all vs m.pagination) errors
          λ errors'. finish list_products_response errors'

    unfoldable pub validate : Option (ListProductsResponse P) → Option (Error P.Failure)
    unfolding validate_with
    validate = validate_with false

    unfoldable pub validate_all : Option (ListProductsResponse P) → Option (Error P.Failure)
    unfolding validate_with
    validate_all = validate_with true

-- `new(ListProductsResponse)`
abbrev pub zero : {P : Platform} → ListProductsResponse P
zero = record { products = []; pagination = none }
