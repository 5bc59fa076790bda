-- ===== src/Api/ListProductsRequest.antt =====
-- `ListProductsRequest` of api/product: the message, its getters (a nil receiver gives zero values), and its
-- generated validation.
use platform_idp_demo.Base.{String, Bool, true, false, Option, none, some, [], ◌||◌, if◌then◌else◌}
use platform_idp_demo.Base.Int.{ℤ, pos, ltb_ℤ}
use platform_idp_demo.Api.Errors.{Error, list_products_request}
use platform_idp_demo.Api.Rules.{check, finish, violation}

pub record ListProductsRequest : Type 0 where
  pub page : ℤ
  pub limit : ℤ
  pub sort_order : String
  pub sort_by : String
  pub name : Option String
  pub sku : Option String

abbrev pub get_page : Option ListProductsRequest → ℤ
get_page none = pos 0
get_page (some x) = x.page

abbrev pub get_limit : Option ListProductsRequest → ℤ
get_limit none = pos 0
get_limit (some x) = x.limit

abbrev pub get_sort_order : Option ListProductsRequest → String
get_sort_order none = ""
get_sort_order (some x) = x.sort_order

abbrev pub get_sort_by : Option ListProductsRequest → String
get_sort_by none = ""
get_sort_by (some x) = x.sort_by

abbrev pub get_name : Option ListProductsRequest → String
get_name none = ""
get_name (some x) = elim x.name [ some s ↦ s | none ↦ "" ]

abbrev pub get_sku : Option ListProductsRequest → String
get_sku none = ""
get_sku (some x) = elim x.sku [ some s ↦ s | none ↦ "" ]

module _ {F : Type 0} where
  unfoldable pub page_rule : Option ListProductsRequest → Option (Error F)
  page_rule m =
      if ltb_ℤ (get_page m) (pos 1)
      then some (violation list_products_request "Page" "value must be greater than or equal to 1")
      else none

  unfoldable pub limit_rule : Option ListProductsRequest → Option (Error F)
  limit_rule m =
      let val = get_limit m in
      if ltb_ℤ val (pos 1) || ltb_ℤ (pos 100) val
      then some (violation list_products_request "Limit" "value must be inside range [1, 100]")
      else none

  unfoldable pub validate_with : Bool → Option ListProductsRequest → Option (Error F)
  unfolding page_rule limit_rule
  validate_with all none = none
  validate_with all (some m) = check all (page_rule (some m)) [] λ errors.
      check all (limit_rule (some m)) errors λ errors'. finish list_products_request errors'

  unfoldable pub validate : Option ListProductsRequest → Option (Error F)
  unfolding validate_with
  validate = validate_with false

  unfoldable pub validate_all : Option ListProductsRequest → Option (Error F)
  unfolding validate_with
  validate_all = validate_with true

-- `&ListProductsRequest{}`
abbrev pub zero : ListProductsRequest
zero = record {
  page = pos 0;
  limit = pos 0;
  sort_order = "";
  sort_by = "";
  name = none;
  sku = none;
}
