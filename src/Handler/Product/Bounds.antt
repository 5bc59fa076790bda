-- ===== src/Handler/Product/Bounds.antt =====
-- The pages that a list request can ask the repository for.
use platform_idp_demo.Base.{
  ℕ, ◌≡◌, refl, String, Bool, true, not, ◌&&◌, if◌then◌else◌, Option, none, some, arith,
  Option-cases, inl, inr,
}
use platform_idp_demo.Base.Int.{ℤ, pos, ltb_ℤ}
use platform_idp_demo.Go.{M}
use platform_idp_demo.Platform.{Platform}
use platform_idp_demo.Api.ListProductsRequest
use platform_idp_demo.Api.ListProductsRequest.{ListProductsRequest}
use platform_idp_demo.Api.Validation.{validate-eq-none_iff}
use platform_idp_demo.Types.Dto.{ProductFilter}
use platform_idp_demo.Repository.{ProductRepository, Page}
use platform_idp_demo.Cache.{Cache}
use platform_idp_demo.Export.{Excel}
use platform_idp_demo.Service
use platform_idp_demo.Service.{World, Helpers, new_product_service}
use platform_idp_demo.Handler.Product.{list_products}

-- A page from 1 on, of 1 to 100 rows.
abbrev pub is_in_range : ℤ → ℤ → Bool
is_in_range limit page =
    not (ltb_ℤ page (pos 1)) && not (ltb_ℤ limit (pos 1)) && not (ltb_ℤ (pos 100) limit)

module _ {P : Platform} (R : ProductRepository P) (X : Excel P) (H : Helpers P R X)
    (other : ℤ → ℤ → String → String → Option ProductFilter → M R.Db (Page P)) where
  -- The repository that answers a query for any other page by `other`.
  abbrev pub replaced : ProductRepository P
  replaced = record R {
    find_with_pagination = λ limit page order by filters.
        if is_in_range limit page
        then R.find_with_pagination limit page order by filters
        else other limit page order by filters;
  }

  abbrev pub same_helpers : Helpers P replaced X
  same_helpers = record {
    marshal = H.marshal;
    Context = H.Context;
    user_claims = H.user_claims;
    map_to_struct = H.map_to_struct;
    today = H.today;
    excel_export = H.excel_export;
  }

  -- A list request never asks the repository for a page below 1, or for fewer than 1 or more than 100
  -- rows: for every request, nil included, the handler's answer and the world after it are the same
  -- whatever the repository would do for such a page.
  pub list_products_bounds :
      (C : Cache P) (fuel : ℕ) (req : Option ListProductsRequest) (w : World R.Db C.Entries)
      → list_products (new_product_service R C X H fuel) req w
        ≡ list_products (new_product_service replaced C X same_helpers fuel) req w
  unfolding list_products Service.list_products
  list_products_bounds C fuel none w = refl
  list_products_bounds C fuel (some m) w =
      elim (Option-cases (ListProductsRequest.validate {F = P.Failure} (some m))) [
        | inl valid ↦
            let in_range : is_in_range m.limit m.page ≡ true =
              ground (arith, (validate-eq-none_iff {F = P.Failure} m).0 valid) in
            rw (valid, list_products, in_range) refl
        | inr (e, invalid) ↦ rw (invalid, list_products) refl
      ]
