-- ===== src/Handler/Product/Laws.antt =====
-- Which requests reach the service.
use platform_idp_demo.Base.{◌≡◌, inl, inr, Option, none, some, arith, Option-cases}
use platform_idp_demo.Go.{returned}
use platform_idp_demo.Platform.{Platform}
use platform_idp_demo.Api.Errors.{Error}
use platform_idp_demo.Api.ListProductsRequest
use platform_idp_demo.Api.ListProductsRequest.{ListProductsRequest}
use platform_idp_demo.Api.GetProductRequest
use platform_idp_demo.Api.GetProductRequest.{GetProductRequest}
use platform_idp_demo.Api.CreateProductRequest
use platform_idp_demo.Api.CreateProductRequest.{CreateProductRequest}
use platform_idp_demo.Api.UpdateProductRequest
use platform_idp_demo.Api.UpdateProductRequest.{UpdateProductRequest}
use platform_idp_demo.Api.DeleteProductRequest
use platform_idp_demo.Api.DeleteProductRequest.{DeleteProductRequest}
use platform_idp_demo.Api.GetProductFromCacheRequest
use platform_idp_demo.Api.GetProductFromCacheRequest.{GetProductFromCacheRequest}
use platform_idp_demo.Api.Validation.{IsInRange, validate-eq-none_iff}
use platform_idp_demo.Service.{ProductService}
use platform_idp_demo.Handler.Product.{
  get_product, list_products, create_product, update_product, delete_product,
  get_product_from_cache,
}

module _ {P : Platform} {W Context : Type 0} (svc : ProductService P W Context) where
  -- A list request in range is answered by the service.
  pub list_products_in_range :
      (m : ListProductsRequest) (w : W)
      → IsInRange m
      → list_products svc (some m) w ≡ svc.list_products (some m) w
  unfolding list_products
  list_products_in_range m w ok = ground (arith, (validate-eq-none_iff {F = P.Failure} m).1 ok)

  -- A list request out of range never reaches the service: it is answered with the bad-request error
  -- of the violation that `Validate` reports, no list, and the world as it was.
  pub list_products_out_of_range :
      (m : ListProductsRequest) (w : W)
      → ¬ IsInRange m
      → (e : Error P.Failure) × (ListProductsRequest.validate (some m) ≡ some e)
        × (list_products svc (some m) w ≡ returned (none, some (P.bad_request e)) w)
  unfolding list_products
  list_products_out_of_range m w out =
      elim (Option-cases (ListProductsRequest.validate {F = P.Failure} (some m))) [
        | inl valid ↦ absurd (out ((validate-eq-none_iff m).0 valid))
        | inr (e, invalid) ↦ (e, invalid, ground arith)
      ]

  -- No other request is ever turned down: whatever its fields, nil included, each of these handlers
  -- runs as the service's method does.
  pub handlers_pass_on :
      (g : Option GetProductRequest) (c : Option (CreateProductRequest P))
      (u : Option (UpdateProductRequest P)) (d : Option DeleteProductRequest)
      (k : Option GetProductFromCacheRequest) (w : W)
      → (get_product svc g w ≡ svc.get_product g w)
        × (create_product svc c w ≡ svc.create_product c w)
        × (update_product svc u w ≡ svc.update_product u w)
        × (delete_product svc d w ≡ svc.delete_product d w)
        × (get_product_from_cache svc k w ≡ svc.get_product_from_cache k w)
  unfolding get_product create_product update_product delete_product get_product_from_cache
      GetProductRequest.validate CreateProductRequest.validate UpdateProductRequest.validate
      DeleteProductRequest.validate GetProductFromCacheRequest.validate
  handlers_pass_on g c u d k w = ground arith
