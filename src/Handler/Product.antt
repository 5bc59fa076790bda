-- ===== src/Handler/Product.antt =====
-- internal/handler/product_handler.go, but for `CheckKafka` (Handler/Kafka.antt): validate the
-- request, then call the service.
pub mod Laws
pub mod Bounds
use platform_idp_demo.Base.{Option, none, some}
use platform_idp_demo.Go.{M, pure}
use platform_idp_demo.Platform.{Platform, Err}
use platform_idp_demo.Pmcpb.{FileInfo}
use platform_idp_demo.Api.ListProductsRequest
use platform_idp_demo.Api.ListProductsRequest.{ListProductsRequest}
use platform_idp_demo.Api.ListProductsResponse.{ListProductsResponse}
use platform_idp_demo.Api.GetProductRequest
use platform_idp_demo.Api.GetProductRequest.{GetProductRequest}
use platform_idp_demo.Api.GetProductResponse.{GetProductResponse}
use platform_idp_demo.Api.CreateProductRequest
use platform_idp_demo.Api.CreateProductRequest.{CreateProductRequest}
use platform_idp_demo.Api.UpdateProductRequest
use platform_idp_demo.Api.UpdateProductRequest.{UpdateProductRequest}
use platform_idp_demo.Api.DeleteProductRequest
use platform_idp_demo.Api.DeleteProductRequest.{DeleteProductRequest}
use platform_idp_demo.Api.ExportProductsRequest.{ExportProductsRequest}
use platform_idp_demo.Api.GetProductFromCacheRequest
use platform_idp_demo.Api.GetProductFromCacheRequest.{GetProductFromCacheRequest}
use platform_idp_demo.Api.GetProductFromCacheResponse.{GetProductFromCacheResponse}
use platform_idp_demo.Service.{Answer, Empty, ProductService}

module _ {P : Platform} {W Context : Type 0} (svc : ProductService P W Context) where
  unfoldable pub get_product : Option GetProductRequest → M W (Answer P (GetProductResponse P))
  get_product req = elim (GetProductRequest.validate req) [
    | some err ↦ pure (none, some (P.bad_request err))
    | none ↦ svc.get_product req
  ]

  unfoldable pub list_products :
      Option ListProductsRequest → M W (Answer P (ListProductsResponse P))
  list_products req = elim (ListProductsRequest.validate req) [
    | some err ↦ pure (none, some (P.bad_request err))
    | none ↦ svc.list_products req
  ]

  unfoldable pub create_product : Option (CreateProductRequest P) → M W (Answer P Empty)
  create_product req = elim (CreateProductRequest.validate req) [
    | some err ↦ pure (none, some (P.bad_request err))
    | none ↦ svc.create_product req
  ]

  unfoldable pub update_product : Option (UpdateProductRequest P) → M W (Answer P Empty)
  update_product req = elim (UpdateProductRequest.validate req) [
    | some err ↦ pure (none, some (P.bad_request err))
    | none ↦ svc.update_product req
  ]

  unfoldable pub delete_product : Option DeleteProductRequest → M W (Answer P Empty)
  delete_product req = elim (DeleteProductRequest.validate req) [
    | some err ↦ pure (none, some (P.bad_request err))
    | none ↦ svc.delete_product req
  ]

  unfoldable pub export_products : Context → Option ExportProductsRequest → M W (Answer P FileInfo)
  export_products ctx req = svc.export_products ctx req

  unfoldable pub get_product_from_cache :
      Option GetProductFromCacheRequest → M W (Answer P GetProductFromCacheResponse)
  get_product_from_cache req = elim (GetProductFromCacheRequest.validate req) [
    | some err ↦ pure (none, some (P.bad_request err))
    | none ↦ svc.get_product_from_cache req
  ]
