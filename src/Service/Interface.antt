-- ===== src/Service/Interface.antt =====
-- The world of the service, what it calls outside the repository, and the interface `ProductService` of
-- internal/service/product_service.go.
use platform_idp_demo.Base.{ℕ, String, Option, List}
use platform_idp_demo.Go.{M}
use platform_idp_demo.Platform.{Platform, Err}
use platform_idp_demo.Pmcpb.{FileInfo}
use platform_idp_demo.Api.Server.{Answer, Empty}
use platform_idp_demo.Api.ListProductsRequest.{ListProductsRequest}
use platform_idp_demo.Api.ListProductsResponse.{ListProductsResponse}
use platform_idp_demo.Api.GetProductRequest.{GetProductRequest}
use platform_idp_demo.Api.GetProductResponse.{GetProductResponse}
use platform_idp_demo.Api.CreateProductRequest.{CreateProductRequest}
use platform_idp_demo.Api.UpdateProductRequest.{UpdateProductRequest}
use platform_idp_demo.Api.DeleteProductRequest.{DeleteProductRequest}
use platform_idp_demo.Api.ExportProductsRequest.{ExportProductsRequest}
use platform_idp_demo.Api.GetProductFromCacheRequest.{GetProductFromCacheRequest}
use platform_idp_demo.Api.GetProductFromCacheResponse.{GetProductFromCacheResponse}
use platform_idp_demo.Repository.{ProductRepository}
use platform_idp_demo.Export.{Excel, FilePointer, FilterMap, ExportM}
use platform_idp_demo.Types.Dto.{ProductFilter}

pub record World (Db Entries : Type 0) : Type 0 where
  pub db : Db
  pub entries : Entries

-- The other functions outside the repository that the service calls: `jsonx.Marshal`, the claims of
-- the request's context, and what the excel export calls.
pub record Helpers (P : Platform) (R : ProductRepository P) (X : Excel P) : Type 1 where
  pub marshal : Option (GetProductResponse P) → String × Err P
  pub Context : Type 0
  pub user_claims : Context → Err P
  pub map_to_struct : FilterMap → Option ProductFilter × Err P
  pub today : String
  -- `Export` of the exporter, given its file name and the handler's `Build`; the bytes' buffer
  pub excel_export :
      String → ExportM R X (Option FilePointer × Err P) → ExportM R X (Option (List ℕ) × Err P)

-- The interface `ProductService`, over a world `W`.
pub record ProductService (P : Platform) (W Context : Type 0) : Type 0 where
  pub get_product : Option GetProductRequest → M W (Answer P (GetProductResponse P))
  pub list_products : Option ListProductsRequest → M W (Answer P (ListProductsResponse P))
  pub create_product : Option (CreateProductRequest P) → M W (Answer P Empty)
  pub update_product : Option (UpdateProductRequest P) → M W (Answer P Empty)
  pub delete_product : Option DeleteProductRequest → M W (Answer P Empty)
  pub export_products : Context → Option ExportProductsRequest → M W (Answer P FileInfo)
  pub get_product_from_cache :
      Option GetProductFromCacheRequest → M W (Answer P GetProductFromCacheResponse)
