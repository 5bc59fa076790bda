-- ===== src/Api/Server.antt =====
-- The interface that the HTTP and the gRPC server call: `ProductHTTPServer` of
-- api/product/product_http.pb.go, which is `ProductServer` of product_grpc.pb.go too.
use platform_idp_demo.Base.{Option, none, some, String}
use platform_idp_demo.Go.{M, pure}
use platform_idp_demo.Platform.{Platform, Err}
use platform_idp_demo.Pmcpb.{FileInfo}
use platform_idp_demo.Api.Errors.{Error}
use platform_idp_demo.Api.ListProductsRequest.{ListProductsRequest}
use platform_idp_demo.Api.GetProductRequest.{GetProductRequest}
use platform_idp_demo.Api.CreateProductRequest.{CreateProductRequest}
use platform_idp_demo.Api.UpdateProductRequest.{UpdateProductRequest}
use platform_idp_demo.Api.DeleteProductRequest.{DeleteProductRequest}
use platform_idp_demo.Api.ExportProductsRequest.{ExportProductsRequest}
use platform_idp_demo.Api.GetProductFromCacheRequest.{GetProductFromCacheRequest}
use platform_idp_demo.Api.CheckKafkaRequest.{CheckKafkaRequest}
use platform_idp_demo.Api.ListProductsResponse.{ListProductsResponse}
use platform_idp_demo.Api.GetProductResponse.{GetProductResponse}
use platform_idp_demo.Api.GetProductFromCacheResponse.{GetProductFromCacheResponse}
use platform_idp_demo.Api.CheckKafkaResponse.{CheckKafkaResponse}

-- `emptypb.Empty`
pub data Empty : Type 0 where
  empty : Empty

-- What a method returns: a pointer, and an error.
abbrev pub Answer : Platform → Type 0 → Type 0
Answer P A = Option A × Err P

pub record ProductServer (P : Platform) (W Context : Type 0) : Type 0 where
  pub list_products : Context → Option ListProductsRequest → M W (Answer P (ListProductsResponse P))
  pub get_product : Context → Option GetProductRequest → M W (Answer P (GetProductResponse P))
  pub create_product : Context → Option (CreateProductRequest P) → M W (Answer P Empty)
  pub update_product : Context → Option (UpdateProductRequest P) → M W (Answer P Empty)
  pub delete_product : Context → Option DeleteProductRequest → M W (Answer P Empty)
  pub export_products : Context → Option ExportProductsRequest → M W (Answer P FileInfo)
  pub get_product_from_cache :
      Context → Option GetProductFromCacheRequest → M W (Answer P GetProductFromCacheResponse)
  pub check_kafka : Context → Option CheckKafkaRequest → M W (Answer P CheckKafkaResponse)

-- `status_errorf` is `status.Errorf` of `codes.Unimplemented`.
abbrev pub unimplemented :
    {F W B : Type 0} → (String → Error F) → String → M W (Option B × Option (Error F))
unimplemented status_errorf text = pure (none, some (status_errorf text))

module _ {P : Platform} {W Context : Type 0} (status_errorf : String → Error P.Failure) where
  unfoldable pub unimplemented_product_server : ProductServer P W Context
  unimplemented_product_server = record {
    list_products = λ ctx req. unimplemented status_errorf "method ListProducts not implemented";
    get_product = λ ctx req. unimplemented status_errorf "method GetProduct not implemented";
    create_product = λ ctx req. unimplemented status_errorf "method CreateProduct not implemented";
    update_product = λ ctx req. unimplemented status_errorf "method UpdateProduct not implemented";
    delete_product = λ ctx req. unimplemented status_errorf "method DeleteProduct not implemented";
    export_products =
        λ ctx req. unimplemented status_errorf "method ExportProducts not implemented";
    get_product_from_cache =
        λ ctx req. unimplemented status_errorf "method GetProductFromCache not implemented";
    check_kafka = λ ctx req. unimplemented status_errorf "method CheckKafka not implemented";
  }
