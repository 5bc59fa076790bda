-- ===== src/Api/Grpc/Laws.antt =====
-- The gRPC handlers, the table of methods and the client of api/product/product_grpc.pb.go.
use platform_idp_demo.Base.{◌≡◌, ◌≢◌, ◌↔◌, refl, String, Option, none, some, Each, arith}
use platform_idp_demo.Base.Text.{◌<>◌}
use platform_idp_demo.Go.{M, returned}
use platform_idp_demo.Platform.{Platform, Err}
use platform_idp_demo.Api.Wire.{
  WireType, Message, product_message, empty_message, file_info_message,
}
use platform_idp_demo.Api.Errors.{
  list_products_request, list_products_response, get_product_request, get_product_response,
  create_product_request, update_product_request, delete_product_request, export_products_request,
  get_product_from_cache_request, get_product_from_cache_response, check_kafka_request,
  check_kafka_response,
}
use platform_idp_demo.Pmcpb.{empty_file}
use platform_idp_demo.Api.ListProductsResponse
use platform_idp_demo.Api.GetProductResponse
use platform_idp_demo.Api.GetProductFromCacheResponse
use platform_idp_demo.Api.CheckKafkaResponse
use platform_idp_demo.Api.Server.{ProductServer, Answer, empty}
use platform_idp_demo.Api.CheckKafkaRequest.{CheckKafkaRequest}
use platform_idp_demo.Api.CreateProductRequest.{CreateProductRequest}
use platform_idp_demo.Api.DeleteProductRequest.{DeleteProductRequest}
use platform_idp_demo.Api.ExportProductsRequest.{ExportProductsRequest}
use platform_idp_demo.Api.GetProductFromCacheRequest.{GetProductFromCacheRequest}
use platform_idp_demo.Api.GetProductRequest.{GetProductRequest}
use platform_idp_demo.Api.ListProductsRequest.{ListProductsRequest}
use platform_idp_demo.Api.UpdateProductRequest.{UpdateProductRequest}
use platform_idp_demo.Api.Grpc.{
  list_products_full_method_name, get_product_full_method_name, create_product_full_method_name,
  update_product_full_method_name, delete_product_full_method_name,
  export_products_full_method_name, get_product_from_cache_full_method_name,
  check_kafka_full_method_name, Interceptor, ClientConn, service_name, service_methods,
  unary_handler, client_call, list_products_grpc_handler, list_products_client,
  get_product_grpc_handler, get_product_client, create_product_grpc_handler, create_product_client,
  update_product_grpc_handler, update_product_client, delete_product_grpc_handler,
  delete_product_client, export_products_grpc_handler, export_products_client,
  get_product_from_cache_grpc_handler, get_product_from_cache_client, check_kafka_grpc_handler,
  check_kafka_client,
}

-- Each method's full name, which its handler reports to the interceptor and its client sends, is made of
-- the service's name and the method's name in the table.
pub service_methods_lem :
    Each
      (λ ((name, full_name) : String × String). full_name ≡ "/" <> service_name <> "/" <> name)
      service_methods
service_methods_lem = (refl, (refl, (refl, (refl, (refl, (refl, (refl, (refl, tt))))))))

-- The interceptor that only calls the handler.
abbrev pub transparent : {P : Platform} {W Context : Type 0} → Interceptor P W Context
transparent = record { intercept = λ A B ctx req full_method handler. handler ctx req }

module _ {P : Platform} {W Context : Type 0} (srv : ProductServer P W Context) (ctx : Context) where
  -- Every handler runs under the transparent interceptor as it runs with none, whatever its decoder does.
  pub grpc_handlers-transparent :
      (decode_list_products : ListProductsRequest → M W (ListProductsRequest × Err P))
      (decode_get_product : GetProductRequest → M W (GetProductRequest × Err P))
      (decode_create_product : (CreateProductRequest P) → M W ((CreateProductRequest P) × Err P))
      (decode_update_product : (UpdateProductRequest P) → M W ((UpdateProductRequest P) × Err P))
      (decode_delete_product : DeleteProductRequest → M W (DeleteProductRequest × Err P))
      (decode_export_products : ExportProductsRequest → M W (ExportProductsRequest × Err P))
      (decode_get_product_from_cache : GetProductFromCacheRequest
        → M W (GetProductFromCacheRequest × Err P))
      (decode_check_kafka : CheckKafkaRequest → M W (CheckKafkaRequest × Err P))
      → (list_products_grpc_handler srv ctx decode_list_products (some transparent)
          ≡ list_products_grpc_handler srv ctx decode_list_products none)
        × (get_product_grpc_handler srv ctx decode_get_product (some transparent)
            ≡ get_product_grpc_handler srv ctx decode_get_product none)
        × (create_product_grpc_handler srv ctx decode_create_product (some transparent)
            ≡ create_product_grpc_handler srv ctx decode_create_product none)
        × (update_product_grpc_handler srv ctx decode_update_product (some transparent)
            ≡ update_product_grpc_handler srv ctx decode_update_product none)
        × (delete_product_grpc_handler srv ctx decode_delete_product (some transparent)
            ≡ delete_product_grpc_handler srv ctx decode_delete_product none)
        × (export_products_grpc_handler srv ctx decode_export_products (some transparent)
            ≡ export_products_grpc_handler srv ctx decode_export_products none)
        × (get_product_from_cache_grpc_handler srv ctx decode_get_product_from_cache
              (some transparent)
            ≡ get_product_from_cache_grpc_handler srv ctx decode_get_product_from_cache none)
        × (check_kafka_grpc_handler srv ctx decode_check_kafka (some transparent)
            ≡ check_kafka_grpc_handler srv ctx decode_check_kafka none)
  unfolding unary_handler list_products_grpc_handler get_product_grpc_handler
      create_product_grpc_handler update_product_grpc_handler delete_product_grpc_handler
      export_products_grpc_handler get_product_from_cache_grpc_handler check_kafka_grpc_handler
  grpc_handlers-transparent decode_list_products decode_get_product decode_create_product
        decode_update_product decode_delete_product decode_export_products
        decode_get_product_from_cache decode_check_kafka =
      (refl, refl, refl, refl, refl, refl, refl, refl)

module _ {P : Platform} {W : Type 0} (cc : ClientConn P W) where
  -- A call that returns gives a message exactly when it gives no error.
  abbrev pub IsEither : {B : Type 0} → M W (Answer P B) → Type 0
  IsEither {B} m =
      (w w' : W) (resp : Option B) (err : Err P)
      → m w ≡ returned (resp, err) w'
      → (resp ≢ none) ↔ (err ≡ none)

  client_call-IsEither :
      (a b : WireType) (full_method : String) (zero : Message P b) (req : Option (Message P a))
      → IsEither (client_call cc a b full_method zero req)
  unfolding client_call
  client_call-IsEither a b full_method zero req w w' resp err h = ground arith

  -- Whatever the connection does, every call of the client that returns gives a message exactly when it
  -- gives no error.
  pub clients-IsEither :
      (req_list_products : Option ListProductsRequest) (req_get_product : Option GetProductRequest)
      (req_create_product : Option (CreateProductRequest P))
      (req_update_product : Option (UpdateProductRequest P))
      (req_delete_product : Option DeleteProductRequest)
      (req_export_products : Option ExportProductsRequest)
      (req_get_product_from_cache : Option GetProductFromCacheRequest)
      (req_check_kafka : Option CheckKafkaRequest)
      → IsEither (list_products_client cc req_list_products)
        × IsEither (get_product_client cc req_get_product)
        × IsEither (create_product_client cc req_create_product)
        × IsEither (update_product_client cc req_update_product)
        × IsEither (delete_product_client cc req_delete_product)
        × IsEither (export_products_client cc req_export_products)
        × IsEither (get_product_from_cache_client cc req_get_product_from_cache)
        × IsEither (check_kafka_client cc req_check_kafka)
  unfolding list_products_client get_product_client create_product_client update_product_client
      delete_product_client export_products_client get_product_from_cache_client check_kafka_client
  clients-IsEither req_list_products req_get_product req_create_product req_update_product
        req_delete_product req_export_products req_get_product_from_cache req_check_kafka =
      (
        client_call-IsEither (product_message list_products_request)
            (product_message list_products_response) list_products_full_method_name
            ListProductsResponse.zero req_list_products,
        client_call-IsEither (product_message get_product_request)
            (product_message get_product_response) get_product_full_method_name
            GetProductResponse.zero req_get_product,
        client_call-IsEither (product_message create_product_request) empty_message
            create_product_full_method_name empty req_create_product,
        client_call-IsEither (product_message update_product_request) empty_message
            update_product_full_method_name empty req_update_product,
        client_call-IsEither (product_message delete_product_request) empty_message
            delete_product_full_method_name empty req_delete_product,
        client_call-IsEither (product_message export_products_request) file_info_message
            export_products_full_method_name empty_file req_export_products,
        client_call-IsEither (product_message get_product_from_cache_request)
            (product_message get_product_from_cache_response)
            get_product_from_cache_full_method_name GetProductFromCacheResponse.zero
            req_get_product_from_cache,
        client_call-IsEither (product_message check_kafka_request)
            (product_message check_kafka_response) check_kafka_full_method_name
            CheckKafkaResponse.zero req_check_kafka,
      )
