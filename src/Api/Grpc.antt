-- ===== src/Api/Grpc.antt =====
-- api/product/product_grpc.pb.go: the handlers of the gRPC server, its table of methods, and the
-- client. The transport and an interceptor are parameters.
pub mod Laws
pub mod Remote
use platform_idp_demo.Base.{Option, none, some, String, List, [], ◌∷◌}
use platform_idp_demo.Go.{M, pure, ◌>>=◌}
use platform_idp_demo.Platform.{Platform, Err}
use platform_idp_demo.Pmcpb.{FileInfo, empty_file}
use platform_idp_demo.Api.Server.{ProductServer, Answer, Empty, empty}
use platform_idp_demo.Api.Wire.{
  WireType, Message, product_message, empty_message, file_info_message,
}
use platform_idp_demo.Api.Errors.{
  list_products_request, list_products_response, get_product_request, get_product_response,
  create_product_request, update_product_request, delete_product_request, export_products_request,
  get_product_from_cache_request, get_product_from_cache_response, check_kafka_request,
  check_kafka_response,
}
use platform_idp_demo.Api.ListProductsRequest.{ListProductsRequest}
use platform_idp_demo.Api.GetProductRequest.{GetProductRequest}
use platform_idp_demo.Api.CreateProductRequest.{CreateProductRequest}
use platform_idp_demo.Api.UpdateProductRequest.{UpdateProductRequest}
use platform_idp_demo.Api.DeleteProductRequest.{DeleteProductRequest}
use platform_idp_demo.Api.ExportProductsRequest.{ExportProductsRequest}
use platform_idp_demo.Api.GetProductFromCacheRequest.{GetProductFromCacheRequest}
use platform_idp_demo.Api.CheckKafkaRequest.{CheckKafkaRequest}
use platform_idp_demo.Api.ListProductsResponse.{ListProductsResponse}
use platform_idp_demo.Api.GetProductResponse.{GetProductResponse}
use platform_idp_demo.Api.GetProductFromCacheResponse.{GetProductFromCacheResponse}
use platform_idp_demo.Api.CheckKafkaResponse.{CheckKafkaResponse}
use platform_idp_demo.Api.ListProductsRequest
use platform_idp_demo.Api.GetProductRequest
use platform_idp_demo.Api.CreateProductRequest
use platform_idp_demo.Api.UpdateProductRequest
use platform_idp_demo.Api.DeleteProductRequest
use platform_idp_demo.Api.ExportProductsRequest
use platform_idp_demo.Api.GetProductFromCacheRequest
use platform_idp_demo.Api.CheckKafkaRequest
use platform_idp_demo.Api.CheckKafkaResponse
use platform_idp_demo.Api.GetProductFromCacheResponse
use platform_idp_demo.Api.GetProductResponse
use platform_idp_demo.Api.ListProductsResponse

-- `grpc.UnaryServerInterceptor`, at the type of each request and response: it gets the full name of
-- the method and a handler that calls it.
pub record Interceptor (P : Platform) (W Context : Type 0) : Type 1 where
  pub intercept :
      (A B : Type 0) → Context → A → String → (Context → A → M W (Answer P B)) → M W (Answer P B)

-- `cc.Invoke`: the response that the given one is filled to, and the error.
pub record ClientConn (P : Platform) (W : Type 0) : Type 1 where
  pub invoke :
      (a b : WireType) → String → Option (Message P a) → Message P b → M W (Message P b × Err P)

abbrev pub service_name : String
service_name = "go.service.template.product.Product"

abbrev pub list_products_full_method_name : String
list_products_full_method_name = "/go.service.template.product.Product/ListProducts"

abbrev pub get_product_full_method_name : String
get_product_full_method_name = "/go.service.template.product.Product/GetProduct"

abbrev pub create_product_full_method_name : String
create_product_full_method_name = "/go.service.template.product.Product/CreateProduct"

abbrev pub update_product_full_method_name : String
update_product_full_method_name = "/go.service.template.product.Product/UpdateProduct"

abbrev pub delete_product_full_method_name : String
delete_product_full_method_name = "/go.service.template.product.Product/DeleteProduct"

abbrev pub export_products_full_method_name : String
export_products_full_method_name = "/go.service.template.product.Product/ExportProducts"

abbrev pub get_product_from_cache_full_method_name : String
get_product_from_cache_full_method_name = "/go.service.template.product.Product/GetProductFromCache"

abbrev pub check_kafka_full_method_name : String
check_kafka_full_method_name = "/go.service.template.product.Product/CheckKafka"

-- The names of the methods in `Product_ServiceDesc`, with the full names that their handlers report.
abbrev pub service_methods : List (String × String)
service_methods =
    ("ListProducts", list_products_full_method_name)
    ∷ ("GetProduct", get_product_full_method_name)
    ∷ ("CreateProduct", create_product_full_method_name)
    ∷ ("UpdateProduct", update_product_full_method_name)
    ∷ ("DeleteProduct", delete_product_full_method_name)
    ∷ ("ExportProducts", export_products_full_method_name)
    ∷ ("GetProductFromCache", get_product_from_cache_full_method_name)
    ∷ ("CheckKafka", check_kafka_full_method_name)
    ∷ []

-- What the handlers call of the gRPC server, with a state of its own: `zrpc.RpcServer.AddUnaryInterceptors`
-- and `grpc.Server.RegisterService`, which takes the descriptor, here its service's name, and the server.
pub record GrpcServer (P : Platform) (W Context : Type 0) : Type 1 where
  pub State : Type 0
  pub add_unary_interceptors : List (Interceptor P W Context) → M State (Unit {0})
  pub register_service : String → ProductServer P W Context → M State (Unit {0})

module _ {P : Platform} {W Context : Type 0} where
  unfoldable pub register_product_server :
      (G : GrpcServer P W Context) → ProductServer P W Context → M G.State (Unit {0})
  register_product_server G srv = G.register_service service_name srv

  -- The body that the generated handlers share: decode, then call the method, through the
  -- interceptor if there is one.
  unfoldable pub unary_handler :
      {A B : Type 0}
      → String
      → A
      → (Context → Option A → M W (Answer P B))
      → Context
      → (A → M W (A × Err P))
      → Option (Interceptor P W Context)
      → M W (Answer P B)
  unary_handler {A} {B} full_method zero method ctx decode interceptor = do
    (req, err) ← decode zero
    elim err [
      | some e ↦ pure (none, some e)
      | none ↦ elim interceptor [
        | none ↦ method ctx (some req)
        | some i ↦ i.intercept A B ctx req full_method (λ ctx' req'. method ctx' (some req'))
      ]
    ]

  module _ (srv : ProductServer P W Context) (ctx : Context) where
    unfoldable pub list_products_grpc_handler :
        (ListProductsRequest → M W (ListProductsRequest × Err P))
        → Option (Interceptor P W Context)
        → M W (Answer P (ListProductsResponse P))
    unfolding unary_handler
    list_products_grpc_handler =
        unary_handler list_products_full_method_name ListProductsRequest.zero srv.list_products ctx

    unfoldable pub get_product_grpc_handler :
        (GetProductRequest → M W (GetProductRequest × Err P))
        → Option (Interceptor P W Context)
        → M W (Answer P (GetProductResponse P))
    unfolding unary_handler
    get_product_grpc_handler =
        unary_handler get_product_full_method_name GetProductRequest.zero srv.get_product ctx

    unfoldable pub create_product_grpc_handler :
        ((CreateProductRequest P) → M W ((CreateProductRequest P) × Err P))
        → Option (Interceptor P W Context)
        → M W (Answer P Empty)
    unfolding unary_handler
    create_product_grpc_handler =
        unary_handler create_product_full_method_name CreateProductRequest.zero srv.create_product
          ctx

    unfoldable pub update_product_grpc_handler :
        ((UpdateProductRequest P) → M W ((UpdateProductRequest P) × Err P))
        → Option (Interceptor P W Context)
        → M W (Answer P Empty)
    unfolding unary_handler
    update_product_grpc_handler =
        unary_handler update_product_full_method_name UpdateProductRequest.zero srv.update_product
          ctx

    unfoldable pub delete_product_grpc_handler :
        (DeleteProductRequest → M W (DeleteProductRequest × Err P))
        → Option (Interceptor P W Context)
        → M W (Answer P Empty)
    unfolding unary_handler
    delete_product_grpc_handler =
        unary_handler delete_product_full_method_name DeleteProductRequest.zero srv.delete_product
          ctx

    unfoldable pub export_products_grpc_handler :
        (ExportProductsRequest → M W (ExportProductsRequest × Err P))
        → Option (Interceptor P W Context)
        → M W (Answer P FileInfo)
    unfolding unary_handler
    export_products_grpc_handler =
        unary_handler export_products_full_method_name ExportProductsRequest.zero
          srv.export_products ctx

    unfoldable pub get_product_from_cache_grpc_handler :
        (GetProductFromCacheRequest → M W (GetProductFromCacheRequest × Err P))
        → Option (Interceptor P W Context)
        → M W (Answer P GetProductFromCacheResponse)
    unfolding unary_handler
    get_product_from_cache_grpc_handler =
        unary_handler get_product_from_cache_full_method_name GetProductFromCacheRequest.zero
          srv.get_product_from_cache ctx

    unfoldable pub check_kafka_grpc_handler :
        (CheckKafkaRequest → M W (CheckKafkaRequest × Err P))
        → Option (Interceptor P W Context)
        → M W (Answer P CheckKafkaResponse)
    unfolding unary_handler
    check_kafka_grpc_handler =
        unary_handler check_kafka_full_method_name CheckKafkaRequest.zero srv.check_kafka ctx

module _ {P : Platform} {W : Type 0} (cc : ClientConn P W) where
  -- The body that the client's methods share.
  unfoldable pub client_call :
      (a b : WireType) → String → Message P b → Option (Message P a) → M W (Answer P (Message P b))
  client_call a b full_method zero req = do
    (out, err) ← cc.invoke a b full_method req zero
    elim err [ some e ↦ pure (none, some e) | none ↦ pure (some out, none) ]

  unfoldable pub list_products_client :
      Option ListProductsRequest → M W (Answer P (ListProductsResponse P))
  unfolding client_call
  list_products_client =
      client_call (product_message list_products_request) (product_message list_products_response)
        list_products_full_method_name ListProductsResponse.zero

  unfoldable pub get_product_client :
      Option GetProductRequest → M W (Answer P (GetProductResponse P))
  unfolding client_call
  get_product_client =
      client_call (product_message get_product_request) (product_message get_product_response)
        get_product_full_method_name GetProductResponse.zero

  unfoldable pub create_product_client : Option (CreateProductRequest P) → M W (Answer P Empty)
  unfolding client_call
  create_product_client =
      client_call (product_message create_product_request) empty_message
        create_product_full_method_name empty

  unfoldable pub update_product_client : Option (UpdateProductRequest P) → M W (Answer P Empty)
  unfolding client_call
  update_product_client =
      client_call (product_message update_product_request) empty_message
        update_product_full_method_name empty

  unfoldable pub delete_product_client : Option DeleteProductRequest → M W (Answer P Empty)
  unfolding client_call
  delete_product_client =
      client_call (product_message delete_product_request) empty_message
        delete_product_full_method_name empty

  unfoldable pub export_products_client : Option ExportProductsRequest → M W (Answer P FileInfo)
  unfolding client_call
  export_products_client =
      client_call (product_message export_products_request) file_info_message
        export_products_full_method_name empty_file

  unfoldable pub get_product_from_cache_client :
      Option GetProductFromCacheRequest → M W (Answer P GetProductFromCacheResponse)
  unfolding client_call
  get_product_from_cache_client =
      client_call (product_message get_product_from_cache_request)
        (product_message get_product_from_cache_response) get_product_from_cache_full_method_name
        GetProductFromCacheResponse.zero

  unfoldable pub check_kafka_client : Option CheckKafkaRequest → M W (Answer P CheckKafkaResponse)
  unfolding client_call
  check_kafka_client =
      client_call (product_message check_kafka_request) (product_message check_kafka_response)
        check_kafka_full_method_name CheckKafkaResponse.zero
