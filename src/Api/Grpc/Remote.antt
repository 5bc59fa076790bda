-- ===== src/Api/Grpc/Remote.antt =====
-- The client of api/product/product_grpc.pb.go as a whole, and its calls over a connection that brings them
-- to a server: what the caller gets of the server's answer.
use platform_idp_demo.Base.{◌≡◌, refl, Option, none, some, String}
use platform_idp_demo.Go.{M, Exec, pure, returned, panicked, out_of_fuel, ◌>>=◌}
use platform_idp_demo.Platform.{Platform, Err}
use platform_idp_demo.Pmcpb.{FileInfo, empty_file}
use platform_idp_demo.Api.Errors.{Error}
use platform_idp_demo.Api.Wire.{
  WireType, Message, product_message, empty_message, file_info_message,
}
use platform_idp_demo.Api.Errors.{
  list_products_request, list_products_response, get_product_request, get_product_response,
  create_product_request, update_product_request, delete_product_request, export_products_request,
  get_product_from_cache_request, get_product_from_cache_response, check_kafka_request,
  check_kafka_response,
}
use platform_idp_demo.Api.Server.{ProductServer, Answer, Empty, empty}
use platform_idp_demo.Api.ListProductsRequest.{ListProductsRequest}
use platform_idp_demo.Api.ListProductsResponse.{ListProductsResponse}
use platform_idp_demo.Api.GetProductRequest.{GetProductRequest}
use platform_idp_demo.Api.GetProductResponse.{GetProductResponse}
use platform_idp_demo.Api.CreateProductRequest.{CreateProductRequest}
use platform_idp_demo.Api.UpdateProductRequest.{UpdateProductRequest}
use platform_idp_demo.Api.DeleteProductRequest.{DeleteProductRequest}
use platform_idp_demo.Api.ExportProductsRequest.{ExportProductsRequest}
use platform_idp_demo.Api.GetProductFromCacheRequest.{GetProductFromCacheRequest}
use platform_idp_demo.Api.GetProductFromCacheResponse.{GetProductFromCacheResponse}
use platform_idp_demo.Api.CheckKafkaRequest.{CheckKafkaRequest}
use platform_idp_demo.Api.CheckKafkaResponse.{CheckKafkaResponse}
use platform_idp_demo.Api.ListProductsResponse
use platform_idp_demo.Api.GetProductResponse
use platform_idp_demo.Api.GetProductFromCacheResponse
use platform_idp_demo.Api.CheckKafkaResponse
use platform_idp_demo.Api.ListProductsRequest
use platform_idp_demo.Api.GetProductRequest
use platform_idp_demo.Api.CreateProductRequest
use platform_idp_demo.Api.UpdateProductRequest
use platform_idp_demo.Api.DeleteProductRequest
use platform_idp_demo.Api.ExportProductsRequest
use platform_idp_demo.Api.GetProductFromCacheRequest
use platform_idp_demo.Api.CheckKafkaRequest
use platform_idp_demo.Api.Grpc.{
  ClientConn, unary_handler, client_call, list_products_full_method_name,
  list_products_grpc_handler, list_products_client, get_product_full_method_name,
  get_product_grpc_handler, get_product_client, create_product_full_method_name,
  create_product_grpc_handler, create_product_client, update_product_full_method_name,
  update_product_grpc_handler, update_product_client, delete_product_full_method_name,
  delete_product_grpc_handler, delete_product_client, export_products_full_method_name,
  export_products_grpc_handler, export_products_client, get_product_from_cache_full_method_name,
  get_product_from_cache_grpc_handler, get_product_from_cache_client, check_kafka_full_method_name,
  check_kafka_grpc_handler, check_kafka_client,
}

-- The interface `ProductClient`.
pub record ProductClient (P : Platform) (W : Type 0) : Type 0 where
  pub list_products : Option ListProductsRequest → M W (Answer P (ListProductsResponse P))
  pub get_product : Option GetProductRequest → M W (Answer P (GetProductResponse P))
  pub create_product : Option (CreateProductRequest P) → M W (Answer P Empty)
  pub update_product : Option (UpdateProductRequest P) → M W (Answer P Empty)
  pub delete_product : Option DeleteProductRequest → M W (Answer P Empty)
  pub export_products : Option ExportProductsRequest → M W (Answer P FileInfo)
  pub get_product_from_cache :
      Option GetProductFromCacheRequest → M W (Answer P GetProductFromCacheResponse)
  pub check_kafka : Option CheckKafkaRequest → M W (Answer P CheckKafkaResponse)

abbrev pub new_product_client : {P : Platform} {W : Type 0} → ClientConn P W → ProductClient P W
new_product_client cc = record {
  list_products = list_products_client cc;
  get_product = get_product_client cc;
  create_product = create_product_client cc;
  update_product = update_product_client cc;
  delete_product = delete_product_client cc;
  export_products = export_products_client cc;
  get_product_from_cache = get_product_from_cache_client cc;
  check_kafka = check_kafka_client cc;
}

module _ (P : Platform) (through : Error P.Failure → Error P.Failure) where
  -- What arrives of a server's answer: its error as a status, or else its response, filled into an empty
  -- message; a nil response has no fields to fill in.
  abbrev pub arrived : {B : Type 0} → B → Answer P B → B × Err P
  arrived zero (resp, some e) = (zero, some (through e))
  arrived zero (some resp, none) = (resp, none)
  arrived zero (none, none) = (zero, none)

  -- What the caller of the client gets of a server's answer.
  abbrev pub received : {B : Type 0} → B → Answer P B → Answer P B
  received zero (resp, some e) = (none, some (through e))
  received zero (some resp, none) = (some resp, none)
  received zero (none, none) = (some zero, none)

  -- The connection brings a message to the handler of its method, and the answer back.
  abbrev pub Carries :
      {W : Type 0}
      → ClientConn P W
      → (a b : WireType) → String
      → Message P b
      → ((Message P a → M W (Message P a × Err P)) → M W (Answer P (Message P b)))
      → Type 0
  Carries {W} conn a b name zero handler =
      (req : Message P a) (w : W)
      → conn.invoke a b name (some req) zero w
        ≡ (do answer ← handler (λ z. pure (req, none)); pure (arrived zero answer)) w

  -- The caller of a method gets what the server's method answers to the message.
  abbrev pub Serves :
      {W A B : Type 0} → B → (Option A → M W (Answer P B)) → (Option A → M W (Answer P B)) → Type 0
  Serves {W} {A} zero call method =
      (req : A) (w : W)
      → call (some req) w ≡ (do answer ← method (some req); pure (received zero answer)) w

  -- A connection to a server without an interceptor.
  pub record Connects {W Context : Type 0} (cc : ClientConn P W) (srv : ProductServer P W Context)
      (ctx : Context) : Type 0 where
    pub list_products :
        Carries cc
          (product_message list_products_request)
          (product_message list_products_response)
          list_products_full_method_name
          ListProductsResponse.zero
          (λ decode. list_products_grpc_handler srv ctx decode none)
    pub get_product :
        Carries cc
          (product_message get_product_request)
          (product_message get_product_response)
          get_product_full_method_name
          GetProductResponse.zero
          (λ decode. get_product_grpc_handler srv ctx decode none)
    pub create_product :
        Carries cc
          (product_message create_product_request)
          empty_message
          create_product_full_method_name
          empty
          (λ decode. create_product_grpc_handler srv ctx decode none)
    pub update_product :
        Carries cc
          (product_message update_product_request)
          empty_message
          update_product_full_method_name
          empty
          (λ decode. update_product_grpc_handler srv ctx decode none)
    pub delete_product :
        Carries cc
          (product_message delete_product_request)
          empty_message
          delete_product_full_method_name
          empty
          (λ decode. delete_product_grpc_handler srv ctx decode none)
    pub export_products :
        Carries cc
          (product_message export_products_request)
          file_info_message
          export_products_full_method_name
          empty_file
          (λ decode. export_products_grpc_handler srv ctx decode none)
    pub get_product_from_cache :
        Carries cc
          (product_message get_product_from_cache_request)
          (product_message get_product_from_cache_response)
          get_product_from_cache_full_method_name
          GetProductFromCacheResponse.zero
          (λ decode. get_product_from_cache_grpc_handler srv ctx decode none)
    pub check_kafka :
        Carries cc
          (product_message check_kafka_request)
          (product_message check_kafka_response)
          check_kafka_full_method_name
          CheckKafkaResponse.zero
          (λ decode. check_kafka_grpc_handler srv ctx decode none)

  client_call-unary_handler :
      {W Context : Type 0} (cc : ClientConn P W) (a b : WireType) (name : String)
      (zero_req : Message P a) (zero : Message P b)
      (method : Context → Option (Message P a) → M W (Answer P (Message P b))) (ctx : Context)
      → Carries cc a b name zero
          (λ decode. unary_handler {P = P} name zero_req method ctx decode none)
      → Serves zero (client_call cc a b name zero) (method ctx)
  unfolding client_call unary_handler
  client_call-unary_handler {W} cc a b name zero_req zero method ctx carries req w =
      go (method ctx (some req) w) refl
    where
      go :
          (end : Exec W (Answer P (Message P b)))
          → method ctx (some req) w ≡ end
          → client_call cc a b name zero (some req) w
            ≡ (do answer ← method ctx (some req); pure (received zero answer)) w
      go (returned (resp, some e) w') ran = rw (carries req w, ran) refl
      go (returned (some resp, none) w') ran = rw (carries req w, ran) refl
      go (returned (none, none) w') ran = rw (carries req w, ran) refl
      go (panicked w') ran = rw (carries req w, ran) refl
      go (out_of_fuel w') ran = rw (carries req w, ran) refl

  -- Over a connection to a server without an interceptor, which brings the message of each method to the
  -- server's handler and its answer back, the caller of each of the client's eight methods gets what the
  -- server's method answers to the message: its response if there is no error, an empty message if the
  -- response is nil too, or no message and the status of the error.
  pub new_product_client-Serves :
      {W Context : Type 0} (cc : ClientConn P W) (srv : ProductServer P W Context) (ctx : Context)
      → Connects cc srv ctx
      → Serves ListProductsResponse.zero
          (new_product_client cc).list_products
          (srv.list_products ctx)
        × Serves GetProductResponse.zero (new_product_client cc).get_product (srv.get_product ctx)
        × Serves empty (new_product_client cc).create_product (srv.create_product ctx)
        × Serves empty (new_product_client cc).update_product (srv.update_product ctx)
        × Serves empty (new_product_client cc).delete_product (srv.delete_product ctx)
        × Serves empty_file (new_product_client cc).export_products (srv.export_products ctx)
        × Serves GetProductFromCacheResponse.zero
            (new_product_client cc).get_product_from_cache
            (srv.get_product_from_cache ctx)
        × Serves CheckKafkaResponse.zero (new_product_client cc).check_kafka (srv.check_kafka ctx)
  unfolding list_products_client list_products_grpc_handler get_product_client
      get_product_grpc_handler create_product_client create_product_grpc_handler
      update_product_client update_product_grpc_handler delete_product_client
      delete_product_grpc_handler export_products_client export_products_grpc_handler
      get_product_from_cache_client get_product_from_cache_grpc_handler check_kafka_client
      check_kafka_grpc_handler
  new_product_client-Serves cc srv ctx connects = (
    client_call-unary_handler cc (product_message list_products_request)
        (product_message list_products_response) list_products_full_method_name
        ListProductsRequest.zero ListProductsResponse.zero srv.list_products ctx
        connects.list_products,
    client_call-unary_handler cc (product_message get_product_request)
        (product_message get_product_response) get_product_full_method_name GetProductRequest.zero
        GetProductResponse.zero srv.get_product ctx connects.get_product,
    client_call-unary_handler cc (product_message create_product_request) empty_message
        create_product_full_method_name CreateProductRequest.zero empty srv.create_product ctx
        connects.create_product,
    client_call-unary_handler cc (product_message update_product_request) empty_message
        update_product_full_method_name UpdateProductRequest.zero empty srv.update_product ctx
        connects.update_product,
    client_call-unary_handler cc (product_message delete_product_request) empty_message
        delete_product_full_method_name DeleteProductRequest.zero empty srv.delete_product ctx
        connects.delete_product,
    client_call-unary_handler cc (product_message export_products_request) file_info_message
        export_products_full_method_name ExportProductsRequest.zero empty_file srv.export_products
        ctx connects.export_products,
    client_call-unary_handler cc (product_message get_product_from_cache_request)
        (product_message get_product_from_cache_response) get_product_from_cache_full_method_name
        GetProductFromCacheRequest.zero GetProductFromCacheResponse.zero srv.get_product_from_cache
        ctx connects.get_product_from_cache,
    client_call-unary_handler cc (product_message check_kafka_request)
        (product_message check_kafka_response) check_kafka_full_method_name CheckKafkaRequest.zero
        CheckKafkaResponse.zero srv.check_kafka ctx connects.check_kafka,
  )
