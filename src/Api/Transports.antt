-- ===== src/Api/Transports.antt =====
-- The HTTP and the gRPC handlers of one server against each other.
use platform_idp_demo.Base.{◌≡◌, refl, String, Option, none, some}
use platform_idp_demo.Go.{M, Exec, pure, returned, panicked, out_of_fuel, ◌>>=◌}
use platform_idp_demo.Platform.{Platform, Err}
use platform_idp_demo.Api.Server.{ProductServer, Answer}
use platform_idp_demo.Api.ListProductsRequest
use platform_idp_demo.Api.GetProductRequest
use platform_idp_demo.Api.CreateProductRequest
use platform_idp_demo.Api.UpdateProductRequest
use platform_idp_demo.Api.DeleteProductRequest
use platform_idp_demo.Api.ExportProductsRequest
use platform_idp_demo.Api.GetProductFromCacheRequest
use platform_idp_demo.Api.CheckKafkaRequest
use platform_idp_demo.Api.Http.{
  HttpServer, HandlerFunc, bind_request, write_response, http_handler, list_products_http_handler,
  get_product_http_handler, create_product_http_handler, update_product_http_handler,
  delete_product_http_handler, export_products_http_handler, get_product_from_cache_http_handler,
  check_kafka_http_handler,
}
use platform_idp_demo.Api.Grpc.{
  unary_handler, list_products_full_method_name, get_product_full_method_name,
  create_product_full_method_name, update_product_full_method_name, delete_product_full_method_name,
  export_products_full_method_name, get_product_from_cache_full_method_name,
  check_kafka_full_method_name, list_products_grpc_handler, get_product_grpc_handler,
  create_product_grpc_handler, update_product_grpc_handler, delete_product_grpc_handler,
  export_products_grpc_handler, get_product_from_cache_grpc_handler, check_kafka_grpc_handler,
}

module _ {P : Platform} {W Context : Type 0} (S : HttpServer P W Context) (r : S.Request) where
  -- The error of a decoder for the error of a binding.
  abbrev pub decode_error : Err P → Err P
  decode_error none = none
  decode_error (some e) = some (P.bad_request e)

  -- The decoder that binds the HTTP request, and calls a request that it cannot bind a bad request.
  abbrev pub decode : {A : Type 0} → A → M W (A × Err P)
  decode zero = do (m, err) ← bind_request S zero r; pure (m, decode_error err)

  -- What a handler sends for an answer: the error, or the response.
  abbrev pub send : {B : Type 0} → Answer P B → M W (Unit {0})
  send (resp, none) = write_response S r resp
  send (resp, some e) = S.respond_error e

  -- The HTTP handler sends what the gRPC handler answers.
  abbrev pub SendsAnswer : {B : Type 0} → HandlerFunc S → M W (Answer P B) → W → Type 0
  SendsAnswer http grpc w = http r w ≡ (do answer ← grpc; send answer) w

  http_handler-unary_handler :
      {A B : Type 0} (w : W) (name : String) (zero : A)
      (method : Context → Option A → M W (Answer P B))
      → SendsAnswer
          (http_handler S zero method)
          (unary_handler {P = P} name zero method (S.context_of r) decode none)
          w
  unfolding http_handler unary_handler
  http_handler-unary_handler {A} w name zero method = bound (bind_request S zero r w) refl
    where
      Goal : Type 0
      Goal =
          SendsAnswer (http_handler S zero method)
            (unary_handler {P = P} name zero method (S.context_of r) decode none) w

      answered :
          (m : A) (w₁ : W)
          → bind_request S zero r w ≡ returned (m, none) w₁
          → (end : Exec W (Answer P _)) → method (S.context_of r) (some m) w₁ ≡ end
          → Goal
      answered m w₁ is_bound (returned (resp, none) w₂) ran = rw (is_bound, ran) refl
      answered m w₁ is_bound (returned (resp, some e) w₂) ran = rw (is_bound, ran) refl
      answered m w₁ is_bound (panicked w₂) ran = rw (is_bound, ran) refl
      answered m w₁ is_bound (out_of_fuel w₂) ran = rw (is_bound, ran) refl

      bound : (end : Exec W (A × Err P)) → bind_request S zero r w ≡ end → Goal
      bound (returned (m, none) w₁) is_bound =
          answered m w₁ is_bound (method (S.context_of r) (some m) w₁) refl
      bound (returned (m, some e) w₁) is_bound = rw is_bound refl
      bound (panicked w₁) is_bound = rw is_bound refl
      bound (out_of_fuel w₁) is_bound = rw is_bound refl

  -- Each of the eight HTTP handlers sends what the gRPC handler of the same method answers, without an
  -- interceptor, when its decoder binds the HTTP request to the handler's message and gives a bad request for
  -- an error of the binding: the response, or the error, which is the bad request when the binding failed and
  -- that of the method otherwise. The two end alike also when the binding or the method panics.
  pub http_handlers-grpc_handlers :
      (srv : ProductServer P W Context) (w : W)
      → SendsAnswer
          (list_products_http_handler S srv)
          (list_products_grpc_handler srv (S.context_of r) decode none)
          w
        × SendsAnswer
            (get_product_http_handler S srv)
            (get_product_grpc_handler srv (S.context_of r) decode none)
            w
        × SendsAnswer
            (create_product_http_handler S srv)
            (create_product_grpc_handler srv (S.context_of r) decode none)
            w
        × SendsAnswer
            (update_product_http_handler S srv)
            (update_product_grpc_handler srv (S.context_of r) decode none)
            w
        × SendsAnswer
            (delete_product_http_handler S srv)
            (delete_product_grpc_handler srv (S.context_of r) decode none)
            w
        × SendsAnswer
            (export_products_http_handler S srv)
            (export_products_grpc_handler srv (S.context_of r) decode none)
            w
        × SendsAnswer
            (get_product_from_cache_http_handler S srv)
            (get_product_from_cache_grpc_handler srv (S.context_of r) decode none)
            w
        × SendsAnswer
            (check_kafka_http_handler S srv)
            (check_kafka_grpc_handler srv (S.context_of r) decode none)
            w
  unfolding list_products_http_handler list_products_grpc_handler get_product_http_handler
      get_product_grpc_handler create_product_http_handler create_product_grpc_handler
      update_product_http_handler update_product_grpc_handler delete_product_http_handler
      delete_product_grpc_handler export_products_http_handler export_products_grpc_handler
      get_product_from_cache_http_handler get_product_from_cache_grpc_handler
      check_kafka_http_handler check_kafka_grpc_handler
  http_handlers-grpc_handlers srv w = (
    http_handler-unary_handler w list_products_full_method_name ListProductsRequest.zero
        srv.list_products,
    http_handler-unary_handler w get_product_full_method_name GetProductRequest.zero
        srv.get_product,
    http_handler-unary_handler w create_product_full_method_name CreateProductRequest.zero
        srv.create_product,
    http_handler-unary_handler w update_product_full_method_name UpdateProductRequest.zero
        srv.update_product,
    http_handler-unary_handler w delete_product_full_method_name DeleteProductRequest.zero
        srv.delete_product,
    http_handler-unary_handler w export_products_full_method_name ExportProductsRequest.zero
        srv.export_products,
    http_handler-unary_handler w get_product_from_cache_full_method_name
        GetProductFromCacheRequest.zero srv.get_product_from_cache,
    http_handler-unary_handler w check_kafka_full_method_name CheckKafkaRequest.zero
        srv.check_kafka,
  )
