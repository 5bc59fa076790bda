-- ===== src/Api/Http.antt =====
-- api/product/product_http.pb.go. The packages request, response and logx are not part of the
-- repository: `HttpServer` is what the code calls of them.
pub mod Laws
use platform_idp_demo.Base.{Option, none, some, String, List, [], ◌∷◌}
use platform_idp_demo.Go.{M, pure, ◌>>=◌, ◌>>◌}
use platform_idp_demo.Platform.{Platform, Err}
use platform_idp_demo.Api.Errors.{Error}
use platform_idp_demo.Api.Server.{ProductServer, Answer}
use platform_idp_demo.Api.ListProductsRequest
use platform_idp_demo.Api.GetProductRequest
use platform_idp_demo.Api.CreateProductRequest
use platform_idp_demo.Api.UpdateProductRequest
use platform_idp_demo.Api.DeleteProductRequest
use platform_idp_demo.Api.ExportProductsRequest
use platform_idp_demo.Api.GetProductFromCacheRequest
use platform_idp_demo.Api.CheckKafkaRequest

pub record HttpServer (P : Platform) (W Context : Type 0) : Type 1 where
  -- `*http.Request`
  pub Request : Type 0
  pub context_of : Request → Context
  -- What `interface{}(in).(request.RequestBinder)` finds: the `Bind` of the message type, if any
  pub binder : (A : Type 0) → Option (Request → A → M W (A × Err P))
  -- `request.Parse(r, in)`: the message then, and the error
  pub parse : (A : Type 0) → Request → A → M W (A × Err P)
  -- `response.Error`, `response.Write` and `response.OkJson`
  pub respond_error : Error P.Failure → M W (Unit {0})
  pub respond : (B : Type 0) → Request → Option B → M W (Err P)
  pub ok_json : List (String × String) → M W (Unit {0})
  -- `logx.WithContext(r.Context()).Error`
  pub log_error : Error P.Failure → M W (Unit {0})

module _ {P : Platform} {W Context : Type 0} (S : HttpServer P W Context) where
  -- `http.HandlerFunc`
  abbrev pub HandlerFunc : Type 0
  HandlerFunc = S.Request → M W (Unit {0})

  pub record Route : Type 0 where
    pub method : String
    pub path : String
    pub handler : HandlerFunc

  abbrev pub bind_request : {A : Type 0} → A → S.Request → M W (A × Err P)
  bind_request {A} zero r = elim (S.binder A) [ some bind ↦ bind r zero | none ↦ S.parse A r zero ]

  -- The end of a handler that has a response: write it, and log a failure to write.
  unfoldable pub write_response : {B : Type 0} → S.Request → Option B → M W (Unit {0})
  write_response {B} r resp = do
    err ← S.respond B r resp
    elim err [ some e ↦ S.log_error e | none ↦ pure tt ]

  -- The body that the generated handlers share.
  unfoldable pub http_handler :
      {A B : Type 0} → A → (Context → Option A → M W (Answer P B)) → HandlerFunc
  unfolding write_response
  http_handler zero method r = do
    (req, err) ← bind_request zero r
    elim err [
      | some e ↦ S.respond_error (P.bad_request e)
      | none ↦ do
        (resp, err') ← method (S.context_of r) (some req)
        elim err' [ some e ↦ S.respond_error e | none ↦ write_response r resp ]
    ]

  module _ (srv : ProductServer P W Context) where
    unfoldable pub list_products_http_handler : HandlerFunc
    unfolding http_handler
    list_products_http_handler = http_handler ListProductsRequest.zero srv.list_products

    unfoldable pub get_product_http_handler : HandlerFunc
    unfolding http_handler
    get_product_http_handler = http_handler GetProductRequest.zero srv.get_product

    unfoldable pub create_product_http_handler : HandlerFunc
    unfolding http_handler
    create_product_http_handler = http_handler CreateProductRequest.zero srv.create_product

    unfoldable pub update_product_http_handler : HandlerFunc
    unfolding http_handler
    update_product_http_handler = http_handler UpdateProductRequest.zero srv.update_product

    unfoldable pub delete_product_http_handler : HandlerFunc
    unfolding http_handler
    delete_product_http_handler = http_handler DeleteProductRequest.zero srv.delete_product

    unfoldable pub export_products_http_handler : HandlerFunc
    unfolding http_handler
    export_products_http_handler = http_handler ExportProductsRequest.zero srv.export_products

    unfoldable pub get_product_from_cache_http_handler : HandlerFunc
    unfolding http_handler
    get_product_from_cache_http_handler =
        http_handler GetProductFromCacheRequest.zero srv.get_product_from_cache

    unfoldable pub check_kafka_http_handler : HandlerFunc
    unfolding http_handler
    check_kafka_http_handler = http_handler CheckKafkaRequest.zero srv.check_kafka

    unfoldable pub register_product_http_server : List Route
    unfolding list_products_http_handler get_product_http_handler create_product_http_handler
        update_product_http_handler delete_product_http_handler export_products_http_handler
        get_product_from_cache_http_handler check_kafka_http_handler
    register_product_http_server =
        record {
          method = "GET";
          path = "/boilerplate-svc/api/v1/products";
          handler = list_products_http_handler;
        }
        ∷ record {
          method = "GET";
          path = "/boilerplate-svc/api/v1/products/:uid";
          handler = get_product_http_handler;
        }
        ∷ record {
          method = "POST";
          path = "/boilerplate-svc/api/v1/products";
          handler = create_product_http_handler;
        }
        ∷ record {
          method = "PUT";
          path = "/boilerplate-svc/api/v1/products/:uid";
          handler = update_product_http_handler;
        }
        ∷ record {
          method = "DELETE";
          path = "/boilerplate-svc/api/v1/products/:uid";
          handler = delete_product_http_handler;
        }
        ∷ record {
          method = "GET";
          path = "/boilerplate-svc/api/v1/products/export";
          handler = export_products_http_handler;
        }
        ∷ record {
          method = "GET";
          path = "/boilerplate-svc/api/v1/products/cache/:sku";
          handler = get_product_from_cache_http_handler;
        }
        ∷ record {
          method = "GET";
          path = "/boilerplate-svc/api/v1/kafka/check";
          handler = check_kafka_http_handler;
        }
        ∷ []
