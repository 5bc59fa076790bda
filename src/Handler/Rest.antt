-- ===== src/Handler/Rest.antt =====
-- internal/handler: http_handler.go and client_handler.go, which register the routes of the HTTP
-- server, and the methods of `ProductHandler` as the server interface.
pub mod Laws
pub mod Stored
use platform_idp_demo.Base.{
  ◌≡◌, ◌∙◌, String, Bool, not, List, [], ◌∷◌, ◌++◌, concat, append_assoc, append-nil,
}
use platform_idp_demo.Base.Text.{◌<>◌}
use platform_idp_demo.Platform.{Platform}
use platform_idp_demo.Api.Server.{ProductServer}
use platform_idp_demo.Api.Http.{HttpServer, Route, HandlerFunc, register_product_http_server}
use platform_idp_demo.Service.{ProductService}
use platform_idp_demo.Handler.Product
use platform_idp_demo.Handler.Kafka.{Queue, check_kafka}

-- `env` is the environment's KAFKA_BROKER.
unfoldable pub new_product_handler :
    {P : Platform} {W Context : Type 0}
    → Queue P W
    → String
    → ProductService P W Context
    → ProductServer P W Context
new_product_handler Q env svc = record {
  list_products = λ ctx req. Product.list_products svc req;
  get_product = λ ctx req. Product.get_product svc req;
  create_product = λ ctx req. Product.create_product svc req;
  update_product = λ ctx req. Product.update_product svc req;
  delete_product = λ ctx req. Product.delete_product svc req;
  export_products = λ ctx req. Product.export_products svc ctx req;
  get_product_from_cache = λ ctx req. Product.get_product_from_cache svc req;
  check_kafka = λ ctx req. check_kafka Q env req;
}

abbrev pub prefix : String
prefix = "/boilerplate-svc/api/v1"

module _ {A : Type 0} where
  -- The loop of `combine`, with its result so far.
  unfoldable pub append_slices : List A → List (List A) → List A
  append_slices result [] = result
  append_slices result (s ∷ slices) = append_slices (result ++ s) slices

  unfoldable pub combine : List (List A) → List A
  unfolding append_slices
  combine slices = append_slices [] slices

  append_slices_lem :
      (result : List A) (slices : List (List A))
      → append_slices result slices ≡ result ++ concat slices
  unfolding append_slices
  append_slices_lem result [] = simp (append-nil result)
  append_slices_lem result (s ∷ slices) =
      append_slices_lem (result ++ s) slices ∙ append_assoc result s (concat slices)

  -- Combining slices concatenates them in order.
  pub combine-concat : (slices : List (List A)) → combine slices ≡ concat slices
  unfolding combine
  combine-concat slices = append_slices_lem [] slices

module _ {P : Platform} {W Context : Type 0} (S : HttpServer P W Context) where
  unfoldable pub health : HandlerFunc S
  health r = S.ok_json (("status", "up") ∷ [])

  unfoldable pub detail : HandlerFunc S
  detail r = S.ok_json (("message", "hello") ∷ [])

  -- The interface `ClientHandler`; the context that `clientHandler` holds is not used.
  pub record ClientHandler : Type 0 where
    pub detail_handler : HandlerFunc S
    pub health_handler : HandlerFunc S

  unfoldable pub new_client_handler : ClientHandler
  unfolding health detail
  new_client_handler = record { detail_handler = detail; health_handler = health }

  unfoldable pub client_routes : List (Route S)
  unfolding new_client_handler
  client_routes =
      let client_handler = new_client_handler in
      record { method = "GET"; path = prefix <> "/health"; handler = client_handler.health_handler }
      ∷ record {
        method = "GET";
        path = prefix <> "/detail";
        handler = client_handler.detail_handler;
      }
      ∷ []

  -- The routes that `Register` adds to the server, beside those of the swagger handler.
  unfoldable pub register : ProductServer P W Context → List (Route S)
  unfolding register_product_http_server client_routes combine
  register srv = combine (register_product_http_server S srv ∷ client_routes ∷ [])
