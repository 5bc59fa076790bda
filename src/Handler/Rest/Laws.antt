-- ===== src/Handler/Rest/Laws.antt =====
-- The routes of the HTTP server, and what a failed update looks like from outside.
use platform_idp_demo.Base.{
  ◌≡◌, refl, ℕ, String, Bool, true, ◌&&◌, not, all, none, some, List, [], ◌∷◌, ◌++◌, arith,
}
use platform_idp_demo.Base.Text.{str_eq}
use platform_idp_demo.Go.{returned, zoom}
use platform_idp_demo.Platform.{Platform}
use platform_idp_demo.Api.Errors.{Error}
use platform_idp_demo.Api.Server.{ProductServer}
use platform_idp_demo.Api.UpdateProductRequest
use platform_idp_demo.Api.UpdateProductRequest.{UpdateProductRequest}
use platform_idp_demo.Api.Http.{
  HttpServer, Route, bind_request, write_response, http_handler, update_product_http_handler,
  register_product_http_server,
}
use platform_idp_demo.Types.Entity.{Product}
use platform_idp_demo.Repository.{ProductRepository}
use platform_idp_demo.Cache.{Cache}
use platform_idp_demo.Export.{Excel}
use platform_idp_demo.Service.{
  Empty, World, Helpers, ProductService, new_product_service, update_columns,
}
use platform_idp_demo.Service.Editing.{update_product-lost}
use platform_idp_demo.Handler.Product
use platform_idp_demo.Handler.Kafka.{Queue}
use platform_idp_demo.Handler.Rest.{
  new_product_handler, append_slices, combine, client_routes, register,
}

module _ {P : Platform} {W Context : Type 0} (S : HttpServer P W Context) where
  abbrev pub same_route : Route S → Route S → Bool
  same_route a b = str_eq a.method b.method && str_eq a.path b.path

  abbrev pub are_distinct : List (Route S) → Bool
  are_distinct [] = true
  are_distinct (x ∷ xs) = all (λ y. not (same_route x y)) xs && are_distinct xs

  -- The routes that `Register` adds are the product routes, then health and detail, and no two of them
  -- have the same method and path.
  pub register-are_distinct :
      (srv : ProductServer P W Context)
      → (register S srv ≡ register_product_http_server S srv ++ client_routes S)
        × (are_distinct (register S srv) ≡ true)
  unfolding register combine append_slices register_product_http_server client_routes
  register-are_distinct srv = (refl, refl)

-- A service on its part of a world.
abbrev pub on_world :
    {P : Platform} {S W Context : Type 0}
    → (W → S)
    → (S → W → W)
    → ProductService P S Context
    → ProductService P W Context
on_world get put svc = record {
  get_product = λ req. zoom get put (svc.get_product req);
  list_products = λ req. zoom get put (svc.list_products req);
  create_product = λ req. zoom get put (svc.create_product req);
  update_product = λ req. zoom get put (svc.update_product req);
  delete_product = λ req. zoom get put (svc.delete_product req);
  export_products = λ ctx req. zoom get put (svc.export_products ctx req);
  get_product_from_cache = λ req. zoom get put (svc.get_product_from_cache req);
}

module _ {P : Platform} (R : ProductRepository P) (C : Cache P) (X : Excel P) (H : Helpers P R X)
    {W : Type 0} (S : HttpServer P W H.Context) (Q : Queue P W) (env : String)
    (get : W → World R.Db C.Entries) (put : World R.Db C.Entries → W → W) where
  -- When an update request is bound, its lookup gives a product and the update then returns an error,
  -- the HTTP handler goes on to write a nil response, as after a success: the error is not sent.
  pub update_product_http_handler-lost :
      (fuel : ℕ) (r : S.Request) (m : UpdateProductRequest P) (w w₁ : W) (p : Product P)
      (db db' : R.Db) (e : Error P.Failure)
      → bind_request S UpdateProductRequest.zero r w ≡ returned (m, none) w₁
      → R.find_by_uid m.uid (get w₁).db ≡ returned (some p, none) db
      → R.update_by_id (update_columns m) (P.id p.id_model) db ≡ returned (some e) db'
      → update_product_http_handler S
          (new_product_handler Q env (on_world get put (new_product_service R C X H fuel)))
          r
          w
        ≡ write_response S {B = Empty} r none (put (record (get w₁) { db = db' }) w₁)
  unfolding update_product_http_handler http_handler new_product_handler Product.update_product
      UpdateProductRequest.validate
  update_product_http_handler-lost fuel r m w w₁ p db db' e binds found broken =
      ground (arith, update_product-lost R C X H m (get w₁) p db db' e found broken)
