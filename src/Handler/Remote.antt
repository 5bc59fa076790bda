-- ===== src/Handler/Remote.antt =====
-- The gRPC client of a program, the product handler of the server and its service, composed: what creates,
-- updates and deletes over a connection do to the catalog of products.
use platform_idp_demo.Base.{ℕ, ◌≡◌, ◌∙◌, refl, String, none, some, List, [], ◌∷◌}
use platform_idp_demo.Go.{M, pure, returned, ◌>>=◌}
use platform_idp_demo.Platform.{Platform}
use platform_idp_demo.Api.Errors.{Error}
use platform_idp_demo.Api.Server.{Answer, Empty, empty, ProductServer}
use platform_idp_demo.Api.CreateProductRequest
use platform_idp_demo.Api.UpdateProductRequest
use platform_idp_demo.Api.DeleteProductRequest
use platform_idp_demo.Api.Grpc.{ClientConn}
use platform_idp_demo.Api.Grpc.Remote.{
  ProductClient, new_product_client, Connects, received, new_product_client-Serves,
}
use platform_idp_demo.Repository.{ProductRepository}
use platform_idp_demo.Repository.Lawful.{IsLawful}
use platform_idp_demo.Cache.{Cache}
use platform_idp_demo.Export.{Excel}
use platform_idp_demo.Service.{World, Helpers, new_product_service}
use platform_idp_demo.Service.Unique.{Request, create, update, delete, serve}
use platform_idp_demo.Service.Catalog.{Catalog, catalog_of, CatalogStep, CatalogRun, finish, step}
use platform_idp_demo.Service.Catalog.Keys.{IsKeyed}
use platform_idp_demo.Service.Catalog.Refinement.{HasKeys, Counts, serve-Steps}
use platform_idp_demo.Handler.Product
use platform_idp_demo.Handler.Kafka.{Queue}
use platform_idp_demo.Handler.Rest.{new_product_handler}

module _ {P : Platform} {W : Type 0} (client : ProductClient P W) where
  -- The call of the client that makes a request.
  abbrev pub call_remote : Request P → M W (Answer P Empty)
  call_remote (create m) = client.create_product (some m)
  call_remote (update m) = client.update_product (some m)
  call_remote (delete m) = client.delete_product (some m)

  unfoldable pub call_all : List (Request P) → M W (List (Answer P Empty))
  call_all [] = pure []
  call_all (r ∷ rs) = do answer ← call_remote r; answers ← call_all rs; pure (answer ∷ answers)

-- A step of the service, as the caller sees it.
received-CatalogStep :
    (P : Platform) (through : Error P.Failure → Error P.Failure) (r : Request P)
    (answer : Answer P Empty) (before after : Catalog P)
    → CatalogStep (none, none) r answer before after
    → CatalogStep (some empty, none) r (received P through empty answer) before after
received-CatalogStep P through r (resp, some e) before after (CatalogStep.applied ok change) =
    absurd cc
received-CatalogStep P through r (some resp, none) before after (CatalogStep.applied ok change) =
    CatalogStep.applied ok change
received-CatalogStep P through r (none, none) before after (CatalogStep.applied ok change) =
    absurd cc
received-CatalogStep P through r (resp, some e) before after
      (CatalogStep.declined e' failing same) =
    CatalogStep.declined (through e) refl same
received-CatalogStep P through r (some resp, none) before after
      (CatalogStep.declined e' failing same) =
    absurd cc
received-CatalogStep P through r (none, none) before after (CatalogStep.declined e' failing same) =
    absurd cc
received-CatalogStep P through r (resp, some e) before after
      (CatalogStep.lost m p is row nil same) =
    absurd cc
received-CatalogStep P through r (some resp, none) before after
      (CatalogStep.lost m p is row nil same) =
    absurd cc
received-CatalogStep P through r (none, none) before after (CatalogStep.lost m p is row nil same) =
    CatalogStep.lost m p is row refl same

module _ {P : Platform} (R : ProductRepository P) (C : Cache P) (X : Excel P) (H : Helpers P R X)
    (through : Error P.Failure → Error P.Failure) (Q : Queue P (World R.Db C.Entries))
    (env : String) (fuel : ℕ) where
  -- The handler over its service.
  abbrev pub server : ProductServer P (World R.Db C.Entries) H.Context
  server = new_product_handler Q env (new_product_service R C X H fuel)

  call_remote-serve :
      (conn : ClientConn P (World R.Db C.Entries)) (ctx : H.Context)
      → Connects P through conn server ctx
      → (r : Request P) (w w' : World R.Db C.Entries) (answer : Answer P Empty)
      → serve R C X H r w ≡ returned answer w'
      → call_remote (new_product_client conn) r w ≡ returned (received P through empty answer) w'
  unfolding new_product_handler Product.create_product Product.update_product Product.delete_product
      CreateProductRequest.validate UpdateProductRequest.validate DeleteProductRequest.validate
  call_remote-serve conn ctx connects (create m) w w' answer ran =
      let serves = new_product_client-Serves P through conn server ctx connects in
      serves.2 m w ∙ (rw ran refl)
  call_remote-serve conn ctx connects (update m) w w' answer ran =
      let serves = new_product_client-Serves P through conn server ctx connects in
      serves.3 m w ∙ (rw ran refl)
  call_remote-serve conn ctx connects (delete m) w w' answer ran =
      let serves = new_product_client-Serves P through conn server ctx connects in
      serves.4 m w ∙ (rw ran refl)

  module _ (L : IsLawful R) where
    -- Over a connection to the handler, a lawful repository whose counts of SKUs return no error, and whose
    -- creates give a row an id and a uid that no row has, any sequence of creates, updates and deletes by the
    -- client on a table with distinct ids and uids runs to its end, keeps the ids and the uids distinct, and
    -- is a run of the catalog with the answers that the client gets. A create or a delete that is answered
    -- without an error has been made. An update that is answered without an error has been made, or it was
    -- lost: the caller cannot tell.
    pub call_all-CatalogRun :
        HasKeys R C X H L
        → Counts R C X H L
        → (conn : ClientConn P (World R.Db C.Entries)) (ctx : H.Context)
        → Connects P through conn server ctx
        → (rs : List (Request P)) (w : World R.Db C.Entries) → IsKeyed (L.rows w.db)
        → (answers : List (Answer P Empty)) × (w' : World R.Db C.Entries) × (call_all
              (new_product_client conn)
              rs
              w
            ≡ returned answers w')
          × IsKeyed (L.rows w'.db)
          × CatalogRun
              (some empty, none)
              (catalog_of (L.rows w.db))
              (catalog_of (L.rows w'.db))
              rs
              answers
    unfolding call_all
    call_all-CatalogRun keys counts conn ctx connects [] w keyed = ([], w, refl, keyed, finish)
    call_all-CatalogRun keys counts conn ctx connects (r ∷ rs) w keyed =
        let (answer, w₁, ran, keyed₁, stepped) = serve-Steps R C X H L keys counts r w keyed in
        let called = call_remote-serve conn ctx connects r w w₁ answer ran in
        let (answers, w₂, ran_all, keyed₂, run) =
          call_all-CatalogRun keys counts conn ctx connects rs w₁ keyed₁ in
        (
          received P through empty answer ∷ answers,
          w₂,
          rw (called, ran_all) refl,
          keyed₂,
          step (received-CatalogStep P through r answer _ _ stepped) run,
        )
