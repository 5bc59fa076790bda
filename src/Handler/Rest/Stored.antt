-- ===== src/Handler/Rest/Stored.antt =====
-- What the response to a create or a delete over HTTP says about the table.
use platform_idp_demo.Base.{ℕ, ◌≡◌, refl, String, none, some, List, [], ◌∷◌, ◌++◌}
use platform_idp_demo.Go.{returned}
use platform_idp_demo.Platform.{Platform, Err}
use platform_idp_demo.Api.Errors.{Error}
use platform_idp_demo.Api.CreateProductRequest
use platform_idp_demo.Api.CreateProductRequest.{CreateProductRequest}
use platform_idp_demo.Api.DeleteProductRequest
use platform_idp_demo.Api.DeleteProductRequest.{DeleteProductRequest}
use platform_idp_demo.Api.Http.{
  HttpServer, HandlerFunc, bind_request, write_response, http_handler, create_product_http_handler,
  delete_product_http_handler,
}
use platform_idp_demo.Types.Entity.{Product}
use platform_idp_demo.Repository.{ProductRepository}
use platform_idp_demo.Repository.Lawful.{IsLawful, find_row, delete_rows}
use platform_idp_demo.Cache.{Cache}
use platform_idp_demo.Export.{Excel}
use platform_idp_demo.Service.{
  Empty, empty, Answer, World, Helpers, new_product_service, create_product, delete_product,
}
use platform_idp_demo.Service.Writing.{CreateEnd, row_for, create_product-CreateEnd}
use platform_idp_demo.Service.Editing.{DeleteEnd, delete_product-DeleteEnd}
use platform_idp_demo.Handler.Product
use platform_idp_demo.Handler.Kafka.{Queue}
use platform_idp_demo.Handler.Rest.{new_product_handler}
use platform_idp_demo.Handler.Rest.Laws.{on_world}

module _ {P : Platform} (R : ProductRepository P) (C : Cache P) (X : Excel P) (H : Helpers P R X)
    (L : IsLawful R) {W : Type 0} (S : HttpServer P W H.Context) (Q : Queue P W) (env : String)
    (get : W → World R.Db C.Entries) (put : World R.Db C.Entries → W → W) where
  -- How a handler that changes the table goes on from the world `w₁`: it writes an empty message when
  -- the rows are `Done`, or sends an error when they are as they were.
  pub data HttpEnd (handler : HandlerFunc S) (r : S.Request) (w w₁ : W)
      (Done : List (Product P) → Type 0) : Type 0 where
    accepted :
        (v : World R.Db C.Entries)
        → Done (L.rows v.db)
        → handler r w ≡ write_response S r (some empty) (put v w₁)
        → HttpEnd handler r w w₁ Done
    rejected :
        (v : World R.Db C.Entries) (e : Error P.Failure)
        → L.rows v.db ≡ L.rows (get w₁).db
        → handler r w ≡ S.respond_error e (put v w₁)
        → HttpEnd handler r w w₁ Done

  -- Over a lawful repository, when a create request is bound, the HTTP handler writes an empty message after
  -- its row has been appended to the table, or sends an error after leaving the rows as they were.
  pub create_product_http_handler-HttpEnd :
      (fuel : ℕ) (r : S.Request) (m : CreateProductRequest P) (w w₁ : W)
      → bind_request S CreateProductRequest.zero r w ≡ returned (m, none) w₁
      → HttpEnd
          (create_product_http_handler S
            (new_product_handler Q env (on_world get put (new_product_service R C X H fuel))))
          r
          w
          w₁
          (λ rows. (given : P.IdModel) × (rows ≡ L.rows (get w₁).db ++ row_for m given ∷ []))
  unfolding create_product_http_handler http_handler new_product_handler Product.create_product
      CreateProductRequest.validate
  create_product_http_handler-HttpEnd fuel r m w w₁ binds =
      let (answer, v, ran, _, ended) = create_product-CreateEnd R C X H L m (get w₁) in
      go answer v ran ended
    where
      go :
          {counted : Err P} (answer : Answer P Empty) (v : World R.Db C.Entries)
          → create_product R C X H (some m) (get w₁) ≡ returned answer v
          → CreateEnd m counted (L.rows (get w₁).db) (L.rows v.db) answer
          → HttpEnd
              (create_product_http_handler S
                (new_product_handler Q env (on_world get put (new_product_service R C X H fuel))))
              r
              w
              w₁
              (λ rows. (given : P.IdModel) × (rows ≡ L.rows (get w₁).db ++ row_for m given ∷ []))
      go answer v ran (CreateEnd.duplicate _ _ same is) =
          rejected v P.duplicate_data same (rw (binds, ran, is) refl)
      go answer v ran (CreateEnd.created given _ grown is) =
          let ran' : create_product R C X H (some m) (get w₁) ≡ returned (some empty, none) v =
            rw is at ran in
          accepted v (given, grown) (rw (binds, ran') refl)
      go answer v ran (CreateEnd.refused e same is) = rejected v e same (rw (binds, ran, is) refl)

  -- Over a lawful repository, when a delete request is bound, the HTTP handler writes an empty message after
  -- the rows with the id of the row that the uid finds have been removed, or sends an error after leaving the
  -- rows as they were.
  pub delete_product_http_handler-HttpEnd :
      (fuel : ℕ) (r : S.Request) (m : DeleteProductRequest) (w w₁ : W)
      → bind_request S DeleteProductRequest.zero r w ≡ returned (m, none) w₁
      → HttpEnd
          (delete_product_http_handler S
            (new_product_handler Q env (on_world get put (new_product_service R C X H fuel))))
          r
          w
          w₁
          (λ rows.
            (p : Product P) × (find_row m.uid (L.rows (get w₁).db) ≡ some p)
            × (rows ≡ delete_rows (P.id p.id_model) (L.rows (get w₁).db)))
  unfolding delete_product_http_handler http_handler new_product_handler Product.delete_product
      DeleteProductRequest.validate
  delete_product_http_handler-HttpEnd fuel r m w w₁ binds =
      let (answer, v, ran, _, ended) = delete_product-DeleteEnd R C X H L m (get w₁) in
      go answer v ran ended
    where
      go :
          (answer : Answer P Empty) (v : World R.Db C.Entries)
          → delete_product R C X H (some m) (get w₁) ≡ returned answer v
          → DeleteEnd m (L.rows (get w₁).db) (L.rows v.db) answer
          → HttpEnd
              (delete_product_http_handler S
                (new_product_handler Q env (on_world get put (new_product_service R C X H fuel))))
              r
              w
              w₁
              (λ rows.
                (p : Product P) × (find_row m.uid (L.rows (get w₁).db) ≡ some p)
                × (rows ≡ delete_rows (P.id p.id_model) (L.rows (get w₁).db)))
      go answer v ran (DeleteEnd.not_found e same is) = rejected v e same (rw (binds, ran, is) refl)
      go answer v ran (DeleteEnd.deleted p row removed is) =
          let ran' : delete_product R C X H (some m) (get w₁) ≡ returned (some empty, none) v =
            rw is at ran in
          accepted v (p, row, removed) (rw (binds, ran') refl)
      go answer v ran (DeleteEnd.refused p e row same is) =
          rejected v e same (rw (binds, ran, is) refl)
