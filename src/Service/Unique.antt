-- ===== src/Service/Unique.antt =====
-- The service keeps SKUs unique, as long as the count of SKUs works.
use platform_idp_demo.Base.{◌+◌, ◌≤◌, ◌≡◌, refl, String, none, some, List, [], ◌∷◌, ◌++◌, arith}
use platform_idp_demo.Base.Int.{ℤ}
use platform_idp_demo.Base.Text.{eq_iff}
use platform_idp_demo.Go.{M, returned, pure, ◌>>=◌}
use platform_idp_demo.Platform.{Platform, Err}
use platform_idp_demo.Api.CreateProductRequest.{CreateProductRequest}
use platform_idp_demo.Api.UpdateProductRequest.{UpdateProductRequest}
use platform_idp_demo.Api.DeleteProductRequest.{DeleteProductRequest}
use platform_idp_demo.Types.Entity.{Product}
use platform_idp_demo.Repository.{ProductRepository}
use platform_idp_demo.Repository.Lawful.{IsLawful, count_sku, delete_rows}
use platform_idp_demo.Cache.{Cache}
use platform_idp_demo.Export.{Excel}
use platform_idp_demo.Service.{
  World, Helpers, Empty, Answer, create_product, update_product, delete_product,
}
use platform_idp_demo.Service.Writing.{CreateEnd, row_for, create_product-CreateEnd}
use platform_idp_demo.Service.Editing.{
  UpdateEnd, DeleteEnd, revise_rows, update_product-UpdateEnd, delete_product-DeleteEnd,
}

module _ {P : Platform} where
  -- No two rows have the same SKU.
  abbrev pub IsUnique : List (Product P) → Type 0
  IsUnique ps = (s : String) → count_sku s ps ≤ 1

  pub count_sku-append :
      (s : String) (ps qs : List (Product P))
      → count_sku s (ps ++ qs) ≡ count_sku s ps + count_sku s qs
  unfolding count_sku
  count_sku-append s [] qs = omega arith
  count_sku-append s (p ∷ ps) qs = omega (arith, count_sku-append s ps qs)

  pub count_sku-revise_rows :
      (s : String) (id : ℤ) (m : UpdateProductRequest P) (ps : List (Product P))
      → count_sku s (revise_rows id m ps) ≡ count_sku s ps
  unfolding count_sku revise_rows
  count_sku-revise_rows s id m [] = refl
  count_sku-revise_rows s id m (p ∷ ps) = ground (arith, count_sku-revise_rows s id m ps)

  pub count_sku-delete_rows :
      (s : String) (id : ℤ) (ps : List (Product P))
      → count_sku s (delete_rows id ps) ≤ count_sku s ps
  unfolding count_sku delete_rows
  count_sku-delete_rows s id [] = omega arith
  count_sku-delete_rows s id (p ∷ ps) = ground (arith, count_sku-delete_rows s id ps)

  pub IsUnique-append :
      (ps : List (Product P)) (p : Product P)
      → count_sku p.sku ps ≡ 0
      → IsUnique ps
      → IsUnique (ps ++ p ∷ [])
  unfolding count_sku
  IsUnique-append ps p absent u s =
      ground (arith, count_sku-append s ps (p ∷ []), eq_iff p.sku s, u s)

  CreateEnd-IsUnique :
      (m : CreateProductRequest P) (before after : List (Product P)) (counted : Err P)
      (answer : Answer P Empty)
      → counted ≡ none
      → CreateEnd m counted before after answer
      → IsUnique before
      → IsUnique after
  CreateEnd-IsUnique m before after counted answer c (CreateEnd.duplicate _ _ same _) u s =
      rw same (u s)
  CreateEnd-IsUnique m before after counted answer c (CreateEnd.created given absent grown _) u s =
      rw grown (IsUnique-append before (row_for m given) (absent c) u s)
  CreateEnd-IsUnique m before after counted answer c (CreateEnd.refused e same _) u s =
      rw same (u s)

  UpdateEnd-IsUnique :
      (m : UpdateProductRequest P) (before after : List (Product P)) (answer : Answer P Empty)
      → UpdateEnd m before after answer
      → IsUnique before
      → IsUnique after
  UpdateEnd-IsUnique m before after answer (UpdateEnd.not_found e same _) u s = rw same (u s)
  UpdateEnd-IsUnique m before after answer (UpdateEnd.updated p row changed _) u s =
      rw (changed, count_sku-revise_rows) (u s)
  UpdateEnd-IsUnique m before after answer (UpdateEnd.lost p row same _) u s = rw same (u s)

  DeleteEnd-IsUnique :
      (m : DeleteProductRequest) (before after : List (Product P)) (answer : Answer P Empty)
      → DeleteEnd m before after answer
      → IsUnique before
      → IsUnique after
  DeleteEnd-IsUnique m before after answer (DeleteEnd.not_found e same _) u s = rw same (u s)
  DeleteEnd-IsUnique m before after answer (DeleteEnd.deleted p row changed _) u s =
      rw changed (omega (arith, count_sku-delete_rows s (P.id p.id_model) before, u s))
  DeleteEnd-IsUnique m before after answer (DeleteEnd.refused p e row same _) u s = rw same (u s)

-- A call of the service that changes the table.
pub data Request (P : Platform) : Type 0 where
  create : CreateProductRequest P → Request P
  update : UpdateProductRequest P → Request P
  delete : DeleteProductRequest → Request P

module _ {P : Platform} (R : ProductRepository P) (C : Cache P) (X : Excel P)
    (H : Helpers P R X) where
  abbrev pub serve : Request P → M (World R.Db C.Entries) (Answer P Empty)
  serve (create m) = create_product R C X H (some m)
  serve (update m) = update_product R C X H (some m)
  serve (delete m) = delete_product R C X H (some m)

  -- The requests one after the other, with their answers.
  unfoldable pub serve_all : List (Request P) → M (World R.Db C.Entries) (List (Answer P Empty))
  serve_all [] = pure []
  serve_all (r ∷ rs) = do answer ← serve r; answers ← serve_all rs; pure (answer ∷ answers)

module _ {P : Platform} (R : ProductRepository P) (C : Cache P) (X : Excel P) (H : Helpers P R X)
    (L : IsLawful R) (counts : (s : String) (db : R.Db) → (L.count_lem s db).1 ≡ none) where
  serve-IsUnique :
      (r : Request P) (w : World R.Db C.Entries)
      → IsUnique (L.rows w.db)
      → (answer : Answer P Empty) × (w' : World R.Db C.Entries) × (serve R C X H r w
          ≡ returned answer w')
        × IsUnique (L.rows w'.db)
  serve-IsUnique (create m) w u =
      let (answer, w', ran, _, ended) = create_product-CreateEnd R C X H L m w in
      (answer, w', ran, CreateEnd-IsUnique m _ _ _ answer (counts m.sku w.db) ended u)
  serve-IsUnique (update m) w u =
      let (answer, w', ran, _, ended) = update_product-UpdateEnd R C X H L m w in
      (answer, w', ran, UpdateEnd-IsUnique m _ _ answer ended u)
  serve-IsUnique (delete m) w u =
      let (answer, w', ran, _, ended) = delete_product-DeleteEnd R C X H L m w in
      (answer, w', ran, DeleteEnd-IsUnique m _ _ answer ended u)

  -- Over a lawful repository whose counts do not fail, any sequence of creates, updates and deletes
  -- runs to its end, and keeps the SKUs of the table unique.
  pub serve_all-IsUnique :
      (rs : List (Request P)) (w : World R.Db C.Entries)
      → IsUnique (L.rows w.db)
      → (answers : List (Answer P Empty)) × (w' : World R.Db C.Entries) × (serve_all R C X H rs w
          ≡ returned answers w')
        × IsUnique (L.rows w'.db)
  unfolding serve_all
  serve_all-IsUnique [] w u = ([], w, refl, u)
  serve_all-IsUnique (r ∷ rs) w u =
      let (answer, w₁, ran, u₁) = serve-IsUnique r w u in
      let (answers, w₂, ran_all, u₂) = serve_all-IsUnique rs w₁ u₁ in
      (answer ∷ answers, w₂, ground arith, u₂)
