-- ===== src/Service/Catalog/Refinement.antt =====
-- Creates, updates and deletes, served one after the other, are steps of the catalog.
use platform_idp_demo.Base.{
  ◌≡◌, ◌∙◌, refl, ap, String, none, some, List, [], ◌∷◌, Each, arith, Bool-cases, inl, inr,
}
use platform_idp_demo.Base.Text.{str_eq, eq_iff}
use platform_idp_demo.Go.{M, returned}
use platform_idp_demo.Platform.{Platform}
use platform_idp_demo.Api.CreateProductRequest.{CreateProductRequest}
use platform_idp_demo.Api.UpdateProductRequest.{UpdateProductRequest}
use platform_idp_demo.Api.DeleteProductRequest.{DeleteProductRequest}
use platform_idp_demo.Types.Entity.{Product}
use platform_idp_demo.Repository.{ProductRepository}
use platform_idp_demo.Repository.Lawful.{IsLawful, succeeded, failed, find_row, count_sku}
use platform_idp_demo.Cache.{Cache}
use platform_idp_demo.Export.{Excel}
use platform_idp_demo.Service.{
  Answer, Empty, empty, World, Helpers, create_product, insert_product, product_of, is_duplicate,
}
use platform_idp_demo.Service.Writing.{row_for, absent_of_not_duplicate}
use platform_idp_demo.Service.Editing.{
  UpdateEnd, DeleteEnd, update_product-UpdateEnd, delete_product-DeleteEnd,
}
use platform_idp_demo.Service.Unique.{Request, create, update, delete, serve, serve_all}
use platform_idp_demo.Service.Catalog.{
  catalog_of, LacksSku, Applied, CatalogStep, CatalogRun, finish, step,
}
use platform_idp_demo.Service.Catalog.Keys.{
  Differs, IsKeyed, append-IsKeyed, revise_rows-IsKeyed, delete_rows-IsKeyed,
}
use platform_idp_demo.Service.Catalog.Lookups.{
  catalog_of-append, catalog_of-revise_rows, catalog_of-delete_rows,
}

module _ {P : Platform} where
  catalog_of-LacksSku :
      (s : String) (ps : List (Product P)) → count_sku s ps ≡ 0 → LacksSku s (catalog_of ps)
  unfolding find_row count_sku
  catalog_of-LacksSku s [] none_has u p found = absurd (ground arith)
  catalog_of-LacksSku s (q ∷ ps) none_has u p found = elim (Bool-cases (str_eq q.sku s)) [
    | inl same ↦ absurd (ground arith)
    | inr other ↦ elim (Bool-cases (str_eq (P.uid q.id_model) u)) [
      | inl here ↦ ground (arith, eq_iff p.sku s)
      | inr there ↦
          catalog_of-LacksSku s ps (let h = rw other at none_has in omega arith) u p
            (rw there at found)
    ]
  ]

  UpdateEnd-CatalogStep :
      (m : UpdateProductRequest P) (before after : List (Product P)) (answer : Answer P Empty)
      → UpdateEnd m before after answer
      → IsKeyed before
      → IsKeyed after
        × CatalogStep (none, none) (update m) answer (catalog_of before) (catalog_of after)
  UpdateEnd-CatalogStep m before after answer (UpdateEnd.not_found e same failing) keyed = (
    rw same keyed,
    CatalogStep.declined e (ap (λ (x : Answer P Empty). x.1) failing) (ap catalog_of same),
  )
  UpdateEnd-CatalogStep m before after answer (UpdateEnd.updated p row changed ok) keyed = (
    rw changed (revise_rows-IsKeyed (P.id p.id_model) m before keyed),
    CatalogStep.applied ok (
        Applied.updated m p row
          (ap catalog_of changed ∙ catalog_of-revise_rows m.uid m before p keyed row)),
  )
  UpdateEnd-CatalogStep m before after answer (UpdateEnd.lost p row same is_nil) keyed =
      (rw same keyed, CatalogStep.lost m p refl row is_nil (ap catalog_of same))

  DeleteEnd-CatalogStep :
      (m : DeleteProductRequest) (before after : List (Product P)) (answer : Answer P Empty)
      → DeleteEnd m before after answer
      → IsKeyed before
      → IsKeyed after
        × CatalogStep (none, none) (delete m) answer (catalog_of before) (catalog_of after)
  DeleteEnd-CatalogStep m before after answer (DeleteEnd.not_found e same failing) keyed = (
    rw same keyed,
    CatalogStep.declined e (ap (λ (x : Answer P Empty). x.1) failing) (ap catalog_of same),
  )
  DeleteEnd-CatalogStep m before after answer (DeleteEnd.deleted p row changed ok) keyed = (
    rw changed (delete_rows-IsKeyed (P.id p.id_model) before keyed),
    CatalogStep.applied ok (
        Applied.deleted m p row
          (ap catalog_of changed ∙ catalog_of-delete_rows m.uid before p keyed row)),
  )
  DeleteEnd-CatalogStep m before after answer (DeleteEnd.refused p e row same failing) keyed = (
    rw same keyed,
    CatalogStep.declined e (ap (λ (x : Answer P Empty). x.1) failing) (ap catalog_of same),
  )

module _ {P : Platform} (R : ProductRepository P) (C : Cache P) (X : Excel P) (H : Helpers P R X)
    (L : IsLawful R) where
  -- A create that returns no error gives its row an id and a uid that no row has.
  abbrev pub HasKeys : Type 0
  HasKeys =
      (p : Product P) (db db' : R.Db)
      → R.create p db ≡ returned none db'
      → Each (Differs (L.create_lem p db).0) (L.rows db)

  -- The counts of SKUs return no error.
  abbrev pub Counts : Type 0
  Counts = (s : String) (db : R.Db) → (L.count_lem s db).1 ≡ none

  -- A run of the request from `w` returns, keeps the rows keyed, and is a step of the catalog.
  abbrev pub Steps :
      Request P
      → M (World R.Db C.Entries) (Answer P Empty)
      → World R.Db C.Entries
      → List (Product P)
      → Type 0
  Steps r run w before =
      (answer : Answer P Empty) × (w' : World R.Db C.Entries) × (run w ≡ returned answer w')
      × IsKeyed (L.rows w'.db)
      × CatalogStep (none, none) r answer (catalog_of before) (catalog_of (L.rows w'.db))

  insert_product-Steps :
      HasKeys
      → (m : CreateProductRequest P) (w : World R.Db C.Entries) → count_sku m.sku (L.rows w.db) ≡ 0
      → IsKeyed (L.rows w.db)
      → Steps (create m) (insert_product R C X H m) w (L.rows w.db)
  unfolding insert_product
  insert_product-Steps keys m w absent keyed =
      let (given, (err, db', run, change)) = L.create_lem (product_of m) w.db in
      elim change [
        | succeeded none_err grown ↦
            let fresh = keys (product_of m) w.db db' (rw none_err at run) in
            let (unused, put) = catalog_of-append (L.rows w.db) (row_for m given) fresh in
            (
              (some empty, none),
              record w { db = db' },
              rw (run, none_err),
              rw grown (append-IsKeyed (L.rows w.db) (row_for m given) keyed fresh),
              CatalogStep.applied refl (
                  Applied.created m given (catalog_of-LacksSku m.sku (L.rows w.db) absent) unused
                    (ap catalog_of grown ∙ put)),
            )
        | failed e some_err kept ↦ (
          (none, some e),
          record w { db = db' },
          rw (run, some_err),
          rw kept keyed,
          CatalogStep.declined e refl (ap catalog_of kept),
        )
      ]

  create_product-Steps :
      HasKeys
      → Counts
      → (m : CreateProductRequest P) (w : World R.Db C.Entries) → IsKeyed (L.rows w.db)
      → Steps (create m) (create_product R C X H (some m)) w (L.rows w.db)
  unfolding create_product
  create_product-Steps keys counts m w keyed =
      let counted = counts m.sku w.db in
      let (n, err, db', run, same, exact) = L.count_lem m.sku w.db in
      elim (Bool-cases (is_duplicate err n)) [
        | inl found ↦ (
          (none, some P.duplicate_data),
          record w { db = db' },
          ground arith,
          rw same keyed,
          CatalogStep.declined P.duplicate_data refl (ap catalog_of same),
        )
        | inr absent ↦
            let none_has : count_sku m.sku (L.rows db') ≡ 0 =
              rw (same, ← exact counted) (absent_of_not_duplicate err n absent counted) in
            let (answer, w', ran, keyed', stepped) =
              insert_product-Steps keys m (record w { db = db' }) none_has (rw same keyed) in
            (answer, w', ground arith, keyed', rw (← same) stepped)
      ]

  pub serve-Steps :
      HasKeys
      → Counts
      → (r : Request P) (w : World R.Db C.Entries) → IsKeyed (L.rows w.db)
      → Steps r (serve R C X H r) w (L.rows w.db)
  serve-Steps keys counts (create m) w keyed = create_product-Steps keys counts m w keyed
  serve-Steps keys counts (update m) w keyed =
      let (answer, w', ran, _, ended) = update_product-UpdateEnd R C X H L m w in
      let (keyed', stepped) = UpdateEnd-CatalogStep m _ _ answer ended keyed in
      (answer, w', ran, keyed', stepped)
  serve-Steps keys counts (delete m) w keyed =
      let (answer, w', ran, _, ended) = delete_product-DeleteEnd R C X H L m w in
      let (keyed', stepped) = DeleteEnd-CatalogStep m _ _ answer ended keyed in
      (answer, w', ran, keyed', stepped)

  -- Over a lawful repository whose counts of SKUs return no error, and whose creates give a row an id
  -- and a uid that no row has, any sequence of creates, updates and deletes on a table with distinct ids
  -- and uids runs to its end, keeps the ids and the uids distinct, and is a run of the catalog with the
  -- same answers: a request that is answered with an empty message and no error puts a new product with a
  -- new SKU at an unused uid, revises the product of its uid, or removes it, and touches no other uid; one
  -- that is answered with an error changes nothing; and the only other answer, neither a message nor an
  -- error, is that of an update of a product, and the update is not made.
  pub serve_all-CatalogRun :
      HasKeys
      → Counts
      → (rs : List (Request P)) (w : World R.Db C.Entries) → IsKeyed (L.rows w.db)
      → (answers : List (Answer P Empty)) × (w' : World R.Db C.Entries) × (serve_all R C X H rs w
          ≡ returned answers w')
        × IsKeyed (L.rows w'.db)
        × CatalogRun (none, none) (catalog_of (L.rows w.db)) (catalog_of (L.rows w'.db)) rs answers
  unfolding serve_all
  serve_all-CatalogRun keys counts [] w keyed = ([], w, refl, keyed, finish)
  serve_all-CatalogRun keys counts (r ∷ rs) w keyed =
      let (answer, w₁, ran, keyed₁, stepped) = serve-Steps keys counts r w keyed in
      let (answers, w₂, ran_all, keyed₂, run) = serve_all-CatalogRun keys counts rs w₁ keyed₁ in
      (answer ∷ answers, w₂, ground arith, keyed₂, step stepped run)
