-- ===== src/Service/Interleaving/LateWrites.antt =====
-- Writes that looked their product up before another request deleted it.
use platform_idp_demo.Base.{◌≡◌, ◌∙◌, refl, none, some, List, [], ◌∷◌, arith, Bool-cases, inl, inr}
use platform_idp_demo.Base.Int.{ℤ, ◌==ℤ◌}
use platform_idp_demo.Go.{M, returned}
use platform_idp_demo.Platform.{Platform, Err}
use platform_idp_demo.Api.UpdateProductRequest.{UpdateProductRequest}
use platform_idp_demo.Api.DeleteProductRequest.{DeleteProductRequest}
use platform_idp_demo.Types.Entity.{Product}
use platform_idp_demo.Repository.{ProductRepository}
use platform_idp_demo.Repository.Lawful.{
  IsLawful, Changes, succeeded, failed, delete_rows, update_rows,
}
use platform_idp_demo.Cache.{Cache}
use platform_idp_demo.Export.{Excel}
use platform_idp_demo.Service.{World, Helpers, Answer, Empty, empty, update_columns}
use platform_idp_demo.Service.Unique.{update, delete}
use platform_idp_demo.Service.Editing.{revise_rows, update_rows-update_columns}
use platform_idp_demo.Service.Interleaving.{
  updating, writing, deleting, removing, finished, advance, arrive, call, Reach, here, next,
}

module _ {P : Platform} where
  revise_rows-delete_rows :
      (id : ℤ) (m : UpdateProductRequest P) (ps : List (Product P))
      → revise_rows id m (delete_rows id ps) ≡ delete_rows id ps
  unfolding revise_rows delete_rows
  revise_rows-delete_rows id m [] = refl
  revise_rows-delete_rows id m (p ∷ ps) = elim (Bool-cases (P.id p.id_model ==ℤ id)) [
    | inl hit ↦ rw hit (revise_rows-delete_rows id m ps)
    | inr miss ↦ rw (miss, miss, revise_rows-delete_rows id m ps) refl
  ]

  delete_rows-delete_rows :
      (id : ℤ) (ps : List (Product P)) → delete_rows id (delete_rows id ps) ≡ delete_rows id ps
  unfolding delete_rows
  delete_rows-delete_rows id [] = refl
  delete_rows-delete_rows id (p ∷ ps) = elim (Bool-cases (P.id p.id_model ==ℤ id)) [
    | inl hit ↦ rw hit (delete_rows-delete_rows id ps)
    | inr miss ↦ rw (miss, miss, delete_rows-delete_rows id ps) refl
  ]

module _ {P : Platform} {Db : Type 0} (rows : Db → List (Product P)) where
  -- A change that returns no error has been made.
  changed_of_returned :
      (run : M Db (Err P)) (after : List (Product P)) (db db' : Db)
      → Changes rows run after db
      → run db ≡ returned none db'
      → rows db' ≡ after
  changed_of_returned run after db db' (err, db₁, ran, succeeded none_err changed) ok =
      let same : db₁ ≡ db' = cc (ran, ok) in rw same at changed
  changed_of_returned run after db db' (err, db₁, ran, failed e some_err kept) ok =
      absurd (ground (arith, ran, ok))

module _ {P : Platform} (R : ProductRepository P) (C : Cache P) (X : Excel P) (H : Helpers P R X)
    (L : IsLawful R) where
  abbrev done : Answer P Empty
  done = (some empty, none)

  -- Over a lawful repository, when two deletes and an update of one uid arrive, a lookup of the uid gives a
  -- product and leaves the database, and it then accepts the two deletes and the update by the product's id,
  -- then some interleaving of their calls answers all three with an empty message and no error, and the rows
  -- are those before without the rows of the id: the update was not made, and only one delete was.
  pub late_writes-Reach :
      (d : DeleteProductRequest) (m : UpdateProductRequest P) (p : Product P)
      (w : World R.Db C.Entries) (db₁ db₂ db₃ : R.Db)
      → m.uid ≡ d.uid
      → R.find_by_uid d.uid w.db ≡ returned (some p, none) w.db
      → R.delete_by_id (P.id p.id_model) w.db ≡ returned none db₁
      → R.delete_by_id (P.id p.id_model) db₁ ≡ returned none db₂
      → R.update_by_id (update_columns m) (P.id p.id_model) db₂ ≡ returned none db₃
      → Reach R C X H
          (record { world = w; stages = [] })
          (record {
            world = record w { db = db₃ };
            stages = finished done ∷ finished done ∷ finished done ∷ [];
          })
        × (L.rows db₃ ≡ delete_rows (P.id p.id_model) (L.rows w.db))
  unfolding advance
  late_writes-Reach d m p w db₁ db₂ db₃ same found first second third = (
    next
        (next
          (next looked_up (
            call [] (removing d id ∷ writing m id ∷ []) (removing d id) (finished done)
              (record w { db = db₁ }) refl (rw first refl) refl))
          (call (finished done ∷ []) (writing m id ∷ []) (removing d id) (finished done)
            (record w { db = db₂ }) refl (rw second refl) refl))
        (call (finished done ∷ finished done ∷ []) [] (writing m id) (finished done)
          (record w { db = db₃ }) refl (rw third refl) refl),
    rows_after,
  )
    where
      id : ℤ
      id = P.id p.id_model

      found_too : R.find_by_uid m.uid w.db ≡ returned (some p, none) w.db
      found_too = rw same found

      arrived :
          Reach R C X H
            (record { world = w; stages = [] })
            (record { world = w; stages = deleting d ∷ deleting d ∷ updating m ∷ [] })
      arrived =
          next (next (next here (arrive (delete d) refl)) (arrive (delete d) refl))
            (arrive (update m) refl)

      looked_up :
          Reach R C X H
            (record { world = w; stages = [] })
            (record { world = w; stages = removing d id ∷ removing d id ∷ writing m id ∷ [] })
      looked_up =
          next
            (next
              (next arrived (
                call [] (deleting d ∷ updating m ∷ []) (deleting d) (removing d id) w refl
                  (rw found refl) refl))
              (call (removing d id ∷ []) (updating m ∷ []) (deleting d) (removing d id) w refl
                (rw found refl) refl))
            (call (removing d id ∷ removing d id ∷ []) [] (updating m) (writing m id) w refl
              (rw found_too refl) refl)

      one_delete : L.rows db₁ ≡ delete_rows id (L.rows w.db)
      one_delete =
          changed_of_returned L.rows (R.delete_by_id id) _ w.db db₁ (L.delete_lem id w.db) first

      two_deletes : L.rows db₂ ≡ delete_rows id (L.rows db₁)
      two_deletes =
          changed_of_returned L.rows (R.delete_by_id id) _ db₁ db₂ (L.delete_lem id db₁) second

      an_update : L.rows db₃ ≡ update_rows id (update_columns m) (L.rows db₂)
      an_update =
          changed_of_returned L.rows (R.update_by_id (update_columns m) id) _ db₂ db₃
            (L.update_lem (update_columns m) id db₂) third

      rows_after : L.rows db₃ ≡ delete_rows id (L.rows w.db)
      rows_after =
          an_update
          ∙ update_rows-update_columns id m (L.rows db₂)
          ∙ (rw (two_deletes, one_delete, delete_rows-delete_rows id (L.rows w.db))
              (revise_rows-delete_rows id m (L.rows w.db)))
