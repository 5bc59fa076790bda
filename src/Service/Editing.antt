-- ===== src/Service/Editing.antt =====
-- Update and delete against the table of a lawful repository, and the update's lost error.
use platform_idp_demo.Base.{◌≡◌, refl, none, some, List, [], ◌∷◌, if◌then◌else◌, arith}
use platform_idp_demo.Base.Int.{ℤ, ◌==ℤ◌}
use platform_idp_demo.Go.{Exec, returned}
use platform_idp_demo.Platform.{Platform}
use platform_idp_demo.Api.Errors.{Error}
use platform_idp_demo.Api.UpdateProductRequest.{UpdateProductRequest}
use platform_idp_demo.Api.DeleteProductRequest.{DeleteProductRequest}
use platform_idp_demo.Types.Entity.{Product}
use platform_idp_demo.Repository.{ProductRepository}
use platform_idp_demo.Repository.Lawful.{
  IsLawful, Changes, LooksUp, succeeded, failed, find_row, update_rows, delete_rows,
}
use platform_idp_demo.Cache.{Cache}
use platform_idp_demo.Export.{Excel}
use platform_idp_demo.Service.{
  Empty, empty, Answer, World, Helpers, update_product, update_columns, delete_product,
}

module _ {P : Platform} where
  -- A row after an update: the SKU stays.
  abbrev pub revised : UpdateProductRequest P → Product P → Product P
  revised m p = record p { name = m.name; status = P.status_of_pb m.status; price = m.price }

  -- The rows after an update of those with the id.
  unfoldable pub revise_rows : ℤ → UpdateProductRequest P → List (Product P) → List (Product P)
  revise_rows id m [] = []
  revise_rows id m (p ∷ ps) =
      (if P.id p.id_model ==ℤ id then revised m p else p) ∷ revise_rows id m ps

  pub update_rows-update_columns :
      (id : ℤ) (m : UpdateProductRequest P) (ps : List (Product P))
      → update_rows id (update_columns m) ps ≡ revise_rows id m ps
  unfolding update_rows revise_rows
  update_rows-update_columns id m [] = refl
  update_rows-update_columns id m (p ∷ ps) = rw (update_rows-update_columns id m ps) refl

-- What an update may end in, by the rows before and after it.
pub data UpdateEnd {P : Platform} (m : UpdateProductRequest P) (before after : List (Product P))
    (answer : Answer P Empty) : Type 0 where
  not_found :
      (e : Error P.Failure)
      → after ≡ before
      → answer ≡ (none, some e)
      → UpdateEnd m before after answer
  updated :
      (p : Product P)
      → find_row m.uid before ≡ some p
      → after ≡ revise_rows (P.id p.id_model) m before
      → answer ≡ (some empty, none)
      → UpdateEnd m before after answer
  lost :
      (p : Product P)
      → find_row m.uid before ≡ some p
      → after ≡ before
      → answer ≡ (none, none)
      → UpdateEnd m before after answer

-- What a delete may end in.
pub data DeleteEnd {P : Platform} (m : DeleteProductRequest) (before after : List (Product P))
    (answer : Answer P Empty) : Type 0 where
  not_found :
      (e : Error P.Failure)
      → after ≡ before
      → answer ≡ (none, some e)
      → DeleteEnd m before after answer
  deleted :
      (p : Product P)
      → find_row m.uid before ≡ some p
      → after ≡ delete_rows (P.id p.id_model) before
      → answer ≡ (some empty, none)
      → DeleteEnd m before after answer
  refused :
      (p : Product P) (e : Error P.Failure)
      → find_row m.uid before ≡ some p
      → after ≡ before
      → answer ≡ (some empty, some e)
      → DeleteEnd m before after answer

module _ {P : Platform} (R : ProductRepository P) (C : Cache P) (X : Excel P)
    (H : Helpers P R X) where
  -- When the lookup succeeds and the update then fails, `UpdateProduct` returns neither a message nor
  -- an error: the caller sees a nil error for an update that was not made.
  pub update_product-lost :
      (m : UpdateProductRequest P) (w : World R.Db C.Entries) (p : Product P) (db db' : R.Db)
      (e : Error P.Failure)
      → R.find_by_uid m.uid w.db ≡ returned (some p, none) db
      → R.update_by_id (update_columns m) (P.id p.id_model) db ≡ returned (some e) db'
      → update_product R C X H (some m) w ≡ returned (none, none) (record w { db = db' })
  unfolding update_product
  update_product-lost m w p db db' e found broken = ground arith

module _ {P : Platform} (R : ProductRepository P) (C : Cache P) (X : Excel P) (H : Helpers P R X)
    (L : IsLawful R) where
  -- A run from `w` returns, leaves the cache, and ends as `End` says of the rows and the answer.
  abbrev pub EndsIn :
      (World R.Db C.Entries → Exec (World R.Db C.Entries) (Answer P Empty))
      → (List (Product P) → Answer P Empty → Type 0)
      → World R.Db C.Entries
      → Type 0
  EndsIn run End w =
      (answer : Answer P Empty) × (w' : World R.Db C.Entries) × (run w ≡ returned answer w')
      × (w'.entries ≡ w.entries)
      × End (L.rows w'.db) answer

  -- `UpdateProduct` sets name, status and price of the rows with the id of the row that the uid
  -- finds, and returns an empty message; or the lookup fails and its error is returned; or the update
  -- fails, and neither a message nor an error is returned. In the last two cases the rows are
  -- unchanged. The cache is never touched.
  pub update_product-UpdateEnd :
      (m : UpdateProductRequest P) (w : World R.Db C.Entries)
      → EndsIn (update_product R C X H (some m)) (UpdateEnd m (L.rows w.db)) w
  unfolding update_product
  update_product-UpdateEnd m w = after_lookup (L.find_lem m.uid w.db)
    where
      after_update :
          (p : Product P) (db : R.Db)
          → R.find_by_uid m.uid w.db ≡ returned (some p, none) db
          → L.rows db ≡ L.rows w.db
          → find_row m.uid (L.rows w.db) ≡ some p
          → Changes L.rows
              (R.update_by_id (update_columns m) (P.id p.id_model))
              (update_rows (P.id p.id_model) (update_columns m) (L.rows db))
              db
          → EndsIn (update_product R C X H (some m)) (UpdateEnd m (L.rows w.db)) w
      after_update p db found same row (err, db', run, succeeded ok changed) = (
        (some empty, none),
        record w { db = db' },
        ground arith,
        refl,
        UpdateEnd.updated p row (rw (← update_rows-update_columns, ← same) changed) refl,
      )
      after_update p db found same row (err, db', run, failed e broken kept) = (
        (none, none),
        record w { db = db' },
        ground arith,
        refl,
        UpdateEnd.lost p row (rw (← same) kept) refl,
      )

      after_lookup :
          LooksUp L.rows (R.find_by_uid m.uid) m.uid w.db
          → EndsIn (update_product R C X H (some m)) (UpdateEnd m (L.rows w.db)) w
      after_lookup (o, some e, db', run, same, found) = (
        (none, some e),
        record w { db = db' },
        ground arith,
        refl,
        UpdateEnd.not_found e same refl,
      )
      after_lookup (o, none, db', run, same, found) =
          let (p, is_p, row) = found refl in
          after_update p db' (rw (← is_p) run) same row
            (L.update_lem (update_columns m) (P.id p.id_model) db')

  -- `DeleteProduct` removes the rows with the id of the row that the uid finds, and returns an empty
  -- message; or the lookup fails and its error is returned with no message; or the delete fails, and
  -- its error is returned beside an empty message. In the last two cases the rows are unchanged. The
  -- cache is never touched.
  pub delete_product-DeleteEnd :
      (m : DeleteProductRequest) (w : World R.Db C.Entries)
      → EndsIn (delete_product R C X H (some m)) (DeleteEnd m (L.rows w.db)) w
  unfolding delete_product
  delete_product-DeleteEnd m w = after_lookup (L.find_lem m.uid w.db)
    where
      after_delete :
          (p : Product P) (db : R.Db)
          → R.find_by_uid m.uid w.db ≡ returned (some p, none) db
          → L.rows db ≡ L.rows w.db
          → find_row m.uid (L.rows w.db) ≡ some p
          → Changes L.rows
              (R.delete_by_id (P.id p.id_model))
              (delete_rows (P.id p.id_model) (L.rows db))
              db
          → EndsIn (delete_product R C X H (some m)) (DeleteEnd m (L.rows w.db)) w
      after_delete p db found same row (err, db', run, succeeded ok changed) = (
        (some empty, none),
        record w { db = db' },
        ground arith,
        refl,
        DeleteEnd.deleted p row (rw (← same) changed) refl,
      )
      after_delete p db found same row (err, db', run, failed e broken kept) = (
        (some empty, some e),
        record w { db = db' },
        ground arith,
        refl,
        DeleteEnd.refused p e row (rw (← same) kept) refl,
      )

      after_lookup :
          LooksUp L.rows (R.find_by_uid m.uid) m.uid w.db
          → EndsIn (delete_product R C X H (some m)) (DeleteEnd m (L.rows w.db)) w
      after_lookup (o, some e, db', run, same, found) = (
        (none, some e),
        record w { db = db' },
        ground arith,
        refl,
        DeleteEnd.not_found e same refl,
      )
      after_lookup (o, none, db', run, same, found) =
          let (p, is_p, row) = found refl in
          after_delete p db' (rw (← is_p) run) same row (L.delete_lem (P.id p.id_model) db')
