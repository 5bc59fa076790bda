-- ===== src/Repository/Lawful.antt =====
-- What a repository promises of its table, as documented by gorm: a lookup and a count read, a
-- create appends a row, an update sets the named columns of the rows with the id, a delete removes
-- them, and an operation that returns an error has changed nothing.
use platform_idp_demo.Base.{
  ℕ, ◌+◌, ◌≡◌, String, Option, none, some, List, [], ◌∷◌, ◌++◌, if◌then◌else◌,
}
use platform_idp_demo.Base.Int.{ℤ, ◌==ℤ◌}
use platform_idp_demo.Base.Text.{str_eq}
use platform_idp_demo.Go.{M, returned}
use platform_idp_demo.Platform.{Platform, Err}
use platform_idp_demo.Api.Errors.{Error}
use platform_idp_demo.Types.Entity.{Product}
use platform_idp_demo.Repository.{ProductRepository, Value, text, status, price}

module _ {P : Platform} where
  -- How many of the rows have the SKU.
  unfoldable pub count_sku : String → List (Product P) → ℕ
  count_sku s [] = 0
  count_sku s (p ∷ ps) = (if str_eq p.sku s then 1 else 0) + count_sku s ps

  abbrev pub set_text : String → String → Product P → Product P
  set_text column s p =
      if str_eq column "name"
      then record p { name = s }
      else if str_eq column "sku"
      then record p { sku = s }
      else p

  -- A column's new value in a row.
  abbrev pub set_column : String × Value P → Product P → Product P
  set_column (column, text s) p = set_text column s p
  set_column (column, status z) p =
      if str_eq column "status" then record p { status = P.status_of_pb z } else p
  set_column (column, price x) p = if str_eq column "price" then record p { price = x } else p

  abbrev pub set_columns : List (String × Value P) → Product P → Product P
  set_columns [] p = p
  set_columns (c ∷ cs) p = set_columns cs (set_column c p)

  unfoldable pub update_rows : ℤ → List (String × Value P) → List (Product P) → List (Product P)
  update_rows id cs [] = []
  update_rows id cs (p ∷ ps) =
      (if P.id p.id_model ==ℤ id then set_columns cs p else p) ∷ update_rows id cs ps

  unfoldable pub delete_rows : ℤ → List (Product P) → List (Product P)
  delete_rows id [] = []
  delete_rows id (p ∷ ps) =
      let rest = delete_rows id ps in if P.id p.id_model ==ℤ id then rest else p ∷ rest

  -- The first row with the uid.
  unfoldable pub find_row : String → List (Product P) → Option (Product P)
  find_row u [] = none
  find_row u (p ∷ ps) =
      let rest = find_row u ps in if str_eq (P.uid p.id_model) u then some p else rest

  -- An operation that may fail: it has made the change and returned no error, or it has returned an
  -- error and changed nothing.
  pub data Changed (before after_success after : List (Product P)) (err : Err P) : Type 0 where
    succeeded : err ≡ none → after ≡ after_success → Changed before after_success after err
    failed :
        (e : Error P.Failure)
        → err ≡ some e
        → after ≡ before
        → Changed before after_success after err

module _ {P : Platform} {Db : Type 0} (rows : Db → List (Product P)) where
  -- A run of a change returns an error or none, and the rows are those that go with it.
  abbrev pub Changes : M Db (Err P) → List (Product P) → Db → Type 0
  Changes run after_success db =
      (err : Err P) × (db' : Db) × (run db ≡ returned err db')
      × Changed (rows db) after_success (rows db') err

  -- A run of a lookup leaves the rows, and gives the row unless it returns an error.
  abbrev pub LooksUp : M Db (Option (Product P) × Err P) → String → Db → Type 0
  LooksUp run u db =
      (o : Option (Product P)) × (err : Err P) × (db' : Db) × (run db ≡ returned (o, err) db')
      × (rows db' ≡ rows db)
      × (err ≡ none → (p : Product P) × (o ≡ some p) × (find_row u (rows db) ≡ some p))

  -- A run of a count leaves the rows, and is exact unless it returns an error.
  abbrev pub CountsSku : M Db (ℕ × Err P) → String → Db → Type 0
  CountsSku run s db =
      (n : ℕ) × (err : Err P) × (db' : Db) × (run db ≡ returned (n, err) db')
      × (rows db' ≡ rows db)
      × (err ≡ none → n ≡ count_sku s (rows db))

pub record IsLawful {P : Platform} (R : ProductRepository P) : Type 0 where
  pub rows : R.Db → List (Product P)
  pub find_lem : (u : String) (db : R.Db) → LooksUp rows (R.find_by_uid u) u db
  pub count_lem : (s : String) (db : R.Db) → CountsSku rows (R.count_by_sku s) s db
  -- The new row has the fields of the entity, under an id and a uid that the database gives.
  pub create_lem :
      (p : Product P) (db : R.Db)
      → (given : P.IdModel) × Changes rows
          (R.create p)
          (rows db ++ record p { id_model = given } ∷ [])
          db
  -- The database may also set the times of the id model, which the service never reads: they are left out.
  pub update_lem :
      (cs : List (String × Value P)) (id : ℤ) (db : R.Db)
      → Changes rows (R.update_by_id cs id) (update_rows id cs (rows db)) db
  pub delete_lem :
      (id : ℤ) (db : R.Db) → Changes rows (R.delete_by_id id) (delete_rows id (rows db)) db
