-- ===== src/Service/Interleaving/Owning.antt =====
-- Which product a call of the database may touch, when ids are never given twice: between the lookup of a
-- uid and the write by the id that it found, other requests may have deleted and created products.
pub mod Rows
pub mod Calls
pub mod Lookups
pub mod Runs
use platform_idp_demo.Base.{◌≡◌, ◌≢◌, String, Option, none, some, List, [], ◌∷◌, ◌++◌, Each}
use platform_idp_demo.Base.Int.{ℤ}
use platform_idp_demo.Go.{returned}
use platform_idp_demo.Platform.{Platform, Err}
use platform_idp_demo.Api.CreateProductRequest.{CreateProductRequest}
use platform_idp_demo.Api.UpdateProductRequest.{UpdateProductRequest}
use platform_idp_demo.Api.DeleteProductRequest.{DeleteProductRequest}
use platform_idp_demo.Types.Entity.{Product}
use platform_idp_demo.Repository.{ProductRepository, Value}
use platform_idp_demo.Repository.Lawful.{IsLawful, delete_rows}
use platform_idp_demo.Service.Writing.{row_for}
use platform_idp_demo.Service.Editing.{revise_rows, revised}
use platform_idp_demo.Service.Catalog.{Catalog, put, LacksSku}
use platform_idp_demo.Service.Catalog.Keys.{EachId}
use platform_idp_demo.Service.Catalog.Owners.{Owns}
use platform_idp_demo.Service.Interleaving.{
  Stage, counting, inserting, updating, writing, deleting, removing, finished,
}

-- A serial key: the ids that have been given so far stay given, and a create that returns no error gives one
-- that was not given before, and a uid that no row has.
pub record Serials {P : Platform} (R : ProductRepository P) (L : IsLawful R) : Type 1 where
  pub Given : R.Db → ℤ → Type 0
  pub find_keeps :
      (u : String) (db db' : R.Db) (o : Option (Product P)) (err : Err P)
      → R.find_by_uid u db ≡ returned (o, err) db'
      → (id : ℤ) → Given db id
      → Given db' id
  pub count_keeps :
      (s : String) (db db' : R.Db) (n : _) (err : Err P)
      → R.count_by_sku s db ≡ returned (n, err) db'
      → (id : ℤ) → Given db id
      → Given db' id
  pub create_keeps :
      (p : Product P) (db db' : R.Db) (err : Err P)
      → R.create p db ≡ returned err db'
      → (id : ℤ) → Given db id
      → Given db' id
  pub update_keeps :
      (cs : List (String × Value P)) (k : ℤ) (db db' : R.Db) (err : Err P)
      → R.update_by_id cs k db ≡ returned err db'
      → (id : ℤ) → Given db id
      → Given db' id
  pub delete_keeps :
      (k : ℤ) (db db' : R.Db) (err : Err P)
      → R.delete_by_id k db ≡ returned err db'
      → (id : ℤ) → Given db id
      → Given db' id
  pub create_gives :
      (p : Product P) (db db' : R.Db)
      → R.create p db ≡ returned none db'
      → (¬ Given db (P.id (L.create_lem p db).0))
        × Given db' (P.id (L.create_lem p db).0)
        × EachId (λ i. P.uid i ≢ P.uid (L.create_lem p db).0) (L.rows db)

-- What a call at a stage does to the catalog: nothing, or a change at the uid of its own request, or at a
-- uid that no product had.
pub data OwnChange {P : Platform} (stage : Stage P) (before after : Catalog P) : Type 0 where
  kept : after ≡ before → OwnChange stage before after
  created :
      (m : CreateProductRequest P) (given : P.IdModel)
      → stage ≡ inserting m
      → before (P.uid given) ≡ none
      → after ≡ put (P.uid given) (some (row_for m given)) before
      → OwnChange stage before after
  updated :
      (m : UpdateProductRequest P) (id : ℤ) (p : Product P)
      → stage ≡ writing m id
      → before m.uid ≡ some p
      → after ≡ put m.uid (some (revised m p)) before
      → OwnChange stage before after
  deleted :
      (m : DeleteProductRequest) (id : ℤ) (p : Product P)
      → stage ≡ removing m id
      → before m.uid ≡ some p
      → after ≡ put m.uid none before
      → OwnChange stage before after

module _ {P : Platform} {R : ProductRepository P} (L : IsLawful R) (S : Serials R L) where
  -- The id that a request has looked up was given, and no row with the id has another uid.
  abbrev pub IsLinked : R.Db → Stage P → Type 0
  IsLinked db (writing m id) = S.Given db id × Owns id m.uid (L.rows db)
  IsLinked db (removing m id) = S.Given db id × Owns id m.uid (L.rows db)
  IsLinked db (counting m) = Unit {0}
  IsLinked db (inserting m) = Unit {0}
  IsLinked db (updating m) = Unit {0}
  IsLinked db (deleting m) = Unit {0}
  IsLinked db (finished answer) = Unit {0}

  abbrev pub AllGiven : R.Db → Type 0
  AllGiven db = EachId (λ i. S.Given db (P.id i)) (L.rows db)

  -- How the rows of a database may change, with the ids that are given.
  pub data Moves (db db' : R.Db) : Type 0 where
    same : L.rows db' ≡ L.rows db → Moves db db'
    grown :
        (q : Product P)
        → (¬ S.Given db (P.id q.id_model))
        → S.Given db' (P.id q.id_model)
        → EachId (λ i. P.uid i ≢ P.uid q.id_model) (L.rows db)
        → L.rows db' ≡ L.rows db ++ q ∷ []
        → Moves db db'
    revising :
        (id : ℤ) (m : UpdateProductRequest P)
        → L.rows db' ≡ revise_rows id m (L.rows db)
        → Moves db db'
    removing_rows : (id : ℤ) → L.rows db' ≡ delete_rows id (L.rows db) → Moves db db'

  abbrev pub Keeps : R.Db → R.Db → Type 0
  Keeps db db' = (id : ℤ) → S.Given db id → S.Given db' id
