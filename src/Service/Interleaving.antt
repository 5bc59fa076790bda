-- ===== src/Service/Interleaving.antt =====
-- `CreateProduct`, `UpdateProduct` and `DeleteProduct` each make two calls of the database. Here a
-- request that is being served is at a stage, and the calls of several requests interleave.
pub mod Laws
pub mod Advancing
pub mod Invariant
pub mod Apart
pub mod LateWrites
pub mod Owning
use platform_idp_demo.Base.{ℕ, ◌≡◌, Bool, true, false, Option, none, some, List, [], ◌∷◌, ◌++◌}
use platform_idp_demo.Base.Int.{ℤ}
use platform_idp_demo.Go.{M, pure, deref, returned, ◌>>=◌}
use platform_idp_demo.Platform.{Platform, Err}
use platform_idp_demo.Api.CreateProductRequest.{CreateProductRequest}
use platform_idp_demo.Api.UpdateProductRequest.{UpdateProductRequest}
use platform_idp_demo.Api.DeleteProductRequest.{DeleteProductRequest}
use platform_idp_demo.Repository.{ProductRepository}
use platform_idp_demo.Cache.{Cache}
use platform_idp_demo.Export.{Excel}
use platform_idp_demo.Service.{
  Empty, empty, Answer, World, Helpers, on_db, insert_product, is_duplicate, update_columns,
}
use platform_idp_demo.Service.Unique.{Request, create, update, delete}

-- What `UpdateProduct` answers to the end of its update.
abbrev pub update_answer : {E : Type 0} → Option E → Option Empty × Option E
update_answer none = (some empty, none)
update_answer (some e) = (none, none)

-- What a request has still to do.
pub data Stage (P : Platform) : Type 0 where
  counting inserting : CreateProductRequest P → Stage P
  updating : UpdateProductRequest P → Stage P
  writing : UpdateProductRequest P → ℤ → Stage P
  deleting : DeleteProductRequest → Stage P
  removing : DeleteProductRequest → ℤ → Stage P
  finished : Answer P Empty → Stage P

module _ {P : Platform} where
  abbrev pub first_stage : Request P → Stage P
  first_stage (create m) = counting m
  first_stage (update m) = updating m
  first_stage (delete m) = deleting m

  -- The calls of the database that are left.
  abbrev pub calls_left : Stage P → ℕ
  calls_left (counting m) = 2
  calls_left (inserting m) = 1
  calls_left (updating m) = 2
  calls_left (writing m id) = 1
  calls_left (deleting m) = 2
  calls_left (removing m id) = 1
  calls_left (finished answer) = 0

  abbrev pub after_count : CreateProductRequest P → Bool → Stage P
  after_count m true = finished (none, some P.duplicate_data)
  after_count m false = inserting m

module _ {P : Platform} (R : ProductRepository P) (C : Cache P) (X : Excel P)
    (H : Helpers P R X) where
  -- One call of the database, and what the handler does up to the next one.
  unfoldable pub advance : Stage P → M (World R.Db C.Entries) (Stage P)
  unfolding insert_product
  advance (counting m) = do
    (total, err) ← on_db R C X H (R.count_by_sku m.sku)
    pure (after_count m (is_duplicate err total))
  advance (inserting m) = do answer ← insert_product R C X H m; pure (finished answer)
  advance (updating m) = do
    (item, err) ← on_db R C X H (R.find_by_uid m.uid)
    elim err [
      | some e ↦ pure (finished (none, some e))
      | none ↦ do found ← deref item; pure (writing m (P.id found.id_model))
    ]
  advance (writing m id) = do
    err ← on_db R C X H (R.update_by_id (update_columns m) id)
    pure (finished (update_answer err))
  advance (deleting m) = do
    (item, err) ← on_db R C X H (R.find_by_uid m.uid)
    elim err [
      | some e ↦ pure (finished (none, some e))
      | none ↦ do found ← deref item; pure (removing m (P.id found.id_model))
    ]
  advance (removing m id) = do
    err ← on_db R C X H (R.delete_by_id id)
    pure (finished (some empty, err))
  advance (finished answer) = pure (finished answer)

  -- The world, and the requests that are being served.
  pub record System : Type 0 where
    pub world : World R.Db C.Entries
    pub stages : List (Stage P)

  -- A request arrives, or one of those being served makes its next call.
  pub data Step (s s' : System) : Type 0 where
    arrive : (r : Request P) → s' ≡ record s { stages = s.stages ++ first_stage r ∷ [] } → Step s s'
    call :
        (before after : List (Stage P)) (stage stage' : Stage P) (w' : World R.Db C.Entries)
        → s.stages ≡ before ++ stage ∷ after
        → advance stage s.world ≡ returned stage' w'
        → s' ≡ record { world = w'; stages = before ++ stage' ∷ after }
        → Step s s'

  pub data Reach (s : System) : System → Type 0 where
    here : Reach s s
    next : {t u : System} → Reach s t → Step t u → Reach s u
