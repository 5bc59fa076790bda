-- ===== src/Service/Catalog.antt =====
-- What the service promises of its products: a catalog, which gives the product of a uid, if any. The order
-- of the rows, and the ids by which the database finds them, are forgotten.
pub mod Keys
pub mod Lookups
pub mod Refinement
pub mod Reads
pub mod Owners
use platform_idp_demo.Base.{◌≡◌, ◌≢◌, String, Option, none, some, List, [], ◌∷◌, if◌then◌else◌}
use platform_idp_demo.Base.Text.{str_eq}
use platform_idp_demo.Platform.{Platform}
use platform_idp_demo.Api.Errors.{Error}
use platform_idp_demo.Types.Entity.{Product}
use platform_idp_demo.Api.CreateProductRequest.{CreateProductRequest}
use platform_idp_demo.Api.UpdateProductRequest.{UpdateProductRequest}
use platform_idp_demo.Api.DeleteProductRequest.{DeleteProductRequest}
use platform_idp_demo.Repository.Lawful.{find_row}
use platform_idp_demo.Service.{Answer, Empty, empty}
use platform_idp_demo.Service.Writing.{row_for}
use platform_idp_demo.Service.Editing.{revised}
use platform_idp_demo.Service.Unique.{Request, create, update, delete}

abbrev pub Catalog : Platform → Type 0
Catalog P = String → Option (Product P)

module _ {P : Platform} where
  abbrev pub catalog_of : List (Product P) → Catalog P
  catalog_of rows u = find_row u rows

  -- The catalog with another product, or none, at a uid.
  abbrev pub put : String → Option (Product P) → Catalog P → Catalog P
  put u o c v = if str_eq u v then o else c v

-- No product of the catalog has the SKU.
abbrev pub LacksSku : {P : Platform} → String → Catalog P → Type 0
LacksSku {P} s c = (u : String) (p : Product P) → c u ≡ some p → p.sku ≢ s

-- What a request asks of the catalog. A create needs a new SKU, and takes a uid that no product has.
pub data Applied {P : Platform} (before after : Catalog P) : Request P → Type 0 where
  created :
      (m : CreateProductRequest P) (given : P.IdModel)
      → LacksSku m.sku before
      → before (P.uid given) ≡ none
      → after ≡ put (P.uid given) (some (row_for m given)) before
      → Applied before after (create m)
  updated :
      (m : UpdateProductRequest P) (p : Product P)
      → before m.uid ≡ some p
      → after ≡ put m.uid (some (revised m p)) before
      → Applied before after (update m)
  deleted :
      (m : DeleteProductRequest) (p : Product P)
      → before m.uid ≡ some p
      → after ≡ put m.uid none before
      → Applied before after (delete m)

-- A request is applied and answered with an empty message and no error; or it is declined with an error, and
-- the catalog is as it was; or it is an update of a product that is lost: the catalog is as it was, and the
-- answer is `lost_as`, which has no error.
pub data CatalogStep {P : Platform} (lost_as : Answer P Empty) (r : Request P)
    (answer : Answer P Empty) (before after : Catalog P) : Type 0 where
  applied :
      answer ≡ (some empty, none)
      → Applied before after r
      → CatalogStep lost_as r answer before after
  declined :
      (e : Error P.Failure)
      → answer.1 ≡ some e
      → after ≡ before
      → CatalogStep lost_as r answer before after
  lost :
      (m : UpdateProductRequest P) (p : Product P)
      → r ≡ update m
      → before m.uid ≡ some p
      → answer ≡ lost_as
      → after ≡ before
      → CatalogStep lost_as r answer before after

-- The steps of a sequence of requests with their answers.
pub data CatalogRun {P : Platform} (lost_as : Answer P Empty)
    : Catalog P → Catalog P → List (Request P) → List (Answer P Empty) → Type 0 where
  finish : {c : Catalog P} → CatalogRun lost_as c c [] []
  step :
      {before after last : Catalog P} {r : Request P} {answer : Answer P Empty}
      {rs : List (Request P)} {answers : List (Answer P Empty)}
      → CatalogStep lost_as r answer before after
      → CatalogRun lost_as after last rs answers
      → CatalogRun lost_as before last (r ∷ rs) (answer ∷ answers)
