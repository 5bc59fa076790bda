-- ===== src/Service/Writing.antt =====
-- Create, update and delete against the table of a lawful repository.
use platform_idp_demo.Base.{
  ℕ, ◌<◌, ◌≡◌, refl, Option, none, some, List, [], ◌∷◌, ◌++◌, Bool-cases, inl, inr, arith, true,
  false,
}
use platform_idp_demo.Go.{returned}
use platform_idp_demo.Platform.{Platform, Err}
use platform_idp_demo.Api.Errors.{Error}
use platform_idp_demo.Api.CreateProductRequest.{CreateProductRequest}
use platform_idp_demo.Types.Entity.{Product}
use platform_idp_demo.Repository.{ProductRepository}
use platform_idp_demo.Repository.Lawful.{IsLawful, succeeded, failed, count_sku}
use platform_idp_demo.Cache.{Cache}
use platform_idp_demo.Export.{Excel}
use platform_idp_demo.Service.{
  Empty, empty, Answer, World, Helpers, insert_product, create_product, product_of, is_duplicate,
}

counted_of_duplicate :
    {E : Type 0} (err : Option E) (n : ℕ) → is_duplicate err n ≡ true → (err ≡ none) × (0 < n)
counted_of_duplicate err n h = ground arith

pub absent_of_not_duplicate :
    {E : Type 0} (err : Option E) (n : ℕ) → is_duplicate err n ≡ false → err ≡ none → n ≡ 0
absent_of_not_duplicate err n h e = ground arith

-- The row of a request, with the identity that the database gives it.
abbrev pub row_for : {P : Platform} → CreateProductRequest P → P.IdModel → Product P
row_for {P} m given = record {
  id_model = given;
  name = m.name;
  sku = m.sku;
  status = P.status_of_pb m.status;
  price = m.price;
}

-- What a create may end in: `counted` is the error of the count of the SKU, `before` and `after` are
-- the rows.
pub data CreateEnd {P : Platform} (m : CreateProductRequest P) (counted : Err P)
    (before after : List (Product P)) (answer : Answer P Empty) : Type 0 where
  duplicate :
      counted ≡ none
      → 0 < count_sku m.sku before
      → after ≡ before
      → answer ≡ (none, some P.duplicate_data)
      → CreateEnd m counted before after answer
  created :
      (given : P.IdModel)
      → (counted ≡ none → count_sku m.sku before ≡ 0)
      → after ≡ before ++ row_for m given ∷ []
      → answer ≡ (some empty, none)
      → CreateEnd m counted before after answer
  refused :
      (e : Error P.Failure)
      → after ≡ before
      → answer ≡ (none, some e)
      → CreateEnd m counted before after answer

module _ {P : Platform} (R : ProductRepository P) (C : Cache P) (X : Excel P) (H : Helpers P R X)
    (L : IsLawful R) where
  insert_end :
      (m : CreateProductRequest P) (counted : Err P) (before : List (Product P))
      (w : World R.Db C.Entries)
      → L.rows w.db ≡ before
      → (counted ≡ none → count_sku m.sku before ≡ 0)
      → (answer : Answer P Empty) × (w' : World R.Db C.Entries) × (insert_product R C X H m w
          ≡ returned answer w')
        × (w'.entries ≡ w.entries)
        × CreateEnd m counted before (L.rows w'.db) answer
  unfolding insert_product
  insert_end m counted before w same absent =
      let (given, (err, db', run, change)) = L.create_lem (product_of m) w.db in
      elim change [
        | succeeded none_err grown ↦ (
          (some empty, none),
          record w { db = db' },
          rw (run, none_err),
          refl,
          created given absent (rw (← same) grown) refl,
        )
        | failed e some_err kept ↦ (
          (none, some e),
          record w { db = db' },
          rw (run, some_err),
          refl,
          refused e (rw (← same) kept) refl,
        )
      ]

  -- `CreateProduct` ends in one of three ways. It refuses a SKU that the count finds and changes
  -- nothing; or it appends one row with the request's fields and returns an empty message; or it
  -- returns the database's error and changes nothing. A row is appended only if no row has the SKU or
  -- the count itself failed. The cache is never touched.
  pub create_product-CreateEnd :
      (m : CreateProductRequest P) (w : World R.Db C.Entries)
      → (answer : Answer P Empty) × (w' : World R.Db C.Entries) × (create_product R C X H (some m) w
          ≡ returned answer w')
        × (w'.entries ≡ w.entries)
        × CreateEnd m (L.count_lem m.sku w.db).1 (L.rows w.db) (L.rows w'.db) answer
  unfolding create_product
  create_product-CreateEnd m w =
      let (n, err, db', run, same, exact) = L.count_lem m.sku w.db in
      elim (Bool-cases (is_duplicate err n)) [
        | inl found ↦
            let (counted, positive) = counted_of_duplicate err n found in
            (
              (none, some P.duplicate_data),
              record w { db = db' },
              ground arith,
              refl,
              duplicate counted (rw (← exact counted) positive) same refl,
            )
        | inr absent ↦
            let (answer, w', ran, kept, ended) =
              insert_end m err (L.rows w.db) (record w { db = db' }) same
                (λ counted. rw (← exact counted) (absent_of_not_duplicate err n absent counted)) in
            (answer, w', ground arith, kept, ended)
      ]
