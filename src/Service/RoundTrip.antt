-- ===== src/Service/RoundTrip.antt =====
-- A product that was created is read back with the fields of its request.
use platform_idp_demo.Base.{
  ◌≡◌, ◌∙◌, sym, ap, refl, none, some, List, [], ◌∷◌, ◌++◌, arith, Bool-cases, inl, inr, ◌⊎◌,
}
use platform_idp_demo.Base.Text.{str_eq, eq_refl}
use platform_idp_demo.Go.{returned}
use platform_idp_demo.Platform.{Platform}
use platform_idp_demo.Api.Errors.{Error}
use platform_idp_demo.Api.CreateProductRequest.{CreateProductRequest}
use platform_idp_demo.Api.GetProductResponse.{GetProductResponse}
use platform_idp_demo.Types.Entity.{Product}
use platform_idp_demo.Repository.{ProductRepository}
use platform_idp_demo.Repository.Lawful.{IsLawful, succeeded, failed, find_row}
use platform_idp_demo.Cache.{Cache}
use platform_idp_demo.Export.{Excel}
use platform_idp_demo.Service.{
  Answer, empty, World, Helpers, create_product, insert_product, get_product, product_of,
  is_duplicate,
}
use platform_idp_demo.Service.Writing.{row_for}
use platform_idp_demo.Service.Lookup.{SetReturns, GetEnd, get_product-GetEnd}

module _ {P : Platform} where
  find_row-append :
      (ps : List (Product P)) (p : Product P)
      → find_row (P.uid p.id_model) ps ≡ none
      → find_row (P.uid p.id_model) (ps ++ p ∷ []) ≡ some p
  unfolding find_row
  find_row-append [] p fresh = rw (eq_refl (P.uid p.id_model)) refl
  find_row-append (q ∷ ps) p fresh =
      elim (Bool-cases (str_eq (P.uid q.id_model) (P.uid p.id_model))) [
        | inl same ↦ absurd (ground arith)
        | inr other ↦ rw other (find_row-append ps p (rw other at fresh))
      ]

  -- The response of a product that was created from a request.
  abbrev pub created_response : CreateProductRequest P → P.IdModel → GetProductResponse P
  created_response m given = record {
    id = P.id given;
    uid = P.uid given;
    name = m.name;
    sku = m.sku;
    status = P.pb_of_status (P.status_of_pb m.status);
    price = m.price;
  }

module _ {P : Platform} (R : ProductRepository P) (C : Cache P) (X : Excel P) (H : Helpers P R X)
    (L : IsLawful R) where
  -- The id that the database gives to the row of a create.
  abbrev pub given_id : CreateProductRequest P → World R.Db C.Entries → P.IdModel
  given_id m w = (L.create_lem (product_of m) (L.count_lem m.sku w.db).2).0

  -- The row of the request is found by its uid, and a read of the uid answers with its fields, or with
  -- an error and no product.
  abbrev pub ReadBack : CreateProductRequest P → P.IdModel → World R.Db C.Entries → Type 0
  ReadBack m given w =
      (answer : Answer P (GetProductResponse P)) × (w' : World R.Db C.Entries) × (find_row
          (P.uid given) (L.rows w.db)
        ≡ some (row_for m given))
      × (get_product R C X H (some (record { uid = P.uid given })) w ≡ returned answer w')
      × ((answer ≡ (some (created_response m given), none))
          ⊎ ((e : Error P.Failure) × (answer ≡ (none, some e))))

  read_back :
      (m : CreateProductRequest P) (before : List (Product P)) (given : P.IdModel)
      (w : World R.Db C.Entries)
      → SetReturns R C X H L
      → L.rows w.db ≡ before ++ row_for m given ∷ []
      → find_row (P.uid given) before ≡ none
      → ReadBack m given w
  read_back m before given w sets grown fresh =
      let (answer, w', ran, ended) = get_product-GetEnd R C X H L sets (P.uid given) w in
      (answer, w', row, ran, read ended)
    where
      row : find_row (P.uid given) (L.rows w.db) ≡ some (row_for m given)
      row = rw grown (find_row-append before (row_for m given) fresh)

      read :
          {after : List (Product P)} {answer : Answer P (GetProductResponse P)}
          → GetEnd (P.uid given) (L.rows w.db) after answer
          → (answer ≡ (some (created_response m given), none))
            ⊎ ((e : Error P.Failure) × (answer ≡ (none, some e)))
      read (GetEnd.not_found e _ failing) = inr (e, failing)
      read (GetEnd.found p in_table _ answered) =
          let same : some p ≡ some (row_for m given) = sym in_table ∙ row in
          let p_is : p ≡ row_for m given = cc in inl (rw p_is at answered)

  -- Over a lawful repository and a cache whose sets return: when `CreateProduct` has returned an empty
  -- message and no error, and no row had the uid that the database gave to the new row, then the row of
  -- the request is found by that uid, and `GetProduct` of the uid returns: it answers with the id, the
  -- request's name, SKU and price, and its status converted to the entity's and back, or with an error and
  -- no product.
  pub get_product-create_product :
      SetReturns R C X H L
      → (m : CreateProductRequest P) (w w₁ : World R.Db C.Entries)
      → find_row (P.uid (given_id m w)) (L.rows w.db) ≡ none
      → create_product R C X H (some m) w ≡ returned (some empty, none) w₁
      → ReadBack m (given_id m w) w₁
  unfolding create_product insert_product
  get_product-create_product sets m w w₁ fresh created =
      let (n, err, db, counted, same, exact) = L.count_lem m.sku w.db in
      elim (Bool-cases (is_duplicate err n)) [
        | inl found ↦ absurd (ground arith)
        | inr absent ↦
            let (given, (err', db', run, change)) = L.create_lem (product_of m) db in
            elim change [
              | succeeded none_err grown ↦
                  let moved : w₁ ≡ record w { db = db' } = ground arith in
                  read_back m (L.rows w.db) given w₁ sets
                    (ap (λ v. L.rows v.db) moved ∙ (rw (← same) grown)) fresh
              | failed e some_err kept ↦ absurd (ground arith)
            ]
      ]
