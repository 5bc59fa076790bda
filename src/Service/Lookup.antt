-- ===== src/Service/Lookup.antt =====
-- `GetProduct` against the table of a lawful repository.
use platform_idp_demo.Base.{ℕ, ◌≡◌, refl, String, none, some, List, arith, Bool-cases, inl, inr}
use platform_idp_demo.Base.Text.{str_eq}
use platform_idp_demo.Go.{returned}
use platform_idp_demo.Platform.{Platform, Err}
use platform_idp_demo.Api.Errors.{Error}
use platform_idp_demo.Api.GetProductResponse.{GetProductResponse}
use platform_idp_demo.Types.Entity.{Product}
use platform_idp_demo.Types.Mapper.{response_of, product_map_to_response}
use platform_idp_demo.Repository.{ProductRepository}
use platform_idp_demo.Repository.Lawful.{IsLawful, LooksUp, find_row}
use platform_idp_demo.Cache.{Cache}
use platform_idp_demo.Export.{Excel}
use platform_idp_demo.Service.{Answer, World, Helpers, get_product}

-- What a read may end in, by the rows before and after it.
pub data GetEnd {P : Platform} (u : String) (before after : List (Product P))
    (answer : Answer P (GetProductResponse P)) : Type 0 where
  not_found :
      (e : Error P.Failure)
      → after ≡ before
      → answer ≡ (none, some e)
      → GetEnd u before after answer
  found :
      (p : Product P)
      → find_row u before ≡ some p
      → after ≡ before
      → answer ≡ (
        some (record {
          id = P.id p.id_model;
          uid = P.uid p.id_model;
          name = p.name;
          sku = p.sku;
          status = P.pb_of_status p.status;
          price = p.price;
        }),
        none,
      )
      → GetEnd u before after answer

module _ {P : Platform} (R : ProductRepository P) (C : Cache P) (X : Excel P) (H : Helpers P R X)
    (L : IsLawful R) where
  -- Every set of the cache returns, with or without an error.
  abbrev pub SetReturns : Type 0
  SetReturns =
      (k v : String) (ttl : ℕ) (c : C.Entries)
      → (err : Err P) × (c' : C.Entries) × (C.set_with_expire k v ttl c ≡ returned err c')

  -- Over a lawful repository and a cache whose sets return, `GetProduct` of a request that is not nil
  -- returns and leaves the rows as they are: it answers with the fields of the row that the uid finds
  -- and no error, or with an error and no product. An error of the cache is not seen.
  pub get_product-GetEnd :
      SetReturns
      → (u : String) (w : World R.Db C.Entries)
      → (answer : Answer P (GetProductResponse P)) × (w' : World R.Db C.Entries) × (get_product R C
            X H
            (some (record { uid = u }))
            w
          ≡ returned answer w')
        × GetEnd u (L.rows w.db) (L.rows w'.db) answer
  unfolding get_product product_map_to_response
  get_product-GetEnd sets u w = after_lookup (L.find_lem u w.db)
    where
      Ends : Type 0
      Ends =
          (answer : Answer P (GetProductResponse P)) × (w' : World R.Db C.Entries) × (get_product R
              C X H (some (record { uid = u })) w
            ≡ returned answer w')
          × GetEnd u (L.rows w.db) (L.rows w'.db) answer

      after_lookup : LooksUp L.rows (R.find_by_uid u) u w.db → Ends
      after_lookup (o, some e, db', run, same, row) =
          ((none, some e), record w { db = db' }, ground arith, GetEnd.not_found e same refl)
      after_lookup (o, none, db', run, same, row) =
          let (p, is_p, in_table) = row refl in
          let got : R.find_by_uid u w.db ≡ returned (some p, none) db' = rw (← is_p) run in
          elim (Bool-cases (str_eq p.sku "")) [
            | inl unnamed ↦ (
              (some (response_of p), none),
              record w { db = db' },
              ground arith,
              GetEnd.found p in_table same refl,
            )
            | inr named ↦
                let (err, entries', set) =
                  sets p.sku (H.marshal (some (response_of p))).0 600 w.entries in
                (
                  (some (response_of p), none),
                  record { db = db'; entries = entries' },
                  ground arith,
                  GetEnd.found p in_table same refl,
                )
          ]
