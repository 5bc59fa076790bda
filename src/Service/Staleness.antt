-- ===== src/Service/Staleness.antt =====
-- What `GetProductFromCache` answers after the product has changed.
use platform_idp_demo.Base.{
  ℕ, ◌<◌, ◌≡◌, ◌≢◌, ◌∙◌, refl, String, true, none, some, List, [], ◌∷◌, arith,
}
use platform_idp_demo.Base.Text.{eq_iff}
use platform_idp_demo.Go.{returned, ◌>>=◌, ◌>>◌}
use platform_idp_demo.Platform.{Platform}
use platform_idp_demo.Types.Entity.{Product}
use platform_idp_demo.Repository.{ProductRepository}
use platform_idp_demo.Repository.Lawful
use platform_idp_demo.Cache.{Cache, IsLawful}
use platform_idp_demo.Export.{Excel}
use platform_idp_demo.Service.{Answer, Empty, World, Helpers, get_product, get_product_from_cache}
use platform_idp_demo.Service.Reading.{cached_text, wait, get_product-stores}
use platform_idp_demo.Service.Writing.{create_product-CreateEnd}
use platform_idp_demo.Service.Editing.{update_product-UpdateEnd, delete_product-DeleteEnd}
use platform_idp_demo.Service.Unique.{Request, create, update, delete, serve, serve_all}

module _ {P : Platform} (R : ProductRepository P) (C : Cache P) (X : Excel P) (H : Helpers P R X)
    (L : Lawful.IsLawful R) where
  serve_entries :
      (r : Request P) (w : World R.Db C.Entries)
      → (answer : Answer P Empty) × (w' : World R.Db C.Entries) × (serve R C X H r w
          ≡ returned answer w')
        × (w'.entries ≡ w.entries)
  serve_entries (create m) w =
      let (answer, w', ran, kept, _) = create_product-CreateEnd R C X H L m w in
      (answer, w', ran, kept)
  serve_entries (update m) w =
      let (answer, w', ran, kept, _) = update_product-UpdateEnd R C X H L m w in
      (answer, w', ran, kept)
  serve_entries (delete m) w =
      let (answer, w', ran, kept, _) = delete_product-DeleteEnd R C X H L m w in
      (answer, w', ran, kept)

  serve_all_entries :
      (rs : List (Request P)) (w : World R.Db C.Entries)
      → (answers : List (Answer P Empty)) × (w' : World R.Db C.Entries) × (serve_all R C X H rs w
          ≡ returned answers w')
        × (w'.entries ≡ w.entries)
  unfolding serve_all
  serve_all_entries [] w = ([], w, refl, refl)
  serve_all_entries (r ∷ rs) w =
      let (answer, w₁, ran, kept) = serve_entries r w in
      let (answers, w₂, ran_all, kept_all) = serve_all_entries rs w₁ in
      (answer ∷ answers, w₂, ground arith, kept_all ∙ kept)

  -- Over a lawful repository and a lawful cache: when `GetProduct` finds a product with a SKU and the cache
  -- stores it without an error, then after any creates, updates and deletes, also of that product, and
  -- less than ten minutes later, `GetProductFromCache` of the SKU still returns the text that was stored,
  -- marked as cached. No write refreshes or removes the entry.
  pub get_product_from_cache-serve_all :
      (K : IsLawful C) (u : String) (w : World R.Db C.Entries) (p : Product P) (db' : R.Db)
      (entries' : C.Entries) (rs : List (Request P)) (n : ℕ)
      → R.find_by_uid u w.db ≡ returned (some p, none) db'
      → p.sku ≢ ""
      → C.set_with_expire p.sku (cached_text R C X H p) 600 w.entries ≡ returned none entries'
      → n < 600
      → (w' : World R.Db C.Entries) × ((do
        _ ← get_product R C X H (some (record { uid = u }))
        _ ← serve_all R C X H rs
        wait R C X H K n
        get_product_from_cache R C X H (some (record { sku = p.sku })))
            w
          ≡ returned
              (
                some (record { sku = p.sku; payload = cached_text R C X H p; from_cache = true }),
                none,
              )
              w')
  unfolding get_product_from_cache
  get_product_from_cache-serve_all K u w p db' entries' rs n found named set in_time =
      let (answers, w₂, ran, kept) =
        serve_all_entries rs (record { db = db'; entries = entries' }) in
      let (entries'', got) =
        K.get-set p.sku (cached_text R C X H p) 600 n w.entries entries' set in_time in
      (
        record w₂ { entries = entries'' },
        ground (arith, get_product-stores R C X H u w p db' entries' none, eq_iff p.sku ""),
      )
