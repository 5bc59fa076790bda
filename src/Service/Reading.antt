-- ===== src/Service/Reading.antt =====
-- What a read returns and leaves behind: `GetProduct` fills the cache for `GetProductFromCache`.
use platform_idp_demo.Base.{
  ℕ, ◌≤◌, ◌<◌, ◌≡◌, ◌≢◌, String, true, false, Option, none, some, List, map, arith,
}
use platform_idp_demo.Base.Text.{eq_iff}
use platform_idp_demo.Go.{M, returned, world_after, ◌>>=◌, ◌>>◌}
use platform_idp_demo.Platform.{Platform, Err}
use platform_idp_demo.Api.Errors.{Error}
use platform_idp_demo.Api.GetProductRequest.{GetProductRequest}
use platform_idp_demo.Api.GetProductResponse.{GetProductResponse}
use platform_idp_demo.Api.ListProductsRequest.{ListProductsRequest}
use platform_idp_demo.Api.GetProductFromCacheRequest.{GetProductFromCacheRequest}
use platform_idp_demo.Types.Entity.{Product}
use platform_idp_demo.Types.Mapper.{response_of, product_map_to_response, map_pagination_data}
use platform_idp_demo.Types.Mapper.Laws.{product_map_to_responses-map}
use platform_idp_demo.Repository.{ProductRepository}
use platform_idp_demo.Cache.{Cache, IsLawful}
use platform_idp_demo.Export.{Excel}
use platform_idp_demo.Service.{World, Helpers, get_product, list_products, get_product_from_cache}

module _ {P : Platform} (R : ProductRepository P) (C : Cache P) (X : Excel P)
    (H : Helpers P R X) where
  -- The text that `GetProduct` stores for a product.
  abbrev pub cached_text : Product P → String
  cached_text p = (H.marshal (some (response_of p))).0

  -- When the lookup finds a product with a SKU, `GetProduct` answers with its response, and the
  -- response's JSON is set under the SKU for ten minutes; an error of the cache is not seen.
  pub get_product-stores :
      (u : String) (w : World R.Db C.Entries) (p : Product P) (db' : R.Db) (entries' : C.Entries)
      (stored : Err P)
      → R.find_by_uid u w.db ≡ returned (some p, none) db'
      → p.sku ≢ ""
      → C.set_with_expire p.sku (cached_text p) 600 w.entries ≡ returned stored entries'
      → get_product R C X H (some (record { uid = u })) w
        ≡ returned (some (response_of p), none) (record { db = db'; entries = entries' })
  unfolding get_product product_map_to_response
  get_product-stores u w p db' entries' stored found named set = ground (arith, eq_iff p.sku "")

  -- An answer of `GetProduct` with an error carries no product, and the cache is as it was.
  pub get_product-unstored :
      (m : Option GetProductRequest) (w w' : World R.Db C.Entries)
      (resp : Option (GetProductResponse P)) (e : Error P.Failure)
      → get_product R C X H m w ≡ returned (resp, some e) w'
      → (resp ≡ none) × (w'.entries ≡ w.entries)
  unfolding get_product product_map_to_response
  get_product-unstored m w w' resp e h = ground arith

  -- Time passes for the cache.
  abbrev pub wait : IsLawful C → ℕ → M (World R.Db C.Entries) (Unit {0})
  wait L n w = returned tt (record w { entries = L.elapse n w.entries })

  -- Within ten minutes after `GetProduct` has found and stored a product, `GetProductFromCache` of its
  -- SKU returns the text that was stored, marked as cached.
  pub get_product_from_cache-get_product :
      (L : IsLawful C) (u : String) (w : World R.Db C.Entries) (p : Product P) (db' : R.Db)
      (entries' : C.Entries) (n : ℕ)
      → R.find_by_uid u w.db ≡ returned (some p, none) db'
      → p.sku ≢ ""
      → C.set_with_expire p.sku (cached_text p) 600 w.entries ≡ returned none entries'
      → n < 600
      → (w' : World R.Db C.Entries) × ((do
        _ ← get_product R C X H (some (record { uid = u }))
        wait L n
        get_product_from_cache R C X H (some (record { sku = p.sku })))
            w
          ≡ returned
              (some (record { sku = p.sku; payload = cached_text p; from_cache = true }), none)
              w')
  unfolding get_product_from_cache
  get_product_from_cache-get_product L u w p db' entries' n found named set in_time =
      let (entries'', got) = L.get-set p.sku (cached_text p) 600 n w.entries entries' set in_time in
      (
        record { db = db'; entries = entries'' },
        ground (arith, get_product-stores u w p db' entries' none, eq_iff p.sku ""),
      )

  -- Ten minutes after it, the same call answers with an empty text, marked as not cached.
  pub get_product_from_cache-expired :
      (L : IsLawful C) (u : String) (w : World R.Db C.Entries) (p : Product P) (db' : R.Db)
      (entries' : C.Entries) (n : ℕ)
      → R.find_by_uid u w.db ≡ returned (some p, none) db'
      → p.sku ≢ ""
      → C.set_with_expire p.sku (cached_text p) 600 w.entries ≡ returned none entries'
      → 600 ≤ n
      → (w' : World R.Db C.Entries) × ((do
        _ ← get_product R C X H (some (record { uid = u }))
        wait L n
        get_product_from_cache R C X H (some (record { sku = p.sku })))
            w
          ≡ returned (some (record { sku = p.sku; payload = ""; from_cache = false }), none) w')
  unfolding get_product_from_cache
  get_product_from_cache-expired L u w p db' entries' n found named set late =
      let (e, entries'', got, missing) =
        L.get-expired p.sku (cached_text p) 600 n w.entries entries' set late in
      (
        record { db = db'; entries = entries'' },
        ground (arith, get_product-stores u w p db' entries' none, eq_iff p.sku ""),
      )

  -- `GetProductFromCache` never touches the database, whatever it answers or however it ends.
  pub get_product_from_cache-db :
      (m : Option GetProductFromCacheRequest) (w : World R.Db C.Entries)
      → (world_after (get_product_from_cache R C X H m w)).db ≡ w.db
  unfolding get_product_from_cache
  get_product_from_cache-db m w = ground arith

  -- When the repository returns a page of products, `ListProducts` asks it once, with the request's
  -- limit, page, order and filters, and answers with the products in order and the page's data.
  pub list_products-page :
      (m : ListProductsRequest) (w : World R.Db C.Entries) (items : List (Product P))
      (pagination : P.PageInfo) (db' : R.Db)
      → R.find_with_pagination m.limit m.page m.sort_order m.sort_by
          (some (record { name = m.name; sku = m.sku }))
          w.db
        ≡ returned (map some items, pagination, none) db'
      → list_products R C X H (some m) w
        ≡ returned
            (
              some (record {
                products = map (λ p. some (response_of p)) items;
                pagination = some (map_pagination_data P pagination);
              }),
              none,
            )
            (record w { db = db' })
  unfolding list_products
  list_products-page m w items pagination db' found =
      ground (arith, product_map_to_responses-map P items pagination)
