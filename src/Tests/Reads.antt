-- ===== src/Tests/Reads.antt =====
-- Reads over the memory repository and the memory cache.
use platform_idp_demo.Base.{◌≡◌, ◌≢◌, refl, true, false, none, some, List, [], ◌∷◌, arith}
use platform_idp_demo.Base.Int.{pos}
use platform_idp_demo.Base.Text.{eq_iff}
use platform_idp_demo.Go.{returned, ◌>>=◌, ◌>>◌}
use platform_idp_demo.Api.ListProductsRequest.{ListProductsRequest}
use platform_idp_demo.Api.GetProductResponse.{GetProductResponse}
use platform_idp_demo.Types.Mapper.{response_of}
use platform_idp_demo.Repository.Lawful.{find_row}
use platform_idp_demo.Service.{Answer, World, get_product, get_product_from_cache}
use platform_idp_demo.Service.Reading.{get_product_from_cache-expired, wait}
use platform_idp_demo.Service.Staleness.{get_product_from_cache-serve_all}
use platform_idp_demo.Service.Unique.{update, delete, serve_all}
use platform_idp_demo.Api.UpdateProductRequest.{UpdateProductRequest}
use platform_idp_demo.Api.DeleteProductRequest.{DeleteProductRequest}
use platform_idp_demo.Service.Lookup.{SetReturns, GetEnd, get_product-GetEnd}
use platform_idp_demo.Tests.Memory.{plat, memory, memory-IsLawful, lamp, table, Table}
use platform_idp_demo.Tests.Redis.{redis, redis-IsLawful, Entry}
use platform_idp_demo.Tests.Sheet.{helpers, sheets}

abbrev shelf : World Table (List Entry)
shelf = record { db = table; entries = [] }

abbrev stored : List Entry
stored = record { key = "L-1"; value = "Lamp"; left = 600 } ∷ []

lamp_named : lamp.sku ≢ ""
lamp_named = ground (arith, eq_iff "L-1" "")

redis_sets : SetReturns memory redis sheets helpers memory-IsLawful
redis_sets k v ttl c = (none, _, refl)

get_product-GetEnd_example :
    (answer : Answer plat (GetProductResponse plat)) × (w' : World Table (List Entry))
    × (get_product memory redis sheets helpers (some (record { uid = "u7" })) shelf
        ≡ returned answer w')
    × GetEnd "u7" (lamp ∷ []) w'.db.rows answer
get_product-GetEnd_example =
    get_product-GetEnd memory redis sheets helpers memory-IsLawful redis_sets "u7" shelf

get_product_from_cache-expired_example :
    (w' : World Table (List Entry)) × ((do
      _ ← get_product memory redis sheets helpers (some (record { uid = "u7" }))
      wait memory redis sheets helpers redis-IsLawful 600
      get_product_from_cache memory redis sheets helpers (some (record { sku = "L-1" })))
        shelf
      ≡ returned (some (record { sku = "L-1"; payload = ""; from_cache = false }), none) w')
unfolding find_row response_of
get_product_from_cache-expired_example =
    get_product_from_cache-expired memory redis sheets helpers redis-IsLawful "u7" shelf lamp table
      stored 600 refl lamp_named refl (omega arith)

abbrev renamed : UpdateProductRequest plat
renamed = record { uid = "u7"; name = "Torch"; sku = "L-1"; status = pos 1; price = 1250 }

abbrev gone : DeleteProductRequest
gone = record { uid = "u7" }

-- The product is renamed and then deleted.
get_product_from_cache-serve_all_example :
    (w' : World Table (List Entry)) × ((do
      _ ← get_product memory redis sheets helpers (some (record { uid = "u7" }))
      _ ← serve_all memory redis sheets helpers (update renamed ∷ delete gone ∷ [])
      wait memory redis sheets helpers redis-IsLawful 599
      get_product_from_cache memory redis sheets helpers (some (record { sku = "L-1" })))
        shelf
      ≡ returned (some (record { sku = "L-1"; payload = "Lamp"; from_cache = true }), none) w')
unfolding find_row response_of
get_product_from_cache-serve_all_example =
    get_product_from_cache-serve_all memory redis sheets helpers memory-IsLawful redis-IsLawful "u7"
      shelf lamp table stored (update renamed ∷ delete gone ∷ []) 599 refl lamp_named refl
      (omega arith)

abbrev first_page : ListProductsRequest
first_page = record {
  page = pos 1;
  limit = pos 10;
  sort_order = "DESC";
  sort_by = "id";
  name = none;
  sku = none;
}
