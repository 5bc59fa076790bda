-- ===== src/Repository/Laws.antt =====
-- The two queries by SKU.
use platform_idp_demo.Base.{◌≡◌, refl, String, none, some}
use platform_idp_demo.Platform.{Platform}
use platform_idp_demo.Repository.{BaseRepository, count_by_sku, with_filter}

module _ {P : Platform} (B : BaseRepository P) where
  -- `CountBySku` counts with the very query change that `WithFilter` makes for a filter by that SKU
  -- alone.
  pub count_by_sku-with_filter :
      (code : String)
      → count_by_sku B code
        ≡ B.count (with_filter B (some (record { name = none; sku = some code })))
  unfolding count_by_sku with_filter
  count_by_sku-with_filter code = refl
