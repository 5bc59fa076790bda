-- ===== src/Service/Interleaving/Laws.antt =====
-- The stages against the handlers.
use platform_idp_demo.Base.{◌≡◌, arith}
use platform_idp_demo.Go.{M, pure, ◌>>=◌}
use platform_idp_demo.Platform.{Platform}
use platform_idp_demo.Repository.{ProductRepository}
use platform_idp_demo.Cache.{Cache}
use platform_idp_demo.Export.{Excel}
use platform_idp_demo.Service.{World, Helpers, create_product, update_product, delete_product}
use platform_idp_demo.Service.Unique.{Request, create, update, delete, serve}
use platform_idp_demo.Service.Interleaving.{Stage, finished, first_stage, advance}

module _ {P : Platform} (R : ProductRepository P) (C : Cache P) (X : Excel P)
    (H : Helpers P R X) where
  -- Two calls of the database in a row, with no other request between them.
  unfoldable pub advance_twice : Stage P → M (World R.Db C.Entries) (Stage P)
  unfolding advance
  advance_twice stage = do stage' ← advance R C X H stage; advance R C X H stage'

  -- A create, an update or a delete that no other request interrupts runs as the handler does, whatever
  -- the database does.
  pub serve-advance_twice :
      (r : Request P) (w : World R.Db C.Entries)
      → advance_twice (first_stage r) w ≡ (do answer ← serve R C X H r; pure (finished answer)) w
  unfolding advance_twice create_product update_product delete_product
  serve-advance_twice (create m) w = ground arith
  serve-advance_twice (update m) w = ground arith
  serve-advance_twice (delete m) w = ground arith
