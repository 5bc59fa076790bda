-- ===== src/Service/Interleaving/Apart/Runs.antt =====
-- The SKUs stay unique while no two creates of one SKU are under way.
use platform_idp_demo.Base.{◌+◌, ◌≤◌, ◌≡◌, String, ℕ, none, List, [], ◌∷◌, ◌++◌, arith}
use platform_idp_demo.Base.Text.{eq_iff}
use platform_idp_demo.Platform.{Platform, Err}
use platform_idp_demo.Types.Entity.{Product}
use platform_idp_demo.Repository.{ProductRepository}
use platform_idp_demo.Repository.Lawful.{IsLawful, count_sku}
use platform_idp_demo.Cache.{Cache}
use platform_idp_demo.Export.{Excel}
use platform_idp_demo.Service.{Helpers}
use platform_idp_demo.Service.Writing.{row_for}
use platform_idp_demo.Service.Unique.{
  create, update, delete, IsUnique, count_sku-append, count_sku-revise_rows, count_sku-delete_rows,
}
use platform_idp_demo.Service.Interleaving.{
  Stage, counting, inserting, updating, deleting, System, Step, arrive, call,
}
use platform_idp_demo.Service.Interleaving.Advancing.{
  CallEnd, found_duplicate, found_free, inserted, insert_refused, update_found, update_not_found,
  revised, update_lost, delete_found, delete_not_found, removed, delete_refused, ended,
}
use platform_idp_demo.Service.Interleaving.Invariant.{advance-CallEnd}
use platform_idp_demo.Service.Interleaving.Apart.{
  creating, counted, counted_le_creating, sum_of, sum_of-append, sum_of_le, sum_of-IsApart, IsSafe,
  ArrivesApart, ReachApart, begin, further,
}

module _ {P : Platform} where
  -- With `rest` creates of the SKU under way in the other requests, of which `past` are past their count.
  CallEnd-room :
      (count_error : String → Err P) (stage stage' : Stage P) (ps ps' : List (Product P))
      (s : String) (rest past : ℕ)
      → ((s : String) → count_error s ≡ none)
      → CallEnd count_error stage stage' ps ps'
      → past ≤ rest
      → creating s stage + rest ≤ 1
      → count_sku s ps + (counted s stage + past) ≤ 1
      → (creating s stage' + rest ≤ 1) × (count_sku s ps' + (counted s stage' + past) ≤ 1)
  unfolding count_sku
  CallEnd-room count_error stage stage' ps ps' s rest past counts
        (found_duplicate m is_stage is_next known same) few one unique =
      rw (is_next, same) (ground arith)
  CallEnd-room count_error stage stage' ps ps' s rest past counts
        (found_free m is_stage is_next free same) few one unique =
      let one' : creating s (counting m) + rest ≤ 1 = rw is_stage at one in
      let absent : count_sku m.sku ps ≡ 0 = free (counts m.sku) in
      rw (is_next, same) (ground (arith, eq_iff m.sku s))
  CallEnd-room count_error stage stage' ps ps' s rest past counts
        (inserted m given is_stage is_next grown) few one unique =
      let one' : creating s (inserting m) + rest ≤ 1 = rw is_stage at one in
      let unique' : count_sku s ps + (counted s (inserting m) + past) ≤ 1 = rw is_stage at unique in
      rw (is_next, grown) (ground (arith, count_sku-append s ps (row_for m given ∷ [])))
  CallEnd-room count_error stage stage' ps ps' s rest past counts
        (insert_refused m e is_stage is_next same) few one unique =
      rw (is_next, same) (ground arith)
  CallEnd-room count_error stage stage' ps ps' s rest past counts
        (update_found m p is_stage found is_next same) few one unique =
      rw (is_next, same) (ground arith)
  CallEnd-room count_error stage stage' ps ps' s rest past counts
        (update_not_found m e is_stage is_next same) few one unique =
      rw (is_next, same) (ground arith)
  CallEnd-room count_error stage stage' ps ps' s rest past counts
        (revised m id is_stage is_next changed) few one unique =
      rw (is_next, changed) (ground (arith, count_sku-revise_rows s id m ps))
  CallEnd-room count_error stage stage' ps ps' s rest past counts
        (update_lost m id is_stage is_next same) few one unique =
      rw (is_next, same) (ground arith)
  CallEnd-room count_error stage stage' ps ps' s rest past counts
        (delete_found m p is_stage found is_next same) few one unique =
      rw (is_next, same) (ground arith)
  CallEnd-room count_error stage stage' ps ps' s rest past counts
        (delete_not_found m e is_stage is_next same) few one unique =
      rw (is_next, same) (ground arith)
  CallEnd-room count_error stage stage' ps ps' s rest past counts
        (removed m id is_stage is_next changed) few one unique =
      rw (is_next, changed) (ground (arith, count_sku-delete_rows s id ps))
  CallEnd-room count_error stage stage' ps ps' s rest past counts
        (delete_refused m id e is_stage is_next same) few one unique =
      rw (is_next, same) (ground arith)
  CallEnd-room count_error stage stage' ps ps' s rest past counts
        (ended answer is_stage is_next same) few one unique =
      rw (is_next, same) (ground arith)

  CallEnd-IsSafe :
      (count_error : String → Err P) (before after : List (Stage P)) (stage stage' : Stage P)
      (ps ps' : List (Product P))
      → ((s : String) → count_error s ≡ none)
      → CallEnd count_error stage stage' ps ps'
      → IsSafe ps (before ++ stage ∷ after)
      → IsSafe ps' (before ++ stage' ∷ after)
  unfolding sum_of
  CallEnd-IsSafe count_error before after stage stage' ps ps' counts end safe s =
      let creating_before = sum_of-append (creating s) before (stage ∷ after) in
      let counted_before = sum_of-append (counted s) before (stage ∷ after) in
      let (one, unique) =
        CallEnd-room count_error stage stage' ps ps' s
          (sum_of (creating s) before + sum_of (creating s) after)
          (sum_of (counted s) before + sum_of (counted s) after) counts end
          (omega (
            arith,
            sum_of_le (counted s) (creating s) (counted_le_creating s) before,
            sum_of_le (counted s) (creating s) (counted_le_creating s) after,
          ))
          (omega (arith, (safe s).0, creating_before))
          (omega (arith, (safe s).1, counted_before)) in
      (
        omega (arith, one, sum_of-append (creating s) before (stage' ∷ after)),
        omega (arith, unique, sum_of-append (counted s) before (stage' ∷ after)),
      )

module _ {P : Platform} (R : ProductRepository P) (C : Cache P) (X : Excel P) (H : Helpers P R X)
    (L : IsLawful R) (counts : (s : String) (db : R.Db) → (L.count_lem s db).1 ≡ none) where
  Step-IsSafe :
      {s t : System R C X H}
      → (step : Step R C X H s t) → ArrivesApart R C X H step
      → IsSafe (L.rows s.world.db) s.stages
      → IsSafe (L.rows t.world.db) t.stages
  unfolding sum_of
  Step-IsSafe {s} (arrive (create m) t_is) apart safe = rw t_is λ sku.
      let other = sum_of-append (creating sku) s.stages (counting m ∷ []) in
      let past = sum_of-append (counted sku) s.stages (counting m ∷ []) in
      let none_yet = sum_of-IsApart m.sku s.stages apart in
      ground (arith, safe sku, eq_iff m.sku sku)
  Step-IsSafe {s} (arrive (update m) t_is) apart safe = rw t_is λ sku.
      let other = sum_of-append (creating sku) s.stages (updating m ∷ []) in
      let past = sum_of-append (counted sku) s.stages (updating m ∷ []) in omega (arith, safe sku)
  Step-IsSafe {s} (arrive (delete m) t_is) apart safe = rw t_is λ sku.
      let other = sum_of-append (creating sku) s.stages (deleting m ∷ []) in
      let past = sum_of-append (counted sku) s.stages (deleting m ∷ []) in omega (arith, safe sku)
  Step-IsSafe {s} (call before after stage stage' w' at_stage ran t_is) apart safe =
      let safe' : IsSafe (L.rows s.world.db) (before ++ stage ∷ after) = rw at_stage at safe in
      rw t_is (
        CallEnd-IsSafe (λ sku. (L.count_lem sku s.world.db).1) before after stage stage'
          (L.rows s.world.db) (L.rows w'.db) (λ sku. counts sku s.world.db)
          (advance-CallEnd R C X H L stage stage' s.world w' ran) safe')

  ReachApart-IsSafe :
      {s t : System R C X H}
      → IsSafe (L.rows s.world.db) s.stages
      → ReachApart R C X H s t
      → IsSafe (L.rows t.world.db) t.stages
  ReachApart-IsSafe safe begin = safe
  ReachApart-IsSafe safe (further reached step apart) =
      Step-IsSafe step apart (ReachApart-IsSafe safe reached)

  -- Over a lawful repository, without a unique index, whose counts return no error: from a table with unique
  -- SKUs and no request being served, any number of creates, updates and deletes that are served at once,
  -- however their calls of the database interleave, keep the SKUs of the table unique, as long as a create
  -- only arrives when no other create of its SKU has still to count or to insert.
  pub ReachApart-IsUnique :
      {s t : System R C X H}
      → s.stages ≡ []
      → IsUnique (L.rows s.world.db)
      → ReachApart R C X H s t
      → IsUnique (L.rows t.world.db)
  unfolding sum_of
  ReachApart-IsUnique {s} {t} idle unique reached sku =
      let safe : IsSafe (L.rows s.world.db) s.stages =
        rw idle λ sku. (omega arith, omega (arith, unique sku)) in
      omega (arith, ReachApart-IsSafe safe reached sku)
