-- ===== src/Service/Interleaving/Apart.antt =====
-- Creates that are served at once, when no two of them have the same SKU.
pub mod Runs
use platform_idp_demo.Base.{
  ℕ, ◌+◌, ◌≤◌, ◌≡◌, ◌≢◌, refl, String, List, [], ◌∷◌, ◌++◌, Each, if◌then◌else◌, arith,
}
use platform_idp_demo.Base.Text.{str_eq, eq_iff}
use platform_idp_demo.Platform.{Platform}
use platform_idp_demo.Types.Entity.{Product}
use platform_idp_demo.Repository.{ProductRepository}
use platform_idp_demo.Repository.Lawful.{count_sku}
use platform_idp_demo.Cache.{Cache}
use platform_idp_demo.Export.{Excel}
use platform_idp_demo.Service.{Helpers}
use platform_idp_demo.Service.Unique.{create, update, delete}
use platform_idp_demo.Service.Interleaving.{
  Stage, counting, inserting, updating, writing, deleting, removing, finished, System, Step, arrive,
  call,
}

module _ {P : Platform} where
  -- The request is no create of the SKU that has still to count or to insert.
  abbrev pub IsApart : String → Stage P → Type 0
  IsApart s (counting m) = m.sku ≢ s
  IsApart s (inserting m) = m.sku ≢ s
  IsApart s (updating m) = Unit {0}
  IsApart s (writing m id) = Unit {0}
  IsApart s (deleting m) = Unit {0}
  IsApart s (removing m id) = Unit {0}
  IsApart s (finished answer) = Unit {0}

  -- How many of the requests are creates of the SKU that have still to count or to insert.
  abbrev pub creating : String → Stage P → ℕ
  creating s (counting m) = if str_eq m.sku s then 1 else 0
  creating s (inserting m) = if str_eq m.sku s then 1 else 0
  creating s (updating m) = 0
  creating s (writing m id) = 0
  creating s (deleting m) = 0
  creating s (removing m id) = 0
  creating s (finished answer) = 0

  -- How many of them are past the count.
  abbrev pub counted : String → Stage P → ℕ
  counted s (counting m) = 0
  counted s (inserting m) = if str_eq m.sku s then 1 else 0
  counted s (updating m) = 0
  counted s (writing m id) = 0
  counted s (deleting m) = 0
  counted s (removing m id) = 0
  counted s (finished answer) = 0

  pub counted_le_creating : (s : String) (stage : Stage P) → counted s stage ≤ creating s stage
  counted_le_creating s (counting m) = omega arith
  counted_le_creating s (inserting m) = omega arith
  counted_le_creating s (updating m) = omega arith
  counted_le_creating s (writing m id) = omega arith
  counted_le_creating s (deleting m) = omega arith
  counted_le_creating s (removing m id) = omega arith
  counted_le_creating s (finished answer) = omega arith

  unfoldable pub sum_of : (Stage P → ℕ) → List (Stage P) → ℕ
  sum_of f [] = 0
  sum_of f (stage ∷ stages) = f stage + sum_of f stages

  pub sum_of-append :
      (f : Stage P → ℕ) (xs ys : List (Stage P)) → sum_of f (xs ++ ys) ≡ sum_of f xs + sum_of f ys
  unfolding sum_of
  sum_of-append f [] ys = omega arith
  sum_of-append f (x ∷ xs) ys = omega (arith, sum_of-append f xs ys)

  pub sum_of_le :
      (f g : Stage P → ℕ)
      → ((stage : Stage P) → f stage ≤ g stage)
      → (xs : List (Stage P)) → sum_of f xs ≤ sum_of g xs
  unfolding sum_of
  sum_of_le f g h [] = omega arith
  sum_of_le f g h (x ∷ xs) = omega (arith, h x, sum_of_le f g h xs)

  creating-IsApart : (s : String) (stage : Stage P) → IsApart s stage → creating s stage ≡ 0
  creating-IsApart s (counting m) h = ground (arith, eq_iff m.sku s)
  creating-IsApart s (inserting m) h = ground (arith, eq_iff m.sku s)
  creating-IsApart s (updating m) h = refl
  creating-IsApart s (writing m id) h = refl
  creating-IsApart s (deleting m) h = refl
  creating-IsApart s (removing m id) h = refl
  creating-IsApart s (finished answer) h = refl

  pub sum_of-IsApart :
      (s : String) (stages : List (Stage P))
      → Each (IsApart s) stages
      → sum_of (creating s) stages ≡ 0
  unfolding sum_of
  sum_of-IsApart s [] h = refl
  sum_of-IsApart s (x ∷ xs) h = omega (arith, creating-IsApart s x h.0, sum_of-IsApart s xs h.1)

  -- Of each SKU there is at most one create under way, and at most one row, also when those that are past
  -- their count insert theirs.
  abbrev pub IsSafe : List (Product P) → List (Stage P) → Type 0
  IsSafe ps stages =
      (s : String)
      → (sum_of (creating s) stages ≤ 1) × (count_sku s ps + sum_of (counted s) stages ≤ 1)

module _ {P : Platform} (R : ProductRepository P) (C : Cache P) (X : Excel P)
    (H : Helpers P R X) where
  -- A create arrives when no other create of its SKU has still to count or to insert.
  abbrev pub ArrivesApart : {s t : System R C X H} → Step R C X H s t → Type 0
  ArrivesApart {s} (arrive (create m) _) = Each (IsApart m.sku) s.stages
  ArrivesApart {s} (arrive (update m) _) = Unit {0}
  ArrivesApart {s} (arrive (delete m) _) = Unit {0}
  ArrivesApart {s} (call _ _ _ _ _ _ _ _) = Unit {0}

  pub data ReachApart (s : System R C X H) : System R C X H → Type 0 where
    begin : ReachApart s s
    further :
        {t u : System R C X H}
        → ReachApart s t
        → (step : Step R C X H t u) → ArrivesApart step
        → ReachApart s u
