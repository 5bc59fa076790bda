-- ===== src/Tests/Owned.antt =====
-- The memory repository with keys numbers its rows in series, and an interleaved delete over it.
use platform_idp_demo.Base.{
  ℕ, ◌+◌, ◌<◌, ◌≡◌, ◌≢◌, refl, Option, none, some, Bool-cases, Option-cases, inl, inr, [], ◌∷◌, all,
  arith,
}
use platform_idp_demo.Base.Int.{ℤ, pos}
use platform_idp_demo.Go.{returned}
use platform_idp_demo.Platform.{Err}
use platform_idp_demo.Types.Entity.{Product}
use platform_idp_demo.Repository.Lawful.{find_row}
use platform_idp_demo.Service.{World}
use platform_idp_demo.Service.Unique.{delete}
use platform_idp_demo.Service.Catalog.{catalog_of}
use platform_idp_demo.Service.Catalog.Keys.{IsKeyed, EachId, EachId-map, OtherId}
use platform_idp_demo.Service.Interleaving.{
  Stage, deleting, removing, finished, System, Reach, here, next, arrive, call,
}
use platform_idp_demo.Service.Interleaving.Owning.{Serials, OwnChange}
use platform_idp_demo.Service.Interleaving.Owning.Runs.{Reach-OwnChange}
use platform_idp_demo.Tests.Memory.{plat, Table, ident, find, update, delete as delete_in, lamp}
use platform_idp_demo.Tests.Redis.{redis}
use platform_idp_demo.Tests.Sheet.{sheets}
use platform_idp_demo.Tests.Catalogs.{
  keyed, keyed_helpers, keyed-IsLawful, create_keyed, differs, all-differs, shelf, bare_shelf, gone,
}

-- The numbers below the counter were given.
abbrev Given : Table → ℤ → Type 0
Given t id = (n : ℕ) × (id ≡ pos n) × (n < t.fresh)

grows-Given : (t t' : Table) (k : ℕ) → t'.fresh ≡ t.fresh + k → (id : ℤ) → Given t id → Given t' id
grows-Given t t' k e id (n, is_n, below) = (n, is_n, omega arith)

find_fresh :
    (u : _) (t t' : Table) (o : Option (Product plat)) (err : Err plat)
    → find u t ≡ returned (o, err) t'
    → t'.fresh ≡ t.fresh + 0
find_fresh u t t' o err ran = elim (Option-cases (find_row u t.rows)) [
  | inl absent ↦ let same : t ≡ t' = ground (arith, ran) in rw (← same) (omega arith)
  | inr (p, found) ↦ let same : t ≡ t' = ground (arith, ran) in rw (← same) (omega arith)
]

update_fresh :
    (cs : _) (k : ℤ) (t t' : Table) (err : Err plat)
    → update cs k t ≡ returned err t'
    → t'.fresh ≡ t.fresh + 0
update_fresh cs k t t' err ran = ground (arith, ran)

delete_fresh :
    (k : ℤ) (t t' : Table) (err : Err plat)
    → delete_in k t ≡ returned err t'
    → t'.fresh ≡ t.fresh + 0
delete_fresh k t t' err ran = ground (arith, ran)

count_fresh :
    (s : _) (t t' : Table) (n : ℕ) (err : Err plat)
    → keyed.count_by_sku s t ≡ returned (n, err) t'
    → t'.fresh ≡ t.fresh + 0
count_fresh s t t' n err ran = ground (arith, ran)

create_fresh :
    (p : Product plat) (t t' : Table) (err : Err plat)
    → create_keyed p t ≡ returned err t'
    → (id : ℤ) → Given t id
    → Given t' id
create_fresh p t t' err ran id spent = elim (Bool-cases (all (differs (ident t.fresh)) t.rows)) [
  | inl unused ↦
      let e : t'.fresh ≡ t.fresh + 1 = ground (arith, ran) in grows-Given t t' 1 e id spent
  | inr used ↦ let e : t'.fresh ≡ t.fresh + 0 = ground (arith, ran) in grows-Given t t' 0 e id spent
]

gives_next :
    (p : Product plat) (t t' : Table)
    → create_keyed p t ≡ returned none t'
    → (¬ Given t (pos t.fresh))
      × Given t' (pos t.fresh)
      × EachId {P = plat} (λ i. i.uid ≢ (ident t.fresh).uid) t.rows
gives_next p t t' ran = elim (Bool-cases (all (differs (ident t.fresh)) t.rows)) [
  | inl unused ↦
      let next_number : t'.fresh ≡ t.fresh + 1 = ground (arith, ran) in
      (
        (λ spent. omega (arith, pos_injective spent.1, spent.2)),
        (t.fresh, refl, omega (arith, next_number)),
        EachId-map {P = plat} (OtherId plat (ident t.fresh)) (λ i. i.uid ≢ (ident t.fresh).uid)
            (λ i d. d.1) t.rows (all-differs (ident t.fresh) t.rows unused),
      )
  | inr used ↦ absurd (ground (arith, ran))
]
  where
    pos_injective : {a b : ℕ} → pos a ≡ pos b → a ≡ b
    pos_injective e = cc

abbrev keyed-Serials : Serials keyed keyed-IsLawful
keyed-Serials = record {
  Given = Given;
  find_keeps = λ u t t' o err ran. grows-Given t t' 0 (find_fresh u t t' o err ran);
  count_keeps = λ s t t' n err ran. grows-Given t t' 0 (count_fresh s t t' n err ran);
  create_keeps = create_fresh;
  update_keeps = λ cs k t t' err ran. grows-Given t t' 0 (update_fresh cs k t t' err ran);
  delete_keeps = λ k t t' err ran. grows-Given t t' 0 (delete_fresh k t t' err ran);
  create_gives = gives_next;
}

abbrev idle : System keyed redis sheets keyed_helpers
idle = record { world = shelf; stages = [] }

-- A delete has arrived and has looked its product up.
abbrev looked_up : System keyed redis sheets keyed_helpers
looked_up = record { world = shelf; stages = removing gone (pos 7) ∷ [] }

reached : Reach keyed redis sheets keyed_helpers idle looked_up
unfolding find_row platform_idp_demo.Service.Interleaving.advance
reached =
    next (next here (arrive (delete gone) refl))
      (call [] [] (deleting gone) (removing gone (pos 7)) shelf refl refl refl)

Reach-OwnChange_example :
    OwnChange {P = plat} (removing gone (pos 7)) (catalog_of (lamp ∷ [])) (catalog_of [])
    × IsKeyed {P = plat} []
unfolding platform_idp_demo.Repository.Lawful.delete_rows
    platform_idp_demo.Service.Interleaving.advance
Reach-OwnChange_example =
    Reach-OwnChange keyed redis sheets keyed_helpers keyed-IsLawful keyed-Serials {s = idle}
      {t = looked_up} refl (tt, tt) ((7, refl, omega arith), tt) reached [] []
      (removing gone (pos 7)) (finished (some platform_idp_demo.Service.empty, none)) bare_shelf
      refl refl
