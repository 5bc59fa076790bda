-- ===== src/Tests/Interleavings.antt =====
-- Interleaved creates, updates and deletes over the memory repository.
use platform_idp_demo.Base.{ℕ, ◌≡◌, refl, false, none, some, List, [], ◌∷◌, arith}
use platform_idp_demo.Base.Int.{pos}
use platform_idp_demo.Base.Text.{eq_iff}
use platform_idp_demo.Go.{returned}
use platform_idp_demo.Api.CreateProductRequest.{CreateProductRequest}
use platform_idp_demo.Api.UpdateProductRequest.{UpdateProductRequest}
use platform_idp_demo.Types.Entity.{Product}
use platform_idp_demo.Repository.Lawful.{count_sku, find_row, delete_rows}
use platform_idp_demo.Service.{Answer, Empty, empty, World}
use platform_idp_demo.Service.Unique.{IsUnique, create}
use platform_idp_demo.Service.Interleaving.{
  Stage, counting, inserting, finished, advance, System, Reach, arrive, call,
}
use platform_idp_demo.Service.Interleaving.Advancing.{CallEnd}
use platform_idp_demo.Service.Interleaving.Invariant.{advance-finished, advance-CallEnd}
use platform_idp_demo.Service.Interleaving.Apart.{ReachApart, begin, further}
use platform_idp_demo.Service.Interleaving.Apart.Runs.{ReachApart-IsUnique}
use platform_idp_demo.Service.Interleaving.LateWrites.{late_writes-Reach}
use platform_idp_demo.Tests.Memory.{lamp, table, plat, memory, memory-IsLawful, Table, ident}
use platform_idp_demo.Tests.Redis.{redis, Entry}
use platform_idp_demo.Tests.Sheet.{sheets, helpers}

abbrev empty_table : Table
empty_table = record { rows = []; fresh = 8; broken = false }

abbrev nothing : World Table (List Entry)
nothing = record { db = empty_table; entries = [] }

abbrev chair : CreateProductRequest plat
chair = record { name = "Chair"; sku = "C-1"; status = pos 1; price = 8900 }

abbrev desk : CreateProductRequest plat
desk = record { name = "Desk"; sku = "D-1"; status = pos 1; price = 4900 }

advance-finished_example :
    (stage' : Stage plat) × (w₁ : World Table (List Entry)) × (advance memory redis sheets helpers
        (counting chair)
        nothing
      ≡ returned stage' w₁)
    × ((w₂ : World Table (List Entry))
        → (answer : Answer plat Empty) × (w₃ : World Table (List Entry)) × (advance memory redis
              sheets helpers stage' w₂
            ≡ returned (finished answer) w₃))
advance-finished_example =
    advance-finished memory redis sheets helpers memory-IsLawful (counting chair) nothing

abbrev row : CreateProductRequest plat → ℕ → Product plat
row m n = record {
  id_model = ident n;
  name = m.name;
  sku = m.sku;
  status = m.status;
  price = m.price;
}

abbrev with_chair : World Table (List Entry)
with_chair = record {
  db = record { rows = row chair 8 ∷ []; fresh = 9; broken = false };
  entries = [];
}

abbrev with_both : World Table (List Entry)
with_both = record {
  db = record { rows = row chair 8 ∷ row desk 9 ∷ []; fresh = 10; broken = false };
  entries = [];
}

abbrev both : System memory redis sheets helpers
both = record {
  world = with_both;
  stages = finished (some empty, none) ∷ finished (some empty, none) ∷ [];
}

-- Both creates arrive and count no row with their SKU before either inserts its row.
both_served : ReachApart memory redis sheets helpers (record { world = nothing; stages = [] }) both
unfolding advance count_sku
both_served =
    further
      (further
        (further
          (further
            (further (further begin (arrive (create chair) refl) tt) (arrive (create desk) refl)
              ((λ same. ground (arith, eq_iff "C-1" "D-1")), tt))
            (call [] (counting desk ∷ []) (counting chair) (inserting chair) nothing refl refl refl)
            tt)
          (call (inserting chair ∷ []) [] (counting desk) (inserting desk) nothing refl refl refl)
          tt)
        (call [] (inserting desk ∷ []) (inserting chair) (finished (some empty, none)) with_chair
          refl refl refl)
        tt)
      (call (finished (some empty, none) ∷ []) [] (inserting desk) (finished (some empty, none))
        with_both refl refl refl)
      tt

nothing-IsUnique : IsUnique {P = plat} []
unfolding count_sku
nothing-IsUnique s = omega arith

ReachApart-IsUnique_example : IsUnique with_both.db.rows
ReachApart-IsUnique_example =
    ReachApart-IsUnique memory redis sheets helpers memory-IsLawful (λ s db. refl) refl
      nothing-IsUnique both_served

abbrev shelf : World Table (List Entry)
shelf = record { db = table; entries = [] }

abbrev lamp_request : CreateProductRequest plat
lamp_request = record { name = "Lamp"; sku = lamp.sku; status = pos 1; price = 1400 }

advance-CallEnd_example :
    CallEnd {P = plat}
      (λ s. none)
      (counting lamp_request)
      (finished (none, some plat.duplicate_data))
      (lamp ∷ [])
      (lamp ∷ [])
unfolding advance count_sku
advance-CallEnd_example =
    advance-CallEnd memory redis sheets helpers memory-IsLawful (counting lamp_request)
      (finished (none, some plat.duplicate_data)) shelf shelf refl

abbrev dearer : UpdateProductRequest plat
dearer = record { uid = "u7"; name = "Lamp"; sku = "L-9"; status = pos 1; price = 1400 }

late_writes-Reach_example :
    Reach memory redis sheets helpers
      (record { world = shelf; stages = [] })
      (record {
        world = nothing;
        stages =
            finished (some empty, none)
            ∷ finished (some empty, none)
            ∷ finished (some empty, none)
            ∷ [];
      })
    × ([] ≡ delete_rows (pos 7) (lamp ∷ []))
unfolding find_row delete_rows platform_idp_demo.Repository.Lawful.update_rows
late_writes-Reach_example =
    late_writes-Reach memory redis sheets helpers memory-IsLawful (record { uid = "u7" }) dearer
      lamp shelf empty_table empty_table empty_table refl refl refl refl refl
