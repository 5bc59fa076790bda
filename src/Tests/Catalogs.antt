-- ===== src/Tests/Catalogs.antt =====
-- The service over the memory repository with keys: a create is refused when a row has the next id or uid.
use platform_idp_demo.Base.{
  ◌+◌, ◌≡◌, ◌++◌, refl, Bool, true, false, not, ◌&&◌, all, Each, none, Bool-cases, inl, inr, some,
  List, [], ◌∷◌, arith,
}
use platform_idp_demo.Base.Int.{pos, ◌==ℤ◌, ==ℤ_iff}
use platform_idp_demo.Base.Text.{str_eq, eq_iff}
use platform_idp_demo.Go.{M, returned}
use platform_idp_demo.Platform.{Err}
use platform_idp_demo.Api.Errors.{foreign}
use platform_idp_demo.Api.CreateProductRequest.{CreateProductRequest}
use platform_idp_demo.Api.GetProductResponse.{GetProductResponse}
use platform_idp_demo.Api.UpdateProductRequest.{UpdateProductRequest}
use platform_idp_demo.Api.DeleteProductRequest.{DeleteProductRequest}
use platform_idp_demo.Types.Entity.{Product}
use platform_idp_demo.Repository.{ProductRepository}
use platform_idp_demo.Repository.Lawful.{IsLawful, Changes, succeeded, failed, count_sku, find_row}
use platform_idp_demo.Service.{
  Answer, Empty, World, Helpers, get_product, update_product, delete_product,
}
use platform_idp_demo.Service.Editing.{revised}
use platform_idp_demo.Service.Lookup.{SetReturns}
use platform_idp_demo.Service.Unique.{create, update, delete, serve_all}
use platform_idp_demo.Service.Catalog.{catalog_of, CatalogRun}
use platform_idp_demo.Service.Catalog.Keys.{Differs, IsKeyed}
use platform_idp_demo.Service.Catalog.Refinement.{HasKeys, serve_all-CatalogRun}
use platform_idp_demo.Service.Catalog.Reads.{
  Shows, IsGone, get_product-update_product, delete_product-IsGone,
}
use platform_idp_demo.Tests.Memory.{
  plat, memory, Table, Ident, ident, find_lem, update_lem, delete_lem, lamp, table,
}
use platform_idp_demo.Tests.Redis.{redis, Entry}
use platform_idp_demo.Tests.Sheet.{sheets, helpers}

abbrev pub differs : Ident → Product plat → Bool
differs k p = not (p.id_model.number ==ℤ k.number) && not (str_eq p.id_model.uid k.uid)

pub all-differs :
    (k : Ident) (ps : List (Product plat))
    → all (differs k) ps ≡ true
    → Each (Differs {P = plat} k) ps
all-differs k [] h = tt
all-differs k (p ∷ ps) h = (
  (ground (arith, ==ℤ_iff p.id_model.number k.number), ground (arith, eq_iff p.id_model.uid k.uid)),
  all-differs k ps (ground arith),
)

abbrev pub create_keyed : Product plat → M Table (Err plat)
create_keyed p t =
    let grown = record t {
      rows = t.rows ++ record p { id_model = ident t.fresh } ∷ [];
      fresh = t.fresh + 1;
    } in
    elim (all (differs (ident t.fresh)) t.rows) [
      | true ↦ returned none grown
      | false ↦ returned (some (foreign "duplicate key")) t
    ]

abbrev pub keyed : ProductRepository plat
keyed = record memory { create = create_keyed }

abbrev pub keyed_helpers : Helpers plat keyed sheets
keyed_helpers = record {
  marshal = helpers.marshal;
  Context = helpers.Context;
  user_claims = helpers.user_claims;
  map_to_struct = helpers.map_to_struct;
  today = helpers.today;
  excel_export = helpers.excel_export;
}

pub create_keyed_lem :
    (p : Product plat) (t : Table)
    → Changes
        (λ (s : Table). s.rows)
        (create_keyed p)
        (t.rows ++ record p { id_model = ident t.fresh } ∷ [])
        t
create_keyed_lem p t = elim (Bool-cases (all (differs (ident t.fresh)) t.rows)) [
  | inl unused ↦ (
    none,
    record t { rows = t.rows ++ record p { id_model = ident t.fresh } ∷ []; fresh = t.fresh + 1 },
    ground arith,
    succeeded refl refl,
  )
  | inr used ↦
      (some (foreign "duplicate key"), t, ground arith, failed (foreign "duplicate key") refl refl)
]

abbrev pub keyed-IsLawful : IsLawful keyed
keyed-IsLawful = record {
  rows = λ t. t.rows;
  find_lem = find_lem;
  count_lem = λ s t. (count_sku s t.rows, none, t, refl, refl, λ h. refl);
  create_lem = λ p t. (ident t.fresh, create_keyed_lem p t);
  update_lem = update_lem;
  delete_lem = delete_lem;
}

pub keyed-HasKeys : HasKeys keyed redis sheets keyed_helpers keyed-IsLawful
keyed-HasKeys p db db' created = elim (Bool-cases (all (differs (ident db.fresh)) db.rows)) [
  | inl unused ↦ all-differs (ident db.fresh) db.rows unused
  | inr used ↦ absurd (ground arith)
]

sets : SetReturns keyed redis sheets keyed_helpers keyed-IsLawful
sets k v ttl c = (none, _, refl)

abbrev pub shelf : World Table (List Entry)
shelf = record { db = table; entries = [] }

abbrev pub chair : CreateProductRequest plat
chair = record { name = "Chair"; sku = "C-1"; status = pos 1; price = 8900 }

abbrev pub dearer : UpdateProductRequest plat
dearer = record { uid = "u7"; name = "Lamp"; sku = "L-9"; status = pos 1; price = 1400 }

abbrev pub gone : DeleteProductRequest
gone = record { uid = "u7" }

serve_all-CatalogRun_example :
    (answers : List (Answer plat Empty)) × (w' : World Table (List Entry)) × (serve_all keyed redis
        sheets keyed_helpers
        (create chair ∷ update dearer ∷ delete gone ∷ [])
        shelf
      ≡ returned answers w')
    × IsKeyed w'.db.rows
    × CatalogRun
        (none, none)
        (catalog_of (lamp ∷ []))
        (catalog_of w'.db.rows)
        (create chair ∷ update dearer ∷ delete gone ∷ [])
        answers
serve_all-CatalogRun_example =
    serve_all-CatalogRun keyed redis sheets keyed_helpers keyed-IsLawful keyed-HasKeys
      (λ s db. refl) (create chair ∷ update dearer ∷ delete gone ∷ []) shelf (tt, tt)

abbrev shelf_dearer : World Table (List Entry)
shelf_dearer = record {
  db = record { rows = revised dearer lamp ∷ []; fresh = 8; broken = false };
  entries = [];
}

get_product-update_product_example :
    (p : Product plat) × (answer : Answer plat (GetProductResponse plat)) × (w₂ : World Table
      (List Entry))
    × (find_row "u7" (lamp ∷ []) ≡ some p)
    × (get_product keyed redis sheets keyed_helpers (some (record { uid = "u7" })) shelf_dearer
        ≡ returned answer w₂)
    × Shows (revised dearer p) answer
unfolding update_product find_row platform_idp_demo.Repository.Lawful.update_rows
get_product-update_product_example =
    get_product-update_product keyed redis sheets keyed_helpers keyed-IsLawful sets dearer shelf
      shelf_dearer (tt, tt) refl

abbrev pub bare_shelf : World Table (List Entry)
bare_shelf = record { db = record { rows = []; fresh = 8; broken = false }; entries = [] }

delete_product-IsGone_example :
    IsGone keyed redis sheets keyed_helpers keyed-IsLawful "u7" dearer bare_shelf
unfolding delete_product find_row platform_idp_demo.Repository.Lawful.delete_rows
delete_product-IsGone_example =
    delete_product-IsGone keyed redis sheets keyed_helpers keyed-IsLawful sets gone dearer shelf
      bare_shelf (tt, tt) refl refl
