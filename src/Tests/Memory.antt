-- ===== src/Tests/Memory.antt =====
-- A platform and a lawful repository in memory. With `broken` set, its updates fail.
use platform_idp_demo.Base.{
  ℕ, ◌+◌, ◌≡◌, refl, ◌++◌, String, Bool, true, false, Option, none, some, List, [], ◌∷◌, arith,
}
use platform_idp_demo.Base.Int.{ℤ, pos}
use platform_idp_demo.Base.Decimal.{decimal}
use platform_idp_demo.Go.{M, returned}
use platform_idp_demo.Platform.{Platform, Err}
use platform_idp_demo.Api.Errors.{Error, foreign}
use platform_idp_demo.Types.Entity.{Product}
use platform_idp_demo.Repository.{ProductRepository, Value}
use platform_idp_demo.Repository.Lawful.{
  IsLawful, Changes, succeeded, failed, LooksUp, count_sku, update_rows, delete_rows, find_row,
}

pub record Ident : Type 0 where
  pub number : ℤ
  pub uid : String

-- Prices are in cents, times in seconds, and a page's data is its number of records.
abbrev pub plat : Platform
plat = record {
  Failure = String;
  failure_text = λ s. s;
  bad_request = λ e. foreign "bad request";
  duplicate_data = foreign "duplicate data";
  Float = ℕ;
  zero_float = 0;
  ModelStatus = ℤ;
  status_of_pb = λ z. z;
  pb_of_status = λ z. z;
  IdModel = Ident;
  new_id_model = record { number = pos 0; uid = "" };
  id = λ i. i.number;
  uid = λ i. i.uid;
  created_by = λ i. "";
  created_by_uid = λ i. "";
  updated_by = λ i. "";
  updated_by_uid = λ i. "";
  Time = ℕ;
  Timestamp = ℕ;
  created_at = λ i. 0;
  updated_at = λ i. 0;
  time_to_proto = λ t. some t;
  PageInfo = ℕ;
  page_limit = λ n. pos 10;
  page_number = λ n. pos 1;
  page_total = λ n. pos 1;
  page_records = λ n. pos n;
  default_limit = pos 2;
  sort_order_default = "DESC";
}

pub record Table : Type 0 where
  pub rows : List (Product plat)
  pub fresh : ℕ
  pub broken : Bool

abbrev pub not_found : Error String
not_found = foreign "record not found"

abbrev pub find : String → M Table (Option (Product plat) × Err plat)
find u t = elim (find_row u t.rows) [
  | none ↦ returned (none, some not_found) t
  | some p ↦ returned (some p, none) t
]

abbrev pub ident : ℕ → Ident
ident n = record { number = pos n; uid = decimal n }

abbrev pub create : Product plat → M Table (Err plat)
create p t =
    returned none (record t {
      rows = t.rows ++ record p { id_model = ident t.fresh } ∷ [];
      fresh = t.fresh + 1;
    })

abbrev pub update : List (String × Value plat) → ℤ → M Table (Err plat)
update cs id t = elim t.broken [
  | true ↦ returned (some (foreign "read only")) t
  | false ↦ returned none (record t { rows = update_rows id cs t.rows })
]

abbrev pub delete : ℤ → M Table (Err plat)
delete id t = elim t.broken [
  | true ↦ returned (some (foreign "read only")) t
  | false ↦ returned none (record t { rows = delete_rows id t.rows })
]

abbrev pub pointers : List (Product plat) → List (Option (Product plat))
pointers [] = []
pointers (p ∷ ps) = some p ∷ pointers ps

-- Queries give the whole table, on one page.
abbrev pub memory : ProductRepository plat
memory = record {
  Db = Table;
  find_by_uid = find;
  create = create;
  update_by_id = update;
  delete_by_id = delete;
  count_by_sku = λ s t. returned (count_sku s t.rows, none) t;
  find_with_pagination = λ limit page order by filters t. returned (pointers t.rows, 0, none) t;
  find_with_cursor = λ limit prev next by order filters t.
      returned (pointers t.rows, some (record { prev = ""; next = "" }), none) t;
}

pub find_lem : (u : String) (t : Table) → LooksUp (λ (s : Table). s.rows) (find u) u t
find_lem u t = go (find_row u t.rows) refl
  where
    go :
        (o : Option (Product plat))
        → find_row u t.rows ≡ o
        → LooksUp (λ (s : Table). s.rows) (find u) u t
    go none e = (none, some not_found, t, ground arith, refl, λ h. cc)
    go (some p) e = (some p, none, t, ground arith, refl, λ h. (p, refl, e))

pub update_lem :
    (cs : List (String × Value plat)) (id : ℤ) (t : Table)
    → Changes (λ (s : Table). s.rows) (update cs id) (update_rows id cs t.rows) t
update_lem cs id t = go t.broken refl
  where
    go :
        (b : Bool)
        → t.broken ≡ b
        → Changes (λ (s : Table). s.rows) (update cs id) (update_rows id cs t.rows) t
    go true e =
        (some (foreign "read only"), t, ground arith, failed (foreign "read only") refl refl)
    go false e =
        (none, record t { rows = update_rows id cs t.rows }, ground arith, succeeded refl refl)

pub delete_lem :
    (id : ℤ) (t : Table) → Changes (λ (s : Table). s.rows) (delete id) (delete_rows id t.rows) t
delete_lem id t = go t.broken refl
  where
    go :
        (b : Bool)
        → t.broken ≡ b
        → Changes (λ (s : Table). s.rows) (delete id) (delete_rows id t.rows) t
    go true e =
        (some (foreign "read only"), t, ground arith, failed (foreign "read only") refl refl)
    go false e =
        (none, record t { rows = delete_rows id t.rows }, ground arith, succeeded refl refl)

abbrev pub memory-IsLawful : IsLawful memory
memory-IsLawful = record {
  rows = λ t. t.rows;
  find_lem = find_lem;
  count_lem = λ s t. (count_sku s t.rows, none, t, refl, refl, λ h. refl);
  create_lem = λ p t. (ident t.fresh, (none, _, refl, succeeded refl refl));
  update_lem = update_lem;
  delete_lem = delete_lem;
}

abbrev pub lamp : Product plat
lamp = record {
  id_model = record { number = pos 7; uid = "u7" };
  name = "Lamp";
  sku = "L-1";
  status = pos 1;
  price = 1250;
}

abbrev pub table : Table
table = record { rows = lamp ∷ []; fresh = 8; broken = false }
