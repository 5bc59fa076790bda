-- ===== src/Api/Enums.antt =====
-- The enumerations `Status` and `EXPORT_TYPE` of api/product/product.pb.go: their numbers, and the maps from
-- numbers to names and back, as lists of pairs with distinct keys.
use platform_idp_demo.Base.{
  ◌≡◌, ◌↔◌, String, Option, none, some, List, [], ◌∷◌, if◌then◌else◌, arith,
}
use platform_idp_demo.Base.Int.{ℤ, pos, ◌==ℤ◌, ==ℤ_iff}
use platform_idp_demo.Base.Text.{str_eq, eq_iff}

abbrev pub status_unspecified : ℤ
status_unspecified = pos 0

abbrev pub status_active : ℤ
status_active = pos 1

abbrev pub status_inactive : ℤ
status_inactive = pos 2

abbrev pub status_archived : ℤ
status_archived = pos 3

abbrev pub export_type_unspecified : ℤ
export_type_unspecified = pos 0

abbrev pub export_type_url : ℤ
export_type_url = pos 1

abbrev pub export_type_direct : ℤ
export_type_direct = pos 2

-- `Status_name`
abbrev pub status_name : List (ℤ × String)
status_name =
    (pos 0, "STATUS_UNSPECIFIED")
    ∷ (pos 1, "STATUS_ACTIVE")
    ∷ (pos 2, "STATUS_INACTIVE")
    ∷ (pos 3, "STATUS_ARCHIVED")
    ∷ []

-- `Status_value`
abbrev pub status_value : List (String × ℤ)
status_value =
    ("STATUS_UNSPECIFIED", pos 0)
    ∷ ("STATUS_ACTIVE", pos 1)
    ∷ ("STATUS_INACTIVE", pos 2)
    ∷ ("STATUS_ARCHIVED", pos 3)
    ∷ []

-- `EXPORT_TYPE_name`
abbrev pub export_type_name : List (ℤ × String)
export_type_name = (pos 0, "UNSPECIFIED") ∷ (pos 1, "URL") ∷ (pos 2, "DIRECT") ∷ []

-- `EXPORT_TYPE_value`
abbrev pub export_type_value : List (String × ℤ)
export_type_value = ("UNSPECIFIED", pos 0) ∷ ("URL", pos 1) ∷ ("DIRECT", pos 2) ∷ []

-- Indexing a map by a number, and by a text.
abbrev pub name_at : List (ℤ × String) → ℤ → Option String
name_at [] n = none
name_at (kv ∷ kvs) n = let rest = name_at kvs n in if kv.0 ==ℤ n then some kv.1 else rest

abbrev pub value_at : List (String × ℤ) → String → Option ℤ
value_at [] s = none
value_at (kv ∷ kvs) s = let rest = value_at kvs s in if str_eq kv.0 s then some kv.1 else rest

-- The two maps of `Status` are inverse to each other: a number has a name exactly when that name has the
-- number.
pub status_name-status_value :
    (n : ℤ) (s : String) → (name_at status_name n ≡ some s) ↔ (value_at status_value s ≡ some n)
status_name-status_value n s = ground (
  arith,
  ==ℤ_iff (pos 0) n,
  ==ℤ_iff (pos 1) n,
  ==ℤ_iff (pos 2) n,
  ==ℤ_iff (pos 3) n,
  eq_iff "STATUS_UNSPECIFIED" s,
  eq_iff "STATUS_ACTIVE" s,
  eq_iff "STATUS_INACTIVE" s,
  eq_iff "STATUS_ARCHIVED" s,
  eq_iff "STATUS_UNSPECIFIED" "STATUS_ACTIVE",
  eq_iff "STATUS_UNSPECIFIED" "STATUS_INACTIVE",
  eq_iff "STATUS_UNSPECIFIED" "STATUS_ARCHIVED",
  eq_iff "STATUS_ACTIVE" "STATUS_INACTIVE",
  eq_iff "STATUS_ACTIVE" "STATUS_ARCHIVED",
  eq_iff "STATUS_INACTIVE" "STATUS_ARCHIVED",
)

-- So are those of `EXPORT_TYPE`.
pub export_type_name-export_type_value :
    (n : ℤ) (s : String)
    → (name_at export_type_name n ≡ some s) ↔ (value_at export_type_value s ≡ some n)
export_type_name-export_type_value n s = ground (
  arith,
  ==ℤ_iff (pos 0) n,
  ==ℤ_iff (pos 1) n,
  ==ℤ_iff (pos 2) n,
  eq_iff "UNSPECIFIED" s,
  eq_iff "URL" s,
  eq_iff "DIRECT" s,
  eq_iff "UNSPECIFIED" "URL",
  eq_iff "UNSPECIFIED" "DIRECT",
  eq_iff "URL" "DIRECT",
)
