-- ===== src/Tests/Redis.antt =====
-- A lawful cache in memory: one entry for each write, the latest first, with the seconds that it has
-- left.
use platform_idp_demo.Base.{
  ℕ, ◌-◌, ◌≤◌, ◌<◌, ◌≡◌, refl, String, Bool, true, false, none, some, List, [], ◌∷◌, if◌then◌else◌,
  ltb, arith,
}
use platform_idp_demo.Base.Text.{str_eq, eq_refl}
use platform_idp_demo.Go.{M, returned}
use platform_idp_demo.Platform.{Err}
use platform_idp_demo.Api.Errors.{Error, foreign}
use platform_idp_demo.Cache.{Cache, IsLawful}
use platform_idp_demo.Tests.Memory.{plat}

pub record Entry : Type 0 where
  pub key : String
  pub value : String
  pub left : ℕ

abbrev pub miss : Error String
miss = foreign "redis: nil"

abbrev pub is_miss : Error String → Bool
is_miss (foreign s) = str_eq s "redis: nil"
is_miss _ = false

abbrev pub answer : Entry → String × Err plat
answer e = if ltb 0 e.left then (e.value, none) else ("", some miss)

abbrev pub lookup : String → List Entry → String × Err plat
lookup k [] = ("", some miss)
lookup k (e ∷ es) = let rest = lookup k es in if str_eq e.key k then answer e else rest

abbrev pub age : ℕ → List Entry → List Entry
age n [] = []
age n (e ∷ es) = record e { left = e.left - n } ∷ age n es

abbrev pub set : String → String → ℕ → M (List Entry) (Err plat)
set k v ttl es = returned none (record { key = k; value = v; left = ttl } ∷ es)

abbrev pub redis : Cache plat
redis = record {
  Entries = List Entry;
  set_with_expire = set;
  get = λ k es. returned (lookup k es) es;
  is_not_found = is_miss;
}

pub get-set :
    (k v : String) (ttl n : ℕ) (c c' : List Entry)
    → set k v ttl c ≡ returned none c'
    → n < ttl
    → (c'' : List Entry) × (redis.get k (age n c') ≡ returned (v, none) c'')
get-set k v ttl n c c' e h =
    let same : record { key = k; value = v; left = ttl } ∷ c ≡ c' = cc e in
    rw (← same) (age n (record { key = k; value = v; left = ttl } ∷ c), ground (arith, eq_refl k))

pub get-expired :
    (k v : String) (ttl n : ℕ) (c c' : List Entry)
    → set k v ttl c ≡ returned none c'
    → ttl ≤ n
    → (e : Error String) × (c'' : List Entry) × (redis.get k (age n c') ≡ returned ("", some e) c'')
      × (redis.is_not_found e ≡ true)
get-expired k v ttl n c c' e h =
    let same : record { key = k; value = v; left = ttl } ∷ c ≡ c' = cc e in
    rw (← same)
      (miss, age n (record { key = k; value = v; left = ttl } ∷ c), ground (arith, eq_refl k), refl)

abbrev pub redis-IsLawful : IsLawful redis
redis-IsLawful = record { elapse = age; get-set = get-set; get-expired = get-expired }
