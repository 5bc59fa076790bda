-- ===== src/Cache.antt =====
-- `cache.Cache` of helper/cache, as far as the service calls it.
use platform_idp_demo.Base.{ℕ, ◌≤◌, ◌<◌, ◌≡◌, String, Bool, true, none, some}
use platform_idp_demo.Go.{M, returned}
use platform_idp_demo.Platform.{Platform, Err}
use platform_idp_demo.Api.Errors.{Error}

pub record Cache (P : Platform) : Type 1 where
  pub Entries : Type 0
  -- `SetWithExpireCtx(ctx, key, value, expire)`, the time in seconds
  pub set_with_expire : String → String → ℕ → M Entries (Err P)
  -- `GetCtx(ctx, key, &val)`: what `val` then holds, and the error
  pub get : String → M Entries (String × Err P)
  pub is_not_found : Error P.Failure → Bool

-- What a cache with expiry promises, over time that passes by seconds.
pub record IsLawful {P : Platform} (C : Cache P) : Type 0 where
  pub elapse : ℕ → C.Entries → C.Entries
  -- A value that was set is found until its time is over.
  pub get-set :
      (k v : String) (ttl n : ℕ) (c c' : C.Entries)
      → C.set_with_expire k v ttl c ≡ returned none c'
      → n < ttl
      → (c'' : C.Entries) × (C.get k (elapse n c') ≡ returned (v, none) c'')
  -- After that the lookup returns a not-found error.
  pub get-expired :
      (k v : String) (ttl n : ℕ) (c c' : C.Entries)
      → C.set_with_expire k v ttl c ≡ returned none c'
      → ttl ≤ n
      → (e : Error P.Failure) × (c'' : C.Entries) × (C.get k (elapse n c')
          ≡ returned ("", some e) c'')
        × (C.is_not_found e ≡ true)
