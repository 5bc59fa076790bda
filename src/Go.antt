-- ===== src/Go.antt =====
-- How the Go code runs: a computation over a world ends with a value, panics (a nil pointer is
-- dereferenced, an index is out of range), or is still inside a loop when its fuel is used up.
use platform_idp_demo.Base.{ℕ, Option, none, some, List, get_elem?}

pub data Exec (W A : Type 0) : Type 0 where
  returned : A → W → Exec W A
  panicked : W → Exec W A
  out_of_fuel : W → Exec W A

abbrev pub M : Type 0 → Type 0 → Type 0
M W A = W → Exec W A

module _ {W : Type 0} where
  abbrev pub pure : {A : Type 0} → A → M W A
  pure a w = returned a w

  abbrev pub panic : {A : Type 0} → M W A
  panic w = panicked w

  abbrev pub bind_exec : {A B : Type 0} → Exec W A → (A → M W B) → Exec W B
  bind_exec (returned a w) f = f a w
  bind_exec (panicked w) f = panicked w
  bind_exec (out_of_fuel w) f = out_of_fuel w

  infixl 5 ◌>>=◌ ◌>>◌
  abbrev pub ◌>>=◌ : {A B : Type 0} → M W A → (A → M W B) → M W B
  ◌>>=◌ m f w = bind_exec (m w) f

  abbrev pub ◌>>◌ : {A B : Type 0} → M W A → M W B → M W B
  ◌>>◌ m k w = bind_exec (m w) (λ _. k)

  -- The value behind a pointer; nil panics.
  abbrev pub deref : {A : Type 0} → Option A → M W A
  deref none w = panicked w
  deref (some a) w = returned a w

  -- The world after the computation, however it ended.
  abbrev pub world_after : {A : Type 0} → Exec W A → W
  world_after (returned a w) = w
  world_after (panicked w) = w
  world_after (out_of_fuel w) = w

-- `xs[i]`
abbrev pub index : {W A : Type 0} → List A → ℕ → M W A
index xs i = deref (get_elem? xs i)

module _ {W S A : Type 0} (put : S → W → W) where
  -- The end of a computation on a part of the world, in the whole world.
  abbrev pub restore : Exec S A → W → Exec W A
  restore (returned a s) w = returned a (put s w)
  restore (panicked s) w = panicked (put s w)
  restore (out_of_fuel s) w = out_of_fuel (put s w)

-- A computation on a part of the world.
abbrev pub zoom : {W S A : Type 0} → (W → S) → (S → W → W) → M S A → M W A
zoom get put m w = restore put (m (get w)) w

module _ {W A : Type 0} where
  abbrev pub after_exec : M W (Unit {0}) → Exec W A → Exec W A
  after_exec last (returned a w) = bind_exec (last w) λ _. pure a
  after_exec last (panicked w) = bind_exec (last w) λ _. panic
  after_exec last (out_of_fuel w) = out_of_fuel w

  -- `defer last()`: `last` runs when the body returns, and when it panics.
  abbrev pub deferred : M W (Unit {0}) → M W A → M W A
  deferred last body w = after_exec last (body w)
