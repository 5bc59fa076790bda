-- ===== src/Base/Text.antt =====
-- Texts: equality, concatenation and joining.
pub use Prim.Native.String.{◌++◌ as ◌<>◌}
pub use text.Mathlib.Text.{◌==◌ as str_eq, starts_with}
pub use text.Mathlib.TextEquality.{eq_iff}
pub use text.Mathlib.TextPositions.{eq_refl}
use Prim.Native.String.{String}
use mathlib.Core.List.{List, [], ◌∷◌}

-- Go's `strings.Join`.
unfoldable pub join : List String → String → String
join [] sep = ""
join (x ∷ []) sep = x
join (x ∷ y ∷ xs) sep = x <> sep <> join (y ∷ xs) sep
