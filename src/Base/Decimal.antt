-- ===== src/Base/Decimal.antt =====
-- `fmt.Sprintf("%v", n)` of a number that is not negative: its decimal digits.
use Prim.Native.Nat.{ℕ, zero, suc, ◌/◌, ◌%◌, ◌<◌}
use Prim.Native.String.{String}
use mathlib.Core.Path.{◌≡◌, refl}
use native.Mathlib.Omega.{arith}
use platform_idp_demo.Base.Tests.{ltb, if◌then◌else◌}
use platform_idp_demo.Base.Text.{◌<>◌}

abbrev digit : ℕ → String
digit zero = "0"
digit (suc zero) = "1"
digit (suc (suc zero)) = "2"
digit (suc (suc (suc zero))) = "3"
digit (suc (suc (suc (suc zero)))) = "4"
digit (suc (suc (suc (suc (suc zero))))) = "5"
digit (suc (suc (suc (suc (suc (suc zero)))))) = "6"
digit (suc (suc (suc (suc (suc (suc (suc zero))))))) = "7"
digit (suc (suc (suc (suc (suc (suc (suc (suc zero)))))))) = "8"
digit _ = "9"

-- The digits of `n` in front of `after`, on fuel.
decimal_from : ℕ → ℕ → String → String
decimal_from zero n after = after
decimal_from (suc fuel) n after =
    let rest = decimal_from fuel (n / 10) (digit (n % 10) <> after) in
    if ltb n 10 then digit n <> after else rest

unfoldable pub decimal : ℕ → String
unfolding decimal_from
decimal n = decimal_from (suc n) n ""

-- Any fuel above the number gives all its digits.
decimal_from-fuel :
    (f g n : ℕ) (after : String) → n < f → n < g → decimal_from f n after ≡ decimal_from g n after
unfolding decimal_from
decimal_from-fuel zero g n after h k = elim h [ ]
decimal_from-fuel (suc f) zero n after h k = elim k [ ]
decimal_from-fuel (suc f) (suc g) n after h k =
    ground (arith, decimal_from-fuel f g (n / 10) (digit (n % 10) <> after))

decimal-fuel : (f n : ℕ) → n < f → decimal_from f n "" ≡ decimal n
unfolding decimal
decimal-fuel f n h = decimal_from-fuel f (suc n) n "" h (omega arith)

decimal_examples : (decimal 0 ≡ "0") × (decimal 407 ≡ "407")
unfolding decimal
decimal_examples = (refl, refl)
