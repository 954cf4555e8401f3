-- ===== src/Base/Decimal.antt =====
-- `%d` of an unsigned number, as `fmt.Sprintf` prints it.
use Prim.Native.Nat.{ℕ, zero, suc, ◌+◌, ◌-◌, ◌*◌, ◌/◌, ◌%◌, ◌<◌}
use Prim.Native.Char.{code}
use Prim.Native.String.{String, ◌++◌}
use mathlib.Core.Path.{◌≡◌, refl, sym, ap, ◌∙◌}
use native.Mathlib.Omega.{arith}
use text.Mathlib.TextLemmas.{nil-append, cons-append}
use mathlib.Core.List.{[], ◌∷◌}
use log_shipper.Base.Tests.{ltb, if◌then◌else◌}
use log_shipper.Base.Lists.{get_or}

digit : ℕ → String
digit d = get_or ("0" ∷ "1" ∷ "2" ∷ "3" ∷ "4" ∷ "5" ∷ "6" ∷ "7" ∷ "8" ∷ "9" ∷ []) d ""

decimal_fuel : ℕ → ℕ → String
decimal_fuel zero n = ""
decimal_fuel (suc f) n =
    let rest = decimal_fuel f (n / 10) ++ digit (n % 10) in if ltb n 10 then digit n else rest

unfoldable pub decimal : ℕ → String
unfolding decimal_fuel digit
decimal n = decimal_fuel (suc n) n

-- The number that a row of digits stands for.
number : ℕ → String → ℕ
number acc String.[] = acc
number acc (String.◌∷◌ c s) = number (acc * 10 + (code c - 48)) s

number-append : (acc : ℕ) (s t : String) → number acc (s ++ t) ≡ number (number acc s) t
unfolding number
number-append acc String.[] t = rw nil-append
number-append acc (String.◌∷◌ c s) t =
    ap (number acc) (cons-append c s t) ∙ number-append (acc * 10 + (code c - 48)) s t

number-digit : (acc d : ℕ) → d < 10 → number acc (digit d) ≡ acc * 10 + d
unfolding number digit
number-digit acc zero h = omega arith
number-digit acc (suc zero) h = omega arith
number-digit acc (suc (suc zero)) h = omega arith
number-digit acc (suc (suc (suc zero))) h = omega arith
number-digit acc (suc (suc (suc (suc zero)))) h = omega arith
number-digit acc (suc (suc (suc (suc (suc zero))))) h = omega arith
number-digit acc (suc (suc (suc (suc (suc (suc zero)))))) h = omega arith
number-digit acc (suc (suc (suc (suc (suc (suc (suc zero))))))) h = omega arith
number-digit acc (suc (suc (suc (suc (suc (suc (suc (suc zero)))))))) h = omega arith
number-digit acc (suc (suc (suc (suc (suc (suc (suc (suc (suc zero))))))))) h = omega arith
number-digit acc _ h = absurd (omega arith)

number-decimal_fuel : (f n : ℕ) → n < f → number 0 (decimal_fuel f n) ≡ n
unfolding decimal_fuel
number-decimal_fuel zero n h = elim h [ ]
number-decimal_fuel (suc f) n h = ground (
  arith,
  number-append 0 (decimal_fuel f (n / 10)) (digit (n % 10)),
  number-decimal_fuel f (n / 10),
  number-digit (n / 10) (n % 10),
  number-digit 0 n,
)

-- Two numbers that print alike are equal.
pub decimal_inj : (m n : ℕ) → decimal m ≡ decimal n → m ≡ n
unfolding decimal
decimal_inj m n e =
    sym (number-decimal_fuel (suc m) m (omega arith))
    ∙ ap (number 0) e
    ∙ number-decimal_fuel (suc n) n (omega arith)

decimal_test : decimal 4071 ≡ "4071"
unfolding decimal
decimal_test = refl
