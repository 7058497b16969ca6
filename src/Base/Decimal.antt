-- ===== src/Base/Decimal.antt =====
-- Decimal numbers: `String(n)` and what `Number` makes of a run of digits, exact for every number.
use Prim.Native.Nat.{ℕ, zero, suc, ◌+◌, ◌-◌, ◌*◌, ◌/◌, ◌%◌, ◌<◌}
use mathlib.Core.Path.{◌≡◌, refl}
use mathlib.Core.Bool.{true, false}
use mathlib.Core.List.{[], ◌∷◌, ◌++◌}
use native.Mathlib.Omega.{arith}
use tuck.Base.Tests.{ltb, if◌then◌else◌, Bool-cases}
use mathlib.Core.Logic.{inl, inr}
use tuck.Base.Lists.{All}
use tuck.Base.Strings.{Text, is_digit}

-- The last digit first behind what is there already; the rounds are at most the number's own.
unfoldable pub digits_onto : ℕ → ℕ → Text → Text
digits_onto zero n acc = acc
digits_onto (suc fuel) n acc =
    let rest = digits_onto fuel (n / 10) ((48 + n % 10) ∷ acc) in
    if ltb n 10 then (48 + n) ∷ acc else rest

-- `String(n)`
unfoldable pub print_nat : ℕ → Text
unfolding digits_onto
print_nat n = digits_onto (n + 1) n []

-- The value of a run of digits behind the value `n`.
unfoldable pub value_from : ℕ → Text → ℕ
value_from n [] = n
value_from n (c ∷ s) = value_from (n * 10 + (c - 48)) s

-- `Number(s)` of a run of digits.
unfoldable pub value_of : Text → ℕ
unfolding value_from
value_of s = value_from 0 s

abbrev pub IsDigits : Text → Type 0
IsDigits s = All (λ c. is_digit c ≡ true) s

-- The leading digits, and the rest: `(\d*)`, greedy.
unfoldable pub span_digits : Text → Text × Text
unfolding is_digit
span_digits [] = ([], [])
span_digits (c ∷ s) =
    let rest = span_digits s in if is_digit c then (c ∷ rest.0, rest.1) else ([], c ∷ s)

digit_lem : (n : ℕ) → n < 10 → is_digit (48 + n) ≡ true
unfolding is_digit
digit_lem n h = ground arith

IsDigits-digits_onto : (fuel n : ℕ) (acc : Text) → IsDigits acc → IsDigits (digits_onto fuel n acc)
unfolding digits_onto
IsDigits-digits_onto zero n acc h = h
IsDigits-digits_onto (suc fuel) n acc h = ground (
  arith,
  digit_lem n,
  digit_lem (n % 10),
  IsDigits-digits_onto fuel (n / 10) ((48 + n % 10) ∷ acc),
)

pub IsDigits-print_nat : (n : ℕ) → IsDigits (print_nat n)
unfolding print_nat
IsDigits-print_nat n = IsDigits-digits_onto (n + 1) n [] tt

-- The digits of `n` in front of `acc` bring a reader from 0 to `n`.
value_from-digits_onto :
    (fuel n : ℕ) (acc : Text) → n < fuel → value_from 0 (digits_onto fuel n acc) ≡ value_from n acc
unfolding digits_onto value_from
value_from-digits_onto zero n acc h = absurd (omega arith)
value_from-digits_onto (suc fuel) n acc h =
    ground (arith, value_from-digits_onto fuel (n / 10) ((48 + n % 10) ∷ acc))

-- A printed number reads back.
pub value_of-print_nat : (n : ℕ) → value_of (print_nat n) ≡ n
unfolding value_of print_nat
value_of-print_nat n = unfold value_from in value_from-digits_onto (n + 1) n [] (omega arith)

-- The text does not go on with a digit.
abbrev pub NotAtDigit : Text → Type 0
NotAtDigit [] = Unit
NotAtDigit (c ∷ s) = is_digit c ≡ false

pub span_digits-append :
    (ds rest : Text) → IsDigits ds → NotAtDigit rest → span_digits (ds ++ rest) ≡ (ds, rest)
unfolding span_digits
span_digits-append [] [] h k = refl
span_digits-append [] (c ∷ rest) h k = rw k
span_digits-append (c ∷ ds) rest h k = ground (arith, span_digits-append ds rest h.1 k)

digits_onto-given :
    (fuel n : ℕ) (acc : Text) → n < fuel → (c : ℕ) × (s : Text) × (digits_onto fuel n acc ≡ c ∷ s)
unfolding digits_onto
digits_onto-given zero n acc h = absurd (omega arith)
digits_onto-given (suc fuel) n acc h = elim (Bool-cases (ltb n 10)) [
  | inl small ↦ (48 + n, acc, rw small)
  | inr large ↦
      let (c, s, e) = digits_onto-given fuel (n / 10) ((48 + n % 10) ∷ acc) (ground arith) in
      (c, s, rw large e)
]

-- A printed number has a first character.
pub print_nat-given : (n : ℕ) → (c : ℕ) × (s : Text) × (print_nat n ≡ c ∷ s)
unfolding print_nat
print_nat-given n = digits_onto-given (n + 1) n [] (omega arith)
