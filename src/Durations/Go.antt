-- ===== src/Durations/Go.antt =====
-- The lifetimes that the console sends, as the server reads them (`time.ParseDuration`): a number and
-- one of the units h, m and s.
use tuck.Base.{
  ℕ, ◌≡◌, refl, ◌≢◌, ap, ◌∙◌, ◌*◌, ◌/◌, ◌==◌, Text, [], ◌∷◌, ◌++◌, codes, false, Option, none, some,
  is_digit, print_nat, span_digits, span_digits-append, value_of, value_of-print_nat,
  IsDigits-print_nat, print_nat-given, if◌then◌else◌, arith,
}
use tuck.Durations.{to_go_duration}

-- The seconds of a unit of Go.
pub go_unit : Text → Option ℕ
go_unit [] = none
go_unit (u ∷ []) =
    if u == b's'
    then some 1
    else if u == b'm'
    then some 60
    else if u == b'h'
    then some 3600
    else none
go_unit (u ∷ v ∷ s) = none

go_times : Text → Option ℕ → Option ℕ
unfolding value_of
go_times [] o = none
go_times (c ∷ ds) none = none
go_times (c ∷ ds) (some k) = some (value_of (c ∷ ds) * k)

-- A text that is sent, in seconds.
unfoldable pub go_seconds : Text → Option ℕ
unfolding go_unit go_times span_digits
go_seconds s = go_times (span_digits s).0 (go_unit (span_digits s).1)

-- A field that is sent, where a missing one stands for 0.
unfoldable pub seconds_sent : Option Text → Option ℕ
unfolding go_seconds
seconds_sent none = some 0
seconds_sent (some s) = go_seconds s

go_seconds-eq : (s : Text) → go_seconds s ≡ go_times (span_digits s).0 (go_unit (span_digits s).1)
unfolding go_seconds
go_seconds-eq s = refl

go_times-given : (ds : Text) (k : ℕ) → ds ≢ [] → go_times ds (some k) ≡ some (value_of ds * k)
unfolding go_times
go_times-given [] k n = absurd (n refl)
go_times-given (c ∷ ds) k n = refl

pub go_seconds-print_nat :
    (n u k : ℕ)
    → is_digit u ≡ false
    → go_unit (u ∷ []) ≡ some k
    → go_seconds (print_nat n ++ u ∷ []) ≡ some (n * k)
go_seconds-print_nat n u k d e =
    go_seconds-eq (print_nat n ++ u ∷ [])
    ∙ rw (span_digits-append (print_nat n) (u ∷ []) (IsDigits-print_nat n) d, e)
        (go_times-given (print_nat n) k (λ z. cc ((print_nat-given n).2, z)))
    ∙ ap (λ m. some (m * k)) (value_of-print_nat n)

no_unit : (is_digit b's' ≡ false) × (is_digit b'm' ≡ false) × (is_digit b'h' ≡ false)
unfolding is_digit
no_unit = (refl, refl, refl)

units :
    (go_unit (codes "s") ≡ some 1)
    × (go_unit (codes "m") ≡ some 60)
    × (go_unit (codes "h") ≡ some 3600)
unfolding go_unit
units = (refl, refl, refl)

pub go_seconds-secs : (n : ℕ) → go_seconds (print_nat n ++ codes "s") ≡ some n
go_seconds-secs n = go_seconds-print_nat n b's' 1 no_unit.0 units.0 ∙ ap some (omega arith)

-- What `toGoDuration` makes of a number of seconds is read as that number.
pub seconds_sent-to_go_duration : (s : ℕ) → seconds_sent (to_go_duration s) ≡ some s
unfolding seconds_sent to_go_duration
seconds_sent-to_go_duration s = ground (
  arith,
  go_seconds-print_nat (s / 3600) b'h' 3600 no_unit.2 units.2,
  go_seconds-print_nat (s / 60) b'm' 60 no_unit.1 units.1,
  go_seconds-secs s,
)
