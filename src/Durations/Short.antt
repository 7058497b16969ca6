-- ===== src/Durations/Short.antt =====
-- The compact form of a duration in web/src/pages/dashboard/token-roles/lib.ts reads back.
use mathlib.Core.List.{map-append}
use tuck.Base.{
  trim_start-solid, ℕ, ◌*◌, ◌/◌, ◌<◌, Text, [], ◌∷◌, ◌++◌, ◌≡◌, ◌≢◌, refl, ap, ◌∙◌, true, false,
  some, map, arith, trim, trim-solid, trim_start, is_digit, is_space, print_nat, span_digits,
  span_digits-append, value_of, value_of-print_nat, if◌then◌else◌, is_empty, IsDigits,
  IsDigits-print_nat, print_nat-given,
}
use tuck.Durations.{null, secs, to_lower, unit_secs, times, match_dur, parse_dur, fmt_short}

-- A letter that stands for a unit of `k` seconds.
pub record IsUnit (u k : ℕ) : Type 0 where
  pub lower : to_lower u ≡ u
  pub no_space : is_space u ≡ false
  pub no_digit : is_digit u ≡ false
  pub unit : unit_secs (u ∷ []) ≡ some k

to_lower-IsDigits : (s : Text) → IsDigits s → map to_lower s ≡ s
unfolding to_lower is_digit
to_lower-IsDigits [] h = refl
to_lower-IsDigits (c ∷ s) h = ground (arith, to_lower-IsDigits s h.1)

is_space-digit : (c : ℕ) → is_digit c ≡ true → is_space c ≡ false
unfolding is_digit is_space
is_space-digit c h = ground arith

trim-number :
    (ds : Text) (u : ℕ)
    → IsDigits ds
    → ds ≢ []
    → is_space u ≡ false
    → trim (ds ++ u ∷ []) ≡ ds ++ u ∷ []
trim-number [] u h n k = absurd (n refl)
trim-number (c ∷ ds) u h n k = trim-solid c u ds (is_space-digit c h.0) k

map-to_lower :
    (ds : Text) (u : ℕ) → IsDigits ds → to_lower u ≡ u → map to_lower (ds ++ u ∷ []) ≡ ds ++ u ∷ []
map-to_lower ds u h e = rw (map-append, to_lower-IsDigits ds h, e)

times-secs : (ds : Text) (k : ℕ) → ds ≢ [] → times ds (some k) ≡ secs (value_of ds * k)
unfolding times
times-secs [] k n = absurd (n refl)
times-secs (c ∷ ds) k n = refl

match_dur-eq :
    (s : Text) → match_dur s ≡ times (span_digits s).0 (unit_secs (trim_start (span_digits s).1))
unfolding match_dur
match_dur-eq s = refl

match_dur-number :
    (ds : Text) (u k : ℕ)
    → IsDigits ds
    → ds ≢ []
    → IsUnit u k
    → match_dur (ds ++ u ∷ []) ≡ secs (value_of ds * k)
match_dur-number ds u k h n unit =
    rw (match_dur-eq (ds ++ u ∷ []), span_digits-append ds (u ∷ []) h unit.no_digit)
      (rw (trim_start-solid u [] unit.no_space, unit.unit) (times-secs ds k n))

is_empty-append : (ds : Text) (u : ℕ) → is_empty (ds ++ u ∷ []) ≡ false
is_empty-append [] u = refl
is_empty-append (c ∷ ds) u = refl

parse_dur-eq :
    (v : Text)
    → parse_dur v
      ≡ (if is_empty (map to_lower (trim v)) then null else match_dur (map to_lower (trim v)))
unfolding parse_dur
parse_dur-eq v = refl

parse_dur-number :
    (ds : Text) (u k : ℕ)
    → IsDigits ds
    → ds ≢ []
    → IsUnit u k
    → parse_dur (ds ++ u ∷ []) ≡ secs (value_of ds * k)
parse_dur-number ds u k h n unit =
    rw
      (
        parse_dur-eq (ds ++ u ∷ []),
        trim-number ds u h n unit.no_space,
        map-to_lower ds u h unit.lower,
        is_empty-append ds u,
      )
      (match_dur-number ds u k h n unit)

parse_dur-print_nat : (n u k : ℕ) → IsUnit u k → parse_dur (print_nat n ++ u ∷ []) ≡ secs (n * k)
parse_dur-print_nat n u k unit =
    parse_dur-number (print_nat n) u k (IsDigits-print_nat n) (λ e. cc ((print_nat-given n).2)) unit
    ∙ ap (λ m. secs (m * k)) (value_of-print_nat n)

days : IsUnit b'd' 86400
unfolding to_lower is_space is_digit unit_secs
days = record { lower = refl; no_space = refl; no_digit = refl; unit = refl }

hours : IsUnit b'h' 3600
unfolding to_lower is_space is_digit unit_secs
hours = record { lower = refl; no_space = refl; no_digit = refl; unit = refl }

minutes : IsUnit b'm' 60
unfolding to_lower is_space is_digit unit_secs
minutes = record { lower = refl; no_space = refl; no_digit = refl; unit = refl }

seconds : IsUnit b's' 1
unfolding to_lower is_space is_digit unit_secs
seconds = record { lower = refl; no_space = refl; no_digit = refl; unit = refl }

-- What the form shows for a number of seconds, other than 0, is read back as that number.
pub parse_dur-fmt_short : (s : ℕ) → 0 < s → parse_dur (fmt_short s) ≡ secs s
unfolding fmt_short
parse_dur-fmt_short s h = ground (
  arith,
  parse_dur-print_nat (s / 86400) b'd' 86400 days,
  parse_dur-print_nat (s / 3600) b'h' 3600 hours,
  parse_dur-print_nat (s / 60) b'm' 60 minutes,
  parse_dur-print_nat s b's' 1 seconds,
)
