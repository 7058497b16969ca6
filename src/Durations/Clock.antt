-- ===== src/Durations/Clock.antt =====
-- Milliseconds that are left, shown as a clock: `clock` and `splitLeft` of
-- web/src/pages/dashboard/wrapping/lib.ts, `formatRemaining` of
-- web/src/shared/ui/kit/countdown/countdown.tsx, `fmtLeft` of
-- web/src/pages/dashboard/tokens/tokens.utils.ts. A difference of two times is an integer.
use tuck.Base.{
  ℕ, ◌+◌, ◌*◌, ◌/◌, ◌%◌, ◌<◌, ◌≤◌, ℤ, pos, negsuc, Text, [], ◌∷◌, ◌++◌, codes, Option, none, some,
  arith, print_nat, ◌==◌, ltb, if◌then◌else◌,
}

-- `Math.max(0, ms)`
unfoldable pub at_least_zero : ℤ → ℕ
at_least_zero (pos n) = n
at_least_zero (negsuc n) = 0

-- `Math.ceil(n / 1000)`
unfoldable pub ceil_secs : ℕ → ℕ
ceil_secs n = (n + 999) / 1000

-- `String(n).padStart(2, '0')`
unfoldable pub pad : ℕ → Text
unfolding print_nat
pad n = if ltb n 10 then b'0' ∷ print_nat n else print_nat n

pub record Left : Type 0 where
  pub h : ℕ
  pub m : ℕ
  pub s : ℕ

abbrev pub parts : ℕ → Left
parts s = record { h = s / 3600; m = s % 3600 / 60; s = s % 60 }

-- `splitLeft`
unfoldable pub split_left : ℤ → Left
unfolding at_least_zero ceil_secs
split_left ms = parts (ceil_secs (at_least_zero ms))

-- `clock`; what `Math.ceil` gives below 0 is at most 0.
unfoldable pub clock : ℤ → Text
unfolding at_least_zero ceil_secs pad print_nat
clock ms =
    let s = ceil_secs (at_least_zero ms) in
    (if s / 3600 == 0 then [] else print_nat (s / 3600) ++ codes ":")
    ++ pad (s % 3600 / 60)
    ++ codes ":"
    ++ pad (s % 60)

-- `formatRemaining`
unfoldable pub format_remaining : ℤ → Text → Text
unfolding at_least_zero pad print_nat
format_remaining ms day_label =
    let s = at_least_zero ms / 1000 in
    let d = s / 86400 in
    let h = s % 86400 / 3600 in
    let m = s % 3600 / 60 in
    let rest = pad m ++ codes ":" ++ pad (s % 60) in
    if ltb 0 d
    then print_nat d ++ day_label ++ codes " " ++ pad h ++ codes ":" ++ rest
    else if ltb 0 h
    then pad h ++ codes ":" ++ rest
    else rest

-- `fmtLeft`, whole seconds; `none` for `Infinity`
unfoldable pub fmt_left : Option ℕ → Text → Text → Text → Text
unfolding pad print_nat
fmt_left none d h m = codes "∞"
fmt_left (some s) d h m =
    let days = s / 86400 in
    let hours = s % 86400 / 3600 in
    let mins = s % 3600 / 60 in
    if ltb 0 days
    then print_nat days ++ d ++ codes " " ++ pad hours ++ h
    else if ltb 0 hours
    then print_nat hours ++ h ++ codes " " ++ pad mins ++ m
    else pad mins ++ codes ":" ++ pad (s % 60)

-- The hours, minutes and seconds on the stage are, with minutes and seconds below 60, the whole
-- seconds of the time left, rounded up: they cover it, and less than a second more. When the time
-- is over they are all 0.
pub split_left-parts :
    (ms : ℤ)
    → let l = split_left ms in
      let total = 3600 * l.h + 60 * l.m + l.s in
      (l.m < 60)
      × (l.s < 60)
      × (at_least_zero ms ≤ 1000 * total)
      × (1000 * total < at_least_zero ms + 1000)
unfolding split_left at_least_zero ceil_secs
split_left-parts (pos n) = (omega arith, omega arith, omega arith, omega arith)
split_left-parts (negsuc n) = (omega arith, omega arith, omega arith, omega arith)
