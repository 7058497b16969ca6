-- ===== src/Durations.antt =====
-- Durations in seconds as the console's screens print and read them: `parseDur`, `fmtShort` and
-- `toGoDuration` of web/src/pages/dashboard/token-roles/lib.ts, and `fmtTtl` of
-- web/src/pages/dashboard/mounts/lib.ts. Numbers are exact, as they are below 2 ^ 53 there.
pub mod Short
pub mod Go
pub mod Clock
pub mod TtlField
mod Tests
use tuck.Base.{
  ℕ, suc, ◌+◌, ◌-◌, ◌*◌, ◌/◌, ◌%◌, Text, List, [], ◌∷◌, ◌++◌, codes, Bool, true, false, ◌&&◌,
  Option, none, some, map, trim, trim_start, is_upper, print_nat, span_digits, value_of, ◌==◌, ltb,
  leb, if◌then◌else◌, is_empty,
}

-- A number, `null` or `NaN`.
pub data Dur : Type 0 where
  null nan : Dur
  secs : ℕ → Dur

-- `s.toLowerCase()` on the letters that the pattern knows.
unfoldable pub to_lower : ℕ → ℕ
unfolding is_upper
to_lower c = if is_upper c then c + 32 else c

-- The seconds of a unit; `s` stands for a missing one.
unfoldable pub unit_secs : Text → Option ℕ
unit_secs [] = some 1
unit_secs (u ∷ []) =
    if u == b's'
    then some 1
    else if u == b'm'
    then some 60
    else if u == b'h'
    then some 3600
    else if u == b'd'
    then some 86400
    else none
unit_secs (u ∷ v ∷ s) = none

unfoldable pub times : Text → Option ℕ → Dur
unfolding value_of
times ds none = nan
times [] (some u) = nan
times (c ∷ ds) (some u) = secs (value_of (c ∷ ds) * u)

-- `/^(\d+)\s*(s|m|h|d)?$/` and what is done with its groups
unfoldable pub match_dur : Text → Dur
unfolding span_digits trim_start unit_secs times
match_dur s = let m = span_digits s in times m.0 (unit_secs (trim_start m.1))

unfoldable pub parse_dur : Text → Dur
unfolding trim to_lower match_dur
parse_dur v = let s = map to_lower (trim v) in if is_empty s then null else match_dur s

-- `fmtShort` of token-roles/lib.ts
unfoldable pub fmt_short : ℕ → Text
unfolding print_nat
fmt_short s =
    if s == 0
    then []
    else if s % 86400 == 0
    then print_nat (s / 86400) ++ codes "d"
    else if s % 3600 == 0
    then print_nat (s / 3600) ++ codes "h"
    else if s % 60 == 0
    then print_nat (s / 60) ++ codes "m"
    else print_nat s ++ codes "s"

-- `toGoDuration` of token-roles/lib.ts, `none` for `undefined`
unfoldable pub to_go_duration : ℕ → Option Text
unfolding print_nat
to_go_duration s =
    if s == 0
    then none
    else if s % 3600 == 0
    then some (print_nat (s / 3600) ++ codes "h")
    else if s % 60 == 0
    then some (print_nat (s / 60) ++ codes "m")
    else some (print_nat s ++ codes "s")

-- `fmtTtl` of mounts/lib.ts
unfoldable pub fmt_ttl : ℕ → Text
unfolding print_nat
fmt_ttl s =
    if s == 0
    then codes "—"
    else if s % 86400 == 0 && leb (86400 * 2) s
    then print_nat (s / 86400) ++ codes "d"
    else if s % 3600 == 0
    then print_nat (s / 3600) ++ codes "h"
    else if s % 60 == 0
    then print_nat (s / 60) ++ codes "m"
    else print_nat s ++ codes "s"
