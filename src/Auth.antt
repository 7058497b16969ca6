-- ===== src/Auth.antt =====
-- The methods of signing in that the console sets up: web/src/pages/dashboard/auth-methods/lib.ts.
pub mod Jwt
mod Tests
use tuck.Base.{
  ℕ, Text, List, [], ◌∷◌, ◌++◌, codes, Bool, true, false, not, ◌&&◌, ◌||◌, Option, none, some, all,
  length, includes, text_eq, is_lower, is_upper, is_digit, join, take, print_nat, ltb, leb, ◌==◌,
  ◌+◌, ◌/◌, ◌%◌, if◌then◌else◌,
}

-- `nsToSeconds`
unfoldable pub ns_to_seconds : Option ℕ → ℕ
ns_to_seconds none = 0
ns_to_seconds (some ns) = (ns + 500000000) / 1000000000

-- A part of `fmtTtl`, when it is not 0.
unfoldable pub ttl_part : ℕ → Text → List Text
unfolding print_nat
ttl_part n unit = if n == 0 then [] else (print_nat n ++ unit) ∷ []

-- `parts` before the seconds.
unfoldable pub long_parts : ℕ → List Text
unfolding ttl_part
long_parts sec =
    ttl_part (sec / 86400) (codes "d")
    ++ (ttl_part (sec % 86400 / 3600) (codes "h") ++ ttl_part (sec % 3600 / 60) (codes "m"))

-- `fmtTtl`
unfoldable pub fmt_ttl_parts : ℕ → Text
unfolding long_parts ttl_part join
fmt_ttl_parts sec =
    if sec == 0
    then []
    else join (codes " ") (
        take 2 (
          long_parts sec
          ++ (if ltb (length (long_parts sec)) 2 then ttl_part (sec % 60) (codes "s") else [])))

-- `toDur`
unfoldable pub to_dur : ℕ → Option Text
unfolding print_nat
to_dur sec = if ltb 0 sec then some (print_nat sec ++ codes "s") else none

-- `[A-Za-z0-9]`
unfoldable pub alnum : ℕ → Bool
unfolding is_lower is_upper is_digit
alnum c = is_upper c || is_lower c || is_digit c

-- `NAME_RE`
unfoldable pub auth_name_re : Text → Bool
unfolding alnum
auth_name_re [] = false
auth_name_re (c ∷ s) =
    alnum c && all (λ d. alnum d || d == b'_' || d == b'.' || d == b'-') s && leb (length s) 62

-- `NS_RE`
unfoldable pub ns_re : Text → Bool
unfolding is_lower is_digit
ns_re [] = false
ns_re (c ∷ s) = (is_lower c || is_digit c) && all (λ d. is_lower d || is_digit d || d == b'-') s

-- `sameSet`
unfoldable pub same_set : List Text → List Text → Bool
unfolding text_eq
same_set a b = length a == length b && all (includes b) a
