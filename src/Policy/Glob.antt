-- ===== src/Policy/Glob.antt =====
-- `globMatch` of web/src/pages/dashboard/policies/lib/policy-text.ts, with its two inner loops. The
-- `while` loop and the calls on a shorter pattern are one structural recursion on the pattern; the
-- loops over the text take the matcher of the rest of the pattern.
pub mod Matching
pub mod Star
use tuck.Base.{Text, List, [], ◌∷◌, Bool, true, false, ◌&&◌, ◌||◌, is_empty, ◌==◌, if◌then◌else◌, ℕ}

-- `for (i …) if (s[i] === '/' && globMatch(rest, s.slice(i + 1))) return true`
unfoldable pub after_slash : (Text → Bool) → Text → Bool
after_slash m [] = false
after_slash m (c ∷ s) = (c == b'/' && m s) || after_slash m s

-- `for (k …) { if (k < s.length && s[k] === '/') break; if (globMatch(rest, s.slice(k))) … }`
unfoldable pub star_loop : (Text → Bool) → Text → Bool
star_loop m [] = m []
star_loop m (c ∷ s) = if c == b'/' then false else m (c ∷ s) || star_loop m s

-- The last three lines of the loop's body: a literal character.
unfoldable pub literal : ℕ → (Text → Bool) → Text → Bool
literal a m [] = false
literal a m (c ∷ s) = a == c && m s

-- A pattern that is neither `**` nor begins with `**/`.
unfoldable pub step : ℕ → (Text → Bool) → Text → Bool
unfolding star_loop literal
step a m s = if a == b'*' then star_loop m s else literal a m s

unfoldable pub glob_match : Text → Text → Bool
unfolding after_slash step
glob_match [] s = is_empty s
glob_match (a ∷ []) s = step a (glob_match []) s
glob_match (a ∷ b ∷ []) s = if a == b'*' && b == b'*' then true else step a (glob_match (b ∷ [])) s
glob_match (a ∷ b ∷ c ∷ rest) s =
    if a == b'*' && b == b'*' && c == b'/'
    then glob_match rest s || after_slash (glob_match rest) s
    else step a (glob_match (b ∷ c ∷ rest)) s
