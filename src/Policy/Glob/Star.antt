-- ===== src/Policy/Glob/Star.antt =====
-- `globMatch` of web/src/pages/dashboard/policies/lib/policy-text.ts on a `*` that is followed by a
-- slash: the inner loop stops before it has tried the rest of the pattern at the slash.
use tuck.Base.{ℕ, Text, [], ◌∷◌, ◌++◌, ◌≡◌, ◌≢◌, false, arith}
use tuck.Policy.Glob.{star_loop, literal, glob_match}

-- A pattern that does not begin with a star goes on by one character.
pub glob_match-literal :
    (a : ℕ) (r s : Text) → a ≢ b'*' → glob_match (a ∷ r) s ≡ literal a (glob_match r) s
unfolding glob_match
glob_match-literal a [] s h = ground arith
glob_match-literal a (b ∷ []) s h = ground arith
glob_match-literal a (b ∷ c ∷ r) s h = ground arith

star_loop-slash : (r s : Text) → star_loop (glob_match (b'/' ∷ r)) s ≡ false
unfolding star_loop literal
star_loop-slash r [] = rw (glob_match-literal b'/' r [] (λ e. omega arith))
star_loop-slash r (c ∷ s) =
    ground (arith, glob_match-literal b'/' r (c ∷ s) (λ e. omega arith), star_loop-slash r s)

pub glob_match-star_slash : (r s : Text) → glob_match (b'*' ∷ b'/' ∷ r) s ≡ false
unfolding glob_match
glob_match-star_slash [] s = star_loop-slash [] s
glob_match-star_slash (c ∷ r) s = star_loop-slash (c ∷ r) s

-- Characters that are no stars.
abbrev pub Plain : Text → Type 0
Plain [] = Unit
Plain (c ∷ s) = (c ≢ b'*') × Plain s

-- A rule path whose first star is followed by a slash, `secret/*/config` say, matches no path.
pub glob_match-star_inside :
    (pre r s : Text) → Plain pre → glob_match (pre ++ (b'*' ∷ b'/' ∷ r)) s ≡ false
unfolding literal
glob_match-star_inside [] r s h = glob_match-star_slash r s
glob_match-star_inside (c ∷ pre) r [] h = rw (glob_match-literal c _ [] h.0)
glob_match-star_inside (c ∷ pre) r (d ∷ s) h =
    rw (glob_match-literal c (pre ++ (b'*' ∷ b'/' ∷ r)) (d ∷ s) h.0)
      (ground (arith, glob_match-star_inside pre r s h.1))
