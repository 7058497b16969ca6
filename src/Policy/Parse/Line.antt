-- ===== src/Policy/Parse/Line.antt =====
-- `LINE_RE` and the pattern of one quoted capability, of
-- web/src/pages/dashboard/policies/lib/policy-text.ts.
use tuck.Base.{
  Text, [], ◌∷◌, codes, Option, none, some, is_empty, strip, take_until, trim_start, is_space,
  if◌then◌else◌,
}

infixl 5 ◌>>=◌
abbrev ◌>>=◌ {ℓ κ} : {A : Type ℓ} {B : Type κ} → Option A → (A → Option B) → Option B
none >>= k = none
some a >>= k = k a

-- `\s+`
unfoldable pub some_space : Text → Option Text
unfolding trim_start
some_space [] = none
some_space (c ∷ s) = if is_space c then some (trim_start s) else none

-- `\s*` and then a literal
unfoldable pub token : Text → Text → Option Text
unfolding trim_start strip
token w s = strip w (trim_start s)

-- Nothing may follow: `$`.
unfoldable pub at_end : Text → Text → Text → Option (Text × Text)
at_end path caps [] = some (path, caps)
at_end path caps (c ∷ s) = none

-- `\s*\{\s*capabilities\s*=\s*\[([^\]]*)\]\s*\}$`, behind the path and its closing quote
unfoldable pub match_tail : Text → Text → Option (Text × Text)
unfolding take_until token at_end
match_tail path s3 = do
  s4 ← token (codes "{") s3
  s5 ← token (codes "capabilities") s4
  s6 ← token (codes "=") s5
  s7 ← token (codes "[") s6
  caps ← take_until b']' s7
  s8 ← token (codes "}") caps.1
  at_end path caps.0 s8

-- `LINE_RE`, `/^path\s+"([^"]*)"\s*\{\s*capabilities\s*=\s*\[([^\]]*)\]\s*\}$/`
unfoldable pub match_line : Text → Option (Text × Text)
unfolding strip some_space take_until match_tail
match_line t = do
  s1 ← strip (codes "path") t
  s2 ← some_space s1
  s3 ← strip (codes "\"") s2
  path ← take_until b'"' s3
  match_tail path.0 path.1

-- `/^"([^"]*)"$/`
unfoldable pub quoted : Text → Option Text
unfolding strip take_until
quoted c = do
  s ← strip (codes "\"") c
  v ← take_until b'"' s
  if is_empty v.1 then some v.0 else none
