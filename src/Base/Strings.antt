-- ===== src/Base/Strings.antt =====
-- A JavaScript string as the list of its UTF-16 code units, with the string methods that the
-- console uses. `codes` reads a literal of the basic plane.
use Prim.Native.Nat.{ℕ, suc, ◌+◌}
use Prim.Native.Char.{code}
use Prim.Native.String.{String}
use mathlib.Core.Path.{◌≡◌, refl, sym, ap, ◌≡⟨◌⟩◌, ◌∎}
use mathlib.Core.Logic.{◌↔◌, ◌≢◌}
use mathlib.Core.Bool.{Bool, true, false, ◌&&◌, ◌||◌}
use mathlib.Core.List.{List, [], ◌∷◌, ◌++◌, reverse, reverse-append, reverse-reverse, reverse-cons}
use native.Mathlib.Omega.{arith}
use tuck.Base.Tests.{◌==◌, leb, if◌then◌else◌}
use tuck.Base.Lists.{any, is_empty, All}
use mathlib.Core.Option
use mathlib.Core.Option.{Option, none, some}

abbrev pub Text : Type 0
Text = List ℕ

abbrev pub codes : String → Text
codes String.[] = []
codes (String.◌∷◌ c s) = code c ∷ codes s

-- `a === b` on strings.
unfoldable pub text_eq : Text → Text → Bool
text_eq [] [] = true
text_eq (a ∷ s) (b ∷ t) = a == b && text_eq s t
text_eq _ _ = false

pub text_eq_iff : (s t : Text) → (text_eq s t ≡ true) ↔ (s ≡ t)
unfolding text_eq
text_eq_iff [] [] = (λ _. refl, λ _. refl)
text_eq_iff [] (b ∷ t) = (λ h. cc, λ h. cc)
text_eq_iff (a ∷ s) [] = (λ h. cc, λ h. cc)
text_eq_iff (a ∷ s) (b ∷ t) = ground (arith, text_eq_iff s t)

pub text_eq_refl : (s : Text) → text_eq s s ≡ true
text_eq_refl s = (text_eq_iff s s).1 refl

-- `xs.includes(s)` on an array of strings.
abbrev pub includes : List Text → Text → Bool
includes xs s = any (text_eq s) xs

-- `s.startsWith(p)`
unfoldable pub starts_with : Text → Text → Bool
starts_with [] s = true
starts_with (a ∷ p) [] = false
starts_with (a ∷ p) (b ∷ s) = a == b && starts_with p s

-- White space and line terminators, as `trim` and `\s` take them.
unfoldable pub is_space : ℕ → Bool
is_space c =
    (leb 9 c && leb c 13)
    || c == 32
    || c == 160
    || c == 0x1680
    || (leb 0x2000 c && leb c 0x200a)
    || c == 0x2028
    || c == 0x2029
    || c == 0x202f
    || c == 0x205f
    || c == 0x3000
    || c == 0xfeff

unfoldable pub trim_start : Text → Text
unfolding is_space
trim_start [] = []
trim_start (c ∷ s) = if is_space c then trim_start s else c ∷ s

-- `s.trim()`
unfoldable pub trim : Text → Text
unfolding trim_start
trim s = reverse (trim_start (reverse (trim_start s)))

unfoldable pub is_digit : ℕ → Bool
is_digit c = leb b'0' c && leb c b'9'

unfoldable pub is_lower : ℕ → Bool
is_lower c = leb b'a' c && leb c b'z'

unfoldable pub is_upper : ℕ → Bool
is_upper c = leb b'A' c && leb c b'Z'

-- What a split puts in front of the first piece.
unfoldable pub push_head : ℕ → List Text → List Text
push_head d [] = (d ∷ []) ∷ []
push_head d (w ∷ ws) = (d ∷ w) ∷ ws

-- `s.split(c)` for one character.
unfoldable pub split_on : ℕ → Text → List Text
unfolding push_head
split_on c [] = [] ∷ []
split_on c (d ∷ s) = let rest = split_on c s in if d == c then [] ∷ rest else push_head d rest

-- `xs.join(sep)`
unfoldable pub join : Text → List Text → Text
join sep [] = []
join sep (w ∷ []) = w
join sep (w ∷ v ∷ ws) = w ++ (sep ++ join sep (v ∷ ws))

-- `s.includes(c)` for one character.
unfoldable pub has_char : ℕ → Text → Bool
has_char c s = any (λ d. d == c) s

-- `s.includes(w)`
unfoldable pub has_text : Text → Text → Bool
unfolding starts_with
has_text w [] = is_empty w
has_text w (c ∷ s) = starts_with w (c ∷ s) || has_text w s

-- `s.endsWith(w)`
unfoldable pub ends_with : Text → Text → Bool
unfolding starts_with
ends_with w s = starts_with (reverse w) (reverse s)

-- How often a character occurs.
unfoldable pub count_char : ℕ → Text → ℕ
count_char c [] = 0
count_char c (d ∷ s) = if d == c then suc (count_char c s) else count_char c s

-- The text up to the first `c`, and what follows it: the group `([^c]*)` and the `c` behind it.
unfoldable pub take_until : ℕ → Text → Option (Text × Text)
take_until c [] = none
take_until c (d ∷ s) =
    let rest = take_until c s in
    if d == c then some ([], s) else Option.map (λ p. (d ∷ p.0, p.1)) rest

-- The rest of a text behind a literal.
unfoldable pub strip : Text → Text → Option Text
strip [] s = some s
strip (a ∷ p) [] = none
strip (a ∷ p) (b ∷ s) = if a == b then strip p s else none

-- No character of the text is `c`.
abbrev pub NoChar : ℕ → Text → Type 0
NoChar c [] = Unit
NoChar c (d ∷ s) = (d ≢ c) × NoChar c s

pub NoChar-append : (c : ℕ) (s t : Text) → NoChar c s → NoChar c t → NoChar c (s ++ t)
NoChar-append c [] t h k = k
NoChar-append c (d ∷ s) t h k = (h.0, NoChar-append c s t h.1 k)

pub take_until-append :
    (c : ℕ) (s rest : Text) → NoChar c s → take_until c (s ++ (c ∷ rest)) ≡ some (s, rest)
unfolding take_until
take_until-append c [] rest h = ground arith
take_until-append c (d ∷ s) rest h = ground (arith, take_until-append c s rest h.1)

pub count_char-append :
    (c : ℕ) (s t : Text) → count_char c (s ++ t) ≡ count_char c s + count_char c t
unfolding count_char
count_char-append c [] t = omega arith
count_char-append c (d ∷ s) t = ground (arith, count_char-append c s t)

pub count_char-NoChar : (c : ℕ) (s : Text) → NoChar c s → count_char c s ≡ 0
unfolding count_char
count_char-NoChar c [] h = refl
count_char-NoChar c (d ∷ s) h = ground (arith, count_char-NoChar c s h.1)

pub trim_start-solid : (c : ℕ) (s : Text) → is_space c ≡ false → trim_start (c ∷ s) ≡ c ∷ s
unfolding trim_start
trim_start-solid c s h = rw h

trim-eq : (s : Text) → trim s ≡ reverse (trim_start (reverse (trim_start s)))
unfolding trim
trim-eq s = refl

reverse-ends : (c d : ℕ) (s : Text) → reverse (c ∷ (s ++ d ∷ [])) ≡ d ∷ (reverse s ++ c ∷ [])
reverse-ends c d s = simp (reverse-cons, reverse-append)

-- A text that begins and ends with characters which are no space is trimmed already.
pub trim-solid :
    (c d : ℕ) (s : Text)
    → is_space c ≡ false
    → is_space d ≡ false
    → trim (c ∷ (s ++ d ∷ [])) ≡ c ∷ (s ++ d ∷ [])
trim-solid c d s h k =
    trim (c ∷ (s ++ d ∷ []))
    ≡⟨ trim-eq _ ⟩ reverse (trim_start (reverse (trim_start (c ∷ (s ++ d ∷ [])))))
    ≡⟨ ap (λ t. reverse (trim_start (reverse t))) (trim_start-solid c _ h) ⟩
      reverse (trim_start (reverse (c ∷ (s ++ d ∷ []))))
    ≡⟨ ap (λ t. reverse (trim_start t)) (reverse-ends c d s) ⟩
      reverse (trim_start (d ∷ (reverse s ++ c ∷ [])))
    ≡⟨ ap reverse (trim_start-solid d _ k) ⟩ reverse (d ∷ (reverse s ++ c ∷ []))
    ≡⟨ ap reverse (sym (reverse-ends c d s)) ⟩ reverse (reverse (c ∷ (s ++ d ∷ [])))
    ≡⟨ reverse-reverse _ ⟩ c ∷ (s ++ d ∷ []) ∎

-- A piece without the separator comes back whole, in front of what follows the separator.
split_on-piece : (c : ℕ) (w s : Text) → NoChar c w → split_on c (w ++ (c ∷ s)) ≡ w ∷ split_on c s
unfolding split_on
split_on-piece c [] s h = ground arith
split_on-piece c (d ∷ w) s h = ground (arith, split_on-piece c w s h.1)

split_on-last : (c : ℕ) (w : Text) → NoChar c w → split_on c w ≡ w ∷ []
unfolding split_on
split_on-last c [] h = refl
split_on-last c (d ∷ w) h = ground (arith, split_on-last c w h.1)

-- Pieces without the separator are joined by it and split again.
pub split_on-join :
    (c : ℕ) (w : Text) (ws : List Text)
    → All (NoChar c) (w ∷ ws)
    → split_on c (join (c ∷ []) (w ∷ ws)) ≡ w ∷ ws
unfolding join
split_on-join c w [] h = split_on-last c w h.0
split_on-join c w (v ∷ ws) h = rw (split_on-piece c w _ h.0, split_on-join c v ws h.1)

-- Equality of arrays of strings, element by element.
unfoldable pub texts_eq : List Text → List Text → Bool
texts_eq [] [] = true
texts_eq (a ∷ s) (b ∷ t) = text_eq a b && texts_eq s t
texts_eq _ _ = false

pub texts_eq_iff : (s t : List Text) → (texts_eq s t ≡ true) ↔ (s ≡ t)
unfolding texts_eq
texts_eq_iff [] [] = (λ _. refl, λ _. refl)
texts_eq_iff [] (b ∷ t) = (λ h. cc, λ h. cc)
texts_eq_iff (a ∷ s) [] = (λ h. cc, λ h. cc)
texts_eq_iff (a ∷ s) (b ∷ t) = ground (arith, text_eq_iff a b, texts_eq_iff s t)

pub NoChar-of_count : (c : ℕ) (s : Text) → count_char c s ≡ 0 → NoChar c s
unfolding count_char
NoChar-of_count c [] h = tt
NoChar-of_count c (d ∷ s) h = (ground arith, NoChar-of_count c s (ground arith))
