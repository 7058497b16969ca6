-- ===== src/Namespaces/Names.antt =====
-- The console's check on the name of a namespace against the server's, and the storage prefixes.
use tuck.Base.{
  subst, is_lower, is_digit, push_head, ℕ, ◌<◌, ◌≡◌, ◌↔◌, refl, sym, ap, ◌∙◌, append_assoc,
  text_eq_iff, take_until, take_until-append, drop, Text, List, [], ◌∷◌, ◌++◌, codes, Bool, true,
  false, ◌&&◌, ◌||◌, all, All, is_empty, text_eq, split_on, ◌==◌, arith, Bool-cases, inl, inr,
  NoChar,
}
use tuck.Namespaces.{
  ok, segment_first, segment_char, segment_re, segments_error, utf8, pair_bytes, is_pair,
  unit_bytes, name_error_kind, segments_valid, validate_namespace, tildes, storage_prefix,
}

-- A character of the ASCII range, which the request encodes as one byte of the same value.
abbrev pub IsAscii : Text → Type 0
IsAscii s = All (λ c. c < 128) s

segments_error-ok : (segs : List Text) → (segments_error segs ≡ ok) ↔ (segments_valid segs ≡ true)
unfolding segments_error segments_valid
segments_error-ok [] = (λ h. refl, λ h. refl)
segments_error-ok (seg ∷ segs) = ground (arith, segments_error-ok segs)

segments_chars : List Text → Bool
segments_chars segs = all (all segment_char) segs

segments_valid-chars : (segs : List Text) → segments_valid segs ≡ true → segments_chars segs ≡ true
unfolding segments_valid segments_chars segment_re segment_char
segments_valid-chars [] h = refl
segments_valid-chars ([] ∷ segs) h = ground arith
segments_valid-chars ((c ∷ seg) ∷ segs) h = ground (arith, h, segments_valid-chars segs)

name_char : ℕ → Bool
name_char c = segment_char c || c == b'/'

push_head-chars :
    (d : ℕ) (segs : List Text)
    → segments_chars (push_head d segs) ≡ (segment_char d && segments_chars segs)
unfolding push_head segments_chars
push_head-chars d [] = ground arith
push_head-chars d (w ∷ ws) = ground arith

split_on-chars :
    (s : Text) → segments_chars (split_on b'/' s) ≡ true → All (λ c. name_char c ≡ true) s
unfolding split_on name_char segments_chars
split_on-chars [] h = tt
split_on-chars (d ∷ s) h = elim (Bool-cases (d == b'/')) [
  | inl e ↦ (ground arith, split_on-chars s (ground (arith, h)))
  | inr e ↦
      let k = push_head-chars d (split_on b'/' s) in
      (ground (arith, h, k), split_on-chars s (ground (arith, h, k)))
]

validate_namespace-chars :
    (s : Text) → validate_namespace s ≡ true → All (λ c. name_char c ≡ true) s
unfolding validate_namespace
validate_namespace-chars s h = split_on-chars s (segments_valid-chars _ (ground (arith, h)))

name_char-lt : (c : ℕ) → name_char c ≡ true → c < 126
unfolding name_char segment_char segment_first is_lower is_digit
name_char-lt c h = ground (arith, h)

chars-IsAscii : (s : Text) → All (λ c. name_char c ≡ true) s → IsAscii s
chars-IsAscii [] h = tt
chars-IsAscii (c ∷ s) h = (omega (arith, name_char-lt c h.0), chars-IsAscii s h.1)

chars-NoTilde : (s : Text) → All (λ c. name_char c ≡ true) s → NoChar b'~' s
chars-NoTilde [] h = tt
chars-NoTilde (c ∷ s) h = (ground (arith, name_char-lt c h.0), chars-NoTilde s h.1)

unit_bytes-ascii : (c : ℕ) → c < 128 → unit_bytes c ≡ c ∷ []
unfolding unit_bytes
unit_bytes-ascii c h = ground (arith, h)

is_pair-ascii : (c : ℕ) (s : Text) → c < 128 → is_pair c s ≡ false
unfolding is_pair
is_pair-ascii c [] h = refl
is_pair-ascii c (d ∷ s) h = ground (arith, h)

utf8-unpaired :
    (c d : ℕ) (s : Text)
    → is_pair c (d ∷ s) ≡ false
    → utf8 (c ∷ d ∷ s) ≡ unit_bytes c ++ utf8 (d ∷ s)
unfolding utf8
utf8-unpaired c d s h = rw (utf8, h) refl

utf8-paired :
    (c d : ℕ) (s : Text) → is_pair c (d ∷ s) ≡ true → utf8 (c ∷ d ∷ s) ≡ pair_bytes c d ++ utf8 s
unfolding utf8
utf8-paired c d s h = rw (utf8, h) refl

utf8-nil : utf8 [] ≡ []
unfolding utf8
utf8-nil = refl

utf8-one : (c : ℕ) → utf8 (c ∷ []) ≡ unit_bytes c
unfolding utf8
utf8-one c = refl

utf8-ascii : (s : Text) → IsAscii s → utf8 s ≡ s
utf8-ascii [] h = utf8-nil
utf8-ascii (c ∷ []) h = utf8-one c ∙ unit_bytes-ascii c h.0
utf8-ascii (c ∷ d ∷ s) h =
    rw
      (
        utf8-unpaired c d s (is_pair-ascii c (d ∷ s) h.0),
        unit_bytes-ascii c h.0,
        utf8-ascii (d ∷ s) h.1,
      )
      refl

All-append : (s t : Text) → IsAscii (s ++ t) → IsAscii s × IsAscii t
All-append [] t h = (tt, h)
All-append (c ∷ s) t h = let k = All-append s t h.1 in ((h.0, k.0), k.1)

unit_bytes-IsAscii : (c : ℕ) → IsAscii (unit_bytes c) → c < 128
unfolding unit_bytes
unit_bytes-IsAscii c h = ground (arith, h)

pair_bytes-IsAscii : (c d : ℕ) → IsAscii (pair_bytes c d) → ⊥
unfolding pair_bytes
pair_bytes-IsAscii c d h = omega (arith, h.0)

utf8-IsAscii : (s : Text) → IsAscii (utf8 s) → IsAscii s
utf8-IsAscii [] h = tt
utf8-IsAscii (c ∷ []) h = (unit_bytes-IsAscii c (subst IsAscii (utf8-one c) h), tt)
utf8-IsAscii (c ∷ d ∷ s) h = elim (Bool-cases (is_pair c (d ∷ s))) [
  | inl e ↦
      absurd (pair_bytes-IsAscii c d (All-append _ _ (subst IsAscii (utf8-paired c d s e) h)).0)
  | inr e ↦
      let k = All-append _ _ (subst IsAscii (utf8-unpaired c d s e) h) in
      (unit_bytes-IsAscii c k.0, utf8-IsAscii (d ∷ s) k.1)
]

segments_error-chars : (s : Text) → segments_error (split_on b'/' s) ≡ ok → IsAscii s
segments_error-chars s h =
    chars-IsAscii s (split_on-chars s (segments_valid-chars _ ((segments_error-ok _).0 h)))

name_error_kind-split :
    (s : Text) → is_empty s ≡ false → name_error_kind s ≡ ok → segments_error (split_on b'/' s) ≡ ok
unfolding name_error_kind
name_error_kind-split s h k = ground (arith, h, k)

same_units :
    (name : Text)
    → is_empty name ≡ false
    → (name_error_kind name ≡ ok) ↔ (validate_namespace name ≡ true)
unfolding name_error_kind validate_namespace
same_units name h = ground (arith, h, segments_error-ok (split_on b'/' name))

-- The console has no complaint about a name that is not empty if and only if the server takes the
-- bytes that the request carries for it.
pub name_error_kind-ok_iff :
    (name : Text)
    → is_empty name ≡ false
    → (name_error_kind name ≡ ok) ↔ (validate_namespace (utf8 name) ≡ true)
name_error_kind-ok_iff name h = (
  λ k.
      rw (utf8-ascii name (segments_error-chars name (name_error_kind-split name h k)))
        ((same_units name h).0 k),
  λ k.
      let bytes = chars-IsAscii _ (validate_namespace-chars _ k) in
      let same = utf8-ascii name (utf8-IsAscii name bytes) in
      (same_units name h).1 (subst (λ t. validate_namespace t ≡ true) same k),
)

validate_namespace-not :
    (validate_namespace [] ≡ false) × (validate_namespace (codes "root") ≡ false)
unfolding validate_namespace text_eq
validate_namespace-not = (refl, refl)

validate_namespace-named :
    (s : Text)
    → validate_namespace s ≡ true
    → (is_empty s ≡ false) × (text_eq s (codes "root") ≡ false)
validate_namespace-named [] h = cc (h, validate_namespace-not.0)
validate_namespace-named (c ∷ s) h = elim (Bool-cases (text_eq (c ∷ s) (codes "root"))) [
  | inl e ↦ cc (h, validate_namespace-not.1, (text_eq_iff _ _).0 e)
  | inr e ↦ (refl, e)
]

tildes-NoSlash : (s : Text) → NoChar b'/' (tildes s)
unfolding tildes
tildes-NoSlash [] = tt
tildes-NoSlash (c ∷ s) = ground (arith, tildes-NoSlash s)

tildes-injective : (a b : Text) → NoChar b'~' a → NoChar b'~' b → tildes a ≡ tildes b → a ≡ b
unfolding tildes
tildes-injective [] [] h k e = refl
tildes-injective [] (d ∷ b) h k e = ground (arith, e)
tildes-injective (c ∷ a) [] h k e = ground (arith, e)
tildes-injective (c ∷ a) (d ∷ b) h k e = ground (arith, e, h, k, tildes-injective a b)

storage_prefix-named :
    (s : Text)
    → validate_namespace s ≡ true
    → storage_prefix s ≡ codes "ns/" ++ (tildes s ++ codes "/")
unfolding storage_prefix
storage_prefix-named s h = let k = validate_namespace-named s h in rw (k.0, k.1) refl

storage_prefix-key :
    (s k : Text)
    → validate_namespace s ≡ true
    → storage_prefix s ++ k ≡ codes "ns/" ++ (tildes s ++ (b'/' ∷ k))
storage_prefix-key s k h =
    rw (storage_prefix-named s h)
      (ap (λ t. codes "ns/" ++ t) (append_assoc (tildes s) (codes "/") k))

-- Two storage keys of namespaces with valid names are the same only if they are the same key of
-- the same namespace: whatever key follows the prefix.
pub storage_prefix-apart :
    (a b k l : Text)
    → validate_namespace a ≡ true
    → validate_namespace b ≡ true
    → storage_prefix a ++ k ≡ storage_prefix b ++ l
    → (a ≡ b) × (k ≡ l)
storage_prefix-apart a b k l va vb e =
    let keys = sym (storage_prefix-key a k va) ∙ e ∙ storage_prefix-key b l vb in
    let found =
      sym (take_until-append b'/' (tildes a) k (tildes-NoSlash a))
      ∙ ap (λ t. take_until b'/' (drop 3 t)) keys
      ∙ take_until-append b'/' (tildes b) l (tildes-NoSlash b) in
    (
      tildes-injective a b (chars-NoTilde a (validate_namespace-chars a va))
          (chars-NoTilde b (validate_namespace-chars b vb)) (cc found),
      cc found,
    )
