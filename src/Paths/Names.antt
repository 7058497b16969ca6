-- ===== src/Paths/Names.antt =====
-- What a secret's name is once `validateName` of web/src/pages/dashboard/kv2/utils.ts or of
-- web/src/pages/dashboard/kv1/lib.ts has let it through.
use tuck.Base.{
  ℕ, Text, List, [], ◌∷◌, codes, ◌≡◌, ◌≢◌, ◌↔◌, refl, Bool, false, ◌||◌, none, arith, any, All,
  is_empty, is_space, text_eq_iff, split_on, trim,
}
use tuck.Paths.{dots_at, has_dots, validate_name, validate_path, is_url_char}
use tuck.Paths.Segments.{
  first_segment, more_segments, split_on-segments, is_dots, dots_at-segment, behind_slash-segments,
  is_empty-segment, is_empty-segments, any-segments,
}

abbrev pub NoneOf : (ℕ → Bool) → Text → Type 0
NoneOf p w = All (λ c. p c ≡ false) w

-- A segment that names something: not empty, not `.` or `..`, and without white space.
pub record IsSegment (w : Text) : Type 0 where
  pub given : w ≢ []
  pub no_dot : w ≢ codes "."
  pub no_dots : w ≢ codes ".."
  pub no_space : NoneOf is_space w

NoneOf-any {ℓ} :
    {A : Type ℓ} (p : A → Bool) (xs : List A) → (any p xs ≡ false) ↔ All (λ c. p c ≡ false) xs
NoneOf-any p [] = (λ _. tt, λ _. refl)
NoneOf-any p (c ∷ w) = ground (arith, NoneOf-any p w)

-- The three tests on one segment.
is_bad : Text → Bool
is_bad w = is_empty w || is_dots w || any is_space w

is_empty-false : (w : Text) → (is_empty w ≡ false) ↔ (w ≢ [])
is_empty-false [] = (λ h. cc, λ h. absurd (h refl))
is_empty-false (c ∷ w) = (λ _. cc, λ _. refl)

is_bad-IsSegment : (w : Text) → (is_bad w ≡ false) ↔ IsSegment w
unfolding is_bad is_dots
is_bad-IsSegment w = ground (
  arith,
  is_empty-false w,
  text_eq_iff w (codes "."),
  text_eq_iff w (codes ".."),
  NoneOf-any is_space w,
)

any-or {ℓ} :
    {A : Type ℓ} (p q : A → Bool) (xs : List A) → any (λ x. p x || q x) xs ≡ (any p xs || any q xs)
any-or p q [] = refl
any-or p q (x ∷ xs) = ground (arith, any-or p q xs)

any-is_bad :
    (ws : List Text)
    → any is_bad ws ≡ (any is_empty ws || (any is_dots ws || any (any is_space) ws))
unfolding is_bad
any-is_bad [] = refl
any-is_bad (w ∷ ws) = ground (arith, any-is_bad ws)

All-IsSegment : (ws : List Text) → (any is_bad ws ≡ false) ↔ All IsSegment ws
All-IsSegment [] = (λ _. tt, λ _. refl)
All-IsSegment (w ∷ ws) = ground (arith, is_bad-IsSegment w, All-IsSegment ws)

space-slash : is_space b'/' ≡ false
unfolding is_space
space-slash = refl

has_dots-segments :
    (n : Text) → has_dots n ≡ (is_dots (first_segment n) || any is_dots (more_segments n))
unfolding has_dots
has_dots-segments n =
    ground (arith, dots_at-segment n, behind_slash-segments dots_at is_dots dots_at-segment n)

validate_name-bad :
    (name : Text) → (validate_name name ≡ none) ↔ (any is_bad (split_on b'/' (trim name)) ≡ false)
unfolding is_bad
validate_name-bad name =
    let n = trim name in
    rw (split_on-segments n) (
      unfold validate_name in
      ground (
        arith,
        has_dots-segments n,
        is_empty-segment n,
        is_empty-segments n,
        any-segments is_space space-slash n,
        any-is_bad (more_segments n),
      ))

-- The versioned screen takes a name exactly if each of its segments, once the name is trimmed, names
-- something: none is empty, `.` or `..`, and none has white space in it.
pub validate_name_iff :
    (name : Text) → (validate_name name ≡ none) ↔ All IsSegment (split_on b'/' (trim name))
validate_name_iff name =
    let (to, from) = validate_name-bad name in
    let (up, down) = All-IsSegment (split_on b'/' (trim name)) in
    (λ h. up (to h), λ h. from (down h))

-- A segment that can stand in a URL as it is: not empty, without white space and without `?`, `#`, `%`.
pub record IsUrlSegment (w : Text) : Type 0 where
  pub given : w ≢ []
  pub no_space : NoneOf is_space w
  pub no_chars : NoneOf is_url_char w

is_lax : Text → Bool
is_lax w = is_empty w || any is_space w || any is_url_char w

any-is_lax :
    (ws : List Text)
    → any is_lax ws ≡ (any is_empty ws || (any (any is_space) ws || any (any is_url_char) ws))
unfolding is_lax
any-is_lax [] = refl
any-is_lax (w ∷ ws) = ground (arith, any-is_lax ws)

is_lax-IsUrlSegment : (w : Text) → (is_lax w ≡ false) ↔ IsUrlSegment w
unfolding is_lax
is_lax-IsUrlSegment w =
    ground (arith, is_empty-false w, NoneOf-any is_space w, NoneOf-any is_url_char w)

All-IsUrlSegment : (ws : List Text) → (any is_lax ws ≡ false) ↔ All IsUrlSegment ws
All-IsUrlSegment [] = (λ _. tt, λ _. refl)
All-IsUrlSegment (w ∷ ws) = ground (arith, is_lax-IsUrlSegment w, All-IsUrlSegment ws)

url_char-slash : is_url_char b'/' ≡ false
unfolding is_url_char
url_char-slash = refl

validate_path-lax : (n : Text) → (validate_path n ≡ none) ↔ (any is_lax (split_on b'/' n) ≡ false)
unfolding is_lax
validate_path-lax n = rw (split_on-segments n) (
    unfold validate_path in
    ground (
      arith,
      is_empty-segment n,
      is_empty-segments n,
      any-segments is_space space-slash n,
      any-segments is_url_char url_char-slash n,
      any-is_lax (more_segments n),
    ))

-- The unversioned screen takes a name exactly if each of its segments is not empty and has no white
-- space and no `?`, `#` or `%`; unlike the versioned screen it takes `.` and `..`.
pub validate_path_iff : (n : Text) → (validate_path n ≡ none) ↔ All IsUrlSegment (split_on b'/' n)
validate_path_iff n =
    let (to, from) = validate_path-lax n in
    let (up, down) = All-IsUrlSegment (split_on b'/' n) in (λ h. up (to h), λ h. from (down h))
