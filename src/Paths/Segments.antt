-- ===== src/Paths/Segments.antt =====
-- The segments of a path, one by one from the left: the tests of `validateName` in
-- web/src/pages/dashboard/kv2/utils.ts and web/src/pages/dashboard/kv1/lib.ts by segments.
use tuck.Base.{
  ℕ, Text, List, [], ◌∷◌, codes, ◌≡◌, refl, Bool, false, ◌||◌, arith, any, is_empty, starts_with,
  has_text, ◌==◌, if◌then◌else◌, text_eq, split_on, push_head,
}
use tuck.Paths.{ends_char, dots_at, behind_slash}

-- The text up to the first slash, and the segments behind it.
pub first_segment : Text → Text
first_segment [] = []
first_segment (d ∷ s) = if d == b'/' then [] else d ∷ first_segment s

pub more_segments : Text → List Text
more_segments [] = []
more_segments (d ∷ s) = if d == b'/' then first_segment s ∷ more_segments s else more_segments s

pub split_on-segments : (s : Text) → split_on b'/' s ≡ first_segment s ∷ more_segments s
unfolding split_on push_head first_segment more_segments
split_on-segments [] = refl
split_on-segments (d ∷ s) = ground (arith, split_on-segments s)

unfoldable pub is_dots : Text → Bool
is_dots w = text_eq w (codes ".") || text_eq w (codes "..")

pub dots_at-segment : (s : Text) → dots_at s ≡ is_dots (first_segment s)
unfolding dots_at is_dots first_segment text_eq
dots_at-segment [] = refl
dots_at-segment (a ∷ []) = ground arith
dots_at-segment (a ∷ b ∷ []) = ground arith
dots_at-segment (a ∷ b ∷ c ∷ s) = ground arith

pub behind_slash-segments :
    (m p : Text → Bool)
    → ((s : Text) → m s ≡ p (first_segment s))
    → (s : Text) → behind_slash m s ≡ any p (more_segments s)
unfolding behind_slash more_segments
behind_slash-segments m p h [] = refl
behind_slash-segments m p h (c ∷ s) = ground (arith, h s, behind_slash-segments m p h s)

pub is_empty-segment :
    (s : Text) → is_empty (first_segment s) ≡ (is_empty s || starts_with (codes "/") s)
unfolding first_segment starts_with
is_empty-segment [] = refl
is_empty-segment (c ∷ s) = ground arith

pub is_empty-segments :
    (s : Text) → any is_empty (more_segments s) ≡ (ends_char b'/' s || has_text (codes "//") s)
unfolding more_segments first_segment ends_char has_text starts_with
is_empty-segments [] = refl
is_empty-segments (c ∷ []) = ground arith
is_empty-segments (c ∷ d ∷ s) = ground (arith, is_empty-segments (d ∷ s))

-- A test on characters that a slash fails.
pub any-segments :
    (p : ℕ → Bool)
    → p b'/' ≡ false
    → (s : Text) → any p s ≡ (any p (first_segment s) || any (any p) (more_segments s))
unfolding first_segment more_segments
any-segments p h [] = refl
any-segments p h (c ∷ s) = ground (arith, any-segments p h s)
