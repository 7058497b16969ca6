-- ===== src/LiveLog/Cut.antt =====
-- Where the buffer is cut.
use tuck.Base.{
  ℕ, ◌≤◌, ◌<◌, ◌≡◌, refl, sym, ap, ◌∙◌, Text, [], ◌∷◌, ◌++◌, codes, true, false, Option, none, some,
  arith, strip, length, length-append,
}
use tuck.Base.{◌==◌, ◌&&◌, Bool-cases, Option-cases, ◌⊎◌, inl, inr}
use tuck.LiveLog.{put, cut}

cut-nil : cut [] ≡ none
unfolding cut
cut-nil = refl

cut-one : (c : ℕ) → cut (c ∷ []) ≡ none
unfolding cut strip put
cut-one c = ground arith

cut-here :
    (c d : ℕ) (s : Text)
    → (c == b'\n' && d == b'\n') ≡ true
    → (cut (c ∷ d ∷ s) ≡ some ([], s)) × (codes "\n\n" ++ s ≡ c ∷ d ∷ s)
unfolding cut strip
cut-here c d s h = ground arith

cut-later :
    (c d : ℕ) (s : Text)
    → (c == b'\n' && d == b'\n') ≡ false
    → cut (c ∷ d ∷ s) ≡ put c (cut (d ∷ s))
unfolding cut strip
cut-later c d s h = ground arith

put-given : (c : ℕ) (b rest : Text) → put c (some (b, rest)) ≡ some (c ∷ b, rest)
unfolding put
put-given c b rest = refl

put-some :
    (c : ℕ) (r : Option (Text × Text)) (p : Text × Text)
    → put c r ≡ some p
    → (b : Text) × (r ≡ some (b, p.1)) × (c ∷ b ≡ p.0)
unfolding put
put-some c none p h = cc h
put-some c (some (b, t)) p h = (b, cc h, cc h)

pub cut-some : (buf : Text) (p : Text × Text) → cut buf ≡ some p → p.0 ++ codes "\n\n" ++ p.1 ≡ buf
cut-some [] p h = cc (cut-nil, h)
cut-some (c ∷ []) p h = cc (cut-one c, h)
cut-some (c ∷ d ∷ s) p h = elim (Bool-cases (c == b'\n' && d == b'\n')) [
  | inl e ↦
      let same : ([], s) ≡ p = cc ((cut-here c d s e).0, h) in
      ap (λ q. q.0 ++ codes "\n\n" ++ q.1) (sym same) ∙ (cut-here c d s e).1
  | inr e ↦
      let (b, eq, front) = put-some c (cut (d ∷ s)) p (sym (cut-later c d s e) ∙ h) in
      ap (λ q. q ++ codes "\n\n" ++ p.1) (sym front)
      ∙ ap (λ q. c ∷ q) (cut-some (d ∷ s) (b, p.1) eq)
]

pub cut-append :
    (buf chunk : Text) (p : Text × Text)
    → cut buf ≡ some p
    → cut (buf ++ chunk) ≡ some (p.0, p.1 ++ chunk)
cut-append [] chunk p h = cc (cut-nil, h)
cut-append (c ∷ []) chunk p h = cc (cut-one c, h)
cut-append (c ∷ d ∷ s) chunk p h = elim (Bool-cases (c == b'\n' && d == b'\n')) [
  | inl e ↦
      let same : ([], s) ≡ p = cc ((cut-here c d s e).0, h) in
      (cut-here c d (s ++ chunk) e).0 ∙ ap (λ q. some (q.0, q.1 ++ chunk)) same
  | inr e ↦
      let (b, eq, front) = put-some c (cut (d ∷ s)) p (sym (cut-later c d s e) ∙ h) in
      cut-later c d (s ++ chunk) e
      ∙ ap (put c) (cut-append (d ∷ s) chunk (b, p.1) eq)
      ∙ put-given c b (p.1 ++ chunk)
      ∙ ap (λ q. some (q, p.1 ++ chunk)) front
]

-- A cut takes at least two characters away.
pub cut-shorter : (buf : Text) (p : Text × Text) → cut buf ≡ some p → length p.1 < length buf
cut-shorter buf p h = omega (
  arith,
  ap length (cut-some buf p h),
  length-append (p.0 ++ codes "\n\n") p.1,
  length-append p.0 (codes "\n\n"),
)

pub cut-cases : (buf : Text) → (cut buf ≡ none) ⊎ ((p : Text × Text) × (cut buf ≡ some p))
cut-cases buf = Option-cases (cut buf)

pub cut-empty : (buf : Text) → length buf ≤ 0 → cut buf ≡ none
cut-empty [] h = cut-nil
cut-empty (c ∷ buf) h = absurd (omega arith)
