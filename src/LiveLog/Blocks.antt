-- ===== src/LiveLog/Blocks.antt =====
-- The stream is cut at its empty lines, wherever the borders of its chunks are.
use tuck.Base.{
  ℕ, zero, suc, ◌≤◌, ◌≡◌, refl, sym, ap, ◌∙◌, Text, List, [], ◌∷◌, ◌++◌, codes, none, some, arith,
  length,
}
use tuck.Base.{inl, inr}
use tuck.LiveLog.{cut, drain, blocks}
use tuck.LiveLog.Cut.{cut-some, cut-append, cut-shorter, cut-cases, cut-empty}

drain-none : (n : ℕ) (buf : Text) → cut buf ≡ none → drain n buf ≡ ([], buf)
unfolding drain
drain-none zero buf h = refl
drain-none (suc n) buf h = rw (drain, h)

drain-some :
    (n : ℕ) (buf : Text) (p : Text × Text)
    → cut buf ≡ some p
    → drain (suc n) buf ≡ (p.0 ∷ (drain n p.1).0, (drain n p.1).1)
unfolding drain
drain-some n buf p h = rw (drain, h)

-- More fuel than characters changes nothing.
drain-more : (n m : ℕ) (buf : Text) → length buf ≤ n → length buf ≤ m → drain n buf ≡ drain m buf
drain-more zero m buf h k =
    drain-none zero buf (cut-empty buf h) ∙ sym (drain-none m buf (cut-empty buf h))
drain-more (suc n) zero buf h k =
    drain-none (suc n) buf (cut-empty buf k) ∙ sym (drain-none zero buf (cut-empty buf k))
drain-more (suc n) (suc m) buf h k = elim (cut-cases buf) [
  | inl e ↦ drain-none (suc n) buf e ∙ sym (drain-none (suc m) buf e)
  | inr (p, e) ↦
      let less = cut-shorter buf p e in
      drain-some n buf p e
      ∙ ap (λ r. (p.0 ∷ r.0, r.1)) (drain-more n m p.1 (omega (arith, less)) (omega (arith, less)))
      ∙ sym (drain-some m buf p e)
]

-- `blocks` runs the loop to its end.
blocks-none : (buf : Text) → cut buf ≡ none → blocks buf ≡ ([], buf)
unfolding blocks
blocks-none buf e = drain-none (length buf) buf e

blocks-some :
    (buf : Text) (p : Text × Text)
    → cut buf ≡ some p
    → blocks buf ≡ (p.0 ∷ (blocks p.1).0, (blocks p.1).1)
unfolding blocks
blocks-some buf p e =
    let less = cut-shorter buf p e in
    drain-more (length buf) (suc (length buf)) buf (omega arith) (omega arith)
    ∙ drain-some (length buf) buf p e
    ∙ ap (λ r. (p.0 ∷ r.0, r.1))
        (drain-more (length buf) (length p.1) p.1 (omega (arith, less)) (omega arith))

-- The text that was cut, with the empty lines between.
abbrev pub unsplit : List Text → Text → Text
unsplit [] rest = rest
unsplit (block ∷ more) rest = block ++ codes "\n\n" ++ unsplit more rest

blocks-whole_none :
    (buf : Text)
    → cut buf ≡ none
    → (cut (blocks buf).1 ≡ none) × (unsplit (blocks buf).0 (blocks buf).1 ≡ buf)
blocks-whole_none buf e =
    (ap (λ r. cut r.1) (blocks-none buf e) ∙ e, ap (λ r. unsplit r.0 r.1) (blocks-none buf e))

blocks-whole_within :
    (n : ℕ) (buf : Text)
    → length buf ≤ n
    → (cut (blocks buf).1 ≡ none) × (unsplit (blocks buf).0 (blocks buf).1 ≡ buf)
blocks-whole_within zero buf h = blocks-whole_none buf (cut-empty buf h)
blocks-whole_within (suc n) buf h = elim (cut-cases buf) [
  | inl e ↦ blocks-whole_none buf e
  | inr (p, e) ↦
      let ih = blocks-whole_within n p.1 (omega (arith, cut-shorter buf p e)) in
      (
        ap (λ r. cut r.1) (blocks-some buf p e) ∙ ih.0,
        ap (λ r. unsplit r.0 r.1) (blocks-some buf p e)
            ∙ ap (λ q. p.0 ++ codes "\n\n" ++ q) ih.1
            ∙ cut-some buf p e,
      )
]

-- The loop takes every complete block off the buffer: what it leaves holds no empty line, and the
-- blocks with their empty lines, followed by what is left, are the buffer.
pub blocks-whole :
    (buf : Text) → (cut (blocks buf).1 ≡ none) × (unsplit (blocks buf).0 (blocks buf).1 ≡ buf)
blocks-whole buf = blocks-whole_within (length buf) buf (omega arith)

-- What the next chunk adds to the blocks that were found.
abbrev go_on : Text → List Text × Text → List Text × Text
go_on chunk r = let next = blocks (r.1 ++ chunk) in (r.0 ++ next.0, next.1)

blocks-append_within :
    (n : ℕ) (buf chunk : Text)
    → length buf ≤ n
    → let (found, rest) = blocks buf in
      let (later, rest') = blocks (rest ++ chunk) in blocks (buf ++ chunk) ≡ (found ++ later, rest')
blocks-append_within zero buf chunk h = sym (ap (go_on chunk) (blocks-none buf (cut-empty buf h)))
blocks-append_within (suc n) buf chunk h = elim (cut-cases buf) [
  | inl e ↦ sym (ap (go_on chunk) (blocks-none buf e))
  | inr (p, e) ↦
      blocks-some (buf ++ chunk) (p.0, p.1 ++ chunk) (cut-append buf chunk p e)
      ∙ ap (λ r. (p.0 ∷ r.0, r.1))
          (blocks-append_within n p.1 chunk (omega (arith, cut-shorter buf p e)))
      ∙ sym (ap (go_on chunk) (blocks-some buf p e))
]

-- A text that comes in two chunks gives the blocks, and leaves the buffer, that it does in one.
pub blocks-append :
    (buf chunk : Text)
    → let (found, rest) = blocks buf in
      let (later, rest') = blocks (rest ++ chunk) in blocks (buf ++ chunk) ≡ (found ++ later, rest')
blocks-append buf chunk = blocks-append_within (length buf) buf chunk (omega arith)
