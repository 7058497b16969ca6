-- ===== src/Policy/Editor/Highlight/Pieces.antt =====
-- The coloured pieces of a line, put together again.
use tuck.Base.{
  ℕ, zero, suc, ◌≤◌, ◌≡◌, refl, ap, ◌∙◌, subst, Text, List, [], ◌∷◌, ◌++◌, codes, Bool, true, false,
  not, ◌&&◌, Option, none, some, length, all, strip, ◌==◌, arith, Bool-cases, Option-cases, inl,
  inr, append_assoc, append-nil, length-append,
}
use tuck.Policy.Parse.{is_word}
use tuck.Policy.Editor.Highlight.{
  Seg, Part, Token, comment, str, kw, punct, whole, line_end, string_end, no_word, keyword,
  is_punct, token_at, kind_of, same_part, push_part, parts_of, seg_of, caps_after, before,
  ends_word, scan, highlight_line, keep_word, word_or, kw_token,
}

-- What the parts of a piece show.
pub shown_parts : List Part → Text
shown_parts [] = []
shown_parts (x ∷ parts) = x.text ++ shown_parts parts

-- What `HlLine` renders of a piece: its parts where it has any, and else its text.
pub shown_seg : Seg → Text
unfolding shown_parts
shown_seg x = elim x.parts [ none ↦ x.text | some parts ↦ shown_parts parts ]

-- What a list of pieces shows.
pub shown_text : List Seg → Text
unfolding shown_seg
shown_text [] = []
shown_text (x ∷ segs) = shown_seg x ++ shown_text segs

shown-nil : shown_text [] ≡ []
unfolding shown_text
shown-nil = refl

shown_parts-nil : shown_parts [] ≡ []
unfolding shown_parts
shown_parts-nil = refl

string_end-whole : (t : Text) → (string_end t).0 ++ (string_end t).1 ≡ t
unfolding string_end
string_end-whole [] = refl
string_end-whole (d ∷ t) = elim (Bool-cases (d == b'"')) [
  | inl e ↦ rw e refl
  | inr e ↦ rw (e, string_end-whole t) refl
]

-- What is found at the head of a text, and what follows, are the text; something is found.
abbrev IsSplit : Text → Option (Text × Text) → Type 0
IsSplit t none = Unit
IsSplit t (some (w, rest)) = (w ++ rest ≡ t) × (1 ≤ length w)

abbrev IsTokenSplit : Text → Option (Token × Text) → Type 0
IsTokenSplit t none = Unit
IsTokenSplit t (some (x, rest)) = (whole x ++ rest ≡ t) × (1 ≤ length (whole x))

strip-whole : (w t : Text) (rest : Text) → strip w t ≡ some rest → w ++ rest ≡ t
unfolding strip
strip-whole [] t rest h = cc h
strip-whole (a ∷ w) [] rest h = cc h
strip-whole (a ∷ w) (d ∷ t) rest h = elim (Bool-cases (a == d)) [
  | inl e ↦ ground (arith, h, e, strip-whole w t rest)
  | inr e ↦ ground (arith, h, e)
]

keep_word-IsSplit :
    (w t : Text) (o : Option Text) → 1 ≤ length w → strip w t ≡ o → IsSplit t (keep_word w o)
unfolding keep_word
keep_word-IsSplit w t none n h = tt
keep_word-IsSplit w t (some rest) n h = elim (Bool-cases (no_word rest)) [
  | inl e ↦ rw e (strip-whole w t rest h, n)
  | inr e ↦ rw e tt
]

word_or-IsSplit :
    (t : Text) (a b : Option (Text × Text)) → IsSplit t a → IsSplit t b → IsSplit t (word_or a b)
unfolding word_or
word_or-IsSplit t none b h k = k
word_or-IsSplit t (some a) b h k = h

keyword-IsSplit : (inside : Bool) (t : Text) → IsSplit t (keyword inside t)
unfolding keyword
keyword-IsSplit true t = tt
keyword-IsSplit false t =
    word_or-IsSplit t _ _ (keep_word-IsSplit (codes "path") t _ (omega arith) refl)
      (keep_word-IsSplit (codes "capabilities") t _ (omega arith) refl)

kw_token-IsTokenSplit :
    (t : Text) (o : Option (Text × Text)) → IsSplit t o → IsTokenSplit t (kw_token o)
unfolding kw_token
kw_token-IsTokenSplit t none h = tt
kw_token-IsTokenSplit t (some (w, rest)) h = h

token_at-IsTokenSplit : (inside : Bool) (t : Text) → IsTokenSplit t (token_at inside t)
unfolding token_at
token_at-IsTokenSplit inside [] = tt
token_at-IsTokenSplit inside (d ∷ t) =
    elim (Bool-cases (d == b'#' && all (λ c. not (line_end c)) t)) [
      | inl e ↦ rw e (append-nil (d ∷ t), omega arith)
      | inr e ↦ elim (Bool-cases (d == b'"')) [
        | inl f ↦ rw (e, f) (ap (λ u. d ∷ u) (string_end-whole t), omega arith)
        | inr f ↦ elim (Bool-cases (is_punct d)) [
          | inl g ↦ rw (e, f, g) (refl, omega arith)
          | inr g ↦
              rw (e, f, g)
                (kw_token-IsTokenSplit (d ∷ t) (keyword inside (d ∷ t))
                  (keyword-IsSplit inside (d ∷ t)))
        ]
      ]
    ]

push_part-shown :
    (d : ℕ) (parts : List Part) → shown_parts (push_part d parts) ≡ d ∷ shown_parts parts
unfolding push_part shown_parts
push_part-shown d [] = refl
push_part-shown d (q ∷ parts) = elim (Bool-cases (same_part (kind_of d) q.kind)) [
  | inl e ↦ rw e refl
  | inr e ↦ rw e refl
]

parts_of-shown : (t : Text) → shown_parts (parts_of t) ≡ t
unfolding parts_of
parts_of-shown [] = shown_parts-nil
parts_of-shown (d ∷ t) = push_part-shown d (parts_of t) ∙ ap (λ u. d ∷ u) (parts_of-shown t)

shown-before :
    (seen : Text) (segs : List Seg) → shown_text (before seen segs) ≡ seen ++ shown_text segs
unfolding before shown_text shown_seg
shown-before [] segs = refl
shown-before (d ∷ seen) segs = refl

shown-seg_of : (in_caps : Bool) (x : Token) → shown_seg (seg_of in_caps x) ≡ whole x
unfolding seg_of shown_seg
shown-seg_of in_caps (comment w) = refl
shown-seg_of in_caps (kw w) = refl
shown-seg_of in_caps (punct w) = refl
shown-seg_of true (str w) = refl
shown-seg_of false (str w) = parts_of-shown w

scan-none :
    (fuel : ℕ) (in_caps inside : Bool) (seen : Text) (d : ℕ) (t : Text)
    → token_at inside (d ∷ t) ≡ none
    → scan (suc fuel) in_caps inside seen (d ∷ t) ≡ scan fuel in_caps (is_word d) (seen ++ d ∷ []) t
unfolding scan
scan-none fuel in_caps inside seen d t h = rw (scan, h) refl

scan-some :
    (fuel : ℕ) (in_caps inside : Bool) (seen : Text) (d : ℕ) (t : Text) (x : Token) (rest : Text)
    → token_at inside (d ∷ t) ≡ some (x, rest)
    → scan (suc fuel) in_caps inside seen (d ∷ t)
      ≡ before seen
          (seg_of in_caps x ∷ scan fuel (caps_after in_caps x) (ends_word inside (whole x)) [] rest)
unfolding scan
scan-some fuel in_caps inside seen d t x rest h = rw (scan, h) refl

scan-nil :
    (fuel : ℕ) (in_caps inside : Bool) (seen : Text)
    → scan fuel in_caps inside seen [] ≡ before seen []
unfolding scan
scan-nil zero in_caps inside seen = refl
scan-nil (suc fuel) in_caps inside seen = refl

shown-cons : (x : Seg) (segs : List Seg) → shown_text (x ∷ segs) ≡ shown_seg x ++ shown_text segs
unfolding shown_text
shown-cons x segs = refl

-- The pieces of the rest show what is left, with what has passed before it.
shown-scan :
    (fuel : ℕ) (in_caps inside : Bool) (seen t : Text)
    → length t ≤ fuel
    → shown_text (scan fuel in_caps inside seen t) ≡ seen ++ t
shown-scan fuel in_caps inside seen [] h =
    ap shown_text (scan-nil fuel in_caps inside seen)
    ∙ shown-before seen []
    ∙ ap (λ u. seen ++ u) shown-nil
shown-scan zero in_caps inside seen (d ∷ t) h = absurd (omega (arith, h))
shown-scan (suc fuel) in_caps inside seen (d ∷ t) h =
    elim (Option-cases (token_at inside (d ∷ t))) [
      | inl e ↦
          ap shown_text (scan-none fuel in_caps inside seen d t e)
          ∙ shown-scan fuel in_caps (is_word d) (seen ++ d ∷ []) t (omega (arith, h))
          ∙ append_assoc seen (d ∷ []) t
      | inr ((x, rest), e) ↦
          let found = subst (IsTokenSplit (d ∷ t)) e (token_at-IsTokenSplit inside (d ∷ t)) in
          let shorter : length rest ≤ fuel =
            omega (arith, h, found.1, ap length found.0, length-append (whole x) rest) in
          let rest_segs = scan fuel (caps_after in_caps x) (ends_word inside (whole x)) [] rest in
          ap shown_text (scan-some fuel in_caps inside seen d t x rest e)
          ∙ shown-before seen _
          ∙ ap (λ u. seen ++ u)
              (shown-cons (seg_of in_caps x) _
                ∙ ap (λ u. u ++ shown_text rest_segs) (shown-seg_of in_caps x)
                ∙ ap (λ u. whole x ++ u)
                    (shown-scan fuel (caps_after in_caps x) (ends_word inside (whole x)) [] rest
                      shorter)
                ∙ found.0)
    ]

-- What the layer under the text of the editor renders of the pieces of a line, the parts of a string
-- in place of it, put together is the line: it shows the same characters in the same places. The
-- loop ends on every line.
pub highlight_line-shown : (raw : Text) → shown_text (highlight_line raw) ≡ raw
unfolding highlight_line
highlight_line-shown raw = shown-scan (length raw) false false [] raw (omega arith)
