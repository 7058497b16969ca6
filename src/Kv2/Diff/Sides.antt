-- ===== src/Kv2/Diff/Sides.antt =====
-- The two versions can be read off the rows of `lcsDiff` of web/src/pages/dashboard/kv2/utils.ts.
use tuck.Base.{
  ℕ, ◌+◌, Text, List, [], ◌∷◌, ◌≡◌, refl, ap, true, false, Bool, none, some, all, arith,
  text_eq_iff,
}
use tuck.Kv2.Diff.{DiffLine, DiffRow, add, del, eq, walk, lcs_diff, rest_deleted, rest_added}

-- The line numbers and contents that the rows give the old version.
pub old_side : List DiffRow → List (ℕ × Text)
old_side [] = []
old_side (r ∷ rows) = elim r.a [ none ↦ old_side rows | some i ↦ (i, r.line.sig) ∷ old_side rows ]

-- The line numbers and lines that they give the new one.
pub new_side : List DiffRow → List (ℕ × DiffLine)
new_side [] = []
new_side (r ∷ rows) = elim r.b [ none ↦ new_side rows | some j ↦ (j, r.line) ∷ new_side rows ]

-- The lines from number `i + 1` on.
pub number_sigs : ℕ → List DiffLine → List (ℕ × Text)
number_sigs i [] = []
number_sigs i (x ∷ xs) = (i + 1, x.sig) ∷ number_sigs (i + 1) xs

pub number_lines : ℕ → List DiffLine → List (ℕ × DiffLine)
number_lines j [] = []
number_lines j (y ∷ ys) = (j + 1, y) ∷ number_lines (j + 1) ys

old_side-rest_added : (j : ℕ) (ys : List DiffLine) → old_side (rest_added j ys) ≡ []
unfolding old_side rest_added
old_side-rest_added j [] = refl
old_side-rest_added j (y ∷ ys) = old_side-rest_added (j + 1) ys

old_side-rest_deleted :
    (i : ℕ) (xs : List DiffLine) → old_side (rest_deleted i xs) ≡ number_sigs i xs
unfolding old_side rest_deleted number_sigs
old_side-rest_deleted i [] = refl
old_side-rest_deleted i (x ∷ xs) = ap (λ t. (i + 1, x.sig) ∷ t) (old_side-rest_deleted (i + 1) xs)

new_side-rest_deleted : (i : ℕ) (xs : List DiffLine) → new_side (rest_deleted i xs) ≡ []
unfolding new_side rest_deleted
new_side-rest_deleted i [] = refl
new_side-rest_deleted i (x ∷ xs) = new_side-rest_deleted (i + 1) xs

new_side-rest_added : (j : ℕ) (ys : List DiffLine) → new_side (rest_added j ys) ≡ number_lines j ys
unfolding new_side rest_added number_lines
new_side-rest_added j [] = refl
new_side-rest_added j (y ∷ ys) = ap (λ t. (j + 1, y) ∷ t) (new_side-rest_added (j + 1) ys)

old_side-walk :
    (l : List (List ℕ)) (xs ys : List DiffLine) (i j : ℕ)
    → old_side (walk l xs ys i j) ≡ number_sigs i xs
unfolding walk old_side number_sigs
old_side-walk l [] ys i j = old_side-rest_added j ys
old_side-walk l (x ∷ xs) [] i j = old_side-rest_deleted i (x ∷ xs)
old_side-walk l (x ∷ xs) (y ∷ ys) i j = ground (
  arith,
  text_eq_iff x.sig y.sig,
  old_side-walk l xs ys (i + 1) (j + 1),
  old_side-walk l xs (y ∷ ys) (i + 1) j,
  old_side-walk l (x ∷ xs) ys i (j + 1),
)

new_side-walk :
    (l : List (List ℕ)) (xs ys : List DiffLine) (i j : ℕ)
    → new_side (walk l xs ys i j) ≡ number_lines j ys
unfolding walk new_side number_lines
new_side-walk l [] ys i j = new_side-rest_added j ys
new_side-walk l (x ∷ xs) [] i j = new_side-rest_deleted i (x ∷ xs)
new_side-walk l (x ∷ xs) (y ∷ ys) i j = ground (
  arith,
  new_side-walk l xs ys (i + 1) (j + 1),
  new_side-walk l xs (y ∷ ys) (i + 1) j,
  new_side-walk l (x ∷ xs) ys i (j + 1),
)

-- What a row is called by the line numbers that it carries: with both it is equal, with the old one
-- alone deleted, with the new one alone added; a row without a number is not called right.
pub labelled : DiffRow → Bool
labelled r = elim r.a [
  | none ↦ elim r.b [ none ↦ false | some j ↦ elim r.t [ add ↦ true | del ↦ false | eq ↦ false ] ]
  | some i ↦ elim r.b [
    | none ↦ elim r.t [ add ↦ false | del ↦ true | eq ↦ false ]
    | some j ↦ elim r.t [ add ↦ false | del ↦ false | eq ↦ true ]
  ]
]

labelled-rest_deleted : (i : ℕ) (xs : List DiffLine) → all labelled (rest_deleted i xs) ≡ true
unfolding rest_deleted labelled
labelled-rest_deleted i [] = refl
labelled-rest_deleted i (x ∷ xs) = labelled-rest_deleted (i + 1) xs

labelled-rest_added : (j : ℕ) (ys : List DiffLine) → all labelled (rest_added j ys) ≡ true
unfolding rest_added labelled
labelled-rest_added j [] = refl
labelled-rest_added j (y ∷ ys) = labelled-rest_added (j + 1) ys

labelled-walk :
    (l : List (List ℕ)) (xs ys : List DiffLine) (i j : ℕ) → all labelled (walk l xs ys i j) ≡ true
unfolding walk labelled
labelled-walk l [] ys i j = labelled-rest_added j ys
labelled-walk l (x ∷ xs) [] i j = labelled-rest_deleted i (x ∷ xs)
labelled-walk l (x ∷ xs) (y ∷ ys) i j = ground (
  arith,
  labelled-walk l xs ys (i + 1) (j + 1),
  labelled-walk l xs (y ∷ ys) (i + 1) j,
  labelled-walk l (x ∷ xs) ys i (j + 1),
)

-- The rows that carry an old line number have the numbers 1, 2, … of the old version in order, each
-- with that line's content, and the rows that carry a new number have the lines of the new version
-- in order: nothing is lost, repeated or moved. A row is called equal exactly if it carries both
-- numbers, so its content is the same in both versions, deleted if it carries the old number alone,
-- and added if it carries the new one alone.
pub lcs_diff_sides :
    (xs ys : List DiffLine)
    → (old_side (lcs_diff xs ys) ≡ number_sigs 0 xs)
      × (new_side (lcs_diff xs ys) ≡ number_lines 0 ys)
      × (all labelled (lcs_diff xs ys) ≡ true)
unfolding lcs_diff
lcs_diff_sides xs ys =
    (old_side-walk _ xs ys 0 0, new_side-walk _ xs ys 0 0, labelled-walk _ xs ys 0 0)
