-- ===== src/Kv2/Diff/Table.antt =====
-- The table of `lcsDiff` of web/src/pages/dashboard/kv2/utils.ts holds the lengths of the longest
-- common subsequences, and the diff of plain lines keeps as many lines as there can be.
use tuck.Base.{
  length, ◌⊎◌, inl, inr, ℕ, zero, suc, ◌+◌, ◌≤◌, max, Text, List, [], ◌∷◌, ◌≡◌, refl, ap, true,
  false, Option, none, some, arith, text_eq_iff, All, get_elem?, drop, drop-add_one,
}
use tuck.Kv2.Diff.{
  DiffLine, DiffRow, eq, same_sig, same_key, cell, walk, lcs_diff, rest_deleted, rest_added,
  fill_row, fill_table, first, first_row, zeros,
}

-- The length of a longest common subsequence, by its recursion.
pub lcs : List DiffLine → List DiffLine → ℕ
lcs [] ys = 0
lcs (x ∷ xs) [] = 0
lcs (x ∷ xs) (y ∷ ys) = elim (same_sig x y) [
  | true ↦ suc (lcs xs ys)
  | false ↦ max (lcs xs (y ∷ ys)) (lcs (x ∷ xs) ys)
]

-- The row of the table for the old lines `xs`.
lcs_row : List DiffLine → List DiffLine → List ℕ
lcs_row xs [] = lcs xs [] ∷ []
lcs_row xs (y ∷ ys) = lcs xs (y ∷ ys) ∷ lcs_row xs ys

first-lcs_row : (xs ys : List DiffLine) → first (lcs_row xs ys) ≡ lcs xs ys
unfolding first lcs_row
first-lcs_row xs [] = refl
first-lcs_row xs (y ∷ ys) = refl

zeros-lcs_row : (ys : List DiffLine) → zeros ys ≡ lcs_row [] ys
unfolding zeros lcs_row lcs
zeros-lcs_row [] = refl
zeros-lcs_row (y ∷ ys) = ap (λ r. 0 ∷ r) (zeros-lcs_row ys)

fill_row-lcs_row :
    (x : DiffLine) (xs ys : List DiffLine) → fill_row x ys (lcs_row xs ys) ≡ lcs_row (x ∷ xs) ys
unfolding lcs_row lcs fill_row
fill_row-lcs_row x xs [] = refl
fill_row-lcs_row x xs (y ∷ ys) =
    ground (arith, fill_row-lcs_row x xs ys, first-lcs_row xs ys, first-lcs_row (x ∷ xs) ys)

first_row-fill_table : (xs ys : List DiffLine) → first_row (fill_table xs ys) ≡ lcs_row xs ys
unfolding fill_table
first_row-fill_table [] ys = zeros-lcs_row ys
first_row-fill_table (x ∷ xs) ys = rw (first_row-fill_table xs ys) (fill_row-lcs_row x xs ys)

-- A number of the row, 0 beyond its end.
at : List ℕ → ℕ → ℕ
at row j = elim (get_elem? row j) [ none ↦ 0 | some v ↦ v ]

lcs-nil : (xs : List DiffLine) → lcs xs [] ≡ 0
unfolding lcs
lcs-nil [] = refl
lcs-nil (x ∷ xs) = refl

at-lcs_row : (xs ys : List DiffLine) (j : ℕ) → at (lcs_row xs ys) j ≡ lcs xs (drop j ys)
unfolding at lcs_row
at-lcs_row xs [] zero = refl
at-lcs_row xs [] (suc j) = rw (lcs-nil xs)
at-lcs_row xs (y ∷ ys) zero = refl
at-lcs_row xs (y ∷ ys) (suc j) = at-lcs_row xs ys j

-- `L[i][j]` is the length for the lines from `i` and from `j` on.
pub cell-fill_table :
    (xs ys : List DiffLine) (i j : ℕ) → cell (fill_table xs ys) i j ≡ lcs (drop i xs) (drop j ys)
unfolding cell fill_table at
cell-fill_table [] ys zero j = rw (zeros-lcs_row ys) (at-lcs_row [] ys j)
cell-fill_table [] ys (suc i) j = unfold lcs in refl
cell-fill_table (x ∷ xs) ys zero j =
    rw (first_row-fill_table xs ys, fill_row-lcs_row x xs ys) (at-lcs_row (x ∷ xs) ys j)
cell-fill_table (x ∷ xs) ys (suc i) j = cell-fill_table xs ys i j

-- How many rows are unchanged lines.
pub kept : List DiffRow → ℕ
kept [] = 0
kept (r ∷ rows) = elim r.t [ eq ↦ suc (kept rows) | _ ↦ kept rows ]

kept-rest_added : (j : ℕ) (ys : List DiffLine) → kept (rest_added j ys) ≡ 0
unfolding kept rest_added
kept-rest_added j [] = refl
kept-rest_added j (y ∷ ys) = kept-rest_added (j + 1) ys

kept-rest_deleted : (i : ℕ) (xs : List DiffLine) → kept (rest_deleted i xs) ≡ 0
unfolding kept rest_deleted
kept-rest_deleted i [] = refl
kept-rest_deleted i (x ∷ xs) = kept-rest_deleted (i + 1) xs

-- Lines of plain text have no key.
abbrev pub IsPlain : DiffLine → Type 0
IsPlain x = x.key ≡ none

unkeyed : (k m : Option Text) → k ≡ none → same_key k m ≡ false
unfolding same_key
unkeyed none m h = refl
unkeyed (some k) m h = cc

module _ (old new : List DiffLine) where
  cell_at :
      (i j : ℕ) (xs ys : List DiffLine)
      → drop i old ≡ xs
      → drop j new ≡ ys
      → cell (fill_table old new) i j ≡ lcs xs ys
  cell_at i j xs ys e f = rw (← e, ← f) (cell-fill_table old new i j)

  kept-walk :
      (xs ys : List DiffLine) (i j : ℕ)
      → All IsPlain xs
      → drop i old ≡ xs
      → drop j new ≡ ys
      → kept (walk (fill_table old new) xs ys i j) ≡ lcs xs ys
  unfolding walk kept lcs
  kept-walk [] ys i j p e f = kept-rest_added j ys
  kept-walk (x ∷ xs) [] i j p e f = kept-rest_deleted i (x ∷ xs)
  kept-walk (x ∷ xs) (y ∷ ys) i j p e f =
      let e' = drop-add_one i old e in
      let f' = drop-add_one j new f in
      ground (
        arith,
        unkeyed x.key y.key p.0,
        cell_at (i + 1) j xs (y ∷ ys) e' f,
        cell_at i (j + 1) (x ∷ xs) ys e f',
        kept-walk xs ys (i + 1) (j + 1) p.1 e' f',
        kept-walk xs (y ∷ ys) (i + 1) j p.1 e' f,
        kept-walk (x ∷ xs) ys i (j + 1) p e f',
      )

-- The texts stand among the lines' contents, in the same order.
abbrev pub IsSublist : List Text → List DiffLine → Type 0
IsSublist [] xs = Unit
IsSublist (z ∷ zs) [] = ⊥
IsSublist (z ∷ zs) (x ∷ xs) = ((z ≡ x.sig) × IsSublist zs xs) ⊎ IsSublist (z ∷ zs) xs

IsSublist-tail :
    (z : Text) (zs : List Text) (xs : List DiffLine) → IsSublist (z ∷ zs) xs → IsSublist zs xs
IsSublist-tail z [] xs h = tt
IsSublist-tail z (w ∷ zs) [] h = h
IsSublist-tail z (w ∷ zs) (x ∷ xs) (inl h) = inr h.1
IsSublist-tail z (w ∷ zs) (x ∷ xs) (inr h) = inr (IsSublist-tail z (w ∷ zs) xs h)

-- Behind the first line of a list, all but the first text is left.
IsSublist-rest :
    (z : Text) (zs : List Text) (x : DiffLine) (xs : List DiffLine)
    → IsSublist (z ∷ zs) (x ∷ xs)
    → IsSublist zs xs
IsSublist-rest z zs x xs (inl h) = h.1
IsSublist-rest z zs x xs (inr h) = IsSublist-tail z zs xs h

lcs_longest :
    (zs : List Text) (xs ys : List DiffLine)
    → IsSublist zs xs
    → IsSublist zs ys
    → length zs ≤ lcs xs ys
unfolding lcs
lcs_longest [] xs ys p q = omega arith
lcs_longest (z ∷ zs) [] ys p q = absurd p
lcs_longest (z ∷ zs) (x ∷ xs) [] p q = absurd q
lcs_longest (z ∷ zs) (x ∷ xs) (y ∷ ys) p q = ground (
  arith,
  text_eq_iff x.sig y.sig,
  lcs_longest zs xs ys (IsSublist-rest z zs x xs p) (IsSublist-rest z zs y ys q),
  lcs_longest (z ∷ zs) xs (y ∷ ys),
  lcs_longest (z ∷ zs) (x ∷ xs) ys,
)

-- For versions that are plain text the diff is as short as it can be: no common subsequence of the
-- two versions is longer than the lines that it shows as unchanged.
pub lcs_diff_longest :
    (xs ys : List DiffLine) (zs : List Text)
    → All IsPlain xs
    → IsSublist zs xs
    → IsSublist zs ys
    → length zs ≤ kept (lcs_diff xs ys)
unfolding lcs_diff
lcs_diff_longest xs ys zs h p q =
    omega (arith, kept-walk xs ys xs ys 0 0 h refl refl, lcs_longest zs xs ys p q)
