-- ===== src/Kv2/Diff.antt =====
-- `lcsDiff` of web/src/pages/dashboard/kv2/utils.ts: the line diff of two versions of a secret. The
-- table is a list of rows, filled from its last cell; the loop over `i` and `j` carries the lines
-- that are left on both sides, and reads the table by index.
pub mod Sides
pub mod Table
use tuck.Base.{
  ℕ, suc, ◌+◌, max, Text, List, [], ◌∷◌, ◌++◌, Bool, true, false, Option, none, some, length,
  text_eq, leb, get_elem?, if◌then◌else◌,
}

pub record DiffLine : Type 0 where
  pub key : Option Text
  pub sig : Text
  pub txt : Text

pub data RowKind : Type 0 where
  add del eq : RowKind

pub record DiffRow : Type 0 where
  pub a : Option ℕ
  pub b : Option ℕ
  pub line : DiffLine
  pub t : RowKind

-- `A[i].sig === B[j].sig`
abbrev pub same_sig : DiffLine → DiffLine → Bool
same_sig x y = text_eq x.sig y.sig

-- `A[i].key !== undefined && A[i].key === B[j].key`
unfoldable pub same_key : Option Text → Option Text → Bool
same_key none k = false
same_key (some x) none = false
same_key (some x) (some y) = text_eq x y

-- The cell at the head of a row, 0 beyond its end.
unfoldable pub first : List ℕ → ℕ
first [] = 0
first (x ∷ xs) = x

-- The inner loop over `j`: row `i` from row `i + 1`.
unfoldable pub fill_row : DiffLine → List DiffLine → List ℕ → List ℕ
unfolding first
fill_row x [] below = 0 ∷ []
fill_row x (y ∷ ys) [] = 0 ∷ []
fill_row x (y ∷ ys) (d ∷ below) =
    let rest = fill_row x ys below in
    (if same_sig x y then suc (first below) else max d (first rest)) ∷ rest

-- `new Array<number>(m + 1).fill(0)`
unfoldable pub zeros : List DiffLine → List ℕ
zeros [] = 0 ∷ []
zeros (y ∷ ys) = 0 ∷ zeros ys

unfoldable pub first_row : List (List ℕ) → List ℕ
first_row [] = []
first_row (r ∷ rs) = r

-- The outer loop over `i`.
unfoldable pub fill_table : List DiffLine → List DiffLine → List (List ℕ)
unfolding fill_row zeros first_row
fill_table [] ys = zeros ys ∷ []
fill_table (x ∷ xs) ys = let rest = fill_table xs ys in fill_row x ys (first_row rest) ∷ rest

-- `L[i][j]`
unfoldable pub cell : List (List ℕ) → ℕ → ℕ → ℕ
cell l i j = elim (get_elem? l i) [
  | none ↦ 0
  | some row ↦ elim (get_elem? row j) [ none ↦ 0 | some v ↦ v ]
]

abbrev pub eq_row : ℕ → ℕ → DiffLine → DiffRow
eq_row i j l = record { a = some (i + 1); b = some (j + 1); line = l; t = eq }

abbrev pub del_row : ℕ → DiffLine → DiffRow
del_row i l = record { a = some (i + 1); b = none; line = l; t = del }

abbrev pub add_row : ℕ → DiffLine → DiffRow
add_row j l = record { a = none; b = some (j + 1); line = l; t = add }

-- `while (i < n)` and `while (j < m)`, behind the main loop.
unfoldable pub rest_deleted : ℕ → List DiffLine → List DiffRow
rest_deleted i [] = []
rest_deleted i (x ∷ xs) = del_row i x ∷ rest_deleted (i + 1) xs

unfoldable pub rest_added : ℕ → List DiffLine → List DiffRow
rest_added j [] = []
rest_added j (y ∷ ys) = add_row j y ∷ rest_added (j + 1) ys

-- The main loop, from line `i` of the old version and line `j` of the new.
unfoldable pub walk : List (List ℕ) → List DiffLine → List DiffLine → ℕ → ℕ → List DiffRow
unfolding rest_deleted rest_added same_key cell
walk l [] ys i j = rest_added j ys
walk l (x ∷ xs) [] i j = rest_deleted i (x ∷ xs)
walk l (x ∷ xs) (y ∷ ys) i j = elim (same_sig x y) [
  | true ↦ eq_row i j y ∷ walk l xs ys (i + 1) (j + 1)
  | false ↦ elim (same_key x.key y.key) [
    | true ↦ del_row i x ∷ add_row j y ∷ walk l xs ys (i + 1) (j + 1)
    | false ↦ elim (leb (cell l i (j + 1)) (cell l (i + 1) j)) [
      | true ↦ del_row i x ∷ walk l xs (y ∷ ys) (i + 1) j
      | false ↦ add_row j y ∷ walk l (x ∷ xs) ys i (j + 1)
    ]
  ]
]

unfoldable pub lcs_diff : List DiffLine → List DiffLine → List DiffRow
unfolding fill_table walk
lcs_diff xs ys = walk (fill_table xs ys) xs ys 0 0
