-- ===== src/Table.antt =====
-- The table of the kit, web/src/shared/ui/kit/data-table/data-table.tsx: `useSort` and
-- `useRowSelection`.
pub mod Selection
mod Tests
use tuck.Base.{
  ℕ, Text, List, [], ◌∷◌, ◌++◌, codes, Bool, true, false, not, ◌&&◌, ◌||◌, Option, none, some, keep,
  length, all, is_empty, text_eq, includes, sort_by, leb, ltb, ◌==◌, if◌then◌else◌, print_nat,
}
use tuck.Ids.{add_all, delete_all}

pub data SortDir : Type 0 where
  asc desc : SortDir

-- What an accessor gives: a number or a string.
pub data Cell : Type 0 where
  number : ℕ → Cell
  string : Text → Cell

unfoldable pub cell_text : Cell → Text
unfolding print_nat
cell_text (number n) = print_nat n
cell_text (string s) = s

-- `cmp <= 0`; `le` stands for `localeCompare`.
unfoldable pub cell_le : (Text → Text → Bool) → Cell → Cell → Bool
unfolding cell_text
cell_le le (number x) (number y) = leb x y
cell_le le x y = le (cell_text x) (cell_text y)

-- `(dir === 'asc' ? cmp : -cmp) <= 0`
unfoldable pub in_order : (Text → Text → Bool) → SortDir → Cell → Cell → Bool
unfolding cell_le
in_order le asc x y = cell_le le x y
in_order le desc x y = cell_le le y x

pub record SortState : Type 0 where
  pub key : Text
  pub dir : SortDir

-- `sorted`: `get` reads a row under a key, by an accessor or by the field of that name.
unfoldable pub sorted {ℓ} :
    {T : Type ℓ} → (Text → Text → Bool) → (Text → T → Cell) → SortState → List T → List T
unfolding sort_by in_order
sorted le get st rows = sort_by (λ a b. in_order le st.dir (get st.key a) (get st.key b)) rows

unfoldable pub flip_dir : SortDir → SortDir
flip_dir asc = desc
flip_dir desc = asc

-- `toggle` of `useSort`.
unfoldable pub toggle_sort : Text → SortState → SortState
unfolding text_eq flip_dir
toggle_sort k st =
    if text_eq k st.key then record st { dir = flip_dir st.dir } else record { key = k; dir = asc }

-- `sortProps(k).dir`
unfoldable pub shown_dir : Text → SortState → Option SortDir
unfolding text_eq
shown_dir k st = if text_eq k st.key then some st.dir else none

-- `toggle` of `useRowSelection`.
unfoldable pub toggle_row : Text → List Text → List Text
unfolding delete_all
toggle_row id selected =
    if includes selected id then delete_all (id ∷ []) selected else selected ++ id ∷ []

-- `onPage`
unfoldable pub on_page : List Text → List Text → ℕ
on_page page selected = length (keep (includes selected) page)

-- `every` of `toggleAll`.
unfoldable pub every_selected : List Text → List Text → Bool
every_selected page selected = not (is_empty page) && all (includes selected) page

unfoldable pub toggle_all_rows : List Text → List Text → List Text
unfolding every_selected add_all delete_all
toggle_all_rows page selected =
    if every_selected page selected then delete_all page selected else add_all page selected

unfoldable pub all_rows_checked : List Text → List Text → Bool
unfolding on_page
all_rows_checked page selected = not (is_empty page) && on_page page selected == length page

unfoldable pub some_checked : List Text → List Text → Bool
unfolding on_page
some_checked page selected =
    ltb 0 (on_page page selected) && ltb (on_page page selected) (length page)
