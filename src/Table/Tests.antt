-- ===== src/Table/Tests.antt =====
-- Runs of the table of web/src/shared/ui/kit/data-table/data-table.tsx on small tables.
use tuck.Base.{
  ◌≡◌, refl, Text, List, [], ◌∷◌, codes, Bool, true, false, none, some, text_eq, includes,
}
use tuck.Table.{
  SortDir, asc, desc, number, SortState, sorted, toggle_sort, shown_dir, toggle_row,
  toggle_all_rows, all_rows_checked, some_checked,
}
use tuck.Table.Selection.{toggle_all_rows-page}

abbrev page : List Text
page = codes "a" ∷ codes "b" ∷ []

abbrev one_selected : List Text
one_selected = codes "b" ∷ codes "z" ∷ []

-- A table of numbers, whose only column is `n`.
abbrev by_n : SortDir → SortState
by_n d = record { key = codes "n"; dir = d }

abbrev any_order : Text → Text → Bool
any_order s t = true

sorted_up :
    sorted any_order (λ k c. c) (by_n asc) (number 10 ∷ number 9 ∷ number 2 ∷ [])
    ≡ (number 2 ∷ number 9 ∷ number 10 ∷ [])
unfolding sorted
sorted_up = refl

sorted_down :
    sorted any_order (λ k c. c) (by_n desc) (number 9 ∷ number 10 ∷ [])
    ≡ (number 10 ∷ number 9 ∷ [])
unfolding sorted
sorted_down = refl

sort_again : shown_dir (codes "n") (toggle_sort (codes "n") (by_n asc)) ≡ some desc
unfolding shown_dir toggle_sort text_eq
sort_again = refl

sort_other : shown_dir (codes "n") (toggle_sort (codes "m") (by_n asc)) ≡ none
unfolding shown_dir toggle_sort text_eq
sort_other = refl

row_off : toggle_row (codes "b") one_selected ≡ (codes "z" ∷ [])
unfolding toggle_row text_eq
row_off = refl

some_of_page : some_checked page one_selected ≡ true
unfolding some_checked text_eq
some_of_page = refl

page_selected : toggle_all_rows page one_selected ≡ (codes "b" ∷ codes "z" ∷ codes "a" ∷ [])
unfolding toggle_all_rows text_eq
page_selected = refl

toggle_all_rows-page_example :
    (all_rows_checked page one_selected ≡ false
      → all_rows_checked page (toggle_all_rows page one_selected) ≡ true)
    × (all_rows_checked page one_selected ≡ true
        → (id : Text) → includes page id ≡ true
        → includes (toggle_all_rows page one_selected) id ≡ false)
    × ((id : Text)
        → includes page id ≡ false
        → includes (toggle_all_rows page one_selected) id ≡ includes one_selected id)
toggle_all_rows-page_example = toggle_all_rows-page page one_selected refl
