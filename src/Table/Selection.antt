-- ===== src/Table/Selection.antt =====
-- What `toggleAll` of web/src/shared/ui/kit/data-table/data-table.tsx selects.
use tuck.Base.{
  ◌≡◌, ◌≤◌, refl, sym, ◌∙◌, Text, List, [], ◌∷◌, true, false, keep, length, all, is_empty,
  text_eq_refl, includes, ◌==◌, Bool-cases, inl, inr, arith,
}
use tuck.Ids.{add_all, delete_all, includes-add_all, includes-delete_all}
use tuck.Table.{on_page, every_selected, toggle_all_rows, all_rows_checked}

-- `onPage` counts the whole page if and only if every row of it is selected.
keep-le : (selected page : List Text) → length (keep (includes selected) page) ≤ length page
keep-le selected [] = omega arith
keep-le selected (id ∷ page) = elim (Bool-cases (includes selected id)) [
  | inl e ↦ rw e (omega (arith, keep-le selected page))
  | inr e ↦ rw e (omega (arith, keep-le selected page))
]

keep-all :
    (selected page : List Text)
    → (length (keep (includes selected) page) == length page) ≡ all (includes selected) page
keep-all selected [] = refl
keep-all selected (id ∷ page) = elim (Bool-cases (includes selected id)) [
  | inl e ↦ rw e (ground (arith, keep-all selected page))
  | inr e ↦ rw e (ground (arith, keep-le selected page))
]

all_rows_checked-every :
    (page selected : List Text) → all_rows_checked page selected ≡ every_selected page selected
unfolding all_rows_checked every_selected on_page
all_rows_checked-every page selected = rw (keep-all selected page) refl

all-added :
    (ts page selected : List Text)
    → ((id : Text) → includes ts id ≡ true → includes page id ≡ true)
    → all (includes (add_all page selected)) ts ≡ true
all-added [] page selected h = refl
all-added (t ∷ ts) page selected h =
    let here : includes (t ∷ ts) t ≡ true = rw (text_eq_refl t) refl in
    let found : includes (add_all page selected) t ≡ true =
      rw (includes-add_all page selected t, h t here) refl in
    rw (found, all-added ts page selected (λ id e. h id (ground (arith, e)))) refl

toggle_all-on :
    (page selected : List Text)
    → every_selected page selected ≡ false
    → toggle_all_rows page selected ≡ add_all page selected
unfolding toggle_all_rows
toggle_all-on page selected e = rw e refl

toggle_all-off :
    (page selected : List Text)
    → every_selected page selected ≡ true
    → toggle_all_rows page selected ≡ delete_all page selected
unfolding toggle_all_rows
toggle_all-off page selected e = rw e refl

every-given :
    (page selected : List Text)
    → is_empty page ≡ false
    → all (includes selected) page ≡ true
    → every_selected page selected ≡ true
unfolding every_selected
every-given page selected h k = rw (h, k) refl

-- The box in the header turns a page that is wholly selected into one of which no row is, and any
-- other into one that is wholly selected and is shown so; rows of other pages stay as they are.
pub toggle_all_rows-page :
    (page selected : List Text)
    → is_empty page ≡ false
    → (all_rows_checked page selected ≡ false
        → all_rows_checked page (toggle_all_rows page selected) ≡ true)
      × (all_rows_checked page selected ≡ true
          → (id : Text) → includes page id ≡ true
          → includes (toggle_all_rows page selected) id ≡ false)
      × ((id : Text)
          → includes page id ≡ false
          → includes (toggle_all_rows page selected) id ≡ includes selected id)
toggle_all_rows-page page selected h =
    let same = all_rows_checked-every page selected in
    (
      λ e. rw (toggle_all-on page selected (sym same ∙ e)) (
          all_rows_checked-every page (add_all page selected)
          ∙ every-given page (add_all page selected) h (all-added page page selected (λ id k. k))),
      λ e id k.
          rw (toggle_all-off page selected (sym same ∙ e))
            (ground (arith, k, includes-delete_all page selected id)),
      λ id k. elim (Bool-cases (every_selected page selected)) [
        | inl e ↦
            rw (toggle_all-off page selected e)
              (ground (arith, k, includes-delete_all page selected id))
        | inr e ↦
            rw (toggle_all-on page selected e)
              (ground (arith, k, includes-add_all page selected id))
      ],
    )
