-- ===== src/Mounts/Page.antt =====
-- web/src/pages/dashboard/mounts/mounts.page.tsx: the list with its filters, the counters and what
-- the actions do to the state of the screen. `le` stands for `localeCompare`, `lower` for
-- `toLowerCase`. The animations are left out, but for the mount that leaves and the one that is new.
use tuck.Base.{
  ℕ, Text, List, [], ◌∷◌, ◌++◌, Bool, false, ◌&&◌, ◌||◌, Option, none, some, keep, length, is_empty,
  text_eq, has_text, trim, sort_by, ◌+◌, ◌-◌, if◌then◌else◌,
}
use tuck.Mounts.{MountEntry, Cat, cat_of, Filter, all_mounts, matches_filter}

pub record MountsPage : Type 0 where
  pub data_ : List MountEntry
  pub filter : Filter
  pub q : Text
  pub opened : Option Text
  pub creating : Bool
  pub tuning : Option MountEntry
  pub to_delete : Option MountEntry
  pub dying : Option Text
  pub fresh : Option Text

-- `all`
unfoldable pub all_sorted : (Text → Text → Bool) → MountsPage → List MountEntry
unfolding sort_by
all_sorted le p = sort_by (λ a b. le a.path b.path) p.data_

-- The text that the search reads.
unfoldable pub searched : MountEntry → Text
searched m = m.path ++ b' ' ∷ m.type ++ b' ' ∷ elim m.description [ none ↦ [] | some d ↦ d ]

-- The test of `list`.
unfoldable pub listed_test : (Text → Text) → MountsPage → MountEntry → Bool
unfolding matches_filter searched has_text trim
listed_test lower p m =
    matches_filter m p.filter
    && (is_empty (lower (trim p.q)) || has_text (lower (trim p.q)) (lower (searched m)))

-- `list`
unfoldable pub shown_list : (Text → Text → Bool) → (Text → Text) → MountsPage → List MountEntry
unfolding all_sorted listed_test
shown_list le lower p = keep (listed_test lower p) (all_sorted le p)

-- An entry of the counters by type.
pub record TypeCount : Type 0 where
  pub type : Text
  pub cat : Cat
  pub n : ℕ

-- One turn of the loop of `stats`: `by` with one more mount.
unfoldable pub count_mount : MountEntry → List TypeCount → List TypeCount
unfolding text_eq cat_of
count_mount m [] = record { type = m.type; cat = cat_of m; n = 1 } ∷ []
count_mount m (e ∷ by) =
    let rest = count_mount m by in
    if text_eq e.type m.type then record e { n = e.n + 1 } ∷ by else e ∷ rest

unfoldable pub count_types : List MountEntry → List TypeCount → List TypeCount
unfolding count_mount
count_types [] by = by
count_types (m ∷ ms) by = count_types ms (count_mount m by)

pub record MountCounts : Type 0 where
  pub builtin : ℕ
  pub custom : ℕ
  pub types : List TypeCount

-- `stats`
unfoldable pub mount_counts : List MountEntry → MountCounts
unfolding count_types
mount_counts ms = record {
  builtin = length (keep (λ m. m.builtin) ms);
  custom = length ms - length (keep (λ m. m.builtin) ms);
  types = count_types ms [];
}

-- `open === path`
unfoldable pub is_open : Text → MountsPage → Bool
unfolding text_eq
is_open path p = elim p.opened [ none ↦ false | some o ↦ text_eq o path ]

-- `confirmDelete` when the server has deleted the mount, up to the pause.
unfoldable pub unmounted : MountEntry → MountsPage → MountsPage
unfolding is_open
unmounted m p = record p {
  opened = if is_open m.path p then none else p.opened;
  dying = some m.path;
}

-- `confirmDelete` after the pause, with the mounts of the new answer.
unfoldable pub unit_dropped : List MountEntry → MountsPage → MountsPage
unit_dropped ms p = record p { data_ = ms; dying = none }

-- `onCreated`
unfoldable pub on_created : Text → MountsPage → MountsPage
on_created path p = record p { filter = all_mounts; q = []; opened = none; fresh = some path }

-- `toggle`
unfoldable pub toggle_unit : Text → MountsPage → MountsPage
unfolding is_open
toggle_unit path p = record p { opened = if is_open path p then none else some path }

-- The button that clears the search.
unfoldable pub reset_list : MountsPage → MountsPage
reset_list p = record p { q = []; filter = all_mounts }
