-- ===== src/Roles/Page.antt =====
-- web/src/pages/dashboard/token-roles/token-roles.page.tsx: filters, counters, selection and the
-- deletion of roles. `lower` stands for `toLowerCase`.
use tuck.Base.{
  ℕ, Text, List, [], ◌∷◌, ◌++◌, codes, Bool, true, false, not, ◌&&◌, ◌||◌, Option, none, some, keep,
  length, is_empty, text_eq, includes, has_text, join, trim, ltb, all, if◌then◌else◌,
}
use tuck.Ids.{add_all, delete_all}
use tuck.Roles.{RoleView, RoleRow}
use tuck.Roles.Drawer.{DrawerMode}

-- `Filter`
pub data RoleFilter : Type 0 where
  every renew period limited : RoleFilter

pub record RolesPage : Type 0 where
  pub rows : List RoleRow
  pub q : Text
  pub filter : RoleFilter
  pub selected : List Text
  pub drawer_open : Bool
  pub drawer_mode : DrawerMode
  pub drawer_role : Option RoleView
  pub del_open : Bool
  pub del_names : List Text

-- `loaded`
unfoldable pub loaded : List RoleRow → List RoleView
loaded [] = []
loaded (r ∷ rows) = elim r.role [ none ↦ loaded rows | some v ↦ v ∷ loaded rows ]

pub record RoleCounts : Type 0 where
  pub limited : ℕ
  pub period : ℕ
  pub renew : ℕ
  pub total : ℕ

-- `stats`, without the mean of the lifetimes.
unfoldable pub role_counts : List RoleRow → RoleCounts
unfolding loaded
role_counts rows = record {
  limited = length (keep (λ r. ltb 0 r.max_uses) (loaded rows));
  period = length (keep (λ r. ltb 0 r.period) (loaded rows));
  renew = length (keep (λ r. r.renewable) (loaded rows));
  total = length rows;
}

-- What the filter asks of a role that is loaded.
unfoldable pub fits_role : RoleFilter → RoleView → Bool
fits_role every v = true
fits_role renew v = v.renewable
fits_role period v = ltb 0 v.period
fits_role limited v = ltb 0 v.max_uses

unfoldable pub is_every : RoleFilter → Bool
is_every every = true
is_every f = false

unfoldable pub fits_filter : RoleFilter → Option RoleView → Bool
unfolding is_every fits_role
fits_filter f none = is_every f
fits_filter f (some v) = fits_role f v

-- The text that the search reads.
unfoldable pub role_text : RoleRow → Text
unfolding join
role_text r = r.name ++ b' ' ∷ elim r.role [ none ↦ [] | some v ↦ join (codes " ") v.policies ]

-- The test of `visible`.
unfoldable pub visible_role : (Text → Text) → RolesPage → RoleRow → Bool
unfolding fits_filter role_text has_text trim
visible_role lower p r =
    fits_filter p.filter r.role
    && (is_empty (lower (trim p.q)) || has_text (lower (trim p.q)) (lower (role_text r)))

-- `visible`
unfoldable pub visible : (Text → Text) → RolesPage → List RoleRow
unfolding visible_role
visible lower p = keep (visible_role lower p) p.rows

unfoldable pub row_names : List RoleRow → List Text
row_names [] = []
row_names (r ∷ rows) = r.name ∷ row_names rows

-- The effect on `list.data`.
unfoldable pub forget_gone : List Text → RolesPage → RolesPage
unfolding text_eq
forget_gone listed p = record p { selected = keep (includes listed) p.selected }

-- `openDrawer`
unfoldable pub open_drawer_of : DrawerMode → Option RoleView → RolesPage → RolesPage
open_drawer_of mode role p = record p { drawer_mode = mode; drawer_role = role; drawer_open = true }

-- `askDelete`
unfoldable pub ask_delete : List Text → RolesPage → RolesPage
ask_delete names p = record p { del_names = names; del_open = true }

-- `toggle`
unfoldable pub toggle_role : Text → Bool → RolesPage → RolesPage
unfolding add_all delete_all
toggle_role name on p = record p {
  selected = if on then add_all (name ∷ []) p.selected else delete_all (name ∷ []) p.selected;
}

-- `allVisibleSelected`
unfoldable pub all_visible_selected : (Text → Text) → RolesPage → Bool
unfolding visible row_names text_eq
all_visible_selected lower p =
    not (is_empty (visible lower p)) && all (includes p.selected) (row_names (visible lower p))

-- `toggleAll`
unfoldable pub toggle_visible : (Text → Text) → Bool → RolesPage → RolesPage
unfolding visible row_names add_all delete_all
toggle_visible lower on p = record p {
  selected =
      if on
      then add_all (row_names (visible lower p)) p.selected
      else delete_all (row_names (visible lower p)) p.selected;
}

-- The names whose deletion the server has granted.
unfoldable pub granted : List (Text × Bool) → List Text
granted [] = []
granted ((n, ok) ∷ results) = let rest = granted results in if ok then n ∷ rest else rest

-- `doDelete` from the answers on: the selection, and whether it throws.
unfoldable pub do_delete : List (Text × Bool) → RolesPage → RolesPage × Bool
unfolding granted delete_all
do_delete results p = (
  record p { selected = delete_all (granted results) p.selected },
  not (is_empty results) && is_empty (granted results),
)
