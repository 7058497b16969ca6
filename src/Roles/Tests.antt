-- ===== src/Roles/Tests.antt =====
-- Runs of the drawer and the page of the roles (web/src/pages/dashboard/token-roles).
use tuck.Base.{◌≡◌, refl, [], ◌∷◌, codes, true, false, none, some, text_eq, trim}
use tuck.Roles.{RoleView, TokenRole, name_re, policy_re, to_view, row_of, fetched}
use tuck.Roles.Drawer.{
  edit, dup, new, RoleDrawer, empty_form, open_drawer, save, request_close, err_count,
}
use tuck.Durations.Go.{seconds_sent}
use tuck.Roles.Saved.{uses_sent, well_set, put_of, save-put_of}
use tuck.Roles.Tags.{commit, backspace}
use tuck.Roles.Page.{RolesPage, period, visible, row_names, role_counts, do_delete}

abbrev role : RoleView
role = record {
  name = codes "payments";
  max_ttl = 86400;
  max_uses = 5;
  period = 0;
  policies = codes "ops" ∷ [];
  renewable = true;
  ttl = 5400;
}

abbrev drawer : RoleDrawer
drawer = record {
  mode = new;
  existing = codes "payments" ∷ [];
  opened = false;
  form = empty_form;
  snap = none;
  touched = [];
  attempted = false;
  armed = false;
  pending = false;
}

role_well_set : well_set role ≡ true
unfolding well_set trim name_re policy_re
role_well_set = refl

save-put_of_example :
    ((save (open_drawer edit (some role) drawer)).0 ≡ some (trim role.name, put_of role))
    × ((put_of role).policies ≡ role.policies)
    × ((put_of role).renewable ≡ role.renewable)
    × (seconds_sent (put_of role).ttl ≡ some role.ttl)
    × (seconds_sent (put_of role).max_ttl ≡ some role.max_ttl)
    × (seconds_sent (put_of role).period ≡ some role.period)
    × (uses_sent (put_of role).max_uses ≡ role.max_uses)
save-put_of_example = save-put_of role drawer role_well_set

-- A copy has unsaved changes from the start, so the first click does not close it.
copy_stays : (request_close (open_drawer dup (some role) drawer)).opened ≡ true
unfolding request_close open_drawer
copy_stays = refl

new_closes : (request_close (open_drawer new none drawer)).opened ≡ false
unfolding request_close open_drawer text_eq
new_closes = refl

-- An empty form lacks a name and a policy.
two_errors : err_count (open_drawer new none drawer) ≡ 2
unfolding err_count open_drawer
two_errors = refl

chips_committed :
    (commit (codes " ops, dev,,ops") (record { value = codes "dev" ∷ []; draft = [] })).value
    ≡ (codes "dev" ∷ codes "ops" ∷ [])
unfolding commit text_eq
chips_committed = refl

last_chip_gone :
    (backspace (record { value = codes "a" ∷ codes "b" ∷ []; draft = [] })).value ≡ (codes "a" ∷ [])
unfolding backspace
last_chip_gone = refl

abbrev token_role : TokenRole
token_role = record {
  policies = none;
  ttl = 1499999999;
  max_ttl = 1500000000;
  max_uses = none;
  renewable = none;
  period = some 60000000000;
}

seconds_rounded : (to_view (codes "a") token_role).ttl ≡ 1
unfolding to_view
seconds_rounded = refl

abbrev page : RolesPage
page = record {
  rows =
      row_of (codes "a") (fetched token_role)
      ∷ record { failed = false; loading = false; name = codes "payments"; role = some role }
      ∷ [];
  q = [];
  filter = period;
  selected = codes "a" ∷ codes "payments" ∷ [];
  drawer_open = false;
  drawer_mode = new;
  drawer_role = none;
  del_open = false;
  del_names = [];
}

periodic_shown : row_names (visible (λ s. s) page) ≡ (codes "a" ∷ [])
unfolding visible row_names row_of
periodic_shown = refl

one_renews : (role_counts page.rows).renew ≡ 1
unfolding role_counts row_of
one_renews = refl

refused_stays :
    (do_delete ((codes "a", true) ∷ (codes "payments", false) ∷ []) page).0.selected
    ≡ (codes "payments" ∷ [])
unfolding do_delete text_eq
refused_stays = refl
