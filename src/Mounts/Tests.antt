-- ===== src/Mounts/Tests.antt =====
-- Runs of the wizard, the list and the form of the mounts (web/src/pages/dashboard/mounts).
use tuck.Base.{
  ◌≡◌, refl, Text, List, [], ◌∷◌, codes, Bool, true, false, none, some, map, text_eq, trim,
  print_nat, negsuc,
}
use tuck.Mounts.{MountEntry, cat_of, auth, only_secrets, path_re, type_re, norm_path}
use tuck.Mounts.Wizard.{CreateMount, mount, path_err_of, ok, no_err, can_next, type_of}
use tuck.Mounts.Wizard.Steps.{
  Action, opens, picks, types_type, types_path, goes_next, run, new_wizard,
}
use tuck.Mounts.Wizard.Sent.{well_formed, run-well_formed}
use tuck.Mounts.Wizard.Taken.{path_err-listed}
use tuck.Mounts.Tune.{MountConfig, tune_form, order_err, tune_body}
use tuck.Mounts.Page.{MountsPage, shown_list, mount_counts, toggle_unit}

abbrev entry : Text → Text → Bool → MountEntry
entry path type builtin = record {
  path = path;
  type = type;
  accessor = [];
  description = none;
  builtin = builtin;
}

abbrev some_mounts : List MountEntry
some_mounts =
    entry (codes "secret/") (codes "kv") true
    ∷ entry (codes "auth/jwt/") (codes "jwt") true
    ∷ entry (codes "team/kv/") (codes "kv") false
    ∷ []

abbrev filled : List Action
filled =
    opens
    ∷ picks (codes "custom")
    ∷ types_type (codes " pki ")
    ∷ goes_next
    ∷ types_path (codes " /team/pki/ ")
    ∷ goes_next
    ∷ []

abbrev request : CreateMount
request = record { path = codes "team/pki"; type = codes "pki"; description = none; config = none }

request_sent : (mount (run filled (new_wizard some_mounts))).0 ≡ some request
unfolding mount run new_wizard path_err_of norm_path path_re type_re can_next type_of
request_sent = refl

run-well_formed_example : well_formed request ≡ true
run-well_formed_example = run-well_formed some_mounts filled request request_sent

abbrev taken_path : Text
taken_path = codes "team/pki"

free_path : path_err_of some_mounts taken_path ≡ ok
unfolding path_err_of norm_path path_re
free_path = refl

path_err-listed_example :
    no_err (path_err_of (entry (codes "team/pki/") (codes "pki") false ∷ some_mounts) taken_path)
    ≡ false
unfolding text_eq
path_err-listed_example =
    path_err-listed some_mounts (entry (codes "team/pki/") (codes "pki") false ∷ some_mounts)
      taken_path free_path refl

-- A card fills the path with what it suggests, and another one replaces it.
suggested :
    (run (picks (codes "kv") ∷ picks (codes "jwt") ∷ []) (new_wizard [])).path
    ≡ codes "auth/jwt-sso"
unfolding run new_wizard
suggested = refl

auth_by_path : cat_of (entry (codes "auth/custom/") (codes "custom") false) ≡ auth
unfolding cat_of text_eq
auth_by_path = refl

abbrev page : MountsPage
page = record {
  data_ = some_mounts;
  filter = only_secrets;
  q = codes "team";
  opened = some (codes "team/kv/");
  creating = false;
  tuning = none;
  to_delete = none;
  dying = none;
  fresh = none;
}

found : map (λ m. m.path) (shown_list (λ s t. true) (λ s. s) page) ≡ (codes "team/kv/" ∷ [])
unfolding shown_list trim text_eq
found = refl

counted : map (λ c. c.n) (mount_counts some_mounts).types ≡ (2 ∷ 1 ∷ [])
unfolding mount_counts
counted = refl

closed : (toggle_unit (codes "team/kv/") page).opened ≡ none
unfolding toggle_unit
closed = refl

abbrev config : MountConfig
config = record {
  default_lease_ttl = some 7200000000000;
  max_lease_ttl = some 3600000000000;
  force_no_cache = none;
  max_versions = some (negsuc 0);
  cas_required = none;
}

bad_order : order_err (tune_form (codes "team/kv/") config) ≡ true
unfolding order_err tune_form
bad_order = refl

seconds : (tune_body (tune_form (codes "team/kv/") config)).default_lease_ttl ≡ codes "7200s"
unfolding tune_body tune_form print_nat
seconds = refl
