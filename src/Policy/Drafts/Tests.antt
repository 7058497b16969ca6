-- ===== src/Policy/Drafts/Tests.antt =====
-- Drafts, rows and the scan of the tokens.
use tuck.Base.{
  includes, if◌then◌else◌, List, ◌≡◌, refl, Text, [], ◌∷◌, codes, true, false, Option, none, some,
  text_eq, count_char, has_text, has_char, ends_with,
}
use tuck.Policy.Parse.{parse_policy}
use tuck.Policy.Parse.Whole.{numbered}
use tuck.Policy.Editor.{ro}
use tuck.Policy.Drafts.{
  Policy, PoliciesPage, not_saved, put, save, saved, listed, current, is_dirty, patch_draft,
  reset_draft, create_draft, from, rows, totals, selected, new_name_error, err_reserved, err_format,
  err_exists, TokenInfo, token_usage, removed,
}
use tuck.Policy.Drafts.Saved.{draft_of, saved-current}

abbrev stored : Policy
stored = record {
  inheritable = false;
  name = codes "ops";
  rules = record { path = codes "a"; capabilities = codes "read" ∷ [] } ∷ [];
}

abbrev page : PoliciesPage
page = record {
  server_names = codes "ops" ∷ codes "dev" ∷ [];
  details = (codes "ops", record { policy = some stored; is_error = false }) ∷ [];
  new_drafts = [];
  drafts = [];
  selected_raw = some (codes "gone");
  creating = none;
  deleting = none;
}

abbrev edited : PoliciesPage
edited =
    patch_draft (codes "ops")
      (λ d. record d { text = codes " path \"b\" {capabilities=[\"list\",\"read\"]}" }) page

draft_tests :
    (selected page ≡ some (codes "ops"))
    × (is_dirty (codes "ops") page ≡ false)
    × (is_dirty (codes "ops") edited ≡ true)
    × (is_dirty (codes "ops") (reset_draft (codes "ops") edited) ≡ false)
    × (save (codes "ops") (patch_draft (codes "ops") (λ d. record d { text = codes "x" }) page)
        ≡ not_saved 1)
    × ((create_draft true (codes "new") (from ro) page).selected_raw ≡ some (codes "new"))
    × (totals (rows page) ≡ (1, 0))
    × ((removed true (codes "ops") edited).drafts ≡ [])
    × (new_name_error [] (codes "root") ≡ some err_reserved)
    × (new_name_error [] (codes "Root") ≡ some err_format)
    × (new_name_error (codes "a" ∷ []) (codes "a") ≡ some err_exists)
unfolding selected is_dirty patch_draft reset_draft save create_draft totals rows removed
    new_name_error text_eq count_char
draft_tests = (refl, refl, refl, refl, refl, refl, refl, refl, refl, refl, refl)

abbrev token : Text → Option TokenInfo
token [] = none
token (c ∷ id) = some (record { policies = some (codes "ops" ∷ []); display_name = some [] })

usage_test :
    token_usage token (codes "123456789" ∷ [] ∷ []) (codes "ops")
    ≡ record { bound = codes "12345678…" ∷ []; scanned = 2; total = 2 }
unfolding token_usage text_eq
usage_test = refl

abbrev sent : Policy
sent = record {
  inheritable = false;
  name = codes "ops";
  rules = record { path = codes "b"; capabilities = codes "list" ∷ codes "read" ∷ [] } ∷ [];
}

save-edited : save (codes "ops") edited ≡ put sent
unfolding save patch_draft text_eq count_char has_text has_char ends_with
save-edited = refl

saved-current_example :
    ((names : List Text)
      → current (codes "ops") (listed names (saved sent edited))
        ≡ (if includes names (codes "ops") then some (draft_of sent) else none))
    × ((parse_policy (draft_of sent).text).rules ≡ numbered 0 sent.rules)
    × (is_dirty (codes "ops") (saved sent edited) ≡ false)
    × ((other : Text)
        → text_eq (codes "ops") other ≡ false
        → current other (saved sent edited) ≡ current other edited)
saved-current_example = saved-current (codes "ops") edited sent save-edited
