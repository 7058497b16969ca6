-- ===== src/Namespaces/Tests.antt =====
-- Names, trees and requests.
use tuck.Base.{
  ◌≡◌, ◌↔◌, ◌≤◌, refl, Text, List, [], ◌∷◌, codes, Bool, true, false, none, some, text_eq, All, leb,
  trim, includes,
}
use mathlib.Core.List.{Perm}
use tuck.KeyValue.Valid.{Distinct}
use tuck.Namespaces.{
  NamespaceView, NamespaceStats, ok, root, chars, segments, name_error_kind, validate_namespace,
  is_proto, utf8, storage_prefix, StatKey, sum_stat, shown_stats, labels_of, pairs_of,
}
use tuck.Namespaces.Names.{name_error_kind-ok_iff, storage_prefix-apart}
use tuck.Namespaces.Labels.{IsTrimmed, NoProto, labels_of-pairs_of, entry_keys}
use tuck.Namespaces.Tree.{nil, grow, build_tree, tree_rows, namespace_row, group_row}
use tuck.Namespaces.Tree.Forest.{ns_key}
use tuck.Namespaces.Tree.Lookup.{is_rooted}
use tuck.Namespaces.Tree.Found.{ns_key-grow, latest, Rooted}
use tuck.Namespaces.Tree.Counted.{shown, one_that}
use tuck.Namespaces.Tree.Rows.{tree_rows-names, named}
use tuck.Namespaces.Page.{
  NsPage, cards, submit_create, submit_edit, created, delete_answered, toggle_group, matches, meta,
  create, update, set_namespace, reload, invalidate, all_names, open_edit,
}
use tuck.Namespaces.Page.Requests.{submit_create-sends, IsSound}

abbrev stats : NamespaceStats
stats = record { secrets = some 3; tokens = none; policies = some 0; auth_roles = none }

abbrev view : Text → NamespaceView
view name = record {
  name = name;
  description = none;
  owner = none;
  labels = some ((codes "env", codes "prod") ∷ (codes "app", codes "x") ∷ []);
  stats = some stats;
}

abbrev items : List NamespaceView
items = view (codes "a/b") ∷ view (codes "c") ∷ view (codes "a") ∷ view (codes "d/e") ∷ []

-- The order by the first unit.
abbrev first_le : Text → Text → Bool
first_le [] t = true
first_le (c ∷ s) [] = false
first_le (c ∷ s) (d ∷ t) = leb c d

abbrev page : NsPage
page = record {
  q = [];
  view = cards;
  creating = true;
  name = codes " team-a/x ";
  description = codes " shop ";
  owner = [];
  labels =
      record { key = codes "env"; value = codes "prod" } ∷ record { key = []; value = [] } ∷ [];
  editing = none;
  server_err = codes "old";
  to_delete = none;
  dying = none;
  fresh = none;
  collapsed = codes "d" ∷ [];
  create_pending = false;
  edit_pending = false;
  current = codes "c";
  items = items;
}

name_tests :
    (name_error_kind (codes "team-a/x") ≡ ok)
    × (name_error_kind (codes "a/root") ≡ root)
    × (name_error_kind (codes "a//b") ≡ chars)
    × (name_error_kind (codes "-a") ≡ chars)
    × (name_error_kind (codes "a/b/c/d/e") ≡ segments)
    × (validate_namespace (codes "") ≡ false)
    × (utf8 (0xd83d ∷ 0xde00 ∷ 0xe9 ∷ 0x20ac ∷ [])
        ≡ 0xf0 ∷ 0x9f ∷ 0x98 ∷ 0x80 ∷ 0xc3 ∷ 0xa9 ∷ 0xe2 ∷ 0x82 ∷ 0xac ∷ [])
    × (storage_prefix (codes "a/b") ≡ codes "ns/a~b/")
unfolding name_error_kind validate_namespace utf8 storage_prefix text_eq
name_tests = (refl, refl, refl, refl, refl, refl, refl, refl)

stat_tests :
    (sum_stat items StatKey.secrets ≡ some 12)
    × (sum_stat items StatKey.tokens ≡ none)
    × (sum_stat [] StatKey.secrets ≡ none)
    × (shown_stats stats ≡ StatKey.secrets ∷ StatKey.policies ∷ [])
unfolding sum_stat shown_stats
stat_tests = (refl, refl, refl, refl)

tree_tests :
    tree_rows (codes "d" ∷ []) 0 (build_tree first_le items)
    ≡ namespace_row (view (codes "a")) (codes "a") 0 (some false)
      ∷ namespace_row (view (codes "a/b")) (codes "b") 1 none
      ∷ namespace_row (view (codes "c")) (codes "c") 0 none
      ∷ group_row (codes "d") 0 1 (some true)
      ∷ []
unfolding tree_rows build_tree text_eq
tree_tests = refl

page_tests :
    ((submit_create page).1
      ≡ create (codes "team-a/x") (record {
        description = codes "shop";
        owner = [];
        labels = (codes "env", codes "prod") ∷ [];
      })
        ∷ [])
    × ((submit_create (record page { name = codes "c" })).1 ≡ [])
    × ((submit_create (submit_create page).0).1 ≡ [])
    × ((created page).0.fresh ≡ some (codes "team-a/x"))
    × ((delete_answered true (codes "c") page).1 ≡ set_namespace [] ∷ reload ∷ [])
    × ((delete_answered true (codes "a") page).1 ≡ invalidate ∷ [])
    × ((submit_edit (open_edit first_le (codes "a") page)).1
        ≡ update (codes "a") (record {
          description = [];
          owner = [];
          labels = (codes "app", codes "x") ∷ (codes "env", codes "prod") ∷ [];
        })
          ∷ [])
    × ((toggle_group (codes "d") page).collapsed ≡ [])
    × (matches (λ s. s) (codes "env=p") (view (codes "q")) ≡ true)
unfolding submit_create created delete_answered submit_edit open_edit toggle_group matches text_eq
page_tests = (refl, refl, refl, refl, refl, refl, refl, refl, refl)

name_error_kind-ok_iff_example :
    (name_error_kind (codes "a/b") ≡ ok) ↔ (validate_namespace (utf8 (codes "a/b")) ≡ true)
name_error_kind-ok_iff_example = name_error_kind-ok_iff (codes "a/b") refl

valid_ab : validate_namespace (codes "a/b") ≡ true
unfolding validate_namespace text_eq
valid_ab = refl

storage_prefix-apart_example : (codes "a/b" ≡ codes "a/b") × (codes "k" ≡ codes "k")
storage_prefix-apart_example =
    storage_prefix-apart (codes "a/b") (codes "a/b") (codes "k") (codes "k") valid_ab valid_ab refl

items-Rooted : Rooted items
unfolding is_rooted
items-Rooted = (refl, (refl, (refl, (refl, tt))))

-- Where a name begins with a slash, another name takes its place.
slash_taken :
    (ns_key (codes "a") (grow nil (view (codes "a") ∷ view (codes "/a") ∷ []))
      ≡ some (view (codes "/a")))
    × (ns_key (codes "/a") (grow nil (view (codes "a") ∷ view (codes "/a") ∷ [])) ≡ none)
unfolding ns_key grow text_eq
slash_taken = (refl, refl)

ns_key-grow_example : ns_key (codes "a/b") (grow nil items) ≡ latest (codes "a/b") none items
ns_key-grow_example = ns_key-grow (codes "a/b") items items-Rooted

abbrev any_namespace : NamespaceView → Bool
any_namespace v = true

tree_rows-names_example :
    (shown (named (codes "a/b") any_namespace) (tree_rows [] 0 (build_tree first_le items))
      ≡ one_that (named (codes "a/b") any_namespace) (latest (codes "a/b") none items))
    × (shown
          (named (codes "a/b") any_namespace)
          (tree_rows (codes "a" ∷ []) 0 (build_tree first_le items))
        ≤ one_that (named (codes "a/b") any_namespace) (latest (codes "a/b") none items))
tree_rows-names_example =
    tree_rows-names first_le items (codes "a" ∷ []) (codes "a/b") any_namespace items-Rooted

abbrev entries : List (Text × Text)
entries = (codes "env", codes "prod") ∷ (codes "app", codes "x") ∷ []

entries-Distinct : Distinct (entry_keys entries)
unfolding text_eq
entries-Distinct = ((refl, tt), (tt, tt))

entries-IsTrimmed : All IsTrimmed (entry_keys entries)
unfolding trim
entries-IsTrimmed = ((refl, refl), ((refl, refl), tt))

entries-NoProto : NoProto (entry_keys entries)
unfolding is_proto text_eq
entries-NoProto = (refl, (refl, tt))

proto_dropped : labels_of (record { key = codes "__proto__"; value = codes "x" } ∷ []) ≡ []
unfolding labels_of trim is_proto text_eq
proto_dropped = refl

labels_of-pairs_of_example : Perm (labels_of (pairs_of first_le (some entries))) entries
labels_of-pairs_of_example =
    labels_of-pairs_of first_le entries entries-IsTrimmed entries-NoProto entries-Distinct

sent : (submit_create page).1 ≡ create (codes "team-a/x") (meta page) ∷ []
unfolding submit_create text_eq
sent = refl

submit_create-sends_example :
    (validate_namespace (utf8 (codes "team-a/x")) ≡ true)
    × (includes (all_names page) (codes "team-a/x") ≡ false)
    × IsSound page (meta page)
submit_create-sends_example = submit_create-sends page (codes "team-a/x") (meta page) sent
