-- ===== src/Namespaces/Page.antt =====
-- The state of web/src/pages/dashboard/namespaces/namespaces.page.tsx and its handlers. What a
-- handler sends or sets outside the page is a list of effects; toasts and scrolling are left out.
-- `items` is the sorted answer of the server, `current` the namespace of the session.
pub mod Requests
use tuck.Base.{
  ℕ, Text, List, [], ◌∷◌, ◌++◌, codes, Bool, true, false, not, ◌&&◌, ◌||◌, Option, none, some, map,
  keep, any, length, is_empty, text_eq, trim, has_text, includes, is_lower, is_upper, is_digit, all,
  ltb, leb, ◌==◌, if◌then◌else◌, sort_by,
}
use tuck.KeyValue.{KvPair, validate_kv}
use tuck.Namespaces.{NamespaceView, NameErrorKind, ok, name_error_kind, labels_of, pairs_of}

pub data View : Type 0 where
  cards list tree : View

-- The value that `saveView` stores.
unfoldable pub view_text : View → Text
view_text cards = codes "cards"
view_text list = codes "list"
view_text tree = codes "tree"

-- `readView`: `none` for a key that is not there or a storage that throws.
unfoldable pub read_view : Option Text → View
unfolding text_eq
read_view none = cards
read_view (some v) =
    if text_eq v (codes "list") then list else if text_eq v (codes "tree") then tree else cards

-- The metadata of a request.
pub record Metadata : Type 0 where
  pub description : Text
  pub owner : Text
  pub labels : List (Text × Text)

pub data Effect : Type 0 where
  create : Text → Metadata → Effect
  update : Text → Metadata → Effect
  delete : Text → Effect
  set_namespace : Text → Effect
  reload invalidate : Effect

pub record NsPage : Type 0 where
  pub q : Text
  pub view : View
  pub creating : Bool
  pub name : Text
  pub description : Text
  pub owner : Text
  pub labels : List KvPair
  pub editing : Option Text
  pub server_err : Text
  pub to_delete : Option Text
  pub dying : Option Text
  pub fresh : Option Text
  pub collapsed : List Text
  pub create_pending : Bool
  pub edit_pending : Bool
  pub current : Text
  pub items : List NamespaceView

-- `[A-Za-z0-9_./-]`
unfoldable pub label_char : ℕ → Bool
unfolding is_lower is_upper is_digit
label_char c =
    is_upper c || is_lower c || is_digit c || c == b'_' || c == b'.' || c == b'/' || c == b'-'

-- `LABEL_KEY_RE`
unfoldable pub label_key_re : Text → Bool
unfolding label_char is_lower is_upper is_digit
label_key_re [] = false
label_key_re (c ∷ s) =
    (is_upper c || is_lower c || is_digit c) && (leb (length s) 63 && all label_char s)

abbrev pub max_desc : ℕ
max_desc = 512

abbrev pub max_owner : ℕ
max_owner = 128

-- `n.owner ?? ''`
unfoldable pub or_blank : Option Text → Text
or_blank none = []
or_blank (some t) = t

-- `n.labels ?? {}`
unfoldable pub or_no_labels : Option (List (Text × Text)) → List (Text × Text)
or_no_labels none = []
or_no_labels (some labels) = labels

-- The names of the namespaces.
unfoldable pub all_names : NsPage → List Text
all_names p = map (λ (n : NamespaceView). n.name) p.items

unfoldable pub is_ok : NameErrorKind → Bool
is_ok ok = true
is_ok _ = false

-- `!nameErr`: the name is blank, or nothing is wrong with it.
unfoldable pub no_name_err : NsPage → Bool
unfolding trim name_error_kind is_ok all_names
no_name_err p =
    let trimmed = trim p.name in
    is_empty trimmed || (is_ok (name_error_kind trimmed) && not (includes (all_names p) trimmed))

unfoldable pub meta_err : NsPage → Bool
unfolding validate_kv label_key_re
meta_err p =
    ltb max_desc (length p.description)
    || ltb max_owner (length p.owner)
    || not (validate_kv label_key_re p.labels).valid

unfoldable pub meta : NsPage → Metadata
unfolding trim labels_of
meta p = record {
  description = trim p.description;
  owner = trim p.owner;
  labels = labels_of p.labels;
}

-- `byName.get(ns)`: the last namespace with the name.
unfoldable pub by_name : List NamespaceView → Text → Option NamespaceView
by_name [] ns = none
by_name (n ∷ items) ns = elim (by_name items ns) [
  | some m ↦ some m
  | none ↦ if text_eq n.name ns then some n else none
]

-- `resetMeta`: `le` stands for `localeCompare`.
unfoldable pub reset_meta : (Text → Text → Bool) → Option NamespaceView → NsPage → NsPage
unfolding or_blank pairs_of
reset_meta le none p = record p { description = []; owner = []; labels = pairs_of le none }
reset_meta le (some n) p = record p {
  description = or_blank n.description;
  owner = or_blank n.owner;
  labels = pairs_of le n.labels;
}

unfoldable pub open_create : (Text → Text → Bool) → NsPage → NsPage
unfolding reset_meta
open_create le p = record (reset_meta le none (record p { name = [] })) {
  server_err = [];
  creating = true;
}

-- `submitCreate`; the mutation is pending until the server answers.
unfoldable pub submit_create : NsPage → NsPage × List Effect
unfolding no_name_err meta_err meta trim
submit_create p =
    if is_empty (trim p.name) || not (no_name_err p) || meta_err p || p.create_pending
    then (p, [])
    else (record p { server_err = []; create_pending = true }, create (trim p.name) (meta p) ∷ [])

-- `onSuccess` of `createMutation`
unfoldable pub created : NsPage → NsPage × List Effect
unfolding trim
created p = (
  record p {
    creating = false;
    name = [];
    q = [];
    fresh = some (trim p.name);
    create_pending = false;
  },
  invalidate ∷ [],
)

-- `onError` of `createMutation`, with the message of the server if it has one.
unfoldable pub create_failed : Option Text → NsPage → NsPage
unfolding or_blank
create_failed msg p = record p { server_err = or_blank msg; create_pending = false }

unfoldable pub open_edit : (Text → Text → Bool) → Text → NsPage → NsPage
unfolding reset_meta by_name
open_edit le ns p = record (reset_meta le (by_name p.items ns) p) {
  server_err = [];
  editing = some ns;
}

-- `submitEdit`
unfoldable pub submit_edit : NsPage → NsPage × List Effect
unfolding meta_err meta
submit_edit p = elim p.editing [
  | none ↦ (p, [])
  | some ns ↦
      if is_empty ns || meta_err p || p.edit_pending
      then (p, [])
      else (record p { server_err = []; edit_pending = true }, update ns (meta p) ∷ [])
]

-- `onSuccess` of `editMutation`
unfoldable pub edited : NsPage → NsPage × List Effect
edited p = (record p { editing = none; edit_pending = false }, invalidate ∷ [])

-- `onError` of `editMutation`
unfoldable pub edit_failed : Option Text → NsPage → NsPage
unfolding or_blank
edit_failed msg p = record p { server_err = or_blank msg; edit_pending = false }

-- The timer of the highlight, which runs out once the new namespace is on the screen.
unfoldable pub fade : NsPage → NsPage
fade p = record p { fresh = none }

-- `confirmDelete` up to the request.
unfoldable pub confirm_delete : Text → NsPage → NsPage × List Effect
confirm_delete ns p = (record p { dying = some ns }, delete ns ∷ [])

-- `confirmDelete` behind the answer: `false` when the request fails. The page is loaded anew when
-- the namespace was the current one.
unfoldable pub delete_answered : Bool → Text → NsPage → NsPage × List Effect
delete_answered false ns p = (record p { dying = none }, [])
delete_answered true ns p =
    if text_eq p.current ns
    then (p, set_namespace [] ∷ reload ∷ [])
    else (record p { dying = none }, invalidate ∷ [])

unfoldable pub switch_to : Text → NsPage → List Effect
switch_to ns p = if text_eq ns p.current then [] else set_namespace ns ∷ reload ∷ []

-- `changeView`, with what `saveView` stores.
unfoldable pub change_view : View → NsPage → NsPage × Text
unfolding view_text
change_view v p = (record p { view = v }, view_text v)

-- `toggleGroup`
unfoldable pub toggle_group : Text → NsPage → NsPage
unfolding text_eq
toggle_group key p = record p {
  collapsed =
      if includes p.collapsed key
      then keep (λ k. not (text_eq k key)) p.collapsed
      else p.collapsed ++ key ∷ [];
}

-- What the search finds: `lower` stands for `toLowerCase`.
module _ (lower : Text → Text) where
  unfoldable pub matches : Text → NamespaceView → Bool
  unfolding or_blank or_no_labels has_text
  matches filter n =
      is_empty filter
      || has_text filter n.name
      || has_text filter (lower (or_blank n.owner))
      || has_text filter (lower (or_blank n.description))
      || any (λ (e : Text × Text). has_text filter (lower (e.0 ++ (codes "=" ++ e.1))))
          (or_no_labels n.labels)

  unfoldable pub list_items : NsPage → List NamespaceView
  unfolding matches trim
  list_items p = keep (matches (lower (trim p.q))) p.items

-- `items`: the answer sorted by name.
unfoldable pub sorted_items : (Text → Text → Bool) → List NamespaceView → List NamespaceView
unfolding sort_by
sorted_items le details = sort_by (λ (a b : NamespaceView). le a.name b.name) details

-- `listNamespaceDetails`: the detailed list, or the names alone of an older server.
unfoldable pub namespace_details :
    Option (List NamespaceView) → Option (List Text) → List NamespaceView
namespace_details (some namespaces) keys = namespaces
namespace_details none none = []
namespace_details none (some keys) =
    map
      (λ name. record {
        name = name;
        description = none;
        owner = none;
        labels = none;
        stats = none;
      })
      keys
