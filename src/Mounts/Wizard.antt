-- ===== src/Mounts/Wizard.antt =====
-- web/src/pages/dashboard/mounts/components/create-wizard.tsx: the three steps of a new mount. The
-- limit of versions is a whole number here.
pub mod Steps
pub mod Sent
pub mod Taken
use mathlib.Core.Option
use tuck.Base.{
  ℕ, Text, List, [], ◌∷◌, ◌++◌, codes, Bool, true, false, not, ◌&&◌, ◌||◌, Option, none, some, all,
  map, length, find_first, is_empty, text_eq, includes, trim, split_on, ltb, ◌==◌, ◌+◌, ◌-◌,
  if◌then◌else◌, ℤ, pos, negsuc, ltb_ℤ,
}
use tuck.Mounts.{MountEntry, CatalogType, catalog, type_re, path_re, norm_path}

abbrev pub custom : Text
custom = codes "custom"

abbrev pub kv2_mount_path : Text
kv2_mount_path = codes "secret"

abbrev pub max_versions_limit : ℕ
max_versions_limit = 1000

abbrev pub path_max : ℕ
path_max = 64

-- The state of `CreateWizard`, with the mounts that it is given, whether it is open and whether
-- its request runs.
pub record Wizard : Type 0 where
  pub mounts : List MountEntry
  pub opened : Bool
  pub step : ℕ
  pub type_id : Option Text
  pub custom_type : Text
  pub path : Text
  pub desc : Text
  pub max_versions : ℤ
  pub cas_required : Bool
  pub server_err : Text
  pub pending : Bool

-- `KV2MountConfig` as the wizard sends it.
pub record Kv2MountConfig : Type 0 where
  pub max_versions : ℤ
  pub cas_required : Bool

-- What `createMount` is called with.
pub record CreateMount : Type 0 where
  pub path : Text
  pub type : Text
  pub description : Option Text
  pub config : Option Kv2MountConfig

-- The effect on `opened`.
unfoldable pub reset_wizard : Wizard → Wizard
reset_wizard w = record w {
  opened = true;
  step = 0;
  type_id = none;
  custom_type = [];
  path = [];
  desc = [];
  max_versions = pos 0;
  cas_required = false;
  server_err = [];
}

unfoldable pub type_of : Wizard → Text
unfolding text_eq trim
type_of w = elim w.type_id [
  | none ↦ []
  | some id ↦ if text_eq id custom then trim w.custom_type else id
]

unfoldable pub norm : Wizard → Text
unfolding norm_path
norm w = norm_path w.path

-- `CATALOG.find((c) => c.id === id)?.suggest`
unfoldable pub suggest_of : Text → Option Text
unfolding text_eq
suggest_of id = Option.map (λ c. c.suggest) (find_first (λ c. text_eq c.id id) catalog)

unfoldable pub is_kv2 : Wizard → Bool
unfolding norm text_eq
is_kv2 w = elim w.type_id [
  | none ↦ false
  | some id ↦ text_eq id (codes "kv") && text_eq (norm w) kv2_mount_path
]

-- Whether a number of versions is out of the bounds.
unfoldable pub bad_versions : ℤ → Bool
bad_versions n = ltb_ℤ n (pos 0) || ltb_ℤ (pos max_versions_limit) n

unfoldable pub max_versions_err : Wizard → Bool
unfolding is_kv2 bad_versions
max_versions_err w = is_kv2 w && bad_versions w.max_versions

-- `mounts.find((m) => normPath(m.path) === norm)`
unfoldable pub hit : List MountEntry → Text → Option MountEntry
unfolding norm_path text_eq
hit mounts path = find_first (λ m. text_eq (norm_path m.path) path) mounts

pub data PathErr : Type 0 where
  ok empty bad_chars too_long : PathErr
  taken : Text → PathErr

unfoldable pub taken_err : Option MountEntry → PathErr
taken_err none = ok
taken_err (some m) = taken m.type

-- `pathErr` of a path that `normPath` gave.
unfoldable pub path_err_of : List MountEntry → Text → PathErr
unfolding path_re hit taken_err
path_err_of mounts path =
    if is_empty path
    then empty
    else if not (path_re path)
    then bad_chars
    else if ltb path_max (length path)
    then too_long
    else taken_err (hit mounts path)

unfoldable pub path_err : Wizard → PathErr
unfolding norm path_err_of
path_err w = path_err_of w.mounts (norm w)

unfoldable pub no_err : PathErr → Bool
no_err ok = true
no_err _ = false

unfoldable pub type_err : Wizard → Bool
unfolding text_eq trim type_re
type_err w = elim w.type_id [
  | none ↦ false
  | some id ↦
      text_eq id custom && not (is_empty (trim w.custom_type)) && not (type_re (trim w.custom_type))
]

unfoldable pub type_ok : Wizard → Bool
unfolding text_eq trim type_err
type_ok w = elim w.type_id [
  | none ↦ false
  | some id ↦
      not (is_empty id)
      && (not (text_eq id custom) || (not (is_empty (trim w.custom_type)) && not (type_err w)))
]

unfoldable pub can_next : Wizard → Bool
unfolding type_ok path_err no_err max_versions_err
can_next w =
    if w.step == 0
    then type_ok w
    else if w.step == 1
    then no_err (path_err w) && not (max_versions_err w)
    else true

-- `mutationFn`
unfoldable pub mount_body : Wizard → CreateMount
unfolding norm type_of is_kv2 trim
mount_body w = record {
  path = norm w;
  type = type_of w;
  description = if is_empty (trim w.desc) then none else some (trim w.desc);
  config =
      if is_kv2 w
      then some (record { max_versions = w.max_versions; cas_required = w.cas_required })
      else none;
}

-- `suggest_of`, and the empty text without one.
unfoldable pub suggest_or_empty : Option Text → Text
unfolding suggest_of
suggest_or_empty none = []
suggest_or_empty (some id) = elim (suggest_of id) [ none ↦ [] | some s ↦ s ]

unfoldable pub pick : Text → Wizard → Wizard
unfolding suggest_or_empty text_eq
pick id w = record w {
  type_id = some id;
  path =
      if is_empty w.path || text_eq w.path (suggest_or_empty w.type_id)
      then suggest_or_empty (some id)
      else w.path;
}

unfoldable pub go : ℕ → Wizard → Wizard
go to w = record w { server_err = []; step = to }

-- The ids of `cards`.
unfoldable pub cards : List Text
cards = map (λ c. c.id) catalog ++ custom ∷ []

-- The left button of the footer.
unfoldable pub back : Wizard → Wizard
unfolding go
back w =
    if w.pending then w else if w.step == 0 then record w { opened = false } else go (w.step - 1) w

-- The right button of the footer before the last step.
unfoldable pub next : Wizard → Wizard
unfolding can_next go
next w = if ltb w.step 2 && can_next w then go (w.step + 1) w else w

-- The inputs, which are there in their step only.
unfoldable pub set_custom_type : Text → Wizard → Wizard
set_custom_type s w = record w { custom_type = if w.step == 0 then s else w.custom_type }

unfoldable pub pick_card : Text → Wizard → Wizard
unfolding pick cards text_eq
pick_card id w = if w.step == 0 && includes cards id then pick id w else w

unfoldable pub set_path : Text → Wizard → Wizard
set_path s w = record w { path = if w.step == 1 then s else w.path }

unfoldable pub set_desc : Text → Wizard → Wizard
set_desc s w = record w { desc = if w.step == 1 then s else w.desc }

unfoldable pub set_max_versions : ℤ → Wizard → Wizard
unfolding is_kv2
set_max_versions n w = record w {
  max_versions = if w.step == 1 && is_kv2 w then n else w.max_versions;
}

unfoldable pub toggle_cas_required : Wizard → Wizard
unfolding is_kv2
toggle_cas_required w = record w {
  cas_required = if w.step == 1 && is_kv2 w then not w.cas_required else w.cas_required;
}

-- Whether the button of the last step is there and not busy.
unfoldable pub can_mount : Wizard → Bool
can_mount w = not (ltb w.step 2) && not w.pending

-- The button of the last step: the request that it sends, and the state afterwards.
unfoldable pub mount : Wizard → Option CreateMount × Wizard
unfolding can_mount mount_body
mount w = (
  if can_mount w then some (mount_body w) else none,
  record w { pending = can_mount w || w.pending },
)

-- `onSuccess`, up to the refetch of the list.
unfoldable pub mounted : Wizard → Wizard
mounted w = record w { pending = false; opened = false }

-- `onError`, with the message of the server if there is one.
unfoldable pub mount_failed : Option Text → Wizard → Wizard
mount_failed msg w = record w { pending = false; server_err = elim msg [ none ↦ [] | some s ↦ s ] }
