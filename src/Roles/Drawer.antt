-- ===== src/Roles/Drawer.antt =====
-- web/src/pages/dashboard/token-roles/components/role-drawer.tsx: the form of a role, its checks and
-- what it sends.
use tuck.Base.{
  ℕ, Text, List, [], ◌∷◌, ◌++◌, codes, Bool, true, false, not, ◌&&◌, ◌||◌, Option, none, some, all,
  is_empty, text_eq, texts_eq, includes, trim, is_digit, print_nat, value_of, ltb, ◌==◌, ◌+◌,
  if◌then◌else◌,
}
use tuck.Durations.{Dur, nan, secs, parse_dur, fmt_short, to_go_duration}
use tuck.Roles.{RoleView, name_re, policy_re}

-- `DrawerMode`
pub data DrawerMode : Type 0 where
  dup edit new : DrawerMode

-- `Form`
pub record Form : Type 0 where
  pub max_ : Text
  pub name : Text
  pub period : Text
  pub policies : List Text
  pub renew : Bool
  pub ttl : Text
  pub uses : Text

-- `EMPTY`
abbrev pub empty_form : Form
empty_form = record {
  max_ = codes "24h";
  name = [];
  period = [];
  policies = [];
  renew = true;
  ttl = codes "1h";
  uses = [];
}

unfoldable pub seed_name : DrawerMode → Text → Text
seed_name dup name = name ++ codes "-copy"
seed_name m name = name

-- `seedForm`
unfoldable pub seed_form : DrawerMode → Option RoleView → Form
unfolding fmt_short seed_name print_nat
seed_form mode none = empty_form
seed_form mode (some role) = record {
  max_ = fmt_short role.max_ttl;
  name = seed_name mode role.name;
  period = fmt_short role.period;
  policies = role.policies;
  renew = role.renewable;
  ttl = fmt_short role.ttl;
  uses = if role.max_uses == 0 then [] else print_nat role.max_uses;
}

-- The drawer: what it is opened with, its state, and whether its request runs.
pub record RoleDrawer : Type 0 where
  pub mode : DrawerMode
  pub existing : List Text
  pub opened : Bool
  pub form : Form
  pub snap : Option Form
  pub touched : List Text
  pub attempted : Bool
  pub armed : Bool
  pub pending : Bool

unfoldable pub snap_of : DrawerMode → Form → Option Form
snap_of dup f = none
snap_of m f = some f

-- The effect on `opened`, `mode` and `role`.
unfoldable pub open_drawer : DrawerMode → Option RoleView → RoleDrawer → RoleDrawer
unfolding seed_form snap_of
open_drawer mode role d = record d {
  mode = mode;
  opened = true;
  form = seed_form mode role;
  snap = snap_of mode (seed_form mode role);
  touched = [];
  attempted = false;
  armed = false;
}

-- `set`, with the form that has the new value.
unfoldable pub set_form : Form → RoleDrawer → RoleDrawer
set_form f d = record d { form = f; armed = false }

-- `touch`
unfoldable pub touch : Text → RoleDrawer → RoleDrawer
unfolding text_eq
touch k d = record d { touched = if includes d.touched k then d.touched else k ∷ d.touched }

pub data NameErr : Type 0 where
  name_ok name_empty name_format name_taken : NameErr

unfoldable pub taken_name : DrawerMode → List Text → Text → Bool
unfolding text_eq
taken_name edit existing n = false
taken_name m existing n = includes existing n

-- `e.name`
unfoldable pub name_err : RoleDrawer → NameErr
unfolding trim name_re taken_name
name_err d =
    if is_empty (trim d.form.name)
    then name_empty
    else if not (name_re (trim d.form.name))
    then name_format
    else if taken_name d.mode d.existing (trim d.form.name)
    then name_taken
    else name_ok

-- `e.policies`; the policy that is refused is shown.
unfoldable pub policies_err : Form → Bool
unfolding policy_re
policies_err f = is_empty f.policies || not (all policy_re f.policies)

unfoldable pub is_nan : Dur → Bool
is_nan nan = true
is_nan d = false

-- `a && b && a > b`
unfoldable pub is_over : Dur → Dur → Bool
is_over (secs a) (secs b) = ltb 0 a && ltb 0 b && ltb b a
is_over d e = false

-- `e.ttl`, `e.max` and `e.period`, of the texts of the form.
unfoldable pub dur_err : Text → Text → Bool
unfolding parse_dur is_nan is_over
dur_err v max_ =
    is_nan (parse_dur v)
    || (not (is_nan (parse_dur max_)) && is_over (parse_dur v) (parse_dur max_))

unfoldable pub max_err : Form → Bool
unfolding parse_dur is_nan
max_err f = is_nan (parse_dur f.max_)

-- `e.uses`
unfoldable pub uses_err : Form → Bool
unfolding is_digit
uses_err f = not (is_empty f.uses) && not (all is_digit f.uses)

unfoldable pub count : Bool → ℕ
count b = if b then 1 else 0

unfoldable pub name_wrong : NameErr → Bool
name_wrong name_ok = false
name_wrong e = true

-- `errCount`
unfoldable pub err_count : RoleDrawer → ℕ
unfolding count name_err name_wrong policies_err dur_err max_err uses_err
err_count d =
    count (name_wrong (name_err d))
    + count (policies_err d.form)
    + count (dur_err d.form.ttl d.form.max_)
    + count (max_err d.form)
    + count (dur_err d.form.period d.form.max_)
    + count (uses_err d.form)

-- `TokenRolePut`
pub record TokenRolePut : Type 0 where
  pub max_ttl : Option Text
  pub max_uses : Option ℕ
  pub period : Option Text
  pub policies : List Text
  pub renewable : Bool
  pub ttl : Option Text

-- `d || 0`
unfoldable pub secs_of : Dur → ℕ
secs_of (secs n) = n
secs_of d = 0

-- `n || undefined`
unfoldable pub nonzero : ℕ → Option ℕ
nonzero n = if n == 0 then none else some n

-- `body`; it is sent when the uses are digits or nothing, and read here as such.
unfoldable pub role_body : Form → TokenRolePut
unfolding to_go_duration secs_of parse_dur nonzero value_of
role_body f = record {
  max_ttl = to_go_duration (secs_of (parse_dur f.max_));
  max_uses = nonzero (value_of f.uses);
  period = to_go_duration (secs_of (parse_dur f.period));
  policies = f.policies;
  renewable = f.renew;
  ttl = to_go_duration (secs_of (parse_dur f.ttl));
}

-- `save`: the name and the body that it sends, and the state afterwards.
unfoldable pub save : RoleDrawer → Option (Text × TokenRolePut) × RoleDrawer
unfolding err_count role_body trim
save d = (
  if err_count d == 0 then some (trim d.form.name, role_body d.form) else none,
  record d { attempted = true; pending = err_count d == 0 || d.pending },
)

-- `onSuccess`
unfoldable pub role_saved : RoleDrawer → RoleDrawer
role_saved d = record d { opened = false; pending = false }

-- Equality of two forms, as their texts in JSON have it.
unfoldable pub form_eq : Form → Form → Bool
unfolding text_eq texts_eq
form_eq f g =
    text_eq f.max_ g.max_
    && text_eq f.name g.name
    && text_eq f.period g.period
    && texts_eq f.policies g.policies
    && (if f.renew then g.renew else not g.renew)
    && text_eq f.ttl g.ttl
    && text_eq f.uses g.uses

-- `dirty`
unfoldable pub dirty : RoleDrawer → Bool
unfolding form_eq
dirty d = elim d.snap [ none ↦ true | some f ↦ not (form_eq d.form f) ]

-- `requestClose`
unfoldable pub request_close : RoleDrawer → RoleDrawer
unfolding dirty
request_close d =
    if d.pending
    then d
    else if dirty d && not d.armed
    then record d { armed = true }
    else record d { opened = false }
