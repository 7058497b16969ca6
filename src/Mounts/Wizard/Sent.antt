-- ===== src/Mounts/Wizard/Sent.antt =====
-- What the wizard of web/src/pages/dashboard/mounts/components/create-wizard.tsx sends.
use tuck.Base.{
  ◌≡◌, refl, ap, subst, ◌∙◌, Text, List, [], ◌∷◌, codes, Bool, true, false, not, ◌&&◌, ◌||◌, Option,
  none, some, length, all, is_empty, text_eq, text_eq_iff, includes, trim, leb, if◌then◌else◌,
  Bool-cases, inl, inr, arith,
}
use tuck.Mounts.{MountEntry, type_re, path_re}
use tuck.Mounts.Wizard.{
  Wizard, CreateMount, Kv2MountConfig, type_of, norm, is_kv2, bad_versions, max_versions_err,
  type_err, type_ok, mount_body, cards, custom, path_max, kv2_mount_path, can_mount, mount,
}
use tuck.Mounts.Wizard.Steps.{Action, run, new_wizard, good_path, known_type, Kept, run-checked}

-- Options fit to a mount of type kv at the path of the versioned engine, within the limits.
unfoldable pub config_fits : Text → Text → Option Kv2MountConfig → Bool
unfolding text_eq bad_versions
config_fits type path none = true
config_fits type path (some c) =
    text_eq type (codes "kv") && text_eq path kv2_mount_path && not (bad_versions c.max_versions)

unfoldable pub well_formed : CreateMount → Bool
unfolding path_re type_re config_fits
well_formed r =
    path_re r.path
    && leb (length r.path) path_max
    && type_re r.type
    && config_fits r.type r.path r.config

-- What holds of every text of a list holds of one that is in it.
all-includes :
    (p : Text → Bool) (xs : List Text) (s : Text)
    → all p xs ≡ true
    → includes xs s ≡ true
    → p s ≡ true
all-includes p [] s h k = ground (arith, k)
all-includes p (x ∷ xs) s h k = elim (Bool-cases (text_eq s x)) [
  | inl e ↦ ap p ((text_eq_iff s x).0 e) ∙ ground (arith, h)
  | inr e ↦ all-includes p xs s (ground (arith, h)) (ground (arith, e, k))
]

card_type : Text → Bool
card_type id = text_eq id custom || type_re id

cards-type_re : (id : Text) → includes cards id ≡ true → card_type id ≡ true
unfolding card_type cards type_re text_eq
cards-type_re id h = all-includes card_type cards id refl h

-- The type of a mount of which a card is picked.
type_of-picked :
    (w : Wizard) (id : Text)
    → w.type_id ≡ some id
    → type_of w ≡ (if text_eq id custom then trim w.custom_type else id)
unfolding type_of
type_of-picked w id e = rw e refl

type_ok-picked :
    (w : Wizard) (id : Text)
    → w.type_id ≡ some id
    → type_ok w ≡ true
    → (not (text_eq id custom) || type_re (trim w.custom_type)) ≡ true
unfolding type_ok type_err
type_ok-picked w id e h =
    let same : type_ok w ≡ (
        not (is_empty id)
        && (not (text_eq id custom)
            || (not (is_empty (trim w.custom_type))
                && not (
                    text_eq id custom
                    && not (is_empty (trim w.custom_type))
                    && not (type_re (trim w.custom_type)))))) =
      rw e refl in
    ground (arith, same, h)

picked-type_re :
    (w : Wizard) (id : Text)
    → w.type_id ≡ some id
    → includes cards id ≡ true
    → type_ok w ≡ true
    → type_re (type_of w) ≡ true
unfolding card_type
picked-type_re w id e h k = elim (Bool-cases (text_eq id custom)) [
  | inl f ↦ rw (type_of-picked w id e, f) (ground (arith, f, type_ok-picked w id e k))
  | inr f ↦ rw (type_of-picked w id e, f) (ground (arith, f, cards-type_re id h))
]

type_of-re :
    (w : Wizard) (t : Option Text)
    → w.type_id ≡ t
    → known_type t ≡ true
    → type_ok w ≡ true
    → type_re (type_of w) ≡ true
unfolding known_type type_ok
type_of-re w none e h k = let unpicked : type_ok w ≡ false = rw e refl in cc
type_of-re w (some id) e h k = picked-type_re w id e h k

is_kv2-picked :
    (w : Wizard) (id : Text)
    → w.type_id ≡ some id
    → is_kv2 w ≡ (text_eq id (codes "kv") && text_eq (norm w) kv2_mount_path)
unfolding is_kv2
is_kv2-picked w id e = rw e refl

kv-not_custom : (id : Text) → text_eq id (codes "kv") ≡ true → text_eq id custom ≡ false
unfolding text_eq
kv-not_custom id h = ap (λ s. text_eq s custom) ((text_eq_iff id (codes "kv")).0 h)

-- The wizard sends options for the versioned engine only.
kv2-type :
    (w : Wizard) (t : Option Text)
    → w.type_id ≡ t
    → is_kv2 w ≡ true
    → (text_eq (type_of w) (codes "kv") && text_eq (norm w) kv2_mount_path) ≡ true
unfolding is_kv2
kv2-type w none e h = let unpicked : is_kv2 w ≡ false = rw e refl in cc
kv2-type w (some id) e h =
    let k = is_kv2-picked w id e in
    let f : text_eq id custom ≡ false = kv-not_custom id (ground (arith, k, h)) in
    rw (type_of-picked w id e, f) (ground (arith, k, h))

config-fits :
    (w : Wizard)
    → max_versions_err w ≡ false
    → config_fits (type_of w) (norm w) (mount_body w).config ≡ true
unfolding max_versions_err mount_body config_fits
config-fits w h = elim (Bool-cases (is_kv2 w)) [
  | inl e ↦ rw e (ground (arith, e, h, kv2-type w w.type_id refl e))
  | inr e ↦ rw e refl
]

body-well_formed : (w : Wizard) → Kept w → can_mount w ≡ true → well_formed (mount_body w) ≡ true
unfolding Kept can_mount well_formed mount_body good_path
body-well_formed w h e =
    let t : type_ok w ≡ true = ground (arith, e, h.2) in
    let p : (good_path (norm w) && not (max_versions_err w)) ≡ true = ground (arith, e, h.1, h.3) in
    ground (arith, p, type_of-re w w.type_id refl h.0 t, config-fits w (ground (arith, p)))

if-some :
    (b : Bool) (x r : CreateMount) → (if b then some x else none) ≡ some r → (b ≡ true) × (x ≡ r)
if-some true x r h = (refl, cc)
if-some false x r h = cc

mount-sent : (w : Wizard) → (if can_mount w then some (mount_body w) else none) ≡ (mount w).0
unfolding mount
mount-sent w = refl

-- Whatever the user does in the wizard and whatever lists of mounts arrive meanwhile, a request that
-- it sends is well formed: a path and a type that pass `PATH_RE` and `TYPE_RE`, at most 64
-- characters of path, and options only for a mount of type kv at `secret`, with a number of versions
-- from 0 to 1000.
pub run-well_formed :
    (mounts : List MountEntry) (acts : List Action) (r : CreateMount)
    → (mount (run acts (new_wizard mounts))).0 ≡ some r
    → well_formed r ≡ true
run-well_formed mounts acts r h =
    let w = run acts (new_wizard mounts) in
    let k = if-some (can_mount w) (mount_body w) r (mount-sent w ∙ h) in
    subst (λ b. well_formed b ≡ true) (k.1) (body-well_formed w (run-checked mounts acts) k.0)
