-- ===== src/Mounts/Wizard/Steps.antt =====
-- Runs of the wizard of web/src/pages/dashboard/mounts/components/create-wizard.tsx: what it sends.
use tuck.Base.{
  ℕ, ◌≡◌, ◌≤◌, refl, sym, ap, subst, Text, List, [], ◌∷◌, Bool, true, false, not, ◌&&◌, ◌||◌,
  Option, none, some, length, includes, ltb, leb, ◌==◌, ◌+◌, ◌-◌, if◌then◌else◌, ℤ, pos, Bool-cases,
  inl, inr, arith,
}
use tuck.Mounts.{MountEntry, path_re}
use tuck.Mounts.Wizard.{
  Wizard, reset_wizard, norm, is_kv2, max_versions_err, path_err_of, path_err, no_err, type_ok,
  can_next, pick, go, cards, path_max, back, next, set_custom_type, pick_card, set_path, set_desc,
  set_max_versions, toggle_cas_required, mount, mounted, mount_failed,
}

-- What happens to the wizard; `listed` is a new answer with the mounts.
pub data Action : Type 0 where
  opens : Action
  listed : List MountEntry → Action
  picks types_type types_path types_desc : Text → Action
  sets_versions : ℤ → Action
  toggles_cas goes_back goes_next sends succeeds : Action
  fails : Option Text → Action

unfoldable pub act : Action → Wizard → Wizard
unfolding reset_wizard pick_card set_custom_type set_path set_desc set_max_versions
    toggle_cas_required back next mount mounted mount_failed
act opens w = reset_wizard w
act (listed ms) w = record w { mounts = ms }
act (picks id) w = pick_card id w
act (types_type s) w = set_custom_type s w
act (types_path s) w = set_path s w
act (types_desc s) w = set_desc s w
act (sets_versions n) w = set_max_versions n w
act toggles_cas w = toggle_cas_required w
act goes_back w = back w
act goes_next w = next w
act sends w = (mount w).1
act succeeds w = mounted w
act (fails msg) w = mount_failed msg w

unfoldable pub run : List Action → Wizard → Wizard
unfolding act
run [] w = w
run (a ∷ rest) w = run rest (act a w)

-- The wizard as the page mounts it.
unfoldable pub new_wizard : List MountEntry → Wizard
new_wizard ms = record {
  mounts = ms;
  opened = false;
  step = 0;
  type_id = none;
  custom_type = [];
  path = [];
  desc = [];
  max_versions = pos 0;
  cas_required = false;
  server_err = [];
  pending = false;
}

unfoldable pub good_path : Text → Bool
good_path p = path_re p && leb (length p) path_max

unfoldable pub known_type : Option Text → Bool
known_type none = true
known_type (some id) = includes cards id

unfoldable pub Kept : Wizard → Type 0
Kept w =
    (known_type w.type_id ≡ true)
    × (w.step ≤ 2)
    × ((w.step == 0 || type_ok w) ≡ true)
    × ((not (w.step == 2) || (good_path (norm w) && not (max_versions_err w))) ≡ true)

good_path-no_err :
    (ms : List MountEntry) (p : Text) → no_err (path_err_of ms p) ≡ true → good_path p ≡ true
unfolding path_err_of no_err good_path
good_path-no_err ms p h = ground (arith, h)

if-Kept :
    (b : Bool) (w v : Wizard)
    → (b ≡ true → Kept w)
    → (b ≡ false → Kept v)
    → Kept (if b then w else v)
if-Kept true w v h k = h refl
if-Kept false w v h k = k refl

Kept-known : (w : Wizard) → Kept w → known_type w.type_id ≡ true
unfolding Kept
Kept-known w h = h.0

Kept-step : (w : Wizard) → Kept w → w.step ≤ 2
unfolding Kept
Kept-step w h = h.1

Kept-type : (w : Wizard) → Kept w → (w.step == 0 || type_ok w) ≡ true
unfolding Kept
Kept-type w h = h.2

at_start : (w : Wizard) → known_type w.type_id ≡ true → w.step ≡ 0 → Kept w
unfolding Kept
at_start w h e = (h, omega (arith, e), rw e refl, rw e refl)

-- Only the kind of the mount changes, in the first step.
set_custom_type-Kept : (s : Text) (w : Wizard) → Kept w → Kept (set_custom_type s w)
unfolding set_custom_type
set_custom_type-Kept s w h = elim (Bool-cases (w.step == 0)) [
  | inl e ↦ rw e (at_start (record w { custom_type = s }) (Kept-known w h) (ground (arith, e)))
  | inr e ↦ rw e h
]

pick_card-Kept : (id : Text) (w : Wizard) → Kept w → Kept (pick_card id w)
unfolding pick_card pick known_type
pick_card-Kept id w h = elim (Bool-cases (w.step == 0)) [
  | inl e ↦ elim (Bool-cases (includes cards id)) [
    | inl f ↦ rw (e, f) (at_start (pick id w) f (ground (arith, e)))
    | inr f ↦ rw (e, f) h
  ]
  | inr e ↦ rw e h
]

-- The inputs of the second step change nothing that the first has checked.
at_path :
    (v w : Wizard)
    → Kept w
    → (w.step == 1) ≡ true
    → v.step ≡ w.step
    → v.type_id ≡ w.type_id
    → type_ok v ≡ type_ok w
    → Kept v
unfolding Kept
at_path v w h e s t k =
    (rw t h.0, omega (arith, s, h.1), ground (arith, e, s, k, h.2), ground (arith, e, s))

set_path-Kept : (s : Text) (w : Wizard) → Kept w → Kept (set_path s w)
unfolding set_path type_ok
set_path-Kept s w h = elim (Bool-cases (w.step == 1)) [
  | inl e ↦ rw e (at_path (record w { path = s }) w h e refl refl refl)
  | inr e ↦ rw e h
]

set_max_versions-Kept : (n : ℤ) (w : Wizard) → Kept w → Kept (set_max_versions n w)
unfolding set_max_versions type_ok
set_max_versions-Kept n w h = elim (Bool-cases (w.step == 1)) [
  | inl e ↦ at_path (set_max_versions n w) w h e refl refl refl
  | inr e ↦ rw e h
]

-- What a step of the wizard leaves as it is.
same-Kept :
    (v w : Wizard)
    → Kept w
    → v.step ≡ w.step
    → v.type_id ≡ w.type_id
    → type_ok v ≡ type_ok w
    → norm v ≡ norm w
    → max_versions_err v ≡ max_versions_err w
    → Kept v
unfolding Kept
same-Kept v w h s t k n m = (
  rw t h.0,
  omega (arith, s, h.1),
  ground (arith, s, k, h.2),
  ground (arith, s, ap good_path n, m, h.3),
)

closed-Kept : (w : Wizard) → Kept w → Kept (record w { opened = false })
unfolding type_ok norm max_versions_err
closed-Kept w h = same-Kept _ w h refl refl refl refl refl

go-Kept :
    (n : ℕ) (w : Wizard)
    → Kept w
    → n ≤ 2
    → ((n == 0 || type_ok w) ≡ true)
    → ((not (n == 2) || (good_path (norm w) && not (max_versions_err w))) ≡ true)
    → Kept (go n w)
unfolding Kept go type_ok norm max_versions_err
go-Kept n w h k t p = (h.0, k, t, p)

next-if : (w : Wizard) → next w ≡ (if ltb w.step 2 && can_next w then go (w.step + 1) w else w)
unfolding next
next-if w = refl

can_next-Kept :
    (w : Wizard) → Kept w → (ltb w.step 2 && can_next w) ≡ true → Kept (go (w.step + 1) w)
unfolding can_next path_err
can_next-Kept w h e =
    let k = good_path-no_err w.mounts (norm w) in
    go-Kept (w.step + 1) w h (ground (arith, e)) (ground (arith, e, Kept-type w h))
      (ground (arith, e, k))

next-Kept : (w : Wizard) → Kept w → Kept (next w)
next-Kept w h =
    subst Kept (sym (next-if w))
      (if-Kept (ltb w.step 2 && can_next w) (go (w.step + 1) w) w (can_next-Kept w h) (λ e. h))

back-if :
    (w : Wizard)
    → back w ≡ (
        if w.pending
        then w
        else if w.step == 0
        then record w { opened = false }
        else go (w.step - 1) w)
unfolding back
back-if w = refl

-- One step back from a later step.
less-Kept : (w : Wizard) → Kept w → (w.step == 0) ≡ false → Kept (go (w.step - 1) w)
less-Kept w h e =
    let k = Kept-step w h in
    go-Kept (w.step - 1) w h (omega (arith, k)) (ground (arith, e, Kept-type w h))
      (ground (arith, e, k))

back-Kept : (w : Wizard) → Kept w → Kept (back w)
back-Kept w h = subst Kept (sym (back-if w)) (
    if-Kept w.pending w _ (λ e. h)
      (λ e.
        if-Kept (w.step == 0) (record w { opened = false }) (go (w.step - 1) w)
          (λ k. closed-Kept w h) (less-Kept w h)))

act-Kept : (a : Action) (w : Wizard) → Kept w → Kept (act a w)
unfolding act reset_wizard set_desc toggle_cas_required mount mounted mount_failed type_ok norm
    max_versions_err is_kv2 known_type
act-Kept opens w h = at_start (reset_wizard w) refl refl
act-Kept (listed ms) w h = same-Kept _ w h refl refl refl refl refl
act-Kept (picks id) w h = pick_card-Kept id w h
act-Kept (types_type s) w h = set_custom_type-Kept s w h
act-Kept (types_path s) w h = set_path-Kept s w h
act-Kept (types_desc s) w h = same-Kept _ w h refl refl refl refl refl
act-Kept (sets_versions n) w h = set_max_versions-Kept n w h
act-Kept toggles_cas w h = same-Kept _ w h refl refl refl refl refl
act-Kept goes_back w h = back-Kept w h
act-Kept goes_next w h = next-Kept w h
act-Kept sends w h = same-Kept _ w h refl refl refl refl refl
act-Kept succeeds w h = same-Kept _ w h refl refl refl refl refl
act-Kept (fails msg) w h = same-Kept _ w h refl refl refl refl refl

run-Kept : (acts : List Action) (w : Wizard) → Kept w → Kept (run acts w)
unfolding run
run-Kept [] w h = h
run-Kept (a ∷ acts) w h = run-Kept acts (act a w) (act-Kept a w h)

new_wizard-Kept : (mounts : List MountEntry) → Kept (new_wizard mounts)
unfolding new_wizard known_type
new_wizard-Kept mounts = at_start (new_wizard mounts) refl refl

pub run-checked :
    (mounts : List MountEntry) (acts : List Action) → Kept (run acts (new_wizard mounts))
run-checked mounts acts = run-Kept acts (new_wizard mounts) (new_wizard-Kept mounts)
