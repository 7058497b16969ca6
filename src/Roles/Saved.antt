-- ===== src/Roles/Saved.antt =====
-- The drawer of web/src/pages/dashboard/token-roles/components/role-drawer.tsx, opened to edit a
-- role and saved as it is.
use tuck.Base.{
  Option, none, ℕ, ◌≡◌, refl, ap, ◌∙◌, Text, [], ◌∷◌, Bool, true, false, not, ◌&&◌, ◌||◌, some, all,
  is_empty, trim, is_digit, print_nat, value_of, value_of-print_nat, IsDigits, IsDigits-print_nat,
  ltb, leb, ◌==◌, if◌then◌else◌, Bool-cases, inl, inr, arith,
}
use tuck.Durations.{Dur, null, secs, parse_dur, fmt_short, to_go_duration}
use tuck.Durations.Short.{parse_dur-fmt_short}
use tuck.Durations.Go.{seconds_sent, seconds_sent-to_go_duration}
use tuck.Roles.{RoleView, name_re, policy_re}
use tuck.Roles.Drawer.{
  edit, Form, seed_form, seed_name, RoleDrawer, open_drawer, name_err, name_wrong, name_ok,
  taken_name, policies_err, is_nan, is_over, dur_err, max_err, uses_err, count, err_count,
  TokenRolePut, secs_of, nonzero, role_body, save,
}

-- What `parseDur` makes of `fmtShort`.
short : ℕ → Dur
short s = if s == 0 then null else secs s

zero_short : (s : ℕ) → s ≡ 0 → parse_dur (fmt_short s) ≡ null
unfolding parse_dur fmt_short
zero_short s h = rw h refl

parse_dur-short : (s : ℕ) → parse_dur (fmt_short s) ≡ short s
unfolding short
parse_dur-short s = elim (Bool-cases (s == 0)) [
  | inl e ↦ rw (zero_short s (ground (arith, e)), e) refl
  | inr e ↦ rw e (parse_dur-fmt_short s (ground (arith, e)))
]

secs_of-short : (s : ℕ) → secs_of (short s) ≡ s
unfolding short secs_of
secs_of-short s = elim (Bool-cases (s == 0)) [
  | inl e ↦ rw e (ground (arith, e))
  | inr e ↦ rw e refl
]

is_nan-short : (s : ℕ) → is_nan (short s) ≡ false
unfolding short is_nan
is_nan-short s = elim (Bool-cases (s == 0)) [ inl e ↦ rw e refl | inr e ↦ rw e refl ]

is_over-short : (s t : ℕ) → is_over (short s) (short t) ≡ (ltb 0 s && ltb 0 t && ltb t s)
unfolding short is_over
is_over-short s t = elim (Bool-cases (s == 0)) [
  | inl e ↦ rw e (ground (arith, e))
  | inr e ↦ elim (Bool-cases (t == 0)) [
    | inl f ↦ rw (e, f) (ground (arith, f))
    | inr f ↦ rw (e, f) refl
  ]
]

-- A lifetime without an error: none of the two is set, or it is within the maximum.
unfoldable pub within : ℕ → ℕ → Bool
within s t = s == 0 || t == 0 || leb s t

dur_err-short : (s t : ℕ) → within s t ≡ true → dur_err (fmt_short s) (fmt_short t) ≡ false
unfolding dur_err within
dur_err-short s t h =
    rw (parse_dur-short s, parse_dur-short t, is_nan-short s, is_nan-short t, is_over-short s t)
      (ground (arith, h))

IsDigits-all : (s : Text) → IsDigits s → all is_digit s ≡ true
IsDigits-all [] h = refl
IsDigits-all (c ∷ s) h = rw (h.0, IsDigits-all s h.1) refl

abbrev seeded : RoleView → Form
seeded role = seed_form edit (some role)

seeded-uses :
    (role : RoleView)
    → (seeded role).uses ≡ (if role.max_uses == 0 then [] else print_nat role.max_uses)
unfolding seed_form
seeded-uses role = refl

uses_err-seeded : (role : RoleView) → uses_err (seeded role) ≡ false
unfolding uses_err
uses_err-seeded role = elim (Bool-cases (role.max_uses == 0)) [
  | inl e ↦ rw (seeded-uses role, e) refl
  | inr e ↦
      rw
        (
          seeded-uses role,
          e,
          IsDigits-all (print_nat role.max_uses) (IsDigits-print_nat role.max_uses),
        )
        (ground arith)
]

uses-none : (role : RoleView) → (role.max_uses == 0) ≡ true → (seeded role).uses ≡ []
uses-none role e = seeded-uses role ∙ rw e refl

uses-digits :
    (role : RoleView) → (role.max_uses == 0) ≡ false → (seeded role).uses ≡ print_nat role.max_uses
uses-digits role e = seeded-uses role ∙ rw e refl

value_of-none : value_of [] ≡ 0
unfolding value_of
value_of-none = refl

uses-seeded : (role : RoleView) → value_of (seeded role).uses ≡ role.max_uses
uses-seeded role = elim (Bool-cases (role.max_uses == 0)) [
  | inl e ↦ ap value_of (uses-none role e) ∙ value_of-none ∙ ground (arith, e)
  | inr e ↦ ap value_of (uses-digits role e) ∙ value_of-print_nat role.max_uses
]

-- The body that says what a role is.
unfoldable pub put_of : RoleView → TokenRolePut
put_of role = record {
  max_ttl = to_go_duration role.max_ttl;
  max_uses = nonzero role.max_uses;
  period = to_go_duration role.period;
  policies = role.policies;
  renewable = role.renewable;
  ttl = to_go_duration role.ttl;
}

role_body-seeded : (role : RoleView) → role_body (seeded role) ≡ put_of role
unfolding role_body put_of seed_form
role_body-seeded role =
    rw
      (
        parse_dur-short role.max_ttl,
        parse_dur-short role.period,
        parse_dur-short role.ttl,
        secs_of-short role.max_ttl,
        secs_of-short role.period,
        secs_of-short role.ttl,
      )
      (ap
        (λ n. record {
          max_ttl = to_go_duration role.max_ttl;
          max_uses = n;
          period = to_go_duration role.period;
          policies = role.policies;
          renewable = role.renewable;
          ttl = to_go_duration role.ttl;
        })
        (ap nonzero (uses-seeded role)))

name_re-given : (s : Text) → name_re s ≡ true → is_empty s ≡ false
unfolding name_re
name_re-given [] h = cc
name_re-given (c ∷ s) h = refl

-- A role that the form takes as it is.
unfoldable pub well_set : RoleView → Bool
unfolding within
well_set role =
    name_re (trim role.name)
    && not (is_empty role.policies)
    && all policy_re role.policies
    && within role.ttl role.max_ttl
    && within role.period role.max_ttl

err_count-none :
    (d : RoleDrawer)
    → name_err d ≡ name_ok
    → policies_err d.form ≡ false
    → dur_err d.form.ttl d.form.max_ ≡ false
    → max_err d.form ≡ false
    → dur_err d.form.period d.form.max_ ≡ false
    → uses_err d.form ≡ false
    → err_count d ≡ 0
unfolding err_count count name_wrong
err_count-none d n p t m r u = rw (n, p, t, r, m, u) refl

name_err-seeded :
    (role : RoleView) (d : RoleDrawer)
    → name_re (trim role.name) ≡ true
    → name_err (open_drawer edit (some role) d) ≡ name_ok
unfolding name_err open_drawer seed_form seed_name taken_name
name_err-seeded role d h = rw (name_re-given (trim role.name) h, h) refl

err_count-seeded :
    (role : RoleView) (d : RoleDrawer)
    → well_set role ≡ true
    → err_count (open_drawer edit (some role) d) ≡ 0
unfolding well_set open_drawer seed_form policies_err max_err
err_count-seeded role d h =
    err_count-none (open_drawer edit (some role) d) (name_err-seeded role d (ground (arith, h)))
      (ground (arith, h)) (dur_err-short role.ttl role.max_ttl (ground (arith, h)))
      (ap is_nan (parse_dur-short role.max_ttl) ∙ is_nan-short role.max_ttl)
      (dur_err-short role.period role.max_ttl (ground (arith, h))) (uses_err-seeded role)

-- The uses that a body sends, where a missing field stands for 0.
pub uses_sent : Option ℕ → ℕ
uses_sent none = 0
uses_sent (some n) = n

uses_sent-nonzero : (n : ℕ) → uses_sent (nonzero n) ≡ n
unfolding uses_sent nonzero
uses_sent-nonzero n = elim (Bool-cases (n == 0)) [
  | inl e ↦ rw e (ground (arith, e))
  | inr e ↦ rw e refl
]

save-sent :
    (role : RoleView) (d : RoleDrawer)
    → well_set role ≡ true
    → (save (open_drawer edit (some role) d)).0 ≡ some (trim role.name, put_of role)
unfolding save put_of open_drawer
save-sent role d h =
    rw (err_count-seeded role d h) (ap (λ b. some (trim role.name, b)) (role_body-seeded role))

-- A role whose name and policies have the right form and whose lifetimes are within its maximum is
-- saved as it is: when the drawer is opened to edit it and nothing is changed, `save` sends under its
-- name a body with its policies and its renewal, whose lifetimes and uses, a missing one read as 0,
-- are read back as the seconds and the number that the role has.
pub save-put_of :
    (role : RoleView) (d : RoleDrawer)
    → well_set role ≡ true
    → let b = put_of role in
      ((save (open_drawer edit (some role) d)).0 ≡ some (trim role.name, b))
      × (b.policies ≡ role.policies)
      × (b.renewable ≡ role.renewable)
      × (seconds_sent b.ttl ≡ some role.ttl)
      × (seconds_sent b.max_ttl ≡ some role.max_ttl)
      × (seconds_sent b.period ≡ some role.period)
      × (uses_sent b.max_uses ≡ role.max_uses)
unfolding put_of
save-put_of role d h = (
  save-sent role d h,
  refl,
  refl,
  seconds_sent-to_go_duration role.ttl,
  seconds_sent-to_go_duration role.max_ttl,
  seconds_sent-to_go_duration role.period,
  uses_sent-nonzero role.max_uses,
)
