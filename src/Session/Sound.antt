-- ===== src/Session/Sound.antt =====
-- What holds in every session that the steps lead to.
use tuck.Base.{
  ap, ◌≡◌, refl, Text, [], ◌∷◌, Bool, true, false, some, arith, starts_with, trim, is_empty,
  Bool-cases, inl, inr, ◌==◌, not, ◌&&◌, ◌||◌,
}
use tuck.Session.{
  SessionExpiredInfo, Stage, unauthorized, idle, asking, checking, accepted, failed, State, Reply,
  answered, unreachable, refused, has, set_namespace, logout_user, emit_logout, intercept, start,
  resume, auth_login,
}
use tuck.Session.Login.{
  busy, submit_token, submit_ldap, granted, accept, reject, enter, leave_for_sso, CallbackParams,
  callback,
}
use tuck.Session.Guard.{auth_guard-outlet}
use tuck.Session.Steps.{
  load, OnSignIn, Step, Reached, loads, resumes, submits_token, submits_ldap, grants, accepts,
  rejects, enters, leaves, calls_back, replies, logs_out, switches, loaded, then_step, calm,
  undisturbed,
}

-- The stages that come after a token was stored.
unfoldable pub holds_token : Stage → Bool
holds_token idle = false
holds_token asking = false
holds_token checking = true
holds_token accepted = true
holds_token failed = false

-- What the session keeps: where a token is counted on there is one, no sign-in is under way before
-- the page load is over, and none in an authenticated session.
unfoldable pub is_sound : State → Bool
unfolding has holds_token busy
is_sound s =
    (not s.is_authenticated || has s.token)
    && (s.is_initialized || (has s.token && not (busy s.stage)))
    && (not (holds_token s.stage) || has s.token)
    && not (busy s.stage && s.is_authenticated)

holds_token-busy : (g : Stage) → busy g ≡ false → holds_token g ≡ false
unfolding holds_token busy
holds_token-busy idle e = refl
holds_token-busy asking e = ground arith
holds_token-busy checking e = ground arith
holds_token-busy accepted e = ground arith
holds_token-busy failed e = refl

has-some : (t : Text) → is_empty t ≡ false → has (some t) ≡ true
unfolding has
has-some [] e = ground arith
has-some (c ∷ t) e = refl

OnSignIn-guarded :
    (s : State) → OnSignIn s → (s.is_initialized ≡ true) × (s.is_authenticated ≡ false)
unfolding OnSignIn starts_with
OnSignIn-guarded s h = auth_guard-outlet s auth_login h

load-is_sound : (s : State) → is_sound (load s) ≡ true
unfolding start is_sound
load-is_sound s = ground arith

logout-is_sound :
    (s : State)
    → is_sound s ≡ true
    → s.is_initialized ≡ true
    → busy s.stage ≡ false
    → is_sound (logout_user s) ≡ true
unfolding is_sound
logout-is_sound s h i b = ground (arith, holds_token-busy s.stage b)

resume-is_sound :
    (s : State) (info : SessionExpiredInfo) (r : Reply)
    → is_sound s ≡ true
    → s.is_initialized ≡ false
    → is_sound (resume info r s) ≡ true
unfolding resume intercept emit_logout is_sound
resume-is_sound s info answered h i = ground (arith, holds_token-busy s.stage)
resume-is_sound s info unreachable h i = ground (arith, holds_token-busy s.stage)
resume-is_sound s info (refused status) h i = ground (arith, holds_token-busy s.stage)

intercept-is_sound :
    (s : State) (info : SessionExpiredInfo) (r : Reply)
    → is_sound s ≡ true
    → s.is_initialized ≡ true
    → not (busy s.stage && unauthorized r) ≡ true
    → is_sound (intercept info r s) ≡ true
unfolding intercept emit_logout is_sound unauthorized
intercept-is_sound s info answered h i b = h
intercept-is_sound s info unreachable h i b = h
intercept-is_sound s info (refused status) h i b = elim (Bool-cases (status == 401)) [
  | inl e ↦ ground (arith, e, b, holds_token-busy s.stage)
  | inr e ↦ rw e h
]

submit_token-is_sound :
    (s : State) (sealed : Bool) (v : Text)
    → is_sound s ≡ true
    → s.is_initialized ≡ true
    → s.is_authenticated ≡ false
    → is_sound (submit_token sealed v s) ≡ true
unfolding submit_token is_sound
submit_token-is_sound s sealed v h i a = ground (arith, has-some (trim v))

submit_ldap-is_sound :
    (s : State) (sealed : Bool) (u p : Text)
    → is_sound s ≡ true
    → s.is_initialized ≡ true
    → s.is_authenticated ≡ false
    → is_sound (submit_ldap sealed u p s) ≡ true
unfolding submit_ldap is_sound
submit_ldap-is_sound s sealed u p h i a = ground arith

reject-is_sound :
    (s : State) (info : SessionExpiredInfo) (r : Reply) (choices : Bool)
    → s.is_initialized ≡ true
    → s.is_authenticated ≡ false
    → is_sound (reject info r choices s) ≡ true
unfolding reject intercept emit_logout is_sound
reject-is_sound s info answered choices i a = ground arith
reject-is_sound s info unreachable choices i a = ground arith
reject-is_sound s info (refused status) choices i a = ground arith

callback-is_sound :
    (s : State) (p : CallbackParams)
    → s.is_initialized ≡ true
    → s.is_authenticated ≡ false
    → is_sound (callback p s) ≡ true
unfolding callback is_sound
callback-is_sound s p i a = ground arith

switch-is_sound : (n : Text) (s : State) → is_sound s ≡ true → is_sound (set_namespace n s) ≡ true
unfolding set_namespace is_sound
switch-is_sound [] s h = h
switch-is_sound (c ∷ n) s h = h

step-is_sound :
    {s s' : State} (t : Step s s') → calm t ≡ true → is_sound s ≡ true → is_sound s' ≡ true
unfolding calm granted accept enter leave_for_sso is_sound
step-is_sound {s} loads c h = load-is_sound s
step-is_sound {s} (resumes i info r) c h = resume-is_sound s info r h i
step-is_sound {s} (submits_token o sealed v) c h =
    submit_token-is_sound s sealed v h (OnSignIn-guarded s o).0 (OnSignIn-guarded s o).1
step-is_sound {s} (submits_ldap o sealed u p) c h =
    submit_ldap-is_sound s sealed u p h (OnSignIn-guarded s o).0 (OnSignIn-guarded s o).1
step-is_sound {s} (grants o t g) c h = ground (arith, OnSignIn-guarded s o)
step-is_sound {s} (accepts o k) c h = ground (arith, OnSignIn-guarded s o)
step-is_sound {s} (rejects o b info r choices) c h =
    reject-is_sound s info r choices (OnSignIn-guarded s o).0 (OnSignIn-guarded s o).1
step-is_sound {s} (enters a) c h = ground (arith, ap holds_token a, ap busy a)
step-is_sound {s} (leaves o st) c h = h
step-is_sound {s} (calls_back o p) c h =
    callback-is_sound s p (OnSignIn-guarded s o).0 (OnSignIn-guarded s o).1
step-is_sound {s} (replies i info r) c h = intercept-is_sound s info r h i c
step-is_sound {s} (logs_out o) c h = logout-is_sound s h (ground arith) (ground arith)
step-is_sound {s} (switches n) c h = switch-is_sound n s h

Reached-is_sound : {s : State} (r : Reached s) → undisturbed r ≡ true → is_sound s ≡ true
unfolding undisturbed
Reached-is_sound (loaded s) u = load-is_sound s
Reached-is_sound (then_step r t) u =
    step-is_sound t (ground (arith, u)) (Reached-is_sound r (ground (arith, u)))

-- In every session that page loads, sign-ins by a token, LDAP or SSO, answers and refusals of other
-- requests, logouts and changes of the namespace lead to, in any order, an authenticated console has
-- a token to send, if no 401 to another request came while a sign-in was waiting for its answers.
pub authenticated-has_token :
    (s : State) (r : Reached s)
    → undisturbed r ≡ true
    → s.is_authenticated ≡ true
    → has s.token ≡ true
unfolding is_sound
authenticated-has_token s r u a = ground (arith, Reached-is_sound r u)
