-- ===== src/Session/Steps.antt =====
-- The session as a step relation: a page load, the answers it waits for, the sign-in flows and
-- every other request, in any order. A step of a sign-in page needs that the guard shows the page.
-- The answer to another request comes at any time after the page load, also while a sign-in waits
-- for its own; `undisturbed` tells the runs in which none of these is a 401. A token that the server
-- grants is not empty.
use tuck.Base.{◌≡◌, Text, Bool, true, false, not, ◌&&◌, some}
use tuck.Session.{
  SessionExpiredInfo, idle, checking, accepted, State, Reply, unauthorized, has, set_namespace,
  logout_user, intercept, start, resume, outlet, auth_guard, auth_login, shell_open,
}
use tuck.Session.Login.{
  busy, submit_token, submit_ldap, granted, accept, reject, enter, leave_for_sso, CallbackParams,
  callback,
}

-- A page load starts from the storage.
abbrev pub load : State → State
load s = start (record s { is_authenticated = false; is_initialized = false; stage = idle })

-- The sign-in page is shown.
unfoldable pub OnSignIn : State → Type 0
OnSignIn s = auth_guard s auth_login ≡ outlet

pub data Step : State → State → Type 0 where
  loads : {s : State} → Step s (load s)
  resumes :
      {s : State}
      → s.is_initialized ≡ false
      → (info : SessionExpiredInfo) (r : Reply) → Step s (resume info r s)
  submits_token :
      {s : State} → OnSignIn s → (sealed : Bool) (v : Text) → Step s (submit_token sealed v s)
  submits_ldap :
      {s : State} → OnSignIn s → (sealed : Bool) (u p : Text) → Step s (submit_ldap sealed u p s)
  grants : {s : State} → OnSignIn s → (t : Text) → has (some t) ≡ true → Step s (granted t s)
  accepts : {s : State} → OnSignIn s → s.stage ≡ checking → Step s (accept s)
  rejects :
      {s : State}
      → OnSignIn s
      → busy s.stage ≡ true
      → (info : SessionExpiredInfo) (r : Reply) (choices : Bool) → Step s (reject info r choices s)
  enters : {s : State} → s.stage ≡ accepted → Step s (enter s)
  leaves : {s : State} → OnSignIn s → (st : Text) → Step s (leave_for_sso st s)
  calls_back : {s : State} → OnSignIn s → (p : CallbackParams) → Step s (callback p s)
  replies :
      {s : State}
      → s.is_initialized ≡ true
      → (info : SessionExpiredInfo) (r : Reply) → Step s (intercept info r s)
  logs_out : {s : State} → shell_open s ≡ true → Step s (logout_user s)
  switches : {s : State} → (n : Text) → Step s (set_namespace n s)

pub data Reached : State → Type 0 where
  loaded : (s : State) → Reached (load s)
  then_step : {s s' : State} → Reached s → Step s s' → Reached s'

-- Whether a step is no 401 to another request while a sign-in waits for an answer.
unfoldable pub calm : {s s' : State} → Step s s' → Bool
unfolding busy unauthorized
calm {s} (replies i info r) = not (busy s.stage && unauthorized r)
calm _ = true

-- Whether every step of a run is calm.
unfoldable pub undisturbed : {s : State} → Reached s → Bool
unfolding calm
undisturbed (loaded s) = true
undisturbed (then_step r t) = undisturbed r && calm t
