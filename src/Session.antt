-- ===== src/Session.antt =====
-- The console's session: the storage of web/src/shared/auth/token.ts and
-- web/src/pages/auth/session-expired.ts, the interceptors of web/src/shared/api/axios.ts, the
-- listeners of web/src/shared/emitters/emit-logout.ts in the order in which they subscribe
-- (web/src/shared/hocs/auth-provider/auth-provider.tsx, then the shell of
-- web/src/app/layouts/dashboard/main-layout/layout.tsx), web/src/shared/hooks/use-auth.ts and the
-- guard of web/src/shared/hocs/guards/auth-guard.tsx. Storage works; one tab is modelled.
pub mod Login
pub mod Guard
pub mod Steps
pub mod Sound
pub mod Sso
mod Tests
use tuck.Base.{
  ℕ, Text, List, [], ◌∷◌, ◌++◌, codes, Bool, true, false, Option, none, some, ◌==◌, if◌then◌else◌,
  starts_with, is_empty,
}

-- `SessionExpiredInfo`, with times in milliseconds.
pub record SessionExpiredInfo : Type 0 where
  pub at : ℕ
  pub expires_at : Option ℕ

-- Where an asynchronous sign-in stands: `asking` waits for a token, `checking` for `lookupSelf`,
-- `accepted` for the door, `failed` shows a problem.
pub data Stage : Type 0 where
  idle asking checking accepted failed : Stage

pub record State : Type 0 where
  pub token : Option Text
  pub namespace : Option Text
  pub expired : Option SessionExpiredInfo
  pub oidc_state : Option Text
  pub is_authenticated : Bool
  pub is_initialized : Bool
  pub stage : Stage

-- How a request ends: with an answer, with an error status, or without a response.
pub data Reply : Type 0 where
  answered unreachable : Reply
  refused : ℕ → Reply

-- `error.response && error.response.status === 401`
unfoldable pub unauthorized : Reply → Bool
unauthorized answered = false
unauthorized unreachable = false
unauthorized (refused status) = status == 401

-- A string that is there and not empty, as a condition.
unfoldable pub has : Option Text → Bool
has none = false
has (some []) = false
has (some (c ∷ s)) = true

abbrev pub set_token : Text → State → State
set_token t s = record s { token = some t }

abbrev pub remove_token : State → State
remove_token s = record s { token = none }

-- `setNamespace`
unfoldable pub set_namespace : Text → State → State
set_namespace [] s = record s { namespace = none }
set_namespace (c ∷ n) s = record s { namespace = some (c ∷ n) }

abbrev pub mark_session_expired : SessionExpiredInfo → State → State
mark_session_expired info s = record s { expired = some info }

abbrev pub clear_session_expired : State → State
clear_session_expired s = record s { expired = none }

-- `logoutUser` of the provider, and the function that `useLogout` returns.
abbrev pub logout_user : State → State
logout_user s = record (remove_token s) { is_authenticated = false }

unfoldable pub header : Text → Option Text → List (Text × Text)
header name none = []
header name (some []) = []
header name (some (c ∷ v)) = (name, c ∷ v) ∷ []

-- The request interceptor: the headers it adds.
unfoldable pub request_headers : State → List (Text × Text)
unfolding header
request_headers s =
    header (codes "X-Tuck-Token") s.token ++ header (codes "X-Tuck-Namespace") s.namespace

-- The shell is on the page in an initialized, authenticated session; the page for an unknown
-- address, which has no shell and makes no request, is left out.
abbrev pub shell_open : State → Bool
shell_open s = if s.is_initialized then s.is_authenticated else false

-- `logoutEvents.emit()`: the provider's listener, then the shell's while it is mounted.
unfoldable pub emit_logout : SessionExpiredInfo → State → State
emit_logout info s =
    if shell_open s then mark_session_expired info (logout_user s) else logout_user s

-- The response interceptor; `info` is what the shell's listener would note now.
unfoldable pub intercept : SessionExpiredInfo → Reply → State → State
unfolding emit_logout
intercept info answered s = s
intercept info unreachable s = s
intercept info (refused status) s = if status == 401 then emit_logout info s else s

-- The effect of `AuthProvider` up to its request: without a token it is over.
unfoldable pub start : State → State
unfolding has
start s = if has s.token then s else record s { is_authenticated = false; is_initialized = true }

-- The rest of the effect, when `lookupSelf` ends.
unfoldable pub resume : SessionExpiredInfo → Reply → State → State
unfolding intercept
resume info answered s = record s { is_authenticated = true; is_initialized = true }
resume info unreachable s = record (logout_user s) { is_initialized = true }
resume info (refused status) s = record (logout_user (intercept info (refused status) s)) {
  is_initialized = true;
}

-- `AuthGuard`
pub data View : Type 0 where
  loading outlet : View
  navigate : Text → View

abbrev pub auth_root : Text
auth_root = codes "/auth"

abbrev pub auth_login : Text
auth_login = codes "/auth/login"

abbrev pub dashboard_status : Text
dashboard_status = codes "/dashboard/status"

unfoldable pub auth_guard : State → Text → View
unfolding starts_with
auth_guard s path =
    if s.is_initialized
    then if s.is_authenticated
      then if starts_with auth_root path then navigate dashboard_status else outlet
      else if starts_with auth_root path
      then outlet
      else navigate auth_login
    else loading
