-- ===== src/Session/Login.antt =====
-- The sign-in flows, cut at their requests: `signIn` and `startSso` of
-- web/src/pages/auth/login/login.page.tsx and the effect of
-- web/src/pages/auth/oidc-callback/oidc-callback.page.tsx.
use tuck.Base.{
  Text, codes, Bool, true, false, not, ◌&&◌, ◌||◌, Option, none, some, ◌==◌, trim, text_eq,
  has_text, is_empty, if◌then◌else◌,
}
use tuck.Session.{
  SessionExpiredInfo, Stage, idle, asking, checking, accepted, failed, State, Reply, answered,
  unreachable, refused, has, set_token, remove_token, clear_session_expired, intercept,
}

-- `busy` of the login page
unfoldable pub busy : Stage → Bool
busy idle = false
busy asking = true
busy checking = true
busy accepted = true
busy failed = false

-- `signIn` with the token form, to its request.
unfoldable pub submit_token : Bool → Text → State → State
unfolding busy trim
submit_token sealed value s =
    if busy s.stage || sealed
    then s
    else if is_empty (trim value)
    then record s { stage = failed }
    else record (set_token (trim value) s) { stage = checking }

-- `signIn` with LDAP, to its first request.
unfoldable pub submit_ldap : Bool → Text → Text → State → State
unfolding busy trim
submit_ldap sealed username password s =
    if busy s.stage || sealed
    then s
    else if is_empty (trim username) || is_empty password
    then record s { stage = failed }
    else record (remove_token s) { stage = asking }

-- LDAP login and the code exchange give a token.
unfoldable pub granted : Text → State → State
granted t s = record (set_token t s) { stage = checking }

-- `lookupSelf` answers.
unfoldable pub accept : State → State
accept s = record (clear_session_expired s) { stage = accepted }

-- The `catch` of both pages. `choices` are the namespaces of a 409 to an LDAP login.
unfoldable pub reject : SessionExpiredInfo → Reply → Bool → State → State
unfolding intercept
reject info r choices s = record (remove_token (intercept info r s)) {
  stage = if choices then idle else failed;
}

-- After `door.shut()`; the guard then takes the page with its stage away.
unfoldable pub enter : State → State
enter s = record s { is_authenticated = true; stage = idle }

-- `startSso` when the server has sent the state and the address.
unfoldable pub leave_for_sso : Text → State → State
leave_for_sso st s = record s { oidc_state = some st }

-- What the pages say of a failed request.
pub data Problem : Type 0 where
  err_network invalid_password no_role not_configured throttled invalid_token err_server : Problem
  err_code err_invalid_state err_token err_idp : Problem

-- The problem that `signIn` shows.
unfoldable pub sign_in_problem : Bool → Reply → Problem
sign_in_problem is_ldap answered = err_server
sign_in_problem is_ldap unreachable = err_network
sign_in_problem is_ldap (refused status) =
    if is_ldap && status == 401
    then invalid_password
    else if is_ldap && status == 403
    then no_role
    else if is_ldap && status == 503
    then not_configured
    else if is_ldap && status == 429
    then throttled
    else if status == 401 || status == 403
    then invalid_token
    else err_server

-- The problem that the callback page shows; `msg` is the server's text.
unfoldable pub callback_problem : Text → Reply → Problem
unfolding has_text
callback_problem msg answered = err_network
callback_problem msg unreachable = err_network
callback_problem msg (refused status) =
    if status == 400 && has_text (codes "code") msg
    then err_code
    else if status == 400
    then err_invalid_state
    else if status == 401
    then err_token
    else if status == 403
    then no_role
    else if status == 502
    then err_idp
    else if status == 503
    then not_configured
    else if status == 429
    then throttled
    else err_server

pub record CallbackParams : Type 0 where
  pub code : Text
  pub state : Text
  pub provider_error : Option Text

-- The state of the address is the one that this browser stored.
unfoldable pub same_state : Text → Option Text → Bool
unfolding text_eq
same_state st none = false
same_state st (some expected) = not (is_empty expected) && text_eq st expected

-- Whether the callback exchanges the code.
unfoldable pub may_exchange : CallbackParams → Option Text → Bool
unfolding has same_state
may_exchange p expected =
    not (has p.provider_error)
    && not (is_empty p.code)
    && not (is_empty p.state)
    && same_state p.state expected

-- The effect of the callback page, to its request: the stored state is used up.
unfoldable pub callback : CallbackParams → State → State
unfolding may_exchange
callback p s =
    let used = record s { oidc_state = none } in
    if may_exchange p s.oidc_state
    then record (remove_token used) { stage = asking }
    else record used { stage = failed }
