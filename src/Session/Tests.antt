-- ===== src/Session/Tests.antt =====
-- The session on concrete steps: a sign-in with a token, a refusal, and single sign-on.
use tuck.Base.{
  ℕ, ◌≡◌, ◌≢◌, refl, ap, ◌↔◌, [], ◌∷◌, codes, true, false, none, some, arith, if◌then◌else◌,
  is_empty, starts_with, ◌&&◌, Text,
}
use tuck.Session.{
  State, SessionExpiredInfo, Stage, idle, asking, checking, accepted, failed, Reply, answered,
  unreachable, refused, unauthorized, emit_logout, auth_root, auth_login, has, start, intercept,
  request_headers, header, shell_open, auth_guard, outlet, navigate,
}
use tuck.Session.Login.{
  submit_token, accept, enter, CallbackParams, callback, sign_in_problem, callback_problem, no_role,
  invalid_password, err_code,
}
use tuck.Session.Guard.{intercept-session}
use tuck.Session.Steps.{
  load, Step, Reached, undisturbed, replies, loaded, then_step, submits_token, accepts, enters,
}
use tuck.Session.Sound.{authenticated-has_token}
use tuck.Session.Sso.{callback-asks_iff, callback-once}

abbrev empty : State
empty = record {
  token = none;
  namespace = some (codes "team");
  expired = none;
  oidc_state = some (codes "s1");
  is_authenticated = false;
  is_initialized = false;
  stage = idle;
}

abbrev signed_in : State
signed_in = enter (accept (submit_token false (codes " tuck_1 ") (load empty)))

abbrev noted : SessionExpiredInfo
noted = record { at = 5; expires_at = none }

signed_in_tests :
    (signed_in.token ≡ some (codes "tuck_1"))
    × (auth_guard signed_in (codes "/dashboard/tokens") ≡ outlet)
    × (auth_guard signed_in (codes "/auth/login") ≡ navigate (codes "/dashboard/status"))
    × (request_headers signed_in
        ≡ (codes "X-Tuck-Token", codes "tuck_1") ∷ (codes "X-Tuck-Namespace", codes "team") ∷ [])
unfolding enter accept submit_token start auth_guard request_headers
signed_in_tests = (refl, refl, refl, refl)

problem_tests :
    (sign_in_problem true (refused 403) ≡ no_role)
    × (sign_in_problem true (refused 401) ≡ invalid_password)
    × (callback_problem (codes "bad code") (refused 400) ≡ err_code)
unfolding sign_in_problem callback_problem
problem_tests = (refl, refl, refl)

first_load : Reached (load empty)
first_load = loaded empty

unfoldable Reached-signed_in : Reached signed_in
unfolding enter accept submit_token start auth_guard tuck.Session.Steps.OnSignIn
Reached-signed_in =
    then_step
      (then_step (then_step first_load (submits_token refl false (codes " tuck_1 ")))
        (accepts refl refl))
      (enters refl)

signed_in_now : signed_in.is_authenticated ≡ true
unfolding enter
signed_in_now = refl

initialized_now : signed_in.is_initialized ≡ true
unfolding enter accept submit_token start
initialized_now = refl

status_of : Reply → ℕ
status_of answered = 200
status_of unreachable = 0
status_of (refused status) = status

forbidden : refused 403 ≢ refused 401
unfolding status_of
forbidden e = ground (arith, ap status_of e)

all_calm : undisturbed Reached-signed_in ≡ true
unfolding undisturbed Reached-signed_in first_load
all_calm = refl

authenticated-has_token_example : has signed_in.token ≡ true
authenticated-has_token_example =
    authenticated-has_token signed_in Reached-signed_in all_calm signed_in_now

-- A 401 to a request of before, which comes while the new token is being checked, takes the token
-- away, and the sign-in goes on without it.
abbrev without_token : State
without_token =
    enter
      (accept (intercept noted (refused 401) (submit_token false (codes " tuck_1 ") (load empty))))

Reached-without_token : Reached without_token
unfolding enter accept submit_token start auth_guard intercept emit_logout
    tuck.Session.Steps.OnSignIn
Reached-without_token =
    then_step
      (then_step
        (then_step (then_step first_load (submits_token refl false (codes " tuck_1 ")))
          (replies refl noted (refused 401)))
        (accepts refl refl))
      (enters refl)

without_token_tests : (without_token.is_authenticated ≡ true) × (without_token.token ≡ none)
unfolding enter accept submit_token start intercept emit_logout
without_token_tests = (refl, refl)

intercept-session_example :
    (request_headers (intercept noted (refused 401) signed_in) ≡ (
      if unauthorized (refused 401)
      then header (codes "X-Tuck-Namespace") signed_in.namespace
      else request_headers signed_in))
    × ((path : Text)
        → auth_guard (intercept noted (refused 401) signed_in) path ≡ (
            if unauthorized (refused 401)
            then if starts_with auth_root path then outlet else navigate auth_login
            else auth_guard signed_in path))
    × ((intercept noted (refused 401) signed_in).expired ≡ (
        if unauthorized (refused 401) && shell_open signed_in
        then some noted
        else signed_in.expired))
intercept-session_example = intercept-session noted (refused 401) signed_in initialized_now

abbrev returned : CallbackParams
returned = record { code = codes "c"; state = codes "s1"; provider_error = none }

callback-asks_iff_example : ((callback returned empty).stage ≡ asking) ↔ (
    (has returned.provider_error ≡ false)
    × (is_empty returned.code ≡ false)
    × (is_empty returned.state ≡ false)
    × (empty.oidc_state ≡ some returned.state))
callback-asks_iff_example = callback-asks_iff returned empty

callback-once_example : (callback returned (callback returned empty)).stage ≡ failed
callback-once_example = callback-once returned returned empty
