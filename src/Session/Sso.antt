-- ===== src/Session/Sso.antt =====
-- Single sign-on: a callback finishes only a sign-in that this browser started, and only once.
use tuck.Base.{
  ◌≡◌, sym, ap, ◌↔◌, Text, true, false, Option, none, some, arith, is_empty, text_eq_iff,
}
use tuck.Session.{State, asking, failed, has}
use tuck.Session.Login.{CallbackParams, callback, may_exchange, same_state}

-- The guard on a stored state, for equal and for different texts.
same_state-given :
    (st t : Text) → (same_state st (some t) ≡ true) ↔ ((st ≡ t) × (is_empty st ≡ false))
unfolding same_state
same_state-given st t = (
  λ h. let e = (text_eq_iff st t).0 (ground arith) in (e, ground (arith, ap is_empty e)),
  λ h. ground (arith, (text_eq_iff st t).1 h.0, ap is_empty h.0),
)

same_state_iff :
    (st : Text) (o : Option Text)
    → (same_state st o ≡ true) ↔ ((o ≡ some st) × (is_empty st ≡ false))
unfolding same_state
same_state_iff st none = (λ h. ground arith, λ h. cc (h.0))
same_state_iff st (some t) =
    let (to, from) = same_state-given st t in
    (λ h. (ap some (sym (to h).0), (to h).1), λ h. from (cc (h.0), h.1))

-- The callback asks the server for a token if and only if the provider reported no error, the
-- address has a code, and its state is the one that this browser stored, not empty.
pub callback-asks_iff :
    (p : CallbackParams) (s : State)
    → ((callback p s).stage ≡ asking) ↔ (
        (has p.provider_error ≡ false)
        × (is_empty p.code ≡ false)
        × (is_empty p.state ≡ false)
        × (s.oidc_state ≡ some p.state))
unfolding callback may_exchange
callback-asks_iff p s = ground (arith, same_state_iff p.state s.oidc_state)

-- A callback uses the stored state up: another one straight after it, whatever its address, fails
-- without asking for a token.
pub callback-once : (p q : CallbackParams) (s : State) → (callback q (callback p s)).stage ≡ failed
unfolding callback may_exchange same_state
callback-once p q s = ground arith
