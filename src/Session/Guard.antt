-- ===== src/Session/Guard.antt =====
-- The guard of the routes, the headers and the interceptor: what a signed-out session can do.
use mathlib.Core.Bool.{not}
use tuck.Base.{
  ◌≡◌, ◌≢◌, refl, ap, ◌++◌, ◌&&◌, Bool-cases, inl, inr, ◌==◌, Text, [], codes, true, none, some,
  arith, starts_with, if◌then◌else◌,
}
use tuck.Session.{
  State, unauthorized, auth_root, auth_login, View, loading, outlet, navigate, auth_guard,
  intercept, emit_logout, request_headers, header, refused, SessionExpiredInfo, Reply, answered,
  unreachable, shell_open,
}

-- The guard's answer where it leads to.
pub settled : State → View → View
unfolding auth_guard
settled s loading = loading
settled s outlet = outlet
settled s (navigate path) = auth_guard s path

-- In an initialized session the guard shows a page after at most one redirect, whatever the
-- address is: there is no loop of redirects.
pub auth_guard_settles :
    (s : State) (path : Text) → s.is_initialized ≡ true → settled s (auth_guard s path) ≡ outlet
unfolding settled auth_guard starts_with
auth_guard_settles s path h = ground arith

-- A page outside of the sign-in pages is shown only in an initialized, authenticated session, and
-- a sign-in page only in an initialized one that is not authenticated.
pub auth_guard-outlet :
    (s : State) (path : Text)
    → auth_guard s path ≡ outlet
    → (s.is_initialized ≡ true) × (s.is_authenticated ≡ not (starts_with (codes "/auth") path))
unfolding auth_guard
auth_guard-outlet s path h = ground arith

header-none : (name : Text) → header name none ≡ []
unfolding header
header-none name = refl

-- However a request of the axios instance ends once the page load is over, a 401 among all ends
-- takes the token out of the headers of the next request, which keep the namespace, sends every
-- address to the sign-in page but those of signing in, which are shown, and notes the end if and
-- only if the shell was there; any other end changes neither headers, nor pages, nor the note.
pub intercept-session :
    (info : SessionExpiredInfo) (r : Reply) (s : State)
    → s.is_initialized ≡ true
    → let s' = intercept info r s in
      (request_headers s' ≡ (
        if unauthorized r
        then header (codes "X-Tuck-Namespace") s.namespace
        else request_headers s))
      × ((path : Text)
          → auth_guard s' path ≡ (
              if unauthorized r
              then if starts_with auth_root path then outlet else navigate auth_login
              else auth_guard s path))
      × (s'.expired ≡ (if unauthorized r && shell_open s then some info else s.expired))
unfolding intercept emit_logout request_headers unauthorized auth_guard
intercept-session info answered s i = (refl, λ path. refl, refl)
intercept-session info unreachable s i = (refl, λ path. refl, refl)
intercept-session info (refused status) s i = elim (Bool-cases (status == 401)) [
  | inl e ↦ elim (Bool-cases s.is_authenticated) [
    | inl a ↦
        rw (e, i, a)
          (
            ap (λ h. h ++ header (codes "X-Tuck-Namespace") s.namespace)
                (header-none (codes "X-Tuck-Token")),
            λ path. refl,
            refl,
          )
    | inr a ↦
        rw (e, i, a)
          (
            ap (λ h. h ++ header (codes "X-Tuck-Namespace") s.namespace)
                (header-none (codes "X-Tuck-Token")),
            λ path. refl,
            refl,
          )
  ]
  | inr e ↦ rw e (refl, λ path. refl, refl)
]

-- An answer, a lost connection and every other error status, 403 among them, leave the session as
-- it is.
pub intercept-other :
    (info : SessionExpiredInfo) (s : State) (r : Reply) → r ≢ refused 401 → intercept info r s ≡ s
unfolding intercept
intercept-other info s answered n = refl
intercept-other info s unreachable n = refl
intercept-other info s (refused status) n = grind arith
