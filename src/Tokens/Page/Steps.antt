-- ===== src/Tokens/Page/Steps.antt =====
-- web/src/pages/dashboard/tokens/tokens.page.tsx as a machine, and what its steps do to the tokens
-- that go.
use tuck.Base.{
  ℕ, ◌≡◌, refl, sym, subst, Text, List, [], ◌∷◌, Bool, true, false, Option, none, keep, is_empty,
  if◌then◌else◌,
}
use tuck.Ids.{delete_all}
use tuck.Tokens.{TokenInfo, TokenRow}
use tuck.Tokens.Page.{
  TokensPage, rows, dissolve, dissolved, Revoked, revoked_ids, revoke, is_expired, row_ids, sweep,
  renew_sent, renew_ended, accessor_copied, copied_over, ask_revoke, token_created, dismiss_reveal,
  toggle_sel, toggle_page, clear_sel, set_query, pick_policy, reset_filters,
}

-- What happens on the page: answers, the clock, the timers and the user's actions, in any order.
pub data Action : Type 0 where
  lists : List Text → Action
  looks_up : (Text → Option TokenInfo) → (Text → Bool) → Action
  ticks : ℕ → Action
  sweeps fires : Action
  revokes : List (Text × Revoked) → Action
  renews : TokenRow → Action
  renewed : Action
  copies : TokenRow → Bool → Action
  copy_fades : TokenRow → Action
  asks : List Text → Action
  creates : TokenInfo → Action
  dismisses : Action
  toggles : Text → Action
  toggles_page clears : Action
  searches : Text → Action
  picks : Option Text → Action
  resets : Action
  turns : ℕ → Action

abbrev pub first_page : TokensPage
first_page = record {
  listed = [];
  info = λ id. none;
  pending = λ id. false;
  now = 0;
  query = [];
  policy = none;
  page = 1;
  sel = [];
  dissolving = [];
  gone = [];
  timers = [];
  fresh = none;
  created = none;
  create_open = false;
  confirm_ids = [];
  confirm_open = false;
  renewing = none;
  copied_acc = none;
}

module _ (lower : Text → Text) where
  unfoldable pub act : Action → TokensPage → TokensPage
  unfolding sweep dissolved revoke renew_sent renew_ended accessor_copied copied_over ask_revoke
      token_created dismiss_reveal toggle_sel toggle_page clear_sel set_query pick_policy
      reset_filters
  act (lists listed) p = record p { listed = listed }
  act (looks_up info pending) p = record p { info = info; pending = pending }
  act (ticks now) p = record p { now = now }
  act sweeps p = sweep p
  act fires p = dissolved p
  act (revokes results) p = revoke results p
  act (renews r) p = renew_sent r p
  act renewed p = renew_ended p
  act (copies r copied) p = accessor_copied r copied p
  act (copy_fades r) p = copied_over r p
  act (asks targets) p = ask_revoke targets p
  act (creates token) p = token_created token p
  act dismisses p = dismiss_reveal p
  act (toggles id) p = toggle_sel id p
  act toggles_page p = toggle_page lower p
  act clears p = clear_sel p
  act (searches q) p = set_query q p
  act (picks k) p = pick_policy k p
  act resets p = reset_filters p
  act (turns n) p = record p { page = n }

  unfoldable pub run : List Action → TokensPage → TokensPage
  unfolding act
  run [] p = p
  run (a ∷ rest) p = run rest (act a p)

-- What an action leaves alone: a page with the same tokens dissolving, timed and gone.
abbrev pub Alike : TokensPage → TokensPage → Type 0
Alike p q = (q.dissolving ≡ p.dissolving) × (q.timers ≡ p.timers) × (q.gone ≡ p.gone)

-- Either alike, or a dissolve, or a timer, or a dissolve with the selection changed.
pub data Change (p : TokensPage) : TokensPage → Type 0 where
  alike : (q : TokensPage) → Alike p q → Change p q
  dissolves : (targets : List Text) (q : TokensPage) → Alike (dissolve targets p) q → Change p q
  fired : Change p (dissolved p)

pub sweep-if :
    (p : TokensPage)
    → sweep p ≡ (
        if is_empty (keep (is_expired p) (rows p))
        then p
        else dissolve (row_ids (keep (is_expired p) (rows p))) p)
unfolding sweep
sweep-if p = refl

if-Change :
    (p q r : TokensPage) (b : Bool) → Change p q → Change p r → Change p (if b then q else r)
if-Change p q r true h k = h
if-Change p q r false h k = k

pub sweep-Change : (p : TokensPage) → Change p (sweep p)
sweep-Change p = subst (Change p) (sym (sweep-if p)) (
    if-Change p p (dissolve (row_ids (keep (is_expired p) (rows p))) p)
      (is_empty (keep (is_expired p) (rows p))) (alike p (refl, refl, refl))
      (dissolves (row_ids (keep (is_expired p) (rows p))) _ (refl, refl, refl)))

revoke-if :
    (results : List (Text × Revoked)) (p : TokensPage)
    → revoke results p ≡ (
        if is_empty (revoked_ids results) then p else record (dissolve (revoked_ids results) p) {
          sel = delete_all (revoked_ids results) p.sel;
        })
unfolding revoke
revoke-if results p = refl

revoke-Change : (results : List (Text × Revoked)) (p : TokensPage) → Change p (revoke results p)
revoke-Change results p = subst (Change p) (sym (revoke-if results p)) (
    if-Change p p _ (is_empty (revoked_ids results)) (alike p (refl, refl, refl))
      (dissolves (revoked_ids results) _ (refl, refl, refl)))

pub act-Change : (lower : Text → Text) (a : Action) (p : TokensPage) → Change p (act lower a p)
unfolding act
act-Change lower (lists listed) p = alike _ (refl, refl, refl)
act-Change lower (looks_up info pending) p = alike _ (refl, refl, refl)
act-Change lower (ticks now) p = alike _ (refl, refl, refl)
act-Change lower sweeps p = sweep-Change p
act-Change lower fires p = fired
act-Change lower (revokes results) p = revoke-Change results p
act-Change lower (renews r) p = alike _ (refl, refl, refl)
act-Change lower renewed p = alike _ (refl, refl, refl)
act-Change lower (copies r copied) p = alike _ (refl, refl, refl)
act-Change lower (copy_fades r) p = alike _ (refl, refl, refl)
act-Change lower (asks targets) p = alike _ (refl, refl, refl)
act-Change lower (creates token) p = alike _ (refl, refl, refl)
act-Change lower dismisses p = alike _ (refl, refl, refl)
act-Change lower (toggles id) p = alike _ (refl, refl, refl)
act-Change lower toggles_page p = alike _ (refl, refl, refl)
act-Change lower clears p = alike _ (refl, refl, refl)
act-Change lower (searches q) p = alike _ (refl, refl, refl)
act-Change lower (picks k) p = alike _ (refl, refl, refl)
act-Change lower resets p = alike _ (refl, refl, refl)
act-Change lower (turns n) p = alike _ (refl, refl, refl)
