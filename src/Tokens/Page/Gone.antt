-- ===== src/Tokens/Page/Gone.antt =====
-- Tokens whose time is up on web/src/pages/dashboard/tokens/tokens.page.tsx.
use tuck.Base.{
  ℕ, ◌≡◌, refl, sym, ap, ◌∙◌, subst, Text, List, [], ◌∷◌, Bool, true, false, not, ◌&&◌, ◌||◌,
  Option, none, some, keep, any, is_empty, text_eq, includes, leb, if◌then◌else◌, Bool-cases, inl,
  inr, arith,
}
use tuck.Tokens.{TokenRow}
use tuck.Tokens.Page.{TokensPage, ids, rows, dissolve, fire, dissolved, is_expired, row_ids, sweep}
use tuck.Ids.{
  add_all, same_includes, any-append, includes-add_all, includes-delete_all, includes-keep_out,
}
use tuck.Tokens.Page.Steps.{
  Action, first_page, act, run, Alike, Change, alike, dissolves, fired, sweep-if, sweep-Change,
  act-Change,
}

-- Each token that dissolves has a timer that runs for it.
abbrev Timed : TokensPage → Type 0
Timed p = (id : Text) → includes p.dissolving id ≡ true → any (λ ts. includes ts id) p.timers ≡ true

dissolve-Timed : (targets : List Text) (p : TokensPage) → Timed p → Timed (dissolve targets p)
unfolding dissolve
dissolve-Timed targets p h id e = ground (
  arith,
  e,
  h id,
  includes-add_all targets p.dissolving id,
  any-append (λ ts. includes ts id) p.timers (targets ∷ []),
)

fire-Timed :
    (timers : List (List Text)) (p : TokensPage)
    → p.timers ≡ timers
    → Timed p
    → Timed (fire timers p)
unfolding fire
fire-Timed [] p same h = h
fire-Timed (ts ∷ rest) p same h = λ id e.
    let held =
      subst (λ t. includes p.dissolving id ≡ true → any (λ ts. includes ts id) t ≡ true) same
        (h id) in
    ground (arith, e, held, includes-delete_all ts p.dissolving id)

dissolved-Timed : (p : TokensPage) → Timed p → Timed (dissolved p)
unfolding dissolved
dissolved-Timed p h = fire-Timed p.timers p refl h

Alike-Timed : (p q : TokensPage) → Alike p q → Timed p → Timed q
Alike-Timed p q (d, t, g) h id e =
    subst (λ ts. any (λ t. includes t id) ts ≡ true) (sym t)
      (h id (subst (λ ds. includes ds id ≡ true) d e))

Change-Timed : (p q : TokensPage) → Change p q → Timed p → Timed q
Change-Timed p q (alike _ same) h = Alike-Timed p q same h
Change-Timed p q (dissolves targets _ same) h =
    Alike-Timed (dissolve targets p) q same (dissolve-Timed targets p h)
Change-Timed p q fired h = dissolved-Timed p h

run-Timed :
    (lower : Text → Text) (steps : List Action) (p : TokensPage)
    → Timed p
    → Timed (run lower steps p)
unfolding run
run-Timed lower [] p h = h
run-Timed lower (a ∷ rest) p h =
    run-Timed lower rest (act lower a p) (Change-Timed p (act lower a p) (act-Change lower a p) h)

fire-gone :
    (timers : List (List Text)) (p : TokensPage) (id : Text)
    → includes p.gone id ≡ true
    → includes (fire timers p).gone id ≡ true
unfolding fire
fire-gone [] p id h = h
fire-gone (ts ∷ rest) p id h = ground (arith, h, includes-add_all ts p.gone id)

dissolved-gone :
    (p : TokensPage) (id : Text) → includes p.gone id ≡ true → includes (dissolved p).gone id ≡ true
unfolding dissolved
dissolved-gone p id h = fire-gone p.timers p id h

dissolve-gone :
    (targets : List Text) (p q : TokensPage) (id : Text)
    → q.gone ≡ (dissolve targets p).gone
    → includes p.gone id ≡ true
    → includes q.gone id ≡ true
unfolding dissolve
dissolve-gone targets p q id g h = subst (λ gs. includes gs id ≡ true) (sym g) h

Change-gone :
    (p q : TokensPage) (id : Text)
    → Change p q
    → includes p.gone id ≡ true
    → includes q.gone id ≡ true
Change-gone p q id (alike _ (d, t, g)) h = subst (λ gs. includes gs id ≡ true) (sym g) h
Change-gone p q id (dissolves targets _ (d, t, g)) h = dissolve-gone targets p q id g h
Change-gone p q id fired h = dissolved-gone p id h

run-gone :
    (lower : Text → Text) (steps : List Action) (p : TokensPage) (id : Text)
    → includes p.gone id ≡ true
    → includes (run lower steps p).gone id ≡ true
unfolding run
run-gone lower [] p id h = h
run-gone lower (a ∷ rest) p id h =
    run-gone lower rest (act lower a p) id
      (Change-gone p (act lower a p) id (act-Change lower a p) h)

-- All timers that run, one after the other.
unfoldable pub all_fired : List (List Text) → TokensPage → TokensPage
unfolding dissolved
all_fired [] p = p
all_fired (ts ∷ rest) p = all_fired rest (dissolved p)

fired-cons :
    (p : TokensPage) (ts : List Text) (rest : List (List Text))
    → p.timers ≡ ts ∷ rest
    → ((dissolved p).timers ≡ rest) × ((dissolved p).gone ≡ add_all ts p.gone)
unfolding dissolved
fired-cons p ts rest e = (ap (λ t. (fire t p).timers) e, ap (λ t. (fire t p).gone) e)

all_fired-gone :
    (timers : List (List Text)) (p : TokensPage) (id : Text)
    → p.timers ≡ timers
    → (any (λ ts. includes ts id) timers || includes p.gone id) ≡ true
    → includes (all_fired timers p).gone id ≡ true
unfolding all_fired
all_fired-gone [] p id e h = h
all_fired-gone (ts ∷ rest) p id e h =
    let after = fired-cons p ts rest e in
    all_fired-gone rest (dissolved p) id after.0
      (ground (arith, h, ap (λ gs. includes gs id) after.1, includes-add_all ts p.gone id))

-- The time of the row is up.
unfoldable pub late : ℕ → TokenRow → Bool
late now r = elim r.expires_at [ none ↦ false | some end ↦ leb end now ]

-- The tokens whose time is up, those that dissolve already included.
unfoldable pub overdue : TokensPage → List Text
unfolding late
overdue p = row_ids (keep (late p.now) (rows p))

late_or_not :
    (o : Option ℕ) (now : ℕ) (b : Bool)
    → (elim o as (λ x. Bool) [ none ↦ false | some end ↦ leb end now && not b ])
      ≡ ((elim o as (λ x. Bool) [ none ↦ false | some end ↦ leb end now ]) && not b)
late_or_not none now b = refl
late_or_not (some end) now b = refl

is_expired-late :
    (p : TokensPage) (r : TokenRow)
    → is_expired p r ≡ (late p.now r && not (includes p.dissolving r.id))
unfolding is_expired late
is_expired-late p r = late_or_not r.expires_at p.now (includes p.dissolving r.id)

row_ids-keep :
    (f : TokenRow → Bool) (r : TokenRow) (rs : List TokenRow) (id : Text)
    → includes (row_ids (keep f (r ∷ rs))) id
      ≡ ((f r && text_eq id r.id) || includes (row_ids (keep f rs)) id)
row_ids-keep f r rs id = elim (Bool-cases (f r)) [ inl e ↦ rw e refl | inr e ↦ rw e refl ]

overdue-expired :
    (p : TokensPage) (id : Text) (rs : List TokenRow)
    → includes (row_ids (keep (late p.now) rs)) id ≡ true
    → (includes (row_ids (keep (is_expired p) rs)) id || includes p.dissolving id) ≡ true
overdue-expired p id [] h = cc h
overdue-expired p id (r ∷ rs) h = ground (
  arith,
  h,
  row_ids-keep (late p.now) r rs id,
  row_ids-keep (is_expired p) r rs id,
  is_expired-late p r,
  same_includes id r.id p.dissolving,
  overdue-expired p id rs,
)

dissolving-dissolve :
    (targets : List Text) (p : TokensPage) (id : Text)
    → includes (dissolve targets p).dissolving id
      ≡ (includes targets id || includes p.dissolving id)
unfolding dissolve
dissolving-dissolve targets p id = includes-add_all targets p.dissolving id

empty-row_ids :
    (rs : List TokenRow) (id : Text) → is_empty rs ≡ true → includes (row_ids rs) id ≡ false
empty-row_ids [] id e = refl
empty-row_ids (r ∷ rs) id e = cc e

sweep-dissolving :
    (p : TokensPage) (id : Text)
    → includes (row_ids (keep (late p.now) (rows p))) id ≡ true
    → includes (sweep p).dissolving id ≡ true
sweep-dissolving p id h =
    let due = overdue-expired p id (rows p) h in
    elim (Bool-cases (is_empty (keep (is_expired p) (rows p)))) [
      | inl e ↦
          let none_due = empty-row_ids (keep (is_expired p) (rows p)) id e in
          let idle =
            sweep-if p
            ∙ ap (λ b. if b then p else dissolve (row_ids (keep (is_expired p) (rows p))) p) e in
          subst (λ (q : TokensPage). includes q.dissolving id ≡ true) (sym idle)
            (ground (arith, due, none_due))
      | inr e ↦
          let busy =
            sweep-if p
            ∙ ap (λ b. if b then p else dissolve (row_ids (keep (is_expired p) (rows p))) p) e in
          subst (λ (q : TokensPage). includes q.dissolving id ≡ true) (sym busy)
            (dissolving-dissolve (row_ids (keep (is_expired p) (rows p))) p id ∙ due)
    ]

Timed-first : Timed first_page
Timed-first id e = cc e

out_of_list : (p : TokensPage) (id : Text) → includes p.gone id ≡ true → includes (ids p) id ≡ false
unfolding ids
out_of_list p id h = ground (arith, h, includes-keep_out p.gone p.listed id)

overdue-rows : (p : TokensPage) → overdue p ≡ row_ids (keep (late p.now) (rows p))
unfolding overdue
overdue-rows p = refl

-- A token whose time is up when the page sweeps, whatever has happened before, leaves the list
-- once the timers that run by then have passed, and does not come back, whatever happens after:
-- not with a new list of the server either.
pub sweep-gone :
    (lower : Text → Text) (before after : List Action) (id : Text)
    → includes (overdue (run lower before first_page)) id ≡ true
    → includes
        (ids (
          run lower after (
            all_fired
              (sweep (run lower before first_page)).timers
              (sweep (run lower before first_page)))))
        id
      ≡ false
sweep-gone lower before after id h =
    let p = run lower before first_page in
    let timed =
      Change-Timed p (sweep p) (sweep-Change p) (run-Timed lower before first_page Timed-first) in
    let due = subst (λ xs. includes xs id ≡ true) (overdue-rows p) h in
    let timer = timed id (sweep-dissolving p id due) in
    out_of_list _ id (
      run-gone lower after _ id
        (all_fired-gone (sweep p).timers (sweep p) id refl (ground (arith, timer))))
