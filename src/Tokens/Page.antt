-- ===== src/Tokens/Page.antt =====
-- The state of web/src/pages/dashboard/tokens/tokens.page.tsx and its handlers. `listed` is the
-- list of the server, `info` and `pending` the lookups, `timers` the tokens of each dissolve that
-- is under way, in the order in which they were started. Sets of ids are lists. Requests are made
-- by the steps that follow on them; toasts and scrolling are left out.
pub mod Steps
pub mod Gone
pub mod Pages
mod Tests
use tuck.Base.{
  ℕ, zero, suc, ◌+◌, ◌-◌, ◌*◌, ◌/◌, min, max, Text, List, [], ◌∷◌, ◌++◌, codes, Bool, true, false,
  not, ◌&&◌, ◌||◌, Option, none, some, map, keep, length, take, drop, all, any, is_empty, text_eq,
  trim, has_text, includes, find_first, sort_by, ltb, leb, ◌==◌, if◌then◌else◌,
}
use tuck.Ids.{add_all, delete_all}
use tuck.Tokens.{TokenInfo, TokenRow, to_row, left_ms, or_else}

abbrev pub per_page : ℕ
per_page = 20

abbrev pub enrich_cap : ℕ
enrich_cap = 100

-- `SOON`, in milliseconds
abbrev pub soon_ms : ℕ
soon_ms = 900000

pub record TokensPage : Type 0 where
  pub listed : List Text
  pub info : Text → Option TokenInfo
  pub pending : Text → Bool
  pub now : ℕ
  pub query : Text
  pub policy : Option Text
  pub page : ℕ
  pub sel : List Text
  pub dissolving : List Text
  pub gone : List Text
  pub timers : List (List Text)
  pub fresh : Option Text
  pub created : Option TokenInfo
  pub create_open : Bool
  pub confirm_ids : List Text
  pub confirm_open : Bool
  pub renewing : Option Text
  pub copied_acc : Option Text

-- `ids`
unfoldable pub ids : TokensPage → List Text
ids p = keep (λ id. not (includes p.gone id)) p.listed

-- `rows` before they are sorted: only the first hundred tokens are looked up.
unfoldable pub looked_up : TokensPage → ℕ → List Text → List TokenRow
unfolding to_row
looked_up p n [] = []
looked_up p zero (id ∷ rest) = to_row id none false ∷ looked_up p zero rest
looked_up p (suc n) (id ∷ rest) = to_row id (p.info id) (p.pending id) ∷ looked_up p n rest

-- `detailsPending`
unfoldable pub details_pending : TokensPage → Bool
unfolding ids
details_pending p = any p.pending (take enrich_cap (ids p))

-- The newest first.
unfoldable pub newer : TokenRow → TokenRow → Bool
newer a b = leb (or_else 0 b.created_at) (or_else 0 a.created_at)

unfoldable pub rows : TokensPage → List TokenRow
unfolding ids looked_up details_pending newer sort_by
rows p =
    let list = looked_up p enrich_cap (ids p) in
    if details_pending p then list else sort_by newer list

unfoldable pub dissolve : List Text → TokensPage → TokensPage
unfolding add_all
dissolve targets p = record p {
  dissolving = add_all targets p.dissolving;
  timers = p.timers ++ targets ∷ [];
}

-- The timer of the oldest dissolve, of those that run.
unfoldable pub fire : List (List Text) → TokensPage → TokensPage
unfolding add_all delete_all
fire [] p = p
fire (targets ∷ rest) p = record p {
  dissolving = delete_all targets p.dissolving;
  gone = add_all targets p.gone;
  timers = rest;
}

unfoldable pub dissolved : TokensPage → TokensPage
unfolding fire
dissolved p = fire p.timers p

-- What a request to revoke ends in.
pub data Revoked : Type 0 where
  fulfilled : Revoked
  rejected : Option ℕ → Revoked

-- A token that is not there any more counts as revoked.
unfoldable pub revoked_ok : Revoked → Bool
revoked_ok fulfilled = true
revoked_ok (rejected none) = false
revoked_ok (rejected (some status)) = status == 404

-- `ok` of `revoke`.
unfoldable pub revoked_ids : List (Text × Revoked) → List Text
unfolding revoked_ok
revoked_ids [] = []
revoked_ids ((id, r) ∷ results) =
    let rest = revoked_ids results in if revoked_ok r then id ∷ rest else rest

-- `revoke` behind the answers.
unfoldable pub revoke : List (Text × Revoked) → TokensPage → TokensPage
unfolding revoked_ids dissolve delete_all
revoke results p =
    let ok = revoked_ids results in
    if is_empty ok then p else record (dissolve ok p) { sel = delete_all ok p.sel }

-- A row of the sweep: its time is up and it does not dissolve yet.
unfoldable pub is_expired : TokensPage → TokenRow → Bool
is_expired p r = elim r.expires_at [
  | none ↦ false
  | some end ↦ leb end p.now && not (includes p.dissolving r.id)
]

abbrev pub row_ids : List TokenRow → List Text
row_ids rs = map (λ (r : TokenRow). r.id) rs

-- The effect that takes away tokens whose time is up.
unfoldable pub sweep : TokensPage → TokensPage
unfolding rows is_expired dissolve
sweep p =
    let expired = keep (is_expired p) (rows p) in
    if is_empty expired then p else dissolve (row_ids expired) p

-- The clock, which sets off the sweep.
unfoldable pub clock_tick : ℕ → TokensPage → TokensPage
unfolding sweep
clock_tick now p = sweep (record p { now = now })

-- `renew`: to the server, and back.
unfoldable pub renew_sent : TokenRow → TokensPage → TokensPage
renew_sent r p = record p { renewing = some r.id }

-- The lifetime that is asked for: `r.total || undefined`.
unfoldable pub renew_ttl : TokenRow → Option ℕ
renew_ttl r = if r.total == 0 then none else some r.total

unfoldable pub renew_ended : TokensPage → TokensPage
renew_ended p = record p { renewing = none }

-- `copyAccessor` behind the copying, and its timer. A row without accessor is not copied.
unfoldable pub accessor_copied : TokenRow → Bool → TokensPage → TokensPage
accessor_copied r copied p = record p {
  copied_acc = if copied && not (is_empty (or_else [] r.accessor)) then some r.id else p.copied_acc;
}

unfoldable pub copied_over : TokenRow → TokensPage → TokensPage
unfolding text_eq
copied_over r p = record p {
  copied_acc = elim p.copied_acc [
    | none ↦ none
    | some id ↦ if text_eq id r.id then none else some id
  ];
}

unfoldable pub ask_revoke : List Text → TokensPage → TokensPage
ask_revoke targets p = record p { confirm_ids = targets; confirm_open = true }

-- `onCreated`, with the token put into the cache.
unfoldable pub token_created : TokenInfo → TokensPage → TokensPage
unfolding text_eq
token_created token p = record p {
  create_open = false;
  created = some token;
  fresh = some token.id;
  info = λ id. if text_eq id token.id then some token else p.info id;
}

unfoldable pub dismiss_reveal : TokensPage → TokensPage
dismiss_reveal p = record p { created = none }

-- `m.set(p, (m.get(p) ?? 0) + 1)`
unfoldable pub count_policy : Text → List (Text × ℕ) → List (Text × ℕ)
unfolding text_eq
count_policy k [] = (k, 1) ∷ []
count_policy k ((j, n) ∷ m) = if text_eq j k then (j, n + 1) ∷ m else (j, n) ∷ count_policy k m

unfoldable pub count_each : List Text → List (Text × ℕ) → List (Text × ℕ)
unfolding count_policy
count_each [] m = m
count_each (k ∷ policies) m = count_each policies (count_policy k m)

unfoldable pub count_rows : List TokenRow → List (Text × ℕ) → List (Text × ℕ)
unfolding count_each
count_rows [] m = m
count_rows (r ∷ rs) m = count_rows rs (count_each r.policies m)

-- `policyCounts`: the seven that are used most; `le` stands for `localeCompare`.
unfoldable pub policy_counts : (Text → Text → Bool) → List TokenRow → List (Text × ℕ)
unfolding count_rows sort_by
policy_counts le rs =
    take 7
      (sort_by (λ (a b : Text × ℕ). ltb b.1 a.1 || (a.1 == b.1 && le a.0 b.0)) (count_rows rs []))

-- The test of `filtered`; `lower` stands for `toLowerCase`.
unfoldable pub row_fits : (Text → Text) → TokensPage → TokenRow → Bool
unfolding has_text trim
row_fits lower p r =
    let q = lower (trim p.query) in
    elim p.policy [ none ↦ true | some k ↦ is_empty k || includes r.policies k ]
    && (is_empty q
        || has_text q (lower r.name)
        || has_text q (lower (or_else [] r.accessor))
        || any (λ k. has_text q (lower k)) r.policies)

unfoldable pub filtered : (Text → Text) → TokensPage → List TokenRow
unfolding row_fits rows
filtered lower p = keep (row_fits lower p) (rows p)

-- `Math.max(1, Math.ceil(n / PER_PAGE))`
unfoldable pub pages : ℕ → ℕ
pages n = max 1 ((n + 19) / per_page)

-- `pg`
unfoldable pub shown_page : ℕ → ℕ → ℕ
unfolding pages
shown_page page n = min page (pages n)

-- `filtered.slice((pg - 1) * PER_PAGE, pg * PER_PAGE)`
unfoldable pub page_slice {ℓ} : {A : Type ℓ} → ℕ → List A → List A
page_slice pg xs = take per_page (drop ((pg - 1) * per_page) xs)

unfoldable pub page_rows : (Text → Text) → TokensPage → List TokenRow
unfolding filtered shown_page page_slice
page_rows lower p = let rs = filtered lower p in page_slice (shown_page p.page (length rs)) rs

unfoldable pub all_sel : (Text → Text) → TokensPage → Bool
unfolding page_rows
all_sel lower p =
    let page_ids = row_ids (page_rows lower p) in
    not (is_empty page_ids) && all (includes p.sel) page_ids

-- `selIds`
unfoldable pub sel_ids : TokensPage → List Text
unfolding rows
sel_ids p = keep (includes p.sel) (row_ids (rows p))

unfoldable pub toggle_sel : Text → TokensPage → TokensPage
unfolding delete_all
toggle_sel id p = record p {
  sel = if includes p.sel id then delete_all (id ∷ []) p.sel else p.sel ++ id ∷ [];
}

-- The box of the header.
unfoldable pub toggle_page : (Text → Text) → TokensPage → TokensPage
unfolding all_sel page_rows delete_all add_all
toggle_page lower p =
    let page_ids = row_ids (page_rows lower p) in
    record p { sel = if all_sel lower p then delete_all page_ids p.sel else add_all page_ids p.sel }

unfoldable pub clear_sel : TokensPage → TokensPage
clear_sel p = record p { sel = [] }

unfoldable pub set_query : Text → TokensPage → TokensPage
set_query q p = record p { query = q; page = 1 }

-- A click on a policy in the bar; `none` is the chip of all.
unfoldable pub pick_policy : Option Text → TokensPage → TokensPage
unfolding text_eq
pick_policy picked p = record p {
  policy = elim picked [
    | none ↦ none
    | some k ↦ elim p.policy [ none ↦ some k | some old ↦ if text_eq old k then none else some k ]
  ];
  page = 1;
}

unfoldable pub reset_filters : TokensPage → TokensPage
reset_filters p = record p { query = []; policy = none; page = 1 }

-- `soon`
unfoldable pub is_soon : ℕ → TokenRow → Bool
unfolding left_ms
is_soon now r = elim (left_ms r.expires_at now) [
  | none ↦ false
  | some left ↦ ltb 0 left && ltb left soon_ms
]

unfoldable pub soon_count : ℕ → List TokenRow → ℕ
unfolding is_soon
soon_count now rs = length (keep (is_soon now) rs)

-- `uses`
unfoldable pub uses_total : List TokenRow → ℕ
uses_total [] = 0
uses_total (r ∷ rs) = r.uses + uses_total rs
