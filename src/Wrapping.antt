-- ===== src/Wrapping.antt =====
-- The wrapping tokens that a tab holds: `statusOf` of web/src/pages/dashboard/wrapping/lib.ts, the
-- hook of web/src/pages/dashboard/wrapping/use-session.ts, and `failed` of
-- web/src/pages/dashboard/wrapping/wrapping.page.tsx. Times are milliseconds. The map from tokens
-- to capsules is the list of the capsules, which carry their token.
pub mod Notes
mod Tests
use tuck.Base.{
  ℕ, Text, List, [], ◌∷◌, ◌++◌, Bool, true, false, not, ◌&&◌, Option, none, some, any, find_first,
  text_eq, ltb, ◌==◌, if◌then◌else◌,
}

pub data Status : Type 0 where
  active expired missing revoked used : Status

pub record Capsule : Type 0 where
  pub created : Option ℕ
  pub delivered : Option ℕ
  pub expires : Option ℕ
  pub revoked_at : Option ℕ
  pub status : Status
  pub token : Text
  pub ttl : Option ℕ
  pub used_at : Option ℕ

unfoldable pub past : Option ℕ → ℕ → Bool
past none now = false
past (some t) now = ltb t now

unfoldable pub is_active : Status → Bool
is_active active = true
is_active expired = false
is_active missing = false
is_active revoked = false
is_active used = false

-- `statusOf` of a capsule that is there
unfoldable pub status_at : Capsule → ℕ → Status
unfolding is_active past
status_at c now = if is_active c.status && past c.expires now then expired else c.status

unfoldable pub status_of : Option Capsule → ℕ → Option Status
unfolding status_at
status_of none now = none
status_of (some c) now = some (status_at c now)

-- A field of a patch: absent, or set to a value or to `undefined`.
pub data Change {ℓ} (A : Type ℓ) : Type ℓ where
  keeps : Change A
  sets : A → Change A

unfoldable pub changed {ℓ} : {A : Type ℓ} → Change A → A → A
changed keeps a = a
changed (sets b) a = b

pub record Patch : Type 0 where
  pub created : Change (Option ℕ)
  pub delivered : Change (Option ℕ)
  pub expires : Change (Option ℕ)
  pub revoked_at : Change (Option ℕ)
  pub status : Change Status
  pub ttl : Change (Option ℕ)
  pub used_at : Change (Option ℕ)

-- `{ ...base, ...patch, token }`
unfoldable pub merge : Patch → Capsule → Capsule
unfolding changed
merge p c = record {
  created = changed p.created c.created;
  delivered = changed p.delivered c.delivered;
  expires = changed p.expires c.expires;
  revoked_at = changed p.revoked_at c.revoked_at;
  status = changed p.status c.status;
  token = c.token;
  ttl = changed p.ttl c.ttl;
  used_at = changed p.used_at c.used_at;
}

-- `{ status: 'active', token }`
abbrev pub base : Text → Capsule
base token = record {
  created = none;
  delivered = none;
  expires = none;
  revoked_at = none;
  status = active;
  token = token;
  ttl = none;
  used_at = none;
}

-- The capsules after `upsert`: in its place, or at the end.
unfoldable pub put_capsule : Text → Patch → List Capsule → List Capsule
unfolding merge
put_capsule token p [] = merge p (base token) ∷ []
put_capsule token p (c ∷ all) =
    if text_eq c.token token then merge p c ∷ all else c ∷ put_capsule token p all

-- `noted` holds the tokens in the order in which they were added, `toasts` those that were told.
pub record Session : Type 0 where
  pub capsules : List Capsule
  pub cur : Option Text
  pub now : ℕ
  pub noted : List Text
  pub toasts : List Text

unfoldable pub is_expired : Status → Bool
is_expired expired = true
is_expired active = false
is_expired missing = false
is_expired revoked = false
is_expired used = false

-- The capsule outlived its TTL in this tab.
unfoldable pub overdue : ℕ → Capsule → Bool
unfolding status_at is_expired is_active
overdue now c = is_expired (status_at c now) && is_active c.status

unfoldable pub is_noted : List Text → Text → Bool
is_noted noted token = any (λ t. text_eq t token) noted

-- The body of the loop of the effect.
unfoldable pub note : Capsule → Session → Session
unfolding overdue is_noted
note c s =
    if overdue s.now c && not (is_noted s.noted c.token)
    then record s { noted = s.noted ++ c.token ∷ []; toasts = s.toasts ++ c.token ∷ [] }
    else s

unfoldable pub note_all : List Capsule → Session → Session
unfolding note
note_all [] s = s
note_all (c ∷ all) s = note_all all (note c s)

-- The effect on `now` and `capsules`.
unfoldable pub note_expired : Session → Session
unfolding note_all
note_expired s = note_all s.capsules s

unfoldable pub upsert : Text → Patch → Session → Session
unfolding put_capsule note_expired
upsert token p s = note_expired (record s { capsules = put_capsule token p s.capsules })

-- The timer, with `Date.now()`.
unfoldable pub tick_now : ℕ → Session → Session
unfolding note_expired
tick_now now s = note_expired (record s { now = now })

abbrev pub status_patch : Status → Patch
status_patch st = record {
  created = keeps;
  delivered = keeps;
  expires = keeps;
  revoked_at = keeps;
  status = sets st;
  ttl = keeps;
  used_at = keeps;
}

unfoldable pub is_used : Option Capsule → Bool
is_used none = false
is_used (some c) = elim c.status [
  | active ↦ false
  | expired ↦ false
  | missing ↦ false
  | revoked ↦ false
  | used ↦ true
]

unfoldable pub capsule_of : Text → List Capsule → Option Capsule
capsule_of token all = find_first (λ (c : Capsule). text_eq c.token token) all

-- `failed` of the page
unfoldable pub fails : Text → ℕ → Session → Session
unfolding upsert is_used capsule_of
fails token status s =
    let was_used = is_used (capsule_of token s.capsules) in
    if status == 404
    then if not was_used then upsert token (status_patch missing) s else s
    else if status == 410
    then if not was_used then upsert token (status_patch expired) s else s
    else s

pub data Action : Type 0 where
  upserts : Text → Patch → Action
  ticks : ℕ → Action
  fails_with : Text → ℕ → Action
  picks : Option Text → Action

unfoldable pub act : Action → Session → Session
unfolding upsert tick_now fails
act (upserts token p) s = upsert token p s
act (ticks now) s = tick_now now s
act (fails_with token status) s = fails token status s
act (picks token) s = record s { cur = token }

unfoldable pub run : List Action → Session → Session
unfolding act
run [] s = s
run (a ∷ rest) s = run rest (act a s)
