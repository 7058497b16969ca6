-- ===== src/Tokens.antt =====
-- The rows of the tokens screen: web/src/pages/dashboard/tokens/tokens.utils.ts, and the form of
-- create-token-modal.tsx beside it. The dates of the server stand as `ts` reads them: milliseconds,
-- or nothing for no date and for Go's zero time.
pub mod Page
use mathlib.Core.List.{reverse}
use tuck.Base.{
  ℕ, suc, ◌+◌, ◌-◌, ◌*◌, ◌/◌, max, Text, List, [], ◌∷◌, ◌++◌, codes, Bool, true, false, not, ◌&&◌,
  ◌||◌, Option, none, some, map, keep, length, take, drop, all, is_empty, text_eq, trim, split_on,
  has_text, starts_with, ends_with, is_digit, includes, ltb, leb, ◌==◌, if◌then◌else◌, zero,
  print_nat, value_of,
}

-- `TokenInfo`, the fields that are read.
pub record TokenInfo : Type 0 where
  pub id : Text
  pub accessor : Option Text
  pub display_name : Option Text
  pub policies : Option (List Text)
  pub created_at : Option ℕ
  pub expires_at : Option ℕ
  pub namespace : Option Text
  pub use_count : Option ℕ
  pub max_uses : Option ℕ
  pub renewable : Option Bool

pub record TokenRow : Type 0 where
  pub id : Text
  pub accessor : Option Text
  pub name : Text
  pub policies : List Text
  pub created_at : Option ℕ
  pub expires_at : Option ℕ
  pub total : ℕ
  pub ns : Text
  pub uses : ℕ
  pub max_uses : ℕ
  pub renewable : Bool
  pub resolved : Bool
  pub loading : Bool

-- `x ?? d`
abbrev pub or_else {ℓ} : {A : Type ℓ} → A → Option A → A
or_else d none = d
or_else d (some x) = x

-- `Math.round(n / d)`, for numbers that are not negative.
unfoldable pub round_div : ℕ → ℕ → ℕ
round_div n zero = 0
round_div n (suc d) = (2 * n + suc d) / (2 * suc d)

-- `Math.max(1, Math.round((expiresAt - createdAt) / 1000))`: an end before the start gives 1.
unfoldable pub total_of : Option ℕ → Option ℕ → ℕ
unfolding round_div
total_of none end = 0
total_of (some start) none = 0
total_of (some start) (some end) =
    if start == 0 || end == 0 then 0 else max 1 (round_div (end - start) 1000)

unfoldable pub to_row : Text → Option TokenInfo → Bool → TokenRow
unfolding total_of
to_row id none loading = record {
  id = id;
  accessor = none;
  name = [];
  policies = [];
  created_at = none;
  expires_at = none;
  total = 0;
  ns = [];
  uses = 0;
  max_uses = 0;
  renewable = false;
  resolved = false;
  loading = loading;
}
to_row id (some info) loading = record {
  id = id;
  accessor = info.accessor;
  name = or_else [] info.display_name;
  policies = or_else [] info.policies;
  created_at = info.created_at;
  expires_at = info.expires_at;
  total = total_of info.created_at info.expires_at;
  ns = if is_empty (or_else [] info.namespace) then codes "root" else or_else [] info.namespace;
  uses = or_else 0 info.use_count;
  max_uses = or_else 0 info.max_uses;
  renewable = or_else false info.renewable;
  resolved = true;
  loading = false;
}

-- `leftSeconds` in milliseconds; `none` for infinity.
unfoldable pub left_ms : Option ℕ → ℕ → Option ℕ
left_ms none now = none
left_ms (some end) now = some (end - now)

-- `fmtTotal`
unfoldable pub fmt_total : ℕ → Text → Text → Text → Text
unfolding round_div print_nat
fmt_total s d h m =
    if s == 0
    then codes "∞"
    else if leb 86400 s
    then print_nat (round_div s 86400) ++ d
    else if leb 3600 s
    then print_nat (round_div s 3600) ++ h
    else print_nat (round_div s 60) ++ m

pub data PillTone : Type 0 where
  bad ok brass violet ice mute : PillTone

unfoldable pub policy_tone : Text → PillTone
unfolding text_eq ends_with starts_with has_text
policy_tone p =
    if text_eq p (codes "admin") || text_eq p (codes "root")
    then bad
    else if ends_with (codes "-read") p || starts_with (codes "read") p
    then ok
    else if ends_with (codes "-write") p || ends_with (codes "-rw") p
    then brass
    else if has_text (codes "deploy") p || has_text (codes "ci-") p
    then violet
    else if has_text (codes "audit") p || has_text (codes "backup") p
    then ice
    else mute

-- `s.slice(-n)`
unfoldable pub last_chars : ℕ → Text → Text
last_chars n s = drop (length s - n) s

unfoldable pub short_acc : Text → Text
unfolding last_chars
short_acc a = if ltb 14 (length a) then take 10 a ++ (codes "…" ++ last_chars 4 a) else a

unfoldable pub mask_id : Text → Text
unfolding last_chars
mask_id id = codes "••••••••" ++ last_chars 4 id

pub data Ago : Type 0 where
  just_now : Ago
  min_ago h_ago d_ago : ℕ → Ago

-- `agoText`
unfoldable pub ago_text : ℕ → ℕ → Ago
ago_text ms now =
    let s = (now - ms) / 1000 in
    if ltb s 60
    then just_now
    else if ltb s 3600
    then min_ago (s / 60)
    else if ltb s 86400
    then h_ago (s / 3600)
    else d_ago (s / 86400)

-- The form of a new token.
pub record TokenForm : Type 0 where
  pub name : Text
  pub picked : List Text
  pub typed_policies : Text
  pub ttl : ℕ
  pub uses : Text
  pub renewable : Bool
  pub no_parent : Bool
  pub tried : Bool

pub record CreateTokenInput : Type 0 where
  pub display_name : Text
  pub policies : List Text
  pub ttl : Text
  pub renewable : Bool
  pub max_uses : ℕ
  pub no_parent : Bool

-- `policies`: those picked where the list could be read, those typed otherwise.
unfoldable pub form_policies : Bool → TokenForm → List Text
unfolding split_on trim
form_policies use_chips f =
    if use_chips
    then f.picked
    else keep (λ p. not (is_empty p)) (map trim (split_on b',' f.typed_policies))

-- `/^\d{1,9}$/`
unfoldable pub uses_ok : Text → Bool
unfolding is_digit
uses_ok s = not (is_empty s) && (leb (length s) 9 && all is_digit s)

unfoldable pub form_bad : TokenForm → Bool
unfolding uses_ok trim
form_bad f = ltb 64 (length (trim f.name)) || ltb f.ttl 60 || not (uses_ok (trim f.uses))

-- `submit`: the form as it is shown then, and the request if one is sent.
unfoldable pub submit_token : Bool → Bool → TokenForm → TokenForm × Option CreateTokenInput
unfolding form_bad form_policies value_of trim print_nat
submit_token use_chips pending f =
    let tried = record f { tried = true } in
    if form_bad f || pending then (tried, none) else (
      tried,
      some (record {
        display_name = trim f.name;
        policies = form_policies use_chips f;
        ttl = print_nat f.ttl ++ codes "s";
        renewable = f.renewable;
        max_uses = value_of (trim f.uses);
        no_parent = f.no_parent;
      }),
    )

-- `toggle` of the form.
unfoldable pub toggle_policy : Text → TokenForm → TokenForm
unfolding text_eq
toggle_policy p f = record f {
  picked =
      if includes f.picked p then keep (λ x. not (text_eq x p)) f.picked else f.picked ++ p ∷ [];
}
