-- ===== src/Roles.antt =====
-- The roles of tokens: web/src/pages/dashboard/token-roles/lib.ts with the types of
-- web/src/shared/api/endpoints/token-roles.ts, and the rows of hooks.ts beside it. The durations of
-- lib.ts are in Durations.
pub mod Drawer
pub mod Saved
pub mod Page
pub mod Tags
mod Tests
use tuck.Base.{
  ℕ, Text, List, [], ◌∷◌, Bool, true, false, not, ◌&&◌, ◌||◌, Option, none, some, all, length,
  is_empty, is_lower, is_digit, is_space, leb, ◌==◌, ◌+◌, ◌/◌,
}

-- `TokenRole`: the fields that are read, with durations in nanoseconds.
pub record TokenRole : Type 0 where
  pub policies : Option (List Text)
  pub ttl : ℕ
  pub max_ttl : ℕ
  pub max_uses : Option ℕ
  pub renewable : Option Bool
  pub period : Option ℕ

-- `RoleView`, without the date.
pub record RoleView : Type 0 where
  pub name : Text
  pub max_ttl : ℕ
  pub max_uses : ℕ
  pub period : ℕ
  pub policies : List Text
  pub renewable : Bool
  pub ttl : ℕ

-- `RoleRow`
pub record RoleRow : Type 0 where
  pub failed : Bool
  pub loading : Bool
  pub name : Text
  pub role : Option RoleView

-- `[a-z0-9_-]`
unfoldable pub role_char : ℕ → Bool
unfolding is_lower is_digit
role_char c = is_lower c || is_digit c || c == b'_' || c == b'-'

-- `NAME_RE`
unfoldable pub name_re : Text → Bool
unfolding is_lower is_digit role_char
name_re [] = false
name_re (c ∷ s) = (is_lower c || is_digit c) && all role_char s && leb (length s) 62

-- `POLICY_RE`
unfoldable pub policy_re : Text → Bool
unfolding is_space
policy_re s = not (is_empty s) && all (λ c. not (is_space c || c == b',')) s

-- `nsToSec`: `Math.round` of the seconds.
unfoldable pub sec_of : ℕ → ℕ
sec_of ns = (ns + 500000000) / 1000000000

-- `x ?? y`
unfoldable pub given_or {ℓ} : {A : Type ℓ} → A → Option A → A
given_or y none = y
given_or y (some x) = x

-- `toView`
unfoldable pub to_view : Text → TokenRole → RoleView
unfolding sec_of given_or
to_view name r = record {
  name = name;
  max_ttl = sec_of r.max_ttl;
  max_uses = given_or 0 r.max_uses;
  period = sec_of (given_or 0 r.period);
  policies = given_or [] r.policies;
  renewable = given_or false r.renewable;
  ttl = sec_of r.ttl;
}

-- What a query for the details of a role has come to.
pub data Details : Type 0 where
  fetching broken : Details
  fetched : TokenRole → Details

-- A row of `useRoles`.
unfoldable pub row_of : Text → Details → RoleRow
unfolding to_view
row_of name fetching = record { failed = false; loading = true; name = name; role = none }
row_of name broken = record { failed = true; loading = false; name = name; role = none }
row_of name (fetched r) = record {
  failed = false;
  loading = false;
  name = name;
  role = some (to_view name r);
}
