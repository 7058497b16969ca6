-- ===== src/Audit.antt =====
-- The filter of the audit log on its way to the server: `filterStateToApi`, `sinceFromRange`,
-- `severityOf` and `operationOf` of web/src/pages/dashboard/audit-sinks/lib.tsx, and
-- `filterParams` of web/src/shared/api/endpoints/audit.ts.
pub mod Params
mod Tests
use tuck.Base.{
  ℕ, ◌-◌, Text, List, [], ◌∷◌, ◌++◌, codes, Bool, true, false, not, ◌&&◌, ◌||◌, Option, none, some,
  map, is_empty, text_eq, trim, has_text, leb, is_lower, if◌then◌else◌,
}

pub data Severity : Type 0 where
  err ok warn : Severity

unfoldable pub severity_of : ℕ → Severity
severity_of status = if leb 500 status then err else if leb 400 status then warn else ok

-- The fields of `AuditEvent` that `operationOf` reads.
pub record AuditEvent : Type 0 where
  pub method : Text
  pub path : Text
  pub operation : Option Text

-- `toUpperCase` on the letters of the methods.
unfoldable pub to_upper : ℕ → ℕ
unfolding is_lower
to_upper c = if is_lower c then c - 32 else c

unfoldable pub method_operation : Text → Text → Text
unfolding text_eq has_text
method_operation m path =
    if text_eq m (codes "GET") || text_eq m (codes "HEAD")
    then if has_text (codes "login") path then codes "login" else codes "read"
    else if text_eq m (codes "PUT") || (text_eq m (codes "POST") || text_eq m (codes "PATCH"))
    then codes "write"
    else if text_eq m (codes "DELETE")
    then codes "delete"
    else codes "other"

unfoldable pub operation_of : AuditEvent → Text
unfolding method_operation to_upper
operation_of e = elim e.operation [
  | none ↦ method_operation (map to_upper e.method) e.path
  | some op ↦ if is_empty op then method_operation (map to_upper e.method) e.path else op
]

pub data TimeRangeKey : Type 0 where
  quarter hour day always : TimeRangeKey

unfoldable pub since_from_range : TimeRangeKey → Option Text
since_from_range quarter = some (codes "15m")
since_from_range hour = some (codes "1h")
since_from_range day = some (codes "24h")
since_from_range always = none

pub record LogFilterState : Type 0 where
  pub namespace : Text
  pub operation : Text
  pub path : Text
  pub q : Text
  pub range : TimeRangeKey
  pub status : Text

pub record AuditFilter : Type 0 where
  pub path : Option Text
  pub operation : Option Text
  pub status : Option Text
  pub namespace : Option Text
  pub q : Option Text
  pub since : Option Text
  pub until : Option Text

-- `s || undefined`
unfoldable pub or_undefined : Text → Option Text
or_undefined [] = none
or_undefined (c ∷ s) = some (c ∷ s)

unfoldable pub filter_state_to_api : LogFilterState → AuditFilter
unfolding or_undefined trim since_from_range
filter_state_to_api f = record {
  path = or_undefined (trim f.path);
  operation = some f.operation;
  status = some f.status;
  namespace = some f.namespace;
  q = or_undefined (trim f.q);
  since = since_from_range f.range;
  until = none;
}

-- `if (v) p.key = v`
unfoldable pub given_param : Text → Option Text → List (Text × Text)
given_param key none = []
given_param key (some v) = if is_empty v then [] else (key, v) ∷ []

-- `if (v && v !== 'all') p.key = v`
unfoldable pub chosen_param : Text → Option Text → List (Text × Text)
unfolding text_eq
chosen_param key none = []
chosen_param key (some v) =
    if is_empty v then [] else if text_eq v (codes "all") then [] else (key, v) ∷ []

unfoldable pub filter_params : AuditFilter → List (Text × Text)
unfolding given_param chosen_param
filter_params f =
    given_param (codes "path") f.path
    ++ chosen_param (codes "operation") f.operation
    ++ chosen_param (codes "status") f.status
    ++ chosen_param (codes "namespace") f.namespace
    ++ given_param (codes "q") f.q
    ++ given_param (codes "since") f.since
    ++ given_param (codes "until") f.until
