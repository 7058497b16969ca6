-- ===== src/KeyValue.antt =====
-- The validation of the rows in web/src/shared/ui/kit/key-value-editor/key-value-editor.tsx.
pub mod Valid
mod Tests
use tuck.Base.{
  ℕ, suc, ◌+◌, Text, List, [], ◌∷◌, ◌++◌, Bool, true, false, not, ◌&&◌, ◌||◌, Option, none, some,
  map, any, all, is_empty, text_eq, trim, is_lower, is_upper, is_digit, ◌==◌, if◌then◌else◌,
}

pub record KvPair : Type 0 where
  pub key : Text
  pub value : Text

pub data KvIssue : Type 0 where
  bad_key duplicate no_key : KvIssue

-- `issues` lists the entries of the record in the order of the rows.
pub record KvValidation : Type 0 where
  pub issues : List (ℕ × KvIssue)
  pub problem : Option KvIssue
  pub valid : Bool

-- `[A-Za-z_]`
unfoldable pub starts_key : ℕ → Bool
unfolding is_lower is_upper
starts_key c = is_upper c || is_lower c || c == b'_'

-- `[A-Za-z0-9_.-]`
unfoldable pub goes_on : ℕ → Bool
unfolding starts_key is_digit
goes_on c = starts_key c || is_digit c || c == b'.' || c == b'-'

-- `KV_KEY_PATTERN`
unfoldable pub kv_key_pattern : Text → Bool
unfolding starts_key goes_on
kv_key_pattern [] = false
kv_key_pattern (c ∷ s) = starts_key c && all goes_on s

unfoldable pub seen_key : List Text → Text → Bool
seen_key seen key = any (λ k. text_eq k key) seen

-- A row with neither key nor value is ignored.
unfoldable pub ignored : KvPair → Bool
unfolding trim
ignored p = is_empty (trim p.key) && is_empty p.value

-- The issue of a row that is not ignored.
unfoldable pub issue_of : (Text → Bool) → List Text → Text → Option KvIssue
unfolding seen_key
issue_of pattern seen key =
    if is_empty key
    then some no_key
    else if not (pattern key)
    then some bad_key
    else if seen_key seen key
    then some duplicate
    else none

unfoldable pub with_issue : ℕ → Option KvIssue → List (ℕ × KvIssue) → List (ℕ × KvIssue)
with_issue i none issues = issues
with_issue i (some issue) issues = (i, issue) ∷ issues

-- `pairs.forEach` from row `i` on, with the keys that were seen.
unfoldable pub issues_from : (Text → Bool) → ℕ → List Text → List KvPair → List (ℕ × KvIssue)
unfolding ignored issue_of with_issue trim
issues_from pattern i seen [] = []
issues_from pattern i seen (p ∷ pairs) = elim (ignored p) [
  | true ↦ issues_from pattern (suc i) seen pairs
  | false ↦
      with_issue i (issue_of pattern seen (trim p.key))
        (issues_from pattern (suc i) (trim p.key ∷ seen) pairs)
]

unfoldable pub same_issue : KvIssue → KvIssue → Bool
same_issue bad_key bad_key = true
same_issue duplicate duplicate = true
same_issue no_key no_key = true
same_issue _ _ = false

unfoldable pub includes_issue : List (ℕ × KvIssue) → KvIssue → Bool
unfolding same_issue
includes_issue issues k = any (λ (e : ℕ × KvIssue). same_issue e.1 k) issues

unfoldable pub first_problem : List (ℕ × KvIssue) → Option KvIssue
unfolding includes_issue
first_problem issues =
    if includes_issue issues duplicate
    then some duplicate
    else if includes_issue issues bad_key
    then some bad_key
    else if includes_issue issues no_key
    then some no_key
    else none

unfoldable pub is_none : Option KvIssue → Bool
is_none none = true
is_none (some k) = false

unfoldable pub validate_kv : (Text → Bool) → List KvPair → KvValidation
unfolding issues_from first_problem is_none
validate_kv pattern pairs =
    let issues = issues_from pattern 0 [] pairs in
    let problem = first_problem issues in
    record { issues = issues; problem = problem; valid = is_none problem }
