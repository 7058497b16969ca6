-- ===== src/Policy/Rules.antt =====
-- The rules of web/src/pages/dashboard/policies/lib/policy-text.ts: `CAPS`, `ParsedRule`, `fmtRule`,
-- `rulesToText`, `evaluate`.
pub mod Decision
use tuck.Base.{
  ℕ, Text, List, [], ◌∷◌, ◌++◌, codes, Bool, true, false, Option, none, some, map, keep, find_first,
  includes, join, is_empty, if◌then◌else◌,
}
use tuck.Policy.Glob.{glob_match}

-- `CAPS`, in the order in which a rule is printed.
abbrev pub caps_order : List Text
caps_order = codes "read" ∷ codes "write" ∷ codes "delete" ∷ codes "list" ∷ codes "deny" ∷ []

pub record ParsedRule : Type 0 where
  pub caps : List Text
  pub line : ℕ
  pub n : ℕ
  pub path : Text

-- `PolicyRule`, the rule as the API stores it.
pub record PolicyRule : Type 0 where
  pub path : Text
  pub capabilities : List Text

unfoldable pub quote : Text → Text
quote w = b'"' ∷ (w ++ codes "\"")

unfoldable pub ordered : List Text → List Text
ordered caps = keep (includes caps) caps_order

unfoldable pub caps_text : List Text → Text
unfolding join quote
caps_text caps = join (codes ", ") (map quote caps)

unfoldable pub fmt_rule : Text → List Text → Text
unfolding caps_text ordered
fmt_rule path caps =
    codes "path \""
    ++ (path ++ (codes "\" { capabilities = [" ++ (caps_text (ordered caps) ++ codes "] }")))

unfoldable pub rules_to_text : List PolicyRule → Text
unfolding join
rules_to_text rules = join (codes "\n") (map (λ r. fmt_rule r.path r.capabilities) rules)

pub data EvaluationKind : Type 0 where
  allow deny nocap nomatch : EvaluationKind

pub record Evaluation : Type 0 where
  pub allowed : Bool
  pub kind : EvaluationKind
  pub matched : List ParsedRule
  pub rule : Option ParsedRule

abbrev pub grants : Text → ParsedRule → Bool
grants cap r = includes r.caps cap

-- The rules whose path matches, in their order.
unfoldable pub matching : List ParsedRule → Text → List ParsedRule
matching rules path = keep (λ r. glob_match r.path path) rules

-- The two lookups, as the early returns order them.
unfoldable pub decide_on : List ParsedRule → Option ParsedRule → Option ParsedRule → Evaluation
decide_on matches (some d) ok = record {
  allowed = false;
  kind = deny;
  matched = matches;
  rule = some d;
}
decide_on matches none (some r) = record {
  allowed = true;
  kind = allow;
  matched = matches;
  rule = some r;
}
decide_on matches none none = record {
  allowed = false;
  kind = if is_empty matches then nomatch else nocap;
  matched = matches;
  rule = none;
}

unfoldable pub evaluate : List ParsedRule → Text → Text → Evaluation
unfolding matching decide_on
evaluate rules path cap =
    let matches = matching rules path in
    decide_on matches (find_first (grants (codes "deny")) matches) (find_first (grants cap) matches)
