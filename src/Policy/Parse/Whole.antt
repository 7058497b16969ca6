-- ===== src/Policy/Parse/Whole.antt =====
-- A whole policy printed by `rulesToText` and read by `parsePolicy`, of
-- web/src/pages/dashboard/policies/lib/policy-text.ts.
use tuck.Base.{
  ℕ, ◌+◌, Text, List, [], ◌∷◌, ◌++◌, codes, ◌≡◌, refl, sym, ◌∙◌, false, arith, NoChar,
  NoChar-append, NoChar-of_count, All, map, split_on, split_on-join, append_assoc, append-nil,
}
use tuck.Policy.Rules.{fmt_rule, ordered, ParsedRule, PolicyRule, rules_to_text}
use tuck.Policy.Parse.{parse_policy, Progress, policy_lines, policy_line, scanned_line}
use tuck.Policy.Parse.Roundtrip.{policy_line-fmt_rule, fmt_rule-eq, newlines-tail_of}

-- A path that can stand between quotes on one line.
pub record IsPrintable (path : Text) : Type 0 where
  pub no_quote : NoChar b'"' path
  pub no_newline : NoChar b'\n' path

abbrev pub print : PolicyRule → Text
print r = fmt_rule r.path r.capabilities

abbrev empty : Progress
empty = record { rules = []; diags = []; seen = [] }

-- The rules as the parser numbers them, their capabilities in the order of `CAPS`.
unfoldable pub numbered : ℕ → List PolicyRule → List ParsedRule
numbered i [] = []
numbered i (r ∷ rs) =
    record { caps = ordered r.capabilities; line = i; n = i + 1; path = r.path }
    ∷ numbered (i + 1) rs

rules-scanned_line :
    (st : Progress) (i : ℕ) (path : Text) (caps : List Text)
    → (scanned_line st i path (record { caps = caps; bad = false; found = [] })).rules
      ≡ st.rules ++ record { caps = caps; line = i; n = i + 1; path = path } ∷ []
unfolding scanned_line
rules-scanned_line st i path caps = refl

policy_lines-cons :
    (st : Progress) (i : ℕ) (raw : Text) (lines : List Text)
    → policy_lines st i (raw ∷ lines) ≡ policy_lines (policy_line st i raw) (i + 1) lines
unfolding policy_lines
policy_lines-cons st i raw lines = refl

-- The state after the lines of printed rules, by the state after one.
rules-policy_lines :
    (rs : List PolicyRule) (st : Progress) (i : ℕ)
    → All (λ r. IsPrintable r.path) rs
    → (policy_lines st i (map print rs)).rules ≡ st.rules ++ numbered i rs
unfolding numbered
rules-policy_lines [] st i h = unfold policy_lines in sym (append-nil _)
rules-policy_lines (r ∷ rs) st i h = rw (
  policy_lines-cons st i (print r) (map print rs),
  policy_line-fmt_rule st i r.path r.capabilities h.0.no_quote,
  rules-policy_lines rs
      (scanned_line st i r.path (record { caps = ordered r.capabilities; bad = false; found = [] }))
      (i + 1) h.1,
  rules-scanned_line st i r.path (ordered r.capabilities),
  append_assoc,
)

NoNewline-print : (r : PolicyRule) → IsPrintable r.path → NoChar b'\n' (print r)
NoNewline-print r h = rw (fmt_rule-eq r.path r.capabilities) (
    NoChar-append b'\n' (codes "path \"") _ (omega arith) (
      NoChar-append b'\n' r.path _ h.no_newline
        ((λ e. omega arith), NoChar-of_count b'\n' _ (newlines-tail_of r.capabilities))))

All-print :
    (rs : List PolicyRule) → All (λ r. IsPrintable r.path) rs → All (NoChar b'\n') (map print rs)
All-print [] h = tt
All-print (r ∷ rs) h = (NoNewline-print r h.0, All-print rs h.1)

pub lines-rules_to_text :
    (r : PolicyRule) (rs : List PolicyRule)
    → All (λ r. IsPrintable r.path) (r ∷ rs)
    → split_on b'\n' (rules_to_text (r ∷ rs)) ≡ map print (r ∷ rs)
lines-rules_to_text r rs h =
    unfold rules_to_text in split_on-join b'\n' (print r) (map print rs) (All-print (r ∷ rs) h)

parse_policy-lines :
    (text : Text) (lines : List Text)
    → split_on b'\n' text ≡ lines
    → (parse_policy text).rules ≡ (policy_lines empty 0 lines).rules
parse_policy-lines text lines e = unfold parse_policy in rw e

-- Printing the rules that the server stores and reading the text gives the same rules: the same
-- paths in the same order, the known capabilities in the order of `CAPS`, one line for each rule. The
-- paths must hold no quote and no newline.
pub parse-rules_to_text :
    (rs : List PolicyRule)
    → All (λ r. IsPrintable r.path) rs
    → (parse_policy (rules_to_text rs)).rules ≡ numbered 0 rs
parse-rules_to_text [] h = unfold parse_policy rules_to_text numbered in refl
parse-rules_to_text (r ∷ rs) h =
    parse_policy-lines _ _ (lines-rules_to_text r rs h) ∙ rules-policy_lines (r ∷ rs) empty 0 h
