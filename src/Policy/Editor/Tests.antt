-- ===== src/Policy/Editor/Tests.antt =====
-- Samples, edits and colours.
use tuck.Base.{◌≡◌, refl, Text, List, [], ◌∷◌, codes, none, some, text_eq, All, count_char, arith}
use tuck.Policy.Rules.{PolicyRule, ordered, rules_to_text}
use tuck.Policy.Parse.{parse_policy, is_word}
use tuck.Policy.Parse.Whole.{IsPrintable, numbered}
use tuck.Policy.Editor.{
  sample_path, path_scope, exact, recursive, segment, samples, tested, Tester, user_cap,
  append_line, set_elem, delete_elem, toggled, toggle_cap, set_rule_path, remove_rule,
  hidden_err_lines,
}
use tuck.Policy.Editor.Clicks.{clicked, unmarked}
use tuck.Policy.Editor.Edits.{parsed_at, edits-rules}
use tuck.Policy.Editor.Highlight.{
  kind_k, kind_text, kind_s, kind_p, kind_kw2, kind_cap, kind_c, part_g, plain_seg, highlight_line,
}
use tuck.Policy.Editor.Highlight.Pieces.{shown_text, highlight_line-shown}

sample_tests :
    (sample_path (codes "a/**/b*") ≡ codes "a/example/item/bexample")
    × (sample_path (codes "***") ≡ codes "example/itemexample")
    × (path_scope (codes "a/*") ≡ segment)
    × (path_scope (codes "a/**") ≡ recursive)
    × (path_scope (codes "a") ≡ exact)
    × (append_line (codes "x") (codes "a \n ") ≡ codes "a\nx")
    × (append_line (codes "x") (codes " ") ≡ codes "x")
    × (toggled (codes "read" ∷ codes "list" ∷ []) (codes "deny") ≡ codes "deny" ∷ [])
    × (toggled (codes "read" ∷ codes "list" ∷ []) (codes "read") ≡ codes "list" ∷ [])
unfolding sample_path path_scope append_line toggled text_eq
sample_tests = (refl, refl, refl, refl, refl, refl, refl, refl, refl)

abbrev untouched : Tester
untouched = record { t_path = none; t_cap = none }

tester_tests :
    (samples
        (parse_policy (codes "path \"a/*\" { capabilities = [\"deny\", \"list\"] }\n# x\n")).rules
      ≡ record { path = codes "a/example"; cap = codes "list" } ∷ [])
    × (hidden_err_lines (parse_policy (codes "path \"a\n\nx")) ≡ 2)
    × (tested [] untouched ≡ none)
    × ((user_cap [] (codes "list") untouched).t_path ≡ some [])
unfolding samples parse_policy hidden_err_lines tested user_cap text_eq count_char
tester_tests = (refl, refl, refl, refl)

highlight_tests :
    (highlight_line (codes "path \"a/*\" x=[\"read\",\"y\"]#z")
      ≡ plain_seg kind_k (codes "path")
        ∷ plain_seg kind_text (codes " ")
        ∷ record {
          kind = kind_s;
          parts = some (
              record { kind = none; text = codes "\"a/" }
              ∷ record { kind = some part_g; text = codes "*" }
              ∷ record { kind = none; text = codes "\"" }
              ∷ []);
          text = codes "\"a/*\"";
        }
        ∷ plain_seg kind_text (codes " x")
        ∷ plain_seg kind_p (codes "=")
        ∷ plain_seg kind_p (codes "[")
        ∷ record {
          kind = kind_s;
          parts = some (record { kind = none; text = codes "\"read\"" } ∷ []);
          text = codes "\"read\"";
        }
        ∷ plain_seg kind_p (codes ",")
        ∷ record {
          kind = kind_s;
          parts = some (record { kind = none; text = codes "\"y\"" } ∷ []);
          text = codes "\"y\"";
        }
        ∷ plain_seg kind_p (codes "]")
        ∷ plain_seg kind_c (codes "#z")
        ∷ [])
    × (highlight_line (codes "capabilities \"read\" xpath")
        ≡ plain_seg kind_kw2 (codes "capabilities")
          ∷ plain_seg kind_text (codes " ")
          ∷ plain_seg kind_cap (codes "\"read\"")
          ∷ plain_seg kind_text (codes " xpath")
          ∷ [])
unfolding highlight_line text_eq is_word
highlight_tests = (refl, refl)

highlight_line-shown_example :
    shown_text (highlight_line (codes "path \"a**+\"")) ≡ codes "path \"a**+\""
highlight_line-shown_example = highlight_line-shown (codes "path \"a**+\"")

abbrev rule : PolicyRule
rule = record { path = codes "b"; capabilities = codes "list" ∷ codes "read" ∷ [] }

abbrev two_rules : List PolicyRule
two_rules = record { path = codes "a"; capabilities = codes "deny" ∷ [] } ∷ rule ∷ []

two_rules-IsPrintable : All (λ r. IsPrintable r.path) two_rules
two_rules-IsPrintable = (
  record { no_quote = ((λ e. omega arith), tt); no_newline = ((λ e. omega arith), tt) },
  (record { no_quote = ((λ e. omega arith), tt); no_newline = ((λ e. omega arith), tt) }, tt),
)

edits-rules_example :
    ((c : Text)
      → (parse_policy (toggle_cap (parsed_at 1 rule) c (rules_to_text two_rules))).rules
        ≡ numbered 0 (
            set_elem 1
              (record { path = codes "b"; capabilities = clicked rule.capabilities c })
              two_rules))
    × ((v : Text)
        → (parse_policy (set_rule_path (parsed_at 1 rule) v (rules_to_text two_rules))).rules
          ≡ numbered 0 (
              set_elem 1
                (record { path = unmarked v; capabilities = ordered rule.capabilities })
                two_rules))
    × ((parse_policy (remove_rule (parsed_at 1 rule) (rules_to_text two_rules))).rules
        ≡ numbered 0 (delete_elem 1 two_rules))
edits-rules_example = edits-rules 1 rule two_rules two_rules-IsPrintable refl
