-- ===== src/Policy/Tests.antt =====
-- The policy language on concrete texts, and its theorems at concrete inputs.
use tuck.Policy.Glob.Star.{glob_match-star_inside}
use tuck.Base.{
  List, [], ◌∷◌, codes, ◌≡◌, ◌↔◌, refl, true, false, arith, All, Any, text_eq, count_char, length,
  has_text, has_char, ends_with, split_on,
}
use tuck.Policy.Glob.{glob_match}
use tuck.Policy.Glob.Matching.{Matches, glob_match_iff}
use tuck.Policy.Rules.{
  ParsedRule, PolicyRule, evaluate, allow, deny, nomatch, rules_to_text, fmt_rule,
}
use tuck.Policy.Rules.Decision.{Applies, evaluate-allowed_iff}
use tuck.Policy.Parse.{parse_policy}
use tuck.Policy.Parse.Whole.{numbered, parse-rules_to_text}

glob_match_tests :
    (glob_match (codes "secret/*") (codes "secret/db") ≡ true)
    × (glob_match (codes "secret/*") (codes "secret/db/x") ≡ false)
    × (glob_match (codes "secret/**") (codes "secret/db/x") ≡ true)
    × (glob_match (codes "**/cfg") (codes "secret/app/cfg") ≡ true)
    × (glob_match (codes "secret/*/cfg") (codes "secret/app/cfg") ≡ false)
unfolding glob_match
glob_match_tests = (refl, refl, refl, refl, refl)

abbrev rules : List ParsedRule
rules =
    record { caps = codes "read" ∷ []; line = 0; n = 1; path = codes "secret/**" }
    ∷ record { caps = codes "deny" ∷ []; line = 1; n = 2; path = codes "secret/prod/*" }
    ∷ []

evaluate_tests :
    ((evaluate rules (codes "secret/dev/db") (codes "read")).kind ≡ allow)
    × ((evaluate rules (codes "secret/prod/db") (codes "read")).kind ≡ deny)
    × ((evaluate rules (codes "auth/x") (codes "read")).kind ≡ nomatch)
unfolding evaluate glob_match text_eq
evaluate_tests = (refl, refl, refl)

abbrev stored : List PolicyRule
stored =
    record { path = codes "secret/*"; capabilities = codes "list" ∷ codes "read" ∷ [] }
    ∷ record { path = codes "a b"; capabilities = [] }
    ∷ []

parse_policy_tests :
    (length (parse_policy (rules_to_text stored)).rules ≡ 2)
    × ((parse_policy (codes "path \"a\" { capabilities = [\"sudo\"] }")).errors ≡ 1)
    × ((parse_policy (codes "# note\n\npath \"/a\" { capabilities = [\"read\"] }")).errors ≡ 1)
    × ((parse_policy (codes "path \"constructor\" { capabilities = [\"read\"] }")).warns ≡ 1)
unfolding parse_policy rules_to_text fmt_rule text_eq count_char has_text has_char ends_with
    split_on
parse_policy_tests = (refl, refl, refl, refl)

glob_match_iff_example :
    (glob_match (codes "a/*") (codes "a/b") ≡ true) ↔ Matches (codes "a/*") (codes "a/b")
glob_match_iff_example = glob_match_iff (codes "a/*") (codes "a/b")

evaluate-allowed_iff_example :
    ((evaluate rules (codes "secret/dev") (codes "read")).allowed ≡ true) ↔ (
      Any (Applies (codes "secret/dev") (codes "read")) rules
      × All (λ r. ¬ Applies (codes "secret/dev") (codes "deny") r) rules)
evaluate-allowed_iff_example = evaluate-allowed_iff rules (codes "secret/dev") (codes "read")

parse-rules_to_text_example : (parse_policy (rules_to_text stored)).rules ≡ numbered 0 stored
parse-rules_to_text_example = parse-rules_to_text stored (omega arith)

glob_match-star_inside_example : glob_match (codes "secret/*/cfg") (codes "secret/app/cfg") ≡ false
glob_match-star_inside_example =
    glob_match-star_inside (codes "secret/") (codes "cfg") (codes "secret/app/cfg") (omega arith)
