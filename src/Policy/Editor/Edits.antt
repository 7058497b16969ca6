-- ===== src/Policy/Editor/Edits.antt =====
-- What the matrix of web/src/pages/dashboard/policies/components/policy-editor.tsx does to the rules
-- when it edits the text.
use tuck.Base.{
  ℕ, zero, suc, ◌+◌, ◌≡◌, refl, sym, subst, ap, ◌∙◌, Text, List, [], ◌∷◌, codes, ◌||◌, some, map,
  All, get_elem?, split_on, join, ◌==◌, arith, Bool-cases, inl, inr,
}
use tuck.Policy.Rules.{ParsedRule, PolicyRule, ordered, rules_to_text}
use tuck.Policy.Parse.{parse_policy}
use tuck.Policy.Parse.Whole.{IsPrintable, numbered, print, lines-rules_to_text, parse-rules_to_text}
use tuck.Policy.Editor.Clicks.{clicked, unmarked, plain-unmarked, numbered-clicked}
use tuck.Policy.Editor.{
  set_elem, delete_elem, toggled, toggle_cap, remove_rule, plain, set_rule_path,
}

-- The rule on line `i` as the parser has it.
abbrev pub parsed_at : ℕ → PolicyRule → ParsedRule
parsed_at i r = record { caps = ordered r.capabilities; line = i; n = i + 1; path = r.path }

map-set_elem :
    (i : ℕ) (r : PolicyRule) (rs : List PolicyRule)
    → set_elem i (print r) (map print rs) ≡ map print (set_elem i r rs)
map-set_elem i r [] = refl
map-set_elem zero r (s ∷ rs) = refl
map-set_elem (suc i) r (s ∷ rs) = rw (map-set_elem i r rs) refl

map-delete_elem :
    (i : ℕ) (rs : List PolicyRule) → delete_elem i (map print rs) ≡ map print (delete_elem i rs)
map-delete_elem i [] = refl
map-delete_elem zero (s ∷ rs) = refl
map-delete_elem (suc i) (s ∷ rs) = rw (map-delete_elem i rs) refl

All-set_elem :
    (i : ℕ) (r : PolicyRule) (rs : List PolicyRule)
    → IsPrintable r.path
    → All (λ r. IsPrintable r.path) rs
    → All (λ r. IsPrintable r.path) (set_elem i r rs)
All-set_elem i r [] h k = tt
All-set_elem zero r (s ∷ rs) h k = (h, k.1)
All-set_elem (suc i) r (s ∷ rs) h k = (k.0, All-set_elem i r rs h k.1)

All-delete_elem :
    (i : ℕ) (rs : List PolicyRule)
    → All (λ r. IsPrintable r.path) rs
    → All (λ r. IsPrintable r.path) (delete_elem i rs)
All-delete_elem i [] k = tt
All-delete_elem zero (s ∷ rs) k = k.1
All-delete_elem (suc i) (s ∷ rs) k = (k.0, All-delete_elem i rs k.1)

All-get_elem :
    (i : ℕ) (r : PolicyRule) (rs : List PolicyRule)
    → get_elem? rs i ≡ some r
    → All (λ r. IsPrintable r.path) rs
    → IsPrintable r.path
All-get_elem i r [] h k = cc h
All-get_elem zero r (s ∷ rs) h k =
    let same : s ≡ r = cc h in subst (λ x. IsPrintable x.path) same k.0
All-get_elem (suc i) r (s ∷ rs) h k = All-get_elem i r rs h k.1

-- The text of some rules, as lines.
abbrev print_lines : List PolicyRule → Text
print_lines rs = join (codes "\n") (map print rs)

rules_to_text-lines : (rs : List PolicyRule) → rules_to_text rs ≡ print_lines rs
unfolding rules_to_text
rules_to_text-lines rs = refl

set_line :
    (i : ℕ) (r r' : PolicyRule) (rs : List PolicyRule)
    → All (λ r. IsPrintable r.path) rs
    → get_elem? rs i ≡ some r
    → join (codes "\n") (set_elem i (print r') (split_on b'\n' (rules_to_text rs)))
      ≡ rules_to_text (set_elem i r' rs)
set_line i r r' [] h e = cc e
set_line i r r' (s ∷ rs) h e =
    rw (lines-rules_to_text s rs h, map-set_elem i r' (s ∷ rs))
      (sym (rules_to_text-lines (set_elem i r' (s ∷ rs))))

delete_line :
    (i : ℕ) (r : PolicyRule) (rs : List PolicyRule)
    → All (λ r. IsPrintable r.path) rs
    → get_elem? rs i ≡ some r
    → join (codes "\n") (delete_elem i (split_on b'\n' (rules_to_text rs)))
      ≡ rules_to_text (delete_elem i rs)
delete_line i r [] h e = cc e
delete_line i r (s ∷ rs) h e =
    rw (lines-rules_to_text s rs h, map-delete_elem i (s ∷ rs))
      (sym (rules_to_text-lines (delete_elem i (s ∷ rs))))

-- Without quotes and newlines a path can stand in a rule.
plain-IsPrintable : (v : Text) → IsPrintable (plain v)
unfolding plain
plain-IsPrintable [] = record { no_quote = tt; no_newline = tt }
plain-IsPrintable (c ∷ v) =
    let rest = plain-IsPrintable v in
    elim (Bool-cases (c == b'"' || c == b'\n')) [
      | inl e ↦ rw e rest
      | inr e ↦ rw e (record {
        no_quote = (ground (arith, e), rest.no_quote);
        no_newline = (ground (arith, e), rest.no_newline);
      })
    ]

toggle_cap-text :
    (i : ℕ) (r : PolicyRule) (c : Text) (rs : List PolicyRule)
    → All (λ r. IsPrintable r.path) rs
    → get_elem? rs i ≡ some r
    → toggle_cap (parsed_at i r) c (rules_to_text rs)
      ≡ rules_to_text (
          set_elem i
            (record { path = r.path; capabilities = toggled (ordered r.capabilities) c })
            rs)
unfolding toggle_cap
toggle_cap-text i r c rs h e = set_line i r _ rs h e

set_rule_path-text :
    (i : ℕ) (r : PolicyRule) (v : Text) (rs : List PolicyRule)
    → All (λ r. IsPrintable r.path) rs
    → get_elem? rs i ≡ some r
    → set_rule_path (parsed_at i r) v (rules_to_text rs)
      ≡ rules_to_text
          (set_elem i (record { path = plain v; capabilities = ordered r.capabilities }) rs)
unfolding set_rule_path
set_rule_path-text i r v rs h e = set_line i r _ rs h e

remove_rule-text :
    (i : ℕ) (r : PolicyRule) (rs : List PolicyRule)
    → All (λ r. IsPrintable r.path) rs
    → get_elem? rs i ≡ some r
    → remove_rule (parsed_at i r) (rules_to_text rs) ≡ rules_to_text (delete_elem i rs)
unfolding remove_rule
remove_rule-text i r rs h e = delete_line i r rs h e

-- The three edits of the matrix on the text of some rules, read by the parser: a click on a
-- capability turns it over in its own rule, where denying takes all others away, a new path replaces
-- the path of that rule, less its quotes and newlines, and a removal takes the rule out; every other
-- rule stays as it is.
pub edits-rules :
    (i : ℕ) (r : PolicyRule) (rs : List PolicyRule)
    → All (λ r. IsPrintable r.path) rs
    → get_elem? rs i ≡ some r
    → ((c : Text)
        → (parse_policy (toggle_cap (parsed_at i r) c (rules_to_text rs))).rules
          ≡ numbered 0
              (set_elem i (record { path = r.path; capabilities = clicked r.capabilities c }) rs))
      × ((v : Text)
          → (parse_policy (set_rule_path (parsed_at i r) v (rules_to_text rs))).rules
            ≡ numbered 0 (
                set_elem i
                  (record { path = unmarked v; capabilities = ordered r.capabilities })
                  rs))
      × ((parse_policy (remove_rule (parsed_at i r) (rules_to_text rs))).rules
          ≡ numbered 0 (delete_elem i rs))
edits-rules i r rs h e = (
  λ c. rw (toggle_cap-text i r c rs h e) (
      parse-rules_to_text _ (All-set_elem i _ rs (All-get_elem i r rs e h) h)
      ∙ numbered-clicked i r.path r.capabilities c rs),
  λ v. rw (set_rule_path-text i r v rs h e) (
      parse-rules_to_text _ (All-set_elem i _ rs (plain-IsPrintable v) h)
      ∙ ap
          (λ w.
            numbered 0 (set_elem i (record { path = w; capabilities = ordered r.capabilities }) rs))
          (plain-unmarked v)),
  rw (remove_rule-text i r rs h e) (parse-rules_to_text _ (All-delete_elem i rs h)),
)
