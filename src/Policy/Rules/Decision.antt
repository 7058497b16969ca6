-- ===== src/Policy/Rules/Decision.antt =====
-- What `evaluate` of web/src/pages/dashboard/policies/lib/policy-text.ts decides, in terms of the
-- relation between a rule's path and the path that is asked for.
use tuck.Base.{
  is_empty, ◌&&◌, refl, Text, List, [], ◌∷◌, ◌≡◌, ◌↔◌, ◌≢◌, codes, Bool, true, none, arith, All,
  Any, keep, find_first, includes, text_eq_iff,
}
use tuck.Policy.Glob.{glob_match}
use tuck.Policy.Glob.Matching.{Matches, glob_match_iff}
use tuck.Policy.Rules.{ParsedRule, grants, matching, evaluate, allow, deny, nomatch}

-- The rule lists the capability.
abbrev pub Grants : Text → ParsedRule → Type 0
Grants cap r = Any (λ c. cap ≡ c) r.caps

includes_iff : (xs : List Text) (s : Text) → (includes xs s ≡ true) ↔ Any (λ c. s ≡ c) xs
includes_iff [] s = (λ h. cc, λ h. elim h [ ])
includes_iff (x ∷ xs) s = grind (arith, text_eq_iff s x, includes_iff xs s)

-- A rule applies to the path and lists the capability.
abbrev pub Applies : Text → Text → ParsedRule → Type 0
Applies path cap r = Matches r.path path × Grants cap r

Applies-iff :
    (path cap : Text) (r : ParsedRule)
    → ((glob_match r.path path && grants cap r) ≡ true) ↔ Applies path cap r
Applies-iff path cap r = grind (arith, glob_match_iff r.path path, includes_iff r.caps cap)

-- `find` over a `filter`, for a property that the two tests decide.
module _ {ℓ} {A : Type ℓ} (p q : A → Bool) (P : A → Type 0)
    (decides : (x : A) → ((p x && q x) ≡ true) ↔ P x) where
  find_first-keep-none : (xs : List A) → (find_first q (keep p xs) ≡ none) ↔ All (λ x. ¬ P x) xs
  find_first-keep-none [] = (λ _. tt, λ _. refl)
  find_first-keep-none (x ∷ xs) = ground (arith, find_first-keep-none xs, decides x)

  find_first-keep-some : (xs : List A) → (find_first q (keep p xs) ≢ none) ↔ Any P xs
  find_first-keep-some [] = (λ h. absurd (h refl), λ h. elim h [ ])
  find_first-keep-some (x ∷ xs) = ground (arith, find_first-keep-some xs, decides x)

module _ (rules : List ParsedRule) (path cap : Text) where
  none-Applies :
      (find_first (grants cap) (matching rules path) ≡ none) ↔ All (λ r. ¬ Applies path cap r) rules
  unfolding matching
  none-Applies =
      find_first-keep-none (λ r. glob_match r.path path) (grants cap) (Applies path cap)
        (Applies-iff path cap) rules

  some-Applies :
      (find_first (grants cap) (matching rules path) ≢ none) ↔ Any (Applies path cap) rules
  unfolding matching
  some-Applies =
      find_first-keep-some (λ r. glob_match r.path path) (grants cap) (Applies path cap)
        (Applies-iff path cap) rules

-- A request is allowed exactly if some rule for the path lists its capability and no rule for the
-- path lists `deny`, in whatever order the rules stand.
pub evaluate-allowed_iff :
    (rules : List ParsedRule) (path cap : Text)
    → ((evaluate rules path cap).allowed ≡ true)
      ↔ (Any (Applies path cap) rules × All (λ r. ¬ Applies path (codes "deny") r) rules)
unfolding evaluate
evaluate-allowed_iff rules path cap =
    ground (arith, none-Applies rules path (codes "deny"), some-Applies rules path cap)

matching-empty :
    (rules : List ParsedRule) (path : Text)
    → (is_empty (matching rules path) ≡ true) ↔ All (λ r. ¬ Matches r.path path) rules
unfolding matching
matching-empty [] path = (λ _. tt, λ _. refl)
matching-empty (r ∷ rules) path =
    ground (arith, matching-empty rules path, glob_match_iff r.path path)

find_first-empty {ℓ} :
    {A : Type ℓ} (q : A → Bool) (xs : List A) → is_empty xs ≡ true → find_first q xs ≡ none
find_first-empty q [] h = refl
find_first-empty q (x ∷ xs) h = cc

kind-nomatch_iff :
    (rules : List ParsedRule) (path cap : Text)
    → ((evaluate rules path cap).kind ≡ nomatch) ↔ (is_empty (matching rules path) ≡ true)
unfolding evaluate
kind-nomatch_iff rules path cap = ground (
  arith,
  find_first-empty (grants (codes "deny")) (matching rules path),
  find_first-empty (grants cap) (matching rules path),
)

-- The reason given: `deny` exactly if some rule for the path denies, `allow` exactly if the request
-- is allowed, `nomatch` only if no rule is for the path, and always then.
pub evaluate-kind_iff :
    (rules : List ParsedRule) (path cap : Text)
    → (((evaluate rules path cap).kind ≡ deny) ↔ Any (Applies path (codes "deny")) rules)
      × (((evaluate rules path cap).kind ≡ allow) ↔ ((evaluate rules path cap).allowed ≡ true))
      × (((evaluate rules path cap).kind ≡ nomatch) ↔ All (λ r. ¬ Matches r.path path) rules)
evaluate-kind_iff rules path cap = (
  (unfold evaluate in ground (arith, some-Applies rules path (codes "deny"))),
  (unfold evaluate in ground arith),
  ground (arith, kind-nomatch_iff rules path cap, matching-empty rules path),
)
