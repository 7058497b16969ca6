-- ===== src/KeyValue/Valid.antt =====
-- What `validateKv` accepts.
use tuck.Base.{
  ℕ, suc, ◌≡◌, refl, ◌↔◌, Text, List, [], ◌∷◌, Bool, true, false, not, Option, none, some, arith,
  map, keep, is_empty, text_eq, trim, All, Bool-cases, inl, inr,
}
use tuck.KeyValue.{
  KvPair, KvIssue, bad_key, duplicate, no_key, ignored, issue_of, with_issue, issues_from,
  first_problem, includes_issue, same_issue, is_none, validate_kv, seen_key,
}

-- The keys of the rows that count, without the blanks around them.
unfoldable pub keys_of : List KvPair → List Text
keys_of pairs = map (λ (p : KvPair). trim p.key) (keep (λ (p : KvPair). not (ignored p)) pairs)

-- A key that is there and fits the pattern.
abbrev pub IsKey : (Text → Bool) → Text → Type 0
IsKey pattern k = (is_empty k ≡ false) × (pattern k ≡ true)

-- No key stands twice.
abbrev pub Distinct : List Text → Type 0
Distinct [] = Unit
Distinct (k ∷ ks) = All (λ j. text_eq k j ≡ false) ks × Distinct ks

-- No key of the list was seen.
abbrev pub Unseen : List Text → List Text → Type 0
Unseen seen ks = All (λ k. seen_key seen k ≡ false) ks

first_problem-none :
    (issues : List (ℕ × KvIssue)) → (is_none (first_problem issues) ≡ true) ↔ (issues ≡ [])
unfolding first_problem includes_issue same_issue is_none
first_problem-none [] = (λ h. refl, λ h. refl)
first_problem-none ((i, bad_key) ∷ issues) = (λ h. ground arith, λ h. cc h)
first_problem-none ((i, duplicate) ∷ issues) = (λ h. ground arith, λ h. cc h)
first_problem-none ((i, no_key) ∷ issues) = (λ h. ground arith, λ h. cc h)

issue_of-none :
    (pattern : Text → Bool) (seen : List Text) (k : Text)
    → (issue_of pattern seen k ≡ none) ↔ (IsKey pattern k × (seen_key seen k ≡ false))
unfolding issue_of
issue_of-none pattern seen k = ground arith

with_issue-nil :
    (i : ℕ) (o : Option KvIssue) (issues : List (ℕ × KvIssue))
    → (with_issue i o issues ≡ []) ↔ ((o ≡ none) × (issues ≡ []))
unfolding with_issue
with_issue-nil i none issues = (λ h. (refl, h), λ h. h.1)
with_issue-nil i (some k) issues = (λ h. cc h, λ h. cc (h.0))

Unseen-cons :
    (k : Text) (seen ks : List Text)
    → Unseen (k ∷ seen) ks ↔ (All (λ j. text_eq k j ≡ false) ks × Unseen seen ks)
unfolding seen_key
Unseen-cons k seen [] = (λ h. (tt, tt), λ h. tt)
Unseen-cons k seen (j ∷ ks) =
    let (to, from) = Unseen-cons k seen ks in
    (
      λ h. ((ground arith, (to h.1).0), (ground arith, (to h.1).1)),
      λ h. (ground arith, from (h.0.1, h.1.1)),
    )

-- Nothing is wrong with these keys when those of `seen` come first.
abbrev Fine : (Text → Bool) → List Text → List Text → Type 0
Fine pattern seen ks = All (IsKey pattern) ks × Distinct ks × Unseen seen ks

-- One more key.
Fine-cons :
    (pattern : Text → Bool) (seen : List Text) (k : Text) (ks : List Text)
    → Fine pattern seen (k ∷ ks)
      ↔ ((IsKey pattern k × (seen_key seen k ≡ false)) × Fine pattern (k ∷ seen) ks)
Fine-cons pattern seen k ks =
    let (to, from) = Unseen-cons k seen ks in
    (
      λ (good, (apart, rest), (new, others)). ((good.0, new), (good.1, rest, from (apart, others))),
      λ ((key, new), (good, rest, unseen)).
          let (apart, others) = to unseen in ((key, good), (apart, rest), (new, others)),
    )

pub keys_of-ignored :
    (p : KvPair) (pairs : List KvPair) → ignored p ≡ true → keys_of (p ∷ pairs) ≡ keys_of pairs
unfolding keys_of
keys_of-ignored p pairs e = rw e refl

pub keys_of-counted :
    (p : KvPair) (pairs : List KvPair)
    → ignored p ≡ false
    → keys_of (p ∷ pairs) ≡ trim p.key ∷ keys_of pairs
unfolding keys_of
keys_of-counted p pairs e = rw e refl

issues_from-ignored :
    (pattern : Text → Bool) (i : ℕ) (seen : List Text) (p : KvPair) (pairs : List KvPair)
    → ignored p ≡ true
    → issues_from pattern i seen (p ∷ pairs) ≡ issues_from pattern (suc i) seen pairs
unfolding issues_from
issues_from-ignored pattern i seen p pairs e = rw (issues_from, e) refl

issues_from-counted :
    (pattern : Text → Bool) (i : ℕ) (seen : List Text) (p : KvPair) (pairs : List KvPair)
    → ignored p ≡ false
    → issues_from pattern i seen (p ∷ pairs)
      ≡ with_issue i
          (issue_of pattern seen (trim p.key))
          (issues_from pattern (suc i) (trim p.key ∷ seen) pairs)
unfolding issues_from
issues_from-counted pattern i seen p pairs e = rw (issues_from, e) refl

issues_from-none :
    (pattern : Text → Bool) (i : ℕ) (seen : List Text)
    → (issues_from pattern i seen [] ≡ []) ↔ Fine pattern seen (keys_of [])
unfolding issues_from keys_of
issues_from-none pattern i seen = (λ h. (tt, tt, tt), λ h. refl)

issues_from-nil :
    (pattern : Text → Bool) (i : ℕ) (seen : List Text) (pairs : List KvPair)
    → (issues_from pattern i seen pairs ≡ []) ↔ Fine pattern seen (keys_of pairs)
issues_from-nil pattern i seen [] = issues_from-none pattern i seen
issues_from-nil pattern i seen (p ∷ pairs) = elim (Bool-cases (ignored p)) [
  | inl e ↦
      rw (issues_from-ignored pattern i seen p pairs e, keys_of-ignored p pairs e)
        (issues_from-nil pattern (suc i) seen pairs)
  | inr e ↦
      let k = trim p.key in
      let (to, from) = issues_from-nil pattern (suc i) (k ∷ seen) pairs in
      let (split, join) = Fine-cons pattern seen k (keys_of pairs) in
      let (right, wrong) = issue_of-none pattern seen k in
      let (apart, both) =
        with_issue-nil i (issue_of pattern seen k) (issues_from pattern (suc i) (k ∷ seen) pairs) in
      rw (issues_from-counted pattern i seen p pairs e, keys_of-counted p pairs e)
        (
          λ h. join (right (apart h).0, to (apart h).1),
          λ h. both (wrong (split h).0, from (split h).1),
        )
]

Unseen-nil : (ks : List Text) → Unseen [] ks
unfolding seen_key
Unseen-nil [] = tt
Unseen-nil (k ∷ ks) = (refl, Unseen-nil ks)

-- The rows are valid if and only if every row with a key or a value has a key that fits the
-- pattern, blanks around it aside, and no two of these keys are the same.
pub validate_kv-valid_iff :
    (pattern : Text → Bool) (pairs : List KvPair)
    → ((validate_kv pattern pairs).valid ≡ true)
      ↔ (All (IsKey pattern) (keys_of pairs) × Distinct (keys_of pairs))
unfolding validate_kv
validate_kv-valid_iff pattern pairs =
    let (to, from) = first_problem-none (issues_from pattern 0 [] pairs) in
    let (up, down) = issues_from-nil pattern 0 [] pairs in
    (
      λ h. let fine = up (to h) in (fine.0, fine.1),
      λ h. from (down (h.0, h.1, Unseen-nil (keys_of pairs))),
    )
