-- ===== src/Policy/Parse/Paths.antt =====
-- The paths that `parsePolicy` of web/src/pages/dashboard/policies/lib/policy-text.ts reads.
use mathlib.Core.List.{reverse, reverse-cons}
use tuck.Base.{
  ℕ, ◌+◌, Text, List, [], ◌∷◌, ◌++◌, codes, ◌≡◌, ◌≢◌, false, Option, none, some, arith, NoChar,
  NoChar-append, All, split_on, push_head, trim, trim_start, strip, take_until, is_space, ◌==◌, ◌%◌,
  Bool-cases, inl, inr, count_char,
}
use mathlib.Core.Option
use tuck.Policy.Rules.{ParsedRule}
use tuck.Policy.Parse.{
  parse_policy, Progress, policy_lines, policy_line, trimmed_line, rule_line, scanned_line, CapScan,
  scan_caps, match_line, match_tail, explain, is_skipped,
}
use tuck.Policy.Parse.Line.{some_space, token, at_end}
use tuck.Policy.Parse.Whole.{IsPrintable}

abbrev Printable : ParsedRule → Type 0
Printable r = IsPrintable r.path

push_head-pieces :
    (c d : ℕ) (ws : List Text)
    → (d == c) ≡ false
    → All (NoChar c) ws
    → All (NoChar c) (push_head d ws)
unfolding push_head
push_head-pieces c d [] e h = ((ground (arith, e), tt), tt)
push_head-pieces c d (w ∷ ws) e h = ((ground (arith, e), h.0), h.1)

split_on-pieces : (c : ℕ) (s : Text) → All (NoChar c) (split_on c s)
unfolding split_on
split_on-pieces c [] = (tt, tt)
split_on-pieces c (d ∷ s) = elim (Bool-cases (d == c)) [
  | inl e ↦ rw e (tt, split_on-pieces c s)
  | inr e ↦ rw e (push_head-pieces c d (split_on c s) e (split_on-pieces c s))
]

NoChar-trim_start : (c : ℕ) (s : Text) → NoChar c s → NoChar c (trim_start s)
unfolding trim_start
NoChar-trim_start c [] h = tt
NoChar-trim_start c (d ∷ s) h = elim (Bool-cases (is_space d)) [
  | inl e ↦ rw e (NoChar-trim_start c s h.1)
  | inr e ↦ rw e h
]

NoChar-reverse : (c : ℕ) (s : Text) → NoChar c s → NoChar c (reverse s)
NoChar-reverse c [] h = tt
NoChar-reverse c (d ∷ s) h =
    rw (reverse-cons d s) (NoChar-append c (reverse s) (d ∷ []) (NoChar-reverse c s h.1) (h.0, tt))

NoChar-trim : (c : ℕ) (s : Text) → NoChar c s → NoChar c (trim s)
unfolding trim
NoChar-trim c s h =
    NoChar-reverse c _ (NoChar-trim_start c _ (NoChar-reverse c _ (NoChar-trim_start c s h)))

-- What there is of an optional value has the property.
abbrev Maybe {ℓ} : {A : Type ℓ} → (A → Type 0) → Option A → Type 0
Maybe P none = Unit
Maybe P (some a) = P a

bind-Maybe {ℓ κ} :
    {A : Type ℓ} {B : Type κ} (P : A → Type 0) (Q : B → Type 0) (o : Option A) (k : A → Option B)
    → Maybe P o
    → ((a : A) → P a → Maybe Q (k a))
    → Maybe Q (Option.bind o k)
unfolding Option.bind
bind-Maybe P Q none k h f = tt
bind-Maybe P Q (some a) k h f = f a h

NoChar-strip : (c : ℕ) (w s : Text) → NoChar c s → Maybe (NoChar c) (strip w s)
unfolding strip
NoChar-strip c [] s h = h
NoChar-strip c (a ∷ w) [] h = tt
NoChar-strip c (a ∷ w) (b ∷ s) h = elim (Bool-cases (a == b)) [
  | inl e ↦ rw e (NoChar-strip c w s h.1)
  | inr e ↦ rw e tt
]

NoChar-some_space : (c : ℕ) (s : Text) → NoChar c s → Maybe (NoChar c) (some_space s)
unfolding some_space
NoChar-some_space c [] h = tt
NoChar-some_space c (d ∷ s) h = elim (Bool-cases (is_space d)) [
  | inl e ↦ rw e (NoChar-trim_start c s h.1)
  | inr e ↦ rw e tt
]

-- The path in front of a quote.
abbrev Found : Text × Text → Type 0
Found p = IsPrintable p.0

cons-Found :
    (d : ℕ) (o : Option (Text × Text))
    → (d == b'"') ≡ false
    → d ≢ b'\n'
    → Maybe Found o
    → Maybe Found (Option.map (λ p. (d ∷ p.0, p.1)) o)
cons-Found d none e n h = tt
cons-Found d (some p) e n h = record {
  no_quote = (ground (arith, e), h.no_quote);
  no_newline = (n, h.no_newline);
}

take_until-Found : (s : Text) → NoChar b'\n' s → Maybe Found (take_until b'"' s)
unfolding take_until
take_until-Found [] h = tt
take_until-Found (d ∷ s) h = elim (Bool-cases (d == b'"')) [
  | inl e ↦ rw e (record { no_quote = tt; no_newline = tt })
  | inr e ↦ rw e (cons-Found d (take_until b'"' s) e h.0 (take_until-Found s h.1))
]

anything {ℓ} : {A : Type ℓ} (o : Option A) → Maybe (λ a. Unit) o
anything none = tt
anything (some a) = tt

at_end-Found : (path caps s : Text) → IsPrintable path → Maybe Found (at_end path caps s)
unfolding at_end
at_end-Found path caps [] h = h
at_end-Found path caps (c ∷ s) h = tt

match_tail-Found : (path s : Text) → IsPrintable path → Maybe Found (match_tail path s)
unfolding match_tail Option.bind
match_tail-Found path s3 h =
    bind-Maybe (λ a. Unit) Found _ _ (anything (token (codes "{") s3))
      λ s4 u.
        bind-Maybe (λ a. Unit) Found _ _ (anything (token (codes "capabilities") s4))
          λ s5 u.
            bind-Maybe (λ a. Unit) Found _ _ (anything (token (codes "=") s5))
              λ s6 u.
                bind-Maybe (λ a. Unit) Found _ _ (anything (token (codes "[") s6))
                  λ s7 u.
                    bind-Maybe (λ a. Unit) Found _ _ (anything (take_until b']' s7))
                      λ (caps : Text × Text) u.
                        bind-Maybe (λ a. Unit) Found _ _ (anything (token (codes "}") caps.1))
                          λ s8 u. at_end-Found path caps.0 s8 h

match_line-Found : (t : Text) → NoChar b'\n' t → Maybe Found (match_line t)
unfolding match_line Option.bind
match_line-Found t h =
    bind-Maybe (NoChar b'\n') Found _ _ (NoChar-strip b'\n' (codes "path") t h) λ s1 n1.
      bind-Maybe (NoChar b'\n') Found _ _ (NoChar-some_space b'\n' s1 n1) λ s2 n2.
        bind-Maybe (NoChar b'\n') Found _ _ (NoChar-strip b'\n' (codes "\"") s2 n2) λ s3 n3.
          bind-Maybe Found Found _ _ (take_until-Found s3 n3)
            λ path f. match_tail-Found path.0 path.1 f

All-snoc {ℓ} :
    {A : Type ℓ} (P : A → Type 0) (xs : List A) (x : A) → All P xs → P x → All P (xs ++ x ∷ [])
All-snoc P [] x h k = (k, tt)
All-snoc P (y ∷ xs) x h k = (h.0, All-snoc P xs x h.1 k)

scanned_line-Printable :
    (st : Progress) (i : ℕ) (path : Text) (scan : CapScan)
    → All Printable st.rules
    → IsPrintable path
    → All Printable (scanned_line st i path scan).rules
unfolding scanned_line
scanned_line-Printable st i path scan h k = elim (Bool-cases scan.bad) [
  | inl e ↦ rw e h
  | inr e ↦ rw e (All-snoc Printable st.rules _ h k)
]

matched-Printable :
    (st : Progress) (i : ℕ) (t : Text) (o : Option (Text × Text))
    → All Printable st.rules
    → Maybe Found o
    → All Printable
        (elim o as (λ x. Progress) [
          | none ↦ record st { diags = st.diags ++ explain i t ∷ [] }
          | some (path, raw) ↦ rule_line st i path raw
        ]).rules
unfolding rule_line
matched-Printable st i t none h k = h
matched-Printable st i t (some (path, raw)) h k =
    scanned_line-Printable st i path (scan_caps i raw) h k

trimmed_line-Printable :
    (st : Progress) (i : ℕ) (t : Text)
    → All Printable st.rules
    → NoChar b'\n' t
    → All Printable (trimmed_line st i t).rules
unfolding trimmed_line
trimmed_line-Printable st i t h n = elim (Bool-cases (is_skipped t)) [
  | inl e ↦ rw e h
  | inr e ↦ elim (Bool-cases (count_char b'"' t % 2 == 1)) [
    | inl f ↦ rw (e, f) h
    | inr f ↦ rw (e, f) (matched-Printable st i t (match_line t) h (match_line-Found t n))
  ]
]

policy_lines-Printable :
    (lines : List Text) (st : Progress) (i : ℕ)
    → All Printable st.rules
    → All (NoChar b'\n') lines
    → All Printable (policy_lines st i lines).rules
unfolding policy_lines
policy_lines-Printable [] st i h n = h
policy_lines-Printable (raw ∷ lines) st i h n =
    policy_lines-Printable lines (policy_line st i raw) (i + 1)
      (trimmed_line-Printable st i (trim raw) h (NoChar-trim b'\n' raw n.0)) n.1

-- The paths of the rules that the parser reads hold no quote and no newline.
pub parse_policy-Printable : (text : Text) → All (λ r. IsPrintable r.path) (parse_policy text).rules
unfolding parse_policy
parse_policy-Printable text =
    policy_lines-Printable (split_on b'\n' text) _ 0 tt (split_on-pieces b'\n' text)
