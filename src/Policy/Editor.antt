-- ===== src/Policy/Editor.antt =====
-- The editor of a policy, web/src/pages/dashboard/policies/components/policy-editor.tsx: the matrix
-- edits the text, the tester evaluates what the text says. With `samplePath`, `pathScope` and the
-- templates of web/src/pages/dashboard/policies/lib/policy-text.ts. The cursor, the scrolling and
-- the flashes are not modelled. An edit is of a rule of the text shown, so its line is there.
pub mod Highlight
pub mod Clicks
pub mod Edits
mod Tests
use mathlib.Core.List.{reverse}
use tuck.Base.{
  ℕ, zero, suc, ◌+◌, ◌-◌, Text, List, [], ◌∷◌, ◌++◌, codes, Bool, true, false, not, ◌&&◌, ◌||◌,
  Option, none, some, map, keep, length, any, is_empty, text_eq, includes, join, split_on, trim,
  trim_start, has_char, has_text, find_first, sort_by, if◌then◌else◌, ltb, leb, ◌==◌,
}
use tuck.Policy.Rules.{ParsedRule, PolicyRule, Evaluation, caps_order, ordered, fmt_rule, evaluate}
use tuck.Policy.Parse.{Parsed, Diag, Severity, error, warning, is_error, at_slash}

-- `pattern.replace(/\*\*/g, 'example/item')`
unfoldable pub replace_double : Text → Text
replace_double [] = []
replace_double (c ∷ []) = c ∷ []
replace_double (c ∷ d ∷ s) = elim (c == b'*' && d == b'*') [
  | true ↦ codes "example/item" ++ replace_double s
  | false ↦ c ∷ replace_double (d ∷ s)
]

-- `.replace(/\*/g, 'example')`
unfoldable pub replace_single : Text → Text
replace_single [] = []
replace_single (c ∷ s) =
    let rest = replace_single s in if c == b'*' then codes "example" ++ rest else c ∷ rest

unfoldable pub sample_path : Text → Text
unfolding replace_double replace_single
sample_path pattern = replace_single (replace_double pattern)

pub data Scope : Type 0 where
  exact recursive segment : Scope

unfoldable pub path_scope : Text → Scope
unfolding has_text has_char
path_scope path =
    if has_text (codes "**") path then recursive else if has_char b'*' path then segment else exact

pub data TemplateId : Type 0 where
  admin ro rw : TemplateId

-- `TEMPLATES`
unfoldable pub template : TemplateId → PolicyRule
template admin = record {
  path = codes "secret/**";
  capabilities = codes "read" ∷ codes "write" ∷ codes "delete" ∷ codes "list" ∷ [];
}
template ro = record { path = codes "secret/*"; capabilities = codes "read" ∷ codes "list" ∷ [] }
template rw = record {
  path = codes "secret/*";
  capabilities = codes "read" ∷ codes "write" ∷ codes "list" ∷ [];
}

-- A sample of the tester: a path and a capability.
pub record Sample : Type 0 where
  pub path : Text
  pub cap : Text

-- `r.caps.find((c) => c !== 'deny') ?? 'read'`
unfoldable pub sample_cap : List Text → Text
unfolding text_eq
sample_cap caps = elim (find_first (λ c. not (text_eq c (codes "deny"))) caps) [
  | none ↦ codes "read"
  | some c ↦ c
]

unfoldable pub sample_of : ParsedRule → Sample
unfolding sample_path sample_cap
sample_of r = record { path = sample_path r.path; cap = sample_cap r.caps }

unfoldable pub same_sample : Sample → Sample → Bool
unfolding text_eq
same_sample a b = text_eq (a.path ++ (codes "|" ++ a.cap)) (b.path ++ (codes "|" ++ b.cap))

-- The loop of `samples`, which stops at six.
unfoldable pub samples_from : List Sample → List ParsedRule → List Sample
unfolding sample_of same_sample at_slash
samples_from out [] = out
samples_from out (r ∷ rules) =
    let s = sample_of r in
    samples_from
      (if leb 6 (length out) || is_empty r.path || at_slash r.path || any (same_sample s) out
        then out
        else out ++ s ∷ [])
      rules

unfoldable pub samples : List ParsedRule → List Sample
unfolding samples_from
samples rules = samples_from [] rules

-- What the user has put into the tester: `tPath` and `tCap`.
pub record Tester : Type 0 where
  pub t_path : Option Text
  pub t_cap : Option Text

unfoldable pub first_sample : List ParsedRule → Option Sample
unfolding samples
first_sample rules = find_first (λ s. true) (samples rules)

-- `path`
unfoldable pub tested_path : List ParsedRule → Tester → Text
unfolding first_sample trim
tested_path rules t = trim (elim t.t_path [
  | some p ↦ p
  | none ↦ elim (first_sample rules) [ none ↦ [] | some s ↦ s.path ]
])

-- `cap`
unfoldable pub tested_cap : List ParsedRule → Tester → Text
unfolding first_sample
tested_cap rules t = elim t.t_cap [
  | some c ↦ c
  | none ↦ elim (first_sample rules) [ none ↦ codes "read" | some s ↦ s.cap ]
]

-- `ev`
unfoldable pub tested : List ParsedRule → Tester → Option Evaluation
unfolding tested_path tested_cap evaluate
tested rules t =
    let path = tested_path rules t in
    if is_empty path then none else some (evaluate rules path (tested_cap rules t))

unfoldable pub user_path : List ParsedRule → Text → Tester → Tester
unfolding tested_cap
user_path rules v t = record { t_path = some v; t_cap = some (tested_cap rules t) }

unfoldable pub user_cap : List ParsedRule → Text → Tester → Tester
unfolding tested_path
user_cap rules c t = record {
  t_path = some (elim t.t_path [ some p ↦ p | none ↦ tested_path rules t ]);
  t_cap = some c;
}

unfoldable pub user_sample : Text → Text → Tester → Tester
user_sample p c t = record { t_path = some p; t_cap = some c }

-- `sev[line]`: an error on the line is not overwritten.
unfoldable pub sev_from : Option Severity → ℕ → List Diag → Option Severity
sev_from now line [] = now
sev_from (some error) line (d ∷ diags) = sev_from (some error) line diags
sev_from (some warning) line (d ∷ diags) =
    sev_from (if d.line == line then some d.sev else some warning) line diags
sev_from none line (d ∷ diags) = sev_from (if d.line == line then some d.sev else none) line diags

-- The comparator of `sortedDiags`, `compare(a, b) <= 0`: errors first, then by line.
unfoldable pub diag_le : Diag → Diag → Bool
diag_le a b = elim a.sev [
  | error ↦ elim b.sev [ error ↦ leb a.line b.line | warning ↦ true ]
  | warning ↦ elim b.sev [ error ↦ false | warning ↦ leb a.line b.line ]
]

unfoldable pub sorted_diags : List Diag → List Diag
unfolding sort_by diag_le
sorted_diags diags = sort_by diag_le diags

-- `text.replace(/\s+$/, '')`
unfoldable pub trim_end : Text → Text
unfolding trim_start
trim_end s = reverse (trim_start (reverse s))

-- `appendLine`
unfoldable pub append_line : Text → Text → Text
unfolding trim_end
append_line line text =
    let base = trim_end text in (if is_empty base then [] else base ++ codes "\n") ++ line

unfoldable pub add_template : TemplateId → Text → Text
unfolding append_line template fmt_rule
add_template id text = append_line (fmt_rule (template id).path (template id).capabilities) text

module _ {ℓ} {A : Type ℓ} where
  -- `xs[i] = x`
  abbrev pub set_elem : ℕ → A → List A → List A
  set_elem i x [] = []
  set_elem zero x (y ∷ ys) = x ∷ ys
  set_elem (suc i) x (y ∷ ys) = y ∷ set_elem i x ys

  -- `xs.splice(i, 1)`
  abbrev pub delete_elem : ℕ → List A → List A
  delete_elem i [] = []
  delete_elem zero (y ∷ ys) = ys
  delete_elem (suc i) (y ∷ ys) = y ∷ delete_elem i ys

-- `caps.splice(caps.indexOf(c), 1)`
unfoldable pub delete_first : Text → List Text → List Text
unfolding text_eq
delete_first c [] = []
delete_first c (d ∷ caps) = if text_eq d c then caps else d ∷ delete_first c caps

-- The capabilities of a rule after a click on one of them.
unfoldable pub toggled : List Text → Text → List Text
unfolding delete_first text_eq
toggled caps c =
    if includes caps c
    then delete_first c caps
    else if text_eq c (codes "deny")
    then codes "deny" ∷ []
    else caps ++ c ∷ []

-- `toggleCap`
unfoldable pub toggle_cap : ParsedRule → Text → Text → Text
unfolding toggled fmt_rule split_on join
toggle_cap r c text =
    join (codes "\n") (set_elem r.line (fmt_rule r.path (toggled r.caps c)) (split_on b'\n' text))

unfoldable pub remove_rule : ParsedRule → Text → Text
unfolding split_on join
remove_rule r text = join (codes "\n") (delete_elem r.line (split_on b'\n' text))

-- `v.replace(/["\n]/g, '')`
unfoldable pub plain : Text → Text
plain v = keep (λ c. not (c == b'"' || c == b'\n')) v

unfoldable pub set_rule_path : ParsedRule → Text → Text → Text
unfolding plain fmt_rule split_on join
set_rule_path r v text =
    join (codes "\n") (set_elem r.line (fmt_rule (plain v) r.caps) (split_on b'\n' text))

-- `hidden.add(line)`
unfoldable pub add_line : ℕ → List ℕ → List ℕ
add_line n hidden = if any (λ k. k == n) hidden then hidden else hidden ++ n ∷ []

unfoldable pub hidden_from : List ℕ → List ParsedRule → List Diag → List ℕ
unfolding add_line
hidden_from hidden rules [] = hidden
hidden_from hidden rules (d ∷ diags) =
    hidden_from
      (if is_error d && not (any (λ (r : ParsedRule). r.line == d.line) rules)
        then add_line d.line hidden
        else hidden)
      rules diags

-- `hiddenErrLines`
unfoldable pub hidden_err_lines : Parsed → ℕ
unfolding hidden_from
hidden_err_lines p = length (hidden_from [] p.rules p.diags)
