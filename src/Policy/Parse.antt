-- ===== src/Policy/Parse.antt =====
-- `parsePolicy` of web/src/pages/dashboard/policies/lib/policy-text.ts: the text of a policy, line by
-- line. The regular expressions are functions on the text; in each of them what a repetition stands
-- before is a character that it cannot take, so there is one way to match at most.
mod Line
unfoldable pub use Line.{match_line, match_tail, quoted}
pub mod Roundtrip
pub mod Whole
pub mod Paths
use mathlib.Core.List.{reverse}
use tuck.Base.{
  ℕ, suc, ◌+◌, ◌-◌, ◌%◌, Text, List, [], ◌∷◌, ◌++◌, codes, Bool, true, false, not, ◌&&◌, ◌||◌,
  Option, none, some, is_empty, includes, trim, split_on, has_char, has_text, starts_with,
  ends_with, count_char, text_eq, length, keep, if◌then◌else◌, ltb, leb, ◌==◌, is_lower, is_upper,
  is_digit,
}
use tuck.Policy.Rules.{ParsedRule, caps_order}

-- The keys `diag.*` and `fix.*` of the translations; `fix_raw` is the literal suggestion.
pub data DiagKey : Type 0 where
  unclosed_quote expect_rule no_brace no_caps caps_array syntax cap_quoted : DiagKey
  unknown_cap_write unknown_cap_sudo unknown_cap empty_path leading_slash triple_star : DiagKey
  plus_literal empty_caps deny_overrides dup_path single_star : DiagKey

pub data Fix : Type 0 where
  no_fix close_quote start_path wrap_braces drop_slash use_stars only_deny merge : Fix
  use_double_star : Fix
  fix_raw : Text → Fix

pub data Severity : Type 0 where
  error warning : Severity

-- What `seen[path]` holds: the line number of an earlier rule, or, since `seen` is a plain object,
-- what every object has under that name.
pub data Seen : Type 0 where
  line_no : ℕ → Seen
  inherited : Seen

pub data Params : Type 0 where
  no_params : Params
  cap : Text → Params
  first_line : Seen → Params

pub record Diag : Type 0 where
  pub key : DiagKey
  pub fix : Fix
  pub line : ℕ
  pub n : ℕ
  pub params : Params
  pub sev : Severity

-- `E(key, extra)` and `W(key, extra)` on line `i`.
abbrev pub diag : Severity → ℕ → DiagKey → Fix → Params → Diag
diag sev i key fix params = record {
  key = key;
  fix = fix;
  line = i;
  n = i + 1;
  params = params;
  sev = sev;
}

-- What the callback of `lines.forEach` writes to.
pub record Progress : Type 0 where
  pub rules : List ParsedRule
  pub diags : List Diag
  pub seen : List (Text × ℕ)

-- The names that an object literal inherits.
abbrev pub object_names : List Text
object_names =
    codes "constructor"
    ∷ codes "__defineGetter__"
    ∷ codes "__defineSetter__"
    ∷ codes "hasOwnProperty"
    ∷ codes "__lookupGetter__"
    ∷ codes "__lookupSetter__"
    ∷ codes "isPrototypeOf"
    ∷ codes "propertyIsEnumerable"
    ∷ codes "toString"
    ∷ codes "valueOf"
    ∷ codes "__proto__"
    ∷ codes "toLocaleString"
    ∷ []

-- `seen[path]`, `none` for `undefined`.
unfoldable pub seen_at : List (Text × ℕ) → Text → Option Seen
seen_at [] path = if includes object_names path then some inherited else none
seen_at ((p, k) ∷ seen) path = if text_eq p path then some (line_no k) else seen_at seen path

-- The variables of the loop over the items of one capability list.
pub record CapScan : Type 0 where
  pub caps : List Text
  pub bad : Bool
  pub found : List Diag

unfoldable pub unknown_key : Text → DiagKey
unknown_key v =
    if text_eq v (codes "update") || text_eq v (codes "create")
    then unknown_cap_write
    else if text_eq v (codes "sudo")
    then unknown_cap_sudo
    else unknown_cap

-- One round of `items.forEach`, on the value between the quotes.
unfoldable pub scan_value : ℕ → CapScan → Text → CapScan
unfolding unknown_key
scan_value i st v =
    if includes caps_order v
    then (if includes st.caps v then st else record st { caps = st.caps ++ v ∷ [] })
    else record st {
      bad = true;
      found = st.found ++ diag error i (unknown_key v) no_fix (cap v) ∷ [];
    }

unfoldable pub scan_item : ℕ → CapScan → Text → CapScan
unfolding scan_value trim quoted
scan_item i st it =
    let c = trim it in
    elim (quoted c) [
      | none ↦ record st {
        bad = true;
        found = st.found ++ diag error i cap_quoted (fix_raw (codes "\"read\"")) (cap c) ∷ [];
      }
      | some v ↦ scan_value i st v
    ]

unfoldable pub scan_items : ℕ → CapScan → List Text → CapScan
unfolding scan_item
scan_items i st [] = st
scan_items i st (it ∷ items) = scan_items i (scan_item i st it) items

abbrev pub no_caps_yet : CapScan
no_caps_yet = record { caps = []; bad = false; found = [] }

-- From `const rawCaps = m[2].trim()` to the end of the loop over the items.
unfoldable pub scan_caps : ℕ → Text → CapScan
unfolding scan_items trim split_on
scan_caps i raw =
    let raw_caps = trim raw in
    scan_items i no_caps_yet (if is_empty raw_caps then [] else split_on b',' raw_caps)

-- `path[0] === '/'`
unfoldable pub at_slash : Text → Bool
at_slash [] = false
at_slash (c ∷ s) = c == b'/'

-- The diagnostics on the path alone.
unfoldable pub path_diags : ℕ → Text → List Diag
unfolding at_slash
path_diags i path =
    (if is_empty path
      then diag error i empty_path (fix_raw (codes "secret/…")) no_params ∷ []
      else if at_slash path
      then diag error i leading_slash drop_slash no_params ∷ []
      else [])
    ++ ((if has_text (codes "***") path
          then diag error i triple_star use_stars no_params ∷ []
          else [])
        ++ (if has_char b'+' path
            then diag warning i plus_literal use_stars no_params ∷ []
            else []))

unfoldable pub dup_diags : ℕ → Text → Option Seen → List Diag
dup_diags i path none = []
dup_diags i path (some s) =
    if is_empty path then [] else diag warning i dup_path merge (first_line s) ∷ []

-- The warnings of a rule whose capabilities are all known.
unfoldable pub rule_diags : ℕ → Text → List Text → Option Seen → List Diag
unfolding dup_diags
rule_diags i path caps before =
    (if is_empty caps
      then diag warning i empty_caps no_fix no_params ∷ []
      else if includes caps (codes "deny") && ltb 1 (length caps)
      then diag warning i deny_overrides only_deny no_params ∷ []
      else [])
    ++ (dup_diags i path before
        ++ (if not (is_empty path)
              && not (ends_with (codes "**") path)
              && ends_with (codes "*") path
              && ltb 3 (count_char b'/' path + 1)
            then diag warning i single_star use_double_star no_params ∷ []
            else []))

unfoldable pub note_seen : List (Text × ℕ) → Text → ℕ → Option Seen → List (Text × ℕ)
note_seen seen path n (some s) = seen
note_seen seen path n none = if is_empty path then seen else (path, n) ∷ seen

-- A line that has the form of a rule, after the loop over its capabilities.
unfoldable pub scanned_line : Progress → ℕ → Text → CapScan → Progress
unfolding path_diags rule_diags note_seen seen_at
scanned_line st i path scan =
    let before = seen_at st.seen path in
    let diags = st.diags ++ (scan.found ++ path_diags i path) in
    if scan.bad then record st { diags = diags } else record {
      rules = st.rules ++ record { caps = scan.caps; line = i; n = i + 1; path = path } ∷ [];
      diags = diags ++ rule_diags i path scan.caps before;
      seen = note_seen st.seen path (i + 1) before;
    }

unfoldable pub rule_line : Progress → ℕ → Text → Text → Progress
unfolding scan_caps scanned_line
rule_line st i path raw = scanned_line st i path (scan_caps i raw)

-- `\w`
unfoldable pub is_word : ℕ → Bool
unfolding is_lower is_upper is_digit
is_word c = is_lower c || is_upper c || is_digit c || c == b'_'

-- `/^path\b/`
unfoldable pub starts_path : Text → Bool
unfolding is_word
starts_path (p ∷ a ∷ t ∷ h ∷ []) = text_eq (p ∷ a ∷ t ∷ h ∷ []) (codes "path")
starts_path (p ∷ a ∷ t ∷ h ∷ c ∷ s) = text_eq (p ∷ a ∷ t ∷ h ∷ []) (codes "path") && not (is_word c)
starts_path s = false

-- The ladder of diagnostics for a line that is no rule.
unfoldable pub explain : ℕ → Text → Diag
unfolding starts_path
explain i t =
    if not (starts_path t)
    then diag error i expect_rule start_path no_params
    else if not (has_char b'{' t) || not (has_char b'}' t)
    then diag error i no_brace wrap_braces no_params
    else if not (has_text (codes "capabilities") t)
    then diag error i no_caps (fix_raw (codes "capabilities = [\"read\"]")) no_params
    else if not (has_char b'[' t) || not (has_char b']' t)
    then diag error i caps_array (fix_raw (codes "[ \"read\", \"list\" ]")) no_params
    else diag error i syntax no_fix no_params

-- `!t || t[0] === '#'`
unfoldable pub is_skipped : Text → Bool
is_skipped [] = true
is_skipped (c ∷ s) = c == b'#'

-- The callback of `lines.forEach`, on the trimmed line `t`.
unfoldable pub trimmed_line : Progress → ℕ → Text → Progress
unfolding rule_line explain is_skipped match_line
trimmed_line st i t =
    if is_skipped t
    then st
    else if count_char b'"' t % 2 == 1
    then record st { diags = st.diags ++ diag error i unclosed_quote close_quote no_params ∷ [] }
    else elim (match_line t) [
      | none ↦ record st { diags = st.diags ++ explain i t ∷ [] }
      | some (path, raw) ↦ rule_line st i path raw
    ]

unfoldable pub policy_line : Progress → ℕ → Text → Progress
unfolding trimmed_line
policy_line st i raw = trimmed_line st i (trim raw)

unfoldable pub policy_lines : Progress → ℕ → List Text → Progress
unfolding policy_line
policy_lines st i [] = st
policy_lines st i (raw ∷ lines) = policy_lines (policy_line st i raw) (i + 1) lines

pub record Parsed : Type 0 where
  pub diags : List Diag
  pub errors : ℕ
  pub lines : List Text
  pub rules : List ParsedRule
  pub warns : ℕ

abbrev pub is_error : Diag → Bool
is_error d = elim d.sev [ error ↦ true | warning ↦ false ]

unfoldable pub parse_policy : Text → Parsed
unfolding policy_lines
parse_policy text =
    let lines = split_on b'\n' text in
    let st = policy_lines (record { rules = []; diags = []; seen = [] }) 0 lines in
    let errors = length (keep is_error st.diags) in
    record {
      diags = st.diags;
      errors = errors;
      lines = lines;
      rules = st.rules;
      warns = length st.diags - errors;
    }
