-- ===== src/Policy/Drafts.antt =====
-- The drafts of the policy screen: web/src/pages/dashboard/policies/policies.page.tsx, the list of
-- components/policy-list.tsx, the form of components/new-policy-modal.tsx, the scan of the tokens
-- in hooks/use-policies.ts and `canonical` of lib/policy-text.ts beside it. An object used as a
-- map is the list of its own entries: no policy bears a name that every object has.
pub mod Saved
mod Tests
use tuck.Base.{
  ℕ, suc, ◌+◌, Text, List, [], ◌∷◌, ◌++◌, codes, Bool, true, false, not, ◌&&◌, ◌||◌, Option, none,
  some, map, keep, length, take, any, all, is_empty, text_eq, texts_eq, includes, trim, has_text,
  find_first, is_lower, is_digit, if◌then◌else◌, ltb, leb, ◌==◌,
}
use tuck.Policy.Rules.{ParsedRule, PolicyRule, ordered, fmt_rule, rules_to_text}
use tuck.Policy.Parse.{Parsed, parse_policy}
use tuck.Policy.Editor.{TemplateId, template}

pub record Draft : Type 0 where
  pub inh : Bool
  pub text : Text

-- `Policy`, its missing fields read as `!!inheritable` and `rules ?? []`.
pub record Policy : Type 0 where
  pub inheritable : Bool
  pub name : Text
  pub rules : List PolicyRule

-- What `canonical` writes as JSON: it keeps apart what differs.
pub record Canonical : Type 0 where
  pub inheritable : Bool
  pub rules : List (Text × List Text)

unfoldable pub canonical : List PolicyRule → Bool → Canonical
unfolding ordered
canonical rules inheritable = record {
  inheritable = inheritable;
  rules = map (λ (r : PolicyRule). (r.path, ordered r.capabilities)) rules;
}

-- `parsed.rules.map((r) => ({ capabilities: r.caps, path: r.path }))`
unfoldable pub stored_rules : List ParsedRule → List PolicyRule
stored_rules rules = map (λ (r : ParsedRule). record { path = r.path; capabilities = r.caps }) rules

unfoldable pub server_canon : Policy → Canonical
unfolding canonical
server_canon p = canonical p.rules p.inheritable

unfoldable pub same_rules : List (Text × List Text) → List (Text × List Text) → Bool
unfolding text_eq texts_eq
same_rules [] [] = true
same_rules (a ∷ rs) (b ∷ ss) = text_eq a.0 b.0 && texts_eq a.1 b.1 && same_rules rs ss
same_rules _ _ = false

unfoldable pub same_bool : Bool → Bool → Bool
same_bool true b = b
same_bool false b = not b

-- `===` of two canonical texts.
unfoldable pub same_canonical : Canonical → Canonical → Bool
unfolding same_rules same_bool
same_canonical a b = same_bool a.inheritable b.inheritable && same_rules a.rules b.rules

module _ {ℓ} {A : Type ℓ} where
  -- `xs[name]`
  unfoldable pub entry : Text → List (Text × A) → Option A
  entry name [] = none
  entry name ((k, x) ∷ xs) = if text_eq k name then some x else entry name xs

  -- `({ [name]: _gone, ...rest }) => rest`
  unfoldable pub without : Text → List (Text × A) → List (Text × A)
  without name xs = keep (λ (e : Text × A). not (text_eq e.0 name)) xs

  -- `{ ...xs, [name]: x }`
  unfoldable pub with_entry : Text → A → List (Text × A) → List (Text × A)
  with_entry name x [] = (name, x) ∷ []
  with_entry name x ((k, y) ∷ xs) =
      if text_eq k name then (k, x) ∷ xs else (k, y) ∷ with_entry name x xs

  -- `{ [name]: x, ...xs }`
  unfoldable pub entry_first : Text → A → List (Text × A) → List (Text × A)
  unfolding entry without
  entry_first name x xs = (name, elim (entry name xs) [ none ↦ x | some y ↦ y ]) ∷ without name xs

-- What the query of one policy holds.
pub record Detail : Type 0 where
  pub policy : Option Policy
  pub is_error : Bool

pub data NewTemplate : Type 0 where
  no_template : NewTemplate
  from : TemplateId → NewTemplate

-- `creating`: `none` for `false`. `details` is the cache of the queries.
pub record PoliciesPage : Type 0 where
  pub server_names : List Text
  pub details : List (Text × Detail)
  pub new_drafts : List (Text × Draft)
  pub drafts : List (Text × Draft)
  pub selected_raw : Option Text
  pub creating : Option NewTemplate
  pub deleting : Option Text

unfoldable pub all_names : PoliciesPage → List Text
all_names p = map (λ (e : Text × Draft). e.0) p.new_drafts ++ p.server_names

unfoldable pub selected : PoliciesPage → Option Text
unfolding all_names
selected p =
    let first = find_first (λ n. true) (all_names p) in
    elim p.selected_raw [
      | none ↦ first
      | some s ↦ if not (is_empty s) && includes (all_names p) s then some s else first
    ]

-- `details[name]`: the queries run for the names of the list only.
unfoldable pub detail_of : Text → PoliciesPage → Option Detail
unfolding entry text_eq
detail_of name p = if includes p.server_names name then entry name p.details else none

-- `details[name]?.data`
unfoldable pub data_of : Text → PoliciesPage → Option Policy
unfolding detail_of
data_of name p = elim (detail_of name p) [ none ↦ none | some d ↦ d.policy ]

unfoldable pub as_draft : Option Policy → Option Draft
unfolding rules_to_text
as_draft none = none
as_draft (some d) = some (record { inh = d.inheritable; text = rules_to_text d.rules })

-- `current`
unfoldable pub current : Text → PoliciesPage → Option Draft
unfolding entry data_of as_draft
current name p = elim (entry name p.new_drafts) [
  | some d ↦ some d
  | none ↦ elim (entry name p.drafts) [ some d ↦ some d | none ↦ as_draft (data_of name p) ]
]

pub record PolicyRow : Type 0 where
  pub dirty : Bool
  pub failed : Bool
  pub is_new : Bool
  pub name : Text
  pub parsed : Option Parsed

unfoldable pub is_given {ℓ} : {A : Type ℓ} → Option A → Bool
is_given none = false
is_given (some x) = true

unfoldable pub parsed_of : Text → PoliciesPage → Option Parsed
unfolding current parse_policy
parsed_of name p = elim (current name p) [ none ↦ none | some d ↦ some (parse_policy d.text) ]

unfoldable pub dirty_against : Option Draft → Option Policy → Option Parsed → Bool
unfolding canonical stored_rules server_canon same_canonical
dirty_against (some d) (some s) (some parsed) =
    not (same_canonical (canonical (stored_rules parsed.rules) d.inh) (server_canon s))
dirty_against _ _ _ = false

unfoldable pub is_dirty : Text → PoliciesPage → Bool
unfolding entry data_of parsed_of dirty_against is_given
is_dirty name p =
    not (is_given (entry name p.new_drafts))
    && dirty_against (entry name p.drafts) (data_of name p) (parsed_of name p)

unfoldable pub is_failed : Text → PoliciesPage → Bool
unfolding detail_of
is_failed name p = elim (detail_of name p) [ none ↦ false | some d ↦ d.is_error ]

unfoldable pub row_of : PoliciesPage → Text → PolicyRow
unfolding is_dirty is_failed parsed_of entry is_given
row_of p name =
    let is_new = is_given (entry name p.new_drafts) in
    record {
      dirty = is_dirty name p;
      failed = not is_new && is_failed name p;
      is_new = is_new;
      name = name;
      parsed = parsed_of name p;
    }

unfoldable pub rows : PoliciesPage → List PolicyRow
unfolding row_of all_names
rows p = map (row_of p) (all_names p)

unfoldable pub rules_of_row : PolicyRow → List ParsedRule
rules_of_row r = elim r.parsed [ none ↦ [] | some parsed ↦ parsed.rules ]

abbrev pub denies : ParsedRule → Bool
denies r = includes r.caps (codes "deny")

-- `totals`: the rules, and those that deny.
unfoldable pub totals : List PolicyRow → ℕ × ℕ
unfolding rules_of_row
totals [] = (0, 0)
totals (r ∷ rs) =
    let rest = totals rs in
    (length (rules_of_row r) + rest.0, length (keep denies (rules_of_row r)) + rest.1)

-- `patchDraft`, with `patch` for `{ ...base, ...patch }`.
unfoldable pub patch_draft : Text → (Draft → Draft) → PoliciesPage → PoliciesPage
unfolding current entry with_entry is_given
patch_draft name patch p = elim (current name p) [
  | none ↦ p
  | some base ↦
      if is_given (entry name p.new_drafts)
      then record p { new_drafts = with_entry name (patch base) p.new_drafts }
      else record p { drafts = with_entry name (patch base) p.drafts }
]

-- What `save` does: nothing, a message with the number of errors, or a request.
pub data Saving : Type 0 where
  nothing : Saving
  not_saved : ℕ → Saving
  put : Policy → Saving

unfoldable pub save_draft : Text → Draft → Saving
unfolding parse_policy stored_rules
save_draft name d =
    let parsed = parse_policy d.text in
    if ltb 0 parsed.errors
    then not_saved parsed.errors
    else put (record { inheritable = d.inh; name = name; rules = stored_rules parsed.rules })

unfoldable pub save : Text → PoliciesPage → Saving
unfolding current save_draft
save name p = elim (current name p) [ none ↦ nothing | some d ↦ save_draft name d ]

-- `onSuccess` of `saveMutation`.
unfoldable pub saved : Policy → PoliciesPage → PoliciesPage
unfolding with_entry without
saved v p = record p {
  details = with_entry v.name (record { policy = some v; is_error = false }) p.details;
  new_drafts = without v.name p.new_drafts;
  drafts = without v.name p.drafts;
}

-- A new answer of the list, as after the save, which asks for it again.
unfoldable pub listed : List Text → PoliciesPage → PoliciesPage
listed names p = record p { server_names = names }

-- `reset`
unfoldable pub reset_draft : Text → PoliciesPage → PoliciesPage
unfolding entry without is_given
reset_draft name p =
    if is_given (entry name p.new_drafts)
    then record p { new_drafts = without name p.new_drafts }
    else record p { drafts = without name p.drafts }

-- `remove` behind the answer: `false` when the request fails.
unfoldable pub removed : Bool → Text → PoliciesPage → PoliciesPage
unfolding without
removed false name p = p
removed true name p = record p { details = without name p.details; drafts = without name p.drafts }

unfoldable pub template_text : NewTemplate → Text
unfolding template fmt_rule
template_text no_template = []
template_text (from id) = fmt_rule (template id).path (template id).capabilities

-- `create`
unfoldable pub create_draft : Bool → Text → NewTemplate → PoliciesPage → PoliciesPage
unfolding entry_first template_text
create_draft inheritable name tpl p = record p {
  new_drafts =
      entry_first name (record { inh = inheritable; text = template_text tpl }) p.new_drafts;
  selected_raw = some name;
  creating = none;
}

-- `confirmName`: whether the name is to be typed before the policy is removed, by what is known
-- of the tokens bound to it.
unfoldable pub must_confirm : Option (List Text) → Bool
must_confirm none = true
must_confirm (some bound) = not (is_empty bound)

pub data ListFilter : Type 0 where
  all_rows deny changed errors : ListFilter

-- The test of `visible`; `lower` stands for `toLowerCase`.
unfoldable pub visible_row : (Text → Text) → Text → ListFilter → PolicyRow → Bool
unfolding has_text rules_of_row trim
visible_row lower q filter r =
    let needle = lower (trim q) in
    (is_empty needle || has_text needle (lower r.name)) && elim filter [
      | all_rows ↦ true
      | deny ↦ any denies (rules_of_row r)
      | changed ↦ r.dirty || r.is_new
      | errors ↦ elim r.parsed [ none ↦ false | some parsed ↦ ltb 0 parsed.errors ]
    ]

unfoldable pub visible : (Text → Text) → Text → ListFilter → List PolicyRow → List PolicyRow
unfolding visible_row
visible lower q filter rs = keep (visible_row lower q filter) rs

pub data NewNameError : Type 0 where
  err_empty err_reserved err_format err_exists : NewNameError

-- `[a-z0-9]` and `[a-z0-9_-]`
abbrev pub name_first : ℕ → Bool
name_first c = is_lower c || is_digit c

abbrev pub name_char : ℕ → Bool
name_char c = name_first c || c == b'_' || c == b'-'

-- `NAME_RE`
unfoldable pub name_re : Text → Bool
unfolding is_lower is_digit
name_re [] = false
name_re (c ∷ s) = name_first c && leb (length s) 62 && all name_char s

-- `error` of the form, on the trimmed name.
unfoldable pub new_name_error : List Text → Text → Option NewNameError
unfolding name_re text_eq
new_name_error existing v =
    if is_empty v
    then some err_empty
    else if text_eq v (codes "root")
    then some err_reserved
    else if not (name_re v)
    then some err_format
    else if includes existing v
    then some err_exists
    else none

-- What `lookupToken` answers.
pub record TokenInfo : Type 0 where
  pub policies : Option (List Text)
  pub display_name : Option Text

pub record TokenUsage : Type 0 where
  pub bound : List Text
  pub scanned : ℕ
  pub total : ℕ

unfoldable pub names_policy : Text → TokenInfo → Bool
names_policy policy t = elim t.policies [ none ↦ false | some ps ↦ includes ps policy ]

unfoldable pub label_of : Text → TokenInfo → Text
label_of id t =
    let short = take 8 id ++ codes "…" in
    elim t.display_name [ none ↦ short | some d ↦ if is_empty d then short else d ]

-- The loop over the answers: `none` is a lookup that failed.
unfoldable pub bound_tokens : Text → List (Text × Option TokenInfo) → List Text
unfolding names_policy label_of
bound_tokens policy [] = []
bound_tokens policy ((id, none) ∷ rest) = bound_tokens policy rest
bound_tokens policy ((id, some t) ∷ rest) =
    let more = bound_tokens policy rest in
    if names_policy policy t then label_of id t ∷ more else more

-- `useTokenUsage`, with the lookups of the server.
unfoldable pub token_usage : (Text → Option TokenInfo) → List Text → Text → TokenUsage
unfolding bound_tokens
token_usage lookup ids policy =
    let slice = take 100 ids in
    record {
      bound = bound_tokens policy (map (λ id. (id, lookup id)) slice);
      scanned = length slice;
      total = length ids;
    }
