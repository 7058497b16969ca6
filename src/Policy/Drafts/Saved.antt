-- ===== src/Policy/Drafts/Saved.antt =====
-- What a save of web/src/pages/dashboard/policies/policies.page.tsx leaves behind.
use tuck.Base.{
  includes, if◌then◌else◌, ◌≡◌, refl, sym, ap, ◌∙◌, subst, Text, List, [], ◌∷◌, true, false, Option,
  none, some, All, text_eq, text_eq_iff, text_eq_refl, ltb, Bool-cases, Option-cases, inl, inr,
}
use tuck.Policy.Rules.{ParsedRule, PolicyRule, rules_to_text}
use tuck.Policy.Parse.{parse_policy}
use tuck.Policy.Parse.Whole.{IsPrintable, numbered, parse-rules_to_text}
use tuck.Policy.Parse.Paths.{parse_policy-Printable}
use tuck.Policy.Drafts.{
  Draft, Policy, Detail, PoliciesPage, stored_rules, entry, without, with_entry, current, data_of,
  as_draft, is_dirty, is_given, dirty_against, nothing, not_saved, put, save_draft, save, saved,
  listed, detail_of,
}

module _ {A : Type 0} where
  entry-without : (name : Text) (xs : List (Text × A)) → entry name (without name xs) ≡ none
  unfolding entry without
  entry-without name [] = refl
  entry-without name (x ∷ xs) = elim (Bool-cases (text_eq x.0 name)) [
    | inl e ↦ rw e (entry-without name xs)
    | inr e ↦ rw (e, entry-without name xs) (rw e refl)
  ]

  entry-without_other :
      (name other : Text) (xs : List (Text × A))
      → text_eq name other ≡ false
      → entry other (without name xs) ≡ entry other xs
  unfolding entry without
  entry-without_other name other [] h = refl
  entry-without_other name other (x ∷ xs) h = elim (Bool-cases (text_eq x.0 name)) [
    | inl e ↦ rw (e, entry-without_other name other xs h, (text_eq_iff x.0 name).0 e, h) refl
    | inr e ↦ rw (e, entry-without_other name other xs h) refl
  ]

  entry-with_entry :
      (name : Text) (x : A) (xs : List (Text × A)) → entry name (with_entry name x xs) ≡ some x
  unfolding entry with_entry
  entry-with_entry name x [] = rw (text_eq_refl name) refl
  entry-with_entry name x (y ∷ xs) = elim (Bool-cases (text_eq y.0 name)) [
    | inl e ↦ rw (e, e) refl
    | inr e ↦ rw (e, entry-with_entry name x xs) (rw e refl)
  ]

  entry-with_entry_other :
      (name other : Text) (x : A) (xs : List (Text × A))
      → text_eq name other ≡ false
      → entry other (with_entry name x xs) ≡ entry other xs
  unfolding entry with_entry
  entry-with_entry_other name other x [] h = rw h refl
  entry-with_entry_other name other x (y ∷ xs) h = elim (Bool-cases (text_eq y.0 name)) [
    | inl e ↦ rw (e, (text_eq_iff y.0 name).0 e, h) refl
    | inr e ↦ rw (e, entry-with_entry_other name other x xs h) refl
  ]

stored-Printable :
    (rules : List ParsedRule)
    → All (λ r. IsPrintable r.path) rules
    → All (λ (r : PolicyRule). IsPrintable r.path) (stored_rules rules)
unfolding stored_rules
stored-Printable [] h = tt
stored-Printable (r ∷ rules) h = (h.0, stored-Printable rules h.1)

-- What is put is the rules of the text of the draft, under its name.
save_draft-put :
    (name : Text) (d : Draft) (v : Policy)
    → save_draft name d ≡ put v
    → v ≡ record {
      inheritable = d.inh;
      name = name;
      rules = stored_rules (parse_policy d.text).rules;
    }
unfolding save_draft
save_draft-put name d v h = elim (Bool-cases (ltb 0 (parse_policy d.text).errors)) [
  | inl e ↦ cc (blocked e, h)
  | inr e ↦ cc (sent e, h)
]
  where
    blocked :
        ltb 0 (parse_policy d.text).errors ≡ true
        → save_draft name d ≡ not_saved (parse_policy d.text).errors
    blocked e = rw e refl

    sent :
        ltb 0 (parse_policy d.text).errors ≡ false
        → save_draft name d
          ≡ put (record {
            inheritable = d.inh;
            name = name;
            rules = stored_rules (parse_policy d.text).rules;
          })
    sent e = rw e refl

save-nothing : (name : Text) (p : PoliciesPage) → current name p ≡ none → save name p ≡ nothing
unfolding save
save-nothing name p e = rw (save, e) refl

save-draft :
    (name : Text) (p : PoliciesPage) (d : Draft)
    → current name p ≡ some d
    → save name p ≡ save_draft name d
unfolding save
save-draft name p d e = rw (save, e) refl

save-put :
    (name : Text) (p : PoliciesPage) (v : Policy)
    → save name p ≡ put v
    → (v.name ≡ name) × All (λ r. IsPrintable r.path) v.rules
save-put name p v h = elim (Option-cases (current name p)) [
  | inl e ↦ cc (save-nothing name p e, h)
  | inr (d, e) ↦
      let same = save_draft-put name d v (sym (save-draft name p d e) ∙ h) in
      (
        ap (λ (x : Policy). x.name) same,
        subst (λ (x : Policy). All (λ r. IsPrintable r.path) x.rules) (sym same)
            (stored-Printable _ (parse_policy-Printable d.text)),
      )
]

-- `current` by what the three maps hold.
choice : Option Draft → Option Draft → Option Detail → Option Draft
choice new old detail = elim new [
  | some d ↦ some d
  | none ↦ elim old [
    | some d ↦ some d
    | none ↦ as_draft (elim detail [ none ↦ none | some x ↦ x.policy ])
  ]
]

current-choice :
    (name : Text) (p : PoliciesPage)
    → current name p ≡ choice (entry name p.new_drafts) (entry name p.drafts) (detail_of name p)
unfolding current choice data_of
current-choice name p = refl

current-detail :
    (name : Text) (p : PoliciesPage)
    → current name p
      ≡ choice
          (entry name p.new_drafts)
          (entry name p.drafts)
          (if includes p.server_names name then entry name p.details else none)
unfolding detail_of
current-detail name p = current-choice name p

loaded : Policy → Detail
loaded v = record { policy = some v; is_error = false }

current-after :
    (names : List Text) (v : Policy) (name : Text) (p : PoliciesPage)
    → current name (listed names (saved v p))
      ≡ choice (entry name (without v.name p.new_drafts)) (entry name (without v.name p.drafts)) (
          if includes names name then entry name (with_entry v.name (loaded v) p.details) else none)
unfolding saved loaded listed detail_of
current-after names v name p = current-choice name (listed names (saved v p))

-- The draft that the server's policy makes.
pub draft_of : Policy → Draft
draft_of v = record { inh = v.inheritable; text = rules_to_text v.rules }

choice-loaded : (v : Policy) → choice none none (some (loaded v)) ≡ some (draft_of v)
unfolding choice loaded as_draft draft_of
choice-loaded v = refl

choice-none : choice none none none ≡ none
unfolding choice as_draft
choice-none = refl

current-listed :
    (names : List Text) (v : Policy) (p : PoliciesPage)
    → current v.name (listed names (saved v p))
      ≡ (if includes names v.name then some (draft_of v) else none)
current-listed names v p =
    current-after names v v.name p
    ∙ rw
        (
          entry-without v.name p.new_drafts,
          entry-without v.name p.drafts,
          entry-with_entry v.name (loaded v) p.details,
        )
        (elim (Bool-cases (includes names v.name)) [
          | inl e ↦ rw e (choice-loaded v)
          | inr e ↦ rw e choice-none
        ])

current-saved_other :
    (v : Policy) (other : Text) (p : PoliciesPage)
    → text_eq v.name other ≡ false
    → current other (saved v p) ≡ current other p
unfolding listed saved current
current-saved_other v other p h =
    current-after p.server_names v other p
    ∙ rw
        (
          entry-without_other v.name other p.new_drafts h,
          entry-without_other v.name other p.drafts h,
          entry-with_entry_other v.name other (loaded v) p.details h,
        )
        (sym (current-detail other p))

is_dirty-saved : (v : Policy) (p : PoliciesPage) → is_dirty v.name (saved v p) ≡ false
unfolding is_dirty saved is_given dirty_against
is_dirty-saved v p = rw (entry-without v.name p.new_drafts, entry-without v.name p.drafts) refl

reparse :
    (v : Policy)
    → All (λ r. IsPrintable r.path) v.rules
    → (parse_policy (draft_of v).text).rules ≡ numbered 0 v.rules
unfolding draft_of
reparse v h = parse-rules_to_text v.rules h

-- A draft that is saved stands there as the server has it as soon as the list, the one shown or one
-- that is answered later, holds its name, and until then the screen has no text for it. That text,
-- printed anew, reads as the rules that were sent, the policy counts as unchanged, and the text of
-- every other policy is as before.
pub saved-current :
    (name : Text) (p : PoliciesPage) (v : Policy)
    → save name p ≡ put v
    → ((names : List Text)
        → current name (listed names (saved v p))
          ≡ (if includes names name then some (draft_of v) else none))
      × ((parse_policy (draft_of v).text).rules ≡ numbered 0 v.rules)
      × (is_dirty name (saved v p) ≡ false)
      × ((other : Text) → text_eq name other ≡ false → current other (saved v p) ≡ current other p)
saved-current name p v h =
    let sent = save-put name p v h in
    (
      λ names.
          subst
            (λ n.
              current n (listed names (saved v p))
              ≡ (if includes names n then some (draft_of v) else none))
            sent.0 (current-listed names v p),
      reparse v sent.1,
      subst (λ n. is_dirty n (saved v p) ≡ false) sent.0 (is_dirty-saved v p),
      λ other e.
          current-saved_other v other p (subst (λ n. text_eq n other ≡ false) (sym sent.0) e),
    )
