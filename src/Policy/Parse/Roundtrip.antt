-- ===== src/Policy/Parse/Roundtrip.antt =====
-- What the policy screen prints it reads back: `fmtRule` and `rulesToText` against `parsePolicy`, of
-- web/src/pages/dashboard/policies/lib/policy-text.ts.
use tuck.Base.{
  append_assoc, ◌≡⟨◌⟩◌, ◌∎, ◌==◌, not, ◌&&◌, is_empty, texts_eq, texts_eq_iff, ℕ, ◌%◌, Text, List,
  [], ◌∷◌, ◌++◌, codes, ◌≡◌, refl, ap, ◌∙◌, Bool, true, false, some, arith, NoChar,
  take_until-append, count_char, count_char-append, count_char-NoChar, text_eq, includes,
  if◌then◌else◌, trim, trim-solid, is_space,
}
use tuck.Policy.Rules.{fmt_rule, caps_text, ordered}
use tuck.Policy.Parse.{
  Progress, CapScan, policy_line, rule_line, scanned_line, trimmed_line, is_skipped, match_line,
  match_tail, scan_caps,
}

-- The capabilities that are listed, from the answers to "does the rule have it?".
pick_one : Bool → Text → List Text → List Text
pick_one b c rest = if b then c ∷ rest else rest

pick : Bool → Bool → Bool → Bool → Bool → List Text
unfolding pick_one
pick r w d l n = pick_one r (codes "read") (
    pick_one w (codes "write")
      (pick_one d (codes "delete") (pick_one l (codes "list") (pick_one n (codes "deny") []))))

ordered-pick :
    (caps : List Text)
    → ordered caps
      ≡ pick
          (includes caps (codes "read"))
          (includes caps (codes "write"))
          (includes caps (codes "delete"))
          (includes caps (codes "list"))
          (includes caps (codes "deny"))
unfolding ordered pick
ordered-pick caps = refl

-- Over the 32 choices of capabilities, by evaluation.
match_tail-pick :
    (r w d l n : Bool) (path : Text)
    → match_tail path (codes " { capabilities = [" ++ (caps_text (pick r w d l n) ++ codes "] }"))
      ≡ some (path, caps_text (pick r w d l n))
unfolding match_tail caps_text pick
match_tail-pick r w d l n path = ground arith

-- `ground` has no room for the scan in 32 cases: it is compared by a test, which is evaluated.
agrees : List Text → CapScan → Bool
agrees caps st = texts_eq st.caps caps && not st.bad && is_empty st.found

agrees_sound :
    (caps : List Text) (st : CapScan)
    → agrees caps st ≡ true
    → st ≡ record { caps = caps; bad = false; found = [] }
unfolding agrees
agrees_sound caps st h = ground (arith, texts_eq_iff st.caps caps)

both : (Bool → Bool) → Bool
both f = f true && f false

both_sound : (f : Bool → Bool) (b : Bool) → both f ≡ true → f b ≡ true
unfolding both
both_sound f true h = ground arith
both_sound f false h = ground arith

scan_caps-agrees :
    (i : ℕ)
    → both (λ r. both (λ w. both (λ d.
      both (λ l. both (λ n. agrees (pick r w d l n) (scan_caps i (caps_text (pick r w d l n))))))))
      ≡ true
unfolding both agrees scan_caps caps_text pick text_eq texts_eq
scan_caps-agrees i = refl

scan_caps-pick :
    (r w d l n : Bool) (i : ℕ)
    → scan_caps i (caps_text (pick r w d l n))
      ≡ record { caps = pick r w d l n; bad = false; found = [] }
scan_caps-pick r w d l n i = agrees_sound _ _ (
    both_sound _ n
      (both_sound _ l (both_sound _ d (both_sound _ w (both_sound _ r (scan_caps-agrees i))))))

quotes-pick :
    (r w d l n : Bool)
    → count_char b'"' (codes "\" { capabilities = [" ++ (caps_text (pick r w d l n) ++ codes "] }"))
        % 2
      ≡ 1
unfolding count_char caps_text pick
quotes-pick r w d l n = ground arith

newlines-pick :
    (r w d l n : Bool)
    → count_char b'\n' (codes " { capabilities = [" ++ (caps_text (pick r w d l n) ++ codes "] }"))
      ≡ 0
unfolding count_char caps_text pick
newlines-pick r w d l n = ground arith

-- What `fmtRule` writes behind the path and its closing quote.
abbrev pub tail_of : List Text → Text
tail_of caps = codes " { capabilities = [" ++ (caps_text (ordered caps) ++ codes "] }")

pub fmt_rule-eq :
    (path : Text) (caps : List Text)
    → fmt_rule path caps ≡ codes "path \"" ++ (path ++ (b'"' ∷ tail_of caps))
unfolding fmt_rule
fmt_rule-eq path caps = refl

pub newlines-tail_of : (caps : List Text) → count_char b'\n' (tail_of caps) ≡ 0
newlines-tail_of caps = rw (ordered-pick caps) (newlines-pick _ _ _ _ _)

match_line-path :
    (path rest : Text)
    → NoChar b'"' path
    → match_line (codes "path \"" ++ (path ++ (b'"' ∷ rest))) ≡ match_tail path rest
match_line-path path rest h = unfold match_line in rw (take_until-append b'"' path rest h)

match_tail-tail_of :
    (path : Text) (caps : List Text)
    → match_tail path (tail_of caps) ≡ some (path, caps_text (ordered caps))
match_tail-tail_of path caps = rw (ordered-pick caps) (match_tail-pick _ _ _ _ _ path)

match_line-fmt_rule :
    (path : Text) (caps : List Text)
    → NoChar b'"' path
    → match_line (fmt_rule path caps) ≡ some (path, caps_text (ordered caps))
match_line-fmt_rule path caps h =
    ap match_line (fmt_rule-eq path caps)
    ∙ match_line-path path (tail_of caps) h
    ∙ match_tail-tail_of path caps

quotes-tail_of : (caps : List Text) → count_char b'"' (b'"' ∷ tail_of caps) % 2 ≡ 1
quotes-tail_of caps = rw (ordered-pick caps) (quotes-pick _ _ _ _ _)

quotes-fmt_rule :
    (path : Text) (caps : List Text)
    → NoChar b'"' path
    → count_char b'"' (fmt_rule path caps) % 2 ≡ 0
unfolding count_char
quotes-fmt_rule path caps h =
    rw (fmt_rule-eq path caps, count_char-append b'"' path (b'"' ∷ tail_of caps))
      (omega (arith, count_char-NoChar b'"' path h, quotes-tail_of caps))

-- The line without its first and its last character.
abbrev inner_of : Text → List Text → Text
inner_of path caps =
    codes "ath \""
    ++ (path ++ (codes "\" { capabilities = [" ++ (caps_text (ordered caps) ++ codes "] ")))

fmt_rule-ends :
    (path : Text) (caps : List Text) → fmt_rule path caps ≡ b'p' ∷ (inner_of path caps ++ b'}' ∷ [])
fmt_rule-ends path caps = rw (fmt_rule-eq path caps) (simp append_assoc)

trim-fmt_rule : (path : Text) (caps : List Text) → trim (fmt_rule path caps) ≡ fmt_rule path caps
unfolding is_space
trim-fmt_rule path caps =
    rw (fmt_rule-ends path caps) (trim-solid b'p' b'}' (inner_of path caps) refl refl)

scan_caps-ordered :
    (caps : List Text) (i : ℕ)
    → scan_caps i (caps_text (ordered caps))
      ≡ record { caps = ordered caps; bad = false; found = [] }
scan_caps-ordered caps i = rw (ordered-pick caps) (scan_caps-pick _ _ _ _ _ i)

rule_line-eq :
    (st : Progress) (i : ℕ) (path raw : Text)
    → rule_line st i path raw ≡ scanned_line st i path (scan_caps i raw)
unfolding rule_line
rule_line-eq st i path raw = refl

trimmed_line-rule :
    (st : Progress) (i : ℕ) (t path raw : Text)
    → is_skipped t ≡ false
    → (count_char b'"' t % 2 == 1) ≡ false
    → match_line t ≡ some (path, raw)
    → trimmed_line st i t ≡ rule_line st i path raw
trimmed_line-rule st i t path raw a b c = unfold trimmed_line in rw (a, b, c)

policy_line-eq :
    (st : Progress) (i : ℕ) (raw : Text) → policy_line st i raw ≡ trimmed_line st i (trim raw)
unfolding policy_line
policy_line-eq st i raw = refl

is_skipped-fmt_rule : (path : Text) (caps : List Text) → is_skipped (fmt_rule path caps) ≡ false
unfolding is_skipped fmt_rule
is_skipped-fmt_rule path caps = refl

-- A printed rule is taken as a rule: its path and its capabilities, and no error in the list.
pub policy_line-fmt_rule :
    (st : Progress) (i : ℕ) (path : Text) (caps : List Text)
    → NoChar b'"' path
    → policy_line st i (fmt_rule path caps)
      ≡ scanned_line st i path (record { caps = ordered caps; bad = false; found = [] })
policy_line-fmt_rule st i path caps h =
    policy_line st i (fmt_rule path caps)
    ≡⟨ policy_line-eq st i _ ⟩ trimmed_line st i (trim (fmt_rule path caps))
    ≡⟨ ap (trimmed_line st i) (trim-fmt_rule path caps) ⟩ trimmed_line st i (fmt_rule path caps)
    ≡⟨ trimmed_line-rule st i _ path _ (is_skipped-fmt_rule path caps)
        (even _ (quotes-fmt_rule path caps h)) (match_line-fmt_rule path caps h) ⟩
      rule_line st i path (caps_text (ordered caps))
    ≡⟨ rule_line-eq st i path _ ⟩ scanned_line st i path (scan_caps i (caps_text (ordered caps)))
    ≡⟨ ap (scanned_line st i path) (scan_caps-ordered caps i) ⟩
      scanned_line st i path (record { caps = ordered caps; bad = false; found = [] }) ∎
  where
    even : (k : ℕ) → k ≡ 0 → (k == 1) ≡ false
    even k e = ground arith
