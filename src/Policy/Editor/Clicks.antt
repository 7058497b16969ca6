-- ===== src/Policy/Editor/Clicks.antt =====
-- What a click on a capability and a new path mean in the matrix of
-- web/src/pages/dashboard/policies/components/policy-editor.tsx, told without its arrays.
use tuck.Base.{
  ℕ, zero, suc, ◌+◌, ◌≡◌, refl, sym, ap, ◌∙◌, Text, List, [], ◌∷◌, ◌++◌, codes, Bool, true, false,
  not, ◌&&◌, All, keep, includes, text_eq, text_eq_iff, text_eq_refl, if◌then◌else◌, ◌==◌, arith,
  Bool-cases, inl, inr,
}
use tuck.Ids.{any-append, same_includes}
use tuck.KeyValue.Valid.{Distinct}
use tuck.Policy.Rules.{PolicyRule, caps_order, ordered}
use tuck.Policy.Parse.Whole.{numbered}
use tuck.Policy.Editor.{set_elem, delete_first, toggled, plain}

abbrev deny_text : Text
deny_text = codes "deny"

-- Whether a rule has the capability `d` after a click on `c`: the one that is clicked is turned over,
-- and any other stays, unless the click has denied.
pub stays : List Text → Text → Text → Bool
stays caps c d =
    if text_eq d c
    then not (includes caps d)
    else includes caps d && not (text_eq c deny_text && not (includes caps c))

-- The capabilities of a rule after a click, in the order of the table.
pub clicked : List Text → Text → List Text
unfolding stays
clicked caps c = keep (stays caps c) caps_order

-- A path without its quotes and newlines.
pub unmarked : Text → Text
unmarked [] = []
unmarked (c ∷ v) =
    let rest = unmarked v in if c == b'"' then rest else if c == b'\n' then rest else c ∷ rest

pub plain-unmarked : (v : Text) → plain v ≡ unmarked v
unfolding plain unmarked
plain-unmarked [] = refl
plain-unmarked (c ∷ v) = ground (arith, plain-unmarked v)

includes-keep :
    (p : Text → Bool) (xs : List Text) (d : Text) → includes (keep p xs) d ≡ (includes xs d && p d)
includes-keep p [] d = refl
includes-keep p (x ∷ xs) d = elim (Bool-cases (text_eq d x)) [
  | inl e ↦
      let same : p d ≡ p x = ap p ((text_eq_iff d x).0 e) in
      elim (Bool-cases (p x)) [
        | inl f ↦ rw f (ground (arith, e, f, same, includes-keep p xs d))
        | inr f ↦ rw f (ground (arith, e, f, same, includes-keep p xs d))
      ]
  | inr e ↦ elim (Bool-cases (p x)) [
    | inl f ↦ rw f (ground (arith, e, includes-keep p xs d))
    | inr f ↦ rw f (ground (arith, e, includes-keep p xs d))
  ]
]

keep-All : (P : Text → Type 0) (p : Text → Bool) (xs : List Text) → All P xs → All P (keep p xs)
keep-All P p [] h = tt
keep-All P p (x ∷ xs) h = elim (Bool-cases (p x)) [
  | inl e ↦ rw e (h.0, keep-All P p xs h.1)
  | inr e ↦ rw e (keep-All P p xs h.1)
]

keep-Distinct : (p : Text → Bool) (xs : List Text) → Distinct xs → Distinct (keep p xs)
keep-Distinct p [] h = tt
keep-Distinct p (x ∷ xs) h = elim (Bool-cases (p x)) [
  | inl e ↦ rw e (keep-All (λ j. text_eq x j ≡ false) p xs h.0, keep-Distinct p xs h.1)
  | inr e ↦ rw e (keep-Distinct p xs h.1)
]

absent : (k : Text) (xs : List Text) → All (λ j. text_eq k j ≡ false) xs → includes xs k ≡ false
absent k [] h = refl
absent k (x ∷ xs) h = rw (h.0, absent k xs h.1) refl

includes-delete_first :
    (c : Text) (xs : List Text) (d : Text)
    → Distinct xs
    → includes (delete_first c xs) d ≡ (includes xs d && not (text_eq d c))
unfolding delete_first
includes-delete_first c [] d h = refl
includes-delete_first c (x ∷ xs) d h = elim (Bool-cases (text_eq x c)) [
  | inl e ↦
      let same : text_eq d x ≡ text_eq d c = ap (text_eq d) ((text_eq_iff x c).0 e) in
      elim (Bool-cases (text_eq d x)) [
        | inl f ↦ rw e (ground (arith, f, same, absent x xs h.0, same_includes d x xs f))
        | inr f ↦ rw e (ground (arith, f, same))
      ]
  | inr e ↦ elim (Bool-cases (text_eq d x)) [
    | inl f ↦
        let other : text_eq d c ≡ text_eq x c = ap (λ t. text_eq t c) ((text_eq_iff d x).0 f) in
        rw e (ground (arith, f, e, other, includes-delete_first c xs d h.1))
    | inr f ↦ rw e (ground (arith, f, e, includes-delete_first c xs d h.1))
  ]
]

caps_order-Distinct : Distinct caps_order
unfolding text_eq
caps_order-Distinct = (
  (refl, (refl, (refl, (refl, tt)))),
  ((refl, (refl, (refl, tt))), ((refl, (refl, tt)), ((refl, tt), (tt, tt)))),
)

includes-ordered :
    (caps : List Text) (d : Text)
    → includes (ordered caps) d ≡ (includes caps_order d && includes caps d)
unfolding ordered
includes-ordered caps d = includes-keep (includes caps) caps_order d

ordered-Distinct : (caps : List Text) → Distinct (ordered caps)
unfolding ordered
ordered-Distinct caps = keep-Distinct (includes caps) caps_order caps_order-Distinct

toggled-on : (xs : List Text) (c : Text) → includes xs c ≡ true → toggled xs c ≡ delete_first c xs
unfolding toggled
toggled-on xs c e = rw e refl

toggled-deny :
    (xs : List Text) (c : Text)
    → includes xs c ≡ false
    → text_eq c deny_text ≡ true
    → toggled xs c ≡ deny_text ∷ []
unfolding toggled
toggled-deny xs c e f = rw (e, f) refl

toggled-off :
    (xs : List Text) (c : Text)
    → includes xs c ≡ false
    → text_eq c deny_text ≡ false
    → toggled xs c ≡ xs ++ c ∷ []
unfolding toggled
toggled-off xs c e f = rw (e, f) refl

deny-known : includes caps_order deny_text ≡ true
unfolding text_eq
deny-known = refl

-- What is asked of two texts that are the same.
same_in :
    (caps : List Text) (c d : Text)
    → text_eq d c ≡ true
    → (includes caps d ≡ includes caps c) × (includes caps_order d ≡ includes caps_order c)
same_in caps c d e = (same_includes d c caps e, same_includes d c caps_order e)

-- A known capability is among those of the code's own click exactly if it stays.
includes-toggled :
    (caps : List Text) (c d : Text)
    → includes caps_order d ≡ true
    → includes (toggled (ordered caps) c) d ≡ stays caps c d
unfolding stays
includes-toggled caps c d k =
    let here = includes-ordered caps c in
    let there = includes-ordered caps d in
    elim (Bool-cases (includes (ordered caps) c)) [
      | inl e ↦
          ap (λ xs. includes xs d) (toggled-on (ordered caps) c e)
          ∙ includes-delete_first c (ordered caps) d (ordered-Distinct caps)
          ∙ elim (Bool-cases (text_eq d c)) [
            | inl f ↦ ground (arith, f, e, here, there, k, same_in caps c d f)
            | inr f ↦ ground (arith, f, e, here, there, k)
          ]
      | inr e ↦ elim (Bool-cases (text_eq c deny_text)) [
        | inl f ↦
            let denied = (text_eq_iff c deny_text).0 f in
            let known : includes caps_order c ≡ true =
              ap (includes caps_order) denied ∙ deny-known in
            let same : text_eq d deny_text ≡ text_eq d c = ap (text_eq d) (sym denied) in
            ap (λ xs. includes xs d) (toggled-deny (ordered caps) c e f)
            ∙ elim (Bool-cases (text_eq d c)) [
              | inl g ↦ ground (arith, g, e, f, same, known, here, same_in caps c d g)
              | inr g ↦ ground (arith, g, e, f, same, known, here)
            ]
        | inr f ↦
            ap (λ xs. includes xs d) (toggled-off (ordered caps) c e f)
            ∙ any-append (text_eq d) (ordered caps) (c ∷ [])
            ∙ elim (Bool-cases (text_eq d c)) [
              | inl g ↦ ground (arith, g, e, f, here, there, k, same_in caps c d g)
              | inr g ↦ ground (arith, g, e, f, here, there, k)
            ]
      ]
    ]

keep-same :
    (p q : Text → Bool) (xs : List Text)
    → ((d : Text) → includes xs d ≡ true → p d ≡ q d)
    → keep p xs ≡ keep q xs
keep-same p q [] h = refl
keep-same p q (x ∷ xs) h =
    let here : includes (x ∷ xs) x ≡ true = rw (text_eq_refl x) refl in
    let rest = keep-same p q xs (λ d e. h d (ground (arith, e))) in rw (h x here, rest) refl

-- Read in the order of the table, the code's click is the click.
ordered-toggled :
    (caps : List Text) (c : Text) → ordered (toggled (ordered caps) c) ≡ ordered (clicked caps c)
unfolding ordered clicked
ordered-toggled caps c = keep-same _ _ caps_order (λ d k.
    includes-toggled caps c d k ∙ sym (includes-keep (stays caps c) caps_order d ∙ rw k refl))

numbered-set_elem :
    (k i : ℕ) (path : Text) (caps other : List Text) (rs : List PolicyRule)
    → ordered caps ≡ ordered other
    → numbered k (set_elem i (record { path = path; capabilities = caps }) rs)
      ≡ numbered k (set_elem i (record { path = path; capabilities = other }) rs)
unfolding numbered
numbered-set_elem k i path caps other [] h = refl
numbered-set_elem k zero path caps other (r ∷ rs) h = rw h refl
numbered-set_elem k (suc i) path caps other (r ∷ rs) h =
    rw (numbered-set_elem (k + 1) i path caps other rs h) refl

pub numbered-clicked :
    (i : ℕ) (path : Text) (caps : List Text) (c : Text) (rs : List PolicyRule)
    → numbered 0 (set_elem i (record { path = path; capabilities = toggled (ordered caps) c }) rs)
      ≡ numbered 0 (set_elem i (record { path = path; capabilities = clicked caps c }) rs)
numbered-clicked i path caps c rs =
    numbered-set_elem 0 i path (toggled (ordered caps) c) (clicked caps c) rs
      (ordered-toggled caps c)
