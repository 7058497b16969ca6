-- ===== src/Namespaces/Labels.antt =====
-- The labels of a namespace as rows of the editor and back, `pairsOf` and `labelsOf` of
-- web/src/pages/dashboard/namespaces/namespaces.page.tsx.
use tuck.Base.{
  ◌≡◌, refl, sym, ap, ◌∙◌, subst, Text, List, [], ◌∷◌, ◌++◌, Bool, true, false, some, map, is_empty,
  text_eq, trim, All, if◌then◌else◌, arith, Bool-cases, inl, inr, append_assoc, append-nil,
  insert_by, sort_by, sort_by-perm,
}
use mathlib.Core.List.{Perm}
use tuck.KeyValue.{KvPair, ignored}
use tuck.KeyValue.Valid.{keys_of, keys_of-ignored, keys_of-counted, IsKey, Distinct}
use tuck.Namespaces.Tree.Pieces.{text_eq_sym}
use tuck.Namespaces.{is_proto, put_entry, set_entry, labels_from, labels_of, pairs_of}

-- The rows that have a key, as entries.
unfoldable pub named : List KvPair → List (Text × Text)
unfolding trim
named [] = []
named (p ∷ pairs) =
    let rest = named pairs in let k = trim p.key in if is_empty k then rest else (k, p.value) ∷ rest

abbrev pub entry_keys : List (Text × Text) → List Text
entry_keys entries = map (λ (e : Text × Text). e.0) entries

-- No entry has the key.
abbrev NoKey : Text → List (Text × Text) → Type 0
NoKey k out = All (λ e. text_eq e.0 k ≡ false) out

-- No entry of `out` has a key of the list.
abbrev Apart : List (Text × Text) → List Text → Type 0
Apart out keys = All (λ k. NoKey k out) keys

put_entry-new :
    (k v : Text) (out : List (Text × Text)) → NoKey k out → put_entry k v out ≡ out ++ (k, v) ∷ []
unfolding put_entry
put_entry-new k v [] h = refl
put_entry-new k v ((j, w) ∷ out) h = rw (h.0, put_entry-new k v out h.1) refl

set_entry-new :
    (k v : Text) (out : List (Text × Text))
    → is_proto k ≡ false
    → NoKey k out
    → set_entry k v out ≡ out ++ (k, v) ∷ []
unfolding set_entry
set_entry-new k v out e h = rw e (put_entry-new k v out h)

-- No key is the one that an object ignores.
abbrev pub NoProto : List Text → Type 0
NoProto keys = All (λ k. is_proto k ≡ false) keys

NoKey-snoc :
    (j k v : Text) (out : List (Text × Text))
    → NoKey j out
    → text_eq k j ≡ false
    → NoKey j (out ++ (k, v) ∷ [])
NoKey-snoc j k v [] h e = (e, tt)
NoKey-snoc j k v (o ∷ out) h e = (h.0, NoKey-snoc j k v out h.1 e)

Apart-snoc :
    (k v : Text) (out : List (Text × Text)) (keys : List Text)
    → Apart out keys
    → All (λ j. text_eq k j ≡ false) keys
    → Apart (out ++ (k, v) ∷ []) keys
Apart-snoc k v out [] h d = tt
Apart-snoc k v out (j ∷ keys) h d = (NoKey-snoc j k v out h.0 d.0, Apart-snoc k v out keys h.1 d.1)

named-blank :
    (p : KvPair) (pairs : List KvPair)
    → is_empty (trim p.key) ≡ true
    → named (p ∷ pairs) ≡ named pairs
unfolding named
named-blank p pairs e = rw e refl

named-cons :
    (p : KvPair) (pairs : List KvPair)
    → is_empty (trim p.key) ≡ false
    → named (p ∷ pairs) ≡ (trim p.key, p.value) ∷ named pairs
unfolding named
named-cons p pairs e = rw e refl

labels_from-blank :
    (out : List (Text × Text)) (p : KvPair) (pairs : List KvPair)
    → is_empty (trim p.key) ≡ true
    → labels_from out (p ∷ pairs) ≡ labels_from out pairs
unfolding labels_from
labels_from-blank out p pairs e = rw e refl

labels_from-cons :
    (out : List (Text × Text)) (p : KvPair) (pairs : List KvPair)
    → is_empty (trim p.key) ≡ false
    → is_proto (trim p.key) ≡ false
    → NoKey (trim p.key) out
    → labels_from out (p ∷ pairs) ≡ labels_from (out ++ (trim p.key, p.value) ∷ []) pairs
unfolding labels_from
labels_from-cons out p pairs e n h =
    rw e (ap (λ o. labels_from o pairs) (set_entry-new (trim p.key) p.value out n h))

labels_from-nil : (out : List (Text × Text)) → labels_from out [] ≡ out ++ named []
unfolding labels_from named
labels_from-nil out = sym (append-nil out)

labels_from-named :
    (out : List (Text × Text)) (pairs : List KvPair)
    → Apart out (entry_keys (named pairs))
    → NoProto (entry_keys (named pairs))
    → Distinct (entry_keys (named pairs))
    → labels_from out pairs ≡ out ++ named pairs
labels_from-named out [] h n d = labels_from-nil out
labels_from-named out (p ∷ pairs) h n d = elim (Bool-cases (is_empty (trim p.key))) [
  | inl e ↦
      let same = named-blank p pairs e in
      rw (labels_from-blank out p pairs e, same)
        (labels_from-named out pairs (subst (λ n. Apart out (entry_keys n)) same h)
          (subst (λ n. NoProto (entry_keys n)) same n)
          (subst (λ n. Distinct (entry_keys n)) same d))
  | inr e ↦
      let same = named-cons p pairs e in
      let apart = subst (λ n. Apart out (entry_keys n)) same h in
      let other = subst (λ n. NoProto (entry_keys n)) same n in
      let distinct = subst (λ n. Distinct (entry_keys n)) same d in
      labels_from-cons out p pairs e other.0 apart.0
      ∙ labels_from-named (out ++ (trim p.key, p.value) ∷ []) pairs
          (Apart-snoc (trim p.key) p.value out _ apart.1 distinct.0) other.1 distinct.1
      ∙ append_assoc out ((trim p.key, p.value) ∷ []) (named pairs)
      ∙ ap (λ n. out ++ n) (sym same)
]

Apart-nil : (keys : List Text) → Apart [] keys
Apart-nil [] = tt
Apart-nil (k ∷ keys) = (tt, Apart-nil keys)

-- Rows whose keys are different become one entry each.
pub labels_of-named :
    (pairs : List KvPair)
    → NoProto (entry_keys (named pairs))
    → Distinct (entry_keys (named pairs))
    → labels_of pairs ≡ named pairs
unfolding labels_of
labels_of-named pairs n d = labels_from-named [] pairs (Apart-nil _) n d

ignored-blank : (p : KvPair) → ignored p ≡ true → is_empty (trim p.key) ≡ true
unfolding ignored
ignored-blank p h = ground (arith, h)

no_keys : entry_keys (named []) ≡ keys_of []
unfolding named keys_of
no_keys = refl

-- The keys of valid rows are the keys of the entries.
pub named-keys :
    (pattern : Text → Bool) (pairs : List KvPair)
    → All (IsKey pattern) (keys_of pairs)
    → entry_keys (named pairs) ≡ keys_of pairs
named-keys pattern [] h = no_keys
named-keys pattern (p ∷ pairs) h = elim (Bool-cases (ignored p)) [
  | inl e ↦
      rw (named-blank p pairs (ignored-blank p e), keys_of-ignored p pairs e)
        (named-keys pattern pairs (subst (All (IsKey pattern)) (keys_of-ignored p pairs e) h))
  | inr e ↦
      let valid = subst (All (IsKey pattern)) (keys_of-counted p pairs e) h in
      rw (named-cons p pairs valid.0.0, keys_of-counted p pairs e)
        (ap (λ ks. trim p.key ∷ ks) (named-keys pattern pairs valid.1))
]

-- A key of a label that the editor leaves as it is.
abbrev pub IsTrimmed : Text → Type 0
IsTrimmed k = (trim k ≡ k) × (is_empty k ≡ false)

rows_of_entries : List (Text × Text) → List KvPair
rows_of_entries entries = map (λ (e : Text × Text). record { key = e.0; value = e.1 }) entries

pairs_of-rows :
    (le : Text → Text → Bool) (entries : List (Text × Text))
    → pairs_of le (some entries)
      ≡ rows_of_entries (sort_by (λ (a b : Text × Text). le a.0 b.0) entries)
unfolding pairs_of rows_of_entries
pairs_of-rows le entries = refl

named-rows :
    (entries : List (Text × Text))
    → All IsTrimmed (entry_keys entries)
    → named (rows_of_entries entries) ≡ entries
unfolding named rows_of_entries
named-rows [] h = refl
named-rows (e ∷ entries) h = rw (h.0.0, h.0.1, named-rows entries h.1) refl

module _ (cmp : Text × Text → Text × Text → Bool) where
  insert_by-All :
      (P : Text → Type 0) (x : Text × Text) (ys : List (Text × Text))
      → P x.0
      → All P (entry_keys ys)
      → All P (entry_keys (insert_by cmp x ys))
  unfolding insert_by
  insert_by-All P x [] h k = (h, tt)
  insert_by-All P x (y ∷ ys) h k = elim (Bool-cases (cmp x y)) [
    | inl e ↦ rw e (h, k)
    | inr e ↦ rw e (k.0, insert_by-All P x ys h k.1)
  ]

  insert_by-Distinct :
      (x : Text × Text) (ys : List (Text × Text))
      → All (λ j. text_eq x.0 j ≡ false) (entry_keys ys)
      → Distinct (entry_keys ys)
      → Distinct (entry_keys (insert_by cmp x ys))
  unfolding insert_by
  insert_by-Distinct x [] h k = (tt, tt)
  insert_by-Distinct x (y ∷ ys) h k = elim (Bool-cases (cmp x y)) [
    | inl e ↦ rw e (h, k)
    | inr e ↦ rw e (
      insert_by-All (λ j. text_eq y.0 j ≡ false) x ys (text_eq_sym y.0 x.0 ∙ h.0) k.0,
      insert_by-Distinct x ys h.1 k.1,
    )
  ]

  sort_by-All :
      (P : Text → Type 0) (xs : List (Text × Text))
      → All P (entry_keys xs)
      → All P (entry_keys (sort_by cmp xs))
  unfolding sort_by
  sort_by-All P [] h = tt
  sort_by-All P (x ∷ xs) h = insert_by-All P x (sort_by cmp xs) h.0 (sort_by-All P xs h.1)

  sort_by-Distinct :
      (xs : List (Text × Text)) → Distinct (entry_keys xs) → Distinct (entry_keys (sort_by cmp xs))
  unfolding sort_by
  sort_by-Distinct [] h = tt
  sort_by-Distinct (x ∷ xs) h =
      insert_by-Distinct x (sort_by cmp xs) (sort_by-All (λ j. text_eq x.0 j ≡ false) xs h.0)
        (sort_by-Distinct xs h.1)

-- Labels that are shown in the editor and sent back untouched are the same labels: the entries
-- sent are those of the namespace in some order, if no two have the same key and no key is
-- blank, has blanks around it or is `__proto__`.
pub labels_of-pairs_of :
    (le : Text → Text → Bool) (entries : List (Text × Text))
    → All IsTrimmed (entry_keys entries)
    → NoProto (entry_keys entries)
    → Distinct (entry_keys entries)
    → Perm (labels_of (pairs_of le (some entries))) entries
labels_of-pairs_of le entries h n d =
    let cmp = λ (a b : Text × Text). le a.0 b.0 in
    let sorted = sort_by cmp entries in
    let same = named-rows sorted (sort_by-All cmp IsTrimmed entries h) in
    let distinct =
      subst (λ n. Distinct (entry_keys n)) (sym same) (sort_by-Distinct cmp entries d) in
    let other =
      subst (λ n. NoProto (entry_keys n)) (sym same)
        (sort_by-All cmp (λ k. is_proto k ≡ false) entries n) in
    rw (pairs_of-rows le entries, labels_of-named (rows_of_entries sorted) other distinct, same)
      (sort_by-perm cmp entries)
