-- ===== src/Namespaces/Page/Requests.antt =====
-- What the requests of web/src/pages/dashboard/namespaces/namespaces.page.tsx carry.
use tuck.Base.{
  ℕ, ◌≡◌, ◌≤◌, refl, sym, ap, ◌∙◌, subst, is_upper, is_lower, is_digit, List, Text, [], ◌∷◌, Bool,
  true, false, not, ◌||◌, some, is_empty, text_eq, trim, trim_start, All, length, length-append,
  arith, Bool-cases, inl, inr, includes, ltb,
}
use mathlib.Core.List.{reverse, reverse-cons}
use tuck.KeyValue.{validate_kv}
use tuck.KeyValue.Valid.{keys_of, IsKey, Distinct, validate_kv-valid_iff}
use tuck.Namespaces.{
  is_proto, NameErrorKind, ok, root, chars, segments, name_error_kind, validate_namespace, utf8,
}
use tuck.Namespaces.Names.{name_error_kind-ok_iff}
use tuck.Namespaces.Labels.{named, entry_keys, labels_of-named, named-keys, NoProto}
use tuck.Namespaces.Page.{
  NsPage, Metadata, create, is_ok, no_name_err, meta_err, meta, submit_create, all_names,
  label_key_re, max_desc, max_owner, View, read_view, view_text, cards, list, tree,
}

length-reverse : (s : Text) → length (reverse s) ≡ length s
length-reverse [] = refl
length-reverse (c ∷ s) =
    rw (reverse-cons c s) (omega (arith, length-append (reverse s) (c ∷ []), length-reverse s))

length-trim_start : (s : Text) → length (trim_start s) ≤ length s
unfolding trim_start
length-trim_start [] = omega arith
length-trim_start (c ∷ s) = ground (arith, length-trim_start s)

length-trim : (s : Text) → length (trim s) ≤ length s
unfolding trim
length-trim s = omega (
  arith,
  length-trim_start s,
  length-reverse (trim_start s),
  length-trim_start (reverse (trim_start s)),
  length-reverse (trim_start (reverse (trim_start s))),
)

is_ok-ok : (k : NameErrorKind) → is_ok k ≡ true → k ≡ ok
unfolding is_ok
is_ok-ok ok h = refl
is_ok-ok root h = cc h
is_ok-ok chars h = cc h
is_ok-ok segments h = cc h
is_ok-ok NameErrorKind.length h = cc h

no_name_err-ok :
    (p : NsPage)
    → is_empty (trim p.name) ≡ false
    → no_name_err p ≡ true
    → (name_error_kind (trim p.name) ≡ ok) × (includes (all_names p) (trim p.name) ≡ false)
unfolding no_name_err
no_name_err-ok p e h = (is_ok-ok _ (ground (arith, e, h)), ground (arith, e, h))

-- Metadata that the console sends: it fits the limits, and the labels are the rows that have a
-- key, each with a key of the right form and no two with the same.
pub record IsSound (p : NsPage) (m : Metadata) : Type 0 where
  pub description : length m.description ≤ max_desc
  pub owner : length m.owner ≤ max_owner
  pub labels : m.labels ≡ named p.labels
  pub keys : All (IsKey label_key_re) (entry_keys m.labels)
  pub distinct : Distinct (entry_keys m.labels)

or_false : (a b : Bool) → (a || b) ≡ false → (a ≡ false) × (b ≡ false)
or_false true b h = cc h
or_false false b h = (refl, h)

not-false : (b : Bool) → not b ≡ false → b ≡ true
not-false true h = refl
not-false false h = cc h

meta_err-parts :
    (p : NsPage)
    → meta_err p ≡ false
    → (ltb max_desc (length p.description) ≡ false)
      × (ltb max_owner (length p.owner) ≡ false)
      × ((validate_kv label_key_re p.labels).valid ≡ true)
unfolding meta_err
meta_err-parts p h =
    let one = or_false _ _ h in let two = or_false _ _ one.0 in (two.0, two.1, not-false _ one.1)

trimmed-le : (limit : ℕ) (s : Text) → ltb limit (length s) ≡ false → length (trim s) ≤ limit
trimmed-le limit s h = ground (arith, h, length-trim s)

-- A key of the right form begins with a letter or a digit, `__proto__` does not.
label_key_re-proto : (k : Text) → label_key_re k ≡ true → is_proto k ≡ false
unfolding label_key_re is_proto text_eq is_upper is_lower is_digit
label_key_re-proto [] h = refl
label_key_re-proto (c ∷ k) h = ground (arith, h)

keys-NoProto : (keys : List Text) → All (IsKey label_key_re) keys → NoProto keys
keys-NoProto [] h = tt
keys-NoProto (k ∷ keys) h = (label_key_re-proto k h.0.1, keys-NoProto keys h.1)

meta-IsSound : (p : NsPage) → meta_err p ≡ false → IsSound p (meta p)
unfolding meta
meta-IsSound p h =
    let parts = meta_err-parts p h in
    let valid = (validate_kv-valid_iff label_key_re p.labels).0 parts.2 in
    let same = named-keys label_key_re p.labels valid.0 in
    let distinct = subst Distinct (sym same) valid.1 in
    let other = subst NoProto (sym same) (keys-NoProto (keys_of p.labels) valid.0) in
    let labels = labels_of-named p.labels other distinct in
    record {
      description = trimmed-le max_desc p.description parts.0;
      owner = trimmed-le max_owner p.owner parts.1;
      labels = labels;
      keys = rw (labels, same) valid.0;
      distinct = rw labels distinct;
    }

-- `submitCreate` returns early.
unfoldable blocked : NsPage → Bool
blocked p = is_empty (trim p.name) || not (no_name_err p) || meta_err p || p.create_pending

submit_create-blocked : (p : NsPage) → blocked p ≡ true → submit_create p ≡ (p, [])
unfolding submit_create blocked
submit_create-blocked p h = rw (submit_create, h) refl

submit_create-free :
    (p : NsPage) → blocked p ≡ false → (submit_create p).1 ≡ create (trim p.name) (meta p) ∷ []
unfolding submit_create blocked
submit_create-free p h = rw (submit_create, h) refl

blocked-parts :
    (p : NsPage)
    → blocked p ≡ false
    → (is_empty (trim p.name) ≡ false) × (no_name_err p ≡ true) × (meta_err p ≡ false)
unfolding blocked
blocked-parts p h =
    let a = or_false _ _ h in
    let b = or_false _ _ a.0 in let c = or_false _ _ b.0 in (c.0, not-false _ c.1, b.1)

free-request :
    (p : NsPage)
    → blocked p ≡ false
    → (validate_namespace (utf8 (trim p.name)) ≡ true)
      × (includes (all_names p) (trim p.name) ≡ false)
      × IsSound p (meta p)
free-request p e =
    let parts = blocked-parts p e in
    let named_ok = no_name_err-ok p parts.0 parts.1 in
    (
      (name_error_kind-ok_iff (trim p.name) parts.0).0 named_ok.0,
      named_ok.1,
      meta-IsSound p parts.2,
    )

-- A request to create a namespace carries a name that the server takes and the list does not
-- hold, a description and an owner within their limits, and the rows of the editor that have a
-- key as labels, with keys of the right form and no two the same.
pub submit_create-sends :
    (p : NsPage) (n : Text) (m : Metadata)
    → (submit_create p).1 ≡ create n m ∷ []
    → (validate_namespace (utf8 n) ≡ true) × (includes (all_names p) n ≡ false) × IsSound p m
submit_create-sends p n m h = elim (Bool-cases (blocked p)) [
  | inl e ↦ cc (ap (λ r. r.1) (submit_create-blocked p e), h)
  | inr e ↦
      let sent = sym (submit_create-free p e) ∙ h in
      let name : trim p.name ≡ n = cc sent in
      let metadata : meta p ≡ m = cc sent in
      let good = free-request p e in
      (
        subst (λ t. validate_namespace (utf8 t) ≡ true) name good.0,
        subst (λ t. includes (all_names p) t ≡ false) name good.1,
        subst (IsSound p) metadata good.2,
      )
]

-- A choice of a view that is stored is the one that is read.
pub read_view-view_text : (v : View) → read_view (some (view_text v)) ≡ v
unfolding read_view view_text text_eq
read_view-view_text cards = refl
read_view-view_text list = refl
read_view-view_text tree = refl
