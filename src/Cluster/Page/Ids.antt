-- ===== src/Cluster/Page/Ids.antt =====
-- Sets of ids all of which have a property.
use tuck.Base.{
  ◌≡◌, Text, List, [], ◌∷◌, ◌++◌, Bool, true, false, not, subst, text_eq_iff, text_eq_refl, arith,
  keep, All, text_eq, if◌then◌else◌, Bool-cases, inl, inr,
}
use tuck.Cluster.Page.{has_id, delete_id, add_id, toggle_rows}

pub All-keep : (P : Text → Type 0) (p : Text → Bool) (xs : List Text) → All P xs → All P (keep p xs)
All-keep P p [] h = h
All-keep P p (x ∷ xs) h = elim (Bool-cases (p x)) [
  | inl e ↦ rw e (h.0, All-keep P p xs h.1)
  | inr e ↦ rw e (All-keep P p xs h.1)
]

pub All-kept : (p : Text → Bool) (xs : List Text) → All (λ x. p x ≡ true) (keep p xs)
All-kept p [] = tt
All-kept p (x ∷ xs) = elim (Bool-cases (p x)) [
  | inl e ↦ rw e (e, All-kept p xs)
  | inr e ↦ rw e (All-kept p xs)
]

All-add : (P : Text → Type 0) (xs : List Text) (x : Text) → All P xs → P x → All P (xs ++ x ∷ [])
All-add P [] x h p = (p, tt)
All-add P (y ∷ xs) x h p = (h.0, All-add P xs x h.1 p)

module _ (P : Text → Type 0) where
  -- A set of ids that all have the property keeps it when ids that have it go in or out.
  pub All-add_id : (x : Text) (xs : List Text) → P x → All P xs → All P (add_id x xs)
  All-add_id x xs p h = elim (Bool-cases (has_id xs x)) [
    | inl e ↦ rw e h
    | inr e ↦ rw e (All-add P xs x h p)
  ]

  pub All-toggle_rows :
      (checked : Bool) (rows xs : List Text)
      → All P rows
      → All P xs
      → All P (toggle_rows checked rows xs)
  unfolding toggle_rows
  All-toggle_rows checked [] xs r h = h
  All-toggle_rows true (x ∷ rows) xs r h =
      All-toggle_rows true rows (delete_id x xs) r.1 (All-keep P (λ i. not (text_eq i x)) xs h)
  All-toggle_rows false (x ∷ rows) xs r h =
      All-toggle_rows false rows (add_id x xs) r.1 (All-add_id x xs r.0 h)

  pub All-either :
      (b : Bool) (xs ys : List Text) → All P xs → All P ys → All P (if b then xs else ys)
  All-either true xs ys h k = h
  All-either false xs ys h k = k

  pub All-has_id : (xs : List Text) (id : Text) → All P xs → has_id xs id ≡ true → P id
  All-has_id [] id h e = ground arith
  All-has_id (x ∷ xs) id h e = elim (Bool-cases (text_eq x id)) [
    | inl same ↦ subst P ((text_eq_iff x id).0 same) h.0
    | inr other ↦ All-has_id xs id h.1 (ground arith)
  ]

All-weaken :
    (P Q : Text → Type 0) → ((x : Text) → P x → Q x) → (xs : List Text) → All P xs → All Q xs
All-weaken P Q f [] h = tt
All-weaken P Q f (x ∷ xs) h = (f x h.0, All-weaken P Q f xs h.1)

pub has_id_self : (xs : List Text) → All (λ x. has_id xs x ≡ true) xs
has_id_self [] = tt
has_id_self (x ∷ xs) = (
  ground (arith, text_eq_refl x),
  All-weaken (λ i. has_id xs i ≡ true) (λ i. has_id (x ∷ xs) i ≡ true) (λ i e. ground arith) xs
      (has_id_self xs),
)
