-- ===== src/Namespaces/Tree/Pieces.antt =====
-- The segments of a name: joined again they are the name, and there is always one.
use tuck.Base.{
  ℕ, ◌≡◌, refl, sym, Text, List, [], ◌∷◌, codes, Bool, true, false, is_empty, text_eq, text_eq_iff,
  split_on, push_head, join, Bool-cases, inl, inr, ◌==◌, ==_iff,
}

bool_same : (a b : Bool) → ((a ≡ true) → (b ≡ true)) → ((b ≡ true) → (a ≡ true)) → a ≡ b
bool_same true b h k = sym (h refl)
bool_same false true h k = k refl
bool_same false false h k = refl

pub text_eq_sym : (s t : Text) → text_eq s t ≡ text_eq t s
text_eq_sym s t =
    bool_same _ _ (λ h. (text_eq_iff t s).1 (sym ((text_eq_iff s t).0 h)))
      (λ h. (text_eq_iff s t).1 (sym ((text_eq_iff t s).0 h)))

push_head-join :
    (d : ℕ) (ws : List Text) → join (codes "/") (push_head d ws) ≡ d ∷ join (codes "/") ws
unfolding push_head join
push_head-join d [] = refl
push_head-join d (w ∷ []) = refl
push_head-join d (w ∷ v ∷ ws) = refl

push_head-given : (d : ℕ) (ws : List Text) → is_empty (push_head d ws) ≡ false
unfolding push_head
push_head-given d [] = refl
push_head-given d (w ∷ ws) = refl

pub split_on-given : (s : Text) → is_empty (split_on b'/' s) ≡ false
unfolding split_on push_head
split_on-given [] = refl
split_on-given (d ∷ s) = elim (Bool-cases (d == b'/')) [
  | inl e ↦ rw e refl
  | inr e ↦ rw e (push_head-given d (split_on b'/' s))
]

join-empty :
    (ws : List Text) → is_empty ws ≡ false → join (codes "/") ([] ∷ ws) ≡ b'/' ∷ join (codes "/") ws
unfolding join
join-empty [] h = cc h
join-empty (w ∷ ws) h = refl

join-one : join (codes "/") ([] ∷ []) ≡ []
unfolding join
join-one = refl

pub join-split_on : (s : Text) → join (codes "/") (split_on b'/' s) ≡ s
unfolding split_on
join-split_on [] = join-one
join-split_on (d ∷ s) = elim (Bool-cases (d == b'/')) [
  | inl e ↦
      rw (e, join-empty (split_on b'/' s) (split_on-given s), join-split_on s, (==_iff d b'/').0 e)
        refl
  | inr e ↦ rw (e, push_head-join d (split_on b'/' s), join-split_on s) refl
]
