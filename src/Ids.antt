-- ===== src/Ids.antt =====
-- Sets of ids (`Set<string>` of the screens) as lists without doubles, changed by copying as React's
-- state is: adding and deleting several, and what is in them afterwards.
use tuck.Base.{
  if◌then◌else◌, ◌≡◌, refl, ap, Text, List, [], ◌∷◌, ◌++◌, Bool, true, not, ◌&&◌, ◌||◌, keep, any,
  text_eq, text_eq_iff, includes, Bool-cases, inl, inr, arith,
}

-- `new Set([...cur, ...targets])`
unfoldable pub add_all : List Text → List Text → List Text
add_all [] cur = cur
add_all (t ∷ targets) cur = add_all targets (if includes cur t then cur else cur ++ t ∷ [])

-- `targets.forEach((id) => next.delete(id))`
unfoldable pub delete_all : List Text → List Text → List Text
delete_all targets cur = keep (λ id. not (includes targets id)) cur

pub any-append {ℓ} :
    {A : Type ℓ} (p : A → Bool) (xs ys : List A) → any p (xs ++ ys) ≡ (any p xs || any p ys)
any-append p [] ys = refl
any-append p (x ∷ xs) ys = ground (arith, any-append p xs ys)

-- A test that depends on the text alone.
pub same_includes :
    (s t : Text) (xs : List Text) → text_eq s t ≡ true → includes xs s ≡ includes xs t
same_includes s t xs e = ap (includes xs) ((text_eq_iff s t).0 e)

pub includes-add_all :
    (ts cur : List Text) (id : Text)
    → includes (add_all ts cur) id ≡ (includes ts id || includes cur id)
unfolding add_all
includes-add_all [] cur id = refl
includes-add_all (t ∷ ts) cur id = elim (Bool-cases (includes cur t)) [
  | inl e ↦ rw e (ground (arith, e, includes-add_all ts cur id, same_includes id t cur))
  | inr e ↦
      rw e (
        ground
          (arith, includes-add_all ts (cur ++ t ∷ []) id, any-append (text_eq id) cur (t ∷ [])))
]

pub includes-keep_out :
    (ts cur : List Text) (id : Text)
    → includes (keep (λ x. not (includes ts x)) cur) id ≡ (includes cur id && not (includes ts id))
includes-keep_out ts [] id = refl
includes-keep_out ts (x ∷ cur) id = elim (Bool-cases (text_eq id x)) [
  | inl e ↦ elim (Bool-cases (includes ts x)) [
    | inl f ↦ rw (f, e) (ground (arith, f, e, includes-keep_out ts cur id, same_includes id x ts e))
    | inr f ↦ rw (f, e) (ground (arith, f, e, includes-keep_out ts cur id, same_includes id x ts e))
  ]
  | inr e ↦ elim (Bool-cases (includes ts x)) [
    | inl f ↦ rw (f, e) (ground (arith, f, e, includes-keep_out ts cur id))
    | inr f ↦ rw (f, e) (ground (arith, f, e, includes-keep_out ts cur id))
  ]
]

pub includes-delete_all :
    (ts cur : List Text) (id : Text)
    → includes (delete_all ts cur) id ≡ (includes cur id && not (includes ts id))
unfolding delete_all
includes-delete_all ts cur id = includes-keep_out ts cur id
