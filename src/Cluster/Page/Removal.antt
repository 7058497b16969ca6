-- ===== src/Cluster/Page/Removal.antt =====
-- The removal of several nodes, one after the other.
use tuck.Base.{
  ◌≡◌, refl, sym, ap, subst, Text, List, [], ◌∷◌, ◌++◌, Bool, true, false, All, Bool-cases, inl,
  inr, ◌⊎◌,
}
use tuck.Cluster.Page.{remove_loop}

-- What is left after a loop that ended early starts with a node that the server keeps.
abbrev pub StopsAt : (Text → Bool) → List Text → Type 0
StopsAt removes [] = ⊥
StopsAt removes (id ∷ rest) = removes id ≡ false

-- The removed ids and the end of the loop, `r`, split the ids that were asked for.
abbrev pub Splits : (Text → Bool) → List Text → List Text × Bool → Type 0
Splits removes ids r =
    (rest : List Text) × (r.0 ++ rest ≡ ids)
    × All (λ id. removes id ≡ true) r.0
    × (((r.1 ≡ true) × (rest ≡ [])) ⊎ ((r.1 ≡ false) × StopsAt removes rest))

remove_loop-goes :
    (removes : Text → Bool) (id : Text) (ids : List Text)
    → removes id ≡ true
    → remove_loop removes (id ∷ ids)
      ≡ (id ∷ (remove_loop removes ids).0, (remove_loop removes ids).1)
unfolding remove_loop
remove_loop-goes removes id ids e = rw (remove_loop, e)

remove_loop-stops :
    (removes : Text → Bool) (id : Text) (ids : List Text)
    → removes id ≡ false
    → remove_loop removes (id ∷ ids) ≡ ([], false)
unfolding remove_loop
remove_loop-stops removes id ids e = rw (remove_loop, e)

-- The nodes that were removed are the first of those that were asked for, in order, and the server
-- removed each; either they are all and the loop went to its end, or it stopped at the next one,
-- which the server did not remove.
pub remove_loop-Splits :
    (removes : Text → Bool) (ids : List Text) → Splits removes ids (remove_loop removes ids)
unfolding remove_loop
remove_loop-Splits removes [] = ([], refl, tt, inl (refl, refl))
remove_loop-Splits removes (id ∷ ids) = elim (Bool-cases (removes id)) [
  | inl e ↦
      let (rest, split, ok, end) = remove_loop-Splits removes ids in
      subst (Splits removes (id ∷ ids)) (sym (remove_loop-goes removes id ids e))
        (rest, ap (λ xs. id ∷ xs) split, (e, ok), end)
  | inr e ↦
      subst (Splits removes (id ∷ ids)) (sym (remove_loop-stops removes id ids e))
        (id ∷ ids, refl, tt, inr (refl, e))
]
