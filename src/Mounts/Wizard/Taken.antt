-- ===== src/Mounts/Wizard/Taken.antt =====
-- The path of a mount that the wizard of web/src/pages/dashboard/mounts/components/create-wizard.tsx
-- made, when the wizard is opened again.
use mathlib.Core.List.{reverse, reverse-append, reverse-reverse, reverse-cons}
use tuck.Base.{
  ℕ, ◌≡◌, ◌≡⟨◌⟩◌, ◌∎, refl, sym, ap, ◌∙◌, Text, List, [], ◌∷◌, ◌++◌, Bool, true, false, all, any,
  is_empty, text_eq, text_eq_iff, text_eq_refl, trim, is_space, is_lower, is_digit, push_head,
  split_on, ◌==◌, Bool-cases, inl, inr, arith, trim-solid,
}
use tuck.Mounts.{MountEntry, name_first, type_re, path_re, drop_slashes, norm_path}
use tuck.Mounts.Wizard.{ok, path_err_of, hit, taken_err, no_err}

-- A segment behind the first is empty.
gap : List Text → Bool
gap [] = false
gap (w ∷ ws) = any is_empty ws

gap-push_head : (d : ℕ) (ws : List Text) → gap (push_head d ws) ≡ gap ws
unfolding gap push_head
gap-push_head d [] = refl
gap-push_head d (w ∷ ws) = refl

gap-any : (ws : List Text) → gap ws ≡ true → any is_empty ws ≡ true
unfolding gap
gap-any [] h = cc
gap-any (w ∷ ws) h = ground (arith, h)

split_on-gap : (x : Text) → gap (split_on b'/' (x ++ b'/' ∷ [])) ≡ true
unfolding split_on gap
split_on-gap [] = refl
split_on-gap (d ∷ x) = elim (Bool-cases (d == b'/')) [
  | inl e ↦ rw e (gap-any (split_on b'/' (x ++ b'/' ∷ [])) (split_on-gap x))
  | inr e ↦ rw e (gap-push_head d (split_on b'/' (x ++ b'/' ∷ [])) ∙ split_on-gap x)
]

empty-not_type : (ws : List Text) → any is_empty ws ≡ true → all type_re ws ≡ false
unfolding type_re
empty-not_type [] h = cc
empty-not_type ([] ∷ ws) h = refl
empty-not_type ((c ∷ w) ∷ ws) h = ground (arith, h, empty-not_type ws)

path_re-slash : (x : Text) → path_re (x ++ b'/' ∷ []) ≡ false
unfolding path_re
path_re-slash x =
    empty-not_type (split_on b'/' (x ++ b'/' ∷ []))
      (gap-any (split_on b'/' (x ++ b'/' ∷ [])) (split_on-gap x))

push_head-first :
    (c : ℕ) (ws : List Text) → all type_re (push_head c ws) ≡ true → name_first c ≡ true
unfolding push_head type_re
push_head-first c [] h = ground (arith, h)
push_head-first c (w ∷ ws) h = ground (arith, h)

path_re-first : (c : ℕ) (s : Text) → path_re (c ∷ s) ≡ true → name_first c ≡ true
unfolding path_re split_on type_re
path_re-first c s h = elim (Bool-cases (c == b'/')) [
  | inl e ↦ ground (arith, h, e)
  | inr e ↦ push_head-first c (split_on b'/' s) (ground (arith, h, e))
]

name_first-solid : (c : ℕ) → name_first c ≡ true → is_space c ≡ false
unfolding name_first is_space is_lower is_digit
name_first-solid c h = ground (arith, h)

name_first-not_slash : (c : ℕ) → name_first c ≡ true → (c == b'/') ≡ false
unfolding name_first is_lower is_digit
name_first-not_slash c h = ground (arith, h)

drop_slashes-kept : (c : ℕ) (s : Text) → (c == b'/') ≡ false → drop_slashes (c ∷ s) ≡ c ∷ s
unfolding drop_slashes
drop_slashes-kept c s h = rw h refl

drop_slashes-one : (s : Text) → drop_slashes (b'/' ∷ s) ≡ drop_slashes s
unfolding drop_slashes
drop_slashes-one s = refl

-- The end of a path is no slash.
end_kept : (p q : Text) → path_re p ≡ true → reverse p ≡ q → drop_slashes q ≡ q
unfolding drop_slashes
end_kept p [] h e = refl
end_kept p (d ∷ q) h e = elim (Bool-cases (d == b'/')) [
  | inl k ↦
      let same : d ≡ b'/' = ground (arith, k) in
      let turned : p ≡ reverse q ++ b'/' ∷ [] =
        sym (reverse-reverse p)
        ∙ ap reverse e
        ∙ reverse-cons d q
        ∙ ap (λ c. reverse q ++ c ∷ []) same in
      let no : path_re p ≡ false = ap path_re turned ∙ path_re-slash (reverse q) in cc
  | inr k ↦ rw k refl
]

norm_path-eq : (s : Text) → norm_path s ≡ reverse (drop_slashes (reverse (drop_slashes (trim s))))
unfolding norm_path
norm_path-eq s = refl

slash-solid : is_space b'/' ≡ false
unfolding is_space
slash-solid = refl

-- The path that the server lists for a mount is the one that the wizard sent.
norm_path-slash : (p : Text) → path_re p ≡ true → norm_path (p ++ b'/' ∷ []) ≡ p
unfolding path_re type_re split_on
norm_path-slash [] h = ground (arith, h)
norm_path-slash (c ∷ s) h =
    let f = path_re-first c s h in
    let k = name_first-not_slash c f in
    norm_path (c ∷ (s ++ b'/' ∷ []))
    ≡⟨ norm_path-eq _ ⟩
      reverse (drop_slashes (reverse (drop_slashes (trim (c ∷ (s ++ b'/' ∷ []))))))
    ≡⟨ ap (λ t. reverse (drop_slashes (reverse (drop_slashes t))))
        (trim-solid c b'/' s (name_first-solid c f) slash-solid) ⟩
      reverse (drop_slashes (reverse (drop_slashes (c ∷ (s ++ b'/' ∷ [])))))
    ≡⟨ ap (λ t. reverse (drop_slashes (reverse t))) (drop_slashes-kept c _ k) ⟩
      reverse (drop_slashes (reverse (c ∷ s ++ b'/' ∷ [])))
    ≡⟨ ap (λ t. reverse (drop_slashes t)) (reverse-append (c ∷ s) (b'/' ∷ [])) ⟩
      reverse (drop_slashes (b'/' ∷ reverse (c ∷ s)))
    ≡⟨ ap reverse (drop_slashes-one (reverse (c ∷ s)) ∙ end_kept (c ∷ s) (reverse (c ∷ s)) h refl) ⟩
      reverse (reverse (c ∷ s))
    ≡⟨ reverse-reverse (c ∷ s) ⟩ c ∷ s ∎

found-taken :
    (mounts : List MountEntry) (p : Text)
    → any (λ m. text_eq (norm_path m.path) p) mounts ≡ true
    → no_err (taken_err (hit mounts p)) ≡ false
unfolding hit no_err taken_err
found-taken [] p h = cc
found-taken (m ∷ mounts) p h = elim (Bool-cases (text_eq (norm_path m.path) p)) [
  | inl e ↦ rw e refl
  | inr e ↦ rw e (found-taken mounts p (ground (arith, h, e)))
]

listed-found :
    (mounts : List MountEntry) (p : Text)
    → path_re p ≡ true
    → any (λ m. text_eq m.path (p ++ b'/' ∷ [])) mounts ≡ true
    → any (λ m. text_eq (norm_path m.path) p) mounts ≡ true
listed-found [] p h k = k
listed-found (m ∷ mounts) p h k = elim (Bool-cases (text_eq m.path (p ++ b'/' ∷ []))) [
  | inl e ↦
      let same : norm_path m.path ≡ p =
        ap norm_path ((text_eq_iff m.path (p ++ b'/' ∷ [])).0 e) ∙ norm_path-slash p h in
      rw (same, text_eq_refl p) refl
  | inr e ↦ ground (arith, listed-found mounts p h (ground (arith, k, e)))
]

path_err_of-taken :
    (mounts : List MountEntry) (p : Text)
    → any (λ m. text_eq (norm_path m.path) p) mounts ≡ true
    → no_err (path_err_of mounts p) ≡ false
unfolding path_err_of no_err
path_err_of-taken mounts p h = ground (arith, found-taken mounts p h)

-- A path that the second step of the wizard has accepted is an error there as soon as the list of
-- mounts holds a mount at that path, which the server lists with a slash at the end. The last step
-- does not look at the error again.
pub path_err-listed :
    (before after : List MountEntry) (p : Text)
    → path_err_of before p ≡ ok
    → any (λ m. text_eq m.path (p ++ b'/' ∷ [])) after ≡ true
    → no_err (path_err_of after p) ≡ false
unfolding path_err_of
path_err-listed before after p h k =
    path_err_of-taken after p (listed-found after p (ground (arith, h)) k)
