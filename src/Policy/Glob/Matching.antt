-- ===== src/Policy/Glob/Matching.antt =====
-- The meaning of a rule's path as a relation, and `globMatch` of
-- web/src/pages/dashboard/policies/lib/policy-text.ts as its decision procedure.
use tuck.Base.{
  ℕ, Text, [], ◌∷◌, ◌++◌, ◌≡◌, ◌≢◌, ◌↔◌, inl, inr, refl, ap, Bool, true, arith, ◌==◌, Bool-cases,
  ◌&&◌, ◌||◌, or_split, and_split, ==_iff, ==_refl,
}
use tuck.Policy.Glob.{after_slash, star_loop, literal, step, glob_match}
use tuck.Policy.Glob.Star.{glob_match-literal, glob_match-star_slash}

abbrev pub NoSlash : Text → Type 0
NoSlash [] = Unit
NoSlash (c ∷ s) = (c ≢ b'/') × NoSlash s

abbrev pub NotAtSlash : Text → Type 0
NotAtSlash [] = Unit
NotAtSlash (c ∷ s) = c ≢ b'/'

-- `**` alone stands for any text, `**/` for any number of leading segments, `*` for a stretch with no
-- slash in it and none behind it, and any other character for itself.
pub data Matches : Text → Text → Type 0 where
  done : Matches [] []
  all : (s : Text) → Matches (b'*' ∷ b'*' ∷ []) s
  here : (rest s : Text) → Matches rest s → Matches (b'*' ∷ b'*' ∷ b'/' ∷ rest) s
  below :
      (rest pre post s : Text)
      → s ≡ pre ++ (b'/' ∷ post)
      → Matches rest post
      → Matches (b'*' ∷ b'*' ∷ b'/' ∷ rest) s
  star :
      (rest pre post s : Text)
      → s ≡ pre ++ post
      → NoSlash pre
      → NotAtSlash post
      → Matches rest post
      → Matches (b'*' ∷ rest) s
  lit : (c : ℕ) (rest s : Text) → c ≢ b'*' → Matches rest s → Matches (c ∷ rest) (c ∷ s)

module _ (m : Text → Bool) where
  after_slash_sound :
      (s : Text)
      → after_slash m s ≡ true
      → (pre : Text) × (post : Text) × (s ≡ pre ++ (b'/' ∷ post)) × (m post ≡ true)
  unfolding after_slash
  after_slash_sound [] h = cc
  after_slash_sound (c ∷ s) h = elim (or_split (c == b'/' && m s) (after_slash m s) h) [
    | inl found ↦ ([], s, ground arith, ground arith)
    | inr later ↦
        let (pre, post, e, k) = after_slash_sound s later in (c ∷ pre, post, ap (λ t. c ∷ t) e, k)
  ]

  after_slash_complete :
      (pre post : Text) → m post ≡ true → after_slash m (pre ++ (b'/' ∷ post)) ≡ true
  unfolding after_slash
  after_slash_complete [] post h = ground arith
  after_slash_complete (c ∷ pre) post h = ground (arith, after_slash_complete pre post h)

  star_loop_sound :
      (s : Text)
      → star_loop m s ≡ true
      → (pre : Text) × (post : Text) × (s ≡ pre ++ post)
        × NoSlash pre
        × NotAtSlash post
        × (m post ≡ true)
  unfolding star_loop
  star_loop_sound [] h = ([], [], refl, tt, tt, h)
  star_loop_sound (c ∷ s) h = elim (Bool-cases (m (c ∷ s))) [
    | inl stop ↦ ([], c ∷ s, refl, tt, ground arith, stop)
    | inr more ↦
        let (pre, post, e, n, a, k) = star_loop_sound s (ground arith) in
        (c ∷ pre, post, ap (λ t. c ∷ t) e, (ground arith, n), a, k)
  ]

  star_loop_complete :
      (pre post : Text)
      → NoSlash pre
      → NotAtSlash post
      → m post ≡ true
      → star_loop m (pre ++ post) ≡ true
  unfolding star_loop
  star_loop_complete [] [] n a h = h
  star_loop_complete [] (c ∷ post) n a h = ground arith
  star_loop_complete (c ∷ pre) post n a h = ground (arith, star_loop_complete pre post n.1 a h)

module _ (a : ℕ) (rest : Text) (ih : (t : Text) → glob_match rest t ≡ true → Matches rest t) where
  star_case : (s : Text) → star_loop (glob_match rest) s ≡ true → a ≡ b'*' → Matches (a ∷ rest) s
  star_case s k e =
      let (pre, post, q, n, t, m) = star_loop_sound (glob_match rest) s k in
      rw e (star rest pre post s q n t (ih post m))

  literal_case : (s : Text) → literal a (glob_match rest) s ≡ true → a ≢ b'*' → Matches (a ∷ rest) s
  unfolding literal
  literal_case [] k h = cc
  literal_case (c ∷ s) k h =
      let (p, q) = and_split (a == c) _ k in rw (← (==_iff a c).0 p) (lit a rest s h (ih s q))

  -- One round of the loop on a pattern of another form than `**` and `**/…`.
  step_sound : (s : Text) → step a (glob_match rest) s ≡ true → Matches (a ∷ rest) s
  unfolding step
  step_sound s h = elim (Bool-cases (a == b'*')) [
    | inl e ↦ star_case s (ground arith) ((==_iff a _).0 e)
    | inr e ↦ literal_case s (ground arith) (λ p. ground arith)
  ]

deep_sound :
    (rest s : Text)
    → ((t : Text) → glob_match rest t ≡ true → Matches rest t)
    → (glob_match rest s || after_slash (glob_match rest) s) ≡ true
    → Matches (b'*' ∷ b'*' ∷ b'/' ∷ rest) s
deep_sound rest s ih h = elim (or_split (glob_match rest s) _ h) [
  | inl k ↦ here rest s (ih s k)
  | inr k ↦
      let (pre, post, q, m) = after_slash_sound (glob_match rest) s k in
      below rest pre post s q (ih post m)
]

glob_match_sound : (p s : Text) → glob_match p s ≡ true → Matches p s
unfolding glob_match
glob_match_sound [] [] h = done
glob_match_sound [] (c ∷ s) h = cc
glob_match_sound (a ∷ []) s h = step_sound a [] (glob_match_sound []) s h
glob_match_sound (a ∷ b ∷ []) s h = elim (Bool-cases (a == b'*' && b == b'*')) [
  | inl e ↦ let (p, q) = and_split _ _ e in rw ((==_iff a _).0 p, (==_iff b _).0 q) (all s)
  | inr e ↦ step_sound a (b ∷ []) (glob_match_sound (b ∷ [])) s (ground arith)
]
glob_match_sound (a ∷ b ∷ c ∷ rest) s h = elim (Bool-cases (a == b'*' && b == b'*' && c == b'/')) [
  | inl e ↦
      let (p, q) = and_split _ _ e in
      let (x, y) = and_split _ _ p in
      rw ((==_iff a _).0 x, (==_iff b _).0 y, (==_iff c _).0 q)
        (deep_sound rest s (glob_match_sound rest) (ground arith))
  | inr e ↦ step_sound a (b ∷ c ∷ rest) (glob_match_sound (b ∷ c ∷ rest)) s (ground arith)
]

no_star_slash :
    (b c : ℕ) (rest s : Text) → b ≡ b'*' → c ≡ b'/' → glob_match (b ∷ c ∷ rest) s ≡ true → ⊥
no_star_slash b c rest s e f k = cc (glob_match-star_slash rest s)

glob_match-deep :
    (rest s : Text)
    → glob_match (b'*' ∷ b'*' ∷ b'/' ∷ rest) s
      ≡ (glob_match rest s || after_slash (glob_match rest) s)
unfolding glob_match
glob_match-deep rest s = refl

glob_match-all : (s : Text) → glob_match (b'*' ∷ b'*' ∷ []) s ≡ true
unfolding glob_match
glob_match-all s = refl

glob_match-nil : glob_match [] [] ≡ true
unfolding glob_match
glob_match-nil = refl

glob_match-below :
    (rest pre post : Text)
    → glob_match rest post ≡ true
    → glob_match (b'*' ∷ b'*' ∷ b'/' ∷ rest) (pre ++ (b'/' ∷ post)) ≡ true
glob_match-below rest pre post k =
    rw glob_match-deep (ground (arith, after_slash_complete (glob_match rest) pre post k))

-- A star matches by its loop, whatever follows it: the two special forms match more.
glob_match-star :
    (rest pre post : Text)
    → NoSlash pre
    → NotAtSlash post
    → glob_match rest post ≡ true
    → glob_match (b'*' ∷ rest) (pre ++ post) ≡ true
unfolding glob_match step
glob_match-star [] pre post n a k = star_loop_complete (glob_match []) pre post n a k
glob_match-star (b ∷ []) pre post n a k =
    ground (arith, star_loop_complete (glob_match (b ∷ [])) pre post n a k)
glob_match-star (b ∷ c ∷ rest) pre post n a k = elim (Bool-cases (b == b'*' && c == b'/')) [
  | inl e ↦ absurd (
      no_star_slash b c rest post ((==_iff b _).0 (and_split _ _ e).0)
        ((==_iff c _).0 (and_split _ _ e).1) k)
  | inr e ↦ ground (arith, star_loop_complete (glob_match (b ∷ c ∷ rest)) pre post n a k)
]

glob_match_complete : (p s : Text) → Matches p s → glob_match p s ≡ true
unfolding literal
glob_match_complete p s done = glob_match-nil
glob_match_complete p s (all t) = glob_match-all t
glob_match_complete p s (here rest t k) = rw (glob_match-deep, glob_match_complete rest t k)
glob_match_complete p s (below rest pre post t e k) =
    rw e (glob_match-below rest pre post (glob_match_complete rest post k))
glob_match_complete p s (star rest pre post t e n a k) =
    rw e (glob_match-star rest pre post n a (glob_match_complete rest post k))
glob_match_complete p s (lit c rest t h k) =
    rw (glob_match-literal c rest (c ∷ t) h, ==_refl c) (glob_match_complete rest t k)

-- `globMatch` says yes exactly where the pattern's relation holds.
pub glob_match_iff : (p s : Text) → (glob_match p s ≡ true) ↔ Matches p s
glob_match_iff p s = (glob_match_sound p s, glob_match_complete p s)
