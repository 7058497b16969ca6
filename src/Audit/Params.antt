-- ===== src/Audit/Params.antt =====
-- When the filter restricts nothing.
use tuck.Base.{
  ◌≡◌, refl, ◌↔◌, Text, List, [], ◌∷◌, ◌++◌, codes, Bool, true, false, none, some, arith, is_empty,
  text_eq, trim, ◌||◌, Bool-cases, inl, inr,
}
use tuck.Audit.{
  TimeRangeKey, quarter, hour, day, always, LogFilterState, filter_state_to_api, filter_params,
  given_param, chosen_param, or_undefined, since_from_range,
}

-- A choice that restricts nothing: none, or `all`.
pub is_open : Text → Bool
is_open v = is_empty v || text_eq v (codes "all")

append-nil_iff : (xs ys : List (Text × Text)) → (xs ++ ys ≡ []) ↔ ((xs ≡ []) × (ys ≡ []))
append-nil_iff [] ys = (λ h. (refl, h), λ h. h.1)
append-nil_iff (x ∷ xs) ys = (λ h. cc h, λ h. cc (h.0))

chosen_param-given :
    (key v : Text)
    → is_empty v ≡ false
    → text_eq v (codes "all") ≡ false
    → chosen_param key (some v) ≡ (key, v) ∷ []
unfolding chosen_param
chosen_param-given key v e a = rw (e, a) refl

chosen_param-nil : (key v : Text) → (chosen_param key (some v) ≡ []) ↔ (is_open v ≡ true)
unfolding chosen_param is_open
chosen_param-nil key v = elim (Bool-cases (is_empty v)) [
  | inl e ↦ (λ h. ground arith, λ h. ground arith)
  | inr e ↦ elim (Bool-cases (text_eq v (codes "all"))) [
    | inl a ↦ (λ h. ground arith, λ h. ground arith)
    | inr a ↦ (λ h. cc (chosen_param-given key v e a, h), λ h. ground arith)
  ]
]

given_param-nil : (key t : Text) → (given_param key (or_undefined t) ≡ []) ↔ (is_empty t ≡ true)
unfolding given_param or_undefined
given_param-nil key [] = (λ h. refl, λ h. refl)
given_param-nil key (c ∷ t) = (λ h. cc h, λ h. cc h)

since-nil :
    (r : TimeRangeKey) → (given_param (codes "since") (since_from_range r) ≡ []) ↔ (r ≡ always)
unfolding given_param since_from_range
since-nil quarter = (λ h. cc h, λ h. cc h)
since-nil hour = (λ h. cc h, λ h. cc h)
since-nil day = (λ h. cc h, λ h. cc h)
since-nil always = (λ h. refl, λ h. refl)

-- The filter adds no parameter to a request for the log, which carries its `limit` beside it, if and
-- only if path and search are blank, the range is open, and operation, status and namespace are
-- each empty or `all`.
pub filter_params-nil_iff :
    (f : LogFilterState)
    → (filter_params (filter_state_to_api f) ≡ []) ↔ (
        (is_empty (trim f.path) ≡ true)
        × (is_open f.operation ≡ true)
        × (is_open f.status ≡ true)
        × (is_open f.namespace ≡ true)
        × (is_empty (trim f.q) ≡ true)
        × (f.range ≡ always))
unfolding filter_params filter_state_to_api
filter_params-nil_iff f =
    let p = given_param-nil (codes "path") (trim f.path) in
    let o = chosen_param-nil (codes "operation") f.operation in
    let s = chosen_param-nil (codes "status") f.status in
    let n = chosen_param-nil (codes "namespace") f.namespace in
    let q = given_param-nil (codes "q") (trim f.q) in
    let r = since-nil f.range in
    (
      λ h.
          let h6 = (append-nil_iff _ (given_param (codes "until") none)).0 h in
          let h5 =
            (append-nil_iff _ (given_param (codes "since") (since_from_range f.range))).0 h6.0 in
          let h4 = (append-nil_iff _ (given_param (codes "q") (or_undefined (trim f.q)))).0 h5.0 in
          let h3 =
            (append-nil_iff _ (chosen_param (codes "namespace") (some f.namespace))).0 h4.0 in
          let h2 = (append-nil_iff _ (chosen_param (codes "status") (some f.status))).0 h3.0 in
          let h1 =
            (append-nil_iff _ (chosen_param (codes "operation") (some f.operation))).0 h2.0 in
          (p.0 h1.0, o.0 h1.1, s.0 h2.1, n.0 h3.1, q.0 h4.1, r.0 h5.1),
      λ (hp, ho, hs, hn, hq, hr). rw (p.1 hp, o.1 ho, s.1 hs, n.1 hn, q.1 hq, r.1 hr) refl,
    )
