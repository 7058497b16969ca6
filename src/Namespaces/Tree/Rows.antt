-- ===== src/Namespaces/Tree/Rows.antt =====
-- Which namespaces the tree of web/src/pages/dashboard/namespaces/namespaces.page.tsx shows, and how
-- often.
use tuck.Base.{
  ℕ, ◌+◌, ◌≡◌, ◌≤◌, refl, sym, ap, ◌∙◌, Text, List, [], ◌∷◌, Bool, true, false, ◌&&◌, Option, none,
  some, is_empty, text_eq, text_eq_iff, split_on, if◌then◌else◌, arith, Bool-cases, inl, inr,
}
use tuck.Namespaces.{NamespaceView}
use tuck.Namespaces.Tree.{TreeNodes, nil, place, grow, build_tree, tree_rows}
use tuck.Namespaces.Tree.Pieces.{split_on-given}
use tuck.Namespaces.Tree.Forest.{ns_key}
use tuck.Namespaces.Tree.Lookup.{path_of, is_rooted, present}
use tuck.Namespaces.Tree.Found.{path_of-split_on, place-name, latest, Rooted, ns_key-grow}
use tuck.Namespaces.Tree.Weight.{weigh, weigh-sort_rec, weigh-place}
use tuck.Namespaces.Tree.Counted.{shown, one_that, tree_rows-le, tree_rows-all}

-- The test for one name, and another test.
abbrev pub named : Text → (NamespaceView → Bool) → NamespaceView → Bool
named name p v = text_eq v.name name && p v

weigh-segments :
    (w : Option NamespaceView → ℕ) (item : NamespaceView) (segs : List Text) (roots : TreeNodes)
    → w none ≡ 0
    → is_empty segs ≡ false
    → weigh w (place item none [] segs roots) + w (ns_key (path_of [] segs) roots)
      ≡ weigh w roots + w (some item)
unfolding present
weigh-segments w item [] roots z h = cc h
weigh-segments w item (s ∷ segs) roots z h = weigh-place w z item none [] s segs roots refl

module _ (name : Text) (p : NamespaceView → Bool) where
  abbrev weight : Option NamespaceView → ℕ
  weight = one_that (named name p)

  -- The whole weight is that of the node with the name: no other node holds the name.
  abbrev Settled : TreeNodes → Type 0
  Settled roots =
      (weigh weight roots ≡ weight (ns_key name roots))
      × ((k : Text) → text_eq k name ≡ false → weight (ns_key k roots) ≡ 0)

  weigh-name :
      (v : NamespaceView) (roots : TreeNodes)
      → is_rooted v.name ≡ true
      → weigh weight (place v none [] (split_on b'/' v.name) roots) + weight (ns_key v.name roots)
        ≡ weigh weight roots + weight (some v)
  weigh-name v roots h =
      ap
        (λ k. weigh weight (place v none [] (split_on b'/' v.name) roots) + weight (ns_key k roots))
        (sym (path_of-split_on v.name h))
      ∙ weigh-segments weight v (split_on b'/' v.name) roots refl (split_on-given v.name)

  Settled-here :
      (v : NamespaceView) (roots : TreeNodes)
      → is_rooted v.name ≡ true
      → Settled roots
      → text_eq v.name name ≡ true
      → weigh weight (place v none [] (split_on b'/' v.name) roots) ≡ weight (some v)
  Settled-here v roots h settled e =
      let same = ap (λ k. weight (ns_key k roots)) ((text_eq_iff v.name name).0 e) in
      omega (arith, weigh-name v roots h, settled.0, same)

  Settled-there :
      (v : NamespaceView) (roots : TreeNodes)
      → is_rooted v.name ≡ true
      → Settled roots
      → text_eq v.name name ≡ false
      → weigh weight (place v none [] (split_on b'/' v.name) roots) ≡ weigh weight roots
  Settled-there v roots h settled e =
      let no : weight (some v) ≡ 0 = rw e refl in
      omega (arith, weigh-name v roots h, settled.1 v.name e, no)

  Settled-others :
      (v : NamespaceView) (k : Text) (o : Option NamespaceView)
      → text_eq k name ≡ false
      → weight o ≡ 0
      → weight (if text_eq v.name k then some v else o) ≡ 0
  Settled-others v k o e z = elim (Bool-cases (text_eq v.name k)) [
    | inl f ↦
        let other : text_eq v.name name ≡ false =
          ap (λ t. text_eq t name) ((text_eq_iff v.name k).0 f) ∙ e in
        rw (f, other) refl
    | inr f ↦ rw f z
  ]

  Settled-place :
      (v : NamespaceView) (roots : TreeNodes)
      → is_rooted v.name ≡ true
      → Settled roots
      → Settled (place v none [] (split_on b'/' v.name) roots)
  Settled-place v roots h settled = (
    elim (Bool-cases (text_eq v.name name)) [
      | inl e ↦
          let found =
            place-name v name roots h ∙ ap (λ b. if b then some v else ns_key name roots) e in
          Settled-here v roots h settled e ∙ sym (ap weight found)
      | inr e ↦
          let found =
            place-name v name roots h ∙ ap (λ b. if b then some v else ns_key name roots) e in
          Settled-there v roots h settled e ∙ settled.0 ∙ sym (ap weight found)
    ],
    (λ k e.
        ap weight (place-name v k roots h) ∙ Settled-others v k (ns_key k roots) e (settled.1 k e)),
  )

  Settled-grow :
      (items : List NamespaceView) (roots : TreeNodes)
      → Rooted items
      → Settled roots
      → Settled (grow roots items)
  unfolding grow
  Settled-grow [] roots h settled = settled
  Settled-grow (v ∷ items) roots h settled =
      Settled-grow items (place v none [] (split_on b'/' v.name) roots) h.1
        (Settled-place v roots h.0 settled)

  Settled-nil : Settled nil
  unfolding weigh ns_key
  Settled-nil = (refl, λ k e. refl)

  weigh-build_tree :
      (le : Text → Text → Bool) (items : List NamespaceView)
      → Rooted items
      → weigh weight (build_tree le items) ≡ weight (latest name none items)
  unfolding build_tree
  weigh-build_tree le items h =
      weigh-sort_rec weight le (grow nil items)
      ∙ (Settled-grow items nil h Settled-nil).0
      ∙ ap weight (ns_key-grow name items h)

-- While no name begins with a slash and no group is closed, and in whatever order labels are sorted:
-- for every name and every test, the number of rows that show a namespace with that name that passes
-- the test is one if the last namespace of the list with the name passes it, and zero if it fails it
-- or the list has no such name. Closing groups shows no more such rows.
pub tree_rows-names :
    (le : Text → Text → Bool) (items : List NamespaceView) (collapsed : List Text) (name : Text)
    (p : NamespaceView → Bool)
    → Rooted items
    → (shown (named name p) (tree_rows [] 0 (build_tree le items))
        ≡ one_that (named name p) (latest name none items))
      × (shown (named name p) (tree_rows collapsed 0 (build_tree le items))
          ≤ one_that (named name p) (latest name none items))
tree_rows-names le items collapsed name p h =
    let weighed = weigh-build_tree name p le items h in
    (
      tree_rows-all (named name p) 0 (build_tree le items) ∙ weighed,
      omega (arith, tree_rows-le (named name p) collapsed 0 (build_tree le items), weighed),
    )
