-- ===== src/Namespaces/Tree/Weight.antt =====
-- What the namespaces of a forest add up to, while the tree of
-- web/src/pages/dashboard/namespaces/namespaces.page.tsx is built and sorted.
use tuck.Base.{
  ℕ, ◌+◌, ◌≡◌, refl, sym, ap, ◌∙◌, Text, List, [], ◌∷◌, Bool, true, false, Option, none, some,
  text_eq, Bool-cases, inl, inr, arith,
}
use tuck.Namespaces.{NamespaceView}
use tuck.Namespaces.Tree.{
  TreeNode, TreeNodes, node, nil, cons, has_node, has_key, push_last, push_in, push_under,
  push_node, set_node, set_ns, next_path, ensure, mark, place, label_of, insert_node, sort_node,
  sort_rec,
}
use tuck.Namespaces.Tree.Forest.{ns_key, ns_node}
use tuck.Namespaces.Tree.Lookup.{
  path_of, place-turned, place-end, turned, turned-present, turned-more, path_of-end, path_of-more,
  present, ensure-has, ensure-ns,
}

unfoldable mutual
  pub weigh_node : (Option NamespaceView → ℕ) → TreeNode → ℕ
  weigh_node w (node key label ns children) = w ns + weigh w children

  pub weigh : (Option NamespaceView → ℕ) → TreeNodes → ℕ
  weigh w nil = 0
  weigh w (cons n nodes) = weigh_node w n + weigh w nodes

module _ (w : Option NamespaceView → ℕ) where
  weigh-insert_node :
      (le : Text → Text → Bool) (n : TreeNode) (nodes : TreeNodes)
      → weigh w (insert_node le n nodes) ≡ weigh_node w n + weigh w nodes
  unfolding insert_node weigh
  weigh-insert_node le n nil = refl
  weigh-insert_node le n (cons m nodes) = elim (Bool-cases (le (label_of n) (label_of m))) [
    | inl e ↦ rw e refl
    | inr e ↦ rw e (omega (arith, weigh-insert_node le n nodes))
  ]

  mutual
    unfolding sort_node weigh_node

    weigh_node-sort_node :
        (le : Text → Text → Bool) (n : TreeNode) → weigh_node w (sort_node le n) ≡ weigh_node w n
    weigh_node-sort_node le (node key label ns children) = omega (arith, weigh-sort_rec le children)

    pub weigh-sort_rec :
        (le : Text → Text → Bool) (nodes : TreeNodes) → weigh w (sort_rec le nodes) ≡ weigh w nodes
    weigh-sort_rec le nil = refl
    weigh-sort_rec le (cons n nodes) = omega (
      arith,
      weigh-insert_node le (sort_node le n) (sort_rec le nodes),
      weigh_node-sort_node le n,
      weigh-sort_rec le nodes,
    )

  -- A namespace takes the place of the one under the key.
  mutual
    unfolding weigh_node has_node set_node ns_node

    weigh_node-set_node :
        (q : Text) (item : NamespaceView) (n : TreeNode)
        → has_node q n ≡ true
        → weigh_node w (set_node q item n) + w (ns_node q n) ≡ weigh_node w n + w (some item)
    weigh_node-set_node q item (node key label ns children) h = elim (Bool-cases (text_eq key q)) [
      | inl e ↦ rw e (omega arith)
      | inr e ↦ rw e (omega (arith, weigh-set_ns q item children (ground (arith, h, e))))
    ]

    weigh-set_ns :
        (q : Text) (item : NamespaceView) (nodes : TreeNodes)
        → has_key q nodes ≡ true
        → weigh w (set_ns q item nodes) + w (ns_key q nodes) ≡ weigh w nodes + w (some item)
    weigh-set_ns q item nil h = cc h
    weigh-set_ns q item (cons n nodes) h = elim (Bool-cases (has_node q n)) [
      | inl e ↦ rw e (omega (arith, weigh_node-set_node q item n e))
      | inr e ↦ rw e (omega (arith, weigh-set_ns q item nodes (ground (arith, h, e))))
    ]

module _ (w : Option NamespaceView → ℕ) (w_none : w none ≡ 0) where
  weigh-push_last :
      (p s : Text) (nodes : TreeNodes)
      → weigh w (push_last (node p s none nil) nodes) ≡ weigh w nodes
  unfolding weigh_node push_last
  weigh-push_last p s nil = omega (arith, w_none)
  weigh-push_last p s (cons n nodes) = omega (arith, weigh-push_last p s nodes)

  mutual
    unfolding weigh_node push_in

    weigh_node-push_in :
        (k p s : Text) (n : TreeNode)
        → weigh_node w (push_in k (node p s none nil) n) ≡ weigh_node w n
    weigh_node-push_in k p s (node key label ns children) = elim (Bool-cases (text_eq key k)) [
      | inl e ↦ rw e (omega (arith, weigh-push_last p s children))
      | inr e ↦ rw e (omega (arith, weigh-push_under k p s children))
    ]

    weigh-push_under :
        (k p s : Text) (nodes : TreeNodes)
        → weigh w (push_under k (node p s none nil) nodes) ≡ weigh w nodes
    weigh-push_under k p s nil = refl
    weigh-push_under k p s (cons n nodes) =
        omega (arith, weigh_node-push_in k p s n, weigh-push_under k p s nodes)

  weigh-push_node :
      (cur : Option Text) (p s : Text) (roots : TreeNodes)
      → weigh w (push_node cur (node p s none nil) roots) ≡ weigh w roots
  unfolding push_node
  weigh-push_node none p s roots = weigh-push_last p s roots
  weigh-push_node (some k) p s roots = weigh-push_under k p s roots

  weigh-ensure :
      (cur : Option Text) (p s : Text) (roots : TreeNodes)
      → weigh w (ensure cur p s roots) ≡ weigh w roots
  unfolding ensure
  weigh-ensure cur p s roots = elim (Bool-cases (has_key p roots)) [
    | inl e ↦ rw e refl
    | inr e ↦ rw e (weigh-push_node cur p s roots)
  ]

  weigh-last :
      (item : NamespaceView) (cur : Option Text) (p s : Text) (roots : TreeNodes)
      → present cur roots ≡ true
      → weigh w (turned item cur p s true roots) + w (ns_key p roots)
        ≡ weigh w roots + w (some item)
  unfolding turned mark
  weigh-last item cur p s roots h =
      let set = weigh-set_ns w p item (ensure cur p s roots) (ensure-has cur p s roots h) in
      omega (arith, set, weigh-ensure cur p s roots, ap w (ensure-ns cur p s p roots))

  weigh-more :
      (item : NamespaceView) (cur : Option Text) (p s : Text) (roots : TreeNodes)
      → weigh w (turned item cur p s false roots) ≡ weigh w roots
  unfolding turned mark
  weigh-more item cur p s roots = weigh-ensure cur p s roots

  -- A name that is placed takes the place of what stands under its path.
  pub weigh-place :
      (item : NamespaceView) (cur : Option Text) (path seg : Text) (segs : List Text)
      (roots : TreeNodes)
      → present cur roots ≡ true
      → weigh w (place item cur path (seg ∷ segs) roots)
          + w (ns_key (path_of path (seg ∷ segs)) roots)
        ≡ weigh w roots + w (some item)
  weigh-place item cur path seg [] roots h =
      let p = next_path path seg in
      ap (λ f. weigh w f + w (ns_key (path_of path (seg ∷ [])) roots))
        (place-turned item cur path seg [] roots ∙ place-end item _ _ _)
      ∙ ap (λ q. weigh w (turned item cur p seg true roots) + w (ns_key q roots))
          (path_of-end path seg)
      ∙ weigh-last item cur p seg roots h
  weigh-place item cur path seg (t ∷ ts) roots h =
      let p = next_path path seg in
      let next = turned item cur p seg false roots in
      let q = path_of p (t ∷ ts) in
      ap (λ f. weigh w f + w (ns_key (path_of path (seg ∷ t ∷ ts)) roots))
        (place-turned item cur path seg (t ∷ ts) roots)
      ∙ ap (λ k. weigh w (place item (some p) p (t ∷ ts) next) + w (ns_key k roots))
          (path_of-more path seg (t ∷ ts))
      ∙ ap (λ o. weigh w (place item (some p) p (t ∷ ts) next) + w o)
          (sym (turned-more item cur p seg q roots))
      ∙ weigh-place item (some p) p t ts next (turned-present item cur p seg false roots h)
      ∙ ap (λ a. a + w (some item)) (weigh-more item cur p seg roots)
