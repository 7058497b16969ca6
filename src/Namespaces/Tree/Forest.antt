-- ===== src/Namespaces/Tree/Forest.antt =====
-- The forest that `byKey` of web/src/pages/dashboard/namespaces/namespaces.page.tsx reads: what a pushed
-- node and a namespace that is set change.
use tuck.Base.{
  ◌≡◌, refl, ap, ◌∙◌, Text, true, false, ◌&&◌, ◌||◌, Option, none, some, text_eq, text_eq_iff,
  if◌then◌else◌, Bool-cases, inl, inr, arith,
}
use tuck.Namespaces.{NamespaceView}
use tuck.Namespaces.Tree.{
  TreeNode, TreeNodes, node, nil, cons, has_node, has_key, push_last, push_in, push_under, set_node,
  set_ns,
}

-- The namespace of the node with the key.
unfoldable mutual
  pub ns_node : Text → TreeNode → Option NamespaceView
  ns_node k (node key label ns children) =
      let below = ns_key k children in if text_eq key k then ns else below

  pub ns_key : Text → TreeNodes → Option NamespaceView
  ns_key k nil = none
  ns_key k (cons n nodes) =
      let there = ns_key k nodes in if has_node k n then ns_node k n else there

mutual
  unfolding has_node ns_node

  ns_node-absent : (k : Text) (n : TreeNode) → has_node k n ≡ false → ns_node k n ≡ none
  ns_node-absent k (node key label ns children) h =
      let other : text_eq key k ≡ false = ground (arith, h) in
      rw other (ns_key-absent k children (ground (arith, h)))

  pub ns_key-absent :
      (k : Text) (nodes : TreeNodes) → has_key k nodes ≡ false → ns_key k nodes ≡ none
  ns_key-absent k nil h = refl
  ns_key-absent k (cons n nodes) h =
      let out : has_node k n ≡ false = ground (arith, h) in
      rw out (ns_key-absent k nodes (ground (arith, h)))

-- A new node without a namespace is pushed.
module _ (p s : Text) where
  abbrev pub new_node : TreeNode
  new_node = node p s none nil

  pub has_key-push_last :
      (k : Text) (nodes : TreeNodes)
      → has_key k (push_last new_node nodes) ≡ (has_key k nodes || text_eq p k)
  unfolding has_node push_last
  has_key-push_last k nil = ground arith
  has_key-push_last k (cons n nodes) = ground (arith, has_key-push_last k nodes)

  mutual
    unfolding has_node push_in

    has_node-push_in :
        (cur k : Text) (n : TreeNode)
        → has_node k (push_in cur new_node n) ≡ (has_node k n || (has_node cur n && text_eq p k))
    has_node-push_in cur k (node key label ns children) = elim (Bool-cases (text_eq key cur)) [
      | inl e ↦ rw e (ground (arith, e, has_key-push_last k children))
      | inr e ↦ rw e (ground (arith, e, has_key-push_under cur k children))
    ]

    pub has_key-push_under :
        (cur k : Text) (nodes : TreeNodes)
        → has_key k (push_under cur new_node nodes)
          ≡ (has_key k nodes || (has_key cur nodes && text_eq p k))
    has_key-push_under cur k nil = refl
    has_key-push_under cur k (cons n nodes) =
        ground (arith, has_node-push_in cur k n, has_key-push_under cur k nodes)

  -- What stands under a key that is not the new one is as before.
  pub ns_key-push_last :
      (k : Text) (nodes : TreeNodes)
      → text_eq p k ≡ false
      → ns_key k (push_last new_node nodes) ≡ ns_key k nodes
  unfolding ns_node has_node push_last
  ns_key-push_last k nil e = rw e refl
  ns_key-push_last k (cons n nodes) e = rw (ns_key-push_last k nodes e) refl

  mutual
    unfolding ns_node push_in

    ns_node-push_in :
        (cur k : Text) (n : TreeNode)
        → text_eq p k ≡ false
        → ns_node k (push_in cur new_node n) ≡ ns_node k n
    ns_node-push_in cur k (node key label ns children) e = elim (Bool-cases (text_eq key cur)) [
      | inl f ↦ rw (f, ns_key-push_last k children e) refl
      | inr f ↦ rw (f, ns_key-push_under cur k children e) refl
    ]

    pub ns_key-push_under :
        (cur k : Text) (nodes : TreeNodes)
        → text_eq p k ≡ false
        → ns_key k (push_under cur new_node nodes) ≡ ns_key k nodes
    ns_key-push_under cur k nil e = refl
    ns_key-push_under cur k (cons n nodes) e =
        let same : has_node k (push_in cur new_node n) ≡ has_node k n =
          ground (arith, e, has_node-push_in cur k n) in
        rw (same, ns_node-push_in cur k n e, ns_key-push_under cur k nodes e) refl

  -- Under a key that was not there, the new one or another, stands nothing.
  pub new_last :
      (k : Text) (nodes : TreeNodes)
      → has_key k nodes ≡ false
      → ns_key k (push_last new_node nodes) ≡ none
  unfolding ns_node has_node push_last
  new_last k nil h = elim (Bool-cases (text_eq p k)) [ inl e ↦ rw e refl | inr e ↦ rw e refl ]
  new_last k (cons n nodes) h =
      let out : has_node k n ≡ false = ground (arith, h) in
      rw out (new_last k nodes (ground (arith, h)))

  mutual
    unfolding ns_node has_node push_in

    new_in :
        (cur k : Text) (n : TreeNode)
        → has_node k n ≡ false
        → ns_node k (push_in cur new_node n) ≡ none
    new_in cur k (node key label ns children) h =
        let other : text_eq key k ≡ false = ground (arith, h) in
        elim (Bool-cases (text_eq key cur)) [
          | inl f ↦ rw (f, other) (new_last k children (ground (arith, h)))
          | inr f ↦ rw (f, other) (new_under cur k children (ground (arith, h)))
        ]

    pub new_under :
        (cur k : Text) (nodes : TreeNodes)
        → has_key k nodes ≡ false
        → ns_key k (push_under cur new_node nodes) ≡ none
    new_under cur k nil h = refl
    new_under cur k (cons n nodes) h = elim (Bool-cases (has_node k (push_in cur new_node n))) [
      | inl e ↦ rw e (new_in cur k n (ground (arith, h)))
      | inr e ↦ rw e (new_under cur k nodes (ground (arith, h)))
    ]

mutual
  unfolding has_node set_node

  has_node-set_node :
      (q k : Text) (item : NamespaceView) (n : TreeNode)
      → has_node k (set_node q item n) ≡ has_node k n
  has_node-set_node q k item (node key label ns children) = elim (Bool-cases (text_eq key q)) [
    | inl e ↦ rw e refl
    | inr e ↦ rw (e, has_key-set_ns q k item children) refl
  ]

  pub has_key-set_ns :
      (q k : Text) (item : NamespaceView) (nodes : TreeNodes)
      → has_key k (set_ns q item nodes) ≡ has_key k nodes
  has_key-set_ns q k item nil = refl
  has_key-set_ns q k item (cons n nodes) = elim (Bool-cases (has_node q n)) [
    | inl e ↦ rw (e, has_node-set_node q k item n) refl
    | inr e ↦ rw (e, has_key-set_ns q k item nodes) refl
  ]

-- The key that is set.
mutual
  unfolding has_node set_node ns_node

  ns_node-set_node :
      (q : Text) (item : NamespaceView) (n : TreeNode)
      → has_node q n ≡ true
      → ns_node q (set_node q item n) ≡ some item
  ns_node-set_node q item (node key label ns children) h = elim (Bool-cases (text_eq key q)) [
    | inl e ↦ rw (e, e) refl
    | inr e ↦ rw (e, e) (ns_key-set_ns q item children (ground (arith, h, e)))
  ]

  pub ns_key-set_ns :
      (q : Text) (item : NamespaceView) (nodes : TreeNodes)
      → has_key q nodes ≡ true
      → ns_key q (set_ns q item nodes) ≡ some item
  ns_key-set_ns q item nil h = cc h
  ns_key-set_ns q item (cons n nodes) h = elim (Bool-cases (has_node q n)) [
    | inl e ↦ rw (e, has_node-set_node q q item n, e) (ns_node-set_node q item n e)
    | inr e ↦ rw (e, e) (ns_key-set_ns q item nodes (ground (arith, h, e)))
  ]

-- Any other key.
mutual
  unfolding has_node set_node ns_node

  ns_node-set_other :
      (q k : Text) (item : NamespaceView) (n : TreeNode)
      → text_eq q k ≡ false
      → ns_node k (set_node q item n) ≡ ns_node k n
  ns_node-set_other q k item (node key label ns children) o = elim (Bool-cases (text_eq key q)) [
    | inl e ↦
        let other : text_eq key k ≡ false = ap (λ t. text_eq t k) ((text_eq_iff key q).0 e) ∙ o in
        rw (e, other) refl
    | inr e ↦ rw (e, ns_key-set_other q k item children o) refl
  ]

  pub ns_key-set_other :
      (q k : Text) (item : NamespaceView) (nodes : TreeNodes)
      → text_eq q k ≡ false
      → ns_key k (set_ns q item nodes) ≡ ns_key k nodes
  ns_key-set_other q k item nil o = refl
  ns_key-set_other q k item (cons n nodes) o = elim (Bool-cases (has_node q n)) [
    | inl e ↦ rw (e, has_node-set_node q k item n, ns_node-set_other q k item n o) refl
    | inr e ↦ rw (e, ns_key-set_other q k item nodes o) refl
  ]
