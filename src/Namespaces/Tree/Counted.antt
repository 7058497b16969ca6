-- ===== src/Namespaces/Tree/Counted.antt =====
-- How many rows of web/src/pages/dashboard/namespaces/namespaces.page.tsx show a namespace that passes a
-- test: what the forest weighs, or less where groups are closed.
use tuck.Base.{
  ℕ, suc, ◌+◌, ◌≡◌, ◌≤◌, Text, List, [], ◌∷◌, ◌++◌, Bool, true, false, not, ◌&&◌, Option, none,
  some, includes, if◌then◌else◌, arith, Bool-cases, inl, inr, refl,
}
use tuck.Namespaces.{NamespaceView}
use tuck.Namespaces.Tree.{
  TreeNode, TreeNodes, node, nil, cons, count_real, Row, namespace_row, group_row, row_of,
  has_children, node_rows, tree_rows,
}
use tuck.Namespaces.Tree.Weight.{weigh, weigh_node}

-- How many of some rows show a namespace that passes a test.
unfoldable pub shown : (NamespaceView → Bool) → List Row → ℕ
shown p [] = 0
shown p (namespace_row v label depth chev ∷ rows) =
    let rest = shown p rows in if p v then suc rest else rest
shown p (group_row label depth count chev ∷ rows) = shown p rows

-- One for a namespace that passes a test.
abbrev pub one_that : (NamespaceView → Bool) → Option NamespaceView → ℕ
one_that p none = 0
one_that p (some v) = if p v then 1 else 0

module _ (p : NamespaceView → Bool) where
  shown-append : (xs ys : List Row) → shown p (xs ++ ys) ≡ shown p xs + shown p ys
  unfolding shown
  shown-append [] ys = omega arith
  shown-append (namespace_row v label depth chev ∷ xs) ys = elim (Bool-cases (p v)) [
    | inl e ↦ rw e (omega (arith, shown-append xs ys))
    | inr e ↦ rw e (omega (arith, shown-append xs ys))
  ]
  shown-append (group_row label depth count chev ∷ xs) ys = omega (arith, shown-append xs ys)

  shown-row_of :
      (o : Option NamespaceView) (label : Text) (depth : ℕ) (chev : Option Bool) (count : ℕ)
      (rows : List Row)
      → shown p (row_of o label depth chev count ∷ rows) ≡ one_that p o + shown p rows
  unfolding shown row_of
  shown-row_of none label depth chev count rows = omega arith
  shown-row_of (some v) label depth chev count rows = elim (Bool-cases (p v)) [
    | inl e ↦ rw e (omega arith)
    | inr e ↦ rw e (omega arith)
  ]

  -- The rows below a node, if it has children and is not closed.
  below-rows : (b : Bool) (rows : List Row) → shown p (if b then rows else []) ≤ shown p rows
  unfolding shown
  below-rows true rows = omega arith
  below-rows false rows = omega arith

  mutual
    unfolding node_rows weigh_node shown

    node_rows-le :
        (collapsed : List Text) (depth : ℕ) (n : TreeNode)
        → shown p (node_rows collapsed depth n) ≤ weigh_node (one_that p) n
    node_rows-le collapsed depth (node key label ns children) =
        let below = tree_rows collapsed (suc depth) children in
        let open_group = has_children children && not (includes collapsed key) in
        omega (
          arith,
          shown-row_of ns label depth
              (if has_children children then some (includes collapsed key) else none)
              (count_real (node key label ns children)) (if open_group then below else []),
          below-rows open_group below,
          tree_rows-le collapsed (suc depth) children,
        )

    pub tree_rows-le :
        (collapsed : List Text) (depth : ℕ) (nodes : TreeNodes)
        → shown p (tree_rows collapsed depth nodes) ≤ weigh (one_that p) nodes
    tree_rows-le collapsed depth nil = omega arith
    tree_rows-le collapsed depth (cons n nodes) = omega (
      arith,
      shown-append (node_rows collapsed depth n) (tree_rows collapsed depth nodes),
      node_rows-le collapsed depth n,
      tree_rows-le collapsed depth nodes,
    )

  mutual
    unfolding node_rows weigh_node has_children shown

    node_rows-all :
        (depth : ℕ) (n : TreeNode) → shown p (node_rows [] depth n) ≡ weigh_node (one_that p) n
    node_rows-all depth (node key label ns nil) =
        shown-row_of ns label depth none (count_real (node key label ns nil)) []
    node_rows-all depth (node key label ns (cons n nodes)) = omega (
      arith,
      shown-row_of ns label depth (some false) (count_real (node key label ns (cons n nodes)))
          (node_rows [] (suc depth) n ++ tree_rows [] (suc depth) nodes),
      shown-append (node_rows [] (suc depth) n) (tree_rows [] (suc depth) nodes),
      node_rows-all (suc depth) n,
      tree_rows-all (suc depth) nodes,
    )

    pub tree_rows-all :
        (depth : ℕ) (nodes : TreeNodes)
        → shown p (tree_rows [] depth nodes) ≡ weigh (one_that p) nodes
    tree_rows-all depth nil = refl
    tree_rows-all depth (cons n nodes) = omega (
      arith,
      shown-append (node_rows [] depth n) (tree_rows [] depth nodes),
      node_rows-all depth n,
      tree_rows-all depth nodes,
    )
