-- ===== src/Namespaces/Tree.antt =====
-- The grouping of the namespaces by the segments of their names in
-- web/src/pages/dashboard/namespaces/namespaces.page.tsx: `buildTree`, `countReal` and
-- `renderTreeRows`. `byKey` finds a node by the path of its segments, wherever it stands; a path is
-- given once, so the first node with it is the node that the map holds.
pub mod Pieces
pub mod Forest
pub mod Lookup
pub mod Found
pub mod Weight
pub mod Counted
pub mod Rows
use tuck.Base.{
  ℕ, suc, ◌+◌, Text, List, [], ◌∷◌, ◌++◌, codes, Bool, true, false, not, ◌&&◌, ◌||◌, Option, none,
  some, is_empty, text_eq, split_on, includes, if◌then◌else◌,
}
use tuck.Namespaces.{NamespaceView}

-- A node: its key, its label, its namespace and its children.
mutual
  pub data TreeNode : Type 0 where
    node : Text → Text → Option NamespaceView → TreeNodes → TreeNode

  pub data TreeNodes : Type 0 where
    nil : TreeNodes
    cons : TreeNode → TreeNodes → TreeNodes

abbrev pub key_of : TreeNode → Text
key_of (node key label ns children) = key

abbrev pub label_of : TreeNode → Text
label_of (node key label ns children) = label

abbrev pub ns_of : TreeNode → Option NamespaceView
ns_of (node key label ns children) = ns

abbrev pub children_of : TreeNode → TreeNodes
children_of (node key label ns children) = children

-- The path of the next segment.
unfoldable pub next_path : Text → Text → Text
next_path path seg = if is_empty path then seg else path ++ (codes "/" ++ seg)

-- `byKey.has(key)`: the map holds the nodes of the whole forest.
unfoldable mutual
  unfolding text_eq

  pub has_node : Text → TreeNode → Bool
  has_node k (node key label ns children) = text_eq key k || has_key k children

  pub has_key : Text → TreeNodes → Bool
  has_key k nil = false
  has_key k (cons n nodes) = has_node k n || has_key k nodes

-- `siblings.push(node)`
unfoldable pub push_last : TreeNode → TreeNodes → TreeNodes
push_last new nil = cons new nil
push_last new (cons n nodes) = cons n (push_last new nodes)

-- `siblings.push(node)`, where `siblings` are the children of the node with the key.
unfoldable mutual
  unfolding text_eq push_last

  pub push_in : Text → TreeNode → TreeNode → TreeNode
  push_in k new (node key label ns children) =
      let below = push_under k new children in
      node key label ns (if text_eq key k then push_last new children else below)

  pub push_under : Text → TreeNode → TreeNodes → TreeNodes
  push_under k new nil = nil
  push_under k new (cons n nodes) = cons (push_in k new n) (push_under k new nodes)

-- `siblings.push(node)`, where `siblings` are the roots or the children of a node.
unfoldable pub push_node : Option Text → TreeNode → TreeNodes → TreeNodes
unfolding push_last push_in
push_node none new roots = push_last new roots
push_node (some k) new roots = push_under k new roots

-- `byKey.get(key).ns = item`
unfoldable mutual
  unfolding text_eq has_node

  pub set_node : Text → NamespaceView → TreeNode → TreeNode
  set_node k item (node key label ns children) =
      let below = set_ns k item children in
      if text_eq key k then node key label (some item) children else node key label ns below

  pub set_ns : Text → NamespaceView → TreeNodes → TreeNodes
  set_ns k item nil = nil
  set_ns k item (cons n nodes) =
      let there = set_ns k item nodes in
      if has_node k n then cons (set_node k item n) nodes else cons n there

-- The node of a path, pushed onto the siblings unless the map has it.
unfoldable pub ensure : Option Text → Text → Text → TreeNodes → TreeNodes
unfolding has_node push_node
ensure cur path seg roots =
    if has_key path roots then roots else push_node cur (node path seg none nil) roots

-- `if (i === segs.length - 1) node.ns = item`
unfoldable pub mark : Bool → Text → NamespaceView → TreeNodes → TreeNodes
unfolding set_node
mark last path item roots = if last then set_ns path item roots else roots

-- The loop over the segments of one name: `path` so far, and the node whose children are the
-- siblings, `none` for the roots.
unfoldable pub place : NamespaceView → Option Text → Text → List Text → TreeNodes → TreeNodes
unfolding next_path ensure mark
place item cur path [] roots = roots
place item cur path (seg ∷ segs) roots =
    place item (some (next_path path seg)) (next_path path seg) segs
      (mark (is_empty segs) (next_path path seg) item (ensure cur (next_path path seg) seg roots))

-- The loop over the namespaces.
unfoldable pub grow : TreeNodes → List NamespaceView → TreeNodes
unfolding place split_on
grow roots [] = roots
grow roots (item ∷ items) = grow (place item none [] (split_on b'/' item.name) roots) items

-- The stable sort by label; `le` stands for `localeCompare`.
unfoldable pub insert_node : (Text → Text → Bool) → TreeNode → TreeNodes → TreeNodes
insert_node le n nil = cons n nil
insert_node le n (cons m nodes) =
    let rest = insert_node le n nodes in
    if le (label_of n) (label_of m) then cons n (cons m nodes) else cons m rest

-- `sortRec`
unfoldable mutual
  unfolding insert_node

  pub sort_node : (Text → Text → Bool) → TreeNode → TreeNode
  sort_node le (node key label ns children) = node key label ns (sort_rec le children)

  pub sort_rec : (Text → Text → Bool) → TreeNodes → TreeNodes
  sort_rec le nil = nil
  sort_rec le (cons n nodes) = insert_node le (sort_node le n) (sort_rec le nodes)

unfoldable pub build_tree : (Text → Text → Bool) → List NamespaceView → TreeNodes
unfolding grow sort_node
build_tree le items = sort_rec le (grow nil items)

-- `node.ns ? 1 : 0`
abbrev pub one_if : Option NamespaceView → ℕ
one_if none = 0
one_if (some v) = 1

-- `countReal`, and its sum over some nodes.
unfoldable mutual
  pub count_real : TreeNode → ℕ
  count_real (node key label ns children) = one_if ns + count_all children

  pub count_all : TreeNodes → ℕ
  count_all nil = 0
  count_all (cons n nodes) = count_real n + count_all nodes

-- A row: a namespace at its depth, or the header of a group with its count; each with the button
-- that opens and closes it, which shows whether it is closed.
pub data Row : Type 0 where
  namespace_row : NamespaceView → Text → ℕ → Option Bool → Row
  group_row : Text → ℕ → ℕ → Option Bool → Row

unfoldable pub has_children : TreeNodes → Bool
has_children nil = false
has_children (cons n nodes) = true

unfoldable pub row_of : Option NamespaceView → Text → ℕ → Option Bool → ℕ → Row
row_of (some v) label depth chev count = namespace_row v label depth chev
row_of none label depth chev count = group_row label depth count chev

-- `renderTreeRows`, and the rows of one node.
unfoldable mutual
  unfolding has_children row_of count_real

  pub node_rows : List Text → ℕ → TreeNode → List Row
  node_rows collapsed depth (node key label ns children) =
      let closed = includes collapsed key in
      let parent = has_children children in
      let below = tree_rows collapsed (suc depth) children in
      let chev = if parent then some closed else none in
      row_of ns label depth chev (count_real (node key label ns children))
      ∷ (if parent && not closed then below else [])

  pub tree_rows : List Text → ℕ → TreeNodes → List Row
  tree_rows collapsed depth nil = []
  tree_rows collapsed depth (cons n nodes) =
      node_rows collapsed depth n ++ tree_rows collapsed depth nodes
