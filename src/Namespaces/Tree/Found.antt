-- ===== src/Namespaces/Tree/Found.antt =====
-- The path under which web/src/pages/dashboard/namespaces/namespaces.page.tsx puts a whole name, and
-- what the tree of a list holds under it.
use tuck.Base.{
  ℕ, ◌≡◌, refl, ap, ◌∙◌, Text, List, [], ◌∷◌, ◌++◌, codes, true, false, Option, none, some,
  is_empty, text_eq, split_on, push_head, join, All, ◌==◌, if◌then◌else◌, arith,
}
use tuck.Namespaces.Tree.Pieces.{join-split_on, split_on-given}
use tuck.Namespaces.{NamespaceView}
use tuck.Namespaces.Tree.{TreeNodes, nil, next_path, place, grow}
use tuck.Namespaces.Tree.Forest.{ns_key}
use tuck.Namespaces.Tree.Lookup.{path_of, place-ns, present, is_rooted}

join-merge :
    (a w : Text) (ws : List Text)
    → join (codes "/") ((a ++ w) ∷ ws) ≡ a ++ join (codes "/") (w ∷ ws)
unfolding join
join-merge a w [] = refl
join-merge [] w (v ∷ ws) = refl
join-merge (c ∷ a) w (v ∷ ws) = ap (λ t. c ∷ t) (join-merge a w (v ∷ ws))

-- From a path that is not empty on, the segments are joined.
path_of-join :
    (c : ℕ) (p : Text) (segs : List Text) → path_of (c ∷ p) segs ≡ join (codes "/") ((c ∷ p) ∷ segs)
unfolding path_of next_path join
path_of-join c p [] = refl
path_of-join c p (seg ∷ segs) =
    path_of-join c (p ++ (codes "/" ++ seg)) segs
    ∙ join-merge (c ∷ p) (codes "/" ++ seg) segs
    ∙ ap (λ t. (c ∷ p) ++ t) (join-merge (codes "/") seg segs)

path_of-push_head :
    (d : ℕ) (ws : List Text) → path_of [] (push_head d ws) ≡ join (codes "/") (push_head d ws)
unfolding path_of next_path push_head
path_of-push_head d [] = path_of-join d [] []
path_of-push_head d (w ∷ ws) = path_of-join d w ws

-- The path of all segments of a name is the name.
pub path_of-split_on :
    (name : Text) → is_rooted name ≡ true → path_of [] (split_on b'/' name) ≡ name
unfolding path_of next_path split_on is_rooted
path_of-split_on [] h = refl
path_of-split_on (d ∷ s) h =
    let other : (d == b'/') ≡ false = ground (arith, h) in
    rw other (path_of-push_head d (split_on b'/' s)) ∙ given d s other ∙ join-split_on (d ∷ s)
  where
    given :
        (d : ℕ) (s : Text)
        → (d == b'/') ≡ false
        → join (codes "/") (push_head d (split_on b'/' s))
          ≡ join (codes "/") (split_on b'/' (d ∷ s))
    given d s e = rw e refl

place-segments :
    (item : NamespaceView) (segs : List Text) (k : Text) (roots : TreeNodes)
    → is_empty segs ≡ false
    → ns_key k (place item none [] segs roots)
      ≡ (if text_eq (path_of [] segs) k then some item else ns_key k roots)
unfolding present
place-segments item [] k roots h = cc h
place-segments item (s ∷ segs) k roots h = place-ns item none [] s segs k roots refl

-- A name that is placed is found under itself, and every other path as before.
pub place-name :
    (item : NamespaceView) (k : Text) (roots : TreeNodes)
    → is_rooted item.name ≡ true
    → ns_key k (place item none [] (split_on b'/' item.name) roots)
      ≡ (if text_eq item.name k then some item else ns_key k roots)
place-name item k roots h =
    place-segments item (split_on b'/' item.name) k roots (split_on-given item.name)
    ∙ ap (λ p. if text_eq p k then some item else ns_key k roots) (path_of-split_on item.name h)

-- The last of a list that has the name, or the one before.
unfoldable pub latest : Text → Option NamespaceView → List NamespaceView → Option NamespaceView
latest name before [] = before
latest name before (v ∷ items) = latest name (if text_eq v.name name then some v else before) items

-- No name begins with a slash.
abbrev pub Rooted : List NamespaceView → Type 0
Rooted = All (λ v. is_rooted v.name ≡ true)

ns_key-from :
    (name : Text) (items : List NamespaceView) (roots : TreeNodes)
    → Rooted items
    → ns_key name (grow roots items) ≡ latest name (ns_key name roots) items
unfolding grow latest
ns_key-from name [] roots h = refl
ns_key-from name (v ∷ items) roots h =
    ns_key-from name items (place v none [] (split_on b'/' v.name) roots) h.1
    ∙ ap (λ o. latest name o items) (place-name v name roots h.0)

-- While no name begins with a slash, the tree of a list holds under every path the last namespace of
-- the list with that name, and none if the list has none: a group that only stands above names has
-- no namespace, and no name takes the place of another.
pub ns_key-grow :
    (name : Text) (items : List NamespaceView)
    → Rooted items
    → ns_key name (grow nil items) ≡ latest name none items
unfolding ns_key
ns_key-grow name items h = ns_key-from name items nil h
