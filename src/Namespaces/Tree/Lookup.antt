-- ===== src/Namespaces/Tree/Lookup.antt =====
-- Which namespace the tree of web/src/pages/dashboard/namespaces/namespaces.page.tsx holds under which
-- path.
use tuck.Base.{
  ◌≡◌, refl, sym, ap, ◌∙◌, subst, Text, List, [], ◌∷◌, codes, Bool, true, false, not, Option, none,
  some, is_empty, text_eq, text_eq_iff, text_eq_refl, starts_with, if◌then◌else◌, Bool-cases, inl,
  inr, arith,
}
use tuck.Namespaces.{NamespaceView}
use tuck.Namespaces.Tree.{
  TreeNodes, node, nil, has_key, push_node, set_ns, next_path, ensure, mark, place,
}
use tuck.Namespaces.Tree.Forest.{
  ns_key, ns_key-absent, has_key-push_last, has_key-push_under, ns_key-push_last, ns_key-push_under,
  new_last, new_under, has_key-set_ns, ns_key-set_ns, ns_key-set_other,
}

-- The node whose children are the siblings is there.
unfoldable pub present : Option Text → TreeNodes → Bool
present none roots = true
present (some k) roots = has_key k roots

push_node-has :
    (cur : Option Text) (p s : Text) (roots : TreeNodes)
    → present cur roots ≡ true
    → has_key p (push_node cur (node p s none nil) roots) ≡ true
unfolding present push_node
push_node-has none p s roots h = ground (arith, has_key-push_last p s p roots, text_eq_refl p)
push_node-has (some k) p s roots h =
    ground (arith, h, has_key-push_under p s k p roots, text_eq_refl p)

push_node-ns :
    (cur : Option Text) (p s k : Text) (roots : TreeNodes)
    → has_key p roots ≡ false
    → ns_key k (push_node cur (node p s none nil) roots) ≡ ns_key k roots
unfolding push_node
push_node-ns none p s k roots h = elim (Bool-cases (text_eq p k)) [
  | inl e ↦
      let absent : has_key k roots ≡ false =
        subst (λ t. has_key t roots ≡ false) ((text_eq_iff p k).0 e) h in
      new_last p s k roots absent ∙ sym (ns_key-absent k roots absent)
  | inr e ↦ ns_key-push_last p s k roots e
]
push_node-ns (some cur) p s k roots h = elim (Bool-cases (text_eq p k)) [
  | inl e ↦
      let absent : has_key k roots ≡ false =
        subst (λ t. has_key t roots ≡ false) ((text_eq_iff p k).0 e) h in
      new_under p s cur k roots absent ∙ sym (ns_key-absent k roots absent)
  | inr e ↦ ns_key-push_under p s cur k roots e
]

pub ensure-has :
    (cur : Option Text) (p s : Text) (roots : TreeNodes)
    → present cur roots ≡ true
    → has_key p (ensure cur p s roots) ≡ true
unfolding ensure
ensure-has cur p s roots h = elim (Bool-cases (has_key p roots)) [
  | inl e ↦ rw (e, e) refl
  | inr e ↦ rw e (push_node-has cur p s roots h)
]

pub ensure-ns :
    (cur : Option Text) (p s k : Text) (roots : TreeNodes)
    → ns_key k (ensure cur p s roots) ≡ ns_key k roots
unfolding ensure
ensure-ns cur p s k roots = elim (Bool-cases (has_key p roots)) [
  | inl e ↦ rw e refl
  | inr e ↦ rw e (push_node-ns cur p s k roots e)
]

mark-has :
    (last : Bool) (p : Text) (item : NamespaceView) (roots : TreeNodes)
    → has_key p (mark last p item roots) ≡ has_key p roots
unfolding mark
mark-has true p item roots = has_key-set_ns p p item roots
mark-has false p item roots = refl

set_ns-ns :
    (p k : Text) (item : NamespaceView) (roots : TreeNodes)
    → has_key p roots ≡ true
    → ns_key k (set_ns p item roots) ≡ (if text_eq p k then some item else ns_key k roots)
set_ns-ns p k item roots h = elim (Bool-cases (text_eq p k)) [
  | inl e ↦ rw e (
      subst (λ t. ns_key t (set_ns p item roots) ≡ some item) ((text_eq_iff p k).0 e)
        (ns_key-set_ns p item roots h))
  | inr e ↦ rw e (ns_key-set_other p k item roots e)
]

-- The path of some segments, from a path on.
unfoldable pub path_of : Text → List Text → Text
unfolding next_path
path_of path [] = path
path_of path (seg ∷ segs) = path_of (next_path path seg) segs

-- One turn of the loop: the forest in which the rest of the segments is placed.
unfoldable pub turned : NamespaceView → Option Text → Text → Text → Bool → TreeNodes → TreeNodes
turned item cur p seg last roots = mark last p item (ensure cur p seg roots)

pub place-turned :
    (item : NamespaceView) (cur : Option Text) (path seg : Text) (segs : List Text)
    (roots : TreeNodes)
    → place item cur path (seg ∷ segs) roots
      ≡ place item
          (some (next_path path seg))
          (next_path path seg)
          segs
          (turned item cur (next_path path seg) seg (is_empty segs) roots)
unfolding place turned
place-turned item cur path seg segs roots = refl

pub place-end :
    (item : NamespaceView) (cur : Option Text) (path : Text) (roots : TreeNodes)
    → place item cur path [] roots ≡ roots
unfolding place
place-end item cur path roots = refl

pub turned-present :
    (item : NamespaceView) (cur : Option Text) (p seg : Text) (last : Bool) (roots : TreeNodes)
    → present cur roots ≡ true
    → present (some p) (turned item cur p seg last roots) ≡ true
unfolding turned present
turned-present item cur p seg last roots h =
    mark-has last p item (ensure cur p seg roots) ∙ ensure-has cur p seg roots h

turned-last :
    (item : NamespaceView) (cur : Option Text) (p seg k : Text) (roots : TreeNodes)
    → present cur roots ≡ true
    → ns_key k (turned item cur p seg true roots)
      ≡ (if text_eq p k then some item else ns_key k roots)
unfolding turned mark
turned-last item cur p seg k roots h =
    set_ns-ns p k item (ensure cur p seg roots) (ensure-has cur p seg roots h)
    ∙ ap (λ o. if text_eq p k then some item else o) (ensure-ns cur p seg k roots)

pub turned-more :
    (item : NamespaceView) (cur : Option Text) (p seg k : Text) (roots : TreeNodes)
    → ns_key k (turned item cur p seg false roots) ≡ ns_key k roots
unfolding turned mark
turned-more item cur p seg k roots = ensure-ns cur p seg k roots

pub path_of-end : (path seg : Text) → path_of path (seg ∷ []) ≡ next_path path seg
unfolding path_of
path_of-end path seg = refl

pub path_of-more :
    (path seg : Text) (segs : List Text)
    → path_of path (seg ∷ segs) ≡ path_of (next_path path seg) segs
unfolding path_of
path_of-more path seg segs = refl

-- A name that is placed is found under the path of its segments, and every other path as before.
pub place-ns :
    (item : NamespaceView) (cur : Option Text) (path seg : Text) (segs : List Text) (k : Text)
    (roots : TreeNodes)
    → present cur roots ≡ true
    → ns_key k (place item cur path (seg ∷ segs) roots)
      ≡ (if text_eq (path_of path (seg ∷ segs)) k then some item else ns_key k roots)
place-ns item cur path seg [] k roots h =
    ap (ns_key k) (place-turned item cur path seg [] roots ∙ place-end item _ _ _)
    ∙ turned-last item cur (next_path path seg) seg k roots h
    ∙ ap (λ p. if text_eq p k then some item else ns_key k roots) (sym (path_of-end path seg))
place-ns item cur path seg (t ∷ ts) k roots h =
    let p = next_path path seg in
    ap (ns_key k) (place-turned item cur path seg (t ∷ ts) roots)
    ∙ place-ns item (some p) p t ts k (turned item cur p seg false roots)
        (turned-present item cur p seg false roots h)
    ∙ ap (λ o. if text_eq (path_of p (t ∷ ts)) k then some item else o)
        (turned-more item cur p seg k roots)
    ∙ ap (λ q. if text_eq q k then some item else ns_key k roots)
        (sym (path_of-more path seg (t ∷ ts)))

-- A name that does not begin with a slash; the server has no other.
unfoldable pub is_rooted : Text → Bool
unfolding starts_with
is_rooted name = not (starts_with (codes "/") name)
