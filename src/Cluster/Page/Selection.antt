-- ===== src/Cluster/Page/Selection.antt =====
-- The selection and the drawer of the cluster screen name nodes of the cluster.
use tuck.Base.{
  ◌≡◌, refl, Text, List, [], ◌∷◌, Bool, true, false, not, Option, none, subst, some, keep, All,
  is_empty, text_eq, if◌then◌else◌, Bool-cases, inl, inr,
}
use tuck.Cluster.{ClusterStatus, NodeVm}
use tuck.Cluster.Page.{
  PageState, poll, prune, log_events, add_notes, start_step_down, step_down_fails, step_down_ends,
  toggle_sel, toggle_all, confirm_remove, rows_of, has_id, ids_of, nodes_of, keep_open, delete_id,
  add_id, remove_loop, all_checked, elect,
}
use tuck.Cluster.Page.Steps.{
  Action, polls, filters, opens, closes, toggles, toggles_all, removes, steps_down, fails, ends,
  times_out, first_page, act, run,
}
use tuck.Cluster.Page.Ids.{
  All-keep, All-kept, All-add_id, All-toggle_rows, All-has_id, All-either, has_id_self,
}

module _ {Metrics : Type 0} where
  ids_of-keep :
      (P : Text → Type 0) (f : NodeVm Metrics → Bool) (nodes : List (NodeVm Metrics))
      → All P (ids_of nodes)
      → All P (ids_of (keep f nodes))
  ids_of-keep P f [] h = h
  ids_of-keep P f (n ∷ nodes) h = elim (Bool-cases (f n)) [
    | inl e ↦ rw e (h.0, ids_of-keep P f nodes h.1)
    | inr e ↦ rw e (ids_of-keep P f nodes h.1)
  ]

  -- The id is one of a node of the last answer.
  abbrev pub InCluster : Option (ClusterStatus Metrics) → Text → Type 0
  InCluster status id = has_id (ids_of (nodes_of status)) id ≡ true

  abbrev pub OpenIn : Option (ClusterStatus Metrics) → Option Text → Type 0
  OpenIn status none = Unit
  OpenIn status (some id) = InCluster status id

  -- What is selected and what is open are nodes of the cluster.
  abbrev pub PointsIn : PageState Metrics → Type 0
  PointsIn p = All (InCluster p.status) p.selected × OpenIn p.status p.open_id

  InCluster-rows : (p : PageState Metrics) → All (InCluster p.status) (rows_of p)
  unfolding rows_of
  InCluster-rows p =
      ids_of-keep (InCluster p.status) _ (nodes_of p.status)
        (has_id_self (ids_of (nodes_of p.status)))

  OpenIn-keep_open :
      (status : Option (ClusterStatus Metrics)) (f : Text → Bool) (o : Option Text)
      → ((id : Text) → o ≡ some id → f id ≡ true → InCluster status id)
      → OpenIn status (keep_open f o)
  unfolding keep_open
  OpenIn-keep_open status f none h = tt
  OpenIn-keep_open status f (some id) h = elim (Bool-cases (f id)) [
    | inl e ↦ rw e (h id refl e)
    | inr e ↦ rw e tt
  ]

  prune-PointsIn : (p : PageState Metrics) → PointsIn (prune p)
  unfolding prune
  prune-PointsIn p = (
    All-kept (has_id (ids_of (nodes_of p.status))) p.selected,
    OpenIn-keep_open p.status (has_id (ids_of (nodes_of p.status))) p.open_id (λ id same e. e),
  )

  -- Going on with one of two pages.
  either-PointsIn :
      (b : Bool) (p q : PageState Metrics)
      → (b ≡ true → PointsIn p)
      → (b ≡ false → PointsIn q)
      → PointsIn (if b then p else q)
  either-PointsIn true p q h k = h refl
  either-PointsIn false p q h k = k refl

  toggle_sel-PointsIn :
      (id : Text) (p : PageState Metrics)
      → InCluster p.status id
      → PointsIn p
      → PointsIn (toggle_sel id p)
  unfolding toggle_sel
  toggle_sel-PointsIn id p i h = (
    All-either (InCluster p.status) (has_id p.selected id) (delete_id id p.selected)
        (add_id id p.selected)
        (All-keep (InCluster p.status) (λ i. not (text_eq i id)) p.selected h.0)
        (All-add_id (InCluster p.status) id p.selected i h.0),
    h.1,
  )

  confirm-PointsIn :
      (ok : Text → Bool) (ids : List Text) (p : PageState Metrics)
      → PointsIn p
      → PointsIn (confirm_remove ok ids p)
  unfolding confirm_remove
  confirm-PointsIn ok ids p h =
      either-PointsIn (is_empty (remove_loop ok ids).0) p _ (λ e. h)
        (λ e. (
          tt,
          OpenIn-keep_open p.status _ p.open_id (λ id same f. subst (OpenIn p.status) same h.1),
        ))

  act-PointsIn : (a : Action Metrics) (p : PageState Metrics) → PointsIn p → PointsIn (act a p)
  unfolding act poll toggle_all start_step_down step_down_fails step_down_ends add_notes
  act-PointsIn (polls ts status) p h = prune-PointsIn (record (log_events ts status p) {
    transition = elect status (log_events ts status p).transition;
  })
  act-PointsIn (filters f) p h = h
  act-PointsIn (opens id) p h =
      either-PointsIn (has_id (rows_of p) id) (record p { open_id = some id }) p
        (λ e. (h.0, All-has_id (InCluster p.status) (rows_of p) id (InCluster-rows p) e)) (λ e. h)
  act-PointsIn closes p h = (h.0, tt)
  act-PointsIn (toggles id) p h =
      either-PointsIn (has_id (rows_of p) id) (toggle_sel id p) p
        (λ e.
          toggle_sel-PointsIn id p
            (All-has_id (InCluster p.status) (rows_of p) id (InCluster-rows p) e) h)
        (λ e. h)
  act-PointsIn toggles_all p h = (
    All-toggle_rows (InCluster p.status) (all_checked p) (rows_of p) p.selected (InCluster-rows p)
        h.0,
    h.1,
  )
  act-PointsIn (removes ok ids) p h = confirm-PointsIn ok ids p h
  act-PointsIn (steps_down ts auto target) p h = h
  act-PointsIn (fails ts reason) p h = h
  act-PointsIn (ends ts from) p h = h
  act-PointsIn times_out p h = h

  run-PointsIn :
      (todo : List (Action Metrics)) (p : PageState Metrics) → PointsIn p → PointsIn (run todo p)
  unfolding run
  run-PointsIn [] p h = h
  run-PointsIn (a ∷ todo) p h = run-PointsIn todo (act a p) (act-PointsIn a p h)

  -- After any answers and actions, every selected node and the one that the drawer shows are nodes
  -- of the last answer.
  pub first_page-PointsIn : (todo : List (Action Metrics)) → PointsIn (run todo first_page)
  first_page-PointsIn todo = run-PointsIn todo first_page (tt, tt)
