-- ===== src/Cluster/Page.antt =====
-- The state of web/src/pages/dashboard/cluster/cluster.page.tsx and its handlers: the log, the
-- selection, the drawer, the removal of nodes and the transfer of leadership. The effects that a
-- new status sets off are one step, `poll`. The order of the rows is not modelled.
pub mod Steps
pub mod Ids
pub mod Log
pub mod Removal
pub mod Selection
mod Tests
use tuck.Base.{
  ℕ, suc, ◌+◌, ◌-◌, Text, List, [], ◌∷◌, ◌++◌, codes, Bool, true, false, not, ◌&&◌, ◌||◌, Option,
  none, some, map, keep, length, drop, any, all, is_empty, text_eq, if◌then◌else◌,
}
use tuck.Cluster.{ClusterStatus, NodeVm, NodeRole, follower, leader, nonvoter, build_model}
use tuck.Cluster.Events.{Event, diff_status}

-- What a log entry says: an event of the polls, or a step of a transfer.
pub data Note : Type 0 where
  seen : Event → Note
  step_down_requested : Text → Text → Note
  step_down_failed : Text → Note
  step_down_done : Text → Note

pub record LogEntry : Type 0 where
  pub id : ℕ
  pub note : Note
  pub ts : ℕ

pub data Filter : Type 0 where
  all_nodes followers leaders : Filter

pub record Transition : Type 0 where
  pub from : Text
  pub new_leader : Option Text
  pub since : ℕ

-- `status` is the last answer, which `prevRef` holds too; `last_id` is `idRef`.
pub record PageState (Metrics : Type 0) : Type 0 where
  pub status : Option (ClusterStatus Metrics)
  pub open_id : Option Text
  pub selected : List Text
  pub filter : Filter
  pub log : List LogEntry
  pub last_id : ℕ
  pub transition : Option Transition
  pub step_open : Bool

-- `xs.slice(-200)`
unfoldable pub last_200 : List LogEntry → List LogEntry
last_200 log = drop (length log - 200) log

-- The entries of some events, numbered on from `last`.
unfoldable pub entries : ℕ → ℕ → List Note → List LogEntry
entries last ts [] = []
entries last ts (n ∷ notes) =
    record { id = suc last; note = n; ts = ts } ∷ entries (suc last) ts notes

-- `Set`s of ids are lists without doubles.
abbrev pub has_id : List Text → Text → Bool
has_id ids id = any (λ i. text_eq i id) ids

-- `next.delete(id)` and `next.add(id)`
abbrev pub delete_id : Text → List Text → List Text
delete_id id ids = keep (λ i. not (text_eq i id)) ids

abbrev pub add_id : Text → List Text → List Text
add_id id ids = if has_id ids id then ids else ids ++ id ∷ []

unfoldable pub shown : Filter → NodeRole → Bool
shown all_nodes role = true
shown followers leader = false
shown followers follower = true
shown followers nonvoter = true
shown leaders leader = true
shown leaders follower = false
shown leaders nonvoter = false

unfoldable pub keep_open : (Text → Bool) → Option Text → Option Text
keep_open stays none = none
keep_open stays (some id) = if stays id then some id else none

unfoldable pub toggle_rows : Bool → List Text → List Text → List Text
toggle_rows checked [] ids = ids
toggle_rows checked (r ∷ rows) ids =
    toggle_rows checked rows (if checked then delete_id r ids else add_id r ids)

-- The loop of `confirmRemove`: the ids that the server removed, and whether it went to the end.
unfoldable pub remove_loop : (Text → Bool) → List Text → List Text × Bool
remove_loop removes [] = ([], true)
remove_loop removes (id ∷ ids) = elim (removes id) [
  | true ↦ let r = remove_loop removes ids in (id ∷ r.0, r.1)
  | false ↦ ([], false)
]

module _ {Metrics : Type 0} where
  unfoldable pub nodes_of : Option (ClusterStatus Metrics) → List (NodeVm Metrics)
  unfolding build_model
  nodes_of none = []
  nodes_of (some status) = (build_model status).nodes

  abbrev pub ids_of : List (NodeVm Metrics) → List Text
  ids_of nodes = map (λ (n : NodeVm Metrics). n.id) nodes

  -- The ids of the rows of the table.
  unfoldable pub rows_of : PageState Metrics → List Text
  unfolding nodes_of shown
  rows_of p = ids_of (keep (λ (n : NodeVm Metrics). shown p.filter n.role) (nodes_of p.status))

  unfoldable pub add_notes : ℕ → List Note → PageState Metrics → PageState Metrics
  unfolding last_200 entries
  add_notes ts notes p = record p {
    log = last_200 (p.log ++ entries p.last_id ts notes);
    last_id = p.last_id + length notes;
  }

  -- `pushLog`
  abbrev pub push_log : ℕ → Note → PageState Metrics → PageState Metrics
  push_log ts n p = add_notes ts (n ∷ []) p

  -- The effect that compares the polls.
  unfoldable pub log_events : ℕ → ClusterStatus Metrics → PageState Metrics → PageState Metrics
  unfolding add_notes diff_status
  log_events ts status p =
      let events = diff_status p.status status in
      let next = record p { status = some status } in
      if is_empty events then next else add_notes ts (map seen events) next

  -- The effect that waits for the new leader.
  unfoldable pub elect : ClusterStatus Metrics → Option Transition → Option Transition
  elect status none = none
  elect status (some tr) = elim tr.new_leader [
    | some l ↦ some tr
    | none ↦
        if not (is_empty status.leader)
          && not (text_eq status.leader tr.from)
          && not (text_eq status.state (codes "Candidate"))
        then some (record tr { new_leader = some status.leader })
        else some tr
  ]

  -- The effect that drops what no longer exists.
  unfoldable pub prune : PageState Metrics → PageState Metrics
  unfolding nodes_of keep_open
  prune p = record p {
    selected = keep (has_id (ids_of (nodes_of p.status))) p.selected;
    open_id = keep_open (has_id (ids_of (nodes_of p.status))) p.open_id;
  }

  unfoldable pub poll : ℕ → ClusterStatus Metrics → PageState Metrics → PageState Metrics
  unfolding log_events elect prune
  poll ts status p =
      let p1 = log_events ts status p in
      prune (record p1 { transition = elect status p1.transition })

  unfoldable pub leader_of : Option (ClusterStatus Metrics) → Text
  leader_of none = []
  leader_of (some status) = status.leader

  -- `startStepDown`, to its request; `auto` is the text for a target that is left open.
  unfoldable pub start_step_down : ℕ → Text → Text → PageState Metrics → PageState Metrics
  unfolding add_notes leader_of
  start_step_down ts auto target p =
      let from = leader_of p.status in
      let started = some (record { from = from; new_leader = none; since = ts }) in
      push_log ts (step_down_requested from (if is_empty target then auto else target))
        (record p { step_open = false; transition = started })

  unfoldable pub step_down_fails : ℕ → Text → PageState Metrics → PageState Metrics
  unfolding add_notes
  step_down_fails ts reason p =
      push_log ts (step_down_failed reason) (record p { transition = none })

  unfoldable pub step_down_ends : ℕ → Text → PageState Metrics → PageState Metrics
  unfolding add_notes
  step_down_ends ts from p = push_log ts (step_down_done from) p

  -- `toggleSel`
  unfoldable pub toggle_sel : Text → PageState Metrics → PageState Metrics
  toggle_sel id p = record p {
    selected = if has_id p.selected id then delete_id id p.selected else add_id id p.selected;
  }

  unfoldable pub all_checked : PageState Metrics → Bool
  unfolding rows_of
  all_checked p = not (is_empty (rows_of p)) && all (has_id p.selected) (rows_of p)

  -- `toggleAll`
  unfoldable pub toggle_all : PageState Metrics → PageState Metrics
  unfolding all_checked toggle_rows
  toggle_all p = record p { selected = toggle_rows (all_checked p) (rows_of p) p.selected }

  unfoldable pub confirm_remove : (Text → Bool) → List Text → PageState Metrics → PageState Metrics
  unfolding remove_loop keep_open
  confirm_remove removes ids p =
      let done = (remove_loop removes ids).0 in
      if is_empty done
      then p
      else record p { selected = []; open_id = keep_open (λ o. not (has_id done o)) p.open_id }
