-- ===== src/Cluster/Page/Steps.antt =====
-- The cluster screen as a machine: answers, timers and the user's actions in any order. A row is
-- clicked only when the table shows it.
use tuck.Base.{ℕ, Text, List, [], ◌∷◌, Bool, false, none, some, if◌then◌else◌}
use tuck.Cluster.{ClusterStatus}
use tuck.Cluster.Page.{
  PageState, Filter, all_nodes, poll, start_step_down, step_down_fails, step_down_ends, toggle_sel,
  toggle_all, confirm_remove, rows_of, has_id,
}

pub data Action (Metrics : Type 0) : Type 0 where
  polls : ℕ → ClusterStatus Metrics → Action Metrics
  filters : Filter → Action Metrics
  opens : Text → Action Metrics
  closes : Action Metrics
  toggles : Text → Action Metrics
  toggles_all : Action Metrics
  removes : (Text → Bool) → List Text → Action Metrics
  steps_down : ℕ → Text → Text → Action Metrics
  fails : ℕ → Text → Action Metrics
  ends : ℕ → Text → Action Metrics
  times_out : Action Metrics

module _ {Metrics : Type 0} where
  abbrev pub first_page : PageState Metrics
  first_page = record {
    status = none;
    open_id = none;
    selected = [];
    filter = all_nodes;
    log = [];
    last_id = 0;
    transition = none;
    step_open = false;
  }

  unfoldable pub act : Action Metrics → PageState Metrics → PageState Metrics
  unfolding poll rows_of toggle_sel toggle_all confirm_remove start_step_down step_down_fails
      step_down_ends
  act (polls ts status) p = poll ts status p
  act (filters f) p = record p { filter = f }
  act (opens id) p = if has_id (rows_of p) id then record p { open_id = some id } else p
  act closes p = record p { open_id = none }
  act (toggles id) p = if has_id (rows_of p) id then toggle_sel id p else p
  act toggles_all p = toggle_all p
  act (removes ok ids) p = confirm_remove ok ids p
  act (steps_down ts auto target) p = start_step_down ts auto target p
  act (fails ts reason) p = step_down_fails ts reason p
  act (ends ts from) p = step_down_ends ts from p
  act times_out p = record p { transition = none }

  unfoldable pub run : List (Action Metrics) → PageState Metrics → PageState Metrics
  unfolding act
  run [] p = p
  run (a ∷ rest) p = run rest (act a p)
