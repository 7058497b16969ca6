-- ===== src/Cluster/Page/Tests.antt =====
-- The cluster screen on a short run: a poll, a selection, a removal and the poll after it.
use tuck.Base.{◌≡◌, refl, Text, List, [], ◌∷◌, codes, Bool, true, not, none, some, text_eq, map}
use tuck.Cluster.{ClusterServer, ClusterStatus}
use tuck.Cluster.Page.{LogEntry}
use tuck.Cluster.Page.Steps.{Action, polls, opens, toggles, toggles_all, first_page, run}
use tuck.Cluster.Page.Log.{IsNumbered, first_page-IsNumbered}
use tuck.Cluster.Page.Selection.{PointsIn, first_page-PointsIn}

abbrev voter : Text → ClusterServer (Unit {0})
voter id = record { address = codes "h:1"; id = id; metrics = none; suffrage = codes "Voter" }

abbrev answer : List (ClusterServer (Unit {0})) → ClusterStatus (Unit {0})
answer servers = record {
  is_leader = true;
  leader = codes "a";
  servers = servers;
  state = codes "Leader";
  term = some 4;
}

abbrev not_c : Text → Bool
not_c id = not (text_eq id (codes "c"))

abbrev todo : List (Action (Unit {0}))
todo =
    polls 1 (answer (voter (codes "a") ∷ voter (codes "b") ∷ voter (codes "c") ∷ []))
    ∷ toggles_all
    ∷ toggles (codes "a")
    ∷ opens (codes "b")
    ∷ polls 2 (answer (voter (codes "a") ∷ voter (codes "c") ∷ []))
    ∷ []

page_tests :
    ((run todo first_page).selected ≡ codes "c" ∷ [])
    × ((run todo first_page).open_id ≡ none)
    × (map (λ (x : LogEntry). x.id) (run todo first_page).log ≡ 1 ∷ 2 ∷ [])
unfolding run text_eq
page_tests = (refl, refl, refl)

first_page-IsNumbered_example : IsNumbered (run todo first_page).log (run todo first_page).last_id
first_page-IsNumbered_example = first_page-IsNumbered todo

first_page-PointsIn_example : PointsIn (run todo first_page)
first_page-PointsIn_example = first_page-PointsIn todo
