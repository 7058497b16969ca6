-- ===== src/Cluster/Tests.antt =====
-- The cluster's model, events and series on concrete polls.
use tuck.Base.{
  Bool, ℕ, Text, List, [], ◌∷◌, ◌≤◌, codes, ◌≡◌, ◌↔◌, refl, true, some, none, arith, text_eq,
}
use tuck.Cluster.{ClusterServer, ClusterStatus, build_model, simulate_loss, ok, nofault}
use tuck.Cluster.Quorum.{lost_voters, has_quorum_iff, ok-survives_one}
use tuck.Cluster.Events.{diff_status, leader_changed, node_left}
use tuck.Cluster.Events.Silence.{IsQuiet, diff_status-nil_iff}
use tuck.Cluster.Series.{ClusterSample}

abbrev server : Text → Text → ClusterServer (Unit {0})
server id suffrage = record { address = codes "h:1"; id = id; metrics = none; suffrage = suffrage }

abbrev three : List (ClusterServer (Unit {0}))
three =
    server (codes "a") (codes "Voter")
    ∷ server (codes "b") (codes "Voter")
    ∷ server (codes "c") (codes "Voter")
    ∷ server (codes "d") (codes "Nonvoter")
    ∷ []

abbrev answer : Text → List (ClusterServer (Unit {0})) → ClusterStatus (Unit {0})
answer lead servers = record {
  is_leader = true;
  leader = lead;
  servers = servers;
  state = codes "Leader";
  term = some 4;
}

abbrev is_b : Text → Bool
is_b id = text_eq id (codes "b")

model_tests :
    ((build_model (answer (codes "a") three)).health ≡ ok)
    × ((build_model (answer (codes "a") three)).quorum ≡ 2)
    × ((build_model (answer (codes "a") (server (codes "a") (codes "Voter") ∷ []))).health
        ≡ nofault)
    × ((simulate_loss (build_model (answer (codes "a") three)).nodes is_b).alive ≡ 2)
    × (diff_status (some (answer (codes "a") three)) (
          answer (codes "b") (
            server (codes "a") (codes "Voter")
            ∷ server (codes "b") (codes "Voter")
            ∷ server (codes "c") (codes "Voter")
            ∷ []))
        ≡ leader_changed (codes "a") (codes "b") ∷ node_left (codes "d") ∷ [])
unfolding build_model simulate_loss text_eq diff_status
model_tests = (refl, refl, refl, refl, refl)

has_quorum_iff_example :
    ((simulate_loss (build_model (answer (codes "a") three)).nodes is_b).has_quorum ≡ true) ↔ (
      lost_voters (build_model (answer (codes "a") three)).nodes is_b
      ≤ (build_model (answer (codes "a") three)).tolerated)
unfolding build_model text_eq
has_quorum_iff_example = has_quorum_iff (answer (codes "a") three) is_b (omega arith)

ok-survives_one_example :
    (simulate_loss (build_model (answer (codes "a") three)).nodes is_b).has_quorum ≡ true
unfolding build_model text_eq
ok-survives_one_example = ok-survives_one (answer (codes "a") three) is_b refl (omega arith)

diff_status-nil_iff_example :
    (diff_status (some (answer (codes "a") three)) (answer (codes "a") three) ≡ [])
    ↔ IsQuiet (answer (codes "a") three) (answer (codes "a") three)
diff_status-nil_iff_example =
    diff_status-nil_iff (answer (codes "a") three) (answer (codes "a") three)

abbrev sample : ℕ → ℕ → ClusterSample
sample at commits = record { commit_index = commits; is_leader = true; peers = none; t = at }
