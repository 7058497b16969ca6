-- ===== src/Cluster/Quorum.antt =====
-- The quorum arithmetic of web/src/pages/dashboard/cluster/lib.ts: what the health, the tolerated
-- losses and the loss calculator have to do with one another.
use tuck.Base.{
  ℕ, ◌+◌, ◌-◌, ◌/◌, ◌≤◌, ◌<◌, Text, List, [], ◌∷◌, ◌≡◌, ◌↔◌, refl, Bool, true, false, not, map,
  arith, keep, length,
}
use tuck.Cluster.{
  ClusterServer, ClusterStatus, NodeVm, votes, node_of, build_model, simulate_loss, ok,
}

keep-split {ℓ} :
    {A : Type ℓ} (p : A → Bool) (xs : List A)
    → length (keep p xs) + length (keep (λ x. not (p x)) xs) ≡ length xs
keep-split p [] = omega arith
keep-split p (x ∷ xs) = ground (arith, keep-split p xs)

module _ {Metrics : Type 0} where
  -- The voters of the list that are in `gone`.
  abbrev pub lost_voters : List (NodeVm Metrics) → (Text → Bool) → ℕ
  lost_voters nodes gone = length (keep (λ n. gone n.id) (keep (λ n. votes n.suffrage) nodes))

  alive-lost_voters :
      (nodes : List (NodeVm Metrics)) (gone : Text → Bool)
      → (simulate_loss nodes gone).alive + lost_voters nodes gone ≡ (simulate_loss nodes gone).total
  unfolding simulate_loss
  alive-lost_voters nodes gone =
      omega
        (arith, keep-split (λ (n : NodeVm Metrics). gone n.id) (keep (λ n. votes n.suffrage) nodes))

  voters-node_of :
      (status : ClusterStatus Metrics) (servers : List (ClusterServer Metrics))
      → length (keep (λ n. votes n.suffrage) (map (node_of status) servers))
        ≡ length (keep (λ (s : ClusterServer Metrics). votes s.suffrage) servers)
  unfolding node_of
  voters-node_of status [] = refl
  voters-node_of status (s ∷ servers) = ground (arith, voters-node_of status servers)

  -- The calculator works on the voters and the quorum that the model shows.
  total-build_model :
      (status : ClusterStatus Metrics) (gone : Text → Bool)
      → (simulate_loss (build_model status).nodes gone).total ≡ (build_model status).voters
  unfolding simulate_loss build_model
  total-build_model status gone = voters-node_of status status.servers

  quorum-total :
      (nodes : List (NodeVm Metrics)) (gone : Text → Bool)
      → (simulate_loss nodes gone).quorum ≡ (simulate_loss nodes gone).total / 2 + 1
  unfolding simulate_loss
  quorum-total nodes gone = refl

  has_quorum-alive :
      (nodes : List (NodeVm Metrics)) (gone : Text → Bool)
      → ((simulate_loss nodes gone).has_quorum ≡ true)
        ↔ ((simulate_loss nodes gone).quorum ≤ (simulate_loss nodes gone).alive)
  unfolding simulate_loss
  has_quorum-alive nodes gone = ground arith

  tolerated-voters :
      (status : ClusterStatus Metrics)
      → (build_model status).tolerated
        ≡ (build_model status).voters - ((build_model status).voters / 2 + 1)
  unfolding build_model
  tolerated-voters status = refl

  tolerated-health :
      (status : ClusterStatus Metrics)
      → (build_model status).health ≡ ok
      → 1 ≤ (build_model status).tolerated
  unfolding build_model
  tolerated-health status h = ground arith

-- The calculator and the shown tolerance agree: where there are voters, a loss keeps the quorum
-- exactly if it takes no more voters than the model says the cluster tolerates.
pub has_quorum_iff :
    {Metrics : Type 0} (status : ClusterStatus Metrics) (gone : Text → Bool)
    → 0 < (build_model status).voters
    → ((simulate_loss (build_model status).nodes gone).has_quorum ≡ true)
      ↔ (lost_voters (build_model status).nodes gone ≤ (build_model status).tolerated)
has_quorum_iff status gone h =
    let nodes = (build_model status).nodes in
    ground (
      arith,
      has_quorum-alive nodes gone,
      quorum-total nodes gone,
      alive-lost_voters nodes gone,
      total-build_model status gone,
      tolerated-voters status,
    )

-- A cluster that is shown as healthy keeps its quorum through the loss of any one voter.
pub ok-survives_one :
    {Metrics : Type 0} (status : ClusterStatus Metrics) (gone : Text → Bool)
    → (build_model status).health ≡ ok
    → lost_voters (build_model status).nodes gone ≤ 1
    → (simulate_loss (build_model status).nodes gone).has_quorum ≡ true
ok-survives_one status gone h k =
    ground (arith, tolerated-health status, tolerated-voters status, has_quorum_iff status gone)

alive-complement :
    {Metrics : Type 0} (nodes : List (NodeVm Metrics)) (gone : Text → Bool)
    → (simulate_loss nodes gone).alive + (simulate_loss nodes (λ id. not (gone id))).alive
      ≡ (simulate_loss nodes gone).total
unfolding simulate_loss
alive-complement nodes gone = keep-split (λ n. not (gone n.id)) (keep (λ n. votes n.suffrage) nodes)

total-same :
    {Metrics : Type 0} (nodes : List (NodeVm Metrics)) (f g : Text → Bool)
    → (simulate_loss nodes f).total ≡ (simulate_loss nodes g).total
unfolding simulate_loss
total-same nodes f g = refl

-- The two sides of a split never both have a quorum.
pub no_two_quorums :
    {Metrics : Type 0} (nodes : List (NodeVm Metrics)) (gone : Text → Bool)
    → (simulate_loss nodes gone).has_quorum ≡ true
    → (simulate_loss nodes (λ id. not (gone id))).has_quorum ≡ false
no_two_quorums nodes gone h =
    let rest = λ (id : Text). not (gone id) in
    ground (
      arith,
      has_quorum-alive nodes gone,
      has_quorum-alive nodes rest,
      quorum-total nodes gone,
      quorum-total nodes rest,
      alive-complement nodes gone,
      total-same nodes gone rest,
    )
