-- ===== src/Cluster.antt =====
-- web/src/pages/dashboard/cluster/lib.ts: the cluster screen's model of a Raft configuration, its
-- quorum arithmetic, the events between two polls and the series of the charts. Numbers of the API
-- are natural: a lag in entries, a round trip in whole units.
pub mod Quorum
pub mod Events
pub mod Series
pub mod Page
mod Tests
use tuck.Base.{
  ℕ, ◌+◌, ◌-◌, ◌/◌, Text, List, [], ◌∷◌, codes, Bool, true, false, not, ◌&&◌, ◌||◌, Option, none,
  some, map, keep, length, is_empty, text_eq, leb, ltb, if◌then◌else◌, ℤ, pos, sub_ℕ, ltb_ℤ,
}

-- `ClusterServerMetrics` is passed through unread: its type is a parameter of what holds it.
pub record ClusterServer (Metrics : Type 0) : Type 0 where
  pub address : Text
  pub id : Text
  pub metrics : Option Metrics
  pub suffrage : Text

-- The fields of `ClusterStatus` that the functions below read.
pub record ClusterStatus (Metrics : Type 0) : Type 0 where
  pub is_leader : Bool
  pub leader : Text
  pub servers : List (ClusterServer Metrics)
  pub state : Text
  pub term : Option ℕ

pub data NodeRole : Type 0 where
  follower leader nonvoter : NodeRole

pub data Health : Type 0 where
  down electing nofault ok : Health

pub record NodeVm (Metrics : Type 0) : Type 0 where
  pub address : Text
  pub id : Text
  pub is_me : Bool
  pub metrics : Option Metrics
  pub role : NodeRole
  pub suffrage : Text

pub record ClusterModel (Metrics : Type 0) : Type 0 where
  pub health : Health
  pub voters : ℕ
  pub quorum : ℕ
  pub tolerated : ℕ
  pub nodes : List (NodeVm Metrics)

-- `suffrage !== 'Nonvoter'`
unfoldable pub votes : Text → Bool
votes suffrage = not (text_eq suffrage (codes "Nonvoter"))

-- `Math.floor(n / 2) + 1`
unfoldable pub quorum_of : ℕ → ℕ
quorum_of n = n / 2 + 1

unfoldable pub health_of : Text → Text → ℕ → Health
health_of state lead tolerated =
    if text_eq state (codes "Shutdown")
    then down
    else if is_empty lead || text_eq state (codes "Candidate")
    then electing
    else if ltb tolerated 1
    then nofault
    else ok

module _ {Metrics : Type 0} where
  unfoldable pub node_of : ClusterStatus Metrics → ClusterServer Metrics → NodeVm Metrics
  unfolding votes
  node_of status s =
      let is_lead = not (is_empty status.leader) && text_eq s.id status.leader in
      record {
        address = s.address;
        id = s.id;
        is_me = is_lead && status.is_leader;
        metrics = s.metrics;
        role = if is_lead then leader else if votes s.suffrage then follower else nonvoter;
        suffrage = s.suffrage;
      }

  -- `Math.max(0, voters - quorum)` is the subtraction that stops at 0.
  unfoldable pub build_model : ClusterStatus Metrics → ClusterModel Metrics
  unfolding node_of votes quorum_of health_of
  build_model status =
      let voters = length (keep (λ (s : ClusterServer Metrics). votes s.suffrage) status.servers) in
      let quorum = quorum_of voters in
      let tolerated = voters - quorum in
      record {
        health = health_of status.state status.leader tolerated;
        nodes = map (node_of status) status.servers;
        quorum = quorum;
        tolerated = tolerated;
        voters = voters;
      }

pub record LossResult : Type 0 where
  pub alive : ℕ
  pub has_quorum : Bool
  pub quorum : ℕ
  pub spare : ℤ
  pub total : ℕ

-- The set `down` is given by its `has`.
unfoldable pub simulate_loss :
    {Metrics : Type 0} → List (NodeVm Metrics) → (Text → Bool) → LossResult
unfolding votes quorum_of
simulate_loss nodes gone =
    let voters = keep (λ n. votes n.suffrage) nodes in
    let total = length voters in
    let quorum = quorum_of total in
    let alive = length (keep (λ n. not (gone n.id)) voters) in
    record {
      alive = alive;
      has_quorum = leb quorum alive;
      quorum = quorum;
      spare = sub_ℕ alive quorum;
      total = total;
    }

pub data CertTone : Type 0 where
  bad brass mute ok : CertTone

-- `certTone`, on the days that are left, which are negative once the certificate has expired.
unfoldable pub cert_tone : Option ℤ → CertTone
cert_tone none = mute
cert_tone (some days) =
    if ltb_ℤ days (pos 0) then bad else if ltb_ℤ days (pos 14) then brass else ok
