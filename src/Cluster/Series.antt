-- ===== src/Cluster/Series.antt =====
-- The series of the charts in web/src/pages/dashboard/cluster/lib.ts, over the history of samples. A
-- rate is kept as the fraction that the division makes of it: entries for so many milliseconds.
use tuck.Base.{
  ℕ, ◌+◌, ◌-◌, ◌≤◌, ◌<◌, max, Text, List, [], ◌∷◌, ◌++◌, ◌≡◌, Bool, true, false, ◌&&◌, Option, none,
  some, arith, map, keep, text_eq, ltb, leb, if◌then◌else◌, All,
}

pub record Peer : Type 0 where
  pub lag : ℕ
  pub rtt_ms : Option ℕ

-- The fields of `ClusterSample` that the series read.
pub record ClusterSample : Type 0 where
  pub commit_index : ℕ
  pub is_leader : Bool
  pub peers : Option (List (Text × Peer))
  pub t : ℕ

pub record Rate : Type 0 where
  pub entries : ℕ
  pub ms : ℕ

-- `dt > 0 && di >= 0`
unfoldable pub step_rate : ClusterSample → ClusterSample → List Rate
step_rate a b =
    if ltb a.t b.t && leb a.commit_index b.commit_index
    then record { entries = b.commit_index - a.commit_index; ms = b.t - a.t } ∷ []
    else []

unfoldable pub commit_rate : List ClusterSample → List Rate
unfolding step_rate
commit_rate [] = []
commit_rate (a ∷ []) = []
commit_rate (a ∷ b ∷ history) = step_rate a b ++ commit_rate (b ∷ history)

-- `h.peers ?? {}`
unfoldable pub peers_of : ClusterSample → List (Text × Peer)
peers_of h = elim h.peers [ none ↦ [] | some peers ↦ peers ]

-- `Math.max(0, ...peers.map((p) => p.lag))`
unfoldable pub max_lag : List (Text × Peer) → ℕ
max_lag [] = 0
max_lag ((id, p) ∷ peers) = max p.lag (max_lag peers)

unfoldable pub has_peers : ClusterSample → Bool
has_peers h = elim h.peers [ none ↦ false | some peers ↦ true ]

unfoldable pub max_lag_series : List ClusterSample → List ℕ
unfolding peers_of max_lag has_peers
max_lag_series history =
    map (λ h. max_lag (peers_of h))
      (keep (λ (h : ClusterSample). h.is_leader && has_peers h) history)

-- `h.peers?.[id]`
unfoldable pub peer_at : Text → List (Text × Peer) → Option Peer
peer_at id [] = none
peer_at id ((j, p) ∷ peers) = if text_eq j id then some p else peer_at id peers

unfoldable pub rtt_at : Text → ClusterSample → Option ℕ
unfolding peer_at peers_of
rtt_at id h = elim (peer_at id (peers_of h)) [ none ↦ none | some p ↦ p.rtt_ms ]

unfoldable pub peer_rtt_series : List ClusterSample → Text → List ℕ
unfolding rtt_at
peer_rtt_series [] id = []
peer_rtt_series (h ∷ history) id = elim (rtt_at id h) [
  | none ↦ peer_rtt_series history id
  | some v ↦ v ∷ peer_rtt_series history id
]

unfoldable pub peer_lag_series : List ClusterSample → Text → List ℕ
unfolding peer_at peers_of
peer_lag_series [] id = []
peer_lag_series (h ∷ history) id = elim (peer_at id (peers_of h)) [
  | none ↦ peer_lag_series history id
  | some p ↦ p.lag ∷ peer_lag_series history id
]

-- The slowest of the round trips that are there.
unfoldable pub max_rtt : List (Text × Peer) → Option ℕ
max_rtt [] = none
max_rtt ((id, p) ∷ peers) = elim p.rtt_ms [
  | none ↦ max_rtt peers
  | some v ↦ elim (max_rtt peers) [ none ↦ some v | some w ↦ some (max v w) ]
]

unfoldable pub max_rtt_series : List ClusterSample → List ℕ
unfolding max_rtt peers_of
max_rtt_series [] = []
max_rtt_series (h ∷ history) = elim (max_rtt (peers_of h)) [
  | none ↦ max_rtt_series history
  | some v ↦ v ∷ max_rtt_series history
]

-- Time goes on and no commit is taken back, from each sample to the next.
abbrev pub IsSteady : List ClusterSample → Type 0
IsSteady [] = Unit
IsSteady (a ∷ []) = Unit
IsSteady (a ∷ b ∷ history) =
    (a.t < b.t) × (a.commit_index ≤ b.commit_index) × IsSteady (b ∷ history)

unfoldable pub total_entries : List Rate → ℕ
total_entries [] = 0
total_entries (r ∷ rates) = r.entries + total_entries rates

unfoldable pub total_ms : List Rate → ℕ
total_ms [] = 0
total_ms (r ∷ rates) = r.ms + total_ms rates

unfoldable pub final : ClusterSample → List ClusterSample → ClusterSample
final a [] = a
final a (b ∷ history) = final b history

-- The points of the commit chart account for every entry and every millisecond of a steady history:
-- together they span it from the first sample to the last.
pub commit_rate_span :
    (a : ClusterSample) (history : List ClusterSample)
    → IsSteady (a ∷ history)
    → (a.commit_index + total_entries (commit_rate (a ∷ history)) ≡ (final a history).commit_index)
      × (a.t + total_ms (commit_rate (a ∷ history)) ≡ (final a history).t)
unfolding commit_rate total_entries total_ms final
commit_rate_span a [] h = omega arith
commit_rate_span a (b ∷ history) h = ground (arith, commit_rate_span b history h.2)

-- No point of the chart divides by zero, whatever the samples are.
pub commit_rate_ms : (history : List ClusterSample) → All (λ r. 0 < r.ms) (commit_rate history)
unfolding commit_rate
commit_rate_ms [] = tt
commit_rate_ms (a ∷ []) = tt
commit_rate_ms (a ∷ b ∷ history) = ground (arith, commit_rate_ms (b ∷ history))
