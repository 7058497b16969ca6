-- ===== src/Cluster/Events.antt =====
-- `diffStatus` of web/src/pages/dashboard/cluster/lib.ts: the events between two polls of the cluster.
pub mod Silence
use tuck.Base.{
  ℕ, Text, List, [], ◌∷◌, ◌++◌, codes, Bool, true, false, not, Option, none, some, map, keep,
  length, is_empty, any, find_first, text_eq, ltb, if◌then◌else◌,
}
use tuck.Cluster.{ClusterServer, ClusterStatus}

-- The keys of the log entries with their parameters.
pub data Event : Type 0 where
  connected : ℕ → Text → Event
  leader_lost leader_elected : Text → Event
  leader_changed : Text → Text → Event
  term_changed : ℕ → ℕ → Event
  state_changed : Text → Text → Event
  node_joined : Text → Text → Event
  suffrage_changed : Text → Text → Event
  node_left : Text → Event

pub data LogLevel : Type 0 where
  e i o v w : LogLevel

-- The level at which an event is logged.
unfoldable pub level_of : Event → LogLevel
level_of (connected count lead) = i
level_of (leader_lost id) = w
level_of (leader_elected id) = o
level_of (leader_changed from to) = v
level_of (term_changed from to) = v
level_of (state_changed from to) = if text_eq to (codes "Shutdown") then e else i
level_of (node_joined addr id) = o
level_of (suffrage_changed id to) = i
level_of (node_left id) = w

unfoldable pub leader_events : Text → Text → List Event
leader_events was now =
    if text_eq was now
    then []
    else if is_empty now
    then leader_lost was ∷ []
    else if is_empty was
    then leader_elected now ∷ []
    else leader_changed was now ∷ []

unfoldable pub term_events : Option ℕ → Option ℕ → List Event
term_events (some was) (some now) = if ltb was now then term_changed was now ∷ [] else []
term_events none now = []
term_events (some was) none = []

unfoldable pub state_events : Text → Text → List Event
state_events was now = if text_eq was now then [] else state_changed was now ∷ []

-- `next.leader || '—'`
unfoldable pub shown_leader : Text → Text
shown_leader lead = if is_empty lead then codes "—" else lead

module _ {Metrics : Type 0} where
  -- `prevServers.find((p) => p.id === s.id)`
  unfoldable pub server_at : List (ClusterServer Metrics) → Text → Option (ClusterServer Metrics)
  server_at servers id = find_first (λ (p : ClusterServer Metrics). text_eq p.id id) servers

  -- One round of the loop over the new servers.
  unfoldable pub server_events : ClusterServer Metrics → Option (ClusterServer Metrics) → List Event
  server_events s none = node_joined s.address s.id ∷ []
  server_events s (some was) =
      if text_eq was.suffrage s.suffrage then [] else suffrage_changed s.id s.suffrage ∷ []

  unfoldable pub new_events :
      List (ClusterServer Metrics) → List (ClusterServer Metrics) → List Event
  unfolding server_at server_events
  new_events prev [] = []
  new_events prev (s ∷ servers) = server_events s (server_at prev s.id) ++ new_events prev servers

  -- The loop over the servers of the earlier poll.
  unfoldable pub gone_events :
      List (ClusterServer Metrics) → List (ClusterServer Metrics) → List Event
  gone_events next [] = []
  gone_events next (p ∷ servers) =
      let rest = gone_events next servers in
      if any (λ (s : ClusterServer Metrics). text_eq s.id p.id) next
      then rest
      else node_left p.id ∷ rest

  unfoldable pub diff_status : Option (ClusterStatus Metrics) → ClusterStatus Metrics → List Event
  unfolding leader_events term_events state_events new_events gone_events shown_leader
  diff_status none next = connected (length next.servers) (shown_leader next.leader) ∷ []
  diff_status (some prev) next =
      leader_events prev.leader next.leader
      ++ (term_events prev.term next.term
          ++ (state_events prev.state next.state
              ++ (new_events prev.servers next.servers ++ gone_events next.servers prev.servers)))
