-- ===== src/Cluster/Events/Silence.antt =====
-- When `diffStatus` of web/src/pages/dashboard/cluster/lib.ts reports nothing.
use tuck.Base.{
  ℕ, ◌≤◌, Text, List, [], ◌∷◌, ◌++◌, ◌≡◌, ◌↔◌, refl, true, Option, none, some, arith, any, All, Any,
  text_eq, text_eq_iff,
}
use tuck.Cluster.{ClusterServer, ClusterStatus}
use tuck.Cluster.Events.{
  leader_events, term_events, state_events, server_at, server_events, new_events, gone_events,
  diff_status,
}

append-nil_iff {ℓ} : {A : Type ℓ} (xs ys : List A) → ((xs ++ ys) ≡ []) ↔ ((xs ≡ []) × (ys ≡ []))
append-nil_iff [] ys = (λ h. (refl, h), λ h. h.1)
append-nil_iff (x ∷ xs) ys = (λ h. cc, λ h. cc)

leader_events-nil : (was now : Text) → (leader_events was now ≡ []) ↔ (was ≡ now)
unfolding leader_events
leader_events-nil was now = ground (arith, text_eq_iff was now)

state_events-nil : (was now : Text) → (state_events was now ≡ []) ↔ (was ≡ now)
unfolding state_events
state_events-nil was now = ground (arith, text_eq_iff was now)

-- The term is unknown in one of the polls, or has not grown.
abbrev pub TermKept : Option ℕ → Option ℕ → Type 0
TermKept none now = Unit
TermKept (some was) none = Unit
TermKept (some was) (some now) = now ≤ was

term_events-nil : (was now : Option ℕ) → (term_events was now ≡ []) ↔ TermKept was now
unfolding term_events
term_events-nil none now = (λ _. tt, λ _. refl)
term_events-nil (some was) none = (λ _. tt, λ _. refl)
term_events-nil (some was) (some now) = ground arith

module _ {Metrics : Type 0} where
  -- The first server with the id has the same suffrage.
  abbrev pub SameSuffrage : ClusterServer Metrics → Option (ClusterServer Metrics) → Type 0
  SameSuffrage s none = ⊥
  SameSuffrage s (some was) = was.suffrage ≡ s.suffrage

  server_events-nil :
      (s : ClusterServer Metrics) (was : Option (ClusterServer Metrics))
      → (server_events s was ≡ []) ↔ SameSuffrage s was
  unfolding server_events
  server_events-nil s none = (λ h. cc, λ h. absurd h)
  server_events-nil s (some was) = ground (arith, text_eq_iff was.suffrage s.suffrage)

  new_events-nil :
      (prev next : List (ClusterServer Metrics))
      → (new_events prev next ≡ []) ↔ All (λ s. SameSuffrage s (server_at prev s.id)) next
  unfolding new_events
  new_events-nil prev [] = (λ _. tt, λ _. refl)
  new_events-nil prev (s ∷ next) = ground (
    arith,
    append-nil_iff (server_events s (server_at prev s.id)) (new_events prev next),
    server_events-nil s (server_at prev s.id),
    new_events-nil prev next,
  )

  -- Some server of the list has the id.
  abbrev pub HasId : Text → List (ClusterServer Metrics) → Type 0
  HasId id servers = Any (λ s. s.id ≡ id) servers

  pub any-HasId :
      (id : Text) (servers : List (ClusterServer Metrics))
      → (any (λ (s : ClusterServer Metrics). text_eq s.id id) servers ≡ true) ↔ HasId id servers
  any-HasId id [] = (λ h. cc, λ h. absurd h)
  any-HasId id (s ∷ servers) = ground (arith, text_eq_iff s.id id, any-HasId id servers)

  gone_events-nil :
      (next servers : List (ClusterServer Metrics))
      → (gone_events next servers ≡ []) ↔ All (λ p. HasId p.id next) servers
  unfolding gone_events
  gone_events-nil next [] = (λ _. tt, λ _. refl)
  gone_events-nil next (p ∷ servers) =
      ground (arith, any-HasId p.id next, gone_events-nil next servers)

-- Two polls that differ in nothing that is watched.
pub record IsQuiet {Metrics : Type 0} (prev next : ClusterStatus Metrics) : Type 0 where
  pub leader : prev.leader ≡ next.leader
  pub term : TermKept prev.term next.term
  pub state : prev.state ≡ next.state
  pub kept : All (λ s. SameSuffrage s (server_at prev.servers s.id)) next.servers
  pub none_left : All (λ p. HasId p.id next.servers) prev.servers

-- The log stays silent between two polls exactly if the leader and the state are the same, the term
-- has not grown, every server was there before with the same suffrage, and none has left.
pub diff_status-nil_iff :
    {Metrics : Type 0} (prev next : ClusterStatus Metrics)
    → (diff_status (some prev) next ≡ []) ↔ IsQuiet prev next
unfolding diff_status
diff_status-nil_iff prev next =
    let gone = gone_events next.servers prev.servers in
    let new = new_events prev.servers next.servers in
    let states = state_events prev.state next.state in
    let terms = term_events prev.term next.term in
    let leaders = leader_events prev.leader next.leader in
    ground (
      arith,
      append-nil_iff leaders (terms ++ (states ++ (new ++ gone))),
      append-nil_iff terms (states ++ (new ++ gone)),
      append-nil_iff states (new ++ gone),
      append-nil_iff new gone,
      leader_events-nil prev.leader next.leader,
      term_events-nil prev.term next.term,
      state_events-nil prev.state next.state,
      new_events-nil prev.servers next.servers,
      gone_events-nil next.servers prev.servers,
    )
