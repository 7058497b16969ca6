-- ===== src/LiveLog/Steady.antt =====
-- What holds of the connection after any events.
use tuck.Base.{
  ℕ, ◌≡◌, refl, Text, List, [], ◌∷◌, ◌++◌, Bool, true, false, not, Option, arith, if◌then◌else◌,
}
use tuck.LiveLog.{blocks}
use tuck.LiveLog.Connection.{
  LiveLogStatus, connecting, live, offline, paused, Conn, closed, opening, streaming, State, wanted,
  connect, effect, opened, lost, tick, toggle_pause, set_enabled, clear_gap, clear_rows, receive,
}

pub data LiveEvent : Type 0 where
  opens loses ticks toggles changes_filter clears_gap clears_rows : LiveEvent
  enables : Bool → LiveEvent
  receives : Text → LiveEvent

module _ {ℓ} {Entry : Type ℓ} (seq_of : Entry → ℕ) (entry_of : Text → Option Entry)
    (head_of : Text → Option ℕ) where
  unfoldable pub live_step : LiveEvent → State Entry → State Entry
  unfolding opened lost tick toggle_pause effect set_enabled receive
  live_step opens s = opened s
  live_step loses s = lost s
  live_step ticks s = tick s
  live_step toggles s = toggle_pause s
  live_step changes_filter s = effect s
  live_step clears_gap s = clear_gap s
  live_step clears_rows s = clear_rows s
  live_step (enables b) s = set_enabled b s
  live_step (receives chunk) s = receive seq_of entry_of head_of chunk s

  unfoldable pub run : List LiveEvent → State Entry → State Entry
  unfolding live_step
  run [] s = s
  run (e ∷ es) s = run es (live_step e s)

-- The status that belongs to a connection that is wanted, and whether the timer runs.
unfoldable pub fits : Conn → LiveLogStatus → Bool → Bool
fits closed offline timer = timer
fits (opening since) connecting timer = not timer
fits (streaming buf) live timer = not timer
fits _ _ timer = false

-- The same for a connection that is not wanted: nothing is open and nothing is to come.
unfoldable pub rests : Bool → Conn → LiveLogStatus → Bool → Bool
rests true closed paused timer = not timer
rests false closed offline timer = not timer
rests _ _ _ timer = false

fits-streaming :
    (buf rest : Text) (status : LiveLogStatus) (timer : Bool)
    → fits (streaming buf) status timer ≡ fits (streaming rest) status timer
unfolding fits
fits-streaming buf rest connecting timer = refl
fits-streaming buf rest live timer = refl
fits-streaming buf rest offline timer = refl
fits-streaming buf rest paused timer = refl

rests-streaming :
    (buf : Text) (is_paused : Bool) (status : LiveLogStatus) (timer : Bool)
    → rests is_paused (streaming buf) status timer ≡ false
unfolding rests
rests-streaming buf true status timer = refl
rests-streaming buf false status timer = refl

module _ {ℓ} {Entry : Type ℓ} where
  unfoldable pub is_steady : State Entry → Bool
  unfolding fits rests
  is_steady s =
      if wanted s then fits s.conn s.status s.timer else rests s.is_paused s.conn s.status s.timer

  effect-is_steady : (s : State Entry) → is_steady (effect s) ≡ true
  unfolding effect connect is_steady
  effect-is_steady s = ground arith

  opened-is_steady :
      (c : Conn) (s : State Entry) → s.conn ≡ c → is_steady s ≡ true → is_steady (opened s) ≡ true
  unfolding opened is_steady
  opened-is_steady closed s e h = ground (arith, e)
  opened-is_steady (opening since) s e h = ground (arith, e)
  opened-is_steady (streaming buf) s e h = ground (arith, e)

  lost-is_steady :
      (c : Conn) (s : State Entry) → s.conn ≡ c → is_steady s ≡ true → is_steady (lost s) ≡ true
  unfolding lost is_steady
  lost-is_steady closed s e h = ground (arith, e)
  lost-is_steady (opening since) s e h = ground (arith, e)
  lost-is_steady (streaming buf) s e h = ground (arith, e)

module _ {ℓ} {Entry : Type ℓ} (seq_of : Entry → ℕ) (entry_of : Text → Option Entry)
    (head_of : Text → Option ℕ) where
  receive-is_steady :
      (c : Conn) (chunk : Text) (s : State Entry)
      → s.conn ≡ c
      → is_steady s ≡ true
      → is_steady (receive seq_of entry_of head_of chunk s) ≡ true
  unfolding receive is_steady
  receive-is_steady closed chunk s e h = ground (arith, e)
  receive-is_steady (opening since) chunk s e h = ground (arith, e)
  receive-is_steady (streaming buf) chunk s e h = ground (
    arith,
    e,
    fits-streaming buf (blocks (buf ++ chunk)).1 s.status s.timer,
    rests-streaming buf s.is_paused s.status s.timer,
  )

  live_step-is_steady :
      (e : LiveEvent) (s : State Entry)
      → is_steady s ≡ true
      → is_steady (live_step seq_of entry_of head_of e s) ≡ true
  unfolding live_step opened lost tick connect toggle_pause set_enabled receive is_steady
  live_step-is_steady opens s h = opened-is_steady s.conn s refl h
  live_step-is_steady loses s h = lost-is_steady s.conn s refl h
  live_step-is_steady ticks s h = ground arith
  live_step-is_steady toggles s h = effect-is_steady (record s { is_paused = not s.is_paused })
  live_step-is_steady changes_filter s h = effect-is_steady s
  live_step-is_steady clears_gap s h = h
  live_step-is_steady clears_rows s h = h
  live_step-is_steady (enables b) s h = effect-is_steady (record s { enabled = b })
  live_step-is_steady (receives chunk) s h = receive-is_steady s.conn chunk s refl h

  run-is_steady :
      (es : List LiveEvent) (s : State Entry)
      → is_steady s ≡ true
      → is_steady (run seq_of entry_of head_of es s) ≡ true
  unfolding run
  run-is_steady [] s h = h
  run-is_steady (e ∷ es) s h =
      run-is_steady es (live_step seq_of entry_of head_of e s) (live_step-is_steady e s h)

  -- After the effect of the mount and any events, a tail that is wanted is opening a stream and
  -- says `connecting`, or reads one and says `live`, or says `offline` with the timer of the next
  -- attempt running; one that is switched off or paused has no request, no stream and no timer,
  -- and says `offline` or `paused`.
  pub mount-is_steady :
      (es : List LiveEvent) (s : State Entry)
      → is_steady (run seq_of entry_of head_of es (effect s)) ≡ true
  mount-is_steady es s = run-is_steady es (effect s) (effect-is_steady s)
