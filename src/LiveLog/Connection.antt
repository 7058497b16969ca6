-- ===== src/LiveLog/Connection.antt =====
-- The connection of the live tail as a state machine: `stop`, `connect`, the promise of `fetch`,
-- the timer and the effect of the hook. An aborted request has no further effect.
use tuck.Base.{ℕ, Text, [], ◌++◌, Bool, true, false, not, ◌&&◌, Option, if◌then◌else◌}
use tuck.LiveLog.{blocks}
use tuck.LiveLog.Tail.{Tail, take_blocks}

pub data LiveLogStatus : Type 0 where
  connecting live offline paused : LiveLogStatus

-- No request, a request from a sequence number on, or an open stream with its buffer.
pub data Conn : Type 0 where
  closed : Conn
  opening : Option ℕ → Conn
  streaming : Text → Conn

pub record State {ℓ} (Entry : Type ℓ) : Type ℓ where
  pub tail : Tail Entry
  pub status : LiveLogStatus
  pub enabled : Bool
  pub is_paused : Bool
  pub conn : Conn
  pub timer : Bool

module _ {ℓ} {Entry : Type ℓ} where
  abbrev pub wanted : State Entry → Bool
  wanted s = s.enabled && not s.is_paused

  abbrev pub stop : State Entry → State Entry
  stop s = record s { conn = closed; timer = false }

  unfoldable pub connect : State Entry → State Entry
  connect s =
      if wanted s
      then record s { conn = opening s.tail.last_seq; timer = false; status = connecting }
      else stop s

  -- The effect that runs after a change of `enabled`, `paused` or the filter.
  unfoldable pub effect : State Entry → State Entry
  unfolding connect
  effect s =
      if wanted s
      then connect s
      else record (stop s) { status = if s.is_paused then paused else offline }

  -- The server answers; the stream is open.
  unfoldable pub opened : State Entry → State Entry
  opened s = elim s.conn [
    | closed ↦ s
    | opening since ↦ record s { conn = streaming []; status = live }
    | streaming buf ↦ s
  ]

  abbrev pub offline_for_now : State Entry → State Entry
  offline_for_now s = record s { conn = closed; status = offline; timer = true }

  -- The request or the stream fails, or the stream ends.
  unfoldable pub lost : State Entry → State Entry
  lost s = elim s.conn [
    | closed ↦ s
    | opening since ↦ offline_for_now s
    | streaming buf ↦ offline_for_now s
  ]

  -- The timer fires.
  unfoldable pub tick : State Entry → State Entry
  unfolding connect
  tick s = if s.timer then connect s else s

  unfoldable pub toggle_pause : State Entry → State Entry
  unfolding effect
  toggle_pause s = effect (record s { is_paused = not s.is_paused })

  unfoldable pub set_enabled : Bool → State Entry → State Entry
  unfolding effect
  set_enabled b s = effect (record s { enabled = b })

  abbrev pub clear_gap : State Entry → State Entry
  clear_gap s = record s { tail = record s.tail { gap = false } }

  abbrev pub clear_rows : State Entry → State Entry
  clear_rows s = record s { tail = record s.tail { rows = [] } }

module _ {ℓ} {Entry : Type ℓ} (seq_of : Entry → ℕ) (entry_of : Text → Option Entry)
    (head_of : Text → Option ℕ) where
  -- A chunk of the stream's text.
  unfoldable pub receive : Text → State Entry → State Entry
  unfolding blocks take_blocks
  receive chunk s = elim s.conn [
    | closed ↦ s
    | opening since ↦ s
    | streaming buf ↦
        let r = blocks (buf ++ chunk) in
        record s { tail = take_blocks seq_of entry_of head_of r.0 s.tail; conn = streaming r.1 }
  ]
