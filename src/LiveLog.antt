-- ===== src/LiveLog.antt =====
-- The live tail of the audit log: web/src/pages/dashboard/audit-sinks/use-live-log.ts. The text
-- of the stream comes in chunks, as the decoder of bytes hands them on. `JSON.parse` with the
-- fields that the hook reads is a parameter: it gives `none` where the `try` fails.
pub mod Cut
pub mod Blocks
pub mod Tail
pub mod Connection
pub mod Steady
pub mod Chunks
pub mod Rows
pub mod Format
mod Tests
use tuck.Base.{
  ℕ, zero, suc, ◌==◌, Text, List, [], ◌∷◌, ◌++◌, codes, Bool, true, false, not, ◌&&◌, ◌||◌, Option,
  none, some, if◌then◌else◌, starts_with, split_on, join, take_until, strip, is_empty, text_eq,
  length, take,
}

-- `LIVE_LOG_CAP`
abbrev pub live_log_cap : ℕ
live_log_cap = 500

-- `payload` is the field `data`, a reserved word here.
pub record SseEvent : Type 0 where
  pub event : Text
  pub payload : Text
  pub id : Option Text

-- The variables of `parseBlock`; `parts` is `data`.
pub record Fields : Type 0 where
  pub event : Text
  pub id : Option Text
  pub parts : List Text

-- `.replace(/^ /, '')`
unfoldable pub no_space : Text → Text
no_space [] = []
no_space (c ∷ s) = if c == b' ' then s else c ∷ s

-- `field` and `value`: what stands before and behind the first colon.
unfoldable pub field_value : Text → Text × Text
unfolding take_until no_space
field_value raw = elim (take_until b':' raw) [
  | none ↦ (raw, [])
  | some (field, value) ↦ (field, no_space value)
]

-- The body of the loop over the lines.
unfoldable pub take_line : Fields → Text → Fields
unfolding starts_with field_value text_eq
take_line f raw =
    let (field, value) = field_value raw in
    if is_empty raw || starts_with (codes ":") raw
    then f
    else if text_eq field (codes "event")
    then record f { event = value }
    else if text_eq field (codes "id")
    then record f { id = some value }
    else if text_eq field (codes "data")
    then record f { parts = f.parts ++ value ∷ [] }
    else f

unfoldable pub take_lines : Fields → List Text → Fields
unfolding take_line
take_lines f [] = f
take_lines f (raw ∷ lines) = take_lines (take_line f raw) lines

abbrev pub no_fields : Fields
no_fields = record { event = codes "message"; id = none; parts = [] }

unfoldable pub event_of : Fields → Option SseEvent
unfolding text_eq join
event_of f =
    if is_empty f.parts && text_eq f.event (codes "message")
    then none
    else some (record { event = f.event; payload = join (codes "\n") f.parts; id = f.id })

unfoldable pub parse_block : Text → Option SseEvent
unfolding split_on take_lines event_of
parse_block block = event_of (take_lines no_fields (split_on b'\n' block))

unfoldable pub put : ℕ → Option (Text × Text) → Option (Text × Text)
put c none = none
put c (some (block, rest)) = some (c ∷ block, rest)

-- `buf.indexOf('\n\n')` with the two slices.
unfoldable pub cut : Text → Option (Text × Text)
unfolding strip put
cut [] = none
cut (c ∷ s) = elim (strip (codes "\n\n") (c ∷ s)) [
  | some rest ↦ some ([], rest)
  | none ↦ put c (cut s)
]

-- The loop that cuts blocks off the buffer: the blocks, and what stays in the buffer.
unfoldable pub drain : ℕ → Text → List Text × Text
unfolding cut
drain zero buf = ([], buf)
drain (suc n) buf = elim (cut buf) [
  | none ↦ ([], buf)
  | some (block, rest) ↦ let r = drain n rest in (block ∷ r.0, r.1)
]

-- All blocks of a buffer: each cut takes two characters or more away.
unfoldable pub blocks : Text → List Text × Text
unfolding drain
blocks buf = drain (length buf) buf
