-- ===== src/LiveLog/Chunks.antt =====
-- The chunks in which the stream's text comes do not matter.
use tuck.Base.{ℕ, ◌≡◌, refl, sym, ap, ◌∙◌, Text, List, ◌++◌, Option, append_assoc}
use tuck.LiveLog.{blocks}
use tuck.LiveLog.Blocks.{blocks-append}
use tuck.LiveLog.Tail.{take_blocks, take_blocks-append}
use tuck.LiveLog.Connection.{Conn, closed, opening, streaming, State, receive}

module _ {ℓ} {Entry : Type ℓ} (seq_of : Entry → ℕ) (entry_of : Text → Option Entry)
    (head_of : Text → Option ℕ) where
  -- The state after the blocks and the buffer `r`.
  abbrev filled : State Entry → List Text × Text → State Entry
  filled s r = record s {
    tail = take_blocks seq_of entry_of head_of r.0 s.tail;
    conn = streaming r.1;
  }

  receive-append_at :
      (c : Conn) (a b : Text) (s : State Entry)
      → s.conn ≡ c
      → receive seq_of entry_of head_of b (receive seq_of entry_of head_of a s)
        ≡ receive seq_of entry_of head_of (a ++ b) s
  unfolding receive
  receive-append_at closed a b s e = rw e refl
  receive-append_at (opening since) a b s e = rw e refl
  receive-append_at (streaming buf) a b s e = rw e (
      ap (λ t. record s { tail = t; conn = streaming (blocks ((blocks (buf ++ a)).1 ++ b)).1 })
        (sym (
          take_blocks-append seq_of entry_of head_of (blocks (buf ++ a)).0
            (blocks ((blocks (buf ++ a)).1 ++ b)).0 s.tail))
      ∙ ap (filled s) (sym (blocks-append (buf ++ a) b) ∙ ap blocks (append_assoc buf a b)))

  -- A text that comes in two chunks leaves the same rows, sequence number, banner and buffer as
  -- one chunk with all of it, whatever the connection is and wherever the border falls.
  pub receive-append :
      (a b : Text) (s : State Entry)
      → receive seq_of entry_of head_of b (receive seq_of entry_of head_of a s)
        ≡ receive seq_of entry_of head_of (a ++ b) s
  receive-append a b s = receive-append_at s.conn a b s refl
