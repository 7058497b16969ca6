-- ===== src/LiveLog/Tail.antt =====
-- What the events of the stream do: the rows that are kept, newest first, the last sequence
-- number, and the banner for a gap.
use tuck.Base.{
  ℕ, ◌≡◌, refl, Text, List, [], ◌∷◌, ◌++◌, codes, Bool, true, Option, none, some, ◌==◌,
  if◌then◌else◌, text_eq, take,
}
use tuck.LiveLog.{live_log_cap, SseEvent, parse_block}

pub record Tail {ℓ} (Entry : Type ℓ) : Type ℓ where
  pub rows : List Entry
  pub last_seq : Option ℕ
  pub gap : Bool

module _ {ℓ} {Entry : Type ℓ} (seq_of : Entry → ℕ) (entry_of : Text → Option Entry)
    (head_of : Text → Option ℕ) where
  -- `audit`; a sequence number that is missing is 0.
  unfoldable pub take_entry : Entry → Tail Entry → Tail Entry
  take_entry entry t = record t {
    rows = take live_log_cap (entry ∷ t.rows);
    last_seq = if seq_of entry == 0 then t.last_seq else some (seq_of entry);
  }

  -- `hello`
  unfoldable pub take_head : ℕ → Option ℕ → Option ℕ
  take_head head (some seq) = some seq
  take_head head none = if head == 0 then none else some head

  unfoldable pub take_event : SseEvent → Tail Entry → Tail Entry
  unfolding take_entry take_head text_eq
  take_event ev t =
      if text_eq ev.event (codes "audit")
      then elim (entry_of ev.payload) [ none ↦ t | some entry ↦ take_entry entry t ]
      else if text_eq ev.event (codes "gap")
      then record t { gap = true }
      else if text_eq ev.event (codes "hello")
      then elim (head_of ev.payload) [
        | none ↦ t
        | some head ↦ record t { last_seq = take_head head t.last_seq }
      ]
      else t

  unfoldable pub take_block : Text → Tail Entry → Tail Entry
  unfolding parse_block take_event
  take_block block t = elim (parse_block block) [ none ↦ t | some ev ↦ take_event ev t ]

  unfoldable pub take_blocks : List Text → Tail Entry → Tail Entry
  unfolding take_block
  take_blocks [] t = t
  take_blocks (block ∷ more) t = take_blocks more (take_block block t)

  pub take_blocks-append :
      (xs ys : List Text) (t : Tail Entry)
      → take_blocks (xs ++ ys) t ≡ take_blocks ys (take_blocks xs t)
  unfolding take_blocks
  take_blocks-append [] ys t = refl
  take_blocks-append (x ∷ xs) ys t = take_blocks-append xs ys (take_block x t)
