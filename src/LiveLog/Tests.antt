-- ===== src/LiveLog/Tests.antt =====
-- The live tail on concrete text.
use tuck.Base.{
  ℕ, ◌≡◌, refl, Text, List, codes, Option, some, none, [], ◌∷◌, ◌++◌, true, false, join, value_of,
  NoChar, NoChar-of_count, count_char,
}
use tuck.LiveLog.{blocks, parse_block}
use tuck.LiveLog.Connection.{State, receive, effect, connecting, closed, opening, streaming, live}
use tuck.LiveLog.Steady.{LiveEvent, opens, loses, ticks, receives, run, is_steady, mount-is_steady}
use tuck.LiveLog.Chunks.{receive-append}
use tuck.LiveLog.Format.{written, parse_block-written}

block_tests :
    (blocks (codes "event: audit\ndata: {}\n\n: ping\n\nid")
      ≡ (codes "event: audit\ndata: {}" ∷ codes ": ping" ∷ [], codes "id"))
    × (parse_block (codes "event: audit\ndata:{}\nid: 7")
        ≡ some (record { event = codes "audit"; payload = codes "{}"; id = some (codes "7") }))
    × (parse_block (codes ": ping") ≡ none)
unfolding blocks parse_block
block_tests = (refl, refl, refl)

-- Entries are numbers here, and a payload is one in decimal.
abbrev seq_of : ℕ → ℕ
seq_of n = n

unfoldable entry_of : Text → Option ℕ
unfolding value_of
entry_of [] = none
entry_of (c ∷ s) = some (value_of (c ∷ s))

abbrev fresh : State ℕ
fresh = record {
  tail = record { rows = []; last_seq = none; gap = false };
  status = connecting;
  enabled = true;
  is_paused = false;
  conn = closed;
  timer = false;
}

abbrev first_half : Text
first_half = codes "event: hello\ndata: 4\n\nevent: audit\ndata: 5\n"

abbrev second_half : Text
second_half = codes "\nevent: audit\ndata: 6\n\nevent: gap\ndata: 1\n\n"

abbrev events : List LiveEvent
events = opens ∷ receives first_half ∷ receives second_half ∷ loses ∷ ticks ∷ []

run_test : run seq_of entry_of entry_of events (effect fresh) ≡ record {
  tail = record { rows = 6 ∷ 5 ∷ []; last_seq = some 6; gap = true };
  status = connecting;
  enabled = true;
  is_paused = false;
  conn = opening (some 6);
  timer = false;
}
unfolding run effect entry_of
run_test = refl

mount-is_steady_example : is_steady (run seq_of entry_of entry_of events (effect fresh)) ≡ true
mount-is_steady_example = mount-is_steady seq_of entry_of entry_of events fresh

abbrev reading : State ℕ
reading = record fresh { status = live; conn = streaming [] }

receive-append_example :
    receive seq_of entry_of entry_of second_half
      (receive seq_of entry_of entry_of first_half reading)
    ≡ receive seq_of entry_of entry_of (first_half ++ second_half) reading
receive-append_example = receive-append seq_of entry_of entry_of first_half second_half reading

abbrev two_blocks : List Text
two_blocks = codes "event: audit\ndata: 5" ∷ codes "event: audit\ndata: 6" ∷ []

no_break : (s : Text) → count_char b'\n' s ≡ 0 → NoChar b'\n' s
no_break s h = NoChar-of_count b'\n' s h

five : NoChar b'\n' (codes "5")
unfolding count_char
five = no_break (codes "5") refl

audit : NoChar b'\n' (codes "audit")
unfolding count_char
audit = no_break (codes "audit") refl

braces : NoChar b'\n' (codes "{\"a\": 1}")
unfolding count_char
braces = no_break (codes "{\"a\": 1}") refl

parse_block-written_example :
    parse_block (written (codes "5") (codes "audit") (codes "{\"a\": 1}" ∷ []))
    ≡ some (record {
      event = codes "audit";
      payload = join (codes "\n") (codes "{\"a\": 1}" ∷ []);
      id = some (codes "5");
    })
parse_block-written_example =
    parse_block-written (codes "5") (codes "audit") (codes "{\"a\": 1}") [] five audit (braces, tt)
