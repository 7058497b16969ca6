-- ===== src/LiveLog/Format.antt =====
-- Blocks in the format of a stream of events are read back by `parseBlock`.
use tuck.Base.{
  ◌≡◌, refl, sym, ap, ◌∙◌, Text, List, [], ◌∷◌, ◌++◌, codes, some, map, All, NoChar, NoChar-append,
  NoChar-of_count, split_on, split_on-join, join, append-nil, append_assoc, count_char,
}
use tuck.LiveLog.{Fields, no_fields, take_line, take_lines, event_of, parse_block}

-- A block with an id, an event and lines of data, as a server writes it.
pub written : Text → Text → List Text → Text
unfolding join
written id event ds =
    join (codes "\n")
      ((codes "id: " ++ id) ∷ (codes "event: " ++ event) ∷ map (λ d. codes "data: " ++ d) ds)

take_line-id : (f : Fields) (v : Text) → take_line f (codes "id: " ++ v) ≡ record f { id = some v }
unfolding take_line
take_line-id f v = refl

take_line-event :
    (f : Fields) (v : Text) → take_line f (codes "event: " ++ v) ≡ record f { event = v }
unfolding take_line
take_line-event f v = refl

take_line-data :
    (f : Fields) (v : Text)
    → take_line f (codes "data: " ++ v) ≡ record f { parts = f.parts ++ v ∷ [] }
unfolding take_line
take_line-data f v = refl

take_lines-data :
    (f : Fields) (ds : List Text)
    → take_lines f (map (λ d. codes "data: " ++ d) ds) ≡ record f { parts = f.parts ++ ds }
unfolding take_lines
take_lines-data f [] = ap (λ p. record f { parts = p }) (sym (append-nil f.parts))
take_lines-data f (d ∷ ds) =
    ap (λ g. take_lines g (map (λ v. codes "data: " ++ v) ds)) (take_line-data f d)
    ∙ take_lines-data (record f { parts = f.parts ++ d ∷ [] }) ds
    ∙ ap (λ p. record f { parts = p }) (append_assoc f.parts (d ∷ []) ds)

NoChar-data :
    (ds : List Text)
    → All (NoChar b'\n') ds
    → All (NoChar b'\n') (map (λ d. codes "data: " ++ d) ds)
unfolding count_char
NoChar-data [] h = h
NoChar-data (d ∷ ds) h = (
  NoChar-append b'\n' (codes "data: ") d (NoChar-of_count b'\n' (codes "data: ") refl) h.0,
  NoChar-data ds h.1,
)

NoChar-lines :
    (id event : Text) (ds : List Text)
    → NoChar b'\n' id
    → NoChar b'\n' event
    → All (NoChar b'\n') ds
    → All
        (NoChar b'\n')
        ((codes "id: " ++ id) ∷ (codes "event: " ++ event) ∷ map (λ d. codes "data: " ++ d) ds)
unfolding count_char
NoChar-lines id event ds h k l = (
  NoChar-append b'\n' (codes "id: ") id (NoChar-of_count b'\n' (codes "id: ") refl) h,
  (
    NoChar-append b'\n' (codes "event: ") event (NoChar-of_count b'\n' (codes "event: ") refl) k,
    NoChar-data ds l,
  ),
)

take_lines-written :
    (id event : Text) (ds : List Text)
    → take_lines no_fields
        ((codes "id: " ++ id) ∷ (codes "event: " ++ event) ∷ map (λ d. codes "data: " ++ d) ds)
      ≡ record { event = event; id = some id; parts = ds }
unfolding take_lines take_line
take_lines-written id event ds =
    take_lines-data (record { event = event; id = some id; parts = [] }) ds

parse_block-eq : (b : Text) → parse_block b ≡ event_of (take_lines no_fields (split_on b'\n' b))
unfolding parse_block
parse_block-eq b = refl

event_of-data :
    (f : Fields) (d : Text) (ds : List Text)
    → f.parts ≡ d ∷ ds
    → event_of f
      ≡ some (record { event = f.event; payload = join (codes "\n") (d ∷ ds); id = f.id })
unfolding event_of
event_of-data f d ds e = rw e refl

-- The event, the id and the lines of data of a block are read back as they were, colons and blanks
-- in them included, when none of them has a line break and there is a line of data.
pub parse_block-written :
    (id event d : Text) (ds : List Text)
    → NoChar b'\n' id
    → NoChar b'\n' event
    → All (NoChar b'\n') (d ∷ ds)
    → parse_block (written id event (d ∷ ds))
      ≡ some (record { event = event; payload = join (codes "\n") (d ∷ ds); id = some id })
unfolding written
parse_block-written id event d ds h k l =
    parse_block-eq (written id event (d ∷ ds))
    ∙ ap (λ ls. event_of (take_lines no_fields ls))
        (split_on-join b'\n' (codes "id: " ++ id)
          ((codes "event: " ++ event) ∷ map (λ v. codes "data: " ++ v) (d ∷ ds))
          (NoChar-lines id event (d ∷ ds) h k l))
    ∙ ap event_of (take_lines-written id event (d ∷ ds))
    ∙ event_of-data (record { event = event; id = some id; parts = d ∷ ds }) d ds refl
