-- ===== src/LiveLog/Rows.antt =====
-- The rows that are kept: the newest, and never more than the cap.
use tuck.Base.{
  ℕ, zero, suc, ◌≤◌, ◌≡◌, refl, sym, ap, subst, ◌∙◌, Text, List, [], ◌∷◌, ◌++◌, codes, true, false,
  Option, none, some, arith, if◌then◌else◌, text_eq, length, take, append_assoc, Option-cases,
  Bool-cases, inl, inr,
}
use tuck.LiveLog.{live_log_cap, SseEvent, parse_block}
use tuck.LiveLog.Tail.{Tail, take_entry, take_event, take_block, take_blocks}

module _ {ℓ} {A : Type ℓ} where
  length-take : (n : ℕ) (xs : List A) → length (take n xs) ≤ n
  length-take zero xs = omega arith
  length-take (suc n) [] = omega arith
  length-take (suc n) (x ∷ xs) = omega (arith, length-take n xs)

  take-short : (n : ℕ) (xs : List A) → length xs ≤ n → take n xs ≡ xs
  take-short zero [] h = refl
  take-short zero (x ∷ xs) h = absurd (omega arith)
  take-short (suc n) [] h = refl
  take-short (suc n) (x ∷ xs) h = ap (λ ys. x ∷ ys) (take-short n xs (omega arith))

  take-append_take :
      (n m : ℕ) (ys xs : List A) → n ≤ m → take n (ys ++ take m xs) ≡ take n (ys ++ xs)
  take-append_take zero m ys xs h = refl
  take-append_take (suc n) m (y ∷ ys) xs h =
      ap (λ zs. y ∷ zs) (take-append_take n m ys xs (omega arith))
  take-append_take (suc n) zero [] xs h = absurd (omega arith)
  take-append_take (suc n) (suc m) [] [] h = refl
  take-append_take (suc n) (suc m) [] (x ∷ xs) h =
      ap (λ zs. x ∷ zs) (take-append_take n m [] xs (omega arith))

module _ {ℓ} {Entry : Type ℓ} (seq_of : Entry → ℕ) (entry_of : Text → Option Entry)
    (head_of : Text → Option ℕ) where
  -- The entry of an event, when it is an `audit` event that decodes.
  unfoldable pub entry_in : Option SseEvent → List Entry
  unfolding text_eq
  entry_in none = []
  entry_in (some ev) =
      if text_eq ev.event (codes "audit")
      then elim (entry_of ev.payload) [ none ↦ [] | some entry ↦ entry ∷ [] ]
      else []

  -- The entries of the blocks, newest first.
  unfoldable pub arrived : List Text → List Entry
  unfolding entry_in
  arrived [] = []
  arrived (block ∷ more) = arrived more ++ entry_in (parse_block block)

  -- An event of another kind leaves the rows.
  take_event-other :
      (ev : SseEvent) (t : Tail Entry)
      → text_eq ev.event (codes "audit") ≡ false
      → (take_event seq_of entry_of head_of ev t).rows ≡ t.rows
  unfolding take_event
  take_event-other ev t a = ground (arith, Option-cases (head_of ev.payload))

  take_event-audit :
      (ev : SseEvent) (t : Tail Entry) (o : Option Entry)
      → text_eq ev.event (codes "audit") ≡ true
      → entry_of ev.payload ≡ o
      → length t.rows ≤ live_log_cap
      → (take_event seq_of entry_of head_of ev t).rows
        ≡ take live_log_cap (entry_in (some ev) ++ t.rows)
  unfolding take_event take_entry entry_in
  take_event-audit ev t none a e h = rw (a, e) (sym (take-short live_log_cap t.rows h))
  take_event-audit ev t (some entry) a e h = rw (a, e) refl

  take_event-rows :
      (ev : SseEvent) (t : Tail Entry)
      → length t.rows ≤ live_log_cap
      → (take_event seq_of entry_of head_of ev t).rows
        ≡ take live_log_cap (entry_in (some ev) ++ t.rows)
  unfolding entry_in
  take_event-rows ev t h = elim (Bool-cases (text_eq ev.event (codes "audit"))) [
    | inl a ↦ take_event-audit ev t (entry_of ev.payload) a refl h
    | inr a ↦ take_event-other ev t a ∙ rw a (sym (take-short live_log_cap t.rows h))
  ]

  take_block-rows :
      (block : Text) (o : Option SseEvent) (t : Tail Entry)
      → parse_block block ≡ o
      → length t.rows ≤ live_log_cap
      → (take_block seq_of entry_of head_of block t).rows
        ≡ take live_log_cap (entry_in (parse_block block) ++ t.rows)
  unfolding take_block entry_in
  take_block-rows block none t e h = rw (take_block, e) (sym (take-short live_log_cap t.rows h))
  take_block-rows block (some ev) t e h = rw (take_block, e) (take_event-rows ev t h)

  -- The rows are the entries that arrived, newest first, in front of the rows that were there, cut
  -- after 500; there are never more. It holds for every decoder, if there were at most 500 rows
  -- before.
  pub take_blocks-rows :
      (xs : List Text) (t : Tail Entry)
      → length t.rows ≤ live_log_cap
      → ((take_blocks seq_of entry_of head_of xs t).rows ≡ take live_log_cap (arrived xs ++ t.rows))
        × (length (take_blocks seq_of entry_of head_of xs t).rows ≤ live_log_cap)
  unfolding take_blocks arrived
  take_blocks-rows [] t h = (sym (take-short live_log_cap t.rows h), h)
  take_blocks-rows (x ∷ xs) t h =
      let small = take_block-rows x (parse_block x) t refl h in
      let bound : length (take_block seq_of entry_of head_of x t).rows ≤ live_log_cap =
        subst (λ r. length r ≤ live_log_cap) (sym small)
          (length-take live_log_cap (entry_in (parse_block x) ++ t.rows)) in
      let ih = take_blocks-rows xs (take_block seq_of entry_of head_of x t) bound in
      (
        ih.0
            ∙ ap (λ r. take live_log_cap (arrived xs ++ r)) small
            ∙ take-append_take live_log_cap live_log_cap (arrived xs)
                (entry_in (parse_block x) ++ t.rows) (omega arith)
            ∙ ap (take live_log_cap)
                (sym (append_assoc (arrived xs) (entry_in (parse_block x)) t.rows)),
        ih.1,
      )
