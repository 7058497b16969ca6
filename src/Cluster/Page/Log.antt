-- ===== src/Cluster/Page/Log.antt =====
-- The log of the cluster screen: its numbers run on, and it never has more than 200 entries.
use tuck.Base.{
  ℕ, zero, suc, ◌+◌, ◌-◌, ◌≤◌, ◌≡◌, refl, sym, ap, ◌∙◌, subst, Text, List, [], ◌∷◌, ◌++◌, Bool,
  true, false, some, arith, map, length, length-append, drop, is_empty, if◌then◌else◌,
}
use tuck.Cluster.{ClusterStatus}
use tuck.Cluster.Events.{diff_status}
use tuck.Cluster.Page.{
  Note, seen, LogEntry, PageState, last_200, entries, add_notes, log_events, poll, prune,
  start_step_down, step_down_fails, step_down_ends, toggle_sel, toggle_all, confirm_remove, rows_of,
  has_id, remove_loop,
}
use tuck.Cluster.Page.Steps.{
  Action, polls, filters, opens, closes, toggles, toggles_all, removes, steps_down, fails, ends,
  times_out, first_page, act, run,
}

-- The ids run from `k` on.
abbrev pub RunsFrom : ℕ → List LogEntry → Type 0
RunsFrom k [] = Unit
RunsFrom k (x ∷ xs) = (x.id ≡ k) × RunsFrom (suc k) xs

RunsFrom-append :
    (k : ℕ) (xs ys : List LogEntry)
    → RunsFrom k xs
    → RunsFrom (k + length xs) ys
    → RunsFrom k (xs ++ ys)
RunsFrom-append k [] ys h l = subst (λ n. RunsFrom n ys) (omega arith) l
RunsFrom-append k (x ∷ xs) ys h l =
    (h.0, RunsFrom-append (suc k) xs ys h.1 (subst (λ n. RunsFrom n ys) (omega arith) l))

RunsFrom-drop :
    (n k : ℕ) (xs : List LogEntry) → n ≤ length xs → RunsFrom k xs → RunsFrom (k + n) (drop n xs)
RunsFrom-drop zero k xs l h = subst (λ m. RunsFrom m xs) (omega arith) h
RunsFrom-drop (suc n) k [] l h = absurd (omega arith)
RunsFrom-drop (suc n) k (x ∷ xs) l h =
    subst (λ m. RunsFrom m (drop n xs)) (omega arith) (RunsFrom-drop n (suc k) xs (omega arith) h.1)

length-drop : (n : ℕ) (xs : List LogEntry) → length (drop n xs) ≡ length xs - n
length-drop zero xs = omega arith
length-drop (suc n) [] = omega arith
length-drop (suc n) (x ∷ xs) = omega (arith, length-drop n xs)

RunsFrom-entries : (last ts : ℕ) (notes : List Note) → RunsFrom (suc last) (entries last ts notes)
unfolding entries
RunsFrom-entries last ts [] = tt
RunsFrom-entries last ts (n ∷ notes) = (refl, RunsFrom-entries (suc last) ts notes)

length-entries : (last ts : ℕ) (notes : List Note) → length (entries last ts notes) ≡ length notes
unfolding entries
length-entries last ts [] = refl
length-entries last ts (n ∷ notes) = ap suc (length-entries (suc last) ts notes)

-- The log holds the entries up to the last number, without a gap, and at most 200 of them.
abbrev pub IsNumbered : List LogEntry → ℕ → Type 0
IsNumbered log last = (k : ℕ) × RunsFrom k log × (k + length log ≡ suc last) × (length log ≤ 200)

add-IsNumbered :
    (log : List LogEntry) (last ts : ℕ) (notes : List Note)
    → IsNumbered log last
    → IsNumbered (last_200 (log ++ entries last ts notes)) (last + length notes)
unfolding last_200
add-IsNumbered log last ts notes (k, runs, sum, few) =
    let all = log ++ entries last ts notes in
    let total : length all ≡ length log + length notes =
      length-append log (entries last ts notes)
      ∙ ap (λ n. length log + n) (length-entries last ts notes) in
    let whole : RunsFrom k all = RunsFrom-append k log (entries last ts notes) runs (
      subst (λ n. RunsFrom n (entries last ts notes)) (sym sum) (RunsFrom-entries last ts notes)) in
    (
      k + (length all - 200),
      RunsFrom-drop (length all - 200) k all (omega arith) whole,
      omega (arith, length-drop (length all - 200) all, total, sum),
      omega (arith, length-drop (length all - 200) all),
    )

module _ {Metrics : Type 0} where
  either-IsNumbered :
      (b : Bool) (p q : PageState Metrics)
      → IsNumbered p.log p.last_id
      → IsNumbered q.log q.last_id
      → IsNumbered (if b then p else q).log (if b then p else q).last_id
  either-IsNumbered true p q h k = h
  either-IsNumbered false p q h k = k

  poll-IsNumbered :
      (ts : ℕ) (status : ClusterStatus Metrics) (p : PageState Metrics)
      → IsNumbered p.log p.last_id
      → IsNumbered (poll ts status p).log (poll ts status p).last_id
  unfolding poll log_events prune add_notes
  poll-IsNumbered ts status p h =
      elim (diff_status p.status status)
        as (λ events.
          let next =
            if is_empty events
            then record p { status = some status }
            else add_notes ts (map seen events) (record p { status = some status }) in
          IsNumbered next.log next.last_id) [
            | [] ↦ h
            | x ∷ xs ↦ add-IsNumbered p.log p.last_id ts (map seen (x ∷ xs)) h
          ]

  confirm-IsNumbered :
      (ok : Text → Bool) (ids : List Text) (p : PageState Metrics)
      → IsNumbered p.log p.last_id
      → IsNumbered (confirm_remove ok ids p).log (confirm_remove ok ids p).last_id
  unfolding confirm_remove
  confirm-IsNumbered ok ids p h = either-IsNumbered (is_empty (remove_loop ok ids).0) p _ h h

  act-IsNumbered :
      (a : Action Metrics) (p : PageState Metrics)
      → IsNumbered p.log p.last_id
      → IsNumbered (act a p).log (act a p).last_id
  unfolding act add_notes toggle_sel toggle_all start_step_down step_down_fails step_down_ends
  act-IsNumbered (polls ts status) p h = poll-IsNumbered ts status p h
  act-IsNumbered (filters f) p h = h
  act-IsNumbered (opens id) p h =
      either-IsNumbered (has_id (rows_of p) id) (record p { open_id = some id }) p h h
  act-IsNumbered closes p h = h
  act-IsNumbered (toggles id) p h =
      either-IsNumbered (has_id (rows_of p) id) (toggle_sel id p) p h h
  act-IsNumbered toggles_all p h = h
  act-IsNumbered (removes ok ids) p h = confirm-IsNumbered ok ids p h
  act-IsNumbered (steps_down ts auto target) p h = add-IsNumbered p.log p.last_id ts (_ ∷ []) h
  act-IsNumbered (fails ts reason) p h = add-IsNumbered p.log p.last_id ts (_ ∷ []) h
  act-IsNumbered (ends ts from) p h = add-IsNumbered p.log p.last_id ts (_ ∷ []) h
  act-IsNumbered times_out p h = h

  run-IsNumbered :
      (todo : List (Action Metrics)) (p : PageState Metrics)
      → IsNumbered p.log p.last_id
      → IsNumbered (run todo p).log (run todo p).last_id
  unfolding run
  run-IsNumbered [] p h = h
  run-IsNumbered (a ∷ todo) p h = run-IsNumbered todo (act a p) (act-IsNumbered a p h)

  -- After any answers and actions, the log of a page that started empty has its entries numbered
  -- without a gap up to the last number that was given out, and at most 200 of them.
  pub first_page-IsNumbered :
      (todo : List (Action Metrics))
      → IsNumbered (run todo first_page).log (run todo first_page).last_id
  first_page-IsNumbered todo = run-IsNumbered todo first_page (1, tt, omega arith, omega arith)
