-- ===== src/Wrapping/Notes.antt =====
-- A capsule that outlived its TTL is told, and told once.
use tuck.Base.{
  ℕ, ◌≡◌, refl, sym, ap, ◌∙◌, subst, Text, List, [], ◌∷◌, ◌++◌, Bool, true, false, not, ◌&&◌, ◌||◌,
  Option, arith, All, text_eq, text_eq_iff, text_eq_refl, if◌then◌else◌, Bool-cases, inl, inr,
}
use tuck.Base.{◌==◌}
use tuck.Wrapping.{
  Patch, status_patch, missing, expired, note_expired, Capsule, Session, overdue, is_noted, note,
  note_all, upsert, tick_now, fails, is_used, capsule_of, Action, upserts, ticks, fails_with, picks,
  act, run, put_capsule,
}

-- No token stands twice.
abbrev pub Distinct : List Text → Type 0
Distinct [] = Unit
Distinct (t ∷ ts) = (is_noted ts t ≡ false) × Distinct ts

-- Every capsule of the list that is overdue has been noted.
abbrev pub AllNoted : ℕ → List Text → List Capsule → Type 0
AllNoted now noted all = All (λ c. overdue now c ≡ true → is_noted noted c.token ≡ true) all

is_noted-append :
    (ts us : List Text) (t : Text) → is_noted (ts ++ us) t ≡ (is_noted ts t || is_noted us t)
unfolding is_noted
is_noted-append [] us t = refl
is_noted-append (x ∷ ts) us t = ground (arith, is_noted-append ts us t)

text_eq-flip : (x t : Text) → text_eq x t ≡ false → text_eq t x ≡ false
text_eq-flip x t h = elim (Bool-cases (text_eq t x)) [
  | inl e ↦ ground (arith, (text_eq_iff x t).1 (sym ((text_eq_iff t x).0 e)))
  | inr e ↦ e
]

Distinct-add :
    (ts : List Text) (t : Text) → Distinct ts → is_noted ts t ≡ false → Distinct (ts ++ t ∷ [])
unfolding is_noted
Distinct-add [] t h n = (refl, tt)
Distinct-add (x ∷ ts) t h n = (
  is_noted-append ts (t ∷ []) x ∙ ground (arith, text_eq-flip x t (ground arith)),
  Distinct-add ts t h.1 (ground arith),
)

-- What the effect keeps: the tokens that were told are those that were noted, each once.
abbrev pub IsTold : Session → Type 0
IsTold s = (s.toasts ≡ s.noted) × Distinct s.noted

either-IsTold :
    (b : Bool) (s s' : Session) → (b ≡ true → IsTold s) → IsTold s' → IsTold (if b then s else s')
either-IsTold true s s' h k = h refl
either-IsTold false s s' h k = k

note-IsTold : (c : Capsule) (s : Session) → IsTold s → IsTold (note c s)
unfolding note
note-IsTold c s h =
    either-IsTold (overdue s.now c && not (is_noted s.noted c.token)) _ s
      (λ e. (ap (λ ts. ts ++ c.token ∷ []) h.0, Distinct-add s.noted c.token h.1 (ground arith))) h

note-now : (c : Capsule) (s : Session) → (note c s).now ≡ s.now
unfolding note
note-now c s = ground arith

note-is_noted :
    (c : Capsule) (s : Session) (t : Text)
    → is_noted s.noted t ≡ true
    → is_noted (note c s).noted t ≡ true
unfolding note
note-is_noted c s t h = ground (arith, is_noted-append s.noted (c.token ∷ []) t)

is_noted_self : (t : Text) → is_noted (t ∷ []) t ≡ true
unfolding is_noted
is_noted_self t = ground (arith, text_eq_refl t)

note-overdue :
    (c : Capsule) (s : Session) → overdue s.now c ≡ true → is_noted (note c s).noted c.token ≡ true
unfolding note
note-overdue c s h =
    ground (arith, is_noted-append s.noted (c.token ∷ []) c.token, is_noted_self c.token)

note_all-IsTold : (all : List Capsule) (s : Session) → IsTold s → IsTold (note_all all s)
unfolding note_all
note_all-IsTold [] s h = h
note_all-IsTold (c ∷ all) s h = note_all-IsTold all (note c s) (note-IsTold c s h)

note_all-is_noted :
    (all : List Capsule) (s : Session) (t : Text)
    → is_noted s.noted t ≡ true
    → is_noted (note_all all s).noted t ≡ true
unfolding note_all
note_all-is_noted [] s t h = h
note_all-is_noted (c ∷ all) s t h = note_all-is_noted all (note c s) t (note-is_noted c s t h)

note_all-AllNoted : (all : List Capsule) (s : Session) → AllNoted s.now (note_all all s).noted all
unfolding note_all
note_all-AllNoted [] s = tt
note_all-AllNoted (c ∷ all) s = (
  λ h. note_all-is_noted all (note c s) c.token (note-overdue c s h),
  subst (λ n. AllNoted n (note_all all (note c s)).noted all) (note-now c s)
      (note_all-AllNoted all (note c s)),
)

note-capsules : (c : Capsule) (s : Session) → (note c s).capsules ≡ s.capsules
unfolding note
note-capsules c s = ground arith

note_all-same :
    (all : List Capsule) (s : Session)
    → ((note_all all s).capsules ≡ s.capsules) × ((note_all all s).now ≡ s.now)
unfolding note_all
note_all-same [] s = (refl, refl)
note_all-same (c ∷ all) s =
    let (capsules, now) = note_all-same all (note c s) in
    (capsules ∙ note-capsules c s, now ∙ note-now c s)

-- A session in which everything was said.
abbrev pub IsSettled : Session → Type 0
IsSettled s = IsTold s × AllNoted s.now s.noted s.capsules

note_expired-IsSettled : (s : Session) → IsTold s → IsSettled (note_expired s)
unfolding note_expired
note_expired-IsSettled s h =
    let (capsules, now) = note_all-same s.capsules s in
    (
      note_all-IsTold s.capsules s h,
      subst (λ n. AllNoted n (note_all s.capsules s).noted (note_all s.capsules s).capsules)
          (sym now)
          (subst (λ cs. AllNoted s.now (note_all s.capsules s).noted cs) (sym capsules)
            (note_all-AllNoted s.capsules s)),
    )

either-IsSettled :
    (b : Bool) (s s' : Session) → IsSettled s → IsSettled s' → IsSettled (if b then s else s')
either-IsSettled true s s' h k = h
either-IsSettled false s s' h k = k

upsert-IsSettled :
    (token : Text) (p : Patch) (s : Session) → IsSettled s → IsSettled (upsert token p s)
unfolding upsert
upsert-IsSettled token p s h =
    note_expired-IsSettled (record s { capsules = put_capsule token p s.capsules }) h.0

fails-IsSettled :
    (token : Text) (status : ℕ) (s : Session) → IsSettled s → IsSettled (fails token status s)
unfolding fails
fails-IsSettled token status s h =
    let was_used = is_used (capsule_of token s.capsules) in
    let lost = upsert token (status_patch missing) s in
    let over = upsert token (status_patch expired) s in
    either-IsSettled (status == 404) _ _
      (either-IsSettled (not was_used) lost s (upsert-IsSettled token (status_patch missing) s h) h)
      (either-IsSettled (status == 410) _ s
        (either-IsSettled (not was_used) over s (upsert-IsSettled token (status_patch expired) s h)
          h)
        h)

act-IsSettled : (a : Action) (s : Session) → IsSettled s → IsSettled (act a s)
unfolding act tick_now
act-IsSettled (upserts token p) s h = upsert-IsSettled token p s h
act-IsSettled (ticks now) s h = note_expired-IsSettled (record s { now = now }) h.0
act-IsSettled (fails_with token status) s h = fails-IsSettled token status s h
act-IsSettled (picks token) s h = h

run-IsSettled : (todo : List Action) (s : Session) → IsSettled s → IsSettled (run todo s)
unfolding run
run-IsSettled [] s h = h
run-IsSettled (a ∷ todo) s h = run-IsSettled todo (act a s) (act-IsSettled a s h)

-- A tab that has just been opened.
abbrev pub new_tab : Option Text → ℕ → Session
new_tab cur now = record { capsules = []; cur = cur; now = now; noted = []; toasts = [] }

-- After any wraps, lookups, failures, choices and ticks of the timer, every capsule that the tab
-- believes active and whose time is over has been told, and no token was told twice.
pub new_tab-told_once :
    (cur : Option Text) (now : ℕ) (todo : List Action)
    → let s = run todo (new_tab cur now) in
      Distinct s.toasts
      × All (λ c. overdue s.now c ≡ true → is_noted s.toasts c.token ≡ true) s.capsules
new_tab-told_once cur now todo =
    let ((same, apart), noted) = run-IsSettled todo (new_tab cur now) ((refl, tt), tt) in
    (
      subst Distinct (sym same) apart,
      subst
          (λ ts. AllNoted (run todo (new_tab cur now)).now ts (run todo (new_tab cur now)).capsules)
          (sym same) noted,
    )
