-- ===== src/Durations/TtlField.antt =====
-- The state of web/src/shared/ui/kit/ttl-field/ttl-field.tsx on whole numbers: the number and the
-- unit that are shown, and the seconds that the form holds. The parent keeps what it is told.
use tuck.Base.{
  ℕ, ◌*◌, ◌/◌, ◌%◌, ◌≡◌, refl, List, [], ◌∷◌, Bool, true, false, Option, none, some, arith, ◌==◌,
  if◌then◌else◌,
}

-- `UNITS`
pub data TtlUnit : Type 0 where
  days hours minutes seconds : TtlUnit

unfoldable pub unit_length : TtlUnit → ℕ
unit_length days = 86400
unit_length hours = 3600
unit_length minutes = 60
unit_length seconds = 1

unfoldable pub best_unit : ℕ → TtlUnit
best_unit s =
    if s == 0
    then minutes
    else if s % 86400 == 0
    then days
    else if s % 3600 == 0
    then hours
    else if s % 60 == 0
    then minutes
    else seconds

-- `raw` is `none` for an empty input.
pub record TtlField : Type 0 where
  pub unit : TtlUnit
  pub raw : Option ℕ
  pub value : ℕ

unfoldable pub raw_number : Option ℕ → ℕ
raw_number none = 0
raw_number (some n) = n

-- `(raw === '' ? 0 : raw) * unit`
unfoldable pub shown_seconds : TtlField → ℕ
unfolding raw_number unit_length
shown_seconds f = raw_number f.raw * unit_length f.unit

unfoldable pub in_unit : TtlUnit → ℕ → TtlField
unfolding unit_length
in_unit u value = record { unit = u; raw = some (value / unit_length u); value = value }

unfoldable pub mounted : ℕ → TtlField
unfolding in_unit best_unit
mounted value = in_unit (best_unit value) value

-- The effect that follows outside changes.
unfoldable pub follow : TtlField → TtlField
unfolding shown_seconds in_unit best_unit unit_length
follow f =
    if shown_seconds f == f.value
    then f
    else in_unit (if f.value % unit_length f.unit == 0 then f.unit else best_unit f.value) f.value

-- `setNumber` with a number, or with an empty input.
unfoldable pub set_number : Option ℕ → TtlField → TtlField
unfolding raw_number unit_length
set_number n f = record { unit = f.unit; raw = n; value = raw_number n * unit_length f.unit }

unfoldable pub pick_unit : TtlUnit → TtlField → TtlField
unfolding raw_number unit_length
pick_unit u f = record { unit = u; raw = f.raw; value = raw_number f.raw * unit_length u }

unfoldable pub pick_preset : ℕ → TtlField → TtlField
unfolding in_unit best_unit
pick_preset s f = in_unit (best_unit s) s

pub data TtlAction : Type 0 where
  types : Option ℕ → TtlAction
  chooses : TtlUnit → TtlAction
  taps : ℕ → TtlAction
  resets : ℕ → TtlAction

-- An action, a render and its effect.
unfoldable pub ttl_step : TtlAction → TtlField → TtlField
unfolding follow set_number pick_unit pick_preset
ttl_step (types n) f = follow (set_number n f)
ttl_step (chooses u) f = follow (pick_unit u f)
ttl_step (taps s) f = follow (pick_preset s f)
ttl_step (resets v) f = follow (record f { value = v })

unfoldable pub ttl_run : List TtlAction → TtlField → TtlField
unfolding ttl_step
ttl_run [] f = f
ttl_run (a ∷ rest) f = ttl_run rest (ttl_step a f)

exact : (u : TtlUnit) (v : ℕ) → v % unit_length u ≡ 0 → v / unit_length u * unit_length u ≡ v
unfolding unit_length
exact days v h = omega arith
exact hours v h = omega arith
exact minutes v h = omega arith
exact seconds v h = omega arith

best_unit-divides : (v : ℕ) → v % unit_length (best_unit v) ≡ 0
unfolding best_unit unit_length
best_unit-divides v = ground arith

-- The field shows the seconds of the form.
abbrev pub IsExact : TtlField → Type 0
IsExact f = shown_seconds f ≡ f.value

in_unit-IsExact : (u : TtlUnit) (v : ℕ) → v % unit_length u ≡ 0 → IsExact (in_unit u v)
unfolding in_unit shown_seconds raw_number
in_unit-IsExact u v h = exact u v h

shown-same : (f : TtlField) → (shown_seconds f == f.value) ≡ true → IsExact f
shown-same f e = ground arith

either-IsExact :
    (b : Bool) (f g : TtlField) → (b ≡ true → IsExact f) → IsExact g → IsExact (if b then f else g)
either-IsExact true f g h k = h refl
either-IsExact false f g h k = k

either-divides :
    (b : Bool) (u w : TtlUnit) (v : ℕ)
    → (b ≡ true → v % unit_length u ≡ 0)
    → v % unit_length w ≡ 0
    → v % unit_length (if b then u else w) ≡ 0
either-divides true u w v h k = h refl
either-divides false u w v h k = k

follow-IsExact : (f : TtlField) → IsExact (follow f)
unfolding follow
follow-IsExact f =
    either-IsExact (shown_seconds f == f.value) f _ (λ e. shown-same f e)
      (in_unit-IsExact _ f.value (
        either-divides (f.value % unit_length f.unit == 0) f.unit (best_unit f.value) f.value
          (λ e. ground arith) (best_unit-divides f.value)))

ttl_step-IsExact : (a : TtlAction) (f : TtlField) → IsExact (ttl_step a f)
unfolding ttl_step
ttl_step-IsExact (types n) f = follow-IsExact (set_number n f)
ttl_step-IsExact (chooses u) f = follow-IsExact (pick_unit u f)
ttl_step-IsExact (taps s) f = follow-IsExact (pick_preset s f)
ttl_step-IsExact (resets v) f = follow-IsExact (record f { value = v })

ttl_run-IsExact : (todo : List TtlAction) (f : TtlField) → IsExact f → IsExact (ttl_run todo f)
unfolding ttl_run
ttl_run-IsExact [] f h = h
ttl_run-IsExact (a ∷ todo) f h = ttl_run-IsExact todo (ttl_step a f) (ttl_step-IsExact a f)

-- From the first render on, whatever is typed, chosen, tapped or reset from outside, the number
-- that is shown, times its unit, is exactly the number of seconds that the form holds.
pub mounted-IsExact : (v : ℕ) (todo : List TtlAction) → IsExact (ttl_run todo (mounted v))
unfolding mounted
mounted-IsExact v todo =
    ttl_run-IsExact todo (mounted v) (in_unit-IsExact (best_unit v) v (best_unit-divides v))
