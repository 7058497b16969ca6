-- ===== src/Durations/Tests.antt =====
-- The durations and clocks on concrete numbers.
use tuck.Base.{◌≡◌, refl, codes, some, pos, negsuc}
use tuck.Durations.{null, nan, secs, parse_dur, fmt_short, to_go_duration, fmt_ttl}
use tuck.Base.{List, [], ◌∷◌, none}
use tuck.Durations.TtlField.{
  TtlAction, types, chooses, taps, resets, ttl_run, mounted, minutes, days, IsExact,
  mounted-IsExact,
}
use tuck.Durations.Clock.{clock, format_remaining, fmt_left}

duration_tests :
    (fmt_short 172800 ≡ codes "2d")
    × (parse_dur (codes " 15 M ") ≡ secs 900)
    × (parse_dur (codes "1h30m") ≡ nan)
    × (parse_dur (codes "  ") ≡ null)
    × (to_go_duration 172800 ≡ some (codes "48h"))
    × (fmt_ttl 86400 ≡ codes "24h")
unfolding fmt_short parse_dur to_go_duration fmt_ttl
duration_tests = (refl, refl, refl, refl, refl, refl)

clock_tests :
    (clock (pos 3599001) ≡ codes "1:00:00")
    × (clock (negsuc 5) ≡ codes "00:00")
    × (format_remaining (pos 187929999) (codes "d") ≡ codes "2d 04:12:09")
    × (fmt_left (some 7261) (codes "d") (codes "h") (codes "m") ≡ codes "2h 01m")
unfolding clock format_remaining fmt_left
clock_tests = (refl, refl, refl, refl)

abbrev todo : List TtlAction
todo = types (some 90) ∷ chooses minutes ∷ resets 7200 ∷ taps 900 ∷ types none ∷ []

ttl_tests :
    (ttl_run (types (some 90) ∷ chooses minutes ∷ resets 7200 ∷ []) (mounted 3600)
      ≡ record { unit = minutes; raw = some 120; value = 7200 })
    × (mounted 86400 ≡ record { unit = days; raw = some 1; value = 86400 })
unfolding ttl_run mounted
ttl_tests = (refl, refl)

mounted-IsExact_example : IsExact (ttl_run todo (mounted 3600))
mounted-IsExact_example = mounted-IsExact 3600 todo
