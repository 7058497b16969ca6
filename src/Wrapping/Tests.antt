-- ===== src/Wrapping/Tests.antt =====
-- Capsules of a tab.
use tuck.Base.{◌≡◌, refl, List, [], ◌∷◌, codes, none, some, All, true, text_eq}
use tuck.Wrapping.{
  Action, upserts, ticks, fails_with, Patch, sets, active, used, run, status_patch, overdue,
  is_noted, status_of, capsule_of,
}
use tuck.Wrapping.Notes.{Distinct, new_tab, new_tab-told_once}

abbrev wrapped : Patch
wrapped = record (status_patch active) { created = sets (some 0); expires = sets (some 10) }

abbrev todo : List Action
todo =
    upserts (codes "t") wrapped
    ∷ ticks 11
    ∷ ticks 12
    ∷ upserts (codes "u") (status_patch used)
    ∷ fails_with (codes "u") 404
    ∷ []

session_tests :
    ((run todo (new_tab none 0)).toasts ≡ codes "t" ∷ [])
    × (status_of (capsule_of (codes "u") (run todo (new_tab none 0)).capsules) 12 ≡ some used)
unfolding run status_of text_eq
session_tests = (refl, refl)

new_tab-told_once_example :
    Distinct (run todo (new_tab none 0)).toasts
    × All
        (λ c.
          overdue (run todo (new_tab none 0)).now c ≡ true
          → is_noted (run todo (new_tab none 0)).toasts c.token ≡ true)
        (run todo (new_tab none 0)).capsules
new_tab-told_once_example = new_tab-told_once none 0 todo
