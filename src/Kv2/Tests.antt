-- ===== src/Kv2/Tests.antt =====
-- The diff and the version list on concrete secrets.
use tuck.Base.{
  inl, inr, ℕ, Text, List, [], ◌∷◌, ◌≤◌, codes, ◌≡◌, refl, some, none, false, true, all, map,
  text_eq,
}
use tuck.Kv2.Diff.{DiffLine, lcs_diff, eq_row, del_row, add_row}
use tuck.Kv2.Diff.Sides.{labelled, old_side, new_side, number_sigs, number_lines, lcs_diff_sides}
use tuck.Kv2.Diff.Table.{kept, lcs_diff_longest}
use tuck.Kv2.Versions.{state_of, VersionInfo, version_rows, active, deleted}

abbrev plain : Text → DiffLine
plain s = record { key = none; sig = s; txt = s }

abbrev keyed : Text → Text → DiffLine
keyed k v = record { key = some k; sig = v; txt = v }

abbrev old : List DiffLine
old = plain (codes "a") ∷ plain (codes "b") ∷ plain (codes "c") ∷ []

abbrev new : List DiffLine
new = plain (codes "b") ∷ plain (codes "x") ∷ plain (codes "c") ∷ []

lcs_diff_tests :
    (lcs_diff old new
      ≡ del_row 0 (plain (codes "a"))
        ∷ eq_row 1 0 (plain (codes "b"))
        ∷ add_row 1 (plain (codes "x"))
        ∷ eq_row 2 2 (plain (codes "c"))
        ∷ [])
    × (lcs_diff (keyed (codes "k") (codes "1") ∷ []) (keyed (codes "k") (codes "2") ∷ [])
        ≡ del_row 0 (keyed (codes "k") (codes "1"))
          ∷ add_row 0 (keyed (codes "k") (codes "2"))
          ∷ [])
unfolding lcs_diff text_eq
lcs_diff_tests = (refl, refl)

lcs_diff_sides_example :
    (old_side (lcs_diff old new) ≡ number_sigs 0 old)
    × (new_side (lcs_diff old new) ≡ number_lines 0 new)
    × (all labelled (lcs_diff old new) ≡ true)
lcs_diff_sides_example = lcs_diff_sides old new

lcs_diff_longest_example : 2 ≤ kept (lcs_diff old new)
lcs_diff_longest_example =
    lcs_diff_longest old new (codes "b" ∷ codes "c" ∷ []) (refl, (refl, (refl, tt)))
      (inr (inl (refl, inl (refl, tt)))) (inl (refl, inr (inl (refl, tt))))

abbrev versions : List (ℕ × VersionInfo)
versions =
    (10, record { created_by = none; created_at = none; deleted_at = none; is_destroyed = false })
    ∷ (
      2,
      record {
        created_by = none;
        created_at = none;
        deleted_at = some (codes "2026");
        is_destroyed = false;
      },
    )
    ∷ []

version_rows_tests : map (λ r. r.state) (version_rows (some versions)) ≡ deleted ∷ active ∷ []
unfolding version_rows state_of
version_rows_tests = refl
