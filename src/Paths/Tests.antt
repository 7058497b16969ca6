-- ===== src/Paths/Tests.antt =====
-- The checks on names at concrete inputs.
use tuck.Base.{
  codes, ◌≡◌, ◌↔◌, refl, All, split_on, trim, some, none, has_text, starts_with, is_space,
}
use tuck.Paths.{validate_name, validate_path, empty, format, NameIssue, slashes, space, chars}
use tuck.Paths.Names.{IsSegment, IsUrlSegment, validate_name_iff, validate_path_iff}

validate_name_tests :
    (validate_name (codes " a/b ") ≡ none)
    × (validate_name (codes "  ") ≡ some empty)
    × (validate_name (codes "a//b") ≡ some format)
    × (validate_name (codes "a/../b") ≡ some format)
    × (validate_name (codes "a/..b") ≡ none)
    × (validate_name (codes "a/") ≡ some format)
unfolding validate_name trim has_text starts_with
validate_name_tests = (refl, refl, refl, refl, refl, refl)

validate_path_tests :
    (validate_path (codes "a/b") ≡ none)
    × (validate_path (codes "") ≡ some NameIssue.empty)
    × (validate_path (codes "a b#") ≡ some space)
    × (validate_path (codes "a#") ≡ some chars)
    × (validate_path (codes "/a") ≡ some slashes)
unfolding validate_path has_text starts_with is_space
validate_path_tests = (refl, refl, refl, refl, refl)

validate_name_iff_example :
    (validate_name (codes "a/b") ≡ none) ↔ All IsSegment (split_on b'/' (trim (codes "a/b")))
validate_name_iff_example = validate_name_iff (codes "a/b")

validate_path_iff_example :
    (validate_path (codes "a/..") ≡ none) ↔ All IsUrlSegment (split_on b'/' (codes "a/.."))
validate_path_iff_example = validate_path_iff (codes "a/..")
