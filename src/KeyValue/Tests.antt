-- ===== src/KeyValue/Tests.antt =====
-- Rows of the editor.
use tuck.Base.{◌≡◌, ◌↔◌, refl, List, [], ◌∷◌, codes, true, some, Text, All, text_eq}
use tuck.KeyValue.{KvPair, validate_kv, kv_key_pattern, bad_key, duplicate, no_key}
use tuck.KeyValue.Valid.{keys_of, IsKey, Distinct, validate_kv-valid_iff}

abbrev pair : Text → Text → KvPair
pair k v = record { key = k; value = v }

abbrev rows : List KvPair
rows =
    pair (codes "A") (codes "1")
    ∷ pair (codes "") (codes "")
    ∷ pair (codes "") (codes "2")
    ∷ pair (codes " A ") (codes "")
    ∷ pair (codes "0") (codes "")
    ∷ []

kv_tests :
    ((validate_kv kv_key_pattern rows).issues ≡ (2, no_key) ∷ (3, duplicate) ∷ (4, bad_key) ∷ [])
    × ((validate_kv kv_key_pattern rows).problem ≡ some duplicate)
    × ((validate_kv kv_key_pattern (pair (codes "A") (codes "1") ∷ [])).valid ≡ true)
unfolding validate_kv kv_key_pattern text_eq
kv_tests = (refl, refl, refl)

validate_kv-valid_iff_example :
    ((validate_kv kv_key_pattern rows).valid ≡ true)
    ↔ (All (IsKey kv_key_pattern) (keys_of rows) × Distinct (keys_of rows))
validate_kv-valid_iff_example = validate_kv-valid_iff kv_key_pattern rows
