-- ===== src/Kv2/Versions.antt =====
-- `versionRows` and `authorLabel` of web/src/pages/dashboard/kv2/utils.ts. The map of versions is the list of its entries; their keys are the decimal numbers that `Number` reads.
use mathlib.Core.List.{Perm}
use tuck.Base.{
  ℕ, Text, List, [], ◌∷◌, Bool, true, false, Option, none, some, arith, map, leb, sort_by,
  sort_by-perm, sort_by-IsSorted, IsSorted, if◌then◌else◌,
}

pub data VerState : Type 0 where
  active deleted destroyed : VerState

-- `KvAuthor`
pub record Author : Type 0 where
  pub display_name : Option Text
  pub accessor : Option Text
  pub fingerprint : Option Text
  pub entity_id : Option Text

-- A value of the map `meta.versions`.
pub record VersionInfo : Type 0 where
  pub created_by : Option Author
  pub created_at : Option Text
  pub deleted_at : Option Text
  pub is_destroyed : Bool

pub record VerRow : Type 0 where
  pub author : Option Author
  pub created_at : Option Text
  pub state : VerState
  pub version : ℕ

-- A string that is there and not empty.
unfoldable pub given : Option Text → Bool
given none = false
given (some []) = false
given (some (c ∷ s)) = true

unfoldable pub state_of : VersionInfo → VerState
unfolding given
state_of info =
    if info.is_destroyed then destroyed else if given info.deleted_at then deleted else active

abbrev pub row_of : ℕ × VersionInfo → VerRow
row_of (v, info) = record {
  author = info.created_by;
  created_at = info.created_at;
  state = state_of info;
  version = v;
}

-- `a.version - b.version <= 0`
abbrev pub not_after : VerRow → VerRow → Bool
not_after a b = leb a.version b.version

-- `meta` is absent before the first load.
unfoldable pub version_rows : Option (List (ℕ × VersionInfo)) → List VerRow
unfolding sort_by
version_rows none = []
version_rows (some versions) = sort_by not_after (map row_of versions)

-- `a?.display_name || a?.accessor || a?.fingerprint || ''`
unfoldable pub or_else : Option Text → Text → Text
or_else none t = t
or_else (some []) t = t
or_else (some (c ∷ s)) t = c ∷ s

unfoldable pub author_label : Option Author → Text
unfolding or_else
author_label none = []
author_label (some a) = or_else a.display_name (or_else a.accessor (or_else a.fingerprint []))

-- The rows are the versions of the map, each once and with its state, and no row has a smaller
-- version number than the row before it.
pub version_rows-IsSorted :
    (versions : List (ℕ × VersionInfo))
    → Perm (version_rows (some versions)) (map row_of versions)
      × IsSorted not_after (version_rows (some versions))
unfolding version_rows
version_rows-IsSorted versions = (
  sort_by-perm not_after _,
  sort_by-IsSorted not_after (λ a b h. ground arith) (map row_of versions),
)
