-- ===== src/Namespaces.antt =====
-- The namespaces screen, web/src/pages/dashboard/namespaces/namespaces.page.tsx: the check on the
-- name of a new namespace with the server's own check (`ValidateName` of
-- internal/namespace/namespace.go), the counters and the labels.
pub mod Names
pub mod Labels
pub mod Tree
pub mod Page
mod Tests
use tuck.Base.{
  ℕ, suc, ◌+◌, ◌-◌, ◌*◌, ◌/◌, ◌%◌, Text, List, [], ◌∷◌, ◌++◌, codes, Bool, true, false, not, ◌&&◌,
  ◌||◌, Option, none, some, map, keep, all, any, is_empty, text_eq, trim, is_lower, is_digit,
  split_on, ltb, leb, ◌==◌, if◌then◌else◌, sort_by,
}
use tuck.KeyValue.{KvPair}

-- `ok` stands for the empty string.
pub data NameErrorKind : Type 0 where
  ok root chars segments length : NameErrorKind

-- `[a-z0-9]`
unfoldable pub segment_first : ℕ → Bool
unfolding is_lower is_digit
segment_first c = is_lower c || is_digit c

-- `[a-z0-9-]`
unfoldable pub segment_char : ℕ → Bool
unfolding segment_first
segment_char c = segment_first c || c == b'-'

-- `SEGMENT_RE`
unfoldable pub segment_re : Text → Bool
unfolding segment_first segment_char
segment_re [] = false
segment_re (c ∷ s) = segment_first c && all segment_char s

abbrev pub max_name_segments : ℕ
max_name_segments = 4

abbrev pub max_name_length : ℕ
max_name_length = 128

-- The loop over the segments.
unfoldable pub segments_error : List Text → NameErrorKind
unfolding segment_re text_eq
segments_error [] = ok
segments_error (seg ∷ segs) =
    if text_eq seg (codes "root")
    then root
    else if not (segment_re seg)
    then chars
    else segments_error segs

unfoldable pub name_error_kind : Text → NameErrorKind
unfolding segments_error split_on
name_error_kind trimmed =
    let segs = split_on b'/' trimmed in
    if is_empty trimmed
    then ok
    else if ltb max_name_length (tuck.Base.length trimmed)
    then length
    else if ltb max_name_segments (tuck.Base.length segs)
    then segments
    else segments_error segs

-- The bytes of the surrogate pair `c`, `d`, which stands for one character.
unfoldable pub pair_bytes : ℕ → ℕ → Text
pair_bytes c d =
    let p = 0x10000 + (c - 0xd800) * 0x400 + (d - 0xdc00) in
    (0xf0 + p / 0x40000) ∷ (0x80 + p / 0x1000 % 64) ∷ (0x80 + p / 64 % 64) ∷ (0x80 + p % 64) ∷ []

unfoldable pub is_pair : ℕ → Text → Bool
is_pair c [] = false
is_pair c (d ∷ s) = leb 0xd800 c && leb c 0xdbff && leb 0xdc00 d && leb d 0xdfff

-- The bytes of a code unit that is in no pair; a surrogate on its own becomes U+FFFD.
unfoldable pub unit_bytes : ℕ → Text
unit_bytes c =
    if ltb c 0x80
    then c ∷ []
    else if ltb c 0x800
    then (0xc0 + c / 64) ∷ (0x80 + c % 64) ∷ []
    else if leb 0xd800 c && leb c 0xdfff
    then 0xef ∷ 0xbf ∷ 0xbd ∷ []
    else (0xe0 + c / 0x1000) ∷ (0x80 + c / 64 % 64) ∷ (0x80 + c % 64) ∷ []

-- The UTF-8 bytes of a string, as which the request carries it.
unfoldable pub utf8 : Text → Text
unfolding pair_bytes is_pair unit_bytes
utf8 [] = []
utf8 (c ∷ []) = unit_bytes c
utf8 (c ∷ d ∷ s) = elim (is_pair c (d ∷ s)) [
  | true ↦ pair_bytes c d ++ utf8 s
  | false ↦ unit_bytes c ++ utf8 (d ∷ s)
]

-- The loop of `ValidateName`: whether each segment passes.
unfoldable pub segments_valid : List Text → Bool
unfolding segment_re text_eq
segments_valid [] = true
segments_valid (seg ∷ segs) =
    if text_eq seg (codes "root") || not (segment_re seg) then false else segments_valid segs

-- `ValidateName` on the bytes of the name; `true` is the answer `nil`.
unfoldable pub validate_namespace : Text → Bool
unfolding segments_valid split_on
validate_namespace name =
    let segs = split_on b'/' name in
    if ltb max_name_length (tuck.Base.length name)
    then false
    else if ltb max_name_segments (tuck.Base.length segs)
    then false
    else segments_valid segs

-- `strings.ReplaceAll(ns, "/", "~")`
unfoldable pub tildes : Text → Text
tildes [] = []
tildes (c ∷ s) = if c == b'/' then b'~' ∷ tildes s else c ∷ tildes s

-- `StoragePrefix`
unfoldable pub storage_prefix : Text → Text
unfolding tildes text_eq
storage_prefix ns =
    if is_empty ns || text_eq ns (codes "root") then [] else codes "ns/" ++ (tildes ns ++ codes "/")

-- The counters of a namespace; one that the caller may not see is absent.
pub record NamespaceStats : Type 0 where
  pub secrets : Option ℕ
  pub tokens : Option ℕ
  pub policies : Option ℕ
  pub auth_roles : Option ℕ

-- `labels` are the entries of the record in their order.
pub record NamespaceView : Type 0 where
  pub name : Text
  pub description : Option Text
  pub owner : Option Text
  pub labels : Option (List (Text × Text))
  pub stats : Option NamespaceStats

pub data StatKey : Type 0 where
  secrets tokens policies auth_roles : StatKey

-- `stats[key]`
unfoldable pub stat : StatKey → NamespaceStats → Option ℕ
stat StatKey.secrets s = s.secrets
stat StatKey.tokens s = s.tokens
stat StatKey.policies s = s.policies
stat StatKey.auth_roles s = s.auth_roles

-- `n.stats?.[key]`
unfoldable pub stat_of : StatKey → NamespaceView → Option ℕ
unfolding stat
stat_of key n = elim n.stats [ none ↦ none | some s ↦ stat key s ]

-- The loop of `sumStat`.
unfoldable pub sum_from : StatKey → ℕ → List NamespaceView → Option ℕ
unfolding stat_of
sum_from key total [] = some total
sum_from key total (n ∷ items) = elim (stat_of key n) [
  | none ↦ none
  | some v ↦ sum_from key (total + v) items
]

unfoldable pub sum_stat : List NamespaceView → StatKey → Option ℕ
unfolding sum_from
sum_stat [] key = none
sum_stat (n ∷ items) key = sum_from key 0 (n ∷ items)

unfoldable pub is_given : Option ℕ → Bool
is_given none = false
is_given (some v) = true

-- `STAT_KEYS.filter((k) => stats[k] !== undefined)`, of `Counts` and of `DeleteImpact`.
unfoldable pub shown_stats : NamespaceStats → List StatKey
unfolding stat is_given
shown_stats s =
    keep (λ k. is_given (stat k s))
      (StatKey.secrets ∷ StatKey.tokens ∷ StatKey.policies ∷ StatKey.auth_roles ∷ [])

-- The key that an object literal does not keep as an entry: to set it sets the prototype.
unfoldable pub is_proto : Text → Bool
unfolding text_eq
is_proto k = text_eq k (codes "__proto__")

-- `out[k] = v` for every other key.
unfoldable pub put_entry : Text → Text → List (Text × Text) → List (Text × Text)
put_entry k v [] = (k, v) ∷ []
put_entry k v ((j, w) ∷ out) = if text_eq j k then (j, v) ∷ out else (j, w) ∷ put_entry k v out

-- `out[k] = v`; a string under `__proto__` is ignored.
unfoldable pub set_entry : Text → Text → List (Text × Text) → List (Text × Text)
unfolding is_proto put_entry
set_entry k v out = if is_proto k then out else put_entry k v out

-- The loop of `labelsOf`, from the entries `out` on.
unfoldable pub labels_from : List (Text × Text) → List KvPair → List (Text × Text)
unfolding set_entry trim
labels_from out [] = out
labels_from out (p ∷ pairs) =
    let k = trim p.key in labels_from (if is_empty k then out else set_entry k p.value out) pairs

unfoldable pub labels_of : List KvPair → List (Text × Text)
unfolding labels_from
labels_of pairs = labels_from [] pairs

-- `pairsOf`: `le` stands for `localeCompare` of the keys.
unfoldable pub pairs_of : (Text → Text → Bool) → Option (List (Text × Text)) → List KvPair
unfolding sort_by
pairs_of le none = []
pairs_of le (some entries) =
    map (λ (e : Text × Text). record { key = e.0; value = e.1 })
      (sort_by (λ (a b : Text × Text). le a.0 b.0) entries)
