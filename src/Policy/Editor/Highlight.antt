-- ===== src/Policy/Editor/Highlight.antt =====
-- `highlightLine` of web/src/pages/dashboard/policies/lib/policy-text.ts: a line of the policy in
-- coloured pieces.
pub mod Pieces
use tuck.Base.{
  ℕ, zero, suc, ◌+◌, Text, List, [], ◌∷◌, ◌++◌, codes, Bool, true, false, not, ◌&&◌, ◌||◌, Option,
  none, some, map, length, all, is_empty, text_eq, includes, strip, if◌then◌else◌, ◌==◌,
}
use tuck.Policy.Rules.{caps_order}
use tuck.Policy.Parse.{is_word}

-- The kinds are `'c'`, `'cap'` and so on; `'text'` is that of what no token takes.
pub data SegKind : Type 0 where
  kind_c kind_cap kind_capbad kind_capdeny kind_k kind_kw2 kind_p kind_s kind_text : SegKind

-- The kind of a part: `none` for `undefined`.
pub data PartKind : Type 0 where
  part_badp part_g : PartKind

pub record Part : Type 0 where
  pub kind : Option PartKind
  pub text : Text

pub record Seg : Type 0 where
  pub kind : SegKind
  pub parts : Option (List Part)
  pub text : Text

-- The groups of `TOK`, with the text that they match.
pub data Token : Type 0 where
  comment str kw punct : Text → Token

abbrev pub whole : Token → Text
whole (comment w) = w
whole (str w) = w
whole (kw w) = w
whole (punct w) = w

-- What `.` does not match.
unfoldable pub line_end : ℕ → Bool
line_end c = c == b'\n' || c == 13 || c == 0x2028 || c == 0x2029

-- `[^"]*"?`, and what follows.
unfoldable pub string_end : Text → Text × Text
string_end [] = ([], [])
string_end (c ∷ s) =
    let (w, rest) = string_end s in if c == b'"' then (c ∷ [], s) else (c ∷ w, rest)

-- `\b` behind a keyword.
unfoldable pub no_word : Text → Bool
no_word [] = true
no_word (c ∷ s) = not (is_word c)

unfoldable pub keep_word : Text → Option Text → Option (Text × Text)
unfolding no_word
keep_word w none = none
keep_word w (some rest) = if no_word rest then some (w, rest) else none

unfoldable pub word_or : Option (Text × Text) → Option (Text × Text) → Option (Text × Text)
word_or none other = other
word_or (some found) other = some found

-- `\b(path|capabilities)\b` at the head of the text; `inside` tells that a word character stands
-- before it.
unfoldable pub keyword : Bool → Text → Option (Text × Text)
unfolding keep_word word_or strip
keyword true s = none
keyword false s =
    word_or (keep_word (codes "path") (strip (codes "path") s))
      (keep_word (codes "capabilities") (strip (codes "capabilities") s))

unfoldable pub kw_token : Option (Text × Text) → Option (Token × Text)
kw_token none = none
kw_token (some (w, rest)) = some (kw w, rest)

-- `[{}[\]=,]`
unfoldable pub is_punct : ℕ → Bool
is_punct c = c == b'{' || c == b'}' || c == b'[' || c == b']' || c == b'=' || c == b','

-- `TOK` at the head of the text, with what follows.
unfoldable pub token_at : Bool → Text → Option (Token × Text)
unfolding line_end string_end keyword kw_token is_punct
token_at inside [] = none
token_at inside (c ∷ t) =
    let (w, rest) = string_end t in
    if c == b'#' && all (λ d. not (line_end d)) t
    then some (comment (c ∷ t), [])
    else if c == b'"'
    then some (str (c ∷ w), rest)
    else if is_punct c
    then some (punct (c ∷ []), t)
    else kw_token (keyword inside (c ∷ t))

-- The pieces of a string: a run of stars, a plus, or what is neither.
unfoldable pub kind_of : ℕ → Option PartKind
kind_of d = if d == b'*' then some part_g else if d == b'+' then some part_badp else none

unfoldable pub same_part : Option PartKind → Option PartKind → Bool
same_part none none = true
same_part (some part_g) (some part_g) = true
same_part _ _ = false

-- A character in front of the parts: it joins the first one, unless that is of another kind or a
-- plus.
unfoldable pub push_part : ℕ → List Part → List Part
unfolding kind_of same_part
push_part d [] = record { kind = kind_of d; text = d ∷ [] } ∷ []
push_part d (q ∷ parts) =
    if same_part (kind_of d) q.kind
    then record q { text = d ∷ q.text } ∷ parts
    else record { kind = kind_of d; text = d ∷ [] } ∷ q ∷ parts

-- `str.split(/(\*+|\+)/)` without the empty pieces.
unfoldable pub parts_of : Text → List Part
unfolding push_part
parts_of [] = []
parts_of (d ∷ t) = push_part d (parts_of t)

-- `str.replace(/^"|"$/g, '')`
unfoldable pub drop_last_quote : Text → Text
drop_last_quote [] = []
drop_last_quote (d ∷ []) = if d == b'"' then [] else d ∷ []
drop_last_quote (d ∷ e ∷ t) = d ∷ drop_last_quote (e ∷ t)

unfoldable pub inner : Text → Text
unfolding drop_last_quote
inner [] = []
inner (d ∷ t) = if d == b'"' then drop_last_quote t else drop_last_quote (d ∷ t)

abbrev pub plain_seg : SegKind → Text → Seg
plain_seg kind w = record { kind = kind; parts = none; text = w }

-- The piece of one token.
unfoldable pub seg_of : Bool → Token → Seg
unfolding parts_of inner text_eq
seg_of in_caps (comment w) = plain_seg kind_c w
seg_of in_caps (kw w) = plain_seg (if text_eq w (codes "path") then kind_k else kind_kw2) w
seg_of in_caps (punct w) = plain_seg kind_p w
seg_of in_caps (str w) =
    if in_caps
    then plain_seg
        (if includes caps_order (inner w)
          then (if text_eq (inner w) (codes "deny") then kind_capdeny else kind_cap)
          else kind_capbad)
        w
    else record { kind = kind_s; parts = some (parts_of w); text = w }

-- `inCaps` behind a token.
unfoldable pub caps_after : Bool → Token → Bool
unfolding text_eq
caps_after in_caps (comment w) = in_caps
caps_after in_caps (str w) = in_caps
caps_after in_caps (kw w) = if text_eq w (codes "capabilities") then true else in_caps
caps_after in_caps (punct w) = if text_eq w (codes "]") then false else in_caps

-- `raw.slice(last, m.index)`, if it is not empty.
unfoldable pub before : Text → List Seg → List Seg
before [] segs = segs
before (d ∷ w) segs = plain_seg kind_text (d ∷ w) ∷ segs

-- The last character is of a word, or that of the text before.
unfoldable pub ends_word : Bool → Text → Bool
ends_word inside [] = inside
ends_word inside (d ∷ t) = ends_word (is_word d) t

-- The loop of `TOK.exec`: `seen` is what has passed since the last token, `inside` whether the
-- character before is of a word. Each round takes a character at least.
unfoldable pub scan : ℕ → Bool → Bool → Text → Text → List Seg
unfolding token_at seg_of caps_after before ends_word
scan zero in_caps inside seen t = before seen []
scan (suc fuel) in_caps inside seen [] = before seen []
scan (suc fuel) in_caps inside seen (d ∷ t) = elim (token_at inside (d ∷ t)) [
  | some (token, rest) ↦ before seen (
      seg_of in_caps token
      ∷ scan fuel (caps_after in_caps token) (ends_word inside (whole token)) [] rest)
  | none ↦ scan fuel in_caps (is_word d) (seen ++ d ∷ []) t
]

unfoldable pub highlight_line : Text → List Seg
unfolding scan
highlight_line raw = scan (length raw) false false [] raw
