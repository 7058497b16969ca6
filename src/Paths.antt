-- ===== src/Paths.antt =====
-- The checks on secret names: `validateName` of web/src/pages/dashboard/kv2/utils.ts and of
-- web/src/pages/dashboard/kv1/lib.ts, `dirName` and `dirOf` of the same files.
pub mod Segments
pub mod Names
mod Tests
use tuck.Base.{
  ℕ, Text, List, [], ◌∷◌, codes, Bool, true, false, ◌||◌, ◌&&◌, Option, none, some, any, is_empty,
  is_space, trim, starts_with, has_text, has_char, ◌==◌, if◌then◌else◌, text_eq,
}

-- `s.endsWith(c)` for one character.
unfoldable pub ends_char : ℕ → Text → Bool
ends_char c [] = false
ends_char c (d ∷ []) = d == c
ends_char c (d ∷ e ∷ s) = ends_char c (e ∷ s)

-- `\.\.?(\/|$)` at the head of the text.
unfoldable pub dots_at : Text → Bool
dots_at [] = false
dots_at (a ∷ []) = a == b'.'
dots_at (a ∷ b ∷ []) = a == b'.' && (b == b'/' || b == b'.')
dots_at (a ∷ b ∷ c ∷ s) = a == b'.' && (b == b'/' || (b == b'.' && c == b'/'))

-- A match behind some slash.
unfoldable pub behind_slash : (Text → Bool) → Text → Bool
behind_slash m [] = false
behind_slash m (c ∷ s) = (c == b'/' && m s) || behind_slash m s

-- `/(^|\/)\.\.?(\/|$)/`
unfoldable pub has_dots : Text → Bool
unfolding dots_at behind_slash
has_dots s = dots_at s || behind_slash dots_at s

pub data NameProblem : Type 0 where
  empty format : NameProblem

-- `validateName` of kv2/utils.ts
unfoldable pub validate_name : Text → Option NameProblem
unfolding has_dots ends_char
validate_name name =
    let n = trim name in
    if is_empty n
    then some empty
    else if any is_space n
        || starts_with (codes "/") n
        || ends_char b'/' n
        || has_text (codes "//") n
        || has_dots n
    then some format
    else none

pub data NameIssue : Type 0 where
  chars empty slashes space : NameIssue

-- `/[?#\%]/`
unfoldable pub is_url_char : ℕ → Bool
is_url_char c = c == b'?' || c == b'#' || c == b'%'

-- `validateName` of kv1/lib.ts
unfoldable pub validate_path : Text → Option NameIssue
unfolding is_url_char ends_char
validate_path n =
    if is_empty n
    then some NameIssue.empty
    else if any is_space n
    then some space
    else if any is_url_char n
    then some chars
    else if starts_with (codes "/") n || has_text (codes "//") n || ends_char b'/' n
    then some slashes
    else none
