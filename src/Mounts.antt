-- ===== src/Mounts.antt =====
-- The mounts of the console: web/src/pages/dashboard/mounts/lib.ts with the entry and the options
-- of web/src/shared/api/endpoints/mounts.ts.
pub mod Wizard
pub mod Tune
pub mod Page
mod Tests
use mathlib.Core.List.{reverse}
use tuck.Base.{
  ℕ, Text, List, [], ◌∷◌, ◌++◌, codes, Bool, true, false, ◌&&◌, ◌||◌, Option, none, some, all,
  text_eq, includes, trim, starts_with, split_on, is_lower, is_digit, ◌==◌, if◌then◌else◌,
}

-- `MountEntry`
pub record MountEntry : Type 0 where
  pub path : Text
  pub type : Text
  pub accessor : Text
  pub description : Option Text
  pub builtin : Bool

-- `Cat`
pub data Cat : Type 0 where
  auth engine sys : Cat

-- `Filter`
pub data Filter : Type 0 where
  all_mounts only_auth only_secrets only_sys : Filter

abbrev pub auth_types : List Text
auth_types =
    codes "approle"
    ∷ codes "auth"
    ∷ codes "cert"
    ∷ codes "jwt"
    ∷ codes "kubernetes"
    ∷ codes "ldap"
    ∷ codes "oidc"
    ∷ codes "token"
    ∷ codes "userpass"
    ∷ []

abbrev pub sys_types : List Text
sys_types = codes "identity" ∷ codes "system" ∷ []

-- `catOf`
unfoldable pub cat_of : MountEntry → Cat
unfolding starts_with
cat_of m =
    if includes sys_types m.type
    then sys
    else if includes auth_types m.type || starts_with (codes "auth/") m.path
    then auth
    else engine

unfoldable pub matches_cat : Cat → Filter → Bool
matches_cat c all_mounts = true
matches_cat engine only_secrets = true
matches_cat auth only_auth = true
matches_cat sys only_sys = true
matches_cat c f = false

-- `matchesFilter`
unfoldable pub matches_filter : MountEntry → Filter → Bool
unfolding cat_of matches_cat
matches_filter m f = matches_cat (cat_of m) f

-- An entry of `CATALOG`: its id and the path that it suggests.
pub record CatalogType : Type 0 where
  pub id : Text
  pub suggest : Text

abbrev pub catalog : List CatalogType
catalog =
    record { id = codes "kv"; suggest = codes "my-kv" }
    ∷ record { id = codes "kubernetes"; suggest = codes "auth/kubernetes-spb" }
    ∷ record { id = codes "approle"; suggest = codes "auth/approle-ci" }
    ∷ record { id = codes "jwt"; suggest = codes "auth/jwt-sso" }
    ∷ []

-- `[a-z0-9]`
unfoldable pub name_first : ℕ → Bool
unfolding is_lower is_digit
name_first c = is_lower c || is_digit c

-- `[a-z0-9_-]`
unfoldable pub name_char : ℕ → Bool
unfolding name_first
name_char c = name_first c || c == b'_' || c == b'-'

-- `TYPE_RE`
unfoldable pub type_re : Text → Bool
unfolding name_first name_char
type_re [] = false
type_re (c ∷ s) = name_first c && all name_char s

-- `PATH_RE`
unfoldable pub path_re : Text → Bool
unfolding split_on type_re
path_re s = all type_re (split_on b'/' s)

-- `/^\/+/`
unfoldable pub drop_slashes : Text → Text
drop_slashes [] = []
drop_slashes (c ∷ s) = if c == b'/' then drop_slashes s else c ∷ s

-- `normPath`
unfoldable pub norm_path : Text → Text
unfolding trim drop_slashes
norm_path p = reverse (drop_slashes (reverse (drop_slashes (trim p))))

-- `withSlash`
unfoldable pub with_slash : Text → Text
unfolding norm_path
with_slash p = norm_path p ++ b'/' ∷ []
