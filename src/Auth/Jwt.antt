-- ===== src/Auth/Jwt.antt =====
-- web/src/pages/dashboard/auth-methods/components/jwt-panel.tsx: the form with the configuration of
-- the method jwt. `url` stands for `new URL(v).protocol`, `none` where it throws.
pub mod Clean
use tuck.Base.{
  ℕ, Text, [], ◌∷◌, codes, Bool, true, false, not, ◌&&◌, ◌||◌, Option, none, some, is_empty,
  text_eq, trim, ltb, ◌==◌, if◌then◌else◌,
}
use tuck.Auth.{ns_to_seconds, to_dur}

-- The answer of the server with the configuration: the fields that are read.
pub record JwtConfig : Type 0 where
  pub jwks_uri : Option Text
  pub issuer : Option Text
  pub audience : Option Text
  pub default_ttl : Option ℕ
  pub oidc_authorization_url : Option Text
  pub oidc_token_url : Option Text
  pub oidc_client_id : Option Text
  pub oidc_client_secret_set : Option Bool
  pub oidc_redirect_uri : Option Text
  pub oidc_scopes : Option Text
  pub ca_cert : Option Text

-- The state of the form.
pub record JwtForm : Type 0 where
  pub jwks : Text
  pub issuer : Text
  pub audience : Text
  pub def_ttl : ℕ
  pub oidc_auth_url : Text
  pub oidc_token_url : Text
  pub oidc_client_id : Text
  pub oidc_secret : Text
  pub oidc_clear_secret : Bool
  pub oidc_redirect : Text
  pub oidc_scopes : Text
  pub ca_cert : Text
  pub cfg_touched : Bool
  pub pending : Bool

-- `s ?? ''`
unfoldable pub or_empty : Option Text → Text
or_empty none = []
or_empty (some s) = s

-- `loadCfg`
unfoldable pub load_cfg : JwtConfig → JwtForm → JwtForm
unfolding or_empty ns_to_seconds
load_cfg d f = record f {
  jwks = or_empty d.jwks_uri;
  issuer = or_empty d.issuer;
  audience = or_empty d.audience;
  def_ttl = ns_to_seconds d.default_ttl;
  oidc_auth_url = or_empty d.oidc_authorization_url;
  oidc_token_url = or_empty d.oidc_token_url;
  oidc_client_id = or_empty d.oidc_client_id;
  oidc_secret = [];
  oidc_clear_secret = false;
  oidc_redirect = or_empty d.oidc_redirect_uri;
  oidc_scopes = or_empty d.oidc_scopes;
  ca_cert = or_empty d.ca_cert;
}

pub data JwksErr : Type 0 where
  jwks_ok jwks_none jwks_https jwks_bad : JwksErr

-- `httpsError`
unfoldable pub https_error : (Text → Option Text) → Text → JwksErr
unfolding trim text_eq
https_error url v = if is_empty (trim v) then jwks_none else elim (url (trim v)) [
  | none ↦ jwks_bad
  | some protocol ↦ if text_eq protocol (codes "https:") then jwks_ok else jwks_https
]

-- `v.trim() !== (x ?? '')`
unfoldable pub field_dirty : Text → Option Text → Bool
unfolding text_eq trim or_empty
field_dirty v x = not (text_eq (trim v) (or_empty x))

-- `dirty` against a configuration that is there.
unfoldable pub differs : JwtConfig → JwtForm → Bool
unfolding field_dirty text_eq trim ns_to_seconds or_empty
differs d f =
    field_dirty f.jwks d.jwks_uri
    || field_dirty f.issuer d.issuer
    || field_dirty f.audience d.audience
    || not (f.def_ttl == ns_to_seconds d.default_ttl)
    || field_dirty f.oidc_auth_url d.oidc_authorization_url
    || field_dirty f.oidc_token_url d.oidc_token_url
    || field_dirty f.oidc_client_id d.oidc_client_id
    || field_dirty f.oidc_redirect d.oidc_redirect_uri
    || field_dirty f.oidc_scopes d.oidc_scopes
    || not (text_eq (trim f.ca_cert) (trim (or_empty d.ca_cert)))
    || not (is_empty f.oidc_secret)
    || f.oidc_clear_secret

-- `dirty`
unfoldable pub cfg_dirty : Option JwtConfig → JwtForm → Bool
unfolding differs
cfg_dirty none f = true
cfg_dirty (some d) f = differs d f

-- `s || undefined`
unfoldable pub or_absent : Text → Option Text
or_absent [] = none
or_absent (c ∷ s) = some (c ∷ s)

-- What `putJwtConfig` is called with.
pub record JwtConfigBody : Type 0 where
  pub audience : Option Text
  pub ca_cert : Text
  pub default_ttl : Option Text
  pub issuer : Option Text
  pub jwks_uri : Text
  pub oidc_authorization_url : Option Text
  pub oidc_client_id : Option Text
  pub oidc_client_secret : Option Text
  pub oidc_redirect_uri : Option Text
  pub oidc_scopes : Option Text
  pub oidc_token_url : Option Text

unfoldable pub cfg_body : JwtForm → JwtConfigBody
unfolding or_absent trim to_dur
cfg_body f = record {
  audience = or_absent (trim f.audience);
  ca_cert = trim f.ca_cert;
  default_ttl = to_dur f.def_ttl;
  issuer = or_absent (trim f.issuer);
  jwks_uri = trim f.jwks;
  oidc_authorization_url = or_absent (trim f.oidc_auth_url);
  oidc_client_id = or_absent (trim f.oidc_client_id);
  oidc_client_secret = if f.oidc_clear_secret then some [] else or_absent f.oidc_secret;
  oidc_redirect_uri = or_absent (trim f.oidc_redirect);
  oidc_scopes = or_absent (trim f.oidc_scopes);
  oidc_token_url = or_absent (trim f.oidc_token_url);
}

unfoldable pub no_jwks_err : JwksErr → Bool
no_jwks_err jwks_ok = true
no_jwks_err e = false

-- `onSubmit`: the request, and the state afterwards.
unfoldable pub submit_cfg : (Text → Option Text) → JwtForm → Option JwtConfigBody × JwtForm
unfolding https_error no_jwks_err cfg_body
submit_cfg url f = (
  if no_jwks_err (https_error url f.jwks) && not f.pending then some (cfg_body f) else none,
  record f { cfg_touched = true; pending = no_jwks_err (https_error url f.jwks) || f.pending },
)

-- The button that clears the secret of the client, or keeps it.
unfoldable pub toggle_clear_secret : JwtForm → JwtForm
toggle_clear_secret f = record f { oidc_secret = []; oidc_clear_secret = not f.oidc_clear_secret }

-- `onSuccess` and `onError` of `saveCfg`: the request has ended.
unfoldable pub cfg_answered : JwtForm → JwtForm
cfg_answered f = record f { pending = false }
