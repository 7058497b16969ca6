-- ===== src/Auth/Tests.antt =====
-- Runs of the helpers and the form of the methods of signing in
-- (web/src/pages/dashboard/auth-methods).
use tuck.Base.{◌≡◌, refl, [], ◌∷◌, codes, true, false, none, some, text_eq, trim, print_nat}
use tuck.Durations.Go.{seconds_sent}
use tuck.Auth.{to_dur, fmt_ttl_parts, auth_name_re, same_set}
use tuck.Auth.Jwt.{
  JwtConfig, JwtForm, load_cfg, cfg_dirty, cfg_body, or_empty, https_error, jwks_https, submit_cfg,
}
use tuck.Auth.Jwt.Clean.{stored_ttl, tidied, IsStored, load_cfg-saved}

two_parts : fmt_ttl_parts 93784 ≡ codes "1d 2h"
unfolding fmt_ttl_parts print_nat
two_parts = refl

minutes_and_seconds : fmt_ttl_parts 90 ≡ codes "1m 30s"
unfolding fmt_ttl_parts print_nat
minutes_and_seconds = refl

long_name_refused : auth_name_re (codes "-ci") ≡ false
unfolding auth_name_re
long_name_refused = refl

any_order : same_set (codes "a" ∷ codes "b" ∷ []) (codes "b" ∷ codes "a" ∷ []) ≡ true
unfolding same_set text_eq
any_order = refl

abbrev form : JwtForm
form = record {
  jwks = codes " https://idp/jwks ";
  issuer = codes "idp";
  audience = [];
  def_ttl = 90;
  oidc_auth_url = [];
  oidc_token_url = [];
  oidc_client_id = codes "tuck";
  oidc_secret = codes "s3";
  oidc_clear_secret = false;
  oidc_redirect = [];
  oidc_scopes = [];
  ca_cert = [];
  cfg_touched = false;
  pending = false;
}

abbrev stored : JwtConfig
stored = record {
  jwks_uri = some (codes "https://idp/jwks");
  issuer = some (codes "idp");
  audience = none;
  default_ttl = some 90000000000;
  oidc_authorization_url = none;
  oidc_token_url = some [];
  oidc_client_id = some (codes "tuck");
  oidc_client_secret_set = some true;
  oidc_redirect_uri = none;
  oidc_scopes = none;
  ca_cert = none;
}

stored-IsStored : IsStored (cfg_body form) stored
unfolding cfg_body trim or_empty stored_ttl seconds_sent to_dur print_nat
stored-IsStored = record {
  jwks_uri = refl;
  issuer = refl;
  audience = refl;
  default_ttl = refl;
  oidc_authorization_url = refl;
  oidc_token_url = refl;
  oidc_client_id = refl;
  oidc_redirect_uri = refl;
  oidc_scopes = refl;
  ca_cert = refl;
}

load_cfg-saved_example :
    (load_cfg stored form ≡ tidied form form)
    × (cfg_dirty (some stored) (load_cfg stored form) ≡ false)
    × (cfg_body (load_cfg stored form) ≡ record (cfg_body form) { oidc_client_secret = none })
load_cfg-saved_example = load_cfg-saved form form stored stored-IsStored

-- A typed secret is a change, and a key set without https is refused.
secret_is_change : cfg_dirty (some stored) form ≡ true
unfolding cfg_dirty trim text_eq
secret_is_change = refl

plain_refused : https_error (λ v. some (codes "http:")) form.jwks ≡ jwks_https
unfolding https_error trim text_eq
plain_refused = refl

sent_once : (submit_cfg (λ v. some (codes "https:")) (record form { pending = true })).0 ≡ none
unfolding submit_cfg https_error trim text_eq
sent_once = refl
