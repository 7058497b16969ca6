-- ===== src/Auth/Jwt/Clean.antt =====
-- The form of web/src/pages/dashboard/auth-methods/components/jwt-panel.tsx after a save, when the
-- server answers with what it was sent.
use mathlib.Core.List.{reverse, reverse-append, reverse-reverse, reverse-cons}
use tuck.Base.{
  ltb, if◌then◌else◌, ◌==◌, ℕ, ◌≡◌, ◌≡⟨◌⟩◌, ◌∎, refl, sym, ap, ◌∙◌, Text, [], ◌∷◌, ◌++◌, Bool, true,
  false, not, Option, none, some, text_eq_refl, is_space, trim, trim_start, trim_start-solid, ◌*◌,
  Bool-cases, inl, inr, arith,
}
use tuck.Durations.Go.{seconds_sent, go_seconds-secs}
use tuck.Auth.{to_dur, ns_to_seconds}
use tuck.Auth.Jwt.{
  JwtConfig, JwtForm, or_empty, load_cfg, field_dirty, differs, cfg_dirty, or_absent, JwtConfigBody,
  cfg_body,
}

trim_start-end :
    (c : ℕ) (s : Text) → is_space c ≡ false → trim_start (s ++ c ∷ []) ≡ trim_start s ++ c ∷ []
unfolding trim_start
trim_start-end c [] h = trim_start-solid c [] h
trim_start-end c (d ∷ s) h = elim (Bool-cases (is_space d)) [
  | inl e ↦ rw e (trim_start-end c s h)
  | inr e ↦ rw e refl
]

-- A text without white space at its start.
starts_solid : Text → Bool
starts_solid [] = true
starts_solid (c ∷ s) = not (is_space c)

starts_solid-trim_start : (s : Text) → starts_solid (trim_start s) ≡ true
unfolding starts_solid trim_start
starts_solid-trim_start [] = refl
starts_solid-trim_start (c ∷ s) = elim (Bool-cases (is_space c)) [
  | inl e ↦ rw e (starts_solid-trim_start s)
  | inr e ↦ rw (e, e) refl
]

trim_start-nil : trim_start [] ≡ []
unfolding trim_start
trim_start-nil = refl

trim_start-stays : (s : Text) → starts_solid s ≡ true → trim_start s ≡ s
unfolding starts_solid
trim_start-stays [] h = trim_start-nil
trim_start-stays (c ∷ s) h = trim_start-solid c s (ground (arith, h))

-- Both ends of a text that has none at its start.
ends : Text → Text
ends s = reverse (trim_start (reverse s))

ends-cons : (c : ℕ) (s : Text) → is_space c ≡ false → ends (c ∷ s) ≡ c ∷ ends s
unfolding ends
ends-cons c s h =
    ap (λ t. reverse (trim_start t)) (reverse-cons c s)
    ∙ ap reverse (trim_start-end c (reverse s) h)
    ∙ reverse-append (trim_start (reverse s)) (c ∷ [])

ends-solid : (s : Text) → starts_solid s ≡ true → starts_solid (ends s) ≡ true
unfolding starts_solid ends
ends-solid [] h = ap starts_solid (ap reverse trim_start-nil)
ends-solid (c ∷ s) h = ap starts_solid (ends-cons c s (ground (arith, h))) ∙ h

ends-ends : (s : Text) → ends (ends s) ≡ ends s
unfolding ends
ends-ends s =
    ap (λ t. reverse (trim_start t)) (reverse-reverse (trim_start (reverse s)))
    ∙ ap reverse (trim_start-stays (trim_start (reverse s)) (starts_solid-trim_start (reverse s)))

trim-ends : (s : Text) → trim s ≡ ends (trim_start s)
unfolding trim ends
trim-ends s = refl

-- `trim` changes nothing the second time.
trim-trim : (s : Text) → trim (trim s) ≡ trim s
trim-trim s =
    trim (trim s)
    ≡⟨ ap trim (trim-ends s) ⟩ trim (ends (trim_start s))
    ≡⟨ trim-ends (ends (trim_start s)) ⟩ ends (trim_start (ends (trim_start s)))
    ≡⟨ ap ends (
        trim_start-stays (ends (trim_start s))
          (ends-solid (trim_start s) (starts_solid-trim_start s))) ⟩
      ends (ends (trim_start s))
    ≡⟨ ends-ends (trim_start s) ⟩ ends (trim_start s)
    ≡⟨ sym (trim-ends s) ⟩ trim s ∎

-- How the server answers with a lifetime of so many seconds: in nanoseconds, and not at all with 0.
unfoldable pub stored_ttl : Option ℕ → Option ℕ
stored_ttl none = none
stored_ttl (some sec) = if sec == 0 then none else some (sec * 1000000000)

-- The server keeps what it is sent and answers with it: a text that is absent as an empty one, a
-- lifetime as it reads the text that was sent.
pub record IsStored (b : JwtConfigBody) (d : JwtConfig) : Type 0 where
  pub jwks_uri : or_empty d.jwks_uri ≡ b.jwks_uri
  pub issuer : or_empty d.issuer ≡ or_empty b.issuer
  pub audience : or_empty d.audience ≡ or_empty b.audience
  pub default_ttl : d.default_ttl ≡ stored_ttl (seconds_sent b.default_ttl)
  pub oidc_authorization_url : or_empty d.oidc_authorization_url ≡ or_empty b.oidc_authorization_url
  pub oidc_token_url : or_empty d.oidc_token_url ≡ or_empty b.oidc_token_url
  pub oidc_client_id : or_empty d.oidc_client_id ≡ or_empty b.oidc_client_id
  pub oidc_redirect_uri : or_empty d.oidc_redirect_uri ≡ or_empty b.oidc_redirect_uri
  pub oidc_scopes : or_empty d.oidc_scopes ≡ or_empty b.oidc_scopes
  pub ca_cert : or_empty d.ca_cert ≡ b.ca_cert

or_empty-or_absent : (s : Text) → or_empty (or_absent s) ≡ s
unfolding or_empty or_absent
or_empty-or_absent [] = refl
or_empty-or_absent (c ∷ s) = refl

ns_to_seconds-none : ns_to_seconds none ≡ 0
unfolding ns_to_seconds
ns_to_seconds-none = refl

ns_to_seconds-whole : (sec : ℕ) → ns_to_seconds (some (sec * 1000000000)) ≡ sec
unfolding ns_to_seconds
ns_to_seconds-whole sec = omega arith

-- A field that holds what is stored of a trimmed text is not dirty.
field_dirty-stored :
    (s : Text) (x : Option Text) → or_empty x ≡ trim s → field_dirty (or_empty x) x ≡ false
unfolding field_dirty
field_dirty-stored s x h = rw (h, trim-trim s, text_eq_refl (trim s)) refl

field_dirty-sent :
    (s : Text) (x : Option Text)
    → or_empty x ≡ or_empty (or_absent (trim s))
    → field_dirty (or_empty x) x ≡ false
field_dirty-sent s x h = field_dirty-stored s x (h ∙ or_empty-or_absent (trim s))

-- A field that is loaded is sent as before.
sent-stored : (s : Text) (x : Option Text) → or_empty x ≡ trim s → trim (or_empty x) ≡ trim s
sent-stored s x h = ap trim h ∙ trim-trim s

resent :
    (s : Text) (x : Option Text)
    → or_empty x ≡ or_empty (or_absent (trim s))
    → or_absent (trim (or_empty x)) ≡ or_absent (trim s)
resent s x h = ap or_absent (sent-stored s x (h ∙ or_empty-or_absent (trim s)))

seconds_sent-to_dur : (sec : ℕ) → seconds_sent (to_dur sec) ≡ some sec
unfolding seconds_sent to_dur
seconds_sent-to_dur sec = elim (Bool-cases (ltb 0 sec)) [
  | inl e ↦ rw e (go_seconds-secs sec)
  | inr e ↦ rw e (ap some (ground (arith, e)))
]

stored_ttl-seconds : (sec : ℕ) → ns_to_seconds (stored_ttl (some sec)) ≡ sec
unfolding stored_ttl
stored_ttl-seconds sec = elim (Bool-cases (sec == 0)) [
  | inl e ↦ rw e (ns_to_seconds-none ∙ ground (arith, e))
  | inr e ↦ rw e (ns_to_seconds-whole sec)
]

ttl-stored :
    (x : Option ℕ) (sec : ℕ) → x ≡ stored_ttl (seconds_sent (to_dur sec)) → ns_to_seconds x ≡ sec
ttl-stored x sec h =
    ap ns_to_seconds (h ∙ ap stored_ttl (seconds_sent-to_dur sec)) ∙ stored_ttl-seconds sec

loaded-clean :
    (f g : JwtForm) (d : JwtConfig)
    → IsStored (cfg_body f) d
    → cfg_dirty (some d) (load_cfg d g) ≡ false
unfolding cfg_dirty differs load_cfg cfg_body
loaded-clean f g d h =
    rw
      (
        field_dirty-stored f.jwks d.jwks_uri h.jwks_uri,
        field_dirty-sent f.issuer d.issuer h.issuer,
        field_dirty-sent f.audience d.audience h.audience,
        field_dirty-sent f.oidc_auth_url d.oidc_authorization_url h.oidc_authorization_url,
        field_dirty-sent f.oidc_token_url d.oidc_token_url h.oidc_token_url,
        field_dirty-sent f.oidc_client_id d.oidc_client_id h.oidc_client_id,
        field_dirty-sent f.oidc_redirect d.oidc_redirect_uri h.oidc_redirect_uri,
        field_dirty-sent f.oidc_scopes d.oidc_scopes h.oidc_scopes,
        text_eq_refl (trim (or_empty d.ca_cert)),
      )
      (ground arith)

loaded-body :
    (f g : JwtForm) (d : JwtConfig)
    → IsStored (cfg_body f) d
    → cfg_body (load_cfg d g) ≡ record (cfg_body f) { oidc_client_secret = none }
unfolding load_cfg cfg_body or_absent
loaded-body f g d h =
    rw
      (
        sent-stored f.jwks d.jwks_uri h.jwks_uri,
        resent f.issuer d.issuer h.issuer,
        resent f.audience d.audience h.audience,
        ttl-stored d.default_ttl f.def_ttl h.default_ttl,
        resent f.oidc_auth_url d.oidc_authorization_url h.oidc_authorization_url,
        resent f.oidc_token_url d.oidc_token_url h.oidc_token_url,
        resent f.oidc_client_id d.oidc_client_id h.oidc_client_id,
        resent f.oidc_redirect d.oidc_redirect_uri h.oidc_redirect_uri,
        resent f.oidc_scopes d.oidc_scopes h.oidc_scopes,
        sent-stored f.ca_cert d.ca_cert h.ca_cert,
      )
      refl

-- The form with the texts and the lifetime of `f`, trimmed and without a secret.
pub tidied : JwtForm → JwtForm → JwtForm
tidied f g = record g {
  jwks = trim f.jwks;
  issuer = trim f.issuer;
  audience = trim f.audience;
  def_ttl = f.def_ttl;
  oidc_auth_url = trim f.oidc_auth_url;
  oidc_token_url = trim f.oidc_token_url;
  oidc_client_id = trim f.oidc_client_id;
  oidc_secret = [];
  oidc_clear_secret = false;
  oidc_redirect = trim f.oidc_redirect;
  oidc_scopes = trim f.oidc_scopes;
  ca_cert = trim f.ca_cert;
}

shown :
    (s : Text) (x : Option Text) → or_empty x ≡ or_empty (or_absent (trim s)) → or_empty x ≡ trim s
shown s x h = h ∙ or_empty-or_absent (trim s)

loaded-tidied :
    (f g : JwtForm) (d : JwtConfig) → IsStored (cfg_body f) d → load_cfg d g ≡ tidied f g
unfolding load_cfg tidied cfg_body
loaded-tidied f g d h =
    rw
      (
        h.jwks_uri,
        shown f.issuer d.issuer h.issuer,
        shown f.audience d.audience h.audience,
        ttl-stored d.default_ttl f.def_ttl h.default_ttl,
        shown f.oidc_auth_url d.oidc_authorization_url h.oidc_authorization_url,
        shown f.oidc_token_url d.oidc_token_url h.oidc_token_url,
        shown f.oidc_client_id d.oidc_client_id h.oidc_client_id,
        shown f.oidc_redirect d.oidc_redirect_uri h.oidc_redirect_uri,
        shown f.oidc_scopes d.oidc_scopes h.oidc_scopes,
        h.ca_cert,
      )
      refl

-- When the server keeps the configuration that the form sent and answers with it, the form that
-- loads the answer holds what was typed, trimmed, with the same lifetime and without a secret; it has
-- no unsaved change, and a second save sends the same configuration but for the secret, which it
-- leaves alone, also when the first save set or cleared it.
pub load_cfg-saved :
    (f g : JwtForm) (d : JwtConfig)
    → IsStored (cfg_body f) d
    → (load_cfg d g ≡ tidied f g)
      × (cfg_dirty (some d) (load_cfg d g) ≡ false)
      × (cfg_body (load_cfg d g) ≡ record (cfg_body f) { oidc_client_secret = none })
load_cfg-saved f g d h = (loaded-tidied f g d h, loaded-clean f g d h, loaded-body f g d h)
