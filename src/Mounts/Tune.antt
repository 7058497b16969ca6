-- ===== src/Mounts/Tune.antt =====
-- web/src/pages/dashboard/mounts/components/tune-drawer.tsx: the form with the options of a mount.
-- Lifetimes are whole seconds, the limit of versions a whole number.
use tuck.Base.{
  ℕ, Text, [], codes, ◌++◌, Bool, false, not, ◌&&◌, ◌||◌, Option, none, some, text_eq, print_nat,
  ltb, ◌+◌, ◌/◌, if◌then◌else◌, ℤ, pos,
}
use tuck.Mounts.Wizard.{Kv2MountConfig, bad_versions}

abbrev pub tuned_kv2_path : Text
tuned_kv2_path = codes "secret/"

-- The fields of `MountConfig` that the form reads; lifetimes are in nanoseconds.
pub record MountConfig : Type 0 where
  pub default_lease_ttl : Option ℕ
  pub max_lease_ttl : Option ℕ
  pub force_no_cache : Option Bool
  pub max_versions : Option ℤ
  pub cas_required : Option Bool

-- `nsToSec`: `Math.round` of the seconds.
unfoldable pub ns_to_sec : Option ℕ → ℕ
ns_to_sec none = 0
ns_to_sec (some ns) = (ns + 500000000) / 1000000000

-- The state of `TuneForm`, with the path of its mount and whether its request runs.
pub record TuneForm : Type 0 where
  pub path : Text
  pub def : ℕ
  pub max_ : ℕ
  pub no_cache : Bool
  pub max_versions : ℤ
  pub cas_required : Bool
  pub reveal : Bool
  pub server_err : Text
  pub pending : Bool

-- `!!flag`
unfoldable pub is_set : Option Bool → Bool
is_set none = false
is_set (some b) = b

-- `initial` of `TuneBody`; an answer that failed is a configuration without fields.
unfoldable pub tune_form : Text → MountConfig → TuneForm
unfolding ns_to_sec is_set
tune_form path cfg = record {
  path = path;
  def = ns_to_sec cfg.default_lease_ttl;
  max_ = ns_to_sec cfg.max_lease_ttl;
  no_cache = is_set cfg.force_no_cache;
  max_versions = elim cfg.max_versions [ none ↦ pos 0 | some n ↦ n ];
  cas_required = is_set cfg.cas_required;
  reveal = false;
  server_err = [];
  pending = false;
}

unfoldable pub tunes_kv2 : TuneForm → Bool
unfolding text_eq
tunes_kv2 f = text_eq f.path tuned_kv2_path

unfoldable pub order_err : TuneForm → Bool
order_err f = ltb 0 f.max_ && ltb f.max_ f.def

-- `maxVersionsErr`
unfoldable pub versions_err : TuneForm → Bool
unfolding tunes_kv2 bad_versions
versions_err f = tunes_kv2 f && bad_versions f.max_versions

-- The body that `putMountConfig` sends.
pub record TuneBody : Type 0 where
  pub default_lease_ttl : Text
  pub force_no_cache : Bool
  pub max_lease_ttl : Text
  pub kv2 : Option Kv2MountConfig

unfoldable pub tune_body : TuneForm → TuneBody
unfolding tunes_kv2 print_nat
tune_body f = record {
  default_lease_ttl = print_nat f.def ++ codes "s";
  force_no_cache = f.no_cache;
  max_lease_ttl = print_nat f.max_ ++ codes "s";
  kv2 =
      if tunes_kv2 f
      then some (record { max_versions = f.max_versions; cas_required = f.cas_required })
      else none;
}

-- Whether `submit` sends the form.
unfoldable pub can_tune : TuneForm → Bool
unfolding order_err versions_err
can_tune f = not (order_err f || versions_err f || f.pending)

-- `submit`: the request, and the state afterwards.
unfoldable pub submit_tune : TuneForm → Option TuneBody × TuneForm
unfolding can_tune tune_body
submit_tune f = (
  if can_tune f then some (tune_body f) else none,
  record f {
    server_err = if can_tune f then [] else f.server_err;
    pending = can_tune f || f.pending;
  },
)

-- `onError`
unfoldable pub tune_failed : Option Text → TuneForm → TuneForm
tune_failed msg f = record f { pending = false; server_err = elim msg [ none ↦ [] | some s ↦ s ] }
