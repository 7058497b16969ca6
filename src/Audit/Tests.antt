-- ===== src/Audit/Tests.antt =====
-- The audit filter on concrete choices.
use tuck.Base.{◌≡◌, ◌↔◌, refl, [], ◌∷◌, codes, none, true, is_empty, trim, text_eq}
use tuck.Audit.{
  LogFilterState, filter_params, filter_state_to_api, always, hour, severity_of, warn, operation_of,
}
use tuck.Audit.Params.{is_open, filter_params-nil_iff}

abbrev first_choice : LogFilterState
first_choice = record {
  namespace = codes "all";
  operation = codes "all";
  path = codes " ";
  q = [];
  range = always;
  status = codes "all";
}

audit_tests :
    (filter_params (filter_state_to_api first_choice) ≡ [])
    × (filter_params
          (filter_state_to_api (record first_choice { status = codes "403"; range = hour }))
        ≡ (codes "status", codes "403") ∷ (codes "since", codes "1h") ∷ [])
    × (severity_of 403 ≡ warn)
    × (operation_of
          (record { method = codes "post"; path = codes "/v1/auth/login"; operation = none })
        ≡ codes "write")
unfolding filter_params filter_state_to_api severity_of operation_of text_eq
audit_tests = (refl, refl, refl, refl)

filter_params-nil_iff_example : (filter_params (filter_state_to_api first_choice) ≡ []) ↔ (
    (is_empty (trim first_choice.path) ≡ true)
    × (is_open first_choice.operation ≡ true)
    × (is_open first_choice.status ≡ true)
    × (is_open first_choice.namespace ≡ true)
    × (is_empty (trim first_choice.q) ≡ true)
    × (first_choice.range ≡ always))
filter_params-nil_iff_example = filter_params-nil_iff first_choice
