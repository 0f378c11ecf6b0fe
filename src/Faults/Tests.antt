-- ===== src/Faults/Tests.antt =====
-- The fault policy and the error rules at concrete errors.
use cline_pass_bridge.Base.{◌≡◌, refl, true, false, none, some, [], ◌∷◌}
use cline_pass_bridge.Base.Text.{codes, contains}
use cline_pass_bridge.Json.{find, error_message}
use cline_pass_bridge.Faults.{Fault, api, fail}
use cline_pass_bridge.Faults.Policy.{
  FaultLib, fault_policy_for, fault_identity, identity_of, policy_of, is_upstream_credential_error,
  is_upstream_model_error,
}
use cline_pass_bridge.Faults.Rules.{
  RuleLib, RequestErrorRule, host_fault_policy, marker_rule, decided, rule_matches, action_policy,
  safe_error, host_error_status, first_rule_decides,
}
use cline_pass_bridge.Faults.Ownership.{IsSound, fault_policy-IsSound, protected_status_cools}

-- Texts that are trimmed and in lower case already, and no pattern library.
abbrev pub plain_lib : FaultLib
plain_lib = record {
  to_lower = λ s. s;
  trim_space = λ s. s;
  unmarshal = λ m. none;
  unsupported_model_prefix = λ s. false;
  model_parameter_message = λ s. false;
  unavailable_model = λ s. false;
}

abbrev pub plain_rules : RuleLib
plain_rules = record { faults = plain_lib; compile = λ p. none; redact = λ s. s }

abbrev empty_content : Fault
empty_content = fail 500 (codes "empty response content")

abbrev odd_rule : RequestErrorRule
odd_rule = marker_rule 500 (codes "empty") "retry"

abbrev stop_rule : RequestErrorRule
stop_rule = marker_rule 500 (codes "empty") "stop-and-cooldown"

first_rule_decides_example :
    some (host_fault_policy plain_rules (odd_rule ∷ stop_rule ∷ []) (some empty_content))
    ≡ decided plain_rules empty_content stop_rule
unfolding fail rule_matches action_policy safe_error host_error_status contains
first_rule_decides_example =
    first_rule_decides plain_rules empty_content (odd_rule ∷ []) [] stop_rule (refl, tt) refl

fault_policy-IsSound_example : IsSound (fault_policy_for plain_lib (some empty_content))
fault_policy-IsSound_example = fault_policy-IsSound plain_lib empty_content

protected_status_cools_example :
    (fault_policy_for plain_lib (some (api 429 "rate_limited" []))).cooldown ≡ true
protected_status_cools_example =
    protected_status_cools plain_lib (api 429 "rate_limited" []) refl refl

credential_code : (fault_policy_for plain_lib (some (api 400 "invalid_grant" []))).scope ≡ "account"
unfolding fault_policy_for fault_identity identity_of policy_of is_upstream_credential_error
    is_upstream_model_error find error_message
credential_code = refl
