-- ===== src/Faults/Policy.antt =====
-- Who owns a fault, and whether the request may continue elsewhere (error_policy.go,
-- upstream_response_error.go).
use cline_pass_bridge.Base.{
  ℕ, String, Bool, true, false, ◌||◌, Option, none, some, List, [], ◌∷◌, leb, ◌==◌, nat_eq,
  string_eq, if◌then◌else◌, any, length,
}
use cline_pass_bridge.Base.Text.{Text}
use cline_pass_bridge.Json.{
  Json, Fields, end, field, text, obj, str, object, value_at, error_message,
}
use cline_pass_bridge.Faults.{Fault, api, upstream, other, status_code}

pub record FaultPolicy : Type 0 where
  pub scope : String
  pub cooldown : Bool
  pub stop : Bool
  pub explicit : Bool

-- What the classification takes from Go's strings, regexp and encoding/json packages.
pub record FaultLib : Type 0 where
  pub to_lower : String → String
  pub trim_space : String → String
  pub unmarshal : Text → Option Fields
  pub unsupported_model_prefix : String → Bool
  pub model_parameter_message : String → Bool
  pub unavailable_model : String → Bool

abbrev pub credential_codes : List String
credential_codes =
    "authentication_error" ∷ "invalid_api_key" ∷ "invalid_grant" ∷ "invalid_token" ∷ "expired_token"
    ∷ "token_expired" ∷ "invalid_client" ∷ "unauthorized" ∷ "unauthorized_client" ∷ "access_denied"
    ∷ "permission_error" ∷ "permission_denied" ∷ "insufficient_permissions" ∷ "account_deactivated"
    ∷ "account_disabled" ∷ "account_suspended" ∷ []

abbrev pub model_codes : List String
model_codes =
    "model_not_found" ∷ "model_not_found_error" ∷ "unknown_model" ∷ "model_does_not_exist"
    ∷ "model_not_exist" ∷ "model_not_available" ∷ "model_unavailable" ∷ "unsupported_model"
    ∷ "unsupported_model_error" ∷ "model_not_supported" ∷ "model_unsupported" ∷ "invalid_model"
    ∷ "model_access_denied" ∷ []

-- `switch code { case … }`
unfoldable pub one_of : List String → String → Bool
one_of codes code = any (λ c. c == code) codes

module _ (lib : FaultLib) where
  unfoldable pub clean : Json → String
  clean v = lib.to_lower (lib.trim_space (str v))

  unfoldable pub upstream_error_codes : Option Fields → List String
  unfolding clean
  upstream_error_codes body =
      let detail = object (value_at body "error") in
      clean (value_at detail "code")
      ∷ clean (value_at detail "type")
      ∷ clean (value_at body "code")
      ∷ clean (value_at body "type")
      ∷ []

  unfoldable pub is_upstream_credential_error : Option Fields → Bool
  unfolding upstream_error_codes one_of
  is_upstream_credential_error body = any (one_of credential_codes) (upstream_error_codes body)

  unfoldable pub is_upstream_model_error : Option Fields → Bool
  unfolding upstream_error_codes one_of error_message
  is_upstream_model_error body =
      let message = lib.to_lower (error_message body) in
      if any (one_of model_codes) (upstream_error_codes body)
      then true
      else if lib.unsupported_model_prefix message
      then true
      else if lib.model_parameter_message message
      then false
      else lib.unavailable_model message

  -- The kind and scope of an error without a classified scope of its own.
  unfoldable pub identity_of : String → Text → String × String
  identity_of kind message =
      let identity = some (field "error" (obj (field "code" (text kind) end)) end) in
      let body = if leb (length message) 65536 then lib.unmarshal message else none in
      if is_upstream_credential_error identity || is_upstream_credential_error body
      then ("upstream_auth_error", "account")
      else if is_upstream_model_error identity || is_upstream_model_error body
      then ("upstream_model_unavailable", "credential_model")
      else (kind, "")

  unfoldable pub fault_identity : Fault → String × String
  unfolding identity_of
  fault_identity (upstream u) = (u.kind, u.scope)
  fault_identity (api status kind message) = identity_of kind message
  fault_identity (other message) = identity_of "" message

abbrev pub is_egress_scope : String → Bool
is_egress_scope scope = scope == "egress_ip" || scope == "egress_pool"

abbrev pub is_protected_status : ℕ → Bool
is_protected_status status = status == 401 || (status == 402 || (status == 403 || status == 429))

abbrev pub is_protected_scope : String → Bool
is_protected_scope scope =
    scope == "account" || (scope == "credential_model" || scope == "upstream_team")

abbrev pub is_protected_kind : String → Bool
is_protected_kind kind =
    kind == "upstream_model_unavailable"
    || (kind == "upstream_auth_error" || kind == "upstream_quota_exhausted")

abbrev pub is_stop_kind : String → Bool
is_stop_kind kind =
    kind == "upstream_request_error"
    || (kind == "response_limit_exceeded"
        || (kind == "token_count_unavailable"
            || (kind == "request_canceled" || kind == "request_deadline_exceeded")))

abbrev pub is_stop_status : ℕ → Bool
is_stop_status status =
    status == 400 || (status == 409 || (status == 413 || (status == 415 || status == 422)))

abbrev pub is_protected : ℕ → String → String → Bool
is_protected status kind scope =
    is_protected_status status || (is_protected_scope scope || is_protected_kind kind)

unfoldable pub policy_of : ℕ → String → String → FaultPolicy
policy_of status kind scope =
    if is_egress_scope scope
    then record { scope = scope; cooldown = false; stop = status == 429; explicit = false }
    else if is_protected status kind scope
    then record {
      scope = if scope == "" || scope == "request" then "credential_model" else scope;
      cooldown = true;
      stop = false;
      explicit = false;
    }
    else record {
      scope = if scope == "" then "request" else scope;
      cooldown = false;
      stop = is_stop_kind kind || is_stop_status status;
      explicit = false;
    }

abbrev pub no_policy : FaultPolicy
no_policy = record { scope = ""; cooldown = false; stop = false; explicit = false }

unfoldable pub fault_policy_for : FaultLib → Option Fault → FaultPolicy
fault_policy_for lib none = no_policy
fault_policy_for lib (some f) =
    let (kind, scope) = fault_identity lib f in policy_of (status_code f) kind scope
