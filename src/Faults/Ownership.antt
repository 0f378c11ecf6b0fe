-- ===== src/Faults/Ownership.antt =====
-- What the baseline policy promises of every error.
use cline_pass_bridge.Base.{
  ℕ, String, ◌≡◌, ◌≢◌, refl, true, false, Option, none, some, arith, ◌==◌, if◌then◌else◌,
  Bool-cases, inl, inr, eq_iff, leb, length, ◌||◌, string_eq,
}
use cline_pass_bridge.Base.Text.{Text}
use cline_pass_bridge.Json.{Fields, field, obj, text, end}
use cline_pass_bridge.Faults.{Fault, api, upstream, other, status_code}
use cline_pass_bridge.Faults.Policy.{
  FaultPolicy, FaultLib, fault_policy_for, fault_identity, identity_of,
  is_upstream_credential_error, is_upstream_model_error, is_protected, policy_of,
  is_protected_status, is_egress_scope,
}

-- A cooldown is charged to an owner other than the request, and never stops the request.
abbrev pub IsSound : FaultPolicy → Type 0
IsSound p =
    (p.explicit ≡ false)
    × (p.scope ≢ "")
    × (p.cooldown ≡ true → (p.stop ≡ false) × (p.scope ≢ "request"))

egress_nonempty : (scope : String) → is_egress_scope scope ≡ true → scope ≢ ""
egress_nonempty scope h = ground (
  arith,
  eq_iff scope "egress_ip",
  eq_iff scope "egress_pool",
  eq_iff "egress_ip" "",
  eq_iff "egress_pool" "",
)

abbrev owner_scope : String → String
owner_scope scope = if scope == "" || scope == "request" then "credential_model" else scope

owner_named : (scope : String) → (owner_scope scope ≢ "") × (owner_scope scope ≢ "request")
owner_named scope = ground (
  arith,
  eq_iff scope "",
  eq_iff scope "request",
  eq_iff "credential_model" "",
  eq_iff "credential_model" "request",
)

request_named : (scope : String) → (if scope == "" then "request" else scope) ≢ ""
request_named scope = ground (arith, eq_iff scope "", eq_iff "request" "")

policy_of-IsSound : (status : ℕ) (kind scope : String) → IsSound (policy_of status kind scope)
unfolding policy_of
policy_of-IsSound status kind scope = elim (Bool-cases (is_egress_scope scope)) [
  | inl e ↦ rw e (refl, egress_nonempty scope e, λ h. cc)
  | inr e ↦ elim (Bool-cases (is_protected status kind scope)) [
    | inl p ↦ rw (e, p) (refl, (owner_named scope).0, λ h. (refl, (owner_named scope).1))
    | inr p ↦ rw (e, p) (refl, request_named scope, λ h. cc)
  ]
]

-- The scope that an error carries from its source.
abbrev pub source_scope : Fault → String
source_scope (upstream u) = u.scope
source_scope (api status kind message) = ""
source_scope (other message) = ""

policy_of_protected :
    (status : ℕ) (kind scope : String)
    → is_protected_status status ≡ true
    → is_egress_scope scope ≡ false
    → (policy_of status kind scope).cooldown ≡ true
unfolding policy_of
policy_of_protected status kind scope p e = ground arith

-- Every error's baseline policy names an owner; an owner that cools down is not the request, and
-- then the request may go on with another credential.
pub fault_policy-IsSound : (lib : FaultLib) (f : Fault) → IsSound (fault_policy_for lib (some f))
unfolding fault_policy_for
fault_policy-IsSound lib f =
    policy_of-IsSound (status_code f) (fault_identity lib f).0 (fault_identity lib f).1

abbrev code_body : String → Option Fields
code_body kind = some (field "error" (obj (field "code" (text kind) end)) end)

abbrev parsed : FaultLib → Text → Option Fields
parsed lib message = if leb (length message) 65536 then lib.unmarshal message else none

identity_not_egress :
    (lib : FaultLib) (kind : String) (message : Text)
    → is_egress_scope (identity_of lib kind message).1 ≡ false
unfolding identity_of
identity_not_egress lib kind message =
    elim (Bool-cases (
      is_upstream_credential_error lib (code_body kind)
      || is_upstream_credential_error lib (parsed lib message))) [
        | inl c ↦ rw c refl
        | inr c ↦
            elim (Bool-cases (
              is_upstream_model_error lib (code_body kind)
              || is_upstream_model_error lib (parsed lib message))) [
                | inl m ↦ rw (c, m) refl
                | inr m ↦ rw (c, m) refl
              ]
      ]

identity_scope :
    (lib : FaultLib) (f : Fault)
    → is_egress_scope (source_scope f) ≡ false
    → is_egress_scope (fault_identity lib f).1 ≡ false
unfolding fault_identity
identity_scope lib (upstream u) e = e
identity_scope lib (api status kind message) e = identity_not_egress lib kind message
identity_scope lib (other message) e = identity_not_egress lib "" message

-- The baseline policy, before any rule of the host is applied, cools the owner of an error with an
-- authentication, payment, permission or rate-limit status (401, 402, 403, 429) down, if the error was
-- not classified at its source as a fault of an egress address or of the egress pool.
pub protected_status_cools :
    (lib : FaultLib) (f : Fault)
    → is_protected_status (status_code f) ≡ true
    → is_egress_scope (source_scope f) ≡ false
    → (fault_policy_for lib (some f)).cooldown ≡ true
unfolding fault_policy_for
protected_status_cools lib f p e =
    policy_of_protected (status_code f) (fault_identity lib f).0 (fault_identity lib f).1 p
      (identity_scope lib f e)
