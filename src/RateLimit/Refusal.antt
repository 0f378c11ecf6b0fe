-- ===== src/RateLimit/Refusal.antt =====
-- A request that the limiter keeps back meets the plugin's default error rules.
use cline_pass_bridge.Base.{
  ℕ, ◌≡◌, ap, ◌∙◌, Bool, true, false, some, ◌++◌, arith, ltb, if◌then◌else◌, length, take,
}
use cline_pass_bridge.Base.Text.{Text, contains, contains-append}
use cline_pass_bridge.Faults.{Fault, UpstreamError, err, upstream}
use cline_pass_bridge.Faults.Policy.{FaultPolicy, fault_policy_for}
use cline_pass_bridge.Faults.Rules.{
  RuleLib, marker_rule, host_fault_policy, request_error_rules, safe_error, apply_rules,
  rule_matches, action_policy, host_error_status,
}
use cline_pass_bridge.RateLimit.{RateKey, Limiter, acquire, rate_limit_marker}
use cline_pass_bridge.RateLimit.Admission.{acquire_error}

-- What the rules rely on: redaction removes keys and leaves the marker, and the names of the
-- actions are already trimmed and in lower case.
pub record KeepsMarkers (lib : RuleLib) : Type 0 where
  pub marker_stays :
      (s : Text)
      → contains rate_limit_marker s ≡ true
      → contains rate_limit_marker (lib.redact s) ≡ true
  pub stop_stays : lib.faults.to_lower (lib.faults.trim_space "stop") ≡ "stop"

truncated_marker :
    (rest : Text) (b : Bool)
    → contains rate_limit_marker
        (if b then take 500 (rate_limit_marker ++ rest) else rate_limit_marker ++ rest)
      ≡ true
unfolding contains
truncated_marker rest true = contains-append rate_limit_marker (take 468 rest)
truncated_marker rest false = contains-append rate_limit_marker rest

marker_survives :
    (lib : RuleLib) (u : UpstreamError) (rest : Text)
    → KeepsMarkers lib
    → u.message ≡ rate_limit_marker ++ rest
    → contains rate_limit_marker (safe_error lib (upstream u)) ≡ true
unfolding safe_error
marker_survives lib u rest k h =
    k.marker_stays _ (rw h (truncated_marker rest (ltb 500 (length (rate_limit_marker ++ rest)))))

stop_action :
    (lib : RuleLib) (p : FaultPolicy)
    → KeepsMarkers lib
    → action_policy lib "stop" p
      ≡ some (record p { cooldown = false; stop = true; explicit = true })
unfolding action_policy
stop_action lib p k = rw k.stop_stays

marker_matches :
    (lib : RuleLib) (body : Text)
    → contains rate_limit_marker body ≡ true
    → rule_matches lib body (marker_rule 429 rate_limit_marker "stop") ≡ true
unfolding rule_matches
marker_matches lib body h = rw h

default_rules_stop :
    (lib : RuleLib) (body : Text) (p : FaultPolicy)
    → KeepsMarkers lib
    → contains rate_limit_marker body ≡ true
    → apply_rules lib 429 body p request_error_rules
      ≡ record p { cooldown = false; stop = true; explicit = true }
unfolding apply_rules request_error_rules
default_rules_stop lib body p k m = rw (marker_matches lib body m) (rw (stop_action lib p k))

status_is_429 : (u : UpstreamError) → u.status ≡ 429 → host_error_status (upstream u) ≡ 429
unfolding host_error_status
status_is_429 u s = ground arith

stops :
    (lib : RuleLib) (u : UpstreamError)
    → KeepsMarkers lib
    → u.status ≡ 429
    → contains rate_limit_marker (safe_error lib (upstream u)) ≡ true
    → host_fault_policy lib request_error_rules (some (upstream u))
      ≡ record (fault_policy_for lib.faults (some (upstream u))) {
        cooldown = false;
        stop = true;
        explicit = true;
      }
stops lib u k s m =
    let p = fault_policy_for lib.faults (some (upstream u)) in
    unfold host_fault_policy in
    ap (λ n. apply_rules lib n (safe_error lib (upstream u)) p request_error_rules)
      (status_is_429 u s)
    ∙ default_rules_stop lib (safe_error lib (upstream u)) p k m

-- A request that the limiter refuses stops under the default rules, with no cooldown for its
-- credential, although the error is a 429.
pub refusal_stops_request :
    (lib : RuleLib) (now : ℕ) (key : RateKey) (l : Limiter) {e : Fault}
    → KeepsMarkers lib
    → (acquire now key l).1 ≡ err e
    → host_fault_policy lib request_error_rules (some e)
      ≡ record (fault_policy_for lib.faults (some e)) {
        cooldown = false;
        stop = true;
        explicit = true;
      }
refusal_stops_request lib now key l {e} k h =
    let (u, same, refusal) = acquire_error now key l h in
    rw same (stops lib u k refusal.1 (marker_survives lib u refusal.4.0 k refusal.4.1))
