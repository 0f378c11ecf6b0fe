-- ===== src/Faults.antt =====
-- Errors as values (internal/bridge/types.go, upstream_error.go, error_policy.go). Times are
-- nanoseconds since the zero time, so 0 is Go's zero `time.Time`.
pub mod Policy
pub mod Rules
pub mod Ownership
pub mod Tests
use cline_pass_bridge.Base.{
  ℕ, ◌+◌, ◌-◌, ◌*◌, ◌/◌, ◌≤◌, String, ◌≡◌, Bool, true, false, ◌&&◌, Option, none, some, arith, ltb,
  if◌then◌else◌, ◌==◌, nat_eq, string_eq, max,
}
use cline_pass_bridge.Base.Text.{Text}

pub record RequestDetails : Type 0 where
  pub param : String
  pub message : String

-- upstreamError with its embedded APIError
pub record UpstreamError : Type 0 where
  pub status : ℕ
  pub kind : String
  pub message : Text
  pub http_status : ℕ
  pub upstream_status : ℕ
  pub transport_kind : String
  pub retry_at : ℕ
  pub scope : String
  pub local : Bool
  pub window_id : String
  pub provider : String
  pub provider_source : String
  pub quota_type : String
  pub quota_reset_at : Option ℕ
  pub request_details : Option RequestDetails

-- A Go error: an APIError, an upstreamError, or any other error by its text.
pub data Fault : Type 0 where
  api : ℕ → String → Text → Fault
  upstream : UpstreamError → Fault
  other : Text → Fault

pub data Result {ℓ} (A : Type ℓ) : Type ℓ where
  ok : A → Result A
  err : Fault → Result A

-- `&upstreamError{APIError: &APIError{status, kind, message}}`
abbrev pub upstream_fault : ℕ → String → Text → UpstreamError
upstream_fault status kind message = record {
  status = status;
  kind = kind;
  message = message;
  http_status = 0;
  upstream_status = 0;
  transport_kind = "";
  retry_at = 0;
  scope = "";
  local = false;
  window_id = "";
  provider = "";
  provider_source = "";
  quota_type = "";
  quota_reset_at = none;
  request_details = none;
}

unfoldable pub fail : ℕ → Text → Fault
fail status message = api status "upstream_error" message

unfoldable pub request_fault : ℕ → String → Text → Fault
request_fault status kind message =
    upstream (record (upstream_fault status kind message) { scope = "request" })

abbrev pub message_of : Fault → Text
message_of (api status kind message) = message
message_of (upstream u) = u.message
message_of (other message) = message

-- StatusCode() where the error has one, and 0 elsewhere.
abbrev pub status_code : Fault → ℕ
status_code (api status kind message) = status
status_code (upstream u) = u.status
status_code (other message) = 0

unfoldable pub status_of : Option Fault → ℕ
status_of none = 200
status_of (some f) = if ltb 0 (status_code f) then status_code f else 502

abbrev pub second : ℕ
second = 1_000_000_000

abbrev pub minute : ℕ
minute = 60 * second

-- max(1, ceil(until.Sub(now).Seconds()))
unfoldable pub retry_seconds : ℕ → ℕ → ℕ
retry_seconds until now = max 1 ((until - now + (second - 1)) / second)

unfoldable pub as_team_rate_limit : Option Fault → Option UpstreamError
as_team_rate_limit none = none
as_team_rate_limit (some (api status kind message)) = none
as_team_rate_limit (some (other message)) = none
as_team_rate_limit (some (upstream u)) =
    if u.kind == "upstream_team_rate_limited" then some u else none

-- The announced delay never ends before the deadline.
pub retry_seconds-cover : (until now : ℕ) → until ≤ now + retry_seconds until now * second
unfolding retry_seconds
retry_seconds-cover until now = omega arith
