-- ===== src/RequestLog.antt =====
-- Entries of the request log (internal/bridge/types.go: LogEntry; observability.go). A nested struct
-- that no operation here reads is its JSON value, a float64 its JSON text, and a nil pointer to a
-- number or a time is `none`. The encoding of a key and of a time are fields of LogLib.
pub mod Lines
pub mod Store
pub mod Writing
pub mod Torn
pub mod Load
pub mod Merging
pub mod Replay
pub mod Queued
pub mod Steps
pub mod Passed
pub mod Written
pub mod Durable
pub mod Appending
pub mod Saving
pub mod Pending
pub mod Crash
pub mod Recovered
pub mod Settled
pub mod Sample
pub mod Tests
use cline_pass_bridge.Base.{
  ℕ, zero, suc, ◌+◌, ◌-◌, ◌*◌, String, ◌≡◌, refl, Bool, true, false, ◌&&◌, ◌||◌, not, Option, none,
  some, List, [], ◌∷◌, ◌++◌, ltb, leb, ◌==◌, nat_eq, string_eq, if◌then◌else◌,
}
use cline_pass_bridge.Base.Int.{ℤ, pos, negsuc}
use cline_pass_bridge.Json.{Json, null}

pub record LogEntry : Type 0 where
  pub server_tools : Json
  pub server_tool_calls : Json
  pub server_tool_calls_reported : Bool
  pub stream_diagnostics : Json
  pub error_phase : String
  pub downstream_started : Option Bool
  pub effective_frame_count : ℕ
  pub last_effective_frame_at : Option ℕ
  pub cooldown_disposition : String
  pub stream_error_details_supported : Option Bool
  pub prompt_usage_reported : Option Bool
  pub completion_usage_reported : Option Bool
  pub reasoning_mapping : Json
  pub completed_at : Option ℕ
  pub upstream_attempts : Option ℕ
  pub reasoning_effort : String
  pub request_count : ℕ
  pub last_time : Option ℕ
  pub last_request_id : String
  pub backoff_window_id : String
  pub output_tokens_per_second : Option String
  pub error_kind : String
  pub upstream_http_status : ℕ
  pub upstream_error_status : ℕ
  pub upstream_skipped : Bool
  pub retry_at : Option ℕ
  pub rate_limit_scope : String
  pub prompt_reported : Bool
  pub completion_reported : Bool
  pub estimate_key : String
  pub credential_id : String
  pub usage_reported : Bool
  pub cache_write_tokens : ℕ
  pub cache_write_reported : Bool
  pub id : String
  pub time : ℕ
  pub model : String
  pub upstream_model : String
  pub served_model : String
  pub degraded : Bool
  pub stream : Bool
  pub stream_end : String
  pub status : ℕ
  pub provider : String
  pub provider_source : String
  pub routing_fallback : Bool
  pub duration_ms : ℤ
  pub ttft_ms : ℤ
  pub prompt_tokens : ℕ
  pub completion_tokens : ℤ
  pub cached_tokens : ℕ
  pub reasoning_tokens : ℕ
  pub credential : String
  pub attempts : Json
  pub error : String

-- What a key is the JSON array of.
pub record BackoffKey : Type 0 where
  pub window : String
  pub credential_id : String
  pub upstream_model : String
  pub model : String
  pub stream : Bool
  pub reasoning_effort : String
  pub reasoning_mapping : Json
  pub error_kind : String
  pub rate_limit_scope : String
  pub status : ℕ

-- `"legacy:" + t.UTC().Format(time.RFC3339Nano)`, encoding/json, and a quotient's JSON text.
pub record LogLib : Type 0 where
  pub legacy_window : ℕ → String
  pub key_bytes : BackoffKey → String
  pub rate_text : ℕ → ℕ → String

-- `e.TTFTMS < 0 || e.TTFTMS >= e.DurationMS`, and the sample otherwise.
abbrev pub generated : ℕ → ℕ → ℤ → ℕ × ℕ
generated tokens duration (negsuc n) = (0, 0)
generated tokens duration (pos first) =
    if leb duration first then (0, 0) else (tokens, duration - first)

-- `e.CompletionTokens <= 0 || e.DurationMS <= 0`
abbrev pub rate_sample : ℤ → ℤ → ℤ → ℕ × ℕ
rate_sample (negsuc n) duration ttft = (0, 0)
rate_sample (pos tokens) (negsuc n) ttft = (0, 0)
rate_sample (pos tokens) (pos duration) ttft =
    if tokens == 0 || duration == 0 then (0, 0) else generated tokens duration ttft

unfoldable pub output_rate_sample : LogEntry → ℕ × ℕ
output_rate_sample e =
    if e.upstream_skipped then (0, 0) else rate_sample e.completion_tokens e.duration_ms e.ttft_ms

unfoldable pub output_token_rate : LogLib → LogEntry → Option String
output_token_rate lib e =
    let (tokens, ms) = output_rate_sample e in
    if ms == 0 then none else some (lib.rate_text (tokens * 1000) ms)

unfoldable pub average_output_rate_sample : LogEntry → ℕ × ℕ
average_output_rate_sample e =
    let (tokens, ms) = output_rate_sample e in if ltb ms 500 then (0, 0) else (tokens, ms)

unfoldable pub log_request_count : LogEntry → ℕ
log_request_count e = if ltb 0 e.request_count then e.request_count else 1

-- The later of a time and one that may be missing.
abbrev pub later_of : ℕ → Option ℕ → ℕ
later_of t none = t
later_of t (some u) = if ltb t u then u else t

unfoldable pub log_last_time : LogEntry → ℕ
log_last_time e = later_of e.time e.last_time

abbrev pub legacy_of : LogLib → Option ℕ → String
legacy_of lib none = ""
legacy_of lib (some t) = lib.legacy_window t

unfoldable pub window_of : LogLib → LogEntry → String
window_of lib e =
    if e.backoff_window_id == "" then legacy_of lib e.retry_at else e.backoff_window_id

abbrev pub key_in : String → LogEntry → BackoffKey
key_in window e = record {
  window = window;
  credential_id = e.credential_id;
  upstream_model = e.upstream_model;
  model = e.model;
  stream = e.stream;
  reasoning_effort = e.reasoning_effort;
  reasoning_mapping = e.reasoning_mapping;
  error_kind = e.error_kind;
  rate_limit_scope = e.rate_limit_scope;
  status = e.status;
}

unfoldable pub backoff_log_key : LogLib → LogEntry → String
backoff_log_key lib e =
    if not e.upstream_skipped
      || (e.credential_id == "")
      || (e.upstream_model == "")
      || (window_of lib e == "")
    then ""
    else lib.key_bytes (key_in (window_of lib e) e)

-- The last entry that passes a test, and the other entries.
unfoldable pub take_last : (LogEntry → Bool) → List LogEntry → Option (LogEntry × List LogEntry)
take_last p [] = none
take_last p (x ∷ xs) = elim (take_last p xs) [
  | some found ↦ some (found.0, x ∷ found.1)
  | none ↦ (if p x then some (x, xs) else none)
]

-- Which request is the latest: the time, its identifier, its error and when it may be retried.
pub record Latest : Type 0 where
  pub time : ℕ
  pub id : String
  pub error : String
  pub retry_at : Option ℕ

unfoldable pub latest_of : LogEntry → LogEntry → Latest
latest_of old e =
    if ltb (log_last_time e) (log_last_time old)
    then record {
      time = log_last_time old;
      id = old.last_request_id;
      error = old.error;
      retry_at = old.retry_at;
    }
    else record {
      time = log_last_time e;
      id = if e.last_request_id == "" then e.id else e.last_request_id;
      error = e.error;
      retry_at = e.retry_at;
    }

unfoldable pub merge_into : LogEntry → LogEntry → LogEntry
merge_into old e =
    let latest = latest_of old e in
    record e {
      error = latest.error;
      retry_at = latest.retry_at;
      request_count = log_request_count old + log_request_count e;
      id = old.id;
      last_request_id = latest.id;
      last_time = some latest.time;
      time = if ltb old.time e.time then old.time else e.time;
      attempts = null;
      output_tokens_per_second = none;
    }

abbrev pub same_key : LogLib → String → LogEntry → Bool
same_key lib key e = not (key == "") && (backoff_log_key lib e == key)

abbrev pub merged_at :
    List LogEntry → LogEntry → Option (LogEntry × List LogEntry) → List LogEntry × Bool
merged_at logs e none =
    (logs ++ record e { request_count = log_request_count e; attempts = null } ∷ [], false)
merged_at logs e (some found) = (found.1 ++ merge_into found.0 e ∷ [], true)

unfoldable pub merge_backoff_log : LogLib → List LogEntry → LogEntry → List LogEntry × Bool
merge_backoff_log lib logs e =
    if backoff_log_key lib e == ""
    then (logs ++ e ∷ [], false)
    else merged_at logs e (take_last (same_key lib (backoff_log_key lib e)) logs)

unfoldable pub compact_from : LogLib → List LogEntry → List LogEntry → List LogEntry
compact_from lib out [] = out
compact_from lib out (e ∷ logs) =
    compact_from lib
      (merge_backoff_log lib out
        (record e { output_tokens_per_second = output_token_rate lib e })).0
      logs

unfoldable pub compact_backoff_logs : LogLib → List LogEntry → List LogEntry
compact_backoff_logs lib logs = compact_from lib [] logs

abbrev pub completed : Option ℕ → Option ℕ
completed none = none
completed (some t) = if t == 0 then none else some t

abbrev pub ended : ℕ → ℤ → ℕ
ended t (negsuc n) = t
ended t (pos duration) =
    if t == 0
    then t
    else if ltb 0 duration && leb duration 86_400_000
    then t + duration * 1_000_000
    else t

unfoldable pub historical_completion_time : LogEntry → ℕ
historical_completion_time e = elim (completed e.completed_at) [
  | some t ↦ t
  | none ↦ ended (log_last_time e) e.duration_ms
]
