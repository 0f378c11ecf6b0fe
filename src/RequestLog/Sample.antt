-- ===== src/RequestLog/Sample.antt =====
-- An encoding of the entries of requests that a closed window skips, whose numbers are kept away
-- from the newline.
use mathlib.Core.Path.{subst}
use cline_pass_bridge.Base.{
  ℕ, ◌+◌, ◌-◌, ◌≡◌, refl, ap, ◌∙◌, sym, inl, inr, Bool, true, false, Option, none, some, List, [],
  ◌∷◌, arith, if◌then◌else◌, Bool-cases, nat_beq, ltb, string_eq, eq_iff,
}
use cline_pass_bridge.Base.Text.{Text}
use cline_pass_bridge.Json.{null}
use cline_pass_bridge.Faults.{other, Result, ok, err}
use cline_pass_bridge.Base.Int.{pos}
use cline_pass_bridge.RequestLog.{
  LogEntry, LogLib, log_request_count, log_last_time, latest_of, merge_into,
}
use cline_pass_bridge.RequestLog.Store.{RequestLogEvent, RequestLogSnapshot, StoreLib}
use cline_pass_bridge.RequestLog.Lines.{
  stored, all_stored, stored_if, stored_event, AllOf, AnyIf, has_newline, IsFaithful,
}
use cline_pass_bridge.RequestLog.Replay.{KeepsClean}

-- A request that a window skips.
abbrev pub skipped : ℕ → ℕ → Option ℕ → LogEntry
skipped count time last = record {
  server_tools = null;
  server_tool_calls = null;
  server_tool_calls_reported = false;
  stream_diagnostics = null;
  error_phase = "";
  downstream_started = none;
  effective_frame_count = 0;
  last_effective_frame_at = none;
  cooldown_disposition = "";
  stream_error_details_supported = none;
  prompt_usage_reported = none;
  completion_usage_reported = none;
  reasoning_mapping = null;
  completed_at = none;
  upstream_attempts = none;
  reasoning_effort = "";
  request_count = count;
  last_time = last;
  last_request_id = "";
  backoff_window_id = "w";
  output_tokens_per_second = none;
  error_kind = "";
  upstream_http_status = 0;
  upstream_error_status = 0;
  upstream_skipped = true;
  retry_at = none;
  rate_limit_scope = "";
  prompt_reported = false;
  completion_reported = false;
  estimate_key = "";
  credential_id = "c";
  usage_reported = false;
  cache_write_tokens = 0;
  cache_write_reported = false;
  id = "";
  time = time;
  model = "m";
  upstream_model = "m";
  served_model = "";
  degraded = false;
  stream = false;
  stream_end = "";
  status = 429;
  provider = "";
  provider_source = "";
  routing_fallback = false;
  duration_ms = pos 0;
  ttft_ms = pos 0;
  prompt_tokens = 0;
  completion_tokens = pos 0;
  cached_tokens = 0;
  reasoning_tokens = 0;
  credential = "";
  attempts = null;
  error = "";
}

abbrev pub IsSkipped : LogEntry → Type 0
IsSkipped e = (count : ℕ) × (time : ℕ) × (last : Option ℕ) × (e ≡ skipped count time last)

abbrev coded : ℕ → ℕ
coded n = n + 11

abbrev coded_flag : Bool → ℕ
coded_flag b = if b then 12 else 11

abbrev coded_time : Option ℕ → ℕ
coded_time none = 11
coded_time (some t) = t + 12

abbrev decoded : ℕ → ℕ
decoded n = n - 11

abbrev decoded_time : ℕ → Option ℕ
decoded_time n = if nat_beq n 11 then none else some (n - 12)

abbrev coded_entry : LogEntry → Text
coded_entry e = coded e.request_count ∷ coded e.time ∷ coded_time e.last_time ∷ []

abbrev coded_if : Option LogEntry → Text
coded_if none = []
coded_if (some e) = coded_entry e

abbrev coded_event : RequestLogEvent → Text
coded_event event =
    coded event.sequence
    ∷ coded event.retention
    ∷ coded_flag event.merged
    ∷ coded_flag event.clear
    ∷ coded_if event.entry

abbrev decoded_if : Text → Option LogEntry
decoded_if [] = none
decoded_if (a ∷ []) = none
decoded_if (a ∷ b ∷ []) = none
decoded_if (a ∷ b ∷ c ∷ rest) = some (skipped (decoded a) (decoded b) (decoded_time c))

abbrev decoded_event : Text → Result RequestLogEvent
decoded_event (a ∷ b ∷ c ∷ d ∷ rest) = ok (record {
  sequence = decoded a;
  entry = decoded_if rest;
  merged = nat_beq c 12;
  retention = decoded b;
  clear = nat_beq d 12;
})
decoded_event _ = err (other [])

abbrev coded_logs : List LogEntry → Text
coded_logs [] = []
coded_logs (e ∷ logs) =
    coded e.request_count ∷ coded e.time ∷ coded_time e.last_time ∷ coded_logs logs

abbrev decoded_logs : Text → List LogEntry
decoded_logs (a ∷ b ∷ c ∷ rest) =
    skipped (decoded a) (decoded b) (decoded_time c) ∷ decoded_logs rest
decoded_logs _ = []

abbrev decoded_snapshot : Text → Result RequestLogSnapshot
decoded_snapshot (a ∷ b ∷ rest) =
    ok (record { version = decoded a; sequence = decoded b; logs = decoded_logs rest })
decoded_snapshot _ = err (other [])

abbrev pub test_log : LogLib
test_log = record {
  legacy_window = λ t. "legacy";
  key_bytes = λ k. k.window;
  rate_text = λ a b. "";
}

abbrev pub test_store : StoreLib
test_store = record {
  log = test_log;
  encode_event = coded_event;
  decode_event = decoded_event;
  encode_snapshot = λ s. coded s.version ∷ coded s.sequence ∷ coded_logs s.logs;
  decode_snapshot = decoded_snapshot;
  decode_logs = λ b. err (other []);
  safe_error = λ f. "failed";
}

decoded-coded : (n : ℕ) → decoded (coded n) ≡ n
decoded-coded n = omega arith

flag_back : (b : Bool) → nat_beq (coded_flag b) 12 ≡ b
flag_back true = refl
flag_back false = refl

time_back : (t : Option ℕ) → decoded_time (coded_time t) ≡ t
time_back none = refl
time_back (some t) = ground arith

entry_back : (entry : Option LogEntry) → AnyIf IsSkipped entry → decoded_if (coded_if entry) ≡ entry
entry_back none h = refl
entry_back (some e) (c, t, l, h) =
    subst (λ x. decoded_if (coded_entry x) ≡ some x) (sym h)
      (rw (decoded-coded c, decoded-coded t, time_back l) refl)

stored_back : (entry : Option LogEntry) → AnyIf IsSkipped entry → entry ≡ stored_if entry
stored_back none h = refl
stored_back (some e) (c, t, l, h) = subst (λ x. some x ≡ some (stored x)) (sym h) refl

event_back :
    (event : RequestLogEvent)
    → AnyIf IsSkipped event.entry
    → decoded_event (coded_event event) ≡ ok (stored_event event)
event_back event h =
    rw
      (
        decoded-coded event.sequence,
        decoded-coded event.retention,
        flag_back event.merged,
        flag_back event.clear,
      )
      (ap (λ x. ok (record event { entry = x }))
        (entry_back event.entry h ∙ stored_back event.entry h))

logs_back :
    (logs : List LogEntry) → AllOf IsSkipped logs → decoded_logs (coded_logs logs) ≡ all_stored logs
logs_back [] h = refl
logs_back (e ∷ logs) ((c, t, l, h), rest) =
    subst (λ x. decoded_logs (coded_logs (x ∷ logs)) ≡ all_stored (x ∷ logs)) (sym h)
      (rw (decoded-coded c, decoded-coded t, time_back l, logs_back logs rest) refl)

snapshot_back :
    (s : RequestLogSnapshot)
    → AllOf IsSkipped s.logs
    → decoded_snapshot (coded s.version ∷ coded s.sequence ∷ coded_logs s.logs)
      ≡ ok (record s { logs = all_stored s.logs })
snapshot_back s h = rw (decoded-coded s.version, decoded-coded s.sequence, logs_back s.logs h) refl

coded_if-line : (entry : Option LogEntry) → has_newline (coded_if entry) ≡ false
coded_if-line none = refl
coded_if-line (some e) = ground (arith, coded_time-line e.last_time)
  where
    coded_time-line : (t : Option ℕ) → nat_beq (coded_time t) 10 ≡ false
    coded_time-line none = refl
    coded_time-line (some t) = ground arith

pub test_store-IsFaithful : IsFaithful test_store IsSkipped
test_store-IsFaithful = record {
  event_back = event_back;
  snapshot_back = snapshot_back;
  one_line = λ event. ground (arith, coded_if-line event.entry);
}

merged_skipped :
    (c d t u : ℕ) (l k : Option ℕ) → IsSkipped (merge_into (skipped c t l) (skipped d u k))
unfolding merge_into latest_of
merged_skipped c d t u l k = (
  log_request_count (skipped c t l) + log_request_count (skipped d u k),
  (if ltb t u then t else u),
  some (latest_of (skipped c t l) (skipped d u k)).time,
  elim (Bool-cases (ltb (log_last_time (skipped d u k)) (log_last_time (skipped c t l)))) [
    | inl older ↦ rw older refl
    | inr newer ↦ rw newer refl
  ],
)

pub test_log-KeepsClean : KeepsClean test_log IsSkipped
test_log-KeepsClean = record {
  merge = λ old e h g.
      subst (λ x. IsSkipped (merge_into x e)) (sym h.3)
        (subst (λ x. IsSkipped (merge_into (skipped h.0 h.1 h.2) x)) (sym g.3)
          (merged_skipped h.0 g.0 h.1 g.1 h.2 g.2));
  single = λ e h. (
    log_request_count e,
    h.1,
    h.2,
    ap {A = LogEntry} (λ x. record x { request_count = log_request_count e; attempts = null }) h.3,
  );
  unlike =
      λ e t h same. ground (arith, same ∙ ap (λ x. x.backoff_window_id) h.3, eq_iff "legacy" "w");
  key_window = λ v w a b h. h;
}
