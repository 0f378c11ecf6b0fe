-- ===== src/RequestLog/Store.antt =====
-- The request log's journal and snapshot (internal/bridge/request_log_store.go, service.go: appendLog,
-- configure). A file is its bytes or missing. How the system calls of one write end is an argument;
-- encoding/json is a field of StoreLib, and so is the text of an error.
use cline_pass_bridge.Base.{
  ℕ, ◌+◌, ◌-◌, String, Bool, true, false, Option, none, some, List, [], ◌∷◌, ◌++◌, nat_eq,
  if◌then◌else◌, length, drop,
}
use cline_pass_bridge.Base.Text.{Text, codes}
use cline_pass_bridge.Faults.{Fault, other, Result, ok, err}
use cline_pass_bridge.RequestLog.{LogEntry, LogLib, backoff_log_key, take_last, same_key}

pub record RequestLogEvent : Type 0 where
  pub sequence : ℕ
  pub entry : Option LogEntry
  pub merged : Bool
  pub retention : ℕ
  pub clear : Bool

pub record RequestLogSnapshot : Type 0 where
  pub version : ℕ
  pub sequence : ℕ
  pub logs : List LogEntry

pub record StoreLib : Type 0 where
  pub log : LogLib
  pub encode_event : RequestLogEvent → Text
  pub decode_event : Text → Result RequestLogEvent
  pub encode_snapshot : RequestLogSnapshot → Text
  pub decode_snapshot : Text → Result RequestLogSnapshot
  pub decode_logs : Text → Result (List LogEntry)
  pub safe_error : Fault → String

pub record RequestLogStore : Type 0 where
  pub sequence : ℕ
  pub journal_bytes : ℕ
  pub journal_events : ℕ
  pub snapshot_bytes : ℕ
  pub pending : List RequestLogEvent
  pub needs_snapshot : Bool
  pub retry_at : ℕ

abbrev pub fresh_store : RequestLogStore
fresh_store = record {
  sequence = 0;
  journal_bytes = 0;
  journal_events = 0;
  snapshot_bytes = 0;
  pending = [];
  needs_snapshot = false;
  retry_at = 0;
}

-- s.logs, s.logStore and s.logWriteError.
pub record RequestLog : Type 0 where
  pub logs : List LogEntry
  pub store : RequestLogStore
  pub log_write_error : String

-- The files requests.snapshot.json, requests.journal.jsonl and requests.json.
pub record Disk : Type 0 where
  pub snapshot : Option Text
  pub journal : Option Text
  pub legacy : Option Text

abbrev pub newline : ℕ
newline = 10

-- The last `retention` entries.
unfoldable pub retain : ℕ → List LogEntry → List LogEntry
retain retention logs = drop (length logs - retention) logs

abbrev pub placed : LogEntry → Bool → Option (LogEntry × List LogEntry) → Result (List LogEntry)
placed e true none = err (other (codes "request journal merge target missing"))
placed e true (some found) = ok (found.1 ++ e ∷ [])
placed e false found = err (other [])

unfoldable pub place_entry :
    LogLib → List LogEntry → Option LogEntry → Bool → Result (List LogEntry)
place_entry lib logs none merged = ok logs
place_entry lib logs (some e) false = ok (logs ++ e ∷ [])
place_entry lib logs (some e) true =
    placed e true (take_last (same_key lib (backoff_log_key lib e)) logs)

abbrev pub retained : ℕ → Result (List LogEntry) → Result (List LogEntry)
retained retention (ok logs) = ok (retain retention logs)
retained retention (err e) = err e

unfoldable pub apply_request_log_event :
    LogLib → List LogEntry → RequestLogEvent → Result (List LogEntry)
apply_request_log_event lib logs event =
    retained event.retention
      (place_entry lib (if event.clear then [] else logs) event.entry event.merged)

unfoldable pub queue_request_log : RequestLogStore → ℕ → Option LogEntry → Bool → RequestLogStore
queue_request_log s retention entry merged =
    let next = s.sequence + 1 in
    if s.needs_snapshot then record s { sequence = next } else record s {
      sequence = next;
      pending =
          s.pending
          ++ record {
            sequence = next;
            entry = entry;
            merged = merged;
            retention = retention;
            clear = false;
          }
            ∷ [];
    }
