-- ===== src/RequestLog/Load.antt =====
-- Reading the request log back (internal/bridge/request_log_store.go: loadRequestLogsLocked), and the
-- calls that change it (service.go: appendLog from the merge on, configure).
use cline_pass_bridge.Base.{
  ℕ, ◌+◌, Bool, false, ◌&&◌, not, Option, none, some, List, [], ◌∷◌, ◌++◌, ltb, leb, ◌==◌, nat_eq,
  nat_beq, if◌then◌else◌, length,
}
use cline_pass_bridge.Base.Text.{Text, codes, decimal}
use cline_pass_bridge.Faults.{Fault, other, Result, ok, err, message_of}
use cline_pass_bridge.RequestLog.{LogEntry, LogLib, merge_backoff_log, compact_backoff_logs}
use cline_pass_bridge.RequestLog.Store.{
  RequestLogEvent, RequestLogSnapshot, StoreLib, RequestLogStore, fresh_store, RequestLog, Disk,
  newline, retain, apply_request_log_event, queue_request_log,
}
use cline_pass_bridge.RequestLog.Writing.{Flush, flush_request_logs}

-- What the loop over the journal changes: the logs, the store, and the sequence before.
pub record Replay : Type 0 where
  pub previous : ℕ
  pub logs : List LogEntry
  pub store : RequestLogStore

-- A file that is read: missing, unreadable, or its bytes.
pub data File : Type 0 where
  absent : File
  unreadable : Fault → File
  content : Text → File

abbrev pub annotated : Text → Fault → Fault
annotated prefix e = other (prefix ++ message_of e)

abbrev pub started : List LogEntry → ℕ → ℕ → Result Replay
started logs sequence size = ok (record {
  previous = 0;
  logs = logs;
  store = record fresh_store { sequence = sequence; snapshot_bytes = size };
})

abbrev pub start_snapshot : ℕ → Result RequestLogSnapshot → Result Replay
start_snapshot size (err e) = err (annotated (codes "read request log snapshot: ") e)
start_snapshot size (ok s) =
    if s.version == 1
    then started s.logs s.sequence size
    else err (other (codes "unsupported request log snapshot version"))

abbrev pub start_legacy : LogLib → ℕ → Result (List LogEntry) → Result Replay
start_legacy lib size (err e) = err (annotated (codes "read legacy request logs: ") e)
start_legacy lib size (ok logs) = started (compact_backoff_logs lib logs) 0 size

-- The snapshot, or without one the older version's file.
unfoldable pub start_of : StoreLib → File → File → Result Replay
start_of lib (content b) legacy = start_snapshot (length b) (lib.decode_snapshot b)
start_of lib (unreadable e) legacy = err e
start_of lib absent absent = started (compact_backoff_logs lib.log []) 0 0
start_of lib absent (unreadable e) = err e
start_of lib absent (content b) = start_legacy lib.log (length b) (lib.decode_logs b)

abbrev pub applied_to : Replay → RequestLogEvent → Result (List LogEntry) → Result Replay
applied_to r event (err e) = err e
applied_to r event (ok logs) = ok (record {
  previous = event.sequence;
  logs = logs;
  store = record r.store { sequence = event.sequence; journal_events = r.store.journal_events + 1 };
})

-- An event after the loop's checks.
unfoldable pub replay_event : LogLib → Replay → RequestLogEvent → Result Replay
replay_event lib r event =
    if leb event.sequence r.store.sequence
    then ok (record r { previous = event.sequence })
    else if not (event.sequence == r.store.sequence + 1)
    then err (other (codes "request journal sequence gap"))
    else applied_to r event (apply_request_log_event lib r.logs event)

unfoldable pub is_valid_event : ℕ → RequestLogEvent → Bool
is_valid_event previous event =
    not (nat_beq event.sequence 0)
    && ltb previous event.sequence
    && leb 1 event.retention
    && leb event.retention 10_000

abbrev pub counted : ℕ → Result Replay → Result Replay
counted n (err e) = err e
counted n (ok r) =
    ok (record r { store = record r.store { journal_bytes = r.store.journal_bytes + n } })

-- One line, of `n` bytes with its end.
unfoldable pub replay_line : LogLib → Replay → ℕ → Result RequestLogEvent → Result Replay
replay_line lib r n (err e) =
    err (
      annotated (codes "request journal at byte " ++ decimal r.store.journal_bytes ++ codes ": ") e)
replay_line lib r n (ok event) =
    if is_valid_event r.previous event
    then counted n (replay_event lib r event)
    else err (other (codes "invalid request journal sequence or retention"))

-- A function of the value, or its error.
abbrev pub and_then {ℓ κ} : {A : Type ℓ} {B : Type κ} → Result A → (A → Result B) → Result B
and_then (ok a) f = f a
and_then (err e) f = err e

unfoldable pub replay_lines : StoreLib → List Text → Replay → Result Replay
replay_lines lib [] r = ok r
replay_lines lib (line ∷ lines) r =
    and_then (replay_line lib.log r (length line + 1) (lib.decode_event line))
      (replay_lines lib lines)

-- The lines that end in a newline, each without it; `acc` is the line so far.
unfoldable pub lines_from : Text → Text → List Text
lines_from acc [] = []
lines_from acc (c ∷ b) =
    let ended = lines_from [] b in
    let longer = lines_from (acc ++ c ∷ []) b in if nat_beq c newline then acc ∷ ended else longer

unfoldable pub replay_journal : StoreLib → File → Replay → Result Replay
replay_journal lib absent r = ok r
replay_journal lib (unreadable e) r = err e
replay_journal lib (content b) r = replay_lines lib (lines_from [] b) r

unfoldable pub load_request_logs : StoreLib → File → File → File → Result Replay
load_request_logs lib snapshot legacy journal =
    and_then (start_of lib snapshot legacy) (replay_journal lib journal)

abbrev pub file_of : Option Text → File
file_of none = absent
file_of (some b) = content b

-- What a start of the service reads from the disk.
unfoldable pub read_back : StoreLib → Disk → Result Replay
read_back lib disk =
    load_request_logs lib (file_of disk.snapshot) (file_of disk.legacy) (file_of disk.journal)

abbrev pub last_entry : List LogEntry → Option LogEntry
last_entry [] = none
last_entry (e ∷ []) = some e
last_entry (e ∷ f ∷ logs) = last_entry (f ∷ logs)

-- The logs in memory after an entry; the last one is the entry's.
unfoldable pub log_entry : LogLib → ℕ → RequestLog → LogEntry → RequestLog
log_entry lib retention s e =
    let (logs, merged) = merge_backoff_log lib s.logs e in
    let kept = retain retention logs in
    record s { logs = kept; store = queue_request_log s.store retention (last_entry kept) merged }

unfoldable pub append_log : StoreLib → ℕ → RequestLog → Disk → LogEntry → Flush → RequestLog × Disk
append_log lib retention s disk e f =
    flush_request_logs lib (log_entry lib.log retention s e) disk f

unfoldable pub shrink : ℕ → RequestLog → RequestLog
shrink retention s = record s {
  logs = retain retention s.logs;
  store = queue_request_log s.store retention none false;
}

-- A new retention.
unfoldable pub configure_retention : StoreLib → ℕ → RequestLog → Disk → Flush → RequestLog × Disk
configure_retention lib retention s disk f =
    if ltb retention (length s.logs)
    then flush_request_logs lib (shrink retention s) disk f
    else (s, disk)
