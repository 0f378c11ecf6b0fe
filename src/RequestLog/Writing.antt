-- ===== src/RequestLog/Writing.antt =====
-- Writing the journal and the snapshot (internal/bridge/request_log_store.go: writeRequestJournalLocked,
-- compactRequestLogsLocked, flushRequestLogsLocked). How the system calls of one write end is an argument.
use cline_pass_bridge.Base.{
  ℕ, ◌+◌, ◌*◌, Bool, true, false, ◌&&◌, ◌||◌, not, Option, none, some, List, [], ◌∷◌, ◌++◌, ltb,
  leb, nat_eq, if◌then◌else◌, length, take,
}
use cline_pass_bridge.Base.Text.{Text, codes}
use cline_pass_bridge.Faults.{Fault, other, second}
use cline_pass_bridge.RequestLog.Store.{
  RequestLogEvent, RequestLogSnapshot, StoreLib, RequestLogStore, RequestLog, Disk, newline,
}

-- How the system calls of one append to the journal end; of a failing write, the bytes that it wrote.
pub record JournalEnd : Type 0 where
  pub opening : Option Fault
  pub stat : Option Fault
  pub truncating : Option Fault
  pub seeking : Option Fault
  pub writing : Option (ℕ × Fault)
  pub closing : Option Fault

-- How those of a compaction end; the calls after a failing one are not made.
pub data CompactEnd : Type 0 where
  -- The temporary file was not written or not renamed.
  unwritten : Fault → CompactEnd
  -- The snapshot is in place, its directory was not synchronised or the journal not opened.
  unemptied : Fault → CompactEnd
  -- The journal is empty, closing it failed.
  unclosed : Fault → CompactEnd
  complete : CompactEnd

pub record Saved : Type 0 where
  pub store : RequestLogStore
  pub disk : Disk
  pub failure : Option Fault

abbrev pub bytes_of : Option Text → Text
bytes_of none = []
bytes_of (some b) = b

unfoldable pub journal_lines : StoreLib → List RequestLogEvent → Text
journal_lines lib [] = []
journal_lines lib (event ∷ events) = lib.encode_event event ++ newline ∷ journal_lines lib events

-- Of two errors that are joined, the first counts.
abbrev pub joined : Option Fault → Option Fault → Option Fault
joined none b = b
joined (some a) b = some a

abbrev pub with_journal : Disk → Text → Disk
with_journal disk b = record disk { journal = some b }

-- A file with an outcome: its bytes, and the error so far.
abbrev pub shortened : ℕ → Text → Option Fault → Option Fault
shortened size file e = joined e (
    if ltb (length file) size
    then some (other (codes "request journal unexpectedly shortened"))
    else none)

abbrev pub cut : ℕ → Text → Option Fault → Option Fault → Text × Option Fault
cut size file e (some failure) =
    (file, joined e (if ltb size (length file) then some failure else none))
cut size file none none = (take size file, none)
cut size file (some e) none = (file, some e)

-- The file is as long as the offset, unless an error stands.
abbrev pub append : Text → Text × Option Fault → Option (ℕ × Fault) → Text × Option Fault
append batch (file, some e) written = (file, some e)
append batch (file, none) none = (file ++ batch, none)
append batch (file, none) (some failure) = (file ++ take failure.0 batch, some failure.1)

unfoldable pub write_file : ℕ → Text → Text → JournalEnd → Text × Option Fault
write_file size batch file ends =
    let ready = cut size file (shortened size file ends.stat) ends.truncating in
    let written = append batch (ready.0, joined ready.1 ends.seeking) ends.writing in
    (written.0, joined written.1 ends.closing)

abbrev pub journal_saved : RequestLogStore → Disk → Text → Text × Option Fault → Saved
journal_saved s disk batch (file, some e) = record {
  store = s;
  disk = with_journal disk file;
  failure = some e;
}
journal_saved s disk batch (file, none) = record {
  store = record s {
    journal_bytes = s.journal_bytes + length batch;
    journal_events = s.journal_events + length s.pending;
    pending = [];
  };
  disk = with_journal disk file;
  failure = none;
}

abbrev pub append_pending : StoreLib → RequestLogStore → Disk → JournalEnd → Option Fault → Saved
append_pending lib s disk ends (some e) = record { store = s; disk = disk; failure = some e }
append_pending lib s disk ends none =
    let lines = journal_lines lib s.pending in
    journal_saved s disk lines (write_file s.journal_bytes lines (bytes_of disk.journal) ends)

unfoldable pub write_events :
    StoreLib → RequestLogStore → Disk → JournalEnd → List RequestLogEvent → Saved
write_events lib s disk ends [] = record { store = s; disk = disk; failure = none }
write_events lib s disk ends (event ∷ events) = append_pending lib s disk ends ends.opening

unfoldable pub write_request_journal : StoreLib → RequestLogStore → Disk → JournalEnd → Saved
write_request_journal lib s disk ends = write_events lib s disk ends s.pending

abbrev pub snapshot_of : RequestLog → RequestLogSnapshot
snapshot_of s = record { version = 1; sequence = s.store.sequence; logs = s.logs }

unfoldable pub compact_request_logs : StoreLib → RequestLog → Disk → CompactEnd → Saved
compact_request_logs lib s disk (unwritten e) = record {
  store = s.store;
  disk = disk;
  failure = some e;
}
compact_request_logs lib s disk (unemptied e) = record {
  store = s.store;
  disk = record disk { snapshot = some (lib.encode_snapshot (snapshot_of s)) };
  failure = some e;
}
compact_request_logs lib s disk (unclosed e) = record {
  store = s.store;
  disk = record disk { snapshot = some (lib.encode_snapshot (snapshot_of s)); journal = some [] };
  failure = some e;
}
compact_request_logs lib s disk complete = record {
  store = record s.store {
    journal_bytes = 0;
    journal_events = 0;
    snapshot_bytes = length (lib.encode_snapshot (snapshot_of s));
    pending = [];
    needs_snapshot = false;
  };
  disk = record disk { snapshot = some (lib.encode_snapshot (snapshot_of s)); journal = some [] };
  failure = none;
}

abbrev pub is_long : RequestLogStore → Bool
is_long s =
    leb (64 * 1_048_576) s.journal_bytes
    || (leb 1024 s.journal_events && leb s.snapshot_bytes s.journal_bytes)

abbrev pub compact_after : StoreLib → RequestLog → CompactEnd → Option Fault → Saved → Saved
compact_after lib s ends (some e) saved = saved
compact_after lib s ends none saved =
    if is_long saved.store
    then compact_request_logs lib (record s { store = saved.store }) saved.disk ends
    else saved

abbrev pub first_write : StoreLib → RequestLog → Disk → JournalEnd → CompactEnd → Saved
first_write lib s disk journal_end compact_end =
    if s.store.needs_snapshot
    then compact_request_logs lib s disk compact_end
    else write_request_journal lib s.store disk journal_end

abbrev pub after_write : StoreLib → ℕ → RequestLog → RequestLogStore → Option Fault → RequestLog
after_write lib now s store none = record s {
  store = record store { retry_at = 0 };
  log_write_error = "";
}
after_write lib now s store (some e) = record s {
  store = record store { pending = []; needs_snapshot = true; retry_at = now + 2 * second };
  log_write_error = lib.safe_error e;
}

-- What flushRequestLogsLocked is called with: the clock, s.stopped, and how its writes end.
pub record Flush : Type 0 where
  pub now : ℕ
  pub stopped : Bool
  pub journal_end : JournalEnd
  pub compact_end : CompactEnd

unfoldable pub flush_now : StoreLib → RequestLog → Disk → Flush → RequestLog × Disk
flush_now lib s disk f =
    let first = first_write lib s disk f.journal_end f.compact_end in
    let saved = compact_after lib s f.compact_end first.failure first in
    (after_write lib f.now s saved.store saved.failure, saved.disk)

unfoldable pub flush_request_logs : StoreLib → RequestLog → Disk → Flush → RequestLog × Disk
flush_request_logs lib s disk f =
    if s.store.needs_snapshot && not f.stopped && ltb f.now s.store.retry_at
    then (s, disk)
    else flush_now lib s disk f
