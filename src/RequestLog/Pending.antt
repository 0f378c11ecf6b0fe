-- ===== src/RequestLog/Pending.antt =====
-- The events that are pending after a flush.
use cline_pass_bridge.Base.{
  ℕ, ◌≡◌, refl, ◌⊎◌, inl, inr, Bool, true, false, ◌&&◌, not, Option, none, some, List, [], ◌∷◌,
  arith, if◌then◌else◌, ltb,
}
use cline_pass_bridge.Base.Text.{Text}
use cline_pass_bridge.Faults.{Fault}
use cline_pass_bridge.RequestLog.Store.{
  RequestLogEvent, StoreLib, RequestLogStore, RequestLog, Disk,
}
use cline_pass_bridge.RequestLog.Writing.{
  JournalEnd, CompactEnd, unwritten, unemptied, unclosed, complete, Saved, bytes_of, journal_lines,
  journal_saved, append_pending, write_events, write_request_journal, write_file,
  compact_request_logs, is_long, compact_after, first_write, after_write, Flush, flush_now,
  flush_request_logs,
}

-- A write that did not fail leaves nothing pending.
abbrev ClearedIf : Option Fault → RequestLogStore → Type 0
ClearedIf (some e) s = Unit
ClearedIf none s = s.pending ≡ []

abbrev IsCleared : Saved → Type 0
IsCleared saved = ClearedIf saved.failure saved.store

journal_saved-IsCleared :
    (s : RequestLogStore) (disk : Disk) (batch : Text) (p : Text × Option Fault)
    → IsCleared (journal_saved s disk batch p)
journal_saved-IsCleared s disk batch (file, none) = refl
journal_saved-IsCleared s disk batch (file, some e) = tt

append_pending-IsCleared :
    (lib : StoreLib) (s : RequestLogStore) (disk : Disk) (ends : JournalEnd)
    (opening : Option Fault)
    → IsCleared (append_pending lib s disk ends opening)
append_pending-IsCleared lib s disk ends (some e) = tt
append_pending-IsCleared lib s disk ends none =
    journal_saved-IsCleared s disk (journal_lines lib s.pending)
      (write_file s.journal_bytes (journal_lines lib s.pending) (bytes_of disk.journal) ends)

write_events-IsCleared :
    (lib : StoreLib) (s : RequestLogStore) (disk : Disk) (ends : JournalEnd)
    (events : List RequestLogEvent)
    → s.pending ≡ events
    → IsCleared (write_events lib s disk ends events)
unfolding write_events
write_events-IsCleared lib s disk ends [] h = h
write_events-IsCleared lib s disk ends (event ∷ events) h =
    append_pending-IsCleared lib s disk ends ends.opening

compact_request_logs-IsCleared :
    (lib : StoreLib) (s : RequestLog) (disk : Disk) (ends : CompactEnd)
    → IsCleared (compact_request_logs lib s disk ends)
unfolding compact_request_logs
compact_request_logs-IsCleared lib s disk (unwritten e) = tt
compact_request_logs-IsCleared lib s disk (unemptied e) = tt
compact_request_logs-IsCleared lib s disk (unclosed e) = tt
compact_request_logs-IsCleared lib s disk complete = refl

either_IsCleared :
    (b : Bool) (x y : Saved) → IsCleared x → IsCleared y → IsCleared (if b then x else y)
either_IsCleared true x y h g = h
either_IsCleared false x y h g = g

first_write-IsCleared :
    (lib : StoreLib) (s : RequestLog) (disk : Disk) (je : JournalEnd) (ce : CompactEnd)
    → IsCleared (first_write lib s disk je ce)
unfolding write_request_journal
first_write-IsCleared lib s disk je ce =
    either_IsCleared s.store.needs_snapshot (compact_request_logs lib s disk ce)
      (write_events lib s.store disk je s.store.pending)
      (compact_request_logs-IsCleared lib s disk ce)
      (write_events-IsCleared lib s.store disk je s.store.pending refl)

compact_after-IsCleared :
    (lib : StoreLib) (s : RequestLog) (ce : CompactEnd) (failure : Option Fault) (saved : Saved)
    → IsCleared saved
    → IsCleared (compact_after lib s ce failure saved)
compact_after-IsCleared lib s ce (some e) saved h = h
compact_after-IsCleared lib s ce none saved h =
    either_IsCleared (is_long saved.store)
      (compact_request_logs lib (record s { store = saved.store }) saved.disk ce) saved
      (compact_request_logs-IsCleared lib (record s { store = saved.store }) saved.disk ce) h

after_write-pending :
    (lib : StoreLib) (now : ℕ) (s : RequestLog) (store : RequestLogStore) (failure : Option Fault)
    → ClearedIf failure store
    → (after_write lib now s store failure).store.pending ≡ []
after_write-pending lib now s store none h = h
after_write-pending lib now s store (some e) h = refl

after_write-logs :
    (lib : StoreLib) (now : ℕ) (s : RequestLog) (store : RequestLogStore) (failure : Option Fault)
    → (after_write lib now s store failure).logs ≡ s.logs
after_write-logs lib now s store none = refl
after_write-logs lib now s store (some e) = refl

-- While a snapshot is needed, nothing is pending.
abbrev pub IsQuiet : RequestLogStore → Type 0
IsQuiet s = (s.needs_snapshot ≡ false) ⊎ (s.pending ≡ [])

either_pending :
    (b : Bool) (x y : RequestLog × Disk)
    → (b ≡ true → x.0.store.pending ≡ [])
    → y.0.store.pending ≡ []
    → (if b then x else y).0.store.pending ≡ []
either_pending true x y h g = h refl
either_pending false x y h g = g

pub flush_request_logs-pending :
    (lib : StoreLib) (s : RequestLog) (disk : Disk) (f : Flush)
    → IsQuiet s.store
    → (flush_request_logs lib s disk f).0.store.pending ≡ []
unfolding flush_request_logs flush_now
flush_request_logs-pending lib s disk f h =
    let first = first_write lib s disk f.journal_end f.compact_end in
    let saved = compact_after lib s f.compact_end first.failure first in
    either_pending (s.store.needs_snapshot && not f.stopped && ltb f.now s.store.retry_at) (s, disk)
      (after_write lib f.now s saved.store saved.failure, saved.disk)
      (λ waits. elim h [
        | inl current ↦ absurd (ground (arith, waits, current))
        | inr none_left ↦ none_left
      ])
      (after_write-pending lib f.now s saved.store saved.failure (
        compact_after-IsCleared lib s f.compact_end first.failure first
          (first_write-IsCleared lib s disk f.journal_end f.compact_end)))

pub flush_request_logs-logs :
    (lib : StoreLib) (s : RequestLog) (disk : Disk) (f : Flush)
    → (flush_request_logs lib s disk f).0.logs ≡ s.logs
unfolding flush_request_logs flush_now
flush_request_logs-logs lib s disk f =
    let first = first_write lib s disk f.journal_end f.compact_end in
    let saved = compact_after lib s f.compact_end first.failure first in
    either_logs (s.store.needs_snapshot && not f.stopped && ltb f.now s.store.retry_at)
      (after_write lib f.now s saved.store saved.failure, saved.disk)
      (after_write-logs lib f.now s saved.store saved.failure)
  where
    either_logs :
        (b : Bool) (y : RequestLog × Disk)
        → y.0.logs ≡ s.logs
        → (if b then (s, disk) else y).0.logs ≡ s.logs
    either_logs true y g = refl
    either_logs false y g = g
