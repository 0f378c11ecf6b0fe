-- ===== src/RequestLog/Settled.antt =====
-- A flush whose system calls go well.
use mathlib.Core.Path.{subst}
use cline_pass_bridge.Base.{
  ℕ, ◌≤◌, ◌≡◌, refl, ap, ◌∙◌, sym, ◌⊎◌, inl, inr, Bool, true, false, ◌&&◌, not, Option, none, some,
  List, [], ◌∷◌, arith, if◌then◌else◌, length, ltb,
}
use cline_pass_bridge.Base.Text.{Text}
use cline_pass_bridge.Faults.{Fault, ok}
use cline_pass_bridge.RequestLog.{LogEntry}
use cline_pass_bridge.RequestLog.Store.{
  RequestLogEvent, StoreLib, RequestLogStore, RequestLog, Disk,
}
use cline_pass_bridge.RequestLog.Writing.{
  complete, Saved, bytes_of, journal_lines, journal_saved, write_events, write_request_journal,
  write_file, compact_request_logs, is_long, compact_after, first_write, after_write, Flush,
  flush_now, flush_request_logs,
}
use cline_pass_bridge.RequestLog.Load.{Replay, read_back}
use cline_pass_bridge.RequestLog.Lines.{all_stored, IsFaithful}
use cline_pass_bridge.RequestLog.Replay.{KeepsClean}
use cline_pass_bridge.RequestLog.Written.{all_well, write_file-well}
use cline_pass_bridge.RequestLog.Durable.{OnDisk, InStep, IsSound}
use cline_pass_bridge.RequestLog.Pending.{flush_request_logs-logs}
use cline_pass_bridge.RequestLog.Crash.{Op, run, versions, AreAllowed, Among, new_log, new_disk}
use cline_pass_bridge.RequestLog.Recovered.{flush-IsIdle, run_new-IsIdle, recovered}

-- A flush that the system lets succeed.
abbrev pub well : ℕ → Bool → Flush
well now stopped = record {
  now = now;
  stopped = stopped;
  journal_end = all_well;
  compact_end = complete;
}

abbrev IsSettled : Saved → Type 0
IsSettled saved = (saved.failure ≡ none) × (saved.store.needs_snapshot ≡ false)

journal_saved-IsSettled :
    (s : RequestLogStore) (disk : Disk) (batch : Text) (p : Text × Option Fault)
    → p.1 ≡ none
    → s.needs_snapshot ≡ false
    → IsSettled (journal_saved s disk batch p)
journal_saved-IsSettled s disk batch (file, none) h g = (refl, g)
journal_saved-IsSettled s disk batch (file, some e) h g = absurd (ground (arith, h))

either-IsSettled :
    (b : Bool) (x y : Saved)
    → (b ≡ true → IsSettled x)
    → (b ≡ false → IsSettled y)
    → IsSettled (if b then x else y)
either-IsSettled true x y h g = h refl
either-IsSettled false x y h g = g refl

compact-IsSettled :
    (lib : StoreLib) (s : RequestLog) (disk : Disk)
    → IsSettled (compact_request_logs lib s disk complete)
unfolding compact_request_logs
compact-IsSettled lib s disk = (refl, refl)

compact_after-IsSettled :
    (lib : StoreLib) (s : RequestLog) (saved : Saved) (failure : Option Fault)
    → failure ≡ none
    → IsSettled saved
    → IsSettled (compact_after lib s complete failure saved)
compact_after-IsSettled lib s saved (some e) f h = h
compact_after-IsSettled lib s saved none f h =
    either-IsSettled (is_long saved.store)
      (compact_request_logs lib (record s { store = saved.store }) saved.disk complete) saved
      (λ long. compact-IsSettled lib (record s { store = saved.store }) saved.disk) (λ short. h)

after_write-settles :
    (lib : StoreLib) (now : ℕ) (s : RequestLog) (store : RequestLogStore) (failure : Option Fault)
    → failure ≡ none
    → store.needs_snapshot ≡ false
    → (after_write lib now s store failure).store.needs_snapshot ≡ false
after_write-settles lib now s store none h g = g
after_write-settles lib now s store (some e) h g = absurd (ground (arith, h))

module _ (lib : StoreLib) (Clean : LogEntry → Type 0) (P : List LogEntry → Type 0) where
  write_events-IsSettled :
      (s : RequestLog) (disk : Disk) (d : OnDisk lib Clean P disk s.store.sequence)
      (events : List RequestLogEvent)
      → InStep lib Clean P d s
      → s.store.needs_snapshot ≡ false
      → IsSettled (write_events lib s.store disk all_well events)
  unfolding write_events
  write_events-IsSettled s disk d [] now current = (refl, current)
  write_events-IsSettled s disk d (event ∷ events) now current =
      let lines = journal_lines lib s.store.pending in
      journal_saved-IsSettled s.store disk lines
        (write_file s.store.journal_bytes lines (bytes_of disk.journal) all_well)
        (subst (λ x. (write_file x lines (bytes_of disk.journal) all_well).1 ≡ none) (sym now.0)
          (subst (λ x. (write_file (length (journal_lines lib d.events)) lines x all_well).1 ≡ none)
            (sym d.journal) (write_file-well (journal_lines lib d.events) d.tail lines)))
        current

  first_write-IsSettled :
      (s : RequestLog) (disk : Disk)
      → IsSound lib Clean P s disk
      → IsSettled (first_write lib s disk all_well complete)
  unfolding write_request_journal
  first_write-IsSettled s disk h =
      either-IsSettled s.store.needs_snapshot (compact_request_logs lib s disk complete)
        (write_events lib s.store disk all_well s.store.pending)
        (λ needed. compact-IsSettled lib s disk)
        (λ current. elim h.in_step [
          | inl needed ↦ absurd (ground (arith, needed, current))
          | inr now ↦ write_events-IsSettled s disk h.held s.store.pending now current
        ])

  flush_request_logs-settles :
      (s : RequestLog) (disk : Disk) (now : ℕ) (stopped : Bool)
      → IsSound lib Clean P s disk
      → (stopped ≡ true) ⊎ (s.store.retry_at ≤ now)
      → (flush_request_logs lib s disk (well now stopped)).0.store.needs_snapshot ≡ false
  unfolding flush_request_logs flush_now
  flush_request_logs-settles s disk now stopped h due =
      let first = first_write lib s disk all_well complete in
      let saved = compact_after lib s complete first.failure first in
      let settled_first = first_write-IsSettled s disk h in
      let settled =
        compact_after-IsSettled lib s first first.failure settled_first.0 settled_first in
      let writes : (s.store.needs_snapshot && not stopped && ltb now s.store.retry_at) ≡ false =
        elim due [ inl over ↦ ground (arith, over) | inr later ↦ ground (arith, later) ] in
      rw writes (after_write-settles lib now s saved.store saved.failure settled.0 settled.1)

module _ (lib : StoreLib) (Clean : LogEntry → Type 0) (faithful : IsFaithful lib Clean)
    (keeps : KeepsClean lib.log Clean) where
  -- With retentions from 1 to 10000 and entries that encoding/json gives back but for their
  -- unexported fields: after any run from a new log, with writes that ended in any way, one flush
  -- that the system lets succeed, at shutdown or once the time to retry has come, brings the
  -- files up to date: a restart then reads the entries that are in memory, with the same
  -- sequence.
  pub flush_request_logs-recovers :
      (ops : List Op) (now : ℕ) (stopped : Bool)
      → AreAllowed Clean ops
      → (stopped ≡ true) ⊎ ((run lib (new_log, new_disk) ops).0.store.retry_at ≤ now)
      → (r : Replay) × (read_back lib
            (flush_request_logs lib
              (run lib (new_log, new_disk) ops).0
              (run lib (new_log, new_disk) ops).1
              (well now stopped)).1
          ≡ ok r)
        × (r.logs ≡ all_stored (run lib (new_log, new_disk) ops).0.logs)
        × (r.store.sequence
            ≡ (flush_request_logs lib
                (run lib (new_log, new_disk) ops).0
                (run lib (new_log, new_disk) ops).1
                (well now stopped)).0.store.sequence)
  flush_request_logs-recovers ops now stopped allowed due =
      let P : List LogEntry → Type 0 = λ v. Among v ([] ∷ versions lib (new_log, new_disk) ops) in
      let s = (run lib (new_log, new_disk) ops).0 in
      let disk = (run lib (new_log, new_disk) ops).1 in
      let idle = run_new-IsIdle lib Clean faithful keeps ops allowed in
      let next =
        flush-IsIdle lib Clean faithful keeps P s disk (well now stopped) idle.0 (inr idle.1) in
      let settled = flush_request_logs-settles lib Clean P s disk now stopped idle.0 due in
      let (r, reads, kept, up) =
        recovered lib Clean faithful keeps P (flush_request_logs lib s disk (well now stopped))
          next in
      elim up [
        | inl needed ↦ absurd (ground (arith, needed, settled))
        | inr same ↦ (
          r,
          reads,
          same.0 ∙ ap all_stored (flush_request_logs-logs lib s disk (well now stopped)),
          same.1,
        )
      ]
