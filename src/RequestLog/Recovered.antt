-- ===== src/RequestLog/Recovered.antt =====
-- Runs of calls on the log, and the restart after them.
use mathlib.Core.Path.{subst}
use cline_pass_bridge.Base.{
  ℕ, ◌+◌, ◌≡◌, refl, ap, ◌∙◌, ◌⊎◌, inl, inr, Bool, true, false, Option, none, List, [], ◌∷◌, ◌++◌,
  arith, if◌then◌else◌, length, ltb,
}
use cline_pass_bridge.Faults.{ok}
use cline_pass_bridge.RequestLog.{LogEntry, compact_from, compact_backoff_logs}
use cline_pass_bridge.RequestLog.Store.{
  StoreLib, RequestLogStore, fresh_store, RequestLog, Disk, queue_request_log,
}
use cline_pass_bridge.RequestLog.Writing.{journal_lines, Flush, flush_request_logs}
use cline_pass_bridge.RequestLog.Load.{
  Replay, start_of, log_entry, append_log, shrink, configure_retention, read_back,
}
use cline_pass_bridge.RequestLog.Lines.{all_stored, IsFaithful, replay_events}
use cline_pass_bridge.RequestLog.Replay.{KeepsClean}
use cline_pass_bridge.RequestLog.Durable.{OnDisk, IsSound, read_back-OnDisk}
use cline_pass_bridge.RequestLog.Saving.{flush_request_logs-IsSound}
use cline_pass_bridge.RequestLog.Pending.{
  IsQuiet, flush_request_logs-pending, flush_request_logs-logs,
}
use cline_pass_bridge.RequestLog.Steps.{Steps}
use cline_pass_bridge.RequestLog.Crash.{
  Op, entered, configured, flushed, run_op, run, versions, IsAllowed, AreAllowed, Among, new_log,
  new_disk, log_entry-IsSound, shrink-IsSound,
}

IsQuiet-either :
    (b : Bool) (x y : RequestLogStore)
    → (b ≡ false → y.needs_snapshot ≡ false)
    → x.pending ≡ []
    → IsQuiet (if b then x else y)
IsQuiet-either true x y h g = inr g
IsQuiet-either false x y h g = inl (h refl)

queue-IsQuiet :
    (s : RequestLogStore) (retention : ℕ) (entry : Option LogEntry) (merged : Bool)
    → s.pending ≡ []
    → IsQuiet (queue_request_log s retention entry merged)
unfolding queue_request_log
queue-IsQuiet s retention entry merged h =
    IsQuiet-either s.needs_snapshot (record s { sequence = s.sequence + 1 })
      (record s {
        sequence = s.sequence + 1;
        pending =
            s.pending
            ++ record {
              sequence = s.sequence + 1;
              entry = entry;
              merged = merged;
              retention = retention;
              clear = false;
            }
              ∷ [];
      })
      (λ e. e) h

log_entry-IsQuiet :
    (lib : StoreLib) (retention : ℕ) (s : RequestLog) (e : LogEntry)
    → s.store.pending ≡ []
    → IsQuiet (log_entry lib.log retention s e).store
unfolding log_entry
log_entry-IsQuiet lib retention s e h = queue-IsQuiet s.store retention _ _ h

shrink-IsQuiet :
    (retention : ℕ) (s : RequestLog) → s.store.pending ≡ [] → IsQuiet (shrink retention s).store
unfolding shrink
shrink-IsQuiet retention s h = queue-IsQuiet s.store retention none false h

module _ (lib : StoreLib) (Clean : LogEntry → Type 0) (faithful : IsFaithful lib Clean)
    (keeps : KeepsClean lib.log Clean) (P : List LogEntry → Type 0) where
  -- Between two calls: sound, and nothing pending.
  abbrev pub IsIdle : RequestLog × Disk → Type 0
  IsIdle now = IsSound lib Clean P now.0 now.1 × (now.0.store.pending ≡ [])

  pub flush-IsIdle :
      (s : RequestLog) (disk : Disk) (f : Flush)
      → IsSound lib Clean P s disk
      → IsQuiet s.store
      → IsIdle (flush_request_logs lib s disk f)
  flush-IsIdle s disk f h q = (
    flush_request_logs-IsSound lib Clean P faithful s disk f h,
    flush_request_logs-pending lib s disk f q,
  )

  either_IsIdle :
      (b : Bool) (x y : RequestLog × Disk)
      → (P (all_stored x.0.logs) → IsIdle x)
      → IsIdle y
      → P (all_stored (if b then x else y).0.logs)
      → IsIdle (if b then x else y)
  either_IsIdle true x y h g p = h p
  either_IsIdle false x y h g p = g

  run_op-IsIdle :
      (now : RequestLog × Disk) (op : Op)
      → IsIdle now
      → IsAllowed Clean op
      → P (all_stored (run_op lib now.0 now.1 op).0.logs)
      → IsIdle (run_op lib now.0 now.1 op)
  unfolding run_op append_log configure_retention
  run_op-IsIdle (s, disk) (entered retention e f) (h, empty) allowed kept =
      flush-IsIdle (log_entry lib.log retention s e) disk f
        (log_entry-IsSound lib Clean faithful keeps P s disk retention e h allowed.0 allowed.1
          allowed.2
          (subst (λ x. P (all_stored x))
            (flush_request_logs-logs lib (log_entry lib.log retention s e) disk f) kept))
        (log_entry-IsQuiet lib retention s e empty)
  run_op-IsIdle (s, disk) (configured retention f) (h, empty) allowed kept =
      either_IsIdle (ltb retention (length s.logs))
        (flush_request_logs lib (shrink retention s) disk f) (s, disk)
        (λ p.
          flush-IsIdle (shrink retention s) disk f
            (shrink-IsSound lib Clean faithful keeps P s disk retention h allowed.0 allowed.1 (
              subst (λ x. P (all_stored x))
                (flush_request_logs-logs lib (shrink retention s) disk f) p))
            (shrink-IsQuiet retention s empty))
        (h, empty) kept
  run_op-IsIdle (s, disk) (flushed f) (h, empty) allowed kept = flush-IsIdle s disk f h (inr empty)

  pub run-IsIdle :
      (now : RequestLog × Disk) (ops : List Op)
      → IsIdle now
      → AreAllowed Clean ops
      → ((v : List LogEntry) → Among v (versions lib now ops) → P v)
      → IsIdle (run lib now ops)
  unfolding run versions
  run-IsIdle now [] h allowed kept = h
  run-IsIdle now (op ∷ ops) h allowed kept =
      run-IsIdle (run_op lib now.0 now.1 op) ops
        (run_op-IsIdle now op h allowed.0
          (kept (all_stored (run_op lib now.0 now.1 op).0.logs) (inl refl)))
        allowed.1 (λ v among. kept v (inr among))

  new_files : P [] → OnDisk lib Clean P new_disk 0
  unfolding start_of compact_backoff_logs compact_from replay_events journal_lines
  new_files kept = record {
    start = record { previous = 0; logs = []; store = fresh_store };
    events = [];
    tail = [];
    mid = record { previous = 0; logs = []; store = fresh_store };
    starts = refl;
    fresh = refl;
    journal = refl;
    open_end = refl;
    clean = tt;
    replays = refl;
    kept = kept;
    ordered = omega arith;
    within = omega arith;
  }

  pub new-IsIdle : P [] → IsIdle (new_log, new_disk)
  unfolding new_files journal_lines
  new-IsIdle kept = (
    record {
      held = new_files kept;
      in_step =
          inr (refl, record { previous = 0; logs = []; store = fresh_store }, refl, tt, refl, refl);
      clean_logs = tt;
      kept_logs = kept;
    },
    refl,
  )

  -- What a sound state gives back.
  pub recovered :
      (now : RequestLog × Disk)
      → IsIdle now
      → (r : Replay) × (read_back lib now.1 ≡ ok r)
        × P r.logs
        × ((now.0.store.needs_snapshot ≡ true)
            ⊎ ((r.logs ≡ all_stored now.0.logs) × (r.store.sequence ≡ now.0.store.sequence)))
  recovered (s, disk) (h, empty) = (
    h.held.mid,
    read_back-OnDisk lib Clean P faithful disk s.store.sequence h.held,
    h.held.kept,
    elim h.in_step [
      | inl needed ↦ inl needed
      | inr now ↦
          let (size, last, steps, clean, logs, sequence) = now in
          let last_is = subst (λ x. Steps lib P h.held.mid x last) empty steps in
          inr (ap (λ x. x.logs) last_is ∙ logs, ap (λ x. x.store.sequence) last_is ∙ sequence)
    ],
  )

module _ (lib : StoreLib) (Clean : LogEntry → Type 0) (faithful : IsFaithful lib Clean)
    (keeps : KeepsClean lib.log Clean) where
  pub run_new-IsIdle :
      (ops : List Op)
      → AreAllowed Clean ops
      → IsIdle lib Clean faithful keeps
          (λ v. Among v ([] ∷ versions lib (new_log, new_disk) ops))
          (run lib (new_log, new_disk) ops)
  run_new-IsIdle ops allowed =
      let P : List LogEntry → Type 0 = λ v. Among v ([] ∷ versions lib (new_log, new_disk) ops) in
      run-IsIdle lib Clean faithful keeps P (new_log, new_disk) ops
        (new-IsIdle lib Clean faithful keeps P (inl refl)) allowed (λ v among. inr among)

  -- With retentions from 1 to 10000 and entries that encoding/json gives back but for their
  -- unexported fields: after any run from a new log, a restart reads the files without an error,
  -- however the system calls of the writes ended. It gets the entries as they stood at the start
  -- or after one of the calls; and they are the entries in memory, with the same sequence, unless
  -- the store knows that it needs a snapshot.
  pub read_back-recovers :
      (ops : List Op)
      → AreAllowed Clean ops
      → (r : Replay) × (read_back lib (run lib (new_log, new_disk) ops).1 ≡ ok r)
        × Among r.logs ([] ∷ versions lib (new_log, new_disk) ops)
        × (((run lib (new_log, new_disk) ops).0.store.needs_snapshot ≡ true)
            ⊎ ((r.logs ≡ all_stored (run lib (new_log, new_disk) ops).0.logs)
                × (r.store.sequence ≡ (run lib (new_log, new_disk) ops).0.store.sequence)))
  read_back-recovers ops allowed =
      recovered lib Clean faithful keeps (λ v. Among v ([] ∷ versions lib (new_log, new_disk) ops))
        (run lib (new_log, new_disk) ops) (run_new-IsIdle ops allowed)
