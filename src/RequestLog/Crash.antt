-- ===== src/RequestLog/Crash.antt =====
-- What a restart reads back, whatever requests were logged before and however the writes ended.
use mathlib.Core.Path.{subst}
use cline_pass_bridge.Base.{
  ℕ, ◌+◌, ◌≤◌, ◌≡◌, refl, ap, ◌∙◌, sym, ◌⊎◌, inl, inr, Bool, true, false, Option, none, some, List,
  [], ◌∷◌, ◌++◌, arith, if◌then◌else◌, length,
}
use cline_pass_bridge.Faults.{ok}
use cline_pass_bridge.RequestLog.{LogEntry, merge_backoff_log}
use cline_pass_bridge.RequestLog.Store.{
  RequestLogEvent, StoreLib, RequestLogStore, fresh_store, RequestLog, Disk, retain, retained,
  place_entry, apply_request_log_event, queue_request_log,
}
use cline_pass_bridge.RequestLog.Writing.{journal_lines, Flush, flush_request_logs}
use cline_pass_bridge.RequestLog.Load.{
  Replay, last_entry, log_entry, append_log, shrink, configure_retention,
}
use cline_pass_bridge.RequestLog.Lines.{
  all_stored, stored_if, stored_event, AllOf, AnyIf, IsFaithful, AllClean,
}
use cline_pass_bridge.RequestLog.Replay.{KeepsClean}
use cline_pass_bridge.RequestLog.Queued.{
  AllOf-append, AllOf-retain, retain-all_stored, last_entry-retain, merge_backoff_log-IsPlaced,
}
use cline_pass_bridge.RequestLog.Steps.{
  Steps, Steps-snoc, Steps-last, continued, replay_event_line-next,
}
use cline_pass_bridge.RequestLog.Durable.{OnDisk, InStep, IsSound}

-- A call on the log: an entry of a request, a new retention, or the timer's flush.
pub data Op : Type 0 where
  entered : ℕ → LogEntry → Flush → Op
  configured : ℕ → Flush → Op
  flushed : Flush → Op

unfoldable pub run_op : StoreLib → RequestLog → Disk → Op → RequestLog × Disk
run_op lib s disk (entered retention e f) = append_log lib retention s disk e f
run_op lib s disk (configured retention f) = configure_retention lib retention s disk f
run_op lib s disk (flushed f) = flush_request_logs lib s disk f

unfoldable pub run : StoreLib → RequestLog × Disk → List Op → RequestLog × Disk
run lib start [] = start
run lib start (op ∷ ops) = run lib (run_op lib start.0 start.1 op) ops

-- The entries, as they are stored, after each call.
unfoldable pub versions : StoreLib → RequestLog × Disk → List Op → List (List LogEntry)
versions lib start [] = []
versions lib start (op ∷ ops) =
    let next = run_op lib start.0 start.1 op in all_stored next.0.logs ∷ versions lib next ops

abbrev pub IsAllowed : (LogEntry → Type 0) → Op → Type 0
IsAllowed Clean (entered retention e f) = (1 ≤ retention) × (retention ≤ 10_000) × Clean e
IsAllowed Clean (configured retention f) = (1 ≤ retention) × (retention ≤ 10_000)
IsAllowed Clean (flushed f) = Unit

abbrev pub AreAllowed : (LogEntry → Type 0) → List Op → Type 0
AreAllowed Clean [] = Unit
AreAllowed Clean (op ∷ ops) = IsAllowed Clean op × AreAllowed Clean ops

abbrev pub Among : List LogEntry → List (List LogEntry) → Type 0
Among logs [] = ⊥
Among logs (v ∷ vs) = (logs ≡ v) ⊎ Among logs vs

-- Nothing was logged or written yet.
abbrev pub new_log : RequestLog
new_log = record { logs = []; store = fresh_store; log_write_error = "" }

abbrev pub new_disk : Disk
new_disk = record { snapshot = none; journal = none; legacy = none }

abbrev pub queued_event : RequestLogStore → ℕ → Option LogEntry → Bool → RequestLogEvent
queued_event s retention entry merged = record {
  sequence = s.sequence + 1;
  entry = entry;
  merged = merged;
  retention = retention;
  clear = false;
}

module _ (lib : StoreLib) (Clean : LogEntry → Type 0) (faithful : IsFaithful lib Clean)
    (keeps : KeepsClean lib.log Clean) (P : List LogEntry → Type 0) where
  AllClean-snoc :
      (a : List RequestLogEvent) (event : RequestLogEvent)
      → AllClean Clean a
      → AnyIf Clean event.entry
      → AllClean Clean (a ++ event ∷ [])
  AllClean-snoc [] event h g = (g, tt)
  AllClean-snoc (first ∷ a) event h g = (h.0, AllClean-snoc a event h.1 g)

  abbrev widened :
      (disk : Disk) (n : ℕ) → OnDisk lib Clean P disk n → OnDisk lib Clean P disk (n + 1)
  widened disk n d =
      let within = d.within in
      record {
        start = d.start;
        events = d.events;
        tail = d.tail;
        mid = d.mid;
        starts = d.starts;
        fresh = d.fresh;
        journal = d.journal;
        open_end = d.open_end;
        clean = d.clean;
        replays = d.replays;
        kept = d.kept;
        ordered = d.ordered;
        within = omega (arith, within);
      }

  either_store :
      (s : RequestLog) (disk : Disk) (b : Bool) (x y : RequestLogStore)
      → (b ≡ true → IsSound lib Clean P (record s { store = x }) disk)
      → (b ≡ false → IsSound lib Clean P (record s { store = y }) disk)
      → IsSound lib Clean P (record s { store = if b then x else y }) disk
  either_store s disk true x y h g = h refl
  either_store s disk false x y h g = g refl

  pub queue-IsSound :
      (s : RequestLog) (disk : Disk) (retention : ℕ) (entry : Option LogEntry) (merged : Bool)
      (logs : List LogEntry)
      → IsSound lib Clean P s disk
      → 1 ≤ retention
      → retention ≤ 10_000
      → AnyIf Clean entry
      → apply_request_log_event lib.log
          (all_stored s.logs)
          (stored_event (queued_event s.store retention entry merged))
        ≡ ok (all_stored logs)
      → AllOf Clean logs
      → P (all_stored logs)
      → IsSound lib Clean P
          (record s { logs = logs; store = queue_request_log s.store retention entry merged })
          disk
  unfolding queue_request_log
  queue-IsSound s disk retention entry merged logs h low high clean applied all_clean kept =
      either_store (record s { logs = logs }) disk s.store.needs_snapshot
        (record s.store { sequence = s.store.sequence + 1 })
        (record s.store {
          sequence = s.store.sequence + 1;
          pending = s.store.pending ++ queued_event s.store retention entry merged ∷ [];
        })
        (λ needed. record {
          held = widened disk s.store.sequence h.held;
          in_step = inl needed;
          clean_logs = all_clean;
          kept_logs = kept;
        })
        (λ current. record {
          held = widened disk s.store.sequence h.held;
          in_step = elim h.in_step [ inl needed ↦ inl needed | inr now ↦ inr (stepped now) ];
          clean_logs = all_clean;
          kept_logs = kept;
        })
    where
      stepped :
          InStep lib Clean P h.held s
          → (s.store.journal_bytes ≡ length (journal_lines lib h.held.events))
            × (last : Replay) × Steps lib P h.held.mid
                (s.store.pending ++ queued_event s.store retention entry merged ∷ [])
                last
            × AllClean Clean (s.store.pending ++ queued_event s.store retention entry merged ∷ [])
            × (last.logs ≡ all_stored logs)
            × (last.store.sequence ≡ s.store.sequence + 1)
      stepped (size, last, steps, pending, same, sequence) =
          let ended =
            Steps-last lib P h.held.mid s.store.pending last h.held.kept h.held.ordered steps in
          let line =
            replay_event_line-next lib (queued_event s.store retention entry merged) last
              (all_stored logs) ended.1 (ap (λ n. n + 1) (sym sequence)) low high
              (subst
                (λ x.
                  apply_request_log_event lib.log x
                    (stored_event (queued_event s.store retention entry merged))
                  ≡ ok (all_stored logs))
                (sym same) applied) in
          let next =
            continued lib (queued_event s.store retention entry merged) (all_stored logs) last in
          (
            size,
            next,
            Steps-snoc lib P h.held.mid s.store.pending last
                (queued_event s.store retention entry merged) next steps line kept (omega arith),
            AllClean-snoc s.store.pending (queued_event s.store retention entry merged) pending
                clean,
            refl,
            refl,
          )

  pub log_entry-IsSound :
      (s : RequestLog) (disk : Disk) (retention : ℕ) (e : LogEntry)
      → IsSound lib Clean P s disk
      → 1 ≤ retention
      → retention ≤ 10_000
      → Clean e
      → P (all_stored (log_entry lib.log retention s e).logs)
      → IsSound lib Clean P (log_entry lib.log retention s e) disk
  unfolding log_entry apply_request_log_event
  log_entry-IsSound s disk retention e h low high clean kept =
      let merge = merge_backoff_log lib.log s.logs e in
      let (others, last, shape, last_clean, others_clean, place) =
        merge_backoff_log-IsPlaced lib.log Clean keeps s.logs e h.clean_logs clean in
      let entry : last_entry (retain retention merge.0) ≡ some last =
        ap (λ l. last_entry (retain retention l)) shape
        ∙ last_entry-retain retention others last low in
      queue-IsSound s disk retention (last_entry (retain retention merge.0)) merge.1
        (retain retention merge.0) h low high (subst (AnyIf Clean) (sym entry) last_clean)
        (ap
            (λ x.
              retained retention (place_entry lib.log (all_stored s.logs) (stored_if x) merge.1))
            entry
          ∙ ap (retained retention) place
          ∙ ap ok (retain-all_stored retention merge.0))
        (AllOf-retain Clean retention merge.0 (
          subst (AllOf Clean) (sym shape)
            (AllOf-append Clean others (last ∷ []) others_clean (last_clean, tt))))
        kept

  pub shrink-IsSound :
      (s : RequestLog) (disk : Disk) (retention : ℕ)
      → IsSound lib Clean P s disk
      → 1 ≤ retention
      → retention ≤ 10_000
      → P (all_stored (shrink retention s).logs)
      → IsSound lib Clean P (shrink retention s) disk
  unfolding shrink apply_request_log_event place_entry
  shrink-IsSound s disk retention h low high kept =
      queue-IsSound s disk retention none false (retain retention s.logs) h low high tt
        (ap ok (retain-all_stored retention s.logs))
        (AllOf-retain Clean retention s.logs h.clean_logs) kept
