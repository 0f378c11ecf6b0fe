-- ===== src/RequestLog/Saving.antt =====
-- What a flush leaves in the files.
use mathlib.Core.Path.{subst}
use cline_pass_bridge.Base.{
  ℕ, ◌≡◌, refl, sym, inl, inr, Bool, true, false, ◌&&◌, not, Option, none, some, List, [], arith,
  if◌then◌else◌, Bool-cases, length, ltb,
}
use cline_pass_bridge.Faults.{Fault, Result, ok, err}
use cline_pass_bridge.RequestLog.{LogEntry}
use cline_pass_bridge.RequestLog.Store.{StoreLib, RequestLogStore, fresh_store, RequestLog, Disk}
use cline_pass_bridge.RequestLog.Writing.{
  JournalEnd, CompactEnd, unwritten, unemptied, unclosed, complete, Saved, journal_lines,
  write_events, write_request_journal, snapshot_of, compact_request_logs, is_long, compact_after,
  first_write, after_write, Flush, flush_now, flush_request_logs,
}
use cline_pass_bridge.RequestLog.Load.{Replay, start_of, file_of}
use cline_pass_bridge.RequestLog.Lines.{all_stored, AllOf, IsFaithful, replay_events}
use cline_pass_bridge.RequestLog.Durable.{OnDisk, IsSound}
use cline_pass_bridge.RequestLog.Passed.{IsPassed, replay_events-IsPassed}
use cline_pass_bridge.RequestLog.Appending.{SettledIf, IsSaved, write_events-IsSaved}

module _ (lib : StoreLib) (Clean : LogEntry → Type 0) (P : List LogEntry → Type 0)
    (faithful : IsFaithful lib Clean) where
  -- The state that a new snapshot starts from.
  abbrev from_snapshot : RequestLog → Replay
  from_snapshot s = record {
    previous = 0;
    logs = all_stored s.logs;
    store = record fresh_store {
      sequence = s.store.sequence;
      snapshot_bytes = length (lib.encode_snapshot (snapshot_of s));
    };
  }

  abbrev snapshot_disk : RequestLog → Disk → Disk
  snapshot_disk s disk = record disk { snapshot = some (lib.encode_snapshot (snapshot_of s)) }

  started_snapshot :
      (s : RequestLog) (disk : Disk)
      → AllOf Clean s.logs
      → start_of lib (file_of (snapshot_disk s disk).snapshot) (file_of disk.legacy)
        ≡ ok (from_snapshot s)
  unfolding start_of
  started_snapshot s disk clean = rw (faithful.snapshot_back (snapshot_of s) clean) refl

  -- A new snapshot with an empty journal.
  emptied :
      (s : RequestLog) (disk : Disk)
      → AllOf Clean s.logs
      → P (all_stored s.logs)
      → OnDisk lib Clean P (record (snapshot_disk s disk) { journal = some [] }) s.store.sequence
  unfolding replay_events journal_lines
  emptied s disk clean kept = record {
    start = from_snapshot s;
    events = [];
    tail = [];
    mid = from_snapshot s;
    starts = started_snapshot s disk clean;
    fresh = refl;
    journal = refl;
    open_end = refl;
    clean = tt;
    replays = refl;
    kept = kept;
    ordered = omega arith;
    within = omega arith;
  }

  -- A new snapshot beside the journal that it makes superfluous.
  beside_journal :
      (s : RequestLog) (disk : Disk) (d : OnDisk lib Clean P disk s.store.sequence)
      (o : Result Replay)
      → AllOf Clean s.logs
      → P (all_stored s.logs)
      → replay_events lib d.events (from_snapshot s) ≡ o
      → IsPassed d.mid (from_snapshot s) o
      → OnDisk lib Clean P (snapshot_disk s disk) s.store.sequence
  beside_journal s disk d (err e) clean kept replays passed = absurd passed
  beside_journal s disk d (ok f) clean kept replays passed =
      let ordered = d.ordered in
      let within = d.within in
      record {
        start = from_snapshot s;
        events = d.events;
        tail = d.tail;
        mid = f;
        starts = started_snapshot s disk clean;
        fresh = refl;
        journal = d.journal;
        open_end = d.open_end;
        clean = d.clean;
        replays = replays;
        kept = subst P (sym passed.0) kept;
        ordered = omega (arith, passed, ordered, within);
        within = omega (arith, passed);
      }

  compact_request_logs-IsSaved :
      (s : RequestLog) (disk : Disk) (ends : CompactEnd)
      → OnDisk lib Clean P disk s.store.sequence
      → AllOf Clean s.logs
      → P (all_stored s.logs)
      → IsSaved lib Clean P s (compact_request_logs lib s disk ends)
  unfolding compact_request_logs journal_lines emptied
  compact_request_logs-IsSaved s disk (unwritten e) d clean kept = (d, tt)
  compact_request_logs-IsSaved s disk (unemptied e) d clean kept = (
    beside_journal s disk d (replay_events lib d.events (from_snapshot s)) clean kept refl (
        replay_events-IsPassed lib d.events d.start d.mid (from_snapshot s) d.replays (sym d.fresh)
          d.within),
    tt,
  )
  compact_request_logs-IsSaved s disk (unclosed e) d clean kept = (emptied s disk clean kept, tt)
  compact_request_logs-IsSaved s disk complete d clean kept =
      (emptied s disk clean kept, (refl, from_snapshot s, refl, tt, refl, refl))

  either_write :
      (s : RequestLog) (b : Bool) (x y : Saved)
      → (b ≡ true → IsSaved lib Clean P s x)
      → (b ≡ false → IsSaved lib Clean P s y)
      → IsSaved lib Clean P s (if b then x else y)
  either_write s true x y h g = h refl
  either_write s false x y h g = g refl

  first_write-IsSaved :
      (s : RequestLog) (disk : Disk) (je : JournalEnd) (ce : CompactEnd)
      → IsSound lib Clean P s disk
      → IsSaved lib Clean P s (first_write lib s disk je ce)
  unfolding write_request_journal
  first_write-IsSaved s disk je ce h =
      either_write s s.store.needs_snapshot (compact_request_logs lib s disk ce)
        (write_events lib s.store disk je s.store.pending)
        (λ needed. compact_request_logs-IsSaved s disk ce h.held h.clean_logs h.kept_logs)
        (λ current. elim h.in_step [
          | inl needed ↦ absurd (ground (arith, needed, current))
          | inr now ↦ write_events-IsSaved lib Clean P faithful s disk h.held je s.store.pending now
        ])

  compact_after-IsSaved :
      (s : RequestLog) (ce : CompactEnd) (failure : Option Fault) (saved : Saved)
      → IsSaved lib Clean P s saved
      → AllOf Clean s.logs
      → P (all_stored s.logs)
      → IsSaved lib Clean P s (compact_after lib s ce failure saved)
  compact_after-IsSaved s ce (some e) saved h clean kept = h
  compact_after-IsSaved s ce none saved h clean kept = elim (Bool-cases (is_long saved.store)) [
    | inl long ↦ rw long (
        compact_request_logs-IsSaved (record s { store = saved.store }) saved.disk ce h.0 clean
          kept)
    | inr short ↦ rw short h
  ]

  after_write-IsSound :
      (now : ℕ) (s : RequestLog) (disk : Disk) (store : RequestLogStore) (failure : Option Fault)
      → (d : OnDisk lib Clean P disk store.sequence)
      → SettledIf lib Clean P d (record s { store = store }) failure
      → AllOf Clean s.logs
      → P (all_stored s.logs)
      → IsSound lib Clean P (after_write lib now s store failure) disk
  after_write-IsSound now s disk store none d h clean kept = record {
    held = d;
    in_step = inr h;
    clean_logs = clean;
    kept_logs = kept;
  }
  after_write-IsSound now s disk store (some e) d h clean kept = record {
    held = d;
    in_step = inl refl;
    clean_logs = clean;
    kept_logs = kept;
  }

  pub flush_request_logs-IsSound :
      (s : RequestLog) (disk : Disk) (f : Flush)
      → IsSound lib Clean P s disk
      → IsSound lib Clean P (flush_request_logs lib s disk f).0 (flush_request_logs lib s disk f).1
  unfolding flush_request_logs flush_now
  flush_request_logs-IsSound s disk f h =
      elim (Bool-cases (s.store.needs_snapshot && not f.stopped && ltb f.now s.store.retry_at)) [
        | inl waits ↦ rw waits h
        | inr writes ↦
            let first = first_write lib s disk f.journal_end f.compact_end in
            let saved = compact_after lib s f.compact_end first.failure first in
            let well =
              compact_after-IsSaved s f.compact_end first.failure first
                (first_write-IsSaved s disk f.journal_end f.compact_end h) h.clean_logs
                h.kept_logs in
            rw writes (
              after_write-IsSound f.now s saved.disk saved.store saved.failure well.0 well.1
                h.clean_logs h.kept_logs)
      ]
