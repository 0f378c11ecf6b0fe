-- ===== src/RequestLog/Durable.antt =====
-- What the files hold beside what is in memory, and how the calls keep it.
use mathlib.Core.List.{append_assoc}
use cline_pass_bridge.Base.{
  ℕ, ◌≤◌, ◌≡◌, refl, ap, ◌∙◌, sym, ◌⊎◌, true, false, Option, none, some, List, [], ◌∷◌, ◌++◌,
  length,
}
use cline_pass_bridge.Base.Text.{Text}
use cline_pass_bridge.Faults.{ok}
use cline_pass_bridge.RequestLog.{LogEntry}
use cline_pass_bridge.RequestLog.Store.{RequestLogEvent, StoreLib, RequestLog, Disk}
use cline_pass_bridge.RequestLog.Writing.{bytes_of, journal_lines, with_journal}
use cline_pass_bridge.RequestLog.Load.{
  Replay, start_of, file_of, lines_from, replay_journal, replay_lines, load_request_logs, read_back,
}
use cline_pass_bridge.RequestLog.Lines.{
  all_stored, AllOf, has_newline, IsFaithful, AllClean, replay_events, journal_lines-append,
  replay_lines-journal_lines,
}
use cline_pass_bridge.RequestLog.Steps.{
  IsOrdered, Steps, replay_events-Steps, Steps-last, replay_events-then,
}

-- The files hold a snapshot and a journal whose replay ends at an allowed state below a sequence.
pub record OnDisk (lib : StoreLib) (Clean : LogEntry → Type 0) (P : List LogEntry → Type 0)
    (disk : Disk) (limit : ℕ) : Type 0 where
  pub start : Replay
  pub events : List RequestLogEvent
  pub tail : Text
  pub mid : Replay
  pub starts : start_of lib (file_of disk.snapshot) (file_of disk.legacy) ≡ ok start
  pub fresh : start.previous ≡ 0
  pub journal : bytes_of disk.journal ≡ journal_lines lib events ++ tail
  pub open_end : has_newline tail ≡ false
  pub clean : AllClean Clean events
  pub replays : replay_events lib events start ≡ ok mid
  pub kept : P mid.logs
  pub ordered : IsOrdered mid
  pub within : mid.store.sequence ≤ limit

abbrev pub InStep :
    (lib : StoreLib) (Clean : LogEntry → Type 0) (P : List LogEntry → Type 0) {disk : Disk}
    {limit : ℕ}
    → OnDisk lib Clean P disk limit
    → RequestLog
    → Type 0
InStep lib Clean P d s =
    (s.store.journal_bytes ≡ length (journal_lines lib d.events))
    × (last : Replay) × Steps lib P d.mid s.store.pending last
    × AllClean Clean s.store.pending
    × (last.logs ≡ all_stored s.logs)
    × (last.store.sequence ≡ s.store.sequence)

-- Unless a snapshot is needed, the pending events lead from the files to the entries in memory.
pub record IsSound (lib : StoreLib) (Clean : LogEntry → Type 0) (P : List LogEntry → Type 0)
    (s : RequestLog) (disk : Disk) : Type 0 where
  pub held : OnDisk lib Clean P disk s.store.sequence
  pub in_step : (s.store.needs_snapshot ≡ true) ⊎ InStep lib Clean P held s
  pub clean_logs : AllOf Clean s.logs
  pub kept_logs : P (all_stored s.logs)

replay_journal-lines :
    (lib : StoreLib) (journal : Option Text) (r : Replay)
    → replay_journal lib (file_of journal) r ≡ replay_lines lib (lines_from [] (bytes_of journal)) r
unfolding replay_journal lines_from replay_lines
replay_journal-lines lib none r = refl
replay_journal-lines lib (some b) r = refl

module _ (lib : StoreLib) (Clean : LogEntry → Type 0) (P : List LogEntry → Type 0)
    (faithful : IsFaithful lib Clean) where
  pub read_back-OnDisk :
      (disk : Disk) (limit : ℕ) (d : OnDisk lib Clean P disk limit) → read_back lib disk ≡ ok d.mid
  unfolding read_back load_request_logs
  read_back-OnDisk disk limit d = rw d.starts (
      replay_journal-lines lib disk.journal d.start
      ∙ ap (λ x. replay_lines lib (lines_from [] x) d.start) d.journal
      ∙ replay_lines-journal_lines lib Clean d.events d.tail d.start faithful d.clean d.open_end
      ∙ d.replays)

  -- More events behind the whole lines.
  unfoldable pub grown :
      (disk : Disk) (limit : ℕ) (d : OnDisk lib Clean P disk limit) (file tail : Text)
      (events : List RequestLogEvent) (m : Replay)
      → Steps lib P d.mid events m
      → AllClean Clean events
      → file ≡ journal_lines lib d.events ++ (journal_lines lib events ++ tail)
      → has_newline tail ≡ false
      → m.store.sequence ≤ limit
      → OnDisk lib Clean P (with_journal disk file) limit
  grown disk limit d file tail events m steps clean bytes open_end within =
      let last = Steps-last lib P d.mid events m d.kept d.ordered steps in
      record {
        start = d.start;
        events = d.events ++ events;
        tail = tail;
        mid = m;
        starts = d.starts;
        fresh = d.fresh;
        journal =
            bytes
            ∙ sym (append_assoc (journal_lines lib d.events) (journal_lines lib events) tail)
            ∙ ap (λ x. x ++ tail) (sym (journal_lines-append lib d.events events));
        open_end = open_end;
        clean = AllClean-append d.events events d.clean clean;
        replays =
            replay_events-then lib d.events events d.start d.mid d.replays
            ∙ replay_events-Steps lib P d.mid events m steps;
        kept = last.0;
        ordered = last.1;
        within = within;
      }
    where
      AllClean-append :
          (a b : List RequestLogEvent)
          → AllClean Clean a
          → AllClean Clean b
          → AllClean Clean (a ++ b)
      AllClean-append [] b h g = g
      AllClean-append (event ∷ a) b h g = (h.0, AllClean-append a b h.1 g)

  -- The same events in a file that is as it was.
  pub untouched :
      (disk : Disk) (limit : ℕ) (d : OnDisk lib Clean P disk limit) (file : Text)
      → file ≡ journal_lines lib d.events ++ d.tail
      → OnDisk lib Clean P (with_journal disk file) limit
  untouched disk limit d file bytes = record {
    start = d.start;
    events = d.events;
    tail = d.tail;
    mid = d.mid;
    starts = d.starts;
    fresh = d.fresh;
    journal = bytes;
    open_end = d.open_end;
    clean = d.clean;
    replays = d.replays;
    kept = d.kept;
    ordered = d.ordered;
    within = d.within;
  }
