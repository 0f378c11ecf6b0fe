-- ===== src/RequestLog/Appending.antt =====
-- How an append to the journal ends.
use mathlib.Core.Path.{subst}
use mathlib.Core.List.{append-nil}
use cline_pass_bridge.Base.{
  ℕ, ◌+◌, ◌≡◌, refl, ap, ◌∙◌, sym, inl, inr, Option, none, some, List, [], ◌∷◌, ◌++◌, arith, length,
  take, length-append,
}
use cline_pass_bridge.Base.Text.{Text}
use cline_pass_bridge.Faults.{Fault}
use cline_pass_bridge.RequestLog.{LogEntry}
use cline_pass_bridge.RequestLog.Store.{RequestLogEvent, StoreLib, RequestLog, Disk}
use cline_pass_bridge.RequestLog.Writing.{
  JournalEnd, Saved, bytes_of, journal_lines, with_journal, journal_saved, append_pending,
  write_events, write_file,
}
use cline_pass_bridge.RequestLog.Lines.{IsFaithful, AllClean, journal_lines-append}
use cline_pass_bridge.RequestLog.Torn.{torn}
use cline_pass_bridge.RequestLog.Written.{Outcome, write_file-Outcome}
use cline_pass_bridge.RequestLog.Durable.{OnDisk, InStep, grown, untouched}
use cline_pass_bridge.RequestLog.Steps.{Steps, replay_events-Steps, Steps-first}
use cline_pass_bridge.RequestLog.Passed.{replay_events-rises}

-- What a write leaves: sound files, and the entries in step unless it failed.
abbrev pub SettledIf :
    (lib : StoreLib) (Clean : LogEntry → Type 0) (P : List LogEntry → Type 0) {disk : Disk}
    {limit : ℕ}
    → OnDisk lib Clean P disk limit
    → RequestLog
    → Option Fault
    → Type 0
SettledIf lib Clean P d s (some e) = Unit
SettledIf lib Clean P d s none = InStep lib Clean P d s

abbrev pub IsSaved :
    (lib : StoreLib) → (LogEntry → Type 0) → (List LogEntry → Type 0) → RequestLog → Saved → Type 0
IsSaved lib Clean P s saved =
    (d : OnDisk lib Clean P saved.disk saved.store.sequence) × SettledIf lib Clean P d
      (record s { store = saved.store }) saved.failure

module _ (lib : StoreLib) (Clean : LogEntry → Type 0) (P : List LogEntry → Type 0)
    (faithful : IsFaithful lib Clean) where
  AllClean-first : (a b : List RequestLogEvent) → AllClean Clean (a ++ b) → AllClean Clean a
  AllClean-first [] b h = tt
  AllClean-first (event ∷ a) b h = (h.0, AllClean-first a b h.1)

  -- A torn batch: the files hold its whole lines.
  torn-IsSaved :
      (s : RequestLog) (disk : Disk) (d : OnDisk lib Clean P disk s.store.sequence) (file : Text)
      (n : ℕ)
      → InStep lib Clean P d s
      → file ≡ journal_lines lib d.events ++ take n (journal_lines lib s.store.pending)
      → OnDisk lib Clean P (with_journal disk file) s.store.sequence
  torn-IsSaved s disk d file n (size, last, steps, clean, logs, sequence) bytes =
      let t = torn lib faithful.one_line n s.store.pending in
      let (m, before, after) =
        Steps-first lib P d.mid t.whole t.lost last
          (subst (λ x. Steps lib P d.mid x last) t.all steps) in
      let rises =
        replay_events-rises lib t.lost m last (replay_events-Steps lib P m t.lost last after) in
      grown lib Clean P faithful disk s.store.sequence d file t.tail t.whole m before
        (AllClean-first t.whole t.lost (subst (AllClean Clean) t.all clean))
        (bytes ∙ ap (λ x. journal_lines lib d.events ++ x) t.bytes) t.open_end
        (omega (arith, rises, sequence))

  outcome-IsSaved :
      (s : RequestLog) (disk : Disk) (d : OnDisk lib Clean P disk s.store.sequence)
      (p : Text × Option Fault)
      → InStep lib Clean P d s
      → Outcome (journal_lines lib d.events) d.tail (journal_lines lib s.store.pending) p
      → IsSaved lib Clean P s (journal_saved s.store disk (journal_lines lib s.store.pending) p)
  unfolding grown
  outcome-IsSaved s disk d (file, some e) now (inl bytes) =
      (untouched lib Clean P faithful disk s.store.sequence d file bytes, tt)
  outcome-IsSaved s disk d (file, some e) now (inr part) =
      (torn-IsSaved s disk d file part.0 now part.1, tt)
  outcome-IsSaved s disk d (file, none) (size, last, steps, clean, logs, sequence) bytes = (
    grown lib Clean P faithful disk s.store.sequence d file [] s.store.pending last steps clean
        (bytes
          ∙ ap (λ x. journal_lines lib d.events ++ x)
              (sym (append-nil (journal_lines lib s.store.pending))))
        refl (omega (arith, sequence)),
    (
      ap (λ n. n + length (journal_lines lib s.store.pending)) size
          ∙ sym (length-append (journal_lines lib d.events) (journal_lines lib s.store.pending))
          ∙ ap length (sym (journal_lines-append lib d.events s.store.pending)),
      last,
      refl,
      tt,
      logs,
      sequence,
    ),
  )

  pub write_events-IsSaved :
      (s : RequestLog) (disk : Disk) (d : OnDisk lib Clean P disk s.store.sequence)
      (ends : JournalEnd) (events : List RequestLogEvent)
      → InStep lib Clean P d s
      → IsSaved lib Clean P s (write_events lib s.store disk ends events)
  unfolding write_events
  write_events-IsSaved s disk d ends [] now = (d, now)
  write_events-IsSaved s disk d ends (event ∷ events) now = opened ends.opening
    where
      opened :
          (opening : Option Fault)
          → IsSaved lib Clean P s (append_pending lib s.store disk ends opening)
      opened (some e) = (d, tt)
      opened none =
          outcome-IsSaved s disk d
            (write_file s.store.journal_bytes (journal_lines lib s.store.pending)
              (bytes_of disk.journal) ends)
            now
            (subst
              (λ x.
                Outcome (journal_lines lib d.events) d.tail (journal_lines lib s.store.pending)
                  (write_file x (journal_lines lib s.store.pending) (bytes_of disk.journal) ends))
              (sym now.0)
              (subst
                (λ x.
                  Outcome (journal_lines lib d.events) d.tail (journal_lines lib s.store.pending) (
                    write_file (length (journal_lines lib d.events))
                      (journal_lines lib s.store.pending) x ends))
                (sym d.journal)
                (write_file-Outcome (journal_lines lib d.events) d.tail
                  (journal_lines lib s.store.pending) ends)))
