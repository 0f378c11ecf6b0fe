-- ===== src/RequestLog/Lines.antt =====
-- The lines of a journal's bytes, and what a torn write leaves of them.
use cline_pass_bridge.Base.{
  ◌+◌, ◌≡◌, refl, ap, ◌∙◌, sym, Bool, false, Option, none, some, List, [], ◌∷◌, ◌++◌, arith,
  nat_beq, length, any,
}
use cline_pass_bridge.Base.Text.{Text}
use cline_pass_bridge.Faults.{Result, ok}
use mathlib.Core.List.{append_assoc, append-nil}
use mathlib.Core.Path.{fun_ext}
use cline_pass_bridge.RequestLog.{LogEntry}
use cline_pass_bridge.RequestLog.Store.{RequestLogEvent, RequestLogSnapshot, StoreLib, newline}
use cline_pass_bridge.RequestLog.Writing.{journal_lines}
use cline_pass_bridge.RequestLog.Load.{Replay, and_then, replay_line, replay_lines, lines_from}

-- An entry as it comes back from encoding/json, which leaves unexported fields out.
abbrev pub stored : LogEntry → LogEntry
stored e = record e { prompt_reported = false; completion_reported = false; estimate_key = "" }

abbrev pub all_stored : List LogEntry → List LogEntry
all_stored [] = []
all_stored (e ∷ logs) = stored e ∷ all_stored logs

abbrev pub stored_if : Option LogEntry → Option LogEntry
stored_if none = none
stored_if (some e) = some (stored e)

abbrev pub stored_event : RequestLogEvent → RequestLogEvent
stored_event event = record event { entry = stored_if event.entry }

abbrev pub AllOf : (LogEntry → Type 0) → List LogEntry → Type 0
AllOf P [] = Unit
AllOf P (e ∷ logs) = P e × AllOf P logs

abbrev pub AnyIf : (LogEntry → Type 0) → Option LogEntry → Type 0
AnyIf P none = Unit
AnyIf P (some e) = P e

abbrev pub has_newline : Text → Bool
has_newline b = any (λ c. nat_beq c newline) b

-- What encoding/json gives back of events and snapshots with clean entries; an encoded event has no
-- newline, and the key of an entry shows its window.
pub record IsFaithful (lib : StoreLib) (Clean : LogEntry → Type 0) : Type 0 where
  pub event_back :
      (event : RequestLogEvent)
      → AnyIf Clean event.entry
      → lib.decode_event (lib.encode_event event) ≡ ok (stored_event event)
  pub snapshot_back :
      (s : RequestLogSnapshot)
      → AllOf Clean s.logs
      → lib.decode_snapshot (lib.encode_snapshot s) ≡ ok (record s { logs = all_stored s.logs })
  pub one_line : (event : RequestLogEvent) → has_newline (lib.encode_event event) ≡ false

lines_from-line :
    (acc b rest : Text)
    → has_newline b ≡ false
    → lines_from acc (b ++ newline ∷ rest) ≡ (acc ++ b) ∷ lines_from [] rest
unfolding lines_from
lines_from-line acc [] rest h = ap (λ x. x ∷ lines_from [] rest) (sym (append-nil acc))
lines_from-line acc (c ∷ b) rest h =
    let other : nat_beq c newline ≡ false = ground (arith, h) in
    rw other (
      lines_from-line (acc ++ c ∷ []) b rest (ground (arith, h))
      ∙ ap (λ x. x ∷ lines_from [] rest) (append_assoc acc (c ∷ []) b))

lines_from-tail : (acc b : Text) → has_newline b ≡ false → lines_from acc b ≡ []
unfolding lines_from
lines_from-tail acc [] h = refl
lines_from-tail acc (c ∷ b) h =
    let other : nat_beq c newline ≡ false = ground (arith, h) in
    rw other (lines_from-tail (acc ++ c ∷ []) b (ground (arith, h)))

abbrev encoded : StoreLib → List RequestLogEvent → List Text
encoded lib [] = []
encoded lib (event ∷ events) = lib.encode_event event ∷ encoded lib events

module _ (lib : StoreLib)
    (one_line : (event : RequestLogEvent) → has_newline (lib.encode_event event) ≡ false) where
  lines_from-journal_lines :
      (events : List RequestLogEvent) (tail : Text)
      → has_newline tail ≡ false
      → lines_from [] (journal_lines lib events ++ tail) ≡ encoded lib events
  unfolding journal_lines
  lines_from-journal_lines [] tail h = lines_from-tail [] tail h
  lines_from-journal_lines (event ∷ events) tail h =
      ap (lines_from [])
        (append_assoc (lib.encode_event event) (newline ∷ journal_lines lib events) tail)
      ∙ lines_from-line [] (lib.encode_event event) (journal_lines lib events ++ tail)
          (one_line event)
      ∙ ap (λ x. lib.encode_event event ∷ x) (lines_from-journal_lines events tail h)

pub journal_lines-append :
    (lib : StoreLib) (a b : List RequestLogEvent)
    → journal_lines lib (a ++ b) ≡ journal_lines lib a ++ journal_lines lib b
unfolding journal_lines
journal_lines-append lib [] b = refl
journal_lines-append lib (event ∷ a) b =
    ap (λ x. lib.encode_event event ++ newline ∷ x) (journal_lines-append lib a b)
    ∙ sym (
        append_assoc (lib.encode_event event) (newline ∷ journal_lines lib a) (journal_lines lib b))

-- The events of a journal, and their replay.
abbrev pub AllClean : (LogEntry → Type 0) → List RequestLogEvent → Type 0
AllClean Clean [] = Unit
AllClean Clean (event ∷ events) = AnyIf Clean event.entry × AllClean Clean events

unfoldable pub replay_event_line : StoreLib → RequestLogEvent → Replay → Result Replay
replay_event_line lib event r =
    replay_line lib.log r (length (lib.encode_event event) + 1) (ok (stored_event event))

unfoldable pub replay_events : StoreLib → List RequestLogEvent → Replay → Result Replay
replay_events lib [] r = ok r
replay_events lib (event ∷ events) r =
    and_then (replay_event_line lib event r) (replay_events lib events)

replay_lines-encoded :
    (lib : StoreLib) (Clean : LogEntry → Type 0) (events : List RequestLogEvent) (r : Replay)
    → IsFaithful lib Clean
    → AllClean Clean events
    → replay_lines lib (encoded lib events) r ≡ replay_events lib events r
unfolding replay_lines replay_events replay_event_line
replay_lines-encoded lib Clean [] r f clean = refl
replay_lines-encoded lib Clean (event ∷ events) r f clean = rw (f.event_back event clean.0) (
    ap
      (and_then
        (replay_line lib.log r (length (lib.encode_event event) + 1) (ok (stored_event event))))
      (fun_ext (λ next. replay_lines-encoded lib Clean events next f clean.1)))

pub replay_lines-journal_lines :
    (lib : StoreLib) (Clean : LogEntry → Type 0) (events : List RequestLogEvent) (tail : Text)
    (r : Replay)
    → IsFaithful lib Clean
    → AllClean Clean events
    → has_newline tail ≡ false
    → replay_lines lib (lines_from [] (journal_lines lib events ++ tail)) r
      ≡ replay_events lib events r
replay_lines-journal_lines lib Clean events tail r f clean h =
    rw (lines_from-journal_lines lib f.one_line events tail h)
      (replay_lines-encoded lib Clean events r f clean)
