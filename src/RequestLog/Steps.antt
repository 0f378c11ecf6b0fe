-- ===== src/RequestLog/Steps.antt =====
-- Replays of events: step by step, and one after another.
use mathlib.Core.Path.{subst, fun_ext}
use cline_pass_bridge.Base.{
  ◌+◌, ◌≤◌, ◌≡◌, refl, ap, ◌∙◌, sym, true, false, List, [], ◌∷◌, ◌++◌, arith, ◌==◌, nat_eq, length,
  leb,
}
use cline_pass_bridge.Faults.{Result, ok, err}
use cline_pass_bridge.RequestLog.{LogEntry}
use cline_pass_bridge.RequestLog.Store.{RequestLogEvent, StoreLib, apply_request_log_event}
use cline_pass_bridge.RequestLog.Load.{Replay, replay_event, is_valid_event, replay_line, and_then}
use cline_pass_bridge.RequestLog.Lines.{stored_event, replay_event_line, replay_events}

abbrev pub IsOrdered : Replay → Type 0
IsOrdered r = r.previous ≤ r.store.sequence

-- What a replay comes to, with a predicate for the logs at each step.
abbrev pub Steps :
    StoreLib → (List LogEntry → Type 0) → Replay → List RequestLogEvent → Replay → Type 0
Steps lib P r [] f = r ≡ f
Steps lib P r (event ∷ events) f =
    (next : Replay) × (replay_event_line lib event r ≡ ok next)
    × P next.logs
    × IsOrdered next
    × Steps lib P next events f

module _ (lib : StoreLib) (P : List LogEntry → Type 0) where
  pub Steps-snoc :
      (r : Replay) (events : List RequestLogEvent) (f : Replay) (event : RequestLogEvent)
      (g : Replay)
      → Steps lib P r events f
      → replay_event_line lib event f ≡ ok g
      → P g.logs
      → IsOrdered g
      → Steps lib P r (events ++ event ∷ []) g
  Steps-snoc r [] f event g h e p o =
      (g, subst (λ x. replay_event_line lib event x ≡ ok g) (sym h) e, p, o, refl)
  Steps-snoc r (first ∷ events) f event g h e p o =
      let (next, line, kept, ordered, rest) = h in
      (next, line, kept, ordered, Steps-snoc next events f event g rest e p o)

  pub replay_events-Steps :
      (r : Replay) (events : List RequestLogEvent) (f : Replay)
      → Steps lib P r events f
      → replay_events lib events r ≡ ok f
  unfolding replay_events
  replay_events-Steps r [] f h = ap ok h
  replay_events-Steps r (event ∷ events) f h =
      let (next, line, kept, ordered, rest) = h in rw line (replay_events-Steps next events f rest)

  -- The first of several events.
  pub Steps-first :
      (r : Replay) (a b : List RequestLogEvent) (f : Replay)
      → Steps lib P r (a ++ b) f
      → (m : Replay) × Steps lib P r a m × Steps lib P m b f
  Steps-first r [] b f h = (r, refl, h)
  Steps-first r (event ∷ a) b f h =
      let (next, line, kept, ordered, rest) = h in
      let (m, before, after) = Steps-first next a b f rest in
      (m, (next, line, kept, ordered, before), after)

  pub Steps-last :
      (r : Replay) (events : List RequestLogEvent) (f : Replay)
      → P r.logs
      → IsOrdered r
      → Steps lib P r events f
      → P f.logs × IsOrdered f
  Steps-last r [] f p o h = (subst (λ x. P x.logs) h p, subst (λ x. IsOrdered x) h o)
  Steps-last r (event ∷ events) f p o h =
      let (next, line, kept, ordered, rest) = h in Steps-last next events f kept ordered rest

and_then_assoc :
    {A B C : Type 0} (x : Result A) (f : A → Result B) (g : B → Result C)
    → and_then (and_then x f) g ≡ and_then x (λ a. and_then (f a) g)
and_then_assoc (ok a) f g = refl
and_then_assoc (err e) f g = refl

replay_events-append :
    (lib : StoreLib) (a b : List RequestLogEvent) (r : Replay)
    → replay_events lib (a ++ b) r ≡ and_then (replay_events lib a r) (replay_events lib b)
unfolding replay_events
replay_events-append lib [] b r = refl
replay_events-append lib (event ∷ a) b r =
    ap (and_then (replay_event_line lib event r))
      (fun_ext (λ next. replay_events-append lib a b next))
    ∙ sym
        (and_then_assoc (replay_event_line lib event r) (replay_events lib a) (replay_events lib b))

pub replay_events-then :
    (lib : StoreLib) (a b : List RequestLogEvent) (r m : Replay)
    → replay_events lib a r ≡ ok m
    → replay_events lib (a ++ b) r ≡ replay_events lib b m
replay_events-then lib a b r m h =
    replay_events-append lib a b r ∙ ap (λ x. and_then x (replay_events lib b)) h

-- The state after an event that continues a replay.
abbrev pub continued : StoreLib → RequestLogEvent → List LogEntry → Replay → Replay
continued lib event logs r = record {
  previous = event.sequence;
  logs = logs;
  store = record r.store {
    sequence = event.sequence;
    journal_events = r.store.journal_events + 1;
    journal_bytes = r.store.journal_bytes + (length (lib.encode_event event) + 1);
  };
}

pub replay_event_line-next :
    (lib : StoreLib) (event : RequestLogEvent) (r : Replay) (logs : List LogEntry)
    → IsOrdered r
    → event.sequence ≡ r.store.sequence + 1
    → 1 ≤ event.retention
    → event.retention ≤ 10_000
    → apply_request_log_event lib.log r.logs (stored_event event) ≡ ok logs
    → replay_event_line lib event r ≡ ok (continued lib event logs r)
unfolding replay_event_line replay_line is_valid_event replay_event
replay_event_line-next lib event r logs o s low high applied =
    let valid : is_valid_event r.previous (stored_event event) ≡ true = ground arith in
    let new : leb event.sequence r.store.sequence ≡ false = ground (arith, s) in
    let next : (event.sequence == r.store.sequence + 1) ≡ true = ground (arith, s) in
    rw (valid, new, next, applied) refl
