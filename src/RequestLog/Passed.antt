-- ===== src/RequestLog/Passed.antt =====
-- The replay of a journal behind a newer snapshot.
use mathlib.Core.Path.{subst}
use cline_pass_bridge.Base.{
  ℕ, ◌+◌, ◌≤◌, ◌≡◌, refl, ap, ◌∙◌, sym, inl, inr, true, List, [], ◌∷◌, arith, ◌==◌, nat_eq,
  Bool-cases, length, leb,
}
use cline_pass_bridge.Faults.{Result, ok, err}
use cline_pass_bridge.RequestLog.{LogEntry}
use cline_pass_bridge.RequestLog.Store.{RequestLogEvent, StoreLib, apply_request_log_event}
use cline_pass_bridge.RequestLog.Load.{
  Replay, applied_to, replay_event, is_valid_event, counted, replay_line, and_then,
}
use cline_pass_bridge.RequestLog.Lines.{stored_event, replay_event_line, replay_events}

-- What a line has done to the state, if it was accepted.
abbrev Moved : RequestLogEvent → Replay → Result Replay → Type 0
Moved event r (err e) = Unit
Moved event r (ok next) =
    (is_valid_event r.previous (stored_event event) ≡ true)
    × (next.previous ≡ event.sequence)
    × (event.sequence ≤ next.store.sequence)
    × (r.store.sequence ≤ next.store.sequence)

Moved-applied :
    (lib : StoreLib) (event : RequestLogEvent) (r : Replay) (n : ℕ) (logs : Result (List LogEntry))
    → is_valid_event r.previous (stored_event event) ≡ true
    → r.store.sequence ≤ event.sequence
    → Moved event r (counted n (applied_to r (stored_event event) logs))
Moved-applied lib event r n (err e) v h = tt
Moved-applied lib event r n (ok logs) v h = (v, refl, omega arith, h)

replay_event_line-Moved :
    (lib : StoreLib) (event : RequestLogEvent) (r : Replay)
    → Moved event r (replay_event_line lib event r)
unfolding replay_event_line replay_line replay_event
replay_event_line-Moved lib event r =
    elim (Bool-cases (is_valid_event r.previous (stored_event event))) [
      | inr bad ↦ rw bad tt
      | inl valid ↦ elim (Bool-cases (leb event.sequence r.store.sequence)) [
        | inl old ↦ rw (valid, old) (valid, refl, ground (arith, old), omega arith)
        | inr new ↦ elim (Bool-cases (event.sequence == r.store.sequence + 1)) [
          | inl next ↦
              rw (valid, new, next)
                (Moved-applied lib event r (length (lib.encode_event event) + 1)
                  (apply_request_log_event lib.log r.logs (stored_event event)) valid
                  (ground (arith, new)))
          | inr gap ↦ rw (valid, new, gap) tt
        ]
      ]
    ]

-- A state that is past an event keeps its logs over the event's line.
abbrev passed : StoreLib → RequestLogEvent → Replay → Replay
passed lib event r = record r {
  previous = event.sequence;
  store = record r.store {
    journal_bytes = r.store.journal_bytes + (length (lib.encode_event event) + 1);
  };
}

replay_event_line-passed :
    (lib : StoreLib) (event : RequestLogEvent) (r : Replay)
    → is_valid_event r.previous (stored_event event) ≡ true
    → event.sequence ≤ r.store.sequence
    → replay_event_line lib event r ≡ ok (passed lib event r)
unfolding replay_event_line replay_line replay_event
replay_event_line-passed lib event r v h =
    let old : leb event.sequence r.store.sequence ≡ true = ground (arith, h) in rw (v, old) refl

-- What a replay from a newer state comes to.
abbrev pub IsPassed : Replay → Replay → Result Replay → Type 0
IsPassed m newer (err e) = ⊥
IsPassed m newer (ok f) =
    (f.logs ≡ newer.logs) × (f.store.sequence ≡ newer.store.sequence) × (f.previous ≡ m.previous)

abbrev Reached : Replay → Result Replay → Type 0
Reached r (err e) = Unit
Reached r (ok m) = r.store.sequence ≤ m.store.sequence

replay_events-Reached :
    (lib : StoreLib) (events : List RequestLogEvent) (r : Replay)
    → Reached r (replay_events lib events r)
unfolding replay_events
replay_events-Reached lib [] r = omega arith
replay_events-Reached lib (event ∷ events) r =
    Reached-line lib events (replay_event_line lib event r) (replay_event_line-Moved lib event r)
      (replay_events-Reached lib events)
  where
    Reached-rest :
        (next : Replay) (o : Result Replay)
        → r.store.sequence ≤ next.store.sequence
        → Reached next o
        → Reached r o
    Reached-rest next (err e) h g = tt
    Reached-rest next (ok m) h g = omega (arith, h, g)

    Reached-line :
        (lib : StoreLib) (events : List RequestLogEvent) (o : Result Replay)
        → Moved event r o
        → ((next : Replay) → Reached next (replay_events lib events next))
        → Reached r (and_then o (replay_events lib events))
    Reached-line lib events (err e) moved rest = tt
    Reached-line lib events (ok next) moved rest =
        Reached-rest next (replay_events lib events next) moved.3 (rest next)

abbrev IsOk : Result Replay → Type 0
IsOk (ok r) = Unit
IsOk (err e) = ⊥

-- An event of a replay that is behind a newer state, too, is passed there.
passed_line :
    (lib : StoreLib) (event : RequestLogEvent) (events : List RequestLogEvent) (r m newer : Replay)
    (o : Result Replay)
    → Moved event r o
    → and_then o (replay_events lib events) ≡ ok m
    → newer.previous ≡ r.previous
    → m.store.sequence ≤ newer.store.sequence
    → ((next : Replay)
        → replay_events lib events next ≡ ok m
        → (passed lib event newer).previous ≡ next.previous
        → IsPassed m (passed lib event newer) (replay_events lib events (passed lib event newer)))
    → IsPassed m newer (and_then (replay_event_line lib event newer) (replay_events lib events))
passed_line lib event events r m newer (err e) moved h p s rest = absurd (subst IsOk (sym h) tt)
passed_line lib event events r m newer (ok next) moved h p s rest =
    let reach : next.store.sequence ≤ m.store.sequence =
      subst (Reached next) h (replay_events-Reached lib events next) in
    let (valid, previous, below, on) = moved in
    let line =
      replay_event_line-passed lib event newer
        (subst (λ x. is_valid_event x (stored_event event) ≡ true) (sym p) valid)
        (omega (arith, below, reach, s)) in
    rw line (rest next h (sym previous))

pub replay_events-IsPassed :
    (lib : StoreLib) (events : List RequestLogEvent) (r m newer : Replay)
    → replay_events lib events r ≡ ok m
    → newer.previous ≡ r.previous
    → m.store.sequence ≤ newer.store.sequence
    → IsPassed m newer (replay_events lib events newer)
unfolding replay_events
replay_events-IsPassed lib [] r m newer h p s = (refl, refl, p ∙ ap previous_of h)
  where
    previous_of : Result Replay → ℕ
    previous_of (ok x) = x.previous
    previous_of (err e) = 0
replay_events-IsPassed lib (event ∷ events) r m newer h p s =
    passed_line lib event events r m newer (replay_event_line lib event r)
      (replay_event_line-Moved lib event r) h p s
      (λ next e q. replay_events-IsPassed lib events next m (passed lib event newer) e q s)

pub replay_events-rises :
    (lib : StoreLib) (events : List RequestLogEvent) (r m : Replay)
    → replay_events lib events r ≡ ok m
    → r.store.sequence ≤ m.store.sequence
replay_events-rises lib events r m h = subst (Reached r) h (replay_events-Reached lib events r)
