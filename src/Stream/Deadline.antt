-- ===== src/Stream/Deadline.antt =====
-- The deadlines of a stream (internal/bridge/stream_idle.go).
use cline_pass_bridge.Base.{
  ℕ, ◌+◌, ◌≤◌, ◌<◌, ◌≡◌, refl, Bool, true, false, none, some, List, [], ◌∷◌, arith, leb, nat_eq,
  is_some, All, ap, sym, ◌∙◌,
}
use mathlib.Core.Path.{subst}
use cline_pass_bridge.Faults.{Fault}
use cline_pass_bridge.Stream.{
  Formatter, Outside, Watchdog, is_armed, expired, check, begin_emit, end_emit, effective_output,
  Verdict, finished, broken, sleeping, next_deadline, turn, stop,
}

-- A world with no shutdown and no error of the context.
abbrev pub IsCalm : Outside → Type 0
IsCalm o = (o.shutting_down ≡ false) × (o.parent_error ≡ none)

-- The time the loop sleeps to is exact: without a shutdown or an error of its context the stream has
-- expired from that time on, and not before.
pub expired_at_next :
    (f : Formatter) (o : Outside) (w : Watchdog)
    → IsCalm o
    → is_some (expired f o w) ≡ leb (next_deadline w) o.now
unfolding expired next_deadline is_armed
expired_at_next f o w (s, p) = rw (s, p) (ground arith)

-- The calls on a watchdog, each in the world it meets.
pub data Event : Type 0 where
  output_event : Outside → Event
  begin_event : Outside → Event
  end_event : ℕ → Outside → Event
  turn_event : Outside → Event
  stop_event : Event

unfoldable pub handle : Formatter → Watchdog → Event → Watchdog
handle f w (output_event o) = (effective_output f o w).0
handle f w (begin_event o) = begin_emit f o w
handle f w (end_event elapsed o) = end_emit f elapsed o w
handle f w (turn_event o) = (turn f o w).0
handle f w stop_event = stop w

unfoldable pub handle_all : Formatter → Watchdog → List Event → Watchdog
unfolding handle
handle_all f w [] = w
handle_all f w (e ∷ es) = handle_all f (handle f w e) es

begun :
    (f : Formatter) (o : Outside) (w : Watchdog)
    → ((begin_emit f o w).last_output ≡ w.last_output)
      × (((begin_emit f o w).deadline ≡ w.deadline)
          × ((begin_emit f o w).idle_timeout ≡ w.idle_timeout))
unfolding begin_emit
begun f o w = (refl, (refl, refl))

begun_busy :
    (f : Formatter) (o : Outside) (w : Watchdog)
    → (begin_emit f o w).err ≡ none
    → (begin_emit f o w).downstream ≡ true
unfolding begin_emit
begun_busy f o w h = rw h refl

-- Turns of the timer's loop, one after the other.
abbrev pub turns : List Outside → List Event
turns [] = []
turns (o ∷ os) = turn_event o ∷ turns os

-- A calm world before a deadline.
abbrev pub IsEarly : ℕ → Outside → Type 0
IsEarly deadline o = IsCalm o × o.now < deadline

busy_turn :
    (f : Formatter) (o : Outside) (w : Watchdog)
    → w.downstream ≡ true
    → w.err ≡ none
    → IsEarly w.deadline o
    → (turn f o w).0 ≡ w
unfolding turn check expired is_armed
busy_turn f o w d h ((s, p), l) = ground (arith, d, h, s, p)

busy_turns :
    (f : Formatter) (os : List Outside) (w : Watchdog)
    → w.downstream ≡ true
    → w.err ≡ none
    → All (IsEarly w.deadline) os
    → handle_all f w (turns os) ≡ w
unfolding handle_all handle
busy_turns f [] w d h early = refl
busy_turns f (o ∷ os) w d h (e, es) =
    ap (λ v. handle_all f v (turns os)) (busy_turn f o w d h e) ∙ busy_turns f os w d h es

ended_not_idle :
    (f : Formatter) (o o' : Outside) (elapsed : ℕ) (w : Watchdog)
    → (begin_emit f o w).err ≡ none
    → IsCalm o'
    → o'.now < w.last_output + w.idle_timeout + elapsed
    → o'.now < w.deadline
    → (end_emit f elapsed o' (begin_emit f o w)).err ≡ none
unfolding end_emit expired is_armed
ended_not_idle f o o' elapsed w h (s, p) l d = rw (h, s, p) (ground (arith, begun f o w))

-- A stream whose consumer is busy is not idle: from an emission that the watchdog let begin, any
-- number of turns of the timer before the deadline, without a shutdown or an error of the
-- context, leave the stream as it was, however long the consumer takes. The end of the emission,
-- under the same conditions, does not find it idle either, if the time since the last output
-- without the consumer's is below the idle limit.
pub emit_not_idle :
    (f : Formatter) (o o' : Outside) (os : List Outside) (elapsed : ℕ) (w : Watchdog)
    → (begin_emit f o w).err ≡ none
    → All (IsEarly w.deadline) os
    → IsEarly w.deadline o'
    → o'.now < w.last_output + w.idle_timeout + elapsed
    → (handle_all f (begin_emit f o w) (turns os) ≡ begin_emit f o w)
      × ((end_emit f elapsed o' (handle_all f (begin_emit f o w) (turns os))).err ≡ none)
emit_not_idle f o o' os elapsed w h early (calm, d) l =
    let idle =
      busy_turns f os (begin_emit f o w) (begun_busy f o w h) h
        (subst (λ t. All (IsEarly t) os) (sym (begun f o w).1.0) early) in
    (
      idle,
      ap (λ v. (end_emit f elapsed o' v).err) idle ∙ ended_not_idle f o o' elapsed w h calm l d,
    )

handle_keeps :
    (f : Formatter) (w : Watchdog) (event : Event) (e : Fault)
    → w.err ≡ some e
    → (handle f w event).err ≡ some e
unfolding handle effective_output begin_emit end_emit turn stop check
handle_keeps f w (output_event o) e h = ground (arith, h)
handle_keeps f w (begin_event o) e h = rw h refl
handle_keeps f w (end_event elapsed o) e h = rw h refl
handle_keeps f w (turn_event o) e h = ground (arith, h)
handle_keeps f w stop_event e h = h

-- The first failure of a stream stays its failure: whatever happens after it, in whatever order, no
-- output, emission, timer or stop replaces or clears it.
pub first_failure_stays :
    (f : Formatter) (w : Watchdog) (events : List Event) (e : Fault)
    → w.err ≡ some e
    → (handle_all f w events).err ≡ some e
unfolding handle_all
first_failure_stays f w [] e h = h
first_failure_stays f w (event ∷ events) e h =
    first_failure_stays f (handle f w event) events e (handle_keeps f w event e h)

-- The absolute deadline holds in every state, a busy consumer's included: from the deadline on, a
-- turn of a stream that was not stopped breaks it.
abbrev pub is_broken : Verdict → Bool
is_broken (broken e) = true
is_broken finished = false
is_broken (sleeping until) = false

pub deadline_breaks :
    (f : Formatter) (o : Outside) (w : Watchdog)
    → w.stopped ≡ false
    → w.deadline ≤ o.now
    → is_broken (turn f o w).1 ≡ true
unfolding turn check expired
deadline_breaks f o w s l = ground arith
