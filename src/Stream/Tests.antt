-- ===== src/Stream/Tests.antt =====
-- The watchdog's theorems at a stream with an idle limit of 30 seconds and a slow consumer.
use cline_pass_bridge.Base.{
  ℕ, ◌*◌, ◌≡◌, refl, true, false, none, some, List, [], ◌∷◌, arith, leb, is_some,
}
use cline_pass_bridge.Base.Text.{decimal}
use cline_pass_bridge.Faults.{second}
use cline_pass_bridge.Stream.{
  Formatter, Outside, Watchdog, request_timed_out, is_armed, expired, check, begin_emit, end_emit,
  next_deadline, turn,
}
use cline_pass_bridge.Stream.Deadline.{
  expired_at_next, emit_not_idle, turns, output_event, turn_event, stop_event, handle_all,
  first_failure_stays, is_broken, deadline_breaks,
}

abbrev formatter : Formatter
formatter = record { seconds_text = decimal }

abbrev calm_at : ℕ → Outside
calm_at now = record { now = now; shutting_down = false; parent_error = none }

-- The last output was ten seconds after the start.
abbrev stream : Watchdog
stream = record {
  deadline = 600 * second;
  idle_timeout = 30 * second;
  last_output = 10 * second;
  downstream = false;
  err = none;
  stopped = false;
}

expired_at_next_example :
    is_some (expired formatter (calm_at (40 * second)) stream)
    ≡ leb (next_deadline stream) (40 * second)
expired_at_next_example = expired_at_next formatter (calm_at (40 * second)) stream (refl, refl)

begins : (begin_emit formatter (calm_at (20 * second)) stream).err ≡ none
unfolding begin_emit check expired is_armed
begins = refl

-- The consumer takes five minutes, ten times the idle limit, and the timer looks twice meanwhile.
abbrev looks : List Outside
looks = calm_at (100 * second) ∷ calm_at (200 * second) ∷ []

abbrev busy : Watchdog
busy = begin_emit formatter (calm_at (20 * second)) stream

emit_not_idle_example :
    (handle_all formatter busy (turns looks) ≡ busy)
    × ((end_emit formatter
          (300 * second)
          (calm_at (321 * second))
          (handle_all formatter busy (turns looks))).err
        ≡ none)
emit_not_idle_example =
    emit_not_idle formatter (calm_at (20 * second)) (calm_at (321 * second)) looks (300 * second)
      stream begins (((refl, refl), omega arith), (((refl, refl), omega arith), tt))
      ((refl, refl), omega arith) (omega arith)

abbrev late : Watchdog
late = record stream { err = some request_timed_out }

first_failure_stays_example :
    (handle_all formatter late (
      output_event (calm_at (20 * second))
      ∷ turn_event (calm_at (50 * second))
      ∷ stop_event
      ∷ [])).err
    ≡ some request_timed_out
first_failure_stays_example =
    first_failure_stays formatter late
      (output_event (calm_at (20 * second)) ∷ turn_event (calm_at (50 * second)) ∷ stop_event ∷ [])
      request_timed_out refl

-- The consumer is still busy at the deadline.
deadline_breaks_example :
    is_broken (turn formatter (calm_at (600 * second)) (record stream { downstream = true })).1
    ≡ true
deadline_breaks_example =
    deadline_breaks formatter (calm_at (600 * second)) (record stream { downstream = true }) refl
      (omega arith)
