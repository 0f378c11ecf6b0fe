-- ===== src/Stream.antt =====
-- The watchdog of a stream that is read from upstream (internal/bridge/stream_idle.go). Times are
-- nanoseconds and 0 is Go's zero time. What a call reads of the world outside the watchdog is an
-- argument: the clock, whether the bridge is shutting down, and the error of the request's context.
pub mod Deadline
pub mod Tests
use cline_pass_bridge.Base.{
  ℕ, ◌+◌, ◌-◌, String, ◌≡◌, refl, Bool, true, false, ◌&&◌, ◌||◌, not, Option, none, some, List, [],
  ◌∷◌, ◌++◌, arith, ltb, leb, ◌==◌, nat_eq, if◌then◌else◌, is_some,
}
use cline_pass_bridge.Base.Text.{Text, codes}
use cline_pass_bridge.Faults.{Fault, request_fault}

-- The text of a duration in seconds, as `%g` writes it, is the formatter's.
pub record Formatter : Type 0 where
  pub seconds_text : ℕ → Text

pub record Outside : Type 0 where
  pub now : ℕ
  pub shutting_down : Bool
  pub parent_error : Option Fault

pub record Watchdog : Type 0 where
  pub deadline : ℕ
  pub idle_timeout : ℕ
  pub last_output : ℕ
  pub downstream : Bool
  pub err : Option Fault
  pub stopped : Bool

unfoldable pub request_timed_out : Fault
request_timed_out =
    request_fault 504 "request_deadline_exceeded" (codes "Cline upstream request timed out")

unfoldable pub shut_down : Fault
shut_down = request_fault 503 "bridge_unavailable" (codes "ClinePassBridge is shutting down")

unfoldable pub stream_idle_timeout : Formatter → ℕ → Fault
stream_idle_timeout f timeout = request_fault 502 "upstream_stream_idle_timeout" (
    codes "HTTP 502: upstream stream i/o timeout after "
    ++ f.seconds_text timeout
    ++ codes "s without effective output (upstream_stream_idle_timeout)")

-- The idle limit holds once there was output, and not while the consumer is busy.
unfoldable pub is_armed : Watchdog → Bool
is_armed w = not w.downstream && (ltb 0 w.idle_timeout && not (w.last_output == 0))

unfoldable pub expired : Formatter → Outside → Watchdog → Option Fault
unfolding is_armed
expired f o w = if o.shutting_down then some shut_down else elim o.parent_error [
  | some e ↦ some e
  | none ↦
      (if leb w.deadline o.now
        then some request_timed_out
        else if is_armed w && leb (w.last_output + w.idle_timeout) o.now
        then some (stream_idle_timeout f w.idle_timeout)
        else none)
]

abbrev pub first_error : Option Fault → Option Fault → Option Fault
first_error (some e) next = some e
first_error none next = next

-- `if w.err == nil { w.err = w.expired(time.Now()) }`
unfoldable pub check : Formatter → Outside → Watchdog → Watchdog
check f o w = record w { err = first_error w.err (expired f o w) }

-- The first half of `emit`: a watchdog that has failed does not call the consumer.
unfoldable pub begin_emit : Formatter → Outside → Watchdog → Watchdog
unfolding check
begin_emit f o w =
    let w' = check f o w in
    record w' { downstream = if is_some w'.err then w'.downstream else true }

-- The second half, after the consumer has returned: the time it took does not count as idle.
unfoldable pub end_emit : Formatter → ℕ → Outside → Watchdog → Watchdog
unfolding check
end_emit f elapsed o w = check f o (record w {
  last_output = if w.last_output == 0 then 0 else w.last_output + elapsed;
  downstream = false;
})

-- `emit` around a consumer that ends with `result`, `elapsed` after the call and in the world `o'`.
unfoldable pub emit :
    Formatter → Outside → Option Fault → ℕ → Outside → Watchdog → Watchdog × Option Fault
emit f o result elapsed o' w =
    let w' = begin_emit f o w in
    elim w'.err [
      | some e ↦ (w', some e)
      | none ↦
          let w'' = end_emit f elapsed o' w' in
          (w'', elim result [ some e ↦ some e | none ↦ w''.err ])
    ]

unfoldable pub effective_output : Formatter → Outside → Watchdog → Watchdog × Option Fault
unfolding check
effective_output f o w =
    if w.stopped || is_some w.err
    then (w, w.err)
    else let w' = check f o w in
      (
        record w' {
          last_output =
              if not (is_some w'.err) && ltb 0 w.idle_timeout then o.now else w.last_output;
        },
        w'.err,
      )

-- What one turn of the timer's loop does: it ends, it breaks the stream, or it sleeps.
pub data Verdict : Type 0 where
  finished : Verdict
  broken : Fault → Verdict
  sleeping : ℕ → Verdict

unfoldable pub next_deadline : Watchdog → ℕ
unfolding is_armed
next_deadline w =
    if is_armed w && ltb (w.last_output + w.idle_timeout) w.deadline
    then w.last_output + w.idle_timeout
    else w.deadline

unfoldable pub turn : Formatter → Outside → Watchdog → Watchdog × Verdict
turn f o w =
    if w.stopped
    then (w, finished)
    else let w' = check f o w in
      elim w'.err [ some e ↦ (w', broken e) | none ↦ (w', sleeping (next_deadline w')) ]

unfoldable pub stop : Watchdog → Watchdog
stop w = record w { stopped = true }
