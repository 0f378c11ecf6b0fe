-- ===== src/Sse.antt =====
-- The decoder of server-sent events (internal/bridge/sse.go: SSEDecoder). Bytes are numbers, and a
-- caller's `emit` acts on a state of its own, so that the order of the calls is part of a result.
pub mod Chunks
pub mod Limits
pub mod Tests
use cline_pass_bridge.Base.{
  is_empty, ℕ, zero, suc, ◌+◌, String, ◌≡◌, refl, Bool, true, false, ◌&&◌, ◌||◌, not, Option, none,
  some, List, [], ◌∷◌, ◌++◌, arith, ltb, leb, nat_beq, ◌==◌, nat_eq, if◌then◌else◌, length, drop,
}
use cline_pass_bridge.Base.Text.{Text, codes, has_prefix}
use cline_pass_bridge.Faults.{Fault, request_fault}

-- The fields of the decoder but its buffer, which is all that a line's handling changes.
pub record Frame : Type 0 where
  pub data_lines : List Text
  pub size : ℕ
  pub max : ℕ
  pub event : Text

pub record Decoder : Type 0 where
  pub buffer : Text
  pub frame : Frame

-- strings.TrimSpace
pub record SpaceLib : Type 0 where
  pub trim_space : Text → Text

abbrev pub newline : ℕ
newline = 10

-- strings.TrimSuffix(line, "\r")
unfoldable pub trim_cr : Text → Text
trim_cr [] = []
trim_cr (c ∷ []) = if nat_beq c 13 then [] else c ∷ []
trim_cr (c ∷ d ∷ s) = c ∷ trim_cr (d ∷ s)

-- strings.TrimPrefix
unfoldable pub trim_prefix : Text → Text → Text
trim_prefix p s = if has_prefix p s then drop (length p) s else s

-- strings.Join(data, "\n")
unfoldable pub join_lines : List Text → Text
join_lines [] = []
join_lines (s ∷ []) = s
join_lines (s ∷ t ∷ ts) = s ++ newline ∷ join_lines (t ∷ ts)

unfoldable pub limit_failure : Fault
limit_failure =
    request_fault 413 "response_limit_exceeded" (codes "SSE frame exceeds configured limit")

unfoldable pub incomplete_frame : Fault
incomplete_frame =
    request_fault 502 "upstream_protocol_error"
      (codes "upstream stream ended with an incomplete SSE frame")

-- `d.data_lines = append(d.data, v); d.size += len(v)`
unfoldable pub add_data : Text → Frame → Frame
unfolding trim_prefix
add_data line d =
    let v = trim_prefix (codes " ") (trim_prefix (codes "data:") line) in
    record d { data_lines = d.data_lines ++ v ∷ []; size = d.size + length v }

unfoldable pub set_event : SpaceLib → Text → Frame → Frame
unfolding trim_prefix
set_event lib line d =
    if has_prefix (codes "event:") line
    then record d { event = lib.trim_space (trim_prefix (codes "event:") line) }
    else d

unfoldable pub clear : Frame → Frame
clear d = record d { data_lines = []; size = 0; event = [] }

unfoldable pub end : SpaceLib → Decoder → Option Fault
end lib d =
    if not (is_empty (lib.trim_space d.buffer)) || not (is_empty d.frame.data_lines)
    then some incomplete_frame
    else none

-- The frame, the caller's state and the error after a line.
pub record Taken {ℓ} (S : Type ℓ) : Type ℓ where
  pub frame : Frame
  pub state : S
  pub failure : Option Fault

-- The decoder, the caller's state and the error after a call.
pub record Fed {ℓ} (S : Type ℓ) : Type ℓ where
  pub decoder : Decoder
  pub state : S
  pub failure : Option Fault

abbrev pub fed {ℓ} : {S : Type ℓ} → Text → Taken S → Fed S
fed rest r = record {
  decoder = record { buffer = rest; frame = r.frame };
  state = r.state;
  failure = r.failure;
}

module _ {ℓ} {S : Type ℓ} (lib : SpaceLib) (emit : Text → Text → S → S × Option Fault) where
  -- The frame is cleared unless the caller's `emit` fails.
  unfoldable pub emitted : Frame → S × Option Fault → Taken S
  unfolding clear
  emitted d (s, some e) = record { frame = d; state = s; failure = some e }
  emitted d (s, none) = record { frame = clear d; state = s; failure = none }

  -- An empty line ends a frame; a frame without data is not emitted.
  unfoldable pub end_frame : Frame → S → Taken S
  end_frame d s =
      if is_empty d.data_lines
      then record { frame = clear d; state = s; failure = none }
      else emitted d (emit (join_lines d.data_lines) d.event s)

  unfoldable pub take_line : Text → Frame → S → Taken S
  take_line line d s =
      if is_empty line
      then end_frame d s
      else if has_prefix (codes "data:") line
      then (if ltb d.max (add_data line d).size
          then record { frame = add_data line d; state = s; failure = some limit_failure }
          else record { frame = set_event lib line (add_data line d); state = s; failure = none })
      else record { frame = set_event lib line d; state = s; failure = none }

  -- The loop over the lines of the buffer; `line` is what it has read of the current one. An error
  -- leaves the bytes after the line in the buffer.
  unfoldable pub drain : Text → Text → Frame → S → Fed S
  drain line [] d s = fed line (record { frame = d; state = s; failure = none })
  drain line (c ∷ rest) d s = elim (nat_beq c newline) [
    | true ↦
        let r = take_line (trim_cr line) d s in
        elim r.failure [ some e ↦ fed rest r | none ↦ drain [] rest r.frame r.state ]
    | false ↦ drain (line ++ c ∷ []) rest d s
  ]

  unfoldable pub feed : Text → Decoder → S → Fed S
  feed b d s =
      if ltb d.frame.max (length (d.buffer ++ b))
      then record {
        decoder = record d { buffer = d.buffer ++ b };
        state = s;
        failure = some limit_failure;
      }
      else drain [] (d.buffer ++ b) d.frame s
