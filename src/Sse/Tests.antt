-- ===== src/Sse/Tests.antt =====
-- The decoder's theorems at a stream whose frames are collected in a list.
use cline_pass_bridge.Base.{◌≤◌, ◌≡◌, refl, Option, none, List, [], ◌∷◌, ◌++◌, arith, length}
use cline_pass_bridge.Base.Text.{Text, codes}
use cline_pass_bridge.Faults.{Fault}
use cline_pass_bridge.Sse.{
  Decoder, emitted, SpaceLib, trim_cr, add_data, set_event, clear, end_frame, take_line, drain,
  feed, join_lines, trim_prefix,
}
use cline_pass_bridge.Sse.Chunks.{feed_next, feed-append}
use cline_pass_bridge.Sse.Limits.{IsBounded, feed-IsBounded, event_text, fresh, feed-event_text}

abbrev plain : SpaceLib
plain = record { trim_space = λ s. s }

-- Every frame is accepted.
abbrev collect : Text → Text → List Text → List Text × Option Fault
collect payload name seen = (seen ++ payload ∷ [], none)

abbrev half : Text
half = codes "data: {\"a\""

abbrev other_half : Text
other_half = codes ":1}" ++ 13 ∷ 10 ∷ 13 ∷ 10 ∷ []

abbrev start : Decoder
start = record { buffer = []; frame = record { data_lines = []; size = 0; max = 100; event = [] } }

-- The lines end in CRLF, and the chunk boundary is inside the data.
two_chunks : (feed plain collect (half ++ other_half) start []).state ≡ codes "{\"a\":1}" ∷ []
unfolding feed drain take_line add_data set_event trim_prefix trim_cr end_frame emitted join_lines
    clear
two_chunks = refl

feed-append_example :
    feed plain collect (half ++ other_half) start []
    ≡ feed_next plain collect other_half
        (feed plain collect half start [])
        (feed plain collect half start []).failure
feed-append_example = feed-append plain collect half other_half start [] refl (omega arith)

accepted : (feed plain collect half start []).failure ≡ none
unfolding feed drain
accepted = refl

feed-IsBounded_example : IsBounded (feed plain collect half start []).decoder
feed-IsBounded_example =
    feed-IsBounded plain collect half start [] (omega arith, (refl, omega arith)) accepted

no_cr : trim_cr (codes "data: " ++ codes "[DONE]") ≡ codes "data: " ++ codes "[DONE]"
unfolding trim_cr
no_cr = refl

short : length (event_text (codes "[DONE]")) ≤ 100
unfolding event_text
short = omega arith

feed-event_text_example :
    feed plain collect (event_text (codes "[DONE]")) (fresh 100) []
    ≡ record { decoder = fresh 100; state = codes "[DONE]" ∷ []; failure = none }
feed-event_text_example =
    feed-event_text plain collect (codes "[DONE]") 100 [] refl no_cr short refl
