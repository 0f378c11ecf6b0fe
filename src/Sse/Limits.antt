-- ===== src/Sse/Limits.antt =====
-- The decoder's limit, and the reading of a written event (internal/bridge/sse.go: Feed).
use cline_pass_bridge.Base.{
  is_empty, ℕ, ◌+◌, ◌≤◌, ◌≡◌, refl, sym, ap, ◌∙◌, true, false, Option, none, some, List, [], ◌∷◌,
  ◌++◌, arith, ltb, nat_beq, nat_eq, length, Bool-cases, Option-cases, inl, inr, length-append,
}
use cline_pass_bridge.Base.Text.{Text, codes, has_prefix}
use cline_pass_bridge.Faults.{Fault}
use cline_pass_bridge.Sse.{
  Decoder, Frame, emitted, SpaceLib, newline, trim_cr, add_data, set_event, clear, end_frame,
  take_line, drain, feed, trim_prefix, join_lines,
}
use cline_pass_bridge.Sse.Chunks.{is_one_line, drain_one_line, drain-length, drain-max, feed_within}

abbrev pub total : List Text → ℕ
total [] = 0
total (s ∷ ss) = length s + total ss

total-append : (ss : List Text) (s : Text) → total (ss ++ s ∷ []) ≡ total ss + length s
total-append [] s = omega arith
total-append (t ∷ ss) s = omega (arith, total-append ss s)

-- The recorded size is the size of the data lines, and within the limit.
abbrev pub IsCounted : Frame → Type 0
IsCounted d = (d.size ≡ total d.data_lines) × (d.size ≤ d.max)

abbrev pub IsBounded : Decoder → Type 0
IsBounded d = (length d.buffer ≤ d.frame.max) × IsCounted d.frame

add_data-size :
    (line : Text) (d : Frame)
    → d.size ≡ total d.data_lines
    → (add_data line d).size ≡ total (add_data line d).data_lines
unfolding add_data
add_data-size line d h =
    let v = trim_prefix (codes " ") (trim_prefix (codes "data:") line) in
    let t = total-append d.data_lines v in omega arith

add_data-max : (line : Text) (d : Frame) → (add_data line d).max ≡ d.max
unfolding add_data
add_data-max line d = refl

set_event-IsCounted :
    (lib : SpaceLib) (line : Text) (d : Frame) → IsCounted d → IsCounted (set_event lib line d)
unfolding set_event
set_event-IsCounted lib line d (a, b) = (ground arith, ground arith)

clear-IsCounted : (d : Frame) → IsCounted (clear d)
unfolding clear
clear-IsCounted d = (refl, omega arith)

-- `data: x` and an empty line.
unfoldable pub event_text : Text → Text
event_text x = (codes "data: " ++ x) ++ newline ∷ newline ∷ []

-- A decoder before the first byte.
unfoldable pub fresh : ℕ → Decoder
fresh m = record { buffer = []; frame = record { data_lines = []; size = 0; max = m; event = [] } }

module _ {ℓ} {S : Type ℓ} (lib : SpaceLib) (emit : Text → Text → S → S × Option Fault) where
  emitted-IsCounted :
      (d : Frame) (r : S × Option Fault) → IsCounted d → IsCounted (emitted lib emit d r).frame
  unfolding emitted
  emitted-IsCounted d (s, none) h = clear-IsCounted d
  emitted-IsCounted d (s, some e) h = h

  end_frame-IsCounted : (d : Frame) (s : S) → IsCounted d → IsCounted (end_frame lib emit d s).frame
  unfolding end_frame
  end_frame-IsCounted d s h = elim (Bool-cases (is_empty d.data_lines)) [
    | inl none_yet ↦ rw none_yet (clear-IsCounted d)
    | inr some_yet ↦ rw some_yet (emitted-IsCounted d (emit (join_lines d.data_lines) d.event s) h)
  ]

  take_line-IsCounted :
      (line : Text) (d : Frame) (s : S)
      → IsCounted d
      → (take_line lib emit line d s).failure ≡ none
      → IsCounted (take_line lib emit line d s).frame
  unfolding take_line
  take_line-IsCounted line d s h f = elim (Bool-cases (is_empty line)) [
    | inl blank ↦ rw blank (end_frame-IsCounted d s h)
    | inr full ↦ elim (Bool-cases (has_prefix (codes "data:") line)) [
      | inl data_line ↦ elim (Bool-cases (ltb d.max (add_data line d).size)) [
        | inl over ↦ absurd (ground (arith, full, data_line, over))
        | inr within ↦
            rw (full, data_line, within)
              (set_event-IsCounted lib line (add_data line d)
                (add_data-size line d h.0, ground (arith, within, add_data-max line d)))
      ]
      | inr other ↦ rw (full, other) (set_event-IsCounted lib line d h)
    ]
  ]

  drain-IsCounted :
      (line x : Text) (d : Frame) (s : S)
      → IsCounted d
      → (drain lib emit line x d s).failure ≡ none
      → IsCounted (drain lib emit line x d s).decoder.frame
  unfolding drain
  drain-IsCounted line [] d s h f = h
  drain-IsCounted line (c ∷ x) d s h f = elim (Bool-cases (nat_beq c newline)) [
    | inl ends ↦
        let r = take_line lib emit (trim_cr line) d s in
        elim (Option-cases r.failure) [
          | inl fine ↦
              let kept = take_line-IsCounted (trim_cr line) d s h fine in
              let rest = drain-IsCounted [] x r.frame r.state kept in
              (ground (arith, ends, fine, rest), ground (arith, ends, fine, rest))
          | inr (e, failed) ↦ absurd (ground (arith, ends, failed))
        ]
    | inr goes ↦
        let rest = drain-IsCounted (line ++ c ∷ []) x d s h in
        (ground (arith, goes, rest), ground (arith, goes, rest))
  ]

  over_fails :
      (b : Text) (d : Decoder) (s : S)
      → ltb d.frame.max (length (d.buffer ++ b)) ≡ true
      → (feed lib emit b d s).failure ≡ none
      → ⊥
  unfolding feed
  over_fails b d s over f = ground (arith, over)

  -- Whatever bytes a call accepts, the decoder keeps no more of them than its limit, in its buffer
  -- and in the data lines of its frame, and its recorded size is right.
  pub feed-IsBounded :
      (b : Text) (d : Decoder) (s : S)
      → IsBounded d
      → (feed lib emit b d s).failure ≡ none
      → IsBounded (feed lib emit b d s).decoder
  feed-IsBounded b d s h f = elim (Bool-cases (ltb d.frame.max (length (d.buffer ++ b)))) [
    | inl over ↦ absurd (over_fails b d s over f)
    | inr fits ↦
        let r : feed lib emit b d s ≡ drain lib emit [] (d.buffer ++ b) d.frame s =
          feed_within lib emit b d s (ground arith) in
        let f' = sym (ap (λ x. x.failure) r) ∙ f in
        let kept = drain-IsCounted [] (d.buffer ++ b) d.frame s h.1 f' in
        let left = drain-length lib emit [] (d.buffer ++ b) d.frame s in
        let same_max = drain-max lib emit [] (d.buffer ++ b) d.frame s in
        rw r (ground (arith, fits), kept)
  ]

  fits_text : (x : Text) (m : ℕ) → length (event_text x) ≤ m → length x ≤ m
  unfolding event_text
  fits_text x m l =
      let longer = length-append (codes "data: " ++ x) (newline ∷ newline ∷ []) in omega arith

  within_fresh :
      (x : Text) (m : ℕ)
      → length (event_text x) ≤ m
      → length ((fresh m).buffer ++ event_text x) ≤ (fresh m).frame.max
  unfolding fresh
  within_fresh x m l = l

  one_line_text : (x : Text) → is_one_line x ≡ true → is_one_line (codes "data: " ++ x) ≡ true
  one_line_text x h = h

  blank : trim_cr [] ≡ []
  unfolding trim_cr
  blank = refl

  emitted_ok :
      (d : Frame) (r : S × Option Fault)
      → r.1 ≡ none
      → emitted lib emit d r ≡ record { frame = clear d; state = r.0; failure = none }
  unfolding emitted
  emitted_ok d (s, none) h = refl
  emitted_ok d (s, some e) h = absurd (ground arith)

  -- The data line of a written event.
  data_line_taken :
      (x : Text) (m : ℕ) (s : S)
      → length x ≤ m
      → take_line lib emit (codes "data: " ++ x) (fresh m).frame s ≡ record {
        frame = record { data_lines = x ∷ []; size = length x; max = m; event = [] };
        state = s;
        failure = none;
      }
  unfolding take_line fresh add_data set_event trim_prefix
  data_line_taken x m s l =
      let within : ltb m (length x) ≡ false = ground arith in
      let zero_more : 0 + length x ≡ length x = omega arith in rw (zero_more, within) refl

  blank_line_taken :
      (x : Text) (m : ℕ) (s : S)
      → (emit x [] s).1 ≡ none
      → take_line lib emit []
          (record { data_lines = x ∷ []; size = length x; max = m; event = [] })
          s
        ≡ record { frame = (fresh m).frame; state = (emit x [] s).0; failure = none }
  unfolding take_line end_frame fresh clear join_lines
  blank_line_taken x m s h =
      emitted_ok (record { data_lines = x ∷ []; size = length x; max = m; event = [] })
        (emit x [] s) h

  -- The two ends of line of a written event.
  two_lines :
      (line : Text) (d d' d'' : Frame) (s s' s'' : S)
      → take_line lib emit (trim_cr line) d s ≡ record { frame = d'; state = s'; failure = none }
      → take_line lib emit (trim_cr []) d' s' ≡ record { frame = d''; state = s''; failure = none }
      → drain lib emit line (newline ∷ newline ∷ []) d s
        ≡ record { decoder = record { buffer = []; frame = d'' }; state = s''; failure = none }
  unfolding drain
  two_lines line d d' d'' s s' s'' h k = ground (arith, h, k)

  -- A text that is sent as the data of an event is what the caller's `emit` is called with, once,
  -- with the event's name empty, and it leaves the decoder as it was. The text has one line, does not
  -- end with a carriage return and is within the limit with its frame.
  pub feed-event_text :
      (x : Text) (m : ℕ) (s : S)
      → is_one_line x ≡ true
      → trim_cr (codes "data: " ++ x) ≡ codes "data: " ++ x
      → length (event_text x) ≤ m
      → (emit x [] s).1 ≡ none
      → feed lib emit (event_text x) (fresh m) s
        ≡ record { decoder = fresh m; state = (emit x [] s).0; failure = none }
  unfolding event_text fresh
  feed-event_text x m s one cr l ok_emit =
      let line = codes "data: " ++ x in
      let longer = length-append line (newline ∷ newline ∷ []) in
      let short : length x ≤ m = fits_text x m l in
      feed_within lib emit (event_text x) (fresh m) s (within_fresh x m l)
      ∙ (drain_one_line lib emit [] line (newline ∷ newline ∷ []) (fresh m).frame s
            (one_line_text x one)
          ∙ two_lines line (fresh m).frame
              (record { data_lines = x ∷ []; size = length x; max = m; event = [] }) (fresh m).frame
              s s (emit x [] s).0 (rw cr (data_line_taken x m s short))
              (rw blank (blank_line_taken x m s ok_emit)))
