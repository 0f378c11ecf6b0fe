-- ===== src/Sse/Chunks.antt =====
-- The boundaries of the network's chunks (internal/bridge/sse.go: Feed).
use cline_pass_bridge.Base.{
  ℕ, ◌+◌, ◌≤◌, ◌≡◌, refl, sym, ap, ◌∙◌, Bool, true, false, not, Option, none, some, [], ◌∷◌, ◌++◌,
  arith, nat_beq, nat_eq, length, Bool-cases, Option-cases, inl, inr, length-append, all,
}
use mathlib.Core.List.{append_assoc, append-nil}
use cline_pass_bridge.Base.Text.{Text}
use cline_pass_bridge.Faults.{Fault}
use cline_pass_bridge.Sse.{
  Decoder, Frame, emitted, SpaceLib, Fed, newline, trim_cr, add_data, set_event, clear, end_frame,
  take_line, drain, feed, join_lines,
}

-- A text without an end of line.
abbrev pub is_one_line : Text → Bool
is_one_line s = all (λ c. not (nat_beq c newline)) s

is_one_line-append :
    (s : Text) (c : ℕ)
    → is_one_line s ≡ true
    → nat_beq c newline ≡ false
    → is_one_line (s ++ c ∷ []) ≡ true
is_one_line-append [] c h n = ground arith
is_one_line-append (x ∷ s) c h n = let rest = is_one_line-append s c in ground arith

-- Longer text of an unfinished buffer.
abbrev pub lengthen {ℓ} : {S : Type ℓ} → Text → Fed S → Fed S
lengthen y r = record r { decoder = record r.decoder { buffer = r.decoder.buffer ++ y } }

module _ {ℓ} {S : Type ℓ} (lib : SpaceLib) (emit : Text → Text → S → S × Option Fault) where
  -- The rest of the bytes, after what the loop has made of the first ones: after an error they only
  -- lengthen the buffer.
  resume : Text → Fed S → Option Fault → Fed S
  resume y r none = drain lib emit r.decoder.buffer y r.decoder.frame r.state
  resume y r (some e) = lengthen y r

  drain-append :
      (line x y : Text) (d : Frame) (s : S)
      → drain lib emit line (x ++ y) d s
        ≡ resume y (drain lib emit line x d s) (drain lib emit line x d s).failure
  unfolding drain resume
  drain-append line [] y d s = refl
  drain-append line (c ∷ x) y d s = elim (Bool-cases (nat_beq c newline)) [
    | inl ends ↦
        let r = take_line lib emit (trim_cr line) d s in
        elim (Option-cases r.failure) [
          | inl fine ↦
              let rest = drain-append [] x y r.frame r.state in ground (arith, ends, fine, rest)
          | inr (e, failed) ↦ ground (arith, ends, failed)
        ]
    | inr goes ↦ let rest = drain-append (line ++ c ∷ []) x y d s in ground (arith, goes, rest)
  ]

  pub drain_one_line :
      (line z y : Text) (d : Frame) (s : S)
      → is_one_line z ≡ true
      → drain lib emit line (z ++ y) d s ≡ drain lib emit (line ++ z) y d s
  unfolding drain
  drain_one_line line [] y d s h = ap (λ l. drain lib emit l y d s) (sym (append-nil line))
  drain_one_line line (c ∷ z) y d s h =
      let rest = drain_one_line (line ++ c ∷ []) z y d s in
      let regroup : (line ++ c ∷ []) ++ z ≡ line ++ c ∷ z = append_assoc line (c ∷ []) z in
      rw⁻¹ regroup (ground arith)

  -- What the loop leaves in the buffer is one line, and no longer than what it was given.
  drain-left :
      (line x : Text) (d : Frame) (s : S)
      → is_one_line line ≡ true
      → (drain lib emit line x d s).failure ≡ none
      → is_one_line (drain lib emit line x d s).decoder.buffer ≡ true
  unfolding drain
  drain-left line [] d s h f = h
  drain-left line (c ∷ x) d s h f = elim (Bool-cases (nat_beq c newline)) [
    | inl ends ↦
        let r = take_line lib emit (trim_cr line) d s in
        elim (Option-cases r.failure) [
          | inl fine ↦
              let rest = drain-left [] x r.frame r.state refl in ground (arith, ends, fine, rest)
          | inr (e, failed) ↦ ground (arith, ends, failed)
        ]
    | inr goes ↦
        let rest = drain-left (line ++ c ∷ []) x d s (is_one_line-append line c h goes) in
        ground (arith, goes, rest)
  ]

  pub drain-length :
      (line x : Text) (d : Frame) (s : S)
      → length (drain lib emit line x d s).decoder.buffer ≤ length line + length x
  unfolding drain
  drain-length line [] d s = omega arith
  drain-length line (c ∷ x) d s = elim (Bool-cases (nat_beq c newline)) [
    | inl ends ↦
        let r = take_line lib emit (trim_cr line) d s in
        let rest = drain-length [] x r.frame r.state in
        elim (Option-cases r.failure) [
          | inl fine ↦ ground (arith, ends, fine, rest)
          | inr (e, failed) ↦ ground (arith, ends, failed)
        ]
    | inr goes ↦
        let rest = drain-length (line ++ c ∷ []) x d s in
        let size = length-append line (c ∷ []) in ground (arith, goes, rest, size)
  ]

  emitted-max : (d : Frame) (r : S × Option Fault) → (emitted lib emit d r).frame.max ≡ d.max
  unfolding emitted clear
  emitted-max d (s, none) = refl
  emitted-max d (s, some e) = refl

  take_line-max :
      (line : Text) (d : Frame) (s : S) → (take_line lib emit line d s).frame.max ≡ d.max
  unfolding take_line end_frame add_data set_event clear
  take_line-max line d s = ground (arith, emitted-max d (emit (join_lines d.data_lines) d.event s))

  pub drain-max :
      (line x : Text) (d : Frame) (s : S) → (drain lib emit line x d s).decoder.frame.max ≡ d.max
  unfolding drain
  drain-max line [] d s = refl
  drain-max line (c ∷ x) d s = elim (Bool-cases (nat_beq c newline)) [
    | inl ends ↦
        let r = take_line lib emit (trim_cr line) d s in
        let same = take_line-max (trim_cr line) d s in
        let rest = drain-max [] x r.frame r.state in
        elim (Option-cases r.failure) [
          | inl fine ↦ ground (arith, ends, fine, rest, same)
          | inr (e, failed) ↦ ground (arith, ends, failed, same)
        ]
    | inr goes ↦ let rest = drain-max (line ++ c ∷ []) x d s in ground (arith, goes, rest)
  ]

  -- A second chunk: the caller stops at the first error, and the bytes are only kept.
  pub feed_next : Text → Fed S → Option Fault → Fed S
  feed_next b r none = feed lib emit b r.decoder r.state
  feed_next b r (some e) = lengthen b r

  pub feed_within :
      (b : Text) (d : Decoder) (s : S)
      → length (d.buffer ++ b) ≤ d.frame.max
      → feed lib emit b d s ≡ drain lib emit [] (d.buffer ++ b) d.frame s
  unfolding feed
  feed_within b d s l = ground arith

  resume_feeds :
      (b : Text) (r : Fed S) (o : Option Fault)
      → (o ≡ none → is_one_line r.decoder.buffer ≡ true)
      → length (r.decoder.buffer ++ b) ≤ r.decoder.frame.max
      → resume b r o ≡ feed_next b r o
  unfolding resume feed_next
  resume_feeds b r none h l =
      sym (drain_one_line [] r.decoder.buffer b r.decoder.frame r.state (h refl))
      ∙ sym (feed_within b r.decoder r.state l)
  resume_feeds b r (some e) h l = refl

  -- Feeding bytes in two chunks does what feeding them at once does: the same calls of `emit` in the
  -- same order, the same decoder and the same error, wherever the cut is. The condition is that all
  -- the bytes fit the buffer at once.
  pub feed-append :
      (a b : Text) (d : Decoder) (s : S)
      → is_one_line d.buffer ≡ true
      → length (d.buffer ++ (a ++ b)) ≤ d.frame.max
      → feed lib emit (a ++ b) d s ≡ feed_next b (feed lib emit a d s) (feed lib emit a d s).failure
  feed-append a b d s one l =
      let all_of = length-append d.buffer (a ++ b) in
      let of_a = length-append d.buffer a in
      let of_ab = length-append a b in
      let r = drain lib emit [] (d.buffer ++ a) d.frame s in
      let left = drain-length [] (d.buffer ++ a) d.frame s in
      let of_left = length-append r.decoder.buffer b in
      let same_max = drain-max [] (d.buffer ++ a) d.frame s in
      let first : feed lib emit a d s ≡ r = feed_within a d s (omega arith) in
      rw first (
        feed_within (a ++ b) d s l
        ∙ (ap (λ x. drain lib emit [] x d.frame s) (sym (append_assoc d.buffer a b))
            ∙ (drain-append [] (d.buffer ++ a) b d.frame s
                ∙ resume_feeds b r r.failure (drain-left [] (d.buffer ++ a) d.frame s refl)
                    (omega arith))))
