-- ===== src/RequestLog/Written.antt =====
-- What an append leaves in the journal's file, however its system calls end.
use cline_pass_bridge.Base.{
  ℕ, ◌≡◌, refl, ap, ◌∙◌, sym, ◌⊎◌, inl, inr, false, Option, none, some, [], ◌∷◌, ◌++◌, arith,
  Bool-cases, length, take, ltb, length-append,
}
use cline_pass_bridge.Base.Text.{Text}
use cline_pass_bridge.Faults.{Fault}
use mathlib.Core.List.{append-nil}
use cline_pass_bridge.RequestLog.Writing.{JournalEnd, joined, shortened, cut, append, write_file}
use cline_pass_bridge.RequestLog.Torn.{take-append}

-- The whole lines, or the file as it was if an error stands.
abbrev Ready : Text → Text → Text × Option Fault → Type 0
Ready lines tail (file, none) = file ≡ lines
Ready lines tail (file, some e) = file ≡ lines ++ tail

-- The batch behind the whole lines; or, with an error, the file as it was or a part of the batch.
abbrev pub Outcome : Text → Text → Text → Text × Option Fault → Type 0
Outcome lines tail batch (file, none) = file ≡ lines ++ batch
Outcome lines tail batch (file, some e) =
    (file ≡ lines ++ tail) ⊎ ((n : ℕ) × (file ≡ lines ++ take n batch))

empty_tail :
    (lines tail : Text)
    → ltb (length lines) (length (lines ++ tail)) ≡ false
    → lines ++ tail ≡ lines
empty_tail lines [] h = append-nil lines
empty_tail lines (c ∷ tail) h =
    let l = length-append lines (c ∷ tail) in absurd (ground (arith, h, l))

not_shortened :
    (lines tail : Text) (stat : Option Fault) → shortened (length lines) (lines ++ tail) stat ≡ stat
not_shortened lines tail (some e) = refl
not_shortened lines tail none = let l = length-append lines tail in ground (arith, l)

cut-Ready :
    (lines tail : Text) (stat truncating : Option Fault)
    → Ready lines tail (cut (length lines) (lines ++ tail) stat truncating)
cut-Ready lines tail none none = take-append lines tail
cut-Ready lines tail (some e) none = refl
cut-Ready lines tail (some e) (some failure) = refl
cut-Ready lines tail none (some failure) =
    elim (Bool-cases (ltb (length lines) (length (lines ++ tail)))) [
      | inl longer ↦ rw longer refl
      | inr even ↦ rw even (empty_tail lines tail even)
    ]

append-Outcome :
    (lines tail batch : Text) (p : Text × Option Fault) (seeking : Option Fault)
    (writing : Option (ℕ × Fault))
    → Ready lines tail p
    → Outcome lines tail batch (append batch (p.0, joined p.1 seeking) writing)
append-Outcome lines tail batch (file, some e) seeking writing h = inl h
append-Outcome lines tail batch (file, none) (some e) writing h =
    inr (0, h ∙ sym (append-nil lines))
append-Outcome lines tail batch (file, none) none none h = ap (λ x. x ++ batch) h
append-Outcome lines tail batch (file, none) none (some failure) h =
    inr (failure.0, ap (λ x. x ++ take failure.0 batch) h)

close-Outcome :
    (lines tail batch : Text) (p : Text × Option Fault) (closing : Option Fault)
    → Outcome lines tail batch p
    → Outcome lines tail batch (p.0, joined p.1 closing)
close-Outcome lines tail batch (file, some e) closing h = h
close-Outcome lines tail batch (file, none) none h = h
close-Outcome lines tail batch (file, none) (some e) h = inr (
  length batch,
  h
      ∙ ap (λ x. lines ++ x)
          (sym (ap (take (length batch)) (sym (append-nil batch)) ∙ take-append batch [])),
)

pub write_file-Outcome :
    (lines tail batch : Text) (ends : JournalEnd)
    → Outcome lines tail batch (write_file (length lines) batch (lines ++ tail) ends)
unfolding write_file
write_file-Outcome lines tail batch ends =
    let ready = cut (length lines) (lines ++ tail) ends.stat ends.truncating in
    rw (not_shortened lines tail ends.stat) (
      close-Outcome lines tail batch
        (append batch (ready.0, joined ready.1 ends.seeking) ends.writing) ends.closing
        (append-Outcome lines tail batch ready ends.seeking ends.writing
          (cut-Ready lines tail ends.stat ends.truncating)))

-- Every system call goes well.
abbrev pub all_well : JournalEnd
all_well = record {
  opening = none;
  stat = none;
  truncating = none;
  seeking = none;
  writing = none;
  closing = none;
}

pub write_file-well :
    (lines tail batch : Text) → (write_file (length lines) batch (lines ++ tail) all_well).1 ≡ none
unfolding write_file
write_file-well lines tail batch = rw (not_shortened lines tail none) refl
