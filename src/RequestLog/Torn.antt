-- ===== src/RequestLog/Torn.antt =====
-- Writes that were torn.
use cline_pass_bridge.Base.{
  ℕ, zero, suc, ◌≡◌, refl, ap, ◌∙◌, sym, ◌⊎◌, inl, inr, false, List, [], ◌∷◌, ◌++◌, arith, length,
  take,
}
use cline_pass_bridge.Base.Text.{Text}
use mathlib.Core.List.{append_assoc}
use cline_pass_bridge.RequestLog.Store.{RequestLogEvent, StoreLib, newline}
use cline_pass_bridge.RequestLog.Writing.{journal_lines}
use cline_pass_bridge.RequestLog.Lines.{has_newline}

pub take-append : (x y : Text) → take (length x) (x ++ y) ≡ x
take-append [] [] = refl
take-append [] (c ∷ y) = refl
take-append (c ∷ x) y = ap (λ t. c ∷ t) (take-append x y)

take-nothing : (n : ℕ) → take {A = ℕ} n [] ≡ []
take-nothing zero = refl
take-nothing (suc n) = refl

-- The cut is inside the first text, or a whole number of bytes behind it.
take-cases :
    (n : ℕ) (x : Text) (c : ℕ) (y : Text)
    → has_newline x ≡ false
    → (has_newline (take n (x ++ c ∷ y)) ≡ false)
      ⊎ ((m : ℕ) × (take n (x ++ c ∷ y) ≡ x ++ c ∷ take m y))
take-cases zero x c y h = inl refl
take-cases (suc n) [] c y h = inr (n, refl)
take-cases (suc n) (d ∷ x) c y h = elim (take-cases n x c y (ground (arith, h))) [
  | inl inside ↦ inl (ground (arith, h, inside))
  | inr behind ↦ inr (behind.0, ap (λ t. d ∷ t) behind.1)
]

pub record TornAt (lib : StoreLib) (events : List RequestLogEvent) (b : Text) : Type 0 where
  pub whole : List RequestLogEvent
  pub lost : List RequestLogEvent
  pub tail : Text
  pub all : events ≡ whole ++ lost
  pub bytes : b ≡ journal_lines lib whole ++ tail
  pub open_end : has_newline tail ≡ false

module _ (lib : StoreLib)
    (one_line : (event : RequestLogEvent) → has_newline (lib.encode_event event) ≡ false) where
  pub torn :
      (n : ℕ) (events : List RequestLogEvent)
      → TornAt lib events (take n (journal_lines lib events))
  unfolding journal_lines
  torn n [] = record {
    whole = [];
    lost = [];
    tail = [];
    all = refl;
    bytes = take-nothing n;
    open_end = refl;
  }
  torn n (event ∷ events) =
      elim (take-cases n (lib.encode_event event) newline (journal_lines lib events)
        (one_line event)) [
          | inl inside ↦ record {
            whole = [];
            lost = event ∷ events;
            tail = take n (lib.encode_event event ++ newline ∷ journal_lines lib events);
            all = refl;
            bytes = refl;
            open_end = inside;
          }
          | inr behind ↦
              let rest = torn behind.0 events in
              record {
                whole = event ∷ rest.whole;
                lost = rest.lost;
                tail = rest.tail;
                all = ap (λ x. event ∷ x) rest.all;
                bytes =
                    behind.1
                    ∙ ap (λ x. lib.encode_event event ++ newline ∷ x) rest.bytes
                    ∙ sym (
                        append_assoc (lib.encode_event event)
                          (newline ∷ journal_lines lib rest.whole) rest.tail);
                open_end = rest.open_end;
              }
        ]
