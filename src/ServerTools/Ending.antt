-- ===== src/ServerTools/Ending.antt =====
-- The end of the matcher's loop, whatever bytes the pattern and the model have.
use cline_pass_bridge.Base.{
  ℕ, zero, suc, ◌+◌, ◌*◌, ◌≤◌, ◌<◌, ◌≡◌, refl, inl, inr, true, [], ◌∷◌, arith, nat_beq, length,
  Bool-cases, is_some,
}
use cline_pass_bridge.Base.Text.{Text}
use cline_pass_bridge.ServerTools.Glob.{
  star, Passed, nowhere, after, fall_back, turn, go_on, match_loop, run_match, trimmed_matches,
}

-- What the last star remembers is no longer than the room for the model and the pattern.
abbrev Bounded : ℕ → ℕ → Text → Passed → Type 0
Bounded k room m nowhere = Unit
Bounded k room m (after ps r) = (length m ≤ length r) × (length r ≤ room) × (length ps < k)

abbrev Ends : ℕ → ℕ → Type 0
Ends k fuel =
    (room : ℕ) (p m : Text) (passed : Passed)
    → Bounded k room m passed
    → length m ≤ room
    → length p < k
    → room * k + length p < fuel
    → is_some (match_loop fuel p m passed) ≡ true

fall_back-Ends :
    (k room fuel c : ℕ) (m : Text) (passed : Passed)
    → Ends k fuel
    → room * k ≤ fuel
    → Bounded k room (c ∷ m) passed
    → is_some (go_on (match_loop fuel) (fall_back passed)) ≡ true
unfolding fall_back go_on
fall_back-Ends k room fuel c m nowhere next b h = refl
fall_back-Ends k room fuel c m (after ps []) next b h = refl
fall_back-Ends k zero fuel c m (after ps (x ∷ r)) next b h = absurd (omega (arith, h))
fall_back-Ends k (suc room) fuel c m (after ps (x ∷ r)) next b (shorter, fits, small) =
    next room ps r (after ps r) (omega arith, omega arith, small) (omega arith) small (omega arith)

Bounded-tail :
    (k room c : ℕ) (m : Text) (passed : Passed)
    → Bounded k room (c ∷ m) passed
    → Bounded k room m passed
Bounded-tail k room c m nowhere h = tt
Bounded-tail k room c m (after ps r) (shorter, fits, small) = (omega arith, fits, small)

match_loop-Ends : (k fuel : ℕ) → Ends k fuel
unfolding match_loop turn go_on
match_loop-Ends k zero room p m passed h l small f = absurd (omega arith)
match_loop-Ends k (suc fuel) room p [] passed h l small f = refl
match_loop-Ends k (suc fuel) room [] (c ∷ m) passed h l small f =
    fall_back-Ends k room fuel c m passed (match_loop-Ends k fuel) (omega arith) h
match_loop-Ends k (suc fuel) room (q ∷ p) (c ∷ m) passed h l small f =
    elim (Bool-cases (nat_beq q c)) [
      | inl equal ↦ rw equal (
          match_loop-Ends k fuel room p m passed (Bounded-tail k room c m passed h) (omega arith)
            (omega arith) (omega arith))
      | inr other ↦ elim (Bool-cases (nat_beq q star)) [
        | inl starred ↦
            rw (other, starred)
              (match_loop-Ends k fuel room p (c ∷ m) (after p (c ∷ m)) (omega arith, l, omega arith)
                l (omega arith) (omega arith))
        | inr literal ↦
            rw (other, literal)
              (fall_back-Ends k room fuel c m passed (match_loop-Ends k fuel) (omega arith) h)
      ]
    ]

run_match_ends : (p m : Text) → is_some (run_match p m) ≡ true
unfolding run_match
run_match_ends p m =
    match_loop-Ends (length p + 1) ((length m + 1) * (length p + 1)) (length m) p m nowhere tt
      (omega arith) (omega arith) (omega arith)

-- The matcher ends on every pattern and every model.
pub trimmed_matches_ends : (p m : Text) → is_some (trimmed_matches p m) ≡ true
unfolding trimmed_matches
trimmed_matches_ends [] m = refl
trimmed_matches_ends (q ∷ p) [] = refl
trimmed_matches_ends (q ∷ p) (c ∷ m) = ground (arith, run_match_ends (q ∷ p) (c ∷ m))
