-- ===== src/ServerTools/Glob.antt =====
-- The glob matcher of the rules (internal/bridge/server_tools.go: modelPatternMatches). The code's
-- indices into pattern and model are the rests of the two texts that start there.
use cline_pass_bridge.Base.{
  is_empty, ℕ, zero, suc, ◌+◌, ◌*◌, Bool, true, false, ◌&&◌, Option, none, some, [], ◌∷◌, nat_beq,
  if◌then◌else◌, length,
}
use cline_pass_bridge.Base.Text.{Text}

abbrev pub star : ℕ
star = 42

-- The last star that was passed: the pattern after it, and the model's rest where it would resume.
pub data Passed : Type 0 where
  nowhere : Passed
  after : Text → Text → Passed

-- `for p < len(pattern) && pattern[p] == '*' { p++ }; return p == len(pattern)`
unfoldable pub only_stars : Text → Bool
only_stars [] = true
only_stars (q ∷ p) = nat_beq q star && only_stars p

-- A step of the loop: an answer, or the next state.
pub data Turn : Type 0 where
  answer : Bool → Turn
  again : Text → Text → Passed → Turn

-- Neither the byte nor a star fits: the last star takes one more byte.
unfoldable pub fall_back : Passed → Turn
fall_back nowhere = answer false
fall_back (after ps []) = answer (only_stars ps)
fall_back (after ps (x ∷ r)) = again ps r (after ps r)

unfoldable pub turn : Text → Text → Passed → Turn
turn p [] passed = answer (only_stars p)
turn [] (c ∷ m) passed = fall_back passed
turn (q ∷ p) (c ∷ m) passed =
    if nat_beq q c
    then again p m passed
    else if nat_beq q star
    then again p (c ∷ m) (after p (c ∷ m))
    else fall_back passed

-- The loop with fuel; `none` is a loop that has not ended.
unfoldable pub go_on : (Text → Text → Passed → Option Bool) → Turn → Option Bool
go_on next (answer b) = some b
go_on next (again p m passed) = next p m passed

unfoldable pub match_loop : ℕ → Text → Text → Passed → Option Bool
match_loop zero p m passed = none
match_loop (suc fuel) p m passed = go_on (match_loop fuel) (turn p m passed)

-- The loop with enough fuel, on the trimmed texts.
unfoldable pub run_match : Text → Text → Option Bool
run_match p m = match_loop ((length m + 1) * (length p + 1)) p m nowhere

-- modelPatternMatches after the two calls of TrimSpace; the case of the pattern "*" alone is the
-- code's shortcut.
unfoldable pub trimmed_matches : Text → Text → Option Bool
trimmed_matches [] m = some false
trimmed_matches (q ∷ p) [] = some false
trimmed_matches (q ∷ p) (c ∷ m) =
    if nat_beq q star && is_empty p then some true else run_match (q ∷ p) (c ∷ m)
