-- ===== src/Base/Text.antt =====
-- Messages as lists of code points, which the program walks byte by byte; names are `String`s.
use Prim.Native.Char.{code}
use cline_pass_bridge.Base.{
  ℕ, zero, suc, ◌+◌, ◌/◌, ◌%◌, String, ◌≡◌, refl, Bool, true, false, ◌&&◌, ◌||◌, List, [], ◌∷◌,
  ◌++◌, arith, nat_beq, ltb, if◌then◌else◌,
}

abbrev pub Text : Type 0
Text = List ℕ

-- The code points of a literal.
abbrev pub codes : String → Text
codes String.[] = []
codes (String.◌∷◌ c s) = code c ∷ codes s

-- strings.HasPrefix(s, p)
abbrev pub has_prefix : Text → Text → Bool
has_prefix [] s = true
has_prefix (c ∷ p) [] = false
has_prefix (c ∷ p) (d ∷ s) = nat_beq c d && has_prefix p s

-- strings.Contains(s, p)
unfoldable pub contains : Text → Text → Bool
contains p [] = has_prefix p []
contains p (d ∷ s) = has_prefix p (d ∷ s) || contains p s

-- Decimal digits, with fuel; `n + 1` rounds are always enough.
pub digits_of : ℕ → ℕ → Text → Text
digits_of zero n acc = acc
digits_of (suc f) n acc =
    let shown = (48 + n % 10) ∷ acc in
    let rest = digits_of f (n / 10) shown in if ltb n 10 then shown else rest

-- %d
unfoldable pub decimal : ℕ → Text
unfolding digits_of
decimal n = digits_of (suc n) n []

has_prefix-append : (p s : Text) → has_prefix p (p ++ s) ≡ true
has_prefix-append [] s = refl
has_prefix-append (c ∷ p) s = ground (arith, has_prefix-append p s)

-- A text that begins with a marker contains it.
pub contains-append : (p s : Text) → contains p (p ++ s) ≡ true
unfolding contains
contains-append [] [] = refl
contains-append [] (c ∷ s) = refl
contains-append (c ∷ p) s = ground (arith, has_prefix-append (c ∷ p) s)

decimal_example : decimal 1207 ≡ codes "1207"
unfolding decimal
decimal_example = refl
