-- ===== src/ServerTools/Fits.antt =====
-- What a pattern fits, with no search order.
use cline_pass_bridge.Base.{ℕ, ◌≡◌, refl, ◌⊎◌, inl, inr, true, false, [], ◌∷◌, arith, nat_beq}
use cline_pass_bridge.Base.Text.{Text}
use cline_pass_bridge.ServerTools.Glob.{star, only_stars}

-- A pattern with no search order: a star stands for any run of bytes, another byte for itself.
pub data Fits : Text → Text → Type 0 where
  nothing : Fits [] []
  same : {q : ℕ} {p m : Text} → nat_beq q star ≡ false → Fits p m → Fits (q ∷ p) (q ∷ m)
  stop : {q : ℕ} {p m : Text} → nat_beq q star ≡ true → Fits p m → Fits (q ∷ p) m
  grow : {q c : ℕ} {p m : Text} → nat_beq q star ≡ true → Fits (q ∷ p) m → Fits (q ∷ p) (c ∷ m)

-- The pattern behind a star.
abbrev pub Somewhere : Text → Text → Type 0
Somewhere p m = Fits (star ∷ p) m

pub only_stars_fits : (p : Text) → only_stars p ≡ true → Fits p []
unfolding only_stars
only_stars_fits [] h = nothing
only_stars_fits (q ∷ p) h = stop (ground arith) (only_stars_fits p (ground arith))

pub fits_only_stars : {p : Text} → Fits p [] → only_stars p ≡ true
unfolding only_stars
fits_only_stars nothing = refl
fits_only_stars (stop s f) = let rest = fits_only_stars f in ground arith

-- A star that has not to take a byte more, or has.
pub Somewhere-cases : {c : ℕ} {p m : Text} → Somewhere p (c ∷ m) → Fits p (c ∷ m) ⊎ Somewhere p m
Somewhere-cases (same s f) = absurd (ground arith)
Somewhere-cases (stop s f) = inl f
Somewhere-cases (grow s f) = inr f

pub somewhere_end : {p : Text} → Somewhere p [] → Fits p []
somewhere_end (stop s f) = f

pub byte_tail :
    {q c : ℕ} {p m : Text} → nat_beq q star ≡ false → Fits (q ∷ p) (c ∷ m) → (q ≡ c) × Fits p m
byte_tail n (same s f) = (refl, f)
byte_tail n (stop s f) = absurd (ground arith)
byte_tail n (grow s f) = absurd (ground arith)

byte_nonempty : {q : ℕ} {p : Text} → nat_beq q star ≡ false → Fits (q ∷ p) [] → ⊥
byte_nonempty n (stop s f) = ground arith

-- Two stars in a row are one.
pub one_star : {q : ℕ} {p m : Text} → nat_beq q star ≡ true → Somewhere (q ∷ p) m → Fits (q ∷ p) m
one_star s (same n f) = absurd (ground arith)
one_star s (stop n f) = f
one_star s (grow n f) = grow s (one_star s f)

-- Wherever a byte and the pattern after it fit, this pattern fits after the first byte.
pub past_byte :
    {q c : ℕ} {p : Text} (m : Text)
    → nat_beq q star ≡ false
    → Somewhere (q ∷ p) (c ∷ m)
    → Somewhere p m
past_byte m n (same s f) = absurd (ground arith)
past_byte m n (stop s f) = stop refl (byte_tail n f).1
past_byte [] n (grow s f) = absurd (byte_nonempty n (somewhere_end f))
past_byte (d ∷ m) n (grow s f) = grow refl (past_byte m n f)
