-- ===== src/ServerTools/Matching.antt =====
-- What the matcher's loop decides.
use mathlib.Core.Path.{subst}
use cline_pass_bridge.Base.{
  ℕ, zero, suc, ◌+◌, ◌*◌, ◌≤◌, ◌<◌, ◌≡◌, ◌≢◌, refl, sym, ◌⊎◌, inl, inr, Bool, true, false, not,
  Option, none, some, [], ◌∷◌, arith, nat_beq, nat_beq_iff, length, any, Bool-cases,
}
use cline_pass_bridge.Base.Text.{Text}
use cline_pass_bridge.ServerTools.Glob.{
  star, Passed, nowhere, after, only_stars, fall_back, turn, go_on, match_loop, run_match,
  trimmed_matches,
}
use cline_pass_bridge.ServerTools.Fits.{
  Fits, nothing, same, stop, grow, Somewhere, only_stars_fits, fits_only_stars, Somewhere-cases,
  somewhere_end, byte_tail, one_star, past_byte,
}

-- The ways that are left to the last star, after it has been tried where it stands.
abbrev Later : Passed → Type 0
Later nowhere = ⊥
Later (after ps []) = ⊥
Later (after ps (x ∷ r)) = Somewhere ps r

-- What the loop looks for in a state.
abbrev Sought : Text → Text → Passed → Type 0
Sought p m passed = Fits p m ⊎ Later passed

-- A text without a star.
abbrev pub is_plain : Text → Bool
is_plain m = not (any (λ c. nat_beq c star) m)

-- What the last star promises in a state, with `room` for the model's rest and patterns below `k`.
abbrev Promise : ℕ → ℕ → Text → Text → Passed → Type 0
Promise k room p m nowhere = Unit
Promise k room p m (after ps r) =
    (Later (after ps r) → Somewhere p m)
    × (is_plain r ≡ true)
    × (length m ≤ length r)
    × (length r ≤ room)
    × (length ps < k)

-- The loop ended, with the answer to a question.
abbrev pub Decides : Type 0 → Option Bool → Type 0
Decides G none = ⊥
Decides G (some true) = G
Decides G (some false) = G → ⊥

Decides-iff : {G H : Type 0} (o : Option Bool) → (G → H) → (H → G) → Decides G o → Decides H o
Decides-iff none f g d = d
Decides-iff (some true) f g d = f d
Decides-iff (some false) f g d = λ h. d (g h)

only_stars-Decides :
    (p : Text) (G : Type 0) → (Fits p [] → G) → (G → Fits p []) → Decides G (some (only_stars p))
only_stars-Decides p G f g = elim (Bool-cases (only_stars p)) [
  | inl ends ↦ rw ends (f (only_stars_fits p ends))
  | inr other ↦ rw other (λ h. ground (arith, fits_only_stars (g h)))
]

-- At the end of the model.
end-Decides :
    (k room : ℕ) (p : Text) (passed : Passed)
    → Promise k room p [] passed
    → Decides (Sought p [] passed) (some (only_stars p))
end-Decides k room p nowhere h =
    only_stars-Decides p (Sought p [] nowhere) (λ f. inl f)
      (λ s. elim s [ inl f ↦ f | inr n ↦ absurd n ])
end-Decides k room p (after ps r) h =
    only_stars-Decides p (Sought p [] (after ps r)) (λ f. inl f)
      (λ s. elim s [ inl f ↦ f | inr n ↦ somewhere_end (h.0 n) ])

-- What remains to look for when the last star takes one more byte.
grown : (ps : Text) (r : Text) → Sought ps r (after ps r) → Somewhere ps r
grown ps [] (inl f) = stop refl f
grown ps [] (inr n) = absurd n
grown ps (x ∷ r) (inl f) = stop refl f
grown ps (x ∷ r) (inr n) = grow refl n

ungrown : (ps : Text) (r : Text) → Somewhere ps r → Sought ps r (after ps r)
ungrown ps [] s = inl (somewhere_end s)
ungrown ps (x ∷ r) s = Somewhere-cases s

Later-grows : (ps r : Text) → Later (after ps r) → Somewhere ps r
Later-grows ps [] n = absurd n
Later-grows ps (x ∷ r) n = grow refl n

abbrev Next : ℕ → ℕ → Type 0
Next k fuel =
    (room : ℕ) (p m : Text) (passed : Passed)
    → Promise k room p m passed
    → is_plain m ≡ true
    → length m ≤ room
    → length p < k
    → room * k + length p < fuel
    → Decides (Sought p m passed) (match_loop fuel p m passed)

fall_back-Decides :
    (k room fuel c : ℕ) (p m : Text) (passed : Passed)
    → Next k fuel
    → room * k ≤ fuel
    → Promise k room p (c ∷ m) passed
    → (Fits p (c ∷ m) → ⊥)
    → Decides (Sought p (c ∷ m) passed) (go_on (match_loop fuel) (fall_back passed))
unfolding fall_back go_on
fall_back-Decides k room fuel c p m nowhere next b h unfit =
    λ s. elim s [ inl f ↦ unfit f | inr n ↦ n ]
fall_back-Decides k room fuel c p m (after ps []) next b h unfit = absurd (omega (arith, h))
fall_back-Decides k zero fuel c p m (after ps (x ∷ r)) next b h unfit = absurd (omega (arith, h))
fall_back-Decides k (suc room) fuel c p m (after ps (x ∷ r)) next b h unfit =
    let (keeps, plain, shorter, fits, small) = h in
    Decides-iff (match_loop fuel ps r (after ps r)) (λ s. inr (grown ps r s))
      (λ s. elim s [ inl f ↦ absurd (unfit f) | inr n ↦ ungrown ps r n ])
      (next room ps r (after ps r) (Later-grows ps r, ground arith, omega arith, omega arith, small)
        (ground arith) (omega arith) small (omega arith))

-- A byte that fits: the promise holds after it.
Promise-byte :
    (k room c : ℕ) (p m : Text) (passed : Passed)
    → nat_beq c star ≡ false
    → Promise k room (c ∷ p) (c ∷ m) passed
    → Promise k room p m passed
Promise-byte k room c p m nowhere n h = tt
Promise-byte k room c p m (after ps r) n (keeps, plain, shorter, fits, small) =
    (λ l. past_byte m n (keeps l), plain, omega arith, fits, small)

byte-Decides :
    (k room fuel c : ℕ) (p m : Text) (passed : Passed)
    → Next k fuel
    → nat_beq c star ≡ false
    → Promise k room (c ∷ p) (c ∷ m) passed
    → is_plain m ≡ true
    → length m ≤ room
    → length p < k
    → room * k + length p < fuel
    → Decides (Sought (c ∷ p) (c ∷ m) passed) (match_loop fuel p m passed)
byte-Decides k room fuel c p m passed next n h plain l small f =
    Decides-iff (match_loop fuel p m passed)
      (λ s. elim s [ inl t ↦ inl (same n t) | inr t ↦ inr t ])
      (λ s. elim s [ inl t ↦ inl (byte_tail n t).1 | inr t ↦ inr t ])
      (next room p m passed (Promise-byte k room c p m passed n h) plain l small f)

-- Every way that was left to an earlier star is left to a new one.
star_covers :
    (k room q : ℕ) (p m : Text) (passed : Passed)
    → nat_beq q star ≡ true
    → Promise k room (q ∷ p) m passed
    → Sought (q ∷ p) m passed
    → Somewhere p m
star_covers k room q p m passed s h (inl t) =
    subst (λ x. Fits (x ∷ p) m) ((nat_beq_iff q star).0 s) t
star_covers k room q p m nowhere s h (inr n) = absurd n
star_covers k room q p m (after ps r) s h (inr n) =
    subst (λ x. Fits (x ∷ p) m) ((nat_beq_iff q star).0 s) (one_star s (h.0 n))

star-Decides :
    (k room fuel q c : ℕ) (p m : Text) (passed : Passed)
    → Next k fuel
    → nat_beq q star ≡ true
    → Promise k room (q ∷ p) (c ∷ m) passed
    → is_plain (c ∷ m) ≡ true
    → length (c ∷ m) ≤ room
    → length p < k
    → room * k + length p < fuel
    → Decides (Sought (q ∷ p) (c ∷ m) passed) (match_loop fuel p (c ∷ m) (after p (c ∷ m)))
star-Decides k room fuel q c p m passed next s h plain l small f =
    Decides-iff (match_loop fuel p (c ∷ m) (after p (c ∷ m)))
      (λ t.
        inl
          (subst (λ x. Fits (x ∷ p) (c ∷ m)) (sym ((nat_beq_iff q star).0 s)) (grown p (c ∷ m) t)))
      (λ t. ungrown p (c ∷ m) (star_covers k room q p (c ∷ m) passed s h t))
      (next room p (c ∷ m) (after p (c ∷ m)) (Later-grows p (c ∷ m), plain, omega arith, l, small)
        plain l small f)

same_byte :
    (k room fuel q c : ℕ) (p m : Text) (passed : Passed)
    → Next k fuel
    → q ≡ c
    → Promise k room (q ∷ p) (c ∷ m) passed
    → is_plain (c ∷ m) ≡ true
    → length m ≤ room
    → length p < k
    → room * k + length p < fuel
    → Decides (Sought (q ∷ p) (c ∷ m) passed) (match_loop fuel p m passed)
same_byte k room fuel q c p m passed next alike h plain l small f =
    subst (λ x. Decides (Sought (x ∷ p) (c ∷ m) passed) (match_loop fuel p m passed)) (sym alike)
      (byte-Decides k room fuel c p m passed next (ground arith)
        (subst (λ x. Promise k room (x ∷ p) (c ∷ m) passed) alike h) (ground arith) l small f)

match_loop_decides : (k fuel : ℕ) → Next k fuel
unfolding match_loop turn go_on only_stars
match_loop_decides k zero room p m passed h plain l small f = absurd (omega arith)
match_loop_decides k (suc fuel) room p [] passed h plain l small f = end-Decides k room p passed h
match_loop_decides k (suc fuel) room [] (c ∷ m) passed h plain l small f =
    fall_back-Decides k room fuel c [] m passed (match_loop_decides k fuel) (omega arith) h
      (λ t. elim t [ ])
match_loop_decides k (suc fuel) room (q ∷ p) (c ∷ m) passed h plain l small f =
    elim (Bool-cases (nat_beq q c)) [
      | inl equal ↦ rw equal (
          same_byte k room fuel q c p m passed (match_loop_decides k fuel)
            ((nat_beq_iff q c).0 equal) h plain (omega arith) (omega arith) (omega arith))
      | inr other ↦ elim (Bool-cases (nat_beq q star)) [
        | inl starred ↦
            rw (other, starred)
              (star-Decides k room fuel q c p m passed (match_loop_decides k fuel) starred h plain l
                (omega arith) (omega arith))
        | inr literal ↦
            rw (other, literal)
              (fall_back-Decides k room fuel c (q ∷ p) m passed (match_loop_decides k fuel)
                (omega arith) h (λ t. ground (arith, (byte_tail literal t).0, nat_beq_iff q c)))
      ]
    ]

run_match-Decides : (p m : Text) → is_plain m ≡ true → Decides (Fits p m) (run_match p m)
unfolding run_match
run_match-Decides p m plain =
    Decides-iff (match_loop ((length m + 1) * (length p + 1)) p m nowhere)
      (λ s. elim s [ inl f ↦ f | inr n ↦ absurd n ]) (λ f. inl f)
      (match_loop_decides (length p + 1) ((length m + 1) * (length p + 1)) (length m) p m nowhere tt
        plain (omega arith) (omega arith) (omega arith))

any_fits : {q : ℕ} (m : Text) → nat_beq q star ≡ true → Fits (q ∷ []) m
any_fits [] s = stop s nothing
any_fits (c ∷ m) s = grow s (any_fits m s)

-- The matcher ends, and for a pattern and a model that are not empty and a model without a '*' it
-- answers whether the pattern fits the model, with any run of bytes in a star's place.
pub trimmed_matches_lem :
    (p m : Text) → p ≢ [] → m ≢ [] → is_plain m ≡ true → Decides (Fits p m) (trimmed_matches p m)
unfolding trimmed_matches
trimmed_matches_lem [] m p_some m_some plain = absurd (p_some refl)
trimmed_matches_lem (q ∷ p) [] p_some m_some plain = absurd (m_some refl)
trimmed_matches_lem (q ∷ []) (c ∷ m) p_some m_some plain = elim (Bool-cases (nat_beq q star)) [
  | inl s ↦ rw s (any_fits (c ∷ m) s)
  | inr n ↦ rw n (run_match-Decides (q ∷ []) (c ∷ m) plain)
]
trimmed_matches_lem (q ∷ r ∷ p) (c ∷ m) p_some m_some plain = elim (Bool-cases (nat_beq q star)) [
  | inl s ↦ rw s (run_match-Decides (q ∷ r ∷ p) (c ∷ m) plain)
  | inr n ↦ rw n (run_match-Decides (q ∷ r ∷ p) (c ∷ m) plain)
]
