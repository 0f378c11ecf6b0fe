-- ===== src/Quota/Covers.antt =====
-- A limit that stands for another: the same type, and a reset that is not earlier.
use cline_pass_bridge.Base.{
  ℕ, ◌≡◌, refl, Bool, true, false, ◌&&◌, ◌||◌, Option, none, some, List, [], ◌∷◌, arith, eq_iff,
  leb, ◌==◌, nat_eq, string_eq, if◌then◌else◌, any, All, Bool-cases, inl, inr, beq_refl,
}
use cline_pass_bridge.Quota.{QuotaBlockLimit, precedes, replaces, set_limit, set_limits}

-- A time that is not before another one, if that one is known.
abbrev pub not_before : Option ℕ → Option ℕ → Bool
not_before none o = true
not_before (some t) none = false
not_before (some t) (some u) = leb t u

pub not_before_refl : (o : Option ℕ) → not_before o o ≡ true
not_before_refl none = refl
not_before_refl (some t) = ground arith

pub not_before_trans :
    (a b c : Option ℕ) → not_before a b ≡ true → not_before b c ≡ true → not_before a c ≡ true
not_before_trans none b c h k = refl
not_before_trans (some t) none c h k = ground arith
not_before_trans (some t) (some u) none h k = ground arith
not_before_trans (some t) (some u) (some v) h k = ground arith

replaced : (old next : Option ℕ) → not_before old (if replaces old next then next else old) ≡ true
replaced none next = refl
replaced (some t) none = ground arith
replaced (some t) (some u) = ground arith

replacing : (old next : Option ℕ) → not_before next (if replaces old next then next else old) ≡ true
replacing none next = not_before_refl next
replacing (some t) none = refl
replacing (some t) (some u) = ground arith

-- A limit that a list of limits keeps up, with a reset that is not earlier.
abbrev pub covers : QuotaBlockLimit → QuotaBlockLimit → Bool
covers l m = m.kind == l.kind && not_before l.resets_at m.resets_at

abbrev pub is_covered : List QuotaBlockLimit → QuotaBlockLimit → Bool
is_covered ms l = any (covers l) ms

abbrev chosen : QuotaBlockLimit → QuotaBlockLimit → QuotaBlockLimit
chosen m l = if replaces m.resets_at l.resets_at then l else m

chosen_reset :
    (m l : QuotaBlockLimit)
    → (chosen m l).resets_at
      ≡ (if replaces m.resets_at l.resets_at then l.resets_at else m.resets_at)
chosen_reset m l = ground arith

covers_new : (m l : QuotaBlockLimit) → (m.kind == l.kind) ≡ true → covers l (chosen m l) ≡ true
covers_new m l h =
    ground (arith, replacing m.resets_at l.resets_at, beq_refl l.kind, chosen_reset m l)

covers_old :
    (k m l : QuotaBlockLimit)
    → (m.kind == l.kind) ≡ true
    → covers k m ≡ true
    → covers k (chosen m l) ≡ true
covers_old k m l h c = ground (
  arith,
  eq_iff m.kind l.kind,
  eq_iff m.kind k.kind,
  eq_iff l.kind k.kind,
  replaced m.resets_at l.resets_at,
  not_before_trans k.resets_at m.resets_at l.resets_at,
)

covers_refl : (l : QuotaBlockLimit) → covers l l ≡ true
covers_refl l = ground (arith, beq_refl l.kind, not_before_refl l.resets_at)

or_right : (a b : Bool) → b ≡ true → (a || b) ≡ true
or_right a b h = ground arith

or_mono :
    (a a' b b' : Bool)
    → (a ≡ true → a' ≡ true)
    → (b ≡ true → b' ≡ true)
    → (a || b) ≡ true
    → (a' || b') ≡ true
or_mono a a' b b' f g h = ground (arith, f, g)

set_limit_new :
    (l : QuotaBlockLimit) (ms : List QuotaBlockLimit) → is_covered (set_limit l ms) l ≡ true
unfolding set_limit
set_limit_new l [] = rw (covers_refl l) refl
set_limit_new l (m ∷ ms) = elim (Bool-cases (m.kind == l.kind)) [
  | inl same ↦ rw (same, covers_new m l same) refl
  | inr other ↦ elim (Bool-cases (precedes l.kind m.kind)) [
    | inl before ↦ rw (other, before, covers_refl l) refl
    | inr after ↦
        rw (other, after)
          (or_right (covers l m) (is_covered (set_limit l ms) l) (set_limit_new l ms))
  ]
]

set_limit_old :
    (k l : QuotaBlockLimit) (ms : List QuotaBlockLimit)
    → is_covered ms k ≡ true
    → is_covered (set_limit l ms) k ≡ true
unfolding set_limit
set_limit_old k l [] h = absurd (ground arith)
set_limit_old k l (m ∷ ms) h = elim (Bool-cases (m.kind == l.kind)) [
  | inl same ↦ rw same (
      or_mono (covers k m) (covers k (chosen m l)) (is_covered ms k) (is_covered ms k)
        (covers_old k m l same) (λ x. x) h)
  | inr other ↦ elim (Bool-cases (precedes l.kind m.kind)) [
    | inl before ↦ rw (other, before) (or_right (covers k l) (is_covered (m ∷ ms) k) h)
    | inr after ↦
        rw (other, after)
          (or_mono (covers k m) (covers k m) (is_covered ms k) (is_covered (set_limit l ms) k)
            (λ x. x) (set_limit_old k l ms) h)
  ]
]

pub set_limits_old :
    (k : QuotaBlockLimit) (ls ms : List QuotaBlockLimit)
    → is_covered ms k ≡ true
    → is_covered (set_limits ls ms) k ≡ true
unfolding set_limits
set_limits_old k [] ms h = h
set_limits_old k (l ∷ ls) ms h = set_limits_old k ls (set_limit l ms) (set_limit_old k l ms h)

pub set_limits_new :
    (ls ms : List QuotaBlockLimit) → All (λ l. is_covered (set_limits ls ms) l ≡ true) ls
unfolding set_limits
set_limits_new [] ms = tt
set_limits_new (l ∷ ls) ms =
    (set_limits_old l ls (set_limit l ms) (set_limit_new l ms), set_limits_new ls (set_limit l ms))
