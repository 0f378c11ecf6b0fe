-- ===== src/Egress/Budget.antt =====
-- The request budget of one group: its admissions in order of time (internal/bridge/egress_pool.go).
use mathlib.Core.Path.{subst}
use cline_pass_bridge.Base.{
  ℕ, zero, suc, ◌+◌, ◌-◌, ◌≤◌, ◌<◌, ◌≡◌, refl, sym, ap, ◌∙◌, true, List, [], ◌∷◌, ◌++◌, arith, ltb,
  leb, ◌==◌, nat_eq, nat_beq_iff, length, length-append, get_or, all, Bool-cases, inl, inr,
}
use cline_pass_bridge.Faults.{minute}
use cline_pass_bridge.Egress.{
  EgressGroup, drop_old, prune_egress_usage, available, may_send, charge, refund,
}

-- Times in ascending order, from one time to another.
abbrev pub IsAscending : ℕ → List ℕ → ℕ → Type 0
IsAscending lo [] hi = lo ≤ hi
IsAscending lo (t ∷ ts) hi = (lo ≤ t) × IsAscending t ts hi

pub IsAscending-weaken :
    (lo lo' : ℕ) (ts : List ℕ) (hi hi' : ℕ)
    → lo' ≤ lo
    → hi ≤ hi'
    → IsAscending lo ts hi
    → IsAscending lo' ts hi'
IsAscending-weaken lo lo' [] hi hi' l h a = omega arith
IsAscending-weaken lo lo' (t ∷ ts) hi hi' l h (a, b) =
    (omega arith, IsAscending-weaken t t ts hi hi' (omega arith) h b)

pub IsAscending-append :
    (lo : ℕ) (ts : List ℕ) (hi : ℕ) → IsAscending lo ts hi → IsAscending lo (ts ++ hi ∷ []) hi
IsAscending-append lo [] hi a = (a, omega arith)
IsAscending-append lo (t ∷ ts) hi (a, b) = (a, IsAscending-append t ts hi b)

pub IsAscending-le : (lo : ℕ) (ts : List ℕ) (hi : ℕ) → IsAscending lo ts hi → lo ≤ hi
IsAscending-le lo [] hi a = a
IsAscending-le lo (t ∷ ts) hi (a, b) = let h = IsAscending-le t ts hi b in omega arith

pub drop_old-IsAscending :
    (now lo : ℕ) (ts : List ℕ) (hi : ℕ) → IsAscending lo ts hi → IsAscending lo (drop_old now ts) hi
unfolding drop_old
drop_old-IsAscending now lo [] hi a = a
drop_old-IsAscending now lo (t ∷ ts) hi (a, b) = elim (Bool-cases (leb (t + minute) now)) [
  | inl old ↦
      rw old
        (drop_old-IsAscending now lo ts hi (IsAscending-weaken t lo ts hi hi a (omega arith) b))
  | inr new ↦ rw new (a, b)
]

pub refund-IsAscending :
    (at lo : ℕ) (ts : List ℕ) (hi : ℕ) → IsAscending lo ts hi → IsAscending lo (refund at ts) hi
unfolding refund
refund-IsAscending at lo [] hi a = a
refund-IsAscending at lo (t ∷ ts) hi (a, b) = elim (Bool-cases (t == at)) [
  | inl same ↦ rw same (IsAscending-weaken t lo ts hi hi a (omega arith) b)
  | inr other ↦ rw other (a, refund-IsAscending at t ts hi b)
]

all_fresh :
    (now lo : ℕ) (ts : List ℕ) (hi : ℕ)
    → now < lo + minute
    → IsAscending lo ts hi
    → all (λ t. ltb now (t + minute)) ts ≡ true
all_fresh now lo [] hi h a = refl
all_fresh now lo (t ∷ ts) hi h (a, b) =
    let rest = all_fresh now t ts hi (omega arith) b in ground arith

-- What is left after the old admissions are dropped starts with one of the last minute.
pub drop_old-fresh :
    (now lo : ℕ) (ts : List ℕ) (hi : ℕ)
    → IsAscending lo ts hi
    → all (λ t. ltb now (t + minute)) (drop_old now ts) ≡ true
unfolding drop_old
drop_old-fresh now lo [] hi a = refl
drop_old-fresh now lo (t ∷ ts) hi (a, b) = elim (Bool-cases (leb (t + minute) now)) [
  | inl old ↦ rw old (drop_old-fresh now t ts hi b)
  | inr new ↦ rw new (all_fresh now t (t ∷ ts) hi (ground arith) (omega arith, b))
]

pub drop_old-idempotent : (now : ℕ) (ts : List ℕ) → drop_old now (drop_old now ts) ≡ drop_old now ts
unfolding drop_old
drop_old-idempotent now [] = refl
drop_old-idempotent now (t ∷ ts) = elim (Bool-cases (leb (t + minute) now)) [
  | inl old ↦ rw old (drop_old-idempotent now ts)
  | inr new ↦ ground (arith, new)
]

-- Every entry passes a test that the whole list passes.
pub entry_fresh :
    (now : ℕ) (ts : List ℕ) (k : ℕ)
    → all (λ t. ltb now (t + minute)) ts ≡ true
    → k < length ts
    → now < get_or ts k 0 + minute
entry_fresh now [] k h l = omega arith
entry_fresh now (t ∷ ts) zero h l = ground arith
entry_fresh now (t ∷ ts) (suc k) h l = entry_fresh now ts k (ground arith) (omega arith)

-- A group with a limit and with its admissions in order.
abbrev pub IsOrderly : ℕ → EgressGroup → Type 0
IsOrderly now g = (0 < g.rpm) × IsAscending 0 g.sent now

-- A group within its limits: no cooldown, and no more requests out, or in the last minute, than it
-- may have.
pub IsWithinLimits : ℕ → EgressGroup → Type 0
IsWithinLimits now g =
    (g.cooldown ≤ now)
    × ((g.inflight ≤ g.max_inflight)
        × ((length g.sent ≤ g.rpm) × (all (λ t. ltb now (t + minute)) g.sent ≡ true)))

pub prune-IsOrderly :
    (now : ℕ) (g : EgressGroup) → IsOrderly now g → IsOrderly now (prune_egress_usage now g)
unfolding prune_egress_usage
prune-IsOrderly now g (a, b) = (a, drop_old-IsAscending now 0 g.sent now b)

pub charge-IsOrderly : (now : ℕ) (g : EgressGroup) → IsOrderly now g → IsOrderly now (charge now g)
unfolding charge
charge-IsOrderly now g (a, b) = (a, IsAscending-append 0 g.sent now b)

pub prune_idempotent :
    (now : ℕ) (g : EgressGroup)
    → prune_egress_usage now (prune_egress_usage now g) ≡ prune_egress_usage now g
unfolding prune_egress_usage
prune_idempotent now g = ap (λ ts. record g { sent = ts }) (drop_old-idempotent now g.sent)

all_append :
    (now : ℕ) (ts : List ℕ)
    → all (λ t. ltb now (t + minute)) ts ≡ true
    → all (λ t. ltb now (t + minute)) (ts ++ now ∷ []) ≡ true
all_append now [] h = ground arith
all_append now (t ∷ ts) h = let rest = all_append now ts in ground arith

room :
    (now : ℕ) (g : EgressGroup)
    → 0 < g.rpm
    → all (λ t. ltb now (t + minute)) g.sent ≡ true
    → available g ≤ now
    → length g.sent < g.rpm
unfolding available
room now g pos fresh ready = elim (Bool-cases (leb g.rpm (length g.sent))) [
  | inl full ↦
      let late = entry_fresh now g.sent (length g.sent - g.rpm) fresh (ground arith) in ground arith
  | inr free ↦ ground arith
]

cooled : (now : ℕ) (g : EgressGroup) → available g ≤ now → g.cooldown ≤ now
unfolding available
cooled now g h = ground arith

prune_fresh :
    (now : ℕ) (g : EgressGroup)
    → IsAscending 0 g.sent now
    → all (λ t. ltb now (t + minute)) (prune_egress_usage now g).sent ≡ true
unfolding prune_egress_usage
prune_fresh now g a = drop_old-fresh now 0 g.sent now a

prune_room :
    (now : ℕ) (g : EgressGroup)
    → 0 < g.rpm
    → IsAscending 0 g.sent now
    → available (prune_egress_usage now g) ≤ now
    → length (prune_egress_usage now g).sent < (prune_egress_usage now g).rpm
unfolding prune_egress_usage
prune_room now g pos a ready = room now (prune_egress_usage now g) pos (prune_fresh now g a) ready

-- A group that may send stays within its limits when it is charged.
pub charge-IsWithinLimits :
    (now : ℕ) (g : EgressGroup)
    → IsOrderly now g
    → may_send now (prune_egress_usage now g) ≡ true
    → IsWithinLimits now (charge now (prune_egress_usage now g))
unfolding IsWithinLimits charge may_send
charge-IsWithinLimits now g (pos, sorted) h =
    let g' = prune_egress_usage now g in
    let fresh : all (λ t. ltb now (t + minute)) g'.sent ≡ true = prune_fresh now g sorted in
    let ready : available g' ≤ now = ground arith in
    let few : length g'.sent < g'.rpm = prune_room now g pos sorted ready in
    (
      cooled now g' ready,
      (
        ground arith,
        (rw (length-append g'.sent (now ∷ [])) (omega arith), all_append now g'.sent fresh),
      ),
    )

-- Refunding the admission that was just made leaves the earlier ones.
repeat_end : (t : ℕ) (ts : List ℕ) → IsAscending t ts t → ts ++ t ∷ [] ≡ t ∷ ts
repeat_end t [] a = refl
repeat_end t (u ∷ ts) (a, b) =
    let same : u ≡ t = (let le = IsAscending-le u ts t b in omega arith) in
    rw same (ap (λ l. t ∷ l) (repeat_end t ts (subst (λ x. IsAscending x ts t) same b)))

pub refund_append :
    (now lo : ℕ) (ts : List ℕ) → IsAscending lo ts now → refund now (ts ++ now ∷ []) ≡ ts
unfolding refund
refund_append now lo [] a = ground arith
refund_append now lo (t ∷ ts) (a, b) = elim (Bool-cases (t == now)) [
  | inl same ↦
      let e : t ≡ now = (nat_beq_iff t now).0 same in
      rw same (repeat_end now ts (subst (λ x. IsAscending x ts now) e b) ∙ ap (λ x. x ∷ ts) (sym e))
  | inr other ↦ rw other (ap (λ l. t ∷ l) (refund_append now t ts b))
]
