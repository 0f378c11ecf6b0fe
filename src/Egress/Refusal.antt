-- ===== src/Egress/Refusal.antt =====
-- A round that grants nothing (internal/bridge/egress_pool.go: acquire).
use mathlib.Core.Path.{subst}
use mathlib.Core.Option.{some-injective, none-ne-some}
use native.Mathlib.Nat.{mod-eq_of_lt, add-mod_right}
use cline_pass_bridge.Base.{
  ℕ, zero, suc, ◌+◌, ◌-◌, ◌%◌, ◌≤◌, ◌<◌, String, ◌≡◌, refl, ap, ◌∙◌, Bool, true, false, not, Option,
  none, some, List, [], ◌∷◌, arith, eq_iff, leb, ◌==◌, nat_eq, string_eq, nat_beq_iff,
  if◌then◌else◌, length, get_elem?, All, Bool-cases, inl, inr, beq_refl,
}
use cline_pass_bridge.Base.Dict.{Dict, get, put, get-put}
use cline_pass_bridge.Faults.{second}
use cline_pass_bridge.Egress.{
  EgressGroup, EgressManager, prune_egress_usage, group_for, available, may_send, charge, earlier,
  Outcome, granted, unavailable, visit, visits, scan, admit, settle_round,
}
use cline_pass_bridge.Egress.Config.{EgressEndpoint}
use cline_pass_bridge.Egress.Budget.{prune_idempotent}
use cline_pass_bridge.Egress.Scan.{group_at}

-- A group that holds its requests back.
abbrev pub is_busy : ℕ → Option EgressGroup → Bool
is_busy now none = false
is_busy now (some g) = not (may_send now (prune_egress_usage now g))

pruned_busy :
    (now : ℕ) (e : EgressEndpoint) (o : Option EgressGroup)
    → is_busy now o ≡ true
    → is_busy now (some (prune_egress_usage now (group_for e o))) ≡ true
unfolding group_for
pruned_busy now e none h = ground arith
pruned_busy now e (some g) h = ap (λ x. not (may_send now x)) (prune_idempotent now g) ∙ h

visited_busy :
    (now : ℕ) (e : EgressEndpoint) (o : Option EgressGroup)
    → may_send now (prune_egress_usage now (group_for e o)) ≡ false
    → is_busy now (some (prune_egress_usage now (group_for e o))) ≡ true
visited_busy now e o h =
    ap (λ x. not (may_send now x)) (prune_idempotent now (group_for e o)) ∙ ap not h

busy_not_granted :
    (now : ℕ) (e : EgressEndpoint) (o : Option EgressGroup)
    → is_busy now o ≡ true
    → may_send now (prune_egress_usage now (group_for e o)) ≡ true
    → ⊥
unfolding group_for
busy_not_granted now e none h m = ground arith
busy_not_granted now e (some g) h m = ground arith

put_keeps_busy :
    (now : ℕ) (name : String) (e : EgressEndpoint) (groups : Dict String EgressGroup)
    → is_busy now (get groups name) ≡ true
    → is_busy now (get (put groups e.group (group_at now e groups)) name) ≡ true
put_keeps_busy now name e groups h = elim (Bool-cases (name == e.group)) [
  | inl same ↦
      rw (get-put groups e.group name (group_at now e groups), same)
        (pruned_busy now e (get groups e.group)
          (subst (λ n. is_busy now (get groups n) ≡ true) ((eq_iff name e.group).0 same) h))
  | inr other ↦ rw (get-put groups e.group name (group_at now e groups), other) h
]

charge_keeps_busy :
    (now : ℕ) (name : String) (e : EgressEndpoint) (groups : Dict String EgressGroup)
    → is_busy now (get groups name) ≡ true
    → may_send now (group_at now e groups) ≡ true
    → is_busy now (get (put groups e.group (charge now (group_at now e groups))) name) ≡ true
charge_keeps_busy now name e groups h m = elim (Bool-cases (name == e.group)) [
  | inl same ↦ absurd (
      busy_not_granted now e (get groups e.group)
        (subst (λ n. is_busy now (get groups n) ≡ true) ((eq_iff name e.group).0 same) h) m)
  | inr other ↦ rw (get-put groups e.group name (charge now (group_at now e groups)), other) h
]

-- A busy group stays busy, whatever endpoints the loop visits next.
scan_keeps_busy :
    (now : ℕ) (name : String) (vs : List (ℕ × EgressEndpoint)) (groups : Dict String EgressGroup)
    (next : ℕ)
    → is_busy now (get groups name) ≡ true
    → is_busy now (get (scan now vs groups next).0 name) ≡ true
unfolding scan
scan_keeps_busy now name [] groups next h = h
scan_keeps_busy now name ((i, e) ∷ vs) groups next h =
    let g = group_at now e groups in
    elim (Bool-cases (may_send now g)) [
      | inl may ↦ rw may (charge_keeps_busy now name e groups h may)
      | inr busy ↦ rw busy (
          scan_keeps_busy now name vs (put groups e.group g)
            (earlier next (if leb (available g) now then now + second else available g))
            (put_keeps_busy now name e groups h))
    ]

-- If a result grants nothing, then the groups of the visited endpoints are all busy.
AreBusy : ℕ → List (ℕ × EgressEndpoint) → Dict String EgressGroup × Outcome → Type 0
AreBusy now vs (groups, granted i e) = Unit
AreBusy now vs (groups, unavailable next) = All (λ v. is_busy now (get groups v.1.group) ≡ true) vs

AreBusy-add :
    (now i : ℕ) (e : EgressEndpoint) (vs : List (ℕ × EgressEndpoint))
    (r : Dict String EgressGroup × Outcome)
    → is_busy now (get r.0 e.group) ≡ true
    → AreBusy now vs r
    → AreBusy now ((i, e) ∷ vs) r
unfolding AreBusy
AreBusy-add now i e vs (groups, granted j x) h hs = tt
AreBusy-add now i e vs (groups, unavailable next) h hs = (h, hs)

scan-AreBusy :
    (now : ℕ) (vs : List (ℕ × EgressEndpoint)) (groups : Dict String EgressGroup) (next : ℕ)
    → AreBusy now vs (scan now vs groups next)
unfolding scan AreBusy
scan-AreBusy now [] groups next = tt
scan-AreBusy now ((i, e) ∷ vs) groups next =
    let g = group_at now e groups in
    let later = earlier next (if leb (available g) now then now + second else available g) in
    elim (Bool-cases (may_send now g)) [
      | inl may ↦ rw may tt
      | inr busy ↦ rw busy (
          AreBusy-add now i e vs (scan now vs (put groups e.group g) later)
            (scan_keeps_busy now e.group vs (put groups e.group g) later (
              rw (get-put groups e.group e.group g, beq_refl e.group)
                (visited_busy now e (get groups e.group) busy)))
            (scan-AreBusy now vs (put groups e.group g) later))
    ]

mod_next :
    (c len i n : ℕ)
    → i < len
    → n < len
    → (c + n) % len ≡ i
    → (m : ℕ) × ((m < len) × ((suc c + m) % len ≡ i))
mod_next c len i zero h l e = (
  len - 1,
  (
    omega arith,
    ap (λ x. x % len) (omega arith) ∙ (add-mod_right c len ∙ (ap (λ x. x % len) (omega arith) ∙ e)),
  ),
)
mod_next c len i (suc m) h l e = (m, (omega arith, ap (λ x. x % len) (omega arith) ∙ e))

-- Every index is one of (cursor + n) % length.
mod_cover : (cursor len i : ℕ) → i < len → (n : ℕ) × ((n < len) × ((cursor + n) % len ≡ i))
mod_cover zero len i h = (i, (h, ap (λ x. x % len) (omega arith) ∙ mod-eq_of_lt h))
mod_cover (suc c) len i h = let (n, b) = mod_cover c len i h in mod_next c len i n h b.0 b.1

visit_entry :
    (P : EgressEndpoint → Type 0) (i : ℕ) (o : Option EgressEndpoint)
    (vs : List (ℕ × EgressEndpoint))
    → All (λ v. P v.1) (visit i o vs)
    → ((e : EgressEndpoint) → o ≡ some e → P e) × All (λ v. P v.1) vs
unfolding visit
visit_entry P i none vs h = (λ e g. absurd (none-ne-some e g), h)
visit_entry P i (some x) vs (h, hs) = (λ e g. subst P (some-injective x e g) h, hs)

visits_entry :
    (P : EgressEndpoint → Type 0) (es : List EgressEndpoint) (cursor n k m : ℕ) (e : EgressEndpoint)
    → All (λ v. P v.1) (visits es cursor n k)
    → n ≤ m
    → m < n + k
    → get_elem? es ((cursor + m) % length es) ≡ some e
    → P e
unfolding visits
visits_entry P es cursor n zero m e h l u g = absurd (omega arith)
visits_entry P es cursor n (suc k) m e h l u g =
    let i = (cursor + n) % length es in
    let both = visit_entry P i (get_elem? es i) (visits es cursor (suc n) k) h in
    elim (Bool-cases (m == n)) [
      | inl same ↦ both.0 e (
          subst (λ j. get_elem? es ((cursor + j) % length es) ≡ some e) ((nat_beq_iff m n).0 same)
            g)
      | inr other ↦ visits_entry P es cursor (suc n) k m e both.1 (ground arith) (omega arith) g
    ]

by_index :
    {P : EgressEndpoint → Type 0} (es : List EgressEndpoint)
    → ((i : ℕ) (e : EgressEndpoint) → i < length es → get_elem? es i ≡ some e → P e)
    → All P es
by_index [] h = tt
by_index (e ∷ es) h =
    (h 0 e (omega arith) refl, by_index es (λ i x l g. h (suc i) x (omega arith) g))

visits_every :
    (P : EgressEndpoint → Type 0) (es : List EgressEndpoint) (cursor : ℕ)
    → All (λ v. P v.1) (visits es cursor 0 (length es))
    → All P es
visits_every P es cursor h = by_index es (λ i e l g.
    let (m, b) = mod_cover cursor (length es) i l in
    visits_entry P es cursor 0 (length es) m e h (omega arith) (omega (arith, b.0))
      (ap (get_elem? es) b.1 ∙ g))

-- If a round grants nothing, then the groups of all its candidates are busy.
abbrev pub IsExhausted : ℕ → List EgressEndpoint → EgressManager × Outcome → Type 0
IsExhausted now es (p, granted i e) = Unit
IsExhausted now es (p, unavailable next) = All (λ e. is_busy now (get p.groups e.group) ≡ true) es

settle-IsExhausted :
    (now : ℕ) (es : List EgressEndpoint) (p : EgressManager) (r : Dict String EgressGroup × Outcome)
    → AreBusy now (visits es p.cursor 0 (length es)) r
    → IsExhausted now es (settle_round es p r)
unfolding settle_round AreBusy
settle-IsExhausted now es p (groups, granted i e) h = tt
settle-IsExhausted now es p (groups, unavailable next) h =
    visits_every (λ e. is_busy now (get groups e.group) ≡ true) es p.cursor h

-- A round grants nothing only if the group of every candidate is busy: wherever the cursor stands,
-- the loop overlooks no endpoint that may send.
pub admit-IsExhausted :
    (now : ℕ) (es : List EgressEndpoint) (p : EgressManager) → IsExhausted now es (admit now es p)
unfolding admit
admit-IsExhausted now es p =
    let vs = visits es p.cursor 0 (length es) in
    settle-IsExhausted now es p (scan now vs p.groups 0) (scan-AreBusy now vs p.groups 0)
