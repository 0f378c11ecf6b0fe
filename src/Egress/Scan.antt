-- ===== src/Egress/Scan.antt =====
-- The admission loop over the endpoints (internal/bridge/egress_pool.go: acquire).
use mathlib.Core.Path.{subst}
use mathlib.Core.Option.{some-injective, none-ne-some}
use cline_pass_bridge.Base.{
  ℕ, zero, suc, ◌+◌, ◌%◌, ◌<◌, String, ◌≡◌, refl, sym, ap, ◌∙◌, Bool, true, false, Option, none,
  some, List, [], ◌∷◌, arith, eq_iff, leb, ◌==◌, nat_eq, string_eq, if◌then◌else◌, length,
  get_elem?, All, Bool-cases, ◌⊎◌, inl, inr,
}
use cline_pass_bridge.Base.Dict.{Dict, get, put, get-put}
use cline_pass_bridge.Faults.{second}
use cline_pass_bridge.Egress.{
  EgressGroup, EgressManager, prune_egress_usage, group_for, available, may_send, charge, earlier,
  Outcome, granted, unavailable, visit, visits, scan, admit, settle_round,
}
use cline_pass_bridge.Egress.Config.{EgressEndpoint}
use cline_pass_bridge.Egress.Budget.{
  IsOrderly, IsWithinLimits, prune-IsOrderly, charge-IsWithinLimits,
}

-- Every group is orderly.
abbrev pub AreOrderly : ℕ → Dict String EgressGroup → Type 0
AreOrderly now groups =
    (name : String) (g : EgressGroup) → get groups name ≡ some g → IsOrderly now g

abbrev pub HasLimit : EgressEndpoint → Type 0
HasLimit e = 0 < e.rpm

-- The group of an endpoint when the loop looks at it.
abbrev pub group_at : ℕ → EgressEndpoint → Dict String EgressGroup → EgressGroup
group_at now e groups = prune_egress_usage now (group_for e (get groups e.group))

pub group_for-IsOrderly :
    (now : ℕ) (e : EgressEndpoint) (o : Option EgressGroup)
    → HasLimit e
    → ((g : EgressGroup) → o ≡ some g → IsOrderly now g)
    → IsOrderly now (group_for e o)
unfolding group_for
group_for-IsOrderly now e none l h = (l, omega arith)
group_for-IsOrderly now e (some g) l h = h g refl

pub group_at-IsOrderly :
    (now : ℕ) (e : EgressEndpoint) (groups : Dict String EgressGroup)
    → HasLimit e
    → AreOrderly now groups
    → IsOrderly now (group_at now e groups)
group_at-IsOrderly now e groups l h =
    prune-IsOrderly now (group_for e (get groups e.group))
      (group_for-IsOrderly now e (get groups e.group) l (h e.group))

abbrev some_group : EgressGroup → Option EgressGroup → EgressGroup
some_group d none = d
some_group d (some g) = g

pub choose-IsOrderly :
    (now : ℕ) (g found : EgressGroup) (o : Option EgressGroup) (b : Bool)
    → (if b then some g else o) ≡ some found
    → IsOrderly now g
    → (o ≡ some found → IsOrderly now found)
    → IsOrderly now found
choose-IsOrderly now g found o true i h r =
    let e : g ≡ found = ap (some_group g) i in subst (λ x. IsOrderly now x) {x = g} {y = found} e h
choose-IsOrderly now g found o false i h r = r i

pub put-AreOrderly :
    (now : ℕ) (name : String) (g : EgressGroup) (groups : Dict String EgressGroup)
    → IsOrderly now g
    → AreOrderly now groups
    → AreOrderly now (put groups name g)
put-AreOrderly now name g groups o h other found i =
    choose-IsOrderly now g found (get groups other) (other == name)
      (sym (get-put groups name other g) ∙ i) o (h other found)

earlier_later : (now next at : ℕ) → (next ≡ 0) ⊎ (now < next) → now < at → now < earlier next at
earlier_later now next at (inl z) l = ground arith
earlier_later now next at (inr n) l = ground arith

-- What a round promises: it grants an endpoint whose group, this request included, is within its
-- limits; or it names a time after the present.
pub IsFair : ℕ → Dict String EgressGroup × Outcome → Type 0
IsFair now (groups, granted i e) =
    (g : EgressGroup) × ((get groups e.group ≡ some g) × IsWithinLimits now g)
IsFair now (groups, unavailable next) = now < next

get-charge :
    (now : ℕ) (e : EgressEndpoint) (g : EgressGroup) (groups : Dict String EgressGroup)
    → get (put groups e.group (charge now g)) e.group ≡ some (charge now g)
get-charge now e g groups =
    ground (arith, get-put groups e.group e.group (charge now g), eq_iff e.group e.group)

scan-IsFair :
    (now : ℕ) (vs : List (ℕ × EgressEndpoint)) (groups : Dict String EgressGroup) (next : ℕ)
    → AreOrderly now groups
    → All (λ v. HasLimit v.1) vs
    → next ≡ 0 ⊎ now < next
    → IsFair now (scan now vs groups next)
unfolding scan IsFair
scan-IsFair now [] groups next h l n = elim n [ inl z ↦ ground arith | inr later ↦ ground arith ]
scan-IsFair now ((i, e) ∷ vs) groups next h (l, ls) n =
    let g = group_at now e groups in
    let raw = group_for-IsOrderly now e (get groups e.group) l (h e.group) in
    let orderly = prune-IsOrderly now (group_for e (get groups e.group)) raw in
    elim (Bool-cases (may_send now g)) [
      | inl may ↦ rw may (
          (
            charge now g,
            (
              get-charge now e g groups,
              charge-IsWithinLimits now (group_for e (get groups e.group)) raw may,
            ),
          ))
      | inr busy ↦ rw busy (
          scan-IsFair now vs (put groups e.group g)
            (earlier next (if leb (available g) now then now + second else available g))
            (put-AreOrderly now e.group g groups orderly h) ls
            (inr (
              earlier_later now next (if leb (available g) now then now + second else available g) n
                (ground arith))))
    ]

-- The candidates that one round visits have limits.
get_elem_limit :
    (es : List EgressEndpoint) (i : ℕ) (e : EgressEndpoint)
    → All HasLimit es
    → get_elem? es i ≡ some e
    → HasLimit e
get_elem_limit [] i e h g = absurd (none-ne-some e g)
get_elem_limit (x ∷ es) zero e (h, hs) g = subst HasLimit (some-injective x e g) h
get_elem_limit (x ∷ es) (suc i) e (h, hs) g = get_elem_limit es i e hs g

visit-HasLimit :
    (i : ℕ) (o : Option EgressEndpoint) (vs : List (ℕ × EgressEndpoint))
    → ((e : EgressEndpoint) → o ≡ some e → HasLimit e)
    → All (λ v. HasLimit v.1) vs
    → All (λ v. HasLimit v.1) (visit i o vs)
unfolding visit
visit-HasLimit i none vs h hs = hs
visit-HasLimit i (some e) vs h hs = (h e refl, hs)

pub visits-HasLimit :
    (es : List EgressEndpoint) (cursor n k : ℕ)
    → All HasLimit es
    → All (λ v. HasLimit v.1) (visits es cursor n k)
unfolding visits
visits-HasLimit es cursor n zero h = tt
visits-HasLimit es cursor n (suc k) h =
    let i = (cursor + n) % length es in
    visit-HasLimit i (get_elem? es i) (visits es cursor (suc n) k) (λ e. get_elem_limit es i e h)
      (visits-HasLimit es cursor (suc n) k h)

-- What a round leaves is fair: a granted endpoint's group, this request included, is out of cooldown
-- and within its limits on requests at once and on requests in the last minute.
abbrev pub IsFairRound : ℕ → EgressManager × Outcome → Type 0
IsFairRound now (p, outcome) = IsFair now (p.groups, outcome)

round_fair :
    (now : ℕ) (es : List EgressEndpoint) (p : EgressManager)
    (found : Dict String EgressGroup × Outcome)
    → IsFair now found
    → IsFairRound now (settle_round es p found)
unfolding settle_round
round_fair now es p (groups, granted i e) h = h
round_fair now es p (groups, unavailable next) h = h

-- A round grants an endpoint only if its group, this request included, is then out of cooldown and
-- within its limits on requests at once and on requests in the last minute; with no endpoint to
-- grant, it names a time after the present.
pub admit-IsFair :
    (now : ℕ) (es : List EgressEndpoint) (p : EgressManager)
    → AreOrderly now p.groups
    → All HasLimit es
    → IsFairRound now (admit now es p)
unfolding admit
admit-IsFair now es p h l =
    round_fair now es p (scan now (visits es p.cursor 0 (length es)) p.groups 0) (
      scan-IsFair now (visits es p.cursor 0 (length es)) p.groups 0 h
        (visits-HasLimit es p.cursor 0 (length es) l) (inl refl))
