-- ===== src/Egress/Leases.antt =====
-- The release of leases (internal/bridge/egress_pool.go: release).
use cline_pass_bridge.Base.{
  ℕ, ◌+◌, String, ◌≡◌, refl, sym, ap, ◌∙◌, false, Option, none, some, List, [], ◌∷◌, ◌++◌, arith,
  eq_iff, leb, ◌==◌, nat_eq, string_eq, if◌then◌else◌, length, All, Bool-cases, inl, inr, beq_refl,
}
use cline_pass_bridge.Base.Dict.{Dict, get, put, get-put}
use cline_pass_bridge.Faults.{second}
use cline_pass_bridge.Egress.{
  EgressGroup, EgressManager, EgressLease, drop_old, prune_egress_usage, group_for, available,
  may_send, charge, earlier, Outcome, granted, unavailable, visits, scan, admit, settle_round,
  Acquired, leased, failed, waiting, try_admit, take_lease, refund, release_group, release,
  on_group,
}
use cline_pass_bridge.Egress.Config.{EgressEndpoint}
use cline_pass_bridge.Egress.Budget.{
  IsAscending, prune-IsOrderly, drop_old-idempotent, refund_append,
}
use cline_pass_bridge.Egress.Scan.{
  group_at, AreOrderly, HasLimit, put-AreOrderly, group_for-IsOrderly, visits-HasLimit,
}
use cline_pass_bridge.Egress.Run.{get-on_group}

-- A granted lease whose request was never sent, and is released: the group is as if the request had
-- never come, old admissions dropped.
release_charged :
    (now : ℕ) (lease : EgressLease) (g : EgressGroup)
    → lease.reserved ≡ now
    → lease.sent ≡ false
    → IsAscending 0 g.sent now
    → release_group lease (charge now g) ≡ g
unfolding release_group charge
release_charged now lease g r s a =
    rw (r, s)
      (ap (λ n. record g { inflight = n; sent = refund now (g.sent ++ now ∷ []) }) (omega arith)
        ∙ ap (λ ts. record g { sent = ts }) (refund_append now 0 g.sent a))

-- What a group may still send, seen from a time: its requests out, its admissions of the last
-- minute and its cooldown.
abbrev pub usage : ℕ → Option EgressGroup → ℕ × (List ℕ × ℕ)
usage now none = (0, ([], 0))
usage now (some g) = (g.inflight, (drop_old now g.sent, g.cooldown))

pruned_usage :
    (now : ℕ) (e : EgressEndpoint) (o : Option EgressGroup)
    → usage now (some (prune_egress_usage now (group_for e o))) ≡ usage now o
unfolding prune_egress_usage group_for drop_old
pruned_usage now e none = refl
pruned_usage now e (some g) =
    ap (λ ts. (g.inflight, (ts, g.cooldown))) (drop_old-idempotent now g.sent)

put_pruned_usage :
    (now : ℕ) (name : String) (e : EgressEndpoint) (groups : Dict String EgressGroup)
    → usage now (get (put groups e.group (group_at now e groups)) name)
      ≡ usage now (get groups name)
put_pruned_usage now name e groups = elim (Bool-cases (name == e.group)) [
  | inl same ↦
      rw (get-put groups e.group name (group_at now e groups), same)
        (pruned_usage now e (get groups e.group)
          ∙ ap (λ n. usage now (get groups n)) (sym ((eq_iff name e.group).0 same)))
  | inr other ↦ rw (get-put groups e.group name (group_at now e groups), other) refl
]

abbrev lease_on : ℕ → EgressEndpoint → EgressLease
lease_on now e = record { group = e.group; endpoint = e; reserved = now; sent = false }

-- The groups after the release of an unsent lease on a granted endpoint.
abbrev refunded : EgressLease → Dict String EgressGroup → Dict String EgressGroup
refunded lease groups = on_group (release_group lease) lease.group groups

charged_usage :
    (now : ℕ) (name : String) (e : EgressEndpoint) (groups : Dict String EgressGroup)
    → IsAscending 0 (group_at now e groups).sent now
    → usage now (
        get
          (refunded (lease_on now e) (put groups e.group (charge now (group_at now e groups))))
          name)
      ≡ usage now (get groups name)
charged_usage now name e groups a =
    let g = group_at now e groups in
    let f = release_group (lease_on now e) in
    elim (Bool-cases (name == e.group)) [
      | inl same ↦
          rw
            (
              get-on_group f e.group (put groups e.group (charge now g)) name,
              same,
              get-put groups e.group e.group (charge now g),
              beq_refl e.group,
              release_charged now (lease_on now e) g refl refl a,
            )
            (pruned_usage now e (get groups e.group)
              ∙ ap (λ n. usage now (get groups n)) (sym ((eq_iff name e.group).0 same)))
      | inr other ↦
          rw
            (
              get-on_group f e.group (put groups e.group (charge now g)) name,
              other,
              get-put groups e.group name (charge now g),
              other,
            )
            refl
    ]

-- Releasing the lease of a granted endpoint, unsent, gives the usage of every group back.
GivesBack : ℕ → (String → ℕ × (List ℕ × ℕ)) → Dict String EgressGroup × Outcome → Type 0
GivesBack now before (groups, granted i e) =
    (name : String) → usage now (get (refunded (lease_on now e) groups) name) ≡ before name
GivesBack now before (groups, unavailable next) =
    (name : String) → usage now (get groups name) ≡ before name

GivesBack-before :
    (now : ℕ) (before before' : String → ℕ × (List ℕ × ℕ)) (r : Dict String EgressGroup × Outcome)
    → ((name : String) → before name ≡ before' name)
    → GivesBack now before r
    → GivesBack now before' r
unfolding GivesBack
GivesBack-before now b b' (groups, granted i e) h g = λ name. g name ∙ h name
GivesBack-before now b b' (groups, unavailable next) h g = λ name. g name ∙ h name

scan-GivesBack :
    (now : ℕ) (vs : List (ℕ × EgressEndpoint)) (groups : Dict String EgressGroup) (next : ℕ)
    → AreOrderly now groups
    → All (λ v. HasLimit v.1) vs
    → GivesBack now (λ name. usage now (get groups name)) (scan now vs groups next)
unfolding scan GivesBack
scan-GivesBack now [] groups next h l = λ name. refl
scan-GivesBack now ((i, e) ∷ vs) groups next h (l, ls) =
    let g = group_at now e groups in
    let later = earlier next (if leb (available g) now then now + second else available g) in
    let orderly =
      prune-IsOrderly now (group_for e (get groups e.group))
        (group_for-IsOrderly now e (get groups e.group) l (h e.group)) in
    elim (Bool-cases (may_send now g)) [
      | inl may ↦ rw may (λ name. charged_usage now name e groups orderly.1)
      | inr busy ↦ rw busy (
          GivesBack-before now (λ name. usage now (get (put groups e.group g) name))
            (λ name. usage now (get groups name)) (scan now vs (put groups e.group g) later)
            (λ name. put_pruned_usage now name e groups)
            (scan-GivesBack now vs (put groups e.group g) later
              (put-AreOrderly now e.group g groups orderly h) ls))
    ]

-- After a round, and after the release of the lease if it granted one, every group's usage is what
-- it was before.
abbrev pub IsRestored : ℕ → EgressManager → EgressManager × Acquired → Type 0
IsRestored now p (p', leased l) =
    (name : String) → usage now (get (release l p').groups name) ≡ usage now (get p.groups name)
IsRestored now p (p', failed e) = Unit
IsRestored now p (p', waiting next) =
    (name : String) → usage now (get p'.groups name) ≡ usage now (get p.groups name)

settle-IsRestored :
    (now : ℕ) (es : List EgressEndpoint) (p : EgressManager) (r : Dict String EgressGroup × Outcome)
    → GivesBack now (λ name. usage now (get p.groups name)) r
    → IsRestored now p (take_lease now (settle_round es p r))
unfolding settle_round take_lease GivesBack release
settle-IsRestored now es p (groups, granted i e) h = h
settle-IsRestored now es p (groups, unavailable next) h = h

-- A lease that is released before its request was sent costs nothing: every group has the requests
-- out, the admissions of the last minute and the cooldown that it had before the round; and a round
-- that grants nothing leaves them as they are.
pub try_admit-IsRestored :
    (now : ℕ) (es : List EgressEndpoint) (p : EgressManager)
    → AreOrderly now p.groups
    → All HasLimit es
    → IsRestored now p (try_admit now es p)
unfolding try_admit admit
try_admit-IsRestored now es p h l =
    let vs = visits es p.cursor 0 (length es) in
    settle-IsRestored now es p (scan now vs p.groups 0)
      (scan-GivesBack now vs p.groups 0 h (visits-HasLimit es p.cursor 0 (length es) l))
