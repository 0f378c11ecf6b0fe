-- ===== src/Egress/Order.antt =====
-- The order of a group's admissions through a run (internal/bridge/egress_pool.go).
use mathlib.Core.Path.{subst}
use mathlib.Core.Option
use mathlib.Core.Option.{some-injective, none-ne-some}
use cline_pass_bridge.Base.{
  ℕ, ◌+◌, ◌≤◌, String, ◌≡◌, refl, sym, ◌∙◌, Bool, Option, none, some, List, [], ◌∷◌, arith, leb,
  ◌==◌, nat_eq, string_eq, if◌then◌else◌, length, get_elem?, All, Bool-cases, inl, inr,
}
use cline_pass_bridge.Base.Dict.{Dict, get, put}
use cline_pass_bridge.Faults.{second}
use cline_pass_bridge.Egress.{
  EgressGroup, EgressManager, EgressLease, group_for, available, may_send, charge, earlier, Outcome,
  granted, unavailable, visits, scan, admit, settle_round, Acquired, leased, failed, waiting,
  try_admit, take_lease, release_group, release, cooldown_group, relimit, apply, on_group,
  cool_down, set_limits,
}
use cline_pass_bridge.Egress.Config.{EgressEndpoint}
use cline_pass_bridge.Egress.Budget.{IsOrderly, refund-IsAscending, IsAscending-weaken}
use cline_pass_bridge.Egress.Scan.{group_at, AreOrderly, HasLimit}
use cline_pass_bridge.Egress.Run.{
  System, Call, admit_call, release_call, cooldown_call, apply_call, lend, give_back, run_call, run,
  IsConfigured, get-on_group,
}
use cline_pass_bridge.Egress.Budget.{charge-IsOrderly, prune-IsOrderly}
use cline_pass_bridge.Egress.Scan.{
  put-AreOrderly, group_for-IsOrderly, visits-HasLimit, IsFairRound, admit-IsFair,
}

weaken-IsOrderly :
    (now later : ℕ) (g : EgressGroup) → now ≤ later → IsOrderly now g → IsOrderly later g
weaken-IsOrderly now later g l (pos, a) =
    (pos, IsAscending-weaken 0 0 g.sent now later (omega arith) l a)

scan-AreOrderly :
    (now : ℕ) (vs : List (ℕ × EgressEndpoint)) (groups : Dict String EgressGroup) (next : ℕ)
    → AreOrderly now groups
    → All (λ v. HasLimit v.1) vs
    → AreOrderly now (scan now vs groups next).0
unfolding scan
scan-AreOrderly now [] groups next h l = h
scan-AreOrderly now ((i, e) ∷ vs) groups next h (l, ls) =
    let g = group_at now e groups in
    let later = earlier next (if leb (available g) now then now + second else available g) in
    let orderly =
      prune-IsOrderly now (group_for e (get groups e.group))
        (group_for-IsOrderly now e (get groups e.group) l (h e.group)) in
    elim (Bool-cases (may_send now g)) [
      | inl may ↦
          rw may
            (put-AreOrderly now e.group (charge now g) groups (charge-IsOrderly now g orderly) h)
      | inr busy ↦ rw busy (
          scan-AreOrderly now vs (put groups e.group g) later
            (put-AreOrderly now e.group g groups orderly h) ls)
    ]

map-IsOrderly :
    (now : ℕ) (f : EgressGroup → EgressGroup) (o : Option EgressGroup) (found : EgressGroup)
    → ((g : EgressGroup) → IsOrderly now g → IsOrderly now (f g))
    → ((g : EgressGroup) → o ≡ some g → IsOrderly now g)
    → Option.map f o ≡ some found
    → IsOrderly now found
map-IsOrderly now f none found k h e = absurd (none-ne-some found e)
map-IsOrderly now f (some g) found k h e =
    let same : f g ≡ found = some-injective (f g) found e in
    subst (λ x. IsOrderly now x) {x = f g} {y = found} same (k g (h g refl))

on_group-AreOrderly :
    (now : ℕ) (f : EgressGroup → EgressGroup) (name : String) (groups : Dict String EgressGroup)
    → ((g : EgressGroup) → IsOrderly now g → IsOrderly now (f g))
    → AreOrderly now groups
    → AreOrderly now (on_group f name groups)
on_group-AreOrderly now f name groups k h other found e =
    let e' = sym (get-on_group f name groups other) ∙ e in
    elim (Bool-cases (other == name)) [
      | inl same ↦ map-IsOrderly now f (get groups name) found k (h name) (sym (rw same refl) ∙ e')
      | inr differs ↦ h other found (sym (rw differs refl) ∙ e')
    ]

release-IsOrderly :
    (now : ℕ) (lease : EgressLease) (g : EgressGroup)
    → IsOrderly now g
    → IsOrderly now (release_group lease g)
unfolding release_group
release-IsOrderly now lease g (pos, a) = elim (Bool-cases lease.sent) [
  | inl sent ↦ rw sent (pos, a)
  | inr unsent ↦ rw unsent (pos, refund-IsAscending lease.reserved 0 g.sent now a)
]

cool_down-IsOrderly :
    (now until : ℕ) (g : EgressGroup) → IsOrderly now g → IsOrderly now (cool_down until g)
unfolding cool_down
cool_down-IsOrderly now until g h = h

set_limits-IsOrderly :
    (now : ℕ) (e : EgressEndpoint) (g : EgressGroup)
    → HasLimit e
    → IsOrderly now g
    → IsOrderly now (set_limits e g)
unfolding set_limits
set_limits-IsOrderly now e g l (pos, a) = (l, a)

relimit-AreOrderly :
    (now : ℕ) (es : List EgressEndpoint) (groups : Dict String EgressGroup)
    → All HasLimit es
    → AreOrderly now groups
    → AreOrderly now (relimit es groups)
unfolding relimit
relimit-AreOrderly now [] groups l h = h
relimit-AreOrderly now (e ∷ es) groups (l, ls) h =
    relimit-AreOrderly now es (on_group (set_limits e) e.group groups) ls (
      on_group-AreOrderly now (set_limits e) e.group groups (λ g. set_limits-IsOrderly now e g l) h)

lend-AreOrderly :
    (s : System) (now : ℕ) (es : List EgressEndpoint) (r : Dict String EgressGroup × Outcome)
    → AreOrderly now r.0
    → AreOrderly now (lend s (take_lease now (settle_round es s.pool r))).pool.groups
unfolding take_lease settle_round
lend-AreOrderly s now es (groups, granted i e) h = h
lend-AreOrderly s now es (groups, unavailable next) h = h

lend-now : (s : System) (r : EgressManager × Acquired) → (lend s r).now ≡ s.now
lend-now s (p, leased l) = refl
lend-now s (p, failed e) = refl
lend-now s (p, waiting next) = refl

give_back-AreOrderly :
    (s : System) (k : ℕ) (sent : Bool) (o : Option EgressLease)
    → AreOrderly s.now s.pool.groups
    → AreOrderly (give_back s k sent o).now (give_back s k sent o).pool.groups
unfolding release
give_back-AreOrderly s k sent none h = h
give_back-AreOrderly s k sent (some l) h =
    let lease = record l { sent = sent } in
    on_group-AreOrderly s.now (release_group lease) l.group s.pool.groups
      (release-IsOrderly s.now lease) h

run_call-AreOrderly :
    (s : System) (c : Call)
    → IsConfigured c
    → AreOrderly s.now s.pool.groups
    → AreOrderly (run_call s c).now (run_call s c).pool.groups
unfolding run_call try_admit admit cooldown_group apply
run_call-AreOrderly s (admit_call elapsed es) l h =
    let now = s.now + elapsed in
    let vs = visits es s.pool.cursor 0 (length es) in
    let found = scan now vs s.pool.groups 0 in
    let s' = record s { now = now } in
    rw (lend-now s' (take_lease now (settle_round es s.pool found))) (
      lend-AreOrderly s' now es found (
        scan-AreOrderly now vs s.pool.groups 0
          (λ name g e. weaken-IsOrderly s.now now g (omega arith) (h name g e))
          (visits-HasLimit es s.pool.cursor 0 (length es) l)))
run_call-AreOrderly s (release_call k sent) l h =
    give_back-AreOrderly s k sent (get_elem? s.live k) h
run_call-AreOrderly s (cooldown_call name until) l h =
    on_group-AreOrderly s.now (cool_down until) name s.pool.groups (cool_down-IsOrderly s.now until)
      h
run_call-AreOrderly s (apply_call cfg) l h =
    relimit-AreOrderly s.now cfg.endpoints s.pool.groups l h

run-AreOrderly :
    (s : System) (cs : List Call)
    → All IsConfigured cs
    → AreOrderly s.now s.pool.groups
    → AreOrderly (run s cs).now (run s cs).pool.groups
unfolding run
run-AreOrderly s [] l h = h
run-AreOrderly s (c ∷ cs) (l, ls) h =
    run-AreOrderly (run_call s c) cs ls (run_call-AreOrderly s c l h)

-- After any run from orderly groups, for instance from none, a round grants an endpoint only if its group, this
-- request included, is then out of cooldown and within its limits on requests at once and on
-- requests in the last minute; with no endpoint to grant, it names a time after the present.
pub run-IsFair :
    (s : System) (cs : List Call) (elapsed : ℕ) (es : List EgressEndpoint)
    → AreOrderly s.now s.pool.groups
    → All IsConfigured cs
    → All HasLimit es
    → IsFairRound ((run s cs).now + elapsed) (admit ((run s cs).now + elapsed) es (run s cs).pool)
run-IsFair s cs elapsed es h c l =
    let s' = run s cs in
    let now = s'.now + elapsed in
    admit-IsFair now es s'.pool
      (λ name g e. weaken-IsOrderly s'.now now g (omega arith) (run-AreOrderly s cs c h name g e)) l
