-- ===== src/Egress/Count.antt =====
-- The count of a group's requests that are out (internal/bridge/egress_pool.go).
use mathlib.Core.Path.{subst}
use mathlib.Core.Option
use mathlib.Core.Option.{some-injective, none-ne-some}
use cline_pass_bridge.Base.{
  ℕ, zero, suc, ◌+◌, ◌-◌, ◌≤◌, String, ◌≡◌, refl, sym, ap, ◌∙◌, Bool, true, false, Option, none,
  some, List, [], ◌∷◌, arith, eq_iff, leb, ◌==◌, nat_eq, string_eq, if◌then◌else◌, length,
  get_elem?, Bool-cases, inl, inr,
}
use cline_pass_bridge.Base.Dict.{Dict, get, put, get-put}
use cline_pass_bridge.Faults.{second}
use cline_pass_bridge.Egress.{
  EgressGroup, EgressLease, prune_egress_usage, group_for, available, may_send, charge, earlier,
  Outcome, granted, unavailable, visits, scan, admit, settle_round, try_admit, take_lease,
  release_group, release, cooldown_group, relimit, apply, on_group, cool_down, set_limits,
}
use cline_pass_bridge.Egress.Config.{EgressEndpoint}
use cline_pass_bridge.Egress.Scan.{group_at}
use cline_pass_bridge.Egress.Run.{
  System, Call, admit_call, release_call, cooldown_call, apply_call, remove_at, lend, give_back,
  run_call, run, get-on_group,
}

-- How many requests of a group are out, by the group's count and by the leases.
abbrev pub inflight_of : Option EgressGroup → ℕ
inflight_of none = 0
inflight_of (some g) = g.inflight

abbrev pub one_if : Bool → ℕ
one_if true = 1
one_if false = 0

abbrev pub live_in : String → List EgressLease → ℕ
live_in name [] = 0
live_in name (l ∷ ls) = one_if (name == l.group) + live_in name ls

unfoldable pub CountsLive : System → Type 0
CountsLive s = (name : String) → inflight_of (get s.pool.groups name) ≡ live_in name s.live

pruned_inflight :
    (now : ℕ) (e : EgressEndpoint) (o : Option EgressGroup)
    → (prune_egress_usage now (group_for e o)).inflight ≡ inflight_of o
unfolding prune_egress_usage group_for
pruned_inflight now e none = refl
pruned_inflight now e (some g) = refl

abbrev grants : String → Outcome → Bool
grants name (granted i e) = name == e.group
grants name (unavailable next) = false

put_pruned_inflight :
    (now : ℕ) (name : String) (e : EgressEndpoint) (groups : Dict String EgressGroup)
    → inflight_of (get (put groups e.group (group_at now e groups)) name)
      ≡ inflight_of (get groups name)
put_pruned_inflight now name e groups = elim (Bool-cases (name == e.group)) [
  | inl same ↦
      rw (get-put groups e.group name (group_at now e groups), same)
        (pruned_inflight now e (get groups e.group)
          ∙ ap (λ n. inflight_of (get groups n)) (sym ((eq_iff name e.group).0 same)))
  | inr other ↦ rw (get-put groups e.group name (group_at now e groups), other) refl
]

charged_inflight : (now : ℕ) (g : EgressGroup) → (charge now g).inflight ≡ g.inflight + 1
unfolding charge
charged_inflight now g = refl

put_charged_inflight :
    (now : ℕ) (name : String) (e : EgressEndpoint) (groups : Dict String EgressGroup)
    → inflight_of (get (put groups e.group (charge now (group_at now e groups))) name)
      ≡ inflight_of (get groups name) + one_if (name == e.group)
put_charged_inflight now name e groups = elim (Bool-cases (name == e.group)) [
  | inl same ↦
      rw (get-put groups e.group name (charge now (group_at now e groups)), same)
        (charged_inflight now (group_at now e groups)
          ∙ ap (λ n. n + 1)
              (pruned_inflight now e (get groups e.group)
                ∙ ap (λ n. inflight_of (get groups n)) (sym ((eq_iff name e.group).0 same))))
  | inr other ↦
      rw (get-put groups e.group name (charge now (group_at now e groups)), other) (omega arith)
]

-- The requests out of a group after a scan: one more, if it grants an endpoint of the group.
scan_inflight :
    (now : ℕ) (name : String) (vs : List (ℕ × EgressEndpoint)) (groups : Dict String EgressGroup)
    (next : ℕ)
    → inflight_of (get (scan now vs groups next).0 name)
      ≡ inflight_of (get groups name) + one_if (grants name (scan now vs groups next).1)
unfolding scan
scan_inflight now name [] groups next = omega arith
scan_inflight now name ((i, e) ∷ vs) groups next =
    let g = group_at now e groups in
    let later = earlier next (if leb (available g) now then now + second else available g) in
    elim (Bool-cases (may_send now g)) [
      | inl may ↦ rw may (put_charged_inflight now name e groups)
      | inr busy ↦ rw busy (
          scan_inflight now name vs (put groups e.group g) later
          ∙ ap (λ n. n + one_if (grants name (scan now vs (put groups e.group g) later).1))
              (put_pruned_inflight now name e groups))
    ]

lend_counts :
    (s : System) (now : ℕ) (es : List EgressEndpoint) (r : Dict String EgressGroup × Outcome)
    → ((name : String)
        → inflight_of (get r.0 name) ≡ live_in name s.live + one_if (grants name r.1))
    → CountsLive (lend s (take_lease now (settle_round es s.pool r)))
unfolding CountsLive take_lease settle_round
lend_counts s now es (groups, granted i e) h name = omega (arith, h name)
lend_counts s now es (groups, unavailable next) h name = omega (arith, h name)

-- A change of the count of one group.
inflight_map :
    (f : EgressGroup → EgressGroup) (d : ℕ) (o : Option EgressGroup)
    → ((g : EgressGroup) → (f g).inflight ≡ g.inflight - d)
    → inflight_of (Option.map f o) ≡ inflight_of o - d
inflight_map f d none h = omega arith
inflight_map f d (some g) h = h g

inflight-on_group :
    (f : EgressGroup → EgressGroup) (d : ℕ) (name : String) (groups : Dict String EgressGroup)
    (k : String)
    → ((g : EgressGroup) → (f g).inflight ≡ g.inflight - d)
    → inflight_of (get (on_group f name groups) k)
      ≡ inflight_of (get groups k) - (if k == name then d else 0)
inflight-on_group f d name groups k h = elim (Bool-cases (k == name)) [
  | inl same ↦
      rw (get-on_group f name groups k, same)
        (inflight_map f d (get groups name) h
          ∙ ap (λ n. inflight_of (get groups n) - d) (sym ((eq_iff k name).0 same)))
  | inr other ↦ rw (get-on_group f name groups k, other) (omega arith)
]

released_one :
    (lease : EgressLease) (g : EgressGroup) → (release_group lease g).inflight ≡ g.inflight - 1
unfolding release_group
released_one lease g = refl

cooled_none : (until : ℕ) (g : EgressGroup) → (cool_down until g).inflight ≡ g.inflight - 0
unfolding cool_down
cooled_none until g = omega arith

limited_none : (e : EgressEndpoint) (g : EgressGroup) → (set_limits e g).inflight ≡ g.inflight - 0
unfolding set_limits
limited_none e g = omega arith

relimit_inflight :
    (es : List EgressEndpoint) (groups : Dict String EgressGroup) (k : String)
    → inflight_of (get (relimit es groups) k) ≡ inflight_of (get groups k)
unfolding relimit
relimit_inflight [] groups k = refl
relimit_inflight (e ∷ es) groups k =
    relimit_inflight es (on_group (set_limits e) e.group groups) k
    ∙ (inflight-on_group (set_limits e) 0 e.group groups k (limited_none e) ∙ ground arith)

live_in_member :
    (name : String) (k : ℕ) (ls : List EgressLease) (l : EgressLease)
    → get_elem? ls k ≡ some l
    → (if name == l.group then 1 else 0) ≤ live_in name ls
live_in_member name k [] l h = absurd (none-ne-some l h)
live_in_member name zero (x ∷ ls) l h =
    subst (λ y. (if name == y.group then 1 else 0) ≤ live_in name (x ∷ ls)) (some-injective x l h)
      (ground arith)
live_in_member name (suc k) (x ∷ ls) l h = let rest = live_in_member name k ls l h in ground arith

live_in-remove_at :
    (name : String) (k : ℕ) (ls : List EgressLease) (l : EgressLease)
    → get_elem? ls k ≡ some l
    → live_in name (remove_at k ls) ≡ live_in name ls - (if name == l.group then 1 else 0)
live_in-remove_at name k [] l h = absurd (none-ne-some l h)
live_in-remove_at name zero (x ∷ ls) l h =
    subst (λ y. live_in name ls ≡ live_in name (x ∷ ls) - (if name == y.group then 1 else 0))
      (some-injective x l h) (ground arith)
live_in-remove_at name (suc k) (x ∷ ls) l h =
    let rest = live_in-remove_at name k ls l h in
    let there = live_in_member name k ls l h in ground arith

give_back_counts :
    (s : System) (k : ℕ) (sent : Bool) (o : Option EgressLease)
    → get_elem? s.live k ≡ o
    → CountsLive s
    → CountsLive (give_back s k sent o)
unfolding CountsLive release
give_back_counts s k sent none e h = h
give_back_counts s k sent (some l) e h = λ name.
    let lease = record l { sent = sent } in
    inflight-on_group (release_group lease) 1 l.group s.pool.groups name (released_one lease)
    ∙ (ap (λ n. n - (if name == l.group then 1 else 0)) (h name)
        ∙ sym (live_in-remove_at name k s.live l e))

run_call_counts : (s : System) (c : Call) → CountsLive s → CountsLive (run_call s c)
unfolding CountsLive run_call try_admit admit cooldown_group apply
run_call_counts s (admit_call elapsed es) h =
    let now = s.now + elapsed in
    let vs = visits es s.pool.cursor 0 (length es) in
    lend_counts (record s { now = now }) now es (scan now vs s.pool.groups 0)
      (λ name.
        scan_inflight now name vs s.pool.groups 0
        ∙ ap (λ n. n + one_if (grants name (scan now vs s.pool.groups 0).1)) (h name))
run_call_counts s (release_call k sent) h = give_back_counts s k sent (get_elem? s.live k) refl h
run_call_counts s (cooldown_call name until) h = λ other.
    inflight-on_group (cool_down until) 0 name s.pool.groups other (cooled_none until)
    ∙ (ground arith ∙ h other)
run_call_counts s (apply_call cfg) h =
    λ other. relimit_inflight cfg.endpoints s.pool.groups other ∙ h other

-- Whatever rounds, releases, cooldowns and reconfigurations a run is made of, each group counts as
-- many requests out as there are leases of it that were granted and not released.
pub run-CountsLive : (s : System) (cs : List Call) → CountsLive s → CountsLive (run s cs)
unfolding run
run-CountsLive s [] h = h
run-CountsLive s (c ∷ cs) h = run-CountsLive (run_call s c) cs (run_call_counts s c h)
