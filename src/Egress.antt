-- ===== src/Egress.antt =====
-- The pool of egress proxies: shared request budgets per group, admission, refunds and cooldowns
-- (internal/bridge/egress_pool.go; egress_transport.go: cooldownGroupLocked; egress_config.go).
-- Groups are never deleted, so a lease names its group in place of a pointer. Times are
-- nanoseconds, and the clock's reading is an argument.
pub mod Config
pub mod Budget
pub mod Scan
pub mod Refusal
pub mod Leases
pub mod Run
pub mod Count
pub mod Order
pub mod Choice
pub mod Parse
pub mod Accepted
pub mod Names
pub mod Tests
use cline_pass_bridge.Base.{
  ℕ, zero, suc, ◌+◌, ◌-◌, ◌*◌, ◌%◌, String, ◌≡◌, refl, Bool, true, false, ◌&&◌, ◌||◌, not, Option,
  none, some, List, [], ◌∷◌, ◌++◌, arith, ltb, leb, ◌==◌, nat_eq, string_eq, if◌then◌else◌, is_some,
  length, get_elem?, get_or, select, any,
}
use cline_pass_bridge.Base.Dict.{Dict, get, put}
use cline_pass_bridge.Base.Text.{Text, codes}
use cline_pass_bridge.Faults.{
  Fault, api, upstream, upstream_fault, Result, ok, err, fail, request_fault, second, minute,
}
use Config.{EgressConfig, EgressEndpoint, UrlLib, normalize_egress_proxy, pin_endpoint}

pub record EgressGroup : Type 0 where
  pub rpm : ℕ
  pub max_inflight : ℕ
  pub inflight : ℕ
  pub sent : List ℕ
  pub cooldown : ℕ

pub record EgressManager : Type 0 where
  pub cfg : EgressConfig
  pub groups : Dict String EgressGroup
  pub closed : Bool
  pub cursor : ℕ

pub record EgressLease : Type 0 where
  pub group : String
  pub endpoint : EgressEndpoint
  pub reserved : ℕ
  pub sent : Bool

-- The admissions of the last minute: `for n < len(sent) && !sent[n].After(now - 1m) { n++ }`.
unfoldable pub drop_old : ℕ → List ℕ → List ℕ
drop_old now [] = []
drop_old now (t ∷ ts) = let rest = drop_old now ts in if leb (t + minute) now then rest else t ∷ ts

unfoldable pub prune_egress_usage : ℕ → EgressGroup → EgressGroup
unfolding drop_old
prune_egress_usage now g = record g { sent = drop_old now g.sent }

abbrev pub later_time : ℕ → ℕ → ℕ
later_time a b = if ltb a b then b else a

-- The existing group of an endpoint, or a new one with the endpoint's limits.
unfoldable pub group_for : EgressEndpoint → Option EgressGroup → EgressGroup
group_for e none = record {
  rpm = e.rpm;
  max_inflight = e.max_inflight;
  inflight = 0;
  sent = [];
  cooldown = 0;
}
group_for e (some g) = g

-- When the group may send again, by its cooldown and its requests per minute. A configured rpm is
-- at least 1, so the index is in range.
unfoldable pub available : EgressGroup → ℕ
available g =
    if leb g.rpm (length g.sent)
    then later_time g.cooldown (get_or g.sent (length g.sent - g.rpm) 0 + minute)
    else g.cooldown

unfoldable pub may_send : ℕ → EgressGroup → Bool
unfolding available
may_send now g = leb (available g) now && ltb g.inflight g.max_inflight

unfoldable pub charge : ℕ → EgressGroup → EgressGroup
charge now g = record g { inflight = g.inflight + 1; sent = g.sent ++ now ∷ [] }

-- `next.IsZero() || available.Before(next)`
abbrev pub earlier : ℕ → ℕ → ℕ
earlier next a = if next == 0 || ltb a next then a else next

pub data Outcome : Type 0 where
  granted : ℕ → EgressEndpoint → Outcome
  unavailable : ℕ → Outcome

unfoldable pub visit :
    ℕ → Option EgressEndpoint → List (ℕ × EgressEndpoint) → List (ℕ × EgressEndpoint)
visit i none rest = rest
visit i (some e) rest = (i, e) ∷ rest

-- The order of one pass: the indices (cursor + n) % len.
unfoldable pub visits : List EgressEndpoint → ℕ → ℕ → ℕ → List (ℕ × EgressEndpoint)
visits es cursor n zero = []
visits es cursor n (suc k) =
    let i = (cursor + n) % length es in visit i (get_elem? es i) (visits es cursor (suc n) k)

unfoldable pub scan :
    ℕ → List (ℕ × EgressEndpoint) → Dict String EgressGroup → ℕ → Dict String EgressGroup × Outcome
scan now [] groups next = (groups, unavailable (if next == 0 then now + second else next))
scan now ((i, e) ∷ vs) groups next =
    let g = prune_egress_usage now (group_for e (get groups e.group)) in
    let at = available g in
    let rest =
      scan now vs (put groups e.group g) (earlier next (if leb at now then now + second else at)) in
    if may_send now g then (put groups e.group (charge now g), granted i e) else rest

-- The cursor moves past the granted endpoint.
unfoldable pub settle_round :
    List EgressEndpoint
    → EgressManager
    → Dict String EgressGroup × Outcome
    → EgressManager × Outcome
settle_round es p (groups, granted i e) =
    (record p { groups = groups; cursor = (i + 1) % length es }, granted i e)
settle_round es p (groups, unavailable next) = (record p { groups = groups }, unavailable next)

-- One round of the admission loop over the candidates.
unfoldable pub admit : ℕ → List EgressEndpoint → EgressManager → EgressManager × Outcome
admit now es p = settle_round es p (scan now (visits es p.cursor 0 (length es)) p.groups 0)

-- The endpoints of a pinned proxy. A configured proxy that is switched off is never used.
unfoldable pub pinned : UrlLib → EgressConfig → Result String → Result (List EgressEndpoint)
pinned lib cfg (err e) = err e
pinned lib cfg (ok proxy) =
    if any (λ e. e.proxy_url == proxy) cfg.endpoints
    then ok (select (λ e. e.proxy_url == proxy && e.enabled) cfg.endpoints)
    else if proxy == "direct"
    then err (fail 400 (codes "direct credential routing requires an enabled direct pool endpoint"))
    else ok (pin_endpoint lib proxy ∷ [])

-- The endpoints that a request may use.
unfoldable pub candidates : UrlLib → EgressConfig → String → Result (List EgressEndpoint)
candidates lib cfg pin =
    if pin == ""
    then (if cfg.enabled then ok (select (λ e. e.enabled) cfg.endpoints) else ok [])
    else pinned lib cfg (normalize_egress_proxy lib pin)

unfoldable pub no_capacity : ℕ → Fault
no_capacity next =
    upstream
      (record (upstream_fault 429 "local_egress_unavailable" (
        codes
          "[clinepassbridge:egress_unavailable] No egress capacity available; no upstream request sent")) {
            retry_at = next;
            scope = "egress_pool";
            local = true;
          })

unfoldable pub closing : Fault
closing = request_fault 503 "bridge_unavailable" (codes "egress transport is closing")

-- What a request finds when it enters a round of the loop: the time, its context's error, and the
-- manager as other calls have left it.
pub record Round : Type 0 where
  pub now : ℕ
  pub ctx_err : Option Fault
  pub pool : EgressManager

-- What wakes a waiting request: its context ends, the wait limit passes, or capacity may have come
-- free (a release, a configuration change, or the timer).
pub data Wake : Type 0 where
  canceled : Fault → Wake
  expired : Wake
  awake : Round → Wake

pub data Acquired : Type 0 where
  leased : EgressLease → Acquired
  failed : Fault → Acquired
  waiting : ℕ → Acquired

unfoldable pub take_lease : ℕ → EgressManager × Outcome → EgressManager × Acquired
take_lease now (p, granted i e) =
    (p, leased (record { group = e.group; endpoint = e; reserved = now; sent = false }))
take_lease now (p, unavailable next) = (p, waiting next)

unfoldable pub try_admit : ℕ → List EgressEndpoint → EgressManager → EgressManager × Acquired
try_admit now es p = take_lease now (admit now es p)

unfoldable pub enter : UrlLib → String → Round → EgressManager × Acquired
unfolding try_admit
enter lib pin r = if r.pool.closed then (r.pool, failed closing) else elim r.ctx_err [
  | some e ↦ (r.pool, failed e)
  | none ↦ elim (candidates lib r.pool.cfg pin) [
    | err e ↦ (r.pool, failed e)
    | ok es ↦ try_admit r.now es r.pool
  ]
]

-- The loop of `acquire` over the events that wake it; `wait` is the configured wait in seconds.
unfoldable pub acquire : UrlLib → String → ℕ → Round → List Wake → EgressManager × Acquired
acquire lib pin wait r [] =
    let (p, got) = enter lib pin r in
    elim got [
      | leased l ↦ (p, leased l)
      | failed e ↦ (p, failed e)
      | waiting next ↦ (p, if wait == 0 then failed (no_capacity next) else waiting next)
    ]
acquire lib pin wait r (w ∷ ws) =
    let (p, got) = enter lib pin r in
    elim got [
      | leased l ↦ (p, leased l)
      | failed e ↦ (p, failed e)
      | waiting next ↦
          (if wait == 0 then (p, failed (no_capacity next)) else elim w [
            | canceled e ↦ (p, failed e)
            | expired ↦ (p, failed (no_capacity next))
            | awake r' ↦ acquire lib pin wait r' ws
          ])
    ]

-- The first occurrence of the reserved time is given back.
unfoldable pub refund : ℕ → List ℕ → List ℕ
refund at [] = []
refund at (t ∷ ts) = if t == at then ts else t ∷ refund at ts

unfoldable pub release_group : EgressLease → EgressGroup → EgressGroup
unfolding refund
release_group lease g = record g {
  inflight = g.inflight - 1;
  sent = if lease.sent then g.sent else refund lease.reserved g.sent;
}

unfoldable pub store_group :
    (EgressGroup → EgressGroup)
    → String
    → Dict String EgressGroup
    → Option EgressGroup
    → Dict String EgressGroup
store_group f name groups none = groups
store_group f name groups (some g) = put groups name (f g)

-- A change of the group that a pointer, here its name, leads to.
unfoldable pub on_group :
    (EgressGroup → EgressGroup) → String → Dict String EgressGroup → Dict String EgressGroup
unfolding store_group
on_group f name groups = store_group f name groups (get groups name)

-- The first release of a lease; a second one does nothing, by the lease's `sync.Once`.
unfoldable pub release : EgressLease → EgressManager → EgressManager
release lease p = record p { groups = on_group (release_group lease) lease.group p.groups }

unfoldable pub cool_down : ℕ → EgressGroup → EgressGroup
cool_down until g = record g { cooldown = later_time g.cooldown until }

-- cooldownGroupLocked
unfoldable pub cooldown_group : String → ℕ → EgressManager → EgressManager
cooldown_group name until p = record p { groups = on_group (cool_down until) name p.groups }

unfoldable pub set_limits : EgressEndpoint → EgressGroup → EgressGroup
set_limits e g = record g { rpm = e.rpm; max_inflight = e.max_inflight }

-- New limits reach the existing groups; their usage and cooldowns stay.
unfoldable pub relimit : List EgressEndpoint → Dict String EgressGroup → Dict String EgressGroup
relimit [] groups = groups
relimit (e ∷ es) groups = relimit es (on_group (set_limits e) e.group groups)

unfoldable pub apply : EgressConfig → EgressManager → EgressManager
apply cfg p = record p { cfg = cfg; groups = relimit cfg.endpoints p.groups }
