-- ===== src/RateLimit.antt =====
-- Shared upstream rate windows and their single recovery probe (internal/bridge/rate_limit.go,
-- stream_error_details.go: finishRequestRateLease, scheduling_runtime.go: the console's reset).
-- Windows and leases are shared by pointer in Go; here each carries the identity it was made with,
-- and the limiter hands out identities in order. One call holds the mutex, so it is one step.
pub mod Step
pub mod Admission
pub mod Spares
pub mod Carry
pub mod Lasting
pub mod Reopening
pub mod Probe
pub mod Recovery
pub mod Refusal
pub mod Tests
use cline_pass_bridge.Base.{
  ℕ, ◌+◌, ◌*◌, ◌%◌, String, ◌≡◌, refl, ◌↔◌, Bool, true, false, ◌&&◌, ◌||◌, not, Option, none, some,
  ◌++◌, arith, ltb, leb, ◌==◌, Comparable, nat_eq, string_eq, if◌then◌else◌, is_some, eq_iff,
}
use cline_pass_bridge.Base.Dict.{Dict, get, put, keep, adjust, remove}
use cline_pass_bridge.Base.Text.{Text, codes, decimal}
use cline_pass_bridge.Faults.{
  Fault, upstream, UpstreamError, upstream_fault, Result, ok, err, second, minute, retry_seconds,
  as_team_rate_limit,
}
use cline_pass_bridge.Faults.Policy.{FaultLib, fault_policy_for}

pub record RateKey : Type 0 where
  pub credential : String
  pub model : String
  pub fingerprint : String

abbrev pub key_beq : RateKey → RateKey → Bool
key_beq a b = a.credential == b.credential && (a.model == b.model && a.fingerprint == b.fingerprint)

pub key_beq_iff : (a b : RateKey) → (key_beq a b ≡ true) ↔ (a ≡ b)
key_beq_iff a b = ground (
  arith,
  eq_iff a.credential b.credential,
  eq_iff a.model b.model,
  eq_iff a.fingerprint b.fingerprint,
)

instance abbrev pub key_eq : Comparable RateKey
key_eq = record { same = key_beq; same_iff = key_beq_iff }

pub record Window : Type 0 where
  pub ref : ℕ
  pub id : String
  pub retry_at : ℕ
  pub scope : String
  pub probe : Option ℕ  -- the lease that probes for recovery
  pub epoch : ℕ  -- uint64

pub record Lease : Type 0 where
  pub ref : ℕ
  pub key : RateKey
  pub state : Option ℕ  -- the window that the lease probes
  pub epoch : ℕ

pub record Limiter : Type 0 where
  pub windows : Dict RateKey Window
  pub fresh : ℕ

abbrev pub rate_limit_marker : Text
rate_limit_marker = codes "[clinepassbridge:team_tpm_limit]"

-- Expired idle windows are dropped ten minutes after they end.
abbrev pub is_stale : ℕ → Option Window → Bool
is_stale now none = false
is_stale now (some w) = not (is_some w.probe) && ltb (w.retry_at + 10 * minute) now

unfoldable pub sweep : ℕ → Dict RateKey Window → Dict RateKey Window
sweep now ws = keep (λ k. not (is_stale now (get ws k))) ws

unfoldable pub refusal_text : ℕ → ℕ → Text → Text
refusal_text until now reason =
    rate_limit_marker
    ++ (codes " Upstream shared team/region token rate limit. Retry after "
        ++ (decimal (retry_seconds until now)
            ++ (codes "s. " ++ (reason ++ codes "; no upstream request sent"))))

-- The error of a request that is not sent.
unfoldable pub refusal : ℕ → Window → UpstreamError
refusal now w =
    let probing = is_some w.probe && leb w.retry_at now in
    let until = if probing then now + second else w.retry_at in
    let reason =
      if probing
      then codes "upstream recovery probe in progress"
      else codes "upstream rate limit window" in
    record (upstream_fault 429 "upstream_team_rate_limited" (refusal_text until now reason)) {
      retry_at = until;
      scope = w.scope;
      local = true;
      window_id = w.id;
    }

unfoldable pub is_closed : ℕ → Window → Bool
is_closed now w = ltb now w.retry_at || is_some w.probe

-- Admission against the swept windows.
unfoldable pub admit : ℕ → RateKey → Limiter → Option Window → Limiter × Result Lease
unfolding is_closed
admit now key l none = (
  record l { fresh = l.fresh + 1 },
  ok (record { ref = l.fresh; key = key; state = none; epoch = 0 }),
)
admit now key l (some w) = if is_closed now w then (l, err (upstream (refusal now w))) else (
  record { windows = put l.windows key (record w { probe = some l.fresh }); fresh = l.fresh + 1 },
  ok (record { ref = l.fresh; key = key; state = some w.ref; epoch = w.epoch }),
)

unfoldable pub acquire : ℕ → RateKey → Limiter → Limiter × Result Lease
unfolding admit
acquire now key l =
    let swept = record l { windows = sweep now l.windows } in
    admit now key swept (get swept.windows key)

abbrev pub later : ℕ → ℕ → ℕ
later a b = if ltb a b then b else a

abbrev pub u64 : ℕ → ℕ
u64 n = n % 18446744073709551616

abbrev pub is_probe_of : Lease → Window → Bool
is_probe_of lease w = elim w.probe [ none ↦ false | some r ↦ r == lease.ref ]

-- `state != nil && state == lease.state && state.probe == lease`
abbrev pub owns : Lease → Window → Bool
owns lease w = elim lease.state [ none ↦ false | some r ↦ r == w.ref ] && is_probe_of lease w

-- The window after a rate limit that the upstream reported; `made` is the identifier of a new one.
unfoldable pub extend : String → Lease → UpstreamError → Limiter → Option Window → Limiter
extend made lease limited l none = record {
  windows = put l.windows lease.key (record {
    ref = l.fresh;
    id = made;
    retry_at = limited.retry_at;
    scope = limited.scope;
    probe = none;
    epoch = 1;
  });
  fresh = l.fresh + 1;
}
extend made lease limited l (some w) = record l {
  windows = put l.windows lease.key (record w {
    retry_at = later w.retry_at limited.retry_at;
    scope = limited.scope;
    epoch = u64 (w.epoch + 1);
    probe = if is_probe_of lease w then none else w.probe;
  });
}

-- A result that reports no upstream limit.
unfoldable pub settle : ℕ → Lease → Bool → Limiter → Option Window → Limiter
settle now lease failed l none = l
settle now lease failed l (some w) =
    if owns lease w
    then (if w.epoch == lease.epoch && not failed
        then record l { windows = remove l.windows lease.key }
        else record l {
          windows = put l.windows lease.key (record w {
            probe = none;
            retry_at = if failed then later w.retry_at (now + 5 * second) else w.retry_at;
          });
        })
    else l

-- The rate limit that an error reports from the upstream; a local refusal is none.
unfoldable pub reported : Option Fault → Option UpstreamError
unfolding as_team_rate_limit
reported e = elim (as_team_rate_limit e) [
  | none ↦ none
  | some u ↦ (if u.local then none else some u)
]

unfoldable pub finish : ℕ → String → Option Lease → Option Fault → Limiter → Limiter
unfolding extend settle reported
finish now made none e l = l
finish now made (some lease) e l = elim (reported e) [
  | some u ↦ extend made lease u l (get l.windows lease.key)
  | none ↦ settle now lease (is_some e) l (get l.windows lease.key)
]

-- Gives the probe back and leaves the window as it is.
unfoldable pub release_probe : Lease → Limiter → Option Window → Limiter
release_probe lease l none = l
release_probe lease l (some w) =
    if owns lease w
    then record l { windows = put l.windows lease.key (record w { probe = none }) }
    else l

-- No error, or one that the credential answers for.
unfoldable pub settles_lease : FaultLib → Option Fault → Bool
settles_lease lib e = not (is_some e) || (fault_policy_for lib e).cooldown

unfoldable pub finish_request :
    FaultLib → ℕ → String → Option Lease → Option Fault → Limiter → Limiter
finish_request lib now made none e l = l
finish_request lib now made (some lease) e l =
    if settles_lease lib e
    then finish now made (some lease) e l
    else release_probe lease l (get l.windows lease.key)

-- resetSchedulingWindows: a running probe stays the only one, with its window open for it alone.
unfoldable pub reset_windows : ℕ → String → Limiter → Limiter
reset_windows now id l = record l {
  windows =
      adjust
        (λ key w.
          if key.credential == id
          then (if is_some w.probe then some (record w { retry_at = now }) else none)
          else some w)
        l.windows;
}
