-- ===== src/RateLimit/Admission.antt =====
-- Who is admitted: the windows of reported limits keep requests back until they end.
use cline_pass_bridge.Base.{
  ℕ, ◌<◌, String, ◌≡◌, refl, ap, ◌∙◌, ◌≢◌, inl, inr, Bool, true, false, ◌||◌, Option, none, some,
  ◌++◌, arith, ltb, nat_eq, string_eq, is_some, Bool-cases,
}
use mathlib.Core.Path.{subst}
use cline_pass_bridge.Base.Text.{Text}
use cline_pass_bridge.Base.Dict.{get}
use cline_pass_bridge.Faults.{Fault, UpstreamError, Result, ok, err, upstream}
use cline_pass_bridge.RateLimit.{
  RateKey, key_eq, Window, Lease, Limiter, sweep, is_closed, admit, acquire, later, reported,
  finish, rate_limit_marker, refusal, refusal_text,
}
use cline_pass_bridge.RateLimit.Step.{
  window_at, swept_window, get-sweep, finish-reported_window, finish-settled_window,
  extended_window, settled_window,
}

abbrev pub is_refused : Result Lease → Bool
is_refused (ok lease) = false
is_refused (err e) = true

-- A key is shut while its window lasts, and while a recovery probe is out.
abbrev pub is_shut : ℕ → Option Window → Bool
is_shut now none = false
is_shut now (some w) = ltb now w.retry_at || is_some w.probe

is_refused-admit :
    (now : ℕ) (key : RateKey) (l : Limiter) (o : Option Window)
    → is_refused (admit now key l o).1 ≡ is_shut now o
unfolding admit
is_refused-admit now key l none = refl
is_refused-admit now key l (some w) = ground arith

-- Sweeping drops no window that would refuse.
is_shut-swept : (now : ℕ) (o : Option Window) → is_shut now (swept_window now o) ≡ is_shut now o
is_shut-swept now none = refl
is_shut-swept now (some w) = ground arith

-- `acquire` refuses exactly while the window of its key lasts or a recovery probe is out, whatever
-- the sweep of expired windows has dropped.
pub acquire_refuses :
    (now : ℕ) (key : RateKey) (l : Limiter)
    → is_refused (acquire now key l).1 ≡ is_shut now (window_at l key)
unfolding acquire
acquire_refuses now key l =
    is_refused-admit now key (record l { windows = sweep now l.windows })
      (get (sweep now l.windows) key)
    ∙ (ap (is_shut now) (get-sweep now l.windows key) ∙ is_shut-swept now (window_at l key))

-- The error of a refusal: a local 429 of the team kind whose text begins with the marker.
abbrev pub IsLocalRefusal : ℕ → UpstreamError → Type 0
IsLocalRefusal now u =
    (u.local ≡ true)
    × (u.status ≡ 429)
    × (u.kind ≡ "upstream_team_rate_limited")
    × (now < u.retry_at)
    × ((rest : Text) × (u.message ≡ rate_limit_marker ++ rest))

refusal_lem :
    (now : ℕ) (w : Window) → is_shut now (some w) ≡ true → IsLocalRefusal now (refusal now w)
unfolding refusal refusal_text
refusal_lem now w h = (refl, refl, refl, ground arith, (_, refl))

admit_error :
    (now : ℕ) (key : RateKey) (l : Limiter) (o : Option Window) {e : Fault}
    → (admit now key l o).1 ≡ err e
    → (u : UpstreamError) × (e ≡ upstream u) × IsLocalRefusal now u
unfolding admit
admit_error now key l none h = cc
admit_error now key l (some w) h = elim (Bool-cases (is_closed now w)) [
  | inl shut ↦ (refusal now w, ground (arith, shut), refusal_lem now w shut)
  | inr free ↦ absurd (ground (arith, free))
]

-- A refusal names a retry time after the present, and its text begins with the marker of the default
-- error rule, with the status and kind of a team limit, marked as local.
pub acquire_error :
    (now : ℕ) (key : RateKey) (l : Limiter) {e : Fault}
    → (acquire now key l).1 ≡ err e
    → (u : UpstreamError) × (e ≡ upstream u) × IsLocalRefusal now u
unfolding acquire
acquire_error now key l h =
    admit_error now key (record l { windows = sweep now l.windows }) (get (sweep now l.windows) key)
      h

abbrev pub extended_until : ℕ → Option Window → ℕ
extended_until t none = t
extended_until t (some w) = later w.retry_at t

-- A newer report has moved the window's epoch past the one that the lease has seen.
settled_stale_shuts :
    (now at : ℕ) (lease : Lease) (failed : Bool) (w : Window) {o : Option Window}
    → o ≡ some w
    → w.epoch ≢ lease.epoch
    → at < w.retry_at
    → is_shut at (settled_window now lease failed o) ≡ true
settled_stale_shuts now at lease failed w {o = none} e newer h = cc
settled_stale_shuts now at lease failed w {o = some v} e newer h = ground arith

pub reported-none : reported none ≡ none
unfolding reported
reported-none = refl

stale_success_shuts :
    (l : Limiter) (lease : Lease) (w : Window) (now at : ℕ) (made : String)
    → window_at l lease.key ≡ some w
    → w.epoch ≢ lease.epoch
    → at < w.retry_at
    → is_refused (acquire at lease.key (finish now made (some lease) none l)).1 ≡ true
stale_success_shuts l lease w now at made e newer h =
    acquire_refuses at lease.key (finish now made (some lease) none l)
    ∙ (ap (is_shut at) (finish-settled_window now made lease none l reported-none)
        ∙ settled_stale_shuts now at lease false w e newer h)

-- A recovery probe that succeeds after another request of its key has reported a new limit does
-- not erase that limit: requests are refused until the later of the old and the new end.
pub late_success_keeps_limit :
    (l : Limiter) (probe reporter : Lease) (w : Window) (e : Option Fault) (t1 t2 at : ℕ)
    (made1 made2 : String) {u : UpstreamError}
    → window_at l probe.key ≡ some w
    → w.epoch ≡ probe.epoch
    → reporter.key ≡ probe.key
    → reported e ≡ some u
    → at < later w.retry_at u.retry_at
    → is_refused
        (acquire at probe.key
          (finish t2 made2 (some probe) none (finish t1 made1 (some reporter) e l))).1
      ≡ true
late_success_keeps_limit l probe reporter w e t1 t2 at made1 made2 {u} hw he hk hr before =
    stale_success_shuts (finish t1 made1 (some reporter) e l) probe
      (extended_window made1 l.fresh reporter u (some w)) t2 at made2
      (subst
        (λ k.
          window_at (finish t1 made1 (some reporter) e l) k
          ≡ some (extended_window made1 l.fresh reporter u (some w)))
        hk
        (finish-reported_window t1 made1 reporter e l hr
          ∙ ap (λ o. some (extended_window made1 l.fresh reporter u o)) (ap (window_at l) hk ∙ hw)))
      (omega (arith)) before
