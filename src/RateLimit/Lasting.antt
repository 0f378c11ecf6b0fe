-- ===== src/RateLimit/Lasting.antt =====
-- A reported limit lasts, whatever calls follow it.
use cline_pass_bridge.Base.{
  ℕ, ◌≤◌, ◌<◌, String, ◌≡◌, refl, sym, ◌∙◌, inl, inr, Bool, true, false, Option, none, some, List,
  [], ◌∷◌, arith, ◌==◌, nat_eq, string_eq, is_some, Bool-cases, All,
}
use cline_pass_bridge.Faults.{Fault, UpstreamError}
use cline_pass_bridge.Faults.Policy.{FaultLib}
use cline_pass_bridge.RateLimit.{
  RateKey, Window, Lease, Limiter, acquire, reported, finish, settles_lease,
}
use cline_pass_bridge.RateLimit.Step.{
  Call, acquire_call, finish_call, finish_request_call, reset_call, run, window_at, swept_window,
  finish-reported_window, extended_window, settled_window, released_window, acquired_window,
}
use cline_pass_bridge.RateLimit.Admission.{is_refused, is_shut, acquire_refuses, extended_until}
use cline_pass_bridge.RateLimit.Carry.{ended_by, requested_window, Carries, run_carries}

-- A window that does not end before a time.
abbrev pub Lasts : ℕ → Option Window → Type 0
Lasts until none = ⊥
Lasts until (some w) = until ≤ w.retry_at

-- A call that does not lift the limit of a key: no request comes after its end, no recovery probe of
-- the key ends with success, and the windows of the key's credential are not reset.
abbrev pub Respects : RateKey → ℕ → Call → Type 0
Respects key until (acquire_call now k) = now ≤ until
Respects key until (finish_call now made none e) = Unit
Respects key until (finish_call now made (some lease) e) =
    lease.key ≡ key → e ≡ none → lease.state ≡ none
Respects key until (finish_request_call lib now made none e) = Unit
Respects key until (finish_request_call lib now made (some lease) e) =
    lease.key ≡ key → e ≡ none → lease.state ≡ none
Respects key until (reset_call now id) = (key.credential == id) ≡ false

acquired-Lasts :
    (until now : ℕ) (same : Bool) (fresh : ℕ) (o : Option Window)
    → now ≤ until
    → Lasts until o
    → Lasts until (acquired_window now same fresh (swept_window now o))
acquired-Lasts until now same fresh none early h = h
acquired-Lasts until now same fresh (some w) early h = ground arith

extended-Lasts :
    (until : ℕ) (made : String) (fresh : ℕ) (lease : Lease) (u : UpstreamError) (o : Option Window)
    → Lasts until o
    → Lasts until (some (extended_window made fresh lease u o))
extended-Lasts until made fresh lease u none h = absurd h
extended-Lasts until made fresh lease u (some w) h = ground arith

settled-Lasts :
    (until now : ℕ) (lease : Lease) (e : Option Fault) (o : Option Window)
    → (e ≡ none → lease.state ≡ none)
    → Lasts until o
    → Lasts until (settled_window now lease (is_some e) o)
settled-Lasts until now lease e none s h = h
settled-Lasts until now lease none (some w) s h = ground (arith, s refl)
settled-Lasts until now lease (some e) (some w) s h = ground arith

released-Lasts :
    (until : ℕ) (lease : Lease) (o : Option Window)
    → Lasts until o
    → Lasts until (released_window lease o)
released-Lasts until lease none h = h
released-Lasts until lease (some w) h = ground arith

ended-Lasts :
    (until now : ℕ) (made : String) (fresh : ℕ) (lease : Lease) (e : Option Fault)
    (r : Option UpstreamError) (o : Option Window)
    → (e ≡ none → lease.state ≡ none)
    → Lasts until o
    → Lasts until (ended_by now made fresh lease e r o)
ended-Lasts until now made fresh lease e none o s h = settled-Lasts until now lease e o s h
ended-Lasts until now made fresh lease e (some u) o s h =
    extended-Lasts until made fresh lease u o h

requested-Lasts :
    (lib : FaultLib) (until now : ℕ) (made : String) (fresh : ℕ) (lease : Lease) (e : Option Fault)
    (o : Option Window)
    → (e ≡ none → lease.state ≡ none)
    → Lasts until o
    → Lasts until (requested_window lib now made fresh lease e o)
requested-Lasts lib until now made fresh lease e o s h = elim (Bool-cases (settles_lease lib e)) [
  | inl full ↦ rw full (ended-Lasts until now made fresh lease e (reported e) o s h)
  | inr spared ↦ rw spared (released-Lasts until lease o h)
]

Respects-Carries :
    (key : RateKey) (until : ℕ) (c : Call) → Respects key until c → Carries (Lasts until) key c
Respects-Carries key until (acquire_call now k) r =
    λ same fresh o h. acquired-Lasts until now same fresh o r h
Respects-Carries key until (finish_call now made none e) r = tt
Respects-Carries key until (finish_call now made (some lease) e) r =
    λ k fresh o h. ended-Lasts until now made fresh lease e (reported e) o (r (sym k)) h
Respects-Carries key until (finish_request_call lib now made none e) r = tt
Respects-Carries key until (finish_request_call lib now made (some lease) e) r =
    λ k fresh o h. requested-Lasts lib until now made fresh lease e o (r (sym k)) h
Respects-Carries key until (reset_call now id) r = λ mine o h. absurd (ground (arith, mine, r))

All-Carries :
    (key : RateKey) (until : ℕ) (cs : List Call)
    → All (Respects key until) cs
    → All (Carries (Lasts until) key) cs
All-Carries key until [] h = tt
All-Carries key until (c ∷ cs) h = (Respects-Carries key until c h.0, All-Carries key until cs h.1)

extended-Lasts_end :
    (made : String) (fresh : ℕ) (lease : Lease) (u : UpstreamError) (o : Option Window)
    → Lasts (extended_until u.retry_at o) (some (extended_window made fresh lease u o))
extended-Lasts_end made fresh lease u none = ground arith
extended-Lasts_end made fresh lease u (some w) = ground arith

Lasts-shuts :
    (until now : ℕ) (o : Option Window) → Lasts until o → now < until → is_shut now o ≡ true
Lasts-shuts until now none h l = absurd h
Lasts-shuts until now (some w) h l = ground arith

-- After the upstream has reported a team limit, every request for its key is refused until the
-- reported time, and until the end of the window that was there before, if that is later. Any
-- calls may come in between, in any order: requests up to that time, newer reports, failures and
-- successes. None of them is the success of a recovery probe of the key or a reset of the windows
-- of its credential.
pub reported_limit_shuts :
    (made : String) (lease : Lease) (e : Option Fault) (l : Limiter) (at now : ℕ) (cs : List Call)
    {u : UpstreamError}
    → reported e ≡ some u
    → All (Respects lease.key (extended_until u.retry_at (window_at l lease.key))) cs
    → now < extended_until u.retry_at (window_at l lease.key)
    → is_refused (acquire now lease.key (run cs (finish at made (some lease) e l))).1 ≡ true
reported_limit_shuts made lease e l at now cs {u} h respected before =
    let until = extended_until u.retry_at (window_at l lease.key) in
    let l' = finish at made (some lease) e l in
    acquire_refuses now lease.key (run cs l')
    ∙ Lasts-shuts until now (window_at (run cs l') lease.key)
        (run_carries (Lasts until) lease.key cs l'
          (rw (finish-reported_window at made lease e l h)
            (extended-Lasts_end made l.fresh lease u (window_at l lease.key)))
          (All-Carries lease.key until cs respected))
        before
