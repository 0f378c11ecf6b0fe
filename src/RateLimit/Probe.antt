-- ===== src/RateLimit/Probe.antt =====
-- The recovery probe: one at a time, and what its end does to the window.
use cline_pass_bridge.Base.{
  ℕ, ◌≡◌, refl, ◌∙◌, ◌⊎◌, inl, inr, true, Option, none, some, List, arith, nat_eq, string_eq,
  Bool-cases, beq_refl, All,
}
use cline_pass_bridge.Base.Dict.{get, dict_laws}
use cline_pass_bridge.Faults.{ok}
use cline_pass_bridge.RateLimit.{
  RateKey, key_eq, Window, Lease, Limiter, sweep, is_closed, admit, acquire,
}
use cline_pass_bridge.RateLimit.Step.{Call, run, window_at}
use cline_pass_bridge.RateLimit.Admission.{is_refused, is_shut, acquire_refuses}
use cline_pass_bridge.RateLimit.Spares.{probe_in, Spares, run-Spares}

probe_shuts : (now : ℕ) (o : Option Window) (r : ℕ) → probe_in o ≡ some r → is_shut now o ≡ true
probe_shuts now none r h = cc
probe_shuts now (some w) r h = ground arith

-- What an admission leaves behind: no window at the key, or one that the lease probes.
abbrev pub Probes : Lease → Window → Type 0
Probes lease w = (w.probe ≡ some lease.ref) × (lease.state ≡ some w.ref) × (w.epoch ≡ lease.epoch)

abbrev pub Admitted : Lease → Option Window → Type 0
Admitted lease o =
    ((lease.state ≡ none) × (o ≡ none)) ⊎ ((w : Window) × (o ≡ some w) × Probes lease w)

admitted_key :
    (now : ℕ) (key : RateKey) (l : Limiter) (o : Option Window) {lease : Lease}
    → (admit now key l o).1 ≡ ok lease
    → lease.key ≡ key
unfolding admit
admitted_key now key l none h = cc
admitted_key now key l (some w) h = ground arith

Admitted-window :
    (now : ℕ) (key : RateKey) (l : Limiter) (o : Option Window) {lease : Lease}
    → window_at l key ≡ o
    → (admit now key l o).1 ≡ ok lease
    → Admitted lease (window_at (admit now key l o).0 key)
unfolding admit
Admitted-window now key l none e h = inl (cc, e)
Admitted-window now key l (some w) {lease} e h = elim (Bool-cases (is_closed now w)) [
  | inl shut ↦ absurd (ground (arith, shut))
  | inr free ↦ rw free (
      inr (
        record w { probe = some l.fresh },
        simp dict_laws (ground (arith, beq_refl ⦃c = key_eq⦄ key)),
        (ground (arith, free), ground (arith, free), ground (arith, free)),
      ))
]

pub acquire_key :
    (now : ℕ) (key : RateKey) (l : Limiter) {lease : Lease}
    → (acquire now key l).1 ≡ ok lease
    → lease.key ≡ key
unfolding acquire
acquire_key now key l h =
    admitted_key now key (record l { windows = sweep now l.windows })
      (get (sweep now l.windows) key) h

pub acquire-Admitted :
    (now : ℕ) (key : RateKey) (l : Limiter) {lease : Lease}
    → (acquire now key l).1 ≡ ok lease
    → Admitted lease (window_at (acquire now key l).0 key)
unfolding acquire
acquire-Admitted now key l h =
    Admitted-window now key (record l { windows = sweep now l.windows })
      (get (sweep now l.windows) key) refl h

Admitted-probe_in :
    (lease : Lease) (o : Option Window) {r : ℕ}
    → Admitted lease o
    → lease.state ≡ some r
    → probe_in o ≡ some lease.ref
Admitted-probe_in lease o a s = ground arith

-- From the admission of a recovery probe on, whatever calls follow in whatever order and at
-- whatever times, no other request for its key is admitted until a call ends the probe itself.
pub probe_is_alone :
    (cs : List Call) (l : Limiter) (key : RateKey) (t now : ℕ) (lease : Lease) {r : ℕ}
    → (acquire t key l).1 ≡ ok lease
    → lease.state ≡ some r
    → All (Spares key lease.ref) cs
    → is_refused (acquire now key (run cs (acquire t key l).0)).1 ≡ true
probe_is_alone cs l key t now lease h s spared =
    let l' = (acquire t key l).0 in
    acquire_refuses now key (run cs l')
    ∙ probe_shuts now (window_at (run cs l') key) lease.ref (
        run-Spares cs l' key lease.ref
          (Admitted-probe_in lease (window_at l' key) (acquire-Admitted t key l h) s) spared)
