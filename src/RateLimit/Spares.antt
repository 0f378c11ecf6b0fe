-- ===== src/RateLimit/Spares.antt =====
-- Calls that leave a lease of another request alone.
use mathlib.Core.Path.{subst}
use cline_pass_bridge.Base.{
  ℕ, String, ◌≡◌, refl, ap, ◌∙◌, ◌≢◌, inl, inr, Bool, Option, none, some, List, [], ◌∷◌, arith,
  ◌==◌, nat_eq, string_eq, if◌then◌else◌, is_some, Bool-cases, Option-cases, All,
}
use cline_pass_bridge.Base.Dict.{revalue}
use cline_pass_bridge.Faults.{Fault, UpstreamError}
use cline_pass_bridge.Faults.Policy.{FaultLib}
use cline_pass_bridge.RateLimit.{
  RateKey, key_eq, key_beq_iff, Window, Lease, Limiter, is_closed, reported, finish, release_probe,
  settles_lease, finish_request, reset_windows,
}
use cline_pass_bridge.RateLimit.Step.{
  Call, acquire_call, finish_call, finish_request_call, reset_call, run_call, run, window_at,
  swept_window, window_at-acquire, window_at-extend, window_at-settle, window_at-release,
  window_at-reset, finish-reported, finish_settled, extended_window, settled_window,
  released_window, reset_window, at_key, acquired_window,
}

-- The lease that probes a key.
abbrev pub probe_in : Option Window → Option ℕ
probe_in none = none
probe_in (some w) = w.probe

abbrev pub probe_at : Limiter → RateKey → Option ℕ
probe_at l key = probe_in (window_at l key)

-- A call that does not end the lease `r` on `key`.
abbrev pub Spares : RateKey → ℕ → Call → Type 0
Spares key r (acquire_call now k) = Unit
Spares key r (reset_call now id) = Unit
Spares key r (finish_call now made none e) = Unit
Spares key r (finish_call now made (some lease) e) = lease.ref ≢ r
Spares key r (finish_request_call lib now made none e) = Unit
Spares key r (finish_request_call lib now made (some lease) e) = lease.ref ≢ r

extend_spares :
    (made : String) (fresh : ℕ) (lease : Lease) (u : UpstreamError) (o : Option Window) (r : ℕ)
    → probe_in o ≡ some r
    → lease.ref ≢ r
    → (extended_window made fresh lease u o).probe ≡ some r
extend_spares made fresh lease u none r h ne = cc
extend_spares made fresh lease u (some w) r h ne = ground arith

settle_spares :
    (now : ℕ) (lease : Lease) (failed : Bool) (o : Option Window) (r : ℕ)
    → probe_in o ≡ some r
    → lease.ref ≢ r
    → probe_in (settled_window now lease failed o) ≡ some r
settle_spares now lease failed none r h ne = cc
settle_spares now lease failed (some w) r h ne = ground arith

release_spares :
    (lease : Lease) (o : Option Window) (r : ℕ)
    → probe_in o ≡ some r
    → lease.ref ≢ r
    → probe_in (released_window lease o) ≡ some r
release_spares lease none r h ne = cc
release_spares lease (some w) r h ne = ground arith

acquire_spares :
    (now : ℕ) (same : Bool) (fresh : ℕ) (o : Option Window) (r : ℕ)
    → probe_in o ≡ some r
    → probe_in (acquired_window now same fresh (swept_window now o)) ≡ some r
unfolding is_closed
acquire_spares now same fresh none r h = cc
acquire_spares now same fresh (some w) r h = ground arith

at_key_spares :
    (k j : RateKey) (a b : Option Window) (r : ℕ)
    → (k ≡ j → probe_in a ≡ some r)
    → probe_in b ≡ some r
    → probe_in (at_key k j a b) ≡ some r
at_key_spares k j a b r ha hb = elim (Bool-cases (k == j)) [
  | inl same ↦ rw same (ha ((key_beq_iff k j).0 same))
  | inr other ↦ rw other hb
]

finish_spares :
    (now : ℕ) (made : String) (lease : Lease) (e : Option Fault) (l : Limiter) (key : RateKey)
    (r : ℕ)
    → probe_at l key ≡ some r
    → lease.ref ≢ r
    → probe_at (finish now made (some lease) e l) key ≡ some r
finish_spares now made lease e l key r h ne = elim (Option-cases (reported e)) [
  | inl quiet ↦
      rw
        (
          finish_settled now made lease e l quiet,
          window_at-settle now lease (is_some e) l (window_at l lease.key) key refl,
        )
        (at_key_spares key lease.key _ _ r
          (λ k.
            settle_spares now lease (is_some e) (window_at l lease.key) r
              (subst (λ j. probe_at l j ≡ some r) k h) ne)
          h)
  | inr (u, limit) ↦
      rw
        (
          finish-reported now made lease e l limit,
          window_at-extend made lease u l (window_at l lease.key) key,
        )
        (at_key_spares key lease.key _ _ r
          (λ k.
            extend_spares made l.fresh lease u (window_at l lease.key) r
              (subst (λ j. probe_at l j ≡ some r) k h) ne)
          h)
]

release_probe_spares :
    (lease : Lease) (l : Limiter) (key : RateKey) (r : ℕ)
    → probe_at l key ≡ some r
    → lease.ref ≢ r
    → probe_at (release_probe lease l (window_at l lease.key)) key ≡ some r
release_probe_spares lease l key r h ne =
    rw (window_at-release lease l (window_at l lease.key) key refl) (
      at_key_spares key lease.key _ _ r
        (λ k.
          release_spares lease (window_at l lease.key) r (subst (λ j. probe_at l j ≡ some r) k h)
            ne)
        h)

finish_request_spares :
    (lib : FaultLib) (now : ℕ) (made : String) (lease : Lease) (e : Option Fault) (l : Limiter)
    (key : RateKey) (r : ℕ)
    → probe_at l key ≡ some r
    → lease.ref ≢ r
    → probe_at (finish_request lib now made (some lease) e l) key ≡ some r
unfolding finish_request
finish_request_spares lib now made lease e l key r h ne = elim (Bool-cases (settles_lease lib e)) [
  | inl full ↦ rw full (finish_spares now made lease e l key r h ne)
  | inr spared ↦ rw spared (release_probe_spares lease l key r h ne)
]

reset_keeps :
    (mine : Bool) (now : ℕ) (o : Option Window) (r : ℕ)
    → probe_in o ≡ some r
    → probe_in (if mine then revalue o (reset_window now) else o) ≡ some r
reset_keeps mine now none r h = cc
reset_keeps mine now (some w) r h = ground arith

reset_spares :
    (now : ℕ) (id : String) (l : Limiter) (key : RateKey) (r : ℕ)
    → probe_at l key ≡ some r
    → probe_at (reset_windows now id l) key ≡ some r
reset_spares now id l key r h =
    ap probe_in (window_at-reset now id l key)
    ∙ reset_keeps (key.credential == id) now (window_at l key) r h

-- While the lease is not ended, every call leaves it the one probe of its key.
call-Spares :
    (c : Call) (l : Limiter) (key : RateKey) (r : ℕ)
    → probe_at l key ≡ some r
    → Spares key r c
    → probe_at (run_call c l) key ≡ some r
unfolding run_call
call-Spares (acquire_call now k) l key r h s =
    ap probe_in (window_at-acquire now k key l)
    ∙ acquire_spares now (key == k) l.fresh (window_at l key) r h
call-Spares (finish_call now made none e) l key r h s = unfold finish in h
call-Spares (finish_call now made (some lease) e) l key r h s =
    finish_spares now made lease e l key r h s
call-Spares (finish_request_call lib now made none e) l key r h s = unfold finish_request in h
call-Spares (finish_request_call lib now made (some lease) e) l key r h s =
    finish_request_spares lib now made lease e l key r h s
call-Spares (reset_call now id) l key r h s = reset_spares now id l key r h

pub run-Spares :
    (cs : List Call) (l : Limiter) (key : RateKey) (r : ℕ)
    → probe_at l key ≡ some r
    → All (Spares key r) cs
    → probe_at (run cs l) key ≡ some r
unfolding run
run-Spares [] l key r h s = h
run-Spares (c ∷ cs) l key r h s =
    run-Spares cs (run_call c l) key r (call-Spares c l key r h s.0) s.1
