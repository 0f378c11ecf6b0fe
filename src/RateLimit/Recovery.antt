-- ===== src/RateLimit/Recovery.antt =====
-- How a recovery probe fails: with a retreat, or with an unchanged window.
use cline_pass_bridge.Base.{
  ℕ, ◌+◌, ◌*◌, ◌<◌, String, ◌≡◌, refl, sym, ap, ◌∙◌, true, false, Option, none, some, arith, nat_eq,
  string_eq,
}
use mathlib.Core.Path.{subst}
use cline_pass_bridge.Faults.{Fault, ok, second}
use cline_pass_bridge.Faults.Policy.{FaultLib, fault_policy_for}
use cline_pass_bridge.RateLimit.{
  RateKey, key_eq, Window, Lease, Limiter, acquire, reported, finish, release_probe, settles_lease,
  finish_request,
}
use cline_pass_bridge.RateLimit.Step.{
  window_at, window_at-release, at_key_self, finish-settled_window, settled_window, released_window,
}
use cline_pass_bridge.RateLimit.Admission.{is_refused, is_shut, acquire_refuses}
use cline_pass_bridge.RateLimit.Probe.{Admitted, acquire-Admitted, acquire_key}

settled_failure :
    (now at : ℕ) (lease : Lease) (o : Option Window) {r : ℕ}
    → Admitted lease o
    → lease.state ≡ some r
    → at < now + 5 * second
    → is_shut at (settled_window now lease true o) ≡ true
settled_failure now at lease none a s h = ground arith
settled_failure now at lease (some w) a s h = ground arith

failed_retreats :
    (l : Limiter) (key : RateKey) (t now at : ℕ) (made : String) (lease : Lease) (e : Fault) {r : ℕ}
    → (acquire t key l).1 ≡ ok lease
    → lease.state ≡ some r
    → reported (some e) ≡ none
    → at < now + 5 * second
    → is_refused (acquire at key (finish now made (some lease) (some e) (acquire t key l).0)).1
      ≡ true
failed_retreats l key t now at made lease e h s quiet before =
    let l' = (acquire t key l).0 in
    let k : lease.key ≡ key = acquire_key t key l h in
    acquire_refuses at key (finish now made (some lease) (some e) l')
    ∙ (ap (λ j. is_shut at (window_at (finish now made (some lease) (some e) l') j)) (sym k)
        ∙ (ap (is_shut at) (finish-settled_window now made lease (some e) l' quiet)
            ∙ settled_failure now at lease (window_at l' lease.key)
                (subst (λ j. Admitted lease (window_at l' j)) (sym k) (acquire-Admitted t key l h))
                s before))

-- A recovery probe that fails with a fault that cools its owner down, and that reports no limit,
-- keeps its key shut for at least five seconds more, when no other call comes in between.
pub failed_probe_retreats :
    (lib : FaultLib) (l : Limiter) (key : RateKey) (t now at : ℕ) (made : String) (lease : Lease)
    (e : Fault) {r : ℕ}
    → (acquire t key l).1 ≡ ok lease
    → lease.state ≡ some r
    → (fault_policy_for lib (some e)).cooldown ≡ true
    → reported (some e) ≡ none
    → at < now + 5 * second
    → is_refused
        (acquire at key (finish_request lib now made (some lease) (some e) (acquire t key l).0)).1
      ≡ true
unfolding finish_request settles_lease
failed_probe_retreats lib l key t now at made lease e h s blamed quiet before =
    rw blamed (failed_retreats l key t now at made lease e h s quiet before)

-- The window of a key, with nobody probing it.
abbrev pub idle : Option Window → Option Window
idle none = none
idle (some w) = some (record w { probe = none })

released_idle :
    (lease : Lease) (o : Option Window) → Admitted lease o → released_window lease o ≡ idle o
released_idle lease none a = refl
released_idle lease (some w) a = ground arith

-- A probe that ends in a fault of the request itself gives its place back and changes nothing
-- else: the window keeps its end, its epoch and its scope.
pub request_fault_frees_probe :
    (lib : FaultLib) (l : Limiter) (key : RateKey) (t now : ℕ) (made : String) (lease : Lease)
    (e : Fault)
    → (acquire t key l).1 ≡ ok lease
    → (fault_policy_for lib (some e)).cooldown ≡ false
    → window_at (finish_request lib now made (some lease) (some e) (acquire t key l).0) key
      ≡ idle (window_at (acquire t key l).0 key)
unfolding finish_request settles_lease
request_fault_frees_probe lib l key t now made lease e h scoped =
    let l' = (acquire t key l).0 in
    let k : lease.key ≡ key = acquire_key t key l h in
    rw scoped (
      ap (λ j. window_at (release_probe lease l' (window_at l' lease.key)) j) (sym k)
      ∙ (window_at-release lease l' (window_at l' lease.key) lease.key refl
          ∙ (at_key_self lease.key _ _
              ∙ (released_idle lease (window_at l' lease.key) (
                    subst (λ j. Admitted lease (window_at l' j)) (sym k)
                      (acquire-Admitted t key l h))
                  ∙ ap (λ j. idle (window_at l' j)) k))))
