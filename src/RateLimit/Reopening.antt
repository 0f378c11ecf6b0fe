-- ===== src/RateLimit/Reopening.antt =====
-- The success of an admitted request, among other calls.
use mathlib.Core.Path.{subst}
use cline_pass_bridge.Base.{
  ℕ, String, ◌≡◌, ◌≢◌, refl, sym, ap, ◌∙◌, inl, inr, Bool, false, Option, none, some, List, [], ◌∷◌,
  arith, nat_eq, string_eq, is_some, Bool-cases, All,
}
use cline_pass_bridge.Base.Dict.{revalue}
use cline_pass_bridge.Faults.{Fault, UpstreamError, ok}
use cline_pass_bridge.Faults.Policy.{FaultLib}
use cline_pass_bridge.RateLimit.{
  RateKey, Window, Lease, Limiter, is_closed, acquire, reported, finish, settles_lease,
}
use cline_pass_bridge.RateLimit.Step.{
  Call, acquire_call, finish_call, finish_request_call, reset_call, run, window_at, swept_window,
  finish-settled_window, settled_window, released_window, reset_window, acquired_window,
}
use cline_pass_bridge.RateLimit.Admission.{is_refused, is_shut, acquire_refuses, reported-none}
use cline_pass_bridge.RateLimit.Probe.{Admitted, acquire-Admitted, acquire_key}
use cline_pass_bridge.RateLimit.Spares.{Spares}
use cline_pass_bridge.RateLimit.Carry.{ended_by, requested_window, Carries, run_carries}

-- A call that reports no limit of a key.
abbrev pub IsQuiet : RateKey → Call → Type 0
IsQuiet key (acquire_call now k) = Unit
IsQuiet key (finish_call now made none e) = Unit
IsQuiet key (finish_call now made (some lease) e) = lease.key ≡ key → reported e ≡ none
IsQuiet key (finish_request_call lib now made none e) = Unit
IsQuiet key (finish_request_call lib now made (some lease) e) = lease.key ≡ key → reported e ≡ none
IsQuiet key (reset_call now id) = Unit

acquired_still :
    (now : ℕ) (same : Bool) (fresh : ℕ) (lease : Lease) (o : Option Window)
    → Admitted lease o
    → Admitted lease (acquired_window now same fresh (swept_window now o))
unfolding is_closed
acquired_still now same fresh lease none a = a
acquired_still now same fresh lease (some w) (inl b) = absurd (ground (arith, b))
acquired_still now same fresh lease (some w) (inr (v, e, p)) = inr (v, ground (arith, e, p), p)

settled_still :
    (now : ℕ) (failed : Bool) (other lease : Lease) (o : Option Window)
    → other.ref ≢ lease.ref
    → Admitted lease o
    → Admitted lease (settled_window now other failed o)
settled_still now failed other lease none ne a = a
settled_still now failed other lease (some w) ne (inl b) = absurd (ground (arith, b))
settled_still now failed other lease (some w) ne (inr (v, e, p)) =
    inr (v, ground (arith, ne, e, p), p)

released_still :
    (other lease : Lease) (o : Option Window)
    → other.ref ≢ lease.ref
    → Admitted lease o
    → Admitted lease (released_window other o)
released_still other lease none ne a = a
released_still other lease (some w) ne (inl b) = absurd (ground (arith, b))
released_still other lease (some w) ne (inr (v, e, p)) = inr (v, ground (arith, ne, e, p), p)

reset_still :
    (now : ℕ) (lease : Lease) (o : Option Window)
    → Admitted lease o
    → Admitted lease (revalue o (reset_window now))
reset_still now lease none a = a
reset_still now lease (some w) (inl b) = absurd (ground (arith, b))
reset_still now lease (some w) (inr (v, e, p)) =
    inr (record v { retry_at = now }, ground (arith, e, p), p)

ended_still :
    (now : ℕ) (made : String) (fresh : ℕ) (other lease : Lease) (e : Option Fault)
    (r : Option UpstreamError) (o : Option Window)
    → r ≡ none
    → other.ref ≢ lease.ref
    → Admitted lease o
    → Admitted lease (ended_by now made fresh other e r o)
ended_still now made fresh other lease e none o q ne a =
    settled_still now (is_some e) other lease o ne a
ended_still now made fresh other lease e (some u) o q ne a = absurd (ground (arith, q))

requested_still :
    (lib : FaultLib) (now : ℕ) (made : String) (fresh : ℕ) (other lease : Lease) (e : Option Fault)
    (o : Option Window)
    → reported e ≡ none
    → other.ref ≢ lease.ref
    → Admitted lease o
    → Admitted lease (requested_window lib now made fresh other e o)
requested_still lib now made fresh other lease e o q ne a =
    elim (Bool-cases (settles_lease lib e)) [
      | inl full ↦ rw full (ended_still now made fresh other lease e (reported e) o q ne a)
      | inr spared ↦ rw spared (released_still other lease o ne a)
    ]

still-Carries :
    (key : RateKey) (lease : Lease) (c : Call)
    → IsQuiet key c
    → Spares key lease.ref c
    → Carries (Admitted lease) key c
still-Carries key lease (acquire_call now k) q s =
    λ same fresh o a. acquired_still now same fresh lease o a
still-Carries key lease (finish_call now made none e) q s = tt
still-Carries key lease (finish_call now made (some other) e) q s =
    λ k fresh o a. ended_still now made fresh other lease e (reported e) o (q (sym k)) s a
still-Carries key lease (finish_request_call lib now made none e) q s = tt
still-Carries key lease (finish_request_call lib now made (some other) e) q s =
    λ k fresh o a. requested_still lib now made fresh other lease e o (q (sym k)) s a
still-Carries key lease (reset_call now id) q s = λ mine o a. reset_still now lease o a

-- No window is there.
abbrev pub IsGone : Option Window → Type 0
IsGone o = o ≡ none

IsGone-by :
    (now : ℕ) (made : String) (fresh : ℕ) (other : Lease) (e : Option Fault)
    (r : Option UpstreamError) (o : Option Window)
    → r ≡ none
    → IsGone o
    → IsGone (ended_by now made fresh other e r o)
IsGone-by now made fresh other e none none q a = refl
IsGone-by now made fresh other e none (some w) q a = absurd (ground (arith, a))
IsGone-by now made fresh other e (some u) o q a = absurd (ground (arith, q))

IsGone-released : (other : Lease) (o : Option Window) → IsGone o → IsGone (released_window other o)
IsGone-released other none a = refl
IsGone-released other (some w) a = absurd (ground (arith, a))

IsGone-request :
    (lib : FaultLib) (now : ℕ) (made : String) (fresh : ℕ) (other : Lease) (e : Option Fault)
    (o : Option Window)
    → reported e ≡ none
    → IsGone o
    → IsGone (requested_window lib now made fresh other e o)
IsGone-request lib now made fresh other e o q a = elim (Bool-cases (settles_lease lib e)) [
  | inl full ↦ rw full (IsGone-by now made fresh other e (reported e) o q a)
  | inr spared ↦ rw spared (IsGone-released other o a)
]

IsGone-acquired :
    (now : ℕ) (same : Bool) (fresh : ℕ) (o : Option Window)
    → IsGone o
    → IsGone (acquired_window now same fresh (swept_window now o))
IsGone-acquired now same fresh none a = refl
IsGone-acquired now same fresh (some w) a = absurd (ground (arith, a))

IsGone-reset : (now : ℕ) (o : Option Window) → IsGone o → IsGone (revalue o (reset_window now))
IsGone-reset now none a = refl
IsGone-reset now (some w) a = absurd (ground (arith, a))

IsGone-Carries : (key : RateKey) (c : Call) → IsQuiet key c → Carries IsGone key c
IsGone-Carries key (acquire_call now k) q = λ same fresh o a. IsGone-acquired now same fresh o a
IsGone-Carries key (finish_call now made none e) q = tt
IsGone-Carries key (finish_call now made (some other) e) q =
    λ k fresh o a. IsGone-by now made fresh other e (reported e) o (q (sym k)) a
IsGone-Carries key (finish_request_call lib now made none e) q = tt
IsGone-Carries key (finish_request_call lib now made (some other) e) q =
    λ k fresh o a. IsGone-request lib now made fresh other e o (q (sym k)) a
IsGone-Carries key (reset_call now id) q = λ mine o a. IsGone-reset now o a

still-All :
    (key : RateKey) (lease : Lease) (cs : List Call)
    → All (IsQuiet key) cs
    → All (Spares key lease.ref) cs
    → All (Carries (Admitted lease) key) cs
still-All key lease [] q s = tt
still-All key lease (c ∷ cs) q s =
    (still-Carries key lease c q.0 s.0, still-All key lease cs q.1 s.1)

IsGone-All : (key : RateKey) (cs : List Call) → All (IsQuiet key) cs → All (Carries IsGone key) cs
IsGone-All key [] q = tt
IsGone-All key (c ∷ cs) q = (IsGone-Carries key c q.0, IsGone-All key cs q.1)

settled-IsGone :
    (now : ℕ) (lease : Lease) (o : Option Window)
    → Admitted lease o
    → IsGone (settled_window now lease false o)
settled-IsGone now lease none a = refl
settled-IsGone now lease (some w) a = ground arith

-- A request that is admitted and then succeeds leaves its key open until a limit of the key is
-- reported again. Any calls may come between the admission and the success, and after it, that
-- report no limit of the key; none before the success ends the lease itself.
pub success_reopens :
    (l : Limiter) (key : RateKey) (t now at : ℕ) (made : String) (lease : Lease)
    (meanwhile afterwards : List Call)
    → (acquire t key l).1 ≡ ok lease
    → All (IsQuiet key) meanwhile
    → All (Spares key lease.ref) meanwhile
    → All (IsQuiet key) afterwards
    → is_refused
        (acquire at key (
          run afterwards (finish now made (some lease) none (run meanwhile (acquire t key l).0)))).1
      ≡ false
success_reopens l key t now at made lease meanwhile afterwards h q s q' =
    let l' = run meanwhile (acquire t key l).0 in
    let l'' = finish now made (some lease) none l' in
    let k : lease.key ≡ key = acquire_key t key l h in
    let admitted : Admitted lease (window_at l' key) =
      run_carries (Admitted lease) key meanwhile (acquire t key l).0 (acquire-Admitted t key l h)
        (still-All key lease meanwhile q s) in
    let gone : IsGone (window_at l'' key) =
      subst (λ j. IsGone (window_at l'' j)) k
        (finish-settled_window now made lease none l' reported-none
          ∙ settled-IsGone now lease (window_at l' lease.key)
              (subst (λ j. Admitted lease (window_at l' j)) (sym k) admitted)) in
    acquire_refuses at key (run afterwards l'')
    ∙ ap (is_shut at) (run_carries IsGone key afterwards l'' gone (IsGone-All key afterwards q'))
