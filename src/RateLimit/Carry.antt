-- ===== src/RateLimit/Carry.antt =====
-- What a run of calls carries along at the window of one key.
use mathlib.Core.Path.{subst}
use cline_pass_bridge.Base.{
  ℕ, String, ◌≡◌, refl, sym, ap, ◌∙◌, true, inl, inr, Bool, Option, none, some, List, [], ◌∷◌, ◌==◌,
  nat_eq, string_eq, if◌then◌else◌, is_some, Bool-cases, Option-cases, All,
}
use cline_pass_bridge.Base.Dict.{revalue}
use cline_pass_bridge.Faults.{Fault, UpstreamError}
use cline_pass_bridge.Faults.Policy.{FaultLib}
use cline_pass_bridge.RateLimit.{
  RateKey, key_eq, key_beq_iff, Window, Lease, Limiter, reported, finish, settles_lease,
  finish_request,
}
use cline_pass_bridge.RateLimit.Step.{
  Call, acquire_call, finish_call, finish_request_call, reset_call, run_call, run, window_at,
  swept_window, window_at-acquire, window_at-extend, window_at-settle, window_at-release,
  window_at-reset, finish-reported, finish_settled, extended_window, settled_window,
  released_window, reset_window, at_key, acquired_window,
}

-- What `finish` leaves at the key of its lease, by what is reported.
abbrev pub ended_by :
    ℕ → String → ℕ → Lease → Option Fault → Option UpstreamError → Option Window → Option Window
ended_by now made fresh lease e none o = settled_window now lease (is_some e) o
ended_by now made fresh lease e (some u) o = some (extended_window made fresh lease u o)

abbrev pub ended_window : ℕ → String → ℕ → Lease → Option Fault → Option Window → Option Window
ended_window now made fresh lease e o = ended_by now made fresh lease e (reported e) o

window_at-finish :
    (now : ℕ) (made : String) (lease : Lease) (e : Option Fault) (l : Limiter) (k : RateKey)
    → window_at (finish now made (some lease) e l) k
      ≡ at_key k lease.key
          (ended_window now made l.fresh lease e (window_at l lease.key))
          (window_at l k)
window_at-finish now made lease e l k =
    let o = window_at l lease.key in
    let by : Option UpstreamError → Option Window =
      λ r. at_key k lease.key (ended_by now made l.fresh lease e r o) (window_at l k) in
    elim (Option-cases (reported e)) [
      | inl quiet ↦
          ap (λ x. window_at x k) (finish_settled now made lease e l quiet)
          ∙ (window_at-settle now lease (is_some e) l o k refl ∙ ap by (sym quiet))
      | inr (u, limit) ↦
          ap (λ x. window_at x k) (finish-reported now made lease e l limit)
          ∙ (window_at-extend made lease u l o k ∙ ap by (sym limit))
    ]

-- What `finish_request` leaves at the key of its lease.
abbrev pub requested_window :
    FaultLib → ℕ → String → ℕ → Lease → Option Fault → Option Window → Option Window
requested_window lib now made fresh lease e o =
    if settles_lease lib e then ended_window now made fresh lease e o else released_window lease o

window_at-finish_request :
    (lib : FaultLib) (now : ℕ) (made : String) (lease : Lease) (e : Option Fault) (l : Limiter)
    (k : RateKey)
    → window_at (finish_request lib now made (some lease) e l) k
      ≡ at_key k lease.key
          (requested_window lib now made l.fresh lease e (window_at l lease.key))
          (window_at l k)
unfolding finish_request
window_at-finish_request lib now made lease e l k = elim (Bool-cases (settles_lease lib e)) [
  | inl full ↦ rw full (window_at-finish now made lease e l k)
  | inr spared ↦ rw spared (window_at-release lease l (window_at l lease.key) k refl)
]

module _ (P : Option Window → Type 0) (key : RateKey) where
  -- A call that keeps `P` of the window at the key.
  abbrev pub Carries : Call → Type 0
  Carries (acquire_call now k) =
      (same : Bool) (fresh : ℕ) (o : Option Window)
      → P o
      → P (acquired_window now same fresh (swept_window now o))
  Carries (finish_call now made none e) = Unit
  Carries (finish_call now made (some lease) e) =
      key ≡ lease.key
      → (fresh : ℕ) (o : Option Window) → P o
      → P (ended_window now made fresh lease e o)
  Carries (finish_request_call lib now made none e) = Unit
  Carries (finish_request_call lib now made (some lease) e) =
      key ≡ lease.key
      → (fresh : ℕ) (o : Option Window) → P o
      → P (requested_window lib now made fresh lease e o)
  Carries (reset_call now id) =
      (key.credential == id) ≡ true → (o : Option Window) → P o → P (revalue o (reset_window now))

  at_key_carries :
      (j : RateKey) (a b : Option Window) → (key ≡ j → P a) → P b → P (at_key key j a b)
  at_key_carries j a b ha hb = elim (Bool-cases (key == j)) [
    | inl same ↦ rw same (ha ((key_beq_iff key j).0 same))
    | inr other ↦ rw other hb
  ]

  reset_carries :
      (now : ℕ) (id : String) (o : Option Window)
      → Carries (reset_call now id)
      → P o
      → P (if key.credential == id then revalue o (reset_window now) else o)
  reset_carries now id o c p = elim (Bool-cases (key.credential == id)) [
    | inl mine ↦ rw mine (c mine o p)
    | inr other ↦ rw other p
  ]

  call_carries :
      (c : Call) (l : Limiter) → P (window_at l key) → Carries c → P (window_at (run_call c l) key)
  unfolding run_call
  call_carries (acquire_call now k) l p c =
      rw (window_at-acquire now k key l) (c (key == k) l.fresh (window_at l key) p)
  call_carries (finish_call now made none e) l p c = unfold finish in p
  call_carries (finish_call now made (some lease) e) l p c =
      rw (window_at-finish now made lease e l key) (
        at_key_carries lease.key _ _
          (λ k. c k l.fresh (window_at l lease.key) (subst (λ j. P (window_at l j)) k p)) p)
  call_carries (finish_request_call lib now made none e) l p c = unfold finish_request in p
  call_carries (finish_request_call lib now made (some lease) e) l p c =
      rw (window_at-finish_request lib now made lease e l key) (
        at_key_carries lease.key _ _
          (λ k. c k l.fresh (window_at l lease.key) (subst (λ j. P (window_at l j)) k p)) p)
  call_carries (reset_call now id) l p c =
      rw (window_at-reset now id l key) (reset_carries now id (window_at l key) c p)

  pub run_carries :
      (cs : List Call) (l : Limiter)
      → P (window_at l key)
      → All Carries cs
      → P (window_at (run cs l) key)
  unfolding run
  run_carries [] l p h = p
  run_carries (c ∷ cs) l p h = run_carries cs (run_call c l) (call_carries c l p h.0) h.1
