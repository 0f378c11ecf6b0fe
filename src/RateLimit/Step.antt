-- ===== src/RateLimit/Step.antt =====
-- The limiter as a sequence of calls, and what each call does to the window of one key.
use cline_pass_bridge.Base.{
  ℕ, ◌+◌, ◌*◌, String, ◌≡◌, refl, ap, ◌∙◌, inl, inr, Bool, true, not, ◌&&◌, Option, none, some,
  List, [], ◌∷◌, arith, ◌==◌, nat_eq, string_eq, if◌then◌else◌, is_some, Bool-cases, beq_refl,
}
use cline_pass_bridge.Base.Dict.{Dict, get, dict_laws, revalue}
use cline_pass_bridge.Faults.{Fault, UpstreamError, second}
use cline_pass_bridge.Faults.Policy.{FaultLib}
use cline_pass_bridge.RateLimit.{
  RateKey, key_eq, key_beq_iff, Window, Lease, Limiter, is_stale, sweep, is_closed, admit, acquire,
  later, u64, is_probe_of, owns, extend, settle, reported, finish, release_probe, finish_request,
  reset_windows,
}

-- One call of the limiter's interface, at the time that its clock shows.
pub data Call : Type 0 where
  acquire_call : ℕ → RateKey → Call
  finish_call : ℕ → String → Option Lease → Option Fault → Call
  finish_request_call : FaultLib → ℕ → String → Option Lease → Option Fault → Call
  reset_call : ℕ → String → Call

unfoldable pub run_call : Call → Limiter → Limiter
run_call (acquire_call now key) l = (acquire now key l).0
run_call (finish_call now made lease e) l = finish now made lease e l
run_call (finish_request_call lib now made lease e) l = finish_request lib now made lease e l
run_call (reset_call now id) l = reset_windows now id l

unfoldable pub run : List Call → Limiter → Limiter
run [] l = l
run (c ∷ cs) l = run cs (run_call c l)

abbrev pub window_at : Limiter → RateKey → Option Window
window_at l key = get l.windows key

abbrev pub swept_window : ℕ → Option Window → Option Window
swept_window now w = if is_stale now w then none else w

pub get-sweep :
    (now : ℕ) (ws : Dict RateKey Window) (key : RateKey)
    → get (sweep now ws) key ≡ swept_window now (get ws key)
unfolding sweep
get-sweep now ws key = simp dict_laws (ground arith)

-- What `acquire` leaves at a key, its own or another.
abbrev pub acquired_window : ℕ → Bool → ℕ → Option Window → Option Window
acquired_window now same fresh none = none
acquired_window now same fresh (some w) =
    if same && not (is_closed now w) then some (record w { probe = some fresh }) else some w

window_at-admit :
    (now : ℕ) (key k : RateKey) (l : Limiter) (o : Option Window)
    → window_at l key ≡ o
    → window_at (admit now key l o).0 k ≡ acquired_window now (k == key) l.fresh (window_at l k)
unfolding admit
window_at-admit now key k l none h = ground (arith, key_beq_iff k key)
window_at-admit now key k l (some w) h = elim (Bool-cases (is_closed now w)) [
  | inl shut ↦ rw shut (ground (arith, key_beq_iff k key, shut, h))
  | inr free ↦ rw free (simp dict_laws (ground (arith, key_beq_iff k key, free, h)))
]

pub window_at-acquire :
    (now : ℕ) (key k : RateKey) (l : Limiter)
    → window_at (acquire now key l).0 k
      ≡ acquired_window now (k == key) l.fresh (swept_window now (window_at l k))
unfolding acquire
window_at-acquire now key k l =
    window_at-admit now key k (record l { windows = sweep now l.windows })
      (get (sweep now l.windows) key) refl
    ∙ ap (acquired_window now (k == key) l.fresh) (get-sweep now l.windows k)

abbrev pub extended_window : String → ℕ → Lease → UpstreamError → Option Window → Window
extended_window made fresh lease u none = record {
  ref = fresh;
  id = made;
  retry_at = u.retry_at;
  scope = u.scope;
  probe = none;
  epoch = 1;
}
extended_window made fresh lease u (some w) = record w {
  retry_at = later w.retry_at u.retry_at;
  scope = u.scope;
  epoch = u64 (w.epoch + 1);
  probe = if is_probe_of lease w then none else w.probe;
}

abbrev pub settled_window : ℕ → Lease → Bool → Option Window → Option Window
settled_window now lease failed none = none
settled_window now lease failed (some w) =
    if owns lease w
    then (if w.epoch == lease.epoch && not failed
        then none
        else some (record w {
          probe = none;
          retry_at = if failed then later w.retry_at (now + 5 * second) else w.retry_at;
        }))
    else some w

abbrev pub released_window : Lease → Option Window → Option Window
released_window lease none = none
released_window lease (some w) = if owns lease w then some (record w { probe = none }) else some w

abbrev pub reset_window : ℕ → Window → Option Window
reset_window now w = if is_some w.probe then some (record w { retry_at = now }) else none

-- An update of one key: every other key keeps its window.
abbrev pub at_key : RateKey → RateKey → Option Window → Option Window → Option Window
at_key k key changed kept = if k == key then changed else kept

pub window_at-extend :
    (made : String) (lease : Lease) (u : UpstreamError) (l : Limiter) (o : Option Window)
    (k : RateKey)
    → window_at (extend made lease u l o) k
      ≡ at_key k lease.key (some (extended_window made l.fresh lease u o)) (window_at l k)
unfolding extend
window_at-extend made lease u l none k = simp dict_laws
window_at-extend made lease u l (some w) k = simp dict_laws

pub window_at-settle :
    (now : ℕ) (lease : Lease) (failed : Bool) (l : Limiter) (o : Option Window) (k : RateKey)
    → window_at l lease.key ≡ o
    → window_at (settle now lease failed l o) k
      ≡ at_key k lease.key (settled_window now lease failed o) (window_at l k)
unfolding settle
window_at-settle now lease failed l none k h = ground (arith, key_beq_iff k lease.key)
window_at-settle now lease failed l (some w) k h = elim (Bool-cases (owns lease w)) [
  | inl mine ↦ elim (Bool-cases (w.epoch == lease.epoch && not failed)) [
    | inl fresh ↦ rw (mine, fresh) (simp dict_laws)
    | inr stale ↦ rw (mine, stale) (simp dict_laws)
  ]
  | inr not_mine ↦ rw not_mine (ground (arith, key_beq_iff k lease.key, h))
]

pub window_at-release :
    (lease : Lease) (l : Limiter) (o : Option Window) (k : RateKey)
    → window_at l lease.key ≡ o
    → window_at (release_probe lease l o) k
      ≡ at_key k lease.key (released_window lease o) (window_at l k)
unfolding release_probe
window_at-release lease l none k h = ground (arith, key_beq_iff k lease.key)
window_at-release lease l (some w) k h = elim (Bool-cases (owns lease w)) [
  | inl mine ↦ rw mine (simp dict_laws)
  | inr not_mine ↦ rw not_mine (ground (arith, key_beq_iff k lease.key, h))
]

pub window_at-reset :
    (now : ℕ) (id : String) (l : Limiter) (k : RateKey)
    → window_at (reset_windows now id l) k
      ≡ (if k.credential == id then revalue (window_at l k) (reset_window now) else window_at l k)
unfolding reset_windows
window_at-reset now id l k = simp dict_laws (ground arith)

pub finish-reported :
    (now : ℕ) (made : String) (lease : Lease) (e : Option Fault) (l : Limiter) {u : UpstreamError}
    → reported e ≡ some u
    → finish now made (some lease) e l ≡ extend made lease u l (window_at l lease.key)
unfolding finish
finish-reported now made lease e l h = rw (h, finish)

pub finish_settled :
    (now : ℕ) (made : String) (lease : Lease) (e : Option Fault) (l : Limiter)
    → reported e ≡ none
    → finish now made (some lease) e l ≡ settle now lease (is_some e) l (window_at l lease.key)
unfolding finish
finish_settled now made lease e l h = rw (h, finish)

pub at_key_self : (k : RateKey) (a b : Option Window) → at_key k k a b ≡ a
at_key_self k a b = rw (beq_refl ⦃c = key_eq⦄ k)

pub finish-reported_window :
    (now : ℕ) (made : String) (lease : Lease) (e : Option Fault) (l : Limiter) {u : UpstreamError}
    → reported e ≡ some u
    → window_at (finish now made (some lease) e l) lease.key
      ≡ some (extended_window made l.fresh lease u (window_at l lease.key))
finish-reported_window now made lease e l {u} h =
    ap (λ x. window_at x lease.key) (finish-reported now made lease e l h)
    ∙ (window_at-extend made lease u l (window_at l lease.key) lease.key
        ∙ at_key_self lease.key _ _)

pub finish-settled_window :
    (now : ℕ) (made : String) (lease : Lease) (e : Option Fault) (l : Limiter)
    → reported e ≡ none
    → window_at (finish now made (some lease) e l) lease.key
      ≡ settled_window now lease (is_some e) (window_at l lease.key)
finish-settled_window now made lease e l h =
    ap (λ x. window_at x lease.key) (finish_settled now made lease e l h)
    ∙ (window_at-settle now lease (is_some e) l (window_at l lease.key) lease.key refl
        ∙ at_key_self lease.key _ _)

pub acquire_window :
    (now : ℕ) (key : RateKey) (l : Limiter)
    → window_at (acquire now key l).0 key
      ≡ acquired_window now true l.fresh (swept_window now (window_at l key))
acquire_window now key l =
    window_at-acquire now key key l
    ∙ ap (λ b. acquired_window now b l.fresh (swept_window now (window_at l key)))
        (beq_refl ⦃c = key_eq⦄ key)
