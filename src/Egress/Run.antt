-- ===== src/Egress/Run.antt =====
-- Runs of the pool (internal/bridge/egress_pool.go): calls in any order, each at a time not before the last, with the leases that are
-- out.
use mathlib.Core.Option
use mathlib.Core.Option.{some-injective, none-ne-some}
use cline_pass_bridge.Base.{
  ℕ, zero, suc, ◌+◌, String, ◌≡◌, refl, ap, ◌∙◌, Bool, Option, none, some, List, [], ◌∷◌, eq_iff,
  ◌==◌, nat_eq, string_eq, if◌then◌else◌, get_elem?, All, Bool-cases, inl, inr,
}
use cline_pass_bridge.Base.Dict.{Dict, get, get-put}
use cline_pass_bridge.Egress.{
  EgressGroup, EgressManager, EgressLease, Acquired, leased, failed, waiting, try_admit, release,
  cooldown_group, apply, store_group, on_group,
}
use cline_pass_bridge.Egress.Config.{EgressEndpoint, EgressConfig}
use cline_pass_bridge.Egress.Scan.{HasLimit}

pub record System : Type 0 where
  pub now : ℕ
  pub pool : EgressManager
  pub live : List EgressLease

-- A round over some candidates after some time; the release of one of the leases, its request sent
-- or not; a cooldown; a new configuration.
pub data Call : Type 0 where
  admit_call : ℕ → List EgressEndpoint → Call
  release_call : ℕ → Bool → Call
  cooldown_call : String → ℕ → Call
  apply_call : EgressConfig → Call

abbrev pub remove_at {ℓ} : {A : Type ℓ} → ℕ → List A → List A
remove_at k [] = []
remove_at zero (x ∷ xs) = xs
remove_at (suc k) (x ∷ xs) = x ∷ remove_at k xs

abbrev pub lend : System → EgressManager × Acquired → System
lend s (p, leased l) = record s { pool = p; live = l ∷ s.live }
lend s (p, failed e) = record s { pool = p }
lend s (p, waiting next) = record s { pool = p }

abbrev pub give_back : System → ℕ → Bool → Option EgressLease → System
give_back s k sent none = s
give_back s k sent (some l) = record s {
  pool = release (record l { sent = sent }) s.pool;
  live = remove_at k s.live;
}

unfoldable pub run_call : System → Call → System
run_call s (admit_call elapsed es) =
    lend (record s { now = s.now + elapsed }) (try_admit (s.now + elapsed) es s.pool)
run_call s (release_call k sent) = give_back s k sent (get_elem? s.live k)
run_call s (cooldown_call name until) = record s { pool = cooldown_group name until s.pool }
run_call s (apply_call cfg) = record s { pool = apply cfg s.pool }

unfoldable pub run : System → List Call → System
unfolding run_call
run s [] = s
run s (c ∷ cs) = run (run_call s c) cs

-- The calls that a run may make: candidates and configured endpoints have a limit.
abbrev pub IsConfigured : Call → Type 0
IsConfigured (admit_call elapsed es) = All HasLimit es
IsConfigured (release_call k sent) = Unit
IsConfigured (cooldown_call name until) = Unit
IsConfigured (apply_call cfg) = All HasLimit cfg.endpoints

get-store_group :
    (f : EgressGroup → EgressGroup) (name : String) (groups : Dict String EgressGroup)
    (o : Option EgressGroup) (k : String)
    → get groups name ≡ o
    → get (store_group f name groups o) k ≡ (if k == name then Option.map f o else get groups k)
unfolding store_group
get-store_group f name groups none k h = elim (Bool-cases (k == name)) [
  | inl same ↦ rw same (ap (get groups) ((eq_iff k name).0 same) ∙ h)
  | inr other ↦ rw other refl
]
get-store_group f name groups (some g) k h = get-put groups name k (f g)

pub get-on_group :
    (f : EgressGroup → EgressGroup) (name : String) (groups : Dict String EgressGroup) (k : String)
    → get (on_group f name groups) k
      ≡ (if k == name then Option.map f (get groups name) else get groups k)
unfolding on_group
get-on_group f name groups k = get-store_group f name groups (get groups name) k refl
