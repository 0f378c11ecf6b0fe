-- ===== src/Egress/Accepted.antt =====
-- What an accepted configuration satisfies (internal/bridge/egress_config.go: parseEgressConfig).
use mathlib.Core.Option.{some-injective, none-ne-some}
use cline_pass_bridge.Base.{
  ℕ, ◌≤◌, String, ◌≡◌, refl, ◌∙◌, Bool, false, ◌&&◌, not, Option, none, some, List, [], ◌∷◌, arith,
  leb, ◌==◌, nat_eq, string_eq, if◌then◌else◌, All, Bool-cases, inl, inr,
}
use cline_pass_bridge.Base.Dict.{get, empty}
use cline_pass_bridge.Faults.{Result, ok, err}
use cline_pass_bridge.Egress.Config.{EgressEndpoint, EgressConfig, UrlLib, normalize_egress_proxy}
use cline_pass_bridge.Base.Int.{ℤ, pos, negsuc}
use cline_pass_bridge.Egress.Parse.{
  DecodedEndpoint, DecodedConfig, in_range, or_default, previous, proxy_to_keep, Seen, bad_name,
  same_limits, endpoint_of, limit_endpoint, parse_endpoint, and_then, parse_endpoints, or_bad_range,
  at_most_256, parse_egress_config,
}

-- An endpoint with its limits in their ranges, and a name and a group that are not empty.
abbrev pub IsUsable : EgressEndpoint → Type 0
IsUsable e =
    ((1 ≤ e.rpm) × (e.rpm ≤ 100000))
    × (((1 ≤ e.max_inflight) × (e.max_inflight ≤ 1024))
        × (((e.id == "") ≡ false) × ((e.group == "") ≡ false)))

-- A property of an accepted value.
abbrev pub Accepted {ℓ} : {A : Type ℓ} → (A → Type 0) → Result A → Type 0
Accepted P (ok a) = P a
Accepted P (err e) = Unit

pub and_then-Accepted {ℓ κ} :
    {A : Type ℓ} {B : Type κ} (P : A → Type 0) (Q : B → Type 0) (r : Result A) (f : A → Result B)
    → Accepted P r
    → ((a : A) → P a → Accepted Q (f a))
    → Accepted Q (and_then r f)
and_then-Accepted P Q (ok a) f h k = k a h
and_then-Accepted P Q (err e) f h k = tt

in_range_bounds :
    (low high : ℕ) (z : ℤ) (n : ℕ) → in_range low high z ≡ some n → (low ≤ n) × (n ≤ high)
unfolding in_range
in_range_bounds low high (pos m) n h = elim (Bool-cases (leb low m && leb m high)) [
  | inl inside ↦
      let here : some m ≡ (if leb low m && leb m high then some m else none) = rw inside refl in
      let e : m ≡ n = some-injective m n (here ∙ h) in ground arith
  | inr outside ↦
      let here : none ≡ (if leb low m && leb m high then some m else none) = rw outside refl in
      absurd (none-ne-some n (here ∙ h))
]
in_range_bounds low high (negsuc m) n h = absurd (none-ne-some n h)

endpoint-IsUsable :
    (lib : UrlLib) (e : DecodedEndpoint) (id group : String) (rpm flight : ℕ) (seen : Seen)
    (r : Result String)
    → (1 ≤ rpm) × (rpm ≤ 100000)
    → (1 ≤ flight) × (flight ≤ 1024)
    → (id == "") ≡ false
    → (group == "") ≡ false
    → Accepted (λ p. IsUsable p.0) (endpoint_of lib e id group rpm flight seen r)
endpoint-IsUsable lib e id group rpm flight seen (err f) a b c d = tt
endpoint-IsUsable lib e id group rpm flight seen (ok proxy) a b c d = (a, (b, (c, d)))

limit-IsUsable :
    (lib : UrlLib) (preserve : Bool) (old : List EgressEndpoint) (seen : Seen) (e : DecodedEndpoint)
    (id group : String) (rpm flight : Option ℕ)
    → ((n : ℕ) → rpm ≡ some n → (1 ≤ n) × (n ≤ 100000))
    → ((n : ℕ) → flight ≡ some n → (1 ≤ n) × (n ≤ 1024))
    → (id == "") ≡ false
    → (group == "") ≡ false
    → Accepted (λ p. IsUsable p.0) (limit_endpoint lib preserve old seen e id group rpm flight)
unfolding limit_endpoint
limit-IsUsable lib preserve old seen e id group none flight a b c d = tt
limit-IsUsable lib preserve old seen e id group (some rpm) none a b c d = tt
limit-IsUsable lib preserve old seen e id group (some rpm) (some flight) a b c d =
    elim (Bool-cases (not (same_limits (get seen.1 group) rpm flight))) [
      | inl unequal ↦ rw unequal tt
      | inr equal ↦ rw equal (
          endpoint-IsUsable lib e id group rpm flight seen
            (normalize_egress_proxy lib (proxy_to_keep lib preserve e.proxy_url (previous id old)))
            (a rpm refl) (b flight refl) c d)
    ]

parse_endpoint-IsUsable :
    (lib : UrlLib) (preserve : Bool) (old : List EgressEndpoint) (seen : Seen) (e : DecodedEndpoint)
    → Accepted (λ p. IsUsable p.0) (parse_endpoint lib preserve old seen e)
unfolding parse_endpoint
parse_endpoint-IsUsable lib preserve old seen e =
    let id = lib.trim_space e.id in
    let given = lib.trim_space e.group in
    elim (Bool-cases (bad_name lib seen.0 id (lib.trim_space e.label) given)) [
      | inl bad ↦ rw bad tt
      | inr good ↦ rw good (
          limit-IsUsable lib preserve old seen e id (if given == "" then id else given)
            (in_range 1 100000 (or_default 60 e.rpm))
            (in_range 1 1024 (or_default 4 e.max_inflight))
            (in_range_bounds 1 100000 (or_default 60 e.rpm))
            (in_range_bounds 1 1024 (or_default 4 e.max_inflight)) (ground (arith, good))
            (ground (arith, good)))
    ]

parse_endpoints-IsUsable :
    (lib : UrlLib) (preserve : Bool) (old : List EgressEndpoint) (seen : Seen)
    (es : List DecodedEndpoint)
    → Accepted (All IsUsable) (parse_endpoints lib preserve old seen es)
unfolding parse_endpoints
parse_endpoints-IsUsable lib preserve old seen [] = tt
parse_endpoints-IsUsable lib preserve old seen (e ∷ es) =
    and_then-Accepted (λ p. IsUsable p.0) (All IsUsable) (parse_endpoint lib preserve old seen e)
      (λ r. and_then (parse_endpoints lib preserve old r.1 es) (λ rest. ok (r.0 ∷ rest)))
      (parse_endpoint-IsUsable lib preserve old seen e)
      (λ r h.
        and_then-Accepted (All IsUsable) (All IsUsable) (parse_endpoints lib preserve old r.1 es)
          (λ rest. ok (r.0 ∷ rest)) (parse_endpoints-IsUsable lib preserve old r.1 es)
          (λ rest k. (h, k)))

pub accept_any {ℓ} : {A : Type ℓ} (r : Result A) → Accepted (λ a. Unit) r
accept_any (ok a) = tt
accept_any (err e) = tt

-- What holds of the endpoints that the loop accepts holds of an accepted configuration's.
pub parse-Accepted :
    (P : List EgressEndpoint → Type 0) (lib : UrlLib) (old : EgressConfig) (preserve : Bool)
    (cfg : DecodedConfig)
    → ((es : List DecodedEndpoint)
        → Accepted P (parse_endpoints lib preserve old.endpoints ([], empty) es))
    → Accepted (λ c. P c.endpoints) (parse_egress_config lib old preserve cfg)
unfolding parse_egress_config
parse-Accepted P lib old preserve cfg h =
    let Q : EgressConfig → Type 0 = λ c. P c.endpoints in
    let wait = or_bad_range (in_range 0 60 cfg.wait_timeout_seconds) in
    let cooldown = or_bad_range (in_range 1 86400 cfg.ip_cooldown_seconds) in
    let given = at_most_256 cfg.endpoints in
    and_then-Accepted (λ n. Unit) Q wait _ (accept_any wait)
      (λ _ _.
        and_then-Accepted (λ n. Unit) Q cooldown _ (accept_any cooldown)
          (λ _ _.
            and_then-Accepted (λ n. Unit) Q given _ (accept_any given)
              (λ es _.
                and_then-Accepted P Q (parse_endpoints lib preserve old.endpoints ([], empty) es) _
                  (h es) (λ _ k. k))))

-- Every endpoint of an accepted configuration has an rpm between 1 and 100000, a number of requests
-- at once between 1 and 1024, and a name and a group that are not empty.
pub parse-IsUsable :
    (lib : UrlLib) (old : EgressConfig) (preserve : Bool) (cfg : DecodedConfig)
    → Accepted (λ c. All IsUsable c.endpoints) (parse_egress_config lib old preserve cfg)
parse-IsUsable lib old preserve cfg =
    parse-Accepted (All IsUsable) lib old preserve cfg
      (parse_endpoints-IsUsable lib preserve old.endpoints ([], empty))
