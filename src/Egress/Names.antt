-- ===== src/Egress/Names.antt =====
-- The names in an accepted configuration (internal/bridge/egress_config.go: parseEgressConfig).
use mathlib.Core.Path.{subst}
use cline_pass_bridge.Base.{
  ℕ, String, ◌≡◌, refl, Bool, true, false, not, Option, none, some, List, [], ◌∷◌, arith, ◌==◌,
  nat_eq, string_eq, if◌then◌else◌, any, All, Bool-cases, inl, inr,
}
use cline_pass_bridge.Base.Dict.{get, empty}
use cline_pass_bridge.Faults.{Result, ok, err}
use cline_pass_bridge.Egress.Config.{EgressEndpoint, EgressConfig, UrlLib, normalize_egress_proxy}
use cline_pass_bridge.Egress.Parse.{
  DecodedEndpoint, DecodedConfig, in_range, or_default, previous, proxy_to_keep, Seen, bad_name,
  same_limits, endpoint_of, limit_endpoint, parse_endpoint, and_then, parse_endpoints,
  parse_egress_config,
}
use cline_pass_bridge.Egress.Accepted.{Accepted, and_then-Accepted, parse-Accepted}

-- A name that is not among others.
abbrev pub is_new : List String → String → Bool
is_new ids id = not (any (λ other. other == id) ids)

abbrev pub AreDistinct : List EgressEndpoint → Type 0
AreDistinct [] = Unit
AreDistinct (e ∷ es) = All (λ x. (e.id == x.id) ≡ false) es × AreDistinct es

-- A new name, which the loop remembers.
abbrev IsNext : List String → EgressEndpoint × Seen → Type 0
IsNext ids p = (is_new ids p.0.id ≡ true) × (p.1.0 ≡ p.0.id ∷ ids)

endpoint-IsNext :
    (lib : UrlLib) (e : DecodedEndpoint) (id group : String) (rpm flight : ℕ) (seen : Seen)
    (r : Result String)
    → is_new seen.0 id ≡ true
    → Accepted (IsNext seen.0) (endpoint_of lib e id group rpm flight seen r)
endpoint-IsNext lib e id group rpm flight seen (err f) n = tt
endpoint-IsNext lib e id group rpm flight seen (ok proxy) n = (n, refl)

limit-IsNext :
    (lib : UrlLib) (preserve : Bool) (old : List EgressEndpoint) (seen : Seen) (e : DecodedEndpoint)
    (id group : String) (rpm flight : Option ℕ)
    → is_new seen.0 id ≡ true
    → Accepted (IsNext seen.0) (limit_endpoint lib preserve old seen e id group rpm flight)
unfolding limit_endpoint
limit-IsNext lib preserve old seen e id group none flight n = tt
limit-IsNext lib preserve old seen e id group (some rpm) none n = tt
limit-IsNext lib preserve old seen e id group (some rpm) (some flight) n =
    elim (Bool-cases (not (same_limits (get seen.1 group) rpm flight))) [
      | inl unequal ↦ rw unequal tt
      | inr equal ↦ rw equal (
          endpoint-IsNext lib e id group rpm flight seen
            (normalize_egress_proxy lib (proxy_to_keep lib preserve e.proxy_url (previous id old)))
            n)
    ]

parse_endpoint-IsNext :
    (lib : UrlLib) (preserve : Bool) (old : List EgressEndpoint) (seen : Seen) (e : DecodedEndpoint)
    → Accepted (IsNext seen.0) (parse_endpoint lib preserve old seen e)
unfolding parse_endpoint
parse_endpoint-IsNext lib preserve old seen e =
    let id = lib.trim_space e.id in
    let given = lib.trim_space e.group in
    elim (Bool-cases (bad_name lib seen.0 id (lib.trim_space e.label) given)) [
      | inl bad ↦ rw bad tt
      | inr good ↦ rw good (
          limit-IsNext lib preserve old seen e id (if given == "" then id else given)
            (in_range 1 100000 (or_default 60 e.rpm))
            (in_range 1 1024 (or_default 4 e.max_inflight)) (ground (arith, good)))
    ]

AreNew : List String → List EgressEndpoint → Type 0
AreNew ids es = All (λ e. is_new ids e.id ≡ true) es × AreDistinct es

-- Names that are new besides one more name.
drop_name :
    (ids : List String) (id : String) (es : List EgressEndpoint)
    → All (λ e. is_new (id ∷ ids) e.id ≡ true) es
    → All (λ e. is_new ids e.id ≡ true) es × All (λ x. (id == x.id) ≡ false) es
drop_name ids id [] h = (tt, tt)
drop_name ids id (e ∷ es) (h, hs) =
    let rest = drop_name ids id es hs in ((ground arith, rest.0), (ground arith, rest.1))

add_name :
    (ids later : List String) (e : EgressEndpoint) (es : List EgressEndpoint)
    → is_new ids e.id ≡ true
    → later ≡ e.id ∷ ids
    → AreNew later es
    → AreNew ids (e ∷ es)
unfolding AreNew
add_name ids later e es n s (h, d) =
    let both = drop_name ids e.id es (subst (λ x. All (λ y. is_new x y.id ≡ true) es) s h) in
    ((n, both.0), (both.1, d))

parse_endpoints-AreNew :
    (lib : UrlLib) (preserve : Bool) (old : List EgressEndpoint) (seen : Seen)
    (es : List DecodedEndpoint)
    → Accepted (AreNew seen.0) (parse_endpoints lib preserve old seen es)
unfolding parse_endpoints AreNew
parse_endpoints-AreNew lib preserve old seen [] = (tt, tt)
parse_endpoints-AreNew lib preserve old seen (e ∷ es) =
    and_then-Accepted (IsNext seen.0) (AreNew seen.0) (parse_endpoint lib preserve old seen e)
      (λ r. and_then (parse_endpoints lib preserve old r.1 es) (λ rest. ok (r.0 ∷ rest)))
      (parse_endpoint-IsNext lib preserve old seen e)
      (λ r n.
        and_then-Accepted (AreNew r.1.0) (AreNew seen.0) (parse_endpoints lib preserve old r.1 es)
          (λ rest. ok (r.0 ∷ rest)) (parse_endpoints-AreNew lib preserve old r.1 es)
          (λ rest k. add_name seen.0 r.1.0 r.0 rest n.0 n.1 k))

Accepted-weaken {ℓ} :
    {A : Type ℓ} (P Q : A → Type 0) (r : Result A)
    → Accepted P r
    → ((a : A) → P a → Q a)
    → Accepted Q r
Accepted-weaken P Q (ok a) h f = f a h
Accepted-weaken P Q (err e) h f = tt

-- No two endpoints of an accepted configuration have the same name.
pub parse-AreDistinct :
    (lib : UrlLib) (old : EgressConfig) (preserve : Bool) (cfg : DecodedConfig)
    → Accepted (λ c. AreDistinct c.endpoints) (parse_egress_config lib old preserve cfg)
unfolding AreNew
parse-AreDistinct lib old preserve cfg = parse-Accepted AreDistinct lib old preserve cfg (λ es.
    Accepted-weaken (AreNew []) AreDistinct
      (parse_endpoints lib preserve old.endpoints ([], empty) es)
      (parse_endpoints-AreNew lib preserve old.endpoints ([], empty) es) (λ a h. h.1))
