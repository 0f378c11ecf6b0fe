-- ===== src/Egress/Choice.antt =====
-- Which endpoints a request may use (internal/bridge/egress_pool.go: candidatesLocked).
use cline_pass_bridge.Base.{
  String, ◌≡◌, ◌≢◌, refl, ◌⊎◌, true, false, ◌&&◌, List, [], ◌∷◌, arith, ◌==◌, nat_eq, string_eq,
  any, select, Bool-cases, inl, inr, eq_iff,
}
use cline_pass_bridge.Faults.{Fault, Result, ok, err, status_code, fail}
use cline_pass_bridge.Egress.{candidates, pinned}
use cline_pass_bridge.Egress.Config.{
  EgressEndpoint, EgressConfig, UrlLib, normalize_egress_proxy, pin_endpoint,
}

-- An enabled endpoint of a proxy.
abbrev pub IsOwn : String → EgressEndpoint → Type 0
IsOwn proxy e = (e.proxy_url ≡ proxy) × (e.enabled ≡ true)

-- Some endpoint, enabled or not, has the proxy.
abbrev pub Lists : String → List EgressEndpoint → Type 0
Lists proxy [] = ⊥
Lists proxy (e ∷ es) = (e.proxy_url ≡ proxy) ⊎ Lists proxy es

-- The enabled endpoints of a proxy among the configured ones, all of them and in their order.
abbrev pub HasOwn : String → List EgressEndpoint → List EgressEndpoint → Type 0
HasOwn proxy [] es = es ≡ []
HasOwn proxy (e ∷ configured) es =
    (IsOwn proxy e
      × ((rest : List EgressEndpoint) × (es ≡ e ∷ rest) × HasOwn proxy configured rest))
    ⊎ ((IsOwn proxy e → ⊥) × HasOwn proxy configured es)

-- An endpoint that stands for a proxy that is not configured.
abbrev pub StandsFor : UrlLib → String → EgressEndpoint → Type 0
StandsFor lib proxy e =
    (e.proxy_url ≡ proxy)
    × (e.enabled ≡ true)
    × (e.group ≡ e.id)
    × (e.rpm ≡ 60)
    × (e.max_inflight ≡ 4)

-- What a request that is pinned to a proxy may use: the configuration decides if it lists the proxy.
abbrev pub IsChoice : UrlLib → EgressConfig → String → Result (List EgressEndpoint) → Type 0
IsChoice lib cfg proxy r =
    (Lists proxy cfg.endpoints
      × ((es : List EgressEndpoint) × (r ≡ ok es) × HasOwn proxy cfg.endpoints es))
    ⊎ (((Lists proxy cfg.endpoints → ⊥)
          × (proxy ≡ "direct")
          × ((f : Fault) × (r ≡ err f) × (status_code f ≡ 400)))
        ⊎ ((Lists proxy cfg.endpoints → ⊥)
            × (proxy ≢ "direct")
            × ((e : EgressEndpoint) × (r ≡ ok (e ∷ [])) × StandsFor lib proxy e)))

known-Lists :
    (proxy : String) (es : List EgressEndpoint)
    → any (λ e. e.proxy_url == proxy) es ≡ true
    → Lists proxy es
known-Lists proxy [] h = absurd (ground arith)
known-Lists proxy (e ∷ es) h = elim (Bool-cases (e.proxy_url == proxy)) [
  | inl here ↦ inl ((eq_iff e.proxy_url proxy).0 here)
  | inr there ↦ inr (known-Lists proxy es (ground (arith, h, there)))
]

Lists-known :
    (proxy : String) (es : List EgressEndpoint)
    → Lists proxy es
    → any (λ e. e.proxy_url == proxy) es ≡ true
Lists-known proxy [] h = absurd h
Lists-known proxy (e ∷ es) (inl here) = ground (arith, eq_iff e.proxy_url proxy, here)
Lists-known proxy (e ∷ es) (inr there) = ground (arith, Lists-known proxy es there)

select-HasOwn :
    (proxy : String) (es : List EgressEndpoint)
    → HasOwn proxy es (select (λ e. e.proxy_url == proxy && e.enabled) es)
select-HasOwn proxy [] = refl
select-HasOwn proxy (e ∷ es) =
    let rest = select (λ x. x.proxy_url == proxy && x.enabled) es in
    let held = select-HasOwn proxy es in
    elim (Bool-cases (e.proxy_url == proxy && e.enabled)) [
      | inl taken ↦
          inl (
            ((eq_iff e.proxy_url proxy).0 (ground arith), ground arith),
            (rest, rw taken refl, held),
          )
      | inr left ↦
          inr (λ own. absurd (ground (arith, left, own, eq_iff e.proxy_url proxy)), rw left held)
    ]

pin-StandsFor : (lib : UrlLib) (proxy : String) → StandsFor lib proxy (pin_endpoint lib proxy)
unfolding pin_endpoint
pin-StandsFor lib proxy = (refl, refl, refl, refl, refl)

pinned-IsChoice :
    (lib : UrlLib) (cfg : EgressConfig) (proxy : String)
    → IsChoice lib cfg proxy (pinned lib cfg (ok proxy))
unfolding pinned fail
pinned-IsChoice lib cfg proxy = elim (Bool-cases (any (λ e. e.proxy_url == proxy) cfg.endpoints)) [
  | inl known ↦
      rw known
        (inl (known-Lists proxy cfg.endpoints known, (_, refl, select-HasOwn proxy cfg.endpoints)))
  | inr unknown ↦
      let out : Lists proxy cfg.endpoints → ⊥ =
        λ l. absurd (ground (arith, unknown, Lists-known proxy cfg.endpoints l)) in
      elim (Bool-cases (proxy == "direct")) [
        | inl direct ↦
            rw (unknown, direct)
              (inr (inl (out, (eq_iff proxy "direct").0 direct, (_, refl, refl))))
        | inr other ↦
            rw (unknown, other)
              (inr (
                inr (
                  out,
                  ground (arith, other, eq_iff proxy "direct"),
                  (pin_endpoint lib proxy, refl, pin-StandsFor lib proxy),
                )))
      ]
]

-- What a credential that is pinned to a proxy may use. If the configuration lists the proxy, it is
-- served by the enabled endpoints of this proxy, by all of them and by no other, so that a configured
-- proxy that is switched off is not used. If the configuration does not list it, "direct" is an error
-- 400, and any other proxy is served by one endpoint of its own, within fixed limits.
pub candidates-IsChoice :
    (lib : UrlLib) (cfg : EgressConfig) (pin proxy : String)
    → (pin == "") ≡ false
    → normalize_egress_proxy lib pin ≡ ok proxy
    → IsChoice lib cfg proxy (candidates lib cfg pin)
unfolding candidates
candidates-IsChoice lib cfg pin proxy h e = rw (h, e) (pinned-IsChoice lib cfg proxy)
