-- ===== src/Routing/Policy.antt =====
-- Which of a caller's hints each policy lets through.
use cline_pass_bridge.Base.{
  is_empty, String, ◌≡◌, refl, ap, ◌∙◌, sym, ◌⊎◌, inl, inr, Bool, true, false, Option, none, some,
  List, [], ◌∷◌, ◌==◌, string_eq, if◌then◌else◌, is_some, Bool-cases, Option-cases,
}
use cline_pass_bridge.Json.{
  Json, Fields, arr, end, field, find, delete, store, or_null, value_at, object, find-store,
  find-delete,
}
use cline_pass_bridge.Routing.{
  Model, RoutingConfig, texts, fields_of, pinned_providers, pinned_has, fill_from, backfill,
  apply_official_region, hints, resolve_gateway, apply_preset_routing, custom_model, route_by,
  apply_provider_routing,
}
use cline_pass_bridge.Routing.Hints.{
  sent_gateway, AreAlike, given_gateway, options_in, find-end, preset-sent, preset-AreAlike,
  custom-sent,
}

route_by-AreAlike :
    (cfg : RoutingConfig) (a b : Fields) (alias : String) (custom : Option Model)
    → (cfg.provider_policy == "config") ≡ true
    → (cfg.provider_policy == "client") ≡ false
    → AreAlike (route_by cfg a alias custom) (route_by cfg b alias custom)
route_by-AreAlike cfg a b alias none h g = preset-AreAlike cfg a b alias h
route_by-AreAlike cfg a b alias (some m) h g =
    let one = custom-sent a m.provider_options cfg.provider_policy g in
    let two = custom-sent b m.provider_options cfg.provider_policy g in
    (one.0 ∙ sym two.0, one.1 ∙ sym two.1)

dropped-AreAlike :
    (a b : Fields)
    → AreAlike
        (delete (delete a "providerOptions") "provider")
        (delete (delete b "providerOptions") "provider")
dropped-AreAlike a b = (
  find-delete (delete a "providerOptions") "provider" "provider"
      ∙ sym (find-delete (delete b "providerOptions") "provider" "provider"),
  gone a ∙ sym (gone b),
)
  where
    gone : (j : Fields) → sent_gateway (delete (delete j "providerOptions") "provider") ≡ none
    gone j =
        options_in (delete (delete j "providerOptions") "provider") none (
          find-delete (delete j "providerOptions") "provider" "providerOptions"
          ∙ find-delete j "providerOptions" "providerOptions")
        ∙ find-end "gateway"

-- Unless the policy is the caller's, no hint of a caller reaches the routing: two requests for one
-- model are sent with the same top-level form and the same gateway options, whatever they ask for.
pub apply_provider_routing-AreAlike :
    (cfg : RoutingConfig) (a b : Fields) (alias : String)
    → (cfg.provider_policy ≡ "none") ⊎ (cfg.provider_policy ≡ "config")
    → AreAlike (apply_provider_routing cfg a alias) (apply_provider_routing cfg b alias)
unfolding apply_provider_routing
apply_provider_routing-AreAlike cfg a b alias (inl h) =
    let off : (cfg.provider_policy == "none") ≡ true = ap (λ x. x == "none") h in
    rw off (dropped-AreAlike a b)
apply_provider_routing-AreAlike cfg a b alias (inr h) =
    let on : (cfg.provider_policy == "none") ≡ false = ap (λ x. x == "none") h in
    rw on (
      route_by-AreAlike cfg a b alias (custom_model cfg.models alias) (ap (λ x. x == "config") h)
        (ap (λ x. x == "client") h))

-- The first of two values that is there.
abbrev pub first_of {ℓ} : {A : Type ℓ} → Option A → Option A → Option A
first_of none b = b
first_of (some a) b = some a

first_of-none {ℓ} : {A : Type ℓ} (o : Option A) → first_of o none ≡ o
first_of-none none = refl
first_of-none (some a) = refl

find-filled :
    (m : Fields) (j k : String) (v : Json) (rest : Option Json)
    → first_of (find (if is_some (find m j) then m else store m j v) k) rest
      ≡ first_of (find m k) (if j == k then some v else rest)
find-filled m j k v rest = elim (Option-cases (find m j)) [
  | inr present ↦ elim (Bool-cases (j == k)) [
    | inl same ↦
        let at_k : find m k ≡ some present.0 =
          ap (find m) (sym ((string_eq.same_iff j k).0 same)) ∙ present.1 in
        rw (present.1, same, at_k) refl
    | inr other ↦ rw (present.1, other) refl
  ]
  | inl absent ↦ elim (Bool-cases (j == k)) [
    | inl same ↦
        let at_k : find m k ≡ none = ap (find m) (sym ((string_eq.same_iff j k).0 same)) ∙ absent in
        rw (absent, find-store m j k v, same, at_k) refl
    | inr other ↦ rw (absent, find-store m j k v, other) refl
  ]
]

find-fill_from :
    (from m : Fields) (k : String) → find (fill_from from m) k ≡ first_of (find m k) (find from k)
unfolding fill_from find
find-fill_from end m k = sym (first_of-none (find m k))
find-fill_from (field j v from) m k =
    find-fill_from from (if is_some (find m j) then m else store m j v) k
    ∙ find-filled m j k v (find from k)

-- A configured list, unless it is empty.
abbrev given_list : List String → Option Json
given_list pinned = if is_empty pinned then none else some (arr (texts pinned))

abbrev only_at : String → String → List String → Option Json
only_at j k pinned = if j == k then given_list pinned else none

-- What the configuration has for a field of the gateway.
abbrev pub pinned_value : RoutingConfig → String → String → Option Json
pinned_value cfg alias k = first_of (only_at "only" k (pinned_providers cfg.models alias)) (
    first_of (only_at "order" k (pinned_providers cfg.models alias))
      (only_at "has" k (pinned_has cfg.models alias)))

first_of_assoc {ℓ} :
    {A : Type ℓ} (a b c : Option A) → first_of (first_of a b) c ≡ first_of a (first_of b c)
first_of_assoc none b c = refl
first_of_assoc (some x) b c = refl

find-backfill :
    (j : String) (pinned : List String) (m : Fields) (k : String)
    → find (backfill j pinned m) k ≡ first_of (find m k) (only_at j k pinned)
find-backfill j [] m k = elim (Option-cases (find m j)) [
  | inr present ↦ rw present.1 (missing (j == k))
  | inl absent ↦ rw absent (missing (j == k))
]
  where
    missing : (b : Bool) → find m k ≡ first_of (find m k) (if b then none else none)
    missing true = sym (first_of-none (find m k))
    missing false = sym (first_of-none (find m k))
find-backfill j (p ∷ pinned) m k =
    let v = arr (texts (p ∷ pinned)) in
    let same : backfill j (p ∷ pinned) m ≡ (if is_some (find m j) then m else store m j v) =
      elim (Option-cases (find m j)) [
        | inr present ↦ rw present.1 refl
        | inl absent ↦ rw absent refl
      ] in
    ap (λ x. find x k) same
    ∙ sym (first_of-none (find (if is_some (find m j) then m else store m j v) k))
    ∙ find-filled m j k v none

find-backfilled :
    (cfg : RoutingConfig) (alias : String) (m : Fields) (k : String)
    → find
        (backfill "has" (pinned_has cfg.models alias) (
          backfill "order"
            (pinned_providers cfg.models alias)
            (backfill "only" (pinned_providers cfg.models alias) m)))
        k
      ≡ first_of (find m k) (pinned_value cfg alias k)
find-backfilled cfg alias m k =
    let pinned = pinned_providers cfg.models alias in
    let with_only = backfill "only" pinned m in
    let only = only_at "only" k pinned in
    let order = only_at "order" k pinned in
    let has = only_at "has" k (pinned_has cfg.models alias) in
    find-backfill "has" (pinned_has cfg.models alias) (backfill "order" pinned with_only) k
    ∙ ap (λ x. first_of x has) (find-backfill "order" pinned with_only k)
    ∙ ap (λ x. first_of (first_of x order) has) (find-backfill "only" pinned m k)
    ∙ first_of_assoc (first_of (find m k) only) order has
    ∙ first_of_assoc (find m k) only (first_of order has)

find-resolve_gateway :
    (cfg : RoutingConfig) (alias : String) (caller : Fields) (k : String)
    → (cfg.provider_policy == "config") ≡ false
    → find (resolve_gateway cfg alias caller) k
      ≡ first_of (find caller k) (pinned_value cfg alias k)
unfolding resolve_gateway apply_official_region
find-resolve_gateway cfg alias caller k h = rw h (find-backfilled cfg alias caller k)

-- A request's own hints.
abbrev pub gateway_hint : Fields → String → Option Json
gateway_hint j k =
    find
      (fields_of (
        object
          (or_null (find (fields_of (object (value_at (some j) "providerOptions"))) "gateway"))))
      k

abbrev pub shorthand_hint : Fields → String → Option Json
shorthand_hint j k = find (fields_of (object (value_at (some j) "provider"))) k

-- The field of the gateway's options that is sent.
abbrev pub sent_option : Fields → String → Option Json
sent_option j k = find (fields_of (object (or_null (sent_gateway j)))) k

find-given :
    (gateway : Fields) (k : String)
    → find (fields_of (object (or_null (given_gateway gateway)))) k ≡ find gateway k
find-given end k = refl
find-given (field j v gateway) k = refl

preset_option :
    (cfg : RoutingConfig) (j : Fields) (alias k : String)
    → (cfg.provider_policy == "config") ≡ false
    → sent_option (apply_preset_routing cfg j alias) k
      ≡ first_of (gateway_hint j k) (first_of (shorthand_hint j k) (pinned_value cfg alias k))
unfolding hints
preset_option cfg j alias k h =
    let opts = fields_of (object (value_at (some j) "providerOptions")) in
    let provider = fields_of (object (value_at (some j) "provider")) in
    let own = fields_of (object (or_null (find opts "gateway"))) in
    let (g, g_is, g_provider, g_gateway) = preset-sent cfg j alias in
    ap (λ x. find (fields_of (object (or_null x))) k) g_gateway
    ∙ find-given g k
    ∙ ap (λ x. find x k) g_is
    ∙ find-resolve_gateway cfg alias (fill_from provider own) k h
    ∙ ap (λ x. first_of x (pinned_value cfg alias k)) (find-fill_from provider own k)
    ∙ first_of_assoc (find own k) (find provider k) (pinned_value cfg alias k)

-- Where the policy is the caller's and the model has no custom routing, each field of the gateway's
-- options that is sent is the caller's, from its gateway options or else its shorthand, and where the
-- caller has none, the configured one.
pub apply_provider_routing-first :
    (cfg : RoutingConfig) (j : Fields) (alias k : String)
    → cfg.provider_policy ≡ "client"
    → custom_model cfg.models alias ≡ none
    → sent_option (apply_provider_routing cfg j alias) k
      ≡ first_of (gateway_hint j k) (first_of (shorthand_hint j k) (pinned_value cfg alias k))
unfolding apply_provider_routing
apply_provider_routing-first cfg j alias k policy preset =
    let on : (cfg.provider_policy == "none") ≡ false = ap (λ x. x == "none") policy in
    rw (on, preset) (preset_option cfg j alias k (ap (λ x. x == "config") policy))
