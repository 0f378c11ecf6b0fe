-- ===== src/Routing/Hints.antt =====
-- What a caller's routing hints come to.
use cline_pass_bridge.Base.{
  String, ◌≡◌, refl, ap, ◌∙◌, sym, inl, inr, true, false, Option, none, some, ◌==◌, string_eq,
  if◌then◌else◌, Bool-cases,
}
use cline_pass_bridge.Json.{
  Json, Fields, obj, end, field, find, delete, store, or_null, value_at, object, find-store,
  find-delete,
}
use cline_pass_bridge.Routing.{
  RoutingConfig, fields_of, is_end, provider_form, store_provider, custom_options,
  apply_custom_provider_routing, hints, resolve_gateway, store_routing, apply_preset_routing,
}

-- What is sent of the routing: the top-level form, and the gateway's options.
abbrev pub sent_provider : Fields → Option Json
sent_provider j = find j "provider"

abbrev pub sent_gateway : Fields → Option Json
sent_gateway j = find (fields_of (object (or_null (find j "providerOptions")))) "gateway"

-- Two requests are routed alike.
abbrev pub AreAlike : Fields → Fields → Type 0
AreAlike a b = (sent_provider a ≡ sent_provider b) × (sent_gateway a ≡ sent_gateway b)

-- The routing that a gateway's options alone call for.
abbrev pub given_provider : Fields → Option Json
given_provider gateway =
    if is_end (provider_form gateway) then none else some (obj (provider_form gateway))

store_provider-sent :
    (j provider : Fields)
    → find j "provider" ≡ none
    → find (store_provider j provider) "provider"
      ≡ (if is_end provider then none else some (obj provider))
store_provider-sent j provider h = elim (Bool-cases (is_end provider)) [
  | inl nothing ↦ rw nothing h
  | inr something ↦ rw something (find-store j "provider" "provider" (obj provider))
]

provider_form-end : provider_form end ≡ end
unfolding provider_form find
provider_form-end = refl

store_routing-provider :
    (j opts gateway : Fields)
    → find j "provider" ≡ none
    → find (store_routing j opts gateway) "provider" ≡ given_provider gateway
unfolding store_routing
store_routing-provider j opts end h = rw provider_form-end (elim (Bool-cases (is_end opts)) [
  | inl nothing ↦ rw nothing (find-delete j "providerOptions" "provider" ∙ h)
  | inr something ↦ rw something (find-store j "providerOptions" "provider" (obj opts) ∙ h)
])
store_routing-provider j opts (field k v gateway) h =
    find-store (store_provider j (provider_form (field k v gateway))) "providerOptions" "provider"
      (obj (store opts "gateway" (obj (field k v gateway))))
    ∙ store_provider-sent j (provider_form (field k v gateway)) h

-- The options of a request whose field is known.
pub options_in :
    (j : Fields) (o : Option Json)
    → find j "providerOptions" ≡ o
    → sent_gateway j ≡ find (fields_of (object (or_null o))) "gateway"
options_in j o h = ap (λ x. find (fields_of (object (or_null x))) "gateway") h

pub find-end : (k : String) → find end k ≡ none
unfolding find
find-end k = refl

abbrev pub given_gateway : Fields → Option Json
given_gateway gateway = if is_end gateway then none else some (obj gateway)

store_routing-gateway :
    (j opts gateway : Fields)
    → find opts "gateway" ≡ none
    → sent_gateway (store_routing j opts gateway) ≡ given_gateway gateway
unfolding store_routing
store_routing-gateway j opts end h = elim (Bool-cases (is_end opts)) [
  | inl nothing ↦ rw nothing (
      options_in (delete j "providerOptions") none
        (find-delete j "providerOptions" "providerOptions")
      ∙ find-end "gateway")
  | inr something ↦ rw something (
      options_in (store j "providerOptions" (obj opts)) (some (obj opts))
        (find-store j "providerOptions" "providerOptions" (obj opts))
      ∙ h)
]
store_routing-gateway j opts (field k v gateway) h =
    let sent = obj (store opts "gateway" (obj (field k v gateway))) in
    let form = provider_form (field k v gateway) in
    options_in (store (store_provider j form) "providerOptions" sent) (some sent)
      (find-store (store_provider j form) "providerOptions" "providerOptions" sent)
    ∙ find-store opts "gateway" "gateway" (obj (field k v gateway))

pub preset-sent :
    (cfg : RoutingConfig) (j : Fields) (alias : String)
    → (gateway : Fields) × (gateway
        ≡ resolve_gateway cfg alias (
            hints
              (fields_of (object (value_at (some j) "providerOptions")))
              (fields_of (object (value_at (some j) "provider")))))
      × (sent_provider (apply_preset_routing cfg j alias) ≡ given_provider gateway)
      × (sent_gateway (apply_preset_routing cfg j alias) ≡ given_gateway gateway)
unfolding apply_preset_routing
preset-sent cfg j alias =
    let opts = fields_of (object (value_at (some j) "providerOptions")) in
    let provider = fields_of (object (value_at (some j) "provider")) in
    let gateway = resolve_gateway cfg alias (hints opts provider) in
    (
      gateway,
      refl,
      store_routing-provider (delete j "provider") (delete opts "gateway") gateway
          (find-delete j "provider" "provider"),
      store_routing-gateway (delete j "provider") (delete opts "gateway") gateway
          (find-delete opts "gateway" "gateway"),
    )

-- Under the configured policy the options do not depend on the caller.
resolve_gateway-configured :
    (cfg : RoutingConfig) (alias : String) (a b : Fields)
    → (cfg.provider_policy == "config") ≡ true
    → resolve_gateway cfg alias a ≡ resolve_gateway cfg alias b
unfolding resolve_gateway
resolve_gateway-configured cfg alias a b h = rw h refl

pub preset-AreAlike :
    (cfg : RoutingConfig) (a b : Fields) (alias : String)
    → (cfg.provider_policy == "config") ≡ true
    → AreAlike (apply_preset_routing cfg a alias) (apply_preset_routing cfg b alias)
preset-AreAlike cfg a b alias h =
    let (g, g_is, g_provider, g_gateway) = preset-sent cfg a alias in
    let (k, k_is, k_provider, k_gateway) = preset-sent cfg b alias in
    let same : g ≡ k =
      g_is
      ∙ resolve_gateway-configured cfg alias
          (hints (fields_of (object (value_at (some a) "providerOptions")))
            (fields_of (object (value_at (some a) "provider"))))
          (hints (fields_of (object (value_at (some b) "providerOptions")))
            (fields_of (object (value_at (some b) "provider"))))
          h
      ∙ sym k_is in
    (
      g_provider ∙ ap given_provider same ∙ sym k_provider,
      g_gateway ∙ ap given_gateway same ∙ sym k_gateway,
    )

store_provider-options :
    (j provider : Fields)
    → find (store_provider j provider) "providerOptions" ≡ find j "providerOptions"
store_provider-options j provider = elim (Bool-cases (is_end provider)) [
  | inl nothing ↦ rw nothing refl
  | inr something ↦ rw something (find-store j "provider" "providerOptions" (obj provider))
]

pub custom-sent :
    (j : Fields) (configured : Option Fields) (policy : String)
    → (policy == "client") ≡ false
    → (sent_provider (apply_custom_provider_routing j configured policy)
        ≡ given_provider (fields_of (object (or_null (find (fields_of configured) "gateway")))))
      × (sent_gateway (apply_custom_provider_routing j configured policy)
          ≡ find (fields_of configured) "gateway")
unfolding apply_custom_provider_routing custom_options
custom-sent j configured policy h =
    let options = fields_of configured in
    let form = provider_form (fields_of (object (or_null (find options "gateway")))) in
    let base = store (delete j "provider") "providerOptions" (obj options) in
    rw h (
      store_provider-sent base form (
          find-store (delete j "provider") "providerOptions" "provider" (obj options)
          ∙ find-delete j "provider" "provider"),
      options_in (store_provider base form) (some (obj options)) (
          store_provider-options base form
          ∙ find-store (delete j "provider") "providerOptions" "providerOptions" (obj options)),
    )
