-- ===== src/Routing.antt =====
-- The provider routing of a request (internal/bridge/executor.go: applyProviderRouting,
-- custom_routing.go, official_routing.go, types.go: pinnedProviders, pinnedHas). Values are immutable
-- here, so that a copy is the value; a []string in a body is the array of its texts, and a nil map
-- that is only read is the empty one.
pub mod Fallback
pub mod Hints
pub mod Policy
pub mod Tests
use cline_pass_bridge.Base.{
  is_empty, ℕ, String, ◌≡◌, refl, Bool, true, false, ◌&&◌, ◌||◌, not, Option, none, some, List, [],
  ◌∷◌, ◌==◌, string_eq, if◌then◌else◌, is_some,
}
use cline_pass_bridge.Json.{
  Json, Items, Fields, null, bool, num, text, arr, obj, nil, cons, end, field, find, delete, store,
  or_null, value_at, object,
}

pub record Model : Type 0 where
  pub id : String
  pub upstream_id : String
  pub routing_mode : String
  pub provider_options : Option Fields
  pub providers : List String
  pub has : List String

pub record RoutingConfig : Type 0 where
  pub provider_policy : String
  pub models : List Model

abbrev pub texts : List String → Items
texts [] = nil
texts (s ∷ ss) = cons (text s) (texts ss)

abbrev pub fields_of : Option Fields → Fields
fields_of none = end
fields_of (some m) = m

abbrev pub is_end : Fields → Bool
is_end end = true
is_end (field k v m) = false

unfoldable pub pinned_providers : List Model → String → List String
pinned_providers [] alias = []
pinned_providers (m ∷ models) alias =
    let rest = pinned_providers models alias in if m.id == alias then m.providers else rest

unfoldable pub pinned_has : List Model → String → List String
pinned_has [] alias = []
pinned_has (m ∷ models) alias =
    let rest = pinned_has models alias in if m.id == alias then m.has else rest

-- The client's value of an object merges with the default, any other value replaces it.
unfoldable mutual
  pub merge_provider_options : Fields → Fields → Fields
  merge_provider_options defaults end = defaults
  merge_provider_options defaults (field k v overrides) =
      merge_provider_options
        (store defaults k (merged_value (object (or_null (find defaults k))) v)) overrides

  pub merged_value : Option Fields → Json → Json
  merged_value none v = v
  merged_value (some defaults) (obj overrides) = obj (merge_provider_options defaults overrides)
  merged_value (some defaults) null = null
  merged_value (some defaults) (bool b) = bool b
  merged_value (some defaults) (num n) = num n
  merged_value (some defaults) (text s) = text s
  merged_value (some defaults) (arr xs) = arr xs

-- `only` and `order` of the gateway's options, where present.
abbrev pub mirrored : String → Option Json → Fields → Fields
mirrored k none m = m
mirrored k (some v) m = store m k v

unfoldable pub provider_form : Fields → Fields
provider_form gateway =
    mirrored "order" (find gateway "order") (mirrored "only" (find gateway "only") end)

-- `if len(provider) > 0 { j["provider"] = provider }`
abbrev pub store_provider : Fields → Fields → Fields
store_provider j provider = if is_end provider then j else store j "provider" (obj provider)

abbrev pub with_shorthand : Fields → Fields → Fields
with_shorthand client shorthand =
    if not (is_some (find client "gateway")) || is_some (object (or_null (find client "gateway")))
    then store client "gateway" (
        obj
          (merge_provider_options shorthand (fields_of (object (or_null (find client "gateway"))))))
    else client

-- The caller's options, with the shorthand as the gateway's defaults.
unfoldable pub client_options : Fields → Fields
client_options j =
    let client =
      merge_provider_options end (fields_of (object (value_at (some j) "providerOptions"))) in
    let shorthand = fields_of (object (value_at (some j) "provider")) in
    if is_end shorthand then client else with_shorthand client shorthand

unfoldable pub custom_options : Fields → Option Fields → String → Fields
custom_options j configured policy =
    if policy == "client"
    then merge_provider_options (fields_of configured) (client_options j)
    else fields_of configured

unfoldable pub apply_custom_provider_routing : Fields → Option Fields → String → Fields
apply_custom_provider_routing j configured policy =
    let options = custom_options j configured policy in
    store_provider (store (delete j "provider") "providerOptions" (obj options))
      (provider_form (fields_of (object (or_null (find options "gateway")))))

-- Fields that are not there yet.
unfoldable pub fill_from : Fields → Fields → Fields
fill_from end m = m
fill_from (field k v from) m = fill_from from (if is_some (find m k) then m else store m k v)

abbrev pub backfill : String → List String → Fields → Fields
backfill k pinned m =
    if not (is_some (find m k)) && not (is_empty pinned) then store m k (arr (texts pinned)) else m

abbrev pub official_region : Json
official_region = obj (
    field "scope" (text "global") (
      field "providers"
        (obj (
          field "openai-compatible-private"
            (obj (field "scope" (text "zone") (field "geoRegion" (text "us") end))) end))
        end))

abbrev pub is_deepseek : List String → Bool
is_deepseek [] = false
is_deepseek (p ∷ []) = p == "deepseek"
is_deepseek (p ∷ q ∷ rest) = false

unfoldable pub is_official : List Model → String → Bool
is_official [] alias = false
is_official (m ∷ models) alias =
    let rest = is_official models alias in
    if (m.id == alias) && (m.upstream_id == "cline-pass/deepseek-v4.1-flash-1017")
    then true
    else rest

unfoldable pub apply_official_region : Fields → RoutingConfig → String → Fields
apply_official_region gateway cfg alias =
    if (cfg.provider_policy == "config")
      && is_deepseek (pinned_providers cfg.models alias)
      && is_official cfg.models alias
    then store gateway "inferenceRegion" official_region
    else gateway

-- The caller's hints: the gateway's options, and then the shorthand.
unfoldable pub hints : Fields → Fields → Fields
hints opts provider = fill_from provider (fields_of (object (or_null (find opts "gateway"))))

-- The gateway's options that are sent.
unfoldable pub resolve_gateway : RoutingConfig → String → Fields → Fields
resolve_gateway cfg alias caller =
    let pinned = pinned_providers cfg.models alias in
    let kept = if cfg.provider_policy == "config" then end else caller in
    apply_official_region
      (backfill "has" (pinned_has cfg.models alias)
        (backfill "order" pinned (backfill "only" pinned kept)))
      cfg alias

-- The request's routing fields, once the gateway's options are known.
unfoldable pub store_routing : Fields → Fields → Fields → Fields
store_routing j opts gateway =
    if is_end gateway
    then if is_end opts then delete j "providerOptions" else store j "providerOptions" (obj opts)
    else store (store_provider j (provider_form gateway)) "providerOptions"
        (obj (store opts "gateway" (obj gateway)))

unfoldable pub apply_preset_routing : RoutingConfig → Fields → String → Fields
apply_preset_routing cfg j alias =
    let opts = fields_of (object (value_at (some j) "providerOptions")) in
    let provider = fields_of (object (value_at (some j) "provider")) in
    store_routing (delete j "provider") (delete opts "gateway")
      (resolve_gateway cfg alias (hints opts provider))

-- The first model of the alias whose routing is custom.
unfoldable pub custom_model : List Model → String → Option Model
custom_model [] alias = none
custom_model (m ∷ models) alias =
    let rest = custom_model models alias in
    if (m.id == alias) && (m.routing_mode == "custom") then some m else rest

abbrev pub route_by : RoutingConfig → Fields → String → Option Model → Fields
route_by cfg j alias none = apply_preset_routing cfg j alias
route_by cfg j alias (some m) =
    apply_custom_provider_routing j m.provider_options cfg.provider_policy

unfoldable pub apply_provider_routing : RoutingConfig → Fields → String → Fields
apply_provider_routing cfg j alias =
    if cfg.provider_policy == "none"
    then delete (delete j "providerOptions") "provider"
    else route_by cfg j alias (custom_model cfg.models alias)
