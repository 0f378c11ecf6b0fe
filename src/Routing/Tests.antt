-- ===== src/Routing/Tests.antt =====
-- The routing of concrete requests.
use cline_pass_bridge.Base.{String, ◌≡◌, refl, inr, none, some, false, [], ◌∷◌, string_eq}
use cline_pass_bridge.Base.Text.{codes}
use cline_pass_bridge.Faults.{ok}
use cline_pass_bridge.Json.{
  error_message, Fields, nil, cons, text, arr, obj, end, field, find, delete, store,
}
use cline_pass_bridge.Routing.{
  Model, RoutingConfig, pinned_providers, pinned_has, is_official, merge_provider_options,
  provider_form, fill_from, apply_official_region, hints, resolve_gateway, store_routing,
  apply_preset_routing, custom_model, apply_provider_routing,
}
use cline_pass_bridge.Routing.Fallback.{
  Checks, UpstreamLib, IsCautious, provider_routing_rejection, send_again, after_forbidden,
  after_first, request_with_routing_fallback, request_with_routing_fallback-IsCautious,
}
use cline_pass_bridge.Routing.Hints.{AreAlike, sent_provider}
use cline_pass_bridge.Routing.Policy.{
  first_of, pinned_value, gateway_hint, shorthand_hint, sent_option,
  apply_provider_routing-AreAlike, apply_provider_routing-first,
}

abbrev flash : Model
flash = record {
  id = "flash";
  upstream_id = "cline-pass/deepseek-v4.1-flash-1017";
  routing_mode = "preset";
  provider_options = none;
  providers = "deepseek" ∷ [];
  has = "vision" ∷ [];
}

abbrev by : String → RoutingConfig
by policy = record { provider_policy = policy; models = flash ∷ [] }

-- The caller asks for another provider, in the shorthand.
abbrev asks : Fields
asks =
    field "model" (text "flash")
      (field "provider" (obj (field "only" (arr (cons (text "other") nil)) end)) end)

abbrev asks_nothing : Fields
asks_nothing = field "model" (text "flash") end

configured_wins :
    sent_provider (apply_provider_routing (by "config") asks "flash")
    ≡ some (
        obj (
          field "only"
            (arr (cons (text "deepseek") nil))
            (field "order" (arr (cons (text "deepseek") nil)) end)))
unfolding apply_provider_routing apply_preset_routing custom_model hints resolve_gateway
    pinned_providers pinned_has fill_from apply_official_region is_official store_routing
    provider_form find store delete
configured_wins = refl

caller_wins :
    sent_option (apply_provider_routing (by "client") asks "flash") "only"
    ≡ some (arr (cons (text "other") nil))
unfolding apply_provider_routing apply_preset_routing custom_model hints resolve_gateway
    pinned_providers pinned_has fill_from apply_official_region is_official store_routing
    provider_form find store delete
caller_wins = refl

-- A client's object is merged with the default's, its other values replace it.
merged_options :
    merge_provider_options
      (field "gateway" (obj (field "sort" (text "cost") (field "only" (arr nil) end))) end)
      (field "gateway" (obj (field "sort" (text "ttft") end)) end)
    ≡ field "gateway" (obj (field "sort" (text "ttft") (field "only" (arr nil) end))) end
unfolding merge_provider_options find store
merged_options = refl

preset : custom_model (by "client").models "flash" ≡ none
unfolding custom_model
preset = refl

apply_provider_routing-AreAlike_example :
    AreAlike
      (apply_provider_routing (by "config") asks "flash")
      (apply_provider_routing (by "config") asks_nothing "flash")
apply_provider_routing-AreAlike_example =
    apply_provider_routing-AreAlike (by "config") asks asks_nothing "flash" (inr refl)

apply_provider_routing-first_example :
    sent_option (apply_provider_routing (by "client") asks "flash") "only"
    ≡ first_of
        (gateway_hint asks "only")
        (first_of (shorthand_hint asks "only") (pinned_value (by "client") "flash" "only"))
apply_provider_routing-first_example =
    apply_provider_routing-first (by "client") asks "flash" "only" refl preset

-- The upstream rejects the routing fields, and accepts the body without them.
abbrev strict : UpstreamLib
strict = record {
  decode_object = λ b. some (field "error" (text provider_routing_rejection) end);
  first = λ j. ok (record { status = 403; body = ok (codes "rejected") });
  second = λ j. ok (record { status = 200; body = ok (codes "done") });
}

abbrev no_checks : Checks
no_checks = record { before_first = none; after_rejection = none; before_second = none }

abbrev pinned : Fields
pinned = field "providerOptions" (obj (field "gateway" (obj asks_nothing) end)) asks_nothing

sent_again :
    (request_with_routing_fallback strict no_checks false pinned).sent ≡ pinned ∷ asks_nothing ∷ []
unfolding request_with_routing_fallback after_first after_forbidden send_again find delete
    error_message
sent_again = refl

request_with_routing_fallback-IsCautious_example :
    IsCautious strict false pinned
      (request_with_routing_fallback strict no_checks false pinned).sent
request_with_routing_fallback-IsCautious_example =
    request_with_routing_fallback-IsCautious strict no_checks false pinned
