-- ===== src/Egress/Parse.antt =====
-- The checks on a decoded egress configuration (internal/bridge/egress_config.go: parseEgressConfig,
-- maskedEgressProxy). The JSON decoder is left out: the argument is what it has decoded.
use cline_pass_bridge.Base.{
  ℕ, String, Bool, true, false, ◌&&◌, ◌||◌, not, Option, none, some, List, [], ◌∷◌, ltb, leb, ◌==◌,
  nat_eq, string_eq, if◌then◌else◌, is_some, length, any,
}
use cline_pass_bridge.Base.Int.{ℤ, pos, negsuc}
use cline_pass_bridge.Base.Dict.{Dict, get, put, empty}
use cline_pass_bridge.Base.Text.{codes}
use cline_pass_bridge.Faults.{Fault, Result, ok, err, fail}
use cline_pass_bridge.Egress.Config.{
  Userinfo, EgressEndpoint, EgressConfig, UrlLib, normalize_egress_proxy,
}

pub record DecodedEndpoint : Type 0 where
  pub id : String
  pub label : String
  pub enabled : Bool
  pub group : String
  pub proxy_url : String
  pub rpm : ℤ
  pub max_inflight : ℤ

pub record DecodedConfig : Type 0 where
  pub enabled : Bool
  pub wait_timeout_seconds : ℤ
  pub ip_cooldown_seconds : ℤ
  pub endpoints : List DecodedEndpoint

-- The number, if it is in a range; 0 stands for a default.
unfoldable pub in_range : ℕ → ℕ → ℤ → Option ℕ
in_range low high (pos n) = if leb low n && leb n high then some n else none
in_range low high (negsuc n) = none

abbrev pub or_default : ℕ → ℤ → ℤ
or_default d (pos n) = pos (if n == 0 then d else n)
or_default d (negsuc n) = negsuc n

-- previous[id]; of equal identifiers the last one counts.
unfoldable pub previous : String → List EgressEndpoint → Option EgressEndpoint
previous id [] = none
previous id (e ∷ es) =
    let rest = previous id es in
    elim rest [ some later ↦ some later | none ↦ (if e.id == id then some e else none) ]

-- `url.UserPassword("***", "***")`
abbrev pub masked_user : Userinfo
masked_user = record { username = "***"; password = some "***" }

unfoldable pub masked_egress_proxy : UrlLib → String → String × Bool
masked_egress_proxy lib raw = if raw == "direct" then (raw, false) else elim (lib.parse raw) [
  | none ↦ ("", false)
  | some u ↦ (
    lib.print (record u { user = if is_some u.user then some masked_user else u.user }),
    is_some u.user,
  )
]

unfoldable pub public_endpoint : UrlLib → EgressEndpoint → EgressEndpoint
public_endpoint lib e =
    let (shown, auth) = masked_egress_proxy lib e.proxy_url in
    record e { proxy_url = shown; has_auth = auth }

-- An empty or masked proxy of a known endpoint stands for the one it has.
unfoldable pub proxy_to_keep : UrlLib → Bool → String → Option EgressEndpoint → String
proxy_to_keep lib preserve raw none = raw
proxy_to_keep lib preserve raw (some old) =
    if preserve && (lib.trim_space raw == "" || raw == (masked_egress_proxy lib old.proxy_url).0)
    then old.proxy_url
    else raw

abbrev pub Seen : Type 0
Seen = List String × Dict String (ℕ × ℕ)

abbrev pub bad_name : UrlLib → List String → String → String → String → Bool
bad_name lib ids id label group =
    id == ""
    || (ltb 64 (lib.byte_length id)
        || (lib.has_line_break id
            || (any (λ other. other == id) ids
                || (ltb 300 (lib.byte_length label)
                    || (ltb 128 (lib.byte_length group) || lib.has_line_break group)))))

abbrev pub same_limits : Option (ℕ × ℕ) → ℕ → ℕ → Bool
same_limits none rpm flight = true
same_limits (some l) rpm flight = l.0 == rpm && l.1 == flight

abbrev pub bad_names : Fault
bad_names =
    fail 400 (codes "egress IDs must be unique and nonempty; labels and groups must be bounded")

abbrev pub bad_limits : Fault
bad_limits = fail 400 (codes "egress RPM must be 1-100000 and max_inflight 1-1024")

abbrev pub unequal_limits : Fault
unequal_limits =
    fail 400 (codes "endpoints sharing an egress group must have identical RPM and max_inflight")

abbrev pub bad_ranges : Fault
bad_ranges =
    fail 400 (codes "egress wait must be 0-60s, IP cooldown 1-86400s, and endpoints at most 256")

abbrev pub endpoint_of :
    UrlLib
    → DecodedEndpoint
    → String
    → String
    → ℕ
    → ℕ
    → Seen
    → Result String
    → Result (EgressEndpoint × Seen)
endpoint_of lib e id group rpm flight seen (err f) = err f
endpoint_of lib e id group rpm flight seen (ok proxy) = ok (
  record {
    id = id;
    label = lib.trim_space e.label;
    enabled = e.enabled;
    group = group;
    proxy_url = proxy;
    has_auth = false;
    rpm = rpm;
    max_inflight = flight;
  },
  (id ∷ seen.0, put seen.1 group (rpm, flight)),
)

-- The limits of an endpoint against those of the earlier endpoints of its group.
unfoldable pub limit_endpoint :
    UrlLib
    → Bool
    → List EgressEndpoint
    → Seen
    → DecodedEndpoint
    → String
    → String
    → Option ℕ
    → Option ℕ
    → Result (EgressEndpoint × Seen)
limit_endpoint lib preserve old seen e id group none flight = err bad_limits
limit_endpoint lib preserve old seen e id group (some rpm) none = err bad_limits
limit_endpoint lib preserve old seen e id group (some rpm) (some flight) =
    if not (same_limits (get seen.1 group) rpm flight)
    then err unequal_limits
    else endpoint_of lib e id group rpm flight seen
        (normalize_egress_proxy lib (proxy_to_keep lib preserve e.proxy_url (previous id old)))

unfoldable pub parse_endpoint :
    UrlLib → Bool → List EgressEndpoint → Seen → DecodedEndpoint → Result (EgressEndpoint × Seen)
parse_endpoint lib preserve old seen e =
    let id = lib.trim_space e.id in
    let named = lib.trim_space e.group in
    if bad_name lib seen.0 id (lib.trim_space e.label) named
    then err bad_names
    else limit_endpoint lib preserve old seen e id (if named == "" then id else named)
        (in_range 1 100000 (or_default 60 e.rpm)) (in_range 1 1024 (or_default 4 e.max_inflight))

abbrev pub and_then {ℓ κ} : {A : Type ℓ} {B : Type κ} → Result A → (A → Result B) → Result B
and_then (ok a) f = f a
and_then (err e) f = err e

unfoldable pub parse_endpoints :
    UrlLib → Bool → List EgressEndpoint → Seen → List DecodedEndpoint → Result (List EgressEndpoint)
parse_endpoints lib preserve old seen [] = ok []
parse_endpoints lib preserve old seen (e ∷ es) =
    and_then (parse_endpoint lib preserve old seen e)
      (λ r. and_then (parse_endpoints lib preserve old r.1 es) (λ rest. ok (r.0 ∷ rest)))

abbrev pub or_bad_range : Option ℕ → Result ℕ
or_bad_range none = err bad_ranges
or_bad_range (some n) = ok n

abbrev pub at_most_256 : List DecodedEndpoint → Result (List DecodedEndpoint)
at_most_256 es = if ltb 256 (length es) then err bad_ranges else ok es

unfoldable pub parse_egress_config :
    UrlLib → EgressConfig → Bool → DecodedConfig → Result EgressConfig
parse_egress_config lib old preserve cfg =
    and_then (or_bad_range (in_range 0 60 cfg.wait_timeout_seconds)) (λ wait.
      and_then (or_bad_range (in_range 1 86400 cfg.ip_cooldown_seconds)) (λ cooldown.
        and_then (at_most_256 cfg.endpoints) (λ given.
          and_then (parse_endpoints lib preserve old.endpoints ([], empty) given) (λ es.
            ok (record {
              enabled = cfg.enabled;
              wait_timeout_seconds = wait;
              ip_cooldown_seconds = cooldown;
              endpoints = es;
            })))))
