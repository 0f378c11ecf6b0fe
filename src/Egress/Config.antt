-- ===== src/Egress/Config.antt =====
-- Egress configuration (internal/bridge/egress_config.go).
use cline_pass_bridge.Base.{
  ℕ, String, Bool, true, false, ◌&&◌, ◌||◌, not, Option, none, some, List, [], ◌==◌, nat_eq,
  string_eq, if◌then◌else◌,
}
use cline_pass_bridge.Base.Text.{codes}
use cline_pass_bridge.Faults.{Fault, Result, ok, err, fail}

pub record EgressEndpoint : Type 0 where
  pub id : String
  pub label : String
  pub enabled : Bool
  pub group : String
  pub proxy_url : String
  pub has_auth : Bool
  pub rpm : ℕ
  pub max_inflight : ℕ

pub record EgressConfig : Type 0 where
  pub enabled : Bool
  pub wait_timeout_seconds : ℕ
  pub ip_cooldown_seconds : ℕ
  pub endpoints : List EgressEndpoint

-- Userinfo of net/url; a user may have no password.
pub record Userinfo : Type 0 where
  pub username : String
  pub password : Option String

-- A parsed URL, with the fields of URL in net/url. `host` has the port.
pub record Url : Type 0 where
  pub scheme : String
  pub opaque : String
  pub user : Option Userinfo
  pub host : String
  pub path : String
  pub raw_path : String
  pub omit_host : Bool
  pub force_query : Bool
  pub raw_query : String
  pub fragment : String
  pub raw_fragment : String

-- Go's strings, net/url and crypto packages. `hostname` and `print` are the methods Hostname and
-- String of a URL, `byte_length` is len, and `proxy_group` is "credential-proxy-" before the first
-- eight bytes of a text's SHA-256 in hex.
pub record UrlLib : Type 0 where
  pub trim_space : String → String
  pub parse : String → Option Url
  pub hostname : Url → String
  pub print : Url → String
  pub has_line_break : String → Bool
  pub proxy_group : String → String
  pub byte_length : String → ℕ

unfoldable pub default_egress_config : EgressConfig
default_egress_config = record {
  enabled = false;
  wait_timeout_seconds = 5;
  ip_cooldown_seconds = 60;
  endpoints = [];
}

abbrev pub bad_proxy : Fault
bad_proxy =
    fail 400
      (codes "proxy_url must be direct or an HTTP/HTTPS/SOCKS5 proxy URL without a path or query")

abbrev pub is_proxy_scheme : String → Bool
is_proxy_scheme s = s == "http" || (s == "https" || (s == "socks5" || s == "socks5h"))

abbrev pub is_masked_user : UrlLib → Option Userinfo → Bool
is_masked_user lib none = false
is_masked_user lib (some user) = user.username == "***" || lib.has_line_break user.username

abbrev pub is_proxy_url : UrlLib → Url → Bool
is_proxy_url lib u =
    not (lib.hostname u == "")
    && (u.opaque == ""
        && (u.raw_query == "" && (u.fragment == "" && (u.path == "" || u.path == "/"))))

unfoldable pub normalize_url : UrlLib → Url → Result String
normalize_url lib u =
    if not (is_proxy_url lib u)
    then err bad_proxy
    else if not (is_proxy_scheme u.scheme)
    then err (fail 400 (codes "unsupported egress proxy protocol"))
    else if is_masked_user lib u.user
    then err (fail 400 (codes "a new proxy URL requires its original authentication values"))
    else ok (lib.print (record u { path = ""; raw_path = "" }))

unfoldable pub normalize_egress_proxy : UrlLib → String → Result String
normalize_egress_proxy lib raw =
    let trimmed = lib.trim_space raw in
    if trimmed == "direct"
    then ok trimmed
    else elim (lib.parse trimmed) [ none ↦ err bad_proxy | some u ↦ normalize_url lib u ]

-- An unlisted proxy of a credential: a group of its own by its address without authentication. The
-- code drops the error of url.Parse, which has printed the address itself before.
unfoldable pub pin_endpoint : UrlLib → String → EgressEndpoint
pin_endpoint lib proxy =
    let bare : String = elim (lib.parse proxy) [
      | none ↦ ""
      | some u ↦ lib.print (record u { user = none })
    ] in
    let group = lib.proxy_group bare in
    record {
      id = group;
      label = "";
      enabled = true;
      group = group;
      proxy_url = proxy;
      has_auth = false;
      rpm = 60;
      max_inflight = 4;
    }
