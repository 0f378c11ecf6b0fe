-- ===== src/Egress/Tests.antt =====
-- The pool's theorems at a group of one request per minute.
use mathlib.Core.Option.{none-ne-some}
use cline_pass_bridge.Base.{
  ◌+◌, ◌*◌, ◌≡◌, refl, true, false, none, some, List, [], ◌∷◌, arith, nat_eq, string_eq,
}
use cline_pass_bridge.Base.Dict.{get, put}
use cline_pass_bridge.Faults.{second}
use cline_pass_bridge.Egress.{
  EgressManager, drop_old, prune_egress_usage, group_for, available, may_send, charge, unavailable,
  visit, visits, scan, admit, settle_round, try_admit, take_lease, refund, release_group, release,
  store_group, on_group,
}
use cline_pass_bridge.Egress.Config.{EgressEndpoint}
use cline_pass_bridge.Egress.Scan.{AreOrderly}
use cline_pass_bridge.Egress.Run.{System, Call, admit_call, release_call, run_call, run}
use cline_pass_bridge.Base.Dict.{empty}
use cline_pass_bridge.Faults.{ok}
use cline_pass_bridge.Egress.{candidates}
use cline_pass_bridge.Egress.Config.{
  EgressConfig, UrlLib, default_egress_config, normalize_egress_proxy, normalize_url,
}
use cline_pass_bridge.Egress.Scan.{IsFairRound}
use cline_pass_bridge.Egress.Refusal.{IsExhausted, admit-IsExhausted}
use cline_pass_bridge.Egress.Count.{CountsLive, run-CountsLive}
use cline_pass_bridge.Egress.Order.{run-IsFair}
use cline_pass_bridge.Egress.Leases.{IsRestored, try_admit-IsRestored}
use cline_pass_bridge.Egress.Choice.{IsChoice, candidates-IsChoice}
use cline_pass_bridge.Base.{All}
use cline_pass_bridge.Base.Int.{pos}
use cline_pass_bridge.Egress.Parse.{
  DecodedConfig, parse_egress_config, parse_endpoints, parse_endpoint, limit_endpoint, in_range,
  previous, proxy_to_keep,
}
use cline_pass_bridge.Egress.Accepted.{IsUsable, Accepted, parse-IsUsable}
use cline_pass_bridge.Egress.Names.{AreDistinct, parse-AreDistinct}

abbrev home : EgressEndpoint
home = record {
  id = "home";
  label = "";
  enabled = true;
  group = "g";
  proxy_url = "http://10.0.0.1:8080";
  has_auth = false;
  rpm = 1;
  max_inflight = 1;
}

abbrev start : EgressManager
start = record {
  cfg = record default_egress_config { enabled = true; endpoints = home ∷ [] };
  groups = empty;
  closed = false;
  cursor = 0;
}

abbrev idle : System
idle = record { now = 100 * second; pool = start; live = [] }

-- A request is admitted, sent and released.
abbrev calls : List Call
calls = admit_call 0 (home ∷ []) ∷ release_call 0 true ∷ []

-- No group at all is orderly.
no_groups : AreOrderly (100 * second) start.groups
unfolding get empty
no_groups name g h = absurd (none-ne-some g h)

no_leases : CountsLive idle
unfolding CountsLive get empty
no_leases name = refl

run-IsFair_example :
    IsFairRound
      ((run idle calls).now + second)
      (admit ((run idle calls).now + second) (home ∷ []) (run idle calls).pool)
run-IsFair_example =
    run-IsFair idle calls second (home ∷ []) no_groups (((omega arith, tt), (tt, tt)))
      (omega arith, tt)

-- The second round, a second later, has to wait for the minute to pass.
second_round :
    (admit (101 * second) (home ∷ []) (run idle calls).pool).1 ≡ unavailable (160 * second)
unfolding admit run run_call try_admit take_lease settle_round scan visits visit release on_group
    store_group release_group refund get put empty drop_old prune_egress_usage charge group_for
    may_send available
second_round = refl

admit-IsExhausted_example :
    IsExhausted (101 * second) (home ∷ []) (admit (101 * second) (home ∷ []) (run idle calls).pool)
admit-IsExhausted_example = admit-IsExhausted (101 * second) (home ∷ []) (run idle calls).pool

run-CountsLive_example : CountsLive (run idle calls)
run-CountsLive_example = run-CountsLive idle calls no_leases

try_admit-IsRestored_example :
    IsRestored (100 * second) start (try_admit (100 * second) (home ∷ []) start)
try_admit-IsRestored_example =
    try_admit-IsRestored (100 * second) (home ∷ []) start no_groups (omega arith, tt)

-- A library that reads every text as the address of one proxy.
abbrev plain_url : UrlLib
plain_url = record {
  trim_space = λ s. s;
  parse = λ s. some (record {
    scheme = "http";
    opaque = "";
    user = none;
    host = s;
    path = "";
    raw_path = "";
    omit_host = false;
    force_query = false;
    raw_query = "";
    fragment = "";
    raw_fragment = "";
  });
  hostname = λ u. u.host;
  print = λ u. u.host;
  has_line_break = λ s. false;
  proxy_group = λ s. "credential-proxy-0";
  byte_length = λ s. 0;
}

normalized : normalize_egress_proxy plain_url "10.0.0.9" ≡ ok "10.0.0.9"
unfolding normalize_egress_proxy normalize_url
normalized = refl

-- The configured endpoint of the proxy is switched off.
abbrev switched_off : EgressConfig
switched_off = record start.cfg {
  endpoints = record home { proxy_url = "10.0.0.9"; enabled = false } ∷ [];
}

candidates-IsChoice_example :
    IsChoice plain_url switched_off "10.0.0.9" (candidates plain_url switched_off "10.0.0.9")
candidates-IsChoice_example =
    candidates-IsChoice plain_url switched_off "10.0.0.9" "10.0.0.9" refl normalized

-- An endpoint that leaves its group and its limits to the defaults.
abbrev decoded : DecodedConfig
decoded = record {
  enabled = true;
  wait_timeout_seconds = pos 5;
  ip_cooldown_seconds = pos 60;
  endpoints =
      record {
        id = "home";
        label = "";
        enabled = true;
        group = "";
        proxy_url = "10.0.0.9";
        rpm = pos 0;
        max_inflight = pos 0;
      }
      ∷ [];
}

accepted :
    parse_egress_config plain_url default_egress_config false decoded
    ≡ ok (record default_egress_config {
      enabled = true;
      endpoints =
          record {
            id = "home";
            label = "";
            enabled = true;
            group = "home";
            proxy_url = "10.0.0.9";
            has_auth = false;
            rpm = 60;
            max_inflight = 4;
          }
          ∷ [];
    })
unfolding parse_egress_config parse_endpoints parse_endpoint limit_endpoint in_range
    normalize_egress_proxy normalize_url get empty previous proxy_to_keep default_egress_config
accepted = refl

parse-IsUsable_example :
    Accepted
      (λ c. All IsUsable c.endpoints)
      (parse_egress_config plain_url default_egress_config false decoded)
parse-IsUsable_example = parse-IsUsable plain_url default_egress_config false decoded

parse-AreDistinct_example :
    Accepted
      (λ c. AreDistinct c.endpoints)
      (parse_egress_config plain_url default_egress_config false decoded)
parse-AreDistinct_example = parse-AreDistinct plain_url default_egress_config false decoded
