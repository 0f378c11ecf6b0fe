-- ===== src/RateLimit/Tests.antt =====
-- The limiter's theorems at a key whose upstream reports a limit of one minute.
use cline_pass_bridge.Base.{◌*◌, ◌≡◌, refl, true, false, none, some, List, [], ◌∷◌, arith}
use cline_pass_bridge.Base.Dict.{empty, get, put, keep}
use cline_pass_bridge.Base.Text.{codes}
use cline_pass_bridge.Faults.{
  Fault, UpstreamError, ok, err, upstream, upstream_fault, second, as_team_rate_limit,
}
use cline_pass_bridge.Faults.Policy.{fault_policy_for, fault_identity, policy_of}
use cline_pass_bridge.Faults.Rules.{host_fault_policy, request_error_rules}
use cline_pass_bridge.Faults.Tests.{plain_lib, plain_rules}
use cline_pass_bridge.RateLimit.Refusal.{KeepsMarkers, refusal_stops_request}
use cline_pass_bridge.RateLimit.{
  RateKey, key_eq, Window, Lease, Limiter, sweep, acquire, finish, refusal, reported,
  finish_request,
}
use cline_pass_bridge.RateLimit.Step.{Call, acquire_call, finish_call, reset_call, run, window_at}
use cline_pass_bridge.RateLimit.Admission.{
  is_refused, is_shut, acquire_refuses, IsLocalRefusal, acquire_error, late_success_keeps_limit,
}
use cline_pass_bridge.RateLimit.Probe.{probe_is_alone}
use cline_pass_bridge.RateLimit.Recovery.{failed_probe_retreats}
use cline_pass_bridge.RateLimit.Lasting.{reported_limit_shuts}
use cline_pass_bridge.RateLimit.Reopening.{success_reopens}

abbrev key : RateKey
key = record { credential = "acct"; model = "cline-pass/kimi-k3"; fingerprint = "f" }

abbrev start : Limiter
start = record { windows = empty; fresh = 0 }

-- The first request, which no window holds back, and a second one beside it.
abbrev first : Lease
first = record { ref = 0; key = key; state = none; epoch = 0 }

abbrev second_lease : Lease
second_lease = record { ref = 1; key = key; state = none; epoch = 0 }

-- The recovery probe, admitted when the window has ended.
abbrev probe : Lease
probe = record { ref = 3; key = key; state = some 2; epoch = 1 }

abbrev team_limit : UpstreamError
team_limit = record (upstream_fault 429 "upstream_team_rate_limited" (codes "slow down")) {
  retry_at = 100 * second;
  scope = "upstream_team";
}

-- Two requests are out; the first reports a limit until second 100.
abbrev limited : Limiter
limited =
    finish (40 * second) "window" (some first) (some (upstream team_limit))
      (acquire 0 key (acquire 0 key start).0).0

abbrev shown : Window
shown = record {
  ref = 2;
  id = "window";
  retry_at = 100 * second;
  scope = "upstream_team";
  probe = none;
  epoch = 1;
}

limited_window : window_at limited key ≡ some shown
unfolding acquire finish sweep get put keep empty
limited_window = refl

acquire_refuses_example :
    is_refused (acquire (99 * second) key limited).1 ≡ is_shut (99 * second) (window_at limited key)
acquire_refuses_example = acquire_refuses (99 * second) key limited

refused_early : (acquire (99 * second) key limited).1 ≡ err (upstream (refusal (99 * second) shown))
unfolding acquire finish sweep get put keep empty
refused_early = refl

acquire_error_example :
    (u : UpstreamError) × (upstream (refusal (99 * second) shown) ≡ upstream u)
    × IsLocalRefusal (99 * second) u
acquire_error_example = acquire_error (99 * second) key limited refused_early

-- A request that is refused, the success of an older one, and a failure of it as well.
abbrev between : List Call
between =
    acquire_call (50 * second) key
    ∷ finish_call (55 * second) "w2" (some second_lease) none
    ∷ acquire_call (60 * second) key
    ∷ reset_call (61 * second) "other"
    ∷ []

reported_limit_shuts_example :
    is_refused
      (acquire (70 * second) key (
        run between (
          finish
            (40 * second)
            "window"
            (some first)
            (some (upstream team_limit))
            (acquire 0 key start).0))).1
    ≡ true
unfolding reported acquire sweep get put keep empty
reported_limit_shuts_example =
    reported_limit_shuts "window" first (some (upstream team_limit)) (acquire 0 key start).0
      (40 * second) (70 * second) between refl
      (omega arith, ((λ k e. refl), (omega arith, (refl, tt)))) (omega arith)

abbrev probing : Limiter
probing = (acquire (100 * second) key limited).0

probe_admitted : (acquire (100 * second) key limited).1 ≡ ok probe
unfolding acquire finish sweep get put keep empty
probe_admitted = refl

abbrev longer_limit : UpstreamError
longer_limit = record team_limit { retry_at = 300 * second }

late_success_keeps_limit_example :
    is_refused
      (acquire (250 * second) key (
        finish (130 * second) "w3" (some probe) none (
          finish (120 * second) "w2" (some second_lease) (some (upstream longer_limit)) probing))).1
    ≡ true
unfolding acquire finish sweep get put keep empty
late_success_keeps_limit_example =
    late_success_keeps_limit probing probe second_lease (record shown { probe = some 3 })
      (some (upstream longer_limit)) (120 * second) (130 * second) (250 * second) "w2" "w3" refl
      refl refl refl (omega arith)

abbrev others : List Call
others =
    finish_call (110 * second) "w2" (some second_lease) (some (upstream longer_limit))
    ∷ acquire_call (400 * second) key
    ∷ reset_call (410 * second) "acct"
    ∷ []

probe_is_alone_example :
    is_refused (acquire (500 * second) key (run others (acquire (100 * second) key limited).0)).1
    ≡ true
probe_is_alone_example =
    probe_is_alone others limited key (100 * second) (500 * second) probe probe_admitted refl
      (omega arith, (tt, (tt, tt)))

-- Another request is refused while the probe is out, and the console resets the windows.
abbrev meanwhile : List Call
meanwhile = acquire_call (100 * second) key ∷ reset_call (101 * second) "acct" ∷ []

-- After the probe's success two requests run, and one of them ends.
abbrev afterwards : List Call
afterwards =
    acquire_call (103 * second) key ∷ finish_call (104 * second) "w3" (some second_lease) none ∷ []

success_reopens_example :
    is_refused
      (acquire (105 * second) key (
        run afterwards (
          finish
            (102 * second)
            "w"
            (some probe)
            none
            (run meanwhile (acquire (100 * second) key limited).0)))).1
    ≡ false
unfolding reported
success_reopens_example =
    success_reopens limited key (100 * second) (102 * second) (105 * second) "w" probe meanwhile
      afterwards probe_admitted (tt, (tt, tt)) (tt, (tt, tt)) (tt, ((λ k. refl), tt))

-- The key is rejected while the probe runs.
abbrev rejected : Fault
rejected =
    upstream
      (record (upstream_fault 401 "upstream_auth_error" (codes "bad key")) { scope = "account" })

failed_probe_retreats_example :
    is_refused
      (acquire (105 * second) key (
        finish_request plain_lib
          (101 * second)
          "w"
          (some probe)
          (some rejected)
          (acquire (100 * second) key limited).0)).1
    ≡ true
unfolding reported fault_policy_for fault_identity policy_of as_team_rate_limit
failed_probe_retreats_example =
    failed_probe_retreats plain_lib limited key (100 * second) (101 * second) (105 * second) "w"
      probe rejected probe_admitted refl refl refl (omega arith)

plain_rules-KeepsMarkers : KeepsMarkers plain_rules
plain_rules-KeepsMarkers = record { marker_stays = λ s h. h; stop_stays = refl }

refusal_stops_request_example :
    host_fault_policy plain_rules request_error_rules
      (some (upstream (refusal (99 * second) shown)))
    ≡ record (fault_policy_for plain_lib (some (upstream (refusal (99 * second) shown)))) {
      cooldown = false;
      stop = true;
      explicit = true;
    }
refusal_stops_request_example =
    refusal_stops_request plain_rules (99 * second) key limited plain_rules-KeepsMarkers
      refused_early
