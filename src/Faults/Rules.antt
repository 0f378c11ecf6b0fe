-- ===== src/Faults/Rules.antt =====
-- The plugin's own error rules: the first rule that applies decides (error_policy.go:
-- hostFaultPolicy; types.go: requestErrorRules, safeError).
use cline_pass_bridge.Base.{
  is_empty, ℕ, String, ◌≡◌, refl, Bool, true, false, not, ◌&&◌, ◌||◌, Option, none, some, List, [],
  ◌∷◌, ◌++◌, arith, leb, ltb, ◌==◌, nat_eq, string_eq, if◌then◌else◌, any, length, All, is_some,
  take,
}
use cline_pass_bridge.Base.Text.{Text, codes, contains}
use cline_pass_bridge.Faults.{Fault, message_of, status_code}
use cline_pass_bridge.Faults.Policy.{FaultPolicy, FaultLib, fault_policy_for}

pub record RequestErrorRule : Type 0 where
  pub status : ℕ
  pub match_texts : List Text
  pub match_regexr : List Text
  pub action : String

-- The regexp package, and the pattern that takes keys out of messages.
pub record RuleLib : Type 0 where
  pub faults : FaultLib
  pub compile : Text → Option (Text → Bool)
  pub redact : Text → Text

-- Only a 4xx or 5xx status counts as the status of an error.
unfoldable pub host_error_status : Fault → ℕ
host_error_status f =
    if leb 400 (status_code f) && leb (status_code f) 599 then status_code f else 500

-- The first 500 bytes of the message, with keys taken out.
unfoldable pub safe_error : RuleLib → Fault → Text
safe_error lib f =
    lib.redact (if ltb 500 (length (message_of f)) then take 500 (message_of f) else message_of f)

unfoldable pub pattern_matches : RuleLib → Text → Text → Bool
pattern_matches lib body pattern = elim (lib.compile pattern) [
  | none ↦ false
  | some matcher ↦ not (is_empty pattern) && matcher body
]

unfoldable pub rule_matches : RuleLib → Text → RequestErrorRule → Bool
unfolding pattern_matches
rule_matches lib body rule =
    any (λ v. not (is_empty v) && contains v body) rule.match_texts
    || any (pattern_matches lib body) rule.match_regexr

-- The policy that an action sets; an unknown action sets none.
unfoldable pub action_policy : RuleLib → String → FaultPolicy → Option FaultPolicy
action_policy lib action policy =
    let name = lib.faults.to_lower (lib.faults.trim_space action) in
    if name == "stop"
    then some (record policy { cooldown = false; stop = true; explicit = true })
    else if name == "continue"
    then some (record policy { cooldown = false; stop = false; explicit = true })
    else if name == "stop-and-cooldown"
    then some (record policy { cooldown = true; stop = true; explicit = true })
    else if name == "continue-and-cooldown"
    then some (record policy { cooldown = true; stop = false; explicit = true })
    else none

unfoldable pub apply_rules : RuleLib → ℕ → Text → FaultPolicy → List RequestErrorRule → FaultPolicy
apply_rules lib status body policy [] = policy
apply_rules lib status body policy (rule ∷ rules) =
    let rest = apply_rules lib status body policy rules in
    if rule.status == status && rule_matches lib body rule
    then elim (action_policy lib rule.action policy) [ none ↦ rest | some explicit ↦ explicit ]
    else rest

unfoldable pub host_fault_policy : RuleLib → List RequestErrorRule → Option Fault → FaultPolicy
unfolding apply_rules host_error_status
host_fault_policy lib rules none = fault_policy_for lib.faults none
host_fault_policy lib rules (some f) =
    apply_rules lib (host_error_status f) (safe_error lib f) (fault_policy_for lib.faults (some f))
      rules

abbrev pub marker_rule : ℕ → Text → String → RequestErrorRule
marker_rule status marker action = record {
  status = status;
  match_texts = marker ∷ [];
  match_regexr = [];
  action = action;
}

unfoldable pub request_error_rules : List RequestErrorRule
request_error_rules =
    marker_rule 500 (codes "empty response content") "stop"
    ∷ marker_rule 429 (codes "[clinepassbridge:team_tpm_limit]") "stop"
    ∷ marker_rule 429 (codes "[clinepassbridge:quota_block]") "continue"
    ∷ marker_rule 429 (codes "[clinepassbridge:egress_unavailable]") "stop"
    ∷ marker_rule 429 (codes "[clinepassbridge:ip_rate_limit]") "stop"
    ∷ []

-- A rule decides an error when its status is the error's, a text or pattern of its matches, and
-- its action is one of the four.
abbrev pub decides : RuleLib → Fault → RequestErrorRule → Bool
decides lib f rule =
    rule.status == host_error_status f
    && (rule_matches lib (safe_error lib f) rule
        && is_some (action_policy lib rule.action (fault_policy_for lib.faults (some f))))

abbrev pub decided : RuleLib → Fault → RequestErrorRule → Option FaultPolicy
decided lib f rule = action_policy lib rule.action (fault_policy_for lib.faults (some f))

apply_rules-skip :
    (lib : RuleLib) (f : Fault) (before rest : List RequestErrorRule)
    → All (λ rule. decides lib f rule ≡ false) before
    → apply_rules lib
        (host_error_status f)
        (safe_error lib f)
        (fault_policy_for lib.faults (some f))
        (before ++ rest)
      ≡ apply_rules lib
          (host_error_status f)
          (safe_error lib f)
          (fault_policy_for lib.faults (some f))
          rest
unfolding apply_rules
apply_rules-skip lib f [] rest h = refl
apply_rules-skip lib f (rule ∷ before) rest h =
    ground (arith, apply_rules-skip lib f before rest h.1)

-- The first rule that decides an error sets its policy, whatever rules follow; the rules before it
-- that do not decide it are passed over.
pub first_rule_decides :
    (lib : RuleLib) (f : Fault) (before after : List RequestErrorRule) (rule : RequestErrorRule)
    → All (λ r. decides lib f r ≡ false) before
    → decides lib f rule ≡ true
    → some (host_fault_policy lib (before ++ rule ∷ after) (some f)) ≡ decided lib f rule
unfolding host_fault_policy
first_rule_decides lib f before after rule skipped h =
    rw (apply_rules-skip lib f before (rule ∷ after) skipped) (unfold apply_rules in ground arith)

-- With no rule that decides it, an error keeps the policy of its own classification.
pub no_rule_inherits :
    (lib : RuleLib) (f : Fault) (rules : List RequestErrorRule)
    → All (λ r. decides lib f r ≡ false) rules
    → host_fault_policy lib rules (some f) ≡ fault_policy_for lib.faults (some f)
unfolding host_fault_policy
no_rule_inherits lib f [] h = refl
no_rule_inherits lib f (rule ∷ rules) h = ground (arith, no_rule_inherits lib f rules h.1)
