-- ===== src/Quota/Usage.antt =====
-- Usage samples and quota errors, and what they do to the pauses of a group (internal/bridge/quota.go:
-- quotaUsageHasRoom, observeQuotaUsage, observeQuotaError, quotaRecoveryCheckDue).
use cline_pass_bridge.Base.{
  is_empty, ℕ, ◌*◌, String, Bool, true, false, ◌&&◌, ◌||◌, not, Option, none, some, List, [], ◌∷◌,
  ◌++◌, ltb, leb, ◌==◌, nat_eq, string_eq, if◌then◌else◌, is_some, any, all,
}
use cline_pass_bridge.Faults.{Fault, api, upstream, other}
use cline_pass_bridge.Quota.{
  QuotaBlockLimit, QuotaBlock, Credential, Percent, finite, not_a_number, infinite, UsageLimit,
  CredentialUsage, QuotaLib, normalize_quota_credential, canonical_quota_type, merge_quota_blocks,
  quota_group,
}

abbrev pub is_full : Percent → Bool
is_full (finite negative n d) = not negative && leb (100 * d) n
is_full not_a_number = false
is_full (infinite negative) = not negative

-- `< 0 || IsNaN || IsInf`
abbrev pub is_invalid : Percent → Bool
is_invalid (finite negative n d) = negative && ltb 0 n
is_invalid not_a_number = true
is_invalid (infinite negative) = true

abbrev pub has_share : Option Percent → Bool
has_share none = false
has_share (some p) = not (is_invalid p) && not (is_full p)

-- The canonical types of the limits, if each of them is below its end.
unfoldable pub known_types : QuotaLib → List UsageLimit → Option (List String)
known_types lib [] = some []
known_types lib (l ∷ ls) =
    let rest = known_types lib ls in
    let name = canonical_quota_type lib l.kind in
    if name == ""
    then rest
    else if has_share l.percent_used
    then elim rest [ none ↦ none | some names ↦ some (name ∷ names) ]
    else none

abbrev pub is_reset : ℕ → Option ℕ → Bool
is_reset started none = true
is_reset started (some t) = leb t started

unfoldable pub is_released : ℕ → List String → QuotaBlockLimit → Bool
is_released started known l =
    is_reset started l.resets_at
    && (if l.kind == "quota" then not (is_empty known) else any (λ name. name == l.kind) known)

unfoldable pub quota_usage_has_room : QuotaLib → Option QuotaBlock → CredentialUsage → ℕ → Bool
quota_usage_has_room lib none value started = false
quota_usage_has_room lib (some b) value started =
    (value.status == "ok"
      && (value.plan_error == "" && (is_some value.updated_at && ltb b.observed_at started)))
    && elim (known_types lib value.limits) [
      | none ↦ false
      | some known ↦ all (is_released started known) b.limits
    ]

-- The limits that a usage sample shows at their end.
unfoldable pub exhausted_limits : QuotaLib → List UsageLimit → List QuotaBlockLimit
exhausted_limits lib [] = []
exhausted_limits lib (l ∷ ls) =
    let rest = exhausted_limits lib ls in
    let name = canonical_quota_type lib l.kind in
    if not (name == "")
      && (not (name == "quota") && elim l.percent_used [ none ↦ false | some p ↦ is_full p ])
    then record { kind = name; resets_at = l.resets_at } ∷ rest
    else rest

abbrev pub new_block : String → ℕ → List QuotaBlockLimit → QuotaBlock
new_block source now limits = record {
  account_hash = "";
  key_hash = "";
  manual_disabled = none;
  source = source;
  reason = "";
  retry_at = none;
  blocked_at = now;
  observed_at = now;
  limits = limits;
}

-- `if len(exhausted.Limits) > 0 { blocks = append(blocks, exhausted) }`
unfoldable pub usage_blocks :
    ℕ → List QuotaBlockLimit → List (Option QuotaBlock) → List (Option QuotaBlock)
usage_blocks updated [] blocks = blocks
usage_blocks updated (l ∷ ls) blocks = blocks ++ some (new_block "usage" updated (l ∷ ls)) ∷ []

-- The new block of one key of the group, from the blocks of all of them and a usage sample.
unfoldable pub usage_block :
    QuotaLib → CredentialUsage → ℕ → ℕ → List (Option QuotaBlock) → Credential → Option QuotaBlock
usage_block lib value updated started blocks c =
    let exhausted = exhausted_limits lib value.limits in
    let block = merge_quota_blocks lib c (usage_blocks updated exhausted blocks) in
    if is_empty exhausted && quota_usage_has_room lib block value started then none else block

abbrev pub blocks_of : List Credential → List (Option QuotaBlock)
blocks_of [] = []
blocks_of (c ∷ cs) = c.quota_block ∷ blocks_of cs

unfoldable pub set_blocks : (Credential → Option QuotaBlock) → List Credential → List Credential
set_blocks f [] = []
set_blocks f (c ∷ cs) = record c { quota_block = f c } ∷ set_blocks f cs

-- The loop of observeQuotaUsage over the group.
unfoldable pub group_usage : QuotaLib → CredentialUsage → ℕ → ℕ → List Credential → List Credential
unfolding set_blocks
group_usage lib value updated started group =
    set_blocks (usage_block lib value updated started (blocks_of group)) group

-- The credential with the account that a sample shows.
abbrev pub identified : QuotaLib → CredentialUsage → Credential → Credential
identified lib value c = if value.account_hash == "" then c else record c {
  quota_identity =
      some (record { account_hash = value.account_hash; key_hash = lib.key_hash c.api_key });
}

unfoldable pub find_credential : String → List Credential → Option Credential
find_credential id [] = none
find_credential id (c ∷ cs) =
    let rest = find_credential id cs in if c.id == id then some c else rest

-- `usageFingerprint(current) != usageFingerprint(source)` and the guard on revoked keys.
unfoldable pub observed_current :
    (Credential → String) → (String → Bool) → Credential → Option Credential → Option Credential
observed_current fingerprint revoked source none = none
observed_current fingerprint revoked source (some current) =
    if revoked source.id || not (fingerprint current == fingerprint source)
    then none
    else some current

-- What observeQuotaUsage hands to saveQuotaGroup, or none where it returns before.
unfoldable pub observe_quota_usage :
    QuotaLib
    → (Credential → String)
    → (String → Bool)
    → List Credential
    → Credential
    → CredentialUsage
    → ℕ
    → Option (List Credential)
observe_quota_usage lib fingerprint revoked cs source value started =
    if not (value.status == "ok") then none else elim value.updated_at [
      | none ↦ none
      | some updated ↦
          elim (observed_current fingerprint revoked source (find_credential source.id cs)) [
            | none ↦ none
            | some current ↦ some (
                group_usage lib value updated started
                  (quota_group lib revoked (identified lib value current) cs))
          ]
    ]

-- observeQuotaError, from the group to what is saved.
unfoldable pub group_error : QuotaLib → String → Option ℕ → ℕ → List Credential → List Credential
unfolding set_blocks
group_error lib quota_type reset now group =
    let limit : QuotaBlockLimit = record {
      kind = if quota_type == "" then "quota" else quota_type;
      resets_at = reset;
    } in
    set_blocks
      (λ c.
        merge_quota_blocks lib c (c.quota_block ∷ some (new_block "error" now (limit ∷ [])) ∷ []))
      group

-- The guards of observeQuotaError on the credential.
unfoldable pub error_current : (String → Bool) → Credential → Option Credential → Option Credential
error_current revoked source none = none
error_current revoked source (some current) =
    if not (current.api_key == source.api_key) || revoked source.id then none else some current

-- What observeQuotaError hands to saveQuotaGroup, or none where it returns before.
unfoldable pub observe_quota_error :
    QuotaLib → (String → Bool) → List Credential → Credential → Fault → ℕ → Option (List Credential)
observe_quota_error lib revoked cs source (api status kind message) now = none
observe_quota_error lib revoked cs source (other message) now = none
observe_quota_error lib revoked cs source (upstream u) now =
    if u.local || not (u.kind == "upstream_quota_exhausted")
    then none
    else elim (error_current revoked source (find_credential source.id cs)) [
      | none ↦ none
      | some current ↦
          some
            (group_error lib u.quota_type u.quota_reset_at now (quota_group lib revoked current cs))
    ]

unfoldable pub is_due : ℕ → Option ℕ → QuotaBlockLimit → Bool
is_due now checked l = elim l.resets_at [
  | none ↦ false
  | some t ↦ leb t now && elim checked [ none ↦ true | some at ↦ ltb at t ]
]

unfoldable pub quota_recovery_check_due : QuotaLib → Credential → CredentialUsage → ℕ → Bool
unfolding is_due
quota_recovery_check_due lib c value now =
    let c' = normalize_quota_credential lib c in
    elim c'.quota_block [ none ↦ false | some b ↦ any (is_due now value.checked_at) b.limits ]
