-- ===== src/Quota/Tests.antt =====
-- The quota theorems at an account with a weekly block.
use cline_pass_bridge.Base.{
  ℕ, ◌≡◌, refl, false, Option, none, some, List, [], ◌∷◌, nat_eq, string_eq, All,
}
use cline_pass_bridge.Quota.{
  QuotaIdentity, QuotaBlockLimit, QuotaBlock, Credential, CredentialUsage, QuotaLib,
  normalize_quota_credential, canonical_quota_type, set_limit, set_limits, join_block, collect,
  retry_of, merged, merge_quota_blocks, quota_account_hash, joins, with_identity, quota_group,
}
use cline_pass_bridge.Quota.Usage.{
  known_types, is_released, quota_usage_has_room, exhausted_limits, new_block, usage_blocks,
  usage_block,
}
use cline_pass_bridge.Quota.{finite, keep_identity, keep_block}
use cline_pass_bridge.Quota.Merge.{limits_in, Keeps, is_block, merge-Keeps}
use cline_pass_bridge.Quota.Recovery.{AllPast, resumes-AllPast}
use cline_pass_bridge.Base.Dict.{empty, put}
use cline_pass_bridge.Base.{if◌then◌else◌}
use cline_pass_bridge.Faults.{fail}
use cline_pass_bridge.Base.Text.{codes}
use cline_pass_bridge.Quota.Store.{QuotaStore, StoreLib, Member, save_quota_group}
use cline_pass_bridge.Quota.Closed.{KeepsPauses, save-KeepsPauses}
use cline_pass_bridge.Quota.Groups.{HasMembers, quota_group-HasMembers}
use cline_pass_bridge.Quota.Exhausted.{ids_of}

abbrev lib : QuotaLib
lib = record { key_hash = λ key. key; cached_account = λ c. ""; fold_type = λ s. s }

abbrev identity : Option QuotaIdentity
identity = some (record { account_hash = "acct"; key_hash = "k1" })

abbrev source : Credential
source = record {
  id = "a";
  api_key = "k1";
  disabled = false;
  quota_identity = identity;
  quota_block = none;
}

abbrev sibling : Credential
sibling = record {
  id = "b";
  api_key = "k2";
  disabled = false;
  quota_identity = some (record { account_hash = "acct"; key_hash = "k2" });
  quota_block = none;
}

abbrev stranger : Credential
stranger = record {
  id = "c";
  api_key = "k3";
  disabled = false;
  quota_identity = none;
  quota_block = none;
}

abbrev weekly : QuotaBlockLimit
weekly = record { kind = "weekly"; resets_at = some 500 }

abbrev blocks : List (Option QuotaBlock)
blocks = some (new_block "error" 100 (weekly ∷ [])) ∷ none ∷ []

abbrev sample : ℕ → CredentialUsage
sample percent = record {
  status = "ok";
  plan_error = "";
  updated_at = some 600;
  checked_at = some 600;
  limits =
      record { kind = "weekly"; percent_used = some (finite false percent 1); resets_at = some 900 }
      ∷ [];
  account_hash = "acct";
}

merge-Keeps_example :
    All (λ b. All (Keeps (merge_quota_blocks lib source blocks)) (limits_in b)) blocks
merge-Keeps_example = merge-Keeps lib source blocks

-- The strangers' keys stay out of the group.
group :
    ids_of (quota_group lib (λ name. false) source (source ∷ sibling ∷ stranger ∷ []))
    ≡ "a" ∷ "b" ∷ []
unfolding quota_group joins quota_account_hash normalize_quota_credential keep_identity keep_block
    with_identity
group = refl

quota_group-HasMembers_example :
    HasMembers lib
      (λ name. false)
      source
      (source ∷ sibling ∷ stranger ∷ [])
      (quota_group lib (λ name. false) source (source ∷ sibling ∷ stranger ∷ []))
quota_group-HasMembers_example =
    quota_group-HasMembers lib (λ name. false) source (source ∷ sibling ∷ stranger ∷ [])

-- After the reset, a sample at ten per cent.
resumed : usage_block lib (sample 10) 600 590 blocks source ≡ none
unfolding usage_block usage_blocks exhausted_limits canonical_quota_type merge_quota_blocks collect
    merged join_block set_limits set_limit quota_usage_has_room known_types is_released retry_of
resumed = refl

resumes-AllPast_example : AllPast 590 blocks
resumes-AllPast_example = resumes-AllPast lib (sample 10) 600 590 blocks source resumed

abbrev paused_source : Credential
paused_source = record source {
  quota_block = some (record (new_block "error" 100 (weekly ∷ [])) { key_hash = "k1" });
}

abbrev store : QuotaStore
store = record {
  creds = put empty "a" (record { credential = paused_source; revision = 0 });
  quota_write_errors = empty;
  fresh = 1;
}

abbrev store_lib : StoreLib
store_lib = record {
  json_block = λ b. if is_block b then "{}" else "null";
  json_identity = λ i. "{}";
  safe_error = λ e. "write failed";
}

-- The usage sample ends the pause, and the file of the credential cannot be written.
abbrev failing : List Member
failing = record { next = source; io = some (fail 409 (codes "quota credential changed")) } ∷ []

save-KeepsPauses_example : KeepsPauses store (save_quota_group lib store_lib store failing)
save-KeepsPauses_example = save-KeepsPauses lib store_lib store failing (λ disabled. tt, tt)
