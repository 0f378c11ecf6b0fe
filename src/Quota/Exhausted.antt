-- ===== src/Quota/Exhausted.antt =====
-- A usage sample that shows a used up limit (internal/bridge/quota.go: observeQuotaUsage).
use cline_pass_bridge.Base.{
  String, ◌≡◌, not, Option, none, some, List, [], ◌∷◌, ◌==◌, nat_eq, string_eq, All,
}
use cline_pass_bridge.Quota.{
  QuotaBlockLimit, QuotaBlock, Credential, QuotaLib, normalize_quota_credential,
}
use cline_pass_bridge.Quota.Merge.{Keeps, is_block}

-- A credential is paused for some limits: its block keeps each of them up, and is still there when
-- the credential is normalized, if its key has a hash at all.
abbrev pub IsPaused : QuotaLib → List QuotaBlockLimit → Credential → Type 0
IsPaused lib limits c =
    All (Keeps c.quota_block) limits
    × (is_block (normalize_quota_credential lib c).quota_block ≡ not (lib.key_hash c.api_key == ""))

-- A block of the credential's key, as a merge makes it.
abbrev IsKeyed : QuotaLib → Credential → Option QuotaBlock → Type 0
IsKeyed lib c none = Unit
IsKeyed lib c (some b) = b.key_hash ≡ lib.key_hash c.api_key

abbrev pub ids_of : List Credential → List String
ids_of [] = []
ids_of (c ∷ cs) = c.id ∷ ids_of cs
