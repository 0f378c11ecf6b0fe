-- ===== src/Quota.antt =====
-- Quota blocks of credentials (internal/bridge/quota.go). Times are nanoseconds, a nil pointer is
-- `none`. The credentials are a list in the order of their identifiers, in which the code sorts what
-- it takes from its map. Files and locks are left out; Store has the revisions.
pub mod Usage
pub mod Covers
pub mod Merge
pub mod Recovery
pub mod Exhausted
pub mod Groups
pub mod Store
pub mod Closed
pub mod Tests
use Prim.Native.String.{compare}
use Prim.Native.Nat.{lt, eq, gt}
use cline_pass_bridge.Base.{
  is_empty, ℕ, zero, suc, ◌+◌, ◌*◌, String, ◌≡◌, refl, Bool, true, false, ◌&&◌, ◌||◌, not, Option,
  none, some, List, [], ◌∷◌, ◌++◌, arith, ltb, leb, ◌==◌, nat_eq, string_eq, if◌then◌else◌, is_some,
  any, all, select,
}

pub record QuotaIdentity : Type 0 where
  pub account_hash : String
  pub key_hash : String

pub record QuotaBlockLimit : Type 0 where
  pub kind : String
  pub resets_at : Option ℕ

pub record QuotaBlock : Type 0 where
  pub account_hash : String
  pub key_hash : String
  pub manual_disabled : Option Bool
  pub source : String
  pub reason : String
  pub retry_at : Option ℕ
  pub blocked_at : ℕ
  pub observed_at : ℕ
  pub limits : List QuotaBlockLimit

-- A credential, as far as the quota code looks at it.
pub record Credential : Type 0 where
  pub id : String
  pub api_key : String
  pub disabled : Bool
  pub quota_identity : Option QuotaIdentity
  pub quota_block : Option QuotaBlock

-- A float64 is exactly a sign (is it negative?), a numerator and a denominator, or an infinity with
-- a sign, or not a number.
pub data Percent : Type 0 where
  finite : Bool → ℕ → ℕ → Percent
  not_a_number : Percent
  infinite : Bool → Percent

pub record UsageLimit : Type 0 where
  pub kind : String
  pub percent_used : Option Percent
  pub resets_at : Option ℕ

pub record CredentialUsage : Type 0 where
  pub status : String
  pub plan_error : String
  pub updated_at : Option ℕ
  pub checked_at : Option ℕ
  pub limits : List UsageLimit
  pub account_hash : String

-- The hash of a key, the account in a fresh usage sample of a credential ("" for none), and the
-- text operations of `canonicalQuotaType`, in their order.
pub record QuotaLib : Type 0 where
  pub key_hash : String → String
  pub cached_account : Credential → String
  pub fold_type : String → String

unfoldable pub keep_identity : QuotaLib → Credential → Option QuotaIdentity → Option QuotaIdentity
keep_identity lib c none = none
keep_identity lib c (some i) =
    let key = lib.key_hash c.api_key in
    if key == "" || (not (i.key_hash == key) || i.account_hash == "") then none else some i

unfoldable pub keep_block : QuotaLib → Credential → Option QuotaBlock → Option QuotaBlock
keep_block lib c none = none
keep_block lib c (some b) =
    let key = lib.key_hash c.api_key in
    if key == "" || (not (b.key_hash == key) || is_empty b.limits)
    then none
    else some (record b { manual_disabled = some c.disabled })

unfoldable pub normalize_quota_credential : QuotaLib → Credential → Credential
unfolding keep_identity keep_block
normalize_quota_credential lib c = record c {
  quota_identity = keep_identity lib c c.quota_identity;
  quota_block = keep_block lib c c.quota_block;
}

-- After ToLower, TrimSpace and the replacement of dashes and spaces.
unfoldable pub canonical_quota_type : QuotaLib → String → String
canonical_quota_type lib value =
    let name = lib.fold_type value in
    if name == "weekly" || name == "week"
    then "weekly"
    else if name == "five_hour" || (name == "five_hours" || (name == "5_hour" || name == "5_hours"))
    then "five_hour"
    else if name == "monthly" || name == "month"
    then "monthly"
    else if name == "quota"
    then "quota"
    else ""

abbrev pub precedes : String → String → Bool
precedes a b = elim (compare a b) [ lt ↦ true | eq ↦ false | gt ↦ false ]

-- `!exists || old.ResetsAt == nil || limit.ResetsAt != nil && limit.ResetsAt.After(*old.ResetsAt)`
abbrev pub replaces : Option ℕ → Option ℕ → Bool
replaces none next = true
replaces (some t) none = false
replaces (some t) (some u) = ltb t u

-- The map of limits by their type, kept in the order in which the code sorts it at the end.
unfoldable pub set_limit : QuotaBlockLimit → List QuotaBlockLimit → List QuotaBlockLimit
set_limit l [] = l ∷ []
set_limit l (m ∷ ms) =
    let rest = set_limit l ms in
    if m.kind == l.kind
    then (if replaces m.resets_at l.resets_at then l else m) ∷ ms
    else if precedes l.kind m.kind
    then l ∷ m ∷ ms
    else m ∷ rest

unfoldable pub set_limits : List QuotaBlockLimit → List QuotaBlockLimit → List QuotaBlockLimit
set_limits [] ms = ms
set_limits (l ∷ ls) ms = set_limits ls (set_limit l ms)

-- The first block, with the earliest start and the newest observation.
unfoldable pub join_block : QuotaBlock → QuotaBlock → QuotaBlock
join_block r b = record r {
  blocked_at = if ltb b.blocked_at r.blocked_at then b.blocked_at else r.blocked_at;
  observed_at = if ltb r.observed_at b.observed_at then b.observed_at else r.observed_at;
  source = if ltb r.observed_at b.observed_at then b.source else r.source;
}

abbrev pub join_option : Option QuotaBlock → QuotaBlock → QuotaBlock
join_option none b = b
join_option (some r) b = join_block r b

-- The loop over the blocks.
unfoldable pub collect :
    List (Option QuotaBlock)
    → Option QuotaBlock
    → List QuotaBlockLimit
    → Option QuotaBlock × List QuotaBlockLimit
unfolding join_block
collect [] result limits = (result, limits)
collect (none ∷ bs) result limits = collect bs result limits
collect (some b ∷ bs) result limits =
    collect bs (some (join_option result b)) (set_limits b.limits limits)

-- `result.RetryAt == nil || limit.ResetsAt.After(*result.RetryAt)`
abbrev pub later_reset : Option ℕ → Option ℕ → Option ℕ
later_reset none retry = retry
later_reset (some t) none = some t
later_reset (some t) (some r) = if ltb r t then some t else some r

unfoldable pub retry_of : List QuotaBlockLimit → Option ℕ
retry_of [] = none
retry_of (l ∷ ls) = later_reset l.resets_at (retry_of ls)

abbrev pub account_of : Option QuotaIdentity → String → String
account_of none old = old
account_of (some i) old = i.account_hash

unfoldable pub merged :
    QuotaLib → Credential → Option QuotaBlock × List QuotaBlockLimit → Option QuotaBlock
merged lib c (none, limits) = none
merged lib c (some r, limits) = some (record r {
  key_hash = lib.key_hash c.api_key;
  manual_disabled = some c.disabled;
  reason = "quota_exhausted";
  retry_at = retry_of limits;
  account_hash = account_of c.quota_identity r.account_hash;
  limits = limits;
})

unfoldable pub merge_quota_blocks :
    QuotaLib → Credential → List (Option QuotaBlock) → Option QuotaBlock
unfolding collect merged
merge_quota_blocks lib c blocks = merged lib c (collect blocks none [])

unfoldable pub quota_account_hash : QuotaLib → Credential → String
quota_account_hash lib c =
    let c' = normalize_quota_credential lib c in
    elim c'.quota_identity [ some i ↦ i.account_hash | none ↦ lib.cached_account c' ]

unfoldable pub joins : QuotaLib → (String → Bool) → Credential → Credential → Bool
joins lib revoked source c =
    let account = quota_account_hash lib source in
    not (revoked c.id)
    && (c.id == source.id || (not (account == "") && quota_account_hash lib c == account))

unfoldable pub with_identity : QuotaLib → String → Credential → Credential
with_identity lib account c = if account == "" then c else record c {
  quota_identity = some (record { account_hash = account; key_hash = lib.key_hash c.api_key });
}

-- The source and the verified keys of its account.
unfoldable pub quota_group :
    QuotaLib → (String → Bool) → Credential → List Credential → List Credential
quota_group lib revoked source [] = []
quota_group lib revoked source (c ∷ cs) =
    let rest = quota_group lib revoked source cs in
    if joins lib revoked source c
    then with_identity lib (quota_account_hash lib source) (normalize_quota_credential lib c) ∷ rest
    else rest
