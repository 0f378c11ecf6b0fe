-- ===== src/Quota/Groups.antt =====
-- The keys that share a pause (internal/bridge/quota.go: quotaGroupLocked).
use cline_pass_bridge.Base.{
  String, ◌≡◌, ◌≢◌, refl, ap, ◌∙◌, ◌⊎◌, Bool, true, false, Option, none, some, List, [], ◌∷◌, arith,
  ◌==◌, nat_eq, string_eq, Bool-cases, inl, inr, eq_iff,
}
use mathlib.Core.Path.{subst}
use cline_pass_bridge.Quota.{
  QuotaIdentity, Credential, QuotaLib, keep_identity, normalize_quota_credential,
  quota_account_hash, joins, with_identity, quota_group,
}

-- An identity that was verified for the key that the credential has now.
abbrev pub IsVerified : QuotaLib → Credential → QuotaIdentity → Type 0
IsVerified lib c i =
    (c.quota_identity ≡ some i)
    × (i.key_hash ≡ lib.key_hash c.api_key)
    × (i.key_hash ≢ "")
    × (i.account_hash ≢ "")

-- A credential is of an account by a verified identity, or if it has none by its usage sample.
abbrev pub IsOf : QuotaLib → String → Credential → Type 0
IsOf lib account c =
    ((i : QuotaIdentity) × IsVerified lib c i × (i.account_hash ≡ account))
    ⊎ (((i : QuotaIdentity) → IsVerified lib c i → ⊥)
        × (lib.cached_account (normalize_quota_credential lib c) ≡ account))

-- The source itself or a key of the source's account, and not revoked.
abbrev pub IsMember : QuotaLib → (String → Bool) → Credential → Credential → Type 0
IsMember lib revoked source c =
    (revoked c.id ≡ false)
    × ((c.id ≡ source.id)
        ⊎ ((quota_account_hash lib source ≢ "")
            × (quota_account_hash lib c ≡ quota_account_hash lib source)
            × IsOf lib (quota_account_hash lib source) source
            × IsOf lib (quota_account_hash lib source) c))

-- The group has the members among some credentials, all of them and in their order.
abbrev pub HasMembers :
    QuotaLib → (String → Bool) → Credential → List Credential → List Credential → Type 0
HasMembers lib revoked source [] group = group ≡ []
HasMembers lib revoked source (c ∷ cs) group =
    (IsMember lib revoked source c
      × ((m : Credential) × (ms : List Credential) × (group ≡ m ∷ ms)
          × (m.id ≡ c.id)
          × (m.api_key ≡ c.api_key)
          × HasMembers lib revoked source cs ms))
    ⊎ ((IsMember lib revoked source c → ⊥) × HasMembers lib revoked source cs group)

kept_identity :
    (lib : QuotaLib) (c : Credential) (o : Option QuotaIdentity) {i : QuotaIdentity}
    → o ≡ c.quota_identity
    → keep_identity lib c o ≡ some i
    → IsVerified lib c i
unfolding keep_identity
kept_identity lib c none e h = cc
kept_identity lib c (some j) {i} e h = ground (
  arith,
  e,
  h,
  eq_iff j.key_hash (lib.key_hash c.api_key),
  eq_iff j.account_hash "",
  eq_iff (lib.key_hash c.api_key) "",
)

no_identity-IsVerified :
    (lib : QuotaLib) (c : Credential) (o : Option QuotaIdentity)
    → o ≡ c.quota_identity
    → keep_identity lib c o ≡ none
    → (i : QuotaIdentity) → IsVerified lib c i
    → ⊥
unfolding keep_identity
no_identity-IsVerified lib c none e h i v = cc
no_identity-IsVerified lib c (some j) e h i v =
    let same : j ≡ i = cc (e ∙ v.0) in
    absurd (
      ground (
        arith,
        h,
        v,
        ap (λ x. x.key_hash) same,
        ap (λ x. x.account_hash) same,
        eq_iff j.key_hash (lib.key_hash c.api_key),
        eq_iff j.account_hash "",
        eq_iff (lib.key_hash c.api_key) "",
      ))

account-IsOf_kept :
    (lib : QuotaLib) (c c' : Credential) (o : Option QuotaIdentity)
    → keep_identity lib c c.quota_identity ≡ o
    → normalize_quota_credential lib c ≡ c'
    → IsOf lib (elim o [ some i ↦ i.account_hash | none ↦ lib.cached_account c' ]) c
account-IsOf_kept lib c c' none h n =
    inr (no_identity-IsVerified lib c c.quota_identity refl h, ap lib.cached_account n)
account-IsOf_kept lib c c' (some i) h n = inl (i, kept_identity lib c c.quota_identity refl h, refl)

account-IsOf : (lib : QuotaLib) (c : Credential) → IsOf lib (quota_account_hash lib c) c
unfolding quota_account_hash normalize_quota_credential
account-IsOf lib c =
    account-IsOf_kept lib c (normalize_quota_credential lib c)
      (keep_identity lib c c.quota_identity) refl refl

joined-IsMember :
    (lib : QuotaLib) (revoked : String → Bool) (source c : Credential)
    → joins lib revoked source c ≡ true
    → IsMember lib revoked source c
unfolding joins
joined-IsMember lib revoked source c h = elim (Bool-cases (c.id == source.id)) [
  | inl same ↦ (ground arith, inl ((eq_iff c.id source.id).0 same))
  | inr other ↦
      let account = quota_account_hash lib source in
      let e : quota_account_hash lib c ≡ account =
        (eq_iff (quota_account_hash lib c) account).0 (ground (arith, other)) in
      (
        ground arith,
        inr (
          ground (arith, other, eq_iff account ""),
          e,
          account-IsOf lib source,
          subst (λ a. IsOf lib a c) e (account-IsOf lib c),
        ),
      )
]

member-joins :
    (lib : QuotaLib) (revoked : String → Bool) (source c : Credential)
    → IsMember lib revoked source c
    → joins lib revoked source c ≡ true
unfolding joins
member-joins lib revoked source c (r, inl same) = ground (arith, r, same, eq_iff c.id source.id)
member-joins lib revoked source c (r, inr (n, e, a, b)) =
    let account = quota_account_hash lib source in
    ground (arith, r, n, e, eq_iff account "", eq_iff (quota_account_hash lib c) account)

with_identity_key :
    (lib : QuotaLib) (account : String) (c : Credential)
    → ((with_identity lib account (normalize_quota_credential lib c)).id ≡ c.id)
      × ((with_identity lib account (normalize_quota_credential lib c)).api_key ≡ c.api_key)
unfolding with_identity normalize_quota_credential
with_identity_key lib account c = (ground arith, ground arith)

-- A quota fault or sample of one key touches exactly the keys that are not revoked and are the
-- key itself or have the account of the key, which must be a nonempty one: by an identity that was
-- verified for the key they have now, or, if they have none, by their own usage sample. The group has
-- all of them, in their order, with their identifiers and keys as they were.
pub quota_group-HasMembers :
    (lib : QuotaLib) (revoked : String → Bool) (source : Credential) (cs : List Credential)
    → HasMembers lib revoked source cs (quota_group lib revoked source cs)
unfolding quota_group
quota_group-HasMembers lib revoked source [] = refl
quota_group-HasMembers lib revoked source (c ∷ cs) =
    let rest = quota_group lib revoked source cs in
    let account = quota_account_hash lib source in
    let held = quota_group-HasMembers lib revoked source cs in
    elim (Bool-cases (joins lib revoked source c)) [
      | inl joined ↦ inl (
        joined-IsMember lib revoked source c joined,
        (
          with_identity lib account (normalize_quota_credential lib c),
          rest,
          rw joined refl,
          (with_identity_key lib account c).0,
          (with_identity_key lib account c).1,
          held,
        ),
      )
      | inr other ↦
          inr (
            λ m. absurd (ground (arith, other, member-joins lib revoked source c m)),
            rw other held,
          )
    ]
