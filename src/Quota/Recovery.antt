-- ===== src/Quota/Recovery.antt =====
-- Usage samples and the end of a pause (internal/bridge/quota.go: observeQuotaUsage).
use cline_pass_bridge.Base.{
  is_empty, ℕ, String, ◌≡◌, refl, sym, ◌∙◌, true, false, Option, none, some, List, [], ◌∷◌, ◌++◌,
  arith, nat_eq, string_eq, if◌then◌else◌, any, all, All, Bool-cases, Option-cases, inl, inr,
}
use cline_pass_bridge.Quota.{
  QuotaBlockLimit, QuotaBlock, Credential, CredentialUsage, QuotaLib, collect, merged,
  merge_quota_blocks,
}
use cline_pass_bridge.Quota.Usage.{
  known_types, is_reset, is_released, quota_usage_has_room, exhausted_limits, new_block,
  usage_blocks, usage_block,
}
use mathlib.Core.Path.{subst}
use mathlib.Core.Option.{some-ne-none}
use cline_pass_bridge.Quota.Merge.{collect_some, limits_in, Keeps, is_block, merge-Keeps}
use cline_pass_bridge.Quota.Covers.{not_before, is_covered, covers}

-- A limit whose reset, if it is known, has come.
abbrev pub IsPast : ℕ → QuotaBlockLimit → Type 0
IsPast started l = is_reset started l.resets_at ≡ true

earlier_reset :
    (started : ℕ) (a b : Option ℕ)
    → not_before a b ≡ true
    → is_reset started b ≡ true
    → is_reset started a ≡ true
earlier_reset started none b h k = refl
earlier_reset started (some t) none h k = absurd (ground arith)
earlier_reset started (some t) (some u) h k = ground arith

covered-IsPast :
    (started : ℕ) (known : List String) (ms : List QuotaBlockLimit) (l : QuotaBlockLimit)
    → all (is_released started known) ms ≡ true
    → is_covered ms l ≡ true
    → IsPast started l
unfolding is_released
covered-IsPast started known [] l h c = absurd (ground arith)
covered-IsPast started known (m ∷ ms) l h c = elim (Bool-cases (covers l m)) [
  | inl here ↦ earlier_reset started l.resets_at m.resets_at (ground arith) (ground arith)
  | inr elsewhere ↦ covered-IsPast started known ms l (ground arith) (ground arith)
]

-- A sample with room: every limit of the block is past.
room-IsPast :
    (lib : QuotaLib) (b : Option QuotaBlock) (value : CredentialUsage) (started : ℕ)
    (l : QuotaBlockLimit)
    → quota_usage_has_room lib b value started ≡ true
    → Keeps b l
    → IsPast started l
unfolding quota_usage_has_room
room-IsPast lib none value started l h k = absurd k
room-IsPast lib (some b) value started l h k = elim (Option-cases (known_types lib value.limits)) [
  | inl bad ↦ absurd (ground (arith, bad))
  | inr (known, good) ↦ covered-IsPast started known b.limits l (ground (arith, good)) k.0
]

merged-is_block :
    (lib : QuotaLib) (c : Credential) (r : Option QuotaBlock × List QuotaBlockLimit)
    → is_block (merged lib c r) ≡ is_block r.0
unfolding merged
merged-is_block lib c (none, ms) = refl
merged-is_block lib c (some b, ms) = refl

any_block-append :
    (bs : List (Option QuotaBlock)) (b : QuotaBlock) → any is_block (bs ++ some b ∷ []) ≡ true
any_block-append [] b = refl
any_block-append (none ∷ bs) b = any_block-append bs b
any_block-append (some x ∷ bs) b = refl

merge_exhausted :
    (lib : QuotaLib) (c : Credential) (updated : ℕ) (ex : List QuotaBlockLimit)
    (bs : List (Option QuotaBlock))
    → is_empty ex ≡ false
    → is_block (merge_quota_blocks lib c (usage_blocks updated ex bs)) ≡ true
unfolding merge_quota_blocks usage_blocks
merge_exhausted lib c updated [] bs h = absurd (ground arith)
merge_exhausted lib c updated (l ∷ ls) bs h =
    let all_of = bs ++ some (new_block "usage" updated (l ∷ ls)) ∷ [] in
    merged-is_block lib c (collect all_of none [])
    ∙ (collect_some all_of none [] ∙ any_block-append bs (new_block "usage" updated (l ∷ ls)))

exhausted_is_block :
    (lib : QuotaLib) (value : CredentialUsage) (updated started : ℕ) (bs : List (Option QuotaBlock))
    (c : Credential)
    → is_empty (exhausted_limits lib value.limits) ≡ false
    → is_block (usage_block lib value updated started bs c) ≡ true
unfolding usage_block
exhausted_is_block lib value updated started bs c h =
    let kept = merge_exhausted lib c updated (exhausted_limits lib value.limits) bs h in rw h kept

empty_nil : (ls : List QuotaBlockLimit) → is_empty ls ≡ true → ls ≡ []
empty_nil [] h = refl
empty_nil (l ∷ ls) h = absurd (ground arith)

abbrev pub AllPast : ℕ → List (Option QuotaBlock) → Type 0
AllPast started bs = All (λ b. All (IsPast started) (limits_in b)) bs

Keeps-IsPast :
    (started : ℕ) (b : Option QuotaBlock) (ls : List QuotaBlockLimit)
    → ((l : QuotaBlockLimit) → Keeps b l → IsPast started l)
    → All (Keeps b) ls
    → All (IsPast started) ls
Keeps-IsPast started b [] f h = tt
Keeps-IsPast started b (l ∷ ls) f (h, hs) = (f l h, Keeps-IsPast started b ls f hs)

Keeps-AllPast :
    (started : ℕ) (b : Option QuotaBlock) (bs : List (Option QuotaBlock))
    → ((l : QuotaBlockLimit) → Keeps b l → IsPast started l)
    → All (λ o. All (Keeps b) (limits_in o)) bs
    → AllPast started bs
Keeps-AllPast started b [] f h = tt
Keeps-AllPast started b (o ∷ bs) f (h, hs) =
    (Keeps-IsPast started b (limits_in o) f h, Keeps-AllPast started b bs f hs)

kept_or_room :
    (lib : QuotaLib) (value : CredentialUsage) (started : ℕ) (bs : List (Option QuotaBlock))
    (c : Credential)
    → (if quota_usage_has_room lib (merge_quota_blocks lib c bs) value started
        then none
        else merge_quota_blocks lib c bs)
      ≡ none
    → AllPast started bs
kept_or_room lib value started bs c h =
    let b = merge_quota_blocks lib c bs in
    elim (Bool-cases (quota_usage_has_room lib b value started)) [
      | inl room ↦
          Keeps-AllPast started b bs (λ l. room-IsPast lib b value started l room)
            (merge-Keeps lib c bs)
      | inr full ↦
          let gone : b ≡ none = sym (rw full refl) ∙ h in
          Keeps-AllPast started b bs (λ l k. absurd (subst (λ x. Keeps x l) gone k))
            (merge-Keeps lib c bs)
    ]

unexhausted :
    (lib : QuotaLib) (value : CredentialUsage) (updated started : ℕ) (bs : List (Option QuotaBlock))
    (c : Credential)
    → exhausted_limits lib value.limits ≡ []
    → usage_block lib value updated started bs c ≡ (
        if quota_usage_has_room lib (merge_quota_blocks lib c bs) value started
        then none
        else merge_quota_blocks lib c bs)
unfolding usage_block usage_blocks
unexhausted lib value updated started bs c h = rw h refl

paused_is_some : (o : Option QuotaBlock) → is_block o ≡ true → o ≡ none → ⊥
paused_is_some none h e = ground arith
paused_is_some (some b) h e = some-ne-none b e

-- A usage sample ends the pause of a key only if every reset of every block in its group has come
-- when the sample is started.
pub resumes-AllPast :
    (lib : QuotaLib) (value : CredentialUsage) (updated started : ℕ) (bs : List (Option QuotaBlock))
    (c : Credential)
    → usage_block lib value updated started bs c ≡ none
    → AllPast started bs
resumes-AllPast lib value updated started bs c h =
    elim (Bool-cases (is_empty (exhausted_limits lib value.limits))) [
      | inl fresh ↦ kept_or_room lib value started bs c (
          sym (
            unexhausted lib value updated started bs c
              (empty_nil (exhausted_limits lib value.limits) fresh))
          ∙ h)
      | inr spent ↦ absurd (
          paused_is_some (usage_block lib value updated started bs c)
            (exhausted_is_block lib value updated started bs c spent) h)
    ]
