-- ===== src/Quota/Merge.antt =====
-- The merge of quota blocks (internal/bridge/quota.go: mergeQuotaBlocks).
use cline_pass_bridge.Base.{
  ℕ, ◌≡◌, refl, sym, ◌∙◌, Bool, true, false, ◌||◌, Option, none, some, List, [], ◌∷◌, arith, nat_eq,
  string_eq, any, All, Bool-cases, inl, inr,
}
use cline_pass_bridge.Quota.{
  QuotaBlockLimit, QuotaBlock, Credential, QuotaLib, set_limits, join_option, collect, account_of,
  later_reset, retry_of, merged, merge_quota_blocks,
}
use cline_pass_bridge.Quota.Covers.{
  not_before, not_before_refl, not_before_trans, covers, is_covered, set_limits_old, set_limits_new,
}

-- The limits of a block, if there is one.
abbrev pub limits_in : Option QuotaBlock → List QuotaBlockLimit
limits_in none = []
limits_in (some b) = b.limits

collect_old :
    (k : QuotaBlockLimit) (bs : List (Option QuotaBlock)) (r : Option QuotaBlock)
    (ms : List QuotaBlockLimit)
    → is_covered ms k ≡ true
    → is_covered (collect bs r ms).1 k ≡ true
unfolding collect
collect_old k [] r ms h = h
collect_old k (none ∷ bs) r ms h = collect_old k bs r ms h
collect_old k (some b ∷ bs) r ms h =
    collect_old k bs (some (join_option r b)) (set_limits b.limits ms)
      (set_limits_old k b.limits ms h)

collect_old_list :
    (ks : List QuotaBlockLimit) (bs : List (Option QuotaBlock)) (r : Option QuotaBlock)
    (ms : List QuotaBlockLimit)
    → All (λ l. is_covered ms l ≡ true) ks
    → All (λ l. is_covered (collect bs r ms).1 l ≡ true) ks
collect_old_list [] bs r ms h = tt
collect_old_list (k ∷ ks) bs r ms (h, hs) =
    (collect_old k bs r ms h, collect_old_list ks bs r ms hs)

collect_new :
    (bs : List (Option QuotaBlock)) (r : Option QuotaBlock) (ms : List QuotaBlockLimit)
    → All (λ b. All (λ l. is_covered (collect bs r ms).1 l ≡ true) (limits_in b)) bs
unfolding collect
collect_new [] r ms = tt
collect_new (none ∷ bs) r ms = (tt, collect_new bs r ms)
collect_new (some b ∷ bs) r ms = (
  collect_old_list b.limits bs (some (join_option r b)) (set_limits b.limits ms)
      (set_limits_new b.limits ms),
  collect_new bs (some (join_option r b)) (set_limits b.limits ms),
)

abbrev pub is_block {ℓ} : {A : Type ℓ} → Option A → Bool
is_block none = false
is_block (some b) = true

pub collect_some :
    (bs : List (Option QuotaBlock)) (r : Option QuotaBlock) (ms : List QuotaBlockLimit)
    → is_block (collect bs r ms).0 ≡ (is_block r || any is_block bs)
unfolding collect
collect_some [] r ms = ground arith
collect_some (none ∷ bs) r ms = collect_some bs r ms
collect_some (some b ∷ bs) r ms =
    collect_some bs (some (join_option r b)) (set_limits b.limits ms) ∙ ground arith

later_left : (a r : Option ℕ) → not_before a (later_reset a r) ≡ true
later_left none r = refl
later_left (some t) none = ground arith
later_left (some t) (some u) = ground arith

later_right : (a r : Option ℕ) → not_before r (later_reset a r) ≡ true
later_right none r = not_before_refl r
later_right (some t) none = refl
later_right (some t) (some u) = ground arith

-- The retry time of a list of limits is not before any reset that it covers.
retry_of-covered :
    (l : QuotaBlockLimit) (ms : List QuotaBlockLimit)
    → is_covered ms l ≡ true
    → not_before l.resets_at (retry_of ms) ≡ true
unfolding retry_of
retry_of-covered l [] h = absurd (ground arith)
retry_of-covered l (m ∷ ms) h =
    let later = later_reset m.resets_at (retry_of ms) in
    elim (Bool-cases (covers l m)) [
      | inl here ↦
          not_before_trans l.resets_at m.resets_at later (ground arith)
            (later_left m.resets_at (retry_of ms))
      | inr elsewhere ↦
          not_before_trans l.resets_at (retry_of ms) later (retry_of-covered l ms (ground arith))
            (later_right m.resets_at (retry_of ms))
    ]

-- The block that a merge makes keeps a limit up: it has a limit of the same type whose reset is not
-- earlier, and its retry time is not before the reset.
abbrev pub Keeps : Option QuotaBlock → QuotaBlockLimit → Type 0
Keeps none l = ⊥
Keeps (some b) l = (is_covered b.limits l ≡ true) × (not_before l.resets_at b.retry_at ≡ true)

none-Keeps :
    (bs : List (Option QuotaBlock))
    → any is_block bs ≡ false
    → All (λ b. All (Keeps none) (limits_in b)) bs
none-Keeps [] h = tt
none-Keeps (none ∷ bs) h = (tt, none-Keeps bs h)
none-Keeps (some b ∷ bs) h = absurd (ground arith)

covered-Keeps :
    (b : QuotaBlock) (ls : List QuotaBlockLimit)
    → b.retry_at ≡ retry_of b.limits
    → All (λ l. is_covered b.limits l ≡ true) ls
    → All (Keeps (some b)) ls
covered-Keeps b [] e h = tt
covered-Keeps b (l ∷ ls) e (h, hs) =
    ((h, rw e (retry_of-covered l b.limits h)), covered-Keeps b ls e hs)

covered-Keeps_list :
    (b : QuotaBlock) (bs : List (Option QuotaBlock))
    → b.retry_at ≡ retry_of b.limits
    → All (λ o. All (λ l. is_covered b.limits l ≡ true) (limits_in o)) bs
    → All (λ o. All (Keeps (some b)) (limits_in o)) bs
covered-Keeps_list b [] e h = tt
covered-Keeps_list b (o ∷ bs) e (h, hs) =
    (covered-Keeps b (limits_in o) e h, covered-Keeps_list b bs e hs)

merged-Keeps :
    (lib : QuotaLib) (c : Credential) (bs : List (Option QuotaBlock))
    (r : Option QuotaBlock × List QuotaBlockLimit)
    → is_block r.0 ≡ any is_block bs
    → All (λ o. All (λ l. is_covered r.1 l ≡ true) (limits_in o)) bs
    → All (λ o. All (Keeps (merged lib c r)) (limits_in o)) bs
unfolding merged
merged-Keeps lib c bs (none, ms) s h = none-Keeps bs (sym s)
merged-Keeps lib c bs (some b, ms) s h =
    let made : QuotaBlock = record b {
      key_hash = lib.key_hash c.api_key;
      manual_disabled = some c.disabled;
      reason = "quota_exhausted";
      retry_at = retry_of ms;
      account_hash = account_of c.quota_identity b.account_hash;
      limits = ms;
    } in
    covered-Keeps_list made bs refl h

-- Merging blocks loses no limit: for every limit of every block, the merged block has a limit of the
-- same type whose reset is not earlier, and its retry time is not before the reset.
pub merge-Keeps :
    (lib : QuotaLib) (c : Credential) (bs : List (Option QuotaBlock))
    → All (λ b. All (Keeps (merge_quota_blocks lib c bs)) (limits_in b)) bs
unfolding merge_quota_blocks
merge-Keeps lib c bs =
    merged-Keeps lib c bs (collect bs none []) (collect_some bs none []) (collect_new bs none [])
