-- ===== src/Quota/Closed.antt =====
-- Pauses and failing writes (internal/bridge/quota.go: saveQuotaGroup, persistQuotaCredential).
use mathlib.Core.Path.{subst}
use cline_pass_bridge.Base.{
  String, ◌≡◌, refl, sym, ap, ◌∙◌, Bool, true, false, ◌&&◌, not, Option, none, some, List, [], ◌∷◌,
  arith, eq_iff, ◌==◌, nat_eq, string_eq, if◌then◌else◌, is_some, Bool-cases, inl, inr, All,
}
use cline_pass_bridge.Base.Dict.{Dict, get, put, get-put}
use cline_pass_bridge.Faults.{Fault}
use cline_pass_bridge.Quota.{QuotaBlock, Credential, QuotaLib, normalize_quota_credential}
use cline_pass_bridge.Quota.Store.{
  Stored, QuotaStore, StoreLib, quota_state_equal, with_state, publish_current, publish_found,
  publish, must_write, Write, begin_current, error_found, quota_persistence_error, settle_found,
  finish_write, persist_found, persist_quota_credential, Member, publish_all, persist_all,
  save_quota_group,
}

abbrev pub is_paused : Option Stored → Bool
is_paused none = false
is_paused (some c) = is_some c.credential.quota_block

-- No credential that was paused is not any more.
abbrev pub KeepsPauses : QuotaStore → QuotaStore → Type 0
KeepsPauses s s' =
    (id : String) → is_paused (get s.creds id) ≡ true → is_paused (get s'.creds id) ≡ true

put_keeps :
    (creds : Dict String Stored) (name id : String) (c : Stored)
    → is_some c.credential.quota_block ≡ true
    → is_paused (get creds id) ≡ true
    → is_paused (get (put creds name c) id) ≡ true
put_keeps creds name id c b h = elim (Bool-cases (id == name)) [
  | inl same ↦ rw (get-put creds name id c, same) b
  | inr other ↦ rw (get-put creds name id c, other) h
]

put_same :
    (creds : Dict String Stored) (name id : String) (c old : Stored)
    → get creds name ≡ some old
    → c.credential.quota_block ≡ old.credential.quota_block
    → is_paused (get creds id) ≡ true
    → is_paused (get (put creds name c) id) ≡ true
put_same creds name id c old e b h = elim (Bool-cases (id == name)) [
  | inl same ↦
      let there : is_paused (get creds name) ≡ true =
        subst (λ n. is_paused (get creds n) ≡ true) ((eq_iff id name).0 same) h in
      let was : is_paused (some old) ≡ true = sym (ap is_paused e) ∙ there in
      rw (get-put creds name id c, same) (ap is_some b ∙ was)
  | inr other ↦ rw (get-put creds name id c, other) h
]

publish_found-KeepsPauses :
    (lib : StoreLib) (s : QuotaStore) (next : Credential) (o : Option Stored)
    → KeepsPauses s (publish_found lib s next o)
unfolding publish_found publish_current
publish_found-KeepsPauses lib s next none = λ id h. h
publish_found-KeepsPauses lib s next (some c) = λ id h.
    elim (Bool-cases (c.credential.api_key == next.api_key)) [
      | inl same ↦
          elim (Bool-cases
            (not (quota_state_equal lib c.credential next) && is_some next.quota_block)) [
              | inl new ↦
                  rw (same, new)
                    (put_keeps s.creds next.id id (with_state c next s.fresh) (ground arith) h)
              | inr old ↦ rw (same, old) h
            ]
      | inr other ↦ rw other h
    ]

-- What a begun write leaves of a credential.
abbrev kept_block : Option QuotaBlock → Option QuotaBlock → Option QuotaBlock
kept_block value current = if is_some value then value else current

kept_is_some :
    (value current : Option QuotaBlock)
    → is_some current ≡ true
    → is_some (kept_block value current) ≡ true
kept_is_some value current h = elim (Bool-cases (is_some value)) [
  | inl new ↦ rw new new
  | inr old ↦ rw old h
]

begin_keeps :
    (quota : QuotaLib) (s : QuotaStore) (next : Credential) (c : Stored)
    → get s.creds next.id ≡ some c
    → KeepsPauses s (begin_current quota s next c).0
unfolding begin_current
begin_keeps quota s next c e = λ id h.
    let value =
      normalize_quota_credential quota (record next { disabled = c.credential.disabled }) in
    elim (Bool-cases (is_some value.quota_block)) [
      | inl new ↦ rw new (put_keeps s.creds next.id id (with_state c value s.fresh) new h)
      | inr old ↦ rw old (put_same s.creds next.id id (record c { revision = s.fresh }) c e refl h)
    ]

error_found_creds :
    (lib : StoreLib) (s : QuotaStore) (w : Write) (failure : Option Fault) (o : Option Stored)
    → (error_found lib s w failure o).creds ≡ s.creds
unfolding error_found
error_found_creds lib s w failure none = refl
error_found_creds lib s w failure (some c) =
    elim (Bool-cases (c.credential.api_key == w.next.api_key && c.revision == w.revision)) [
      | inl same ↦ rw same refl
      | inr other ↦ rw other refl
    ]

error_creds :
    (lib : StoreLib) (s : QuotaStore) (w : Write) (failure : Option Fault)
    → (quota_persistence_error lib s w failure).creds ≡ s.creds
unfolding quota_persistence_error
error_creds lib s w failure = error_found_creds lib s w failure (get s.creds w.next.id)

-- After the write of a value with a block.
settle_keeps :
    (s : QuotaStore) (w : Write) (o : Option Stored)
    → is_some w.next.quota_block ≡ true
    → KeepsPauses s (settle_found s w o)
unfolding settle_found
settle_keeps s w none b = λ id h. h
settle_keeps s w (some c) b = λ id h.
    elim (Bool-cases (c.credential.api_key == w.next.api_key && c.revision == w.revision)) [
      | inl same ↦ rw same (put_keeps s.creds w.next.id id (with_state c w.next w.revision) b h)
      | inr other ↦ rw other h
    ]

-- A write that fails, or that has a block to write.
abbrev pub IsSafe : Option QuotaBlock → Option Fault → Type 0
IsSafe block (some e) = Unit
IsSafe block none = is_some block ≡ true

finish_keeps :
    (lib : StoreLib) (s : QuotaStore) (w : Write) (io : Option Fault)
    → IsSafe w.next.quota_block io
    → KeepsPauses s (finish_write lib s w io)
unfolding finish_write
finish_keeps lib s w (some e) b = λ id h. rw (error_creds lib s w (some e)) h
finish_keeps lib s w none b = λ id h.
    let s' = settle_found s w (get s.creds w.next.id) in
    rw (error_creds lib s' w none) (settle_keeps s w (get s.creds w.next.id) b id h)

-- The value that a write would leave: its block counts only for its own key.
abbrev pub written_block : QuotaLib → Credential → Bool → Option QuotaBlock
written_block quota next disabled =
    (normalize_quota_credential quota (record next { disabled = disabled })).quota_block

abbrev pub IsSafeWrite : QuotaLib → Credential → Option Fault → Type 0
IsSafeWrite quota next io = (disabled : Bool) → IsSafe (written_block quota next disabled) io

begun-IsSafe :
    (quota : QuotaLib) (s : QuotaStore) (next : Credential) (c : Stored) (io : Option Fault)
    → IsSafe (written_block quota next c.credential.disabled) io
    → IsSafe (begin_current quota s next c).1.next.quota_block io
unfolding begin_current
begun-IsSafe quota s next c io h = h

persist_found-KeepsPauses :
    (quota : QuotaLib) (lib : StoreLib) (s : QuotaStore) (next : Credential) (io : Option Fault)
    (o : Option Stored)
    → get s.creds next.id ≡ o
    → IsSafeWrite quota next io
    → KeepsPauses s (persist_found quota lib s next io o).0
unfolding persist_found
persist_found-KeepsPauses quota lib s next io none e safe = λ id h. h
persist_found-KeepsPauses quota lib s next io (some c) e safe = λ id h.
    elim (Bool-cases (c.credential.api_key == next.api_key)) [
      | inl same ↦
          let begun = begin_current quota s next c in
          rw same (
            finish_keeps lib begun.0 begun.1 io
              (begun-IsSafe quota s next c io (safe c.credential.disabled)) id
              (begin_keeps quota s next c e id h))
      | inr other ↦ rw other h
    ]

persist_all-KeepsPauses :
    (quota : QuotaLib) (lib : StoreLib) (s : QuotaStore) (ms : List Member)
    → All (λ m. IsSafeWrite quota m.next m.io) ms
    → KeepsPauses s (persist_all quota lib s ms)
unfolding persist_all persist_quota_credential
persist_all-KeepsPauses quota lib s [] safe = λ id h. h
persist_all-KeepsPauses quota lib s (m ∷ ms) (safe, rest) = λ id h.
    persist_all-KeepsPauses quota lib
      (persist_found quota lib s m.next m.io (get s.creds m.next.id)).0 ms rest id
      (persist_found-KeepsPauses quota lib s m.next m.io (get s.creds m.next.id) refl safe id h)

publish_all-KeepsPauses :
    (lib : StoreLib) (s : QuotaStore) (ms : List Member) → KeepsPauses s (publish_all lib s ms).0
unfolding publish_all publish
publish_all-KeepsPauses lib s [] = λ id h. h
publish_all-KeepsPauses lib s (m ∷ ms) = λ id h.
    publish_all-KeepsPauses lib (publish_found lib s m.next (get s.creds m.next.id)) ms id
      (publish_found-KeepsPauses lib s m.next (get s.creds m.next.id) id h)

publish_all_safe :
    (quota : QuotaLib) (lib : StoreLib) (s : QuotaStore) (ms : List Member)
    → All (λ m. IsSafeWrite quota m.next m.io) ms
    → All (λ m. IsSafeWrite quota m.next m.io) (publish_all lib s ms).1
unfolding publish_all
publish_all_safe quota lib s [] safe = tt
publish_all_safe quota lib s (m ∷ ms) (safe, rest) =
    let more = publish_all_safe quota lib (publish lib s m.next) ms rest in
    elim (Bool-cases (must_write lib s m.next)) [
      | inl written ↦ rw written (safe, more)
      | inr skipped ↦ rw skipped more
    ]

-- Saving a group never ends a pause of any credential by a failure: a pause can end only by a write
-- that goes well and has no block to write.
pub save-KeepsPauses :
    (quota : QuotaLib) (lib : StoreLib) (s : QuotaStore) (group : List Member)
    → All (λ m. IsSafeWrite quota m.next m.io) group
    → KeepsPauses s (save_quota_group quota lib s group)
unfolding save_quota_group
save-KeepsPauses quota lib s group safe id h =
    persist_all-KeepsPauses quota lib (publish_all lib s group).0 (publish_all lib s group).1
      (publish_all_safe quota lib s group safe) id (publish_all-KeepsPauses lib s group id h)
