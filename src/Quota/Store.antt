-- ===== src/Quota/Store.antt =====
-- Saving the pauses of a group (internal/bridge/quota.go: saveQuotaGroup, persistQuotaCredential,
-- quotaPersistenceError). A revision is drawn from a counter in place of random text. What the files
-- do is an argument: the error with which the write of one credential ends, or none. The errors that
-- saveQuotaGroup joins for its caller, and the fields it writes to the files, are left out. While a
-- file is written the mutex is free; a group is saved as if no other call came in that time.
use cline_pass_bridge.Base.{
  ℕ, ◌+◌, String, Bool, false, ◌&&◌, ◌||◌, not, Option, none, some, List, [], ◌∷◌, ◌==◌, nat_eq,
  string_eq, if◌then◌else◌, is_some,
}
use cline_pass_bridge.Base.Dict.{Dict, get, put, remove}
use cline_pass_bridge.Base.Text.{codes}
use cline_pass_bridge.Faults.{Fault, fail}
use cline_pass_bridge.Quota.{
  QuotaIdentity, QuotaBlock, Credential, QuotaLib, normalize_quota_credential,
}

-- A credential with its QuotaRevision.
pub record Stored : Type 0 where
  pub credential : Credential
  pub revision : ℕ

pub record QuotaStore : Type 0 where
  pub creds : Dict String Stored
  pub quota_write_errors : Dict String String
  pub fresh : ℕ

-- encoding/json of a block and of an identity, and the text of an error.
pub record StoreLib : Type 0 where
  pub json_block : Option QuotaBlock → String
  pub json_identity : Option QuotaIdentity → String
  pub safe_error : Fault → String

unfoldable pub quota_state_equal : StoreLib → Credential → Credential → Bool
quota_state_equal lib a b =
    lib.json_block a.quota_block == lib.json_block b.quota_block
    && lib.json_identity a.quota_identity == lib.json_identity b.quota_identity

abbrev pub with_state : Stored → Credential → ℕ → Stored
with_state current next revision = record {
  credential = record current.credential {
    quota_block = next.quota_block;
    quota_identity = next.quota_identity;
  };
  revision = revision;
}

abbrev pub has_error : Option String → Bool
has_error none = false
has_error (some text) = not (text == "")

-- What the first loop of saveQuotaGroup does with a credential that still has the same key.
unfoldable pub publish_current : StoreLib → QuotaStore → Credential → Stored → QuotaStore
publish_current lib s next current =
    if not (quota_state_equal lib current.credential next) && is_some next.quota_block
    then record s {
      creds = put s.creds next.id (with_state current next s.fresh);
      fresh = s.fresh + 1;
    }
    else s

unfoldable pub publish_found : StoreLib → QuotaStore → Credential → Option Stored → QuotaStore
publish_found lib s next none = s
publish_found lib s next (some current) =
    if current.credential.api_key == next.api_key then publish_current lib s next current else s

unfoldable pub publish : StoreLib → QuotaStore → Credential → QuotaStore
publish lib s next = publish_found lib s next (get s.creds next.id)

-- `changed || s.quotaWriteErrors[next.ID] != ""`, for a credential that still has the same key.
unfoldable pub must_write : StoreLib → QuotaStore → Credential → Bool
must_write lib s next = elim (get s.creds next.id) [
  | none ↦ false
  | some current ↦
      current.credential.api_key == next.api_key
      && (not (quota_state_equal lib current.credential next)
          || has_error (get s.quota_write_errors next.id))
]

-- A credential whose write has begun: the value to write and its revision.
pub record Write : Type 0 where
  pub next : Credential
  pub revision : ℕ

unfoldable pub begin_current : QuotaLib → QuotaStore → Credential → Stored → QuotaStore × Write
begin_current quota s next current =
    let value =
      normalize_quota_credential quota (record next { disabled = current.credential.disabled }) in
    let kept =
      if is_some value.quota_block
      then with_state current value s.fresh
      else record current { revision = s.fresh } in
    (
      record s { creds = put s.creds next.id kept; fresh = s.fresh + 1 },
      record { next = value; revision = s.fresh },
    )

abbrev pub noted : StoreLib → Write → Option Fault → Dict String String → Dict String String
noted lib w none errors = remove errors w.next.id
noted lib w (some e) errors = put errors w.next.id (lib.safe_error e)

unfoldable pub error_found :
    StoreLib → QuotaStore → Write → Option Fault → Option Stored → QuotaStore
error_found lib s w failure none = s
error_found lib s w failure (some current) =
    if current.credential.api_key == w.next.api_key && current.revision == w.revision
    then record s { quota_write_errors = noted lib w failure s.quota_write_errors }
    else s

unfoldable pub quota_persistence_error : StoreLib → QuotaStore → Write → Option Fault → QuotaStore
quota_persistence_error lib s w failure = error_found lib s w failure (get s.creds w.next.id)

-- After a write that went well.
unfoldable pub settle_found : QuotaStore → Write → Option Stored → QuotaStore
settle_found s w none = s
settle_found s w (some current) =
    if current.credential.api_key == w.next.api_key && current.revision == w.revision
    then record s { creds = put s.creds w.next.id (with_state current w.next w.revision) }
    else s

unfoldable pub finish_write : StoreLib → QuotaStore → Write → Option Fault → QuotaStore
finish_write lib s w (some e) = quota_persistence_error lib s w (some e)
finish_write lib s w none =
    quota_persistence_error lib (settle_found s w (get s.creds w.next.id)) w none

-- For a credential that is there. The mutex is free while the file is written: `meanwhile` is what
-- others do to the store between the two halves.
abbrev pub persist_around :
    (QuotaStore → QuotaStore)
    → QuotaLib
    → StoreLib
    → QuotaStore
    → Credential
    → Option Fault
    → Stored
    → QuotaStore × Option Fault
persist_around meanwhile quota lib s next io current =
    let begun = begin_current quota s next current in
    if current.credential.api_key == next.api_key
    then (finish_write lib (meanwhile begun.0) begun.1 io, io)
    else (s, some (fail 409 (codes "quota credential changed before persistence")))

-- With nothing in between.
unfoldable pub persist_found :
    QuotaLib
    → StoreLib
    → QuotaStore
    → Credential
    → Option Fault
    → Option Stored
    → QuotaStore × Option Fault
persist_found quota lib s next io none =
    (s, some (fail 409 (codes "quota credential changed before persistence")))
persist_found quota lib s next io (some current) =
    persist_around (λ x. x) quota lib s next io current

unfoldable pub persist_quota_credential :
    QuotaLib → StoreLib → QuotaStore → Credential → Option Fault → QuotaStore × Option Fault
persist_quota_credential quota lib s next io =
    persist_found quota lib s next io (get s.creds next.id)

-- A member of the group, with the end of its write.
pub record Member : Type 0 where
  pub next : Credential
  pub io : Option Fault

unfoldable pub publish_all : StoreLib → QuotaStore → List Member → QuotaStore × List Member
publish_all lib s [] = (s, [])
publish_all lib s (m ∷ ms) =
    let (s', writes) = publish_all lib (publish lib s m.next) ms in
    (s', if must_write lib s m.next then m ∷ writes else writes)

unfoldable pub persist_all : QuotaLib → StoreLib → QuotaStore → List Member → QuotaStore
persist_all quota lib s [] = s
persist_all quota lib s (m ∷ ms) =
    persist_all quota lib (persist_quota_credential quota lib s m.next m.io).0 ms

-- Every member's block is published before the first write.
unfoldable pub save_quota_group : QuotaLib → StoreLib → QuotaStore → List Member → QuotaStore
save_quota_group quota lib s group =
    let (s', writes) = publish_all lib s group in persist_all quota lib s' writes
