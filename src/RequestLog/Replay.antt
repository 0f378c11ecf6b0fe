-- ===== src/RequestLog/Replay.antt =====
-- The event that a request's entry writes, applied to the entries as they are stored.
use cline_pass_bridge.Base.{
  ℕ, String, ◌≡◌, ◌≢◌, refl, ap, ◌∙◌, sym, ◌⊎◌, inl, inr, Bool, true, false, ◌||◌, not, Option,
  none, some, List, [], ◌∷◌, ◌++◌, arith, ◌==◌, string_eq, if◌then◌else◌, Bool-cases, Option-cases,
  eq_iff, ltb,
}
use cline_pass_bridge.Json.{null}
use cline_pass_bridge.RequestLog.{
  LogEntry, LogLib, log_request_count, log_last_time, legacy_of, window_of, key_in, backoff_log_key,
  take_last, latest_of, merge_into, same_key,
}
use cline_pass_bridge.RequestLog.Lines.{stored, all_stored}

-- Entries whose values encoding/json keeps stay so when they are merged; no identifier of a window is
-- that of an older version; a key shows the window.
pub record KeepsClean (lib : LogLib) (Clean : LogEntry → Type 0) : Type 0 where
  pub merge : (old e : LogEntry) → Clean old → Clean e → Clean (merge_into old e)
  pub single :
      (e : LogEntry)
      → Clean e
      → Clean (record e { request_count = log_request_count e; attempts = null })
  pub unlike : (e : LogEntry) (t : ℕ) → Clean e → lib.legacy_window t ≢ e.backoff_window_id
  pub key_window :
      (v w : String) (a b : LogEntry)
      → lib.key_bytes (key_in v a) ≡ lib.key_bytes (key_in w b)
      → v ≡ w

abbrev keyless : LogLib → LogEntry → Bool
keyless lib e =
    not e.upstream_skipped
    || (e.credential_id == "")
    || (e.upstream_model == "")
    || (window_of lib e == "")

or_right : (a b c d : Bool) → (a || b || c || d) ≡ false → d ≡ false
or_right a b c d h = ground (arith, h)

key-form :
    (lib : LogLib) (e : LogEntry)
    → (backoff_log_key lib e == "") ≡ false
    → backoff_log_key lib e ≡ lib.key_bytes (key_in (window_of lib e) e)
unfolding backoff_log_key
key-form lib e h = elim (Bool-cases (keyless lib e)) [
  | inl bare ↦ absurd (ground (arith, rw bare at h, eq_iff "" ""))
  | inr full ↦ rw full refl
]

keyed_window :
    (lib : LogLib) (e : LogEntry)
    → (backoff_log_key lib e == "") ≡ false
    → (window_of lib e == "") ≡ false
unfolding backoff_log_key
keyed_window lib e h = elim (Bool-cases (keyless lib e)) [
  | inl bare ↦ absurd (ground (arith, rw bare at h, eq_iff "" ""))
  | inr full ↦
      or_right (not e.upstream_skipped) (e.credential_id == "") (e.upstream_model == "")
        (window_of lib e == "") full
]

unnamed_window :
    (lib : LogLib) (e : LogEntry)
    → (e.backoff_window_id == "") ≡ true
    → window_of lib e ≡ legacy_of lib e.retry_at
unfolding window_of
unnamed_window lib e h = rw h refl

named_window :
    (lib : LogLib) (e : LogEntry)
    → (e.backoff_window_id == "") ≡ false
    → window_of lib e ≡ e.backoff_window_id
unfolding window_of
named_window lib e h = rw h refl

merged-retry_at :
    (old e : LogEntry)
    → ((merge_into old e).retry_at ≡ old.retry_at) ⊎ ((merge_into old e).retry_at ≡ e.retry_at)
unfolding merge_into latest_of
merged-retry_at old e = elim (Bool-cases (ltb (log_last_time e) (log_last_time old))) [
  | inl older ↦ inl (rw older refl)
  | inr newer ↦ inr (rw newer refl)
]

merged-window_id : (old e : LogEntry) → (merge_into old e).backoff_window_id ≡ e.backoff_window_id
unfolding merge_into
merged-window_id old e = refl

key_in-merged : (w : String) (old e : LogEntry) → key_in w (merge_into old e) ≡ key_in w e
unfolding merge_into
key_in-merged w old e = refl

-- The merged entry has the key of the new one if it has its window.
backoff_log_key-merged :
    (lib : LogLib) (old e : LogEntry)
    → window_of lib (merge_into old e) ≡ window_of lib e
    → backoff_log_key lib (merge_into old e) ≡ backoff_log_key lib e
unfolding backoff_log_key merge_into
backoff_log_key-merged lib old e same = rw same refl

module _ (lib : LogLib) (Clean : LogEntry → Type 0) (k : KeepsClean lib Clean) where
  -- A window that two entries share is an older version's for both or for none.
  legacy_shared :
      (old e : LogEntry)
      → Clean old
      → window_of lib old ≡ window_of lib e
      → (e.backoff_window_id == "") ≡ true
      → (window_of lib e == "") ≡ false
      → legacy_of lib old.retry_at ≡ legacy_of lib e.retry_at
  legacy_shared old e clean same blank some_window =
      elim (Bool-cases (old.backoff_window_id == "")) [
        | inl legacy ↦ sym (unnamed_window lib old legacy) ∙ same ∙ unnamed_window lib e blank
        | inr named ↦ elim (Option-cases e.retry_at) [
          | inl missing ↦
              let w : window_of lib e ≡ "" =
                unnamed_window lib e blank ∙ ap (legacy_of lib) missing in
              absurd (ground (arith, some_window, w, eq_iff (window_of lib e) ""))
          | inr present ↦ absurd (
              k.unlike old present.0 clean (
                sym (ap (legacy_of lib) present.1)
                ∙ sym (unnamed_window lib e blank)
                ∙ sym same
                ∙ named_window lib old named))
        ]
      ]

  window_of-merged :
      (old e : LogEntry)
      → Clean old
      → window_of lib old ≡ window_of lib e
      → (window_of lib e == "") ≡ false
      → window_of lib (merge_into old e) ≡ window_of lib e
  window_of-merged old e clean same some_window = elim (Bool-cases (e.backoff_window_id == "")) [
    | inl blank ↦
        let kept : legacy_of lib (merge_into old e).retry_at ≡ legacy_of lib e.retry_at =
          elim (merged-retry_at old e) [
            | inl earlier ↦
                ap (legacy_of lib) earlier ∙ legacy_shared old e clean same blank some_window
            | inr later ↦ ap (legacy_of lib) later
          ] in
        unnamed_window lib (merge_into old e) (ap (λ x. x == "") (merged-window_id old e) ∙ blank)
        ∙ kept
        ∙ sym (unnamed_window lib e blank)
    | inr named ↦
        named_window lib (merge_into old e) (ap (λ x. x == "") (merged-window_id old e) ∙ named)
        ∙ merged-window_id old e
        ∙ sym (named_window lib e named)
  ]

  pub backoff_log_key-merge_into :
      (old e : LogEntry)
      → Clean old
      → backoff_log_key lib old ≡ backoff_log_key lib e
      → (backoff_log_key lib e == "") ≡ false
      → backoff_log_key lib (merge_into old e) ≡ backoff_log_key lib e
  backoff_log_key-merge_into old e clean same keyed =
      let old_form = key-form lib old (ap (λ x. x == "") same ∙ keyed) in
      let form = key-form lib e keyed in
      backoff_log_key-merged lib old e (
        window_of-merged old e clean
          (k.key_window (window_of lib old) (window_of lib e) old e (sym old_form ∙ same ∙ form))
          (keyed_window lib e keyed))

abbrev pub stored_found : Option (LogEntry × List LogEntry) → Option (LogEntry × List LogEntry)
stored_found none = none
stored_found (some found) = some (stored found.0, all_stored found.1)

-- One step of take_last.
abbrev step_found :
    Bool
    → LogEntry
    → List LogEntry
    → Option (LogEntry × List LogEntry)
    → Option (LogEntry × List LogEntry)
step_found passes x xs (some found) = some (found.0, x ∷ found.1)
step_found passes x xs none = if passes then some (x, xs) else none

step_found-stored :
    (passes : Bool) (x : LogEntry) (xs : List LogEntry) (o : Option (LogEntry × List LogEntry))
    → step_found passes (stored x) (all_stored xs) (stored_found o)
      ≡ stored_found (step_found passes x xs o)
step_found-stored passes x xs (some found) = refl
step_found-stored true x xs none = refl
step_found-stored false x xs none = refl

pub stored-key :
    (lib : LogLib) (e : LogEntry) → backoff_log_key lib (stored e) ≡ backoff_log_key lib e
unfolding backoff_log_key window_of
stored-key lib e = refl

take_last-step :
    (p : LogEntry → Bool) (x : LogEntry) (xs : List LogEntry)
    → take_last p (x ∷ xs) ≡ step_found (p x) x xs (take_last p xs)
unfolding take_last
take_last-step p x xs = elim (Option-cases (take_last p xs)) [
  | inl nothing ↦ rw nothing refl
  | inr something ↦ rw something.1 refl
]

pub take_last-all_stored :
    (lib : LogLib) (key : String) (logs : List LogEntry)
    → take_last (same_key lib key) (all_stored logs)
      ≡ stored_found (take_last (same_key lib key) logs)
unfolding take_last
take_last-all_stored lib key [] = refl
take_last-all_stored lib key (x ∷ xs) =
    take_last-step (same_key lib key) (stored x) (all_stored xs)
    ∙ rw (stored-key lib x, take_last-all_stored lib key xs)
        (step_found-stored (same_key lib key x) x xs (take_last (same_key lib key) xs))
    ∙ ap stored_found (sym (take_last-step (same_key lib key) x xs))

pub all_stored-append : (a b : List LogEntry) → all_stored (a ++ b) ≡ all_stored a ++ all_stored b
all_stored-append [] b = refl
all_stored-append (e ∷ a) b = ap (λ x. stored e ∷ x) (all_stored-append a b)
