-- ===== src/RequestLog/Queued.antt =====
-- The event that is queued for an entry.
use cline_pass_bridge.Base.{
  ℕ, zero, suc, ◌-◌, ◌≤◌, ◌≡◌, refl, ap, ◌∙◌, sym, inl, inr, Bool, true, false, Option, none, some,
  List, [], ◌∷◌, ◌++◌, arith, ◌==◌, string_eq, if◌then◌else◌, Bool-cases, eq_iff, length, drop,
  length-append,
}
use cline_pass_bridge.Json.{null}
use cline_pass_bridge.Faults.{ok}
use cline_pass_bridge.RequestLog.{
  LogEntry, LogLib, log_request_count, backoff_log_key, take_last, merge_into, same_key, merged_at,
  merge_backoff_log,
}
use cline_pass_bridge.RequestLog.Store.{retain, place_entry}
use cline_pass_bridge.RequestLog.Load.{last_entry}
use cline_pass_bridge.RequestLog.Lines.{stored, all_stored, AllOf}
use cline_pass_bridge.RequestLog.Merging.{Taken, take_last-Taken}
use cline_pass_bridge.RequestLog.Replay.{
  KeepsClean, backoff_log_key-merge_into, stored-key, take_last-all_stored, all_stored-append,
}

pub AllOf-append :
    (P : LogEntry → Type 0) (a b : List LogEntry) → AllOf P a → AllOf P b → AllOf P (a ++ b)
AllOf-append P [] b h g = g
AllOf-append P (e ∷ a) b h g = (h.0, AllOf-append P a b h.1 g)

AllOf-drop :
    (P : LogEntry → Type 0) (n : ℕ) (logs : List LogEntry) → AllOf P logs → AllOf P (drop n logs)
AllOf-drop P zero logs h = h
AllOf-drop P (suc n) [] h = tt
AllOf-drop P (suc n) (e ∷ logs) h = AllOf-drop P n logs h.1

pub AllOf-retain :
    (P : LogEntry → Type 0) (n : ℕ) (logs : List LogEntry) → AllOf P logs → AllOf P (retain n logs)
unfolding retain
AllOf-retain P n logs h = AllOf-drop P (length logs - n) logs h

length-all_stored : (logs : List LogEntry) → length (all_stored logs) ≡ length logs
length-all_stored [] = refl
length-all_stored (e ∷ logs) = ap (λ n. suc n) (length-all_stored logs)

drop-all_stored :
    (n : ℕ) (logs : List LogEntry) → drop n (all_stored logs) ≡ all_stored (drop n logs)
drop-all_stored zero logs = refl
drop-all_stored (suc n) [] = refl
drop-all_stored (suc n) (e ∷ logs) = drop-all_stored n logs

pub retain-all_stored :
    (n : ℕ) (logs : List LogEntry) → retain n (all_stored logs) ≡ all_stored (retain n logs)
unfolding retain
retain-all_stored n logs = rw (length-all_stored logs) (drop-all_stored (length logs - n) logs)

last_entry-append : (logs : List LogEntry) (e : LogEntry) → last_entry (logs ++ e ∷ []) ≡ some e
last_entry-append [] e = refl
last_entry-append (d ∷ []) e = refl
last_entry-append (d ∷ c ∷ logs) e = last_entry-append (c ∷ logs) e

last_entry-drop :
    (n : ℕ) (logs : List LogEntry) (e : LogEntry)
    → n ≤ length logs
    → last_entry (drop n (logs ++ e ∷ [])) ≡ some e
last_entry-drop zero logs e h = last_entry-append logs e
last_entry-drop (suc n) [] e h = absurd (omega (arith, h))
last_entry-drop (suc n) (d ∷ logs) e h = last_entry-drop n logs e (omega (arith, h))

pub last_entry-retain :
    (n : ℕ) (logs : List LogEntry) (e : LogEntry)
    → 1 ≤ n
    → last_entry (retain n (logs ++ e ∷ [])) ≡ some e
unfolding retain
last_entry-retain n logs e h =
    let l = length-append logs (e ∷ []) in
    last_entry-drop (length (logs ++ e ∷ []) - n) logs e (omega (arith, h, l))

-- Both parts of what take_last finds are as clean as the list.
abbrev BothClean : (LogEntry → Type 0) → Option (LogEntry × List LogEntry) → Type 0
BothClean P none = Unit
BothClean P (some found) = P found.0 × AllOf P found.1

BothClean-step :
    (P : LogEntry → Type 0) (b : Bool) (x : LogEntry) (xs : List LogEntry)
    (o : Option (LogEntry × List LogEntry))
    → P x
    → AllOf P xs
    → BothClean P o
    → BothClean P (elim o [
      | some found ↦ some (found.0, x ∷ found.1)
      | none ↦ (if b then some (x, xs) else none)
    ])
BothClean-step P b x xs (some found) h g c = (c.0, (h, c.1))
BothClean-step P true x xs none h g c = (h, g)
BothClean-step P false x xs none h g c = tt

take_last-BothClean :
    (P : LogEntry → Type 0) (p : LogEntry → Bool) (logs : List LogEntry)
    → AllOf P logs
    → BothClean P (take_last p logs)
unfolding take_last
take_last-BothClean P p [] h = tt
take_last-BothClean P p (x ∷ xs) h =
    BothClean-step P (p x) x xs (take_last p xs) h.0 h.1 (take_last-BothClean P p xs h.1)

-- A merge leaves an entry behind the others, and the event of this entry leads there.
abbrev pub IsPlaced : LogLib → (LogEntry → Type 0) → List LogEntry → List LogEntry × Bool → Type 0
IsPlaced lib Clean before (logs, merged) =
    (others : List LogEntry) × (e : LogEntry) × (logs ≡ others ++ e ∷ [])
    × Clean e
    × AllOf Clean others
    × (place_entry lib (all_stored before) (some (stored e)) merged ≡ ok (all_stored logs))

module _ (lib : LogLib) (Clean : LogEntry → Type 0) (k : KeepsClean lib Clean) where
  added-IsPlaced :
      (logs : List LogEntry) (e : LogEntry)
      → AllOf Clean logs
      → Clean e
      → IsPlaced lib Clean logs (logs ++ e ∷ [], false)
  unfolding place_entry
  added-IsPlaced logs e h c = (logs, e, refl, c, h, ap ok (sym (all_stored-append logs (e ∷ []))))

  placed-merged :
      (logs : List LogEntry) (e : LogEntry) (found : LogEntry × List LogEntry)
      → Clean found.0
      → (backoff_log_key lib e == "") ≡ false
      → take_last (same_key lib (backoff_log_key lib e)) logs ≡ some found
      → same_key lib (backoff_log_key lib e) found.0 ≡ true
      → place_entry lib (all_stored logs) (some (stored (merge_into found.0 e))) true
        ≡ ok (all_stored (found.1 ++ merge_into found.0 e ∷ []))
  unfolding place_entry
  placed-merged logs e found c keyed took passes =
      let same : backoff_log_key lib found.0 ≡ backoff_log_key lib e =
        ground (arith, passes, eq_iff (backoff_log_key lib found.0) (backoff_log_key lib e)) in
      let key : backoff_log_key lib (stored (merge_into found.0 e)) ≡ backoff_log_key lib e =
        stored-key lib (merge_into found.0 e)
        ∙ backoff_log_key-merge_into lib Clean k found.0 e c same keyed in
      rw key (
        rw (take_last-all_stored lib (backoff_log_key lib e) logs, took)
          (ap ok (sym (all_stored-append found.1 (merge_into found.0 e ∷ [])))))

  merged_at-IsPlaced :
      (logs : List LogEntry) (e : LogEntry) (o : Option (LogEntry × List LogEntry))
      → AllOf Clean logs
      → Clean e
      → (backoff_log_key lib e == "") ≡ false
      → take_last (same_key lib (backoff_log_key lib e)) logs ≡ o
      → Taken (same_key lib (backoff_log_key lib e)) logs o
      → BothClean Clean o
      → IsPlaced lib Clean logs (merged_at logs e o)
  merged_at-IsPlaced logs e none h c keyed took taken both =
      added-IsPlaced logs (record e { request_count = log_request_count e; attempts = null }) h
        (k.single e c)
  merged_at-IsPlaced logs e (some found) h c keyed took taken both = (
    found.1,
    merge_into found.0 e,
    refl,
    k.merge found.0 e both.0 c,
    both.1,
    placed-merged logs e found both.0 keyed took taken.0,
  )

  pub merge_backoff_log-IsPlaced :
      (logs : List LogEntry) (e : LogEntry)
      → AllOf Clean logs
      → Clean e
      → IsPlaced lib Clean logs (merge_backoff_log lib logs e)
  unfolding merge_backoff_log
  merge_backoff_log-IsPlaced logs e h c = elim (Bool-cases (backoff_log_key lib e == "")) [
    | inl plain ↦ rw plain (added-IsPlaced logs e h c)
    | inr keyed ↦
        let p = same_key lib (backoff_log_key lib e) in
        rw keyed (
          merged_at-IsPlaced logs e (take_last p logs) h c keyed refl (take_last-Taken p logs)
            (take_last-BothClean Clean p logs h))
  ]
