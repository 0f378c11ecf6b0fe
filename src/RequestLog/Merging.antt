-- ===== src/RequestLog/Merging.antt =====
-- What a merge of backoff entries keeps.
use cline_pass_bridge.Base.{
  ℕ, ◌+◌, ◌≡◌, refl, inl, inr, Bool, true, Option, none, some, List, [], ◌∷◌, ◌++◌, arith, ◌==◌,
  string_eq, if◌then◌else◌, Bool-cases, ltb,
}
use cline_pass_bridge.Json.{null}
use cline_pass_bridge.RequestLog.{
  LogEntry, LogLib, log_request_count, backoff_log_key, take_last, merge_into, same_key, merged_at,
  merge_backoff_log,
}

-- The number of requests that the entries stand for.
abbrev pub total_requests : List LogEntry → ℕ
total_requests [] = 0
total_requests (e ∷ logs) = log_request_count e + total_requests logs

-- What take_last found, if it did: an entry that passes, and the others.
abbrev pub Taken : (LogEntry → Bool) → List LogEntry → Option (LogEntry × List LogEntry) → Type 0
Taken p logs none = Unit
Taken p logs (some found) =
    (p found.0 ≡ true) × (log_request_count found.0 + total_requests found.1 ≡ total_requests logs)

Taken-taken :
    (p : LogEntry → Bool) (x : LogEntry) (xs : List LogEntry)
    (o : Option (LogEntry × List LogEntry))
    → Taken p xs o
    → Taken p (x ∷ xs) (elim o [
      | some found ↦ some (found.0, x ∷ found.1)
      | none ↦ (if p x then some (x, xs) else none)
    ])
Taken-taken p x xs (some found) h = (h.0, omega (arith, h))
Taken-taken p x xs none h = elim (Bool-cases (p x)) [
  | inl passes ↦ rw passes (passes, refl)
  | inr fails ↦ rw fails tt
]

pub take_last-Taken : (p : LogEntry → Bool) (logs : List LogEntry) → Taken p logs (take_last p logs)
unfolding take_last
take_last-Taken p [] = tt
take_last-Taken p (x ∷ xs) = Taken-taken p x xs (take_last p xs) (take_last-Taken p xs)

total_requests-append :
    (a b : List LogEntry) → total_requests (a ++ b) ≡ total_requests a + total_requests b
total_requests-append [] b = omega arith
total_requests-append (e ∷ a) b = let rest = total_requests-append a b in omega (arith, rest)

count-positive : (e : LogEntry) → ltb 0 (log_request_count e) ≡ true
unfolding log_request_count
count-positive e = ground arith

merged-count :
    (old e : LogEntry)
    → log_request_count (merge_into old e) ≡ log_request_count old + log_request_count e
unfolding merge_into log_request_count
merged-count old e = ground arith

single-count :
    (e : LogEntry)
    → log_request_count (record e { request_count = log_request_count e; attempts = null })
      ≡ log_request_count e
unfolding log_request_count
single-count e = ground arith

merged_at-total :
    (p : LogEntry → Bool) (logs : List LogEntry) (e : LogEntry)
    (o : Option (LogEntry × List LogEntry))
    → Taken p logs o
    → total_requests (merged_at logs e o).0 ≡ total_requests logs + log_request_count e
merged_at-total p logs e none h =
    let n =
      total_requests-append logs
        (record e { request_count = log_request_count e; attempts = null } ∷ []) in
    let c = single-count e in omega (arith, n, c)
merged_at-total p logs e (some found) h =
    let n = total_requests-append found.1 (merge_into found.0 e ∷ []) in
    let c = merged-count found.0 e in omega (arith, n, c, h)

-- The entries stand for one request more for each that the new entry stands for, whether it is merged
-- into an earlier entry or not.
pub merge_backoff_log-total :
    (lib : LogLib) (logs : List LogEntry) (e : LogEntry)
    → total_requests (merge_backoff_log lib logs e).0 ≡ total_requests logs + log_request_count e
unfolding merge_backoff_log
merge_backoff_log-total lib logs e = elim (Bool-cases (backoff_log_key lib e == "")) [
  | inl plain ↦ rw plain (let n = total_requests-append logs (e ∷ []) in omega (arith, n))
  | inr keyed ↦ rw keyed (
      merged_at-total (same_key lib (backoff_log_key lib e)) logs e
        (take_last (same_key lib (backoff_log_key lib e)) logs)
        (take_last-Taken (same_key lib (backoff_log_key lib e)) logs))
]
