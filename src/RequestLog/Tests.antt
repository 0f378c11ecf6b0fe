-- ===== src/RequestLog/Tests.antt =====
-- The request log's theorems at requests that a closed window skips, with a journal whose numbers are
-- kept away from the newline.
use cline_pass_bridge.Base.{
  ◌+◌, ◌≡◌, refl, ◌⊎◌, inl, true, false, none, some, List, [], ◌∷◌, arith, string_eq,
}
use cline_pass_bridge.Base.Text.{codes}
use cline_pass_bridge.Faults.{other, ok}
use cline_pass_bridge.RequestLog.{log_request_count, merge_backoff_log}
use cline_pass_bridge.RequestLog.Writing.{complete, Flush, flush_request_logs}
use cline_pass_bridge.RequestLog.Load.{Replay, read_back}
use cline_pass_bridge.RequestLog.Lines.{all_stored}
use cline_pass_bridge.RequestLog.Merging.{total_requests, merge_backoff_log-total}
use cline_pass_bridge.RequestLog.Crash.{
  Op, entered, run, versions, AreAllowed, Among, new_log, new_disk,
}
use cline_pass_bridge.RequestLog.Recovered.{read_back-recovers}
use cline_pass_bridge.RequestLog.Settled.{well, flush_request_logs-recovers}
use cline_pass_bridge.RequestLog.Sample.{
  skipped, IsSkipped, test_log, test_store, test_store-IsFaithful, test_log-KeepsClean,
}

-- Three bytes of the first line are written before the disk fails.
abbrev torn_flush : Flush
torn_flush = record {
  now = 100;
  stopped = false;
  journal_end = record {
    opening = none;
    stat = none;
    truncating = none;
    seeking = none;
    writing = some (3, other (codes "disk full"));
    closing = none;
  };
  compact_end = complete;
}

abbrev two_requests : List Op
two_requests =
    entered 1000 (skipped 0 5 none) torn_flush ∷ entered 1000 (skipped 0 7 none) torn_flush ∷ []

two_requests-AreAllowed : AreAllowed IsSkipped two_requests
two_requests-AreAllowed = (
  (omega arith, omega arith, (0, 5, none, refl)),
  ((omega arith, omega arith, (0, 7, none, refl)), tt),
)

merge_backoff_log-total_example :
    total_requests (merge_backoff_log test_log (skipped 2 5 none ∷ []) (skipped 0 7 none)).0
    ≡ total_requests (skipped 2 5 none ∷ []) + log_request_count (skipped 0 7 none)
merge_backoff_log-total_example =
    merge_backoff_log-total test_log (skipped 2 5 none ∷ []) (skipped 0 7 none)

read_back-recovers_example :
    (r : Replay) × (read_back test_store (run test_store (new_log, new_disk) two_requests).1 ≡ ok r)
    × Among r.logs ([] ∷ versions test_store (new_log, new_disk) two_requests)
    × (((run test_store (new_log, new_disk) two_requests).0.store.needs_snapshot ≡ true)
        ⊎ ((r.logs ≡ all_stored (run test_store (new_log, new_disk) two_requests).0.logs)
            × (r.store.sequence
                ≡ (run test_store (new_log, new_disk) two_requests).0.store.sequence)))
read_back-recovers_example =
    read_back-recovers test_store IsSkipped test_store-IsFaithful test_log-KeepsClean two_requests
      two_requests-AreAllowed

flush_request_logs-recovers_example :
    (r : Replay) × (read_back test_store
        (flush_request_logs test_store
          (run test_store (new_log, new_disk) two_requests).0
          (run test_store (new_log, new_disk) two_requests).1
          (well 200 true)).1
      ≡ ok r)
    × (r.logs ≡ all_stored (run test_store (new_log, new_disk) two_requests).0.logs)
    × (r.store.sequence
        ≡ (flush_request_logs test_store
            (run test_store (new_log, new_disk) two_requests).0
            (run test_store (new_log, new_disk) two_requests).1
            (well 200 true)).0.store.sequence)
flush_request_logs-recovers_example =
    flush_request_logs-recovers test_store IsSkipped test_store-IsFaithful test_log-KeepsClean
      two_requests 200 true two_requests-AreAllowed (inl refl)
