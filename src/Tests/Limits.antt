-- ===== src/Tests/Limits.antt =====
-- Runs of the backoff, the daily cap and the token bucket.
use call_audit_supervisor.Common.{
  ℕ, zero, suc, ◌+◌, ◌≤◌, ◌≡◌, refl, some, [], ◌∷◌, String, min, arith,
}
use call_audit_supervisor.Ratelimit.Backoff.{
  retryable, Outcome, value, raised, RetryConfig, Trace, retry_async, IsRetried, retry_async_lem,
}
use call_audit_supervisor.Ratelimit.Caps.{
  postgres_store, postgres_try_increment, memory_try_increment,
}
use call_audit_supervisor.Ratelimit.Caps.Counter.{count, stores_agree, postgres_store-IsCounter}
use call_audit_supervisor.Ratelimit.Caps.Reserve.{reserve_all, asked, reserve_all_exact}
use call_audit_supervisor.Ratelimit.Buckets.{TokenBucket, IsBucket, acquire, acquire-IsBucket}
use call_audit_supervisor.Tests.Floats.{whole, whole_laws}
use call_audit_supervisor.Tests.Samples.{usage}

abbrev config : RetryConfig whole
config = record { max_attempts = 3; base = 2; cap = 60; jitter_ratio = 0 }

-- Two failures, then an answer.
abbrev flaky : ℕ → Outcome whole String
flaky zero = raised (retryable "timeout")
flaky (suc zero) = raised (retryable "timeout")
flaky _ = value "done"

retry_async_lem_example :
    (t : Trace whole String) × (retry_async whole config (λ k. 0) flaky ≡ some t)
    × IsRetried whole config (λ k. 0) flaky 0 t
retry_async_lem_example = retry_async_lem whole config (λ k. 0) flaky

stores_agree_example : postgres_try_increment 1 0 5 usage ≡ memory_try_increment 1 0 5 usage
stores_agree_example = stores_agree 1 0 5 usage

four_used : count usage 1 0 ≤ 5
four_used = omega arith

reserve_all_exact_example :
    count
      (reserve_all postgres_store count postgres_store-IsCounter 5
        ((7, 1) ∷ (8, 2) ∷ (9, 1) ∷ [])
        usage)
      1
      0
    ≡ min 5 (
        count usage 1 0
        + asked postgres_store count postgres_store-IsCounter 5 1 0 ((7, 1) ∷ (8, 2) ∷ (9, 1) ∷ []))
reserve_all_exact_example =
    reserve_all_exact postgres_store count postgres_store-IsCounter 5
      ((7, 1) ∷ (8, 2) ∷ (9, 1) ∷ []) usage 1 0 four_used

abbrev bucket : TokenBucket whole
bucket = record { rate = 2; capacity = 10; tokens = 3; last = 100 }

bucket-IsBucket : IsBucket whole bucket
bucket-IsBucket = record {
  not_overdrawn = refl;
  not_over = refl;
  has_capacity = refl;
  has_rate = refl;
}

acquire-IsBucket_example : IsBucket whole (acquire whole 7 (101 ∷ 102 ∷ 103 ∷ []) bucket).1
acquire-IsBucket_example =
    acquire-IsBucket whole whole_laws 7 (101 ∷ 102 ∷ 103 ∷ []) bucket refl bucket-IsBucket
