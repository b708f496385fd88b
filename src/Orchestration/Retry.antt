-- ===== src/Orchestration/Retry.antt =====
-- backend/app/orchestration/retry.py: retry or dead-letter.
use call_audit_supervisor.Common.Float.{FloatOps}
use call_audit_supervisor.Common.{
  ℕ, ◌+◌, ◌≤◌, ◌<◌, ◌≡◌, ◌⊎◌, Bool, true, false, String, ◌+++◌, leb, if◌then◌else◌, decimal, arith,
}
use call_audit_supervisor.Ratelimit.Backoff.{Error, fatal, message, compute_backoff}

module _ (f : FloatOps) where
  open f use {F}

  pub data Decision : Type 0 where
    retry : F → ℕ → Decision
    dead_letter : String → ℕ → Decision

  -- The part of `RateLimitSettings` that the retries read.
  pub record RetrySettings : Type 0 where
    pub retry_base_seconds : F
    pub retry_cap_seconds : F
    pub retry_jitter_ratio : F

  -- `isinstance(error, FatalError)`
  abbrev pub is_fatal : Error f → Bool
  is_fatal (fatal m) = true
  is_fatal _ = false

  unfoldable pub decide_failure : ℕ → ℕ → Error f → RetrySettings → F → Decision
  decide_failure attempts_before max_attempts error cfg rand =
      let attempts = attempts_before + 1 in
      if is_fatal error
      then dead_letter ("fatal: " +++ message f error) attempts
      else if leb max_attempts attempts
      then dead_letter
          ("max attempts (" +++ decimal max_attempts +++ ") exhausted: " +++ message f error)
          attempts
      else retry
          (compute_backoff f attempts cfg.retry_base_seconds cfg.retry_cap_seconds
            cfg.retry_jitter_ratio rand)
          attempts

  abbrev pub attempts_of : Decision → ℕ
  attempts_of (retry d n) = n
  attempts_of (dead_letter r n) = n

  abbrev pub is_dead : Decision → Bool
  is_dead (retry d n) = false
  is_dead (dead_letter r n) = true

  -- Every failure uses one attempt, and the job is given up exactly if the error is fatal or that
  -- was the last attempt; a retry waits for the backoff of that attempt.
  pub decide_failure_lem :
      (before max_attempts : ℕ) (error : Error f) (cfg : RetrySettings) (rand : F)
      → let d = decide_failure before max_attempts error cfg rand in
        (attempts_of d ≡ before + 1)
        × (((is_dead d ≡ true) × ((is_fatal error ≡ true) ⊎ (max_attempts ≤ before + 1)))
            ⊎ ((is_fatal error ≡ false)
                × (before + 1 < max_attempts)
                × (d
                    ≡ retry
                        (compute_backoff f
                          (before + 1)
                          cfg.retry_base_seconds
                          cfg.retry_cap_seconds
                          cfg.retry_jitter_ratio
                          rand)
                        (before + 1))))
  unfolding decide_failure
  decide_failure_lem before max_attempts error cfg rand = ground arith
