-- ===== src/Ratelimit/Backoff.antt =====
-- backend/app/ratelimit/backoff.py: the error classes, the backoff and the retry loop of a call.
pub mod Bounds
use native.Mathlib.Decide.{ℕ_discrete}
use call_audit_supervisor.Common.Float
use call_audit_supervisor.Common.Float.{FloatOps, ◌≤F◌}
use call_audit_supervisor.Common.{
  ℕ, zero, suc, ◌+◌, ◌-◌, ◌≤◌, ◌<◌, ◌≡◌, refl, Bool, true, false, ◌&&◌, Option, none, some, List,
  [], ◌∷◌, length, String, ap, ◌∙◌, ◌⊎◌, inl, inr, Bool-cases, ◌+++◌, ltb, leb, ◌==◌, if◌then◌else◌,
  decimal, arith,
}

module _ (f : FloatOps) where
  open f use {F, of_nat, pow2, add, sub, mul}

  -- The exception classes, each with its text. `RateLimitError` is a `RetryableError`; `other` is
  -- any exception outside this family.
  pub data Error : Type 0 where
    retryable : String → Error
    rate_limit : String → Option F → Error
    fatal : String → Error
    other : String → Error

  -- `str(exc)`
  abbrev pub message : Error → String
  message (retryable m) = m
  message (rate_limit m retry_after) = m
  message (fatal m) = m
  message (other m) = m

  -- Returns (`none`), or the exception that is raised.
  unfoldable pub classify_http_status : ℕ → Option F → Option Error
  unfolding decimal
  classify_http_status status retry_after =
      if leb 200 status && ltb status 300
      then none
      else if status == 429
      then some (rate_limit "rate limited (429)" retry_after)
      else if leb 500 status && ltb status 600
      then some (retryable ("server error (" +++ decimal status +++ ")"))
      else some (fatal ("client error (" +++ decimal status +++ ")"))

  -- `rand` is the number that the generator gives.
  unfoldable pub compute_backoff : ℕ → F → F → F → F → F
  compute_backoff attempt base cap jitter_ratio rand =
      let attempt' = if ltb attempt 1 then 1 else attempt in
      let raw = Float.min f cap (mul base (pow2 (attempt' - 1))) in
      let jitter = mul (mul raw jitter_ratio) (sub (mul (of_nat 2) rand) (of_nat 1)) in
      Float.max f (of_nat 0) (add raw jitter)

  -- How a call of `fn` ends.
  pub data Outcome (A : Type 0) : Type 0 where
    value : A → Outcome A
    raised : Error → Outcome A

  -- The backoff settings of a caller.
  pub record RetryConfig : Type 0 where
    pub max_attempts : ℕ
    pub base : F
    pub cap : F
    pub jitter_ratio : F

  -- The wait before the next call: the server's, if it names one.
  abbrev pub wait_of : RetryConfig → ℕ → F → Option F → F
  wait_of cfg attempt rand (some wait) = wait
  wait_of cfg attempt rand none = compute_backoff attempt cfg.base cfg.cap cfg.jitter_ratio rand

  -- What the loop leaves: the outcome and the waits that it slept, in order.
  pub record Trace (A : Type 0) : Type 0 where
    pub outcome : Outcome A
    pub waits : List F

  abbrev slept : (A : Type 0) → F → Option (Trace A) → Option (Trace A)
  slept A w none = none
  slept A w (some t) = some (record { outcome = t.outcome; waits = w ∷ t.waits })

  module _ {A : Type 0} (cfg : RetryConfig) (rand : ℕ → F) where
    -- One turn of the `while True` after the call, `rest` being the later turns.
    abbrev turn : Outcome A → ℕ → Option (Trace A) → Option (Trace A)
    turn (raised (rate_limit m retry_after)) attempt rest =
        if leb cfg.max_attempts (attempt + 1)
        then some (record { outcome = raised (rate_limit m retry_after); waits = [] })
        else slept A (wait_of cfg (attempt + 1) (rand (attempt + 1)) retry_after) rest
    turn (raised (retryable m)) attempt rest =
        if leb cfg.max_attempts (attempt + 1)
        then some (record { outcome = raised (retryable m); waits = [] })
        else slept A (wait_of cfg (attempt + 1) (rand (attempt + 1)) none) rest
    turn o attempt rest = some (record { outcome = o; waits = [] })

    -- `fn attempt` is how the call after `attempt` failures ends. `none`: the fuel ran out.
    retry_from : (ℕ → Outcome A) → ℕ → ℕ → Option (Trace A)
    retry_from fn zero attempt = none
    retry_from fn (suc fuel) attempt =
        let rest = retry_from fn fuel (attempt + 1) in turn (fn attempt) attempt rest

    unfoldable pub retry_async : (ℕ → Outcome A) → Option (Trace A)
    unfolding retry_from
    retry_async fn = retry_from fn (suc cfg.max_attempts) 0

    -- Whether the loop may go on after this outcome.
    abbrev pub is_transient : Outcome A → Bool
    is_transient (raised (rate_limit m r)) = true
    is_transient (raised (retryable m)) = true
    is_transient _ = false

    -- What the loop owes its caller, from the `k`-th failure on.
    pub record IsRetried (fn : ℕ → Outcome A) (k : ℕ) (t : Trace A) : Type 0 where
      pub last : t.outcome ≡ fn (k + length t.waits)
      pub earlier : (i : ℕ) → k ≤ i → i < k + length t.waits → is_transient (fn i) ≡ true
      pub gave_up : (is_transient t.outcome ≡ false) ⊎ (cfg.max_attempts ≤ k + length t.waits + 1)
      pub bounded : k + length t.waits ≤ cfg.max_attempts - 1

    stop :
        (fn : ℕ → Outcome A) (k : ℕ) (o : Outcome A)
        → o ≡ fn k
        → k ≤ cfg.max_attempts - 1
        → (is_transient o ≡ false) ⊎ (cfg.max_attempts ≤ k + 1)
        → IsRetried fn k (record { outcome = o; waits = [] })
    stop fn k o e le h = record {
      last = e ∙ ap fn (omega arith);
      earlier = λ i a b. absurd (omega arith);
      gave_up = ground arith;
      bounded = omega arith;
    }

    go_on :
        (fn : ℕ → Outcome A) (k : ℕ) (w : F) (t : Trace A)
        → is_transient (fn k) ≡ true
        → IsRetried fn (k + 1) t
        → IsRetried fn k (record { outcome = t.outcome; waits = w ∷ t.waits })
    go_on fn k w t h r = record {
      last = r.last ∙ ap fn (omega arith);
      earlier = λ i a b. elim (ℕ_discrete i k) [
        | yes e ↦ rw e h
        | no ne ↦ r.earlier i (omega arith) (omega arith)
      ];
      gave_up = ground (arith, r.gave_up);
      bounded = omega (arith, r.bounded);
    }

    -- One turn keeps what is owed, if the later turns do.
    Later : (ℕ → Outcome A) → ℕ → Option (Trace A) → Type 0
    Later fn k rest = (t : Trace A) × (rest ≡ some t) × IsRetried fn k t

    wait_turn :
        (fn : ℕ → Outcome A) (k : ℕ) (o : Outcome A) (w : F) (rest : Option (Trace A))
        → o ≡ fn k
        → is_transient o ≡ true
        → k ≤ cfg.max_attempts - 1
        → (k + 1 ≤ cfg.max_attempts - 1 → Later fn (k + 1) rest)
        → Later fn k (
            if leb cfg.max_attempts (k + 1)
            then some (record { outcome = o; waits = [] })
            else slept A w rest)
    unfolding Later
    wait_turn fn k o w rest e h le later = elim (Bool-cases (leb cfg.max_attempts (k + 1))) [
      | inl stopped ↦
          rw stopped
            (record { outcome = o; waits = [] }, refl, stop fn k o e le (inr (ground arith)))
      | inr more ↦ rw more (
          let (t, same, r) = later (ground arith) in
          (
            record { outcome = t.outcome; waits = w ∷ t.waits },
            ap (slept A w) same,
            go_on fn k w t (rw (← e) h) r,
          ))
    ]

    turn_lem :
        (fn : ℕ → Outcome A) (k : ℕ) (o : Outcome A) (rest : Option (Trace A))
        → o ≡ fn k
        → k ≤ cfg.max_attempts - 1
        → (k + 1 ≤ cfg.max_attempts - 1 → Later fn (k + 1) rest)
        → Later fn k (turn o k rest)
    unfolding Later
    turn_lem fn k (value a) rest e le later =
        (record { outcome = value a; waits = [] }, refl, stop fn k (value a) e le (inl refl))
    turn_lem fn k (raised (fatal m)) rest e le later =
        (record { outcome = raised (fatal m); waits = [] }, refl, stop fn k _ e le (inl refl))
    turn_lem fn k (raised (other m)) rest e le later =
        (record { outcome = raised (other m); waits = [] }, refl, stop fn k _ e le (inl refl))
    turn_lem fn k (raised (rate_limit m r)) rest e le later =
        wait_turn fn k (raised (rate_limit m r)) (wait_of cfg (k + 1) (rand (k + 1)) r) rest e refl
          le later
    turn_lem fn k (raised (retryable m)) rest e le later =
        wait_turn fn k (raised (retryable m)) (wait_of cfg (k + 1) (rand (k + 1)) none) rest e refl
          le later

    retry_from_lem :
        (fn : ℕ → Outcome A) (fuel k : ℕ)
        → cfg.max_attempts < fuel + k
        → k ≤ cfg.max_attempts - 1
        → Later fn k (retry_from fn fuel k)
    unfolding retry_from
    retry_from_lem fn zero k enough le = absurd (omega arith)
    retry_from_lem fn (suc fuel) k enough le =
        turn_lem fn k (fn k) (retry_from fn fuel (k + 1)) refl le
          (λ more. retry_from_lem fn fuel (k + 1) (omega arith) more)

    -- The retry loop always ends. It returns the outcome of the last call; every earlier call
    -- failed in a way that may be retried; the last did so too only if the attempts are used up;
    -- and there are never more calls than `max_attempts`, or one.
    pub retry_async_lem :
        (fn : ℕ → Outcome A) → (t : Trace A) × (retry_async fn ≡ some t) × IsRetried fn 0 t
    unfolding retry_async Later
    retry_async_lem fn = retry_from_lem fn (suc cfg.max_attempts) 0 (omega arith) (omega arith)
