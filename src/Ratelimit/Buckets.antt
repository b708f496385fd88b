-- ===== src/Ratelimit/Buckets.antt =====
-- backend/app/ratelimit/buckets.py: a token bucket and the limiter of a provider. The clock is the
-- list of the readings that `time_fn` gives; a sleep is what passes between two readings.
use call_audit_supervisor.Common.Float.{
  FloatOps, FloatLaws, lt, min, zero, ◌≤F◌, min_le_left, le-min, min_le_right, sub_nonneg,
  add_nonneg, mul_nonneg,
}
use call_audit_supervisor.Common.{
  ◌≡◌, refl, inl, inr, Bool, true, false, Option, none, some, List, [], ◌∷◌, if◌then◌else◌,
  Bool-cases, arith,
}

module _ (f : FloatOps) where
  open f use {F, of_nat, add, sub, mul, div, le}

  -- The fields of `TokenBucket`.
  pub record TokenBucket : Type 0 where
    pub rate : F
    pub capacity : F
    pub tokens : F
    pub last : F

  -- `__init__`, at a reading of the clock; `none` is the `ValueError`.
  unfoldable pub new : F → F → F → Option TokenBucket
  new rate_per_sec capacity now =
      if le rate_per_sec (zero f)
      then none
      else some (record { rate = rate_per_sec; capacity = capacity; tokens = capacity; last = now })

  unfoldable pub refill : F → TokenBucket → TokenBucket
  refill now b =
      if lt f (zero f) (sub now b.last)
      then record b {
        tokens = min f b.capacity (add b.tokens (mul (sub now b.last) b.rate));
        last = now;
      }
      else b

  abbrev pub take_tokens : F → TokenBucket → TokenBucket
  take_tokens amount b = record b { tokens = sub b.tokens amount }

  -- The loop of `acquire`, with the amount already clamped: whether it got through with these
  -- readings of the clock, the bucket after it, and how long it asked to sleep.
  abbrev wait_for : F → TokenBucket → F
  wait_for amount b = div (sub amount b.tokens) b.rate

  unfoldable pub acquire_loop : F → List F → TokenBucket → Bool × TokenBucket × List F
  acquire_loop amount [] b = (false, b, [])
  acquire_loop amount (now ∷ clock) b =
      let full = refill now b in
      let rest = acquire_loop amount clock full in
      if le amount full.tokens
      then (true, take_tokens amount full, [])
      else (rest.0, rest.1, wait_for amount full ∷ rest.2)

  unfoldable pub acquire : F → List F → TokenBucket → Bool × TokenBucket × List F
  unfolding acquire_loop
  acquire amount clock b = acquire_loop (min f amount b.capacity) clock b

  unfoldable pub available : F → TokenBucket → F × TokenBucket
  unfolding refill
  available now b = ((refill now b).tokens, refill now b)

  -- What a bucket always is: not overdrawn, not over its capacity, and its rate is positive.
  pub record IsBucket (b : TokenBucket) : Type 0 where
    pub not_overdrawn : ◌≤F◌ f (zero f) b.tokens
    pub not_over : ◌≤F◌ f b.tokens b.capacity
    pub has_capacity : ◌≤F◌ f (zero f) b.capacity
    pub has_rate : le b.rate (zero f) ≡ false

  module _ (laws : FloatLaws f) where
    below : (a b : F) → lt f a b ≡ true → ◌≤F◌ f a b
    below a b h = laws.le_total b a (ground arith)

    refill_by :
        (now : F) (b : TokenBucket) (t : Bool)
        → lt f (zero f) (sub now b.last) ≡ t
        → IsBucket b
        → IsBucket (
            if t
            then record b {
              tokens = min f b.capacity (add b.tokens (mul (sub now b.last) b.rate));
              last = now;
            }
            else b)
    refill_by now b true e h = record {
      not_overdrawn =
          le-min f laws b.capacity (add b.tokens (mul (sub now b.last) b.rate)) (zero f)
            h.has_capacity
            (add_nonneg f laws b.tokens (mul (sub now b.last) b.rate) h.not_overdrawn (
              mul_nonneg f laws (sub now b.last) b.rate (below (zero f) (sub now b.last) e)
                (laws.le_total b.rate (zero f) h.has_rate)));
      not_over = min_le_left f laws b.capacity (add b.tokens (mul (sub now b.last) b.rate));
      has_capacity = h.has_capacity;
      has_rate = h.has_rate;
    }
    refill_by now b false e h = h

    -- Filling up keeps a bucket between empty and full, whatever the clock reads, also if it
    -- reads an earlier time.
    pub refill-IsBucket : (now : F) (b : TokenBucket) → IsBucket b → IsBucket (refill now b)
    unfolding refill
    refill-IsBucket now b h = refill_by now b (lt f (zero f) (sub now b.last)) refl h

    taken :
        (amount : F) (b : TokenBucket)
        → ◌≤F◌ f (zero f) amount
        → ◌≤F◌ f amount b.tokens
        → IsBucket b
        → IsBucket (take_tokens amount b)
    taken amount b pos enough h = record {
      not_overdrawn = sub_nonneg f laws amount b.tokens enough;
      not_over =
          laws.le_trans (sub b.tokens amount) b.tokens b.capacity (laws.sub_le b.tokens amount pos)
            h.not_over;
      has_capacity = h.has_capacity;
      has_rate = h.has_rate;
    }

    loop-IsBucket :
        (amount : F) (clock : List F) (b : TokenBucket)
        → ◌≤F◌ f (zero f) amount
        → IsBucket b
        → IsBucket (acquire_loop amount clock b).1
    unfolding acquire_loop
    loop-IsBucket amount [] b pos h = h
    loop-IsBucket amount (now ∷ clock) b pos h =
        elim (Bool-cases (le amount (refill now b).tokens)) [
          | inl e ↦ rw e (taken amount (refill now b) pos e (refill-IsBucket now b h))
          | inr e ↦ rw e (loop-IsBucket amount clock (refill now b) pos (refill-IsBucket now b h))
        ]

    -- For an amount that is not negative a well-formed bucket is well formed after `acquire`, finished
    -- or still waiting: it is never overdrawn and never over its capacity.
    pub acquire-IsBucket :
        (amount : F) (clock : List F) (b : TokenBucket)
        → ◌≤F◌ f (zero f) amount
        → IsBucket b
        → IsBucket (acquire amount clock b).1
    unfolding acquire
    acquire-IsBucket amount clock b pos h =
        loop-IsBucket (min f amount b.capacity) clock b
          (le-min f laws amount b.capacity (zero f) pos h.has_capacity) h

    -- A request that is larger than the bucket still gets through: whatever the amount, one reading
    -- of the clock by which the bucket has filled up is enough, and no sleep is asked for.
    pub acquire_full :
        (amount now : F) (clock : List F) (b : TokenBucket)
        → lt f (zero f) (sub now b.last) ≡ true
        → ◌≤F◌ f b.capacity (add b.tokens (mul (sub now b.last) b.rate))
        → let r = acquire amount (now ∷ clock) b in (r.0 ≡ true) × (r.2 ≡ [])
    unfolding acquire acquire_loop refill
    acquire_full amount now clock b later full = rw later (
        rw
          (le-min f laws b.capacity (add b.tokens (mul (sub now b.last) b.rate))
            (min f amount b.capacity) (min_le_right f laws amount b.capacity)
            (laws.le_trans (min f amount b.capacity) b.capacity
              (add b.tokens (mul (sub now b.last) b.rate)) (min_le_right f laws amount b.capacity)
              full))
          (refl, refl))
