-- ===== src/Ratelimit/Backoff/Bounds.antt =====
-- Bounds of `compute_backoff` (backend/app/ratelimit/backoff.py).
use call_audit_supervisor.Common.Float
use call_audit_supervisor.Common.Float.{FloatOps, FloatLaws}
use call_audit_supervisor.Common.{ℕ, ◌-◌, ltb, if◌then◌else◌}

module _ (f : FloatOps) (laws : FloatLaws f) where
  open f use {F, of_nat, pow2, add, sub, mul}

  -- The exponent that the code computes from the attempt.
  abbrev exponent : ℕ → ℕ
  exponent attempt = let a : ℕ = if ltb attempt 1 then 1 else attempt in a - 1

  module _ (attempt : ℕ) (base cap jitter_ratio rand : F) where
    raw : F
    raw = Float.min f cap (mul base (pow2 (exponent attempt)))
