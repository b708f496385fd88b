-- ===== src/Orchestration/Calls/Retention.antt =====
-- What is left of the calls that are deleted for their age (backend/app/retention.py).
use call_audit_supervisor.Common.Float.{FloatOps}
use call_audit_supervisor.Common.{ℕ, ◌≡◌, ◌⊎◌, List, All, length}
use call_audit_supervisor.Ratelimit.Backoff.{Error, Outcome, value, raised}
use call_audit_supervisor.Judge.Tables.{Tables}
use call_audit_supervisor.Orchestration.World.{Call, World}
use call_audit_supervisor.Orchestration.Calls.{Deletes}
use call_audit_supervisor.Orchestration.Calls.Erasure.{ObjectsGone, Erased}

module _ (f : FloatOps) (env : Deletes f) where
  record Purge (cs : List Call) (w : World (Tables f)) (r : Outcome f ℕ × World (Tables f))
      : Type 0 where
    pub keeps : (d : Call) → ObjectsGone f d w → ObjectsGone f d r.1
    pub ends :
        ((r.0 ≡ value (length cs)) × All (λ c. Erased f c r.1) cs)
        ⊎ ((e : Error f) × (r.0 ≡ raised e) × (r.1.db ≡ w.db))
