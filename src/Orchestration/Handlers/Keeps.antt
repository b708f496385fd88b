-- ===== src/Orchestration/Handlers/Keeps.antt =====
-- Rules for the steps of a handler: a relation between the worlds before and after, and what a
-- step that raises has left alone.
use call_audit_supervisor.Common.Float.{FloatOps}
use call_audit_supervisor.Common.{◌≡◌, Bool, true, false, Option, none, some, if◌then◌else◌}
use call_audit_supervisor.Ratelimit.Backoff.{Error, Outcome, value, raised}
use call_audit_supervisor.Orchestration.World.{World}
use call_audit_supervisor.Orchestration.Handlers.{Step, ◌>>=◌}

module _ (f : FloatOps) (Rep : Type 0) (R : World Rep → World Rep → Type 0) where
  abbrev pub Keeps : {A : Type 0} → Step f Rep A → Type 0
  Keeps m = (w : World Rep) → R w (m w).1

  -- If it raises, the relation holds.
  abbrev pub Fails : {A : Type 0} → Step f Rep A → Type 0
  Fails m = (w : World Rep) (e : Error f) → (m w).0 ≡ raised e → R w (m w).1

  module _ (trans : (u v w : World Rep) → R u v → R v w → R u w) where
    continue :
        {A B : Type 0} (k : A → Step f Rep B) (r : Outcome f A) (u v : World Rep)
        → R u v
        → ((a : A) → Keeps (k a))
        → R u
            (elim r as (λ _. Outcome f B × World Rep) [
              | value a ↦ k a v
              | raised e ↦ (raised e, v)
            ]).1
    continue k (value a) u v h g = trans u v (k a v).1 h (g a v)
    continue k (raised e) u v h g = h

    pub Keeps-bind :
        {A B : Type 0} (m : Step f Rep A) (k : A → Step f Rep B)
        → Keeps m
        → ((a : A) → Keeps (k a))
        → Keeps (◌>>=◌ f Rep m k)
    Keeps-bind m k h g w = continue k (m w).0 w (m w).1 (h w) g

    fails_on :
        {A B : Type 0} (k : A → Step f Rep B) (r : Outcome f A) (u v : World Rep) (e : Error f)
        → R u v
        → ((a : A) → Fails (k a))
        → (elim r as (λ _. Outcome f B × World Rep) [
          | value a ↦ k a v
          | raised e ↦ (raised e, v)
        ]).0
          ≡ raised e
        → R u
            (elim r as (λ _. Outcome f B × World Rep) [
              | value a ↦ k a v
              | raised e ↦ (raised e, v)
            ]).1
    fails_on k (value a) u v e h g eq = trans u v (k a v).1 h (g a v e eq)
    fails_on k (raised e') u v e h g eq = h

    pub Fails-bind :
        {A B : Type 0} (m : Step f Rep A) (k : A → Step f Rep B)
        → Keeps m
        → ((a : A) → Fails (k a))
        → Fails (◌>>=◌ f Rep m k)
    Fails-bind m k h g w e eq = fails_on k (m w).0 w (m w).1 e (h w) g eq

  pub Keeps-if :
      {A : Type 0} (b : Bool) (m n : Step f Rep A) → Keeps m → Keeps n → Keeps (if b then m else n)
  Keeps-if true m n h k = h
  Keeps-if false m n h k = k

  pub Fails-if :
      {A : Type 0} (b : Bool) (m n : Step f Rep A) → Fails m → Fails n → Fails (if b then m else n)
  Fails-if true m n h k = h
  Fails-if false m n h k = k

  pub Keeps-option :
      {A B : Type 0} (o : Option A) (n : Step f Rep B) (k : A → Step f Rep B)
      → Keeps n
      → ((a : A) → Keeps (k a))
      → Keeps (elim o as (λ _. Step f Rep B) [ none ↦ n | some a ↦ k a ])
  Keeps-option none n k h g = h
  Keeps-option (some a) n k h g = g a
