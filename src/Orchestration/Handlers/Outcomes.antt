-- ===== src/Orchestration/Handlers/Outcomes.antt =====
-- How the handlers of backend/app/orchestration/handlers.py can end.
use call_audit_supervisor.Common.Float.{FloatOps}
use call_audit_supervisor.Common.{ℕ, ◌≡◌, ◌⊎◌, inl, inr, Option, arith, Bool-cases, String}
use call_audit_supervisor.Ratelimit.Backoff.{Outcome, value, raised}
use call_audit_supervisor.Stt.Redaction.{PiiMode, redacts_recording}
use call_audit_supervisor.Stt.{Transcript}
use call_audit_supervisor.Judge.Options.{ProcessingOption, needs_judge}
use call_audit_supervisor.Orchestration.World.{World, Services, Call}
use call_audit_supervisor.Orchestration.Handlers.{
  StepOutcome, park, complete, deferred, JobView, Judge, Step, ◌>>=◌, handle_transcription,
  reserve_and_submit, submit_call, handle_judge, judge_under, judge_and_redact, swap_and_complete,
  pure, redact_if, run_judge, request, resolve_audio, call_option, get_portfolio_pii_mode,
  after_transcript, materialize, judge_call_row,
}

module _ (f : FloatOps) (Rep : Type 0) {A : Type 0} (P : A → Type 0) where
  -- If it returns, the result has the property.
  abbrev Yields : Step f Rep A → Type 0
  Yields m = (w : World Rep) (a : A) → (m w).0 ≡ value a → P a

  yields_on :
      {B : Type 0} (k : B → Step f Rep A) (r : Outcome f B) (v : World Rep) (a : A)
      → ((b : B) → Yields (k b))
      → (elim r as (λ _. Outcome f A × World Rep) [ value b ↦ k b v | raised e ↦ (raised e, v) ]).0
        ≡ value a
      → P a
  yields_on k (value b) v a h eq = h b v a eq
  yields_on k (raised e) v a h eq = cc

  Yields-bind :
      {B : Type 0} (m : Step f Rep B) (k : B → Step f Rep A)
      → ((b : B) → Yields (k b))
      → Yields (◌>>=◌ f Rep m k)
  Yields-bind m k h w a eq = yields_on k (m w).0 (m w).1 a h eq

module _ (f : FloatOps) (Rep : Type 0) (judge : Judge f Rep) (env : Services f)
    (job : JobView) where
  abbrev IsComplete : StepOutcome → Type 0
  IsComplete o = o ≡ complete

  completes : Yields f Rep IsComplete (pure f Rep complete)
  completes w a h = cc

  swaps : (mode : PiiMode) → Yields f Rep IsComplete (swap_and_complete f Rep mode env job)
  swaps mode =
      Yields-bind f Rep IsComplete (redact_if f Rep (redacts_recording mode) env job)
        (λ _. pure f Rep complete) (λ _. completes)

  redacts :
      (mode : PiiMode) (t : Transcript) (call : Option Call) (o : ProcessingOption)
      → Yields f Rep IsComplete (judge_and_redact f Rep mode judge env job t call o)
  unfolding judge_and_redact
  redacts mode t call o w = elim (Bool-cases (needs_judge o)) [
    | inl b ↦ rw b (
        Yields-bind f Rep IsComplete
          (run_judge f Rep judge (request f Rep job call t o (resolve_audio f Rep env job w)))
          (λ _. swap_and_complete f Rep mode env job) (λ _. swaps mode) w)
    | inr b ↦ rw b (swaps mode w)
  ]

  row :
      (mode : PiiMode) (t : Transcript) (call : Option Call)
      → Yields f Rep IsComplete (judge_call_row f Rep mode judge env job t call)
  row mode t call =
      Yields-bind f Rep IsComplete (call_option f Rep call)
        (judge_and_redact f Rep mode judge env job t call) (redacts mode t call)

  under : (mode : PiiMode) → Yields f Rep IsComplete (judge_under f Rep mode judge env job)
  unfolding judge_under
  under mode =
      Yields-bind f Rep IsComplete (materialize f Rep env mode job)
        (after_transcript f Rep mode judge env job) (λ t w. row mode t _ w)

  -- The judging step completes the job or raises.
  pub completes_only :
      (w : World Rep) (o : StepOutcome)
      → (handle_judge f Rep judge env job w).0 ≡ value o
      → o ≡ complete
  unfolding handle_judge
  completes_only w = under (get_portfolio_pii_mode f Rep job.portfolio_id w) w

module _ (f : FloatOps) (Rep : Type 0) (env : Services f) (cap now : ℕ) (job : JobView)
    (w : World Rep) where
  -- The submission step does not complete a job.
  pub never_completes :
      (o : StepOutcome)
      → (handle_transcription f Rep env cap now job w).0 ≡ value o
      → ((tid : String) × (o ≡ park tid)) ⊎ ((reason : String) × (o ≡ deferred reason))
  unfolding handle_transcription reserve_and_submit submit_call
  never_completes o h = ground arith

  pub transcription_keeps_jobs :
      (handle_transcription f Rep env cap now job w).1.db.jobs ≡ w.db.jobs
  unfolding handle_transcription reserve_and_submit submit_call
  transcription_keeps_jobs = ground arith
