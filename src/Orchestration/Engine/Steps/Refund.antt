-- ===== src/Orchestration/Engine/Steps/Refund.antt =====
-- What a refused submission costs: the handler of backend/app/orchestration/handlers.py inside the
-- transaction of backend/app/orchestration/engine.py.
use call_audit_supervisor.Common.Float.{FloatOps}
use call_audit_supervisor.Common.{
  ℕ, ◌+◌, ◌≡◌, refl, sym, ap, ◌∙◌, inl, inr, true, false, none, some, ◌∷◌, ltb, length, arith,
}
use call_audit_supervisor.Ratelimit.Backoff.{Error, Outcome, raised}
use call_audit_supervisor.Ratelimit.Caps.{day_of}
use call_audit_supervisor.Ratelimit.Caps.Counter.{count}
use call_audit_supervisor.Orchestration.States.{pending_transcription}
use call_audit_supervisor.Orchestration.Queue.{ClaimedJob}
use call_audit_supervisor.Orchestration.World.{World, Submission}
use call_audit_supervisor.Orchestration.Handlers.{
  StepOutcome, given, submission, recording_exists, get_portfolio_pii_mode, handle_transcription,
}
use call_audit_supervisor.Orchestration.Handlers.Transcribing.{capped}
use call_audit_supervisor.Orchestration.Engine.{EngineDeps, to_view, run_handler, process_one}
use call_audit_supervisor.Orchestration.Engine.Steps.{process_one-Failure}

module _ (f : FloatOps) (Rep : Type 0) (deps : EngineDeps f Rep) (job : ClaimedJob)
    (w : World Rep) where
  abbrev pub used : ℕ
  used = count w.db.usage job.portfolio_id (day_of deps.now)

  abbrev pub sent : Submission
  sent = submission f Rep deps.env (to_view job) (get_portfolio_pii_mode f Rep job.portfolio_id w)

  -- The step of the job, by its handler.
  abbrev pub handled : Outcome f StepOutcome × World Rep
  handled = handle_transcription f Rep deps.env deps.daily_cap deps.now (to_view job) w

  step-handled :
      job.state ≡ pending_transcription → run_handler f Rep deps job job.state w ≡ handled
  unfolding run_handler
  step-handled h = rw h refl

  counted :
      (e : Error f)
      → given job.transcript_id ≡ none
      → recording_exists f Rep (to_view job).audio_uri w ≡ true
      → ltb used deps.daily_cap ≡ true
      → deps.env.submit sent ≡ raised e
      → (handled.1.submissions ≡ sent ∷ w.submissions)
        × (count handled.1.db.usage job.portfolio_id (day_of deps.now) ≡ used + 1)
        × (handled.0 ≡ raised e)
  counted e fresh here room refused =
      elim (capped f Rep deps.env deps.daily_cap deps.now (to_view job) w fresh here) [
        | inl (full, x) ↦ absurd (clash (sym room ∙ full))
        | inr (r, s, c, answer) ↦ (s, c, answer ∙ rw refused refl)
      ]
    where
      clash : true ≡ false → ⊥
      clash h = cc

  -- A submission that the provider refuses costs no slot of the daily cap, whatever the error. Take a
  -- claimed job that waits for its transcription, has no transcript id yet, has its recording in the
  -- store and finds the day below the cap. Its handler counts the slot and sends one request; when
  -- that is refused the step commits with the count of every portfolio and day as it was before,
  -- though the request went out, and one error of the job is recorded.
  pub refusal_refunded :
      (e : Error f)
      → job.state ≡ pending_transcription
      → given job.transcript_id ≡ none
      → recording_exists f Rep (to_view job).audio_uri w ≡ true
      → ltb used deps.daily_cap ≡ true
      → deps.env.submit sent ≡ raised e
      → (count handled.1.db.usage job.portfolio_id (day_of deps.now) ≡ used + 1)
        × (w' : World Rep) × (process_one f Rep deps job w ≡ some w')
        × (w'.db.usage ≡ w.db.usage)
        × (w'.submissions ≡ sent ∷ w.submissions)
        × (length w'.db.job_errors ≡ length w.db.job_errors + 1)
  refusal_refunded e at fresh here room refused =
      let (s, c, answer) = counted e fresh here room refused in
      let (w', done, failure) =
        process_one-Failure f Rep deps job w e (ap (λ r. r.0) (step-handled at) ∙ answer) in
      (
        c,
        w',
        done,
        failure.usage,
        failure.submissions ∙ ap (λ r. r.1.submissions) (step-handled at) ∙ s,
        ap (λ xs. length xs) failure.errors ∙ omega arith,
      )
