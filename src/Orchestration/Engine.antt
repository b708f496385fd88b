-- ===== src/Orchestration/Engine.antt =====
-- backend/app/orchestration/engine.py: one step of a claimed job, end to end.
pub mod Steps
use call_audit_supervisor.Common.Float.{FloatOps}
use call_audit_supervisor.Common.{
  ℕ, ◌+◌, ◌*◌, ◌/◌, Bool, true, false, Option, none, some, List, [], ◌∷◌, String,
}
use call_audit_supervisor.Ratelimit.Backoff.{Error, fatal, other, message, Outcome, value, raised}
use call_audit_supervisor.Ratelimit.Caps.{micros_per_day}
use call_audit_supervisor.Orchestration.States.{
  JobState, pending_transcription, awaiting_transcript, pending_judge, done, failed,
  assert_transition,
}
use call_audit_supervisor.Orchestration.Retry.{
  Decision, retry, dead_letter, RetrySettings, decide_failure, is_dead,
}
use call_audit_supervisor.Orchestration.Queue
use call_audit_supervisor.Orchestration.Queue.{Jobs, ClaimedJob}
use call_audit_supervisor.Orchestration.World.{Db, World, JobError, Event, Services}
use call_audit_supervisor.Orchestration.Handlers.{
  StepOutcome, park, complete, deferred, JobView, Step, Judge, handle_transcription, handle_judge,
}

-- The first instant of the next day, in UTC.
unfoldable pub next_utc_midnight : ℕ → ℕ
next_utc_midnight now = (now / micros_per_day + 1) * micros_per_day

abbrev pub to_view : ClaimedJob → JobView
to_view job = record {
  id = job.id;
  call_id = job.call_id;
  portfolio_id = job.portfolio_id;
  transcript_id = job.transcript_id;
  audio_uri = job.audio_uri;
  transcript_uri = job.transcript_uri;
}

module _ (f : FloatOps) (Rep : Type 0) where
  -- What the engine is built with: `EngineDeps`, and what this step meets from outside: the time
  -- of the transaction, the answers of the services, and a random number.
  pub record EngineDeps : Type 0 where
    pub settings : RetrySettings f
    pub daily_cap : ℕ
    pub judge : Judge f Rep
    pub now : ℕ
    pub env : Services f
    pub rand : f.F

  module _ (deps : EngineDeps) (job : ClaimedJob) where
    abbrev pub with_jobs : (Jobs → Jobs) → World Rep → World Rep
    with_jobs g w = record w { db = record w.db { jobs = g w.db.jobs } }

    -- What is left of a step: the world, and the state to broadcast; `none` is an exception that
    -- leaves `process_one`.
    abbrev pub Applied : Type 0
    Applied = Option (Option JobState × World Rep)

    abbrev checked : JobState → JobState → Applied → Applied
    checked state target done_ = elim (assert_transition state target) [
      | none ↦ none
      | some u ↦ done_
    ]

    unfoldable pub apply_outcome : JobState → StepOutcome → World Rep → Applied
    apply_outcome state (park tid) w =
        checked state awaiting_transcript
          (some (some awaiting_transcript, with_jobs (Queue.park deps.now job.id tid) w))
    apply_outcome state complete w =
        checked state done (some (some done, with_jobs (Queue.complete deps.now job.id) w))
    apply_outcome state (deferred reason) w =
        some (none, with_jobs (Queue.defer deps.now job.id (next_utc_midnight deps.now) reason) w)

    -- `_record_job_error`
    abbrev record_job_error : JobState → Error f → Bool → World Rep → World Rep
    record_job_error state e fatal' w = record w {
      db = record w.db {
        job_errors =
            record {
              job_id = job.id;
              call_id = job.call_id;
              stage = state;
              attempt = job.attempts + 1;
              fatal = fatal';
              message = message f e;
            }
            ∷ w.db.job_errors;
      };
    }

    apply_decision : Error f → Decision f → World Rep → Option JobState × World Rep
    apply_decision e (retry delay attempts) w = (
      none,
      with_jobs
          (Queue.schedule_retry deps.now job.id attempts (deps.now + f.micros delay) (message f e))
          w,
    )
    apply_decision e (dead_letter reason attempts) w =
        (some failed, with_jobs (Queue.dead_letter deps.now job.id attempts reason) w)

    unfoldable pub apply_failure : JobState → Error f → World Rep → Option JobState × World Rep
    unfolding apply_decision
    apply_failure state e w =
        let d = decide_failure f job.attempts job.max_attempts e deps.settings deps.rand in
        apply_decision e d (record_job_error state e (is_dead f d) w)

    unhandled : Step f Rep StepOutcome
    unhandled w = (raised (fatal "unhandled state"), w)

    -- The dispatch by state.
    unfoldable pub run_handler : JobState → Step f Rep StepOutcome
    unfolding unhandled
    run_handler pending_transcription =
        handle_transcription f Rep deps.env deps.daily_cap deps.now (to_view job)
    run_handler pending_judge = handle_judge f Rep deps.judge deps.env (to_view job)
    run_handler _ = unhandled

    -- `session.rollback()`: the database as it was; what left the process stays.
    abbrev pub rollback : World Rep → World Rep → World Rep
    rollback before after = record after { db = before.db }

    finish : World Rep → Outcome f StepOutcome × World Rep → Applied
    finish before (value o, after) = apply_outcome job.state o after
    finish before (raised e, after) = some (apply_failure job.state e (rollback before after))

    -- `notifier.publish`, inside the transaction
    abbrev publish : Option JobState × World Rep → World Rep
    publish (none, w) = w
    publish (some s, w) = record w {
      db = record w.db {
        events =
            record { portfolio_id = job.portfolio_id; call_id = job.call_id; state = s }
            ∷ w.db.events;
      };
    }

    abbrev publish_applied : Applied → Option (World Rep)
    publish_applied none = none
    publish_applied (some r) = some (publish r)

    unfoldable pub process_one : World Rep → Option (World Rep)
    unfolding finish
    process_one w = publish_applied (finish w (run_handler job.state w))
