-- ===== src/Orchestration/Engine/Steps/Progress.antt =====
-- Each step of a claimed job (backend/app/orchestration/engine.py) brings the job nearer to its end.
use call_audit_supervisor.Common.Float.{FloatOps}
use call_audit_supervisor.Common.{
  ℕ, ◌+◌, ◌-◌, ◌<◌, ◌≡◌, refl, sym, ap, ◌∙◌, ◌⊎◌, inl, inr, Bool, true, false, none, some, [], ◌∷◌,
  All, Rows, if◌then◌else◌, arith,
}
use call_audit_supervisor.Ratelimit.Backoff.{Error, Outcome, value, raised, message}
use call_audit_supervisor.Orchestration.States.{
  JobState, awaiting_transcript, done, failed, assert_transition, can_transition, is_claimable,
  stage,
}
use call_audit_supervisor.Orchestration.Retry.{Decision, retry, dead_letter, decide_failure}
use call_audit_supervisor.Orchestration.Queue
use call_audit_supervisor.Orchestration.Queue.{Job, Jobs, ClaimedJob, has_id, set_job, release}
use call_audit_supervisor.Orchestration.World.{World}
use call_audit_supervisor.Orchestration.Handlers.{StepOutcome}
use call_audit_supervisor.Orchestration.Engine.{
  next_utc_midnight, EngineDeps, apply_outcome, run_handler, finish, publish_applied, process_one,
}
use call_audit_supervisor.Orchestration.Engine.Steps.{
  after_failure, finished, Fits, parks, defers, completes, fits, keeps_jobs, decision,
}

-- How far a job is from its end: the states before it, and the attempts that are left.
abbrev pub measure : Job → ℕ
measure j = stage j.state + (j.max_attempts - j.attempts)

-- The row is still as it was claimed.
abbrev pub IsUnchanged : ClaimedJob → Job → Type 0
IsUnchanged job j =
    (has_id job.id j ≡ false)
    ⊎ ((j.state ≡ job.state) × (j.attempts ≡ job.attempts) × (j.max_attempts ≡ job.max_attempts))

-- One row before and after: another job's is as it was; the job's own is nearer to its end, or it is
-- put off to the next day with its state and attempts kept.
abbrev pub Progress : ClaimedJob → ℕ → Job → Job → Type 0
Progress job now j j' =
    ((has_id job.id j ≡ false) × (j' ≡ j))
    ⊎ ((measure j' < measure j)
        ⊎ ((j'.next_attempt_at ≡ next_utc_midnight now)
            × (j'.state ≡ j.state)
            × (j'.attempts ≡ j.attempts)))

set_job-Progress :
    (now : ℕ) (job : ClaimedJob) (assign : Job → Job) (jobs : Jobs)
    → All (IsUnchanged job) jobs
    → ((j : Job)
        → j.state ≡ job.state
        → j.attempts ≡ job.attempts
        → j.max_attempts ≡ job.max_attempts
        → (measure (assign j) < measure j)
          ⊎ (((assign j).next_attempt_at ≡ next_utc_midnight now)
              × ((assign j).state ≡ j.state)
              × ((assign j).attempts ≡ j.attempts)))
    → Rows (Progress job now) jobs (set_job now job.id assign jobs)
unfolding set_job
set_job-Progress now job assign [] h moves = tt
set_job-Progress now job assign (j ∷ js) h moves =
    (row (has_id job.id j) refl h.0, set_job-Progress now job assign js h.1 moves)
  where
    row :
        (b : Bool)
        → has_id job.id j ≡ b
        → IsUnchanged job j
        → Progress job now j (if b then release now (assign j) else j)
    row false e c = inl (e, refl)
    row true e (inl c) = cc
    row true e (inr (s, a, m)) = inr (moves j s a m)

claimable_stage : (s : JobState) → is_claimable s ≡ true → 0 < stage s
unfolding is_claimable
claimable_stage s h = ground arith

module _ (f : FloatOps) (Rep : Type 0) (deps : EngineDeps f Rep) (job : ClaimedJob) where
  -- A decision on the failure of this job: a retry leaves attempts over.
  abbrev Sound : Decision f → Type 0
  Sound (retry delay n) = (n ≡ job.attempts + 1) × (n < job.max_attempts)
  Sound (dead_letter reason n) = n ≡ job.attempts + 1

  sound : (e : Error f) → Sound (decision f Rep deps job e)
  unfolding decide_failure
  sound e = ground arith

  failure-Progress :
      (e : Error f) (d : Decision f) (jobs : Jobs)
      → Sound d
      → is_claimable job.state ≡ true
      → All (IsUnchanged job) jobs
      → Rows (Progress job deps.now) jobs (after_failure f Rep deps job e d jobs)
  unfolding Queue.schedule_retry Queue.dead_letter
  failure-Progress e (retry delay n) jobs ok c h =
      set_job-Progress deps.now job
        (λ j. record j {
          attempts = n;
          next_attempt_at = deps.now + f.micros delay;
          last_error = some (message f e);
        })
        jobs h (λ j s a m. inl (omega arith))
  failure-Progress e (dead_letter reason n) jobs ok c h =
      set_job-Progress deps.now job
        (λ j. record j { state = failed; attempts = n; last_error = some reason }) jobs h
        (λ j s a m.
          inl (let pos = claimable_stage job.state c in let same = ap stage s in omega arith))

  outcome-Progress :
      (s : JobState) (o : StepOutcome) (w after : World Rep)
      → s ≡ job.state
      → Fits f Rep deps job s o
      → after.db.jobs ≡ w.db.jobs
      → All (IsUnchanged job) w.db.jobs
      → (w' : World Rep) × (publish_applied f Rep deps job (apply_outcome f Rep deps job s o after)
          ≡ some w')
        × Rows (Progress job deps.now) w.db.jobs w'.db.jobs
  unfolding apply_outcome assert_transition can_transition Queue.park Queue.complete Queue.defer
  outcome-Progress _ _ w after s (parks {tid}) same h = (
    _,
    refl,
    rw same (
        set_job-Progress deps.now job
          (λ j. record j {
            state = awaiting_transcript;
            transcript_id = some tid;
            last_error = none;
          })
          w.db.jobs h (λ j e a m. inl (let at = ap stage (e ∙ sym s) in omega arith))),
  )
  outcome-Progress _ _ w after s (defers {reason = reason}) same h = (
    _,
    refl,
    rw same (
        set_job-Progress deps.now job
          (λ j. record j { next_attempt_at = next_utc_midnight deps.now; last_error = some reason })
          w.db.jobs h (λ j e a m. inr (refl, refl, refl))),
  )
  outcome-Progress _ _ w after s completes same h = (
    _,
    refl,
    rw same (
        set_job-Progress deps.now job (λ j. record j { state = done; last_error = none }) w.db.jobs
          h (λ j e a m. inl (let at = ap stage (e ∙ sym s) in omega arith))),
  )

  end-Progress :
      (w : World Rep) (r : Outcome f StepOutcome × World Rep)
      → is_claimable job.state ≡ true
      → ((o : StepOutcome) → r.0 ≡ value o → Fits f Rep deps job job.state o)
      → r.1.db.jobs ≡ w.db.jobs
      → All (IsUnchanged job) w.db.jobs
      → (w' : World Rep) × (publish_applied f Rep deps job (finish f Rep deps job w r) ≡ some w')
        × Rows (Progress job deps.now) w.db.jobs w'.db.jobs
  unfolding finish
  end-Progress w (value o, after) c fit same h =
      outcome-Progress job.state o w after refl (fit o refl) same h
  end-Progress w (raised e, after) c fit same h =
      let (w', done_, failure) = finished f Rep deps job e w (raised e, after) refl in
      (
        w',
        done_,
        rw failure.jobs (failure-Progress e (decision f Rep deps job e) w.db.jobs (sound e) c h),
      )

  -- If the row of a claimed job is still as it was claimed, its step commits and is not in vain: the
  -- measure of the job (the states before its end and the attempts that are left) goes down, or the
  -- job is put off to the next day, in its state and with its attempts.
  pub process_one-Progress :
      (w : World Rep)
      → is_claimable job.state ≡ true
      → All (IsUnchanged job) w.db.jobs
      → (w' : World Rep) × (process_one f Rep deps job w ≡ some w')
        × Rows (Progress job deps.now) w.db.jobs w'.db.jobs
  unfolding process_one
  process_one-Progress w c h =
      end-Progress w (run_handler f Rep deps job job.state w) c
        (λ o. fits f Rep deps job job.state w o c) (keeps_jobs f Rep deps job job.state w c) h
