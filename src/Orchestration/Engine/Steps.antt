-- ===== src/Orchestration/Engine/Steps.antt =====
-- What one step of a claimed job (`process_one` of backend/app/orchestration/engine.py) does to the
-- database, whatever its handler meets.
pub mod Progress
pub mod Refund
use mathlib.Core.Path.{subst}
use call_audit_supervisor.Common.Float.{FloatOps}
use call_audit_supervisor.Common.{
  ℕ, ◌+◌, ◌<◌, ◌≤◌, ◌≡◌, refl, sym, ap, ◌∙◌, ◌⊎◌, inl, inr, Bool, true, false, none, some, List, [],
  ◌∷◌, String, All, Rows, if◌then◌else◌, arith,
}
use call_audit_supervisor.Ratelimit.Backoff.{Error, Outcome, value, raised, message}
use call_audit_supervisor.Ratelimit.Caps.{micros_per_day, day_of}
use call_audit_supervisor.Orchestration.States.{
  JobState, pending_transcription, awaiting_transcript, pending_judge, done, failed, can_transition,
  assert_transition, is_claimable,
}
use call_audit_supervisor.Orchestration.Retry.{
  Decision, retry, dead_letter, decide_failure, is_dead,
}
use call_audit_supervisor.Orchestration.Queue
use call_audit_supervisor.Orchestration.Queue.{
  Job, Jobs, ClaimedJob, has_id, set_job, release, is_due,
}
use call_audit_supervisor.Orchestration.World.{World, Event}
use call_audit_supervisor.Orchestration.Handlers.{StepOutcome, park, complete, deferred}
use call_audit_supervisor.Orchestration.Handlers.Privacy.{handle_judge-Framed}
use call_audit_supervisor.Orchestration.Handlers.Outcomes.{
  completes_only, never_completes, transcription_keeps_jobs,
}
use call_audit_supervisor.Orchestration.Engine.{
  next_utc_midnight, to_view, EngineDeps, apply_outcome, apply_failure, run_handler, finish,
  publish, publish_applied, record_job_error, rollback, apply_decision, process_one,
}

-- One row before and after the step of a claimed job: another job's row is as it was; the job's own
-- row keeps its id, stays in its state or takes one transition, and its lease is given up.
abbrev pub StepRow : ClaimedJob → Job → Job → Type 0
StepRow job j j' =
    ((has_id job.id j ≡ false) × (j' ≡ j))
    ⊎ ((has_id job.id j ≡ true)
        × (j'.id ≡ j.id)
        × ((j'.state ≡ j.state) ⊎ (can_transition j.state j'.state ≡ true))
        × (j'.locked_by ≡ none)
        × (j'.locked_until ≡ none))

-- The row of the job, if this is it, is still in the state in which it was claimed.
abbrev pub IsCurrent : ClaimedJob → Job → Type 0
IsCurrent job j = (has_id job.id j ≡ false) ⊎ (j.state ≡ job.state)

-- A statement on the job's own row whose state stays or moves along the machine.
set_job_step :
    (now : ℕ) (job : ClaimedJob) (assign : Job → Job) (jobs : Jobs)
    → All (IsCurrent job) jobs
    → ((j : Job) → ((assign j).id ≡ j.id))
    → ((j : Job)
        → j.state ≡ job.state
        → ((assign j).state ≡ j.state) ⊎ (can_transition j.state (assign j).state ≡ true))
    → Rows (StepRow job) jobs (set_job now job.id assign jobs)
unfolding set_job
set_job_step now job assign [] h ids moves = tt
set_job_step now job assign (j ∷ js) h ids moves =
    (row (has_id job.id j) refl h.0, set_job_step now job assign js h.1 ids moves)
  where
    row :
        (b : Bool)
        → has_id job.id j ≡ b
        → IsCurrent job j
        → StepRow job j (if b then release now (assign j) else j)
    row false e c = inl (e, refl)
    row true e (inl c) = cc
    row true e (inr c) = inr (e, ids j, moves j c, refl, refl)

to_failed : (s : JobState) → is_claimable s ≡ true → can_transition s failed ≡ true
unfolding is_claimable can_transition
to_failed pending_transcription h = refl
to_failed awaiting_transcript h = cc
to_failed pending_judge h = refl
to_failed done h = cc
to_failed failed h = cc

abbrev failed_event : ClaimedJob → Bool → List Event → List Event
failed_event job true es =
    record { portfolio_id = job.portfolio_id; call_id = job.call_id; state = failed } ∷ es
failed_event job false es = es

module _ (f : FloatOps) (Rep : Type 0) (deps : EngineDeps f Rep) (job : ClaimedJob) where
  abbrev decision : Error f → Decision f
  decision e = decide_failure f job.attempts job.max_attempts e deps.settings deps.rand

  -- The statement that a failure ends with.
  abbrev pub after_failure : Error f → Decision f → Jobs → Jobs
  after_failure e (retry delay n) jobs =
      Queue.schedule_retry deps.now job.id n (deps.now + f.micros delay) (message f e) jobs
  after_failure e (dead_letter reason n) jobs = Queue.dead_letter deps.now job.id n reason jobs

  after_failure-Rows :
      (e : Error f) (d : Decision f) (jobs : Jobs)
      → is_claimable job.state ≡ true
      → All (IsCurrent job) jobs
      → Rows (StepRow job) jobs (after_failure e d jobs)
  unfolding Queue.schedule_retry Queue.dead_letter
  after_failure-Rows e (retry delay n) jobs c h =
      set_job_step deps.now job
        (λ j. record j {
          attempts = n;
          next_attempt_at = deps.now + f.micros delay;
          last_error = some (message f e);
        })
        jobs h (λ j. refl) (λ j s. inl refl)
  after_failure-Rows e (dead_letter reason n) jobs c h =
      set_job_step deps.now job
        (λ j. record j { state = failed; attempts = n; last_error = some reason }) jobs h
        (λ j. refl) (λ j s. inr (ap (λ t. can_transition t failed) s ∙ to_failed job.state c))

  abbrev step : World Rep → Outcome f StepOutcome × World Rep
  step = run_handler f Rep deps job job.state

  -- The transaction of a failure: everything that the handler did in the database is undone.
  pub record Failure (e : Error f) (d : Decision f) (w after w' : World Rep) : Type 0 where
    pub jobs : w'.db.jobs ≡ after_failure e d w.db.jobs
    pub usage : w'.db.usage ≡ w.db.usage
    pub calls : w'.db.calls ≡ w.db.calls
    pub reports : w'.db.reports ≡ w.db.reports
    pub errors :
        w'.db.job_errors
        ≡ record {
          job_id = job.id;
          call_id = job.call_id;
          stage = job.state;
          attempt = job.attempts + 1;
          fatal = is_dead f d;
          message = message f e;
        }
          ∷ w.db.job_errors
    pub events : w'.db.events ≡ failed_event job (is_dead f d) w.db.events
    pub submissions : w'.submissions ≡ after.submissions
    pub recordings : w'.recordings ≡ after.recordings
    pub transcripts : w'.transcripts ≡ after.transcripts

  decided :
      (e : Error f) (d : Decision f) (w after : World Rep)
      → Failure e d w after (
          publish f Rep deps job (
            apply_decision f Rep deps job e d (
              record_job_error f Rep deps job job.state e
                (is_dead f d)
                (rollback f Rep deps job w after))))
  unfolding apply_decision
  decided e (retry delay n) w after = record {
    jobs = refl;
    usage = refl;
    calls = refl;
    reports = refl;
    errors = refl;
    events = refl;
    submissions = refl;
    recordings = refl;
    transcripts = refl;
  }
  decided e (dead_letter reason n) w after = record {
    jobs = refl;
    usage = refl;
    calls = refl;
    reports = refl;
    errors = refl;
    events = refl;
    submissions = refl;
    recordings = refl;
    transcripts = refl;
  }

  raised_inj : {a b : Error f} → ◌≡◌ {A = Outcome f StepOutcome} (raised a) (raised b) → a ≡ b
  raised_inj h = cc

  finished :
      (e : Error f) (w : World Rep) (r : Outcome f StepOutcome × World Rep)
      → r.0 ≡ raised e
      → (w' : World Rep) × (publish_applied f Rep deps job (finish f Rep deps job w r) ≡ some w')
        × Failure e (decision e) w r.1 w'
  unfolding finish apply_failure
  finished e w (value o, after) h = cc
  finished e w (raised e', after) h = (
    _,
    refl,
    subst
        (λ x. Failure x (decision x) w after (
          publish f Rep deps job
            (apply_failure f Rep deps job job.state e' (rollback f Rep deps job w after))))
        (raised_inj h) (decided e' (decision e') w after),
  )

  -- A step that raises commits all the same, and what it commits is the failure only: the job's
  -- row is scheduled again or failed as `decide_failure` says, one error is recorded, FAILED is
  -- broadcast exactly if the job is given up. What the handler wrote to the database is undone, the
  -- slot of the daily cap included; its requests to the provider, its recordings and its
  -- transcripts stay as they are.
  pub process_one-Failure :
      (w : World Rep) (e : Error f)
      → (run_handler f Rep deps job job.state w).0 ≡ raised e
      → (w' : World Rep) × (process_one f Rep deps job w ≡ some w')
        × Failure e
            (decide_failure f job.attempts job.max_attempts e deps.settings deps.rand)
            w
            (run_handler f Rep deps job job.state w).1
            w'
  unfolding process_one
  process_one-Failure w e h = finished e w (run_handler f Rep deps job job.state w) h

  -- What a handler may return for a job in a state.
  data Fits : JobState → StepOutcome → Type 0 where
    parks : {tid : String} → Fits pending_transcription (park tid)
    defers : {s : JobState} {reason : String} → Fits s (deferred reason)
    completes : Fits pending_judge complete

  returned :
      (s : JobState) (o : StepOutcome) (w after : World Rep)
      → s ≡ job.state
      → Fits s o
      → after.db.jobs ≡ w.db.jobs
      → All (IsCurrent job) w.db.jobs
      → (w' : World Rep) × (publish_applied f Rep deps job (apply_outcome f Rep deps job s o after)
          ≡ some w')
        × Rows (StepRow job) w.db.jobs w'.db.jobs
  unfolding apply_outcome assert_transition can_transition Queue.park Queue.complete Queue.defer
  returned _ _ w after s (parks {tid}) same h = (
    _,
    refl,
    rw same (
        set_job_step deps.now job
          (λ j. record j {
            state = awaiting_transcript;
            transcript_id = some tid;
            last_error = none;
          })
          w.db.jobs h (λ j. refl)
          (λ j e. inr (ap (λ t. can_transition t awaiting_transcript) (e ∙ sym s)))),
  )
  returned _ _ w after s (defers {reason = reason}) same h = (
    _,
    refl,
    rw same (
        set_job_step deps.now job
          (λ j. record j { next_attempt_at = next_utc_midnight deps.now; last_error = some reason })
          w.db.jobs h (λ j. refl) (λ j e. inl refl)),
  )
  returned _ _ w after s completes same h = (
    _,
    refl,
    rw same (
        set_job_step deps.now job (λ j. record j { state = done; last_error = none }) w.db.jobs h
          (λ j. refl) (λ j e. inr (ap (λ t. can_transition t done) (e ∙ sym s)))),
  )

  Fits-transcription :
      (w : World Rep) (o : StepOutcome)
      → (run_handler f Rep deps job pending_transcription w).0 ≡ value o
      → Fits pending_transcription o
  unfolding run_handler
  Fits-transcription w o h =
      elim (never_completes f Rep deps.env deps.daily_cap deps.now (to_view job) w o h) [
        | inl p ↦ subst (Fits pending_transcription) (sym p.1) parks
        | inr p ↦ subst (Fits pending_transcription) (sym p.1) defers
      ]

  Fits-judge :
      (w : World Rep) (o : StepOutcome)
      → (run_handler f Rep deps job pending_judge w).0 ≡ value o
      → Fits pending_judge o
  unfolding run_handler
  Fits-judge w o h =
      subst (Fits pending_judge)
        (sym (completes_only f Rep deps.judge deps.env (to_view job) w o h)) completes

  fits :
      (s : JobState) (w : World Rep) (o : StepOutcome)
      → is_claimable s ≡ true
      → (run_handler f Rep deps job s w).0 ≡ value o
      → Fits s o
  unfolding is_claimable
  fits pending_transcription w o c h = Fits-transcription w o h
  fits pending_judge w o c h = Fits-judge w o h
  fits awaiting_transcript w o c h = cc
  fits done w o c h = cc
  fits failed w o c h = cc

  keeps_jobs :
      (s : JobState) (w : World Rep)
      → is_claimable s ≡ true
      → (run_handler f Rep deps job s w).1.db.jobs ≡ w.db.jobs
  unfolding run_handler is_claimable
  keeps_jobs pending_transcription w c =
      transcription_keeps_jobs f Rep deps.env deps.daily_cap deps.now (to_view job) w
  keeps_jobs pending_judge w c =
      (handle_judge-Framed f Rep deps.judge deps.env (to_view job) w).jobs
  keeps_jobs awaiting_transcript w c = cc
  keeps_jobs done w c = cc
  keeps_jobs failed w c = cc

  ends :
      (w : World Rep) (r : Outcome f StepOutcome × World Rep)
      → is_claimable job.state ≡ true
      → ((o : StepOutcome) → r.0 ≡ value o → Fits job.state o)
      → r.1.db.jobs ≡ w.db.jobs
      → All (IsCurrent job) w.db.jobs
      → (w' : World Rep) × (publish_applied f Rep deps job (finish f Rep deps job w r) ≡ some w')
        × Rows (StepRow job) w.db.jobs w'.db.jobs
  unfolding finish
  ends w (value o, after) c fit same h = returned job.state o w after refl (fit o refl) same h
  ends w (raised e, after) c fit same h =
      let (w', done_, failure) = finished e w (raised e, after) refl in
      (w', done_, rw failure.jobs (after_failure-Rows e (decision e) w.db.jobs c h))

  -- If the row of a claimed job is still in the state in which it was claimed, its step commits,
  -- whatever its handler meets: the row stays in its state or takes one transition of the state
  -- machine, and gives its lease up; the rows of other jobs are as they were.
  pub process_one_moves :
      (w : World Rep)
      → is_claimable job.state ≡ true
      → All (IsCurrent job) w.db.jobs
      → (w' : World Rep) × (process_one f Rep deps job w ≡ some w')
        × Rows (StepRow job) w.db.jobs w'.db.jobs
  unfolding process_one
  process_one_moves w c h =
      ends w (run_handler f Rep deps job job.state w) c (λ o. fits job.state w o c)
        (keeps_jobs job.state w c) h

-- The time to which a step over the daily cap puts its job off: it is later, and the first instant
-- of the next day, when the count starts anew; so it is a day away at most.
pub next_utc_midnight_lem :
    (now : ℕ)
    → (now < next_utc_midnight now)
      × (day_of (next_utc_midnight now) ≡ day_of now + 1)
      × (next_utc_midnight now ≤ now + micros_per_day)
unfolding next_utc_midnight
next_utc_midnight_lem now = (omega arith, omega arith, omega arith)
