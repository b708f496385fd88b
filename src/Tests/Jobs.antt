-- ===== src/Tests/Jobs.antt =====
-- Runs of the queue, the handlers and the engine.
use mathlib.Core.Logic.{◌↔◌}
use call_audit_supervisor.Common.{
  ℕ, ◌+◌, ◌≤◌, ◌<◌, ◌≡◌, refl, ◌⊎◌, inl, inr, true, false, ◌&&◌, none, some, List, [], ◌∷◌, String,
  All, Rows, filter, length, min, str_eq, arith,
}
use call_audit_supervisor.Common.Sort.{sort_by, drop}
use call_audit_supervisor.Ratelimit.Backoff.{retryable, fatal, value, raised}
use call_audit_supervisor.Stt.{Transcript}
use call_audit_supervisor.Common.Codes.{upper_char}
use call_audit_supervisor.Judge.Options.{needs_judge}
use call_audit_supervisor.Stt.Redaction.{redacts_transcript, redacts_recording}
use call_audit_supervisor.Orchestration.States.{
  JobState, pending_transcription, pending_judge, done, failed, is_claimable, is_terminal,
  claimable, can_transition, ◌⟶◌, IsUndrawn, ◌⟶*◌, stage, machine_lem,
}
use call_audit_supervisor.Orchestration.Queue.{
  Jobs, ClaimedJob, find_overdue_awaiting, claimed_rows, claim_update, is_claimed, is_due,
  is_overdue,
}
use call_audit_supervisor.Orchestration.Queue.Claiming.{
  Takeable, claimed_rows_lem, claims_exclusive,
}
use call_audit_supervisor.Orchestration.World.{World, stored_transcript}
use call_audit_supervisor.Orchestration.Handlers.{
  handle_judge, handle_transcription, get_portfolio_pii_mode, recording_exists, given,
}
use call_audit_supervisor.Orchestration.Handlers.Transcribing.{missing_recording}
use call_audit_supervisor.Orchestration.Handlers.Privacy.{
  only_redacted_stored, failure_keeps_recordings, Framed, handle_judge-Framed,
}
use call_audit_supervisor.Orchestration.Engine.{EngineDeps, to_view, process_one, run_handler}
use call_audit_supervisor.Orchestration.Engine.Steps.Refund.{used, sent, handled, refusal_refunded}
use call_audit_supervisor.Ratelimit.Caps.{day_of}
use call_audit_supervisor.Ratelimit.Caps.Counter.{count}
use call_audit_supervisor.Orchestration.Engine.Steps.{StepRow, process_one_moves}
use call_audit_supervisor.Orchestration.Engine.Steps.Progress.{Progress, process_one-Progress}
use call_audit_supervisor.Orchestration.Webhook.{
  Request, assemblyai_webhook, SttClient, ready, run_once,
}
use call_audit_supervisor.Orchestration.Webhook.Resume.{webhook_idempotent}
use call_audit_supervisor.Orchestration.Webhook.Sweep.{Unanswered, run_once_lem}
use call_audit_supervisor.Tests.Floats.{whole}
use call_audit_supervisor.Tests.Samples.{
  new_job, jobs, claimed_as, world, services, noting_judge, failing_judge, deps_with,
}

abbrev first : ClaimedJob
first = claimed_as 1 pending_transcription none

abbrev third : ClaimedJob
third = claimed_as 3 pending_judge (some "t-3")

claims : is_claimable pending_transcription ≡ true
unfolding is_claimable
claims = refl

claims_judge : is_claimable pending_judge ≡ true
unfolding is_claimable
claims_judge = refl

process_one_moves_example :
    (w' : World (List ℕ)) × (process_one whole
        (List ℕ)
        (deps_with noting_judge (value "t-1"))
        first
        world
      ≡ some w')
    × Rows (StepRow first) world.db.jobs w'.db.jobs
process_one_moves_example =
    process_one_moves whole (List ℕ) (deps_with noting_judge (value "t-1")) first world claims
      (inr refl, (inl refl, (inl refl, tt)))

abbrev refusing : EngineDeps whole (List ℕ)
refusing = deps_with noting_judge (raised (retryable "timeout"))

refusal_refunded_example :
    (count (handled whole (List ℕ) refusing first world).1.db.usage 1 (day_of 1000)
      ≡ used whole (List ℕ) refusing first world + 1)
    × (w' : World (List ℕ)) × (process_one whole (List ℕ) refusing first world ≡ some w')
    × (w'.db.usage ≡ world.db.usage)
    × (w'.submissions ≡ sent whole (List ℕ) refusing first world ∷ world.submissions)
    × (length w'.db.job_errors ≡ length world.db.job_errors + 1)
unfolding str_eq
refusal_refunded_example =
    refusal_refunded whole (List ℕ) refusing first world (retryable "timeout") refl refl refl refl
      refl

process_one-Progress_example :
    (w' : World (List ℕ)) × (process_one whole
        (List ℕ)
        (deps_with failing_judge (value "t-1"))
        third
        world
      ≡ some w')
    × Rows (Progress third 1000) world.db.jobs w'.db.jobs
process_one-Progress_example =
    process_one-Progress whole (List ℕ) (deps_with failing_judge (value "t-1")) third world
      claims_judge (inl refl, (inl refl, (inr (refl, refl, refl), tt)))

judging_fails :
    (run_handler whole (List ℕ) (deps_with failing_judge (value "t-1")) third pending_judge world).0
    ≡ raised (retryable "model overloaded")
unfolding run_handler handle_judge needs_judge get_portfolio_pii_mode redacts_transcript
    redacts_recording upper_char str_eq
judging_fails = refl

claims_exclusive_example :
    All
      (λ j. is_claimed (new_job ∷ []) j ≡ false)
      (claimed_rows claimable 500 10 (λ j. false) (claim_update "a" 60 0 (new_job ∷ []) jobs))
claims_exclusive_example =
    claims_exclusive "a" 60 0 (new_job ∷ []) claimable 500 10 (λ j. false) jobs (omega arith)

due_now : is_due claimable 5 new_job ≡ true
unfolding is_due
due_now = refl

claimed_rows_lem_example :
    let rows = claimed_rows claimable 5 1 (λ j. false) jobs in
    let free = sort_by (λ j. j.created_at) (filter (λ j. is_due claimable 5 j && true) jobs) in
    All (Takeable claimable 5 1 (λ j. false) jobs) rows
    × (length rows ≡ min 1 (length (filter (λ j. is_due claimable 5 j && true) jobs)))
    × All (λ x. All (λ y. x.created_at ≤ y.created_at) (drop (λ j. j.created_at) 1 free)) rows
claimed_rows_lem_example = claimed_rows_lem claimable 5 1 (λ j. false) jobs

machine_lem_example :
    ((can_transition pending_judge done ≡ true)
      ↔ ((pending_judge ⟶ done) ⊎ IsUndrawn pending_judge done))
    × ((can_transition pending_judge done ≡ false)
        ⊎ ((stage done < stage pending_judge) × (is_terminal pending_judge ≡ false)))
    × ((is_terminal pending_judge ≡ true)
        ⊎ ((u : JobState) × (can_transition pending_judge u ≡ true)))
    × ((pending_judge ⟶* done) ⊎ (pending_judge ≡ failed))
machine_lem_example = machine_lem pending_judge done

given_third : given (some "t-3") ≡ some "t-3"
unfolding str_eq
given_third = refl

given-none : given none ≡ none
given-none = refl

first_missing : recording_exists whole (List ℕ) "1.mp3" (record world { recordings = [] }) ≡ false
first_missing = refl

missing_recording_example :
    (m : String) × (handle_transcription whole
        (List ℕ)
        (services (value "t-9"))
        5
        1000
        (to_view first)
        (record world { recordings = [] })
      ≡ (raised (fatal m), record world { recordings = [] }))
missing_recording_example =
    missing_recording whole (List ℕ) (services (value "t-9")) 5 1000 (to_view first)
      (record world { recordings = [] }) given-none first_missing

first_stored : recording_exists whole (List ℕ) "1.mp3" world ≡ true
unfolding str_eq
first_stored = refl

redaction_on : redacts_transcript (get_portfolio_pii_mode whole (List ℕ) 1 world) ≡ true
unfolding redacts_transcript get_portfolio_pii_mode upper_char
redaction_on = refl

only_redacted_stored_example :
    let after =
      (handle_judge whole (List ℕ) noting_judge (services (value "t-9")) (to_view third) world).1 in
    (stored_transcript 3 after.transcripts ≡ stored_transcript 3 world.transcripts)
    ⊎ ((t : Transcript) × (stored_transcript 3 after.transcripts ≡ some t) × (t.redacted ≡ true))
only_redacted_stored_example =
    only_redacted_stored whole (List ℕ) noting_judge (services (value "t-9")) (to_view third) world
      redaction_on 3

step_fails :
    (handle_judge whole (List ℕ) failing_judge (services (value "t-9")) (to_view third) world).0
    ≡ raised (retryable "model overloaded")
unfolding handle_judge needs_judge get_portfolio_pii_mode redacts_transcript redacts_recording
    upper_char str_eq
step_fails = refl

failure_keeps_recordings_example :
    (handle_judge whole
      (List ℕ)
      failing_judge
      (services (value "t-9"))
      (to_view third)
      world).1.recordings
    ≡ world.recordings
failure_keeps_recordings_example =
    failure_keeps_recordings whole (List ℕ) failing_judge (services (value "t-9")) (to_view third)
      world (retryable "model overloaded") step_fails

handle_judge-Framed_example :
    Framed whole
      (List ℕ)
      noting_judge
      (services (value "t-9"))
      (to_view third)
      world
      world
      (handle_judge whole (List ℕ) noting_judge (services (value "t-9")) (to_view third) world).1
handle_judge-Framed_example =
    handle_judge-Framed whole (List ℕ) noting_judge (services (value "t-9")) (to_view third) world

abbrev delivery : Request
delivery = record {
  header = some "s3cret";
  transcript_id = some "t-2";
  body_id = none;
  status = some "completed";
}

webhook_idempotent_example :
    let (response, jobs', events') = assemblyai_webhook "s3cret" 9 delivery jobs [] in
    assemblyai_webhook "s3cret" 12 delivery jobs' events' ≡ (response, jobs', events')
webhook_idempotent_example = webhook_idempotent "s3cret" 9 delivery jobs [] 12

abbrev provider : SttClient
provider = record { poll = λ tid. some ready; get_error = λ tid. some none; clean = λ s. s }

run_once_lem_example :
    ((r : ℕ × Jobs) × (run_once provider 9000000 5 jobs ≡ some r)
      × All (λ j. is_overdue 9000000 5 j ≡ false) r.1)
    ⊎ ((run_once provider 9000000 5 jobs ≡ none)
        × Unanswered 9000000 5 provider (find_overdue_awaiting 9000000 5 jobs))
run_once_lem_example = run_once_lem 9000000 5 provider jobs
