-- ===== src/Orchestration/Webhook.antt =====
-- The two ways by which a parked job goes on: the provider's webhook (backend/app/api/webhooks.py)
-- and the reconciler (backend/app/orchestration/reconciler.py), over the table of the jobs.
pub mod Resume
pub mod Sweep
use call_audit_supervisor.Common.{
  ℕ, suc, ◌+◌, Bool, true, false, not, ◌&&◌, ◌||◌, Option, none, some, List, [], ◌∷◌, String, ◌+++◌,
  str_eq, if◌then◌else◌, find?,
}
use call_audit_supervisor.Common.Codes.{Text, codes, lower, has_part}
use call_audit_supervisor.Orchestration.States.{JobState, pending_judge}
use call_audit_supervisor.Orchestration.Queue.{
  Job, Jobs, find_overdue_awaiting, mark_failed, touch, advance_to_judge_by_transcript,
  fail_by_transcript, has_transcript,
}
use call_audit_supervisor.Orchestration.World.{Event}

-- A request, as far as it is read: the header with the secret, and the fields of its JSON body.
pub record Request : Type 0 where
  pub header : Option String
  pub transcript_id : Option String
  pub body_id : Option String
  pub status : Option String

pub data Response : Type 0 where
  ok unauthorized bad_request : Response

abbrev pub or_empty : Option String → String
or_empty none = ""
or_empty (some s) = s

-- `secret` is empty when none is configured.
unfoldable pub verify : String → Request → Bool
verify secret r = not (str_eq secret "") && str_eq (or_empty r.header) secret

-- `body.get("transcript_id") or body.get("id")`, which must not be empty
abbrev pub transcript_of : Request → String
transcript_of r =
    let tid = or_empty r.transcript_id in if str_eq tid "" then or_empty r.body_id else tid

abbrev pub status_is : String → Request → Bool
status_is s r = has_transcript s r.status

-- `_lookup`: the first row with the id
abbrev pub row_of : String → Jobs → Option Job
row_of tid jobs = find? (λ j. has_transcript tid j.transcript_id) jobs

abbrev event_for : Bool → Option Job → List Event → List Event
event_for advanced none events = events
event_for false (some j) events = events
event_for true (some j) events =
    record { portfolio_id = j.portfolio_id; call_id = j.call_id; state = pending_judge } ∷ events

abbrev pub completed : ℕ → String → Jobs → List Event → Jobs × List Event
completed now tid jobs events =
    let (advanced, jobs') = advance_to_judge_by_transcript now tid jobs in
    (jobs', event_for advanced (row_of tid jobs) events)

-- What a verified request with an id does, by its status.
abbrev pub act : ℕ → String → Request → Jobs → List Event → Jobs × List Event
act now tid r jobs events =
    if status_is "completed" r
    then completed now tid jobs events
    else if status_is "error" r
    then ((fail_by_transcript now tid "AssemblyAI returned error" jobs).1, events)
    else (jobs, events)

unfoldable pub assemblyai_webhook :
    String → ℕ → Request → Jobs → List Event → Response × Jobs × List Event
unfolding verify
assemblyai_webhook secret now r jobs events =
    let (jobs', events') = act now (transcript_of r) r jobs events in
    if not (verify secret r)
    then (unauthorized, jobs, events)
    else if str_eq (transcript_of r) ""
    then (bad_request, jobs, events)
    else (ok, jobs', events')

-- What `stt.poll` answers.
pub data SttStatus : Type 0 where
  ready error processing : SttStatus

-- The provider, as the reconciler asks it; a call that raises is `none`. What the regular expression
-- makes of the text of an error (`re.sub`, `strip` and the cut at 180) is `clean`.
pub record SttClient : Type 0 where
  pub poll : String → Option SttStatus
  pub get_error : String → Option (Option String)
  pub clean : String → String

abbrev mentions : String → Text → Bool
mentions p s = has_part (codes p) s

abbrev friendly : SttClient → String → Text → String
friendly stt raw low =
    if mentions "download" low || mentions "not accessible" low || mentions "does not exist" low
    then "Couldn't download the audio for transcription — the recording may not have finished uploading or isn't reachable."
    else if mentions "does not appear to contain audio" low || mentions "no audio" low
    then "The file doesn't appear to contain valid audio."
    else if mentions "duration" low && (mentions "exceed" low || mentions "longer" low)
    then "The recording is longer than the transcription limit."
    else "Transcription failed: " +++ stt.clean raw

unfoldable pub friendly_stt_error : SttClient → Option String → String
friendly_stt_error stt none = "Transcription failed at the provider."
friendly_stt_error stt (some raw) =
    if str_eq raw ""
    then "Transcription failed at the provider."
    else friendly stt raw (lower (codes raw))

-- One overdue job; `now` is the time of the sweep's transaction.
abbrev count_if : Bool → ℕ → ℕ
count_if true n = suc n
count_if false n = n

abbrev reported : SttClient → ℕ → ℕ → Option (Option String) → ℕ × Jobs → Option (ℕ × Jobs)
reported stt now job_id none r = none
reported stt now job_id (some detail) (n, jobs) =
    some (n, mark_failed now job_id (friendly_stt_error stt detail) jobs)

abbrev pub polled : SttClient → ℕ → ℕ → String → Option SttStatus → ℕ × Jobs → Option (ℕ × Jobs)
polled stt now job_id tid none r = none
polled stt now job_id tid (some ready) (n, jobs) =
    let (advanced, jobs') = advance_to_judge_by_transcript now tid jobs in
    some (count_if advanced n, jobs')
polled stt now job_id tid (some error) r = reported stt now job_id (stt.get_error tid) r
polled stt now job_id tid (some processing) (n, jobs) = some (n, touch now job_id jobs)

abbrev pub sweep_one : SttClient → ℕ → ℕ → Option String → ℕ × Jobs → Option (ℕ × Jobs)
sweep_one stt now job_id none (n, jobs) =
    some (n, mark_failed now job_id "parked without transcript_id" jobs)
sweep_one stt now job_id (some tid) r = polled stt now job_id tid (stt.poll tid) r

abbrev pub and_then : Option (ℕ × Jobs) → (ℕ × Jobs → Option (ℕ × Jobs)) → Option (ℕ × Jobs)
and_then none rest = none
and_then (some r) rest = rest r

abbrev pub sweep : SttClient → ℕ → List (ℕ × Option String) → ℕ × Jobs → Option (ℕ × Jobs)
sweep stt now [] r = some r
sweep stt now ((job_id, tid) ∷ overdue) r =
    and_then (sweep_one stt now job_id tid r) (sweep stt now overdue)

-- `none` is an exception of the provider: the sweep's transaction is not committed.
unfoldable pub run_once : SttClient → ℕ → ℕ → Jobs → Option (ℕ × Jobs)
unfolding friendly_stt_error
run_once stt now overdue_seconds jobs =
    sweep stt now (find_overdue_awaiting now overdue_seconds jobs) (0, jobs)
