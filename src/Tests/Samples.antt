-- ===== src/Tests/Samples.antt =====
-- A small database, its services and a worker, for the concrete runs.
use call_audit_supervisor.Common.{ℕ, Bool, Option, none, some, List, [], ◌∷◌, String}
use call_audit_supervisor.Ratelimit.Backoff.{retryable, Outcome, value, raised}
use call_audit_supervisor.Ratelimit.Caps.{DailyUsage}
use call_audit_supervisor.Stt.{Transcript}
use call_audit_supervisor.Orchestration.States.{
  JobState, pending_transcription, awaiting_transcript, pending_judge,
}
use call_audit_supervisor.Orchestration.Queue.{Job, Jobs, ClaimedJob}
use call_audit_supervisor.Orchestration.World.{Call, Db, World, Services}
use call_audit_supervisor.Orchestration.Handlers.{Judge}
use call_audit_supervisor.Orchestration.Engine.{EngineDeps}
use call_audit_supervisor.Tests.Floats.{whole}

abbrev pub job_in : ℕ → JobState → Option String → Job
job_in k s tid = record {
  id = k;
  call_id = k;
  portfolio_id = 1;
  state = s;
  attempts = 0;
  max_attempts = 3;
  next_attempt_at = 0;
  locked_by = none;
  locked_until = none;
  transcript_id = tid;
  last_error = none;
  created_at = k;
  updated_at = 0;
}

abbrev pub new_job : Job
new_job = job_in 1 pending_transcription none

abbrev pub parked_job : Job
parked_job = job_in 2 awaiting_transcript (some "t-2")

abbrev pub ready_job : Job
ready_job = job_in 3 pending_judge (some "t-3")

abbrev pub jobs : Jobs
jobs = new_job ∷ parked_job ∷ ready_job ∷ []

abbrev pub claimed_as : ℕ → JobState → Option String → ClaimedJob
claimed_as k s tid = record {
  id = k;
  call_id = k;
  portfolio_id = 1;
  state = s;
  attempts = 0;
  max_attempts = 3;
  transcript_id = tid;
  audio_uri = "1.mp3";
  transcript_uri = none;
}

abbrev pub call_row : ℕ → Call
call_row k = record {
  id = k;
  agent_id = 7;
  portfolio_id = 1;
  r2_audio_uri = "1.mp3";
  r2_transcript_uri = none;
  option = some "FULL";
  checklist_id = none;
  kb_doc_ids = [];
}

abbrev pub usage : List DailyUsage
usage = record { portfolio_id = 1; day = 0; calls_submitted = 4 } ∷ []

abbrev pub db : Db (List ℕ)
db = record {
  jobs = jobs;
  calls = call_row 1 ∷ call_row 2 ∷ call_row 3 ∷ [];
  portfolios = record { id = 1; pii_mode = some "TRANSCRIPT" } ∷ [];
  usage = usage;
  job_errors = [];
  events = [];
  reports = [];
}

abbrev pub world : World (List ℕ)
world = record { db = db; transcripts = []; recordings = ("1.mp3", "bytes") ∷ []; submissions = [] }

abbrev pub transcript_row : String → Bool → Transcript
transcript_row tid redacted = record { transcript_id = tid; text = "hello"; redacted = redacted }

-- A provider whose submission answers as given, and which redacts what it is asked to.
abbrev pub services : Outcome whole String → Services whole
services submitted = record {
  presign = λ key. key;
  submit = λ s. submitted;
  fetch_transcript = λ tid redacted. value (transcript_row tid redacted);
  redacted_audio_url = none;
  http_get = λ url. raised (retryable "timeout");
  put_transcript = value tt;
  put_recording = value tt;
  upload = none;
}

-- A judge that notes the call, and one that fails.
abbrev pub noting_judge : Judge whole (List ℕ)
noting_judge r reports = (value tt, r.call_id ∷ reports)

abbrev pub failing_judge : Judge whole (List ℕ)
failing_judge r reports = (raised (retryable "model overloaded"), r.call_id ∷ reports)

abbrev pub deps_with : Judge whole (List ℕ) → Outcome whole String → EngineDeps whole (List ℕ)
deps_with judge submitted = record {
  settings = record { retry_base_seconds = 2; retry_cap_seconds = 60; retry_jitter_ratio = 0 };
  daily_cap = 5;
  judge = judge;
  now = 1000;
  env = services submitted;
  rand = 0;
}
