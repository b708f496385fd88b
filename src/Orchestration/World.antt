-- ===== src/Orchestration/World.antt =====
-- What a worker's step reads and writes: the database, the object store, and the calls that it
-- makes to the speech-to-text provider. The database is transactional; the rest is not.
use call_audit_supervisor.Common.Float.{FloatOps}
use call_audit_supervisor.Common.{
  ℕ, Bool, Option, none, some, List, [], ◌∷◌, String, find?, ◌==◌, str_eq, if◌then◌else◌,
}
use call_audit_supervisor.Ratelimit.Backoff.{Outcome}
use call_audit_supervisor.Ratelimit.Caps.{DailyUsage}
use call_audit_supervisor.Orchestration.States.{JobState}
use call_audit_supervisor.Orchestration.Queue.{Jobs}
use call_audit_supervisor.Stt.{Transcript}
use call_audit_supervisor.Judge.Audio.{AudioRef}

-- `Call` of backend/app/models/__init__.py: the columns that the pipeline reads or writes.
pub record Call : Type 0 where
  pub id : ℕ
  pub agent_id : ℕ
  pub portfolio_id : ℕ
  pub r2_audio_uri : String
  pub r2_transcript_uri : Option String
  pub option : Option String
  pub checklist_id : Option ℕ
  pub kb_doc_ids : List ℕ

-- `JobError`, with the error's class and traceback left out.
pub record JobError : Type 0 where
  pub job_id : ℕ
  pub call_id : ℕ
  pub stage : JobState
  pub attempt : ℕ
  pub fatal : Bool
  pub message : String

-- A status notification (`pg_notify`), which leaves with the commit of its transaction.
pub record Event : Type 0 where
  pub portfolio_id : ℕ
  pub call_id : ℕ
  pub state : JobState

-- A portfolio's row: its id and its redaction level.
pub record Portfolio : Type 0 where
  pub id : ℕ
  pub pii_mode : Option String

-- `Rep` is what the judge keeps: reports, checklists and the rest of its tables.
pub record Db (Rep : Type 0) : Type 0 where
  pub jobs : Jobs
  pub calls : List Call
  pub portfolios : List Portfolio
  pub usage : List DailyUsage
  pub job_errors : List JobError
  pub events : List Event
  pub reports : Rep

-- A request to the provider to transcribe, which is paid for.
pub record Submission : Type 0 where
  pub call_id : ℕ
  pub audio_url : String
  pub redact_pii : Bool
  pub redact_pii_audio : Bool

pub record World (Rep : Type 0) : Type 0 where
  pub db : Db Rep
  pub transcripts : List (ℕ × Transcript)  -- by call
  pub recordings : List (String × String)  -- key and bytes
  pub submissions : List Submission

-- What the services outside the repository answer during one step.
pub record Services (f : FloatOps) : Type 0 where
  pub presign : String → String  -- a presigned URL for an object's key
  pub submit : Submission → Outcome f String
  pub fetch_transcript : String → Bool → Outcome f Transcript
  pub redacted_audio_url : Option (Option String → Outcome f (Option String))
  pub http_get : String → Outcome f String
  pub put_transcript : Outcome f (Unit {0})  -- whether the object store takes the write
  pub put_recording : Outcome f (Unit {0})
  pub upload : Option (String → String → Outcome f AudioRef)

abbrev pub is_key : String → String × String → Bool
is_key k (k', bytes) = str_eq k' k

abbrev pub second : {A B : Type 0} → Option (A × B) → Option B
second none = none
second (some (a, b)) = some b

abbrev pub object : String → List (String × String) → Option String
object k store = second (find? (is_key k) store)

-- Writes an object under a key, over what stood there.
abbrev pub put_object : String → String → List (String × String) → List (String × String)
put_object k bytes [] = (k, bytes) ∷ []
put_object k bytes (o ∷ os) =
    let rest = put_object k bytes os in if is_key k o then (k, bytes) ∷ os else o ∷ rest

abbrev pub is_call_object : ℕ → ℕ × Transcript → Bool
is_call_object c (c', t) = c' == c

abbrev pub stored_transcript : ℕ → List (ℕ × Transcript) → Option Transcript
stored_transcript c store = second (find? (is_call_object c) store)

abbrev pub store_transcript : ℕ → Transcript → List (ℕ × Transcript) → List (ℕ × Transcript)
store_transcript c t [] = (c, t) ∷ []
store_transcript c t (o ∷ os) =
    let rest = store_transcript c t os in if is_call_object c o then (c, t) ∷ os else o ∷ rest
