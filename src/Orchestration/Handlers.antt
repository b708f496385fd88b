-- ===== src/Orchestration/Handlers.antt =====
-- backend/app/orchestration/handlers.py: the work of one step of a job. The limiters delay a call
-- and change nothing else here; the log lines and the removal of the uploaded copy are left out.
pub mod Transcribing
pub mod Keeps
pub mod Judging
pub mod Privacy
pub mod Outcomes
pub mod Judged
use call_audit_supervisor.Common.Float.{FloatOps}
use call_audit_supervisor.Common.{
  ℕ, Bool, true, false, not, ◌&&◌, Option, none, some, List, [], ◌∷◌, String, ◌+++◌, decimal, find?,
  update_where, ◌==◌, str_eq, if◌then◌else◌,
}
use call_audit_supervisor.Common.Codes.{codes}
use call_audit_supervisor.Ratelimit.Backoff.{Error, fatal, other, Outcome, value, raised}
use call_audit_supervisor.Ratelimit.Caps.{
  CapDecision, deferred as is_deferred, check_and_reserve, postgres_store,
}
use call_audit_supervisor.Stt.{Transcript}
use call_audit_supervisor.Stt.Redaction.{
  PiiMode, name_of, redacts_transcript, redacts_recording, parse_pii_mode,
}
use call_audit_supervisor.Judge.Audio.{AudioRef, audio_mime_for}
use call_audit_supervisor.Judge.Options.{ProcessingOption, full, option_of, needs_judge}
use call_audit_supervisor.Orchestration.World.{
  Call, Portfolio, Db, World, Submission, Services, object, put_object, stored_transcript,
  store_transcript,
}

-- `StepOutcome`
pub data StepOutcome : Type 0 where
  park : String → StepOutcome
  complete : StepOutcome
  deferred : String → StepOutcome

pub record JobView : Type 0 where
  pub id : ℕ
  pub call_id : ℕ
  pub portfolio_id : ℕ
  pub transcript_id : Option String
  pub audio_uri : String
  pub transcript_uri : Option String

-- What `judge_call` is given about the call.
pub record JudgeRequest : Type 0 where
  pub call_id : ℕ
  pub portfolio_id : ℕ
  pub agent_id : Option ℕ
  pub transcript : Transcript
  pub option : ProcessingOption
  pub audio : Option AudioRef
  pub checklist_id : Option ℕ
  pub kb_doc_ids : Option (List ℕ)

-- The truth of an optional text: neither missing nor empty.
abbrev pub given : Option String → Option String
given none = none
given (some s) = if str_eq s "" then none else some s

module _ (f : FloatOps) (Rep : Type 0) where
  -- A step of a handler: it may raise, and what it did before stays done.
  abbrev pub Step : Type 0 → Type 0
  Step A = World Rep → Outcome f A × World Rep

  abbrev pub pure : {A : Type 0} → A → Step A
  pure a w = (value a, w)

  abbrev pub raise : {A : Type 0} → Error f → Step A
  raise e w = (raised e, w)

  abbrev pub gets : {A : Type 0} → (World Rep → A) → Step A
  gets g w = (value (g w), w)

  abbrev pub answer : {A : Type 0} → Outcome f A → Step A
  answer o w = (o, w)

  abbrev pub modify : (World Rep → World Rep) → Step (Unit {0})
  modify g w = (value tt, g w)

  abbrev pub guard : Bool → Error f → Step (Unit {0})
  guard true e = pure tt
  guard false e = raise e

  infixl 5 ◌>>=◌ ◌>>◌
  abbrev pub ◌>>=◌ : {A B : Type 0} → Step A → (A → Step B) → Step B
  ◌>>=◌ m k w = let (r, w') = m w in elim r [ value a ↦ k a w' | raised e ↦ (raised e, w') ]

  abbrev pub ◌>>◌ : {A B : Type 0} → Step A → Step B → Step B
  m >> k = m >>= λ _. k

  abbrev pub is_portfolio : ℕ → Portfolio → Bool
  is_portfolio k p = p.id == k

  abbrev pii_column : Option Portfolio → Option String
  pii_column none = none
  pii_column (some p) = p.pii_mode

  unfoldable pub get_portfolio_pii_mode : ℕ → World Rep → PiiMode
  unfolding parse_pii_mode
  get_portfolio_pii_mode pid w =
      parse_pii_mode (pii_column (find? (is_portfolio pid) w.db.portfolios))

  -- `storage.recording_exists`
  abbrev pub recording_exists : String → World Rep → Bool
  recording_exists key w = elim (object key w.recordings) [ none ↦ false | some b ↦ true ]

  -- `daily_cap.check_and_reserve`, in the session's transaction
  abbrev pub reserve : ℕ → ℕ → ℕ → Step CapDecision
  reserve cap now pid w =
      let (d, usage') = check_and_reserve postgres_store cap now pid w.db.usage in
      (value d, record w { db = record w.db { usage = usage' } })

  -- `stt.submit`: the request goes out, whatever comes back.
  abbrev pub submit : Services f → Submission → Step String
  submit env s w = (env.submit s, record w { submissions = s ∷ w.submissions })

  abbrev pub limit_reason : CapDecision → String
  limit_reason d = "daily limit reached (" +++ decimal d.used +++ "/" +++ decimal d.cap +++ ")"

  abbrev pub submission : Services f → JobView → PiiMode → Submission
  submission env job mode = record {
    call_id = job.call_id;
    audio_url = env.presign job.audio_uri;
    redact_pii = redacts_transcript mode;
    redact_pii_audio = redacts_recording mode;
  }

  pub submit_call : Services f → JobView → Step StepOutcome
  submit_call env job = do
    mode ← gets (get_portfolio_pii_mode job.portfolio_id)
    transcript_id ← submit env (submission env job mode)
    pure (park transcript_id)

  -- From the cap on: the slot, and the request if there is one.
  unfoldable pub reserve_and_submit : Services f → ℕ → ℕ → JobView → Step StepOutcome
  unfolding submit_call
  reserve_and_submit env cap now job = do
    decision ← reserve cap now job.portfolio_id
    if is_deferred decision then pure (deferred (limit_reason decision)) else submit_call env job

  unfoldable pub handle_transcription : Services f → ℕ → ℕ → JobView → Step StepOutcome
  unfolding reserve_and_submit
  handle_transcription env cap now job = elim (given job.transcript_id) [
    | some transcript_id ↦ pure (park transcript_id)
    | none ↦ do
      exists ← gets (recording_exists job.audio_uri)
      guard exists (
          fatal
            "Recording wasn't found in storage — the upload didn't complete. Re-upload the file.")
      reserve_and_submit env cap now job
  ]

  abbrev pub swallow : {A : Type 0} → A → Step A → Step A
  swallow a m w = let (r, w') = m w in elim r [ value b ↦ (value b, w') | raised e ↦ (value a, w') ]

  abbrev pub write_recording : String → String → Step (Unit {0})
  write_recording key bytes =
      modify (λ w. record w { recordings = put_object key bytes w.recordings })

  abbrev pub keep_recording : Services f → String → String → Step (Unit {0})
  keep_recording env key bytes w =
      if str_eq bytes ""
      then pure tt w
      else (answer env.put_recording >> write_recording key bytes) w

  abbrev pub download : Services f → JobView → Option String → Step (Unit {0})
  download env job none = pure tt
  download env job (some u) = do
    bytes ← answer (env.http_get u)
    keep_recording env job.audio_uri bytes

  -- The `try` body of `_redact_stored_recording`.
  abbrev pub replace_recording :
      Services f → (Option String → Outcome f (Option String)) → JobView → Step (Unit {0})
  replace_recording env getter job = do
    url ← answer (getter job.transcript_id)
    download env job (given url)

  abbrev pub redact_with :
      Services f → JobView → Option (Option String → Outcome f (Option String)) → Step (Unit {0})
  redact_with env job none = pure tt
  redact_with env job (some getter) = swallow tt (replace_recording env getter job)

  -- `_redact_stored_recording`: any exception is logged and dropped.
  unfoldable pub redact_stored_recording : Services f → JobView → Step (Unit {0})
  redact_stored_recording env job = redact_with env job env.redacted_audio_url

  abbrev upload_or_inline :
      String → String → Option (String → String → Outcome f AudioRef) → AudioRef
  upload_or_inline bytes mime none = record {
    bytes = some bytes;
    mime_type = mime;
    file_uri = none;
    file_name = none;
  }
  upload_or_inline bytes mime (some upload) = elim (upload bytes mime) [
    | value audio ↦ audio
    | raised e ↦ record { bytes = some bytes; mime_type = mime; file_uri = none; file_name = none }
  ]

  -- `_resolve_audio`: the uploaded copy, the bytes if the upload fails, nothing without a recording.
  unfoldable pub resolve_audio : Services f → JobView → World Rep → Option AudioRef
  resolve_audio env job w = elim (given (object job.audio_uri w.recordings)) [
    | none ↦ none
    | some bytes ↦ some (upload_or_inline bytes (audio_mime_for job.audio_uri) env.upload)
  ]

  abbrev pub is_call : ℕ → Call → Bool
  is_call k c = c.id == k

  -- `queue.set_transcript_uri`
  abbrev pub set_transcript_uri : ℕ → String → World Rep → World Rep
  set_transcript_uri k uri w = record w {
    db = record w.db {
      calls = update_where (is_call k) (λ c. record c { r2_transcript_uri = some uri }) w.db.calls;
    };
  }

  -- The object under its key, `transcript_key`.
  abbrev pub write_transcript : ℕ → Transcript → Step String
  write_transcript k t = do
    modify (λ w. record w { transcripts = store_transcript k t w.transcripts })
    pure (decimal k +++ ".json")

  -- `storage.put_transcript`, which returns the object's key.
  abbrev pub put_transcript : Services f → ℕ → Transcript → Step String
  put_transcript env k t = do answer env.put_transcript; write_transcript k t

  abbrev pub refuse_unredacted : PiiMode → ℕ → Error f
  refuse_unredacted mode k = fatal (
      "refusing to store an unredacted transcript for call "
      +++ decimal k
      +++ " (portfolio pii_mode="
      +++ name_of mode
      +++ " but the transcript is not marked redacted)")

  abbrev pub record_uri : JobView → Transcript → String → Step Transcript
  record_uri job t uri = do modify (set_transcript_uri job.call_id uri); pure t

  -- The last gate and the write, for a transcript that has come in.
  unfoldable pub store_fetched : Services f → PiiMode → JobView → Transcript → Step Transcript
  store_fetched env mode job t = do
    guard (not (redacts_transcript mode && not t.redacted)) (refuse_unredacted mode job.call_id)
    uri ← put_transcript env job.call_id t
    record_uri job t uri

  abbrev pub fetch_and_store : Services f → PiiMode → JobView → Option String → Step Transcript
  fetch_and_store env mode job none = raise (fatal "PENDING_JUDGE without a transcript_id")
  fetch_and_store env mode job (some tid) = do
    t ← answer (env.fetch_transcript tid (redacts_transcript mode))
    store_fetched env mode job t

  abbrev pub found_or_raise : Option Transcript → Step Transcript
  found_or_raise none = raise (other "no stored transcript")
  found_or_raise (some t) = pure t

  -- The transcript: read back if its key is on record, else fetched and stored.
  abbrev pub transcript_at : Services f → PiiMode → JobView → Option String → Step Transcript
  transcript_at env mode job (some uri) = do
    found ← gets (λ w. stored_transcript job.call_id w.transcripts)
    found_or_raise found
  transcript_at env mode job none = fetch_and_store env mode job (given job.transcript_id)

  unfoldable pub materialize : Services f → PiiMode → JobView → Step Transcript
  unfolding store_fetched
  materialize env mode job = transcript_at env mode job job.transcript_uri

  -- `ProcessingOption(call.option) if call and call.option else FULL`
  abbrev pub option_name : Option Call → Option String
  option_name none = none
  option_name (some c) = given c.option

  abbrev pub valid_option : String → Option ProcessingOption → Step ProcessingOption
  valid_option s none = raise (other ("'" +++ s +++ "' is not a valid ProcessingOption"))
  valid_option s (some o) = pure o

  abbrev pub named_option : Option String → Step ProcessingOption
  named_option none = pure full
  named_option (some s) = valid_option s (option_of (codes s))

  abbrev pub call_option : Option Call → Step ProcessingOption
  call_option call = named_option (option_name call)

  abbrev some_or_none : List ℕ → Option (List ℕ)
  some_or_none [] = none
  some_or_none (x ∷ xs) = some (x ∷ xs)

  abbrev pub request :
      JobView → Option Call → Transcript → ProcessingOption → Option AudioRef → JudgeRequest
  request job none t o audio = record {
    call_id = job.call_id;
    portfolio_id = job.portfolio_id;
    agent_id = none;
    transcript = t;
    option = o;
    audio = audio;
    checklist_id = none;
    kb_doc_ids = none;
  }
  request job (some c) t o audio = record {
    call_id = job.call_id;
    portfolio_id = job.portfolio_id;
    agent_id = some c.agent_id;
    transcript = t;
    option = o;
    audio = audio;
    checklist_id = c.checklist_id;
    kb_doc_ids = some_or_none c.kb_doc_ids;
  }

  abbrev pub redact_if : Bool → Services f → JobView → Step (Unit {0})
  redact_if b env job = if b then redact_stored_recording env job else pure tt

  -- The judge works on its own tables, and on nothing else of the database.
  abbrev pub Judge : Type 0
  Judge = JudgeRequest → Rep → Outcome f (Unit {0}) × Rep

  abbrev pub run_judge : Judge → JudgeRequest → Step (Unit {0})
  run_judge judge r w =
      let (o, reports') = judge r w.db.reports in
      (o, record w { db = record w.db { reports = reports' } })

  abbrev pub swap_and_complete : PiiMode → Services f → JobView → Step StepOutcome
  swap_and_complete mode env job = do redact_if (redacts_recording mode) env job; pure complete

  -- What follows the transcript: the judge, unless the option needs none, and only then the swap
  -- of the recording.
  unfoldable pub judge_and_redact :
      PiiMode
      → Judge
      → Services f
      → JobView
      → Transcript
      → Option Call
      → ProcessingOption
      → Step StepOutcome
  judge_and_redact mode judge env job t call o w =
      if needs_judge o
      then (run_judge judge (request job call t o (resolve_audio env job w))
            >> swap_and_complete mode env job)
          w
      else swap_and_complete mode env job w

  abbrev pub judge_call_row :
      PiiMode → Judge → Services f → JobView → Transcript → Option Call → Step StepOutcome
  judge_call_row mode judge env job t call = do
    o ← call_option call
    judge_and_redact mode judge env job t call o

  abbrev pub after_transcript :
      PiiMode → Judge → Services f → JobView → Transcript → Step StepOutcome
  after_transcript mode judge env job t = do
    call ← gets (λ w. find? (is_call job.call_id) w.db.calls)
    judge_call_row mode judge env job t call

  -- The step under the redaction level that was read at its start.
  unfoldable pub judge_under : PiiMode → Judge → Services f → JobView → Step StepOutcome
  judge_under mode judge env job = do
    t ← materialize env mode job
    after_transcript mode judge env job t

  unfoldable pub handle_judge : Judge → Services f → JobView → Step StepOutcome
  unfolding materialize judge_and_redact judge_under
  handle_judge judge env job = do
    mode ← gets (get_portfolio_pii_mode job.portfolio_id)
    judge_under mode judge env job
