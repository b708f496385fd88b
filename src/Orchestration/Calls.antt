-- ===== src/Orchestration/Calls.antt =====
-- backend/app/api/calls.py and backend/app/retention.py: calls come in with their recordings, within
-- the quota of the portfolio, and go with all that was kept of them. The audit log, and the columns
-- of a call that the pipeline does not read, are left out; the new ids come with the keys.
pub mod Quota
pub mod Erasure
pub mod Retention
use call_audit_supervisor.Common.Float.{FloatOps}
use call_audit_supervisor.Common.{
  ℕ, suc, ◌+◌, Bool, true, false, not, ◌&&◌, ◌||◌, Option, none, some, List, [], ◌∷◌, ◌++◌, String,
  ◌+++◌, decimal, filter, find?, any, map, take, length, ltb, ◌==◌, if◌then◌else◌,
}
use call_audit_supervisor.Common.Sort.{sort_by}
use call_audit_supervisor.Common.Codes.{Text, codes, starts_with}
use call_audit_supervisor.Ratelimit.Backoff.{Outcome, value, raised}
use call_audit_supervisor.Judge.Tables.{Tables, delete_reports}
use call_audit_supervisor.Orchestration.States.{JobState, pending_transcription, done, failed}
use call_audit_supervisor.Orchestration.Queue.{Job, enqueue}
use call_audit_supervisor.Orchestration.World.{
  Call, JobError, Db, Event, World, is_key, is_call_object,
}

-- The status of the answer.
pub data Status : Type 0 where
  created no_content bad_request not_found too_many : Status

abbrev pub max_inflight_per_portfolio : ℕ
max_inflight_per_portfolio = 10

abbrev is_terminal : JobState → Bool
is_terminal done = true
is_terminal failed = true
is_terminal _ = false

abbrev pub is_in_flight : ℕ → Job → Bool
is_in_flight pid j = j.portfolio_id == pid && not (is_terminal j.state)

-- `_inflight_count`
unfoldable pub inflight_count : ℕ → List Job → ℕ
inflight_count pid jobs = length (filter (is_in_flight pid) jobs)

-- A folder of a portfolio.
pub record Agent : Type 0 where
  pub id : ℕ
  pub portfolio_id : ℕ

-- One uploaded recording: its key, and the ids of the call and the job that it becomes.
pub record UploadedKey : Type 0 where
  pub key : String
  pub call_id : ℕ
  pub job_id : ℕ

abbrev pub agent_prefix : ℕ → ℕ → Text
agent_prefix pid aid = codes (decimal pid +++ "/" +++ decimal aid +++ "/")

abbrev pub in_scope : ℕ → ℕ → UploadedKey → Bool
in_scope pid aid k = starts_with (agent_prefix pid aid) (codes k.key)

abbrev every : (UploadedKey → Bool) → List UploadedKey → Bool
every p [] = true
every p (k ∷ ks) = p k && every p ks

-- The batch's processing option and its selection, `None` for those left out.
pub record Selection : Type 0 where
  pub option : Option String
  pub checklist_id : Option ℕ
  pub kb_doc_ids : List ℕ

abbrev pub call_of : ℕ → ℕ → Selection → UploadedKey → Call
call_of pid aid sel k = record {
  id = k.call_id;
  agent_id = aid;
  portfolio_id = pid;
  r2_audio_uri = k.key;
  r2_transcript_uri = none;
  option = sel.option;
  checklist_id = sel.checklist_id;
  kb_doc_ids = sel.kb_doc_ids;
}

module _ (Rep : Type 0) (now max_attempts : ℕ) (pid aid : ℕ) (sel : Selection) where
  -- One turn of the loop of `register_keys`: the call, its job and the event.
  abbrev pub register_key : UploadedKey → Db Rep → Db Rep
  register_key k db = record db {
    calls = db.calls ++ call_of pid aid sel k ∷ [];
    jobs = enqueue now k.job_id k.call_id pid max_attempts db.jobs;
    events =
        record { portfolio_id = pid; call_id = k.call_id; state = pending_transcription }
        ∷ db.events;
  }

  unfoldable pub register_keys : List UploadedKey → Db Rep → Db Rep
  register_keys [] db = db
  register_keys (k ∷ ks) db = register_keys ks (register_key k db)

  abbrev has_agent : List Agent → Bool
  has_agent agents = any (λ (a : Agent). a.id == aid && a.portfolio_id == pid) agents

  -- `register_calls`, with `_require_agent` and `assert_inflight_quota`. What remains may be less
  -- than nothing, so the two sides of the comparison are summed.
  unfoldable pub register_calls : List Agent → List UploadedKey → World Rep → Status × World Rep
  unfolding register_keys inflight_count
  register_calls agents items w =
      if not (has_agent agents)
      then (not_found, w)
      else if not (every (in_scope pid aid) items)
      then (bad_request, w)
      else if ltb max_inflight_per_portfolio (inflight_count pid w.db.jobs + length items)
      then (too_many, w)
      else (created, record w { db = register_keys items w.db })

-- What the object store answers to a deletion; a missing object is no error.
module _ (f : FloatOps) where
  pub record Deletes : Type 0 where
    pub delete_recording : String → Outcome f (Unit {0})
    pub delete_transcript : ℕ → Outcome f (Unit {0})
    pub delete_report : ℕ → Outcome f (Unit {0})

  abbrev drop_recording : String → World (Tables f) → World (Tables f)
  drop_recording k w = record w { recordings = filter (λ o. not (is_key k o)) w.recordings }

  abbrev drop_transcript : ℕ → World (Tables f) → World (Tables f)
  drop_transcript c w = record w {
    transcripts = filter (λ o. not (is_call_object c o)) w.transcripts;
  }

  -- A deletion that is answered by an error leaves its object.
  abbrev after :
      Outcome f (Unit {0})
      → (World (Tables f) → Outcome f (Unit {0}) × World (Tables f))
      → World (Tables f)
      → Outcome f (Unit {0}) × World (Tables f)
  after (value u) k w = k w
  after (raised e) k w = (raised e, w)

  -- The objects of a call: the recording, the transcript and the rendered reports, which are not
  -- part of the world here.
  unfoldable pub delete_objects :
      Deletes → Call → World (Tables f) → Outcome f (Unit {0}) × World (Tables f)
  delete_objects env c = after (env.delete_recording c.r2_audio_uri) (λ w.
      after (env.delete_transcript c.id)
        (λ w'. after (env.delete_report c.id) (λ w''. (value tt, w'')) (drop_transcript c.id w'))
        (drop_recording c.r2_audio_uri w))

  -- `session.delete(call)`, with what the foreign keys take along.
  unfoldable pub delete_row : ℕ → Db (Tables f) → Db (Tables f)
  unfolding delete_reports
  delete_row k db = record db {
    calls = filter (λ (c : Call). not (c.id == k)) db.calls;
    jobs = filter (λ (j : Job). not (j.call_id == k)) db.jobs;
    job_errors = filter (λ (x : JobError). not (x.call_id == k)) db.job_errors;
    reports = delete_reports f k db.reports;
  }

  abbrev finish_delete :
      ℕ → Outcome f (Unit {0}) × World (Tables f) → Outcome f Status × World (Tables f)
  finish_delete k (value u, w) = (value no_content, record w { db = delete_row k w.db })
  finish_delete k (raised e, w) = (raised e, w)

  abbrev delete_found :
      Deletes → ℕ → Option Call → World (Tables f) → Outcome f Status × World (Tables f)
  delete_found env k none w = (value not_found, w)
  delete_found env k (some c) w = finish_delete k (delete_objects env c w)

  abbrev pub is_call_of : ℕ → ℕ → ℕ → Call → Bool
  is_call_of pid aid k c = c.id == k && c.agent_id == aid && c.portfolio_id == pid

  unfoldable pub delete_call :
      Deletes → ℕ → ℕ → ℕ → World (Tables f) → Outcome f Status × World (Tables f)
  unfolding delete_objects delete_row
  delete_call env pid aid k w = delete_found env k (find? (is_call_of pid aid k) w.db.calls) w

  -- The loop of `retention.run_once`: the rows go with the commit at its end, the objects at once.
  abbrev purge_next : (Outcome f ℕ × World (Tables f)) → ℕ → Outcome f ℕ × World (Tables f)
  purge_next (value n, w) k = (value (n + 1), record w { db = delete_row k w.db })
  purge_next (raised e, w) k = (raised e, w)

  abbrev purge_after :
      (Outcome f (Unit {0}) × World (Tables f))
      → (Outcome f ℕ × World (Tables f))
      → ℕ
      → Outcome f ℕ × World (Tables f)
  purge_after (value u, w) rest k = purge_next rest k
  purge_after (raised e, w) rest k = (raised e, w)

  unfoldable pub purge : Deletes → List Call → World (Tables f) → Outcome f ℕ × World (Tables f)
  unfolding delete_objects delete_row
  purge env [] w = (value 0, w)
  purge env (c ∷ cs) w =
      let deleted = delete_objects env c w in
      let rest = purge env cs deleted.1 in purge_after deleted rest c.id

  -- `created_at` is the column of that name, by the call.
  unfoldable pub expired : (ℕ → ℕ) → ℕ → ℕ → List Call → List Call
  expired created_at cutoff batch calls = take batch (
      sort_by (λ (c : Call). created_at c.id)
        (filter (λ (c : Call). ltb (created_at c.id) cutoff) calls))

  unfoldable pub run_once :
      Deletes → (ℕ → ℕ) → ℕ → ℕ → World (Tables f) → Outcome f ℕ × World (Tables f)
  unfolding purge expired
  run_once env created_at cutoff batch w = purge env (expired created_at cutoff batch w.db.calls) w
