-- ===== src/Orchestration/Queue.antt =====
-- backend/app/orchestration/queue.py: the durable queue, one function for each SQL statement.
-- The `jobs` table is a list of rows. `now` is the time of the transaction (`now()` in SQL), in
-- microseconds. Each statement is atomic; a row that another transaction has locked is skipped by
-- a claim (`FOR UPDATE SKIP LOCKED`), and which rows those are is an argument of it.
pub mod Claiming
pub mod Transitions
use call_audit_supervisor.Common.{
  ℕ, suc, ◌+◌, ◌*◌, Bool, true, false, not, ◌&&◌, ◌||◌, Option, none, some, List, [], ◌∷◌, map,
  ◌++◌, String, take, filter, find?, any, update_where, contains, ltb, leb, ◌==◌, str_eq,
  if◌then◌else◌,
}
use call_audit_supervisor.Common.Sort.{sort_by}
use call_audit_supervisor.Orchestration.States.{
  JobState, pending_transcription, awaiting_transcript, pending_judge, done, failed, same_state,
  elem_state,
}

-- `Job` of backend/app/models/__init__.py.
pub record Job : Type 0 where
  pub id : ℕ
  pub call_id : ℕ
  pub portfolio_id : ℕ
  pub state : JobState
  pub attempts : ℕ
  pub max_attempts : ℕ
  pub next_attempt_at : ℕ
  pub locked_by : Option String
  pub locked_until : Option ℕ
  pub transcript_id : Option String
  pub last_error : Option String
  pub created_at : ℕ
  pub updated_at : ℕ

abbrev pub Jobs : Type 0
Jobs = List Job

-- The columns of `Call` that the queue and the handlers read.
pub record CallUris : Type 0 where
  pub call_id : ℕ
  pub r2_audio_uri : String
  pub r2_transcript_uri : Option String

pub record ClaimedJob : Type 0 where
  pub id : ℕ
  pub call_id : ℕ
  pub portfolio_id : ℕ
  pub state : JobState
  pub attempts : ℕ
  pub max_attempts : ℕ
  pub transcript_id : Option String
  pub audio_uri : String
  pub transcript_uri : Option String

-- `locked_until IS NULL OR locked_until < now()`
abbrev pub is_unleased : ℕ → Option ℕ → Bool
is_unleased now none = true
is_unleased now (some until) = ltb until now

-- The `WHERE` clause of `_CLAIM_SQL`.
unfoldable pub is_due : List JobState → ℕ → Job → Bool
is_due claimable_states now j =
    elem_state j.state claimable_states
    && leb j.next_attempt_at now
    && is_unleased now j.locked_until

abbrev pub micros : ℕ → ℕ
micros seconds = seconds * 1000000

-- The rows that `WITH claimed AS …` selects.
unfoldable pub claimed_rows : List JobState → ℕ → ℕ → (Job → Bool) → Jobs → Jobs
claimed_rows claimable_states now batch row_locked jobs = take batch (
    sort_by (λ j. j.created_at)
      (filter (λ j. is_due claimable_states now j && not (row_locked j)) jobs))

abbrev pub lease : String → ℕ → ℕ → Job → Job
lease worker_id lease_seconds now j = record j {
  locked_by = some worker_id;
  locked_until = some (now + micros lease_seconds);
  updated_at = now;
}

abbrev pub has_id : ℕ → Job → Bool
has_id k j = j.id == k

abbrev pub is_claimed : Jobs → Job → Bool
is_claimed rows j = any (has_id j.id) rows

-- `UPDATE jobs j SET … FROM claimed WHERE j.id = claimed.id`
unfoldable pub claim_update : String → ℕ → ℕ → Jobs → Jobs → Jobs
claim_update worker_id lease_seconds now rows jobs =
    update_where (is_claimed rows) (lease worker_id lease_seconds now) jobs

abbrev is_call : ℕ → CallUris → Bool
is_call k c = c.call_id == k

-- The columns of the job's call; a job's call is there, by the foreign key.
abbrev with_uris : Job → Option CallUris → List ClaimedJob
with_uris j none = []
with_uris j (some c) =
    record {
      id = j.id;
      call_id = j.call_id;
      portfolio_id = j.portfolio_id;
      state = j.state;
      attempts = j.attempts;
      max_attempts = j.max_attempts;
      transcript_id = j.transcript_id;
      audio_uri = c.r2_audio_uri;
      transcript_uri = c.r2_transcript_uri;
    }
    ∷ []

pub with_calls : List CallUris → Jobs → List ClaimedJob
with_calls calls [] = []
with_calls calls (j ∷ js) = with_uris j (find? (is_call j.call_id) calls) ++ with_calls calls js

unfoldable pub claim :
    String
    → ℕ
    → ℕ
    → List JobState
    → ℕ
    → (Job → Bool)
    → List CallUris
    → Jobs
    → List ClaimedJob × Jobs
unfolding with_calls
claim worker_id batch lease_seconds claimable_states now row_locked calls jobs =
    let rows = claimed_rows claimable_states now batch row_locked jobs in
    (with_calls calls rows, claim_update worker_id lease_seconds now rows jobs)

-- `_set`: the assignments of the caller, and the lease is given up.
abbrev pub release : ℕ → Job → Job
release now j = record j { updated_at = now; locked_by = none; locked_until = none }

unfoldable pub set_job : ℕ → ℕ → (Job → Job) → Jobs → Jobs
set_job now job_id assign jobs = update_where (has_id job_id) (λ j. release now (assign j)) jobs

unfoldable pub park : ℕ → ℕ → String → Jobs → Jobs
unfolding set_job
park now job_id tid =
    set_job now job_id
      (λ j. record j { state = awaiting_transcript; transcript_id = some tid; last_error = none })

unfoldable pub complete : ℕ → ℕ → Jobs → Jobs
unfolding set_job
complete now job_id = set_job now job_id (λ j. record j { state = done; last_error = none })

unfoldable pub defer : ℕ → ℕ → ℕ → String → Jobs → Jobs
unfolding set_job
defer now job_id next_at reason =
    set_job now job_id (λ j. record j { next_attempt_at = next_at; last_error = some reason })

unfoldable pub schedule_retry : ℕ → ℕ → ℕ → ℕ → String → Jobs → Jobs
unfolding set_job
schedule_retry now job_id attempts' next_at error =
    set_job now job_id
      (λ j. record j { attempts = attempts'; next_attempt_at = next_at; last_error = some error })

unfoldable pub dead_letter : ℕ → ℕ → ℕ → String → Jobs → Jobs
unfolding set_job
dead_letter now job_id attempts' error =
    set_job now job_id
      (λ j. record j { state = failed; attempts = attempts'; last_error = some error })

unfoldable pub mark_failed : ℕ → ℕ → String → Jobs → Jobs
unfolding set_job
mark_failed now job_id reason =
    set_job now job_id (λ j. record j { state = failed; last_error = some reason })

-- `transcript_id = :tid`, which is not true of NULL
abbrev pub has_transcript : String → Option String → Bool
has_transcript tid none = false
has_transcript tid (some t) = str_eq t tid

-- `WHERE transcript_id = :tid AND state = :awaiting`
unfoldable pub is_awaiting : String → Job → Bool
is_awaiting tid j = has_transcript tid j.transcript_id && same_state j.state awaiting_transcript

abbrev pub failing : ℕ → String → Job → Job
failing now reason j = record (release now j) { state = failed; last_error = some reason }

-- Whether a row was updated, and the table.
unfoldable pub fail_by_transcript : ℕ → String → String → Jobs → Bool × Jobs
fail_by_transcript now tid reason jobs =
    (any (is_awaiting tid) jobs, update_where (is_awaiting tid) (failing now reason) jobs)

unfoldable pub touch : ℕ → ℕ → Jobs → Jobs
touch now job_id = update_where (has_id job_id) (λ j. record j { updated_at = now })

abbrev pub advancing : ℕ → Job → Job
advancing now j = record (release now j) {
  state = pending_judge;
  next_attempt_at = now;
  last_error = none;
}

unfoldable pub advance_to_judge_by_transcript : ℕ → String → Jobs → Bool × Jobs
advance_to_judge_by_transcript now tid jobs =
    (any (is_awaiting tid) jobs, update_where (is_awaiting tid) (advancing now) jobs)

-- `updated_at < now() - make_interval(secs => :overdue)`
unfoldable pub is_overdue : ℕ → ℕ → Job → Bool
is_overdue now overdue_seconds j =
    same_state j.state awaiting_transcript && ltb (j.updated_at + micros overdue_seconds) now

unfoldable pub find_overdue_awaiting : ℕ → ℕ → Jobs → List (ℕ × Option String)
find_overdue_awaiting now overdue_seconds jobs =
    map (λ j. (j.id, j.transcript_id)) (filter (is_overdue now overdue_seconds) jobs)

-- `job_id` is the key that the database generates.
unfoldable pub enqueue : ℕ → ℕ → ℕ → ℕ → ℕ → Jobs → Jobs
enqueue now job_id call portfolio max_attempts jobs =
    jobs
    ++ record {
      id = job_id;
      call_id = call;
      portfolio_id = portfolio;
      state = pending_transcription;
      attempts = 0;
      max_attempts = max_attempts;
      next_attempt_at = now;
      locked_by = none;
      locked_until = none;
      transcript_id = none;
      last_error = none;
      created_at = now;
      updated_at = now;
    }
      ∷ []
