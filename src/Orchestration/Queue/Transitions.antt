-- ===== src/Orchestration/Queue/Transitions.antt =====
-- How each statement of backend/app/orchestration/queue.py moves the rows along the state machine.
use call_audit_supervisor.Common.{
  ℕ, ◌≡◌, refl, ◌⊎◌, inl, inr, Bool, true, false, String, [], ◌∷◌, All, Rows, Rows-update_where,
  any, update_where, Bool-cases, arith, All-update_where,
}
use call_audit_supervisor.Orchestration.States.{awaiting_transcript, same_state, can_transition}
use call_audit_supervisor.Orchestration.Queue.{
  Job, Jobs, is_claimed, claim_update, set_job, fail_by_transcript, touch,
  advance_to_judge_by_transcript, is_awaiting, has_id, advancing, failing,
}

-- One row before and after: it stays the same job, and its state stays or takes one transition.
abbrev pub Moves : Job → Job → Type 0
Moves j j' =
    (j'.id ≡ j.id)
    × (j'.call_id ≡ j.call_id)
    × (j'.portfolio_id ≡ j.portfolio_id)
    × ((j'.state ≡ j.state) ⊎ (can_transition j.state j'.state ≡ true))

-- One row before and after, with its state and its attempts kept.
abbrev pub Stays : Job → Job → Type 0
Stays j j' = (j'.id ≡ j.id) × (j'.state ≡ j.state) × (j'.attempts ≡ j.attempts)

-- The statements that the workers, the webhook and the reconciler run without having claimed a
-- job move every row along the state machine only, whatever the table holds.
pub shared_statements_move :
    (now : ℕ) (tid reason : String) (k : ℕ) (worker : String) (seconds : ℕ) (rows jobs : Jobs)
    → Rows Moves jobs (advance_to_judge_by_transcript now tid jobs).1
      × Rows Moves jobs (fail_by_transcript now tid reason jobs).1
      × Rows Stays jobs (touch now k jobs)
      × Rows Stays jobs (claim_update worker seconds now rows jobs)
unfolding advance_to_judge_by_transcript fail_by_transcript touch claim_update is_awaiting
    can_transition
shared_statements_move now tid reason k worker seconds rows jobs = (
  Rows-update_where Moves (is_awaiting tid) _ jobs (λ j. ground arith),
  Rows-update_where Moves (is_awaiting tid) _ jobs (λ j. ground arith),
  Rows-update_where Stays (has_id k) _ jobs (λ j. ground arith),
  Rows-update_where Stays (is_claimed rows) _ jobs (λ j. ground arith),
)

any_none : (p : Job → Bool) (jobs : Jobs) → All (λ j. p j ≡ false) jobs → any p jobs ≡ false
any_none p [] h = refl
any_none p (j ∷ js) h = ground (arith, any_none p js h.1)

update_where_none :
    (p : Job → Bool) (f : Job → Job) (jobs : Jobs)
    → All (λ j. p j ≡ false) jobs
    → update_where p f jobs ≡ jobs
update_where_none p f [] h = refl
update_where_none p f (j ∷ js) h = ground (arith, update_where_none p f js h.1)

nothing_found :
    (p : Job → Bool) (f : Job → Job) (jobs : Jobs)
    → All (λ j. p j ≡ false) jobs
    → ◌≡◌ {A = Bool × Jobs} (any p jobs, update_where p f jobs) (false, jobs)
nothing_found p f jobs h = λ i. (any_none p jobs h i, update_where_none p f jobs h i)

-- After a transcript has come in (or has failed) no row awaits it.
none_awaiting :
    (tid : String) (f : Job → Job) (jobs : Jobs)
    → ((j : Job) → is_awaiting tid (f j) ≡ false)
    → All (λ j. is_awaiting tid j ≡ false) (update_where (is_awaiting tid) f jobs)
none_awaiting tid f jobs h =
    All-update_where (λ j. is_awaiting tid j ≡ false) (is_awaiting tid) f jobs
      (λ j. elim (Bool-cases (is_awaiting tid j)) [ inl e ↦ rw e (h j) | inr e ↦ rw e e ])

not_awaiting :
    (tid : String) (j : Job)
    → same_state j.state awaiting_transcript ≡ false
    → is_awaiting tid j ≡ false
unfolding is_awaiting
not_awaiting tid j h = ground arith

-- A webhook that is delivered again is a no-op, and so is an error that arrives after the
-- transcript did: no row changes, and the caller learns that none did.
pub redelivery_noop :
    (now later : ℕ) (tid reason : String) (jobs : Jobs)
    → let after = (advance_to_judge_by_transcript now tid jobs).1 in
      (advance_to_judge_by_transcript later tid after ≡ (false, after))
      × (fail_by_transcript later tid reason after ≡ (false, after))
unfolding advance_to_judge_by_transcript fail_by_transcript
redelivery_noop now later tid reason jobs =
    let after = update_where (is_awaiting tid) (advancing now) jobs in
    let still =
      none_awaiting tid (advancing now) jobs (λ j. not_awaiting tid (advancing now j) refl) in
    (
      nothing_found (is_awaiting tid) (advancing later) after still,
      nothing_found (is_awaiting tid) (failing later reason) after still,
    )

-- The same once the provider has failed a transcript: a second error and a late success find no
-- row.
pub failure_noop :
    (now later : ℕ) (tid reason reason' : String) (jobs : Jobs)
    → let after = (fail_by_transcript now tid reason jobs).1 in
      (fail_by_transcript later tid reason' after ≡ (false, after))
      × (advance_to_judge_by_transcript later tid after ≡ (false, after))
unfolding advance_to_judge_by_transcript fail_by_transcript
failure_noop now later tid reason reason' jobs =
    let after = update_where (is_awaiting tid) (failing now reason) jobs in
    let still =
      none_awaiting tid (failing now reason) jobs
        (λ j. not_awaiting tid (failing now reason j) refl) in
    (
      nothing_found (is_awaiting tid) (failing later reason') after still,
      nothing_found (is_awaiting tid) (advancing later) after still,
    )

-- What a claimed job's worker writes: on its own row, if that is still in the state in which it
-- was claimed, the row takes one transition; every other row is left as it is.
abbrev pub MovesOnly : ℕ → Job → Job → Type 0
MovesOnly k j j' = ((has_id k j ≡ false) → j' ≡ j) × (j'.id ≡ j.id)

pub set_job_others :
    (now k : ℕ) (assign : Job → Job) (jobs : Jobs)
    → ((j : Job) → (assign j).id ≡ j.id)
    → Rows (MovesOnly k) jobs (set_job now k assign jobs)
unfolding set_job
set_job_others now k assign jobs h =
    Rows-update_where (MovesOnly k) (has_id k) _ jobs (λ j. ground (arith, h j))
