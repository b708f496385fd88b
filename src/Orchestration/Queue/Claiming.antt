-- ===== src/Orchestration/Queue/Claiming.antt =====
-- What a claim takes, and what it leaves to the other workers (`claim` of
-- backend/app/orchestration/queue.py).
use call_audit_supervisor.Common.{
  ℕ, ◌+◌, ◌≤◌, ◌≡◌, Bool, true, false, not, ◌&&◌, List, String, All, filter, length, min,
  update_where, if◌then◌else◌, ltb, ◌∙◌, ap, All-take, All-filter, All-update_where, All-map,
  All-filter_of, length-take, arith,
}
use call_audit_supervisor.Common.Sort.{
  sort_by, drop, All-sort_by, sort_by-IsSorted, take-before-drop, length-sort_by,
}
use call_audit_supervisor.Orchestration.States.{JobState, claimable, is_claimable}
use call_audit_supervisor.Orchestration.Queue.{
  Job, Jobs, is_due, micros, claimed_rows, lease, is_claimed, claim_update,
}

module _ (states : List JobState) (now batch : ℕ) (row_locked : Job → Bool) (jobs : Jobs) where
  eligible : Job → Bool
  eligible j = is_due states now j && not (row_locked j)

  -- A property of the rows of the table that are due and free holds of the claimed rows.
  All-claimed_rows {κ} :
      (P : Job → Type κ)
      → All P (filter eligible jobs)
      → All P (claimed_rows states now batch row_locked jobs)
  unfolding claimed_rows eligible
  All-claimed_rows P h =
      All-take P batch (sort_by (λ j. j.created_at) (filter eligible jobs))
        (All-sort_by (λ j. j.created_at) P (filter eligible jobs) h)

  abbrev pub Takeable : Job → Type 0
  Takeable j = (is_due states now j ≡ true) × (row_locked j ≡ false)

  takeable : (j : Job) → eligible j ≡ true → Takeable j
  unfolding eligible
  takeable j h = ground arith

  -- A claim takes only rows that are due and that no other transaction holds, as many of them as
  -- there are up to the batch, and those that were created first.
  pub claimed_rows_lem :
      let rows = claimed_rows states now batch row_locked jobs in
      let free =
        sort_by
          (λ j. j.created_at)
          (filter (λ j. is_due states now j && not (row_locked j)) jobs) in
      All Takeable rows
      × (length rows
          ≡ min batch (length (filter (λ j. is_due states now j && not (row_locked j)) jobs)))
      × All (λ x. All (λ y. x.created_at ≤ y.created_at) (drop (λ j. j.created_at) batch free)) rows
  unfolding claimed_rows eligible
  claimed_rows_lem =
      let free = filter eligible jobs in
      (
        All-claimed_rows Takeable
            (All-map (λ j. eligible j ≡ true) Takeable free takeable (All-filter eligible jobs)),
        length-take batch (sort_by (λ j. j.created_at) free)
            ∙ ap (min batch) (length-sort_by (λ j. j.created_at) free),
        take-before-drop (λ j. j.created_at) batch (sort_by (λ j. j.created_at) free)
            (sort_by-IsSorted (λ j. j.created_at) free),
      )

module _ (worker : String) (lease_seconds now : ℕ) (rows : Jobs) where
  leased : Job → Job
  leased j = if is_claimed rows j then lease worker lease_seconds now j else j

  -- A row of the first claim is not due again before its lease ends.
  leased_not_due :
      (states : List JobState) (now' : ℕ) (j : Job)
      → now' ≤ now + micros lease_seconds
      → is_due states now' (leased j) ≡ true
      → is_claimed rows (leased j) ≡ false
  unfolding leased is_due
  leased_not_due states now' j early due = ground arith

  -- While a lease lasts no other worker claims the job: whatever the second worker asks for, none
  -- of the rows that it gets is one of those that the first has claimed.
  pub claims_exclusive :
      (states : List JobState) (now' batch' : ℕ) (row_locked : Job → Bool) (jobs : Jobs)
      → now' ≤ now + micros lease_seconds
      → All
          (λ j. is_claimed rows j ≡ false)
          (claimed_rows states now' batch' row_locked
            (claim_update worker lease_seconds now rows jobs))
  unfolding claim_update leased eligible
  claims_exclusive states now' batch' row_locked jobs early =
      let table = update_where (is_claimed rows) (lease worker lease_seconds now) jobs in
      All-claimed_rows states now' batch' row_locked table (λ j. is_claimed rows j ≡ false)
        (All-filter_of (λ j. is_claimed rows j ≡ false)
          (eligible states now' batch' row_locked table) table
          (All-update_where _ (is_claimed rows) (lease worker lease_seconds now) jobs (λ j h.
            leased_not_due states now' j early
              (takeable states now' batch' row_locked table _ h).0)))

  -- Crash recovery: a job whose worker dies after the claim is due again exactly when the lease
  -- has ended.
  pub lease_recovers :
      (states : List JobState) (now' : ℕ) (j : Job)
      → is_due states now j ≡ true
      → now ≤ now'
      → is_due states now' (lease worker lease_seconds now j)
        ≡ ltb (now + micros lease_seconds) now'
  unfolding is_due
  lease_recovers states now' j due le = ground arith

due_claimable : (now : ℕ) (j : Job) → is_due claimable now j ≡ true → is_claimable j.state ≡ true
unfolding is_due is_claimable
due_claimable now j h = ground arith

-- The worker loop's claims, with `CLAIMABLE` for their states, never take a parked or a finished
-- job.
pub claim_skips_parked :
    (now batch : ℕ) (row_locked : Job → Bool) (jobs : Jobs)
    → All (λ j. is_claimable j.state ≡ true) (claimed_rows claimable now batch row_locked jobs)
claim_skips_parked now batch row_locked jobs =
    All-map _ (λ j. is_claimable j.state ≡ true) (claimed_rows claimable now batch row_locked jobs)
      (λ j h. due_claimable now j h.0) (claimed_rows_lem claimable now batch row_locked jobs).0
