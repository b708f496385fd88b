-- ===== src/Orchestration/Calls/Quota.antt =====
-- The registration of uploaded recordings (backend/app/api/calls.py).
use call_audit_supervisor.Common.{
  ℕ, ◌+◌, ◌≤◌, ◌≡◌, ◌≢◌, refl, sym, ◌∙◌, ◌⊎◌, inl, inr, Bool, true, false, none, List, [], ◌∷◌,
  ◌++◌, All, map, filter, length, ltb, ==_refl, Bool-cases, arith,
}
use call_audit_supervisor.Orchestration.States.{pending_transcription}
use call_audit_supervisor.Orchestration.Queue.{Job, enqueue}
use call_audit_supervisor.Orchestration.World.{Db, World}
use call_audit_supervisor.Orchestration.Calls.{
  created, Agent, UploadedKey, Selection, max_inflight_per_portfolio, is_in_flight, inflight_count,
  in_scope, every, call_of, register_key, register_keys, has_agent, register_calls,
}

append_assoc : {A : Type 0} (xs ys zs : List A) → (xs ++ ys) ++ zs ≡ xs ++ (ys ++ zs)
append_assoc [] ys zs = refl
append_assoc (x ∷ xs) ys zs = λ i. x ∷ append_assoc xs ys zs i

append_none : {A : Type 0} (xs : List A) → xs ++ [] ≡ xs
append_none [] = refl
append_none (x ∷ xs) = λ i. x ∷ append_none xs i

count-append :
    (p : Job → Bool) (xs ys : List Job)
    → length (filter p (xs ++ ys)) ≡ length (filter p xs) + length (filter p ys)
count-append p [] ys = omega arith
count-append p (x ∷ xs) ys = ground (arith, count-append p xs ys)

every-All :
    (p : UploadedKey → Bool) (ks : List UploadedKey) → every p ks ≡ true → All (λ k. p k ≡ true) ks
every-All p [] h = tt
every-All p (k ∷ ks) h = elim (Bool-cases (p k)) [
  | inl e ↦ (e, every-All p ks (sym (rw e refl) ∙ h))
  | inr e ↦ absurd (never (sym (rw e refl) ∙ h))
]
  where
    never : false ≡ true → ⊥
    never h = cc

module _ (Rep : Type 0) (now max_attempts : ℕ) (pid aid : ℕ) (sel : Selection) where
  -- A registered recording is in flight.
  register_key-count :
      (k : UploadedKey) (db : Db Rep)
      → inflight_count pid (register_key Rep now max_attempts pid aid sel k db).jobs
        ≡ inflight_count pid db.jobs + 1
  unfolding inflight_count enqueue
  register_key-count k db = count-append (is_in_flight pid) db.jobs _ ∙ rw (==_refl pid) refl

  register_keys-count :
      (ks : List UploadedKey) (db : Db Rep)
      → inflight_count pid (register_keys Rep now max_attempts pid aid sel ks db).jobs
        ≡ inflight_count pid db.jobs + length ks
  unfolding register_keys
  register_keys-count [] db = omega arith
  register_keys-count (k ∷ ks) db = omega (
    arith,
    register_keys-count ks (register_key Rep now max_attempts pid aid sel k db),
    register_key-count k db,
  )

  register_keys-calls :
      (ks : List UploadedKey) (db : Db Rep)
      → (register_keys Rep now max_attempts pid aid sel ks db).calls
        ≡ db.calls ++ map (call_of pid aid sel) ks
  unfolding register_keys
  register_keys-calls [] db = sym (append_none db.calls)
  register_keys-calls (k ∷ ks) db =
      register_keys-calls ks (register_key Rep now max_attempts pid aid sel k db)
      ∙ append_assoc db.calls (call_of pid aid sel k ∷ []) (map (call_of pid aid sel) ks)

  -- The job that a key becomes: it belongs to the key's call, waits for the transcription and has
  -- used no attempt.
  abbrev pub job_of : UploadedKey → Job
  job_of k = record {
    id = k.job_id;
    call_id = k.call_id;
    portfolio_id = pid;
    state = pending_transcription;
    attempts = 0;
    max_attempts = max_attempts;
    next_attempt_at = now;
    locked_by = none;
    locked_until = none;
    transcript_id = none;
    last_error = none;
    created_at = now;
    updated_at = now;
  }

  register_keys-jobs :
      (ks : List UploadedKey) (db : Db Rep)
      → (register_keys Rep now max_attempts pid aid sel ks db).jobs ≡ db.jobs ++ map job_of ks
  unfolding register_keys enqueue
  register_keys-jobs [] db = sym (append_none db.jobs)
  register_keys-jobs (k ∷ ks) db =
      register_keys-jobs ks (register_key Rep now max_attempts pid aid sel k db)
      ∙ append_assoc db.jobs (job_of k ∷ []) (map job_of ks)

  module _ (agents : List Agent) (items : List UploadedKey) (w : World Rep) where
    -- What an accepted registration does.
    pub record Registered (w' : World Rep) : Type 0 where
      pub counted : inflight_count pid w'.db.jobs ≡ inflight_count pid w.db.jobs + length items
      pub within : inflight_count pid w'.db.jobs ≤ max_inflight_per_portfolio
      pub calls : w'.db.calls ≡ w.db.calls ++ map (call_of pid aid sel) items
      pub jobs : w'.db.jobs ≡ w.db.jobs ++ map job_of items
      pub scoped : All (λ k. in_scope pid aid k ≡ true) items

    -- A registration is accepted or changes nothing. When it is accepted, every key lies under the
    -- prefix of the portfolio and its folder, each key becomes one call, in the order of the keys,
    -- and one new job that belongs to that call, and at most ten recordings of the portfolio are in
    -- flight then.
    pub register_calls_lem :
        let (s, w') = register_calls Rep now max_attempts pid aid sel agents items w in
        ((s ≡ created) × Registered w') ⊎ ((s ≢ created) × (w' ≡ w))
    unfolding register_calls
    register_calls_lem = elim (Bool-cases (has_agent Rep now max_attempts pid aid sel agents)) [
      | inr e ↦ rw e (inr (λ h. cc, refl))
      | inl e ↦ elim (Bool-cases (every (in_scope pid aid) items)) [
        | inr q ↦ rw (e, q) (inr (λ h. cc, refl))
        | inl q ↦
            elim (Bool-cases
              (ltb max_inflight_per_portfolio (inflight_count pid w.db.jobs + length items))) [
                | inl full ↦ rw (e, q, full) (inr (λ h. cc, refl))
                | inr room ↦
                    rw (e, q, room)
                      (inl (
                        refl,
                        record {
                          counted = register_keys-count items w.db;
                          within = ground (arith, register_keys-count items w.db, room);
                          calls = register_keys-calls items w.db;
                          jobs = register_keys-jobs items w.db;
                          scoped = every-All (in_scope pid aid) items q;
                        },
                      ))
              ]
      ]
    ]
