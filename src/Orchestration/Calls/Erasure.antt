-- ===== src/Orchestration/Calls/Erasure.antt =====
-- What is left of a call that its users deleted (backend/app/api/calls.py).
use call_audit_supervisor.Common.Float.{FloatOps}
use call_audit_supervisor.Common.{
  ℕ, ◌≡◌, ◌≢◌, refl, sym, ◌∙◌, ◌⊎◌, inl, inr, Bool, true, not, none, some, List, [], ◌∷◌, All,
  All-filter, All-filter_keep, filter, find?, ◌==◌, Bool-cases, Option-cases,
}
use call_audit_supervisor.Ratelimit.Backoff.{Outcome, value, raised}
use call_audit_supervisor.Judge.Tables.{Report, Tables, of_call, delete_reports}
use call_audit_supervisor.Orchestration.Queue.{Job}
use call_audit_supervisor.Orchestration.World.{Call, JobError, Db, World, is_key, is_call_object}
use call_audit_supervisor.Orchestration.Calls.{
  Status, no_content, not_found, Deletes, drop_recording, drop_transcript, after, delete_objects,
  delete_row, finish_delete, is_call_of, delete_call,
}

pub find-filter_out :
    {A : Type 0} (p : A → Bool) (xs : List A) → find? p (filter (λ x. not (p x)) xs) ≡ none
find-filter_out p [] = refl
find-filter_out p (x ∷ xs) = elim (Bool-cases (p x)) [
  | inl e ↦ rw e (find-filter_out p xs)
  | inr e ↦ rw (e, e) (find-filter_out p xs)
]

pub find-filter-none :
    {A : Type 0} (p q : A → Bool) (xs : List A) → find? p xs ≡ none → find? p (filter q xs) ≡ none
find-filter-none p q [] h = refl
find-filter-none p q (x ∷ xs) h = elim (Bool-cases (p x)) [
  | inl e ↦ absurd (there x (sym (rw e refl) ∙ h))
  | inr e ↦ elim (Bool-cases (q x)) [
    | inl b ↦ rw (b, e) (find-filter-none p q xs (sym (rw e refl) ∙ h))
    | inr b ↦ rw b (find-filter-none p q xs (sym (rw e refl) ∙ h))
  ]
]
  where
    there : {A : Type 0} (x : A) → some x ≡ none → ⊥
    there x h = cc

module _ (f : FloatOps) where
  -- The recording and the transcript of a call are gone from the object stores.
  pub record ObjectsGone (c : Call) (w : World (Tables f)) : Type 0 where
    pub recording : find? (is_key c.r2_audio_uri) w.recordings ≡ none
    pub transcript : find? (is_call_object c.id) w.transcripts ≡ none

  -- No row of the database is the call, its job, an error of its job or a report of it.
  pub record RowsGone (k : ℕ) (db : Db (Tables f)) : Type 0 where
    pub calls : All (λ (c : Call). not (c.id == k) ≡ true) db.calls
    pub jobs : All (λ (j : Job). not (j.call_id == k) ≡ true) db.jobs
    pub job_errors : All (λ (x : JobError). not (x.call_id == k) ≡ true) db.job_errors
    pub reports : All (λ (r : Report f). not (of_call f k r) ≡ true) db.reports.reports

  pub record Erased (c : Call) (w : World (Tables f)) : Type 0 where
    pub objects : ObjectsGone c w
    pub rows : RowsGone c.id w.db

  pub delete_row-RowsGone : (k : ℕ) (db : Db (Tables f)) → RowsGone k (delete_row f k db)
  unfolding delete_row delete_reports
  delete_row-RowsGone k db = record {
    calls = All-filter (λ (c : Call). not (c.id == k)) db.calls;
    jobs = All-filter (λ (j : Job). not (j.call_id == k)) db.jobs;
    job_errors = All-filter (λ (x : JobError). not (x.call_id == k)) db.job_errors;
    reports = All-filter (λ (r : Report f). not (of_call f k r)) db.reports.reports;
  }

  pub delete_row-keeps :
      (j k : ℕ) (db : Db (Tables f)) → RowsGone j db → RowsGone j (delete_row f k db)
  unfolding delete_row delete_reports
  delete_row-keeps j k db h = record {
    calls = All-filter_keep _ _ db.calls h.calls;
    jobs = All-filter_keep _ _ db.jobs h.jobs;
    job_errors = All-filter_keep _ _ db.job_errors h.job_errors;
    reports = All-filter_keep _ _ db.reports.reports h.reports;
  }

  module _ (env : Deletes f) where
    -- The deletion of a call's objects leaves the database and the objects that were gone; when it
    -- returns, the call's are gone too.
    pub record ObjectStep (c : Call) (w : World (Tables f))
        (r : Outcome f (Unit {0}) × World (Tables f)) : Type 0 where
      pub database : r.1.db ≡ w.db
      pub keeps : (d : Call) → ObjectsGone d w → ObjectsGone d r.1
      pub gone : (r.0 ≢ value tt) ⊎ ObjectsGone c r.1

    keep_dropped :
        (c d : Call) (w : World (Tables f))
        → ObjectsGone d w
        → ObjectsGone d (drop_recording f c.r2_audio_uri w)
    keep_dropped c d w h = record {
      recording = find-filter-none (is_key d.r2_audio_uri) _ w.recordings h.recording;
      transcript = h.transcript;
    }

    keep_both :
        (c d : Call) (w : World (Tables f))
        → ObjectsGone d w
        → ObjectsGone d (drop_transcript f c.id (drop_recording f c.r2_audio_uri w))
    keep_both c d w h = record {
      recording = find-filter-none (is_key d.r2_audio_uri) _ w.recordings h.recording;
      transcript = find-filter-none (is_call_object d.id) _ w.transcripts h.transcript;
    }

    steps :
        (c : Call) (w : World (Tables f)) (a b e : Outcome f (Unit {0}))
        → ObjectStep c w (
            after f a
              (λ w.
                after f b
                  (λ w'. after f e (λ w''. (value tt, w'')) (drop_transcript f c.id w'))
                  (drop_recording f c.r2_audio_uri w))
              w)
    steps c w (raised x) b e = record { database = refl; keeps = λ d h. h; gone = inl (λ h. cc) }
    steps c w (value u) (raised x) e = record {
      database = refl;
      keeps = λ d h. keep_dropped c d w h;
      gone = inl (λ h. cc);
    }
    steps c w (value u) (value v) (raised x) = record {
      database = refl;
      keeps = λ d h. keep_both c d w h;
      gone = inl (λ h. cc);
    }
    steps c w (value u) (value v) (value x) = record {
      database = refl;
      keeps = λ d h. keep_both c d w h;
      gone = inr (record {
        recording = find-filter_out (is_key c.r2_audio_uri) w.recordings;
        transcript = find-filter_out (is_call_object c.id) w.transcripts;
      });
    }

    pub objects-step : (c : Call) (w : World (Tables f)) → ObjectStep c w (delete_objects f env c w)
    unfolding delete_objects
    objects-step c w =
        steps c w (env.delete_recording c.r2_audio_uri) (env.delete_transcript c.id)
          (env.delete_report c.id)

    -- The end of a deletion by a user: all is gone, or no row is.
    abbrev Deleted : ℕ → Call → World (Tables f) → Outcome f Status × World (Tables f) → Type 0
    Deleted k c w r =
        ((r.0 ≡ value no_content) × ObjectsGone c r.1 × RowsGone k r.1.db)
        ⊎ ((r.0 ≢ value no_content) × (r.1.db ≡ w.db))

    finish-Deleted :
        (k : ℕ) (c : Call) (w : World (Tables f)) (r : Outcome f (Unit {0}) × World (Tables f))
        → ObjectStep c w r
        → Deleted k c w (finish_delete f k r)
    finish-Deleted k c w (value u, v) h = elim h.gone [
      | inl bad ↦ absurd (bad refl)
      | inr gone ↦ inl (
        refl,
        record { recording = gone.recording; transcript = gone.transcript },
        delete_row-RowsGone k v.db,
      )
    ]
    finish-Deleted k c w (raised e, v) h = inr (λ h. cc, h.database)

    -- A call that is found is deleted or keeps all of its rows: when the deletion returns, its
    -- recording and its transcript are gone from the object stores, and no row is the call, its job,
    -- an error of its job or a report of it; when the object store raises, the database is as it was. A call that is not
    -- found changes nothing.
    pub delete_call_lem :
        (pid aid k : ℕ) (w : World (Tables f))
        → let r = delete_call f env pid aid k w in
          ((c : Call) × (find? (is_call_of f pid aid k) w.db.calls ≡ some c)
            × (((r.0 ≡ value no_content) × ObjectsGone c r.1 × RowsGone k r.1.db)
                ⊎ ((r.0 ≢ value no_content) × (r.1.db ≡ w.db))))
          ⊎ (r ≡ (value not_found, w))
    unfolding delete_call
    delete_call_lem pid aid k w = elim (Option-cases (find? (is_call_of f pid aid k) w.db.calls)) [
      | inl e ↦ rw e (inr refl)
      | inr (c, e) ↦
          rw e (inl (c, refl, finish-Deleted k c w (delete_objects f env c w) (objects-step c w)))
    ]
