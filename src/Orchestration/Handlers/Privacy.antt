-- ===== src/Orchestration/Handlers/Privacy.antt =====
-- What the judging step of backend/app/orchestration/handlers.py may store, and what it leaves
-- alone: redaction, the stored recording, and the tables of the queue.
use call_audit_supervisor.Common.Float.{FloatOps}
use call_audit_supervisor.Common.{
  ℕ, ◌≡◌, refl, ◌⊎◌, inl, inr, true, false, Option, some, List, [], ◌∷◌, String, str_eq, str_eq_iff,
  if◌then◌else◌, arith, ◌∙◌, ◌==◌, Bool-cases,
}
use call_audit_supervisor.Ratelimit.Backoff.{Error, raised}
use call_audit_supervisor.Stt.{Transcript}
use call_audit_supervisor.Stt.Redaction.{PiiMode, redacts_transcript}
use call_audit_supervisor.Orchestration.World.{
  World, Services, object, put_object, stored_transcript, store_transcript,
}
use call_audit_supervisor.Orchestration.Handlers.{
  JobView, Judge, handle_judge, get_portfolio_pii_mode,
}
use call_audit_supervisor.Orchestration.Handlers.Judging.{
  Respected, judge_under-Keeps, judge_under-Fails,
}

stored-store :
    (c d : ℕ) (t : Transcript) (xs : List (ℕ × Transcript))
    → stored_transcript d (store_transcript c t xs)
      ≡ (if c == d then some t else stored_transcript d xs)
stored-store c d t [] = ground arith
stored-store c d t ((k, v) ∷ xs) = ground (arith, stored-store c d t xs)

object-put :
    (k j : String) (b : String) (xs : List (String × String))
    → str_eq k j ≡ false
    → object j (put_object k b xs) ≡ object j xs
object-put k j b [] h = ground (arith, str_eq_iff k j)
object-put k j b ((i, v) ∷ xs) h =
    ground (arith, object-put k j b xs h, str_eq_iff i k, str_eq_iff i j, str_eq_iff k j)

module _ (f : FloatOps) (Rep : Type 0) (judge : Judge f Rep) (env : Services f) (job : JobView)
    (w : World Rep) where
  mode : PiiMode
  mode = get_portfolio_pii_mode f Rep job.portfolio_id w

  abbrev after : World Rep
  after = (handle_judge f Rep judge env job w).1

  -- A call's transcript is the one that was stored before, or a new one that the provider redacted.
  abbrev pub IsRedactedNew : Option Transcript → Option Transcript → Type 0
  IsRedactedNew old new = (new ≡ old) ⊎ ((t : Transcript) × (new ≡ some t) × (t.redacted ≡ true))

  IsRedactedNew-trans :
      (x y z : Option Transcript) → IsRedactedNew x y → IsRedactedNew y z → IsRedactedNew x z
  IsRedactedNew-trans x y z (inl p) (inl q) = inl (q ∙ p)
  IsRedactedNew-trans x y z (inr (t, p, r)) (inl q) = inr (t, q ∙ p, r)
  IsRedactedNew-trans x y z h (inr r) = inr r

  Private : World Rep → World Rep → Type 0
  Private u v =
      (c : ℕ)
      → IsRedactedNew (stored_transcript c u.transcripts) (stored_transcript c v.transcripts)

  Private-Respected : redacts_transcript mode ≡ true → Respected f Rep judge env job mode Private
  unfolding Private
  Private-Respected on = record {
    same = λ u c. inl refl;
    trans = λ u v x h k c. IsRedactedNew-trans _ _ _ (h c) (k c);
    transcript = λ t u gate c. elim (Bool-cases (job.call_id == c)) [
      | inl e ↦ inr (t, stored-store job.call_id c t u.transcripts ∙ rw e, ground arith)
      | inr e ↦ inl (stored-store job.call_id c t u.transcripts ∙ rw e)
    ];
    uri = λ k u c. inl refl;
    judged = λ r u own c. inl refl;
  }

  -- With redaction on for the portfolio, the step stores no transcript that the provider did not
  -- redact, whatever the provider returns and however the step ends.
  pub only_redacted_stored :
      redacts_transcript (get_portfolio_pii_mode f Rep job.portfolio_id w) ≡ true
      → (c : ℕ)
      → IsRedactedNew
          (stored_transcript c w.transcripts)
          (stored_transcript c (handle_judge f Rep judge env job w).1.transcripts)
  unfolding handle_judge Private mode
  only_redacted_stored on =
      judge_under-Keeps f Rep judge env job mode Private (Private-Respected on) (λ b u c. inl refl)
        w

  SameRecordings : World Rep → World Rep → Type 0
  SameRecordings u v = v.recordings ≡ u.recordings

  -- A step that fails leaves every recording as it was: the retry still finds the original audio.
  pub failure_keeps_recordings :
      (e : Error f)
      → (handle_judge f Rep judge env job w).0 ≡ raised e
      → (handle_judge f Rep judge env job w).1.recordings ≡ w.recordings
  unfolding handle_judge SameRecordings mode
  failure_keeps_recordings =
      judge_under-Fails f Rep judge env job mode SameRecordings
        (record {
          same = λ u. refl;
          trans = λ u v x h k. k ∙ h;
          transcript = λ t u g. refl;
          uri = λ k u. refl;
          judged = λ r u own. refl;
        })
        w

  -- What the step leaves alone.
  pub record Framed (u v : World Rep) : Type 0 where
    pub jobs : v.db.jobs ≡ u.db.jobs
    pub usage : v.db.usage ≡ u.db.usage
    pub portfolios : v.db.portfolios ≡ u.db.portfolios
    pub job_errors : v.db.job_errors ≡ u.db.job_errors
    pub events : v.db.events ≡ u.db.events
    pub submissions : v.submissions ≡ u.submissions
    pub others :
        (key : String) → (job.audio_uri ≡ key) ⊎ (object key v.recordings ≡ object key u.recordings)

  -- The step touches no job, no count of the daily cap, no portfolio, no error record and no
  -- notification; it submits nothing to the provider; and of the recordings it can replace the
  -- call's own only.
  pub handle_judge-Framed : Framed w (handle_judge f Rep judge env job w).1
  unfolding handle_judge mode
  handle_judge-Framed =
      judge_under-Keeps f Rep judge env job mode Framed
        (record {
          same = same;
          trans = λ u v x h k. record {
            jobs = k.jobs ∙ h.jobs;
            usage = k.usage ∙ h.usage;
            portfolios = k.portfolios ∙ h.portfolios;
            job_errors = k.job_errors ∙ h.job_errors;
            events = k.events ∙ h.events;
            submissions = k.submissions ∙ h.submissions;
            others = λ key. either (h.others key) (k.others key);
          };
          transcript = λ t u g. record {
            jobs = refl;
            usage = refl;
            portfolios = refl;
            job_errors = refl;
            events = refl;
            submissions = refl;
            others = λ key. inr refl;
          };
          uri = λ k u. record {
            jobs = refl;
            usage = refl;
            portfolios = refl;
            job_errors = refl;
            events = refl;
            submissions = refl;
            others = λ key. inr refl;
          };
          judged = λ r u own. record {
            jobs = refl;
            usage = refl;
            portfolios = refl;
            job_errors = refl;
            events = refl;
            submissions = refl;
            others = λ key. inr refl;
          };
        })
        (λ b u. record {
          jobs = refl;
          usage = refl;
          portfolios = refl;
          job_errors = refl;
          events = refl;
          submissions = refl;
          others = λ key. put_other key b u;
        })
        w
    where
      either :
          {key : String} {x y z : Option String}
          → (job.audio_uri ≡ key) ⊎ (y ≡ x)
          → (job.audio_uri ≡ key) ⊎ (z ≡ y)
          → (job.audio_uri ≡ key) ⊎ (z ≡ x)
      either (inl e) q = inl e
      either (inr p) (inl e) = inl e
      either (inr p) (inr q) = inr (q ∙ p)

      put_other :
          (key b : String) (u : World Rep)
          → (job.audio_uri ≡ key)
            ⊎ (object key (put_object job.audio_uri b u.recordings) ≡ object key u.recordings)
      put_other key b u = elim (Bool-cases (str_eq job.audio_uri key)) [
        | inl e ↦ inl ((str_eq_iff job.audio_uri key).0 e)
        | inr e ↦ inr (object-put job.audio_uri key b u.recordings e)
      ]

      same : (u : World Rep) → Framed u u
      same u = record {
        jobs = refl;
        usage = refl;
        portfolios = refl;
        job_errors = refl;
        events = refl;
        submissions = refl;
        others = λ key. inr refl;
      }
