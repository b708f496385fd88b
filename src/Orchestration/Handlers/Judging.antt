-- ===== src/Orchestration/Handlers/Judging.antt =====
-- What `handle_judge` of backend/app/orchestration/handlers.py may change, and what a failure
-- leaves alone.
use call_audit_supervisor.Common.Float.{FloatOps}
use call_audit_supervisor.Common.{
  ◌≡◌, ◌≢◌, refl, inl, inr, false, not, ◌&&◌, Option, none, some, String, Bool-cases, str_eq,
}
use call_audit_supervisor.Ratelimit.Backoff.{Error, Outcome, value, raised}
use call_audit_supervisor.Stt.{Transcript}
use call_audit_supervisor.Stt.Redaction.{PiiMode, redacts_transcript, redacts_recording}
use call_audit_supervisor.Judge.Audio.{AudioRef}
use call_audit_supervisor.Judge.Options.{ProcessingOption, option_of, needs_judge}
use call_audit_supervisor.Common.Codes.{codes}
use call_audit_supervisor.Orchestration.World.{
  World, Services, Call, put_object, stored_transcript, store_transcript,
}
use call_audit_supervisor.Orchestration.Handlers.{
  StepOutcome, complete, answer, write_transcript, record_uri, put_transcript, store_fetched,
  fetch_and_store, found_or_raise, transcript_at, ◌>>=◌, JobView, given, Judge, materialize,
  judge_and_redact, judge_under, set_transcript_uri, redact_stored_recording, redact_with, pure,
  option_name, resolve_audio, swap_and_complete, named_option, valid_option, JudgeRequest,
  judge_call_row, after_transcript, write_recording, keep_recording, download, replace_recording,
  run_judge, request, call_option,
}
use call_audit_supervisor.Orchestration.Handlers.Keeps.{Keeps, Fails, Keeps-bind, Fails-bind}

module _ (f : FloatOps) (Rep : Type 0) (judge : Judge f Rep) (env : Services f)
    (job : JobView) where
  -- A relation that each write of the handler respects.
  pub record Respected (mode : PiiMode) (R : World Rep → World Rep → Type 0) : Type 0 where
    pub same : (w : World Rep) → R w w
    pub trans : (u v w : World Rep) → R u v → R v w → R u w
    pub transcript :
        (t : Transcript) (w : World Rep)
        → redacts_transcript mode && not t.redacted ≡ false
        → R w (record w { transcripts = store_transcript job.call_id t w.transcripts })
    pub uri : (u : String) (w : World Rep) → R w (set_transcript_uri f Rep job.call_id u w)
    pub judged :
        (r : JudgeRequest) (w : World Rep)
        → r.call_id ≡ job.call_id
        → R w (record w { db = record w.db { reports = (judge r w.db.reports).1 } })

  module _ (mode : PiiMode) (R : World Rep → World Rep → Type 0) (keep : Respected mode R) where
    put-Keeps :
        (t : Transcript)
        → redacts_transcript mode && not t.redacted ≡ false
        → Keeps f Rep R (put_transcript f Rep env job.call_id t)
    put-Keeps t ok =
        Keeps-bind f Rep R keep.trans (answer f Rep env.put_transcript)
          (λ _. write_transcript f Rep job.call_id t) keep.same (λ u v. keep.transcript t v ok)

    -- Past the gate.
    store-Keeps :
        (t : Transcript)
        → redacts_transcript mode && not t.redacted ≡ false
        → Keeps f Rep R
            (◌>>=◌ f Rep (put_transcript f Rep env job.call_id t) (record_uri f Rep job t))
    store-Keeps t ok =
        Keeps-bind f Rep R keep.trans (put_transcript f Rep env job.call_id t)
          (record_uri f Rep job t) (put-Keeps t ok) (λ u v. keep.uri u v)

    store_fetched-Keeps : (t : Transcript) → Keeps f Rep R (store_fetched f Rep env mode job t)
    unfolding store_fetched
    store_fetched-Keeps t w = elim (Bool-cases (redacts_transcript mode && not t.redacted)) [
      | inl refused ↦ rw (refused, store_fetched) (keep.same w)
      | inr ok ↦ rw (ok, store_fetched) (store-Keeps t ok w)
    ]

    fetch-Keeps : (tid : Option String) → Keeps f Rep R (fetch_and_store f Rep env mode job tid)
    fetch-Keeps none = keep.same
    fetch-Keeps (some tid) =
        Keeps-bind f Rep R keep.trans
          (answer f Rep (env.fetch_transcript tid (redacts_transcript mode)))
          (store_fetched f Rep env mode job) keep.same store_fetched-Keeps

    found-Keeps : (t : Option Transcript) → Keeps f Rep R (found_or_raise f Rep t)
    found-Keeps none = keep.same
    found-Keeps (some t) = keep.same

    transcript_at-Keeps :
        (uri : Option String) → Keeps f Rep R (transcript_at f Rep env mode job uri)
    transcript_at-Keeps (some uri) w = found-Keeps (stored_transcript job.call_id w.transcripts) w
    transcript_at-Keeps none w = fetch-Keeps (given job.transcript_id) w

    pub materialize-Keeps : Keeps f Rep R (materialize f Rep env mode job)
    unfolding materialize
    materialize-Keeps = transcript_at-Keeps job.transcript_uri

    named-Keeps : (s : Option String) → Keeps f Rep R (named_option f Rep s)
    named-Keeps none w = keep.same w
    named-Keeps (some s) w = valid (option_of (codes s))
      where
        valid : (o : Option ProcessingOption) → R w (valid_option f Rep s o w).1
        valid none = keep.same w
        valid (some o) = keep.same w

    run_judge-Keeps :
        (r : JudgeRequest) → r.call_id ≡ job.call_id → Keeps f Rep R (run_judge f Rep judge r)
    run_judge-Keeps r own w = keep.judged r w own

    request-own :
        (t : Transcript) (call : Option Call) (o : ProcessingOption) (audio : Option AudioRef)
        → (request f Rep job call t o audio).call_id ≡ job.call_id
    request-own t none o audio = refl
    request-own t (some c) o audio = refl

    -- The swap of the recording never fails.
    swallow_value :
        {A : Type 0} (a : A) (o : Outcome f A) (w : World Rep) (e : Error f)
        → (elim o as (λ _. Outcome f A × World Rep) [
          | value b ↦ (value b, w)
          | raised e ↦ (value a, w)
        ]).0
          ≢ raised e
    swallow_value a (value b) w e h = cc
    swallow_value a (raised e') w e h = cc

    redact_with_value :
        (g : Option (Option String → Outcome f (Option String))) (w : World Rep) (e : Error f)
        → (redact_with f Rep env job g w).0 ≢ raised e
    redact_with_value none w e h = cc
    redact_with_value (some getter) w e h =
        swallow_value tt (replace_recording f Rep env getter job w).0
          (replace_recording f Rep env getter job w).1 e h

    redact_value :
        (w : World Rep) (e : Error f) → (redact_stored_recording f Rep env job w).0 ≢ raised e
    unfolding redact_stored_recording
    redact_value = redact_with_value env.redacted_audio_url

    completes :
        (m : Outcome f (Unit {0}) × World Rep) (e : Error f)
        → m.0 ≢ raised e
        → (elim m.0 as (λ _. Outcome f StepOutcome × World Rep) [
          | value a ↦ (value complete, m.1)
          | raised e ↦ (raised e, m.1)
        ]).0
          ≢ raised e
    completes (value a, w) e h eq = cc
    completes (raised e', w) e h eq = h (cc)

    swap_value :
        (w : World Rep) (e : Error f) → (swap_and_complete f Rep mode env job w).0 ≢ raised e
    swap_value w e = elim (Bool-cases (redacts_recording mode)) [
      | inl b ↦ rw b (completes (redact_stored_recording f Rep env job w) e (redact_value w e))
      | inr b ↦ rw b (λ h. cc)
    ]

    -- With the swap the step is over, so only what comes before it can have failed.
    judge_and_redact-Fails :
        (t : Transcript) (call : Option Call) (o : ProcessingOption)
        → Fails f Rep R (judge_and_redact f Rep mode judge env job t call o)
    unfolding judge_and_redact
    judge_and_redact-Fails t call o w e = elim (Bool-cases (needs_judge o)) [
      | inl b ↦ rw b (
          Fails-bind f Rep R keep.trans
            (run_judge f Rep judge (request f Rep job call t o (resolve_audio f Rep env job w)))
            (λ _. swap_and_complete f Rep mode env job) (run_judge-Keeps _ (request-own t call o _))
            (λ _ v e' h. absurd (swap_value v e' h)) w e)
      | inr b ↦ rw b (λ h. absurd (swap_value w e h))
    ]

    row-Fails :
        (t : Transcript) (call : Option Call)
        → Fails f Rep R (judge_call_row f Rep mode judge env job t call)
    row-Fails t call =
        Fails-bind f Rep R keep.trans (call_option f Rep call)
          (judge_and_redact f Rep mode judge env job t call) (named-Keeps (option_name f Rep call))
          (judge_and_redact-Fails t call)

    pub judge_under-Fails : Fails f Rep R (judge_under f Rep mode judge env job)
    unfolding judge_under
    judge_under-Fails =
        Fails-bind f Rep R keep.trans (materialize f Rep env mode job)
          (after_transcript f Rep mode judge env job) materialize-Keeps (λ t w. row-Fails t _ w)

    -- Where the relation allows the swap too, it holds however the step ends.
    module _
        (swap : (bytes : String) (w : World Rep)
          → R w (record w { recordings = put_object job.audio_uri bytes w.recordings })) where
      keep_recording-Keeps :
          (bytes : String) → Keeps f Rep R (keep_recording f Rep env job.audio_uri bytes)
      keep_recording-Keeps bytes w = elim (Bool-cases (str_eq bytes "")) [
        | inl b ↦ rw b (keep.same w)
        | inr b ↦ rw b (
            Keeps-bind f Rep R keep.trans (answer f Rep env.put_recording)
              (λ _. write_recording f Rep job.audio_uri bytes) keep.same (λ _. swap bytes) w)
      ]

      download-Keeps : (u : Option String) → Keeps f Rep R (download f Rep env job u)
      download-Keeps none w = keep.same w
      download-Keeps (some u) w =
          Keeps-bind f Rep R keep.trans (answer f Rep (env.http_get u))
            (keep_recording f Rep env job.audio_uri) keep.same keep_recording-Keeps w

      swallow-Keeps :
          {A : Type 0} (a : A) (o : Outcome f A) (v w : World Rep)
          → R v w
          → R v
              (elim o as (λ _. Outcome f A × World Rep) [
                | value b ↦ (value b, w)
                | raised e ↦ (value a, w)
              ]).1
      swallow-Keeps a (value b) v w h = h
      swallow-Keeps a (raised e) v w h = h

      redact_with-Keeps :
          (g : Option (Option String → Outcome f (Option String)))
          → Keeps f Rep R (redact_with f Rep env job g)
      redact_with-Keeps none w = keep.same w
      redact_with-Keeps (some getter) w =
          swallow-Keeps tt (replace_recording f Rep env getter job w).0 w
            (replace_recording f Rep env getter job w).1
            (Keeps-bind f Rep R keep.trans (answer f Rep (getter job.transcript_id))
              (λ url. download f Rep env job (given url)) keep.same
              (λ url. download-Keeps (given url)) w)

      redact-Keeps : Keeps f Rep R (redact_stored_recording f Rep env job)
      unfolding redact_stored_recording
      redact-Keeps = redact_with-Keeps env.redacted_audio_url

      swap-Keeps : Keeps f Rep R (swap_and_complete f Rep mode env job)
      swap-Keeps w = elim (Bool-cases (redacts_recording mode)) [
        | inl b ↦ rw b (
            Keeps-bind f Rep R keep.trans (redact_stored_recording f Rep env job)
              (λ _. pure f Rep complete) redact-Keeps (λ _. keep.same) w)
        | inr b ↦ rw b (keep.same w)
      ]

      judge_and_redact-Keeps :
          (t : Transcript) (call : Option Call) (o : ProcessingOption)
          → Keeps f Rep R (judge_and_redact f Rep mode judge env job t call o)
      unfolding judge_and_redact
      judge_and_redact-Keeps t call o w = elim (Bool-cases (needs_judge o)) [
        | inl b ↦ rw b (
            Keeps-bind f Rep R keep.trans
              (run_judge f Rep judge (request f Rep job call t o (resolve_audio f Rep env job w)))
              (λ _. swap_and_complete f Rep mode env job)
              (run_judge-Keeps _ (request-own t call o _)) (λ _. swap-Keeps) w)
        | inr b ↦ rw b (swap-Keeps w)
      ]

      row-Keeps :
          (t : Transcript) (call : Option Call)
          → Keeps f Rep R (judge_call_row f Rep mode judge env job t call)
      row-Keeps t call =
          Keeps-bind f Rep R keep.trans (call_option f Rep call)
            (judge_and_redact f Rep mode judge env job t call)
            (named-Keeps (option_name f Rep call)) (judge_and_redact-Keeps t call)

      pub judge_under-Keeps : Keeps f Rep R (judge_under f Rep mode judge env job)
      unfolding judge_under
      judge_under-Keeps =
          Keeps-bind f Rep R keep.trans (materialize f Rep env mode job)
            (after_transcript f Rep mode judge env job) materialize-Keeps (λ t w. row-Keeps t _ w)
