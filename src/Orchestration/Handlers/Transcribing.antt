-- ===== src/Orchestration/Handlers/Transcribing.antt =====
-- What `handle_transcription` of backend/app/orchestration/handlers.py does on every branch.
use call_audit_supervisor.Common.Float.{FloatOps}
use call_audit_supervisor.Common.{
  ℕ, ◌+◌, ◌≡◌, refl, ap, ◌∙◌, ◌⊎◌, inl, inr, true, false, none, some, List, ◌∷◌, String, ltb,
  Bool-cases, arith,
}
use call_audit_supervisor.Ratelimit.Backoff.{fatal, Outcome, value, raised}
use call_audit_supervisor.Ratelimit.Caps.{
  CapDecision, DailyUsage, day_of, check_and_reserve, postgres_store,
}
use call_audit_supervisor.Ratelimit.Caps.Counter.{
  count, postgres_store-IsCounter, deferred_unchanged,
}
use call_audit_supervisor.Orchestration.World.{World, Services}
use call_audit_supervisor.Orchestration.Handlers.{
  StepOutcome, park, deferred, JobView, given, submission, recording_exists, get_portfolio_pii_mode,
  limit_reason, submit_call, reserve_and_submit, handle_transcription,
}

module _ (f : FloatOps) (Rep : Type 0) (env : Services f) (cap now : ℕ) (job : JobView)
    (w : World Rep) where
  abbrev result : Outcome f StepOutcome × World Rep
  result = handle_transcription f Rep env cap now job w

  -- A job that has been submitted once is never submitted again: it is parked under the same id,
  -- with nothing else done.
  pub resubmits_never :
      (tid : String)
      → given job.transcript_id ≡ some tid
      → handle_transcription f Rep env cap now job w ≡ (value (park tid), w)
  unfolding handle_transcription
  resubmits_never tid h = rw (h, handle_transcription)

  -- A recording that is not in the store fails for good, before the cap or the provider is asked.
  pub missing_recording :
      given job.transcript_id ≡ none
      → recording_exists f Rep job.audio_uri w ≡ false
      → (m : String) × (handle_transcription f Rep env cap now job w ≡ (raised (fatal m), w))
  unfolding handle_transcription
  missing_recording h k = rw (h, handle_transcription) (rw (k, handle_transcription) (_, refl))

  abbrev slot : CapDecision × List DailyUsage
  slot = check_and_reserve postgres_store cap now job.portfolio_id w.db.usage

  slot_allowed : slot.0.allowed ≡ ltb (count w.db.usage job.portfolio_id (day_of now)) cap
  unfolding check_and_reserve
  slot_allowed = postgres_store-IsCounter.allows job.portfolio_id (day_of now) cap w.db.usage

  slot_unchanged : slot.0.allowed ≡ false → slot.1 ≡ w.db.usage
  unfolding check_and_reserve
  slot_unchanged h = deferred_unchanged job.portfolio_id (day_of now) cap w.db.usage h

  slot_counts :
      ltb (count w.db.usage job.portfolio_id (day_of now)) cap ≡ true
      → count slot.1 job.portfolio_id (day_of now)
        ≡ count w.db.usage job.portfolio_id (day_of now) + 1
  unfolding check_and_reserve
  slot_counts h = ground (
    arith,
    postgres_store-IsCounter.counts job.portfolio_id (day_of now) cap w.db.usage job.portfolio_id
        (day_of now),
  )

  passes :
      given job.transcript_id ≡ none
      → recording_exists f Rep job.audio_uri w ≡ true
      → handle_transcription f Rep env cap now job w ≡ reserve_and_submit f Rep env cap now job w
  unfolding handle_transcription
  passes h k = rw (h, handle_transcription) (rw (k, handle_transcription))

  over_cap :
      slot.0.allowed ≡ false
      → (reason : String) × (reserve_and_submit f Rep env cap now job w
          ≡ (value (deferred reason), w))
  unfolding reserve_and_submit
  over_cap h =
      rw (h, reserve_and_submit)
        (
          limit_reason f Rep slot.0,
          ap
              (λ u. (
                value (deferred (limit_reason f Rep slot.0)),
                record w { db = record w.db { usage = u } },
              ))
              (slot_unchanged h),
        )

  -- One request goes out, whatever the provider answers.
  submit_once :
      (v : World Rep)
      → let sent = submission f Rep env job (get_portfolio_pii_mode f Rep job.portfolio_id v) in
        let r = submit_call f Rep env job v in
        (r.1.submissions ≡ sent ∷ v.submissions)
        × (r.1.db ≡ v.db)
        × (r.0 ≡ (elim (env.submit sent) [ value tid ↦ value (park tid) | raised e ↦ raised e ]))
  unfolding submit_call
  submit_once v = ground arith

  under_cap :
      slot.0.allowed ≡ true
      → let sent = submission f Rep env job (get_portfolio_pii_mode f Rep job.portfolio_id w) in
        let r = reserve_and_submit f Rep env cap now job w in
        (r.1.submissions ≡ sent ∷ w.submissions)
        × (r.1.db ≡ record w.db { usage = slot.1 })
        × (r.0 ≡ (elim (env.submit sent) [ value tid ↦ value (park tid) | raised e ↦ raised e ]))
  unfolding reserve_and_submit get_portfolio_pii_mode
  under_cap h =
      rw (h, reserve_and_submit) (submit_once (record w { db = record w.db { usage = slot.1 } }))

  -- Past these tests the cap decides. Over the cap nothing is asked of the provider, nothing is
  -- counted, and the step is deferred. Under it the count of the day goes up by one and exactly one
  -- request goes out, with the redaction that the portfolio asks for now; the provider's answer
  -- parks the job or is raised.
  pub capped :
      given job.transcript_id ≡ none
      → recording_exists f Rep job.audio_uri w ≡ true
      → let used = count w.db.usage job.portfolio_id (day_of now) in
        let sent = submission f Rep env job (get_portfolio_pii_mode f Rep job.portfolio_id w) in
        ((ltb used cap ≡ false) × ((reason : String) × (result ≡ (value (deferred reason), w))))
        ⊎ ((ltb used cap ≡ true)
            × (result.1.submissions ≡ sent ∷ w.submissions)
            × (count result.1.db.usage job.portfolio_id (day_of now) ≡ used + 1)
            × (result.0
                ≡ (elim (env.submit sent) [ value tid ↦ value (park tid) | raised e ↦ raised e ])))
  capped h k =
      rw (passes h k)
        (elim (Bool-cases (ltb (count w.db.usage job.portfolio_id (day_of now)) cap)) [
          | inr e ↦ inl (e, over_cap (slot_allowed ∙ e))
          | inl e ↦
              let (sent, table, answer) = under_cap (slot_allowed ∙ e) in
              inr (e, sent, rw table (slot_counts e), answer)
        ])
