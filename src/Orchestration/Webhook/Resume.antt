-- ===== src/Orchestration/Webhook/Resume.antt =====
-- What the webhook (backend/app/api/webhooks.py) and the reconciler
-- (backend/app/orchestration/reconciler.py) do to the parked jobs.
use call_audit_supervisor.Common.{
  ℕ, ◌≡◌, refl, ap, ◌⊎◌, inl, inr, Bool, true, false, not, Option, none, some, List, [], String,
  str_eq, str_eq_iff, Rows, Rows-refl, if◌then◌else◌, Bool-cases, arith,
}
use call_audit_supervisor.Orchestration.Queue.{Job, Jobs, advance_to_judge_by_transcript}
use call_audit_supervisor.Orchestration.Queue.Transitions.{
  Moves, shared_statements_move, redelivery_noop, failure_noop,
}
use call_audit_supervisor.Orchestration.World.{Event}
use call_audit_supervisor.Orchestration.Webhook.{
  Request, Response, ok, unauthorized, bad_request, verify, act, completed, or_empty, event_for,
  transcript_of, status_is, assemblyai_webhook,
}

either : {A : Type 0} (P : A → Type 0) (b : Bool) (x y : A) → P x → P y → P (if b then x else y)
either P true x y p q = p
either P false x y p q = q

act-Moves :
    (now : ℕ) (tid : String) (r : Request) (jobs : Jobs) (events : List Event)
    → Rows Moves jobs (act now tid r jobs events).0
act-Moves now tid r jobs events =
    let (advanced, errored, touched, leased) =
      shared_statements_move now tid "AssemblyAI returned error" 0 "" 0 [] jobs in
    either (λ (x : Jobs × List Event). Rows Moves jobs x.0) _ _ _ advanced
      (either (λ (x : Jobs × List Event). Rows Moves jobs x.0) _ _ _ errored
        (Rows-refl Moves (λ j. (refl, refl, refl, inl refl)) jobs))

no_event : (o : Option Job) (events : List Event) → event_for false o events ≡ events
no_event none events = refl
no_event (some j) events = refl

completed_again :
    (now later : ℕ) (tid : String) (jobs : Jobs) (events : List Event)
    → let (jobs', events') = completed now tid jobs events in
      completed later tid jobs' events' ≡ (jobs', events')
completed_again now later tid jobs events =
    rw (redelivery_noop now later tid "" jobs).0
      (ap (λ e. ((advance_to_judge_by_transcript now tid jobs).1, e)) (no_event _ _))

act_again :
    (now later : ℕ) (tid : String) (r : Request) (jobs : Jobs) (events : List Event)
    → let (jobs', events') = act now tid r jobs events in
      act later tid r jobs' events' ≡ (jobs', events')
act_again now later tid r jobs events = elim (Bool-cases (status_is "completed" r)) [
  | inl c ↦ rw c (completed_again now later tid jobs events)
  | inr c ↦ rw c (elim (Bool-cases (status_is "error" r)) [
    | inl e ↦ rw e (
        ap (λ x. (x.1, events))
          (failure_noop now later tid "AssemblyAI returned error" "AssemblyAI returned error"
            jobs).0)
    | inr e ↦ rw e refl
  ])
]

module _ (secret : String) (now : ℕ) (r : Request) (jobs : Jobs) (events : List Event) where
  -- Whatever is sent to the webhook, every row stays or takes one transition of the state machine.
  pub webhook-Moves : Rows Moves jobs (assemblyai_webhook secret now r jobs events).1
  unfolding assemblyai_webhook
  webhook-Moves =
      let same = Rows-refl Moves (λ j. (refl, refl, refl, inl refl)) jobs in
      let acted : Response × Jobs × List Event = (
        ok,
        (act now (transcript_of r) r jobs events).0,
        (act now (transcript_of r) r jobs events).1,
      ) in
      let Q : Response × Jobs × List Event → Type 0 = λ x. Rows Moves jobs x.1 in
      either Q (not (verify secret r)) (unauthorized, jobs, events)
        (if str_eq (transcript_of r) "" then (bad_request, jobs, events) else acted) same
        (either Q (str_eq (transcript_of r) "") (bad_request, jobs, events) acted same
          (act-Moves now (transcript_of r) r jobs events))

  unverified : (secret ≡ "") ⊎ (str_eq (or_empty r.header) secret ≡ false) → verify secret r ≡ false
  unfolding verify
  unverified (inl h) = ground (arith, str_eq_iff secret "")
  unverified (inr h) = ground arith

  -- A request without the configured secret is refused and changes and publishes nothing; and with
  -- no secret configured every request is one of these.
  pub unverified_refused :
      (secret ≡ "") ⊎ (str_eq (or_empty r.header) secret ≡ false)
      → assemblyai_webhook secret now r jobs events ≡ (unauthorized, jobs, events)
  unfolding assemblyai_webhook
  unverified_refused h = rw (unverified h, assemblyai_webhook) refl

  -- A request that is delivered again gets the same answer, and nothing is changed or published a
  -- second time.
  pub webhook_idempotent :
      (later : ℕ)
      → let (response, jobs', events') = assemblyai_webhook secret now r jobs events in
        assemblyai_webhook secret later r jobs' events' ≡ (response, jobs', events')
  unfolding assemblyai_webhook
  webhook_idempotent later = elim (Bool-cases (verify secret r)) [
    | inr v ↦ rw v refl
    | inl v ↦ rw v (elim (Bool-cases (str_eq (transcript_of r) "")) [
      | inl t ↦ rw t refl
      | inr t ↦
          rw t (ap (λ x. (ok, x.0, x.1)) (act_again now later (transcript_of r) r jobs events))
    ])
  ]
