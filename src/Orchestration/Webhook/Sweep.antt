-- ===== src/Orchestration/Webhook/Sweep.antt =====
-- What a sweep of the reconciler (backend/app/orchestration/reconciler.py) leaves behind.
use mathlib.Core.Path.{subst}
use mathlib.Core.List.{Memᴰ}
use mathlib.Core.List.Memᴰ.{head, tail, cases_cons, not-nil}
use mathlib.Core.List.Memᴰ as Member
use call_audit_supervisor.Common.{
  ℕ, ◌≡◌, refl, sym, ap, ◌∙◌, ◌⊎◌, inl, inr, Bool, true, false, Option, none, some, List, [], ◌∷◌,
  String, str_eq_iff, All, All-map, filter, update_where, if◌then◌else◌, Bool-cases, arith,
}
use call_audit_supervisor.Orchestration.States.{failed}
use call_audit_supervisor.Orchestration.Queue.{
  Job, Jobs, has_id, release, is_awaiting, advancing, advance_to_judge_by_transcript, is_overdue,
  find_overdue_awaiting, mark_failed, touch,
}
use call_audit_supervisor.Orchestration.Webhook.{
  SttClient, SttStatus, ready, error, processing, reported, polled, sweep_one, and_then, sweep,
  run_once, friendly_stt_error,
}

module _ (now seconds : ℕ) where
  abbrev entry : Job → ℕ × Option String
  entry j = (j.id, j.transcript_id)

  -- A row is not overdue, or the rest of the sweep will come to it.
  abbrev Seen : List (ℕ × Option String) → Job → Type 0
  Seen overdue j = (is_overdue now seconds j ≡ false) ⊎ Memᴰ (entry j) overdue

  filtered :
      (x : Job) (jobs : Jobs)
      → Memᴰ x jobs
      → is_overdue now seconds x ≡ true
      → Memᴰ x (filter (is_overdue now seconds) jobs)
  filtered x [] m h = absurd (not-nil m)
  filtered x (j ∷ js) m h = elim (cases_cons m) [
    | inl e ↦ rw (ap (is_overdue now seconds) (sym e) ∙ h) (head e)
    | inr m' ↦ kept (is_overdue now seconds j) (filtered x js m' h)
  ]
    where
      kept :
          (b : Bool)
          → Memᴰ x (filter (is_overdue now seconds) js)
          → Memᴰ x (
              if b
              then j ∷ filter (is_overdue now seconds) js
              else filter (is_overdue now seconds) js)
      kept true m' = tail m'
      kept false m' = m'

  All-of_members : (P : Job → Type 0) (jobs : Jobs) → ((x : Job) → Memᴰ x jobs → P x) → All P jobs
  All-of_members P [] h = tt
  All-of_members P (j ∷ js) h = (h j (head refl), All-of_members P js (λ x m. h x (tail m)))

  listed : (jobs : Jobs) → All (Seen (find_overdue_awaiting now seconds jobs)) jobs
  unfolding find_overdue_awaiting
  listed jobs = All-of_members (Seen (find_overdue_awaiting now seconds jobs)) jobs (λ x m.
      elim (Bool-cases (is_overdue now seconds x)) [
        | inl e ↦ inr (Member.map entry (filtered x jobs m e))
        | inr e ↦ inl e
      ])

  -- Turned statement of the sweep keeps the entries and settles the row that it is about.
  record Settles (k : ℕ) (tid : Option String) (g : Job → Job) : Type 0 where
    pub keeps : (j : Job) → entry (g j) ≡ entry j
    pub quiet : (j : Job) → is_overdue now seconds j ≡ false → is_overdue now seconds (g j) ≡ false
    pub settles : (j : Job) → entry j ≡ (k, tid) → is_overdue now seconds (g j) ≡ false

  settled :
      (k : ℕ) (tid : Option String) (g : Job → Job) (overdue : List (ℕ × Option String)) (j : Job)
      → Settles k tid g
      → Seen ((k, tid) ∷ overdue) j
      → Seen overdue (g j)
  settled k tid g overdue j s (inl h) = inl (s.quiet j h)
  settled k tid g overdue j s (inr m) = elim (cases_cons m) [
    | inl e ↦ inl (s.settles j e)
    | inr m' ↦ inr (subst (λ e. Memᴰ e overdue) (sym (s.keeps j)) m')
  ]

  update_settled :
      (k : ℕ) (tid : Option String) (p : Job → Bool) (f : Job → Job)
      (overdue : List (ℕ × Option String)) (jobs : Jobs)
      → Settles k tid (λ j. if p j then f j else j)
      → All (Seen ((k, tid) ∷ overdue)) jobs
      → All (Seen overdue) (update_where p f jobs)
  update_settled k tid p f overdue [] s h = tt
  update_settled k tid p f overdue (j ∷ js) s h = (
    settled k tid (λ j. if p j then f j else j) overdue j s h.0,
    update_settled k tid p f overdue js s h.1,
  )

  fails :
      (k : ℕ) (tid : Option String) (reason : String)
      → Settles k tid (λ j.
        if has_id k j
        then release now (record j { state = failed; last_error = some reason })
        else j)
  unfolding is_overdue
  fails k tid reason = record {
    keeps = λ j. ground arith;
    quiet = λ j h. ground arith;
    settles = λ j e. (let q : j.id ≡ k = ap (λ (x : ℕ × Option String). x.0) e in ground arith);
  }

  touches :
      (k : ℕ) (tid : Option String)
      → Settles k tid (λ j. if has_id k j then record j { updated_at = now } else j)
  unfolding is_overdue
  touches k tid = record {
    keeps = λ j. ground arith;
    quiet = λ j h. ground arith;
    settles = λ j e. (let q : j.id ≡ k = ap (λ (x : ℕ × Option String). x.0) e in ground arith);
  }

  advances :
      (k : ℕ) (tid : String)
      → Settles k (some tid) (λ j. if is_awaiting tid j then advancing now j else j)
  unfolding is_overdue is_awaiting
  advances k tid = record {
    keeps = λ j. ground arith;
    quiet = λ j h. ground arith;
    settles = λ j e.
        (let q : j.transcript_id ≡ some tid = ap (λ (x : ℕ × Option String). x.1) e in
          ground (arith, str_eq_iff tid tid));
  }

  module _ (stt : SttClient) where
    failing_settled :
        (k : ℕ) (tid : Option String) (reason : String) (overdue : List (ℕ × Option String))
        (jobs : Jobs)
        → All (Seen ((k, tid) ∷ overdue)) jobs
        → All (Seen overdue) (mark_failed now k reason jobs)
    unfolding mark_failed
    failing_settled k tid reason overdue jobs h =
        update_settled k tid (has_id k)
          (λ j. release now (record j { state = failed; last_error = some reason })) overdue jobs
          (fails k tid reason) h

    -- The provider raises when it is asked about the transcript.
    abbrev pub IsSilent : String → Type 0
    IsSilent tid =
        (stt.poll tid ≡ none) ⊎ ((stt.poll tid ≡ some error) × (stt.get_error tid ≡ none))

    abbrev Turned : Option String → List (ℕ × Option String) → Option (ℕ × Jobs) → Type 0
    Turned tid overdue o =
        ((r : ℕ × Jobs) × (o ≡ some r) × All (Seen overdue) r.1)
        ⊎ ((o ≡ none) × (s : String) × (tid ≡ some s) × IsSilent s)

    reported_settled :
        (k : ℕ) (tid : String) (overdue : List (ℕ × Option String)) (r : ℕ × Jobs)
        (d : Option (Option String))
        → stt.poll tid ≡ some error
        → stt.get_error tid ≡ d
        → All (Seen ((k, some tid) ∷ overdue)) r.1
        → Turned (some tid) overdue (reported stt now k d r)
    reported_settled k tid overdue r none e q h = inr (refl, tid, refl, inr (e, q))
    reported_settled k tid overdue r (some detail) e q h =
        inl (_, refl, failing_settled k (some tid) (friendly_stt_error stt detail) overdue r.1 h)

    polled_settled :
        (k : ℕ) (tid : String) (overdue : List (ℕ × Option String)) (s : Option SttStatus)
        (r : ℕ × Jobs)
        → stt.poll tid ≡ s
        → All (Seen ((k, some tid) ∷ overdue)) r.1
        → Turned (some tid) overdue (polled stt now k tid s r)
    unfolding touch advance_to_judge_by_transcript
    polled_settled k tid overdue none r e h = inr (refl, tid, refl, inl e)
    polled_settled k tid overdue (some ready) r e h = inl (
      _,
      refl,
      update_settled k (some tid) (is_awaiting tid) (advancing now) overdue r.1 (advances k tid) h,
    )
    polled_settled k tid overdue (some error) r e h =
        reported_settled k tid overdue r (stt.get_error tid) e refl h
    polled_settled k tid overdue (some processing) r e h = inl (
      _,
      refl,
      update_settled k (some tid) (has_id k) (λ j. record j { updated_at = now }) overdue r.1
          (touches k (some tid)) h,
    )

    one_settled :
        (k : ℕ) (tid : Option String) (overdue : List (ℕ × Option String)) (r : ℕ × Jobs)
        → All (Seen ((k, tid) ∷ overdue)) r.1
        → Turned tid overdue (sweep_one stt now k tid r)
    one_settled k none overdue r h =
        inl (_, refl, failing_settled k none "parked without transcript_id" overdue r.1 h)
    one_settled k (some tid) overdue r h = polled_settled k tid overdue (stt.poll tid) r refl h

    -- The provider is silent about one of the jobs.
    abbrev pub Unanswered : List (ℕ × Option String) → Type 0
    Unanswered overdue = (k : ℕ) × (tid : String) × Memᴰ (k, some tid) overdue × IsSilent tid

    abbrev Swept : List (ℕ × Option String) → Option (ℕ × Jobs) → Type 0
    Swept overdue o =
        ((r : ℕ × Jobs) × (o ≡ some r) × All (λ j. is_overdue now seconds j ≡ false) r.1)
        ⊎ ((o ≡ none) × Unanswered overdue)

    later :
        (x : ℕ × Option String) (overdue : List (ℕ × Option String)) (o : Option (ℕ × Jobs))
        → Swept overdue o
        → Swept (x ∷ overdue) o
    later x overdue o (inl s) = inl s
    later x overdue o (inr (e, (k, tid, m, silent))) = inr (e, (k, tid, tail m, silent))

    next_settled :
        (k : ℕ) (tid : Option String) (overdue : List (ℕ × Option String)) (o : Option (ℕ × Jobs))
        (rest : ℕ × Jobs → Option (ℕ × Jobs))
        → Turned tid overdue o
        → ((r : ℕ × Jobs) → All (Seen overdue) r.1 → Swept overdue (rest r))
        → Swept ((k, tid) ∷ overdue) (and_then o rest)
    next_settled k tid overdue o rest (inl (r, e, h)) g =
        rw e (later (k, tid) overdue (rest r) (g r h))
    next_settled k tid overdue o rest (inr (e, s, q, silent)) g =
        rw e (inr (refl, (k, s, head (ap (λ z. (k, z)) (sym q)), silent)))

    sweep_settled :
        (overdue : List (ℕ × Option String)) (r : ℕ × Jobs)
        → All (Seen overdue) r.1
        → Swept overdue (sweep stt now overdue r)
    sweep_settled [] r h = inl (r, refl, All-map _ _ r.1 (λ j s. quiet_now j s) h)
      where
        quiet_now : (j : Job) → Seen [] j → is_overdue now seconds j ≡ false
        quiet_now j (inl e) = e
        quiet_now j (inr m) = absurd (not-nil m)
    sweep_settled ((k, tid) ∷ overdue) r h =
        next_settled k tid overdue (sweep_one stt now k tid r) (sweep stt now overdue)
          (one_settled k tid overdue r h) (sweep_settled overdue)

    -- No parked job is left behind: a sweep that the provider lets through leaves no row overdue. A
    -- sweep that is not committed is one in which the provider raised when it was asked about one of
    -- the overdue rows.
    pub run_once_lem :
        (jobs : Jobs)
        → ((r : ℕ × Jobs) × (run_once stt now seconds jobs ≡ some r)
            × All (λ j. is_overdue now seconds j ≡ false) r.1)
          ⊎ ((run_once stt now seconds jobs ≡ none)
              × Unanswered (find_overdue_awaiting now seconds jobs))
    unfolding run_once
    run_once_lem jobs =
        sweep_settled (find_overdue_awaiting now seconds jobs) (0, jobs) (listed jobs)
