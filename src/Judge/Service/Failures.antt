-- ===== src/Judge/Service/Failures.antt =====
-- How the judging of a call fails (backend/app/judge/service.py).
use call_audit_supervisor.Common.Float.{FloatOps}
use call_audit_supervisor.Common.{
  ℕ, ◌<◌, ◌≡◌, refl, ◌⊎◌, inl, inr, Bool, true, false, Option, none, some, List, [], ◌∷◌, map,
  String, length, Bool-cases, Option-cases, arith,
}
use call_audit_supervisor.Ratelimit.Backoff.{
  Error, retryable, rate_limit, fatal, other, Outcome, value, raised,
}
use call_audit_supervisor.Judge.Options.{
  ProcessingOption, full, raw_only, feedback_ideal, checklist_only, needs_checklist,
}
use call_audit_supervisor.Judge.Routing.{RoutingConfig}
use call_audit_supervisor.Judge.Clients.{JudgeItem, ObjectionOut, Clients}
use call_audit_supervisor.Judge.Tables.{Tables, library}
use call_audit_supervisor.Checklists.Versions.{Checklist, get_default_checklist, get_items}
use call_audit_supervisor.Orchestration.Handlers.{JudgeRequest}
use call_audit_supervisor.Judge.Service.{
  ◌>>=◌, ground_in, resolve_checklist, selected, or_default, analyse, analyse_as, judge_item,
}
use call_audit_supervisor.Judge.Service.Assembly.{
  Assembled, assemble, after_grounding, after_findings, add_zipped, embedded, add_objections,
  objection_rows, rebuild, persist, judge_call,
}

module _ (f : FloatOps) where
  -- A value, or an error that is not retried; and the second of these.
  abbrev OnlyFatal : {A : Type 0} → Outcome f A → Type 0
  OnlyFatal (value a) = Unit {0}
  OnlyFatal (raised (fatal m)) = Unit {0}
  OnlyFatal (raised _) = ⊥

  abbrev Fatal : {A : Type 0} → Outcome f A → Type 0
  Fatal (raised (fatal m)) = Unit {0}
  Fatal _ = ⊥

  abbrev is_missing : {A : Type 0} → Option A → Bool
  is_missing none = true
  is_missing (some a) = false

  -- The agent that an option cannot do without.
  abbrev pub lacks_agent : Clients f → ProcessingOption → Bool
  lacks_agent cs full = is_missing cs.merged_gen
  lacks_agent cs checklist_only = is_missing cs.judge
  lacks_agent cs feedback_ideal = is_missing cs.subjective_gen
  lacks_agent cs raw_only = false

  missing-none : {A : Type 0} (o : Option A) → is_missing o ≡ true → o ≡ none
  missing-none none h = refl
  missing-none (some a) h = cc

  analyse_as-Fatal :
      (o : ProcessingOption) (cs : Clients f) (r : JudgeRequest) (t : Tables f)
      (items : List JudgeItem)
      → lacks_agent cs o ≡ true
      → Fatal (analyse_as f o cs r t items)
  analyse_as-Fatal full cs r t items h = rw (missing-none cs.merged_gen h) tt
  analyse_as-Fatal checklist_only cs r t items h = rw (missing-none cs.judge h) tt
  analyse_as-Fatal feedback_ideal cs r t items h = rw (missing-none cs.subjective_gen h) tt
  analyse_as-Fatal raw_only cs r t items h = cc

  bind-Fatal :
      {A B : Type 0} (m : Outcome f A) (k : A → Outcome f B)
      → OnlyFatal m
      → ((a : A) → Fatal (k a))
      → Fatal (◌>>=◌ f m k)
  bind-Fatal (value a) k o h = h a
  bind-Fatal (raised (fatal m)) k o h = tt
  bind-Fatal (raised (retryable m)) k o h = absurd o
  bind-Fatal (raised (rate_limit m a)) k o h = absurd o
  bind-Fatal (raised (other m)) k o h = absurd o

  bind-Fatal_first :
      {A B : Type 0} (m : Outcome f A) (k : A → Outcome f B) → Fatal m → Fatal (◌>>=◌ f m k)
  bind-Fatal_first (value a) k h = absurd h
  bind-Fatal_first (raised (fatal m)) k h = tt
  bind-Fatal_first (raised (retryable m)) k h = absurd h
  bind-Fatal_first (raised (rate_limit m a)) k h = absurd h
  bind-Fatal_first (raised (other m)) k h = absurd h

  bind-OnlyFatal :
      {A B : Type 0} (m : Outcome f A) (k : A → Outcome f B)
      → OnlyFatal m
      → ((a : A) → OnlyFatal (k a))
      → OnlyFatal (◌>>=◌ f m k)
  bind-OnlyFatal (value a) k o h = h a
  bind-OnlyFatal (raised (fatal m)) k o h = tt
  bind-OnlyFatal (raised (retryable m)) k o h = absurd o
  bind-OnlyFatal (raised (rate_limit m a)) k o h = absurd o
  bind-OnlyFatal (raised (other m)) k o h = absurd o

  or_default-OnlyFatal : (pid : ℕ) (c : Option Checklist) → OnlyFatal (or_default f pid c)
  or_default-OnlyFatal pid none = tt
  or_default-OnlyFatal pid (some c) = tt

  resolve-OnlyFatal :
      (pid : ℕ) (k : Option ℕ) (t : Tables f) → OnlyFatal (resolve_checklist f pid k t)
  unfolding resolve_checklist
  resolve-OnlyFatal pid k t = elim (Option-cases (selected f k pid t.checklists)) [
    | inl e ↦
        rw (e, resolve_checklist)
          (or_default-OnlyFatal pid (get_default_checklist pid (library f t)))
    | inr (c, e) ↦ rw (e, resolve_checklist) tt
  ]

  ground_in-OnlyFatal : (r : JudgeRequest) (t : Tables f) → OnlyFatal (ground_in f r t)
  unfolding ground_in
  ground_in-OnlyFatal r t = elim (Bool-cases (needs_checklist r.option)) [
    | inl e ↦
        rw (e, ground_in)
          (bind-OnlyFatal (resolve_checklist f r.portfolio_id r.checklist_id t)
            (λ c. value (record { checklist = some c; items = get_items c.id (library f t) }))
            (resolve-OnlyFatal r.portfolio_id r.checklist_id t) (λ c. tt))
    | inr e ↦ rw (e, ground_in) tt
  ]

  -- How the pairing of vectors and objections fails: it runs out of the one or of the other.
  abbrev pub PairingFails : List (List f.F) → List ObjectionOut → Error f → Type 0
  PairingFails vs os e =
      ((length vs < length os) × (e ≡ other "zip() argument 2 is shorter than argument 1"))
      ⊎ ((length os < length vs) × (e ≡ other "zip() argument 2 is longer than argument 1"))

  -- How the embedding of these objections fails: the embedder raises this error for their texts, or
  -- it answers with another number of vectors and this is the error of the pairing.
  abbrev pub EmbedFails : Clients f → List ObjectionOut → Error f → Type 0
  EmbedFails cs os e =
      (cs.embed (map (λ (o : ObjectionOut). o.text) os) ≡ raised e)
      ⊎ ((vs : List (List f.F)) × (cs.embed (map (λ (o : ObjectionOut). o.text) os) ≡ value vs)
          × PairingFails vs os e)

  raised_same : (e e' : Error f) → ◌≡◌ {A = Outcome f (Unit {0})} (raised e) (raised e') → e' ≡ e
  raised_same e e' h = cc

  longer :
      (v : List f.F) (vs : List (List f.F)) (o : ObjectionOut) (os : List ObjectionOut)
      (e : Error f)
      → PairingFails vs os e
      → PairingFails (v ∷ vs) (o ∷ os) e
  longer v vs o os e (inl (l, q)) = inl (omega (arith, l), q)
  longer v vs o os e (inr (l, q)) = inr (omega (arith, l), q)

  zipped-raises :
      (rid : ℕ) (os : List ObjectionOut) (vs : List (List f.F)) (t : Tables f) (e : Error f)
      → (add_zipped f rid os vs t).0 ≡ raised e
      → PairingFails vs os e
  zipped-raises rid [] [] t e h = cc
  zipped-raises rid (o ∷ os) [] t e h = inl (omega arith, raised_same _ e h)
  zipped-raises rid [] (v ∷ vs) t e h = inr (omega arith, raised_same _ e h)
  zipped-raises rid (o ∷ os) (v ∷ vs) t e h = longer v vs o os e (zipped-raises rid os vs _ e h)

  embedded-fail :
      (cs : Clients f) (rid : ℕ) (os : List ObjectionOut) (out : Outcome f (List (List f.F)))
      (t : Tables f) (e : Error f)
      → cs.embed (map (λ (o : ObjectionOut). o.text) os) ≡ out
      → (embedded f rid os out t).0 ≡ raised e
      → EmbedFails cs os e
  embedded-fail cs rid os (value vs) t e q h = inr (vs, q, zipped-raises rid os vs t e h)
  embedded-fail cs rid os (raised e') t e q h = inl (cc)

  objections-fail :
      (cs : Clients f) (rid : ℕ) (os : List ObjectionOut) (t : Tables f) (e : Error f)
      → (add_objections f cs rid os t).0 ≡ raised e
      → EmbedFails cs os e
  objections-fail cs rid [] t e h = cc
  objections-fail cs rid (o ∷ os) t e h =
      embedded-fail cs rid (o ∷ os) (cs.embed (map (λ (x : ObjectionOut). x.text) (o ∷ os))) t e
        refl h

module _ (f : FloatOps) (cfg : RoutingConfig f) (cs : Clients f) (r : JudgeRequest)
    (t : Tables f) where
  -- The objections that this judging found are embedded, and that fails.
  abbrev pub ObjectionsFail : Outcome f (Assembled f) → Error f → Type 0
  ObjectionsFail o e =
      (a : Assembled f) × (o ≡ value a) × EmbedFails f cs (objection_rows f a.findings.feedback) e

  persist-fails :
      (o : Outcome f (Assembled f)) (e : Error f)
      → (persist f cs r o t).0 ≡ raised e
      → ((persist f cs r o t).1 ≡ t) ⊎ ObjectionsFail o e
  persist-fails (raised e') e h = inl refl
  persist-fails (value a) e h = inr (
    a,
    refl,
    objections-fail f cs t.next_id (objection_rows f a.findings.feedback) (rebuild f r a t) e h,
  )

  missing-Fatal : lacks_agent f cs r.option ≡ true → Fatal f (assemble f cfg cs r t)
  unfolding assemble analyse
  missing-Fatal h =
      bind-Fatal f (ground_in f r t) (after_grounding f cfg cs r t) (ground_in-OnlyFatal f r t)
        (λ g.
          bind-Fatal_first f (analyse f cs r t g.items) (after_findings f cfg cs r t g)
            (analyse_as-Fatal f r.option cs r t (map judge_item g.items) h))

  persist-Fatal :
      (o : Outcome f (Assembled f))
      → Fatal f o
      → (m : String) × (persist f cs r o t ≡ (raised (fatal m), t))
  persist-Fatal (value a) h = absurd h
  persist-Fatal (raised (fatal m)) h = (m, refl)
  persist-Fatal (raised (retryable m)) h = absurd h
  persist-Fatal (raised (rate_limit m a)) h = absurd h
  persist-Fatal (raised (other m)) h = absurd h

  -- A worker without the agent that the option of the call asks for ends the judging with a fatal
  -- error, which is not retried, and writes nothing.
  pub judge_call-missing_agent :
      lacks_agent f cs r.option ≡ true
      → (m : String) × (judge_call f cfg cs r t ≡ (raised (fatal m), t))
  unfolding judge_call
  judge_call-missing_agent h = persist-Fatal (assemble f cfg cs r t) (missing-Fatal h)

  -- A judging that fails has written nothing, unless all of it was assembled and it failed on the
  -- embedding of the objections that it found: the embedder raised the error for their texts, or
  -- answered with fewer or more vectors than they are and the error is the pairing's.
  pub judge_call-failure :
      (e : Error f)
      → (judge_call f cfg cs r t).0 ≡ raised e
      → ((judge_call f cfg cs r t).1 ≡ t) ⊎ ObjectionsFail (assemble f cfg cs r t) e
  unfolding judge_call
  judge_call-failure = persist-fails (assemble f cfg cs r t)
