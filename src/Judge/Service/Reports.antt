-- ===== src/Judge/Service/Reports.antt =====
-- The rows that `judge_call` leaves (backend/app/judge/service.py), whatever the agents answer.
use call_audit_supervisor.Common.Float.{FloatOps}
use call_audit_supervisor.Common.{
  ℕ, ◌≡◌, refl, ap, ◌∙◌, Bool, true, false, not, List, [], ◌∷◌, ◌++◌, map, filter, All, ==_refl,
  arith,
}
use call_audit_supervisor.Ratelimit.Backoff.{Outcome, value, raised}
use call_audit_supervisor.Judge.Routing.{RoutingConfig}
use call_audit_supervisor.Judge.Clients.{ObjectionOut, Clients}
use call_audit_supervisor.Judge.Tables.{Report, Tables, of_call, delete_reports, add_report}
use call_audit_supervisor.Orchestration.Handlers.{JudgeRequest}
use call_audit_supervisor.Judge.Service.Assembly.{
  Assembled, assemble, report_of, rebuild, objection_rows, add_zipped, embedded, add_objections,
  persist, judge_call,
}

-- Filters of a list to which one is appended.
module _ {ℓ} {A : Type ℓ} where
  pub filter-append :
      (p : A → Bool) (xs ys : List A) → filter p (xs ++ ys) ≡ filter p xs ++ filter p ys
  filter-append p [] ys = refl
  filter-append p (x ∷ xs) ys = ground (arith, filter-append p xs ys)

  pub filter-filter_none : (p : A → Bool) (xs : List A) → filter p (filter (λ x. not (p x)) xs) ≡ []
  filter-filter_none p [] = refl
  filter-filter_none p (x ∷ xs) = ground (arith, filter-filter_none p xs)

  pub filter-filter_same : (p : A → Bool) (xs : List A) → filter p (filter p xs) ≡ filter p xs
  filter-filter_same p [] = refl
  filter-filter_same p (x ∷ xs) = ground (arith, filter-filter_same p xs)

  pub append_none : (xs : List A) → xs ++ [] ≡ xs
  append_none [] = refl
  append_none (x ∷ xs) = λ i. x ∷ append_none xs i

  pub filter-All : (p : A → Bool) (xs : List A) → All (λ x. p x ≡ true) xs → filter p xs ≡ xs
  filter-All p [] h = refl
  filter-All p (x ∷ xs) h = rw h.0 (ap (λ r. x ∷ r) (filter-All p xs h.1))

  pub filter-None : (p : A → Bool) (xs : List A) → All (λ x. p x ≡ false) xs → filter p xs ≡ []
  filter-None p [] h = refl
  filter-None p (x ∷ xs) h = rw h.0 (filter-None p xs h.1)

module _ (f : FloatOps) (cfg : RoutingConfig f) (cs : Clients f) (r : JudgeRequest) where
  -- The objections are all that the embedding adds.
  zipped-reports :
      (rid : ℕ) (os : List ObjectionOut) (vs : List (List f.F)) (t : Tables f)
      → ((add_zipped f rid os vs t).1.reports ≡ t.reports)
        × ((add_zipped f rid os vs t).1.report_items ≡ t.report_items)
  zipped-reports rid [] [] t = (refl, refl)
  zipped-reports rid (o ∷ os) [] t = (refl, refl)
  zipped-reports rid [] (v ∷ vs) t = (refl, refl)
  zipped-reports rid (o ∷ os) (v ∷ vs) t = zipped-reports rid os vs _

  embedded-reports :
      (rid : ℕ) (os : List ObjectionOut) (vs : Outcome f (List (List f.F))) (t : Tables f)
      → ((embedded f rid os vs t).1.reports ≡ t.reports)
        × ((embedded f rid os vs t).1.report_items ≡ t.report_items)
  embedded-reports rid os (value vs) t = zipped-reports rid os vs t
  embedded-reports rid os (raised e) t = (refl, refl)

  pub objections-reports :
      (rid : ℕ) (os : List ObjectionOut) (t : Tables f)
      → ((add_objections f cs rid os t).1.reports ≡ t.reports)
        × ((add_objections f cs rid os t).1.report_items ≡ t.report_items)
  objections-reports rid [] t = (refl, refl)
  objections-reports rid (o ∷ os) t =
      embedded-reports rid (o ∷ os) (cs.embed (map (λ x. x.text) (o ∷ os))) t

  rebuild-own :
      (a : Assembled f) (t : Tables f)
      → filter (of_call f r.call_id) (rebuild f r a t).reports ≡ report_of f r a t.next_id ∷ []
  unfolding rebuild add_report delete_reports report_of
  rebuild-own a t =
      filter-append (of_call f r.call_id) (filter (λ x. not (of_call f r.call_id x)) t.reports)
        (report_of f r a t.next_id ∷ [])
      ∙ rw (filter-filter_none (of_call f r.call_id) t.reports, ==_refl r.call_id) refl

  rebuild-others :
      (a : Assembled f) (t : Tables f)
      → filter (λ x. not (of_call f r.call_id x)) (rebuild f r a t).reports
        ≡ filter (λ x. not (of_call f r.call_id x)) t.reports
  unfolding rebuild add_report delete_reports report_of
  rebuild-others a t =
      filter-append (λ x. not (of_call f r.call_id x))
        (filter (λ x. not (of_call f r.call_id x)) t.reports) (report_of f r a t.next_id ∷ [])
      ∙ rw (filter-filter_same (λ x. not (of_call f r.call_id x)) t.reports, ==_refl r.call_id)
          (append_none (filter (λ x. not (of_call f r.call_id x)) t.reports))

  pub persist-report :
      (a : Assembled f) (t : Tables f)
      → filter (of_call f r.call_id) (persist f cs r (value a) t).1.reports
        ≡ report_of f r a t.next_id ∷ []
  persist-report a t =
      ap (filter (of_call f r.call_id))
        (objections-reports t.next_id (objection_rows f a.findings.feedback) (rebuild f r a t)).0
      ∙ rebuild-own a t

  persist-own :
      (o : Outcome f (Assembled f)) (t : Tables f)
      → (persist f cs r o t).0 ≡ value tt
      → (rep : Report f) × (rep.id ≡ t.next_id)
        × (filter (of_call f r.call_id) (persist f cs r o t).1.reports ≡ rep ∷ [])
  unfolding report_of
  persist-own (raised e) t h = cc
  persist-own (value a) t h = (report_of f r a t.next_id, refl, persist-report a t)

  persist-others :
      (o : Outcome f (Assembled f)) (t : Tables f)
      → filter (λ x. not (of_call f r.call_id x)) (persist f cs r o t).1.reports
        ≡ filter (λ x. not (of_call f r.call_id x)) t.reports
  persist-others (raised e) t = refl
  persist-others (value a) t =
      ap (filter (λ x. not (of_call f r.call_id x)))
        (objections-reports t.next_id (objection_rows f a.findings.feedback) (rebuild f r a t)).0
      ∙ rebuild-others a t

  -- When the judging of a call returns, the call has exactly one report, the new one, however many
  -- it had before.
  pub judge_call-one_report :
      (t : Tables f)
      → (judge_call f cfg cs r t).0 ≡ value tt
      → (rep : Report f) × (rep.id ≡ t.next_id)
        × (filter (of_call f r.call_id) (judge_call f cfg cs r t).1.reports ≡ rep ∷ [])
  unfolding judge_call
  judge_call-one_report t = persist-own (assemble f cfg cs r t) t

  -- The reports of the other calls stay as they are, also when the judging fails.
  pub judge_call-other_reports :
      (t : Tables f)
      → filter (λ x. not (of_call f r.call_id x)) (judge_call f cfg cs r t).1.reports
        ≡ filter (λ x. not (of_call f r.call_id x)) t.reports
  unfolding judge_call
  judge_call-other_reports t = persist-others (assemble f cfg cs r t) t
