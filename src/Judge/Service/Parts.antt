-- ===== src/Judge/Service/Parts.antt =====
-- What a report that `judge_call` wrote is made of (backend/app/judge/service.py).
use mathlib.Core.List.{Memᴰ}
use mathlib.Core.List.Memᴰ
use mathlib.Core.List.Memᴰ.{tail}
use mathlib.Core.Path.{subst}
use call_audit_supervisor.Common.Float.{FloatOps}
use call_audit_supervisor.Common.{
  ◌≡◌, ◌≢◌, refl, sym, ap, ◌∙◌, inl, inr, true, false, not, none, some, List, [], ◌∷◌, ◌++◌, map,
  filter, All, ◌==◌, ==_refl, ◌<◌, arith, Option-cases, All-map, All-filter_keep,
}
use call_audit_supervisor.Common.Dict.{get, IsKeyed}
use call_audit_supervisor.Ratelimit.Backoff.{Outcome, value, raised}
use call_audit_supervisor.Judge.Options.{
  ProcessingOption, full, raw_only, feedback_ideal, checklist_only,
}
use call_audit_supervisor.Judge.Routing.{
  Answer, fail, is_fail, RoutingConfig, RoutingDecision, primary,
}
use call_audit_supervisor.Judge.Clients.{ItemVerdict, JudgeItem, Clients}
use call_audit_supervisor.Judge.Tables.{ReportItem, Tables, is_of_call, delete_reports, add_report}
use call_audit_supervisor.Checklists.Versions.{ChecklistItem}
use call_audit_supervisor.Orchestration.Handlers.{JudgeRequest}
use call_audit_supervisor.Judge.Service.{
  is_free, route, Routed, Findings, ground_in, analyse, analyse_as, judge_item, ◌>>=◌, verdict_id,
  agent_or_fatal, prompted, kb_of, of_merged, of_output, of_feedback,
}
use call_audit_supervisor.Judge.Service.Assembly.{
  Assembled, assemble, report_item, rebuild, objection_rows, persist, ideal_of, after_grounding,
  after_findings, after_routing, with_ideal,
}
use call_audit_supervisor.Judge.Service.Reports.{
  objections-reports, filter-append, filter-All, filter-None,
}
use call_audit_supervisor.Judge.Service.Verdicts.{by_key-sees}

module _ (f : FloatOps) where
  bind_value :
      {A B : Type 0} (m : Outcome f A) (k : A → Outcome f B) (b : B)
      → ◌>>=◌ f m k ≡ value b
      → (a : A) × (m ≡ value a) × (k a ≡ value b)
  bind_value (value a) k b h = (a, refl, h)
  bind_value (raised e) k b h = cc

  bind-yields :
      {A B : Type 0} (P : B → Type 0) (m : Outcome f A) (k : A → Outcome f B)
      → ((a : A) (b : B) → k a ≡ value b → P b)
      → (b : B) → ◌>>=◌ f m k ≡ value b
      → P b
  bind-yields P (value a) k h b e = h a b e
  bind-yields P (raised e') k h b e = cc

  value_inj : {A : Type 0} (x y : A) (p : Path (Outcome f A) (value x) (value y)) → x ≡ y
  value_inj x y p = cc

module _ (f : FloatOps) where
  abbrev pub Sound : Findings f → Type 0
  Sound found = IsKeyed (verdict_id f) found.verdicts

  abbrev nothing : Findings f
  nothing = record { feedback = none; verdicts = []; model_passes = none }

  -- Each verdict stands under the id of its item, and no id twice.
  analyse_as-Sound :
      (o : ProcessingOption) (cs : Clients f) (r : JudgeRequest) (t : Tables f)
      (items : List JudgeItem) (found : Findings f)
      → analyse_as f o cs r t items ≡ value found
      → Sound found
  analyse_as-Sound full cs r t items =
      bind-yields f Sound
        (agent_or_fatal f "FULL option requires the merged feedback+checklist agent" cs.merged_gen)
        (λ agent.
          ◌>>=◌ f (agent (prompted f r t (kb_of f r t) "merged") items)
            (λ m. value (of_merged f m)))
        (λ agent.
          bind-yields f Sound (agent (prompted f r t (kb_of f r t) "merged") items)
            (λ m. value (of_merged f m))
            (λ m found e.
              subst Sound (value_inj f (of_merged f m) found e) (by_key-sees f m.verdicts)))
  analyse_as-Sound checklist_only cs r t items =
      bind-yields f Sound
        (agent_or_fatal f "CHECKLIST_ONLY option requires the checklist agent" cs.judge)
        (λ agent.
          ◌>>=◌ f (agent (prompted f r t none "checklist") items) (λ o. value (of_output f o)))
        (λ agent.
          bind-yields f Sound (agent (prompted f r t none "checklist") items)
            (λ o. value (of_output f o))
            (λ o found e.
              subst Sound (value_inj f (of_output f o) found e) (by_key-sees f o.verdicts)))
  analyse_as-Sound feedback_ideal cs r t items =
      bind-yields f Sound
        (agent_or_fatal f "FEEDBACK_IDEAL option requires the feedback agent" cs.subjective_gen)
        (λ agent.
          ◌>>=◌ f (agent (prompted f r t (kb_of f r t) "feedback")) (λ b. value (of_feedback f b)))
        (λ agent.
          bind-yields f Sound (agent (prompted f r t (kb_of f r t) "feedback"))
            (λ b. value (of_feedback f b))
            (λ b found e. subst Sound (value_inj f (of_feedback f b) found e) tt))
  analyse_as-Sound raw_only cs r t items = λ found e. subst Sound (value_inj f nothing found e) tt

  pub analyse-Sound :
      (cs : Clients f) (r : JudgeRequest) (t : Tables f) (items : List ChecklistItem)
      (found : Findings f)
      → analyse f cs r t items ≡ value found
      → Sound found
  unfolding analyse
  analyse-Sound cs r t items = analyse_as-Sound r.option cs r t (map judge_item items)

none_no_fail : none ≢ some fail
none_no_fail h = cc

some_inj : (a : Answer) → some a ≡ some fail → a ≡ fail
some_inj a h = cc

module _ (f : FloatOps) (cfg : RoutingConfig f) (cs : Clients f) (r : JudgeRequest)
    (t : Tables f) where
  -- The report is made of what was grounded, found and routed, in this order.
  pub record From (a : Assembled f) : Type 0 where
    pub grounded : ground_in f r t ≡ value a.grounding
    pub analysed : analyse f cs r t a.grounding.items ≡ value a.findings
    pub routed : route f cfg cs r t a.grounding.items a.findings.verdicts ≡ value a.routed

  pub assembled : (a : Assembled f) → assemble f cfg cs r t ≡ value a → From a
  unfolding assemble
  assembled a h =
      let (g, hg, h1) = bind_value f (ground_in f r t) (after_grounding f cfg cs r t) a h in
      let (found, hf, h2) =
        bind_value f (analyse f cs r t g.items) (after_findings f cfg cs r t g) a h1 in
      let (final, hr, h3) =
        bind_value f (route f cfg cs r t g.items found.verdicts)
          (after_routing f cfg cs r t g found) a h2 in
      let (ideal, hi, h4) =
        bind_value f (ideal_of f cs r t g.items found.feedback final.verdicts)
          (λ ideal. value (with_ideal f cfg cs r t g found final ideal)) a h3 in
      subst From (value_inj f _ a h4) (record { grounded = hg; analysed = hf; routed = hr })

  -- The rows of a report that is written.
  pub written :
      (o : Outcome f (Assembled f))
      → (persist f cs r o t).0 ≡ value tt
      → (a : Assembled f) × (o ≡ value a)
        × ((persist f cs r o t).1.report_items ≡ (rebuild f r a t).report_items)
  written (raised e) h = cc
  written (value a) h = (
    a,
    refl,
    (objections-reports f cfg cs r t.next_id (objection_rows f a.findings.feedback)
        (rebuild f r a t)).1,
  )

  pub row-report :
      (final : Routed f) (it : ChecklistItem)
      → (report_item f t.next_id final it).report_id ≡ t.next_id
  unfolding report_item
  row-report final it = ground arith

  pub row-item :
      (final : Routed f) (it : ChecklistItem)
      → (report_item f t.next_id final it).checklist_item_id ≡ it.id
  unfolding report_item
  row-item final it = ground arith

  -- A free-text item without a decision is accepted.
  pub row-free :
      (final : Routed f) (it : ChecklistItem)
      → get it.id final.decisions ≡ none
      → is_free it ≡ true
      → ((report_item f t.next_id final it).decided_by ≡ some primary)
        × ((report_item f t.next_id final it).needs_human_review ≡ false)
  unfolding report_item
  row-free final it none_ free = ground (arith, none_, free)

  -- An item with a decision is reviewed as it says.
  pub row-decided :
      (final : Routed f) (it : ChecklistItem) (d : RoutingDecision)
      → get it.id final.decisions ≡ some d
      → (report_item f t.next_id final it).needs_human_review ≡ d.needs_human_review
  unfolding report_item
  row-decided final it d e = ground (arith, e)

  -- A row that says FAIL has a verdict that does.
  pub row-failed :
      (final : Routed f) (it : ChecklistItem)
      → (report_item f t.next_id final it).answer ≡ some fail
      → (v : ItemVerdict f) × (get it.id final.verdicts ≡ some v) × (is_fail v.answer ≡ true)
  unfolding report_item
  row-failed final it e = elim (Option-cases (get it.id final.verdicts)) [
    | inl q ↦ absurd (none_no_fail (sym (ground (arith, q)) ∙ e))
    | inr (v, q) ↦ (v, q, rw (some_inj v.answer (sym (ground (arith, q)) ∙ e)) refl)
  ]

  rows-report :
      (final : Routed f) (items : List ChecklistItem)
      → All
          (λ (x : ReportItem f). (x.report_id == t.next_id) ≡ true)
          (map (report_item f t.next_id final) items)
  rows-report final [] = tt
  rows-report final (it ∷ items) =
      (ap (λ k. k == t.next_id) (row-report final it) ∙ ==_refl t.next_id, rows-report final items)

  pub rows-own :
      (a : Assembled f)
      → All (λ (x : ReportItem f). x.report_id < t.next_id) t.report_items
      → filter (λ (x : ReportItem f). x.report_id == t.next_id) (rebuild f r a t).report_items
        ≡ map (report_item f t.next_id a.routed) a.grounding.items
  unfolding rebuild delete_reports add_report
  rows-own a fresh =
      filter-append (λ (x : ReportItem f). x.report_id == t.next_id)
        (filter (λ x. not (is_of_call f r.call_id t.reports x.report_id)) t.report_items)
        (map (report_item f t.next_id a.routed) a.grounding.items)
      ∙ rw
          (filter-None (λ (x : ReportItem f). x.report_id == t.next_id)
            (filter (λ x. not (is_of_call f r.call_id t.reports x.report_id)) t.report_items)
            (All-map _ _ _ (λ x lt. ground arith) (All-filter_keep _ _ t.report_items fresh)))
          (filter-All (λ (x : ReportItem f). x.report_id == t.next_id) _
            (rows-report a.routed a.grounding.items))

  mem-append_right : {A : Type 0} (x : A) (xs ys : List A) → Memᴰ x ys → Memᴰ x (xs ++ ys)
  mem-append_right x [] ys m = m
  mem-append_right x (y ∷ xs) ys m = tail (mem-append_right x xs ys m)

  pub row-mem :
      (a : Assembled f) (it : ChecklistItem)
      → Memᴰ it a.grounding.items
      → Memᴰ (report_item f t.next_id a.routed it) (rebuild f r a t).report_items
  unfolding rebuild delete_reports add_report
  row-mem a it m =
      mem-append_right _ _ (map (report_item f t.next_id a.routed) a.grounding.items)
        (Memᴰ.map (report_item f t.next_id a.routed) m)
