-- ===== src/Judge/Service/Compliance.antt =====
-- The compliance text of a report agrees with its checklist (backend/app/judge/service.py).
use mathlib.Core.List.{Memᴰ}
use mathlib.Core.Path.{subst}
use call_audit_supervisor.Common.Float.{FloatOps}
use call_audit_supervisor.Common.{
  ℕ, ◌≡◌, ◌≢◌, refl, sym, ap, ◌∙◌, ◌⊎◌, inl, inr, true, false, Option, none, some, List, [], ◌∷◌,
  ◌++◌, map, filter, Bool-cases, arith,
}
use call_audit_supervisor.Common.Codes.{Text, is_empty, strip, is_space}
use call_audit_supervisor.Ratelimit.Backoff.{value}
use call_audit_supervisor.Judge.Routing.{fail, RoutingConfig}
use call_audit_supervisor.Judge.Clients.{ItemVerdict, FeedbackOut, IdealOut, Clients}
use call_audit_supervisor.Judge.Tables.{NarrativeText, Report, ReportItem, Tables, of_call}
use call_audit_supervisor.Checklists.Versions.{ChecklistItem}
use call_audit_supervisor.Orchestration.Handlers.{JudgeRequest}
use call_audit_supervisor.Judge.Service.{Grounding, ground_in}
use call_audit_supervisor.Judge.Service.Assembly.{
  Assembled, assemble, report_item, report_of, is_compliance, is_failed, comp_line, with_lines,
  spaced, failure_heading, backfill, narrative_text, narrative_of, prose_in, persist, judge_call,
}
use call_audit_supervisor.Judge.Service.Reports.{persist-report}
use call_audit_supervisor.Judge.Service.Verdicts.{same_value, mem-filter}
use call_audit_supervisor.Judge.Service.Parts.{assembled, written, row-failed}
use call_audit_supervisor.Judge.Service.Review.{RowOf, row_of, failed_or_not}

-- There is something to read in a text.
abbrev pub IsBlank : Text → Type 0
IsBlank s = is_empty (strip s) ≡ true

heading_reads : (s : Text) → is_empty (strip (failure_heading ++ s)) ≡ false
unfolding is_space
heading_reads s = ground arith

prose-narrative :
    (f : FloatOps) (p : Option NarrativeText) (i : Option IdealOut)
    → prose_in (narrative_of f p i) ≡ p
prose-narrative f none none = refl
prose-narrative f none (some i) = refl
prose-narrative f (some p) i = refl

module _ (f : FloatOps) (verdicts : List (ℕ × ItemVerdict f)) where
  some_lines :
      (it : ChecklistItem) (items : List ChecklistItem) (c : Text)
      → Memᴰ it items
      → is_empty (strip (with_lines f (map (comp_line f verdicts) items) c)) ≡ false
  some_lines it [] c m = elim m [ ]
  some_lines it (x ∷ xs) c m = heading_reads (spaced (map (comp_line f verdicts) (x ∷ xs)))

  -- With a failed compliance item the text says something.
  backfill-reads :
      (it : ChecklistItem) (items : List ChecklistItem) (c : Text)
      → Memᴰ it items
      → is_failed f verdicts it ≡ true
      → is_empty (strip (backfill f verdicts items c)) ≡ false
  unfolding backfill
  backfill-reads it items c m failed = elim (Bool-cases (is_empty (strip c))) [
    | inl e ↦ rw e (
        some_lines it (filter (is_failed f verdicts) items) c
          (mem-filter (is_failed f verdicts) it items m failed))
    | inr e ↦ rw (e, e) refl
  ]

  abbrev Reads : Option NarrativeText → Type 0
  Reads o =
      (o ≡ none) ⊎ ((p : NarrativeText) × (o ≡ some p) × (is_empty (strip p.compliance) ≡ false))

  narrative-Reads :
      (b : Option FeedbackOut) (it : ChecklistItem) (items : List ChecklistItem)
      → Memᴰ it items
      → is_failed f verdicts it ≡ true
      → Reads (narrative_text f b verdicts items)
  unfolding narrative_text
  narrative-Reads none it items m failed = inl refl
  narrative-Reads (some b) it items m failed =
      inr (_, refl, backfill-reads it items b.compliance m failed)

module _ (f : FloatOps) (cfg : RoutingConfig f) (cs : Clients f) (r : JudgeRequest)
    (t : Tables f) where
  agrees :
      (a : Assembled f) (it : ChecklistItem)
      → Memᴰ it a.grounding.items
      → is_compliance it ≡ true
      → ((report_item f t.next_id a.routed it).answer ≢ some fail)
        ⊎ Reads f a.routed.verdicts (prose_in (report_of f r a t.next_id).narrative)
  unfolding report_of
  agrees a it mem about = elim (failed_or_not (report_item f t.next_id a.routed it).answer) [
    | inr other ↦ inl other
    | inl failed ↦
        let (v, e, bad) = row-failed f cfg cs r t a.routed it failed in
        inr (
          subst (Reads f a.routed.verdicts)
            (sym (
              prose-narrative f
                (narrative_text f a.findings.feedback a.routed.verdicts a.grounding.items) a.ideal))
            (narrative-Reads f a.routed.verdicts a.findings.feedback it a.grounding.items mem
              (rw (about, e) bad)))
  ]

  -- The report never says that nothing was found where its checklist fails an item on compliance:
  -- the row of such an item does not say FAIL, or the compliance text is not blank, or the report
  -- has no prose at all.
  pub compliance_agrees :
      (g : Grounding f) (it : ChecklistItem)
      → ground_in f r t ≡ value g
      → Memᴰ it g.items
      → is_compliance it ≡ true
      → (judge_call f cfg cs r t).0 ≡ value tt
      → (rep : Report f) × (x : ReportItem f) × (filter
            (of_call f r.call_id)
            (judge_call f cfg cs r t).1.reports
          ≡ rep ∷ [])
        × RowOf f cfg cs r t it x
        × ((x.answer ≢ some fail)
            ⊎ ((prose_in rep.narrative ≡ none)
                ⊎ ((p : NarrativeText) × (prose_in rep.narrative ≡ some p)
                    × (is_empty (strip p.compliance) ≡ false))))
  unfolding judge_call
  compliance_agrees g it hg mem about h =
      let (a, ha, rows) = written f cfg cs r t (assemble f cfg cs r t) h in
      let made = assembled f cfg cs r t a ha in
      let q = same_value f (ground_in f r t) g a.grounding hg made.grounded in
      let mem' = subst (λ (x : Grounding f). Memᴰ it x.items) q mem in
      (
        report_of f r a t.next_id,
        report_item f t.next_id a.routed it,
        ap (λ o. filter (of_call f r.call_id) (persist f cs r o t).1.reports) ha
            ∙ persist-report f cfg cs r a t,
        row_of f cfg cs r t a it mem' rows,
        agrees a it mem' about,
      )
