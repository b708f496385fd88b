-- ===== src/Judge/Service/Review.antt =====
-- Which rows of a report a human has to review (backend/app/judge/service.py with routing.py).
use mathlib.Core.List.{Memᴰ}
use mathlib.Core.Path.{subst}
use call_audit_supervisor.Common.Float.{FloatOps}
use call_audit_supervisor.Common.{
  ℕ, ◌≡◌, ◌≢◌, refl, sym, ap, ◌∙◌, ◌⊎◌, inl, inr, true, false, Option, none, some, List, [], ◌∷◌,
  map, filter, All, ◌==◌, ◌<◌,
}
use call_audit_supervisor.Common.Dict.{get, values, IsKeyed}
use call_audit_supervisor.Ratelimit.Backoff.{value}
use call_audit_supervisor.Judge.Routing.{
  Answer, pass, fail, na, is_fail, is_critical, RoutingConfig, primary,
}
use call_audit_supervisor.Judge.Routing.Breaker.{escalated_reason}
use call_audit_supervisor.Judge.Clients.{ItemVerdict, Clients}
use call_audit_supervisor.Judge.Tables.{ReportItem, Tables}
use call_audit_supervisor.Checklists.Versions.{ChecklistItem}
use call_audit_supervisor.Orchestration.Handlers.{JudgeRequest}
use call_audit_supervisor.Judge.Service.{
  is_free, meta_of, risk_of, verdict_id, routing_verdict, load_overrides, Grounding, ground_in,
}
use call_audit_supervisor.Judge.Service.Assembly.{
  Assembled, assemble, report_item, rebuild, judge_call,
}
use call_audit_supervisor.Judge.Service.Verdicts.{
  DistinctIds, result, decide, route-free, route-own, route-verdicts, routing_sees, same_value,
}
use call_audit_supervisor.Judge.Service.Parts.{
  From, row-report, row-item, row-free, row-decided, row-failed, assembled, written, analyse-Sound,
  rows-own, row-mem,
}

pub failed_or_not : (o : Option Answer) → (o ≡ some fail) ⊎ (o ≢ some fail)
failed_or_not none = inr (λ h. cc)
failed_or_not (some pass) = inr (λ h. cc)
failed_or_not (some fail) = inl refl
failed_or_not (some na) = inr (λ h. cc)

module _ (f : FloatOps) (cfg : RoutingConfig f) (cs : Clients f) (r : JudgeRequest)
    (t : Tables f) where
  rows-ids :
      (a : Assembled f) (items : List ChecklistItem)
      → map
          (λ (x : ReportItem f). x.checklist_item_id)
          (map (report_item f t.next_id a.routed) items)
        ≡ map (λ (it : ChecklistItem). it.id) items
  rows-ids a [] = refl
  rows-ids a (it ∷ items) = λ i. row-item f cfg cs r t a.routed it i ∷ rows-ids a items i

  -- When the judging of a call returns, the new report has one row for each item of the checklist
  -- that the call is judged against, in the checklist's order, if no row named its id before.
  pub judge_call-item_rows :
      All (λ (x : ReportItem f). x.report_id < t.next_id) t.report_items
      → (judge_call f cfg cs r t).0 ≡ value tt
      → (g : Grounding f) × (ground_in f r t ≡ value g)
        × (map
              (λ (x : ReportItem f). x.checklist_item_id)
              (filter
                (λ (x : ReportItem f). x.report_id == t.next_id)
                (judge_call f cfg cs r t).1.report_items)
            ≡ map (λ (it : ChecklistItem). it.id) g.items)
  unfolding judge_call
  judge_call-item_rows fresh h =
      let (a, ha, rows) = written f cfg cs r t (assemble f cfg cs r t) h in
      (
        a.grounding,
        (assembled f cfg cs r t a ha).grounded,
        ap
              (λ xs.
                map (λ (x : ReportItem f). x.checklist_item_id)
                  (filter (λ (x : ReportItem f). x.report_id == t.next_id) xs))
              rows
            ∙ ap (map (λ (x : ReportItem f). x.checklist_item_id)) (rows-own f cfg cs r t a fresh)
            ∙ rows-ids a a.grounding.items,
      )

  -- A row of the new report for an item.
  pub record RowOf (it : ChecklistItem) (x : ReportItem f) : Type 0 where
    pub stored : Memᴰ x (judge_call f cfg cs r t).1.report_items
    pub report : x.report_id ≡ t.next_id
    pub item : x.checklist_item_id ≡ it.id

  pub row_of :
      (a : Assembled f) (it : ChecklistItem)
      → Memᴰ it a.grounding.items
      → (judge_call f cfg cs r t).1.report_items ≡ (rebuild f r a t).report_items
      → RowOf it (report_item f t.next_id a.routed it)
  row_of a it mem rows = record {
    stored =
        subst (Memᴰ (report_item f t.next_id a.routed it)) (sym rows)
          (row-mem f cfg cs r t a it mem);
    report = row-report f cfg cs r t a.routed it;
    item = row-item f cfg cs r t a.routed it;
  }

  -- The decision of a failed item of critical risk asks for a review.
  asks_review :
      (items : List ChecklistItem) (verdicts : List (ℕ × ItemVerdict f)) (it : ChecklistItem)
      (v : ItemVerdict f)
      → IsKeyed (verdict_id f) verdicts
      → cs.escalation_judge ≡ none
      → is_critical (risk_of it.item.risk) ≡ true
      → get it.id verdicts ≡ some v
      → is_fail v.answer ≡ true
      → (decide f cfg cs r t items verdicts (meta_of it)).needs_human_review ≡ true
  asks_review items verdicts it v sound lone risky e bad =
      let (reason, q) =
        escalated_reason f cfg (load_overrides f items t)
          (map (routing_verdict f) (values verdicts)) (meta_of it) (routing_verdict f v)
          (result f cfg cs r t items verdicts).flagged_for_review
          (routing_sees f it.id v verdicts sound e) risky bad in
      rw (q, lone) refl

  reviewed :
      (a : Assembled f) (it : ChecklistItem)
      → From f cfg cs r t a
      → DistinctIds a.grounding.items
      → Memᴰ it a.grounding.items
      → is_free it ≡ false
      → cs.escalation_judge ≡ none
      → is_critical (risk_of it.item.risk) ≡ true
      → ((report_item f t.next_id a.routed it).answer ≢ some fail)
        ⊎ ((report_item f t.next_id a.routed it).needs_human_review ≡ true)
  reviewed a it made d mem own lone risky =
      elim (failed_or_not (report_item f t.next_id a.routed it).answer) [
        | inr other ↦ inl other
        | inl failed ↦
            let (v, e, bad) = row-failed f cfg cs r t a.routed it failed in
            let same =
              route-verdicts f cfg cs r t a.grounding.items a.findings.verdicts a.routed lone
                made.routed in
            inr (
              row-decided f cfg cs r t a.routed it _ (
                route-own f cfg cs r t a.grounding.items a.findings.verdicts a.routed it d mem own
                  made.routed)
              ∙ asks_review a.grounding.items a.findings.verdicts it v
                  (analyse-Sound f cs r t a.grounding.items a.findings made.analysed) lone risky
                  (sym (ap (get it.id) same) ∙ e) bad)
      ]

  -- A free-text item is never left to a human or to the second tier: its row says that the first
  -- agent decided it. The ids of the checklist's items are distinct.
  pub free_text_accepted :
      (g : Grounding f) (it : ChecklistItem)
      → ground_in f r t ≡ value g
      → DistinctIds g.items
      → Memᴰ it g.items
      → is_free it ≡ true
      → (judge_call f cfg cs r t).0 ≡ value tt
      → (x : ReportItem f) × RowOf it x
        × (x.decided_by ≡ some primary)
        × (x.needs_human_review ≡ false)
  unfolding judge_call
  free_text_accepted g it hg d mem free h =
      let (a, ha, rows) = written f cfg cs r t (assemble f cfg cs r t) h in
      let made = assembled f cfg cs r t a ha in
      let q = same_value f (ground_in f r t) g a.grounding hg made.grounded in
      let mem' = subst (λ (x : Grounding f). Memᴰ it x.items) q mem in
      let d' = subst (λ (x : Grounding f). DistinctIds x.items) q d in
      let accepted =
        row-free f cfg cs r t a.routed it
          (route-free f cfg cs r t a.grounding.items a.findings.verdicts a.routed it d' mem' free
            made.routed)
          free in
      (report_item f t.next_id a.routed it, row_of a it mem' rows, accepted.0, accepted.1)

  -- A FAIL on an objective item of critical risk is left to a human, if there is no second tier to
  -- judge it again. The ids of the checklist's items are distinct.
  pub critical_fail_reviewed :
      (g : Grounding f) (it : ChecklistItem)
      → cs.escalation_judge ≡ none
      → ground_in f r t ≡ value g
      → DistinctIds g.items
      → Memᴰ it g.items
      → is_free it ≡ false
      → is_critical (risk_of it.item.risk) ≡ true
      → (judge_call f cfg cs r t).0 ≡ value tt
      → (x : ReportItem f) × RowOf it x × ((x.answer ≢ some fail) ⊎ (x.needs_human_review ≡ true))
  unfolding judge_call
  critical_fail_reviewed g it lone hg d mem own risky h =
      let (a, ha, rows) = written f cfg cs r t (assemble f cfg cs r t) h in
      let made = assembled f cfg cs r t a ha in
      let q = same_value f (ground_in f r t) g a.grounding hg made.grounded in
      let mem' = subst (λ (x : Grounding f). Memᴰ it x.items) q mem in
      let d' = subst (λ (x : Grounding f). DistinctIds x.items) q d in
      (
        report_item f t.next_id a.routed it,
        row_of a it mem' rows,
        reviewed a it made d' mem' own lone risky,
      )
