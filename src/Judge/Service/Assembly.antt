-- ===== src/Judge/Service/Assembly.antt =====
-- The second half of `judge_call` (backend/app/judge/service.py): the narrative, and the rows of
-- the report, which is built anew each time.
use call_audit_supervisor.Common.Float.{FloatOps}
use call_audit_supervisor.Common.{
  ℕ, Bool, false, not, ◌&&◌, Option, none, some, List, [], ◌∷◌, ◌++◌, map, String, filter, ◌==◌,
  if◌then◌else◌,
}
use call_audit_supervisor.Common.Codes.{Text, codes, is_empty, strip, lower, has_part}
use call_audit_supervisor.Common.Dict.{get}
use call_audit_supervisor.Ratelimit.Backoff.{other, Outcome, value, raised}
use call_audit_supervisor.Judge.Options.{needs_ideal}
use call_audit_supervisor.Judge.Routing.{
  Answer, is_fail, RoutingConfig, RoutingDecision, DecidedBy, primary,
}
use call_audit_supervisor.Judge.Clients.{
  ItemVerdict, FeedbackOut, ObjectionOut, IdealOut, VerdictSummary, Prompted, Clients,
}
use call_audit_supervisor.Judge.Tables.{
  NarrativeText, Narrative, Report, ReportItem, Tables, delete_reports, add_report,
}
use call_audit_supervisor.Checklists.Versions.{Checklist, ChecklistItem}
use call_audit_supervisor.Orchestration.Handlers.{JudgeRequest, Judge, given}
use call_audit_supervisor.Judge.Service.{
  is_free, ◌>>=◌, Grounding, ground_in, Findings, analyse, Routed, route, prompted, kb_of,
}

-- `s.rstrip(".")`
abbrev cons_dots : ℕ → Text → Text
cons_dots c s = if is_empty s && c == b'.' then [] else c ∷ s

abbrev rstrip_dots : Text → Text
rstrip_dots [] = []
rstrip_dots (c ∷ s) = cons_dots c (rstrip_dots s)

-- `" ".join(lines)`
abbrev pub spaced : List Text → Text
spaced [] = []
spaced (t ∷ []) = t
spaced (t ∷ u ∷ ts) = t ++ b' ' ∷ spaced (u ∷ ts)

abbrev prose_of : FeedbackOut → NarrativeText
prose_of b = record {
  summary = b.summary;
  coaching = b.coaching;
  compliance = b.compliance;
  feedback = b.feedback;
}

abbrev pub is_compliance : ChecklistItem → Bool
is_compliance it = has_part (codes "complian") (lower (codes it.item.section))

abbrev pub failure_heading : Text
failure_heading = codes "Compliance/quality issues flagged on the checklist: "

abbrev quoted : Text → Text
quoted q = if is_empty q then [] else codes " Evidence: \"" ++ q ++ codes "\""

-- The prose of a report's narrative.
abbrev pub prose_in : Option Narrative → Option NarrativeText
prose_in none = none
prose_in (some n) = n.prose

module _ (f : FloatOps) where
  open f use {F}

  abbrev fails : Option (ItemVerdict f) → Bool
  fails none = false
  fails (some v) = is_fail v.answer

  abbrev quote_of : Option (ItemVerdict f) → Text
  quote_of none = []
  quote_of (some v) = strip (codes v.evidence_quote)

  abbrev pub is_failed : List (ℕ × ItemVerdict f) → ChecklistItem → Bool
  is_failed verdicts it = is_compliance it && fails (get it.id verdicts)

  abbrev pub comp_line : List (ℕ × ItemVerdict f) → ChecklistItem → Text
  comp_line verdicts it =
      rstrip_dots (strip (codes it.item.text))
      ++ codes "."
      ++ quoted (quote_of (get it.id verdicts))

  abbrev pub comp_lines : List (ℕ × ItemVerdict f) → List ChecklistItem → List Text
  comp_lines verdicts items = map (comp_line verdicts) (filter (is_failed verdicts) items)

  abbrev pub with_lines : List Text → Text → Text
  with_lines [] compliance = compliance
  with_lines (l ∷ ls) compliance = failure_heading ++ spaced (l ∷ ls)

  -- The backfill of the compliance text from the failed items, when the agent left it blank.
  unfoldable pub backfill : List (ℕ × ItemVerdict f) → List ChecklistItem → Text → Text
  backfill verdicts items compliance =
      if is_empty (strip compliance)
      then with_lines (comp_lines verdicts items) compliance
      else compliance

  unfoldable pub narrative_text :
      Option FeedbackOut → List (ℕ × ItemVerdict f) → List ChecklistItem → Option NarrativeText
  unfolding backfill
  narrative_text none verdicts items = none
  narrative_text (some b) verdicts items =
      some (record (prose_of b) { compliance = backfill verdicts items b.compliance })

  abbrev answer_of : Option (ItemVerdict f) → Option Answer
  answer_of none = none
  answer_of (some v) = some v.answer

  abbrev comment_of : Option (ItemVerdict f) → Option String
  comment_of none = none
  comment_of (some v) = some v.comment

  abbrev evidence_of : Option (ItemVerdict f) → Option String
  evidence_of none = none
  evidence_of (some v) = some v.evidence_quote

  abbrev pub summary_of : List (ℕ × ItemVerdict f) → ChecklistItem → VerdictSummary
  summary_of verdicts it = record {
    section = it.item.section;
    text = it.item.text;
    answer = answer_of (get it.id verdicts);
    comment = comment_of (get it.id verdicts);
    evidence_quote = evidence_of (get it.id verdicts);
  }

  abbrev rewrite :
      Option (Prompted → List VerdictSummary → Option FeedbackOut → Outcome f IdealOut)
      → Prompted
      → List VerdictSummary
      → Option FeedbackOut
      → Outcome f (Option IdealOut)
  rewrite none p summaries b = value none
  rewrite (some gen) p summaries b = ◌>>=◌ f (gen p summaries b) (λ ideal. value (some ideal))

  unfoldable pub ideal_of :
      Clients f
      → JudgeRequest
      → Tables f
      → List ChecklistItem
      → Option FeedbackOut
      → List (ℕ × ItemVerdict f)
      → Outcome f (Option IdealOut)
  ideal_of cs r t items b verdicts =
      if needs_ideal r.option
      then rewrite cs.rewriter_gen (prompted f r t (kb_of f r t) "ideal")
          (map (summary_of verdicts) items) b
      else value none

  -- `narrative or None`
  abbrev pub narrative_of : Option NarrativeText → Option IdealOut → Option Narrative
  narrative_of none none = none
  narrative_of prose ideal = some (record { prose = prose; ideal = ideal })

  abbrev agent_name_of : Option FeedbackOut → Option String
  agent_name_of none = none
  agent_name_of (some b) = given b.agent_name

  abbrev id_of : Option Checklist → Option ℕ
  id_of none = none
  id_of (some c) = some c.id

  -- All that the agents found of one call.
  pub record Assembled : Type 0 where
    pub grounding : Grounding f
    pub findings : Findings f
    pub routed : Routed f
    pub ideal : Option IdealOut

  module _ (cfg : RoutingConfig f) (cs : Clients f) (r : JudgeRequest) (t : Tables f) where
    abbrev pub with_ideal : Grounding f → Findings f → Routed f → Option IdealOut → Assembled
    with_ideal g found final ideal = record {
      grounding = g;
      findings = found;
      routed = final;
      ideal = ideal;
    }

    abbrev pub after_routing : Grounding f → Findings f → Routed f → Outcome f Assembled
    after_routing g found final =
        ◌>>=◌ f (ideal_of cs r t g.items found.feedback final.verdicts)
          (λ ideal. value (with_ideal g found final ideal))

    abbrev pub after_findings : Grounding f → Findings f → Outcome f Assembled
    after_findings g found =
        ◌>>=◌ f (route f cfg cs r t g.items found.verdicts) (after_routing g found)

    abbrev pub after_grounding : Grounding f → Outcome f Assembled
    after_grounding g = ◌>>=◌ f (analyse f cs r t g.items) (after_findings g)

    -- What comes before the first write.
    unfoldable pub assemble : Outcome f Assembled
    unfolding ideal_of
    assemble = ◌>>=◌ f (ground_in f r t) after_grounding

  unfoldable pub report_of : JudgeRequest → Assembled → ℕ → Report f
  unfolding narrative_text
  report_of r a id = record {
    id = id;
    call_id = r.call_id;
    checklist_id = id_of a.grounding.checklist;
    option = r.option;
    model_passes = a.findings.model_passes;
    agent_name = agent_name_of a.findings.feedback;
    narrative =
        narrative_of (narrative_text a.findings.feedback a.routed.verdicts a.grounding.items)
          a.ideal;
    flagged_for_review = a.routed.flagged_for_review;
    flag_reason = a.routed.flag_reason;
  }

  -- Free-text items are not routed; they are recorded as accepted.
  abbrev decided_by_of : Bool → Option RoutingDecision → Option DecidedBy
  decided_by_of free (some d) = some d.decided_by
  decided_by_of free none = if free then some primary else none

  abbrev review_of : Option RoutingDecision → Bool
  review_of none = false
  review_of (some d) = d.needs_human_review

  abbrev item_of : ℕ → ℕ → Bool → Option RoutingDecision → Option (ItemVerdict f) → ReportItem f
  item_of rid iid free d none = record {
    report_id = rid;
    checklist_item_id = iid;
    answer = none;
    raw_answer = none;
    confidence = none;
    evidence_quote = none;
    evidence_offset_sec = none;
    comment = none;
    decided_by = decided_by_of free d;
    needs_human_review = review_of d;
  }
  item_of rid iid free d (some v) = record {
    report_id = rid;
    checklist_item_id = iid;
    answer = some v.answer;
    raw_answer = some v.raw_answer;
    confidence = some v.confidence;
    evidence_quote = some v.evidence_quote;
    evidence_offset_sec = v.evidence_offset_sec;
    comment = some v.comment;
    decided_by = decided_by_of free d;
    needs_human_review = review_of d;
  }

  unfoldable pub report_item : ℕ → Routed f → ChecklistItem → ReportItem f
  report_item rid final it =
      item_of rid it.id (is_free it) (get it.id final.decisions) (get it.id final.verdicts)

  abbrev add_items : List (ReportItem f) → Tables f → Tables f
  add_items rows t = record t { report_items = t.report_items ++ rows }

  -- The objections that say something.
  abbrev says : ObjectionOut → Bool
  says o = not (is_empty (strip (codes o.text)))

  abbrev pub objection_rows : Option FeedbackOut → List ObjectionOut
  objection_rows none = []
  objection_rows (some b) = filter says b.objections

  abbrev add_objection : ℕ → ObjectionOut → List F → Tables f → Tables f
  add_objection rid o vec t = record t {
    objections =
        t.objections
        ++ record {
          report_id = rid;
          text = o.text;
          category = given o.category;
          cleared = o.cleared;
          embedding = some vec;
        }
          ∷ [];
  }

  -- The loop over `zip(objection_rows, vectors, strict=True)`.
  abbrev pub add_zipped :
      ℕ → List ObjectionOut → List (List F) → Tables f → Outcome f (Unit {0}) × Tables f
  add_zipped rid [] [] t = (value tt, t)
  add_zipped rid (o ∷ os) [] t = (raised (other "zip() argument 2 is shorter than argument 1"), t)
  add_zipped rid [] (v ∷ vs) t = (raised (other "zip() argument 2 is longer than argument 1"), t)
  add_zipped rid (o ∷ os) (v ∷ vs) t = add_zipped rid os vs (add_objection rid o v t)

  abbrev pub embedded :
      ℕ → List ObjectionOut → Outcome f (List (List F)) → Tables f → Outcome f (Unit {0}) × Tables f
  embedded rid os (value vectors) t = add_zipped rid os vectors t
  embedded rid os (raised e) t = (raised e, t)

  -- Without objections the embedder is not called.
  abbrev pub add_objections :
      Clients f → ℕ → List ObjectionOut → Tables f → Outcome f (Unit {0}) × Tables f
  add_objections cs rid [] t = (value tt, t)
  add_objections cs rid (o ∷ os) t = embedded rid (o ∷ os) (cs.embed (map (λ x. x.text) (o ∷ os))) t

  -- The report and its items, in place of the reports of the call that were there.
  unfoldable pub rebuild : JudgeRequest → Assembled → Tables f → Tables f
  unfolding delete_reports add_report report_of report_item
  rebuild r a t =
      add_items (map (report_item t.next_id a.routed) a.grounding.items)
        (add_report f (report_of r a t.next_id) (delete_reports f r.call_id t))

  abbrev pub persist :
      Clients f → JudgeRequest → Outcome f Assembled → Tables f → Outcome f (Unit {0}) × Tables f
  persist cs r (raised e) t = (raised e, t)
  persist cs r (value a) t =
      add_objections cs t.next_id (objection_rows a.findings.feedback) (rebuild r a t)

  -- `judge_call`, with the session's tables; the caller has no use for the id that it returns.
  unfoldable pub judge_call : RoutingConfig f → Clients f → Judge f (Tables f)
  unfolding assemble rebuild
  judge_call cfg cs r t = persist cs r (assemble cfg cs r t) t
