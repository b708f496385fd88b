-- ===== src/Judge/Service.antt =====
-- backend/app/judge/service.py: the judging of one call. What the agents answer is a parameter, and
-- so are the ids of new rows, which a counter gives.
pub mod Assembly
pub mod Reports
pub mod Verdicts
pub mod Parts
pub mod Review
pub mod Immutable
pub mod Failures
pub mod Compliance
use call_audit_supervisor.Common.Float.{FloatOps}
use call_audit_supervisor.Common.{
  ℕ, Bool, true, false, not, ◌&&◌, Option, none, some, List, [], ◌∷◌, ◌++◌, map, String, ◌+++◌,
  decimal, filter, find?, contains, length, ◌==◌, str_eq, if◌then◌else◌,
}
use call_audit_supervisor.Common.Codes.{Text, codes, text_eq, is_empty, strip, lower, has_part}
use call_audit_supervisor.Common.Dict.{get, set_all, by_key, values}
use call_audit_supervisor.Ratelimit.Backoff.{Error, fatal, other, Outcome, value, raised}
use call_audit_supervisor.Judge.Options.{
  ProcessingOption, full, raw_only, feedback_ideal, checklist_only, needs_checklist, needs_ideal,
  uses_kb,
}
use call_audit_supervisor.Judge.Routing.{
  Risk, normal, elevated, critical, Answer, is_fail, ItemMeta, Verdict, RoutingConfig,
  RoutingDecision, RoutingResult, DecidedBy, primary, decide_routing,
}
use call_audit_supervisor.Judge.Schema.{Json}
use call_audit_supervisor.Judge.Prompts.{
  load_active_prompts, load_active_schemas, lookup, load_kb_text,
}
use call_audit_supervisor.Judge.Clients.{
  JudgeItem, JudgeClient, JudgeOutput, MergedOut, ItemVerdict, FeedbackOut, ObjectionOut, IdealOut,
  VerdictSummary, Prompted, Clients,
}
use call_audit_supervisor.Judge.Tables.{
  NarrativeText, Narrative, ModelPasses, merged, checklist, feedback, Report, ReportItem, Objection,
  Tables, library, delete_reports, add_report,
}
use call_audit_supervisor.Checklists.{is_free_text}
use call_audit_supervisor.Checklists.Versions.{
  Checklist, ChecklistItem, get_default_checklist, get_items,
}
use call_audit_supervisor.Orchestration.Handlers.{JudgeRequest, Judge, given}

abbrev or_empty : Option (List String) → List String
or_empty none = []
or_empty (some xs) = xs

abbrev or_else : Option String → String → String
or_else none s = s
or_else (some t) s = t

abbrev given_text : Option String → Option String
given_text none = none
given_text (some s) = given (some s)

abbrev pub is_free : ChecklistItem → Bool
is_free it = is_free_text it.item.answer_type it.item.is_subjective

unfoldable pub judge_item : ChecklistItem → JudgeItem
judge_item it = record {
  checklist_item_id = it.id;
  section = it.item.section;
  text = it.item.text;
  answer_type = if is_free it then "TEXT" else it.item.answer_type;
  rubric = or_else (given_text it.item.guidance) it.item.text;
  options = if is_free it then [] else or_empty it.item.options;
}

-- `risk`, of which the routing knows three values.
abbrev pub risk_of : String → Risk
risk_of s =
    if str_eq s "CRITICAL" then critical else if str_eq s "ELEVATED" then elevated else normal

abbrev pub meta_of : ChecklistItem → ItemMeta
meta_of it = record {
  item_id = it.id;
  is_subjective = it.item.is_subjective;
  risk = risk_of it.item.risk;
}

abbrev pub objective_items : List ChecklistItem → List ChecklistItem
objective_items items = filter (λ it. not (is_free it)) items

module _ (f : FloatOps) where
  open f use {F}

  infixl 5 ◌>>=◌
  abbrev pub ◌>>=◌ : {A B : Type 0} → Outcome f A → (A → Outcome f B) → Outcome f B
  (value a) >>= k = k a
  (raised e) >>= k = raised e

  abbrev or_default : ℕ → Option Checklist → Outcome f Checklist
  or_default pid none = raised (fatal ("no active checklist for portfolio " +++ decimal pid))
  or_default pid (some c) = value c

  abbrev selected : Option ℕ → ℕ → List Checklist → Option Checklist
  selected none pid cs = none
  selected (some k) pid cs = find? (λ c. (c.id == k) && (c.portfolio_id == pid)) cs

  -- `_resolve_checklist`
  unfoldable pub resolve_checklist : ℕ → Option ℕ → Tables f → Outcome f Checklist
  resolve_checklist pid k t = elim (selected k pid t.checklists) [
    | some c ↦ value c
    | none ↦ or_default pid (get_default_checklist pid (library f t))
  ]

  -- The checklist of the call and its items, for the options that produce a checklist.
  pub record Grounding : Type 0 where
    pub checklist : Option Checklist
    pub items : List ChecklistItem

  unfoldable pub ground_in : JudgeRequest → Tables f → Outcome f Grounding
  ground_in r t =
      if needs_checklist r.option
      then (do
        c ← resolve_checklist r.portfolio_id r.checklist_id t
        value (record { checklist = some c; items = get_items c.id (library f t) }))
      else value (record { checklist = none; items = [] })

  abbrev kb_of : JudgeRequest → Tables f → Option Text
  kb_of r t =
      if uses_kb r.option then load_kb_text r.portfolio_id r.kb_doc_ids t.documents else none

  -- What an agent is told about the call.
  unfoldable pub prompted : JudgeRequest → Tables f → Option Text → String → Prompted
  prompted r t kb agent = record {
    transcript = r.transcript;
    audio = r.audio;
    kb = kb;
    system_prompt = lookup agent (load_active_prompts (some r.portfolio_id) r.agent_id t.prompts);
    schema_override = lookup agent (load_active_schemas (some r.portfolio_id) r.agent_id t.schemas);
  }

  -- What the first agent found.
  pub record Findings : Type 0 where
    pub feedback : Option FeedbackOut
    pub verdicts : List (ℕ × ItemVerdict f)
    pub model_passes : Option (ModelPasses f)

  abbrev pub verdict_id : ItemVerdict f → ℕ
  verdict_id v = v.checklist_item_id

  abbrev of_merged : MergedOut f → Findings
  of_merged m = record {
    feedback = some m.feedback;
    verdicts = by_key verdict_id m.verdicts;
    model_passes = some (merged m);
  }

  abbrev of_output : JudgeOutput f → Findings
  of_output o = record {
    feedback = none;
    verdicts = by_key verdict_id o.verdicts;
    model_passes = some (checklist o);
  }

  abbrev of_feedback : FeedbackOut → Findings
  of_feedback b = record { feedback = some b; verdicts = []; model_passes = some (feedback b) }

  abbrev agent_or_fatal : {A : Type 0} → String → Option A → Outcome f A
  agent_or_fatal m none = raised (fatal m)
  agent_or_fatal m (some a) = value a

  abbrev analyse_as :
      ProcessingOption → Clients f → JudgeRequest → Tables f → List JudgeItem → Outcome f Findings
  analyse_as full cs r t items = do
    agent ← agent_or_fatal "FULL option requires the merged feedback+checklist agent" cs.merged_gen
    m ← agent (prompted r t (kb_of r t) "merged") items
    value (of_merged m)
  analyse_as checklist_only cs r t items = do
    agent ← agent_or_fatal "CHECKLIST_ONLY option requires the checklist agent" cs.judge
    o ← agent (prompted r t none "checklist") items
    value (of_output o)
  analyse_as feedback_ideal cs r t items = do
    agent ← agent_or_fatal "FEEDBACK_IDEAL option requires the feedback agent" cs.subjective_gen
    b ← agent (prompted r t (kb_of r t) "feedback")
    value (of_feedback b)
  analyse_as raw_only cs r t items =
      value (record { feedback = none; verdicts = []; model_passes = none })

  unfoldable pub analyse :
      Clients f → JudgeRequest → Tables f → List ChecklistItem → Outcome f Findings
  unfolding judge_item
  analyse cs r t items = analyse_as r.option cs r t (map judge_item items)

  abbrev pub routing_verdict : ItemVerdict f → Verdict f
  routing_verdict v = record {
    item_id = v.checklist_item_id;
    answer = v.answer;
    confidence = v.confidence;
    quote_length = length (codes v.evidence_quote);
    needs_review = v.needs_review;
  }

  abbrev pub has_row : List ChecklistItem → ℕ → Bool
  has_row [] k = false
  has_row (it ∷ items) k = let rest = has_row items k in if it.id == k then true else rest

  -- `_load_overrides`
  unfoldable pub load_overrides : List ChecklistItem → Tables f → List ℕ
  load_overrides items t = filter (has_row items) t.overrides

  abbrev pub tier_count : Option (JudgeClient f) → ℕ
  tier_count none = 1
  tier_count (some j) = 2

  unfoldable pub routing_of :
      RoutingConfig f
      → Option (JudgeClient f)
      → Tables f
      → List ChecklistItem
      → List (ℕ × ItemVerdict f)
      → RoutingResult f
  routing_of cfg esc t items verdicts =
      decide_routing f cfg (load_overrides items t) (tier_count esc)
        (map meta_of (objective_items items)) (map routing_verdict (values verdicts))

  -- `RoutingResult.escalated_item_ids`: the decisions with a reason.
  abbrev has_reason : Option String → Bool
  has_reason none = false
  has_reason (some s) = true

  abbrev pub escalated_item_ids : List RoutingDecision → List ℕ
  escalated_item_ids [] = []
  escalated_item_ids (d ∷ ds) =
      let rest = escalated_item_ids ds in if has_reason d.reason then d.item_id ∷ rest else rest

  -- The verdicts and decisions that the report is made of.
  pub record Routed : Type 0 where
    pub verdicts : List (ℕ × ItemVerdict f)
    pub flagged_for_review : Bool
    pub flag_reason : Option String
    pub decisions : List (ℕ × RoutingDecision)

  abbrev routed : RoutingResult f → List (ℕ × ItemVerdict f) → Routed
  routed result verdicts = record {
    verdicts = verdicts;
    flagged_for_review = result.flagged_for_review;
    flag_reason = result.flag_reason;
    decisions = by_key (λ (d : RoutingDecision). d.item_id) result.decisions;
  }

  abbrev asked : List ℕ → List JudgeItem → List JudgeItem
  asked ids items = filter (λ ji. contains ji.checklist_item_id ids) items

  -- The second tier, which only sees the escalated items; its verdicts replace the first ones.
  abbrev escalate :
      Option (JudgeClient f)
      → List ℕ
      → Prompted
      → List JudgeItem
      → List (ℕ × ItemVerdict f)
      → Outcome f (List (ℕ × ItemVerdict f))
  escalate none ids p items verdicts = value verdicts
  escalate (some judge) [] p items verdicts = value verdicts
  escalate (some judge) (i ∷ ids) p items verdicts = do
    higher ← judge p (asked (i ∷ ids) items)
    value (set_all verdict_id higher.verdicts verdicts)

  unfoldable pub route :
      RoutingConfig f
      → Clients f
      → JudgeRequest
      → Tables f
      → List ChecklistItem
      → List (ℕ × ItemVerdict f)
      → Outcome f Routed
  unfolding routing_of judge_item
  route cfg cs r t items verdicts =
      if is_empty (objective_items items)
      then value (record {
        verdicts = verdicts;
        flagged_for_review = false;
        flag_reason = none;
        decisions = [];
      })
      else (do
        final ←
            escalate cs.escalation_judge
              (escalated_item_ids (routing_of cfg cs.escalation_judge t items verdicts).decisions)
              (prompted r t (kb_of r t) "checklist") (map judge_item items) verdicts
        value (routed (routing_of cfg cs.escalation_judge t items verdicts) final))
