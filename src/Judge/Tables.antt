-- ===== src/Judge/Tables.antt =====
-- The tables that the judge reads and writes (backend/app/models/__init__.py). A row of a report
-- or an objection that a report owns goes with the report, by its foreign key.
use call_audit_supervisor.Common.Float.{FloatOps}
use call_audit_supervisor.Common.{
  ℕ, ◌+◌, Bool, not, Option, List, [], ◌∷◌, ◌++◌, map, String, filter, any, ◌==◌,
}
use call_audit_supervisor.Common.Codes.{Text}
use call_audit_supervisor.Judge.Options.{ProcessingOption}
use call_audit_supervisor.Judge.Routing.{Answer, DecidedBy}
use call_audit_supervisor.Judge.Schema.{Json}
use call_audit_supervisor.Judge.Scope.{Scoped}
use call_audit_supervisor.Judge.Prompts.{Stored, Document}
use call_audit_supervisor.Judge.Clients.{
  FeedbackOut, FeedbackBlock, IdealOut, JudgeOutput, MergedOut,
}
use call_audit_supervisor.Checklists.Versions
use call_audit_supervisor.Checklists.Versions.{Checklist, ChecklistItem}

-- The keys of `narrative`: those of the feedback, and those of the ideal conversation.
pub record NarrativeText : Type 0 where
  pub summary : String
  pub coaching : String
  pub compliance : Text
  pub feedback : FeedbackBlock

pub record Narrative : Type 0 where
  pub prose : Option NarrativeText
  pub ideal : Option IdealOut

pub record Verification : Type 0 where
  pub report_id : ℕ
  pub verifier_id : ℕ
  pub judgement : String
  pub notes : Option String

module _ (f : FloatOps) where
  open f use {F}

  -- `model_passes`: the raw output of the agent that ran.
  pub data ModelPasses : Type 0 where
    merged : MergedOut f → ModelPasses
    checklist : JudgeOutput f → ModelPasses
    feedback : FeedbackOut → ModelPasses

  pub record Report : Type 0 where
    pub id : ℕ
    pub call_id : ℕ
    pub checklist_id : Option ℕ
    pub option : ProcessingOption
    pub model_passes : Option ModelPasses
    pub agent_name : Option String
    pub narrative : Option Narrative
    pub flagged_for_review : Bool
    pub flag_reason : Option String

  pub record ReportItem : Type 0 where
    pub report_id : ℕ
    pub checklist_item_id : ℕ
    pub answer : Option Answer
    pub raw_answer : Option String
    pub confidence : Option F
    pub evidence_quote : Option String
    pub evidence_offset_sec : Option F
    pub comment : Option String
    pub decided_by : Option DecidedBy
    pub needs_human_review : Bool

  pub record Objection : Type 0 where
    pub report_id : ℕ
    pub text : String
    pub category : Option String
    pub cleared : Bool
    pub embedding : Option (List F)

  pub record Tables : Type 0 where
    pub checklists : List Checklist
    pub checklist_items : List ChecklistItem
    pub documents : List Document
    pub prompts : List (Scoped (Stored String))
    pub schemas : List (Scoped (Stored Json))
    pub overrides : List ℕ
    pub reports : List Report
    pub report_items : List ReportItem
    pub objections : List Objection
    pub verifications : List Verification
    pub next_id : ℕ
    pub uuid : ℕ → ℕ
    pub now : ℕ

  -- What the checklist service reads and writes of the same database.
  abbrev pub library : Tables → Versions.Db
  library t = record {
    checklists = t.checklists;
    items = t.checklist_items;
    reports = map (λ (r : Report). record { id = r.id; checklist_id = r.checklist_id }) t.reports;
    next_id = t.next_id;
    uuid = t.uuid;
    now = t.now;
  }

  abbrev pub of_call : ℕ → Report → Bool
  of_call k r = r.call_id == k

  -- Whether a report of the call has the id.
  abbrev pub is_of_call : ℕ → List Report → ℕ → Bool
  is_of_call k rs i = any (λ r. r.id == i) (filter (of_call k) rs)

  -- `delete(Report).where(Report.call_id == call_id)`, with what goes with the report.
  unfoldable pub delete_reports : ℕ → Tables → Tables
  delete_reports k t = record t {
    reports = filter (λ r. not (of_call k r)) t.reports;
    report_items = filter (λ x. not (is_of_call k t.reports x.report_id)) t.report_items;
    objections = filter (λ o. not (is_of_call k t.reports o.report_id)) t.objections;
    verifications = filter (λ v. not (is_of_call k t.reports v.report_id)) t.verifications;
  }

  unfoldable pub add_report : Report → Tables → Tables
  add_report r t = record t { reports = t.reports ++ r ∷ []; next_id = t.next_id + 1 }
