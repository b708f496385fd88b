-- ===== src/Judge/Clients.antt =====
-- The agents that judge a call, as the service sees them: what they are asked and what they answer
-- (backend/app/judge/client.py, merged.py, subjective.py, narrative.py, schema.py). The agents
-- themselves are language models behind a network call, so parameters here. A custom schema's
-- additional fields are left out.
use call_audit_supervisor.Common.Float.{FloatOps}
use call_audit_supervisor.Common.{ℕ, Bool, Option, List, String}
use call_audit_supervisor.Common.Codes.{Text}
use call_audit_supervisor.Ratelimit.Backoff.{Outcome}
use call_audit_supervisor.Stt.{Transcript}
use call_audit_supervisor.Judge.Audio.{AudioRef}
use call_audit_supervisor.Judge.Routing.{Answer}
use call_audit_supervisor.Judge.Schema.{Json}

pub record JudgeItem : Type 0 where
  pub checklist_item_id : ℕ
  pub section : String
  pub text : String
  pub answer_type : String
  pub rubric : String
  pub options : List String

pub record ObjectionOut : Type 0 where
  pub text : String
  pub category : Option String
  pub cleared : Bool

pub record FeedbackBlock : Type 0 where
  pub strengths : List String
  pub development : List String

pub record FeedbackOut : Type 0 where
  pub agent_name : Option String
  pub summary : String
  pub coaching : String
  pub compliance : Text
  pub feedback : FeedbackBlock
  pub objections : List ObjectionOut

pub data Speaker : Type 0 where
  agent consumer : Speaker

pub record IdealTurn : Type 0 where
  pub speaker : Speaker
  pub text : String

pub record IdealOut : Type 0 where
  pub already_ideal : Bool
  pub ideal_conversation : List IdealTurn

-- An item with its verdict, for the rewriter.
pub record VerdictSummary : Type 0 where
  pub section : String
  pub text : String
  pub answer : Option Answer
  pub comment : Option String
  pub evidence_quote : Option String

-- What every agent is given beside its own input. The knowledge base is a text.
pub record Prompted : Type 0 where
  pub transcript : Transcript
  pub audio : Option AudioRef
  pub kb : Option Text
  pub system_prompt : Option String
  pub schema_override : Option Json

module _ (f : FloatOps) where
  open f use {F}

  pub record ItemVerdict : Type 0 where
    pub checklist_item_id : ℕ
    pub answer : Answer
    pub raw_answer : String
    pub confidence : F
    pub evidence_quote : String
    pub evidence_offset_sec : Option F
    pub comment : String
    pub needs_review : Bool

  pub record JudgeOutput : Type 0 where
    pub verdicts : List ItemVerdict
    pub objections : List ObjectionOut

  pub record MergedOut : Type 0 where
    pub feedback : FeedbackOut
    pub verdicts : List ItemVerdict

  abbrev pub JudgeClient : Type 0
  JudgeClient = Prompted → List JudgeItem → Outcome f JudgeOutput

  -- The agents of a worker; those it has not are `none`. The rewriter also reads the feedback.
  pub record Clients : Type 0 where
    pub judge : Option JudgeClient
    pub merged_gen : Option (Prompted → List JudgeItem → Outcome f MergedOut)
    pub subjective_gen : Option (Prompted → Outcome f FeedbackOut)
    pub rewriter_gen :
        Option (Prompted → List VerdictSummary → Option FeedbackOut → Outcome f IdealOut)
    pub escalation_judge : Option JudgeClient
    pub embed : List String → Outcome f (List (List F))
