-- ===== src/Tests/Reports.antt =====
-- Concrete runs of the judge, on a checklist with one item of critical risk and one free text.
use mathlib.Core.List.Memᴰ.{head, tail}
use call_audit_supervisor.Common.{
  ℕ, ◌-◌, ◌≡◌, ◌≢◌, ◌⊎◌, refl, true, false, none, some, List, [], ◌∷◌, filter, String, arith,
  str_eq,
}
use call_audit_supervisor.Common.Codes.{is_empty, strip, upper_char, lower_char, is_space}
use call_audit_supervisor.Common.Sort.{sort_by}
use call_audit_supervisor.Ratelimit.Backoff.{Outcome, value, raised, other}
use call_audit_supervisor.Judge.Options.{full, needs_checklist, needs_ideal}
use call_audit_supervisor.Judge.Routing.{fail, primary, RoutingConfig}
use call_audit_supervisor.Judge.Scope.{Scoped, resolve_scoped, IsBest}
use call_audit_supervisor.Judge.Prompts.{
  Stored, load_active_lem, load_active_prompts, lookup, chosen, of_agent,
}
use call_audit_supervisor.Judge.Clients.{ItemVerdict, FeedbackOut, ObjectionOut, Clients}
use call_audit_supervisor.Judge.Tables.{
  Report, ReportItem, Tables, NarrativeText, library, of_call, delete_reports, add_report,
}
use call_audit_supervisor.Judge.Service.{
  Grounding, resolve_checklist, ground_in, analyse, judge_item, route,
}
use call_audit_supervisor.Judge.Service.Assembly.{
  ideal_of, assemble, report_of, rebuild, judge_call, prose_in,
}
use call_audit_supervisor.Judge.Service.Reports.{judge_call-one_report}
use call_audit_supervisor.Judge.Service.Review.{RowOf, free_text_accepted, critical_fail_reviewed}
use call_audit_supervisor.Judge.Service.Compliance.{compliance_agrees}
use call_audit_supervisor.Judge.Service.Failures.{ObjectionsFail, judge_call-failure}
use call_audit_supervisor.Judge.Service.Immutable.{judged_items_kept}
use call_audit_supervisor.Checklists.{is_free_text}
use call_audit_supervisor.Checklists.Versions.{
  Checklist, ChecklistItem, active, get_items, get_default_checklist, of_checklist,
}
use call_audit_supervisor.Checklists.Versions.History.{Edit, rename, soft_delete, apply_all}
use call_audit_supervisor.Orchestration.Handlers.{JudgeRequest, JobView, handle_judge}
use call_audit_supervisor.Orchestration.Handlers.Judged.{other_reports, handle_judge-other_reports}
use call_audit_supervisor.Orchestration.World.{World}
use call_audit_supervisor.Tests.Floats.{whole}
use call_audit_supervisor.Tests.Samples.{transcript_row, world, services}

abbrev form : Checklist
form = record {
  id = 1;
  portfolio_id = 1;
  family_id = 1;
  name = "Calls";
  is_default = true;
  version = 1;
  status = active;
  requires_kb = false;
  created_at = 0;
}

abbrev pub disclosure : ChecklistItem
disclosure = record {
  id = 10;
  checklist_id = 1;
  sort_order = 0;
  item = record {
    section = "Compliance";
    text = "Disclosed";
    answer_type = "PASS_FAIL";
    is_subjective = false;
    risk = "CRITICAL";
    guidance = none;
    options = none;
  };
}

abbrev impression : ChecklistItem
impression = record {
  id = 11;
  checklist_id = 1;
  sort_order = 1;
  item = record {
    section = "Tone";
    text = "Tone";
    answer_type = "TEXT";
    is_subjective = true;
    risk = "NORMAL";
    guidance = none;
    options = none;
  };
}

abbrev old_report : ℕ → ℕ → Report whole
old_report k call = record {
  id = k;
  call_id = call;
  checklist_id = some 1;
  option = full;
  model_passes = none;
  agent_name = none;
  narrative = none;
  flagged_for_review = false;
  flag_reason = none;
}

abbrev prompt_row : Scoped (Stored String)
prompt_row = record {
  portfolio_id = none;
  agent_id = none;
  payload = record { id = 1; agent = "merged"; in_use = true; content = "Be fair." };
}

abbrev pub tables : Tables whole
tables = record {
  checklists = form ∷ [];
  checklist_items = disclosure ∷ impression ∷ [];
  documents = [];
  prompts = prompt_row ∷ [];
  schemas = [];
  overrides = [];
  reports = old_report 40 3 ∷ old_report 41 9 ∷ [];
  report_items = [];
  objections = [];
  verifications = [];
  next_id = 50;
  uuid = λ n. 100 - n;
  now = 0;
}

abbrev pub request : JudgeRequest
request = record {
  call_id = 3;
  portfolio_id = 1;
  agent_id = none;
  transcript = transcript_row "t-3" true;
  option = full;
  audio = none;
  checklist_id = none;
  kb_doc_ids = none;
}

abbrev verdict : ItemVerdict whole
verdict = record {
  checklist_item_id = 10;
  answer = fail;
  raw_answer = "No";
  confidence = 1;
  evidence_quote = "hi";
  evidence_offset_sec = none;
  comment = "";
  needs_review = false;
}

abbrev objection : ObjectionOut
objection = record { text = "too much"; category = none; cleared = false }

abbrev feedback : FeedbackOut
feedback = record {
  agent_name = some "Ann";
  summary = "s";
  coaching = "c";
  compliance = [];
  feedback = record { strengths = []; development = [] };
  objections = objection ∷ [];
}

-- Agents of which the merged one fails the disclosure; the embedder answers as given.
abbrev clients : Outcome whole (List (List ℕ)) → Clients whole
clients vectors = record {
  judge = none;
  merged_gen = some (λ p items. value (record { feedback = feedback; verdicts = verdict ∷ [] }));
  subjective_gen = none;
  rewriter_gen = none;
  escalation_judge = none;
  embed = λ texts. vectors;
}

abbrev config : RoutingConfig whole
config = record { confidence_threshold = 0; min_evidence_chars = 1; max_escalation_fraction = 5 }

abbrev judging : Clients whole
judging = clients (value ((1 ∷ []) ∷ []))

abbrev ground : Grounding whole
ground = record { checklist = some form; items = disclosure ∷ impression ∷ [] }

grounded : ground_in whole request tables ≡ value ground
unfolding ground_in resolve_checklist get_default_checklist get_items sort_by needs_checklist
grounded = refl

judged : (judge_call whole config judging request tables).0 ≡ value tt
unfolding judge_call assemble ground_in resolve_checklist get_default_checklist get_items sort_by
    needs_checklist analyse route ideal_of needs_ideal rebuild judge_item is_free_text upper_char
    str_eq is_space
judged = refl

abbrev after : Tables whole
after = (judge_call whole config judging request tables).1

judge_call-one_report_example :
    (rep : Report whole) × (rep.id ≡ 50) × (filter (of_call whole 3) after.reports ≡ rep ∷ [])
judge_call-one_report_example = judge_call-one_report whole config judging request tables judged

free_text_accepted_example :
    (x : ReportItem whole) × RowOf whole config judging request tables impression x
    × (x.decided_by ≡ some primary)
    × (x.needs_human_review ≡ false)
unfolding is_free_text upper_char
free_text_accepted_example =
    free_text_accepted whole config judging request tables ground impression grounded
      (refl, (refl, tt)) (tail (head refl)) refl judged

critical_fail_reviewed_example :
    (x : ReportItem whole) × RowOf whole config judging request tables disclosure x
    × ((x.answer ≢ some fail) ⊎ (x.needs_human_review ≡ true))
unfolding is_free_text upper_char str_eq
critical_fail_reviewed_example =
    critical_fail_reviewed whole config judging request tables ground disclosure refl grounded
      (refl, (refl, tt)) (head refl) refl refl judged

compliance_agrees_example :
    (rep : Report whole) × (x : ReportItem whole) × (filter (of_call whole 3) after.reports
      ≡ rep ∷ [])
    × RowOf whole config judging request tables disclosure x
    × ((x.answer ≢ some fail)
        ⊎ ((prose_in rep.narrative ≡ none)
            ⊎ ((p : NarrativeText) × (prose_in rep.narrative ≡ some p)
                × (is_empty (strip p.compliance) ≡ false))))
unfolding lower_char
compliance_agrees_example =
    compliance_agrees whole config judging request tables ground disclosure grounded (head refl)
      refl judged

-- The embedder answers with no vector for the one objection.
abbrev mute : Clients whole
mute = clients (value [])

abbrev zip_error : String
zip_error = "zip() argument 2 is shorter than argument 1"

mute_fails : (judge_call whole config mute request tables).0 ≡ raised (other zip_error)
unfolding judge_call assemble ground_in resolve_checklist get_default_checklist get_items sort_by
    needs_checklist analyse route ideal_of needs_ideal rebuild judge_item is_free_text upper_char
    str_eq is_space
mute_fails = refl

judge_call-failure_example :
    ((judge_call whole config mute request tables).1 ≡ tables)
    ⊎ ObjectionsFail whole config mute request tables
        (assemble whole config mute request tables)
        (other zip_error)
judge_call-failure_example =
    judge_call-failure whole config mute request tables (other zip_error) mute_fails

abbrev edits : List Edit
edits = rename form "New" ∷ soft_delete form ∷ []

judged_items_kept_example :
    filter (of_checklist 1) (apply_all edits (library whole after)).items
    ≡ filter (of_checklist 1) (library whole after).items
unfolding judge_call assemble ground_in resolve_checklist get_default_checklist get_items sort_by
    needs_checklist analyse route ideal_of needs_ideal rebuild judge_item is_free_text upper_char
    str_eq is_space delete_reports add_report report_of
judged_items_kept_example =
    judged_items_kept whole config judging request tables ground form edits grounded refl judged
      (record {
        started = omega arith;
        reports = (omega arith, (omega arith, tt));
        items = (omega arith, (omega arith, tt));
      })
      (tt, (tt, tt))

load_active_lem_example :
    (lookup "merged" (load_active_prompts (some 1) none (prompt_row ∷ []))
      ≡ chosen some (some 1) none (prompt_row ∷ []) "merged")
    × IsBest
        (some 1)
        none
        (of_agent some (some 1) none (prompt_row ∷ []) "merged")
        (resolve_scoped (some 1) none (of_agent some (some 1) none (prompt_row ∷ []) "merged"))
unfolding str_eq
load_active_lem_example = load_active_lem some (some 1) none (prompt_row ∷ []) "merged" refl

abbrev ready : JobView
ready = record {
  id = 3;
  call_id = 3;
  portfolio_id = 1;
  transcript_id = some "t-3";
  audio_uri = "1.mp3";
  transcript_uri = none;
}

abbrev pub judged_world : World (Tables whole)
judged_world = record {
  db = record {
    jobs = world.db.jobs;
    calls = world.db.calls;
    portfolios = world.db.portfolios;
    usage = world.db.usage;
    job_errors = [];
    events = [];
    reports = tables;
  };
  transcripts = world.transcripts;
  recordings = world.recordings;
  submissions = [];
}

handle_judge-other_reports_example :
    other_reports whole config judging
      (services (value "t-9"))
      ready
      (handle_judge whole
        (Tables whole)
        (judge_call whole config judging)
        (services (value "t-9"))
        ready
        judged_world).1
    ≡ old_report 41 9 ∷ []
handle_judge-other_reports_example =
    handle_judge-other_reports whole config judging (services (value "t-9")) ready judged_world
