-- ===== src/Tests/Records.antt =====
-- Runs of the gates, the checklists, the routing and the settings.
use mathlib.Core.Logic.{◌↔◌}
use call_audit_supervisor.Common.{
  ◌-◌, All, ◌≡◌, refl, ◌⊎◌, true, false, none, some, List, [], ◌∷◌, map, String, find?, arith,
}
use call_audit_supervisor.Common.Float.{lt}
use call_audit_supervisor.Common.Codes.{codes, upper, upper_char}
use call_audit_supervisor.Access.Permissions.{
  admin, supervisor, agent, report_view, checklist_delete, is_allowed, AdminOnly, AgentMay,
  matrix_lem,
}
use call_audit_supervisor.Access.Authorize.{
  Tables, AuthContext, passed, authorize, authorize_report, authorize_report_item, org_role,
  portfolio_role, portfolio_of_report, portfolio_of_report_item, is_member_of, Passed,
  authorize_sound,
}
use call_audit_supervisor.Checklists.Versions.{
  Checklist, Item, active, of_checklist, is_used_by_report, update_checklist, get_items,
}
use call_audit_supervisor.Checklists.Versions as Versions
use call_audit_supervisor.Checklists.Versions.History.{IsConsistent}
use call_audit_supervisor.Checklists.Versions.Items.{update-get_items}
use call_audit_supervisor.Judge.Scope.{Scoped}
use call_audit_supervisor.Judge.Routing.{
  critical, normal, fail, ItemMeta, Verdict, RoutingConfig, decision_of, decide_routing,
}
use call_audit_supervisor.Judge.Routing.Breaker.{
  Distinct, final_reason, share, is_some, reason, is_escalated, decide_routing_lem,
}
use call_audit_supervisor.Stt.Redaction.{transcript, parse_pii_mode, parse-value}
use call_audit_supervisor.Tests.Floats.{whole}

abbrev tables : Tables
tables = record {
  org_members = record { user_id = 1; role = admin } ∷ [];
  portfolio_members = record { user_id = 2; portfolio_id = 10; role = agent } ∷ [];
  calls = record { id = 5; portfolio_id = 10 } ∷ [];
  reports = record { id = 6; call_id = 5 } ∷ [];
  report_items = record { id = 7; report_id = 6 } ∷ [];
}

abbrev agent_context : AuthContext
agent_context = record { user = 2; role = agent; portfolio_id = some 10 }

passes : authorize report_view tables 2 10 ≡ passed agent_context
unfolding authorize portfolio_role is_allowed
passes = refl

authorize_sound_example : Passed report_view tables 2 10 agent_context
authorize_sound_example = authorize_sound report_view tables 2 agent_context 10 passes

passes_report : authorize_report report_view tables 2 6 ≡ passed agent_context
unfolding authorize_report portfolio_of_report portfolio_role is_allowed
passes_report = refl

passes_item : authorize_report_item report_view tables 2 7 ≡ passed agent_context
unfolding authorize_report_item portfolio_of_report_item portfolio_of_report portfolio_role
    is_allowed
passes_item = refl

no_grant : org_role tables 2 ≡ none
unfolding org_role
no_grant = refl

no_member : find? (is_member_of 2 11) tables.portfolio_members ≡ none
no_member = refl

matrix_lem_example :
    (is_allowed admin checklist_delete ≡ true)
    × ((is_allowed supervisor checklist_delete ≡ false) ↔ AdminOnly checklist_delete)
    × ((is_allowed agent checklist_delete ≡ true) ↔ AgentMay checklist_delete)
    × ((is_allowed agent checklist_delete ≡ false)
        ⊎ (agent ≡ admin)
        ⊎ (is_allowed supervisor checklist_delete ≡ true))
matrix_lem_example = matrix_lem agent checklist_delete

abbrev question : String → Item
question s = record {
  section = "Opening";
  text = s;
  answer_type = "PASS_FAIL";
  is_subjective = false;
  risk = "NORMAL";
  guidance = none;
  options = none;
}

abbrev opening : Checklist
opening = record {
  id = 1;
  portfolio_id = 10;
  family_id = 2;
  name = "Opening";
  is_default = true;
  version = 1;
  status = active;
  requires_kb = true;
  created_at = 0;
}

abbrev checklists : Versions.Db
checklists = record {
  checklists = opening ∷ [];
  items = record { id = 3; checklist_id = 1; sort_order = 0; item = question "Greets" } ∷ [];
  reports = record { id = 4; checklist_id = some 1 } ∷ [];
  next_id = 5;
  uuid = λ n. 100 - n;
  now = 100;
}

consistent : IsConsistent checklists
consistent = record {
  started = omega arith;
  reports = (omega arith, tt);
  items = (omega arith, tt);
}

used : is_used_by_report 1 checklists ≡ true
unfolding is_used_by_report
used = refl

update-get_items_example :
    let (c', db') =
      update_checklist opening "Opening" (question "B" ∷ question "A" ∷ []) none checklists in
    map (λ x. x.item) (get_items c'.id db') ≡ question "B" ∷ question "A" ∷ []
update-get_items_example =
    update-get_items checklists consistent opening "Opening" (question "B" ∷ question "A" ∷ []) none

abbrev prompts : List (Scoped String)
prompts =
    record { portfolio_id = none; agent_id = none; payload = "global" }
    ∷ record { portfolio_id = some 10; agent_id = some 3; payload = "folder" }
    ∷ record { portfolio_id = some 10; agent_id = none; payload = "portfolio" }
    ∷ []

abbrev bound : Scoped String
bound = record { portfolio_id = some 10; agent_id = some 3; payload = "folder" }

abbrev routing : RoutingConfig whole
routing = record { confidence_threshold = 5; min_evidence_chars = 4; max_escalation_fraction = 0 }

abbrev risky : ItemMeta
risky = record { item_id = 1; is_subjective = false; risk = critical }

abbrev metas : List ItemMeta
metas = risky ∷ record { item_id = 2; is_subjective = true; risk = normal } ∷ []

abbrev failed_verdict : Verdict whole
failed_verdict = record {
  item_id = 1;
  answer = fail;
  confidence = 9;
  quote_length = 20;
  needs_review = false;
}

abbrev verdicts : List (Verdict whole)
verdicts =
    failed_verdict
    ∷ record { item_id = 2; answer = fail; confidence = 9; quote_length = 20; needs_review = false }
    ∷ []

distinct : Distinct metas
distinct = (refl, (refl, tt))

decide_routing_lem_example :
    let r = decide_routing whole routing [] 1 metas verdicts in
    (r.flagged_for_review ≡ lt whole 0 (share whole routing [] verdicts metas))
    × (r.decisions
        ≡ map
            (λ m.
              decision_of whole 1 m (final_reason whole routing [] verdicts r.flagged_for_review m))
            metas)
    × All
        (λ m.
          is_some whole routing [] verdicts (reason whole routing [] verdicts m)
          ≡ is_escalated whole routing [] verdicts m)
        metas
decide_routing_lem_example = decide_routing_lem whole routing [] verdicts 1 metas distinct

capitals : upper (codes "Transcript") ≡ codes "TRANSCRIPT"
unfolding upper_char
capitals = refl

parse-value_example : parse_pii_mode (some "Transcript") ≡ transcript
parse-value_example = parse-value transcript "Transcript" capitals
