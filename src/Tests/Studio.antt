-- ===== src/Tests/Studio.antt =====
-- Concrete runs of the agent studio, the parser of checklists, the clusters and the tuning.
use mathlib.Core.List.{Memᴰ}
use mathlib.Core.List.Memᴰ.{head}
use call_audit_supervisor.Common.{
  ℕ, ◌≡◌, ◌⊎◌, refl, true, false, Bool, none, some, [], ◌∷◌, String, All, length, filter, str_eq,
  ◌==◌, arith,
}
use call_audit_supervisor.Common.Codes.{codes}
use call_audit_supervisor.Judge.Routing.{
  pass, elevated, ItemMeta, Verdict, RoutingConfig, decision_of, decide_routing,
}
use call_audit_supervisor.Judge.Scope.{Scoped}
use call_audit_supervisor.Judge.Prompts.{Stored}
use call_audit_supervisor.Judge.Tables.{Objection, ReportItem, Tables}
use call_audit_supervisor.Judge.Service.{load_overrides}
use call_audit_supervisor.Judge.Clustering.{
  ObjectionCluster, one_if, in_portfolio, cluster_objections,
}
use call_audit_supervisor.Judge.Clustering.Counts.{
  IsRanked, IsCluster, sum_by, cluster_objections_lem,
}
use call_audit_supervisor.Judge.Tuning.{
  TuningResult, reports_judged, should_override, recompute_overrides,
}
use call_audit_supervisor.Judge.Tuning.Learned.{disputed_escalated}
use call_audit_supervisor.Judge.Studio.{ok, Table, same_slot, activate}
use call_audit_supervisor.Judge.Studio.Alone.{elsewhere, activate_lem}
use call_audit_supervisor.Checklists.Parse.{parse_checklist}
use call_audit_supervisor.Checklists.Parse.Wellformed.{IsOutcome, parse_checklist_lem}
use call_audit_supervisor.Tests.Floats.{whole}
use call_audit_supervisor.Tests.Samples.{world}
use call_audit_supervisor.Tests.Reports.{tables, disclosure}

abbrev sheet : String
sheet = "Calls\nA. Opening\nGreeting\nDid they greet?\nResponse: Yes / No\nComment:\n"

parse_checklist_lem_example : IsOutcome (parse_checklist (codes sheet))
parse_checklist_lem_example = parse_checklist_lem (codes sheet)

abbrev objection : ℕ → Bool → Objection whole
objection v cleared = record {
  report_id = 40;
  text = "too much";
  category = none;
  cleared = cleared;
  embedding = some (v ∷ []);
}

abbrev objected : Tables whole
objected = record tables { objections = objection 1 true ∷ objection 1 false ∷ [] }

cluster_objections_lem_example :
    let cs = cluster_objections whole (λ x. x) 1 1 world.db.calls objected in
    let os =
      filter (in_portfolio whole (λ x. x) 1 world.db.calls objected.reports) objected.objections in
    IsRanked cs
    × All IsCluster cs
    × (sum_by (λ (c : ObjectionCluster). c.count) cs ≡ length os)
    × (sum_by (λ (c : ObjectionCluster). c.cleared_count) cs
        ≡ sum_by (λ (o : Objection whole). one_if o.cleared) os)
cluster_objections_lem_example = cluster_objections_lem whole (λ x. x) 1 1 world.db.calls objected

abbrev row_ten : ReportItem whole
row_ten = record {
  report_id = 40;
  checklist_item_id = 10;
  answer = some pass;
  raw_answer = none;
  confidence = none;
  evidence_quote = none;
  evidence_offset_sec = none;
  comment = none;
  decided_by = none;
  needs_human_review = false;
}

abbrev verified : Tables whole
verified = record tables {
  report_items = row_ten ∷ [];
  verifications =
      record { report_id = 40; verifier_id = 1; judgement = "WRONG"; notes = none } ∷ [];
}

abbrev meta : ItemMeta
meta = record { item_id = 10; is_subjective = false; risk = elevated }

abbrev passed : Verdict whole
passed = record {
  item_id = 10;
  answer = pass;
  confidence = 1;
  quote_length = 30;
  needs_review = false;
}

abbrev config : RoutingConfig whole
config = record { confidence_threshold = 0; min_evidence_chars = 1; max_escalation_fraction = 5 }

abbrev retuned : TuningResult whole × Tables whole
retuned = (
  record { written = 1; cleared = length verified.overrides },
  record verified { overrides = 10 ∷ [] },
)

disputed_escalated_example :
    Memᴰ
      (decision_of whole 1 meta (some "learned override"))
      (decide_routing whole config
        (load_overrides whole (disclosure ∷ []) retuned.1)
        1
        (meta ∷ [])
        (passed ∷ [])).decisions
unfolding recompute_overrides should_override reports_judged str_eq
disputed_escalated_example =
    disputed_escalated whole 1 1 verified retuned (disclosure ∷ []) config 1 (meta ∷ []) meta
      (passed ∷ []) passed refl refl (omega arith) refl refl (refl, tt) (head refl) refl refl

abbrev row : ℕ → Bool → Scoped (Stored String)
row k used = record {
  portfolio_id = none;
  agent_id = none;
  payload = record { id = k; agent = "merged"; in_use = used; content = "a" };
}

abbrev table : Table String
table = record { rows = row 0 true ∷ row 1 false ∷ []; next_id = 2 }

activate_lem_example :
    ((activate 1 table).0 ≡ ok)
    × (elsewhere (row 1 false) (activate 1 table).1.rows ≡ elsewhere (row 1 false) table.rows)
    × All
        (λ (r : Scoped (Stored String)).
          (same_slot (row 1 false) r ≡ false) ⊎ (r.payload.in_use ≡ (r.payload.id == 1)))
        (activate 1 table).1.rows
activate_lem_example =
    activate_lem 1 (row 1 false) table
      (record { apart = (((refl, refl), tt), (tt, tt)); fresh = (omega arith, (omega arith, tt)) })
      refl
