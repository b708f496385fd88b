-- ===== src/Orchestration/Handlers/Judged.antt =====
-- The judging step with the judge of backend/app/judge/service.py in place.
use mathlib.Core.Path.{subst}
use call_audit_supervisor.Common.Float.{FloatOps}
use call_audit_supervisor.Common.{◌≡◌, refl, ◌∙◌, not, List, filter}
use call_audit_supervisor.Stt.Redaction.{PiiMode}
use call_audit_supervisor.Judge.Routing.{RoutingConfig}
use call_audit_supervisor.Judge.Clients.{Clients}
use call_audit_supervisor.Judge.Tables.{Report, Tables, of_call}
use call_audit_supervisor.Judge.Service.Assembly.{judge_call}
use call_audit_supervisor.Judge.Service.Reports.{judge_call-other_reports}
use call_audit_supervisor.Orchestration.World.{World, Services}
use call_audit_supervisor.Orchestration.Handlers.{JobView, handle_judge, get_portfolio_pii_mode}
use call_audit_supervisor.Orchestration.Handlers.Judging.{Respected, judge_under-Keeps}

module _ (f : FloatOps) (cfg : RoutingConfig f) (cs : Clients f) (env : Services f)
    (job : JobView) where
  -- The reports of the calls other than the job's.
  abbrev pub other_reports : World (Tables f) → List (Report f)
  other_reports w = filter (λ x. not (of_call f job.call_id x)) w.db.reports.reports

  abbrev SameOthers : World (Tables f) → World (Tables f) → Type 0
  SameOthers u v = other_reports v ≡ other_reports u

  others-Respected :
      (mode : PiiMode) → Respected f (Tables f) (judge_call f cfg cs) env job mode SameOthers
  others-Respected mode = record {
    same = λ u. refl;
    trans = λ u v x h k. k ∙ h;
    transcript = λ t u gate. refl;
    uri = λ k u. refl;
    judged = λ r u own.
        subst
          (λ k.
            filter (λ x. not (of_call f k x)) (judge_call f cfg cs r u.db.reports).1.reports
            ≡ filter (λ x. not (of_call f k x)) u.db.reports.reports)
          own (judge_call-other_reports f cfg cs r u.db.reports);
  }

  -- The judging step of a job leaves the reports of every other call as they are, however it ends.
  pub handle_judge-other_reports :
      (w : World (Tables f))
      → other_reports (handle_judge f (Tables f) (judge_call f cfg cs) env job w).1
        ≡ other_reports w
  unfolding handle_judge
  handle_judge-other_reports w =
      judge_under-Keeps f (Tables f) (judge_call f cfg cs) env job
        (get_portfolio_pii_mode f (Tables f) job.portfolio_id w) SameOthers
        (others-Respected (get_portfolio_pii_mode f (Tables f) job.portfolio_id w)) (λ b u. refl) w
