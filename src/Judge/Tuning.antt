-- ===== src/Judge/Tuning.antt =====
-- What the verifiers' judgements say of the judge: backend/app/verification/service.py (agreement)
-- and backend/app/tuning/router_tuning.py (the items that are always escalated).
pub mod Learned
use call_audit_supervisor.Common.Float.{FloatOps}
use call_audit_supervisor.Common.{
  ℕ, suc, ◌+◌, Bool, true, false, not, ◌&&◌, Option, none, some, List, [], ◌∷◌, ◌++◌, String,
  filter, any, contains, length, ltb, ◌==◌, str_eq, if◌then◌else◌,
}
use call_audit_supervisor.Judge.Tables.{Report, ReportItem, Verification, Tables}
use call_audit_supervisor.Orchestration.World.{Call}

abbrev judged_as : String → Verification → Bool
judged_as j v = str_eq v.judgement j

module _ (f : FloatOps) where
  open f use {F, of_nat, div, le}

  -- `submit_verification`; a request is one row, and there may be more than one of a report.
  unfoldable pub submit_verification : Verification → Tables f → Tables f
  submit_verification v t = record t { verifications = t.verifications ++ v ∷ [] }

  abbrev pub of_portfolio : ℕ → List Call → List (Report f) → Verification → Bool
  of_portfolio pid calls reports v =
      any
        (λ (r : Report f).
          r.id == v.report_id
          && any (λ (c : Call). c.id == r.call_id && c.portfolio_id == pid) calls)
        reports

  pub record AgreementStats : Type 0 where
    pub total : ℕ
    pub correct : ℕ
    pub wrong : ℕ
    pub cant_say : ℕ
    pub agreement_rate : Option F

  -- `correct / decided if decided else None`
  abbrev rate_or_none : ℕ → ℕ → Option F
  rate_or_none correct wrong =
      if correct + wrong == 0 then none else some (div (of_nat correct) (of_nat (correct + wrong)))

  unfoldable pub agreement_stats : ℕ → List Call → Tables f → AgreementStats
  agreement_stats pid calls t =
      let rows = filter (of_portfolio pid calls t.reports) t.verifications in
      let correct = length (filter (judged_as "CORRECT") rows) in
      let wrong = length (filter (judged_as "WRONG") rows) in
      let cant = length (filter (judged_as "CANT_SAY") rows) in
      record {
        total = correct + wrong + cant;
        correct = correct;
        wrong = wrong;
        cant_say = cant;
        agreement_rate = rate_or_none correct wrong;
      }

  -- `count(distinct Report.id)` of the reports that have the item and a verification so judged.
  abbrev has_item : ℕ → List (ReportItem f) → Report f → Bool
  has_item i rows r =
      any (λ (x : ReportItem f). x.report_id == r.id && x.checklist_item_id == i) rows

  abbrev is_judged : String → List Verification → Report f → Bool
  is_judged j vs r = any (λ v. v.report_id == r.id && judged_as j v) vs

  unfoldable pub reports_judged : String → ℕ → Tables f → ℕ
  reports_judged j i t =
      length (filter (λ r. has_item i t.report_items r && is_judged j t.verifications r) t.reports)

  -- The items of verified reports, each once, as the keys of `counts`.
  abbrev is_verified : Tables f → ReportItem f → Bool
  is_verified t x = any (λ (v : Verification). v.report_id == x.report_id) t.verifications

  abbrev distinct : List (ReportItem f) → List ℕ
  distinct [] = []
  distinct (x ∷ xs) =
      let rest = distinct xs in
      if contains x.checklist_item_id rest then rest else x.checklist_item_id ∷ rest

  abbrev pub verified_items : Tables f → List ℕ
  verified_items t = distinct (filter (is_verified t) t.report_items)

  abbrev pub is_disputed : F → ℕ → ℕ → ℕ → Bool
  is_disputed error_threshold min_sample correct wrong =
      not (ltb (correct + wrong) min_sample)
      && le error_threshold (div (of_nat wrong) (of_nat (correct + wrong)))

  -- Where the sample is empty and `min_sample` is nought the code raises, see `divides_by_zero`.
  unfoldable pub should_override : F → ℕ → Tables f → ℕ → Bool
  unfolding reports_judged
  should_override error_threshold min_sample t i =
      is_disputed error_threshold min_sample (reports_judged "CORRECT" i t)
        (reports_judged "WRONG" i t)

  pub record TuningResult : Type 0 where
    pub written : ℕ
    pub cleared : ℕ

  abbrev pub overridden : F → ℕ → Tables f → List ℕ
  overridden error_threshold min_sample t =
      filter (should_override error_threshold min_sample t) (verified_items t)

  -- `wrong / sample` where the sample is nought, which `min_sample` of nought lets through.
  abbrev pub divides_by_zero : ℕ → Tables f → ℕ → Bool
  divides_by_zero min_sample t i =
      min_sample == 0 && reports_judged "CORRECT" i t + reports_judged "WRONG" i t == 0

  -- A full recompute: the old overrides go, the new ones are written; `none` is the
  -- `ZeroDivisionError`. The texts of the reasons are left out.
  unfoldable pub recompute_overrides : F → ℕ → Tables f → Option (TuningResult × Tables f)
  unfolding should_override
  recompute_overrides error_threshold min_sample t =
      if any (divides_by_zero min_sample t) (verified_items t)
      then none
      else some (
        record {
          written = length (overridden error_threshold min_sample t);
          cleared = length t.overrides;
        },
        record t { overrides = overridden error_threshold min_sample t },
      )
