-- ===== src/Judge/Service/Immutable.antt =====
-- A judged checklist is used: what the report was judged against cannot change any more
-- (backend/app/judge/service.py with backend/app/checklists/service.py).
use mathlib.Core.List.{Memᴰ}
use mathlib.Core.List.Memᴰ
use mathlib.Core.List.Memᴰ.{head, tail}
use mathlib.Core.Path.{subst}
use mathlib.Core.Bool.{◌||◌}
use call_audit_supervisor.Common.Float.{FloatOps}
use call_audit_supervisor.Common.{
  ℕ, ◌≡◌, refl, sym, ap, ◌∙◌, inl, inr, Bool, true, false, some, List, [], ◌∷◌, map, filter, any,
  ==_refl, Bool-cases,
}
use call_audit_supervisor.Ratelimit.Backoff.{value}
use call_audit_supervisor.Judge.Routing.{RoutingConfig}
use call_audit_supervisor.Judge.Clients.{Clients}
use call_audit_supervisor.Judge.Tables.{Report, Tables, library, of_call}
use call_audit_supervisor.Checklists.Versions
use call_audit_supervisor.Checklists.Versions.{
  Checklist, ChecklistItem, names, of_checklist, is_used_by_report,
}
use call_audit_supervisor.Checklists.Versions.History.{
  Edit, apply_all, AllKnown, IsConsistent, history_kept,
}
use call_audit_supervisor.Orchestration.Handlers.{JudgeRequest}
use call_audit_supervisor.Judge.Service.{Grounding, ground_in}
use call_audit_supervisor.Judge.Service.Assembly.{
  Assembled, assemble, report_of, persist, judge_call,
}
use call_audit_supervisor.Judge.Service.Reports.{persist-report}
use call_audit_supervisor.Judge.Service.Verdicts.{same_value}
use call_audit_supervisor.Judge.Service.Parts.{assembled, written}

mem-unfilter : {A : Type 0} (p : A → Bool) (x : A) (xs : List A) → Memᴰ x (filter p xs) → Memᴰ x xs
mem-unfilter p x [] m = m
mem-unfilter p x (y ∷ ys) m = elim (Bool-cases (p y)) [
  | inl e ↦ elim (Memᴰ.cases_cons (subst (Memᴰ x) (rw e refl) m)) [
    | inl q ↦ head q
    | inr n ↦ tail (mem-unfilter p x ys n)
  ]
  | inr e ↦ tail (mem-unfilter p x ys (subst (Memᴰ x) (rw e refl) m))
]

or_true : (a : Bool) {b : Bool} → b ≡ true → a || b ≡ true
or_true true h = refl
or_true false h = h

module _ (f : FloatOps) where
  abbrev version_row : Report f → Versions.Report
  version_row r = record { id = r.id; checklist_id = r.checklist_id }

  used-mem :
      (k : ℕ) (rep : Report f) (rs : List (Report f))
      → rep.checklist_id ≡ some k
      → Memᴰ rep rs
      → any (λ (x : Versions.Report). names k x.checklist_id) (map version_row rs) ≡ true
  used-mem k rep [] e m = elim m [ ]
  used-mem k rep (x ∷ rs) e (head q) =
      rw (ap (λ (y : Report f). y.checklist_id) (sym q) ∙ e, ==_refl k) refl
  used-mem k rep (x ∷ rs) e (tail m) = or_true (names k x.checklist_id) (used-mem k rep rs e m)

  report_of-checklist :
      (r : JudgeRequest) (a : Assembled f) (id : ℕ) (c : Checklist)
      → a.grounding.checklist ≡ some c
      → (report_of f r a id).checklist_id ≡ some c.id
  unfolding report_of
  report_of-checklist r a id c e = rw e refl

module _ (f : FloatOps) (cfg : RoutingConfig f) (cs : Clients f) (r : JudgeRequest)
    (t : Tables f) where
  judged-used :
      (g : Grounding f) (c : Checklist)
      → ground_in f r t ≡ value g
      → g.checklist ≡ some c
      → (judge_call f cfg cs r t).0 ≡ value tt
      → is_used_by_report c.id (library f (judge_call f cfg cs r t).1) ≡ true
  unfolding is_used_by_report judge_call
  judged-used g c hg hc h =
      let (a, ha, rows) = written f cfg cs r t (assemble f cfg cs r t) h in
      let made = assembled f cfg cs r t a ha in
      let q = same_value f (ground_in f r t) a.grounding g made.grounded hg in
      used-mem f c.id (report_of f r a t.next_id)
        (persist f cs r (assemble f cfg cs r t) t).1.reports
        (report_of-checklist f r a t.next_id c (ap (λ (x : Grounding f). x.checklist) q ∙ hc))
        (mem-unfilter (of_call f r.call_id) (report_of f r a t.next_id)
          (persist f cs r (assemble f cfg cs r t) t).1.reports
          (subst (Memᴰ (report_of f r a t.next_id))
            (sym (
              ap (λ o. filter (of_call f r.call_id) (persist f cs r o t).1.reports) ha
              ∙ persist-report f cfg cs r a t))
            (head refl)))

  -- Once a call is judged against a checklist, no sequence of creations, edits, renamings and
  -- deletions in the builder changes the checklist's items, from a consistent database and with
  -- checklists that it knows.
  pub judged_items_kept :
      (g : Grounding f) (c : Checklist) (es : List Edit)
      → ground_in f r t ≡ value g
      → g.checklist ≡ some c
      → (judge_call f cfg cs r t).0 ≡ value tt
      → IsConsistent (library f (judge_call f cfg cs r t).1)
      → AllKnown es (library f (judge_call f cfg cs r t).1)
      → filter (of_checklist c.id) (apply_all es (library f (judge_call f cfg cs r t).1)).items
        ≡ filter (of_checklist c.id) (library f (judge_call f cfg cs r t).1).items
  judged_items_kept g c es hg hc h ok known =
      history_kept c.id es (library f (judge_call f cfg cs r t).1) ok (judged-used g c hg hc h)
        known
