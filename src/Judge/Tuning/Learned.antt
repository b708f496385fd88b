-- ===== src/Judge/Tuning/Learned.antt =====
-- What the recomputed overrides are (backend/app/tuning/router_tuning.py), and what the routing
-- makes of them (backend/app/judge/routing.py).
use mathlib.Core.List.{Memᴰ}
use call_audit_supervisor.Common.Float.{FloatOps}
use call_audit_supervisor.Common.{
  ℕ, ◌+◌, ◌≤◌, ◌≡◌, refl, sym, not, ltb, false, if◌then◌else◌, none, ap, ◌∙◌, inl, inr, Bool, true,
  ◌&&◌, some, List, [], ◌∷◌, filter, any, contains, ◌==◌, Bool-cases, arith,
}
use call_audit_supervisor.Judge.Routing.{
  ItemMeta, Verdict, RoutingConfig, escalation_reason, verdict_by_id, is_elevated, decision_of,
  decide_routing,
}
use call_audit_supervisor.Judge.Routing.Breaker.{Distinct, decided_mem}
use call_audit_supervisor.Judge.Tables.{ReportItem, Tables}
use call_audit_supervisor.Checklists.Versions.{ChecklistItem}
use call_audit_supervisor.Judge.Service.{has_row, load_overrides}
use call_audit_supervisor.Judge.Tuning.{
  reports_judged, should_override, overridden, divides_by_zero, TuningResult, is_verified, distinct,
  verified_items, recompute_overrides,
}

contains-filter :
    (p : ℕ → Bool) (k : ℕ) (xs : List ℕ) → contains k (filter p xs) ≡ (contains k xs && p k)
contains-filter p k [] = refl
contains-filter p k (x ∷ xs) = elim (Bool-cases (k == x)) [
  | inl e ↦ ground (arith, same_test p k x e, contains-filter p k xs)
  | inr e ↦ ground (arith, contains-filter p k xs)
]
  where
    same_test : (p : ℕ → Bool) (k x : ℕ) → (k == x) ≡ true → p x ≡ p k
    same_test p k x e = ap p (ground arith)

same_contains : (i k : ℕ) (xs : List ℕ) → (i == k) ≡ true → contains i xs ≡ contains k xs
same_contains i k xs e = ap (λ z. contains z xs) (ground arith)

module _ (f : FloatOps) where
  -- The items of verified reports are those of the rows.
  contains-distinct :
      (i : ℕ) (xs : List (ReportItem f))
      → contains i (distinct f xs) ≡ any (λ (x : ReportItem f). i == x.checklist_item_id) xs
  contains-distinct i [] = refl
  contains-distinct i (x ∷ xs) = elim (Bool-cases (i == x.checklist_item_id)) [
    | inl e ↦ ground (arith, same_contains i x.checklist_item_id (distinct f xs) e)
    | inr e ↦ ground (arith, contains-distinct i xs)
  ]

  any-filter :
      (p q : ReportItem f → Bool) (xs : List (ReportItem f))
      → any q (filter p xs) ≡ any (λ x. q x && p x) xs
  any-filter p q [] = refl
  any-filter p q (x ∷ xs) = ground (arith, any-filter p q xs)

  abbrev pub is_reviewed : ℕ → Tables f → Bool
  is_reviewed i t =
      any (λ (x : ReportItem f). i == x.checklist_item_id && is_verified f t x) t.report_items

  -- By how many reports with the item it was judged, and the share of WRONG among them.
  abbrev pub sample : ℕ → Tables f → ℕ
  sample i t = reports_judged f "CORRECT" i t + reports_judged f "WRONG" i t

  abbrev pub error_rate : ℕ → Tables f → f.F
  error_rate i t = f.div (f.of_nat (reports_judged f "WRONG" i t)) (f.of_nat (sample i t))

  contains-overridden :
      (error_threshold : f.F) (min_sample : ℕ) (t : Tables f) (i : ℕ)
      → contains i (overridden f error_threshold min_sample t) ≡ (
          is_reviewed i t
          && (not (ltb (sample i t) min_sample) && f.le error_threshold (error_rate i t)))
  unfolding should_override
  contains-overridden error_threshold min_sample t i =
      contains-filter (should_override f error_threshold min_sample t) i (verified_items f t)
      ∙ ap (λ b. b && should_override f error_threshold min_sample t i)
          (contains-distinct i (filter (is_verified f t) t.report_items)
            ∙ any-filter (is_verified f t) (λ x. i == x.checklist_item_id) t.report_items)

  chosen :
      (b : Bool) (r r' : TuningResult f × Tables f)
      → (if b then none else some r') ≡ some r
      → r'.1.overrides ≡ r.1.overrides
  chosen true r r' h = cc
  chosen false r r' h = cc

  recomputed :
      (error_threshold : f.F) (min_sample : ℕ) (t : Tables f) (r : TuningResult f × Tables f)
      → recompute_overrides f error_threshold min_sample t ≡ some r
      → overridden f error_threshold min_sample t ≡ r.1.overrides
  unfolding recompute_overrides
  recomputed error_threshold min_sample t r e =
      chosen (any (divides_by_zero f min_sample t) (verified_items f t)) r _ e

  overridden_here :
      (items : List ChecklistItem) (t t' : Tables f) (error_threshold : f.F) (min_sample i : ℕ)
      → overridden f error_threshold min_sample t ≡ t'.overrides
      → is_reviewed i t ≡ true
      → min_sample ≤ sample i t
      → f.le error_threshold (error_rate i t) ≡ true
      → has_row f items i ≡ true
      → contains i (load_overrides f items t') ≡ true
  unfolding load_overrides
  overridden_here items t t' error_threshold min_sample i e seen enough bad here =
      contains-filter (has_row f items) i t'.overrides
      ∙ rw here (
          ap (λ b. b && true)
            (ap (contains i) (sym e) ∙ contains-overridden error_threshold min_sample t i)
          ∙ ground (arith, seen, enough, bad))

  -- The loop from the verifiers to the judge is closed. Take an item of elevated or critical risk
  -- that has a row in a verified report, that at least the least sample of reports judged, and whose
  -- share of WRONG reaches the threshold. After a recompute that went through, the routing of a
  -- checklist with distinct items that has the item's row, over overrides loaded for it, decides the
  -- item, if it has a verdict, as one with a learned override, whatever the verdict says and whether
  -- or not the breaker is open.
  pub disputed_escalated :
      (error_threshold : f.F) (min_sample : ℕ) (t : Tables f) (r : TuningResult f × Tables f)
      (items : List ChecklistItem) (cfg : RoutingConfig f) (tiers : ℕ) (ms : List ItemMeta)
      (m : ItemMeta) (vs : List (Verdict f)) (v : Verdict f)
      → recompute_overrides f error_threshold min_sample t ≡ some r
      → is_reviewed m.item_id t ≡ true
      → min_sample ≤ sample m.item_id t
      → f.le error_threshold (error_rate m.item_id t) ≡ true
      → has_row f items m.item_id ≡ true
      → Distinct ms
      → Memᴰ m ms
      → verdict_by_id f vs m.item_id ≡ some v
      → is_elevated f (some m) ≡ true
      → Memᴰ
          (decision_of f tiers m (some "learned override"))
          (decide_routing f cfg (load_overrides f items r.1) tiers ms vs).decisions
  unfolding escalation_reason
  disputed_escalated error_threshold min_sample t r items cfg tiers ms m vs v e seen enough bad here
        d mem found high =
      decided_mem f cfg (load_overrides f items r.1) vs tiers ms m "learned override" d mem (
        rw
          (
            high,
            found,
            overridden_here items t r.1 error_threshold min_sample m.item_id
                (recomputed error_threshold min_sample t r e) seen enough bad here,
          )
          (ground arith))
