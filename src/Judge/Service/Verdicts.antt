-- ===== src/Judge/Service/Verdicts.antt =====
-- How the items of a report are decided (backend/app/judge/service.py): the routing's decision of
-- each item reaches its row, and the free-text items have none.
use mathlib.Core.List.{Memᴰ}
use mathlib.Core.List.Memᴰ
use mathlib.Core.List.Memᴰ.{head, tail}
use call_audit_supervisor.Common.Float.{FloatOps}
use call_audit_supervisor.Common.{
  ℕ, ◌≡◌, refl, sym, ap, ◌∙◌, inl, inr, Bool, true, false, not, Option, none, some, List, [], ◌∷◌,
  map, String, filter, All, contains, ◌==◌, ==_refl, Bool-cases, arith,
}
use call_audit_supervisor.Common.Codes.{is_empty}
use call_audit_supervisor.Common.Dict.{
  get, by_key, values, last_of, get-set_all, IsKeyed, set_all-IsKeyed,
}
use call_audit_supervisor.Ratelimit.Backoff.{Outcome, value, raised}
use call_audit_supervisor.Judge.Routing.{
  ItemMeta, RoutingConfig, RoutingDecision, RoutingResult, decision_of, verdict_by_id,
}
use call_audit_supervisor.Judge.Routing.Breaker.{ids, Distinct, decide_routing_lem, final_reason}
use call_audit_supervisor.Judge.Clients.{ItemVerdict, Clients}
use call_audit_supervisor.Judge.Tables.{Tables}
use call_audit_supervisor.Checklists.Versions.{ChecklistItem}
use call_audit_supervisor.Orchestration.Handlers.{JudgeRequest}
use call_audit_supervisor.Judge.Service.{
  is_free, meta_of, objective_items, routing_verdict, load_overrides, tier_count, routing_of, route,
  escalate, escalated_item_ids, prompted, kb_of, judge_item, Routed, routed, verdict_id, ◌>>=◌,
}

-- No two items have the same id.
abbrev pub DistinctIds : List ChecklistItem → Type 0
DistinctIds [] = Unit {0}
DistinctIds (it ∷ items) =
    (contains it.id (map (λ (x : ChecklistItem). x.id) items) ≡ false) × DistinctIds items

abbrev metas : List ChecklistItem → List ItemMeta
metas items = map meta_of (objective_items items)

metas-absent :
    (k : ℕ) (items : List ChecklistItem)
    → contains k (map (λ (x : ChecklistItem). x.id) items) ≡ false
    → contains k (ids (metas items)) ≡ false
metas-absent k [] h = refl
metas-absent k (it ∷ items) h = ground (arith, metas-absent k items)

metas-Distinct : (items : List ChecklistItem) → DistinctIds items → Distinct (metas items)
metas-Distinct [] d = tt
metas-Distinct (it ∷ items) d = elim (Bool-cases (is_free it)) [
  | inl e ↦ rw e (metas-Distinct items d.1)
  | inr e ↦ rw e (metas-absent it.id items d.0, metas-Distinct items d.1)
]

absent-others :
    (k : ℕ) (ms : List ItemMeta)
    → contains k (ids ms) ≡ false
    → All (λ (m : ItemMeta). (m.item_id == k) ≡ false) ms
absent-others k [] h = tt
absent-others k (m ∷ ms) h = (ground arith, absent-others k ms (ground arith))

absent-mem :
    (k : ℕ) (it : ChecklistItem) (items : List ChecklistItem)
    → contains k (map (λ (x : ChecklistItem). x.id) items) ≡ false
    → Memᴰ it items
    → (k == it.id) ≡ false
absent-mem k it [] h m = elim m [ ]
absent-mem k it (y ∷ items) h (head q) = rw (ap (λ (x : ChecklistItem). x.id) q) (ground arith)
absent-mem k it (y ∷ items) h (tail m) = absent-mem k it items (ground arith) m

-- A free-text item is none of those that are routed.
free-absent :
    (it : ChecklistItem) (items : List ChecklistItem)
    → DistinctIds items
    → Memᴰ it items
    → is_free it ≡ true
    → All (λ (m : ItemMeta). (m.item_id == it.id) ≡ false) (metas items)
free-absent it [] d mem free = tt
free-absent it (y ∷ items) d (head q) free = rw (sym (ap is_free q) ∙ free) (
    absent-others it.id (metas items) (
      metas-absent it.id items (
        ap (λ (x : ChecklistItem). contains x.id (map (λ (z : ChecklistItem). z.id) items)) q
        ∙ d.0)))
free-absent it (y ∷ items) d (tail m) free = elim (Bool-cases (is_free y)) [
  | inl e ↦ rw e (free-absent it items d.1 m free)
  | inr e ↦ rw e (absent-mem y.id it items d.0 m, free-absent it items d.1 m free)
]

pub mem-filter :
    {A : Type 0} (p : A → Bool) (x : A) (xs : List A)
    → Memᴰ x xs
    → p x ≡ true
    → Memᴰ x (filter p xs)
mem-filter p x [] m h = elim m [ ]
mem-filter p x (y ∷ ys) (head q) h = rw (sym (ap p q) ∙ h) (head q)
mem-filter p x (y ∷ ys) (tail m) h = elim (Bool-cases (p y)) [
  | inl e ↦ rw e (tail (mem-filter p x ys m h))
  | inr e ↦ rw e (mem-filter p x ys m h)
]

objective-mem :
    (it : ChecklistItem) (items : List ChecklistItem)
    → Memᴰ it items
    → is_free it ≡ false
    → Memᴰ it (objective_items items)
objective-mem it items m h = mem-filter (λ x. not (is_free x)) it items m (rw h refl)

nonempty : {A : Type 0} (x : A) (xs : List A) → Memᴰ x xs → is_empty xs ≡ false
nonempty x [] m = elim m [ ]
nonempty x (y ∷ ys) m = refl

-- The decision that stands under an item's id is its own.
module _ (decide : ItemMeta → RoutingDecision)
    (own : (m : ItemMeta) → (decide m).item_id ≡ m.item_id) where
  last-absent :
      (k : ℕ) (ms : List ItemMeta) (before : Option RoutingDecision)
      → All (λ (m : ItemMeta). (m.item_id == k) ≡ false) ms
      → last_of (λ (d : RoutingDecision). d.item_id) k (map decide ms) before ≡ before
  last-absent k [] before h = refl
  last-absent k (m ∷ ms) before h = rw (own m, h.0) (last-absent k ms before h.1)

  last-hit :
      (k : ℕ) (y : ItemMeta) (ms : List ItemMeta) (before : Option RoutingDecision)
      → (decide y).item_id ≡ k
      → All (λ (m : ItemMeta). (m.item_id == k) ≡ false) ms
      → last_of (λ (d : RoutingDecision). d.item_id) k (map decide (y ∷ ms)) before
        ≡ some (decide y)
  last-hit k y ms before e h =
      rw (ap (λ z. z == k) e ∙ ==_refl k) (last-absent k ms (some (decide y)) h)

  last-own :
      (m : ItemMeta) (ms : List ItemMeta) (before : Option RoutingDecision)
      → Distinct ms
      → Memᴰ m ms
      → last_of (λ (d : RoutingDecision). d.item_id) m.item_id (map decide ms) before
        ≡ some (decide m)
  last-own m [] before d mem = elim mem [ ]
  last-own m (y ∷ ms) before d (head q) =
      last-hit m.item_id y ms before (own y ∙ sym (ap (λ (x : ItemMeta). x.item_id) q))
        (absent-others m.item_id ms (ap (λ (x : ItemMeta). contains x.item_id (ids ms)) q ∙ d.0))
      ∙ ap (λ x. some (decide x)) (sym q)
  last-own m (y ∷ ms) before d (tail mem) = elim (Bool-cases ((decide y).item_id == m.item_id)) [
    | inl e ↦ rw e (last-own m ms (some (decide y)) d.1 mem)
    | inr e ↦ rw e (last-own m ms before d.1 mem)
  ]

decision-id :
    (f : FloatOps) (tiers : ℕ) (m : ItemMeta) (r : Option String)
    → (decision_of f tiers m r).item_id ≡ m.item_id
decision-id f tiers m none = refl
decision-id f tiers m (some r) = ground arith

pub same_value :
    (f : FloatOps) {A : Type 0} (o : Outcome f A) (x y : A) → o ≡ value x → o ≡ value y → x ≡ y
same_value f (value z) x y h k = cc
same_value f (raised e) x y h k = cc

module _ (f : FloatOps) (cfg : RoutingConfig f) (cs : Clients f) (r : JudgeRequest) (t : Tables f)
    (items : List ChecklistItem) (verdicts : List (ℕ × ItemVerdict f)) where
  abbrev pub result : RoutingResult f
  result = routing_of f cfg cs.escalation_judge t items verdicts

  abbrev pub decide : ItemMeta → RoutingDecision
  decide m = decision_of f (tier_count f cs.escalation_judge) m (
      final_reason f cfg (load_overrides f items t) (map (routing_verdict f) (values verdicts))
        result.flagged_for_review m)

  decide-id : (m : ItemMeta) → (decide m).item_id ≡ m.item_id
  decide-id m = decision-id f (tier_count f cs.escalation_judge) m (
      final_reason f cfg (load_overrides f items t) (map (routing_verdict f) (values verdicts))
        result.flagged_for_review m)

  decisions : DistinctIds items → result.decisions ≡ map decide (metas items)
  unfolding routing_of
  decisions d =
      (decide_routing_lem f cfg (load_overrides f items t)
        (map (routing_verdict f) (values verdicts)) (tier_count f cs.escalation_judge) (metas items)
        (metas-Distinct items d)).1

  -- What the routing leaves of an item: its own decision.
  decided :
      DistinctIds items
      → (k : ℕ)
      → get k (by_key (λ (d : RoutingDecision). d.item_id) result.decisions)
        ≡ last_of (λ (d : RoutingDecision). d.item_id) k (map decide (metas items)) none
  decided d k =
      get-set_all (λ (d : RoutingDecision). d.item_id) k result.decisions []
      ∙ ap (λ ds. last_of (λ (d : RoutingDecision). d.item_id) k ds none) (decisions d)

  abbrev escalated : Outcome f (List (ℕ × ItemVerdict f))
  escalated =
      escalate f cs.escalation_judge (escalated_item_ids f result.decisions)
        (prompted f r t (kb_of f r t) "checklist") (map judge_item items) verdicts

  routed_with :
      (o : Outcome f (List (ℕ × ItemVerdict f))) (final : Routed f)
      → ◌>>=◌ f o (λ vs. value (routed f result vs)) ≡ value final
      → (vs : List (ℕ × ItemVerdict f)) × (o ≡ value vs) × (routed f result vs ≡ final)
  routed_with (value vs) final h = (vs, refl, cc)
  routed_with (raised e) final h = cc

  route-routed :
      (final : Routed f)
      → is_empty (objective_items items) ≡ false
      → route f cfg cs r t items verdicts ≡ value final
      → (vs : List (ℕ × ItemVerdict f)) × (escalated ≡ value vs) × (routed f result vs ≡ final)
  unfolding route
  route-routed final ne h = routed_with escalated final (sym (rw ne refl) ∙ h)

  abbrev unrouted : Routed f
  unrouted = record {
    verdicts = verdicts;
    flagged_for_review = false;
    flag_reason = none;
    decisions = [];
  }

  routed_none :
      (final : Routed f)
      → is_empty (objective_items items) ≡ true
      → route f cfg cs r t items verdicts ≡ value final
      → final.decisions ≡ []
  unfolding route
  routed_none final e h =
      ap (λ (x : Routed f). x.decisions)
        (same_value f (route f cfg cs r t items verdicts) final unrouted h (rw e refl))

  -- A free-text item has no decision.
  pub route-free :
      (final : Routed f) (it : ChecklistItem)
      → DistinctIds items
      → Memᴰ it items
      → is_free it ≡ true
      → route f cfg cs r t items verdicts ≡ value final
      → get it.id final.decisions ≡ none
  route-free final it d mem free h = elim (Bool-cases (is_empty (objective_items items))) [
    | inl e ↦ ap (get it.id) (routed_none final e h)
    | inr e ↦
        let (vs, _, q) = route-routed final e h in
        ap (λ (x : Routed f). get it.id x.decisions) (sym q)
        ∙ decided d it.id
        ∙ last-absent decide decide-id it.id (metas items) none (free-absent it items d mem free)
  ]

  -- An objective item has the routing's decision.
  pub route-own :
      (final : Routed f) (it : ChecklistItem)
      → DistinctIds items
      → Memᴰ it items
      → is_free it ≡ false
      → route f cfg cs r t items verdicts ≡ value final
      → get it.id final.decisions ≡ some (decide (meta_of it))
  route-own final it d mem free h =
      let own = objective-mem it items mem free in
      let (vs, _, q) = route-routed final (nonempty it (objective_items items) own) h in
      ap (λ (x : Routed f). get it.id x.decisions) (sym q)
      ∙ decided d it.id
      ∙ last-own decide decide-id (meta_of it) (metas items) none (metas-Distinct items d)
          (Memᴰ.map meta_of own)

  -- Without a second tier the verdicts are the first agent's.
  pub route-verdicts :
      (final : Routed f)
      → cs.escalation_judge ≡ none
      → route f cfg cs r t items verdicts ≡ value final
      → final.verdicts ≡ verdicts
  unfolding route
  route-verdicts final lone h = elim (Bool-cases (is_empty (objective_items items))) [
    | inl e ↦
        ap (λ (x : Routed f). x.verdicts)
          (same_value f (route f cfg cs r t items verdicts) final unrouted h (rw e refl))
    | inr e ↦
        let (vs, same, q) = route-routed final e h in
        ap (λ (x : Routed f). x.verdicts) (sym q)
        ∙ same_value f escalated vs verdicts same (rw lone refl)
  ]

module _ (f : FloatOps) where
  pub by_key-sees : (vs : List (ItemVerdict f)) → IsKeyed (verdict_id f) (by_key (verdict_id f) vs)
  by_key-sees vs = set_all-IsKeyed (verdict_id f) vs [] tt

  no_verdict :
      (k : ℕ) (d : List (ℕ × ItemVerdict f))
      → IsKeyed (verdict_id f) d
      → get k d ≡ none
      → verdict_by_id f (map (routing_verdict f) (values d)) k ≡ none
  no_verdict k [] h e = refl
  no_verdict k ((i, v) ∷ d) h e = ground (arith, h.0, no_verdict k d h.2)

  -- The routing sees the verdict that the report has.
  pub routing_sees :
      (k : ℕ) (v : ItemVerdict f) (d : List (ℕ × ItemVerdict f))
      → IsKeyed (verdict_id f) d
      → get k d ≡ some v
      → verdict_by_id f (map (routing_verdict f) (values d)) k ≡ some (routing_verdict f v)
  routing_sees k v [] h e = cc
  routing_sees k v ((i, a) ∷ d) h e = elim (Bool-cases (i == k)) [
    | inl q ↦ ground (arith, h.0, no_verdict k d h.2, h.1, e, q)
    | inr q ↦ rw (routing_sees k v d h.2 (sym (rw q refl) ∙ e)) refl
  ]
