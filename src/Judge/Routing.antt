-- ===== src/Judge/Routing.antt =====
-- backend/app/judge/routing.py: which verdicts are accepted and which are escalated.
pub mod Breaker
use call_audit_supervisor.Common.Float.{FloatOps, lt}
use call_audit_supervisor.Common.{
  ℕ, zero, suc, ◌+◌, ◌≤◌, ◌≡◌, refl, sym, ap, ◌∙◌, ◌⊎◌, inl, inr, Bool, true, false, not, ◌&&◌,
  ◌||◌, Option, none, some, List, [], ◌∷◌, map, String, ◌+++◌, All, find?, length, ltb, leb,
  contains, ◌==◌, if◌then◌else◌, Bool-cases, arith,
}

pub data Risk : Type 0 where
  normal elevated critical : Risk

-- `_RISK_RANK`
abbrev pub risk_rank : Risk → ℕ
risk_rank normal = 0
risk_rank elevated = 1
risk_rank critical = 2

pub data Answer : Type 0 where
  pass fail na : Answer

abbrev pub is_fail : Answer → Bool
is_fail fail = true
is_fail _ = false

-- `answer in ("PASS", "FAIL")`
abbrev pub is_decided : Answer → Bool
is_decided na = false
is_decided _ = true

abbrev pub is_critical : Risk → Bool
is_critical critical = true
is_critical _ = false

pub record ItemMeta : Type 0 where
  pub item_id : ℕ
  pub is_subjective : Bool
  pub risk : Risk

pub data DecidedBy : Type 0 where
  primary tier1 : DecidedBy

pub record RoutingDecision : Type 0 where
  pub item_id : ℕ
  pub needs_human_review : Bool
  pub decided_by : DecidedBy
  pub reason : Option String

module _ (f : FloatOps) where
  open f use {F}

  pub record RoutingConfig : Type 0 where
    pub confidence_threshold : F
    pub min_evidence_chars : ℕ
    pub max_escalation_fraction : F

  -- `quote_length` is `len(evidence_quote)`.
  pub record Verdict : Type 0 where
    pub item_id : ℕ
    pub answer : Answer
    pub confidence : F
    pub quote_length : ℕ
    pub needs_review : Bool

  pub record RoutingResult : Type 0 where
    pub decisions : List RoutingDecision
    pub flagged_for_review : Bool
    pub flag_reason : Option String
    pub escalation_fraction : F

  unfoldable pub escalation_reason : RoutingConfig → List ℕ → ItemMeta → Verdict → Option String
  escalation_reason cfg overrides m v =
      if contains m.item_id overrides
      then some "learned override"
      else if m.is_subjective
      then some "subjective item"
      else if lt f v.confidence cfg.confidence_threshold
      then some ("low confidence (" +++ f.fixed2 v.confidence +++ ")")
      else if is_critical m.risk && is_fail v.answer
      then some "critical-risk FAIL"
      else if v.needs_review
      then some "model self-flagged"
      else if is_decided v.answer && ltb v.quote_length cfg.min_evidence_chars
      then some "thin evidence"
      else none

  -- `{v.item_id: v for v in verdicts}.get(iid)`: the last verdict of an item.
  abbrev pub verdict_by_id : List Verdict → ℕ → Option Verdict
  verdict_by_id [] iid = none
  verdict_by_id (v ∷ vs) iid = elim (verdict_by_id vs iid) [
    | some w ↦ some w
    | none ↦ if v.item_id == iid then some v else none
  ]

  abbrev pub reason_of : RoutingConfig → List ℕ → ItemMeta → Option Verdict → Option String
  reason_of cfg overrides m none = none
  reason_of cfg overrides m (some v) = escalation_reason cfg overrides m v

  abbrev pub get : ℕ → List (ℕ × String) → Option String
  get k [] = none
  get k ((i, r) ∷ d) = let rest = get k d in if i == k then some r else rest

  -- `d[k] = r`
  abbrev pub set : ℕ → String → List (ℕ × String) → List (ℕ × String)
  set k r [] = (k, r) ∷ []
  set k r ((i, s) ∷ d) = let rest = set k r d in if i == k then (i, r) ∷ d else (i, s) ∷ rest

  abbrev pub add_reason : ItemMeta → Option String → List (ℕ × String) → List (ℕ × String)
  add_reason m none raw = raw
  add_reason m (some r) raw = set m.item_id r raw

  -- The loop that fills `raw`.
  abbrev pub raw_reasons :
      RoutingConfig → List ℕ → List Verdict → List ItemMeta → List (ℕ × String) → List (ℕ × String)
  raw_reasons cfg overrides vs [] raw = raw
  raw_reasons cfg overrides vs (m ∷ ms) raw =
      raw_reasons cfg overrides vs ms
        (add_reason m (reason_of cfg overrides m (verdict_by_id vs m.item_id)) raw)

  -- `by_id.get(iid)`: the last of the metas with the id.
  abbrev pub meta_by_id : List ItemMeta → ℕ → Option ItemMeta
  meta_by_id [] k = none
  meta_by_id (m ∷ ms) k = elim (meta_by_id ms k) [
    | some x ↦ some x
    | none ↦ if m.item_id == k then some m else none
  ]

  -- `_RISK_RANK.get(by_id[iid].risk, 0) >= _ELEVATED`; the ids of `raw` are ids of metas.
  abbrev pub is_elevated : Option ItemMeta → Bool
  is_elevated none = false
  is_elevated (some m) = leb (risk_rank elevated) (risk_rank m.risk)

  abbrev pub elevated_only : List ItemMeta → List (ℕ × String) → List (ℕ × String)
  elevated_only ms [] = []
  elevated_only ms ((i, r) ∷ d) =
      let rest = elevated_only ms d in if is_elevated (meta_by_id ms i) then (i, r) ∷ rest else rest

  abbrev pub decision_of : ℕ → ItemMeta → Option String → RoutingDecision
  decision_of tiers m none = record {
    item_id = m.item_id;
    needs_human_review = false;
    decided_by = primary;
    reason = none;
  }
  decision_of tiers m (some r) =
      if ltb 1 tiers
      then record {
        item_id = m.item_id;
        needs_human_review = false;
        decided_by = tier1;
        reason = some r;
      }
      else record {
        item_id = m.item_id;
        needs_human_review = true;
        decided_by = primary;
        reason = some r;
      }

  abbrev pub decisions_of : ℕ → List (ℕ × String) → List ItemMeta → List RoutingDecision
  decisions_of tiers escalated ms = map (λ m. decision_of tiers m (get m.item_id escalated)) ms

  -- `len(raw) / (len(metas) or 1)`
  abbrev or_one : ℕ → ℕ
  or_one zero = 1
  or_one (suc n) = suc n

  abbrev pub fraction_of : List (ℕ × String) → List ItemMeta → F
  fraction_of raw ms = f.div (f.of_nat (length raw)) (f.of_nat (or_one (length ms)))

  abbrev pub flag_text : RoutingConfig → F → String
  flag_text cfg fraction =
      "escalation fraction "
      +++ f.percent fraction
      +++ " exceeded "
      +++ f.percent cfg.max_escalation_fraction
      +++ "; escalating elevated-risk items only"

  unfoldable pub decide_routing :
      RoutingConfig → List ℕ → ℕ → List ItemMeta → List Verdict → RoutingResult
  decide_routing cfg overrides tiers ms vs =
      let raw = raw_reasons cfg overrides vs ms [] in
      let fraction = fraction_of raw ms in
      if lt f cfg.max_escalation_fraction fraction
      then record {
        decisions = decisions_of tiers (elevated_only ms raw) ms;
        flagged_for_review = true;
        flag_reason = some (flag_text cfg fraction);
        escalation_fraction = fraction;
      }
      else record {
        decisions = decisions_of tiers raw ms;
        flagged_for_review = false;
        flag_reason = none;
        escalation_fraction = fraction;
      }
