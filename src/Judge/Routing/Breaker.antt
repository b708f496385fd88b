-- ===== src/Judge/Routing/Breaker.antt =====
-- What `decide_routing` of backend/app/judge/routing.py decides for each item, with its circuit
-- breaker.
use mathlib.Core.Path.{subst}
use mathlib.Core.List.{Memᴰ}
use mathlib.Core.List.Memᴰ
use call_audit_supervisor.Common.Float.{FloatOps, lt}
use call_audit_supervisor.Common.{
  ℕ, zero, suc, ◌+◌, ◌≡◌, ◌≢◌, refl, fun_ext, length, filter, ltb, ◌||◌, sym, ap, ◌∙◌, inl, inr,
  Bool, true, false, not, ◌&&◌, Option, none, some, List, [], ◌∷◌, map, String, All, All-map,
  All-both, All-of_every, contains, ◌==◌, ==_refl, if◌then◌else◌, Bool-cases, Option-cases, arith,
}
use call_audit_supervisor.Judge.Routing.{
  is_critical, is_fail, is_decided, or_one, ItemMeta, RoutingConfig, Verdict, escalation_reason,
  verdict_by_id, reason_of, get, set, add_reason, raw_reasons, meta_by_id, is_elevated,
  elevated_only, decision_of, fraction_of, decide_routing,
}

abbrev pub ids : List ItemMeta → List ℕ
ids = map (λ m. m.item_id)

-- No two items of the checklist have the same id.
abbrev pub Distinct : List ItemMeta → Type 0
Distinct [] = Unit {0}
Distinct (m ∷ ms) = (contains m.item_id (ids ms) ≡ false) × Distinct ms

map-All {κ} :
    {B : Type 0} (P : ItemMeta → Type κ) (f g : ItemMeta → B) (ms : List ItemMeta)
    → ((m : ItemMeta) → P m → f m ≡ g m)
    → All P ms
    → map f ms ≡ map g ms
map-All P f g [] h k = refl
map-All P f g (m ∷ ms) h k = λ i. h m k.0 i ∷ map-All P f g ms h k.1 i

others :
    (k : ℕ) (ms : List ItemMeta)
    → contains k (ids ms) ≡ false
    → All (λ m. (k == m.item_id) ≡ false) ms
others k [] h = tt
others k (m ∷ ms) h = (ground arith, others k ms (ground arith))

module _ (f : FloatOps) where
  meta-others :
      (k : ℕ) (ms : List ItemMeta) → contains k (ids ms) ≡ false → meta_by_id f ms k ≡ none
  meta-others k [] h = refl
  meta-others k (m ∷ ms) h = ground (arith, meta-others k ms)

  -- With distinct ids the risk that the breaker looks up is the item's own.
  meta-own : (ms : List ItemMeta) → Distinct ms → All (λ m. meta_by_id f ms m.item_id ≡ some m) ms
  meta-own [] d = tt
  meta-own (m ∷ ms) d = (
    rw (meta-others m.item_id ms d.0) (rw (==_refl m.item_id) refl),
    All-map _ _ ms (λ x e. rw e refl) (meta-own ms d.1),
  )

  get-set :
      (k j : ℕ) (r : String) (d : List (ℕ × String))
      → get f j (set f k r d) ≡ (if k == j then some r else get f j d)
  get-set k j r [] = refl
  get-set k j r ((i, s) ∷ d) = ground (arith, get-set k j r d)

  get-add :
      (m : ItemMeta) (r : Option String) (raw : List (ℕ × String))
      → get f m.item_id raw ≡ none
      → get f m.item_id (add_reason f m r raw) ≡ r
  get-add m none raw h = h
  get-add m (some r) raw h = ground (arith, get-set m.item_id m.item_id r raw)

  get-add_other :
      (m : ItemMeta) (r : Option String) (raw : List (ℕ × String)) (k : ℕ)
      → (m.item_id == k) ≡ false
      → get f k (add_reason f m r raw) ≡ get f k raw
  get-add_other m none raw k h = refl
  get-add_other m (some r) raw k h = ground (arith, get-set m.item_id k r raw)

  length-set :
      (k : ℕ) (r : String) (d : List (ℕ × String))
      → get f k d ≡ none
      → length (set f k r d) ≡ length d + 1
  length-set k r [] h = refl
  length-set k r ((i, s) ∷ d) h = elim (Bool-cases (i == k)) [
    | inl e ↦ absurd (there s (sym (rw e refl) ∙ h))
    | inr e ↦ rw e (omega (arith, length-set k r d (sym (rw e refl) ∙ h)))
  ]
    where
      there : (s : String) → ◌≡◌ {A = Option String} (some s) none → ⊥
      there s h = cc

  get-elevated_only :
      (ms : List ItemMeta) (k : ℕ) (d : List (ℕ × String))
      → get f k (elevated_only f ms d)
        ≡ (if is_elevated f (meta_by_id f ms k) then get f k d else none)
  get-elevated_only ms k [] = ground arith
  get-elevated_only ms k ((i, r) ∷ d) = grind (arith, get-elevated_only ms k d)

  module _ (cfg : RoutingConfig f) (overrides : List ℕ) (vs : List (Verdict f)) where
    abbrev pub reason : ItemMeta → Option String
    reason m = reason_of f cfg overrides m (verdict_by_id f vs m.item_id)

    get-raw_other :
        (k : ℕ) (ms : List ItemMeta) (raw : List (ℕ × String))
        → contains k (ids ms) ≡ false
        → get f k (raw_reasons f cfg overrides vs ms raw) ≡ get f k raw
    get-raw_other k [] raw h = refl
    get-raw_other k (m ∷ ms) raw h =
        get-raw_other k ms (add_reason f m (reason m) raw) (ground arith)
        ∙ get-add_other m (reason m) raw k (ground arith)

    get-raw :
        (ms : List ItemMeta) (raw : List (ℕ × String))
        → Distinct ms
        → All (λ m. get f m.item_id raw ≡ none) ms
        → All (λ m. get f m.item_id (raw_reasons f cfg overrides vs ms raw) ≡ reason m) ms
    get-raw [] raw d h = tt
    get-raw (m ∷ ms) raw d h = (
      get-raw_other m.item_id ms (add_reason f m (reason m) raw) d.0 ∙ get-add m (reason m) raw h.0,
      get-raw ms (add_reason f m (reason m) raw) d.1 (
          All-map _ _ ms (λ x e. get-add_other m (reason m) raw x.item_id e.1 ∙ e.0)
            (All-both (λ x. get f x.item_id raw ≡ none) (λ x. (m.item_id == x.item_id) ≡ false) ms
              h.1 (others m.item_id ms d.0))),
    )

    -- Why an item is escalated in the end: its own reason, unless the breaker is open and the
    -- item's risk is normal.
    abbrev pub final_reason : Bool → ItemMeta → Option String
    final_reason flagged m = if flagged && not (is_elevated f (some m)) then none else reason m

    abbrev pub breaker : List ItemMeta → Bool
    breaker ms =
        lt f cfg.max_escalation_fraction (fraction_of f (raw_reasons f cfg overrides vs ms []) ms)

    shut :
        (ms : List ItemMeta)
        → Distinct ms
        → All
            (λ m. get f m.item_id (raw_reasons f cfg overrides vs ms []) ≡ final_reason false m)
            ms
    shut ms d = get-raw ms [] d (All-of_every _ (λ m. refl) ms)

    open_ :
        (ms : List ItemMeta)
        → Distinct ms
        → All
            (λ m.
              get f m.item_id (elevated_only f ms (raw_reasons f cfg overrides vs ms []))
              ≡ final_reason true m)
            ms
    open_ ms d =
        All-map _ _ ms
          (λ m e.
            get-elevated_only ms m.item_id (raw_reasons f cfg overrides vs ms [])
            ∙ rw e.1 (rw e.0 (ground arith)))
          (All-both _ _ ms (shut ms d) (meta-own ms d))

    -- Why a verdict is not taken as it is, as a disjunction of the grounds that there are.
    abbrev pub has_ground : ItemMeta → Verdict f → Bool
    has_ground m v =
        contains m.item_id overrides
        || m.is_subjective
        || lt f v.confidence cfg.confidence_threshold
        || (is_critical m.risk && is_fail v.answer)
        || v.needs_review
        || (is_decided v.answer && ltb v.quote_length cfg.min_evidence_chars)

    -- An item with a verdict, of which a ground holds.
    abbrev holds : ItemMeta → Option (Verdict f) → Bool
    holds m none = false
    holds m (some v) = has_ground m v

    abbrev pub is_escalated : ItemMeta → Bool
    is_escalated m = holds m (verdict_by_id f vs m.item_id)

    abbrev pub is_some : Option String → Bool
    is_some none = false
    is_some (some r) = true

    ground-reason :
        (m : ItemMeta) (v : Verdict f)
        → is_some (escalation_reason f cfg overrides m v) ≡ has_ground m v
    unfolding escalation_reason
    ground-reason m v = ground arith

    reason-holds :
        (m : ItemMeta) (v : Option (Verdict f))
        → is_some (reason_of f cfg overrides m v) ≡ holds m v
    reason-holds m none = refl
    reason-holds m (some v) = ground-reason m v

    reason-escalated : (m : ItemMeta) → is_some (reason m) ≡ is_escalated m
    reason-escalated m = reason-holds m (verdict_by_id f vs m.item_id)

    length-add :
        (m : ItemMeta) (r : Option String) (raw : List (ℕ × String))
        → get f m.item_id raw ≡ none
        → length (add_reason f m r raw) ≡ length raw + (if is_some r then 1 else 0)
    length-add m none raw h = omega arith
    length-add m (some r) raw h = length-set m.item_id r raw h

    -- The dictionary of the reasons has a key for each item that is escalated.
    length-raw :
        (ms : List ItemMeta) (raw : List (ℕ × String))
        → Distinct ms
        → All (λ m. get f m.item_id raw ≡ none) ms
        → length (raw_reasons f cfg overrides vs ms raw)
          ≡ length raw + length (filter (λ m. is_some (reason m)) ms)
    length-raw [] raw d h = omega arith
    length-raw (m ∷ ms) raw d h = ground (
      arith,
      length-raw ms (add_reason f m (reason m) raw) d.1 (
          All-map _ _ ms (λ x e. get-add_other m (reason m) raw x.item_id e.1 ∙ e.0)
            (All-both (λ x. get f x.item_id raw ≡ none) (λ x. (m.item_id == x.item_id) ≡ false) ms
              h.1 (others m.item_id ms d.0))),
      length-add m (reason m) raw h.0,
    )

    same_filter :
        (ms : List ItemMeta) → filter (λ m. is_some (reason m)) ms ≡ filter is_escalated ms
    same_filter ms = ap (λ p. filter p ms) (fun_ext reason-escalated)

    -- The share of the checklist's items that are escalated; of none, nought of one.
    abbrev pub share : List ItemMeta → f.F
    share ms =
        f.div (f.of_nat (length (filter is_escalated ms)))
          (f.of_nat (if length ms == 0 then 1 else length ms))

    or_one-length : (n : ℕ) → or_one f n ≡ (if n == 0 then 1 else n)
    or_one-length zero = refl
    or_one-length (suc n) = ground arith

    count-raw :
        (ms : List ItemMeta)
        → Distinct ms
        → length (raw_reasons f cfg overrides vs ms []) ≡ length (filter is_escalated ms)
    count-raw ms d = omega (
      arith,
      length-raw ms [] d (All-of_every _ (λ m. refl) ms),
      ap (λ xs. length xs) (same_filter ms),
    )

    fraction-share :
        (ms : List ItemMeta)
        → Distinct ms
        → fraction_of f (raw_reasons f cfg overrides vs ms []) ms ≡ share ms
    fraction-share ms d =
        ap (λ n. f.div (f.of_nat n) (f.of_nat (or_one f (length ms)))) (count-raw ms d)
        ∙ ap (λ n. f.div (f.of_nat (length (filter is_escalated ms))) (f.of_nat n))
            (or_one-length (length ms))

    flag-share :
        (ms : List ItemMeta)
        → Distinct ms
        → breaker ms ≡ lt f cfg.max_escalation_fraction (share ms)
    flag-share ms d = ap (λ x. lt f cfg.max_escalation_fraction x) (fraction-share ms d)

    -- For a checklist with distinct items: the call is flagged exactly if the number of items with a
    -- ground to escalate, over the number of all items, is over the limit; an item has a reason
    -- exactly if it has a verdict and one of the six grounds holds of it; and each item's decision is
    -- the one for its own reason, which an open breaker drops for items of normal risk only.
    pub decide_routing_lem :
        (tiers : ℕ) (ms : List ItemMeta)
        → Distinct ms
        → let r = decide_routing f cfg overrides tiers ms vs in
          (r.flagged_for_review ≡ lt f cfg.max_escalation_fraction (share ms))
          × (r.decisions
              ≡ map (λ m. decision_of f tiers m (final_reason r.flagged_for_review m)) ms)
          × All (λ m. is_some (reason m) ≡ is_escalated m) ms
    unfolding decide_routing
    decide_routing_lem tiers ms d = elim (Bool-cases (breaker ms)) [
      | inl e ↦ rw e (
        sym e ∙ flag-share ms d,
        map-All _ _ _ ms (λ m h. ap (decision_of f tiers m) h) (open_ ms d),
        All-of_every _ reason-escalated ms,
      )
      | inr e ↦ rw e (
        sym e ∙ flag-share ms d,
        map-All _ _ _ ms (λ m h. ap (decision_of f tiers m) h) (shut ms d),
        All-of_every _ reason-escalated ms,
      )
    ]

    -- An item with a reason that the breaker keeps has the decision for it.
    pub decided_mem :
        (tiers : ℕ) (ms : List ItemMeta) (m : ItemMeta) (r : String)
        → Distinct ms
        → Memᴰ m ms
        → final_reason (decide_routing f cfg overrides tiers ms vs).flagged_for_review m ≡ some r
        → Memᴰ
            (decision_of f tiers m (some r))
            (decide_routing f cfg overrides tiers ms vs).decisions
    decided_mem tiers ms m r d mem e =
        let flagged = (decide_routing f cfg overrides tiers ms vs).flagged_for_review in
        subst (Memᴰ (decision_of f tiers m (some r))) (sym (decide_routing_lem tiers ms d).1) (
          subst
            (λ z.
              Memᴰ (decision_of f tiers m z)
                (map (λ m'. decision_of f tiers m' (final_reason flagged m')) ms))
            e (Memᴰ.map (λ m'. decision_of f tiers m' (final_reason flagged m')) mem))

    has_reason :
        (m : ItemMeta) (v : Verdict f)
        → is_critical m.risk ≡ true
        → is_fail v.answer ≡ true
        → escalation_reason f cfg overrides m v ≢ none
    unfolding escalation_reason
    has_reason m v c bad h = ground arith

    pub escalated_reason :
        (m : ItemMeta) (v : Verdict f) (flagged : Bool)
        → verdict_by_id f vs m.item_id ≡ some v
        → is_critical m.risk ≡ true
        → is_fail v.answer ≡ true
        → (r : String) × (final_reason flagged m ≡ some r)
    escalated_reason m v flagged found c bad =
        elim (Option-cases (escalation_reason f cfg overrides m v)) [
          | inl e ↦ absurd (has_reason m v c bad e)
          | inr (r, e) ↦ (r, rw found (ground arith))
        ]

    -- A failed item of critical risk is never passed over: with one tier its decision asks for a
    -- human review, with more the next tier judges it again, and an open breaker changes nothing.
    pub critical_fail_escalated :
        (tiers : ℕ) (ms : List ItemMeta) (m : ItemMeta) (v : Verdict f)
        → Distinct ms
        → Memᴰ m ms
        → verdict_by_id f vs m.item_id ≡ some v
        → is_critical m.risk ≡ true
        → is_fail v.answer ≡ true
        → (r : String) × Memᴰ
            (decision_of f tiers m (some r))
            (decide_routing f cfg overrides tiers ms vs).decisions
    critical_fail_escalated tiers ms m v d mem found c bad =
        let flagged = (decide_routing f cfg overrides tiers ms vs).flagged_for_review in
        let (r, e) = escalated_reason m v flagged found c bad in
        (r, decided_mem tiers ms m r d mem e)
