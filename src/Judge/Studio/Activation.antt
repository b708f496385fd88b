-- ===== src/Judge/Studio/Activation.antt =====
-- At most one row of the agent studio is in use for an agent at a scope
-- (backend/app/api/prompts.py, backend/app/api/output_schemas.py).
use mathlib.Core.Path.{subst}
use call_audit_supervisor.Common.{
  ℕ, ◌<◌, ◌≡◌, refl, sym, ap, ◌∙◌, ◌⊎◌, inl, inr, Bool, true, false, ◌&&◌, Option, none, some, List,
  [], ◌∷◌, All, find?, update_where, ◌==◌, ==_refl, str_eq, str_eq_iff, Bool-cases, if◌then◌else◌,
  arith,
}
use call_audit_supervisor.Judge.Scope.{Scoped}
use call_audit_supervisor.Judge.Prompts.{Stored}
use call_audit_supervisor.Judge.Studio.{
  Table, same_id, same_slot, clash, has_id, with_use, no_clash, index_holds,
}

same_id_refl : (a : Option ℕ) → same_id a a ≡ true
same_id_refl none = refl
same_id_refl (some a) = ==_refl a

same_id-eq : (a b : Option ℕ) → same_id a b ≡ true → a ≡ b
same_id-eq none none h = refl
same_id-eq none (some b) h = cc
same_id-eq (some a) none h = cc
same_id-eq (some a) (some b) h = ap some (ground arith)

and3 : (a b c : Bool) → a && b && c ≡ true → (a ≡ true) × (b ≡ true) × (c ≡ true)
and3 true true true h = (refl, refl, refl)
and3 true true false h = cc
and3 true false c h = cc
and3 false b c h = cc

module _ {A : Type 0} where
  pub same_slot_refl : (r : Scoped (Stored A)) → same_slot r r ≡ true
  unfolding same_slot
  same_slot_refl r =
      rw
        (
          (str_eq_iff r.payload.agent r.payload.agent).1 refl,
          same_id_refl r.portfolio_id,
          same_id_refl r.agent_id,
        )
        refl

  -- Rows of one slot are in the same slots.
  pub same_slot-same :
      (p r s : Scoped (Stored A)) → same_slot p r ≡ true → same_slot r s ≡ same_slot p s
  unfolding same_slot
  same_slot-same p r s h =
      let (a, b, c) =
        and3 (str_eq p.payload.agent r.payload.agent) (same_id p.portfolio_id r.portfolio_id)
          (same_id p.agent_id r.agent_id) h in
      let ea = (str_eq_iff p.payload.agent r.payload.agent).0 a in
      let eb = same_id-eq p.portfolio_id r.portfolio_id b in
      let ec = same_id-eq p.agent_id r.agent_id c in
      λ i.
        str_eq (sym ea i) s.payload.agent
        && same_id (sym eb i) s.portfolio_id
        && same_id (sym ec i) s.agent_id

  same_slot-right :
      (p r s : Scoped (Stored A)) → same_slot r s ≡ true → same_slot p r ≡ same_slot p s
  unfolding same_slot
  same_slot-right p r s h =
      let (a, b, c) =
        and3 (str_eq r.payload.agent s.payload.agent) (same_id r.portfolio_id s.portfolio_id)
          (same_id r.agent_id s.agent_id) h in
      let ea = (str_eq_iff r.payload.agent s.payload.agent).0 a in
      let eb = same_id-eq r.portfolio_id s.portfolio_id b in
      let ec = same_id-eq r.agent_id s.agent_id c in
      λ i.
        str_eq p.payload.agent (ea i) && same_id p.portfolio_id (eb i) && same_id p.agent_id (ec i)

  abbrev pub Apart : Scoped (Stored A) → Scoped (Stored A) → Type 0
  Apart r s = ((r.payload.id == s.payload.id) ≡ false) × (clash r s ≡ false)

  some_inj : (a b : Scoped (Stored A)) → some a ≡ some b → a ≡ b
  some_inj a b h = cc

  -- The ids are distinct, and no two rows of a slot are in use.
  abbrev pub AllApart : List (Scoped (Stored A)) → Type 0
  AllApart [] = Unit {0}
  AllApart (r ∷ rows) = All (Apart r) rows × AllApart rows

  pub record IsSound (t : Table A) : Type 0 where
    pub apart : AllApart t.rows
    pub fresh : All (λ (r : Scoped (Stored A)). r.payload.id < t.next_id) t.rows

  module _ (k : ℕ) (p : Scoped (Stored A)) where
    abbrev pub act : List (Scoped (Stored A)) → List (Scoped (Stored A))
    act rows =
        update_where (has_id k) (with_use true) (update_where (same_slot p) (with_use false) rows)

    -- Whether a row is in use after the activation.
    unfoldable pub used : Scoped (Stored A) → Bool
    used r = if r.payload.id == k then true else if same_slot p r then false else r.payload.in_use

    abbrev pub acted : Scoped (Stored A) → Scoped (Stored A)
    acted r =
        let r' = if same_slot p r then with_use false r else r in
        if has_id k r' then with_use true r' else r'

    pub acted-used : (r : Scoped (Stored A)) → acted r ≡ with_use (used r) r
    unfolding used
    acted-used r = elim (Bool-cases (same_slot p r)) [
      | inl e ↦ elim (Bool-cases (r.payload.id == k)) [
        | inl q ↦ rw (e, q) refl
        | inr q ↦ rw (e, q) refl
      ]
      | inr e ↦ elim (Bool-cases (r.payload.id == k)) [
        | inl q ↦ rw (e, q) refl
        | inr q ↦ rw (e, q) refl
      ]
    ]

    -- A row with the id of the activated one is of its slot.
    abbrev pub Known : Scoped (Stored A) → Type 0
    Known r = ((r.payload.id == k) ≡ false) ⊎ (same_slot p r ≡ true)

    clash-used :
        (r s : Scoped (Stored A))
        → clash (with_use (used r) r) (with_use (used s) s) ≡ (used r && used s && same_slot r s)
    unfolding same_slot
    clash-used r s = refl

    use-Apart :
        (r s : Scoped (Stored A))
        → Known r
        → Known s
        → Apart r s
        → (used r && used s && same_slot r s) ≡ false
    unfolding used
    use-Apart r s kr ks h = elim (Bool-cases (same_slot r s)) [
      | inl e ↦ ground (arith, e, same_slot-right p r s e, kr, ks, h.0, h.1)
      | inr e ↦ rw e (ground arith)
    ]

    acted-Apart :
        (r s : Scoped (Stored A)) → Known r → Known s → Apart r s → Apart (acted r) (acted s)
    acted-Apart r s kr ks h =
        subst (λ x. Apart x (acted s)) (sym (acted-used r))
          (subst (Apart (with_use (used r) r)) (sym (acted-used s))
            (h.0, clash-used r s ∙ use-Apart r s kr ks h))

    pub All-act {κ} :
        (Q : Scoped (Stored A) → Type κ) (rows : List (Scoped (Stored A)))
        → All (λ s. Q (acted s)) rows
        → All Q (act rows)
    All-act Q [] h = tt
    All-act Q (s ∷ rows) h = (h.0, All-act Q rows h.1)

    All-acted-Apart :
        (r : Scoped (Stored A)) (rows : List (Scoped (Stored A)))
        → Known r
        → All Known rows
        → All (Apart r) rows
        → All (λ s. Apart (acted r) (acted s)) rows
    All-acted-Apart r [] kr ks h = tt
    All-acted-Apart r (s ∷ rows) kr ks h =
        (acted-Apart r s kr ks.0 h.0, All-acted-Apart r rows kr ks.1 h.1)

    pub act-AllApart :
        (rows : List (Scoped (Stored A))) → All Known rows → AllApart rows → AllApart (act rows)
    act-AllApart [] ks h = tt
    act-AllApart (r ∷ rows) ks h = (
      All-act (Apart (acted r)) rows (All-acted-Apart r rows ks.0 ks.1 h.0),
      act-AllApart rows ks.1 h.1,
    )

    -- With distinct ids the row that is found is the only one of its id.
    none_else :
        (r : Scoped (Stored A)) (rows : List (Scoped (Stored A)))
        → (r.payload.id == k) ≡ true
        → All (Apart r) rows
        → All Known rows
    none_else r [] e h = tt
    none_else r (s ∷ rows) e h = (inl (ground (arith, h.0.0, e)), none_else r rows e h.1)

    pub found-Known :
        (rows : List (Scoped (Stored A)))
        → AllApart rows
        → find? (has_id k) rows ≡ some p
        → All Known rows
    found-Known [] h e = tt
    found-Known (r ∷ rows) h e = elim (Bool-cases (r.payload.id == k)) [
      | inl q ↦ (inr (first r rows q e), none_else r rows q h.0)
      | inr q ↦ (inl q, found-Known rows h.1 (sym (rw q refl) ∙ e))
    ]
      where
        first :
            (r : Scoped (Stored A)) (rows : List (Scoped (Stored A)))
            → (r.payload.id == k) ≡ true
            → find? (has_id k) (r ∷ rows) ≡ some p
            → same_slot p r ≡ true
        first r rows q e =
            subst (λ x. same_slot x r ≡ true) (some_inj r p (sym (rw q refl) ∙ e))
              (same_slot_refl r)

  pub index-AllApart : (rows : List (Scoped (Stored A))) → AllApart rows → index_holds rows ≡ true
  unfolding index_holds
  index-AllApart [] h = refl
  index-AllApart (r ∷ rows) h = rw (no_clash-Apart r rows h.0) (index-AllApart rows h.1)
    where
      no_clash-Apart :
          (r : Scoped (Stored A)) (rows : List (Scoped (Stored A)))
          → All (Apart r) rows
          → no_clash r rows ≡ true
      no_clash-Apart r [] h = refl
      no_clash-Apart r (s ∷ rows) h = rw h.0.1 (no_clash-Apart r rows h.1)
