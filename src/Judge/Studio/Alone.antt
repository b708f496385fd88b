-- ===== src/Judge/Studio/Alone.antt =====
-- What an activation in the agent studio does (backend/app/api/prompts.py,
-- backend/app/api/output_schemas.py).
use mathlib.Core.Path.{subst}
use call_audit_supervisor.Common.{
  ℕ, ◌≡◌, refl, sym, ap, ◌∙◌, ◌⊎◌, inl, inr, Bool, true, false, not, some, List, [], ◌∷◌, All,
  All-map, filter, find?, ◌==◌, Bool-cases,
}
use call_audit_supervisor.Judge.Scope.{Scoped}
use call_audit_supervisor.Judge.Prompts.{Stored}
use call_audit_supervisor.Judge.Studio.{ok, Table, same_slot, has_id, with_use, activate}
use call_audit_supervisor.Judge.Studio.Activation.{
  IsSound, act, acted, used, acted-used, Known, act-AllApart, found-Known, index-AllApart, All-act,
}

module _ {A : Type 0} where
  -- The rows of the other agents and scopes.
  abbrev pub elsewhere : Scoped (Stored A) → List (Scoped (Stored A)) → List (Scoped (Stored A))
  elsewhere p rows = filter (λ r. not (same_slot p r)) rows

  slot-use : (p r : Scoped (Stored A)) (b : Bool) → same_slot p (with_use b r) ≡ same_slot p r
  unfolding same_slot
  slot-use p r b = refl

  slot-acted : (k : ℕ) (p r : Scoped (Stored A)) → same_slot p (acted k p r) ≡ same_slot p r
  slot-acted k p r = ap (same_slot p) (acted-used k p r) ∙ slot-use p r (used k p r)

  acted-same :
      (k : ℕ) (p r : Scoped (Stored A)) → Known k p r → same_slot p r ≡ false → acted k p r ≡ r
  acted-same k p r (inl e) q = rw (q, e) refl
  acted-same k p r (inr e) q = absurd (both (sym e ∙ q))
    where
      both : true ≡ false → ⊥
      both h = cc

  cons_kept :
      (k : ℕ) (p x r : Scoped (Stored A)) (xs rows : List (Scoped (Stored A)))
      → same_slot p x ≡ same_slot p r
      → (same_slot p r ≡ true) ⊎ (x ≡ r)
      → elsewhere p xs ≡ elsewhere p rows
      → elsewhere p (x ∷ xs) ≡ elsewhere p (r ∷ rows)
  cons_kept k p x r xs rows e (inl q) h = rw (e ∙ q, q) h
  cons_kept k p x r xs rows e (inr q) h = elim (Bool-cases (same_slot p r)) [
    | inl b ↦ rw (e ∙ b, b) h
    | inr b ↦ rw (e ∙ b, b) (λ i. q i ∷ h i)
  ]

  act-elsewhere :
      (k : ℕ) (p : Scoped (Stored A)) (rows : List (Scoped (Stored A)))
      → All (Known k p) rows
      → elsewhere p (act k p rows) ≡ elsewhere p rows
  act-elsewhere k p [] h = refl
  act-elsewhere k p (r ∷ rows) h =
      cons_kept k p (acted k p r) r (act k p rows) rows (slot-acted k p r)
        (elim (Bool-cases (same_slot p r)) [ inl b ↦ inl b | inr b ↦ inr (acted-same k p r h.0 b) ])
        (act-elsewhere k p rows h.1)

  abbrev AloneInSlot : ℕ → Scoped (Stored A) → Scoped (Stored A) → Type 0
  AloneInSlot k p x = (same_slot p x ≡ false) ⊎ (x.payload.in_use ≡ (x.payload.id == k))

  act-slot : (k : ℕ) (p r : Scoped (Stored A)) → Known k p r → AloneInSlot k p (acted k p r)
  unfolding used
  act-slot k p r h =
      subst (AloneInSlot k p) (sym (acted-used k p r)) (elim (Bool-cases (same_slot p r)) [
        | inr b ↦ inl (slot-use p r (used k p r) ∙ b)
        | inl b ↦
            inr
              (elim (Bool-cases (r.payload.id == k)) [ inl e ↦ rw e refl | inr e ↦ rw (e, b) refl ])
      ])

  -- With distinct ids and at most one row in use for a slot, an activation that meets no other
  -- activation is never refused: afterwards of the row's agent and exact scope it alone is in use,
  -- and the rows of the other agents and scopes are as they were.
  pub activate_lem :
      (k : ℕ) (p : Scoped (Stored A)) (t : Table A)
      → IsSound t
      → find? (has_id k) t.rows ≡ some p
      → ((activate k t).0 ≡ ok)
        × (elsewhere p (activate k t).1.rows ≡ elsewhere p t.rows)
        × All
            (λ (r : Scoped (Stored A)).
              (same_slot p r ≡ false) ⊎ (r.payload.in_use ≡ (r.payload.id == k)))
            (activate k t).1.rows
  unfolding activate
  activate_lem k p t h e =
      let known = found-Known k p t.rows h.apart e in
      let apart = act-AllApart k p t.rows known h.apart in
      rw (e, index-AllApart (act k p t.rows) apart)
        (
          refl,
          act-elsewhere k p t.rows known,
          All-act k p _ t.rows (All-map _ _ t.rows (λ r. act-slot k p r) known),
        )
