-- ===== src/Judge/Studio/Invariant.antt =====
-- Every table of the agent studio that its operations make (backend/app/api/prompts.py,
-- backend/app/api/output_schemas.py).
use mathlib.Core.Path.{subst}
use call_audit_supervisor.Common.{
  ℕ, ◌<◌, ◌≡◌, refl, sym, ap, inl, inr, Bool, true, false, not, ◌&&◌, Option, none, some, List, [],
  ◌∷◌, ◌++◌, String, All, All-map, All-append, All-filter_keep, filter, find?, update_where,
  Bool-cases, if◌then◌else◌, arith,
}
use call_audit_supervisor.Judge.Scope.{Scoped}
use call_audit_supervisor.Judge.Prompts.{Stored}
use call_audit_supervisor.Judge.Studio.{
  Table, same_slot, has_id, with_use, new_row, create, known_agent, activate_row, activate,
  deactivate_row, deactivate, delete_row, delete,
}
use call_audit_supervisor.Judge.Studio.Activation.{
  Apart, AllApart, IsSound, act, acted, acted-used, act-AllApart, found-Known, index-AllApart,
  All-act,
}

-- The operations of the studio; the check of the content comes with the creation.
pub data Op (A : Type 0) : Type 0 where
  creates : (A → Bool) → String → Option ℕ → Option ℕ → A → Op A
  activates deactivates deletes : ℕ → Op A

and_false : (a b : Bool) → a && false && b ≡ false
and_false true b = refl
and_false false b = refl

module _ {A : Type 0} where
  abbrev pub apply : Op A → Table A → Table A
  apply (creates is_valid agent pid aid content) t = (create is_valid agent pid aid content t).1
  apply (activates k) t = (activate k t).1
  apply (deactivates k) t = (deactivate k t).1
  apply (deletes k) t = (delete k t).1

  abbrev pub apply_all : List (Op A) → Table A → Table A
  apply_all [] t = t
  apply_all (o ∷ os) t = apply_all os (apply o t)

  abbrev pub empty : Table A
  empty = record { rows = []; next_id = 0 }

  append-AllApart :
      (rows : List (Scoped (Stored A))) (r : Scoped (Stored A))
      → AllApart rows
      → All (λ s. Apart s r) rows
      → AllApart (rows ++ r ∷ [])
  append-AllApart [] r h k = (tt, tt)
  append-AllApart (s ∷ rows) r h k =
      (All-append (Apart s) rows (r ∷ []) h.0 (k.0, tt), append-AllApart rows r h.1 k.1)

  create-IsSound :
      (is_valid : A → Bool) (agent : String) (pid aid : Option ℕ) (content : A) (t : Table A)
      → IsSound t
      → IsSound (create is_valid agent pid aid content t).1
  unfolding create
  create-IsSound is_valid agent pid aid content t h =
      elim (Bool-cases (known_agent agent && is_valid content)) [
        | inl e ↦
            rw (e, create)
              (record {
                apart =
                    append-AllApart t.rows (new_row agent pid aid content t.next_id) h.apart
                      (All-map _ _ t.rows (λ r lt. (ground arith, ground arith)) h.fresh);
                fresh =
                    All-append _ t.rows _ (All-map _ _ t.rows (λ r lt. omega arith) h.fresh)
                      (omega arith, tt);
              })
        | inr e ↦ rw (e, create) h
      ]

  unused-Apart :
      (k : ℕ) (r s : Scoped (Stored A))
      → Apart r s
      → Apart
          (if has_id k r then with_use false r else r)
          (if has_id k s then with_use false s else s)
  unused-Apart k r s h = elim (Bool-cases (has_id k r)) [
    | inl e ↦ elim (Bool-cases (has_id k s)) [
      | inl q ↦ rw (e, q) (h.0, refl)
      | inr q ↦ rw (e, q) (h.0, refl)
    ]
    | inr e ↦ elim (Bool-cases (has_id k s)) [
      | inl q ↦ rw (e, q) (h.0, and_false r.payload.in_use (same_slot r (with_use false s)))
      | inr q ↦ rw (e, q) h
    ]
  ]

  unused-AllApart :
      (k : ℕ) (rows : List (Scoped (Stored A)))
      → AllApart rows
      → AllApart (update_where (has_id k) (with_use false) rows)
  unused-AllApart k [] h = tt
  unused-AllApart k (r ∷ rows) h = (all r rows h.0, unused-AllApart k rows h.1)
    where
      all :
          (r : Scoped (Stored A)) (rows : List (Scoped (Stored A)))
          → All (Apart r) rows
          → All
              (Apart (if has_id k r then with_use false r else r))
              (update_where (has_id k) (with_use false) rows)
      all r [] h = tt
      all r (s ∷ rows) h = (unused-Apart k r s h.0, all r rows h.1)

  filter-AllApart :
      (p : Scoped (Stored A) → Bool) (rows : List (Scoped (Stored A)))
      → AllApart rows
      → AllApart (filter p rows)
  filter-AllApart p [] h = tt
  filter-AllApart p (r ∷ rows) h = elim (Bool-cases (p r)) [
    | inl e ↦ rw e (All-filter_keep (Apart r) p rows h.0, filter-AllApart p rows h.1)
    | inr e ↦ rw e (filter-AllApart p rows h.1)
  ]

  id-acted : (k : ℕ) (p r : Scoped (Stored A)) → (acted k p r).payload.id ≡ r.payload.id
  id-acted k p r = ap (λ (x : Scoped (Stored A)). x.payload.id) (acted-used k p r)

  activate_row-IsSound :
      (k : ℕ) (o : Option (Scoped (Stored A))) (t : Table A)
      → find? (has_id k) t.rows ≡ o
      → IsSound t
      → IsSound (activate_row o k t).1
  activate_row-IsSound k none t e h = h
  activate_row-IsSound k (some p) t e h =
      let apart = act-AllApart k p t.rows (found-Known k p t.rows h.apart e) h.apart in
      rw (index-AllApart (act k p t.rows) apart) (record {
        apart = apart;
        fresh = All-act k p _ t.rows (
            All-map _ _ t.rows (λ r lt. subst (λ n. n < t.next_id) (sym (id-acted k p r)) lt)
              h.fresh);
      })

  deactivate_row-IsSound :
      (k : ℕ) (o : Option (Scoped (Stored A))) (t : Table A)
      → IsSound t
      → IsSound (deactivate_row o k t).1
  deactivate_row-IsSound k none t h = h
  deactivate_row-IsSound k (some p) t h = record {
    apart = unused-AllApart k t.rows h.apart;
    fresh = fresh t.rows h.fresh;
  }
    where
      fresh :
          (rows : List (Scoped (Stored A)))
          → All (λ (r : Scoped (Stored A)). r.payload.id < t.next_id) rows
          → All
              (λ (r : Scoped (Stored A)). r.payload.id < t.next_id)
              (update_where (has_id k) (with_use false) rows)
      fresh [] h = tt
      fresh (r ∷ rows) h = (ground (arith, h.0), fresh rows h.1)

  delete_row-IsSound :
      (k : ℕ) (o : Option (Scoped (Stored A))) (t : Table A)
      → IsSound t
      → IsSound (delete_row o k t).1
  delete_row-IsSound k none t h = h
  delete_row-IsSound k (some p) t h = record {
    apart = filter-AllApart (λ r. not (has_id k r)) t.rows h.apart;
    fresh = All-filter_keep _ (λ r. not (has_id k r)) t.rows h.fresh;
  }

  apply-IsSound : (o : Op A) (t : Table A) → IsSound t → IsSound (apply o t)
  unfolding activate deactivate delete
  apply-IsSound (creates is_valid agent pid aid content) t h =
      create-IsSound is_valid agent pid aid content t h
  apply-IsSound (activates k) t h = activate_row-IsSound k (find? (has_id k) t.rows) t refl h
  apply-IsSound (deactivates k) t h = deactivate_row-IsSound k (find? (has_id k) t.rows) t h
  apply-IsSound (deletes k) t h = delete_row-IsSound k (find? (has_id k) t.rows) t h

  from-IsSound : (os : List (Op A)) (t : Table A) → IsSound t → IsSound (apply_all os t)
  from-IsSound [] t h = h
  from-IsSound (o ∷ os) t h = from-IsSound os (apply o t) (apply-IsSound o t h)

  -- Whatever is created, activated, deactivated and deleted, one operation after the other from an
  -- empty table: the ids are distinct, and no two rows for one agent at one exact scope are in use.
  pub one_in_use : (os : List (Op A)) → AllApart (apply_all os empty).rows
  one_in_use os = (from-IsSound os empty (record { apart = tt; fresh = tt })).apart
