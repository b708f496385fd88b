-- ===== src/Checklists/Versions/History.antt =====
-- A version that a report was judged against does not change (backend/app/checklists/service.py).
use call_audit_supervisor.Common.{
  ℕ, suc, ◌+◌, ◌<◌, ◌≡◌, refl, ap, ◌∙◌, inl, inr, Bool, true, false, not, Option, none, some, List,
  [], ◌∷◌, ◌++◌, String, All, All-map, All-append, All-filter_keep, ◌≤◌, filter, any, ◌==◌,
  Bool-cases, arith,
}
use call_audit_supervisor.Checklists.Versions.{
  Checklist, ChecklistItem, Item, Report, Db, rows_from, add_items, create_checklist,
  is_used_by_report, names, of_checklist, edit_in_place, publish_version, update_checklist,
  rename_checklist, soft_delete_checklist,
}

-- The database is consistent: every checklist that a report or an item names has an id that was
-- given out before.
abbrev pub named : Option ℕ → ℕ
named none = 0
named (some k) = k

pub record IsConsistent (db : Db) : Type 0 where
  pub started : 0 < db.next_id
  pub reports : All (λ r. named r.checklist_id < db.next_id) db.reports
  pub items : All (λ x. x.checklist_id < db.next_id) db.items

pub filter-append :
    (p : ChecklistItem → Bool) (xs ys : List ChecklistItem)
    → filter p (xs ++ ys) ≡ filter p xs ++ filter p ys
filter-append p [] ys = refl
filter-append p (x ∷ xs) ys = ground (arith, filter-append p xs ys)

append_nil : (xs : List ChecklistItem) → xs ++ [] ≡ xs
append_nil [] = refl
append_nil (x ∷ xs) = λ i. x ∷ append_nil xs i

-- The rows that are added to one checklist are no rows of another.
rows_others :
    (u : ℕ → ℕ) (k id j i : ℕ) (xs : List Item)
    → (j == k) ≡ false
    → filter (of_checklist k) (rows_from u id j i xs) ≡ []
rows_others u k id j i [] h = refl
rows_others u k id j i (x ∷ xs) h = ground (arith, rows_others u k (suc id) j (suc i) xs h)

delete_others :
    (k j : ℕ) (xs : List ChecklistItem)
    → (j == k) ≡ false
    → filter (of_checklist k) (filter (λ x. not (of_checklist j x)) xs) ≡ filter (of_checklist k) xs
delete_others k j [] h = refl
delete_others k j (x ∷ xs) h = ground (arith, delete_others k j xs h)

-- Rows added to another checklist do not show among the rows of `k`.
added_others :
    (u : ℕ → ℕ) (k id j : ℕ) (items : List Item) (xs : List ChecklistItem)
    → (j == k) ≡ false
    → filter (of_checklist k) (xs ++ rows_from u id j 0 items) ≡ filter (of_checklist k) xs
added_others u k id j items xs h =
    filter-append (of_checklist k) xs (rows_from u id j 0 items)
    ∙ ap (λ r. filter (of_checklist k) xs ++ r) (rows_others u k id j 0 items h)
    ∙ append_nil (filter (of_checklist k) xs)

used_old :
    (k : ℕ) (n : ℕ) (rs : List Report)
    → All (λ r. named r.checklist_id < n) rs
    → any (λ r. names k r.checklist_id) rs ≡ true
    → k < n
used_old k n [] h u = cc
used_old k n (r ∷ rs) h u = ground (arith, used_old k n rs h.1)

rows-All :
    (u : ℕ → ℕ) (n id j i : ℕ) (xs : List Item)
    → j < n
    → All (λ x. x.checklist_id < n) (rows_from u id j i xs)
rows-All u n id j i [] h = tt
rows-All u n id j i (x ∷ xs) h = (h, rows-All u n (suc id) j (suc i) xs h)

-- The ids that were given out before stay given out.
raise_items :
    (m n : ℕ) (xs : List ChecklistItem)
    → m ≤ n
    → All (λ x. x.checklist_id < m) xs
    → All (λ x. x.checklist_id < n) xs
raise_items m n xs le h = All-map _ _ xs (λ x lt. omega arith) h

raise_reports :
    (m n : ℕ) (rs : List Report)
    → m ≤ n
    → All (λ r. named r.checklist_id < m) rs
    → All (λ r. named r.checklist_id < n) rs
raise_reports m n rs le h = All-map _ _ rs (λ x lt. omega arith) h

-- The edits of one builder, in the order in which they are committed.
pub data Edit : Type 0 where
  create : ℕ → String → List Item → Bool → Edit
  update : Checklist → String → List Item → Option Bool → Edit
  rename : Checklist → String → Edit
  soft_delete : Checklist → Edit

abbrev pub apply : Edit → Db → Db
apply (create pid name items kb) db = (create_checklist pid name items kb db).1
apply (update c name items kb) db = (update_checklist c name items kb db).1
apply (rename c name) db = rename_checklist c name db
apply (soft_delete c) db = soft_delete_checklist c db

abbrev pub apply_all : List Edit → Db → Db
apply_all [] db = db
apply_all (e ∷ es) db = apply_all es (apply e db)

-- The edited checklist is one of the database.
abbrev pub IsKnown : Edit → Db → Type 0
IsKnown (update c name items kb) db = c.id < db.next_id
IsKnown _ db = Unit {0}

abbrev pub AllKnown : List Edit → Db → Type 0
AllKnown [] db = Unit {0}
AllKnown (e ∷ es) db = IsKnown e db × AllKnown es (apply e db)

module _ (k : ℕ) where
  abbrev pub items_of : Db → List ChecklistItem
  items_of db = filter (of_checklist k) db.items

  -- What an edit keeps.
  record Kept (db db' : Db) : Type 0 where
    pub same_items : items_of db' ≡ items_of db
    pub same_reports : db'.reports ≡ db.reports
    pub consistent : IsConsistent db'

  module _ (db : Db) (ok : IsConsistent db) (used : is_used_by_report k db ≡ true) where
    is_old : k < db.next_id
    unfolding is_used_by_report
    is_old = used_old k db.next_id db.reports ok.reports used

    create-Kept :
        (pid : ℕ) (name : String) (items : List Item) (kb : Bool)
        → Kept db (create_checklist pid name items kb db).1
    unfolding create_checklist add_items
    create-Kept pid name items kb = record {
      same_items =
          added_others db.uuid k _ (db.next_id + 1) items db.items
            (let old = is_old in ground arith);
      same_reports = refl;
      consistent = record {
        started = omega arith;
        reports = raise_reports db.next_id _ db.reports (omega arith) ok.reports;
        items =
            All-append _ db.items _ (raise_items db.next_id _ db.items (omega arith) ok.items)
              (rows-All db.uuid _ _ (db.next_id + 1) 0 items (omega arith));
      };
    }

    publish-Kept :
        (c : Checklist) (name : String) (items : List Item) (kb : Bool)
        → Kept db (publish_version c name items kb db).1
    unfolding publish_version add_items
    publish-Kept c name items kb = record {
      same_items =
          added_others db.uuid k _ db.next_id items db.items (let old = is_old in ground arith);
      same_reports = refl;
      consistent = record {
        started = omega arith;
        reports = raise_reports db.next_id _ db.reports (omega arith) ok.reports;
        items =
            All-append _ db.items _ (raise_items db.next_id _ db.items (omega arith) ok.items)
              (rows-All db.uuid _ _ db.next_id 0 items (omega arith));
      };
    }

    edit-Kept :
        (c : Checklist) (name : String) (items : List Item) (kb : Bool)
        → (c.id == k) ≡ false
        → c.id < db.next_id
        → Kept db (edit_in_place c name items kb db).1
    unfolding edit_in_place add_items
    edit-Kept c name items kb other known = record {
      same_items =
          added_others db.uuid k _ c.id items _ other ∙ delete_others k c.id db.items other;
      same_reports = refl;
      consistent = record {
        started = let s = ok.started in omega arith;
        reports = raise_reports db.next_id _ db.reports (omega arith) ok.reports;
        items =
            All-append _ (filter (λ x. not (of_checklist c.id x)) db.items) _
              (raise_items db.next_id _ _ (omega arith) (All-filter_keep _ _ db.items ok.items))
              (rows-All db.uuid _ _ c.id 0 items (omega arith));
      };
    }

    unused_other : (c : Checklist) → is_used_by_report c.id db ≡ false → (c.id == k) ≡ false
    unused_other c h = grind (arith, h, used)

    update-Kept :
        (c : Checklist) (name : String) (items : List Item) (kb : Option Bool)
        → c.id < db.next_id
        → Kept db (update_checklist c name items kb db).1
    unfolding update_checklist
    update-Kept c name items kb known = elim (Bool-cases (is_used_by_report c.id db)) [
      | inl e ↦ rw (e, update_checklist) (publish-Kept c name items _)
      | inr e ↦ rw (e, update_checklist) (edit-Kept c name items _ (unused_other c e) known)
    ]

    apply-Kept : (e : Edit) → IsKnown e db → Kept db (apply e db)
    unfolding rename_checklist soft_delete_checklist
    apply-Kept (create pid name items kb) known = create-Kept pid name items kb
    apply-Kept (update c name items kb) known = update-Kept c name items kb known
    apply-Kept (rename c name) known = record {
      same_items = refl;
      same_reports = refl;
      consistent = record { started = ok.started; reports = ok.reports; items = ok.items };
    }
    apply-Kept (soft_delete c) known = record {
      same_items = refl;
      same_reports = refl;
      consistent = record { started = ok.started; reports = ok.reports; items = ok.items };
    }

  still_used :
      (db db' : Db)
      → db'.reports ≡ db.reports
      → is_used_by_report k db ≡ true
      → is_used_by_report k db' ≡ true
  unfolding is_used_by_report
  still_used db db' e h = ap (any (λ r. names k r.checklist_id)) e ∙ h

  -- Once a report is judged against a checklist, its items stay what they are, whatever is created,
  -- edited, renamed or deleted afterwards, and in whatever order.
  pub history_kept :
      (es : List Edit) (db : Db)
      → IsConsistent db
      → is_used_by_report k db ≡ true
      → AllKnown es db
      → filter (of_checklist k) (apply_all es db).items ≡ filter (of_checklist k) db.items
  history_kept [] db ok used known = refl
  history_kept (e ∷ es) db ok used known =
      let kept = apply-Kept db ok used e known.0 in
      history_kept es (apply e db) kept.consistent
        (still_used db (apply e db) kept.same_reports used) known.1
      ∙ kept.same_items
