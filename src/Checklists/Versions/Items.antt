-- ===== src/Checklists/Versions/Items.antt =====
-- The order and the versions of an edited checklist (backend/app/checklists/service.py).
use call_audit_supervisor.Common.{
  ℕ, suc, ◌+◌, ◌<◌, ◌≤◌, ◌≡◌, ◌≢◌, refl, sym, ap, ◌∙◌, inl, inr, Bool, false, leb, not, Option,
  List, [], ◌∷◌, ◌++◌, map, String, All, All-map, filter, ==_refl, Bool-cases, arith,
}
use call_audit_supervisor.Common.Sort.{sort_by, insert, All-sort_by, IsSorted}
use call_audit_supervisor.Checklists.Versions.{
  Checklist, ChecklistItem, Item, Db, rows_from, add_items, is_used_by_report, of_checklist,
  edit_in_place, publish_version, update_checklist, get_items,
}
use call_audit_supervisor.Checklists.Versions.History.{IsConsistent, filter-append}

module _ (key : ChecklistItem → ℕ) where
  abbrev Apart : List ChecklistItem → Type 0
  Apart [] = Unit {0}
  Apart (x ∷ xs) = All (λ y. key x ≢ key y) xs × Apart xs

  insert_first :
      (x : ChecklistItem) (xs : List ChecklistItem)
      → All (λ y. key x ≤ key y) xs
      → insert key x xs ≡ x ∷ xs
  insert_first x [] h = refl
  insert_first x (y ∷ ys) h = ground (arith, h.0)

  sort_sorted : (xs : List ChecklistItem) → IsSorted key xs → sort_by key xs ≡ xs
  unfolding sort_by
  sort_sorted [] h = refl
  sort_sorted (x ∷ xs) h = ap (insert key x) (sort_sorted xs h.1) ∙ insert_first x xs h.0

  -- Two rows with different keys may go in in either order.
  insert_swap :
      (x y : ChecklistItem) (xs : List ChecklistItem)
      → key x ≢ key y
      → insert key x (insert key y xs) ≡ insert key y (insert key x xs)
  insert_swap x y [] h = ground (arith, h)
  insert_swap x y (z ∷ zs) h = ground (arith, h, insert_swap x y zs h)

  module _ (before : ChecklistItem → ℕ) where
    sort-insert :
        (x : ChecklistItem) (xs : List ChecklistItem)
        → All (λ y. key x ≢ key y) xs
        → sort_by key (insert before x xs) ≡ insert key x (sort_by key xs)
    unfolding sort_by
    sort-insert x [] h = refl
    sort-insert x (y ∷ ys) h = elim (Bool-cases (leb (before x) (before y))) [
      | inl e ↦ rw e refl
      | inr e ↦
          rw e
            (ap (insert key y) (sort-insert x ys h.1) ∙ sym (insert_swap x y (sort_by key ys) h.0))
    ]

    -- Rows whose keys differ are in the order of the keys, whatever they were sorted by before.
    sort-sort :
        (xs : List ChecklistItem) → Apart xs → sort_by key (sort_by before xs) ≡ sort_by key xs
    unfolding sort_by
    sort-sort [] h = refl
    sort-sort (x ∷ xs) h =
        sort-insert x (sort_by before xs) (All-sort_by before (λ y. key x ≢ key y) xs h.0)
        ∙ ap (insert key x) (sort-sort xs h.1)

rows_after :
    (u : ℕ → ℕ) (n id j i : ℕ) (xs : List Item)
    → n ≤ i
    → All (λ y. n ≤ y.sort_order) (rows_from u id j i xs)
rows_after u n id j i [] h = tt
rows_after u n id j i (x ∷ xs) h = (h, rows_after u n (suc id) j (suc i) xs (omega arith))

rows_by_order :
    (u : ℕ → ℕ) (id j i : ℕ) (xs : List Item) → IsSorted (λ x. x.sort_order) (rows_from u id j i xs)
rows_by_order u id j i [] = tt
rows_by_order u id j i (x ∷ xs) =
    (rows_after u i (suc id) j (suc i) xs (omega arith), rows_by_order u (suc id) j (suc i) xs)

rows_Apart :
    (u : ℕ → ℕ) (id j i : ℕ) (xs : List Item) → Apart (λ x. x.sort_order) (rows_from u id j i xs)
rows_Apart u id j i [] = tt
rows_Apart u id j i (x ∷ xs) = (
  All-map _ _ (rows_from u (suc id) j (suc i) xs) (λ y le e. omega (arith, le, e))
      (rows_after u (suc i) (suc id) j (suc i) xs (omega arith)),
  rows_Apart u (suc id) j (suc i) xs,
)

rows_own :
    (u : ℕ → ℕ) (id j i : ℕ) (xs : List Item)
    → filter (of_checklist j) (rows_from u id j i xs) ≡ rows_from u id j i xs
rows_own u id j i [] = refl
rows_own u id j i (x ∷ xs) = rw (==_refl j) (
    ap (λ r. (record { id = u id; checklist_id = j; sort_order = i; item = x }) ∷ r)
      (rows_own u (suc id) j (suc i) xs))

rows_items :
    (u : ℕ → ℕ) (id j i : ℕ) (xs : List Item) → map (λ x. x.item) (rows_from u id j i xs) ≡ xs
rows_items u id j i [] = refl
rows_items u id j i (x ∷ xs) = ap (λ r. x ∷ r) (rows_items u (suc id) j (suc i) xs)

none_left :
    (j : ℕ) (xs : List ChecklistItem)
    → All (λ x. of_checklist j x ≡ false) xs
    → filter (of_checklist j) xs ≡ []
none_left j [] h = refl
none_left j (x ∷ xs) h = rw h.0 (none_left j xs h.1)

deleted_none :
    (j : ℕ) (xs : List ChecklistItem)
    → filter (of_checklist j) (filter (λ x. not (of_checklist j x)) xs) ≡ []
deleted_none j [] = refl
deleted_none j (x ∷ xs) = ground (arith, deleted_none j xs)

module _ (u : ℕ → ℕ) (xs : List ChecklistItem) (id j : ℕ) (items : List Item) where
  -- Where a checklist has no items yet, what is read back is what was added.
  read_back :
      (filter (of_checklist j) xs ≡ [])
      → map
          (λ x. x.item)
          (sort_by
            (λ x. x.sort_order)
            (sort_by (λ x. x.id) (filter (of_checklist j) (xs ++ rows_from u id j 0 items))))
        ≡ items
  read_back h =
      ap (λ r. map (λ x. x.item) (sort_by (λ x. x.sort_order) (sort_by (λ x. x.id) r)))
        (filter-append (of_checklist j) xs (rows_from u id j 0 items)
          ∙ rw h (rows_own u id j 0 items))
      ∙ ap (map (λ x. x.item)) (
          sort-sort (λ x. x.sort_order) (λ x. x.id) (rows_from u id j 0 items)
            (rows_Apart u id j 0 items))
      ∙ ap (map (λ x. x.item)) (
          sort_sorted (λ x. x.sort_order) (rows_from u id j 0 items) (rows_by_order u id j 0 items))
      ∙ rows_items u id j 0 items

fresh_none :
    (n : ℕ) (xs : List ChecklistItem)
    → All (λ x. x.checklist_id < n) xs
    → filter (of_checklist n) xs ≡ []
fresh_none n xs h = none_left n xs (All-map _ _ xs (λ x lt. ground arith) h)

module _ (db : Db) (ok : IsConsistent db) (c : Checklist) (name : String) (items : List Item)
    (kb : Option Bool) where
  read_edited :
      (b : Bool)
      → map
          (λ x. x.item)
          (get_items (edit_in_place c name items b db).0.id (edit_in_place c name items b db).1)
        ≡ items
  unfolding edit_in_place add_items get_items
  read_edited b =
      read_back db.uuid (filter (λ x. not (of_checklist c.id x)) db.items) db.next_id c.id items
        (deleted_none c.id db.items)

  read_published :
      (b : Bool)
      → map
          (λ x. x.item)
          (get_items (publish_version c name items b db).0.id (publish_version c name items b db).1)
        ≡ items
  unfolding publish_version add_items get_items
  read_published b =
      read_back db.uuid db.items (db.next_id + 1) db.next_id items
        (fresh_none db.next_id db.items ok.items)

  -- The order that the builder sends is the order that is read back, item by item, whether the
  -- checklist was edited in place or published anew.
  pub update-get_items :
      let (c', db') = update_checklist c name items kb db in
      map (λ x. x.item) (get_items c'.id db') ≡ items
  unfolding update_checklist
  update-get_items = elim (Bool-cases (is_used_by_report c.id db)) [
    | inl e ↦ rw (e, update_checklist) (read_published _)
    | inr e ↦ rw (e, update_checklist) (read_edited _)
  ]
