-- ===== src/Judge/Clustering/Counts.antt =====
-- What the clusters of backend/app/judge/clustering.py count.
use call_audit_supervisor.Common.Float.{FloatOps}
use call_audit_supervisor.Common.{
  ℕ, suc, ◌+◌, ◌≤◌, ◌≡◌, refl, ap, ◌∙◌, inl, inr, Bool, true, false, List, [], ◌∷◌, String, All,
  length, length-append, filter, min, leb, Bool-cases, arith,
}
use call_audit_supervisor.Judge.Tables.{Tables, Objection}
use call_audit_supervisor.Judge.Clustering.{
  ObjectionCluster, one_if, Row, like, with_example, joined, started, place, place_all, clusters_of,
  insert, by_count, rows_of, in_portfolio, cluster_objections,
}
use call_audit_supervisor.Orchestration.World.{Call}

abbrev pub sum_by {ℓ} : {A : Type ℓ} → (A → ℕ) → List A → ℕ
sum_by g [] = 0
sum_by g (x ∷ xs) = g x + sum_by g xs

-- The sizes of a cluster agree: the cleared ones are among the counted, and of these three at most
-- are kept as examples.
pub record IsCluster (c : ObjectionCluster) : Type 0 where
  pub counted : 1 ≤ c.count
  pub cleared : c.cleared_count ≤ c.count
  pub examples : length c.examples ≡ min 3 c.count

-- From the greatest count to the least.
abbrev pub IsRanked : List ObjectionCluster → Type 0
IsRanked [] = Unit {0}
IsRanked (c ∷ cs) = All (λ (d : ObjectionCluster). d.count ≤ c.count) cs × IsRanked cs

All-insert {κ} :
    (P : ObjectionCluster → Type κ) (c : ObjectionCluster) (cs : List ObjectionCluster)
    → P c
    → All P cs
    → All P (insert c cs)
All-insert P c [] h k = (h, tt)
All-insert P c (d ∷ ds) h k = elim (Bool-cases (leb d.count c.count)) [
  | inl e ↦ rw e (h, k)
  | inr e ↦ rw e (k.0, All-insert P c ds h k.1)
]

All-by_count {κ} :
    (P : ObjectionCluster → Type κ) (cs : List ObjectionCluster) → All P cs → All P (by_count cs)
All-by_count P [] h = tt
All-by_count P (c ∷ cs) h = All-insert P c (by_count cs) h.0 (All-by_count P cs h.1)

below :
    (m n : ℕ) (cs : List ObjectionCluster)
    → m ≤ n
    → All (λ (d : ObjectionCluster). d.count ≤ m) cs
    → All (λ (d : ObjectionCluster). d.count ≤ n) cs
below m n [] le h = tt
below m n (c ∷ cs) le h = (omega arith, below m n cs le h.1)

insert-IsRanked :
    (c : ObjectionCluster) (cs : List ObjectionCluster) → IsRanked cs → IsRanked (insert c cs)
insert-IsRanked c [] h = (tt, tt)
insert-IsRanked c (d ∷ ds) h = elim (Bool-cases (leb d.count c.count)) [
  | inl e ↦ rw e ((ground arith, below d.count c.count ds (ground arith) h.0), h)
  | inr e ↦ rw e (
    All-insert (λ (x : ObjectionCluster). x.count ≤ d.count) c ds (ground arith) h.0,
    insert-IsRanked c ds h.1,
  )
]

by_count-IsRanked : (cs : List ObjectionCluster) → IsRanked (by_count cs)
by_count-IsRanked [] = tt
by_count-IsRanked (c ∷ cs) = insert-IsRanked c (by_count cs) (by_count-IsRanked cs)

sum-insert :
    (g : ObjectionCluster → ℕ) (c : ObjectionCluster) (cs : List ObjectionCluster)
    → sum_by g (insert c cs) ≡ g c + sum_by g cs
sum-insert g c [] = refl
sum-insert g c (d ∷ ds) = elim (Bool-cases (leb d.count c.count)) [
  | inl e ↦ rw e refl
  | inr e ↦ rw e (omega (arith, sum-insert g c ds))
]

sum-by_count :
    (g : ObjectionCluster → ℕ) (cs : List ObjectionCluster) → sum_by g (by_count cs) ≡ sum_by g cs
sum-by_count g [] = refl
sum-by_count g (c ∷ cs) = sum-insert g c (by_count cs) ∙ ap (λ n. g c + n) (sum-by_count g cs)

module _ (f : FloatOps) (sqrt : f.F → f.F) where
  length-with_example :
      (text : String) (xs : List String) (n : ℕ)
      → length xs ≡ min 3 n
      → length (with_example f sqrt text xs) ≡ min 3 (n + 1)
  length-with_example text xs n h = ground (arith, length-append xs (text ∷ []))

  joined-IsCluster :
      (row : Row f sqrt) (c : ObjectionCluster) → IsCluster c → IsCluster (joined f sqrt row c)
  joined-IsCluster row c h = record {
    counted = omega arith;
    cleared = one_if_le row.cleared c.cleared_count c.count h.cleared;
    examples = length-with_example row.text c.examples c.count h.examples;
  }
    where
      one_if_le : (b : Bool) (m n : ℕ) → m ≤ n → m + one_if b ≤ n + 1
      one_if_le true m n h = omega arith
      one_if_le false m n h = omega arith

  started-IsCluster : (row : Row f sqrt) → IsCluster (started f sqrt row)
  started-IsCluster row = record {
    counted = omega arith;
    cleared = one_if_small row.cleared;
    examples = refl;
  }
    where
      one_if_small : (b : Bool) → one_if b ≤ 1
      one_if_small true = omega arith
      one_if_small false = omega arith

  -- The clusters that are there stay clusters, and the row is counted in one of them.
  place-IsCluster :
      (threshold : f.F) (row : Row f sqrt) (cs : List (ObjectionCluster × List f.F))
      → All IsCluster (clusters_of f sqrt cs)
      → All IsCluster (clusters_of f sqrt (place f sqrt threshold row cs))
  unfolding place
  place-IsCluster threshold row [] h = (started-IsCluster row, tt)
  place-IsCluster threshold row ((c, centroid) ∷ cs) h =
      elim (Bool-cases (like f sqrt threshold row centroid)) [
        | inl e ↦ rw e (joined-IsCluster row c h.0, h.1)
        | inr e ↦ rw e (h.0, place-IsCluster threshold row cs h.1)
      ]

  sum-place :
      (g : ObjectionCluster → ℕ) (n : ℕ) (row : Row f sqrt)
      → ((c : ObjectionCluster) → g (joined f sqrt row c) ≡ g c + n)
      → g (started f sqrt row) ≡ n
      → (threshold : f.F) (cs : List (ObjectionCluster × List f.F))
      → sum_by g (clusters_of f sqrt (place f sqrt threshold row cs))
        ≡ sum_by g (clusters_of f sqrt cs) + n
  unfolding place
  sum-place g n row more one threshold [] = omega (arith, one)
  sum-place g n row more one threshold ((c, centroid) ∷ cs) =
      elim (Bool-cases (like f sqrt threshold row centroid)) [
        | inl e ↦ rw e (omega (arith, more c))
        | inr e ↦ rw e (omega (arith, sum-place g n row more one threshold cs))
      ]

  place_all-IsCluster :
      (threshold : f.F) (rows : List (Row f sqrt)) (cs : List (ObjectionCluster × List f.F))
      → All IsCluster (clusters_of f sqrt cs)
      → All IsCluster (clusters_of f sqrt (place_all f sqrt threshold rows cs))
  unfolding place_all
  place_all-IsCluster threshold [] cs h = h
  place_all-IsCluster threshold (row ∷ rows) cs h =
      place_all-IsCluster threshold rows (place f sqrt threshold row cs)
        (place-IsCluster threshold row cs h)

  count-place_all :
      (threshold : f.F) (rows : List (Row f sqrt)) (cs : List (ObjectionCluster × List f.F))
      → sum_by
          (λ (c : ObjectionCluster). c.count)
          (clusters_of f sqrt (place_all f sqrt threshold rows cs))
        ≡ sum_by (λ (c : ObjectionCluster). c.count) (clusters_of f sqrt cs) + length rows
  unfolding place_all
  count-place_all threshold [] cs = omega arith
  count-place_all threshold (row ∷ rows) cs = omega (
    arith,
    count-place_all threshold rows (place f sqrt threshold row cs),
    sum-place (λ (c : ObjectionCluster). c.count) 1 row (λ c. refl) refl threshold cs,
  )

  cleared-place_all :
      (threshold : f.F) (rows : List (Row f sqrt)) (cs : List (ObjectionCluster × List f.F))
      → sum_by
          (λ (c : ObjectionCluster). c.cleared_count)
          (clusters_of f sqrt (place_all f sqrt threshold rows cs))
        ≡ sum_by (λ (c : ObjectionCluster). c.cleared_count) (clusters_of f sqrt cs)
          + sum_by (λ (row : Row f sqrt). one_if row.cleared) rows
  unfolding place_all
  cleared-place_all threshold [] cs = omega arith
  cleared-place_all threshold (row ∷ rows) cs = omega (
    arith,
    cleared-place_all threshold rows (place f sqrt threshold row cs),
    sum-place (λ (c : ObjectionCluster). c.cleared_count) (one_if row.cleared) row (λ c. refl) refl
        threshold cs,
  )

  length-rows_of : (os : List (Objection f)) → length (rows_of f sqrt os) ≡ length os
  length-rows_of [] = refl
  length-rows_of (o ∷ os) = ap suc (length-rows_of os)

  cleared-rows_of :
      (os : List (Objection f))
      → sum_by (λ (row : Row f sqrt). one_if row.cleared) (rows_of f sqrt os)
        ≡ sum_by (λ (o : Objection f). one_if o.cleared) os
  cleared-rows_of [] = refl
  cleared-rows_of (o ∷ os) = ap (λ n. one_if o.cleared + n) (cleared-rows_of os)

  -- The clusters of a portfolio come from the greatest to the least, the sizes of each agree, and
  -- they account for the portfolio's objections: the counts add up to their number, and the cleared
  -- counts to the number of those that were cleared; whatever is taken for alike.
  pub cluster_objections_lem :
      (threshold : f.F) (pid : ℕ) (calls : List Call) (t : Tables f)
      → let cs = cluster_objections f sqrt threshold pid calls t in
        let os = filter (in_portfolio f sqrt pid calls t.reports) t.objections in
        IsRanked cs
        × All IsCluster cs
        × (sum_by (λ (c : ObjectionCluster). c.count) cs ≡ length os)
        × (sum_by (λ (c : ObjectionCluster). c.cleared_count) cs
            ≡ sum_by (λ (o : Objection f). one_if o.cleared) os)
  unfolding cluster_objections
  cluster_objections_lem threshold pid calls t =
      let os = filter (in_portfolio f sqrt pid calls t.reports) t.objections in
      let placed = clusters_of f sqrt (place_all f sqrt threshold (rows_of f sqrt os) []) in
      (
        by_count-IsRanked placed,
        All-by_count IsCluster placed (place_all-IsCluster threshold (rows_of f sqrt os) [] tt),
        omega (
          arith,
          sum-by_count (λ (c : ObjectionCluster). c.count) placed,
          count-place_all threshold (rows_of f sqrt os) [],
          length-rows_of os,
        ),
        omega (
          arith,
          sum-by_count (λ (c : ObjectionCluster). c.cleared_count) placed,
          cleared-place_all threshold (rows_of f sqrt os) [],
          cleared-rows_of os,
        ),
      )
