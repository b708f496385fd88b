-- ===== src/Judge/Clustering.antt =====
-- backend/app/judge/clustering.py: the objections of a portfolio, gathered by likeness.
pub mod Counts
use call_audit_supervisor.Common.Float.{FloatOps}
use call_audit_supervisor.Common.{
  ℕ, suc, ◌+◌, Bool, true, false, ◌&&◌, Option, none, some, List, [], ◌∷◌, ◌++◌, String, filter,
  any, length, ltb, leb, ◌==◌, if◌then◌else◌,
}
use call_audit_supervisor.Common.Codes.{is_empty}
use call_audit_supervisor.Judge.Tables.{Report, Objection, Tables}
use call_audit_supervisor.Orchestration.World.{Call}

pub record ObjectionCluster : Type 0 where
  pub representative_text : String
  pub count : ℕ
  pub cleared_count : ℕ
  pub examples : List String

abbrev pub never_cleared : ObjectionCluster → Bool
never_cleared c = c.cleared_count == 0

abbrev pub one_if : Bool → ℕ
one_if true = 1
one_if false = 0

-- `sort(key=count, reverse=True)`, which is stable.
abbrev pub insert : ObjectionCluster → List ObjectionCluster → List ObjectionCluster
insert c [] = c ∷ []
insert c (d ∷ ds) = let rest = insert c ds in if leb d.count c.count then c ∷ d ∷ ds else d ∷ rest

abbrev pub by_count : List ObjectionCluster → List ObjectionCluster
by_count [] = []
by_count (c ∷ cs) = insert c (by_count cs)

-- `math.sqrt` is a parameter.
module _ (f : FloatOps) (sqrt : f.F → f.F) where
  open f use {F, of_nat, add, mul, div, le}

  abbrev products : List F → List F → List F
  products [] bs = []
  products (a ∷ xs) [] = []
  products (a ∷ xs) (b ∷ bs) = mul a b ∷ products xs bs

  abbrev sum_from : F → List F → F
  sum_from acc [] = acc
  sum_from acc (x ∷ xs) = sum_from (add acc x) xs

  -- `sum(x * y for x, y in zip(a, b, strict=False))`
  abbrev dot : List F → List F → F
  dot a b = sum_from (of_nat 0) (products a b)

  -- `x == 0`
  abbrev is_zero : F → Bool
  is_zero x = le x (of_nat 0) && le (of_nat 0) x

  unfoldable pub cosine : List F → List F → F
  cosine a b =
      let na = sqrt (dot a a) in
      let nb = sqrt (dot b b) in
      if is_zero na then of_nat 0 else if is_zero nb then of_nat 0 else div (dot a b) (mul na nb)

  pub record Row : Type 0 where
    pub text : String
    pub cleared : Bool
    pub vector : List F

  abbrev like : F → Row → List F → Bool
  like threshold row centroid =
      if is_empty row.vector then false else le threshold (cosine row.vector centroid)

  -- Three examples are kept.
  abbrev with_example : String → List String → List String
  with_example text xs = if ltb (length xs) 3 then xs ++ text ∷ [] else xs

  abbrev pub joined : Row → ObjectionCluster → ObjectionCluster
  joined row c = record c {
    count = c.count + 1;
    cleared_count = c.cleared_count + one_if row.cleared;
    examples = with_example row.text c.examples;
  }

  abbrev pub started : Row → ObjectionCluster
  started row = record {
    representative_text = row.text;
    count = 1;
    cleared_count = one_if row.cleared;
    examples = row.text ∷ [];
  }

  -- The first cluster whose centroid is like the row takes it; without one the row starts its own.
  -- A cluster stands beside its centroid.
  unfoldable pub place :
      F → Row → List (ObjectionCluster × List F) → List (ObjectionCluster × List F)
  unfolding cosine
  place threshold row [] = (started row, row.vector) ∷ []
  place threshold row ((c, centroid) ∷ cs) =
      let rest = place threshold row cs in
      if like threshold row centroid then (joined row c, centroid) ∷ cs else (c, centroid) ∷ rest

  unfoldable pub place_all :
      F → List Row → List (ObjectionCluster × List F) → List (ObjectionCluster × List F)
  unfolding place
  place_all threshold [] cs = cs
  place_all threshold (row ∷ rows) cs = place_all threshold rows (place threshold row cs)

  abbrev pub clusters_of : List (ObjectionCluster × List F) → List ObjectionCluster
  clusters_of [] = []
  clusters_of ((c, centroid) ∷ cs) = c ∷ clusters_of cs

  abbrev vector_of : Option (List F) → List F
  vector_of none = []
  vector_of (some v) = v

  abbrev row_of : Objection f → Row
  row_of o = record { text = o.text; cleared = o.cleared; vector = vector_of o.embedding }

  abbrev rows_of : List (Objection f) → List Row
  rows_of [] = []
  rows_of (o ∷ os) = row_of o ∷ rows_of os

  -- The objections of the portfolio, by the report and the call that they belong to.
  unfoldable pub in_portfolio : ℕ → List Call → List (Report f) → Objection f → Bool
  in_portfolio pid calls reports o =
      any
        (λ (r : Report f).
          r.id == o.report_id
          && any (λ (c : Call). c.id == r.call_id && c.portfolio_id == pid) calls)
        reports

  unfoldable pub cluster_objections : F → ℕ → List Call → Tables f → List ObjectionCluster
  unfolding place_all in_portfolio
  cluster_objections threshold pid calls t = by_count (
      clusters_of
        (place_all threshold (rows_of (filter (in_portfolio pid calls t.reports) t.objections)) []))
