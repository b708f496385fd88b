-- ===== src/Judge/Scope.antt =====
-- backend/app/judge/scope.py: which of the bound rows of a configuration applies to a call.
use mathlib.Core.List.{Memᴰ}
use mathlib.Core.List.Memᴰ.{head, tail}
use mathlib.Core.Path.{subst}
use mathlib.Core.Logic.{◌↔◌}
use call_audit_supervisor.Common.{
  ℕ, ◌≤◌, ◌<◌, ◌≡◌, refl, ◌⊎◌, inl, inr, Bool, false, Option, none, some, List, [], ◌∷◌, All, ltb,
  ◌==◌, Bool-cases, All-map, sym, if◌then◌else◌, arith,
}

-- The two columns that bind a row; the rest of it is `payload`.
pub record Scoped (A : Type 0) : Type 0 where
  pub portfolio_id : Option ℕ
  pub agent_id : Option ℕ
  pub payload : A

-- `x == y` for an id and an id that may be `None`
abbrev pub equals_id : ℕ → Option ℕ → Bool
equals_id x none = false
equals_id x (some y) = x == y

abbrev pub folder : ℕ
folder = 3

abbrev pub portfolio : ℕ
portfolio = 2

abbrev pub global : ℕ
global = 1

abbrev rank_of : Option ℕ → Option ℕ → Option ℕ → Option ℕ → ℕ
rank_of (some a) p portfolio_id agent_id = if equals_id a agent_id then folder else 0
rank_of none (some p) portfolio_id agent_id = if equals_id p portfolio_id then portfolio else 0
rank_of none none portfolio_id agent_id = global

module _ {A : Type 0} where
  unfoldable pub rank : Scoped A → Option ℕ → Option ℕ → ℕ
  rank row portfolio_id agent_id = rank_of row.agent_id row.portfolio_id portfolio_id agent_id

module _ {A : Type 0} (portfolio_id agent_id : Option ℕ) where
  -- The loop, with the best row so far and its rank.
  abbrev better : List (Scoped A) → Option (Scoped A) → ℕ → Option (Scoped A)
  better [] best best_rank = best
  better (row ∷ rows) best best_rank =
      let yes = better rows (some row) (rank row portfolio_id agent_id) in
      let no = better rows best best_rank in
      if ltb best_rank (rank row portfolio_id agent_id) then yes else no

  unfoldable pub resolve_scoped : List (Scoped A) → Option (Scoped A)
  resolve_scoped rows = better rows none 0

  -- `best` is a row of the given rows, or the start's, that applies to the call and that no row
  -- outranks; or there is none and no row applies.
  abbrev pub IsBest : List (Scoped A) → Option (Scoped A) → Type 0
  IsBest rows none = All (λ row. rank row portfolio_id agent_id ≡ 0) rows
  IsBest rows (some best) =
      Memᴰ best rows
      × (0 < rank best portfolio_id agent_id)
      × All (λ row. rank row portfolio_id agent_id ≤ rank best portfolio_id agent_id) rows

  abbrev rank_or_zero : Option (Scoped A) → ℕ
  rank_or_zero none = 0
  rank_or_zero (some row) = rank row portfolio_id agent_id

  -- The loop's result is the start or a row; it outranks the start, and no row outranks it.
  record Found (rows : List (Scoped A)) (best : Option (Scoped A)) (r : Option (Scoped A))
      : Type 0 where
    pub from :
        (r ≡ best)
        ⊎ ((row : Scoped A) × (r ≡ some row) × Memᴰ row rows × (0 < rank row portfolio_id agent_id))
    pub over : rank_or_zero best ≤ rank_or_zero r
    pub above : All (λ row. rank row portfolio_id agent_id ≤ rank_or_zero r) rows

  better_lem :
      (rows : List (Scoped A)) (best : Option (Scoped A))
      → Found rows best (better rows best (rank_or_zero best))
  better_lem [] best = record { from = inl refl; over = omega arith; above = tt }
  better_lem (row ∷ rows) best =
      elim (Bool-cases (ltb (rank_or_zero best) (rank row portfolio_id agent_id))) [
        | inl e ↦
            let found = better_lem rows (some row) in
            rw e (record {
              from = elim found.from [
                | inl q ↦ inr (row, q, head refl, ground arith)
                | inr (b, q, m, pos) ↦ inr (b, q, tail m, pos)
              ];
              over = ground (arith, found.over);
              above = (found.over, found.above);
            })
        | inr e ↦
            let found = better_lem rows best in
            rw e (record {
              from = elim found.from [
                | inl q ↦ inl q
                | inr (b, q, m, pos) ↦ inr (b, q, tail m, pos)
              ];
              over = found.over;
              above = (ground (arith, found.over), found.above);
            })
      ]

  IsBest-of : (rows : List (Scoped A)) (r : Option (Scoped A)) → Found rows none r → IsBest rows r
  IsBest-of rows none found = All-map _ _ rows (λ row h. ground (arith, h)) found.above
  IsBest-of rows (some b) found = elim found.from [
    | inl q ↦ cc
    | inr (row, q, m, pos) ↦ subst (IsBest rows) (sym q) (
      m,
      pos,
      All-map _ _ rows (λ x h. subst (λ z. rank x portfolio_id agent_id ≤ rank_or_zero z) q h)
          found.above,
    )
  ]

  -- The chosen row is one of the rows, applies to the call, and no row that applies is more
  -- specific: folder before portfolio before global. Without a chosen row none applies.
  pub resolve_scoped_lem : (rows : List (Scoped A)) → IsBest rows (resolve_scoped rows)
  unfolding resolve_scoped
  resolve_scoped_lem rows = IsBest-of rows (resolve_scoped rows) (better_lem rows none)

  -- A row that applies belongs to the call: it is bound to its folder or to no folder, and in the
  -- second case to its portfolio or to none.
  pub applies_lem :
      (row : Scoped A)
      → (0 < rank row portfolio_id agent_id) ↔ (
          ((a : ℕ) × (row.agent_id ≡ some a) × (agent_id ≡ some a))
          ⊎ ((row.agent_id ≡ none)
              × (((p : ℕ) × (row.portfolio_id ≡ some p) × (portfolio_id ≡ some p))
                  ⊎ (row.portfolio_id ≡ none))))
  unfolding rank
  applies_lem row = grind arith
