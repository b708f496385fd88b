-- ===== src/Ratelimit/Caps/Reserve.antt =====
-- `DailyCap.check_and_reserve` over any store that is a counter: how many calls a day admits.
use call_audit_supervisor.Common.{ℕ, ◌+◌, ◌≤◌, ◌≡◌, List, [], ◌∷◌, if◌then◌else◌, min, arith}
use call_audit_supervisor.Ratelimit.Caps.{DailyUsageStore, check_and_reserve, day_of}
use call_audit_supervisor.Ratelimit.Caps.Counter.{IsCounter, same_key}

-- The requests of the workers, in the order in which the database took them: when, and for which
-- portfolio.
abbrev pub Request : Type 0
Request = ℕ × ℕ

module _ (store : DailyUsageStore) (count : store.State → ℕ → ℕ → ℕ)
    (counter : IsCounter store count) (cap : ℕ) where
  pub reserve_all : List Request → store.State → store.State
  reserve_all [] s = s
  reserve_all ((now, pid) ∷ rs) s = reserve_all rs (check_and_reserve store cap now pid s).1

  -- The requests for one portfolio on one day.
  abbrev pub asked : ℕ → ℕ → List Request → ℕ
  asked p d [] = 0
  asked p d ((now, pid) ∷ rs) =
      let rest = asked p d rs in if same_key pid (day_of now) p d then rest + 1 else rest

  -- Whatever the other portfolios ask for, in whatever order, a day admits the calls asked for up
  -- to the cap and none beyond it.
  pub reserve_all_exact :
      (rs : List Request) (s : store.State) (p d : ℕ)
      → count s p d ≤ cap
      → count (reserve_all rs s) p d ≡ min cap (count s p d + asked p d rs)
  unfolding reserve_all check_and_reserve
  reserve_all_exact [] s p d h = omega arith
  reserve_all_exact ((now, pid) ∷ rs) s p d h =
      let s' = (store.try_increment pid (day_of now) cap s).1 in
      let after = counter.counts pid (day_of now) cap s p d in
      let ih = reserve_all_exact rs s' p d in ground (arith, after, ih)
