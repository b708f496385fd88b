-- ===== src/Ratelimit/Caps/Counter.antt =====
-- Both stores of backend/app/ratelimit/caps.py implement one abstract counter.
use call_audit_supervisor.Common.{
  ℕ, ◌+◌, ◌≡◌, ap, Bool, false, ◌&&◌, some, List, [], ◌∷◌, ltb, ◌==◌, if◌then◌else◌, ◌∙◌,
  Option-cases, inl, inr, arith,
}
use call_audit_supervisor.Ratelimit.Caps.{
  DailyUsage, DailyUsageStore, lookup, insert, or_zero, upsert, postgres_try_increment,
  memory_try_increment, postgres_store, memory_store,
}

abbrev pub same_key : ℕ → ℕ → ℕ → ℕ → Bool
same_key p d p' d' = p == p' && d == d'

-- What a store promises: it counts, for each portfolio and day, the increments that it allowed,
-- and allows one exactly while the count is below the cap.
pub record IsCounter (store : DailyUsageStore) (count : store.State → ℕ → ℕ → ℕ) : Type 0 where
  pub allows :
      (p d cap : ℕ) (s : store.State)
      → (store.try_increment p d cap s).0.allowed ≡ ltb (count s p d) cap
  pub counts :
      (p d cap : ℕ) (s : store.State) (p' d' : ℕ)
      → count (store.try_increment p d cap s).1 p' d'
        ≡ (if same_key p d p' d' && ltb (count s p d) cap then count s p' d' + 1 else count s p' d')

abbrev pub count : List DailyUsage → ℕ → ℕ → ℕ
count t p d = or_zero (lookup p d t)

lookup-insert :
    (p d n p' d' : ℕ) (t : List DailyUsage)
    → lookup p' d' (insert p d n t) ≡ (if same_key p d p' d' then some n else lookup p' d' t)
lookup-insert p d n p' d' [] = ground arith
lookup-insert p d n p' d' (r ∷ t) = ground (arith, lookup-insert p d n p' d' t)

memory_counts :
    (p d cap : ℕ) (s : List DailyUsage) (p' d' : ℕ)
    → count (memory_try_increment p d cap s).1 p' d'
      ≡ (if same_key p d p' d' && ltb (count s p d) cap then count s p' d' + 1 else count s p' d')
unfolding memory_try_increment
memory_counts p d cap s p' d' = ground (arith, lookup-insert p d (count s p d + 1) p' d' s)

-- The in-memory store is a counter.
pub memory_store-IsCounter : IsCounter memory_store count
unfolding memory_try_increment
memory_store-IsCounter = record { allows = λ p d cap s. ground arith; counts = memory_counts }

-- For every cap that is not negative the two stores are the same function: they leave the same rows
-- behind, allow the same requests and show the same numbers. (Without a row the database's shows the
-- cap for a deferred request, which is the number of the other only because the cap is 0 then; a
-- negative cap, which the settings do not exclude, would be shown as it is.)
pub stores_agree :
    (p d cap : ℕ) (t : List DailyUsage)
    → postgres_try_increment p d cap t ≡ memory_try_increment p d cap t
unfolding postgres_try_increment memory_try_increment upsert
stores_agree p d cap t = elim (Option-cases (lookup p d t)) [
  | inl e ↦ rw e (ground arith)
  | inr (n, e) ↦ rw e (ground arith)
]

postgres_counts :
    (p d cap : ℕ) (s : List DailyUsage) (p' d' : ℕ)
    → count (postgres_try_increment p d cap s).1 p' d'
      ≡ (if same_key p d p' d' && ltb (count s p d) cap then count s p' d' + 1 else count s p' d')
postgres_counts p d cap s p' d' = rw (stores_agree p d cap s) (memory_counts p d cap s p' d')

-- So is the database's.
pub postgres_store-IsCounter : IsCounter postgres_store count
postgres_store-IsCounter = record {
  allows = λ p d cap s.
      ap (λ r. r.0.allowed) (stores_agree p d cap s) ∙ memory_store-IsCounter.allows p d cap s;
  counts = postgres_counts;
}

-- A deferred request leaves the table as it is.
pub deferred_unchanged :
    (p d cap : ℕ) (t : List DailyUsage)
    → (postgres_try_increment p d cap t).0.allowed ≡ false
    → (postgres_try_increment p d cap t).1 ≡ t
unfolding postgres_try_increment upsert
deferred_unchanged p d cap t h = ground arith
