-- ===== src/Ratelimit/Caps.antt =====
-- backend/app/ratelimit/caps.py: the daily cap of a portfolio, over the two stores.
-- Instants are microseconds since the epoch, in UTC; a day is its number since the epoch. A cap is
-- a non-negative number. One `try_increment` is one atomic statement of the database.
pub mod Counter
pub mod Reserve
use call_audit_supervisor.Common.{
  ℕ, ◌+◌, ◌-◌, ◌/◌, Bool, true, false, ◌&&◌, not, Option, none, some, List, [], ◌∷◌, ltb, leb, ◌==◌,
  if◌then◌else◌,
}

pub record CapDecision : Type 0 where
  pub allowed : Bool
  pub used : ℕ
  pub cap : ℕ

abbrev pub deferred : CapDecision → Bool
deferred d = not d.allowed

-- `max(0, cap - used)`
unfoldable pub remaining : CapDecision → ℕ
remaining d = d.cap - d.used

-- A row of `daily_usage`; the table has one row for a portfolio and a day.
pub record DailyUsage : Type 0 where
  pub portfolio_id : ℕ
  pub day : ℕ
  pub calls_submitted : ℕ

abbrev pub has_key : ℕ → ℕ → DailyUsage → Bool
has_key pid day r = r.portfolio_id == pid && r.day == day

-- The count that the table holds for a key.
abbrev pub lookup : ℕ → ℕ → List DailyUsage → Option ℕ
lookup pid day [] = none
lookup pid day (r ∷ t) =
    let rest = lookup pid day t in if has_key pid day r then some r.calls_submitted else rest

-- Writes the count of a key, in a new row if there is none.
abbrev pub insert : ℕ → ℕ → ℕ → List DailyUsage → List DailyUsage
insert pid day n [] = record { portfolio_id = pid; day = day; calls_submitted = n } ∷ []
insert pid day n (r ∷ t) =
    let rest = insert pid day n t in
    if has_key pid day r then (record r { calls_submitted = n }) ∷ t else r ∷ rest

-- `dict.get(key, 0)`
abbrev pub or_zero : Option ℕ → ℕ
or_zero none = 0
or_zero (some n) = n

-- The interface of the stores; `DailyUsageStore` of the source.
pub record DailyUsageStore : Type 1 where
  pub State : Type 0
  pub try_increment : ℕ → ℕ → ℕ → State → CapDecision × State

-- `INSERT … SELECT … WHERE :cap > 0 ON CONFLICT … DO UPDATE … WHERE … < :cap RETURNING …`
abbrev conflict : ℕ → ℕ → ℕ → Option ℕ → List DailyUsage → Option ℕ × List DailyUsage
conflict pid day cap none t = (some 1, insert pid day 1 t)
conflict pid day cap (some n) t =
    if ltb n cap then (some (n + 1), insert pid day (n + 1) t) else (none, t)

unfoldable pub upsert : ℕ → ℕ → ℕ → List DailyUsage → Option ℕ × List DailyUsage
upsert pid day cap t = if ltb 0 cap then conflict pid day cap (lookup pid day t) t else (none, t)

-- The number that a deferred decision shows: the row's, or the cap if there is none.
abbrev or_cap : ℕ → Option ℕ → ℕ
or_cap cap none = cap
or_cap cap (some n) = n

abbrev decision : ℕ → ℕ → ℕ → Option ℕ × List DailyUsage → CapDecision × List DailyUsage
decision pid day cap (some n, t) = (record { allowed = true; used = n; cap = cap }, t)
decision pid day cap (none, t) =
    (record { allowed = false; used = or_cap cap (lookup pid day t); cap = cap }, t)

-- `PostgresDailyUsageStore.try_increment`
unfoldable pub postgres_try_increment : ℕ → ℕ → ℕ → List DailyUsage → CapDecision × List DailyUsage
unfolding upsert
postgres_try_increment pid day cap t = decision pid day cap (upsert pid day cap t)

-- `InMemoryDailyUsageStore.try_increment`
unfoldable pub memory_try_increment : ℕ → ℕ → ℕ → List DailyUsage → CapDecision × List DailyUsage
memory_try_increment pid day cap t =
    let used = or_zero (lookup pid day t) in
    if leb cap used
    then (record { allowed = false; used = used; cap = cap }, t)
    else (record { allowed = true; used = used + 1; cap = cap }, insert pid day (used + 1) t)

abbrev pub postgres_store : DailyUsageStore
postgres_store = record { State = List DailyUsage; try_increment = postgres_try_increment }

abbrev pub memory_store : DailyUsageStore
memory_store = record { State = List DailyUsage; try_increment = memory_try_increment }

abbrev pub micros_per_day : ℕ
micros_per_day = 86400000000

-- `now.date()` in UTC
abbrev pub day_of : ℕ → ℕ
day_of now = now / micros_per_day

-- `DailyCap.check_and_reserve`
unfoldable pub check_and_reserve :
    (store : DailyUsageStore) → ℕ → ℕ → ℕ → store.State → CapDecision × store.State
check_and_reserve store cap now pid s = store.try_increment pid (day_of now) cap s
