-- ===== src/Common/Texts.antt =====
-- Python's `str` of a non-negative integer, and joining of texts.
use Prim.Native.Nat.{ℕ, zero, suc, ◌/◌, ◌%◌}
use Prim.Native.String.{String, ◌++◌}
use mathlib.Core.List.{List, [], ◌∷◌}
use call_audit_supervisor.Common.Tests.{◌==◌, ltb, if◌then◌else◌}

-- `a + b` on texts.
infixl 64 ◌+++◌
abbrev pub ◌+++◌ : String → String → String
a +++ b = a ++ b

digit : ℕ → String
digit n =
    if n == 0
    then "0"
    else if n == 1
    then "1"
    else if n == 2
    then "2"
    else if n == 3
    then "3"
    else if n == 4
    then "4"
    else if n == 5
    then "5"
    else if n == 6
    then "6"
    else if n == 7
    then "7"
    else if n == 8
    then "8"
    else "9"

decimal_from : ℕ → ℕ → String
unfolding digit
decimal_from zero n = digit n
decimal_from (suc fuel) n =
    let rest = decimal_from fuel (n / 10) in if ltb n 10 then digit n else rest +++ digit (n % 10)

-- `str(n)`; there are no more digits than `n` itself.
unfoldable pub decimal : ℕ → String
unfolding decimal_from
decimal n = decimal_from n n

-- `sep.join(parts)`
pub join : String → List String → String
join sep [] = ""
join sep (x ∷ []) = x
join sep (x ∷ y ∷ xs) = x +++ sep +++ join sep (y ∷ xs)
