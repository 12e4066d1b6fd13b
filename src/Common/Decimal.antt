-- ===== src/Common/Decimal.antt =====
-- `Display` of a u64: its decimal digits, of which there are at most twenty.
use Prim.Native.Nat.{ℕ, zero, suc, ◌/◌, ◌%◌}
use Prim.Native.String
use Prim.Native.String.{String}
use mathlib.Core.Path.{◌≡◌, refl}
use research_agent_system.Common.Tests.{if◌then◌else◌, ◌==◌, nat_eq}

digit : ℕ → String
digit d =
    if d == 0
    then "0"
    else if d == 1
    then "1"
    else if d == 2
    then "2"
    else if d == 3
    then "3"
    else if d == 4
    then "4"
    else if d == 5
    then "5"
    else if d == 6
    then "6"
    else if d == 7
    then "7"
    else if d == 8
    then "8"
    else "9"

decimal_from : ℕ → ℕ → String → String
unfolding digit
decimal_from zero n later = later
decimal_from (suc fuel) n later =
    let rest = decimal_from fuel (n / 10) (String.◌++◌ (digit (n % 10)) later) in
    if n / 10 == 0 then String.◌++◌ (digit (n % 10)) later else rest

unfoldable pub decimal : ℕ → String
unfolding decimal_from
decimal n = decimal_from 20 n ""

decimal_u64_max : decimal 18446744073709551615 ≡ "18446744073709551615"
unfolding decimal
decimal_u64_max = refl
