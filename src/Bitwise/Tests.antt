-- ===== src/Bitwise/Tests.antt =====
-- `next_power_of_2` at small numbers, and the theorems at them.
use simple_c_database.Bitwise.Power.{next_power_of_2_least}
use simple_c_database.Bitwise.{smear, next_power_of_2}
use simple_c_database.Prelude.{ℕ, ◌^◌, ◌≤◌, ◌≡◌, refl, arith}

next_power_of_2-5 : next_power_of_2 5 ≡ 8
unfolding smear next_power_of_2
next_power_of_2-5 = refl

next_power_of_2-0 : next_power_of_2 0 ≡ 1
unfolding next_power_of_2
next_power_of_2-0 = refl

next_power_of_2_least_example :
    (k : ℕ) × (next_power_of_2 5 ≡ 2 ^ k) × (k ≤ 63) × (5 ≤ 2 ^ k) × ((j : ℕ) → 5 ≤ 2 ^ j → k ≤ j)
next_power_of_2_least_example = next_power_of_2_least 5 (omega arith) (omega arith)
