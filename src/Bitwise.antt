-- ===== src/Bitwise.antt =====
-- bitwise_functionality.c: `next_power_of_2` on a 64-bit `size_t`.
pub mod Power
mod Tests
use simple_c_database.Prelude.{ℕ, ◌+◌, ◌-◌, ◌/◌, ◌%◌, ◌^◌, bit_or, ◌==◌, if◌then◌else◌}

-- `n |= n >> k`
unfoldable pub smear : ℕ → ℕ → ℕ
smear k n = bit_or n (n / 2 ^ k)

-- The branch for x86_64 is taken, so the shift by 32 is there.
unfoldable pub next_power_of_2 : ℕ → ℕ
next_power_of_2 n =
    if n == 0
    then 1
    else (smear 32 (smear 16 (smear 8 (smear 4 (smear 2 (smear 1 (n - 1)))))) + 1) % 2 ^ 64
