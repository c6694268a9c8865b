-- ===== src/Hashing.antt =====
-- hashing_functionality.c: the hash of a key, on a 64-bit `unsigned long`.
pub mod Laws
mod Tests
use simple_c_database.Prelude.{ℕ, ◌+◌, ◌*◌, ◌%◌, ◌^◌, [], ◌∷◌, ◌==◌, if◌then◌else◌}
use simple_c_database.Strings.{Bytes}

abbrev pub hash_seed : ℕ
hash_seed = 5381

-- The body of the loop: `hash << 5` drops the bits above the word, and so do both sums.
unfoldable pub hash_step : ℕ → ℕ → ℕ
hash_step h c = ((h * 2 ^ 5 % 2 ^ 64 + h) % 2 ^ 64 + c) % 2 ^ 64

unfoldable pub hash_from : ℕ → Bytes → ℕ
unfolding hash_step
hash_from h [] = h
hash_from h (c ∷ s) = let rest = hash_from (hash_step h c) s in if c == 0 then h else rest

unfoldable pub hash : Bytes → ℕ
unfolding hash_from
hash str = hash_from hash_seed str
