-- ===== src/Strings/Length.antt =====
-- `ustrlen` against the string that a pointer denotes.
use simple_c_database.Prelude.{ℕ, ◌+◌, ◌≡◌, arith, some, [], ◌∷◌, length}
use simple_c_database.Strings.{Bytes, c_str, ustrlen_from, ustrlen}

ustrlen_from-c_str : (s : Bytes) (n : ℕ) → ustrlen_from s n ≡ n + length (c_str s)
unfolding ustrlen_from
ustrlen_from-c_str [] n = omega arith
ustrlen_from-c_str (c ∷ s) n = ground (arith, ustrlen_from-c_str s (n + 1))

-- `ustrlen` counts the bytes before the first NUL.
pub ustrlen-c_str : (s : Bytes) → ustrlen (some s) ≡ length (c_str s)
unfolding ustrlen
ustrlen-c_str s = omega (arith, ustrlen_from-c_str s 0)
