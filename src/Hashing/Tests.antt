-- ===== src/Hashing/Tests.antt =====
-- The hash of short keys, and the theorems at them.
use simple_c_database.Hashing.Laws.{horner, hash-horner}
use simple_c_database.Hashing.{hash_step, hash_from, hash}
use simple_c_database.Prelude.{◌%◌, ◌^◌, ◌≡◌, refl, [], ◌∷◌}
use simple_c_database.Strings.{c_str}

hash-ab : hash (b'a' ∷ b'b' ∷ 0 ∷ b'c' ∷ []) ≡ 5863208
unfolding hash_step hash_from hash
hash-ab = refl

hash-horner_example :
    hash (b'a' ∷ 0 ∷ b'c' ∷ []) ≡ horner 5381 (c_str (b'a' ∷ 0 ∷ b'c' ∷ [])) % 2 ^ 64
hash-horner_example = hash-horner (b'a' ∷ 0 ∷ b'c' ∷ [])
