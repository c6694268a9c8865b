-- ===== src/Hashing/Laws.antt =====
-- The hash against a polynomial in 33 over the bytes of a key.
use simple_c_database.Hashing.{hash_step, hash_from, hash}
use simple_c_database.Prelude.{
  ℕ, ◌+◌, ◌*◌, ◌%◌, ◌^◌, ◌<◌, ◌≡◌, refl, arith, [], ◌∷◌, ◌==◌, Bool-cases, inl, inr,
}
use simple_c_database.Strings.{Bytes, c_str}

-- The polynomial, with no bound on its value.
abbrev pub horner : ℕ → Bytes → ℕ
horner h [] = h
horner h (c ∷ s) = horner (h * 33 + c) s

hash_step-mod : (h c : ℕ) → hash_step (h % 2 ^ 64) c ≡ (h * 33 + c) % 2 ^ 64
unfolding hash_step
hash_step-mod h c = omega arith

hash_from-horner : (h : ℕ) (s : Bytes) → hash_from (h % 2 ^ 64) s ≡ horner h (c_str s) % 2 ^ 64
unfolding hash_from
hash_from-horner h [] = refl
hash_from-horner h (c ∷ s) = elim (Bool-cases (c == 0)) [
  | inl done ↦ rw done
  | inr more ↦ rw (more, hash_step-mod h c) (hash_from-horner (h * 33 + c) s)
]

-- The hash of a key, wrapped at every step, is the remainder by 2^64 of the polynomial in 33 that
-- starts at 5381 and runs over the bytes of the key before its NUL.
pub hash-horner : (s : Bytes) → hash s ≡ horner 5381 (c_str s) % 2 ^ 64
unfolding hash
hash-horner s = hash_from-horner 5381 s

pub hash-lt : (s : Bytes) → hash s < 2 ^ 64
hash-lt s = rw (hash-horner s) (omega arith)

-- Two pointers to the same string have the same hash.
pub hash-c_str : (s t : Bytes) → c_str s ≡ c_str t → hash s ≡ hash t
hash-c_str s t e = rw (hash-horner s, hash-horner t, e)
