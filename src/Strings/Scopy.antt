-- ===== src/Strings/Scopy.antt =====
-- `strscpy` of string_functionality.c.
use simple_c_database.Prelude.{
  ℕ, zero, suc, ◌+◌, ◌-◌, ◌^◌, ◌≤◌, ◌<◌, ◌≡◌, inl, inr, refl, ap, arith, false, Option, none, some,
  [], ◌∷◌, ◌++◌, ℤ, pos, neg, length, take, drop, set, ltb, ◌==◌, if◌then◌else◌, Bool-cases,
}
use simple_c_database.Strings.{Bytes, head_byte, tail_bytes, c_str}

abbrev pub ssize_max : ℕ
ssize_max = 2 ^ 63 - 1

-- A byte is written before the rest.
abbrev pub wrote_byte : ℕ → Option (Option ℕ × Bytes) → Option (Option ℕ × Bytes)
wrote_byte c none = none
wrote_byte c (some (stop, d)) = some (stop, c ∷ d)

-- The loop from index `i` on, with `left` = n - i, on the bytes of `d` and `s` from there: the index at
-- which it copied a NUL, if it did, and the bytes of `d`. `none` is a write past the end of `d`.
unfoldable pub strscpy_loop : ℕ → ℕ → Bytes → Bytes → Option (Option ℕ × Bytes)
strscpy_loop zero i d s = some (none, d)
strscpy_loop (suc left) i [] s = none
strscpy_loop (suc left) i (x ∷ d) s =
    let rest = strscpy_loop left (i + 1) d (tail_bytes s) in
    if head_byte s == 0 then some (some i, 0 ∷ d) else wrote_byte (head_byte s) rest

unfoldable pub strscpy : Bytes → Bytes → ℕ → Option (ℤ × Bytes)
strscpy d s n = elim (strscpy_loop n 0 d s) [
  | none ↦ none
  | some (some i, d') ↦ some (if ltb ssize_max i then neg 1 else pos i, d')
  | some (none, d') ↦ if n == 0 then some (pos 0, d') else some (neg 1, set d' (n - 1) 0)
]

first_nul :
    (i : ℕ) (d : Bytes)
    → ◌≡◌ {A = Option (Option ℕ × Bytes)} (some (some i, 0 ∷ d)) (some (some (i + 0), 0 ∷ d))
first_nul i d =
    let e : i ≡ i + 0 = omega arith in
    ap {B = Option (Option ℕ × Bytes)} (λ j. some (some j, 0 ∷ d)) e

strscpy_loop-whole :
    (left i : ℕ) (d s : Bytes)
    → length (c_str s) < left
    → left ≤ length d
    → strscpy_loop left i d s
      ≡ some (some (i + length (c_str s)), c_str s ++ 0 ∷ drop (length (c_str s) + 1) d)
unfolding strscpy_loop
strscpy_loop-whole zero i d s short fits = absurd (omega arith)
strscpy_loop-whole (suc left) i [] s short fits = absurd (omega arith)
strscpy_loop-whole (suc left) i (x ∷ d) [] short fits = first_nul i d
strscpy_loop-whole (suc left) i (x ∷ d) (c ∷ s) short fits = elim (Bool-cases (c == 0)) [
  | inl nul ↦ rw nul (first_nul i d)
  | inr other ↦
      let later = strscpy_loop-whole left (i + 1) d s (ground arith) (omega arith) in
      let index : i + 1 + length (c_str s) ≡ i + suc (length (c_str s)) = omega arith in
      let skip : suc (length (c_str s) + 1) ≡ suc (length (c_str s)) + 1 = omega arith in
      rw (other, later, index, ← skip) refl
]

strscpy_loop-cut :
    (left i : ℕ) (d s : Bytes)
    → left ≤ length (c_str s)
    → left ≤ length d
    → strscpy_loop left i d s ≡ some (none, take left (c_str s) ++ drop left d)
unfolding strscpy_loop
strscpy_loop-cut zero i d s long fits = refl
strscpy_loop-cut (suc left) i [] s long fits = absurd (omega arith)
strscpy_loop-cut (suc left) i (x ∷ d) [] long fits = absurd (omega arith)
strscpy_loop-cut (suc left) i (x ∷ d) (c ∷ s) long fits = elim (Bool-cases (c == 0)) [
  | inl nul ↦ absurd (ground arith)
  | inr other ↦ rw (other, strscpy_loop-cut left (i + 1) d s (ground arith) (omega arith)) refl
]

set-last :
    (n : ℕ) (xs d : Bytes) (x : ℕ)
    → n < length xs
    → set (take (suc n) xs ++ d) n x ≡ take n xs ++ x ∷ d
set-last n [] d x h = absurd (omega arith)
set-last zero (y ∷ xs) d x h = refl
set-last (suc n) (y ∷ xs) d x h = ap (λ (zs : Bytes). y ∷ zs) (set-last n xs d x (omega arith))

-- Into a buffer of at least n bytes, for n of at most 2^63, `strscpy` writes no byte past the first n, and
-- keeps those after what it wrote. Where the string at `s` has fewer than n bytes, it copies them and a NUL
-- and returns their number; where it has n or more and n is not 0, it copies n - 1 of them and a NUL and
-- returns -1; and where n is 0, it writes nothing and returns 0.
pub strscpy_lem :
    (d s : Bytes) (n : ℕ)
    → n ≤ length d
    → n ≤ 2 ^ 63
    → (length (c_str s) < n
        → strscpy d s n
          ≡ some (pos (length (c_str s)), c_str s ++ 0 ∷ drop (length (c_str s) + 1) d))
      × (0 < n
          → n ≤ length (c_str s)
          → strscpy d s n ≡ some (neg 1, take (n - 1) (c_str s) ++ 0 ∷ drop n d))
      × (n ≡ 0 → strscpy d s n ≡ some (pos 0, d))
unfolding strscpy
strscpy_lem d s zero fits small =
    (λ lt. absurd (omega arith), λ lt _. absurd (omega arith), λ _. unfold strscpy_loop in refl)
strscpy_lem d s (suc n) fits small = (
  λ short.
      let start : 0 + length (c_str s) ≡ length (c_str s) = omega arith in
      let in_range : ltb ssize_max (length (c_str s)) ≡ false = ground arith in
      rw (strscpy_loop-whole (suc n) 0 d s short fits, strscpy) (rw (start, in_range) refl),
  λ _ long.
      let some_asked : (suc n == 0) ≡ false = ground arith in
      let last : suc n - 1 ≡ n = omega arith in
      rw (strscpy_loop-cut (suc n) 0 d s long fits, strscpy)
        (rw (some_asked, last, set-last n (c_str s) (drop (suc n) d) 0 (omega arith)) refl),
  λ none_asked. absurd (omega arith),
)
