-- ===== src/Bits.antt =====
-- Facts about `&` and `|` at variables: one equation for the lowest binary digit of each, and what
-- follows from it for masks, for disjoint fields and for powers of two.
use Prim.Native.Nat.{digits, bitwise, bit_and-bitwise, bit_or-bitwise}
use native.Mathlib.Nat.{pow-suc, one-le-pow, le_refl, mod_self}
use simple_c_database.Prelude.{
  ℕ, zero, suc, ◌+◌, ◌-◌, ◌*◌, ◌/◌, ◌%◌, ◌^◌, ◌≤◌, ◌<◌, ◌≡◌, bit_and, bit_or, min, max, refl, ap,
  arith, ◌⊎◌, inl, inr, ◌∙◌,
}

-- The digit recursion does not depend on its fuel.
module _ (z : ℕ → ℕ) (f : ℕ → ℕ → ℕ) where
  enough_digits : (n m a b : ℕ) → a ≤ n → a ≤ m → digits z f n a b ≡ digits z f m a b
  enough_digits zero zero a b p q = refl
  enough_digits zero (suc m) zero b p q = refl
  enough_digits zero (suc m) (suc a) b p q = absurd (omega arith)
  enough_digits (suc n) zero zero b p q = refl
  enough_digits (suc n) zero (suc a) b p q = absurd (omega arith)
  enough_digits (suc n) (suc m) zero b p q = refl
  enough_digits (suc n) (suc m) (suc a) b p q =
      rw (enough_digits n m (suc a / 2) (b / 2) (omega arith) (omega arith))

  low_digit :
      (a b : ℕ)
      → bitwise z f (suc a) b ≡ bitwise z f (suc a / 2) (b / 2) * 2 + f (suc a % 2) (b % 2)
  low_digit a b =
      omega (arith, enough_digits a (suc a / 2) (suc a / 2) (b / 2) (omega arith) (le_refl _))

pub bit_or_digit : (a b : ℕ) → bit_or a b ≡ bit_or (a / 2) (b / 2) * 2 + max (a % 2) (b % 2)
bit_or_digit zero b = simp bit_or-bitwise (omega arith)
bit_or_digit (suc a) b = simp bit_or-bitwise (low_digit (λ y. y) max a b)

pub bit_and_digit : (a b : ℕ) → bit_and a b ≡ bit_and (a / 2) (b / 2) * 2 + min (a % 2) (b % 2)
bit_and_digit zero b = simp bit_and-bitwise (omega arith)
bit_and_digit (suc a) b = simp bit_and-bitwise (low_digit (λ y. 0) min a b)

-- Each of the following recurs on the number of digits.
bit_and-zero_width : (w a : ℕ) → a ≤ w → bit_and a 0 ≡ 0
bit_and-zero_width w zero h = refl
bit_and-zero_width zero (suc a) h = absurd (omega arith)
bit_and-zero_width (suc w) (suc a) h =
    omega (arith, bit_and_digit (suc a) 0, bit_and-zero_width w (suc a / 2) (omega arith))

bit_and_self_width : (w a : ℕ) → a ≤ w → bit_and a a ≡ a
bit_and_self_width w zero h = refl
bit_and_self_width zero (suc a) h = absurd (omega arith)
bit_and_self_width (suc w) (suc a) h =
    omega (arith, bit_and_digit (suc a) (suc a), bit_and_self_width w (suc a / 2) (omega arith))

two_pow_suc : (k : ℕ) → 2 ^ suc k ≡ 2 * 2 ^ k
two_pow_suc k = omega (arith, pow-suc 2 k)

half_ones : (k : ℕ) → (2 ^ suc k - 1) / 2 ≡ 2 ^ k - 1
half_ones k = omega (arith, pow-suc 2 k)

-- The remainder by an even number, from the digits.
mod_even : (a p : ℕ) → 0 < p → a % (2 * p) ≡ a / 2 % p * 2 + a % 2
mod_even a p h = grind arith

-- A mask of `k` ones leaves the remainder by `2 ^ k`.
pub bit_and_ones : (k a : ℕ) → bit_and a (2 ^ k - 1) ≡ a % 2 ^ k
bit_and_ones zero a = omega (arith, bit_and-zero_width a a (le_refl a))
bit_and_ones (suc k) a = omega (
  arith,
  bit_and_digit a (2 ^ suc k - 1),
  two_pow_suc k,
  one-le-pow k 2,
  bit_and_ones k (a / 2),
  ap (λ (t : ℕ). bit_and (a / 2) t) (half_ones k),
  mod_even a (2 ^ k) (one-le-pow k 2 (omega arith)),
  ap (λ (t : ℕ). a % t) (two_pow_suc k),
)

pub bit_or-lt : (k a b : ℕ) → a < 2 ^ k → b < 2 ^ k → bit_or a b < 2 ^ k
bit_or-lt zero zero zero p q = omega (arith, bit_or_digit 0 0)
bit_or-lt zero (suc a) b p q = absurd (omega arith)
bit_or-lt zero zero (suc b) p q = absurd (omega arith)
bit_or-lt (suc k) a b p q = omega (
  arith,
  bit_or_digit a b,
  pow-suc 2 k,
  bit_or-lt k (a / 2) (b / 2) (omega (arith, pow-suc 2 k)) (omega (arith, pow-suc 2 k)),
)

le-bit_or_width : (w a b : ℕ) → b ≤ w → b ≤ bit_or a b
le-bit_or_width w a zero h = omega arith
le-bit_or_width zero a (suc b) h = absurd (omega arith)
le-bit_or_width (suc w) a (suc b) h =
    omega (arith, bit_or_digit a (suc b), le-bit_or_width w (a / 2) (suc b / 2) (omega arith))

pub le-bit_or : (a b : ℕ) → b ≤ bit_or a b
le-bit_or a b = le-bit_or_width b a b (le_refl b)

bit_or-zero : (w a : ℕ) → a ≤ w → bit_or a 0 ≡ a
bit_or-zero w zero h = refl
bit_or-zero zero (suc a) h = absurd (omega arith)
bit_or-zero (suc w) (suc a) h =
    omega (arith, bit_or_digit (suc a) 0, bit_or-zero w (suc a / 2) (omega arith))

-- The digits from `k` on are kept where the other operand is below `2 ^ k`.
pub bit_or-high :
    (k q r y : ℕ) → r < 2 ^ k → y < 2 ^ k → bit_or (q * 2 ^ k + r) y ≡ q * 2 ^ k + bit_or r y
bit_or-high zero q zero zero p h =
    let e : q * 2 ^ 0 + 0 ≡ q = omega arith in rw e (omega (arith, bit_or-zero q q (le_refl q)))
bit_or-high zero q (suc r) y p h = absurd (omega arith)
bit_or-high zero q zero (suc y) p h = absurd (omega arith)
bit_or-high (suc k) q r y p h =
    let e : q * 2 ^ suc k ≡ 2 * (q * 2 ^ k) = omega (arith, ap (λ (t : ℕ). q * t) (pow-suc 2 k)) in
    ground (
      arith,
      bit_or_digit (q * 2 ^ suc k + r) y,
      bit_or_digit r y,
      e,
      pow-suc 2 k,
      bit_or-high k q (r / 2) (y / 2),
    )

Nat-cases : (n : ℕ) → (n ≡ 0) ⊎ (0 < n)
Nat-cases n = omega arith

-- `c & (c - 1)` is 0 at powers of two alone.
one_bit_width : (w c : ℕ) → 0 < c → c ≤ w → bit_and c (c - 1) ≡ 0 → (k : ℕ) × (c ≡ 2 ^ k)
one_bit_width zero c p h e = absurd (omega arith)
one_bit_width (suc w) c p h e = elim (Nat-cases (c % 2)) [
  | inl even ↦
      let halves : (c - 1) / 2 ≡ c / 2 - 1 = omega arith in
      let (k, half) =
        one_bit_width w (c / 2) (omega arith) (omega arith)
          (omega (arith, bit_and_digit c (c - 1), ap (λ (t : ℕ). bit_and (c / 2) t) halves)) in
      (suc k, omega (arith, two_pow_suc k))
  | inr odd ↦
      let halves : (c - 1) / 2 ≡ c / 2 = omega arith in
      (
        0,
        omega (
          arith,
          bit_and_digit c (c - 1),
          ap (λ (t : ℕ). bit_and (c / 2) t) halves,
          bit_and_self_width (c / 2) (c / 2) (le_refl _),
        ),
      )
]

pub one_bit : (c : ℕ) → 0 < c → bit_and c (c - 1) ≡ 0 → (k : ℕ) × (c ≡ 2 ^ k)
one_bit c p e = one_bit_width c c p (le_refl c) e

pub one_bit_pow : (k : ℕ) → bit_and (2 ^ k) (2 ^ k - 1) ≡ 0
one_bit_pow k = bit_and_ones k (2 ^ k) ∙ mod_self (2 ^ k)
