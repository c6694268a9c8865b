-- ===== src/Bitwise/Power.antt =====
-- `next_power_of_2` against its description: the least power of two that is not below its argument,
-- as long as that power fits a `size_t`.
use native.Mathlib.Nat.{
  pow-suc, one-le-pow, le_refl, div-lt_iff_lt-mul, le-div_iff_mul-le, div-add-mod', div-le_self,
  mod-lt,
}
use simple_c_database.Bits.{bit_or-lt, le-bit_or, bit_or-high}
use simple_c_database.Bitwise.{smear, next_power_of_2}
use simple_c_database.Prelude.{
  ℕ, zero, suc, ◌+◌, ◌-◌, ◌*◌, ◌/◌, ◌%◌, ◌^◌, ◌≤◌, ◌<◌, ◌≡◌, ◌⊎◌, bit_or, arith, inl, inr, ap, leb,
  ltb, ltb→lt, Bool-cases, ◌∙◌,
}

-- The highest `j` of `w` binary digits are ones.
abbrev Filled : ℕ → ℕ → ℕ → Type 0
Filled w j x = (x < 2 ^ w) × (2 ^ w ≤ x + 2 ^ (w - j))

pub pow-add : (a b : ℕ) → 2 ^ (a + b) ≡ 2 ^ a * 2 ^ b
pow-add zero b = let e : 0 + b ≡ b = omega arith in rw e (omega arith)
pow-add (suc a) b =
    let e : suc a + b ≡ suc (a + b) = omega arith in
    rw e (
      omega (
        arith,
        pow-suc 2 (a + b),
        pow-suc 2 a,
        pow-add a b,
        ap (λ (t : ℕ). t * 2 ^ b) (pow-suc 2 a),
      ))

pub pow_mono : (a b : ℕ) → a ≤ b → 2 ^ a ≤ 2 ^ b
pow_mono a b h =
    let e : a + (b - a) ≡ b = omega arith in
    rw (← e) (rw (pow-add a (b - a)) (grind (arith, one-le-pow (b - a) 2)))

mul_le : (a b c : ℕ) → a ≤ b → a * c ≤ b * c
mul_le a b c h = grind arith

pred_mul : (s p : ℕ) → 0 < p → s * p ≡ (p - 1) * s + s
pred_mul s zero h = absurd (omega arith)
pred_mul s (suc p) h = let e : suc p - 1 ≡ p = omega arith in rw e (omega arith)

sub_mul : (s r j : ℕ) → r ≤ s → (s - r) * j + r * j ≡ s * j
sub_mul s r j h = let e : s ≡ s - r + r = omega arith in omega (arith, ap (λ (t : ℕ). t * j) e)

le-div-add :
    (x s p j r : ℕ)
    → 0 < j
    → 0 < r
    → s * p ≤ x + s
    → s ≤ r * j
    → (s * j ≤ s * p) ⊎ (s ≡ 1)
    → s ≤ x / j + r
le-div-add x s p j r hj hr filled rest (inr e) = omega arith
le-div-add x s p j r hj hr filled rest (inl e) = elim (Bool-cases (leb r s)) [
  | inl below ↦
      let q : s - r ≤ x / j =
        (le-div_iff_mul-le hj).1 (omega (arith, sub_mul s r j (ground arith))) in
      omega arith
  | inr above ↦ ground arith
]

-- The numbers of one smearing step: `s` and `r` are the weights of the digits that are not filled
-- before and after it, and `j` is the power by which it shifts.
smear_bounds :
    (x s p j r : ℕ)
    → 0 < s
    → 0 < j
    → 0 < r
    → x < s * p
    → s * p ≤ x + s
    → s * p ≤ s * j
    → s ≤ r * j
    → (s * j ≤ s * p) ⊎ (s ≡ 1)
    → (x / j < s) × (s * p ≤ x / s * s + s) × (s ≤ x / j + r)
smear_bounds x s p j r hs hj hr below filled fits rest width = (
  (div-lt_iff_lt-mul hj).1 (omega arith),
  omega (
    arith,
    pred_mul s p (grind arith),
    mul_le (p - 1) (x / s) s ((le-div_iff_mul-le hs).1 (omega (arith, pred_mul s p (grind arith)))),
  ),
  le-div-add x s p j r hj hr filled rest width,
)

-- Either the digits not filled and the shift make up the width, or none is left to fill.
exact_width :
    (w j : ℕ) → (2 ^ (w - j) * 2 ^ j ≤ 2 ^ (w - j) * 2 ^ (w - (w - j))) ⊎ (2 ^ (w - j) ≡ 1)
exact_width w j = elim (Bool-cases (leb j w)) [
  | inl below ↦ let e : w - (w - j) ≡ j = ground arith in inl (rw e (le_refl _))
  | inr above ↦ let e : w - j ≡ 0 = ground arith in inr (rw e)
]

-- A shift by `j` doubles the filled digits.
smear-Filled : (w j x : ℕ) → Filled w j x → Filled w (j + j) (smear j x)
unfolding smear
smear-Filled w j x h =
    let s = w - j in
    let r = w - (j + j) in
    let whole : 2 ^ w ≡ 2 ^ s * 2 ^ (w - s) =
      ap (λ (t : ℕ). 2 ^ t) (omega arith) ∙ pow-add s (w - s) in
    let fits : 2 ^ w ≤ 2 ^ s * 2 ^ j = rw (← pow-add s j) (pow_mono w (s + j) (omega arith)) in
    let rest : 2 ^ s ≤ 2 ^ r * 2 ^ j = rw (← pow-add r j) (pow_mono s (r + j) (omega arith)) in
    let (high, top, low) =
      smear_bounds x (2 ^ s) (2 ^ (w - s)) (2 ^ j) (2 ^ r) (one-le-pow s 2 (omega arith))
        (one-le-pow j 2 (omega arith)) (one-le-pow r 2 (omega arith)) (omega arith) (omega arith)
        (omega arith) rest (exact_width w j) in
    let split =
      bit_or-high s (x / 2 ^ s) (x % 2 ^ s) (x / 2 ^ j) (mod-lt x (one-le-pow s 2 (omega arith)))
        high in
    let join = ap (λ (t : ℕ). bit_or t (x / 2 ^ j)) (div-add-mod' x (2 ^ s)) in
    (
      bit_or-lt w x (x / 2 ^ j) h.0 (omega (arith, div-le_self x (2 ^ j))),
      omega (arith, split, join, le-bit_or (x % 2 ^ s) (x / 2 ^ j)),
    )

-- Every number has a width, at which its highest digit is filled.
width : (b m : ℕ) → m < 2 ^ b → (w : ℕ) × (w ≤ b) × Filled w 1 m
width zero m h = (0, omega arith, omega arith)
width (suc b) m h = elim (Bool-cases (ltb m (2 ^ b))) [
  | inl below ↦ let (w, small, filled) = width b m (ltb→lt _ _ below) in (w, omega arith, filled)
  | inr above ↦
      let e : suc b - 1 ≡ b = omega arith in
      (suc b, omega arith, (h, rw e (ground (arith, pow-suc 2 b))))
]

-- The six smearing steps fill every digit of a 64-bit number.
smear_all : ℕ → ℕ
smear_all m = smear 32 (smear 16 (smear 8 (smear 4 (smear 2 (smear 1 m)))))

smear_all_lem : (w m : ℕ) → w ≤ 64 → Filled w 1 m → smear_all m + 1 ≡ 2 ^ w
unfolding smear_all
smear_all_lem w m h f =
    let f2 = smear-Filled w 1 m f in
    let f4 = smear-Filled w 2 _ f2 in
    let f8 = smear-Filled w 4 _ f4 in
    let f16 = smear-Filled w 8 _ f8 in
    let f32 = smear-Filled w 16 _ f16 in
    let f64 = smear-Filled w 32 _ f32 in
    let e : w - 64 ≡ 0 = omega arith in omega (arith, f64.0, f64.1, ap (λ (t : ℕ). 2 ^ t) e)

next_power_of_2-smear_all : (n : ℕ) → 0 < n → next_power_of_2 n ≡ (smear_all (n - 1) + 1) % 2 ^ 64
unfolding next_power_of_2 smear_all
next_power_of_2-smear_all n h = ground arith

pub pow_reflect : (a b : ℕ) → 2 ^ a ≤ 2 ^ b → a ≤ b
pow_reflect a b h = elim (Bool-cases (leb a b)) [
  | inl below ↦ ground arith
  | inr above ↦
      absurd (
        omega (arith, pow-suc 2 b, pow_mono (suc b) a (ground arith), one-le-pow b 2 (omega arith)))
]

-- No smaller power of two exceeds a number of `w` digits.
width_least : (w m : ℕ) → Filled w 1 m → (j : ℕ) → m < 2 ^ j → w ≤ j
width_least zero m f j h = omega arith
width_least (suc w) m f j h = elim (Bool-cases (leb (suc w) j)) [
  | inl below ↦ ground arith
  | inr above ↦
      let e : suc w - 1 ≡ w = omega arith in
      absurd (omega (arith, f.1, ap (λ (t : ℕ). 2 ^ t) e, pow-suc 2 w, pow_mono j w (ground arith)))
]

-- For 0 < n <= 2^63, `next_power_of_2 n` is a power of two with an exponent of at most 63, is not
-- below n, and is the least such power: every power of two that is not below n is not below it.
pub next_power_of_2_least :
    (n : ℕ)
    → 0 < n
    → n ≤ 2 ^ 63
    → (k : ℕ) × (next_power_of_2 n ≡ 2 ^ k) × (k ≤ 63) × (n ≤ 2 ^ k) × ((j : ℕ) → n ≤ 2 ^ j → k ≤ j)
next_power_of_2_least n pos small =
    let (w, narrow, filled) = width 63 (n - 1) (omega arith) in
    (
      w,
      next_power_of_2-smear_all n pos
          ∙ omega (arith, smear_all_lem w (n - 1) (omega arith) filled, pow_mono w 63 narrow),
      narrow,
      omega (arith, filled.0),
      λ j h. width_least w (n - 1) filled j (omega arith),
    )

-- For 2^63 < n < 2^64 the next power of two does not fit a `size_t`, and the result wraps to 0.
pub next_power_of_2_wraps : (n : ℕ) → 2 ^ 63 < n → n < 2 ^ 64 → next_power_of_2 n ≡ 0
next_power_of_2_wraps n big fits =
    let filled : Filled 64 1 (n - 1) = (omega arith, omega arith) in
    next_power_of_2-smear_all n (omega arith)
    ∙ omega (arith, smear_all_lem 64 (n - 1) (omega arith) filled)
