-- ===== src/Strings/Convert.antt =====
-- `stosizet` against the decimal value of a string, and the conversions there and back.
use simple_c_database.Prelude.{
  ℕ, ◌+◌, ◌-◌, ◌*◌, ◌/◌, ◌^◌, ◌≤◌, ◌<◌, ◌≡◌, ◌⊎◌, inl, inr, refl, arith, Bool, true, false, ◌&&◌,
  ◌||◌, some, [], ◌∷◌, ltb, leb, ◌==◌, if◌then◌else◌, Bool-cases, ℤ, pos,
}
use simple_c_database.Strings.{Bytes, c_str, stosizet_loop, stosizet, sizet_to_int, int_to_ul}

-- The decimal value of digits read after a value, with no bound.
abbrev pub decimal : ℕ → Bytes → ℕ
decimal r [] = r
decimal r (c ∷ s) = decimal (r * 10 + (c - b'0')) s

abbrev pub all_digits : Bytes → Bool
all_digits [] = true
all_digits (c ∷ s) = (leb b'0' c && leb c b'9') && all_digits s

le-decimal : (r : ℕ) (s : Bytes) → r ≤ decimal r s
le-decimal r [] = omega arith
le-decimal r (c ∷ s) = omega (arith, le-decimal (r * 10 + (c - b'0')) s)

-- The value where it is one, and 0 where it is not.
abbrev pub decimal_or_0 : ℕ → Bytes → ℕ
decimal_or_0 r s = if all_digits s && ltb (decimal r s) (2 ^ 64) then decimal r s else 0

stosizet_loop-decimal :
    (s : Bytes) (r : ℕ) → r < 2 ^ 64 → stosizet_loop s r ≡ decimal_or_0 r (c_str s)
unfolding stosizet_loop
stosizet_loop-decimal [] r h = ground arith
stosizet_loop-decimal (c ∷ s) r h = elim (Bool-cases (c == 0)) [
  | inl done ↦ rw done (ground arith)
  | inr more ↦ elim (Bool-cases (ltb c b'0' || ltb b'9' c)) [
    | inl other ↦ ground arith
    | inr digit ↦ elim (Bool-cases (ltb ((2 ^ 64 - 1 - (c - b'0')) / 10) r)) [
      | inl over ↦ ground (arith, le-decimal (r * 10 + (c - b'0')) (c_str s))
      | inr fits ↦
          let next : r * 10 + (c - b'0') < 2 ^ 64 = ground arith in
          ground (arith, stosizet_loop-decimal s (r * 10 + (c - b'0')) next)
    ]
  ]
]

-- `stosizet` of a string is its decimal value where every byte is a digit and the value fits a
-- `size_t`, and 0 otherwise, the empty string included.
pub stosizet-decimal : (s : Bytes) → stosizet (some s) ≡ decimal_or_0 0 (c_str s)
unfolding stosizet
stosizet-decimal [] = ground arith
stosizet-decimal (c ∷ s) = ground (arith, stosizet_loop-decimal (c ∷ s) 0 (omega arith))

-- `sizet_to_int` of a size below 2^31 raises no error, and `int_to_ul` of the result gives the size back
-- with no error; from 2^31 on `sizet_to_int` raises its error and returns 0.
pub int_to_ul-sizet_to_int :
    (s : ℕ) (e e' : Bool)
    → ((s < 2 ^ 31)
        × (i : ℤ) × (sizet_to_int s (some e) ≡ (i, some false))
        × (int_to_ul i (some e') ≡ (s, some false)))
      ⊎ ((2 ^ 31 ≤ s) × (sizet_to_int s (some e) ≡ (pos 0, some true)))
unfolding sizet_to_int int_to_ul
int_to_ul-sizet_to_int s e e' = elim (Bool-cases (ltb (2 ^ 31 - 1) s)) [
  | inl big ↦ inr (ground arith, rw big)
  | inr fits ↦ inl (ground arith, pos s, rw fits, refl)
]
