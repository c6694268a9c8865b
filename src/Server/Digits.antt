-- ===== src/Server/Digits.antt =====
-- A printed number in the buffer is read back, and the end of its line is found.
use native.Mathlib.Numerals.{unary_clauses}
use simple_c_database.Command.Build.{is_space, is_digit, digits_value, after_digits}
use simple_c_database.Command.Execute.{print_digits}
use simple_c_database.Prelude.{
  ℕ, zero, suc, ◌+◌, ◌-◌, ◌*◌, ◌/◌, ◌%◌, ◌^◌, ◌<◌, ◌≡◌, refl, ap, ◌∙◌, arith, true, false, some, [],
  ◌∷◌, ◌++◌, pos, drop, inl, inr, Bool-cases, ltb, leb, ◌==◌,
}
use simple_c_database.Server.Buffer.{cr, lf, crlf_at, is_empty, strtol}
use simple_c_database.Strings.{Bytes, head_byte}
use simple_c_database.Table.Data.{done}

-- The first line of `s` ends, and `rest` follows it.
abbrev pub Line : Bytes → Bytes → Type 0
Line s rest = (i : ℕ) × (crlf_at s ≡ some i) × (drop (i + 2) s ≡ rest)

pub Line-end : (rest : Bytes) → Line (cr ∷ lf ∷ rest) rest
unfolding crlf_at
Line-end rest = (0, refl, refl)

pub Line-cons : (c : ℕ) (s rest : Bytes) → (c == cr) ≡ false → Line s rest → Line (c ∷ s) rest
unfolding crlf_at
Line-cons c s rest h (i, found, after) =
    let one_on : suc i + 2 ≡ suc (i + 2) = omega arith in
    (suc i, rw (h, found) refl, rw one_on after)

digit : (n : ℕ) → n < 10 → is_digit (b'0' + n) ≡ true
digit n h = ground arith

print_digits-Line : (fuel n : ℕ) (s rest : Bytes) → Line s rest → Line (print_digits fuel n s) rest
print_digits-Line zero n s rest l = l
print_digits-Line (suc fuel) n s rest l = elim (Bool-cases (ltb n 10)) [
  | inl small ↦ rw small (Line-cons (b'0' + n) s rest (ground arith) l)
  | inr large ↦ rw large (
      print_digits-Line fuel (n / 10) ((b'0' + n % 10) ∷ s) rest
        (Line-cons (b'0' + n % 10) s rest (ground arith) l))
]

tenth : (fuel n : ℕ) → n < 10 ^ suc fuel → n / 10 < 10 ^ fuel
tenth fuel n h = let h' = simp unary_clauses at h in omega (arith, h')

digits_value-print :
    (fuel n : ℕ) (s : Bytes)
    → n < 10 ^ fuel
    → digits_value 0 (print_digits fuel n s) ≡ digits_value n s
digits_value-print zero n s h = let none_left : n ≡ 0 = omega arith in rw none_left refl
digits_value-print (suc fuel) n s h = elim (Bool-cases (ltb n 10)) [
  | inl small ↦
      let value : 0 * 10 + (b'0' + n - b'0') ≡ n = omega arith in
      rw (small, digit n (ground arith), value) refl
  | inr large ↦
      let value : n / 10 * 10 + (b'0' + n % 10 - b'0') ≡ n = omega arith in
      rw large (
        digits_value-print fuel (n / 10) ((b'0' + n % 10) ∷ s) (tenth fuel n h)
        ∙ rw (digit (n % 10) (omega arith), value) refl)
]

after_digits-print :
    (fuel n : ℕ) (s : Bytes) → after_digits (print_digits fuel n s) ≡ after_digits s
after_digits-print zero n s = refl
after_digits-print (suc fuel) n s = elim (Bool-cases (ltb n 10)) [
  | inl small ↦ rw (small, digit n (ground arith)) refl
  | inr large ↦ rw large (
      after_digits-print fuel (n / 10) ((b'0' + n % 10) ∷ s)
      ∙ rw (digit (n % 10) (omega arith)) refl)
]

head-print :
    (fuel n : ℕ) (s : Bytes)
    → is_digit (head_byte s) ≡ true
    → is_digit (head_byte (print_digits fuel n s)) ≡ true
head-print zero n s h = h
head-print (suc fuel) n s h = elim (Bool-cases (ltb n 10)) [
  | inl small ↦ rw small (digit n (ground arith))
  | inr large ↦
      rw large (head-print fuel (n / 10) ((b'0' + n % 10) ∷ s) (digit (n % 10) (omega arith)))
]

head-print_suc :
    (fuel n : ℕ) (s : Bytes) → is_digit (head_byte (print_digits (suc fuel) n s)) ≡ true
head-print_suc fuel n s = elim (Bool-cases (ltb n 10)) [
  | inl small ↦ rw small (digit n (ground arith))
  | inr large ↦
      rw large (head-print fuel (n / 10) ((b'0' + n % 10) ∷ s) (digit (n % 10) (omega arith)))
]

-- A string that starts with a digit has no white space and no sign before its number.
strtol-digits :
    (s : Bytes)
    → is_digit (head_byte s) ≡ true
    → is_empty (after_digits s) ≡ false
    → digits_value 0 s < 2 ^ 63
    → strtol s ≡ done (pos (digits_value 0 s))
unfolding strtol
strtol-digits [] h e small = ground arith
strtol-digits (c ∷ s) h e small =
    let space : is_space c ≡ false = ground arith in
    let minus : (c == b'-') ≡ false = ground arith in
    let plus : (c == b'+') ≡ false = ground arith in
    let fits : leb (2 ^ 63) (digits_value 0 (c ∷ s)) ≡ false = ground arith in
    rw (space, minus, plus, e, fits) refl

pub append-print :
    (fuel n : ℕ) (s t : Bytes) → print_digits fuel n s ++ t ≡ print_digits fuel n (s ++ t)
append-print zero n s t = refl
append-print (suc fuel) n s t = elim (Bool-cases (ltb n 10)) [
  | inl small ↦ rw small refl
  | inr large ↦ rw large (append-print fuel (n / 10) ((b'0' + n % 10) ∷ s) t)
]

-- A printed number on a line of its own, and what follows the line.
unfoldable pub number_line : ℕ → Bytes → Bytes
number_line n rest = print_digits 20 n (cr ∷ lf ∷ rest)

-- `strtol` reads the number at the start of a block.
pub strtol-number_line :
    (n : ℕ) (rest t : Bytes) → n < 2 ^ 63 → strtol (number_line n rest ++ t) ≡ done (pos n)
unfolding number_line
strtol-number_line n rest t h =
    let s : Bytes = cr ∷ lf ∷ rest ++ t in
    let value = digits_value-print 20 n s (omega arith) in
    ap strtol (append-print 20 n (cr ∷ lf ∷ rest) t)
    ∙ (strtol-digits (print_digits 20 n s) (head-print_suc 19 n s)
          (rw (after_digits-print 20 n s) refl) (omega (arith, value))
        ∙ rw value refl)

pub number_line-Line : (n : ℕ) (rest : Bytes) → Line (number_line n rest) rest
unfolding number_line
number_line-Line n rest = print_digits-Line 20 n (cr ∷ lf ∷ rest) rest (Line-end rest)
