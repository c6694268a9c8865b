-- ===== src/Server/Split.antt =====
-- Where a cut of a request falls: after a line, or within it.
use simple_c_database.Command.Execute.{print_digits}
use simple_c_database.Prelude.{
  ℕ, zero, suc, ◌+◌, ◌/◌, ◌%◌, ◌≤◌, ◌<◌, ◌≡◌, ◌⊎◌, inl, inr, refl, sym, ◌∙◌, arith, false, none, [],
  ◌∷◌, ◌++◌, All, length, Bool-cases, ltb, ◌==◌,
}
use simple_c_database.Server.Buffer.{cr, lf, crlf_at}
use simple_c_database.Server.Digits.{number_line, append-print}
use simple_c_database.Strings.{Bytes}

-- A byte that does not end a line.
abbrev pub NotCr : ℕ → Type 0
NotCr c = (c == cr) ≡ false

print_digits-NotCr : (fuel n : ℕ) (s : Bytes) → All NotCr s → All NotCr (print_digits fuel n s)
print_digits-NotCr zero n s h = h
print_digits-NotCr (suc fuel) n s h = elim (Bool-cases (ltb n 10)) [
  | inl small ↦ rw small (ground arith, h)
  | inr large ↦ rw large (print_digits-NotCr fuel (n / 10) ((b'0' + n % 10) ∷ s) (ground arith, h))
]

-- The bytes of a line and what follows them, cut in two.
split-line :
    (ds rest b ys : Bytes)
    → All NotCr ds
    → ds ++ cr ∷ lf ∷ rest ≡ b ++ ys
    → ((b' : Bytes) × (b ≡ ds ++ cr ∷ lf ∷ b') × (rest ≡ b' ++ ys))
      ⊎ ((crlf_at b ≡ none) × (1 ≤ length ys))
unfolding crlf_at
split-line [] rest [] ys h e = inr (refl, rw (← e) (omega arith))
split-line [] rest (x ∷ []) ys h e =
    let first : x ≡ cr = cc in
    let after : ys ≡ lf ∷ rest = cc in inr (rw first refl, rw after (omega arith))
split-line [] rest (x ∷ y ∷ b) ys h e = inl (b, cc, cc)
split-line (d ∷ ds) rest [] ys h e = inr (refl, rw (← e) (omega arith))
split-line (d ∷ ds) rest (x ∷ b) ys h e =
    let first : x ≡ d = cc in
    let other : (x == cr) ≡ false = rw first h.0 in
    elim (split-line ds rest b ys h.1 (cc)) [
      | inl (b', whole, after) ↦ inl (b', cc, after)
      | inr (open_line, more) ↦ inr (rw (other, open_line) refl, more)
    ]

-- The same of an argument and the end of its line.
pub split-data :
    (a rest b ys : Bytes)
    → a ++ cr ∷ lf ∷ rest ≡ b ++ ys
    → ((b' : Bytes) × (b ≡ a ++ cr ∷ lf ∷ b') × (rest ≡ b' ++ ys))
      ⊎ ((length b < length a + 2) × (1 ≤ length ys))
split-data [] rest [] ys e = inr (omega arith, rw (← e) (omega arith))
split-data [] rest (x ∷ []) ys e =
    let after : ys ≡ lf ∷ rest = cc in inr (omega arith, rw after (omega arith))
split-data [] rest (x ∷ y ∷ b) ys e = inl (b, cc, cc)
split-data (d ∷ a) rest [] ys e = inr (omega arith, rw (← e) (omega arith))
split-data (d ∷ a) rest (x ∷ b) ys e = elim (split-data a rest b ys (cc)) [
  | inl (b', whole, after) ↦ inl (b', cc, after)
  | inr (short, more) ↦ inr (omega (arith, short), more)
]

-- The same of the line of a number.
pub split-number_line :
    (n : ℕ) (rest b ys : Bytes)
    → number_line n rest ≡ b ++ ys
    → ((b' : Bytes) × (b ≡ number_line n b') × (rest ≡ b' ++ ys))
      ⊎ ((crlf_at b ≡ none) × (1 ≤ length ys))
unfolding number_line
split-number_line n rest b ys e =
    elim (split-line (print_digits 20 n []) rest b ys (print_digits-NotCr 20 n [] tt)
      (append-print 20 n [] (cr ∷ lf ∷ rest) ∙ e)) [
        | inl (b', whole, after) ↦ inl (b', whole ∙ append-print 20 n [] (cr ∷ lf ∷ b'), after)
        | inr h ↦ inr h
      ]

pub nil-append : (b ys : Bytes) → [] ≡ b ++ ys → (b ≡ []) × (ys ≡ [])
nil-append [] ys e = (refl, sym e)
nil-append (x ∷ b) ys e = cc
