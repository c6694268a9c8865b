-- ===== src/Strings/Copy.antt =====
-- `ustrncpy` and `ustrdup` against the strings that the pointers denote.
use simple_c_database.Prelude.{
  ℕ, zero, suc, ◌-◌, ◌≤◌, ◌<◌, ◌≡◌, refl, arith, some, [], ◌∷◌, length, take,
}
use simple_c_database.Strings.{Bytes, c_str, ustrncpy_loop, ustrncpy}

pub length-ustrncpy_loop :
    (room : ℕ) (dest src : Bytes) → length (ustrncpy_loop room dest src) ≡ length dest
unfolding ustrncpy_loop
length-ustrncpy_loop zero [] src = refl
length-ustrncpy_loop (suc room) [] src = refl
length-ustrncpy_loop zero (d ∷ dest) src = refl
length-ustrncpy_loop (suc room) (d ∷ dest) [] = refl
length-ustrncpy_loop (suc room) (d ∷ dest) (c ∷ src) =
    ground (arith, length-ustrncpy_loop room dest src)

c_str-ustrncpy_loop :
    (room : ℕ) (dest src : Bytes)
    → room < length dest
    → c_str (ustrncpy_loop room dest src) ≡ take room (c_str src)
unfolding ustrncpy_loop
c_str-ustrncpy_loop room [] src h = absurd (omega arith)
c_str-ustrncpy_loop zero (d ∷ dest) src h = refl
c_str-ustrncpy_loop (suc room) (d ∷ dest) [] h = refl
c_str-ustrncpy_loop (suc room) (d ∷ dest) (c ∷ src) h =
    ground (arith, c_str-ustrncpy_loop room dest src)

-- Into a buffer of at least n > 0 bytes, `ustrncpy` writes the first n - 1 bytes of the source string
-- and a NUL after them, and the buffer keeps its size.
pub ustrncpy-take :
    (dest src : Bytes) (n : ℕ)
    → 0 < n
    → n ≤ length dest
    → (out : Bytes) × (ustrncpy (some dest) (some src) n ≡ some out)
      × (length out ≡ length dest)
      × (c_str out ≡ take (n - 1) (c_str src))
unfolding ustrncpy
ustrncpy-take dest src n pos fits = (
  ustrncpy_loop (n - 1) dest src,
  ground arith,
  length-ustrncpy_loop (n - 1) dest src,
  c_str-ustrncpy_loop (n - 1) dest src (omega arith),
)
