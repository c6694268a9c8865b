-- ===== src/Strings/Compare.antt =====
-- `ustrncmp` and `ustrcmp` against equality of the strings that the pointers denote.
use simple_c_database.Prelude.{
  ℕ, zero, suc, ◌+◌, ◌<◌, ◌≡◌, ◌↔◌, refl, ap, arith, Bool, true, false, ◌&&◌, [], ◌∷◌, length, take,
  take_all, length-take, ◌==◌, if◌then◌else◌, is_zero, is_zero-sub_ℕ, sym, ◌∙◌,
}
use simple_c_database.Strings.{
  Bytes, head_byte, tail_bytes, c_str, ustrncmp_loop, ustrncmp, ustrcmp,
}

-- Equality of two lists of bytes.
abbrev pub bytes_eq : Bytes → Bytes → Bool
bytes_eq [] [] = true
bytes_eq [] (d ∷ t) = false
bytes_eq (c ∷ s) [] = false
bytes_eq (c ∷ s) (d ∷ t) = c == d && bytes_eq s t

pub bytes_eq_iff : (s t : Bytes) → (bytes_eq s t ≡ true) ↔ (s ≡ t)
bytes_eq_iff [] [] = (λ _. refl, λ _. refl)
bytes_eq_iff [] (d ∷ t) = (λ h. cc, λ h. cc)
bytes_eq_iff (c ∷ s) [] = (λ h. cc, λ h. cc)
bytes_eq_iff (c ∷ s) (d ∷ t) = ground (arith, bytes_eq_iff s t)

-- The two pointers denote the same string.
unfoldable pub same_str : Bytes → Bytes → Bool
same_str s t = bytes_eq (c_str s) (c_str t)

pub same_str_iff : (s t : Bytes) → (same_str s t ≡ true) ↔ (c_str s ≡ c_str t)
unfolding same_str
same_str_iff s t = bytes_eq_iff (c_str s) (c_str t)

-- A prefix of the string, from its first byte.
take-c_str :
    (n : ℕ) (s : Bytes)
    → take (suc n) (c_str s)
      ≡ (if head_byte s == 0 then [] else head_byte s ∷ take n (c_str (tail_bytes s)))
take-c_str n [] = refl
take-c_str n (c ∷ s) = ground arith

c_str-head :
    (s : Bytes) → c_str s ≡ (if head_byte s == 0 then [] else head_byte s ∷ c_str (tail_bytes s))
c_str-head [] = refl
c_str-head (c ∷ s) = refl

ustrncmp_loop-take :
    (n : ℕ) (s t : Bytes)
    → (is_zero (ustrncmp_loop n s t) ≡ true) ↔ (take (suc n) (c_str s) ≡ take (suc n) (c_str t))
unfolding ustrncmp_loop
ustrncmp_loop-take zero s t =
    rw (take-c_str zero s, take-c_str zero t)
      (ground (arith, is_zero-sub_ℕ (head_byte s) (head_byte t)))
ustrncmp_loop-take (suc n) s t =
    rw (take-c_str (suc n) s, take-c_str (suc n) t)
      (ground (
        arith,
        is_zero-sub_ℕ (head_byte s) (head_byte t),
        ustrncmp_loop-take n (tail_bytes s) (tail_bytes t),
      ))

-- For n > 0, `ustrncmp s t n` is 0 exactly when the strings agree on their first n + 1 bytes: the
-- loop leaves with both pointers at byte n, and that byte still counts.
pub ustrncmp-take :
    (s t : Bytes) (n : ℕ)
    → 0 < n
    → (is_zero (ustrncmp s t n) ≡ true) ↔ (take (n + 1) (c_str s) ≡ take (n + 1) (c_str t))
unfolding ustrncmp
ustrncmp-take s t n h =
    let e : n + 1 ≡ suc n = omega arith in rw e (ground (arith, ustrncmp_loop-take n s t))

-- `ustrcmp s t` is 0 exactly when the two strings are equal.
pub ustrcmp-c_str : (s t : Bytes) → (is_zero (ustrcmp s t) ≡ true) ↔ (c_str s ≡ c_str t)
unfolding ustrcmp
ustrcmp-c_str [] t = rw (c_str-head t) (ground (arith, is_zero-sub_ℕ 0 (head_byte t)))
ustrcmp-c_str (c ∷ s) t =
    rw (c_str-head t)
      (ground (arith, is_zero-sub_ℕ c (head_byte t), ustrcmp-c_str s (tail_bytes t)))

length-take_le : (n : ℕ) (s t : Bytes) → length s < n → take n s ≡ take n t → length t < n
length-take_le n s t h e = omega (arith, ap (length {A = ℕ}) e, length-take n s, length-take n t)

Bool_ext : (a b : Bool) → (a ≡ true → b ≡ true) → (b ≡ true → a ≡ true) → a ≡ b
Bool_ext a b f g = ground arith

-- Against a stored key, which ends before byte 255, the comparison of 255 bytes is exact.
pub ustrncmp-same_str :
    (s t : Bytes) → length (c_str s) < 255 → is_zero (ustrncmp s t 255) ≡ same_str s t
ustrncmp-same_str s t h =
    Bool_ext _ _
      (λ agree.
        let e = (ustrncmp-take s t 255 (omega arith)).0 agree in
        let short = length-take_le 256 (c_str s) (c_str t) (omega arith) e in
        (same_str_iff s t).1
          (sym (take_all 256 (c_str s) (omega arith)) ∙ e ∙ take_all 256 (c_str t) (omega arith)))
      (λ same. (ustrncmp-take s t 255 (omega arith)).1 (ap (take 256) ((same_str_iff s t).0 same)))
