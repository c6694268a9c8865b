-- ===== src/Strings/Tests.antt =====
-- The theorems on strings at strings of one to four bytes.
use simple_c_database.Prelude.{◌≤◌, ◌<◌, pos}
use simple_c_database.Strings.Scopy.{strscpy, strscpy_lem}
use simple_c_database.Strings.Tokens.{tokenize_string, no_more, one_more, tokenize_string_lem}
use simple_c_database.Prelude.{
  ℕ, ◌++◌, ◌+◌, neg, min, drop, map, codes, none, Option, ◌==◌, if◌then◌else◌,
}
use simple_c_database.Strings.{head_byte}
use simple_c_database.Strings.Convert.{decimal_or_0, stosizet-decimal}
use simple_c_database.Strings.{stosizet}
use simple_c_database.Prelude.{
  ◌≡◌, ◌↔◌, refl, arith, true, false, some, [], ◌∷◌, length, take, is_zero,
}
use simple_c_database.Strings.Compare.{ustrncmp-take}
use simple_c_database.Strings.{Bytes, c_str, ustrncmp_loop, ustrncmp}

abbrev abc : Bytes
abc = b'a' ∷ b'b' ∷ b'c' ∷ 0 ∷ []

abbrev abd : Bytes
abd = b'a' ∷ b'b' ∷ b'd' ∷ 0 ∷ []

-- A comparison of two characters that looks at the third.
ustrncmp-third : is_zero (ustrncmp abc abd 2) ≡ false
unfolding ustrncmp_loop ustrncmp
ustrncmp-third = refl

ustrncmp-take_example :
    (is_zero (ustrncmp abc abd 1) ≡ true) ↔ (take 2 (c_str abc) ≡ take 2 (c_str abd))
ustrncmp-take_example = ustrncmp-take abc abd 1 (omega arith)

stosizet-decimal_example :
    stosizet (some (b'4' ∷ b'2' ∷ [])) ≡ decimal_or_0 0 (c_str (b'4' ∷ b'2' ∷ []))
stosizet-decimal_example = stosizet-decimal (b'4' ∷ b'2' ∷ [])

-- A buffer smaller than the string.
abbrev small : ℕ
small = 2

strscpy_lem_example :
    (length (c_str abc) < small
      → strscpy (1 ∷ 2 ∷ 3 ∷ []) abc small
        ≡ some (
          pos (length (c_str abc)),
          c_str abc ++ 0 ∷ drop (length (c_str abc) + 1) (1 ∷ 2 ∷ 3 ∷ []),
        ))
    × (0 < small
        → small ≤ length (c_str abc)
        → strscpy (1 ∷ 2 ∷ 3 ∷ []) abc small
          ≡ some (neg 1, take 1 (c_str abc) ++ 0 ∷ drop 2 (1 ∷ 2 ∷ 3 ∷ [])))
    × (small ≡ 0 → strscpy (1 ∷ 2 ∷ 3 ∷ []) abc small ≡ some (pos 0, 1 ∷ 2 ∷ 3 ∷ []))
strscpy_lem_example = strscpy_lem (1 ∷ 2 ∷ 3 ∷ []) abc small (omega arith) (omega arith)

-- A `strtok` whose only delimiter is the first byte of its second string, and whose state is what follows
-- the last token.
abbrev skip : ℕ → Bytes → Bytes
skip d [] = []
skip d (c ∷ s) = if c == d then skip d s else c ∷ s

abbrev word : ℕ → Bytes → Bytes
word d [] = []
word d (c ∷ s) = if c == d then [] else c ∷ word d s

abbrev after_word : ℕ → Bytes → Bytes
after_word d [] = []
after_word d (c ∷ s) = if c == d then s else after_word d s

abbrev token : ℕ → Bytes → Option Bytes × Bytes
token d [] = (none, [])
token d (c ∷ s) = (some (word d (c ∷ s)), after_word d (c ∷ s))

abbrev strtok : Bytes → Option Bytes → Bytes → Option Bytes × Bytes
strtok st none delimiter = token (head_byte delimiter) (skip (head_byte delimiter) st)
strtok st (some s) delimiter = token (head_byte delimiter) (skip (head_byte delimiter) s)

abbrev space : Bytes
space = b' ' ∷ []

abbrev line : Bytes
line = codes " ab c "

tokenize_string_lem_example :
    (st' : Bytes) × (tokenize_string strtok []
        (some space)
        (some line)
        (pos 1)
        (none ∷ none ∷ none ∷ [])
      ≡ some (
        pos (min 1 2),
        map some (take 1 (codes "ab" ∷ codes "c" ∷ [])) ++ drop (min 1 2) (none ∷ none ∷ none ∷ []),
        st',
      ))
tokenize_string_lem_example =
    tokenize_string_lem strtok space [] (some line) 1 (codes "ab" ∷ codes "c" ∷ [])
      (none ∷ none ∷ none ∷ []) (one_more (codes "ab") (one_more (codes "c") no_more)) (omega arith)
