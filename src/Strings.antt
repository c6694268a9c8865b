-- ===== src/Strings.antt =====
-- string_functionality.c: byte strings and checked conversions between the integer types.
--
-- A pointer to bytes is the list of the bytes that follow it; reading past the list gives a NUL, so
-- that a list stands for an object that ends in a NUL byte. `none` is NULL.
pub mod Length
pub mod Compare
pub mod Copy
pub mod Convert
pub mod Scopy
pub mod Tokens
mod Tests
use simple_c_database.Prelude.{
  ℕ, zero, suc, ◌+◌, ◌-◌, ◌*◌, ◌/◌, ◌^◌, Bool, true, false, not, ◌&&◌, ◌||◌, Option, none, some,
  List, [], ◌∷◌, ◌++◌, ℤ, pos, negsuc, sub_ℕ, take, ltb, ◌==◌, if◌then◌else◌,
}

abbrev pub Bytes : Type 0
Bytes = List ℕ

abbrev pub key_max_len : ℕ
key_max_len = 255

-- `*s`
abbrev pub head_byte : Bytes → ℕ
head_byte [] = 0
head_byte (c ∷ s) = c

-- `s + 1`
abbrev pub tail_bytes : Bytes → Bytes
tail_bytes [] = []
tail_bytes (c ∷ s) = s

-- The string that a pointer denotes: the bytes before the first NUL.
abbrev pub c_str : Bytes → Bytes
c_str [] = []
c_str (c ∷ s) = if c == 0 then [] else c ∷ c_str s

-- The `while` loop of `ustrlen`, with `str - start` in hand.
unfoldable pub ustrlen_from : Bytes → ℕ → ℕ
ustrlen_from [] n = n
ustrlen_from (c ∷ s) n = if c == 0 then n else ustrlen_from s (n + 1)

unfoldable pub ustrlen : Option Bytes → ℕ
unfolding ustrlen_from
ustrlen none = 0
ustrlen (some s) = ustrlen_from s 0

-- The loop of `ustrncmp` and the difference after it, with `n` as it is when the loop tests it.
unfoldable pub ustrncmp_loop : ℕ → Bytes → Bytes → ℤ
ustrncmp_loop zero s1 s2 = sub_ℕ (head_byte s1) (head_byte s2)
ustrncmp_loop (suc n) s1 s2 =
    let rest = ustrncmp_loop n (tail_bytes s1) (tail_bytes s2) in
    if head_byte s1 == head_byte s2
    then (if head_byte s1 == 0 then pos 0 else rest)
    else sub_ℕ (head_byte s1) (head_byte s2)

unfoldable pub ustrncmp : Bytes → Bytes → ℕ → ℤ
unfolding ustrncmp_loop
ustrncmp s1 s2 n = if n == 0 then pos 0 else ustrncmp_loop n s1 s2

-- `ustrcmp` recurs on its first string, whose end the loop tests.
unfoldable pub ustrcmp : Bytes → Bytes → ℤ
ustrcmp [] s2 = sub_ℕ 0 (head_byte s2)
ustrcmp (c ∷ s1) s2 =
    let rest = ustrcmp s1 (tail_bytes s2) in
    if not (c == 0) && c == head_byte s2 then rest else sub_ℕ c (head_byte s2)

-- The copying loop of `ustrncpy` with `room` = n - 1 - i, and the NUL after it. A write past the
-- end of `dest` is lost here; `ustrncpy` has none where `dest` holds `n` bytes.
unfoldable pub ustrncpy_loop : ℕ → Bytes → Bytes → Bytes
ustrncpy_loop room [] src = []
ustrncpy_loop zero (d ∷ dest) src = 0 ∷ dest
ustrncpy_loop (suc room) (d ∷ dest) [] = 0 ∷ dest
ustrncpy_loop (suc room) (d ∷ dest) (c ∷ src) =
    if c == 0 then 0 ∷ dest else c ∷ ustrncpy_loop room dest src

unfoldable pub ustrncpy : Option Bytes → Option Bytes → ℕ → Option Bytes
unfolding ustrncpy_loop
ustrncpy none src n = none
ustrncpy (some dest) none n = some dest
ustrncpy (some dest) (some src) n =
    if n == 0 then some dest else some (ustrncpy_loop (n - 1) dest src)

-- `memdup`: whether `malloc` succeeds is the caller's environment. The copy holds the first `len`
-- bytes at `src`.
unfoldable pub memdup : (ℕ → Bool) → Bytes → ℕ → Option Bytes
memdup alloc src len = if alloc len then some (take len src) else none

-- `ustrdup`: the copy is the string and its NUL.
unfoldable pub ustrdup : (ℕ → Bool) → Option Bytes → Option Bytes
unfolding ustrlen memdup
ustrdup alloc none = none
ustrdup alloc (some src) =
    let len = ustrlen (some src) in if alloc (len + 1) then some (take len src ++ 0 ∷ []) else none

-- `key[0] != '\0'`
unfoldable pub is_key_valid : Option Bytes → Bool
is_key_valid none = false
is_key_valid (some key) = not (head_byte key == 0)

-- The conversions take the address of an error flag, which may be NULL; they return the value and
-- the flag's new contents.
abbrev pub Checked : Type 0 → Type 0
Checked A = A × Option Bool

unfoldable pub sizet_to_uint : ℕ → Option Bool → Checked ℕ
sizet_to_uint s none = (0, none)
sizet_to_uint s (some e) = if ltb (2 ^ 32 - 1) s then (0, some true) else (s, some false)

unfoldable pub ssizet_to_sizet : ℤ → Option Bool → Checked ℕ
ssizet_to_sizet v none = (0, none)
ssizet_to_sizet (negsuc n) (some e) = (0, some true)
ssizet_to_sizet (pos n) (some e) = (n, some false)

unfoldable pub long_to_int : ℤ → Option Bool → Checked ℤ
long_to_int l none = (pos 0, none)
long_to_int (pos n) (some e) =
    if ltb (2 ^ 31 - 1) n then (pos 0, some true) else (pos n, some false)
long_to_int (negsuc n) (some e) =
    if ltb (2 ^ 31 - 1) n then (pos 0, some true) else (negsuc n, some false)

unfoldable pub long_to_sizet : ℤ → Option Bool → Checked ℕ
long_to_sizet l none = (0, none)
long_to_sizet (negsuc n) (some e) = (0, some true)
long_to_sizet (pos n) (some e) = if ltb (2 ^ 64 - 1) n then (0, some true) else (n, some false)

unfoldable pub int_to_ul : ℤ → Option Bool → Checked ℕ
int_to_ul i none = (0, none)
int_to_ul (negsuc n) (some e) = (0, some true)
int_to_ul (pos n) (some e) = (n, some false)

unfoldable pub sizet_to_int : ℕ → Option Bool → Checked ℤ
sizet_to_int s none = (pos 0, none)
sizet_to_int s (some e) = if ltb (2 ^ 31 - 1) s then (pos 0, some true) else (pos s, some false)

-- `stosizet`: the loop over the digits with the value so far.
unfoldable pub stosizet_loop : Bytes → ℕ → ℕ
stosizet_loop [] result = result
stosizet_loop (c ∷ s) result =
    let digit = c - b'0' in
    let rest = stosizet_loop s (result * 10 + digit) in
    if c == 0
    then result
    else if ltb c b'0' || ltb b'9' c
    then 0
    else if ltb ((2 ^ 64 - 1 - digit) / 10) result
    then 0
    else rest

unfoldable pub stosizet : Option Bytes → ℕ
unfolding stosizet_loop
stosizet none = 0
stosizet (some s) = if head_byte s == 0 then 0 else stosizet_loop s 0
