-- ===== src/Command/Build.antt =====
-- `build_command_data`: the input of a command from its arguments. The arguments stand in `argv` with
-- their lengths in `args_lengths`; an index past them is an access out of bounds.
use simple_c_database.Command.Data.{
  Tag, type_get, type_set, type_add, type_del, type_exist, type_replace, type_resize, type_clear,
  type_loadfactor, type_count, type_error, type_empty, CountType, count_capacity, sizeof_entry,
  CommandData, ◌>>=◌, index,
}
use simple_c_database.Command.Registry.{stocmdcount}
use simple_c_database.Prelude.{
  ℕ, ◌+◌, ◌-◌, ◌*◌, ◌%◌, ◌^◌, Bool, true, false, not, ◌&&◌, ◌||◌, Option, none, some, List, [], ◌∷◌,
  ℤ, pos, neg, take, length, ltb, leb, ◌==◌, if◌then◌else◌,
}
use simple_c_database.Strings.{Bytes, head_byte, tail_bytes, is_key_valid}
use simple_c_database.Table.Data.{Env, Outcome, fault, done}

-- White space as `isspace` has it.
abbrev pub is_space : ℕ → Bool
is_space c = c == b' ' || (leb 9 c && leb c 13)

abbrev pub is_digit : ℕ → Bool
is_digit c = leb b'0' c && leb c b'9'

-- The digits at the start of a string: their value after `r`, without a bound, and what follows them.
abbrev pub digits_value : ℕ → Bytes → ℕ
digits_value r [] = r
digits_value r (c ∷ s) = if is_digit c then digits_value (r * 10 + (c - b'0')) s else r

abbrev pub after_digits : Bytes → Bytes
after_digits [] = []
after_digits (c ∷ s) = if is_digit c then after_digits s else c ∷ s

abbrev pub skip_spaces : Bytes → Bytes
skip_spaces [] = []
skip_spaces (c ∷ s) = if is_space c then skip_spaces s else c ∷ s

-- `strtoul` in base 10: the value, which a sign negates modulo 2^64 and which stops at `ULONG_MAX`, and
-- the string at `endptr`, where `none` is the start of the string.
unfoldable pub strtoul : Bytes → ℕ × Option Bytes
strtoul str =
    let s = skip_spaces str in
    let signed = head_byte s == b'-' || head_byte s == b'+' in
    let t = if signed then tail_bytes s else s in
    let magnitude = digits_value 0 t in
    if not (is_digit (head_byte t))
    then (0, none)
    else if leb (2 ^ 64) magnitude
    then (2 ^ 64 - 1, some (after_digits t))
    else (
      (if head_byte s == b'-' then (2 ^ 64 - magnitude) % 2 ^ 64 else magnitude),
      some (after_digits t),
    )

-- Where the result is not 0, what was written to `out_data` does not matter.
abbrev pub refuse : CommandData → Outcome (ℤ × CommandData)
refuse data' = done (neg 1, data')

-- The block of the value has the sum modulo 2^64; `memcpy` reads the argument and writes the block, out
-- of bounds where one of them has fewer bytes than `size` says.
unfoldable pub build_key_value : Env → CommandData → List Bytes → List ℕ → Outcome (ℤ × CommandData)
build_key_value env d argv args_lengths = do
  key ← index argv 0
  if not (is_key_valid (some key)) then refuse d else (do
    size ← index args_lengths 1
    let block = (sizeof_entry + size) % 2 ^ 64 in
        if not (env.malloc block) then refuse d else (do
          arg ← index argv 1
          if ltb block (sizeof_entry + size) || ltb (length arg) size
              then fault
              else done (
                pos 0,
                record d {
                  key = some key;
                  value = some (record { size = size; bytes = take size arg });
                },
              )))

unfoldable pub build_key : CommandData → List Bytes → Outcome (ℤ × CommandData)
build_key d argv = do
  key ← index argv 0
  if not (is_key_valid (some key)) then refuse d else done (pos 0, record d { key = some key })

abbrev pub size_read : CommandData → ℕ × Option Bytes → Outcome (ℤ × CommandData)
size_read d (value, none) = refuse d
size_read d (value, some end) =
    if not (head_byte end == 0) then refuse d else done (pos 0, record d { new_size = value })

unfoldable pub build_size : CommandData → List Bytes → Outcome (ℤ × CommandData)
unfolding strtoul
build_size d argv = do arg ← index argv 0; size_read d (strtoul arg)

abbrev pub count_read : CommandData → Bool × Option CountType → Outcome (ℤ × CommandData)
count_read d (false, out_type) = refuse d
count_read d (true, none) = refuse d
count_read d (true, some count_type) = done (pos 0, record d { count_type = count_type })

-- The variable that `stocmdcount` fills has no value before.
unfoldable pub build_count : CommandData → List Bytes → Outcome (ℤ × CommandData)
build_count d argv = do
  arg ← index argv 0
  count_read d (stocmdcount (some arg) (some count_capacity))

-- The `switch` on the tag.
unfoldable pub build_by_tag :
    Env → Tag → CommandData → List Bytes → List ℕ → Outcome (ℤ × CommandData)
unfolding build_key_value build_key build_size build_count
build_by_tag env type_replace d argv args_lengths = build_key_value env d argv args_lengths
build_by_tag env type_set d argv args_lengths = build_key_value env d argv args_lengths
build_by_tag env type_add d argv args_lengths = build_key_value env d argv args_lengths
build_by_tag env type_get d argv args_lengths = build_key d argv
build_by_tag env type_del d argv args_lengths = build_key d argv
build_by_tag env type_exist d argv args_lengths = build_key d argv
build_by_tag env type_resize d argv args_lengths = build_size d argv
build_by_tag env type_clear d argv args_lengths = done (pos 0, d)
build_by_tag env type_loadfactor d argv args_lengths = done (pos 0, d)
build_by_tag env type_count d argv args_lengths = build_count d argv
build_by_tag env type_error d argv args_lengths = refuse d
build_by_tag env type_empty d argv args_lengths = refuse d

unfoldable pub build_command_data :
    Env → Tag → List Bytes → List ℕ → CommandData → Outcome (ℤ × CommandData)
unfolding build_by_tag
build_command_data env tag argv args_lengths out_data =
    build_by_tag env tag (record out_data { tag = tag }) argv args_lengths
