-- ===== src/Command/Inputs.antt =====
-- What `build_command_data` makes of arguments that are there.
use simple_c_database.Command.Build.{
  strtoul, build_key_value, build_key, size_read, build_size, count_read, build_count, build_by_tag,
  build_command_data,
}
use simple_c_database.Command.Data.{
  Tag, type_get, type_set, type_add, type_del, type_exist, type_replace, type_resize, type_clear,
  type_loadfactor, type_count, type_error, type_empty, CountType, sizeof_entry, CommandData,
  no_data, count_capacity,
}
use simple_c_database.Command.Registry.{stocmdcount}
use simple_c_database.Prelude.{
  ℕ, ◌+◌, ◌^◌, ◌≤◌, ◌<◌, ◌≡◌, refl, arith, Bool, true, false, Option, none, some, List, [], ◌∷◌, ℤ,
  pos, neg, take, length, ltb, ◌||◌, ◌%◌, inl, inr, Bool-cases, ◌==◌,
}
use simple_c_database.Strings.{Bytes, c_str, head_byte, is_key_valid}
use simple_c_database.Table.Data.{Env, Outcome, done}

-- How many arguments each kind of command reads.
abbrev pub arguments : Tag → ℕ
arguments type_replace = 2
arguments type_set = 2
arguments type_add = 2
arguments type_get = 1
arguments type_del = 1
arguments type_exist = 1
arguments type_resize = 1
arguments type_count = 1
arguments type_clear = 0
arguments type_loadfactor = 0
arguments type_error = 0
arguments type_empty = 0

-- A first argument that the table takes as a key and as a capacity.
abbrev pub FirstSafe : List Bytes → Type 0
FirstSafe [] = Unit
FirstSafe (a ∷ rest) = (length (c_str a) < 255) × ((strtoul a).0 ≤ 2 ^ 63)

-- The lengths that stand beside arguments: none is more than its argument has, nor so large that a block
-- for it and the struct of an entry has a size that a `size_t` cannot count.
abbrev pub Measured : List Bytes → List ℕ → Type 0
Measured [] ls = Unit
Measured (a ∷ rest) [] = Unit
Measured (a ∷ rest) (n ∷ ns) = (n ≤ length a) × (sizeof_entry + n < 2 ^ 64) × Measured rest ns

abbrev pub KeyShort : Option Bytes → Type 0
KeyShort none = Unit
KeyShort (some k) = length (c_str k) < 255

abbrev pub InputSafe : CommandData → Type 0
InputSafe d = KeyShort d.key × (d.new_size ≤ 2 ^ 63)

-- The input was made, or it was refused with a result that is not 0.
abbrev pub Built : Outcome (ℤ × CommandData) → Type 0
Built o = (code : ℤ) × (d : CommandData) × (o ≡ done (code, d)) × InputSafe d

size_read-Built :
    (d : CommandData) (r : ℕ × Option Bytes) → InputSafe d → r.0 ≤ 2 ^ 63 → Built (size_read d r)
size_read-Built d (n, none) ok small = (neg 1, d, refl, ok)
size_read-Built d (n, some end) ok small = elim (Bool-cases (head_byte end == 0)) [
  | inl whole ↦ (pos 0, record d { new_size = n }, rw whole refl, (ok.0, small))
  | inr rest ↦ (neg 1, d, rw rest refl, ok)
]

count_read-Built :
    (d : CommandData) (r : Bool × Option CountType) → InputSafe d → Built (count_read d r)
count_read-Built d (false, out_type) ok = (neg 1, d, refl, ok)
count_read-Built d (true, none) ok = (neg 1, d, refl, ok)
count_read-Built d (true, some kind) ok = (pos 0, record d { count_type = kind }, refl, ok)

build_key-Built :
    (d : CommandData) (argv : List Bytes)
    → InputSafe d
    → FirstSafe argv
    → 1 ≤ length argv
    → Built (build_key d argv)
unfolding build_key
build_key-Built d [] ok first h = absurd (omega arith)
build_key-Built d (key ∷ rest) ok first h = elim (Bool-cases (is_key_valid (some key))) [
  | inl valid ↦ (pos 0, record d { key = some key }, rw valid refl, (first.0, ok.1))
  | inr empty ↦ (neg 1, d, rw empty refl, ok)
]

build_key_value-Built :
    (env : Env) (d : CommandData) (argv : List Bytes) (args_lengths : List ℕ)
    → InputSafe d
    → FirstSafe argv
    → Measured argv args_lengths
    → 2 ≤ length argv
    → 2 ≤ length args_lengths
    → Built (build_key_value env d argv args_lengths)
unfolding build_key_value
build_key_value-Built env d [] args_lengths ok first fit h g = absurd (omega arith)
build_key_value-Built env d (key ∷ []) args_lengths ok first fit h g = absurd (omega arith)
build_key_value-Built env d (key ∷ arg ∷ rest) [] ok first fit h g = absurd (omega arith)
build_key_value-Built env d (key ∷ arg ∷ rest) (m ∷ []) ok first fit h g = absurd (omega arith)
build_key_value-Built env d (key ∷ arg ∷ rest) (m ∷ size ∷ more) ok first fit h g =
    elim (Bool-cases (is_key_valid (some key))) [
      | inr empty ↦ (neg 1, d, rw empty refl, ok)
      | inl valid ↦
          let block : (sizeof_entry + size) % 2 ^ 64 ≡ sizeof_entry + size =
            omega (arith, fit.2.1) in
          let inside : (ltb (sizeof_entry + size) (sizeof_entry + size) || ltb (length arg) size)
              ≡ false =
            ground (arith, fit.2.0) in
          elim (Bool-cases (env.malloc (sizeof_entry + size))) [
            | inr no_memory ↦ (neg 1, d, rw (valid, block, no_memory) refl, ok)
            | inl memory ↦ (
              pos 0,
              record d {
                key = some key;
                value = some (record { size = size; bytes = take size arg });
              },
              rw (valid, block, memory, inside) refl,
              (first.0, ok.1),
            )
          ]
    ]

build_size-Built :
    (d : CommandData) (argv : List Bytes)
    → InputSafe d
    → FirstSafe argv
    → 1 ≤ length argv
    → Built (build_size d argv)
unfolding build_size
build_size-Built d [] ok first h = absurd (omega arith)
build_size-Built d (arg ∷ rest) ok first h = size_read-Built d (strtoul arg) ok first.1

build_count-Built :
    (d : CommandData) (argv : List Bytes)
    → InputSafe d
    → 1 ≤ length argv
    → Built (build_count d argv)
unfolding build_count
build_count-Built d [] ok h = absurd (omega arith)
build_count-Built d (arg ∷ rest) ok h =
    count_read-Built d (stocmdcount (some arg) (some count_capacity)) ok

build_by_tag-Built :
    (env : Env) (tag : Tag) (d : CommandData) (argv : List Bytes) (args_lengths : List ℕ)
    → InputSafe d
    → FirstSafe argv
    → Measured argv args_lengths
    → arguments tag ≤ length argv
    → arguments tag ≤ length args_lengths
    → Built (build_by_tag env tag d argv args_lengths)
unfolding build_by_tag
build_by_tag-Built env type_replace d argv ls ok first fit h g =
    build_key_value-Built env d argv ls ok first fit h g
build_by_tag-Built env type_set d argv ls ok first fit h g =
    build_key_value-Built env d argv ls ok first fit h g
build_by_tag-Built env type_add d argv ls ok first fit h g =
    build_key_value-Built env d argv ls ok first fit h g
build_by_tag-Built env type_get d argv ls ok first fit h g = build_key-Built d argv ok first h
build_by_tag-Built env type_del d argv ls ok first fit h g = build_key-Built d argv ok first h
build_by_tag-Built env type_exist d argv ls ok first fit h g = build_key-Built d argv ok first h
build_by_tag-Built env type_resize d argv ls ok first fit h g = build_size-Built d argv ok first h
build_by_tag-Built env type_count d argv ls ok first fit h g = build_count-Built d argv ok h
build_by_tag-Built env type_clear d argv ls ok first fit h g = (pos 0, d, refl, ok)
build_by_tag-Built env type_loadfactor d argv ls ok first fit h g = (pos 0, d, refl, ok)
build_by_tag-Built env type_error d argv ls ok first fit h g = (neg 1, d, refl, ok)
build_by_tag-Built env type_empty d argv ls ok first fit h g = (neg 1, d, refl, ok)

-- With the arguments that a kind of command reads and lengths that fit them, building its input returns.
pub build_command_data-Built :
    (env : Env) (tag : Tag) (argv : List Bytes) (args_lengths : List ℕ)
    → FirstSafe argv
    → Measured argv args_lengths
    → arguments tag ≤ length argv
    → arguments tag ≤ length args_lengths
    → Built (build_command_data env tag argv args_lengths no_data)
unfolding build_command_data
build_command_data-Built env tag argv args_lengths first fit h g =
    build_by_tag-Built env tag (record no_data { tag = tag }) argv args_lengths (tt, omega arith)
      first fit h g
