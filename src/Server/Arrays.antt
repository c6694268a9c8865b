-- ===== src/Server/Arrays.antt =====
-- The arrays of the arguments of a request, the reset of the parser, and the block of a response.
use simple_c_database.Command.Data.{◌>>=◌, index}
use simple_c_database.Prelude.{
  ℕ, zero, suc, ◌-◌, ◌*◌, ◌/◌, ◌%◌, ◌^◌, Bool, true, false, not, ◌&&◌, ◌||◌, Option, none, some,
  List, [], ◌∷◌, ◌++◌, ℤ, pos, negsuc, length, take, set, replicate, ltb, ◌==◌, if◌then◌else◌,
}
use simple_c_database.Server.Data.{parse_state_expect_type, ClientContext, fresh_bytes}
use simple_c_database.Strings.{Bytes, Checked}
use simple_c_database.Table.Data.{Env, Outcome, fault, done}

-- What is behind the pointer to the error.
abbrev pub failed : {A : Type 0} → Checked A → Bool
failed (a, none) = false
failed (a, some e) = e

-- `xs[i] = a` in an array that may be NULL.
abbrev pub store :
    {A : Type 0} → Option (List (Option A)) → ℕ → A → Outcome (Option (List (Option A)))
store none i a = fault
store (some xs) i a = if ltb i (length xs) then done (some (set xs i (some a))) else fault

-- `xs[i]`, where it was written.
abbrev pub written_at : {A : Type 0} → List (Option A) → ℕ → Outcome A
written_at xs i = do x ← index xs i; elim x [ none ↦ fault | some a ↦ done a ]

-- The elements of an array up to the first that was not written.
abbrev pub written_prefix : {A : Type 0} → List (Option A) → List A
written_prefix [] = []
written_prefix (none ∷ xs) = []
written_prefix (some a ∷ xs) = a ∷ written_prefix xs

abbrev pub is_written : {A : Type 0} → Option A → Bool
is_written none = false
is_written (some a) = true

-- The first `n` elements are there and written: the loop that frees them reads each.
abbrev pub frees : {A : Type 0} → ℕ → List (Option A) → Bool
frees zero xs = true
frees (suc n) [] = false
frees (suc n) (x ∷ xs) = is_written x && frees n xs

unfoldable pub free_parser_resources : ClientContext → Outcome ClientContext
free_parser_resources ctx = elim ctx.temp_argv [
  | none ↦ done (record ctx { temp_arg_lengths = none })
  | some argv ↦
      if frees ctx.args_parsed argv
      then done (record ctx { temp_argv = none; temp_arg_lengths = none })
      else fault
]

unfoldable pub reset_parser : ClientContext → ClientContext
reset_parser ctx = record ctx {
  state = parse_state_expect_type;
  args_total = 0;
  args_parsed = 0;
  data_to_read = 0;
}

-- A number outside a range.
abbrev pub outside_range : ℕ → ℕ → ℤ → Bool
outside_range lo hi (pos n) = ltb n lo || ltb hi n
outside_range lo hi (negsuc n) = true

abbrev pub is_positive : ℤ → Bool
is_positive (pos n) = ltb 0 n
is_positive (negsuc n) = false

-- An array of `malloc` with 8 bytes for each element.
abbrev pub new_array : {A : Type 0} → Env → ℕ → Option (List (Option A))
new_array env n =
    let size = (n * 8) % 2 ^ 64 in
    if env.malloc size then some (replicate (size / 8) none) else none

-- An array for the arguments: it is allocated before the first of them.
abbrev pub array_for :
    {A : Type 0} → Env → ℕ → ℕ → Option (List (Option A)) → Option (List (Option A))
array_for env args_parsed args_total old =
    if args_parsed == 0 then new_array env args_total else old

abbrev pub prepare : Env → ClientContext → ClientContext
prepare env ctx = record ctx {
  temp_argv = array_for env ctx.args_parsed ctx.args_total ctx.temp_argv;
  temp_arg_lengths = array_for env ctx.args_parsed ctx.args_total ctx.temp_arg_lengths;
}

-- The arrays were to be allocated, and one of them was not.
abbrev pub unprepared : ClientContext → Bool
unprepared ctx =
    (ctx.args_parsed == 0) && not (is_written ctx.temp_argv && is_written ctx.temp_arg_lengths)

-- `realloc`: the bytes of the old block that fit, and the rest of the new block, which holds whatever
-- is there. NULL is a block without bytes.
abbrev pub realloc : (ℕ → ℕ) → Option Bytes → ℕ → Bytes
realloc fresh none size = fresh_bytes fresh size 0
realloc fresh (some block) size =
    take size block ++ fresh_bytes fresh (size - length block) (length block)
