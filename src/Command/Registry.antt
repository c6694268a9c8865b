-- ===== src/Command/Registry.antt =====
-- The table of commands and the searches by name. `strcmp` compares as `ustrcmp` does, and `bsearch`
-- halves the range as the C library does; `toupper` is that of the "C" locale.
use simple_c_database.Command.Data.{
  Floats, type_get, type_set, type_add, type_del, type_exist, type_replace, type_resize, type_clear,
  type_loadfactor, type_count, CountType, count_capacity, count_memory_usage, count_total_elem,
  count_occupied_bucket, Command, Registry,
}
use simple_c_database.Command.Procs.{
  cmd_get, cmd_set, cmd_add, cmd_del, cmd_exist, cmd_replace, cmd_resize, cmd_clear,
  cmd_load_factor, cmd_count,
}
use simple_c_database.Prelude.{
  ℕ, zero, suc, ◌+◌, ◌-◌, ◌/◌, Bool, true, false, ◌&&◌, Option, none, some, List, [], ◌∷◌, ℤ, pos,
  negsuc, neg, ltb, leb, ◌==◌, if◌then◌else◌, is_zero, codes, length,
}
use simple_c_database.Strings.{Bytes, head_byte, ustrcmp}

abbrev pub sizeof_registry : ℕ
sizeof_registry = 16

module _ (f : Floats) where
  -- The rows with a name; the row of NULLs after them is left out, as it is by the count.
  abbrev pub command_table : List (Command f.Double)
  command_table =
      record {
        name = codes "ADD";
        tag = type_add;
        proc = cmd_add f;
        arity = pos 2;
        flags = codes "w";
      }
      ∷ record {
        name = codes "CLEAR";
        tag = type_clear;
        proc = cmd_clear f;
        arity = pos 0;
        flags = codes "w";
      }
      ∷ record {
        name = codes "COUNT";
        tag = type_count;
        proc = cmd_count f;
        arity = pos 1;
        flags = codes "r";
      }
      ∷ record {
        name = codes "DEL";
        tag = type_del;
        proc = cmd_del f;
        arity = pos 1;
        flags = codes "w";
      }
      ∷ record {
        name = codes "EXIST";
        tag = type_exist;
        proc = cmd_exist f;
        arity = pos 1;
        flags = codes "r";
      }
      ∷ record {
        name = codes "GET";
        tag = type_get;
        proc = cmd_get f;
        arity = pos 1;
        flags = codes "ra";
      }
      ∷ record {
        name = codes "LOADFACTOR";
        tag = type_loadfactor;
        proc = cmd_load_factor f;
        arity = pos 0;
        flags = codes "r";
      }
      ∷ record {
        name = codes "REPLACE";
        tag = type_replace;
        proc = cmd_replace f;
        arity = pos 2;
        flags = codes "w";
      }
      ∷ record {
        name = codes "RESIZE";
        tag = type_resize;
        proc = cmd_resize f;
        arity = pos 1;
        flags = codes "w";
      }
      ∷ record {
        name = codes "SET";
        tag = type_set;
        proc = cmd_set f;
        arity = pos 2;
        flags = codes "w";
      }
      ∷ []

  unfoldable pub registry_create : (ℕ → Bool) → Option (Registry f.Double)
  registry_create alloc =
      if alloc sizeof_registry
      then some (record { commands = command_table; count = length command_table })
      else none

pub data Probe : Type 0 where
  outside below found above : Probe

-- Which way the comparison of the key with an element sends the search.
abbrev pub side : ℤ → Probe
side (pos zero) = found
side (pos (suc n)) = above
side (negsuc n) = below

abbrev pub index_or : Option ℕ → ℤ
index_or none = neg 1
index_or (some i) = pos i

module _ {Double : Type 0} where
  -- The address of a pointer to a registry, and what the pointer is afterwards.
  unfoldable pub registry_destroy :
      Option (Option (Registry Double)) → ℤ × Option (Option (Registry Double))
  registry_destroy none = (neg 1, none)
  registry_destroy (some none) = (neg 1, some none)
  registry_destroy (some (some reg)) = (pos 0, some none)

  abbrev pub compare_command_names : Bytes → Command Double → ℤ
  compare_command_names command_name cmd = ustrcmp command_name cmd.name

  -- `commands[i]`
  abbrev pub row : List (Command Double) → ℕ → Option (Command Double)
  row [] i = none
  row (c ∷ cs) zero = some c
  row (c ∷ cs) (suc i) = row cs i

  abbrev pub probe : Bytes → Option (Command Double) → Probe
  probe key none = outside
  probe key (some c) = side (compare_command_names key c)

  -- `bsearch` between `lo` and `hi`: the index of the element that it points to.
  unfoldable pub bsearch_between : ℕ → Bytes → List (Command Double) → ℕ → ℕ → Option ℕ
  bsearch_between zero key commands lo hi = none
  bsearch_between (suc fuel) key commands lo hi =
      let mid = (lo + hi) / 2 in
      if ltb lo hi
      then elim (probe key (row commands mid)) [
        | outside ↦ none
        | below ↦ bsearch_between fuel key commands lo mid
        | found ↦ some mid
        | above ↦ bsearch_between fuel key commands (mid + 1) hi
      ]
      else none

  -- The range gets smaller at each step, so that as many steps as there are commands are enough.
  unfoldable pub find_command_index : Option (Registry Double) → Option Bytes → ℤ
  unfolding bsearch_between
  find_command_index none command_name = neg 1
  find_command_index (some reg) none = neg 1
  find_command_index (some reg) (some command_name) =
      index_or (bsearch_between (reg.count + 1) command_name reg.commands 0 reg.count)

unfoldable pub toupper : ℕ → ℕ
toupper c = if leb b'a' c && leb c b'z' then c - 32 else c

-- A branch of the `switch`: the whole name is compared.
abbrev pub accept : Bytes → Bytes → CountType → CountType → Bool × Option CountType
accept subtype_str name here before =
    if is_zero (ustrcmp subtype_str name) then (true, some here) else (false, some before)

-- `out_type` is what the pointer points to, before and after.
unfoldable pub stocmdcount : Option Bytes → Option CountType → Bool × Option CountType
unfolding toupper
stocmdcount none out_type = (false, out_type)
stocmdcount (some subtype_str) none = (false, none)
stocmdcount (some subtype_str) (some before) =
    let c = toupper (head_byte subtype_str) in
    if head_byte subtype_str == 0
    then (false, some before)
    else if c == b'C'
    then accept subtype_str (codes "CAPACITY") count_capacity before
    else if c == b'M'
    then accept subtype_str (codes "MEMORY_USAGE") count_memory_usage before
    else if c == b'T'
    then accept subtype_str (codes "TOTAL_ELEM") count_total_elem before
    else if c == b'O'
    then accept subtype_str (codes "OCCUPIED_BUCKET") count_occupied_bucket before
    else (false, some before)
