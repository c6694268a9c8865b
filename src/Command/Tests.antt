-- ===== src/Command/Tests.antt =====
-- The theorems on the commands at an empty table of two buckets.
use simple_c_database.Command.Counts.{execute-count_occupied}
use simple_c_database.Command.Data.{
  Floats, Entry, count_memory_usage, count_capacity, ServerContext, ExecuteResult,
}
use simple_c_database.Command.Execute.{ok_response, print_size, execute_command}
use simple_c_database.Command.Lookup.{
  full_registry, find_command_index_lem, stocmdcount_lem, count_name,
}
use simple_c_database.Command.Registry.{registry_create, find_command_index, row, stocmdcount}
use simple_c_database.Command.RoundTrip.{SetThenGet, execute-set-get}
use simple_c_database.Prelude.{ℕ, ◌≡◌, ◌↔◌, refl, arith, true, some, [], ◌∷◌, pos, codes, length}
use simple_c_database.Strings.{Bytes, c_str, is_key_valid}
use simple_c_database.Table.Data.{Table, Env, done, Reply}
use simple_c_database.Table.Empty.{empty_table, empty_table-IsValid}
use simple_c_database.Table.Slots.{tally}
use simple_c_database.Table.Valid.{IsValid, IsLocked}

-- A pair of counts in the place of a `double`.
abbrev pairs : Floats
pairs = record {
  Double = ℕ × ℕ;
  zero_double = (0, 1);
  divide = λ a b. (a, b);
  bits = λ x. x.0;
  of_bits = λ n. (n, 1);
  print_fixed = λ n x. some (codes "0.50");
}

abbrev giving : Env
giving = record {
  malloc = λ _. true;
  lock = λ _. true;
  init_lock = λ _. true;
  destroy_lock = λ _. true;
  sizeof_lock = 56;
}

abbrev no_entries : Table Entry
no_entries = empty_table 2 2

no_entries-IsValid : IsValid no_entries
no_entries-IsValid = empty_table-IsValid 2 2 1 refl (omega arith)

no_entries-IsLocked : IsLocked no_entries
no_entries-IsLocked = omega arith

created : registry_create pairs (λ _. true) ≡ some (full_registry pairs)
unfolding registry_create
created = refl

abbrev server_ctx : ServerContext (ℕ × ℕ)
server_ctx = record { reg = some (full_registry pairs); db = some no_entries }

find_command_index_lem_example :
    (find_command_index (some (full_registry pairs)) (some (codes "GET")) ≡ pos 5) ↔ (
      (c : _) × (row (full_registry pairs).commands 5 ≡ some c)
      × (c_str (codes "GET") ≡ c_str c.name))
find_command_index_lem_example =
    find_command_index_lem pairs (λ _. true) (full_registry pairs) created (codes "GET") 5

stocmdcount_lem_example :
    (stocmdcount (some (codes "MEMORY_USAGE")) (some count_capacity)
      ≡ (true, some count_memory_usage))
    ↔ (c_str (codes "MEMORY_USAGE") ≡ c_str (count_name count_memory_usage))
stocmdcount_lem_example = stocmdcount_lem (codes "MEMORY_USAGE") count_capacity count_memory_usage

abbrev key : Bytes
key = codes "ab"

execute-set-get_example :
    (r : Reply Entry ExecuteResult) × (execute_command pairs giving server_ctx
        (some (codes "SET"))
        (pos 2)
        (key ∷ codes "xyz" ∷ [])
        (2 ∷ 3 ∷ [])
      ≡ done r)
    × SetThenGet pairs
        (λ _. true)
        created
        giving
        (λ _. refl)
        key
        (unfold is_key_valid in refl)
        (omega arith)
        no_entries-IsValid
        no_entries-IsLocked
        refl
        (codes "xyz")
        (omega arith)
        2
        2
        r
execute-set-get_example =
    execute-set-get pairs (λ _. true) created giving (λ _. refl) key (unfold is_key_valid in refl)
      (omega arith) no_entries-IsValid no_entries-IsLocked refl (codes "xyz") (omega arith) 2 2

execute-count_occupied_example :
    (r : Reply Entry ExecuteResult) × (execute_command pairs giving server_ctx
        (some (codes "COUNT"))
        (pos 1)
        (codes "OCCUPIED_BUCKET" ∷ [])
        (15 ∷ [])
      ≡ done r)
    × (r.result ≡ ok_response (some (print_size 0)) (length (print_size 0)))
    × (r.table ≡ some no_entries)
unfolding tally
execute-count_occupied_example =
    execute-count_occupied pairs (λ _. true) created giving (λ _. refl) no_entries-IsValid
      no_entries-IsLocked (λ _ _. refl) 15
