-- ===== src/Command/Counts.antt =====
-- The COUNT of occupied buckets.
use simple_c_database.Command.Build.{build_command_data}
use simple_c_database.Command.Data.{
  Floats, type_count, count_occupied_bucket, count_capacity, Entry, CommandData, no_data, Registry,
  ExecuteResult,
}
use simple_c_database.Command.Dispatch.{execute_command-row}
use simple_c_database.Command.Execute.{
  ok_response, print_digits, print_size, respond, respond_text, run_command, execute_command,
}
use simple_c_database.Command.Lookup.{stocmdcount_lem}
use simple_c_database.Command.Procs.{cmd_count}
use simple_c_database.Command.Registry.{registry_create}
use simple_c_database.Prelude.{
  ℕ, zero, suc, Bool, ◌+◌, ◌/◌, ◌%◌, ◌≤◌, ◌<◌, ◌≡◌, refl, ◌∙◌, arith, true, false, some, [], ◌∷◌,
  pos, length, codes, leb,
}
use simple_c_database.Strings.{Bytes}
use simple_c_database.Table.Data.{Table, Env, done, Reply}
use simple_c_database.Table.Measured.{nonempty, in_turn, table_occupied_bucket_counter_lem}
use simple_c_database.Table.Valid.{IsValid, IsLocked}

length-print_digits :
    (fuel n : ℕ) (rest : Bytes) → length (print_digits fuel n rest) ≤ fuel + length rest
length-print_digits zero n rest = omega arith
length-print_digits (suc fuel) n rest =
    ground (arith, length-print_digits fuel (n / 10) ((b'0' + n % 10) ∷ rest))

length-print_size : (n : ℕ) → length (print_size n) ≤ 20
unfolding print_size
length-print_size n = omega (arith, length-print_digits 20 n [])

module _ (f : Floats) (alloc : ℕ → Bool) {reg : Registry f.Double}
    (made : registry_create f alloc ≡ some reg) (env : Env) (memory : (n : ℕ) → env.malloc n ≡ true)
    {t : Table Entry} (v : IsValid t) (l : IsLocked t)
    (given : (i : ℕ) → i < t.lock_count → env.lock i ≡ true) where
  -- The input of COUNT with the name of a kind.
  abbrev occupied_input : CommandData
  occupied_input = record no_data { tag = type_count; count_type = count_occupied_bucket }

  build-occupied :
      (m : ℕ)
      → build_command_data env type_count (codes "OCCUPIED_BUCKET" ∷ []) (m ∷ []) no_data
        ≡ done (pos 0, occupied_input)
  unfolding build_command_data
  build-occupied m =
      rw ((stocmdcount_lem (codes "OCCUPIED_BUCKET") count_capacity count_occupied_bucket).1 refl)
        refl

  respond-text :
      (n : ℕ) (failure : Bytes)
      → respond_text f env failure (some (print_size n))
        ≡ ok_response (some (print_size n)) (length (print_size n))
  unfolding respond_text
  respond-text n failure =
      let short : leb 64 (length (print_size n)) ≡ false = ground (arith, length-print_size n) in
      rw (short, memory (length (print_size n) + 1)) refl

  -- With the registry of `registry_create`, a valid table with its locks, and memory and every lock given,
  -- COUNT OCCUPIED_BUCKET answers with status 200 and with the representation of the quotient of the
  -- occupied buckets and the buckets as a `double`, printed as an unsigned integer.
  pub execute-count_occupied :
      (m : ℕ)
      → let n = f.bits (f.divide (nonempty t.buckets) t.buckets_count) in
        (r : Reply Entry ExecuteResult) × (execute_command f env
            (record { reg = some reg; db = some t })
            (some (codes "COUNT"))
            (pos 1)
            (codes "OCCUPIED_BUCKET" ∷ [])
            (m ∷ [])
          ≡ done r)
        × (r.result ≡ ok_response (some (print_size n)) (length (print_size n)))
        × (r.table ≡ some t)
  unfolding run_command cmd_count respond
  execute-count_occupied m =
      let n = f.bits (f.divide (nonempty t.buckets) t.buckets_count) in
      let counted = table_occupied_bucket_counter_lem f.zero_double f.divide env v l given in
      (
        record {
          result = ok_response (some (print_size n)) (length (print_size n));
          table = some t;
          destroyed = [];
          events = in_turn t.buckets_count 0;
        },
        execute_command-row f alloc made env (some t) 2 _ (codes "OCCUPIED_BUCKET" ∷ []) (m ∷ [])
              refl refl
            ∙ rw (build-occupied m, counted, respond-text n (codes "Failed to format COUNT result"))
                refl,
        refl,
        refl,
      )
