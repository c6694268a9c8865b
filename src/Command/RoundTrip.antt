-- ===== src/Command/RoundTrip.antt =====
-- A SET followed by a GET of the same key.
use simple_c_database.Command.Build.{build_command_data}
use simple_c_database.Command.Data.{
  Floats, type_get, type_set, Entry, copy_entry, CommandData, no_data, Registry, ServerContext,
  ExecuteResult, with_result,
}
use simple_c_database.Command.Dispatch.{execute_command-row}
use simple_c_database.Command.Execute.{
  create_error_response, ok_response, respond, respond_error, run_command, execute_command,
}
use simple_c_database.Command.Procs.{std_value_sizer, cmd_get, cmd_set}
use simple_c_database.Command.Registry.{registry_create}
use simple_c_database.Hashing.{hash}
use simple_c_database.Prelude.{
  ℕ, ◌+◌, ◌-◌, ◌%◌, ◌^◌, ◌<◌, ◌≡◌, ◌⊎◌, inl, inr, refl, ap, ◌∙◌, arith, Bool, true, false, none,
  some, [], ◌∷◌, ◌++◌, ℤ, pos, neg, length, take, take_all, codes, ◌==◌, ltb, ◌||◌,
}
use simple_c_database.Strings.Compare.{same_str_iff}
use simple_c_database.Strings.{Bytes, c_str, is_key_valid, memdup, ustrdup, ustrlen}
use simple_c_database.Table.Data.{Table, Env, done, Reply, rdlocked, unlocked}
use simple_c_database.Table.Keys.{table_set}
use simple_c_database.Table.Read.{fetched, table_get_lem}
use simple_c_database.Table.Set.{table_set_lem}
use simple_c_database.Table.Valid.{IsValid, IsLocked, home, contents}

-- The entry that SET makes of a value.
abbrev pub entry_of : Bytes → Entry
entry_of value = record { size = length value; bytes = take (length value) value }

-- A copy of a string where memory is given.
ustrdup-given :
    (alloc : ℕ → Bool) (s : Bytes)
    → ((n : ℕ) → alloc n ≡ true)
    → ustrdup alloc (some s) ≡ some (take (ustrlen (some s)) s ++ 0 ∷ [])
unfolding ustrdup
ustrdup-given alloc s memory = rw (memory (ustrlen (some s) + 1)) refl

module _ (f : Floats) (alloc : ℕ → Bool) {reg : Registry f.Double}
    (made : registry_create f alloc ≡ some reg) (env : Env) (memory : (n : ℕ) → env.malloc n ≡ true)
    (k : Bytes) (valid_key : is_key_valid (some k) ≡ true) (short : length (c_str k) < 255) where
  abbrev with_db : Table Entry → ServerContext f.Double
  with_db t = record { reg = some reg; db = some t }

  module _ {t : Table Entry} (v : IsValid t) (l : IsLocked t) (given : env.lock (home v k) ≡ true)
      (value : Bytes) (fits : 8 + length value < 2 ^ 64) where
    -- The input that is built for SET.
    abbrev set_input : CommandData
    set_input = record no_data { tag = type_set; key = some k; value = some (entry_of value) }

    build-set :
        (m : ℕ)
        → build_command_data env type_set (k ∷ value ∷ []) (m ∷ length value ∷ []) no_data
          ≡ done (pos 0, set_input)
    unfolding build_command_data
    build-set m =
        let block : (8 + length value) % 2 ^ 64 ≡ 8 + length value = omega (arith, fits) in
        let inside : (ltb (8 + length value) (8 + length value)
              || ltb (length value) (length value))
            ≡ false =
          ground arith in
        rw (valid_key, block, memory (8 + length value), inside) refl

    execute-set :
        (m : ℕ) (r : Reply Entry ℤ)
        → table_set env (some t) (some k) (some (entry_of value)) true ≡ done r
        → execute_command f env
            (with_db t)
            (some (codes "SET"))
            (pos 2)
            (k ∷ value ∷ [])
            (m ∷ length value ∷ [])
          ≡ done (with_result (respond_error f env r.result) r)
    unfolding run_command cmd_set respond
    execute-set m r run =
        execute_command-row f alloc made env (some t) 9 _ (k ∷ value ∷ []) (m ∷ length value ∷ [])
          refl refl
        ∙ rw (build-set m, valid_key, run) refl

  module _ {t : Table Entry} (v : IsValid t) (l : IsLocked t)
      (given : env.lock (home v k) ≡ true) where
    abbrev get_input : CommandData
    get_input = record no_data { tag = type_get; key = some k }

    build-get :
        (m : ℕ)
        → build_command_data env type_get (k ∷ []) (m ∷ []) no_data ≡ done (pos 0, get_input)
    unfolding build_command_data
    build-get m = rw valid_key refl

    -- The copy that `table_get` makes of an entry.
    fetched-entry :
        (value : Bytes)
        → 8 + length value < 2 ^ 64
        → fetched env copy_entry (λ e. std_value_sizer (some e)) (some (some (entry_of value)))
          ≡ some (entry_of value)
    unfolding std_value_sizer
    fetched-entry value fits =
        let size : (8 + length value) % 2 ^ 64 ≡ 8 + length value = omega arith in
        let several : (8 + length value == 0) ≡ false = ground arith in
        let rest : 8 + length value - 8 ≡ length value = omega arith in
        let whole : take (length value) value ≡ value =
          take_all (length value) value (omega arith) in
        rw (size, several, memory (8 + length value), rest, whole, whole) refl

    -- GET of a key whose entry has a value answers with the value.
    pub execute-get :
        (m : ℕ) (value : Bytes)
        → 8 + length value < 2 ^ 64
        → contents t k ≡ some (some (entry_of value))
        → (r : Reply Entry ExecuteResult) × (execute_command f env
              (with_db t)
              (some (codes "GET"))
              (pos 1)
              (k ∷ [])
              (m ∷ [])
            ≡ done r)
          × (r.result ≡ ok_response (some value) (length value))
          × (r.table ≡ some t)
    unfolding run_command cmd_get respond memdup hash
    execute-get m value fits there =
        let whole : take (length value) (take (length value) value) ≡ value =
          rw (take_all (length value) value (omega arith))
            (take_all (length value) value (omega arith)) in
        let got = table_get_lem v k l env given copy_entry (λ e. std_value_sizer (some e)) in
        let copied = fetched-entry value fits in
        (
          record {
            result = ok_response (some value) (length value);
            table = some t;
            destroyed = [];
            events = rdlocked (home v k) ∷ unlocked (home v k) ∷ [];
          },
          execute_command-row f alloc made env (some t) 5 _ (k ∷ []) (m ∷ []) refl refl
              ∙ rw (build-get m, valid_key, got, there, copied, memory (length value), whole) refl,
          refl,
          refl,
        )

  module _ {t : Table Entry} (v : IsValid t) (l : IsLocked t) (given : env.lock (home v k) ≡ true)
      (value : Bytes) (fits : 8 + length value < 2 ^ 64) (m m' : ℕ) where
    -- What the reply to SET leads to: success, and then GET of the key on the table that it leaves answers
    -- with the value and changes nothing; or a refusal that changes nothing.
    abbrev pub SetThenGet : Reply Entry ExecuteResult → Type 0
    SetThenGet r =
        ((r.result.status_code ≡ 200)
          × (after : Table Entry) × (r.table ≡ some after)
          × (g : Reply Entry ExecuteResult) × (execute_command f env (with_db after)
                (some (codes "GET")) (pos 1) (k ∷ []) (m' ∷ [])
              ≡ done g)
          × (g.result ≡ ok_response (some value) (length value))
          × (g.table ≡ some after))
        ⊎ ((r.result.status_code ≡ 409) × (contents t k ≡ none) × (r.table ≡ some t))

    respond-zero : (respond_error f env (pos 0)).status_code ≡ 200
    unfolding respond_error create_error_response
    respond-zero = refl

    respond-full : (respond_error f env (neg 2)).status_code ≡ 409
    unfolding respond_error create_error_response
    respond-full =
        rw (ustrdup-given env.malloc (codes "Operation failed") memory, create_error_response) refl

    -- With the registry of `registry_create`, a valid table with its locks, memory and the lock of the
    -- key's bucket given, SET of a value of at most 2^64 - 9 bytes under a key of 1 to 254 bytes returns.
    -- It answers with status 200, and then GET of the key on the table that it leaves answers with
    -- status 200 and the bytes of the value; or it answers with status 409 and changes nothing, and the
    -- key was not in the table.
    pub execute-set-get :
        (r : Reply Entry ExecuteResult) × (execute_command f env
            (with_db t)
            (some (codes "SET"))
            (pos 2)
            (k ∷ value ∷ [])
            (m ∷ length value ∷ [])
          ≡ done r)
        × SetThenGet r
    execute-set-get =
        let (r, run, outcome) = table_set_lem v k (some (entry_of value)) short l env true given in
        (
          with_result (respond_error f env r.result) r,
          execute-set v l given value fits m r run,
          elim outcome [
            | inr (absent, _, kept) ↦ inr (rw kept.0 respond-full, absent, kept.1)
            | inl w ↦
                let there : contents w.after k ≡ some (some (entry_of value)) =
                  w.updates.reads k ∙ rw ((same_str_iff k k).1 refl) refl in
                let same_home : home w.updates.valid k ≡ home v k =
                  ap (λ (n : ℕ). hash k % n) w.updates.shape.0 in
                let (g, asked, answer, same) =
                  execute-get w.updates.valid
                    (omega (arith, l, w.updates.shape.0, w.updates.shape.1)) (rw same_home given) m'
                    value fits there in
                inl (rw w.result respond-zero, w.after, w.table, g, asked, answer, same)
          ],
        )
