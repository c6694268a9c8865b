-- ===== src/Command/Procs.antt =====
-- The functions `cmd_…` of command.c. Each hands its input to an operation of the table and makes a
-- result of what comes back. `destroy_value_wrapper` is given wherever a destroyer is asked for.
use simple_c_database.Command.Data.{
  Floats, type_get, type_set, type_add, type_del, type_exist, type_replace, type_resize, type_clear,
  type_loadfactor, type_count, type_empty, CountType, count_capacity, count_memory_usage,
  count_total_elem, count_occupied_bucket, Entry, sizeof_entry, copy_entry, counter_d, counter_s,
  CommandResult, no_result, Proc, ◌>>=◌, with_result,
}
use simple_c_database.Prelude.{
  ℕ, ◌+◌, ◌%◌, ◌^◌, Bool, true, false, not, ◌||◌, Option, none, some, List, [], ◌∷◌, ℤ, ◌==◌,
  if◌then◌else◌, is_zero,
}
use simple_c_database.Strings.{is_key_valid}
use simple_c_database.Table.Data.{Table, Env, Outcome, done, Reply, unchanged}
use simple_c_database.Table.Keys.{
  table_set, table_add, table_get, table_exist, table_delete, table_replace,
}
use simple_c_database.Table.Life.{table_clear}
use simple_c_database.Table.Monitor.{
  table_capacity, table_total_elem, table_memory_usage, table_load_factor,
  table_occupied_bucket_counter,
}
use simple_c_database.Table.Resize.{table_resize}

unfoldable pub std_value_sizer : Option Entry → ℕ
std_value_sizer none = 0
std_value_sizer (some e) = (sizeof_entry + e.size) % 2 ^ 64

-- The block that it frees.
unfoldable pub std_value_destroy : Option Entry → List Entry
std_value_destroy none = []
std_value_destroy (some value) = value ∷ []

unfoldable pub destroy_value_wrapper : Option Entry → List Entry
unfolding std_value_destroy
destroy_value_wrapper data' = std_value_destroy data'

-- `value == NULL`
abbrev pub is_null {ℓ} : {A : Type ℓ} → Option A → Bool
is_null none = true
is_null (some a) = false

module _ (f : Floats) where
  -- The result that `cmd_get` makes of the pointer of `table_get`.
  abbrev pub get_result : Option Entry → CommandResult f.Double
  get_result none = record (no_result f) { tag = type_empty }
  get_result (some e) = record (no_result f) { tag = type_get; value = some e }

  unfoldable pub cmd_get : Proc f.Double
  cmd_get env none input = done (unchanged (no_result f) none)
  cmd_get env (some t) none = done (unchanged (no_result f) (some t))
  cmd_get env (some t) (some input) =
      if not (is_key_valid input.key) then done (unchanged (no_result f) (some t)) else (do
        r ← table_get env copy_entry (some t) input.key (some (λ e. std_value_sizer (some e)))
        done (with_result (get_result r.result) r))

  unfoldable pub cmd_set : Proc f.Double
  cmd_set env none input = done (unchanged (no_result f) none)
  cmd_set env (some t) none = done (unchanged (no_result f) (some t))
  cmd_set env (some t) (some input) =
      if not (is_key_valid input.key) || is_null input.value
      then done (unchanged (no_result f) (some t))
      else (do
        r ← table_set env (some t) input.key input.value true
        done (with_result (record (no_result f) { tag = type_set; error = r.result }) r))

  unfoldable pub cmd_add : Proc f.Double
  cmd_add env none input = done (unchanged (no_result f) none)
  cmd_add env (some t) none = done (unchanged (no_result f) (some t))
  cmd_add env (some t) (some input) =
      if not (is_key_valid input.key) || is_null input.value
      then done (unchanged (no_result f) (some t))
      else (do
        r ← table_add env (some t) input.key input.value
        done (with_result (record (no_result f) { tag = type_add; error = r.result }) r))

  -- The type stays `CMD_TYPE_ERROR` where the deletion fails.
  abbrev pub del_result : ℤ → CommandResult f.Double
  del_result error =
      if is_zero error
      then record (no_result f) { tag = type_del; error = error }
      else record (no_result f) { error = error }

  unfoldable pub cmd_del : Proc f.Double
  cmd_del env none input = done (unchanged (no_result f) none)
  cmd_del env (some t) none = done (unchanged (no_result f) (some t))
  cmd_del env (some t) (some input) =
      if not (is_key_valid input.key) then done (unchanged (no_result f) (some t)) else (do
        r ← table_delete env (some t) input.key true
        done (with_result (del_result r.result) r))

  unfoldable pub cmd_exist : Proc f.Double
  cmd_exist env none input = done (unchanged (no_result f) none)
  cmd_exist env (some t) none = done (unchanged (no_result f) (some t))
  cmd_exist env (some t) (some input) =
      if not (is_key_valid input.key) then done (unchanged (no_result f) (some t)) else (do
        r ← table_exist env (some t) input.key
        done (with_result (record (no_result f) { tag = type_exist; existence = r.result }) r))

  abbrev pub replace_result : ℤ → CommandResult f.Double
  replace_result error =
      if is_zero error then record (no_result f) { tag = type_replace } else no_result f

  unfoldable pub cmd_replace : Proc f.Double
  cmd_replace env none input = done (unchanged (no_result f) none)
  cmd_replace env (some t) none = done (unchanged (no_result f) (some t))
  cmd_replace env (some t) (some input) =
      if not (is_key_valid input.key) || is_null input.value
      then done (unchanged (no_result f) (some t))
      else (do
        r ← table_replace env (some t) input.key input.value true
        done (with_result (replace_result r.result) r))

  abbrev pub resize_result : ℤ → CommandResult f.Double
  resize_result error =
      if is_zero error then record (no_result f) { tag = type_resize } else no_result f

  unfoldable pub cmd_resize : Proc f.Double
  cmd_resize env none input = done (unchanged (no_result f) none)
  cmd_resize env (some t) none = done (unchanged (no_result f) (some t))
  cmd_resize env (some t) (some input) =
      if input.new_size == 0 then done (unchanged (no_result f) (some t)) else (do
        r ← table_resize env (some t) input.new_size
        done (with_result (resize_result r.result) r))

  unfoldable pub cmd_clear : Proc f.Double
  cmd_clear env none input = done (unchanged (no_result f) none)
  cmd_clear env (some t) none = done (unchanged (no_result f) (some t))
  cmd_clear env (some t) (some input) = do
    r ← table_clear env (some t) true
    done (with_result (record (no_result f) { tag = type_clear; error = r.result }) r)

  unfoldable pub cmd_load_factor : Proc f.Double
  cmd_load_factor env none input = done (unchanged (no_result f) none)
  cmd_load_factor env (some t) none = done (unchanged (no_result f) (some t))
  cmd_load_factor env (some t) (some input) = done (
      unchanged
        (record (no_result f) {
          tag = type_loadfactor;
          load_factor = table_load_factor f.zero_double f.divide (some t);
        })
        (some t))

  -- The branches of the `switch` of `cmd_count`; none of them writes the type of the counter.
  unfoldable pub count_by :
      Env → Table Entry → CountType → Outcome (Reply Entry (CommandResult f.Double))
  count_by env t count_occupied_bucket = do
    r ← table_occupied_bucket_counter f.zero_double f.divide env (some t)
    done (with_result (record (no_result f) { tag = type_count; counter = counter_d r.result }) r)
  count_by env t count_capacity = done (
      unchanged
        (record (no_result f) { tag = type_count; counter = counter_s (table_capacity (some t)) })
        (some t))
  count_by env t count_memory_usage = do
    r ← table_memory_usage env (some t) (some (λ e. std_value_sizer (some e)))
    done (with_result (record (no_result f) { tag = type_count; counter = counter_s r.result }) r)
  count_by env t count_total_elem = do
    n ← table_total_elem (some t)
    done (unchanged (record (no_result f) { tag = type_count; counter = counter_s n }) (some t))

  unfoldable pub cmd_count : Proc f.Double
  unfolding count_by
  cmd_count env none input = done (unchanged (no_result f) none)
  cmd_count env (some t) none = done (unchanged (no_result f) (some t))
  cmd_count env (some t) (some input) = count_by env t input.count_type
