-- ===== src/Command/Ended.antt =====
-- Every command on a valid table with its locks: the call ends, with a valid table and a known status.
use simple_c_database.Command.Data.{
  Floats, Tag, type_get, type_set, type_add, type_exist, type_clear, type_loadfactor, type_count,
  CountType, count_capacity, count_memory_usage, count_total_elem, count_occupied_bucket, Entry,
  copy_entry, CommandData, counter_d, counter_s, CommandResult, no_result, ◌>>=◌, with_result,
}
use simple_c_database.Command.Inputs.{KeyShort, InputSafe}
use simple_c_database.Command.Procs.{
  std_value_sizer, get_result, cmd_get, cmd_set, cmd_add, del_result, cmd_del, cmd_exist,
  replace_result, cmd_replace, resize_result, cmd_resize, cmd_clear, cmd_load_factor, count_by,
  cmd_count, is_null,
}
use simple_c_database.Prelude.{
  ℕ, ◌≡◌, refl, arith, true, false, not, ◌||◌, Option, none, some, neg, is_zero, Bool-cases, inl,
  inr, ◌==◌,
}
use simple_c_database.Strings.{Bytes, is_key_valid}
use simple_c_database.Table.Data.{Table, Env, Outcome, done, Reply, unchanged}
use simple_c_database.Table.Keys.{
  table_set, table_add, table_get, table_exist, table_delete, table_replace,
}
use simple_c_database.Table.Life.{table_clear}
use simple_c_database.Table.Resize.{table_resize}
use simple_c_database.Table.Monitor.{
  table_memory_usage, table_occupied_bucket_counter, table_capacity, table_total_elem,
  table_load_factor,
}
use simple_c_database.Table.Safe.{
  Ends, table_set-Ends, table_add-Ends, table_replace-Ends, table_delete-Ends, table_exist-Ends,
  table_get-Ends, table_resize-Ends, table_clear-Ends, table_memory_usage-Ends,
  table_occupied_bucket_counter-Ends,
}
use simple_c_database.Table.Valid.{IsValid, IsLocked}

-- A result of type GET comes with a value.
abbrev pub HasValue : Tag → Option Entry → Type 0
HasValue type_get none = ⊥
HasValue tag value = Unit

-- A command ends, with a result that can be answered.
pub record Answers (Double : Type 0) (t : Table Entry)
    (o : Outcome (Reply Entry (CommandResult Double))) : Type 0 where
  pub ends : Ends t o
  pub value : HasValue ends.reply.result.tag ends.reply.result.value

module _ (f : Floats) {t : Table Entry} (v : IsValid t) where
  -- A command that hands the table back.
  refused-Answers :
      (o : Outcome (Reply Entry (CommandResult f.Double))) (r : CommandResult f.Double)
      → o ≡ done (unchanged r (some t))
      → HasValue r.tag r.value
      → Answers f.Double t o
  refused-Answers o r run value = record {
    ends = record {
      reply = unchanged r (some t);
      run = run;
      after = t;
      table = refl;
      valid = v;
      same_locks = refl;
    };
    value = value;
  }

  -- A command that makes a result of what an operation of the table returns.
  then-Answers {κ} :
      {R : Type κ} (o : Outcome (Reply Entry (CommandResult f.Double)))
      (call : Outcome (Reply Entry R)) (g : R → CommandResult f.Double)
      → o ≡ (call >>= λ r. done (with_result (g r.result) r))
      → ((r : R) → HasValue (g r).tag (g r).value)
      → Ends t call
      → Answers f.Double t o
  then-Answers o call g same values e = record {
    ends = record {
      reply = with_result (g e.reply.result) e.reply;
      run = rw (same, e.run) refl;
      after = e.after;
      table = e.table;
      valid = e.valid;
      same_locks = e.same_locks;
    };
    value = values e.reply.result;
  }

module _ {t : Table Entry} (v : IsValid t) (l : IsLocked t) (env : Env) where
  -- The operations on a key that may be NULL.
  kept {κ} : {R : Type κ} (r : R) → Ends t (done (unchanged r (some t)))
  kept r = record {
    reply = unchanged r (some t);
    run = refl;
    after = t;
    table = refl;
    valid = v;
    same_locks = refl;
  }

  set_key-Ends :
      (key : Option Bytes) (value : Option Entry)
      → KeyShort key
      → Ends t (table_set env (some t) key value true)
  unfolding table_set
  set_key-Ends none value short = kept (neg 1)
  set_key-Ends (some k) value short = table_set-Ends v l k short env value true

  add_key-Ends :
      (key : Option Bytes) (value : Option Entry)
      → KeyShort key
      → Ends t (table_add env (some t) key value)
  unfolding table_add
  add_key-Ends none value short = kept (neg 1)
  add_key-Ends (some k) value short = table_add-Ends v l k short env value

  replace_key-Ends :
      (key : Option Bytes) (value : Option Entry)
      → KeyShort key
      → Ends t (table_replace env (some t) key value true)
  unfolding table_replace
  replace_key-Ends none value short = kept (neg 1)
  replace_key-Ends (some k) value short = table_replace-Ends v l k short env value true

  delete_key-Ends :
      (key : Option Bytes) → KeyShort key → Ends t (table_delete env (some t) key true)
  unfolding table_delete
  delete_key-Ends none short = kept (neg 3)
  delete_key-Ends (some k) short = table_delete-Ends v l k short env true

  exist_key-Ends : (key : Option Bytes) → KeyShort key → Ends t (table_exist env (some t) key)
  unfolding table_exist
  exist_key-Ends none short = kept false
  exist_key-Ends (some k) short = table_exist-Ends v l k short env

  get_key-Ends :
      (key : Option Bytes) (sizer : Entry → ℕ)
      → KeyShort key
      → Ends t (table_get env copy_entry (some t) key (some sizer))
  unfolding table_get
  get_key-Ends none sizer short = kept none
  get_key-Ends (some k) sizer short = table_get-Ends v l k short env copy_entry sizer

module _ (f : Floats) {t : Table Entry} (v : IsValid t) (l : IsLocked t) (env : Env)
    (input : CommandData) (ok : InputSafe input) where
  pub cmd_get-Answers : Answers f.Double t (cmd_get f env (some t) (some input))
  unfolding cmd_get
  cmd_get-Answers = elim (Bool-cases (not (is_key_valid input.key))) [
    | inl bad ↦ refused-Answers f v _ (no_result f) (rw bad refl) tt
    | inr good ↦
        then-Answers f v _
          (table_get env copy_entry (some t) input.key (some (λ e. std_value_sizer (some e))))
          (get_result f) (rw good refl) found (get_key-Ends v l env input.key _ ok.0)
  ]
    where
      found : (r : Option Entry) → HasValue (get_result f r).tag (get_result f r).value
      found none = tt
      found (some e) = tt

  pub cmd_set-Answers : Answers f.Double t (cmd_set f env (some t) (some input))
  unfolding cmd_set
  cmd_set-Answers = elim (Bool-cases (not (is_key_valid input.key) || is_null input.value)) [
    | inl bad ↦ refused-Answers f v _ (no_result f) (rw bad refl) tt
    | inr good ↦
        then-Answers f v _ (table_set env (some t) input.key input.value true)
          (λ e. record (no_result f) { tag = type_set; error = e }) (rw good refl) (λ _. tt)
          (set_key-Ends v l env input.key input.value ok.0)
  ]

  pub cmd_add-Answers : Answers f.Double t (cmd_add f env (some t) (some input))
  unfolding cmd_add
  cmd_add-Answers = elim (Bool-cases (not (is_key_valid input.key) || is_null input.value)) [
    | inl bad ↦ refused-Answers f v _ (no_result f) (rw bad refl) tt
    | inr good ↦
        then-Answers f v _ (table_add env (some t) input.key input.value)
          (λ e. record (no_result f) { tag = type_add; error = e }) (rw good refl) (λ _. tt)
          (add_key-Ends v l env input.key input.value ok.0)
  ]

  pub cmd_del-Answers : Answers f.Double t (cmd_del f env (some t) (some input))
  unfolding cmd_del
  cmd_del-Answers = elim (Bool-cases (not (is_key_valid input.key))) [
    | inl bad ↦ refused-Answers f v _ (no_result f) (rw bad refl) tt
    | inr good ↦
        then-Answers f v _ (table_delete env (some t) input.key true) (del_result f) (rw good refl)
          (λ e. elim (Bool-cases (is_zero e)) [ inl zero ↦ rw zero tt | inr failed ↦ rw failed tt ])
          (delete_key-Ends v l env input.key ok.0)
  ]

  pub cmd_exist-Answers : Answers f.Double t (cmd_exist f env (some t) (some input))
  unfolding cmd_exist
  cmd_exist-Answers = elim (Bool-cases (not (is_key_valid input.key))) [
    | inl bad ↦ refused-Answers f v _ (no_result f) (rw bad refl) tt
    | inr good ↦
        then-Answers f v _ (table_exist env (some t) input.key)
          (λ b. record (no_result f) { tag = type_exist; existence = b }) (rw good refl) (λ _. tt)
          (exist_key-Ends v l env input.key ok.0)
  ]

  pub cmd_replace-Answers : Answers f.Double t (cmd_replace f env (some t) (some input))
  unfolding cmd_replace
  cmd_replace-Answers = elim (Bool-cases (not (is_key_valid input.key) || is_null input.value)) [
    | inl bad ↦ refused-Answers f v _ (no_result f) (rw bad refl) tt
    | inr good ↦
        then-Answers f v _ (table_replace env (some t) input.key input.value true)
          (replace_result f) (rw good refl)
          (λ e. elim (Bool-cases (is_zero e)) [ inl zero ↦ rw zero tt | inr failed ↦ rw failed tt ])
          (replace_key-Ends v l env input.key input.value ok.0)
  ]

  pub cmd_resize-Answers : Answers f.Double t (cmd_resize f env (some t) (some input))
  unfolding cmd_resize
  cmd_resize-Answers = elim (Bool-cases (input.new_size == 0)) [
    | inl bad ↦ refused-Answers f v _ (no_result f) (rw bad refl) tt
    | inr good ↦
        then-Answers f v _ (table_resize env (some t) input.new_size) (resize_result f)
          (rw good refl)
          (λ e. elim (Bool-cases (is_zero e)) [ inl zero ↦ rw zero tt | inr failed ↦ rw failed tt ])
          (table_resize-Ends v env input.new_size (ground arith) ok.1)
  ]

  pub cmd_clear-Answers : Answers f.Double t (cmd_clear f env (some t) (some input))
  unfolding cmd_clear
  cmd_clear-Answers =
      then-Answers f v _ (table_clear env (some t) true)
        (λ e. record (no_result f) { tag = type_clear; error = e }) refl (λ _. tt)
        (table_clear-Ends v env true)

  pub cmd_load_factor-Answers : Answers f.Double t (cmd_load_factor f env (some t) (some input))
  unfolding cmd_load_factor
  cmd_load_factor-Answers =
      refused-Answers f v _
        (record (no_result f) {
          tag = type_loadfactor;
          load_factor = table_load_factor f.zero_double f.divide (some t);
        })
        refl tt

  count_by-Answers : (kind : CountType) → Answers f.Double t (count_by f env t kind)
  unfolding count_by table_total_elem
  count_by-Answers count_occupied_bucket =
      then-Answers f v _ (table_occupied_bucket_counter f.zero_double f.divide env (some t))
        (λ x. record (no_result f) { tag = type_count; counter = counter_d x }) refl (λ _. tt)
        (table_occupied_bucket_counter-Ends v f.zero_double f.divide l env)
  count_by-Answers count_capacity =
      refused-Answers f v _
        (record (no_result f) { tag = type_count; counter = counter_s (table_capacity (some t)) })
        refl tt
  count_by-Answers count_memory_usage =
      then-Answers f v _ (table_memory_usage env (some t) (some (λ e. std_value_sizer (some e))))
        (λ n. record (no_result f) { tag = type_count; counter = counter_s n }) refl (λ _. tt)
        (table_memory_usage-Ends v l env (λ e. std_value_sizer (some e)))
  count_by-Answers count_total_elem =
      refused-Answers f v _
        (record (no_result f) { tag = type_count; counter = counter_s t.elem_count }) refl tt

  pub cmd_count-Answers : Answers f.Double t (cmd_count f env (some t) (some input))
  unfolding cmd_count
  cmd_count-Answers = count_by-Answers input.count_type
