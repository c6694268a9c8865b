-- ===== src/Table/Tests/Edges.antt =====
-- The theorems on long keys, wrapped capacities and the monitoring functions, at small tables.
use simple_c_database.Table.Growth.{table_resize-grows}
use simple_c_database.Table.Life.{adjust_capacity}
use simple_c_database.Table.Resized.{Resized}
use simple_c_database.Prelude.{
  ℕ, ◌+◌, ◌*◌, ◌^◌, ◌%◌, ◌≡◌, refl, some, [], ◌++◌, replicate, arith, ℤ, pos,
}
use simple_c_database.Strings.{Bytes}
use simple_c_database.Table.Data.{
  Reply, done, events_of, rdlocked, unlocked, sizeof_table, sizeof_bucket,
}
use simple_c_database.Table.Keys.{table_add}
use simple_c_database.Table.LongKeys.{Lost, table_add_long_key}
use simple_c_database.Table.Measured.{
  slot_size, nonempty, in_turn, table_memory_usage_lem, table_occupied_bucket_counter_lem,
}
use simple_c_database.Table.Monitor.{table_memory_usage, table_occupied_bucket_counter}
use simple_c_database.Table.Resize.{table_resize}
use simple_c_database.Table.Tests.{
  willing, nothing, nothing-IsValid, one_entry, one_entry-IsValid, locked, program,
}
use simple_c_database.Table.Valid.{total}
use simple_c_database.Table.Wrapped.{table_resize_wraps}

table_memory_usage_lem_example :
    table_memory_usage willing (some one_entry) (some (λ x. x))
    ≡ done (record {
      result =
          (sizeof_table
            + one_entry.buckets_count * sizeof_bucket
            + one_entry.lock_count * willing.sizeof_lock
            + total (slot_size (λ x. x)) one_entry.buckets)
          % 2 ^ 64;
      table = some one_entry;
      destroyed = [];
      events = events_of rdlocked 2 0 ++ events_of unlocked 2 0;
    })
table_memory_usage_lem_example =
    table_memory_usage_lem willing one_entry (λ x. x) locked (λ _ _. refl)

table_occupied_bucket_counter_lem_example :
    table_occupied_bucket_counter {Double = ℕ × ℕ} (0, 0) (λ a b. (a, b)) willing (some one_entry)
    ≡ done (record {
      result = (nonempty one_entry.buckets, 2);
      table = some one_entry;
      destroyed = [];
      events = in_turn 2 0;
    })
table_occupied_bucket_counter_lem_example =
    table_occupied_bucket_counter_lem (0, 0) (λ a b. (a, b)) willing one_entry-IsValid locked
      (λ _ _. refl)

abbrev long_key : Bytes
long_key = replicate 260 b'a'

table_add_long_key_example :
    (r : Reply ℕ ℤ) × (table_add willing (some nothing) (some long_key) (some 9) ≡ done r)
    × Lost willing nothing long_key r
table_add_long_key_example =
    table_add_long_key nothing-IsValid (omega arith) long_key (omega arith) willing refl (some 9)
      (unfold program in omega arith)

table_resize_wraps_example :
    (r : Reply ℕ ℤ) × (table_resize willing (some nothing) (2 ^ 63 + 1) ≡ done r)
    × (r.result ≡ pos 0)
    × (r.table ≡ some (record nothing { buckets = []; buckets_count = 0 }))
table_resize_wraps_example =
    table_resize_wraps willing nothing-IsValid refl (λ _ _. refl) refl (2 ^ 63 + 1) (omega arith)
      (omega arith)

table_resize-grows_example :
    (r : Reply ℕ ℤ) × (table_resize willing (some one_entry) 3 ≡ done r)
    × Resized one_entry-IsValid (adjust_capacity 3) r
table_resize-grows_example =
    table_resize-grows one_entry-IsValid willing 3 (omega arith) (omega arith) (λ _ _. refl)
      (unfold program in omega arith) (unfold program in omega arith) (unfold program in refl)
