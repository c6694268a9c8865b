-- ===== src/Table/Locked.antt =====
-- The locks of every operation of hashtable.c that takes some.
use simple_c_database.Prelude.{ℕ, Bool, Option}
use simple_c_database.Strings.{Bytes}
use simple_c_database.Table.Data.{Table, Env}
use simple_c_database.Table.Keys.{
  table_set, table_add, table_delete, table_replace, table_exist, table_get,
}
use simple_c_database.Table.Life.{table_clear}
use simple_c_database.Table.Monitor.{table_memory_usage, table_occupied_bucket_counter}
use simple_c_database.Table.Resize.{table_resize}
use simple_c_database.Table.KeyLocks.{
  Ordered, table_set-Ordered, table_add-Ordered, table_delete-Ordered, table_replace-Ordered,
  table_exist-Ordered, table_get-Ordered,
}
use simple_c_database.Table.AllLocks.{
  table_clear-Ordered, table_memory_usage-Ordered, table_resize-Ordered,
  table_occupied_bucket_counter-Ordered,
}

module _ {ℓ} {V : Type ℓ} (env : Env) (t : Option (Table V)) where
  -- On any table, valid or not, NULL included, and with any locks refused, every operation that takes
  -- locks, if it returns, takes them in rising order of their index, never one that it holds, releases
  -- only locks that it holds, and holds none when it returns: so do the six operations on a key,
  -- `table_clear`, `table_resize`, `table_memory_usage` and `table_occupied_bucket_counter`.
  pub locks_in_order :
      (key : Option Bytes) (value : Option V) (d : Bool) (copy : V → ℕ → V) (sizer : Option (V → ℕ))
      (n : ℕ) {Double : Type 0} (zero_double : Double) (divide : ℕ → ℕ → Double)
      → Ordered (table_set env t key value d)
        × Ordered (table_add env t key value)
        × Ordered (table_replace env t key value d)
        × Ordered (table_delete env t key d)
        × Ordered (table_exist env t key)
        × Ordered (table_get env copy t key sizer)
        × Ordered (table_clear env t d)
        × Ordered (table_resize env t n)
        × Ordered (table_memory_usage env t sizer)
        × Ordered (table_occupied_bucket_counter zero_double divide env t)
  locks_in_order key value d copy sizer n zero_double divide = (
    table_set-Ordered env t key value d,
    table_add-Ordered env t key value,
    table_replace-Ordered env t key value d,
    table_delete-Ordered env t key d,
    table_exist-Ordered env t key,
    table_get-Ordered env copy t key sizer,
    table_clear-Ordered env t d,
    table_resize-Ordered env t n,
    table_memory_usage-Ordered env t sizer,
    table_occupied_bucket_counter-Ordered env zero_double divide t,
  )
