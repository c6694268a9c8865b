-- ===== src/Table/Monitor.antt =====
-- The monitoring functions. Quotients of two converted counts are left to a parameter `divide`, which
-- stands for the division of `double`s, with `zero_double` for 0.0.
use simple_c_database.Prelude.{
  ℕ, ◌+◌, ◌-◌, ◌*◌, ◌%◌, ◌^◌, Bool, true, false, ◌||◌, Option, none, some, List, [], ◌∷◌, ◌++◌, one,
  ltb, ◌==◌, if◌then◌else◌,
}
use simple_c_database.Table.Data.{
  Bucket, Table, bucket_capacity, sizeof_table, sizeof_bucket, Env, Event, rdlocked, unlocked,
  Outcome, fault, done, Reply, unchanged, events_of, held, refused, outside, lock_each,
}

module _ {ℓ} {V : Type ℓ} where
  unfoldable pub table_capacity : Option (Table V) → ℕ
  table_capacity none = 0
  table_capacity (some t) = t.buckets_count * bucket_capacity % 2 ^ 64

  unfoldable pub table_total_elem : Option (Table V) → Outcome ℕ
  table_total_elem none = fault
  table_total_elem (some t) = done t.elem_count

  -- The sum after one slot, for a value that is there.
  unfoldable pub add_value_size : (V → ℕ) → ℕ → Bool → Option V → ℕ
  add_value_size value_sizer total true (some v) = (total + value_sizer v) % 2 ^ 64
  add_value_size value_sizer total true none = total
  add_value_size value_sizer total false value = total

  -- The loops of `table_memory_usage` over the values.
  unfoldable pub add_bucket_sizes : (V → ℕ) → Bucket V → ℕ → ℕ
  add_bucket_sizes value_sizer [] total = total
  add_bucket_sizes value_sizer (s ∷ b) total =
      add_bucket_sizes value_sizer b (add_value_size value_sizer total s.in_use s.value)

  unfoldable pub add_sizes : (V → ℕ) → List (Bucket V) → ℕ → ℕ
  add_sizes value_sizer [] total = total
  add_sizes value_sizer (b ∷ bs) total =
      add_sizes value_sizer bs (add_bucket_sizes value_sizer b total)

  -- The sizes of the table's own blocks.
  unfoldable pub fixed_size : Env → Table V → ℕ
  fixed_size env t =
      (sizeof_table + t.buckets_count * sizeof_bucket + t.lock_count * env.sizeof_lock) % 2 ^ 64

  -- The loop of locks goes up to `buckets_count`.
  unfoldable pub table_memory_usage : Env → Option (Table V) → Option (V → ℕ) → Outcome (Reply V ℕ)
  table_memory_usage env none value_sizer = done (unchanged 0 none)
  table_memory_usage env (some t) none = done (unchanged (fixed_size env t) (some t))
  table_memory_usage env (some t) (some value_sizer) =
      elim (lock_each env t.lock_count t.buckets_count 0) [
        | outside ↦ fault
        | refused i ↦ done (record {
          result = 2 ^ 64 - 1;
          table = some t;
          destroyed = [];
          events = events_of rdlocked i 0 ++ events_of unlocked i 0;
        })
        | held ↦ done (record {
          result = add_sizes value_sizer t.buckets (fixed_size env t);
          table = some t;
          destroyed = [];
          events = events_of rdlocked t.buckets_count 0 ++ events_of unlocked t.buckets_count 0;
        })
      ]

  -- Some slot of the bucket is in use.
  unfoldable pub occupied : Bucket V → Bool
  occupied [] = false
  occupied (s ∷ b) = s.in_use || occupied b

  -- What one bucket adds: a bucket whose lock is refused is not counted.
  unfoldable pub add_occupied :
      Env → ℕ → Bucket V → ℕ → Outcome (ℕ × List Event) → Outcome (ℕ × List Event)
  add_occupied env lock_count b i fault = fault
  add_occupied env lock_count b i (done (n, e)) =
      if ltb i lock_count
      then (if env.lock i
          then done (one (occupied b) + n, rdlocked i ∷ unlocked i ∷ e)
          else done (n, e))
      else fault

  -- The loop of `table_occupied_bucket_counter` from bucket `i` on.
  unfoldable pub count_occupied : Env → ℕ → List (Bucket V) → ℕ → Outcome (ℕ × List Event)
  count_occupied env lock_count [] i = done (0, [])
  count_occupied env lock_count (b ∷ bs) i =
      add_occupied env lock_count b i (count_occupied env lock_count bs (i + 1))

  module _ {Double : Type 0} (zero_double : Double) (divide : ℕ → ℕ → Double) where
    unfoldable pub table_load_factor : Option (Table V) → Double
    table_load_factor none = zero_double
    table_load_factor (some t) =
        let capacity = t.buckets_count * bucket_capacity % 2 ^ 64 in
        if capacity == 0 then zero_double else divide t.elem_count capacity

    unfoldable pub table_occupied_bucket_counter : Env → Option (Table V) → Outcome (Reply V Double)
    table_occupied_bucket_counter env none = done (unchanged zero_double none)
    table_occupied_bucket_counter env (some t) =
        if t.buckets_count == 0
        then done (unchanged zero_double (some t))
        else elim (count_occupied env t.lock_count t.buckets 0) [
          | fault ↦ fault
          | done (n, e) ↦ done (record {
            result = divide n t.buckets_count;
            table = some t;
            destroyed = [];
            events = e;
          })
        ]
