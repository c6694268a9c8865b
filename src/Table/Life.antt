-- ===== src/Table/Life.antt =====
-- `table_create`, `table_destroy` and `table_clear`.
use simple_c_database.Bitwise.{next_power_of_2}
use simple_c_database.Prelude.{
  ℕ, zero, suc, ◌+◌, ◌-◌, ◌*◌, ◌%◌, ◌^◌, bit_and, Bool, true, false, Option, none, some, List, [],
  ◌∷◌, ◌++◌, replicate, ℤ, pos, neg, ◌==◌, if◌then◌else◌,
}
use simple_c_database.Table.Data.{
  Slot, Bucket, Table, empty_bucket, sizeof_table, sizeof_bucket, Env, calloc, table_block,
  buckets_block, locks_block, allocated, freed, initialised, destroyed_lock, wrlocked, unlocked,
  Outcome, fault, done, Reply, unchanged, events_of, held, refused, outside, lock_each,
}
use simple_c_database.Table.Scan.{delete_slot}

-- The adjustment of a requested capacity; the test is `capacity & (capacity - 1)`, of a capacity that
-- is not 0.
unfoldable pub adjust_capacity : ℕ → ℕ
adjust_capacity capacity =
    if bit_and capacity (capacity - 1) == 0 then capacity else next_power_of_2 capacity

-- The loop of `pthread_rwlock_init`, with `left` = lock_count - i: the index at which it fails.
unfoldable pub init_each : (ℕ → Bool) → ℕ → ℕ → Option ℕ
init_each ok zero i = none
init_each ok (suc left) i = let rest = init_each ok left (i + 1) in if ok i then rest else some i

-- `calloc` and `malloc` of the two arrays, and the locks; the table itself is allocated.
unfoldable pub create_arrays {ℓ} : {V : Type ℓ} → Env → ℕ → Reply V Bool
create_arrays env capacity =
    if calloc env capacity sizeof_bucket
    then (if env.malloc (capacity * env.sizeof_lock % 2 ^ 64)
        then elim (init_each env.init_lock capacity 0) [
          | none ↦ record {
            result = true;
            table = some (record {
              buckets = replicate capacity empty_bucket;
              buckets_count = capacity;
              elem_count = 0;
              lock_count = capacity;
            });
            destroyed = [];
            events =
                allocated table_block
                ∷ allocated buckets_block
                ∷ allocated locks_block
                ∷ events_of initialised capacity 0;
          }
          | some i ↦ record {
            result = false;
            table = none;
            destroyed = [];
            events =
                (allocated table_block
                  ∷ allocated buckets_block
                  ∷ allocated locks_block
                  ∷ events_of initialised i 0)
                ++ events_of destroyed_lock i 0
                ++ (freed locks_block ∷ freed buckets_block ∷ freed table_block ∷ []);
          }
        ]
        else record {
          result = false;
          table = none;
          destroyed = [];
          events =
              allocated table_block
              ∷ allocated buckets_block
              ∷ freed buckets_block
              ∷ freed table_block
              ∷ [];
        })
    else record {
      result = false;
      table = none;
      destroyed = [];
      events = allocated table_block ∷ freed table_block ∷ [];
    }

-- `table` is the table returned, `none` for NULL; `result` repeats whether there is one.
unfoldable pub table_create {ℓ} : {V : Type ℓ} → Env → ℕ → Reply V Bool
table_create env initial_capacity =
    if initial_capacity == 0
    then unchanged false none
    else if env.malloc sizeof_table
    then create_arrays env (adjust_capacity initial_capacity)
    else unchanged false none

-- The first lock in the loop that is not destroyed ends it.
unfoldable pub destroy_each : (ℕ → Bool) → ℕ → ℕ → Option ℕ
destroy_each ok zero i = none
destroy_each ok (suc left) i =
    let rest = destroy_each ok left (i + 1) in if ok i then rest else some i

module _ {ℓ} {V : Type ℓ} where
  -- The values of the slots in use, in the order of the loops.
  unfoldable pub used_values : Bucket V → List (Option V)
  used_values [] = []
  used_values (s ∷ b) = let rest = used_values b in if s.in_use then s.value ∷ rest else rest

  unfoldable pub all_values : List (Bucket V) → List (Option V)
  all_values [] = []
  all_values (b ∷ bs) = used_values b ++ all_values bs

  -- Where a lock is not destroyed, the call returns early with the memory still there.
  unfoldable pub table_destroy : Env → Option (Table V) → Bool → Reply V ℤ
  table_destroy env none destroyer = unchanged (pos 0) none
  table_destroy env (some t) destroyer =
      let values = if destroyer then all_values t.buckets else [] in
      elim (destroy_each env.destroy_lock t.lock_count 0) [
        | some i ↦ record {
          result = neg 1;
          table = some t;
          destroyed = values;
          events = events_of destroyed_lock i 0;
        }
        | none ↦ record {
          result = pos 0;
          table = none;
          destroyed = values;
          events =
              events_of destroyed_lock t.lock_count 0
              ++ (freed locks_block ∷ freed buckets_block ∷ freed table_block ∷ []);
        }
      ]

  -- A slot and a bucket after the loops of `table_clear`.
  unfoldable pub clear_slot : Slot V → Slot V
  clear_slot s = if s.in_use then delete_slot s else s

  unfoldable pub clear_bucket : Bucket V → Bucket V
  clear_bucket [] = []
  clear_bucket (s ∷ b) = clear_slot s ∷ clear_bucket b

  unfoldable pub clear_all : List (Bucket V) → List (Bucket V)
  clear_all [] = []
  clear_all (b ∷ bs) = clear_bucket b ∷ clear_all bs

  unfoldable pub table_clear : Env → Option (Table V) → Bool → Outcome (Reply V ℤ)
  table_clear env none destroyer = done (unchanged (neg 1) none)
  table_clear env (some t) destroyer = elim (lock_each env t.lock_count t.lock_count 0) [
    | outside ↦ fault
    | refused i ↦ done (record {
      result = neg 1;
      table = some t;
      destroyed = [];
      events = events_of wrlocked i 0 ++ events_of unlocked i 0;
    })
    | held ↦ done (record {
      result = pos 0;
      table = some (record t { buckets = clear_all t.buckets; elem_count = 0 });
      destroyed = if destroyer then all_values t.buckets else [];
      events = events_of wrlocked t.lock_count 0 ++ events_of unlocked t.lock_count 0;
    })
  ]
