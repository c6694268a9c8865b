-- ===== src/Table/Measured.antt =====
-- The monitoring functions on a valid table.
use native.Mathlib.Nat.{one-le-pow}
use simple_c_database.Prelude.{
  ℕ, zero, suc, ◌+◌, ◌*◌, ◌%◌, ◌^◌, ◌≤◌, ◌<◌, ◌≡◌, refl, ap, ◌↔◌, arith, Bool, true, false, Option,
  none, some, List, [], ◌∷◌, ◌++◌, one, ◌==◌, length, ltb,
}
use simple_c_database.Table.Created.{lock_each-held}
use simple_c_database.Table.Data.{
  Slot, Bucket, Table, Env, Event, rdlocked, unlocked, done, events_of, sizeof_table, sizeof_bucket,
}
use simple_c_database.Table.Monitor.{
  add_value_size, add_bucket_sizes, add_sizes, fixed_size, table_memory_usage, occupied,
  add_occupied, count_occupied, table_occupied_bucket_counter,
}
use simple_c_database.Table.Slots.{tally}
use simple_c_database.Table.Valid.{used, IsValid, IsLocked, total}

-- The events of the loop: each bucket is locked and unlocked in turn.
abbrev pub in_turn : ℕ → ℕ → List Event
in_turn zero i = []
in_turn (suc n) i = rdlocked i ∷ unlocked i ∷ in_turn n (i + 1)

module _ {ℓ} {V : Type ℓ} where
  -- What a value weighs: NULL and a free slot weigh nothing.
  abbrev pub value_size : (V → ℕ) → Bool → Option V → ℕ
  value_size value_sizer true (some x) = value_sizer x
  value_size value_sizer true none = 0
  value_size value_sizer false value = 0

  abbrev pub slot_size : (V → ℕ) → Slot V → ℕ
  slot_size value_sizer s = value_size value_sizer s.in_use s.value

  add_value_size-value_size :
      (value_sizer : V → ℕ) (n : ℕ) (taken : Bool) (value : Option V)
      → add_value_size value_sizer (n % 2 ^ 64) taken value
        ≡ (n + value_size value_sizer taken value) % 2 ^ 64
  unfolding add_value_size
  add_value_size-value_size value_sizer n true (some x) = omega arith
  add_value_size-value_size value_sizer n true none = omega arith
  add_value_size-value_size value_sizer n false value = omega arith

  add_bucket_sizes-tally :
      (value_sizer : V → ℕ) (b : Bucket V) (n : ℕ)
      → add_bucket_sizes value_sizer b (n % 2 ^ 64) ≡ (n + tally (slot_size value_sizer) b) % 2 ^ 64
  unfolding add_bucket_sizes tally
  add_bucket_sizes-tally value_sizer [] n = omega arith
  add_bucket_sizes-tally value_sizer (s ∷ b) n =
      rw (add_value_size-value_size value_sizer n s.in_use s.value)
        (omega (arith, add_bucket_sizes-tally value_sizer b (n + slot_size value_sizer s)))

  add_sizes-total :
      (value_sizer : V → ℕ) (bs : List (Bucket V)) (n : ℕ)
      → add_sizes value_sizer bs (n % 2 ^ 64) ≡ (n + total (slot_size value_sizer) bs) % 2 ^ 64
  unfolding add_sizes total
  add_sizes-total value_sizer [] n = omega arith
  add_sizes-total value_sizer (b ∷ bs) n =
      rw (add_bucket_sizes-tally value_sizer b n)
        (omega (arith, add_sizes-total value_sizer bs (n + tally (slot_size value_sizer) b)))

  -- With every lock of a table that has one for each bucket given, `table_memory_usage` with a sizer
  -- returns the size of the table's struct, of each of its buckets and of each of its locks, and the size
  -- of every value that is not NULL in a slot in use, added modulo 2^64. It changes nothing and unlocks
  -- what it locks.
  pub table_memory_usage_lem :
      (env : Env) (t : Table V) (value_sizer : V → ℕ)
      → IsLocked t
      → ((i : ℕ) → i < t.lock_count → env.lock i ≡ true)
      → table_memory_usage env (some t) (some value_sizer)
        ≡ done (record {
          result =
              (sizeof_table
                + t.buckets_count * sizeof_bucket
                + t.lock_count * env.sizeof_lock
                + total (slot_size value_sizer) t.buckets)
              % 2 ^ 64;
          table = some t;
          destroyed = [];
          events = events_of rdlocked t.buckets_count 0 ++ events_of unlocked t.buckets_count 0;
        })
  unfolding table_memory_usage fixed_size
  table_memory_usage_lem env t value_sizer l given =
      let blocks =
        sizeof_table + t.buckets_count * sizeof_bucket + t.lock_count * env.sizeof_lock in
      rw
        (
          lock_each-held env t.lock_count t.buckets_count 0 (omega (arith, l)) given,
          table_memory_usage,
        )
        (ap
          (λ n. done (record {
            result = n;
            table = some t;
            destroyed = [];
            events = events_of rdlocked t.buckets_count 0 ++ events_of unlocked t.buckets_count 0;
          }))
          (add_sizes-total value_sizer t.buckets blocks))

  -- Whether a bucket has an entry, by the count of its slots.
  occupied-tally : (b : Bucket V) → (occupied b ≡ true) ↔ (0 < tally used b)
  unfolding occupied tally
  occupied-tally [] = ground arith
  occupied-tally (s ∷ b) = ground (arith, occupied-tally b)

  -- The number of buckets with an entry.
  abbrev pub nonempty : List (Bucket V) → ℕ
  nonempty [] = 0
  nonempty (b ∷ bs) = one (ltb 0 (tally used b)) + nonempty bs

  count_occupied-nonempty :
      (env : Env) (lock_count : ℕ) (bs : List (Bucket V)) (i : ℕ)
      → i + length bs ≤ lock_count
      → ((j : ℕ) → j < lock_count → env.lock j ≡ true)
      → count_occupied env lock_count bs i ≡ done (nonempty bs, in_turn (length bs) i)
  unfolding count_occupied add_occupied
  count_occupied-nonempty env lock_count [] i h given = refl
  count_occupied-nonempty env lock_count (b ∷ bs) i h given =
      rw (count_occupied-nonempty env lock_count bs (i + 1) (omega arith) given)
        (ground (arith, given i (omega arith), occupied-tally b))

  -- On a valid table with its locks, every one of them given, `table_occupied_bucket_counter` divides
  -- the number of buckets that hold an entry by the number of buckets, and locks and unlocks the
  -- buckets in turn.
  pub table_occupied_bucket_counter_lem :
      {Double : Type 0} (zero_double : Double) (divide : ℕ → ℕ → Double) (env : Env) {t : Table V}
      → IsValid t
      → IsLocked t
      → ((i : ℕ) → i < t.lock_count → env.lock i ≡ true)
      → table_occupied_bucket_counter zero_double divide env (some t)
        ≡ done (record {
          result = divide (nonempty t.buckets) t.buckets_count;
          table = some t;
          destroyed = [];
          events = in_turn t.buckets_count 0;
        })
  unfolding table_occupied_bucket_counter
  table_occupied_bucket_counter_lem zero_double divide env {t} v l given =
      let some_buckets : 0 < t.buckets_count =
        omega (arith, v.power, one-le-pow v.exponent 2 (omega arith)) in
      let run =
        count_occupied-nonempty env t.lock_count t.buckets 0 (omega (arith, v.width)) given in
      let several : (t.buckets_count == 0) ≡ false = ground arith in
      rw (several, run, table_occupied_bucket_counter)
        (ap
          (λ n. done (record {
            result = divide (nonempty t.buckets) t.buckets_count;
            table = some t;
            destroyed = [];
            events = in_turn n 0;
          }))
          v.width)
