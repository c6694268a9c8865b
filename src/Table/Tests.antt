-- ===== src/Table/Tests.antt =====
-- The theorems on the table at small tables of numbers, with keys of one to two bytes.
mod Edges
mod Lifetime
mod Sequences
use simple_c_database.Bitwise.{smear, next_power_of_2}
use simple_c_database.Hashing.{hash_step, hash_from, hash}
use simple_c_database.Prelude.{
  ℕ, ◌+◌, ◌%◌, ◌<◌, ◌≡◌, ◌⊎◌, refl, arith, true, false, some, [], ◌∷◌, ◌++◌, get_or, set, ℤ, pos,
  neg,
}
use simple_c_database.Strings.{Bytes, ustrncpy_loop, ustrncmp_loop, ustrlen, ustrlen_from}
use simple_c_database.Table.Change.{
  DeleteOutcome, ReplaceOutcome, table_delete_lem, table_replace_lem,
}
use simple_c_database.Table.Cleared.{Cleared, table_clear_lem}
use simple_c_database.Table.Created.{Created, table_create-Created, table_create_total}
use simple_c_database.Table.Data.{
  allocated, freed, buckets_block, Table, empty_slot, Env, Reply, done, events_of, rdlocked,
  wrlocked, unlocked, lock_each,
}
use simple_c_database.Table.Empty.{empty_table, empty_table-IsValid}
use simple_c_database.Table.Faults.{AllFault, resized_without_lock}
use simple_c_database.Table.Keys.{
  set_found, table_set, table_add, table_delete, table_replace, table_get, table_exist,
}
use simple_c_database.Table.Life.{
  table_create, create_arrays, adjust_capacity, init_each, table_clear, all_values,
}
use simple_c_database.Table.Read.{fetched, table_get_lem, table_exist_lem}
use simple_c_database.Table.Resize.{
  table_resize, resize_to, resize_locked, resize_reply, rehash_all, rehash_bucket, place_in,
  place_slot,
}
use simple_c_database.Table.Resized.{ResizeOutcome, table_resize_lem}
use simple_c_database.Table.Scan.{
  bucket_index, matches, scan, find_slot, is_some, fill_slot, with_bucket, put_bucket,
}
use simple_c_database.Table.Set.{SetOutcome, AddOutcome, table_set_lem, table_add_lem}
use simple_c_database.Table.Slots.{lookup, holds, tally}
use simple_c_database.Table.Valid.{IsValid, IsLocked, lookup_all, contents, bucket_index-mod, home}
use simple_c_database.Table.Writes.{fill-Updates, home_bucket}

-- All calls succeed, and a lock has 56 bytes.
abbrev pub willing : Env
willing = record {
  malloc = λ _. true;
  lock = λ _. true;
  init_lock = λ _. true;
  destroy_lock = λ _. true;
  sizeof_lock = 56;
}

abbrev pub nothing : Table ℕ
nothing = empty_table 2 2

pub nothing-IsValid : IsValid nothing
nothing-IsValid = empty_table-IsValid 2 2 1 refl (omega arith)

abbrev pub key : Bytes
key = b'a' ∷ b'b' ∷ []

-- The table of one entry, 7 for "ab".
abbrev pub one_entry : Table ℕ
one_entry =
    put_bucket nothing (home nothing-IsValid key)
      (set (home_bucket nothing-IsValid key) 0
        (fill_slot (hash key) key (some 7) (get_or (home_bucket nothing-IsValid key) 0 empty_slot)))
      1

-- What the runs below unfold.
pub program : Unit {0}
unfolding smear next_power_of_2 hash_step hash_from hash ustrncpy_loop ustrncmp_loop ustrlen_from
    ustrlen bucket_index matches scan find_slot fill_slot with_bucket set_found table_set lock_each
    adjust_capacity init_each create_arrays table_create place_slot place_in rehash_bucket
    rehash_all resize_locked resize_reply resize_to table_resize lookup_all lookup tally holds
program = tt

pub one_entry-IsValid : IsValid one_entry
one_entry-IsValid =
    (fill-Updates nothing-IsValid key 0 (some 7) (omega arith) (unfold program in omega arith)
      (unfold program in refl) (unfold program in refl)).valid

abbrev pub other : Bytes
other = b'b' ∷ []

pub locked : IsLocked one_entry
locked = omega arith

table_set_lem_example :
    (r : Reply ℕ ℤ) × (table_set willing (some one_entry) (some other) (some 9) true ≡ done r)
    × SetOutcome one_entry-IsValid other (some 9) (omega arith) true r
table_set_lem_example =
    table_set_lem one_entry-IsValid other (some 9) (omega arith) locked willing true refl

table_get_lem_example :
    table_get willing (λ v n. v + n) (some one_entry) (some key) (some (λ v. v))
    ≡ done (record {
      result = fetched willing (λ v n. v + n) (λ v. v) (contents one_entry key);
      table = some one_entry;
      destroyed = [];
      events = rdlocked (home one_entry-IsValid key) ∷ unlocked (home one_entry-IsValid key) ∷ [];
    })
table_get_lem_example =
    table_get_lem one_entry-IsValid key locked willing refl (λ v n. v + n) (λ v. v)

table_resize_lem_example :
    (r : Reply ℕ ℤ) × (table_resize willing (some one_entry) 3 ≡ done r)
    × ResizeOutcome one_entry-IsValid willing (adjust_capacity 3) r
table_resize_lem_example = table_resize_lem one_entry-IsValid willing 3 (omega arith) (omega arith)

table_delete_lem_example :
    (r : Reply ℕ ℤ) × (table_delete willing (some one_entry) (some key) true ≡ done r)
    × DeleteOutcome one_entry-IsValid key true r
table_delete_lem_example = table_delete_lem one_entry-IsValid key locked willing true refl

table_add_lem_example :
    (r : Reply ℕ ℤ) × (table_add willing (some one_entry) (some other) (some 9) ≡ done r)
    × AddOutcome one_entry-IsValid other (some 9) (omega arith) r
table_add_lem_example =
    table_add_lem one_entry-IsValid other (some 9) (omega arith) locked willing refl

table_replace_lem_example :
    (r : Reply ℕ ℤ) × (table_replace willing (some one_entry) (some key) (some 9) true ≡ done r)
    × ReplaceOutcome one_entry-IsValid key true (some 9) r
table_replace_lem_example =
    table_replace_lem one_entry-IsValid key locked willing (some 9) true refl

table_create_total_example : (t : Table ℕ) × ((table_create willing 3).table ≡ some t) × Created 3 t
table_create_total_example =
    table_create_total willing 3 (omega arith) (omega arith) (λ _. refl) (λ _. refl)

table_create-Created_example : Created {V = ℕ} 3 (empty_table 4 4)
table_create-Created_example =
    table_create-Created willing 3 (empty_table 4 4) (omega arith) (omega arith)
      (unfold program in refl)

-- The empty table after a resize to 4 buckets.
abbrev enlarged : Table ℕ
enlarged = empty_table 4 2

resized_without_lock_example :
    AllFault enlarged (b'a' ∷ []) willing (some 9) true (λ x n. x + n) (λ x. x)
resized_without_lock_example =
    resized_without_lock (b'a' ∷ []) (omega arith) willing (some 9) true (λ x n. x + n) (λ x. x)
      nothing-IsValid willing 3 (omega arith) (omega arith)
      (record {
        result = pos 0;
        table = some enlarged;
        destroyed = [];
        events =
            events_of wrlocked 2 0
            ++ allocated buckets_block ∷ freed buckets_block ∷ events_of unlocked 2 0;
      })
      (unfold program in refl) refl enlarged refl (unfold program in omega arith)

table_clear_lem_example :
    (((after : Table ℕ) × Cleared one_entry-IsValid after
      × (table_clear willing (some one_entry) true
          ≡ done (record {
            result = pos 0;
            table = some after;
            destroyed = all_values one_entry.buckets;
            events = events_of wrlocked 2 0 ++ events_of unlocked 2 0;
          }))))
    ⊎ ((i : ℕ) × (i < 2)
        × (true ≡ false)
        × (table_clear willing (some one_entry) true
            ≡ done (record {
              result = neg 1;
              table = some one_entry;
              destroyed = [];
              events = events_of wrlocked i 0 ++ events_of unlocked i 0;
            })))
table_clear_lem_example = table_clear_lem one_entry-IsValid willing true
