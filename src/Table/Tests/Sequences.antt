-- ===== src/Table/Tests/Sequences.antt =====
-- The theorems on calls in turn, on threads that take locks and on what becomes of the values, at small tables.
use simple_c_database.Prelude.{ℕ, ◌+◌, ◌≡◌, refl, true, false, some, none, [], ◌∷◌, List, arith}
use simple_c_database.Table.Calls.{
  Call, set_call, add_call, delete_call, get_call, exist_call, clear_call, resize_call, Said,
  run_calls, view, Steps,
}
use simple_c_database.Table.Weights.{Conserves}
use simple_c_database.Table.Conserved.{values_conserved}
use simple_c_database.Prelude.{◌++◌, ◌⊎◌, map, ℤ, pos, All}
use simple_c_database.Table.Deadlock.{Calling, calls_none, calls_clear, no_deadlock}
use simple_c_database.Table.Threads.{Thread, starting, Finished, Move, first, Moves, at_rest, moves}
use simple_c_database.Table.Data.{Reply, wrlocked, unlocked, lock_each, Table, Env, done}
use simple_c_database.Table.Keys.{
  table_set, table_add, table_delete, table_replace, table_get, table_exist,
}
use simple_c_database.Table.Life.{clear_all, all_values, adjust_capacity, table_clear}
use simple_c_database.Table.KeyLocks.{Ordered}
use simple_c_database.Table.Locked.{locks_in_order}
use simple_c_database.Table.Monitor.{table_memory_usage, table_occupied_bucket_counter}
use simple_c_database.Table.Resize.{table_resize}
use simple_c_database.Table.Tests.{willing, one_entry, one_entry-IsValid, locked, key}
use simple_c_database.Table.Trace.{run_calls-Steps}
use simple_c_database.Table.Valid.{IsValid, IsLocked}

abbrev unwilling : Env
unwilling = record willing { lock = λ _. false }

-- A write, a smaller table, a refused deletion, reads, and a clearing.
abbrev several : List (Env × Call ℕ)
several =
    (willing, set_call key (some 9) true)
    ∷ (willing, resize_call 1)
    ∷ (unwilling, delete_call key true)
    ∷ (willing, get_call key (λ x. x))
    ∷ (willing, add_call (b'c' ∷ []) none)
    ∷ (willing, clear_call true)
    ∷ (willing, exist_call key)
    ∷ []

one_is_enough : adjust_capacity 1 ≡ 1
unfolding adjust_capacity
one_is_enough = refl

run_calls-Steps_example :
    (after : Table ℕ) × (ss : List (Said ℕ)) × (run_calls (λ x n. x + n) (some one_entry) several
      ≡ done (some after, ss))
    × Steps (λ x n. x + n) (view one_entry) several ss (view after)
    × IsValid after
    × IsLocked after
run_calls-Steps_example =
    run_calls-Steps (λ x n. x + n) one_entry one_entry-IsValid locked several
      (
        omega arith,
        (
          (omega arith, omega arith, omega (arith, one_is_enough)),
          (omega arith, (omega arith, (omega arith, (tt, (omega arith, tt))))),
        ),
      )

locks_in_order_example :
    Ordered (table_set willing (some one_entry) (some key) (some 9) true)
    × Ordered (table_add willing (some one_entry) (some key) (some 9))
    × Ordered (table_replace willing (some one_entry) (some key) (some 9) true)
    × Ordered (table_delete willing (some one_entry) (some key) true)
    × Ordered (table_exist willing (some one_entry) (some key))
    × Ordered (table_get willing (λ x n. x + n) (some one_entry) (some key) (some (λ x. x)))
    × Ordered (table_clear willing (some one_entry) true)
    × Ordered (table_resize willing (some one_entry) 1)
    × Ordered (table_memory_usage willing (some one_entry) (some (λ x. x)))
    × Ordered (
        table_occupied_bucket_counter {Double = ℕ × ℕ}
          (0, 1)
          (λ a b. (a, b))
          willing
          (some one_entry))
locks_in_order_example =
    locks_in_order willing (some one_entry) (some key) (some 9) true (λ x n. x + n) (some (λ x. x))
      1 (0, 1) (λ a b. (a, b))

-- A value weighs what it is.
values_conserved_example :
    Conserves
      (λ x. x)
      one_entry
      (some 9)
      (table_set willing (some one_entry) (some key) (some 9) true)
    × Conserves (λ x. x) one_entry (some 9) (table_add willing (some one_entry) (some key) (some 9))
    × Conserves
        (λ x. x)
        one_entry
        (some 9)
        (table_replace willing (some one_entry) (some key) (some 9) true)
    × Conserves (λ x. x) one_entry none (table_delete willing (some one_entry) (some key) true)
    × Conserves (λ x. x) one_entry none (table_clear willing (some one_entry) true)
values_conserved_example =
    values_conserved (λ x. x) one_entry-IsValid locked willing key (some 9) (omega arith)

-- Two threads that clear the table, of which the first has taken its first lock.
abbrev cleared : Reply ℕ ℤ
cleared = record {
  result = pos 0;
  table = some (record one_entry { buckets = clear_all one_entry.buckets; elem_count = 0 });
  destroyed = all_values one_entry.buckets;
  events = wrlocked 0 ∷ wrlocked 1 ∷ unlocked 0 ∷ unlocked 1 ∷ [];
}

clear_run : table_clear willing (some one_entry) true ≡ done cleared
unfolding table_clear lock_each
clear_run = refl

abbrev clearing : Calling ℕ (ℕ × ℕ) (cleared.events ++ [])
clearing = calls_clear willing (some one_entry) true clear_run calls_none

abbrev waiting : List Thread
waiting =
    record { held = 0 ∷ []; todo = wrlocked 1 ∷ unlocked 0 ∷ unlocked 1 ∷ [] }
    ∷ starting cleared.events
    ∷ []

one_move : Moves (map starting ((cleared.events ++ []) ∷ (cleared.events ++ []) ∷ [])) waiting
one_move =
    moves
      (first (wrlocked 0) (wrlocked 1 ∷ unlocked 0 ∷ unlocked 1 ∷ []) (0 ∷ []) refl
        (λ i h. (refl, (refl, tt))) refl)
      at_rest

no_deadlock_example : All Finished waiting ⊎ ((us : List Thread) × Move waiting waiting us)
no_deadlock_example =
    no_deadlock ℕ (ℕ × ℕ) ((cleared.events ++ []) ∷ (cleared.events ++ []) ∷ []) waiting
      (clearing, (clearing, tt)) one_move
