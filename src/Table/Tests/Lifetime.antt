-- ===== src/Table/Tests/Lifetime.antt =====
-- The balance of a creation that fails and of a table that is destroyed.
use simple_c_database.Prelude.{ℕ, ◌==◌, ◌≡◌, ◌++◌, refl, true, not, some, pos}
use simple_c_database.Table.Data.{Env, Block, table_block, buckets_block, locks_block}
use simple_c_database.Table.Destroyed.{
  IsBalanced, table_create-IsBalanced, table_destroy-IsBalanced,
}
use simple_c_database.Table.Empty.{empty_table}
use simple_c_database.Table.Life.{table_create, table_destroy, destroy_each}
use simple_c_database.Table.Tests.{willing, program}

-- Lock 2 is not initialised.
abbrev unready : Env
unready = record willing { init_lock = λ i. not (i == 2) }

abbrev weight : Block → ℕ
weight table_block = 3
weight buckets_block = 5
weight locks_block = 7

table_create-IsBalanced_example : IsBalanced weight (λ i. i) (table_create {V = ℕ} unready 4).events
table_create-IsBalanced_example =
    table_create-IsBalanced weight (λ i. i) ℕ unready 4 (unfold program in refl)

destroyed_four : (table_destroy {V = ℕ} willing (some (empty_table 4 4)) true).result ≡ pos 0
unfolding destroy_each table_destroy
destroyed_four = refl

table_destroy-IsBalanced_example :
    IsBalanced weight
      (λ i. i)
      ((table_create {V = ℕ} willing 4).events
        ++ (table_destroy {V = ℕ} willing (some (empty_table 4 4)) true).events)
table_destroy-IsBalanced_example =
    table_destroy-IsBalanced weight (λ i. i) ℕ willing 4 (empty_table 4 4) true
      (unfold program in refl) destroyed_four
