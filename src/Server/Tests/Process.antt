-- ===== src/Server/Tests/Process.antt =====
-- The theorems on `main` with a size of 2 and an event loop that ends at once.
use simple_c_database.Command.Build.{strtoul}
use simple_c_database.Command.Data.{Entry}
use simple_c_database.Prelude.{ℕ, ◌≡◌, ◌⊎◌, refl, arith, none, some, [], ◌∷◌, codes, pos, neg, suc}
use simple_c_database.Server.Main.{Loop, main, open_database, open_socket, run_server}
use simple_c_database.Server.Served.{started, main_lem, main-IsBalanced}
use simple_c_database.Server.Tests.{pairs, giving}
use simple_c_database.Strings.{Bytes}
use simple_c_database.Table.Created.{Created}
use simple_c_database.Table.Data.{Table, Block}
use simple_c_database.Table.Destroyed.{IsBalanced}
use simple_c_database.Table.Life.{
  adjust_capacity, init_each, create_arrays, table_create, destroy_each, table_destroy,
}

abbrev brief : Loop (ℕ × ℕ)
brief = record {
  bind = pos 0;
  descriptor = pos 0;
  reuse = pos 0;
  nodelay = pos 0;
  listen = pos 0;
  run = λ server. (pos 0, server);
}

abbrev size : Bytes
size = codes "2"

two : (strtoul size).0 ≡ 2
unfolding strtoul
two = refl

main_lem_example :
    (((table_create {V = Entry} giving.env (strtoul size).0).table ≡ none)
      × ((main pairs giving brief (codes "server" ∷ size ∷ [])).result ≡ neg 1))
    ⊎ ((t : Table Entry) × Created (strtoul size).0 t
        × ((main pairs giving brief (codes "server" ∷ size ∷ [])).result
            ≡ (brief.run (started pairs giving t)).0)
        × ((main pairs giving brief (codes "server" ∷ size ∷ [])).server.reg ≡ none)
        × ((after : Table Entry)
            → (brief.run (started pairs giving t)).1.db ≡ some after
            → destroy_each giving.env.destroy_lock after.lock_count 0 ≡ none
            → (main pairs giving brief (codes "server" ∷ size ∷ [])).server.db ≡ none))
main_lem_example =
    main_lem pairs giving brief refl refl refl (codes "server") size (omega (arith, two))
      (omega (arith, two))

all_gone : (main pairs giving brief (codes "server" ∷ size ∷ [])).server.db ≡ none
unfolding main open_database open_socket run_server strtoul table_create create_arrays
    adjust_capacity init_each table_destroy destroy_each
all_gone = refl

-- A lock weighs one more than its index, and a block 1.
main-IsBalanced_example :
    IsBalanced (λ (b : Block). 1) suc (main pairs giving brief (codes "server" ∷ size ∷ [])).events
main-IsBalanced_example =
    main-IsBalanced pairs giving brief (λ server t e. (t, e, refl)) (λ b. 1) suc
      (codes "server" ∷ size ∷ []) all_gone
