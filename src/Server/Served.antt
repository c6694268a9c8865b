-- ===== src/Server/Served.antt =====
-- What `main` does from its start to its end.
use simple_c_database.Command.Build.{strtoul}
use simple_c_database.Command.Data.{Floats, Entry, ServerContext, Registry}
use simple_c_database.Command.Registry.{registry_create, registry_destroy}
use simple_c_database.Prelude.{
  ℕ, ◌≤◌, ◌<◌, ◌^◌, ◌≡◌, ◌⊎◌, inl, inr, refl, arith, true, false, Option, none, some, List, [], ◌∷◌,
  pos, neg, ◌==◌, is_zero, Bool-cases, Option-cases,
}
use simple_c_database.Server.Data.{Net}
use simple_c_database.Server.Main.{Notice, Loop, run_server, open_socket, open_database, main}
use simple_c_database.Strings.{Bytes}
use simple_c_database.Table.Created.{Created, table_create-Created}
use simple_c_database.Table.Data.{Table, Env, Block}
use simple_c_database.Table.Destroyed.{IsBalanced, table_create-IsBalanced, used_and_destroyed}
use simple_c_database.Table.Life.{table_create, table_destroy, destroy_each}

-- The callbacks leave a table with as many locks as it had.
abbrev pub KeepsLocks : {Double : Type 0} → Loop Double → Type 0
KeepsLocks {Double} loop =
    (server : ServerContext Double) (t : Table Entry)
    → server.db ≡ some t
    → (after : Table Entry) × ((loop.run server).1.db ≡ some after)
      × (after.lock_count ≡ t.lock_count)

destroyed-result :
    (env : Env) (t : Table Entry)
    → (table_destroy env (some t) true).table ≡ none
    → (table_destroy env (some t) true).result ≡ pos 0
unfolding table_destroy
destroyed-result env t gone = elim (Option-cases (destroy_each env.destroy_lock t.lock_count 0)) [
  | inl e ↦ rw (e, table_destroy) refl
  | inr (i, e) ↦ absurd (ground arith)
]

destroyed-table :
    (env : Env) (t : Table Entry)
    → destroy_each env.destroy_lock t.lock_count 0 ≡ none
    → (table_destroy env (some t) true).table ≡ none
unfolding table_destroy
destroyed-table env t all_gone = rw (all_gone, table_destroy) refl

registry_gone :
    {Double : Type 0} (reg : Option (Registry Double))
    → elim ((registry_destroy (some reg)).1) [ none ↦ none | some r ↦ r ] ≡ none
unfolding registry_destroy
registry_gone none = refl
registry_gone (some reg) = refl

module _ (f : Floats) (net : Net) (loop : Loop f.Double) (keeps : KeepsLocks loop)
    (block_weight : Block → ℕ) (lock_weight : ℕ → ℕ) where
  run_server-IsBalanced :
      (n : ℕ) (t : Table Entry) (notices : List Notice) (server : ServerContext f.Double)
      → (table_create net.env n).table ≡ some t
      → server.db ≡ some t
      → (run_server f net loop notices server (table_create {V = Entry} net.env n).events).server.db
        ≡ none
      → IsBalanced block_weight lock_weight
          (run_server f net loop notices server (table_create {V = Entry} net.env n).events).events
  unfolding run_server
  run_server-IsBalanced n t notices server made db gone =
      let (after, left, as_many) = keeps server t db in
      let none_left : (table_destroy net.env (some after) true).table ≡ none = rw (← left) gone in
      rw left (
        used_and_destroyed block_weight lock_weight Entry net.env n t after true made as_many
          (destroyed-result net.env after none_left))

  open_socket-IsBalanced :
      (n : ℕ) (t : Table Entry) (server : ServerContext f.Double)
      → (table_create net.env n).table ≡ some t
      → server.db ≡ some t
      → (open_socket f net loop server (table_create {V = Entry} net.env n).events).server.db ≡ none
      → IsBalanced block_weight lock_weight
          (open_socket f net loop server (table_create {V = Entry} net.env n).events).events
  unfolding open_socket
  open_socket-IsBalanced n t server made db gone = elim (Bool-cases (is_zero loop.bind)) [
    | inr no_bind ↦ absurd (ground arith)
    | inl bound ↦ elim (Bool-cases (is_zero loop.descriptor)) [
      | inr none_given ↦ absurd (ground arith)
      | inl given ↦ elim (Bool-cases (is_zero loop.listen)) [
        | inr deaf ↦ absurd (ground arith)
        | inl listens ↦
            rw (bound, given, listens)
              (run_server-IsBalanced n t _ server made db (ground (arith, gone)))
      ]
    ]
  ]

  open_database-IsBalanced :
      (n : ℕ) (server : ServerContext f.Double)
      → (open_database f net loop n server).server.db ≡ none
      → IsBalanced block_weight lock_weight (open_database f net loop n server).events
  unfolding open_database
  open_database-IsBalanced n server gone = elim (Bool-cases (n == 0)) [
    | inl nothing ↦ rw nothing refl
    | inr something ↦ elim (Option-cases (table_create {V = Entry} net.env n).table) [
      | inl failed ↦
          rw (something, failed)
            (table_create-IsBalanced block_weight lock_weight Entry net.env n failed)
      | inr (t, made) ↦
          rw (something, made)
            (open_socket-IsBalanced n t (record server { db = some t }) made refl
              (ground (arith, gone)))
    ]
  ]

  -- Where the callbacks leave a table with as many locks as it had, `main` with any arguments, if no table is
  -- left when it returns, has given back the blocks and the locks of the table that it acquired: for any
  -- weights of blocks and locks, what was acquired and what was given back weigh the same.
  pub main-IsBalanced :
      (argv : List Bytes)
      → (main f net loop argv).server.db ≡ none
      → IsBalanced block_weight lock_weight (main f net loop argv).events
  unfolding main
  main-IsBalanced [] gone = refl
  main-IsBalanced (program ∷ []) gone = refl
  main-IsBalanced (program ∷ size ∷ []) gone = open_database-IsBalanced (strtoul size).0 _ gone
  main-IsBalanced (program ∷ size ∷ extra ∷ argv) gone = refl

-- What the event loop starts with.
abbrev pub started : (f : Floats) → Net → Table Entry → ServerContext f.Double
started f net t = record { reg = registry_create f net.env.malloc; db = some t }

module _ (f : Floats) (net : Net) (loop : Loop f.Double) (listens : is_zero loop.bind ≡ true)
    (described : is_zero loop.descriptor ≡ true) (heard : is_zero loop.listen ≡ true) where
  -- Where the socket is bound and listens, `main` with a size from 1 to 2^63 returns -1, where the table
  -- cannot be created; otherwise it runs the event loop on the registry and a valid table with no entries,
  -- whose number of buckets, and of locks, is the least power of two that is not below the size, and returns
  -- what the loop returns. Then no registry is left, and, where every lock of the table that the loop left
  -- can be destroyed, no table.
  pub main_lem :
      (program size : Bytes)
      → 0 < (strtoul size).0
      → (strtoul size).0 ≤ 2 ^ 63
      → (((table_create {V = Entry} net.env (strtoul size).0).table ≡ none)
          × ((main f net loop (program ∷ size ∷ [])).result ≡ neg 1))
        ⊎ ((t : Table Entry) × Created (strtoul size).0 t
            × ((main f net loop (program ∷ size ∷ [])).result ≡ (loop.run (started f net t)).0)
            × ((main f net loop (program ∷ size ∷ [])).server.reg ≡ none)
            × ((after : Table Entry)
                → (loop.run (started f net t)).1.db ≡ some after
                → destroy_each net.env.destroy_lock after.lock_count 0 ≡ none
                → (main f net loop (program ∷ size ∷ [])).server.db ≡ none))
  unfolding main open_database open_socket run_server
  main_lem program size some_asked small =
      let n = (strtoul size).0 in
      let something : (n == 0) ≡ false = ground (arith, some_asked) in
      elim (Option-cases (table_create {V = Entry} net.env n).table) [
        | inl failed ↦ inl (failed, rw (something, failed) refl)
        | inr (t, made) ↦ inr (
          t,
          table_create-Created net.env n t some_asked small made,
          rw (something, made, listens, described, heard) refl,
          rw (something, made, listens, described, heard)
              (registry_gone (loop.run (started f net t)).1.reg),
          λ after left all_gone.
              rw (something, made, listens, described, heard)
                (rw left (destroyed-table net.env after all_gone)),
        )
      ]
