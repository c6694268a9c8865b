-- ===== src/Server/Main.antt =====
-- `main`. The results of libuv and of the socket library, and what the event loop leaves, are a
-- parameter; the messages are in the order in which they are printed.
use simple_c_database.Command.Build.{strtoul}
use simple_c_database.Command.Data.{Floats, Entry, ServerContext}
use simple_c_database.Command.Procs.{destroy_value_wrapper}
use simple_c_database.Command.Registry.{registry_create, registry_destroy}
use simple_c_database.Prelude.{
  ℕ, true, Option, none, some, List, [], ◌∷◌, ◌++◌, ℤ, pos, neg, ◌==◌, is_zero, if◌then◌else◌,
}
use simple_c_database.Server.Data.{Net}
use simple_c_database.Server.Handlers.{is_negative}
use simple_c_database.Strings.{Bytes}
use simple_c_database.Table.Data.{Event}
use simple_c_database.Table.Life.{table_create, table_destroy}

pub data Notice : Type 0 where
  wrong_arguments invalid_size no_table initialised_globally : Notice
  bind_error no_descriptor reuse_refused reuse_set delay_kept delay_off listen_error listening :
      Notice
  terminated_server : Notice

-- What `uv_tcp_bind`, `uv_fileno`, `setsockopt`, `uv_tcp_nodelay` and `uv_listen` return, and what
-- `uv_run` returns with the state in which the callbacks leave the server.
pub record Loop (Double : Type 0) : Type 0 where
  pub bind : ℤ
  pub descriptor : ℤ
  pub reuse : ℤ
  pub nodelay : ℤ
  pub listen : ℤ
  pub run : ServerContext Double → ℤ × ServerContext Double

-- The status that `main` returns, its messages, what is left of the server, the values that were freed,
-- and the events of the calls on the table.
pub record Exit (Double : Type 0) : Type 0 where
  pub result : ℤ
  pub notices : List Notice
  pub server : ServerContext Double
  pub freed_values : List Entry
  pub events : List Event

abbrev pub destroy_each_value : List (Option Entry) → List Entry
destroy_each_value [] = []
destroy_each_value (v ∷ vs) = destroy_value_wrapper v ++ destroy_each_value vs

module _ (f : Floats) (net : Net) (loop : Loop f.Double) where
  -- A return before the event loop.
  abbrev pub exit : ℤ → List Notice → ServerContext f.Double → List Event → Exit f.Double
  exit result notices server events = record {
    result = result;
    notices = notices;
    server = server;
    freed_values = [];
    events = events;
  }

  -- From `uv_run` on.
  unfoldable pub run_server : List Notice → ServerContext f.Double → List Event → Exit f.Double
  run_server notices server events =
      let ended = loop.run server in
      let reg = registry_destroy (some ended.1.reg) in
      let gone = table_destroy net.env ended.1.db true in
      record {
        result = ended.0;
        notices = notices ++ terminated_server ∷ [];
        server = record { reg = elim reg.1 [ none ↦ none | some r ↦ r ]; db = gone.table };
        freed_values = destroy_each_value gone.destroyed;
        events = events ++ gone.events;
      }

  abbrev pub reuse_notice : Notice
  reuse_notice = if is_negative loop.reuse then reuse_refused else reuse_set

  abbrev pub delay_notice : Notice
  delay_notice = if is_zero loop.nodelay then delay_off else delay_kept

  -- The socket, with the server's state in hand.
  unfoldable pub open_socket : ServerContext f.Double → List Event → Exit f.Double
  open_socket server events =
      let set_up = initialised_globally ∷ reuse_notice ∷ delay_notice ∷ [] in
      if is_zero loop.bind
      then (if is_zero loop.descriptor
          then (if is_zero loop.listen
              then run_server (set_up ++ listening ∷ []) server events
              else exit (pos 1) (set_up ++ listen_error ∷ []) server events)
          else exit (pos 1) (initialised_globally ∷ no_descriptor ∷ []) server events)
      else exit (pos 1) (initialised_globally ∷ bind_error ∷ []) server events

  -- The creation of the table, after the registry.
  unfoldable pub open_database : ℕ → ServerContext f.Double → Exit f.Double
  open_database db_size server =
      let created = table_create {V = Entry} net.env db_size in
      if db_size == 0 then exit (neg 1) (invalid_size ∷ []) server [] else elim created.table [
        | none ↦ exit (neg 1) (no_table ∷ []) server created.events
        | some t ↦ open_socket (record server { db = some t }) created.events
      ]

  -- A member of `g_server_ctx` that is not set yet is `none`.
  abbrev pub unset : ServerContext f.Double
  unset = record { reg = none; db = none }

  unfoldable pub main : List Bytes → Exit f.Double
  main [] = exit (neg 1) (wrong_arguments ∷ []) unset []
  main (program ∷ []) = exit (neg 1) (wrong_arguments ∷ []) unset []
  main (program ∷ size ∷ extra ∷ argv) = exit (neg 1) (wrong_arguments ∷ []) unset []
  main (program ∷ size ∷ []) =
      open_database (strtoul size).0 (record unset { reg = registry_create f net.env.malloc })
