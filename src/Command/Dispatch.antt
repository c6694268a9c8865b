-- ===== src/Command/Dispatch.antt =====
-- `execute_command` on a server with its registry and a valid table.
use simple_c_database.Command.Build.{build_command_data}
use simple_c_database.Command.Data.{
  Floats, Entry, CommandData, no_data, Command, Registry, ServerContext, ExecuteResult, ◌>>=◌,
  index,
}
use simple_c_database.Command.Ended.{Answers}
use simple_c_database.Command.Execute.{int_eq, run_command, execute_command}
use simple_c_database.Command.Inputs.{arguments, FirstSafe, Measured, InputSafe}
use simple_c_database.Command.Lookup.{registry_create-rows, find_command_index_lem}
use simple_c_database.Command.Registry.{command_table, row, registry_create}
use simple_c_database.Prelude.{
  ℕ, zero, suc, ◌≤◌, ◌≡◌, refl, Bool, true, Option, some, pos, length, List, [], ◌∷◌,
}
use simple_c_database.Strings.{Bytes}
use simple_c_database.Table.Data.{Table, Env, Outcome, done, Reply}
use simple_c_database.Table.Safe.{Ends}
use simple_c_database.Table.Valid.{IsValid, IsLocked}
use simple_c_database.Command.Responds.{IsStatus}

-- The call ended with a valid table and an answer of the protocol.
pub record Handled (t : Table Entry) (o : Outcome (Reply Entry ExecuteResult)) : Type 0 where
  pub ends : Ends t o
  pub status : IsStatus ends.reply.result.status_code

module _ (f : Floats) {t : Table Entry} (v : IsValid t) (env : Env) where
  -- A row of the table: its command answers every safe input, and its arity covers what it reads.
  abbrev RowOk : Command f.Double → Type 0
  RowOk c =
      (c.arity ≡ pos (arguments c.tag))
      × ((d : CommandData) → InputSafe d → Answers f.Double t (c.proc env (some t) (some d)))

module _ (f : Floats) {t : Table Entry} (v : IsValid t) (l : IsLocked t) (env : Env) where
  module _ (alloc : ℕ → Bool) {reg : Registry f.Double} (made : registry_create f alloc ≡ some reg)
      (n : ℕ) (argv : List Bytes) (args_lengths : List ℕ) (first : FirstSafe argv)
      (fit : Measured argv args_lengths) (enough : n ≤ length argv)
      (measured : n ≤ length args_lengths) where
    abbrev server : ServerContext f.Double
    server = record { reg = some reg; db = some t }

module _ (f : Floats) where
  index-row :
      (cs : List (Command f.Double)) (i : ℕ) (c : Command f.Double)
      → row cs i ≡ some c
      → index cs i ≡ done c
  index-row [] i c h = absurd (cc h)
  index-row (d ∷ cs) zero c h = cc
  index-row (d ∷ cs) (suc i) c h = index-row cs i c h

  -- A command by its name and with its number of arguments is built and run.
  pub execute_command-row :
      (alloc : ℕ → Bool) {reg : Registry f.Double} (made : registry_create f alloc ≡ some reg)
      (env : Env) (db : Option (Table Entry)) (i : ℕ) (c : Command f.Double) (argv : List Bytes)
      (args_lengths : List ℕ)
      → row (command_table f) i ≡ some c
      → int_eq f c.arity c.arity ≡ true
      → execute_command f env
          (record { reg = some reg; db = db })
          (some c.name)
          c.arity
          argv
          args_lengths
        ≡ (build_command_data env c.tag argv args_lengths no_data >>= run_command f env db c)
  unfolding execute_command
  execute_command-row alloc {reg} made env db i c argv args_lengths at_i same =
      let here : row reg.commands i ≡ some c = rw (registry_create-rows f alloc reg made) at_i in
      let e = (find_command_index_lem f alloc reg made c.name i).1 (c, here, refl) in
      rw (e, execute_command, index-row reg.commands i c here, same) refl
