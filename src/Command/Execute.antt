-- ===== src/Command/Execute.antt =====
-- `execute_command`: from the name and the arguments of a command to the status and the body of its
-- response. The buffers that are only read again here are not in the events.
use simple_c_database.Command.Build.{build_command_data}
use simple_c_database.Command.Data.{
  Floats, Tag, type_get, type_set, type_add, type_del, type_exist, type_replace, type_resize,
  type_clear, type_loadfactor, type_count, type_error, type_empty, CountType, count_capacity,
  count_memory_usage, count_total_elem, count_occupied_bucket, Entry, CommandData, no_data, Counter,
  counter_d, counter_s, CommandResult, Command, ServerContext, ExecuteResult, ◌>>=◌, index,
  with_result,
}
use simple_c_database.Command.Registry.{find_command_index}
use simple_c_database.Prelude.{
  ℕ, zero, suc, ◌+◌, ◌/◌, ◌%◌, Bool, false, not, Option, none, some, List, [], ◌∷◌, ℤ, pos, negsuc,
  is_zero, ltb, leb, ◌==◌, if◌then◌else◌, codes, length,
}
use simple_c_database.Strings.{Bytes, ustrlen, ustrdup, memdup}
use simple_c_database.Table.Data.{Table, Env, Outcome, fault, done, Reply, unchanged}

-- What the pointer points to afterwards.
unfoldable pub free_execute_result : Option ExecuteResult → Option ExecuteResult
free_execute_result none = none
free_execute_result (some result) = some (record result { body = none; body_length = 0 })

unfoldable pub create_error_response : Env → ℕ → Bytes → ExecuteResult
create_error_response env status message = elim (ustrdup env.malloc (some message)) [
  | none ↦ record { status_code = 500; body = none; body_length = 0 }
  | some body ↦ record { status_code = status; body = some body; body_length = ustrlen (some body) }
]

-- A response of status 200.
abbrev pub ok_response : Option Bytes → ℕ → ExecuteResult
ok_response body n = record { status_code = 200; body = body; body_length = n }

-- A body that was allocated, or the response where it was not.
abbrev pub body_or_error : Env → Option Bytes → ℕ → ExecuteResult
body_or_error env none n = create_error_response env 500 (codes "Out of memory")
body_or_error env (some body) n = ok_response (some body) n

-- The decimal digits of a number before `rest`; a `size_t` has at most 20.
abbrev pub print_digits : ℕ → ℕ → Bytes → Bytes
print_digits zero n rest = rest
print_digits (suc fuel) n rest =
    let more = print_digits fuel (n / 10) ((b'0' + n % 10) ∷ rest) in
    if ltb n 10 then (b'0' + n) ∷ rest else more

-- `snprintf` of "%zu"
unfoldable pub print_size : ℕ → Bytes
print_size n = print_digits 20 n []

module _ (f : Floats) where
  -- Reading the member of the union that is a `size_t`, or the one that is a `double`.
  abbrev pub read_size : Counter f.Double → ℕ
  read_size (counter_s n) = n
  read_size (counter_d x) = f.bits x

  abbrev pub read_double : Counter f.Double → f.Double
  read_double (counter_s n) = f.of_bits n
  read_double (counter_d x) = x

  -- The text of a COUNT, which `snprintf` writes by the type of the counter.
  abbrev pub count_text : CountType → Counter f.Double → Option Bytes
  count_text count_occupied_bucket counter = f.print_fixed 2 (read_double counter)
  count_text count_capacity counter = some (print_size (read_size counter))
  count_text count_memory_usage counter = some (print_size (read_size counter))
  count_text count_total_elem counter = some (print_size (read_size counter))

  -- A text in a buffer of 64 bytes, copied into the body. The byte of the body after the text is not
  -- written.
  unfoldable pub respond_text : Env → Bytes → Option Bytes → ExecuteResult
  respond_text env failure none = create_error_response env 500 failure
  respond_text env failure (some text) =
      if leb 64 (length text)
      then create_error_response env 500 failure
      else body_or_error env (if env.malloc (length text + 1) then some text else none)
          (length text)

  unfoldable pub respond_error : Env → ℤ → ExecuteResult
  respond_error env error =
      if not (is_zero error)
      then create_error_response env 409 (codes "Operation failed")
      else ok_response (ustrdup env.malloc (some (codes "OK"))) 2

  unfoldable pub respond_get : Env → Option Entry → Outcome ExecuteResult
  respond_get env none = fault
  respond_get env (some e) = done (body_or_error env (memdup env.malloc e.bytes e.size) e.size)

  unfoldable pub respond_exist : Env → Bool → ExecuteResult
  respond_exist env existence =
      elim (ustrdup env.malloc (some (if existence then codes "1" else codes "0"))) [
        | none ↦ create_error_response env 500 (codes "Out of memory")
        | some body ↦ ok_response (some body) (ustrlen (some body))
      ]

  -- The `switch` on the type of the result.
  unfoldable pub respond : Env → Tag → CommandResult f.Double → Outcome ExecuteResult
  unfolding respond_text respond_error respond_get respond_exist
  respond env type_get r = respond_get env r.value
  respond env type_set r = done (respond_error env r.error)
  respond env type_add r = done (respond_error env r.error)
  respond env type_del r = done (respond_error env r.error)
  respond env type_replace r = done (respond_error env r.error)
  respond env type_resize r = done (respond_error env r.error)
  respond env type_clear r = done (respond_error env r.error)
  respond env type_exist r = done (respond_exist env r.existence)
  respond env type_count r =
      done (
        respond_text env (codes "Failed to format COUNT result")
          (count_text r.count_type r.counter))
  respond env type_loadfactor r = done (
      respond_text env (codes "Failed to format LOADFACTOR result") (f.print_fixed 4 r.load_factor))
  respond env type_empty r = done (create_error_response env 404 (codes "Key not found"))
  respond env type_error r = done (create_error_response env 500 (codes "Internal server error"))

  abbrev pub int_eq : ℤ → ℤ → Bool
  int_eq (pos a) (pos b) = a == b
  int_eq (pos a) (negsuc b) = false
  int_eq (negsuc a) (pos b) = false
  int_eq (negsuc a) (negsuc b) = a == b

  -- The call of the command and the response to its result.
  unfoldable pub run_command :
      Env
      → Option (Table Entry)
      → Command f.Double
      → ℤ × CommandData
      → Outcome (Reply Entry ExecuteResult)
  run_command env context cmd (code, command_inputs) =
      if not (is_zero code)
      then done
          (unchanged (create_error_response env 400 (codes "Invalid argument format")) context)
      else (do
        r ← cmd.proc env context (some command_inputs)
        final_result ← respond env r.result.tag r.result
        done (with_result final_result r))

  unfoldable pub execute_command :
      Env
      → ServerContext f.Double
      → Option Bytes
      → ℤ
      → List Bytes
      → List ℕ
      → Outcome (Reply Entry ExecuteResult)
  execute_command env server_ctx command_name argc argv args_lengths = elim server_ctx.reg [
    | none ↦ done (
        unchanged (create_error_response env 400 (codes "Invalid arguments to dispatcher"))
          server_ctx.db)
    | some reg ↦ elim command_name [
      | none ↦ done (
          unchanged (create_error_response env 400 (codes "Invalid arguments to dispatcher"))
            server_ctx.db)
      | some name ↦ elim (find_command_index (some reg) (some name)) [
        | negsuc _ ↦
            done
              (unchanged (create_error_response env 404 (codes "Command not found")) server_ctx.db)
        | pos i ↦ do
          cmd ← index reg.commands i
          if not (int_eq cmd.arity argc)
              then done (
                  unchanged (create_error_response env 400 (codes "Incorrect number of arguments"))
                    server_ctx.db)
              else (do
                built ← build_command_data env cmd.tag argv args_lengths no_data
                run_command env server_ctx.db cmd built)
      ]
    ]
  ]
