-- ===== src/Server/Parse.antt =====
-- `parse_buffer`: each iteration of its loop, by the state of the parser.
use simple_c_database.Command.Data.{Floats, ExecuteResult, ◌>>=◌}
use simple_c_database.Command.Execute.{execute_command}
use simple_c_database.Prelude.{
  ℕ, zero, suc, ◌+◌, ◌-◌, ◌%◌, ◌^◌, false, not, ◌&&◌, ◌||◌, Option, none, some, List, [], ◌∷◌, ◌++◌,
  ℤ, length, take, drop, set, ltb, ◌==◌, if◌then◌else◌,
}
use simple_c_database.Server.Buffer.{cr, lf, consume, leading_whitespace, crlf_at, strtol}
use simple_c_database.Server.Data.{
  ParserState, parse_state_expect_type, parse_state_expect_length, parse_state_expect_data,
  ClientContext, client_closing, overrun, written, response_freed, Net, Conn, with_ctx, note, Step,
  again, leave,
}
use simple_c_database.Strings.{Bytes, head_byte, long_to_sizet, sizet_to_int, sizet_to_uint}
use simple_c_database.Table.Data.{Outcome, fault, done}
use simple_c_database.Server.Arrays.{
  failed, store, written_at, written_prefix, free_parser_resources, outside_range, is_positive,
  prepare, unprepared, realloc,
}

module _ (f : Floats) (net : Net) where
  abbrev pub closed : Conn f.Double → Outcome (Step (Conn f.Double))
  closed c = done (leave (note c client_closing))

  -- The ends on an error that give up the arguments.
  abbrev pub give_up : Conn f.Double → Outcome (Step (Conn f.Double))
  give_up c = do ctx ← free_parser_resources c.ctx; closed (with_ctx c ctx)

  abbrev pub type_read : Conn f.Double → ℕ → ℤ → Outcome (Step (Conn f.Double))
  type_read c crlf n_args =
      let checked = long_to_sizet n_args (some false) in
      if outside_range 1 1024 n_args
      then closed c
      else if failed checked
      then closed (with_ctx c (record c.ctx { args_total = checked.0 }))
      else done (
          again (
            with_ctx c (
              consume (crlf + 2) (record c.ctx {
                args_total = checked.0;
                args_parsed = 0;
                state = parse_state_expect_length;
              }))))

  unfoldable pub expect_type : Conn f.Double → Outcome (Step (Conn f.Double))
  expect_type c0 =
      let c = with_ctx c0 (consume (leading_whitespace c0.ctx.buffer) c0.ctx) in
      if ltb (length c.ctx.buffer) 1
      then done (leave c)
      else if not (head_byte c.ctx.buffer == b'*')
      then closed c
      else elim (crlf_at c.ctx.buffer) [
        | none ↦ done (leave c)
        | some crlf ↦ do
          n_args ← strtol (drop 1 (c.ctx.buffer ++ c.ctx.unused))
          type_read c crlf n_args
      ]

  abbrev pub length_read : Conn f.Double → ℕ → ℤ → Outcome (Step (Conn f.Double))
  length_read c crlf len =
      let checked = long_to_sizet len (some false) in
      if outside_range 0 8192 len
      then closed c
      else if failed checked
      then closed (with_ctx c (record c.ctx { data_to_read = checked.0 }))
      else done (
          again (
            with_ctx c (
              consume (crlf + 2)
                (record c.ctx { data_to_read = checked.0; state = parse_state_expect_data }))))

  unfoldable pub expect_length : Conn f.Double → Outcome (Step (Conn f.Double))
  expect_length c =
      if ltb 0 (length c.ctx.buffer) && not (head_byte c.ctx.buffer == b'$')
      then closed c
      else if ltb (length c.ctx.buffer) 1
      then done (leave c)
      else elim (crlf_at c.ctx.buffer) [
        | none ↦ done (leave c)
        | some crlf ↦ do
          len ← strtol (drop 1 (c.ctx.buffer ++ c.ctx.unused))
          length_read c crlf len
      ]

  -- `response_buffer[i] = byte`: in the block, or past its end.
  abbrev pub put_byte : Conn f.Double × Bytes → ℕ → ℕ → Conn f.Double × Bytes
  put_byte (c, block) i byte =
      if ltb i (length block) then (c, set block i byte) else (note c (overrun i byte), block)

  -- The response to a result; the arguments are kept.
  unfoldable pub respond_to : Conn f.Double → ExecuteResult → Outcome (Step (Conn f.Double))
  respond_to c result =
      let body_len = result.body_length in
      let size = (body_len + 1) % 2 ^ 64 in
      let response_buffer = realloc net.fresh result.body size in
      let after_cr = put_byte (c, response_buffer) body_len cr in
      let after_lf = put_byte after_cr ((body_len + 1) % 2 ^ 64) lf in
      let write_len = sizet_to_uint size (some false) in
      if not (net.env.malloc size)
      then give_up (note c response_freed)
      else if not (net.env.malloc net.sizeof_write_req) || failed write_len
      then give_up (note after_lf.0 response_freed)
      else done (again (note after_lf.0 (written (take write_len.0 after_lf.1))))

  -- The command of the arguments that were read.
  unfoldable pub run_request :
      Conn f.Double → List (Option Bytes) → List (Option ℕ) → Outcome (Step (Conn f.Double))
  run_request c argv arg_lengths = do
    command_name ← written_at argv 0
    let argc = sizet_to_int ((c.ctx.args_total + 2 ^ 64 - 1) % 2 ^ 64) (some false) in
        if failed argc then give_up c else (do
          reply ←
              execute_command f net.env c.server_ctx (some command_name) argc.0
                (if is_positive argc.0 then written_prefix (drop 1 argv) else [])
                (if is_positive argc.0 then written_prefix (drop 1 arg_lengths) else [])
          respond_to (record c { server_ctx = record c.server_ctx { db = reply.table } })
              reply.result)

  -- The string of an argument and its length are stored; a string has one byte more, its NUL.
  abbrev pub store_argument : ClientContext → Outcome ClientContext
  store_argument ctx = do
    argv ← store ctx.temp_argv ctx.args_parsed (take ctx.data_to_read ctx.buffer ++ 0 ∷ [])
    arg_lengths ← store ctx.temp_arg_lengths ctx.args_parsed ctx.data_to_read
    if ltb (length ctx.buffer + length ctx.unused) ctx.data_to_read
        then fault
        else done (
            consume ((ctx.data_to_read + 2) % 2 ^ 64) (record ctx {
              temp_argv = argv;
              temp_arg_lengths = arg_lengths;
              args_parsed = (ctx.args_parsed + 1) % 2 ^ 64;
            }))

  -- The data of an argument. Where there is no memory for the string, NULL is stored in its place.
  unfoldable pub read_argument : Conn f.Double → Outcome (Step (Conn f.Double))
  unfolding run_request respond_to
  read_argument c =
      if not (net.env.malloc ((c.ctx.data_to_read + 1) % 2 ^ 64))
      then (do argv ← store c.ctx.temp_argv c.ctx.args_parsed []; give_up c)
      else (do
        ctx ← store_argument c.ctx
        if ctx.args_parsed == ctx.args_total
            then elim ctx.temp_argv [
              | none ↦ fault
              | some argv ↦ elim ctx.temp_arg_lengths [
                | none ↦ fault
                | some arg_lengths ↦ run_request (with_ctx c ctx) argv arg_lengths
              ]
            ]
            else done (again (with_ctx c (record ctx { state = parse_state_expect_length }))))

  unfoldable pub expect_data : Conn f.Double → Outcome (Step (Conn f.Double))
  unfolding read_argument
  expect_data c =
      if ltb (length c.ctx.buffer) ((c.ctx.data_to_read + 2) % 2 ^ 64)
      then done (leave c)
      else (let ctx = prepare net.env c.ctx in
          if unprepared ctx then give_up (with_ctx c ctx) else read_argument (with_ctx c ctx))

  -- The branches on the state of the parser.
  unfoldable pub by_state : ParserState → Conn f.Double → Outcome (Step (Conn f.Double))
  unfolding expect_type expect_length expect_data
  by_state parse_state_expect_type c = expect_type c
  by_state parse_state_expect_length c = expect_length c
  by_state parse_state_expect_data c = expect_data c

  unfoldable pub iteration : Conn f.Double → Outcome (Step (Conn f.Double))
  unfolding by_state
  iteration c = by_state c.ctx.state c

  -- `none` is a loop that has not ended.
  unfoldable pub parse_loop : ℕ → Conn f.Double → Option (Outcome (Conn f.Double))
  unfolding iteration
  parse_loop zero c = none
  parse_loop (suc fuel) c = elim (iteration c) [
    | fault ↦ some fault
    | done s ↦ elim s [ leave c' ↦ some (done c') | again c' ↦ parse_loop fuel c' ]
  ]

  -- Each iteration that goes on takes bytes off the buffer.
  unfoldable pub parse_buffer : Conn f.Double → Option (Outcome (Conn f.Double))
  unfolding parse_loop
  parse_buffer c = parse_loop (length c.ctx.buffer + 1) c
