-- ===== src/Server/Handlers.antt =====
-- The callbacks of the event loop. libuv is known by the calls it
-- gets, which are in the events, and by what it hands to the callbacks, which are their arguments.
use simple_c_database.Command.Data.{Floats, ServerContext, ◌>>=◌}
use simple_c_database.Prelude.{
  ℕ, zero, suc, Bool, true, false, not, Option, none, some, [], ℤ, pos, negsuc, take, ◌==◌, is_zero,
  if◌then◌else◌,
}
use simple_c_database.Server.Buffer.{append_to_buffer}
use simple_c_database.Server.Data.{
  new_context, client_closing, timer_closing, timer_started, timer_stopped, read_freed,
  buffer_freed, context_freed, response_freed, Net, Conn, with_ctx, note,
}
use simple_c_database.Server.Arrays.{failed, is_written, free_parser_resources, reset_parser}
use simple_c_database.Server.Parse.{parse_buffer}
use simple_c_database.Strings.{Bytes, ssizet_to_sizet}
use simple_c_database.Table.Data.{Outcome, fault, done}

-- A negative status.
abbrev pub is_negative : ℤ → Bool
is_negative (pos n) = false
is_negative (negsuc n) = true

module _ {Double : Type 0} where
  unfoldable pub on_close_after_failure : Conn Double → Conn Double
  on_close_after_failure c = note c context_freed

  -- The buffer is NULL as long as it has no capacity.
  unfoldable pub on_timer_close : Conn Double → Conn Double
  on_timer_close c =
      if c.ctx.buffer_capacity == 0
      then note c context_freed
      else note (note c buffer_freed) context_freed

  unfoldable pub on_client_close : Bool → Conn Double → Outcome (Conn Double)
  on_client_close timer_is_closing c = do
    ctx ← free_parser_resources c.ctx
    done (with_ctx (if timer_is_closing then c else note c timer_closing) (reset_parser ctx))

  unfoldable pub on_client_timeout : Conn Double → Conn Double
  on_client_timeout c = note c client_closing

  unfoldable pub on_write_complete : ℤ → Conn Double → Conn Double
  on_write_complete status c =
      if is_negative status
      then note (note c response_freed) client_closing
      else note c response_freed

-- The length of the buffer that libuv is given.
unfoldable pub alloc_buffer : (ℕ → Bool) → ℕ → Bool × ℕ
alloc_buffer alloc suggested_size =
    if alloc suggested_size then (true, suggested_size) else (false, 0)

module _ (f : Floats) (net : Net) where
  abbrev pub free_base : Option Bytes → Conn f.Double → Conn f.Double
  free_base base c = if is_written base then note c read_freed else c

  -- The bytes behind `buf->base`.
  abbrev pub base_bytes : Option Bytes → Bytes
  base_bytes none = []
  base_bytes (some bytes) = bytes

  -- The call of `parse_buffer` and what follows it.
  abbrev pub parse_read : Option Bytes → Outcome (Conn f.Double) → Option (Outcome (Conn f.Double))
  parse_read base fault = some fault
  parse_read base (done c) = elim (parse_buffer f net c) [
    | none ↦ none
    | some o ↦ some (do c' ← o; done (free_base base c'))
  ]

  -- `none` is a loop of `parse_buffer` that has not ended.
  unfoldable pub on_read : Conn f.Double → ℤ → Option Bytes → Option (Outcome (Conn f.Double))
  on_read c (pos zero) base = some (done (free_base base c))
  on_read c (pos (suc n)) base =
      let len = ssizet_to_sizet (pos (suc n)) (some false) in
      let appended = append_to_buffer net (note c timer_started) (take len.0 (base_bytes base)) in
      if failed len then some appended else parse_read base appended
  on_read c (negsuc n) base =
      some (done (free_base base (note (note c timer_stopped) client_closing)))

  -- A connection, where there is one, with the result of `uv_accept`.
  unfoldable pub on_new_connection : ServerContext f.Double → ℤ → ℤ → Option (Conn f.Double)
  on_new_connection server_ctx status accepted =
      let c : Conn f.Double = record { ctx = new_context; server_ctx = server_ctx; events = [] } in
      if is_negative status
      then none
      else if not (net.env.malloc net.sizeof_client_context)
      then none
      else if is_zero accepted
      then some (note (with_ctx c (reset_parser c.ctx)) timer_started)
      else some (note c client_closing)
