-- ===== src/Server/Data.antt =====
-- The types of server.h.
--
-- The block of the buffer is in two parts: the bytes that are used and the rest of the block, which
-- holds whatever is left there. An array of `malloc` is a list with `none` where nothing was written.
use simple_c_database.Command.Data.{ServerContext}
use simple_c_database.Prelude.{ℕ, zero, suc, ◌+◌, Option, none, List, [], ◌∷◌, ◌++◌}
use simple_c_database.Strings.{Bytes}
use simple_c_database.Table.Data.{Env}

pub data ParserState : Type 0 where
  parse_state_expect_type parse_state_expect_length parse_state_expect_data : ParserState

-- `client_context_t`; `buffer_used` is the length of `buffer`.
pub record ClientContext : Type 0 where
  pub buffer : Bytes
  pub unused : Bytes
  pub buffer_capacity : ℕ
  pub state : ParserState
  pub args_total : ℕ
  pub args_parsed : ℕ
  pub data_to_read : ℕ
  pub temp_argv : Option (List (Option Bytes))
  pub temp_arg_lengths : Option (List (Option ℕ))

-- `calloc` of a context
abbrev pub new_context : ClientContext
new_context = record {
  buffer = [];
  unused = [];
  buffer_capacity = 0;
  state = parse_state_expect_type;
  args_total = 0;
  args_parsed = 0;
  data_to_read = 0;
  temp_argv = none;
  temp_arg_lengths = none;
}

-- The calls of libuv and of `free` that are seen outside, and a byte that is written past the end of
-- the block of a response, with its index.
pub data NetEvent : Type 0 where
  client_closing timer_closing timer_started timer_stopped : NetEvent
  read_freed buffer_freed context_freed response_freed : NetEvent
  written : Bytes → NetEvent
  overrun : ℕ → ℕ → NetEvent

-- The allocations, the bytes of memory that nothing was written to, and the sizes of the structs.
pub record Net : Type 0 where
  pub env : Env
  pub fresh : ℕ → ℕ
  pub sizeof_write_req : ℕ
  pub sizeof_client_context : ℕ

-- `n` bytes of such memory, from an offset.
abbrev pub fresh_bytes : (ℕ → ℕ) → ℕ → ℕ → Bytes
fresh_bytes fresh zero i = []
fresh_bytes fresh (suc n) i = fresh i ∷ fresh_bytes fresh n (i + 1)

-- A connection with the state of the server, and what happened so far.
pub record Conn (Double : Type 0) : Type 0 where
  pub ctx : ClientContext
  pub server_ctx : ServerContext Double
  pub events : List NetEvent

module _ {Double : Type 0} where
  abbrev pub with_ctx : Conn Double → ClientContext → Conn Double
  with_ctx c ctx = record c { ctx = ctx }

  abbrev pub note : Conn Double → NetEvent → Conn Double
  note c e = record c { events = c.events ++ e ∷ [] }

-- An iteration of a loop goes on with the next one, or leaves the loop.
pub data Step (A : Type 0) : Type 0 where
  again leave : A → Step A
