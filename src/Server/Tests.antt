-- ===== src/Server/Tests.antt =====
-- The theorems on the server at a server whose table is empty.
mod Process
use simple_c_database.Command.Build.{build_key, build_by_tag, build_command_data}
use simple_c_database.Command.Data.{Floats, Entry, ExecuteResult}
use simple_c_database.Command.Execute.{execute_command, run_command, respond, respond_exist}
use simple_c_database.Command.Lookup.{full_registry}
use simple_c_database.Command.Procs.{cmd_exist}
use simple_c_database.Command.Registry.{find_command_index, bsearch_between}
use simple_c_database.Hashing.{hash_step, hash_from, hash}
use simple_c_database.Prelude.{
  ℕ, ◌%◌, ◌<◌, ◌≡◌, ◌⊎◌, refl, arith, true, false, some, [], ◌∷◌, ◌++◌, codes, pos, length, map,
}
use simple_c_database.Server.Answer.{Finished}
use simple_c_database.Server.Second.{read_all-again}
use simple_c_database.Server.Append.{appended, append_to_buffer_lem}
use simple_c_database.Server.Blank.{parse_buffer-blank}
use simple_c_database.Server.Bounded.{parse_buffer-Bounded}
use simple_c_database.Server.Holds.{Bounded, Holds}
use simple_c_database.Server.Buffer.{cr, lf, append_to_buffer, grown_capacity}
use simple_c_database.Server.Data.{
  parse_state_expect_type, parse_state_expect_data, client_closing, ClientContext, new_context,
  timer_started, read_freed, Net, Conn, with_ctx, note,
}
use simple_c_database.Server.Chunks.{read_all-request}
use simple_c_database.Server.Reads.{conn, ended, quiet, joined, read_all}
use simple_c_database.Server.Digits.{number_line}
use simple_c_database.Server.Slots.{slots}
use simple_c_database.Server.Handlers.{on_read}
use simple_c_database.Server.Parse.{parse_buffer}
use simple_c_database.Server.Read.{new_context-Bounded}
use simple_c_database.Server.Request.{terminated, encode}
use simple_c_database.Strings.{
  Bytes, is_key_valid, ustrdup, ustrlen, ustrlen_from, ustrcmp, ustrncmp, ustrncmp_loop,
}
use simple_c_database.Table.Data.{Outcome, fault, done, Reply, rdlocked, unlocked}
use simple_c_database.Table.Empty.{empty_table}
use simple_c_database.Table.Keys.{table_exist}
use simple_c_database.Table.Scan.{bucket_index, matches, find_slot, with_bucket}

-- A pair of counts in the place of a `double`.
abbrev pub pairs : Floats
pairs = record {
  Double = ℕ × ℕ;
  zero_double = (0, 1);
  divide = λ a b. (a, b);
  bits = λ x. x.0;
  of_bits = λ n. (n, 1);
  print_fixed = λ n x. some (codes "0.50");
}

abbrev pub giving : Net
giving = record {
  env = record {
    malloc = λ _. true;
    lock = λ _. true;
    init_lock = λ _. true;
    destroy_lock = λ _. true;
    sizeof_lock = 56;
  };
  fresh = λ _. 0;
  sizeof_write_req = 208;
  sizeof_client_context = 520;
}

abbrev opened : Conn (ℕ × ℕ)
opened = record {
  ctx = new_context;
  server_ctx = record { reg = some (full_registry pairs); db = some (empty_table 2 2) };
  events = [];
}

-- The name and the argument of a request.
abbrev name : Bytes
name = codes "EXIST"

abbrev key : Bytes
key = codes "ab"

abbrev no_such_key : Reply Entry ExecuteResult
no_such_key = record {
  result = record { status_code = 200; body = some (b'0' ∷ 0 ∷ []); body_length = 1 };
  table = some (empty_table 2 2);
  destroyed = [];
  events = rdlocked (hash key % 2) ∷ unlocked (hash key % 2) ∷ [];
}

exist_run :
    execute_command pairs giving.env opened.server_ctx
      (some (terminated name))
      (pos 1)
      (map terminated (key ∷ []))
      (map length (key ∷ []))
    ≡ done no_such_key
unfolding execute_command run_command respond respond_exist find_command_index bsearch_between
    build_command_data build_by_tag build_key cmd_exist is_key_valid ustrdup ustrlen ustrlen_from
    ustrcmp ustrncmp ustrncmp_loop table_exist with_bucket bucket_index matches find_slot hash_step
    hash_from hash
exist_run = refl

-- A request whose bytes are the whole block of the buffer.
abbrev exact : Conn (ℕ × ℕ)
exact = with_ctx opened (record new_context { buffer_capacity = length (encode (name ∷ key ∷ [])) })

-- A cut in the count of the strings, and another between a carriage return and its line feed.
abbrev cut_1 : Bytes
cut_1 = codes "*"

abbrev cut_2 : Bytes
cut_2 = b'2' ∷ cr ∷ []

abbrev cut_3 : Bytes
cut_3 = lf ∷ b'$' ∷ number_line 5 (name ++ cr ∷ lf ∷ b'$' ∷ number_line 2 (key ++ cr ∷ lf ∷ []))

cuts-join : joined (cut_1 ∷ cut_2 ∷ cut_3 ∷ []) ≡ encode (name ∷ key ∷ [])
unfolding number_line
cuts-join = refl

read_all-request_example :
    (end : ClientContext) × (read_all pairs giving
        (conn opened.server_ctx new_context [])
        (cut_1 ∷ cut_2 ∷ cut_3 ∷ [])
      ≡ some (
          done (
            note
              (ended giving opened.server_ctx no_such_key end (quiet 2 [] ++ timer_started ∷ []))
              read_freed)))
    × (end.buffer ≡ [])
    × Finished end (name ∷ key ∷ [])
    × Bounded end
read_all-request_example =
    read_all-request pairs giving (λ _. refl) name (key ∷ []) (omega arith, (omega arith, tt))
      (omega arith) opened.server_ctx no_such_key exist_run (omega arith) cut_1 (cut_2 ∷ cut_3 ∷ [])
      [] cuts-join (omega arith, (omega arith, (unfold number_line in omega arith, tt)))
      (unfold number_line in omega arith)

-- The same request once more.
read_all-again_example :
    read_all pairs giving
      (conn opened.server_ctx new_context [])
      ((cut_1 ∷ cut_2 ∷ cut_3 ∷ []) ++ encode (name ∷ key ∷ []) ∷ [])
    ≡ some fault
read_all-again_example =
    read_all-again pairs giving (λ _. refl) name (key ∷ []) (omega arith, (omega arith, tt))
      (omega arith) opened.server_ctx no_such_key exist_run (omega arith) cut_1 (cut_2 ∷ cut_3 ∷ [])
      [] (encode (name ∷ key ∷ [])) cuts-join
      (omega arith, (omega arith, (unfold number_line in omega arith, tt)))
      (unfold number_line in omega arith) (unfold number_line in omega arith)
      (unfold number_line in omega arith)

-- A connection that was answered, with four more bytes.
abbrev second : Conn (ℕ × ℕ)
second = with_ctx opened (record new_context {
  buffer = b'*' ∷ b'1' ∷ 13 ∷ 10 ∷ [];
  buffer_capacity = 4;
  state = parse_state_expect_data;
  args_total = 2;
  args_parsed = 2;
  data_to_read = 2;
  temp_argv = some (slots (map terminated (name ∷ key ∷ [])) 0);
  temp_arg_lengths = some (slots (5 ∷ 2 ∷ []) 0);
})

parse_buffer-Bounded_example :
    (o : Outcome (Conn (ℕ × ℕ))) × (parse_buffer pairs giving second ≡ some o)
    × Holds (λ c. Bounded c.ctx) o
parse_buffer-Bounded_example =
    parse_buffer-Bounded pairs giving second
      (record { total = omega arith; small = omega arith; block = refl })

append_to_buffer_lem_example :
    ((unused : Bytes) × (capacity : ℕ) × (append_to_buffer giving opened key
        ≡ done (with_ctx opened (appended new_context key unused capacity)))
      × Bounded (appended new_context key unused capacity))
    ⊎ ((append_to_buffer giving opened key ≡ done (note opened client_closing))
        × (0 < 2)
        × (giving.env.malloc (grown_capacity new_context 2) ≡ false))
append_to_buffer_lem_example =
    append_to_buffer_lem giving opened key new_context-Bounded (omega arith)

parse_buffer-blank_example :
    parse_buffer pairs giving (
      with_ctx opened (record new_context {
        state = parse_state_expect_type;
        buffer = b'*' ∷ cr ∷ lf ∷ cr ∷ lf ∷ [];
      }))
    ≡ some fault
parse_buffer-blank_example = parse_buffer-blank pairs giving opened (cr ∷ lf ∷ []) refl refl
