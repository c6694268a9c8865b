-- ===== src/Server/Answer.antt =====
-- The answer to a request, and the state that it leaves the parser in.
use simple_c_database.Command.Data.{Floats, Entry, ExecuteResult}
use simple_c_database.Command.Execute.{execute_command}
use simple_c_database.Prelude.{
  ℕ, suc, ◌+◌, ◌-◌, ◌%◌, ◌^◌, ◌≤◌, ◌<◌, ◌≡◌, refl, ap, ◌∙◌, arith, true, false, some, List, [], ◌∷◌,
  map, pos, length, ltb, if◌then◌else◌,
}
use simple_c_database.Server.Data.{
  parse_state_expect_data, ClientContext, Net, Conn, with_ctx, again, leave,
}
use simple_c_database.Server.Arrays.{is_positive, written_prefix}
use simple_c_database.Server.Parse.{iteration, by_state, expect_data, run_request}
use simple_c_database.Server.LastRead.{LastRead, last_length}
use simple_c_database.Server.Response.{answered, respond_to-answered}
use simple_c_database.Server.Request.{terminated}
use simple_c_database.Server.Run.{Reaches, here, step, Reaches-trans}
use simple_c_database.Server.Slots.{slots, written_prefix-slots}
use simple_c_database.Strings.{Bytes, sizet_to_int}
use simple_c_database.Table.Data.{done, Reply}

-- The strings after the name, where there are any.
arguments-slots :
    {A : Type 0} (n : ℕ) (xs : List A)
    → n ≡ length xs
    → (if is_positive (pos n) then written_prefix (slots xs 0) else []) ≡ xs
arguments-slots n [] e = rw e refl
arguments-slots n (x ∷ xs) e =
    let some_args : ltb 0 n ≡ true = ground arith in rw (some_args, written_prefix-slots xs) refl

-- What a request leaves in the parser: all of its arguments, and the state in which it read the last one.
pub record Finished (ctx : ClientContext) (args : List Bytes) : Type 0 where
  pub state : ctx.state ≡ parse_state_expect_data
  pub total : ctx.args_total ≡ length args
  pub parsed : ctx.args_parsed ≡ length args
  pub small : ctx.data_to_read ≤ 8192
  pub last : ctx.data_to_read ≡ last_length (map length args)
  pub argv : ctx.temp_argv ≡ some (slots (map terminated args) 0)

module _ (f : Floats) (net : Net) (memory : (m : ℕ) → net.env.malloc m ≡ true) where
  -- Where fewer bytes are there than the parser waits for, the loop ends.
  expect_data-short :
      (c : Conn f.Double)
      → c.ctx.state ≡ parse_state_expect_data
      → length c.ctx.buffer < c.ctx.data_to_read + 2
      → c.ctx.data_to_read ≤ 8192
      → iteration f net c ≡ done (leave c)
  unfolding iteration by_state expect_data
  expect_data-short c e h small =
      let short : ltb (length c.ctx.buffer) ((c.ctx.data_to_read + 2) % 2 ^ 64) ≡ true =
        ground arith in
      ap (λ s. by_state f net s c) e ∙ rw short refl

  run_request-slots :
      (c : Conn f.Double) (name : Bytes) (args : List Bytes) (l : ℕ) (ls : List ℕ) (n : ℕ)
      (reply : Reply Entry ExecuteResult)
      → c.ctx.args_total ≡ suc n
      → n ≡ length args
      → n ≡ length ls
      → n ≤ 1023
      → execute_command f net.env c.server_ctx (some name) (pos n) args ls ≡ done reply
      → reply.result.body_length + 1 < 2 ^ 32
      → run_request f net c (slots (name ∷ args) 0) (slots (l ∷ ls) 0)
        ≡ done (
            again (
              answered net
                (record c { server_ctx = record c.server_ctx { db = reply.table } })
                reply.result))
  unfolding run_request sizet_to_int
  run_request-slots c name args l ls n reply total count_s count_l few run fits =
      let argc : (c.ctx.args_total + 2 ^ 64 - 1) % 2 ^ 64 ≡ n = omega arith in
      let int : ltb (2 ^ 31 - 1) n ≡ false = ground arith in
      rw
        (
          argc,
          int,
          arguments-slots n args count_s,
          arguments-slots n ls count_l,
          run,
          respond_to-answered f net memory
              (record c { server_ctx = record c.server_ctx { db = reply.table } }) reply.result
              fits,
        )
        refl

  -- The last argument leads to the response, and the loop waits after it.
  pub LastRead-answered :
      (c start : Conn f.Double) (name : Bytes) (args : List Bytes) (l : ℕ) (ls : List ℕ) (n : ℕ)
      (reply : Reply Entry ExecuteResult)
      (first : LastRead f net memory c start (suc n) (name ∷ args) (l ∷ ls))
      → n ≡ length args
      → n ≡ length ls
      → n ≤ 1023
      → execute_command f net.env c.server_ctx (some name) (pos n) args ls ≡ done reply
      → reply.result.body_length + 1 < 2 ^ 32
      → let end =
          answered net
            (record c { ctx = first.final; server_ctx = record c.server_ctx { db = reply.table } })
            reply.result in
        Reaches f net start end × (iteration f net end ≡ done (leave end))
  LastRead-answered c start name args l ls n reply first count_s count_l few run fits =
      let end =
        answered net
          (record c { ctx = first.final; server_ctx = record c.server_ctx { db = reply.table } })
          reply.result in
      let ran =
        first.run
        ∙ run_request-slots (with_ctx c first.final) name args l ls n reply first.total count_s
            count_l few run fits in
      let none_left : length first.final.buffer < first.final.data_to_read + 2 =
        rw first.emptied (omega arith) in
      (
        Reaches-trans f net first.reaches (step ran here),
        expect_data-short end first.state none_left first.small,
      )
