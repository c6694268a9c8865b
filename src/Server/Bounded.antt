-- ===== src/Server/Bounded.antt =====
-- The end of the loop of `parse_buffer`, and the bounds of the parser after it.
use simple_c_database.Command.Data.{Floats, ExecuteResult}
use simple_c_database.Command.Execute.{execute_command}
use simple_c_database.Prelude.{
  ℕ, zero, suc, ◌+◌, ◌-◌, ◌%◌, ◌^◌, ◌≤◌, ◌<◌, ◌≡◌, refl, sym, subst, ◌∙◌, arith, Bool, true, false,
  not, ◌||◌, Option, none, some, List, [], length, length-drop, inl, inr, Bool-cases, ltb, ◌==◌,
  if◌then◌else◌,
}
use simple_c_database.Server.Buffer.{consume, cr, lf}
use simple_c_database.Server.Data.{
  ParserState, ClientContext, parse_state_expect_type, parse_state_expect_length,
  parse_state_expect_data, Net, Conn, with_ctx, note, Step, again, leave, response_freed,
}
use simple_c_database.Server.Arrays.{prepare, unprepared, store, written_at, failed, realloc}
use simple_c_database.Server.Parse.{
  put_byte, respond_to, run_request, store_argument, read_argument, expect_data, by_state,
  iteration, parse_loop, parse_buffer,
}
use simple_c_database.Strings.{Bytes, sizet_to_uint, sizet_to_int}
use simple_c_database.Table.Data.{Outcome, fault, done}
use simple_c_database.Server.Holds.{
  Holds, Holds-any, Holds-bind, Holds-if, Bounded, consume-Bounded, prepare-kept,
}
use simple_c_database.Server.Next.{Next, give_up-Next, expect_type-Next, expect_length-Next}

module _ (f : Floats) (net : Net) (n : ℕ) where
  -- A byte of a response does not change the parser.
  put_byte-ctx :
      (p : Conn f.Double × Bytes) (i byte : ℕ) → (put_byte f net p i byte).0.ctx ≡ p.0.ctx
  put_byte-ctx (c, block) i byte = elim (Bool-cases (ltb i (length block))) [
    | inl inside ↦ rw inside refl
    | inr outside ↦ rw outside refl
  ]

  respond_to-Next :
      (c : Conn f.Double) (r : ExecuteResult)
      → Bounded c.ctx
      → length c.ctx.buffer < n
      → Holds (Next n) (respond_to f net c r)
  unfolding respond_to
  respond_to-Next c r b lt =
      let size = (r.body_length + 1) % 2 ^ 64 in
      let after_cr = put_byte f net (c, realloc net.fresh r.body size) r.body_length cr in
      let after_lf = put_byte f net after_cr ((r.body_length + 1) % 2 ^ 64) lf in
      let same : after_lf.0.ctx ≡ c.ctx =
        put_byte-ctx after_cr ((r.body_length + 1) % 2 ^ 64) lf
        ∙ put_byte-ctx (c, realloc net.fresh r.body size) r.body_length cr in
      let next : Bounded after_lf.0.ctx × (length after_lf.0.ctx.buffer < n) =
        subst (λ ctx. Bounded ctx × (length ctx.buffer < n)) (sym same) (b, lt) in
      Holds-if (Next n) (not (net.env.malloc size)) _ _
        (give_up-Next f net n (note c response_freed) b)
        (Holds-if (Next n)
          (not (net.env.malloc net.sizeof_write_req) || failed (sizet_to_uint size (some false))) _
          _ (give_up-Next f net n (note after_lf.0 response_freed) next.0) next)

  store_argument-Holds :
      (ctx : ClientContext)
      → Bounded ctx
      → ctx.data_to_read + 2 ≤ length ctx.buffer
      → Holds
          (λ ctx'. Bounded ctx' × (length ctx'.buffer < length ctx.buffer))
          (store_argument f net ctx)
  store_argument-Holds ctx b le =
      let taken : (ctx.data_to_read + 2) % 2 ^ 64 ≡ ctx.data_to_read + 2 = omega (arith, b.small) in
      let P : ClientContext → Type 0 =
        λ ctx'. Bounded ctx' × (length ctx'.buffer < length ctx.buffer) in
      Holds-bind (λ _. Unit) P (store ctx.temp_argv ctx.args_parsed _) _ (Holds-any _)
        (λ argv _.
          Holds-bind (λ _. Unit) P (store ctx.temp_arg_lengths ctx.args_parsed _) _ (Holds-any _)
            (λ ls _.
              let stored : ClientContext = record ctx {
                temp_argv = argv;
                temp_arg_lengths = ls;
                args_parsed = (ctx.args_parsed + 1) % 2 ^ 64;
              } in
              let after : P (consume ((ctx.data_to_read + 2) % 2 ^ 64) stored) = (
                consume-Bounded ((ctx.data_to_read + 2) % 2 ^ 64) stored
                    (record { total = b.total; small = b.small; block = b.block }),
                omega (arith, taken, length-drop ((ctx.data_to_read + 2) % 2 ^ 64) ctx.buffer),
              ) in
              Holds-if P (ltb (length ctx.buffer + length ctx.unused) ctx.data_to_read) fault _ tt
                after))

  run_request-Next :
      (c : Conn f.Double) (argv : List (Option Bytes)) (ls : List (Option ℕ))
      → Bounded c.ctx
      → length c.ctx.buffer < n
      → Holds (Next n) (run_request f net c argv ls)
  unfolding run_request
  run_request-Next c argv ls b lt =
      Holds-bind (λ _. Unit) (Next n) (written_at argv 0) _ (Holds-any _)
        (λ name _.
          Holds-if (Next n)
            (failed (sizet_to_int ((c.ctx.args_total + 2 ^ 64 - 1) % 2 ^ 64) (some false))) _ _
            (give_up-Next f net n c b)
            (Holds-bind (λ _. Unit) (Next n)
              (execute_command f net.env c.server_ctx (some name) _ _ _) _ (Holds-any _)
              (λ reply _. respond_to-Next _ reply.result b lt)))

  -- What follows an argument, by whether it was the last one.
  if_last :
      (last : Bool) (c : Conn f.Double) (ctx : ClientContext) (argv : Option (List (Option Bytes)))
      (ls : Option (List (Option ℕ)))
      → Bounded ctx
      → length ctx.buffer < n
      → Holds (Next n) (
          if last
          then elim argv [
            | none ↦ fault
            | some xs ↦ elim ls [
              | none ↦ fault
              | some ns ↦ run_request f net (with_ctx c ctx) xs ns
            ]
          ]
          else done (again (with_ctx c (record ctx { state = parse_state_expect_length }))))
  if_last false c ctx argv ls b lt =
      (record { total = b.total; small = b.small; block = b.block }, lt)
  if_last true c ctx none ls b lt = tt
  if_last true c ctx (some xs) none b lt = tt
  if_last true c ctx (some xs) (some ns) b lt = run_request-Next (with_ctx c ctx) xs ns b lt

  read_argument-Next :
      (c : Conn f.Double)
      → Bounded c.ctx
      → c.ctx.data_to_read + 2 ≤ length c.ctx.buffer
      → length c.ctx.buffer ≤ n
      → Holds (Next n) (read_argument f net c)
  unfolding read_argument
  read_argument-Next c b enough le =
      Holds-if (Next n) (not (net.env.malloc ((c.ctx.data_to_read + 1) % 2 ^ 64))) _ _
        (Holds-bind (λ _. Unit) (Next n) (store c.ctx.temp_argv c.ctx.args_parsed []) _
          (Holds-any _) (λ _ _. give_up-Next f net n c b))
        (Holds-bind _ (Next n) (store_argument f net c.ctx) _ (store_argument-Holds c.ctx b enough)
          (λ ctx h.
            if_last (ctx.args_parsed == ctx.args_total) c ctx ctx.temp_argv ctx.temp_arg_lengths h.0
              (omega (arith, h.1))))

  expect_data-Next :
      (c : Conn f.Double)
      → Bounded c.ctx
      → length c.ctx.buffer ≤ n
      → Holds (Next n) (expect_data f net c)
  unfolding expect_data
  expect_data-Next c b le =
      elim (Bool-cases (ltb (length c.ctx.buffer) ((c.ctx.data_to_read + 2) % 2 ^ 64))) [
        | inl short ↦ rw short b
        | inr enough ↦
            let (b', same, data') = prepare-kept net.env c.ctx b in
            rw enough (
              Holds-if (Next n) (unprepared (prepare net.env c.ctx)) _ _ (give_up-Next f net n _ b')
                (read_argument-Next (with_ctx c (prepare net.env c.ctx)) b'
                  (ground (arith, same, data', b.small)) (omega (arith, same))))
      ]

  pub by_state-Next :
      (s : ParserState) (c : Conn f.Double)
      → Bounded c.ctx
      → length c.ctx.buffer ≤ n
      → Holds (Next n) (by_state f net s c)
  unfolding by_state
  by_state-Next parse_state_expect_type c b le = expect_type-Next f net n c b le
  by_state-Next parse_state_expect_length c b le = expect_length-Next f net n c b le
  by_state-Next parse_state_expect_data c b le = expect_data-Next c b le

module _ (f : Floats) (net : Net) where
  -- One iteration more than there are bytes is enough.
  parse_loop-Bounded :
      (fuel : ℕ) (c : Conn f.Double)
      → Bounded c.ctx
      → length c.ctx.buffer < fuel
      → (o : Outcome (Conn f.Double)) × (parse_loop f net fuel c ≡ some o)
        × Holds (λ c'. Bounded c'.ctx) o
  unfolding parse_loop iteration
  parse_loop-Bounded zero c b lt = absurd (omega arith)
  parse_loop-Bounded (suc fuel) c b lt =
      after (iteration f net c)
        (by_state-Next f net (length c.ctx.buffer) c.ctx.state c b (omega arith))
        (λ c' b' lt'. parse_loop-Bounded fuel c' b' (omega arith))
    where
      after :
          (o : Outcome (Step (Conn f.Double)))
          → Holds (Next (length c.ctx.buffer)) o
          → ((c' : Conn f.Double)
              → Bounded c'.ctx
              → length c'.ctx.buffer < length c.ctx.buffer
              → (o' : Outcome (Conn f.Double)) × (parse_loop f net fuel c' ≡ some o')
                × Holds (λ c'. Bounded c'.ctx) o')
          → (o' : Outcome (Conn f.Double)) × (elim o [
            | fault ↦ some fault
            | done s ↦ elim s [ leave c' ↦ some (done c') | again c' ↦ parse_loop f net fuel c' ]
          ]
              ≡ some o')
            × Holds (λ c'. Bounded c'.ctx) o'
      after fault h go = (fault, refl, tt)
      after (done (leave c')) h go = (done c', refl, h)
      after (done (again c')) h go = go c' h.0 h.1

  -- On a context whose numbers are within the limits and whose block has the noted capacity, the loop of
  -- `parse_buffer` ends, whatever bytes are in the buffer and whatever the allocations and the locks do;
  -- and where it ends without an access out of bounds, the same bounds hold of the context again.
  pub parse_buffer-Bounded :
      (c : Conn f.Double)
      → Bounded c.ctx
      → (o : Outcome (Conn f.Double)) × (parse_buffer f net c ≡ some o)
        × Holds (λ c'. Bounded c'.ctx) o
  unfolding parse_buffer
  parse_buffer-Bounded c b = parse_loop-Bounded (length c.ctx.buffer + 1) c b (omega arith)
