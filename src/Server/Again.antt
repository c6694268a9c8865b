-- ===== src/Server/Again.antt =====
-- The parser where it still holds a request that was answered.
use simple_c_database.Command.Data.{Floats}
use simple_c_database.Prelude.{
  ℕ, suc, ◌+◌, ◌%◌, ◌^◌, ◌≤◌, ◌≡◌, refl, sym, ap, ◌∙◌, arith, false, some, List, [], map, length,
  length-map, take, inl, inr, Bool-cases, ltb, ◌==◌,
}
use simple_c_database.Server.Data.{Net, Conn}
use simple_c_database.Server.Arrays.{store}
use simple_c_database.Server.Parse.{
  iteration, by_state, expect_data, read_argument, parse_loop, parse_buffer,
}
use simple_c_database.Server.Request.{terminated}
use simple_c_database.Server.Slots.{slots, length-slots}
use simple_c_database.Strings.{Bytes}
use simple_c_database.Table.Data.{fault}
use simple_c_database.Server.Answer.{Finished}

module _ (f : Floats) (net : Net) where
  full-store :
      (ss : List Bytes) (p : ℕ) (a : Bytes) → p ≡ length ss → store (some (slots ss 0)) p a ≡ fault
  full-store ss p a e =
      let outside : ltb p (length (slots ss 0)) ≡ false = ground (arith, length-slots ss 0) in
      rw outside refl

  expect_data-again :
      (c : Conn f.Double) (args : List Bytes)
      → Finished c.ctx args
      → 1 ≤ length args
      → c.ctx.data_to_read + 2 ≤ length c.ctx.buffer
      → expect_data f net c ≡ fault
  unfolding expect_data read_argument
  expect_data-again c args finished some_args enough =
      let ready : ltb (length c.ctx.buffer) ((c.ctx.data_to_read + 2) % 2 ^ 64) ≡ false =
        ground (arith, finished.small) in
      let later : (c.ctx.args_parsed == 0) ≡ false = ground (arith, finished.parsed) in
      let full =
        full-store (map terminated args) c.ctx.args_parsed []
          (finished.parsed ∙ sym (length-map terminated args)) in
      let full' =
        full-store (map terminated args) c.ctx.args_parsed
          (terminated (take c.ctx.data_to_read c.ctx.buffer))
          (finished.parsed ∙ sym (length-map terminated args)) in
      elim (Bool-cases (net.env.malloc ((c.ctx.data_to_read + 1) % 2 ^ 64))) [
        | inl given ↦ rw (ready, later, given, finished.argv, full') refl
        | inr refused ↦ rw (ready, later, refused, finished.argv, full) refl
      ]

  -- A parser that holds all strings of a request accesses memory out of bounds as soon as the buffer has
  -- two bytes more than the last of them has.
  pub parse_buffer-again :
      (c : Conn f.Double) (args : List Bytes)
      → Finished c.ctx args
      → 1 ≤ length args
      → c.ctx.data_to_read + 2 ≤ length c.ctx.buffer
      → parse_buffer f net c ≡ some fault
  unfolding parse_buffer iteration by_state
  parse_buffer-again c args finished some_args enough =
      let fuel : length c.ctx.buffer + 1 ≡ suc (length c.ctx.buffer) = omega arith in
      let outside : iteration f net c ≡ fault =
        ap (λ s. by_state f net s c) finished.state
        ∙ expect_data-again c args finished some_args enough in
      rw (fuel, parse_loop, outside) refl
