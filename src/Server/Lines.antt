-- ===== src/Server/Lines.antt =====
-- The iterations that read the lines of a request.
use simple_c_database.Command.Data.{Floats}
use simple_c_database.Prelude.{
  ℕ, ◌+◌, ◌-◌, ◌^◌, ◌≤◌, ◌≡◌, refl, arith, true, false, [], none, ◌∷◌, ◌++◌, pos, length, drop, ltb,
}
use simple_c_database.Server.Buffer.{crlf_at}
use simple_c_database.Server.Data.{
  parse_state_expect_type, parse_state_expect_length, parse_state_expect_data, ClientContext, Net,
  Conn, with_ctx, again, leave,
}
use simple_c_database.Server.Digits.{Line-cons, number_line, number_line-Line, strtol-number_line}
use simple_c_database.Server.Arrays.{outside_range}
use simple_c_database.Server.Parse.{iteration, by_state, expect_type, expect_length}
use simple_c_database.Strings.{Bytes, long_to_sizet}
use simple_c_database.Table.Data.{done}

module _ (f : Floats) (net : Net) (c : Conn f.Double) (ctx : ClientContext) (rest : Bytes) where
  pub expect_length-line :
      (len : ℕ)
      → len ≤ 8192
      → (u : Bytes) × (iteration f net (
            with_ctx c (record ctx {
              state = parse_state_expect_length;
              buffer = b'$' ∷ number_line len rest;
            }))
          ≡ done (
              again (
                with_ctx c (record ctx {
                  state = parse_state_expect_data;
                  buffer = rest;
                  unused = u;
                  data_to_read = len;
                }))))
  unfolding iteration by_state expect_length long_to_sizet
  expect_length-line len small =
      let line : Bytes = b'$' ∷ number_line len rest in
      let (i, found, after) =
        Line-cons b'$' (number_line len rest) rest refl (number_line-Line len rest) in
      let number = strtol-number_line len rest ctx.unused (omega arith) in
      let within : outside_range 0 8192 (pos len) ≡ false = ground arith in
      let fits : ltb (2 ^ 64 - 1) len ≡ false = ground arith in
      let nonempty : ltb 0 (length line) ≡ true = ground arith in
      let enough : ltb (length line) 1 ≡ false = ground arith in
      (
        drop (length line - (i + 2)) line ++ ctx.unused,
        rw (nonempty, enough, found, number, within, fits, after) refl,
      )

  pub expect_type-line :
      (n : ℕ)
      → 1 ≤ n
      → n ≤ 1024
      → (u : Bytes) × (iteration f net (
            with_ctx c
              (record ctx { state = parse_state_expect_type; buffer = b'*' ∷ number_line n rest }))
          ≡ done (
              again (
                with_ctx c (record ctx {
                  state = parse_state_expect_length;
                  buffer = rest;
                  unused = u;
                  args_total = n;
                  args_parsed = 0;
                }))))
  unfolding iteration by_state expect_type long_to_sizet
  expect_type-line n some_args small =
      let line : Bytes = b'*' ∷ number_line n rest in
      let (i, found, after) =
        Line-cons b'*' (number_line n rest) rest refl (number_line-Line n rest) in
      let left : Bytes = drop (length line - 0) line ++ ctx.unused in
      let number = strtol-number_line n rest left (omega arith) in
      let within : outside_range 1 1024 (pos n) ≡ false = ground arith in
      let fits : ltb (2 ^ 64 - 1) n ≡ false = ground arith in
      let enough : ltb (length line) 1 ≡ false = ground arith in
      (
        drop (length line - (i + 2)) line ++ left,
        rw (enough, found, number, within, fits, after) refl,
      )

-- The iterations on a line that is not all there.
module _ (f : Floats) (net : Net) (c : Conn f.Double) (ctx : ClientContext) where
  pub expect_length-nil :
      iteration f net (with_ctx c (record ctx { state = parse_state_expect_length; buffer = [] }))
      ≡ done (leave (with_ctx c (record ctx { state = parse_state_expect_length; buffer = [] })))
  unfolding iteration by_state expect_length
  expect_length-nil = refl

  pub expect_length-open :
      (b : Bytes)
      → crlf_at b ≡ none
      → iteration f net
          (with_ctx c (record ctx { state = parse_state_expect_length; buffer = b'$' ∷ b }))
        ≡ done (
            leave
              (with_ctx c (record ctx { state = parse_state_expect_length; buffer = b'$' ∷ b })))
  unfolding iteration by_state expect_length crlf_at
  expect_length-open b open_line =
      let nonempty : ltb 0 (length (b'$' ∷ b)) ≡ true = ground arith in
      let enough : ltb (length (b'$' ∷ b)) 1 ≡ false = ground arith in
      rw (nonempty, enough, open_line) refl

  pub expect_type-nil :
      iteration f net (with_ctx c (record ctx { state = parse_state_expect_type; buffer = [] }))
      ≡ done (leave (with_ctx c (record ctx { state = parse_state_expect_type; buffer = [] })))
  unfolding iteration by_state expect_type
  expect_type-nil = refl

  pub expect_type-open :
      (b : Bytes)
      → crlf_at b ≡ none
      → (u : Bytes) × (iteration f net
            (with_ctx c (record ctx { state = parse_state_expect_type; buffer = b'*' ∷ b }))
          ≡ done (
              leave (
                with_ctx c
                  (record ctx { state = parse_state_expect_type; buffer = b'*' ∷ b; unused = u }))))
  unfolding iteration by_state expect_type crlf_at
  expect_type-open b open_line =
      let enough : ltb (length (b'*' ∷ b)) 1 ≡ false = ground arith in
      (drop (length (b'*' ∷ b) - 0) (b'*' ∷ b) ++ ctx.unused, rw (enough, open_line) refl)
