-- ===== src/Server/Blank.antt =====
-- A line without a number, at the end of the block of the buffer.
use simple_c_database.Command.Build.{skip_spaces}
use simple_c_database.Command.Data.{Floats}
use simple_c_database.Prelude.{
  suc, ◌+◌, ◌-◌, ◌≡◌, refl, arith, false, some, [], ◌∷◌, ◌++◌, length, drop, drop_all, ltb,
}
use simple_c_database.Server.Buffer.{cr, lf, crlf_at, strtol}
use simple_c_database.Server.Data.{parse_state_expect_type, Net, Conn, with_ctx}
use simple_c_database.Server.Parse.{expect_type, by_state, iteration, parse_loop, parse_buffer}
use simple_c_database.Strings.{Bytes}
use simple_c_database.Table.Data.{fault}

strtol-blank : (s : Bytes) → skip_spaces s ≡ [] → strtol s ≡ fault
unfolding strtol
strtol-blank s h = rw h refl

skip_spaces-append :
    (s t : Bytes) → skip_spaces s ≡ [] → skip_spaces t ≡ [] → skip_spaces (s ++ t) ≡ []
skip_spaces-append [] t h g = g
skip_spaces-append (c ∷ s) t h g = ground (arith, skip_spaces-append s t)

module _ (f : Floats) (net : Net) (c : Conn f.Double) (rest : Bytes) where
  -- Where a connection that waits for a request has `*` and the end of a line in its buffer, and all other
  -- bytes of the block are white space, `strtol` reads past the end of the block.
  pub parse_buffer-blank :
      skip_spaces rest ≡ []
      → skip_spaces c.ctx.unused ≡ []
      → parse_buffer f net (
          with_ctx c
            (record c.ctx { state = parse_state_expect_type; buffer = b'*' ∷ cr ∷ lf ∷ rest }))
        ≡ some fault
  unfolding parse_buffer iteration by_state expect_type crlf_at
  parse_buffer-blank blank unused =
      let line : Bytes = b'*' ∷ cr ∷ lf ∷ rest in
      let after = drop (length line - 0) line ++ c.ctx.unused in
      let fuel : length line + 1 ≡ suc (length line) = omega arith in
      let enough : ltb (length line) 1 ≡ false = ground arith in
      let read : strtol (cr ∷ lf ∷ rest ++ after) ≡ fault = strtol-blank (cr ∷ lf ∷ rest ++ after) (
        skip_spaces-append rest after blank
          (rw (drop_all (length line - 0) line (omega arith)) unused)) in
      rw (fuel, parse_loop, enough, read) refl
