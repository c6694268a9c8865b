-- ===== src/Server/Request.antt =====
-- A request as bytes, and the iteration that reads an argument.
use simple_c_database.Command.Data.{Floats}
use simple_c_database.Prelude.{
  ℕ, suc, ◌+◌, ◌-◌, ◌%◌, ◌^◌, ◌≤◌, ◌≡◌, refl, arith, true, false, some, List, [], ◌∷◌, ◌++◌, length,
  length-append, take-append, drop, ltb, ◌==◌, ◌&&◌, if◌then◌else◌,
}
use simple_c_database.Server.Buffer.{cr, lf}
use simple_c_database.Server.Data.{
  parse_state_expect_length, parse_state_expect_data, ClientContext, Net, Conn, with_ctx, again,
}
use simple_c_database.Server.Digits.{number_line}
use simple_c_database.Server.Arrays.{array_for}
use simple_c_database.Server.Parse.{
  store_argument, iteration, by_state, expect_data, read_argument, run_request,
}
use simple_c_database.Server.Slots.{slots, store-slots}
use simple_c_database.Strings.{Bytes}
use simple_c_database.Table.Data.{done}

-- A string with its NUL.
abbrev pub terminated : Bytes → Bytes
terminated a = a ++ 0 ∷ []

-- The arguments and the whole of a request, as a client sends them.
abbrev pub encode_args : List Bytes → Bytes
encode_args [] = []
encode_args (a ∷ args) = b'$' ∷ number_line (length a) (a ++ cr ∷ lf ∷ encode_args args)

abbrev pub encode : List Bytes → Bytes
encode args = b'*' ∷ number_line (length args) (encode_args args)

-- A string that the parser accepts.
abbrev pub Short : Bytes → Type 0
Short a = length a ≤ 8192

-- What follows an argument and the end of its line.
drop-line : (a rest : Bytes) → drop (length a + 2) (a ++ cr ∷ lf ∷ rest) ≡ rest
drop-line [] rest = refl
drop-line (c ∷ a) rest =
    let one_on : suc (length a) + 2 ≡ suc (length a + 2) = omega arith in
    rw one_on (drop-line a rest)

module _ (f : Floats) (net : Net) (memory : (m : ℕ) → net.env.malloc m ≡ true) where
  -- An argument whose bytes are all there is stored.
  store_argument-slots :
      (ctx : ClientContext) (a rest : Bytes) (ss : List Bytes) (ls : List ℕ) (p k : ℕ)
      → length a ≤ 8192
      → p ≤ 1024
      → p ≡ length ss
      → p ≡ length ls
      → (u : Bytes) × (store_argument f net (record ctx {
        state = parse_state_expect_data;
        buffer = a ++ cr ∷ lf ∷ rest;
        data_to_read = length a;
        args_parsed = p;
        temp_argv = some (slots ss (suc k));
        temp_arg_lengths = some (slots ls (suc k));
      })
          ≡ done (record ctx {
            state = parse_state_expect_data;
            buffer = rest;
            unused = u;
            data_to_read = length a;
            args_parsed = p + 1;
            temp_argv = some (slots (ss ++ terminated a ∷ []) k);
            temp_arg_lengths = some (slots (ls ++ length a ∷ []) k);
          }))
  store_argument-slots ctx a rest ss ls p k small few here_s here_l =
      let block : Bytes = a ++ cr ∷ lf ∷ rest in
      let whole : ltb (length block + length ctx.unused) (length a) ≡ false =
        ground (arith, length-append a (cr ∷ lf ∷ rest)) in
      let size : (length a + 2) % 2 ^ 64 ≡ length a + 2 = omega arith in
      let next : (p + 1) % 2 ^ 64 ≡ p + 1 = omega arith in
      let after : drop (length a + 2) block ≡ rest = drop-line a rest in
      (
        drop (length block - (length a + 2)) block ++ ctx.unused,
        rw
            (
              take-append (length a) a (cr ∷ lf ∷ rest) refl,
              store-slots ss k p (terminated a) here_s,
              store-slots ls k p (length a) here_l,
              whole,
              size,
              next,
              after,
            )
            refl,
      )

  module _ (c : Conn f.Double) (ctx : ClientContext) (a rest : Bytes) (ss : List Bytes)
      (ls : List ℕ) (p k : ℕ) (small : length a ≤ 8192) (few : p ≤ 1024) (here_s : p ≡ length ss)
      (here_l : p ≡ length ls)
      (argv : array_for net.env p ctx.args_total ctx.temp_argv ≡ some (slots ss (suc k)))
      (lengths : array_for net.env p ctx.args_total ctx.temp_arg_lengths
        ≡ some (slots ls (suc k))) where
    -- The context before and after an argument is stored.
    abbrev pub before : ClientContext
    before = record ctx {
      state = parse_state_expect_data;
      buffer = a ++ cr ∷ lf ∷ rest;
      data_to_read = length a;
      args_parsed = p;
    }

    abbrev pub after : Bytes → ClientContext
    after u = record ctx {
      state = parse_state_expect_data;
      buffer = rest;
      unused = u;
      data_to_read = length a;
      args_parsed = p + 1;
      temp_argv = some (slots (ss ++ terminated a ∷ []) k);
      temp_arg_lengths = some (slots (ls ++ length a ∷ []) k);
    }

    -- The argument is read; the last one runs the command.
    pub expect_data-argument :
        (u : Bytes) × (iteration f net (with_ctx c before) ≡ (
          if p + 1 == ctx.args_total
          then run_request f net
              (with_ctx c (after u))
              (slots (ss ++ terminated a ∷ []) k)
              (slots (ls ++ length a ∷ []) k)
          else done (again (with_ctx c (record (after u) { state = parse_state_expect_length })))))
    unfolding iteration by_state expect_data read_argument
    expect_data-argument =
        let (u, stored) = store_argument-slots ctx a rest ss ls p k small few here_s here_l in
        let enough : ltb (length (a ++ cr ∷ lf ∷ rest)) ((length a + 2) % 2 ^ 64) ≡ false =
          ground (arith, length-append a (cr ∷ lf ∷ rest)) in
        let prepared : ((p == 0) && false) ≡ false = ground arith in
        (u, rw (enough, argv, lengths, prepared, memory ((length a + 1) % 2 ^ 64), stored) refl)
