-- ===== src/Server/Feed.antt =====
-- The iterations of the loop of `parse_buffer` on a part of a request.
use simple_c_database.Command.Data.{Floats}
use simple_c_database.Prelude.{
  ℕ, suc, ◌+◌, ◌%◌, ◌^◌, ◌≤◌, ◌<◌, ◌≡◌, ◌⊎◌, inl, inr, refl, sym, ◌∙◌, arith, true, false, List, [],
  ◌∷◌, ◌++◌, All, map, length, length-append, ltb, ◌==◌,
}
use simple_c_database.Server.Buffer.{cr, lf}
use simple_c_database.Server.Data.{ClientContext, Net, Conn, with_ctx, leave, again}
use simple_c_database.Server.LastRead.{LastRead, LastRead-step, array_for-later, last_length-append}
use simple_c_database.Server.Lines.{
  expect_length-line, expect_type-line, expect_length-nil, expect_length-open, expect_type-nil,
  expect_type-open,
}
use simple_c_database.Server.Parse.{iteration, by_state, expect_data}
use simple_c_database.Server.Request.{
  terminated, encode_args, encode, Short, after, expect_data-argument,
}
use simple_c_database.Server.Run.{Reaches, here, step}
use simple_c_database.Server.Slots.{append-one, new_array-slots}
use simple_c_database.Server.Split.{split-number_line, split-data, nil-append}
use simple_c_database.Strings.{Bytes}
use simple_c_database.Table.Data.{done}
use simple_c_database.Server.Progress.{
  Progress, Phase, in_type, in_length, in_data, at_length, at_data, at, todo, rebase,
}

module _ (f : Floats) (net : Net) (memory : (m : ℕ) → net.env.malloc m ≡ true) (name : Bytes)
    (rest : List Bytes) (all_short : All Short (name ∷ rest)) (few : length rest ≤ 1023) where
  -- The arguments before `a` are stored, and `a` and `args` are to come.
  abbrev P : Type 0
  P = Phase f net memory name rest all_short few

  abbrev Held : Bytes → List Bytes → Type 0
  Held = Progress f net memory name rest all_short few

  abbrev length_at : {a : Bytes} {args : List Bytes} → Held a args → Bytes → ClientContext
  length_at = at_length f net memory name rest all_short few

  abbrev data_at : {a : Bytes} {args : List Bytes} → Held a args → Bytes → ClientContext
  data_at = at_data f net memory name rest all_short few

  abbrev ctx_at : P → Bytes → ClientContext
  ctx_at = at f net memory name rest all_short few

  abbrev todo_at : P → Bytes
  todo_at = todo f net memory name rest all_short few

  module _ (c : Conn f.Double) where
    -- From a connection whose buffer and `ys` are what is to come, the loop leaves with some of that still
    -- in the buffer, where there is more in `ys`; or it reads the last argument, where there is no more.
    abbrev pub Fed : Conn f.Double → Bytes → Type 0
    Fed start ys =
        ((ph : P) × (b : Bytes) × (d : Conn f.Double) × Reaches f net start d
          × (iteration f net d ≡ done (leave (with_ctx c (ctx_at ph b))))
          × (todo_at ph ≡ b ++ ys)
          × (1 ≤ length ys)
          × (length b ≤ length d.ctx.buffer))
        ⊎ ((ys ≡ [])
            × LastRead f net memory c start (suc (length rest)) (map terminated (name ∷ rest))
                (map length (name ∷ rest)))

    Fed-step :
        {start next : Conn f.Double} {ys : Bytes}
        → iteration f net start ≡ done (again next)
        → Fed next ys
        → Fed start ys
    Fed-step run (inl (ph, b, d, r, out, e, more, le)) =
        inl (ph, b, d, step run r, out, e, more, le)
    Fed-step run (inr (e, l)) = inr (e, LastRead-step f net memory (step run here) l)

    -- Not all of an argument is there.
    data_short :
        (a : Bytes) (args : List Bytes) (r : Held a args) (b ys : Bytes)
        → length b < length a + 2
        → a ++ cr ∷ lf ∷ encode_args args ≡ b ++ ys
        → 1 ≤ length ys
        → Fed (with_ctx c (data_at r b)) ys
    unfolding iteration by_state expect_data
    data_short a args r b ys lt e more =
        let short : ltb (length b) ((length a + 2) % 2 ^ 64) ≡ true = ground (arith, r.short.0) in
        inl
          (in_data a args r, b, with_ctx c (data_at r b), here, rw short refl, e, more, omega arith)

    data_last :
        (a : Bytes) (r : Held a []) (b ys : Bytes)
        → a ++ cr ∷ lf ∷ [] ≡ b ++ ys
        → Fed (with_ctx c (data_at r b)) ys
    data_last a r b ys e = elim (split-data a [] b ys e) [
      | inr (lt, more) ↦ data_short a [] r b ys lt e more
      | inl (b', whole, after_it) ↦
          let (no_bytes, no_more) = nil-append b' ys after_it in
          let few_p : r.p ≤ 1024 = omega (arith, r.total) in
          let (u, read) =
            expect_data-argument f net memory c r.ctx a [] r.ss r.ls r.p 0 r.short.0 few_p r.here_s
              r.here_l r.argv r.lengths in
          let final' : ClientContext =
            after f net memory c r.ctx a [] r.ss r.ls r.p 0 r.short.0 few_p r.here_s r.here_l r.argv
              r.lengths u in
          let is_last : (r.p + 1 == r.ctx.args_total) ≡ true = ground (arith, r.total, r.limit) in
          inr (
            no_more,
            rw (whole, no_bytes, ← r.whole_s, ← r.whole_l)
                (record {
                  last = data_at r (a ++ cr ∷ lf ∷ []);
                  reaches = here;
                  final = final';
                  run = read ∙ rw is_last refl;
                  emptied = refl;
                  state = refl;
                  total = r.limit;
                  parsed = omega (arith, r.total);
                  small = r.short.0;
                  last_read = sym (last_length-append r.ls (length a));
                  argv = refl;
                }),
          )
    ]

    data_more :
        (x : Bytes) (args : List Bytes) (a : Bytes) (r : Held a (x ∷ args)) (b ys : Bytes)
        → ((r' : Held x args) (b' : Bytes)
            → encode_args (x ∷ args) ≡ b' ++ ys
            → Fed (with_ctx c (length_at r' b')) ys)
        → a ++ cr ∷ lf ∷ encode_args (x ∷ args) ≡ b ++ ys
        → Fed (with_ctx c (data_at r b)) ys
    data_more x args a r b ys go e = elim (split-data a (encode_args (x ∷ args)) b ys e) [
      | inr (lt, more) ↦ data_short a (x ∷ args) r b ys lt e more
      | inl (b', whole, after_it) ↦
          let k = suc (length args) in
          let few_p : r.p ≤ 1024 = omega (arith, r.total) in
          let (u, read) =
            expect_data-argument f net memory c r.ctx a b' r.ss r.ls r.p k r.short.0 few_p r.here_s
              r.here_l r.argv r.lengths in
          let read_on : ClientContext =
            after f net memory c r.ctx a b' r.ss r.ls r.p k r.short.0 few_p r.here_s r.here_l r.argv
              r.lengths u in
          let goes_on : (r.p + 1 == r.ctx.args_total) ≡ false = ground (arith, r.total, r.limit) in
          let r' : Held x args = record {
            ctx = read_on;
            ss = r.ss ++ terminated a ∷ [];
            ls = r.ls ++ length a ∷ [];
            p = r.p + 1;
            short = r.short.1;
            here_s = omega (arith, r.here_s, length-append r.ss (terminated a ∷ []));
            here_l = omega (arith, r.here_l, length-append r.ls (length a ∷ []));
            total = omega (arith, r.total);
            limit = r.limit;
            argv = array_for-later f net memory r.p r.ctx.args_total _;
            lengths = array_for-later f net memory r.p r.ctx.args_total _;
            whole_s = append-one r.ss (map terminated (x ∷ args)) (terminated a) ∙ r.whole_s;
            whole_l = append-one r.ls (map length (x ∷ args)) (length a) ∙ r.whole_l;
          } in
          rw whole (Fed-step (read ∙ rw goes_on refl) (go r' b' after_it))
    ]

    -- The line with the length of an argument, or a part of it.
    length_line :
        (a : Bytes) (args : List Bytes) (r : Held a args) (b ys : Bytes)
        → ((r' : Held a args) (b' : Bytes)
            → a ++ cr ∷ lf ∷ encode_args args ≡ b' ++ ys
            → Fed (with_ctx c (data_at r' b')) ys)
        → encode_args (a ∷ args) ≡ b ++ ys
        → Fed (with_ctx c (length_at r b)) ys
    length_line a args r [] ys go e = inl (
      in_length a args r,
      [],
      with_ctx c (length_at r []),
      here,
      expect_length-nil f net c (record r.ctx { args_parsed = r.p }),
      e,
      rw (← e) (omega arith),
      omega arith,
    )
    length_line a args r (x ∷ b) ys go e =
        let first : x ≡ b'$' = cc in
        elim (split-number_line (length a) (a ++ cr ∷ lf ∷ encode_args args) b ys (cc)) [
          | inr (open_line, more) ↦
              let waits =
                expect_length-open f net c (record r.ctx { args_parsed = r.p }) b open_line in
              inl (
                in_length a args r,
                x ∷ b,
                with_ctx c (length_at r (x ∷ b)),
                here,
                rw first waits,
                e,
                more,
                omega arith,
              )
          | inl (b', whole, after_it) ↦
              let (u, line) =
                expect_length-line f net c (record r.ctx { args_parsed = r.p }) b' (length a)
                  r.short.0 in
              rw (first, whole)
                (Fed-step line (
                  go (rebase f net memory name rest all_short few r u r.ctx.buffer_capacity) b'
                    after_it))
        ]

    from_length :
        (args : List Bytes) (a : Bytes) (r : Held a args) (b ys : Bytes)
        → encode_args (a ∷ args) ≡ b ++ ys
        → Fed (with_ctx c (length_at r b)) ys
    from_length [] a r b ys e = length_line a [] r b ys (λ r' b' e'. data_last a r' b' ys e') e
    from_length (x ∷ args) a r b ys e =
        length_line a (x ∷ args) r b ys
          (λ r' b' e'.
            data_more x args a r' b' ys (λ r'' b'' e''. from_length args x r'' b'' ys e'') e')
          e

    from_type :
        (ctx : ClientContext) (b ys : Bytes)
        → encode (name ∷ rest) ≡ b ++ ys
        → Fed (with_ctx c (ctx_at (in_type ctx) b)) ys
    from_type ctx [] ys e = inl (
      in_type ctx,
      [],
      with_ctx c (ctx_at (in_type ctx) []),
      here,
      expect_type-nil f net c ctx,
      e,
      rw (← e) (omega arith),
      omega arith,
    )
    from_type ctx (x ∷ b) ys e =
        let first : x ≡ b'*' = cc in
        elim (split-number_line (suc (length rest)) (encode_args (name ∷ rest)) b ys (cc)) [
          | inr (open_line, more) ↦
              let (u, waits) = expect_type-open f net c ctx b open_line in
              inl (
                in_type (record ctx { unused = u }),
                x ∷ b,
                with_ctx c (ctx_at (in_type ctx) (x ∷ b)),
                here,
                rw first waits,
                e,
                more,
                omega arith,
              )
          | inl (b', whole, after_it) ↦
              let n = suc (length rest) in
              let (u, line) = expect_type-line f net c ctx b' n (omega arith) (omega arith) in
              let r : Held name rest = record {
                ctx = record ctx { unused = u; args_total = n };
                ss = [];
                ls = [];
                p = 0;
                short = all_short;
                here_s = refl;
                here_l = refl;
                total = omega arith;
                limit = refl;
                argv = new_array-slots net.env n memory (omega arith);
                lengths = new_array-slots net.env n memory (omega arith);
                whole_s = refl;
                whole_l = refl;
              } in
              rw (first, whole) (Fed-step line (from_length rest name r b' ys after_it))
        ]

    -- The loop on a part of what is to come.
    pub feed : (ph : P) (b ys : Bytes) → todo_at ph ≡ b ++ ys → Fed (with_ctx c (ctx_at ph b)) ys
    feed (in_type ctx) b ys e = from_type ctx b ys e
    feed (in_length a args r) b ys e = from_length args a r b ys e
    feed (in_data a [] r) b ys e = data_last a r b ys e
    feed (in_data a (x ∷ args) r) b ys e =
        data_more x args a r b ys (λ r' b' e'. from_length args x r' b' ys e') e
