-- ===== src/Server/Progress.antt =====
-- A request that has come in part: what the parser holds of it, and the bytes that are to come.
use simple_c_database.Command.Data.{Floats}
use simple_c_database.Prelude.{
  ℕ, suc, ◌+◌, ◌≤◌, ◌≡◌, refl, true, some, List, ◌∷◌, ◌++◌, All, map, length,
}
use simple_c_database.Server.Append.{appended}
use simple_c_database.Server.Arrays.{array_for}
use simple_c_database.Server.Buffer.{cr, lf}
use simple_c_database.Server.Data.{
  parse_state_expect_type, parse_state_expect_length, parse_state_expect_data, ClientContext, Net,
}
use simple_c_database.Server.Request.{terminated, encode_args, encode, Short}
use simple_c_database.Server.Slots.{slots}
use simple_c_database.Strings.{Bytes}

module _ (f : Floats) (net : Net) (memory : (m : ℕ) → net.env.malloc m ≡ true) (name : Bytes)
    (rest : List Bytes) (all_short : All Short (name ∷ rest)) (few : length rest ≤ 1023) where
  -- The arguments before `a` are stored, and `a` and `args` are to come.
  pub record Progress (a : Bytes) (args : List Bytes) : Type 0 where
    pub ctx : ClientContext
    pub ss : List Bytes
    pub ls : List ℕ
    pub p : ℕ
    pub short : All Short (a ∷ args)
    pub here_s : p ≡ length ss
    pub here_l : p ≡ length ls
    pub total : suc (length rest) ≡ p + suc (length args)
    pub limit : ctx.args_total ≡ suc (length rest)
    pub argv :
        array_for net.env p ctx.args_total ctx.temp_argv ≡ some (slots ss (suc (length args)))
    pub lengths :
        array_for net.env p ctx.args_total ctx.temp_arg_lengths
        ≡ some (slots ls (suc (length args)))
    pub whole_s : ss ++ map terminated (a ∷ args) ≡ map terminated (name ∷ rest)
    pub whole_l : ls ++ map length (a ∷ args) ≡ map length (name ∷ rest)

  -- The same with another rest of the block.
  abbrev pub rebase :
      {a : Bytes} {args : List Bytes} → Progress a args → Bytes → ℕ → Progress a args
  rebase r u capacity = record {
    ctx = record r.ctx { unused = u; buffer_capacity = capacity };
    ss = r.ss;
    ls = r.ls;
    p = r.p;
    short = r.short;
    here_s = r.here_s;
    here_l = r.here_l;
    total = r.total;
    limit = r.limit;
    argv = r.argv;
    lengths = r.lengths;
    whole_s = r.whole_s;
    whole_l = r.whole_l;
  }

  -- What the parser waits for: a request, the line with the length of `a`, or the bytes of `a`.
  pub data Phase : Type 0 where
    in_type : ClientContext → Phase
    in_length : (a : Bytes) (args : List Bytes) → Progress a args → Phase
    in_data : (a : Bytes) (args : List Bytes) → Progress a args → Phase

  abbrev pub at_length : {a : Bytes} {args : List Bytes} → Progress a args → Bytes → ClientContext
  at_length r b = record r.ctx { state = parse_state_expect_length; buffer = b; args_parsed = r.p }

  abbrev pub at_data : {a : Bytes} {args : List Bytes} → Progress a args → Bytes → ClientContext
  at_data {a} r b = record r.ctx {
    state = parse_state_expect_data;
    buffer = b;
    data_to_read = length a;
    args_parsed = r.p;
  }

  abbrev pub at : Phase → Bytes → ClientContext
  at (in_type ctx) b = record ctx { state = parse_state_expect_type; buffer = b }
  at (in_length a args r) b = at_length r b
  at (in_data a args r) b = at_data r b

  -- The bytes that are to come, with those in the buffer.
  abbrev pub todo : Phase → Bytes
  todo (in_type ctx) = encode (name ∷ rest)
  todo (in_length a args r) = encode_args (a ∷ args)
  todo (in_data a args r) = a ++ cr ∷ lf ∷ encode_args args

  -- The phase with another rest of the block.
  abbrev pub rebased : Phase → Bytes → ℕ → Phase
  rebased (in_type ctx) u capacity = in_type (record ctx { unused = u; buffer_capacity = capacity })
  rebased (in_length a args r) u capacity = in_length a args (rebase r u capacity)
  rebased (in_data a args r) u capacity = in_data a args (rebase r u capacity)

  pub at-appended :
      (ph : Phase) (b x u : Bytes) (capacity : ℕ)
      → appended (at ph b) x u capacity ≡ at (rebased ph u capacity) (b ++ x)
  at-appended (in_type ctx) b x u capacity = refl
  at-appended (in_length a args r) b x u capacity = refl
  at-appended (in_data a args r) b x u capacity = refl

  pub todo-rebased :
      (ph : Phase) (u : Bytes) (capacity : ℕ) → todo (rebased ph u capacity) ≡ todo ph
  todo-rebased (in_type ctx) u capacity = refl
  todo-rebased (in_length a args r) u capacity = refl
  todo-rebased (in_data a args r) u capacity = refl

  pub at-buffer : (ph : Phase) (b : Bytes) → (at ph b).buffer ≡ b
  at-buffer (in_type ctx) b = refl
  at-buffer (in_length a args r) b = refl
  at-buffer (in_data a args r) b = refl
