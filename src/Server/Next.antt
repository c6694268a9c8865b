-- ===== src/Server/Next.antt =====
-- What an iteration that reads a line of a request leads to.
use simple_c_database.Command.Data.{Floats, ◌>>=◌}
use simple_c_database.Prelude.{
  ℕ, suc, ◌+◌, ◌-◌, ◌^◌, ◌≤◌, ◌<◌, ◌≡◌, arith, false, not, ◌&&◌, none, some, ◌++◌, ℤ, pos, negsuc,
  length, length-drop, drop, inl, inr, Bool-cases, Option-cases, ltb, ◌==◌,
}
use simple_c_database.Server.Buffer.{consume, crlf_at, leading_whitespace, strtol}
use simple_c_database.Server.Data.{Net, Conn, with_ctx, Step, again, leave}
use simple_c_database.Server.Arrays.{free_parser_resources, outside_range}
use simple_c_database.Server.Parse.{give_up, type_read, expect_type, length_read, expect_length}
use simple_c_database.Strings.{long_to_sizet, head_byte}
use simple_c_database.Table.Data.{Outcome, done}
use simple_c_database.Server.Holds.{
  Holds, Holds-any, Holds-bind, Bounded, consume-Bounded, crlf_at-lt, free_parser_resources-Bounded,
}

-- What an iteration leads to: bounds that hold again, and fewer bytes than `n` where the loop goes on.
module _ {Double : Type 0} where
  abbrev pub Next : ℕ → Step (Conn Double) → Type 0
  Next n (again c) = Bounded c.ctx × (length c.ctx.buffer < n)
  Next n (leave c) = Bounded c.ctx

module _ (f : Floats) (net : Net) (n : ℕ) where
  pub give_up-Next : (c : Conn f.Double) → Bounded c.ctx → Holds (Next n) (give_up f net c)
  give_up-Next c b =
      Holds-bind Bounded (Next n) (free_parser_resources c.ctx) _
        (free_parser_resources-Bounded c.ctx b) (λ ctx h. h)

  type_read-Next :
      (c : Conn f.Double) (crlf : ℕ) (n_args : ℤ)
      → Bounded c.ctx
      → suc crlf < length c.ctx.buffer
      → length c.ctx.buffer ≤ n
      → Holds (Next n) (type_read f net c crlf n_args)
  unfolding long_to_sizet
  type_read-Next c crlf (negsuc a) b lt le = b
  type_read-Next c crlf (pos a) b lt le = elim (Bool-cases (outside_range 1 1024 (pos a))) [
    | inl out ↦ rw out b
    | inr within ↦
        let fits : ltb (2 ^ 64 - 1) a ≡ false = ground arith in
        rw (within, fits)
          (
            consume-Bounded (crlf + 2) _
                (record { total = ground arith; small = b.small; block = b.block }),
            omega (arith, length-drop (crlf + 2) c.ctx.buffer),
          )
  ]

  length_read-Next :
      (c : Conn f.Double) (crlf : ℕ) (len : ℤ)
      → Bounded c.ctx
      → suc crlf < length c.ctx.buffer
      → length c.ctx.buffer ≤ n
      → Holds (Next n) (length_read f net c crlf len)
  unfolding long_to_sizet
  length_read-Next c crlf (negsuc a) b lt le = b
  length_read-Next c crlf (pos a) b lt le = elim (Bool-cases (outside_range 0 8192 (pos a))) [
    | inl out ↦ rw out b
    | inr within ↦
        let fits : ltb (2 ^ 64 - 1) a ≡ false = ground arith in
        rw (within, fits)
          (
            consume-Bounded (crlf + 2) _
                (record { total = b.total; small = ground arith; block = b.block }),
            omega (arith, length-drop (crlf + 2) c.ctx.buffer),
          )
  ]

  line-Next :
      (c : Conn f.Double) (k : ℕ → ℤ → Outcome (Step (Conn f.Double)))
      → Bounded c.ctx
      → ((crlf : ℕ) (a : ℤ) → suc crlf < length c.ctx.buffer → Holds (Next n) (k crlf a))
      → Holds (Next n) (elim (crlf_at c.ctx.buffer) [
        | none ↦ done (leave c)
        | some crlf ↦ do a ← strtol (drop 1 (c.ctx.buffer ++ c.ctx.unused)); k crlf a
      ])
  line-Next c k b h = elim (Option-cases (crlf_at c.ctx.buffer)) [
    | inl e ↦ rw e b
    | inr (crlf, e) ↦ rw e (
        Holds-bind (λ _. Unit) (Next n) (strtol (drop 1 (c.ctx.buffer ++ c.ctx.unused))) (k crlf)
          (Holds-any _) (λ a _. h crlf a (crlf_at-lt c.ctx.buffer crlf e)))
  ]

  pub expect_type-Next :
      (c : Conn f.Double)
      → Bounded c.ctx
      → length c.ctx.buffer ≤ n
      → Holds (Next n) (expect_type f net c)
  unfolding expect_type
  expect_type-Next c0 b0 le =
      let c = with_ctx c0 (consume (leading_whitespace c0.ctx.buffer) c0.ctx) in
      let b = consume-Bounded (leading_whitespace c0.ctx.buffer) c0.ctx b0 in
      let shorter : length c.ctx.buffer ≤ n =
        omega (arith, length-drop (leading_whitespace c0.ctx.buffer) c0.ctx.buffer) in
      elim (Bool-cases (ltb (length c.ctx.buffer) 1)) [
        | inl short ↦ rw short b
        | inr long ↦ elim (Bool-cases (head_byte c.ctx.buffer == b'*')) [
          | inr other ↦ rw (long, other) b
          | inl star ↦
              rw (long, star)
                (line-Next c (type_read f net c) b
                  (λ crlf a lt. type_read-Next c crlf a b lt shorter))
        ]
      ]

  pub expect_length-Next :
      (c : Conn f.Double)
      → Bounded c.ctx
      → length c.ctx.buffer ≤ n
      → Holds (Next n) (expect_length f net c)
  unfolding expect_length
  expect_length-Next c b le = elim (Bool-cases (ltb (length c.ctx.buffer) 1)) [
    | inl short ↦
        elim (Bool-cases (ltb 0 (length c.ctx.buffer) && not (head_byte c.ctx.buffer == b'$'))) [
          | inl other ↦ rw other b
          | inr dollar ↦ rw (dollar, short) b
        ]
    | inr long ↦
        elim (Bool-cases (ltb 0 (length c.ctx.buffer) && not (head_byte c.ctx.buffer == b'$'))) [
          | inl other ↦ rw other b
          | inr dollar ↦
              rw (dollar, long)
                (line-Next c (length_read f net c) b
                  (λ crlf a lt. length_read-Next c crlf a b lt le))
        ]
  ]
