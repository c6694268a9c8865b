-- ===== src/Server/Response.antt =====
-- The response of `parse_buffer` to the result of a command.
use simple_c_database.Command.Data.{Floats, ExecuteResult}
use simple_c_database.Prelude.{
  ℕ, zero, suc, ◌+◌, ◌-◌, ◌%◌, ◌^◌, ◌<◌, ◌≡◌, refl, ap, ◌∙◌, arith, true, false, Option, none, some,
  [], ◌∷◌, ◌++◌, length, length-append, length-take, length-set, take, take_all, set, ltb,
}
use simple_c_database.Server.Arrays.{realloc}
use simple_c_database.Server.Data.{overrun, written, Net, Conn, note, again, fresh_bytes}
use simple_c_database.Server.Parse.{respond_to}
use simple_c_database.Strings.{Bytes, sizet_to_uint}
use simple_c_database.Table.Data.{done}

length-fresh_bytes : (fresh : ℕ → ℕ) (n i : ℕ) → length (fresh_bytes fresh n i) ≡ n
length-fresh_bytes fresh zero i = refl
length-fresh_bytes fresh (suc n) i = ap suc (length-fresh_bytes fresh n (i + 1))

length-realloc :
    (fresh : ℕ → ℕ) (body : Option Bytes) (size : ℕ) → length (realloc fresh body size) ≡ size
length-realloc fresh none size = length-fresh_bytes fresh size 0
length-realloc fresh (some block) size = omega (
  arith,
  length-append (take size block) (fresh_bytes fresh (size - length block) (length block)),
  length-fresh_bytes fresh (size - length block) (length block),
  length-take size block,
)

-- `n` bytes of a body, from the offset `i` of it; where it has fewer, bytes of memory that nothing was
-- written to.
abbrev pub body_bytes : (ℕ → ℕ) → Bytes → ℕ → ℕ → Bytes
body_bytes fresh body zero i = []
body_bytes fresh [] (suc n) i = fresh i ∷ body_bytes fresh [] n (i + 1)
body_bytes fresh (b ∷ body) (suc n) i = b ∷ body_bytes fresh body n (i + 1)

-- What the client gets of a result: the bytes of its body, as many as its length says, and a carriage
-- return, which is 13.
abbrev pub response : (ℕ → ℕ) → Option Bytes → ℕ → Bytes
response fresh none n = body_bytes fresh [] n 0 ++ 13 ∷ []
response fresh (some body) n = body_bytes fresh body n 0 ++ 13 ∷ []

-- A byte in place of the last one of fresh memory.
set-fresh_bytes :
    (fresh : ℕ → ℕ) (n i byte : ℕ)
    → set (fresh_bytes fresh (suc n) i) n byte ≡ body_bytes fresh [] n i ++ byte ∷ []
set-fresh_bytes fresh zero i byte = refl
set-fresh_bytes fresh (suc n) i byte = ap (λ s. fresh i ∷ s) (set-fresh_bytes fresh n (i + 1) byte)

-- A byte in place of the last one of a block whose size was changed.
set-kept_bytes :
    (fresh : ℕ → ℕ) (block : Bytes) (n i j byte : ℕ)
    → j ≡ i + length block
    → set (take (suc n) block ++ fresh_bytes fresh (suc n - length block) j) n byte
      ≡ body_bytes fresh block n i ++ byte ∷ []
set-kept_bytes fresh [] n i j byte e =
    let from : j ≡ i = omega (arith, e) in
    let size : suc n - 0 ≡ suc n = omega arith in
    ap (λ m. set (fresh_bytes fresh m j) n byte) size
    ∙ ap (λ k. set (fresh_bytes fresh (suc n) k) n byte) from
    ∙ set-fresh_bytes fresh n i byte
set-kept_bytes fresh (b ∷ block) zero i j byte e =
    let no_more : 1 - suc (length block) ≡ 0 = omega arith in rw no_more refl
set-kept_bytes fresh (b ∷ block) (suc n) i j byte e =
    let less : suc (suc n) - suc (length block) ≡ suc n - length block = omega arith in
    rw less (ap (λ s. b ∷ s) (set-kept_bytes fresh block n (i + 1) j byte (omega (arith, e))))

-- The carriage return in the last byte of the block.
set-realloc :
    (fresh : ℕ → ℕ) (body : Option Bytes) (n : ℕ)
    → set (realloc fresh body (n + 1)) n 13 ≡ response fresh body n
set-realloc fresh none n =
    let size : n + 1 ≡ suc n = omega arith in rw size (set-fresh_bytes fresh n 0 13)
set-realloc fresh (some body) n =
    let size : n + 1 ≡ suc n = omega arith in
    rw size (set-kept_bytes fresh body n 0 (length body) 13 (omega arith))

-- The connection after a response: a line feed, which is 10, was written to the byte past the block.
abbrev pub answered : {Double : Type 0} → Net → Conn Double → ExecuteResult → Conn Double
answered net c r =
    note (note c (overrun (r.body_length + 1) 10))
      (written (response net.fresh r.body r.body_length))

module _ (f : Floats) (net : Net) (memory : (m : ℕ) → net.env.malloc m ≡ true) where
  -- A body whose length and one more an `unsigned int` can count is answered.
  pub respond_to-answered :
      (c : Conn f.Double) (r : ExecuteResult)
      → r.body_length + 1 < 2 ^ 32
      → respond_to f net c r ≡ done (again (answered net c r))
  unfolding respond_to sizet_to_uint
  respond_to-answered c r fits =
      let n = r.body_length in
      let block = realloc net.fresh r.body (n + 1) in
      let size : (n + 1) % 2 ^ 64 ≡ n + 1 = omega arith in
      let int : ltb (2 ^ 32 - 1) (n + 1) ≡ false = ground arith in
      let count = length-realloc net.fresh r.body (n + 1) in
      let inside : ltb n (length block) ≡ true = ground (arith, count) in
      let past : ltb (n + 1) (length (set block n 13)) ≡ false =
        ground (arith, count, length-set block n 13) in
      let whole : take (n + 1) (set block n 13) ≡ set block n 13 =
        take_all (n + 1) (set block n 13) (omega (arith, count, length-set block n 13)) in
      rw
        (
          size,
          memory (n + 1),
          memory net.sizeof_write_req,
          int,
          inside,
          past,
          whole,
          set-realloc net.fresh r.body n,
        )
        refl
