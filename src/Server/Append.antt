-- ===== src/Server/Append.antt =====
-- `append_to_buffer` on a block whose size is noted.
use simple_c_database.Prelude.{
  ℕ, zero, suc, ◌+◌, ◌-◌, ◌%◌, ◌^◌, ◌≤◌, ◌<◌, ◌≡◌, ◌⊎◌, refl, arith, Bool, true, false, ◌++◌,
  length, length-append, length-drop, drop, inl, inr, Bool-cases, ltb, if◌then◌else◌, ap,
}
use simple_c_database.Server.Holds.{Bounded}
use simple_c_database.Server.Buffer.{copy_in, grown_capacity, grow, append_to, append_to_buffer}
use simple_c_database.Server.Data.{
  ClientContext, client_closing, Net, fresh_bytes, Conn, with_ctx, note,
}
use simple_c_database.Strings.{Bytes}
use simple_c_database.Table.Data.{done}

-- The context with the bytes behind the used ones.
abbrev pub appended : ClientContext → Bytes → Bytes → ℕ → ClientContext
appended ctx bytes unused capacity = record ctx {
  buffer = ctx.buffer ++ bytes;
  unused = unused;
  buffer_capacity = capacity;
}

pub length-fresh_bytes : (fresh : ℕ → ℕ) (n i : ℕ) → length (fresh_bytes fresh n i) ≡ n
length-fresh_bytes fresh zero i = refl
length-fresh_bytes fresh (suc n) i = ap suc (length-fresh_bytes fresh n (i + 1))

appended-Bounded :
    (ctx : ClientContext) (bytes : Bytes) (capacity : ℕ)
    → Bounded ctx
    → (unused : Bytes) → length bytes ≤ length unused
    → length ctx.buffer + length unused ≡ capacity
    → Bounded (appended ctx bytes (drop (length bytes) unused) capacity)
appended-Bounded ctx bytes capacity b unused room block = record {
  total = b.total;
  small = b.small;
  block = omega (arith, length-append ctx.buffer bytes, length-drop (length bytes) unused);
}

copy_in-appended :
    (ctx : ClientContext) (bytes : Bytes)
    → length bytes ≤ length ctx.unused
    → copy_in ctx bytes
      ≡ done (appended ctx bytes (drop (length bytes) ctx.unused) ctx.buffer_capacity)
copy_in-appended ctx bytes room =
    let fits : ltb (length ctx.unused) (length bytes) ≡ false = ground arith in rw fits refl

module _ (net : Net) (ctx : ClientContext) (bytes : Bytes) (b : Bounded ctx)
    (fits : length ctx.buffer + length bytes < 2 ^ 64) where
  append_to_lem :
      ((unused : Bytes) × (capacity : ℕ) × (append_to net ctx bytes
          ≡ done (false, appended ctx bytes unused capacity))
        × Bounded (appended ctx bytes unused capacity))
      ⊎ ((append_to net ctx bytes ≡ done (true, ctx))
          × (ctx.buffer_capacity < length ctx.buffer + length bytes)
          × (net.env.malloc (grown_capacity ctx (length ctx.buffer + length bytes)) ≡ false))
  unfolding append_to
  append_to_lem =
      let needed = length ctx.buffer + length bytes in
      let whole : needed % 2 ^ 64 ≡ needed = omega arith in
      let capacity = grown_capacity ctx needed in
      elim (Bool-cases (ltb ctx.buffer_capacity needed)) [
        | inr room ↦
            let enough : length bytes ≤ length ctx.unused = ground (arith, b.block) in
            inl (
              drop (length bytes) ctx.unused,
              ctx.buffer_capacity,
              rw (whole, room, copy_in-appended ctx bytes enough) refl,
              appended-Bounded ctx bytes ctx.buffer_capacity b ctx.unused enough b.block,
            )
        | inl full ↦ elim (Bool-cases (net.env.malloc capacity)) [
          | inr refused ↦ inr (rw (whole, full, refused) refl, ground arith, refused)
          | inl given ↦
              let larger : needed ≤ capacity = ground arith in
              let grown = grow net.fresh ctx capacity in
              let gap = capacity - (length ctx.buffer + length ctx.unused) in
              let size : length ctx.buffer + length grown.unused ≡ capacity = ground (
                arith,
                b.block,
                length-append ctx.unused (fresh_bytes net.fresh gap 0),
                length-fresh_bytes net.fresh gap 0,
              ) in
              let enough : length bytes ≤ length grown.unused = omega (arith, size, larger) in
              inl (
                drop (length bytes) grown.unused,
                capacity,
                rw (whole, full, given, copy_in-appended grown bytes enough) refl,
                appended-Bounded ctx bytes capacity b grown.unused enough size,
              )
        ]
      ]

module _ {Double : Type 0} (net : Net) (c : Conn Double) (bytes : Bytes) where
  append_to_buffer-run :
      (closed : Bool) (ctx : ClientContext)
      → append_to net c.ctx bytes ≡ done (closed, ctx)
      → append_to_buffer net c bytes
        ≡ done (if closed then note c client_closing else with_ctx c ctx)
  unfolding append_to_buffer
  append_to_buffer-run closed ctx run = rw (run, append_to) refl

  -- On a context whose block has the noted capacity, bytes that a `size_t` can count with the used ones
  -- are written behind these without an access out of bounds, into a block that has the noted capacity
  -- again; or the block was too small, the larger one was refused, and the connection is
  -- closed with its context unchanged.
  pub append_to_buffer_lem :
      Bounded c.ctx
      → length c.ctx.buffer + length bytes < 2 ^ 64
      → ((unused : Bytes) × (capacity : ℕ) × (append_to_buffer net c bytes
            ≡ done (with_ctx c (appended c.ctx bytes unused capacity)))
          × Bounded (appended c.ctx bytes unused capacity))
        ⊎ ((append_to_buffer net c bytes ≡ done (note c client_closing))
            × (c.ctx.buffer_capacity < length c.ctx.buffer + length bytes)
            × (net.env.malloc (grown_capacity c.ctx (length c.ctx.buffer + length bytes)) ≡ false))
  append_to_buffer_lem b fits = elim (append_to_lem net c.ctx bytes b fits) [
    | inl (unused, capacity, run, b') ↦ inl (unused, capacity, append_to_buffer-run false _ run, b')
    | inr (run, small, refused) ↦ inr (append_to_buffer-run true _ run, small, refused)
  ]
