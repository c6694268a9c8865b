-- ===== src/Server/Buffer.antt =====
-- The buffer of a connection: `append_to_buffer`, the moves of `parse_buffer`, and `strtol`.
use simple_c_database.Command.Data.{◌>>=◌}
use simple_c_database.Command.Build.{digits_value, after_digits, skip_spaces}
use simple_c_database.Prelude.{
  ℕ, suc, ◌+◌, ◌-◌, ◌*◌, ◌%◌, ◌^◌, Bool, true, false, not, ◌||◌, Option, none, some, [], ◌∷◌, ◌++◌,
  ℤ, pos, neg, length, drop, ltb, leb, ◌==◌, if◌then◌else◌,
}
use simple_c_database.Server.Data.{
  ClientContext, client_closing, Net, fresh_bytes, Conn, with_ctx, note,
}
use simple_c_database.Strings.{Bytes, head_byte, tail_bytes}
use simple_c_database.Table.Data.{Outcome, fault, done}

-- The carriage return and the line feed.
abbrev pub cr : ℕ
cr = 13

abbrev pub lf : ℕ
lf = 10

-- `memcpy` behind the used bytes.
abbrev pub copy_in : ClientContext → Bytes → Outcome ClientContext
copy_in ctx data' =
    if ltb (length ctx.unused) (length data')
    then fault
    else done (record ctx { buffer = ctx.buffer ++ data'; unused = drop (length data') ctx.unused })

abbrev pub grown_capacity : ClientContext → ℕ → ℕ
grown_capacity ctx needed =
    let new_capacity =
      if ctx.buffer_capacity == 0 then 1024 else (ctx.buffer_capacity * 2) % 2 ^ 64 in
    if ltb new_capacity needed then needed else new_capacity

-- `realloc` to a capacity that is not smaller.
abbrev pub grow : (ℕ → ℕ) → ClientContext → ℕ → ClientContext
grow fresh ctx capacity = record ctx {
  unused = ctx.unused ++ fresh_bytes fresh (capacity - (length ctx.buffer + length ctx.unused)) 0;
  buffer_capacity = capacity;
}

-- A context after a call, and whether the call closed the connection.
unfoldable pub append_to : Net → ClientContext → Bytes → Outcome (Bool × ClientContext)
append_to net ctx data' =
    let needed = (length ctx.buffer + length data') % 2 ^ 64 in
    let capacity = grown_capacity ctx needed in
    if not (ltb ctx.buffer_capacity needed)
    then (do copied ← copy_in ctx data'; done (false, copied))
    else if not (net.env.malloc capacity)
    then done (true, ctx)
    else (do copied ← copy_in (grow net.fresh ctx capacity) data'; done (false, copied))

module _ {Double : Type 0} where
  unfoldable pub append_to_buffer : Net → Conn Double → Bytes → Outcome (Conn Double)
  unfolding append_to
  append_to_buffer net c data' = do
    (closed, ctx) ← append_to net c.ctx data'
    done (if closed then note c client_closing else with_ctx c ctx)

-- `memmove` of the bytes after the first `n`, and `buffer_used -= n`. The bytes at the end keep what
-- they had.
abbrev pub consume : ℕ → ClientContext → ClientContext
consume n ctx = record ctx {
  buffer = drop n ctx.buffer;
  unused = drop (length ctx.buffer - n) ctx.buffer ++ ctx.unused;
}

abbrev pub leading_whitespace : Bytes → ℕ
leading_whitespace [] = 0
leading_whitespace (c ∷ s) = if c == cr || c == lf then suc (leading_whitespace s) else 0

abbrev pub next_position : Option ℕ → Option ℕ
next_position none = none
next_position (some i) = some (suc i)

-- The position of the first carriage return, where a line feed follows it.
unfoldable pub crlf_at : Bytes → Option ℕ
crlf_at [] = none
crlf_at (c ∷ s) =
    if c == cr then (if head_byte s == lf then some 0 else none) else next_position (crlf_at s)

abbrev pub is_empty : Bytes → Bool
is_empty [] = true
is_empty (c ∷ s) = false

-- A magnitude with its sign, between `LONG_MIN` and `LONG_MAX`.
abbrev pub to_long : Bool → ℕ → ℤ
to_long negative magnitude =
    if negative
    then (if leb (2 ^ 63) magnitude then neg (2 ^ 63) else neg magnitude)
    else (if leb (2 ^ 63) magnitude then pos (2 ^ 63 - 1) else pos magnitude)

-- `strtol` in base 10 on the bytes of a block. It reads up to the first byte that is not of the number;
-- where the block ends before, it reads out of bounds.
unfoldable pub strtol : Bytes → Outcome ℤ
strtol str =
    let s = skip_spaces str in
    let signed = head_byte s == b'-' || head_byte s == b'+' in
    let t = if signed then tail_bytes s else s in
    if is_empty (after_digits t)
    then fault
    else done (to_long (head_byte s == b'-') (digits_value 0 t))
