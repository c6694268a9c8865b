-- ===== src/Server/Second.antt =====
-- A second request on a connection.
use simple_c_database.Command.Data.{Floats, Entry, ServerContext, ExecuteResult}
use simple_c_database.Command.Execute.{execute_command}
use simple_c_database.Prelude.{
  ℕ, ◌+◌, ◌^◌, ◌≤◌, ◌<◌, ◌≡◌, inl, inr, refl, sym, ap, ◌∙◌, arith, true, false, some, List, [], ◌∷◌,
  ◌++◌, All, map, pos, length,
}
use simple_c_database.Server.Again.{parse_buffer-again}
use simple_c_database.Server.Answer.{Finished}
use simple_c_database.Server.Append.{appended, append_to_buffer_lem}
use simple_c_database.Server.Chunks.{read_all-request}
use simple_c_database.Server.Data.{
  ClientContext, new_context, NetEvent, timer_started, Net, Conn, with_ctx, note,
}
use simple_c_database.Server.Handlers.{on_read}
use simple_c_database.Server.Holds.{Bounded}
use simple_c_database.Server.LastRead.{last_length}
use simple_c_database.Server.Read.{on_read-fault}
use simple_c_database.Server.Reads.{
  joined, Nonempty, read_all, read_all-append, read_all-fault, conn,
}
use simple_c_database.Server.Request.{terminated, encode, Short}
use simple_c_database.Strings.{Bytes}
use simple_c_database.Table.Data.{fault, done, Reply}

module _ (f : Floats) (net : Net) (memory : (m : ℕ) → net.env.malloc m ≡ true) where
  appended-Finished :
      (ctx : ClientContext) (args : List Bytes) (y u : Bytes) (capacity : ℕ)
      → Finished ctx args
      → Finished (appended ctx y u capacity) args
  appended-Finished ctx args y u capacity finished = record {
    state = finished.state;
    total = finished.total;
    parsed = finished.parsed;
    small = finished.small;
    last = finished.last;
    argv = finished.argv;
  }

  -- A read after a request that was answered.
  on_read-again :
      (c : Conn f.Double) (args : List Bytes) (y : Bytes)
      → Finished c.ctx args
      → Bounded c.ctx
      → c.ctx.buffer ≡ []
      → 1 ≤ length args
      → last_length (map length args) + 2 ≤ length y
      → length y < 2 ^ 63
      → on_read f net c (pos (length y)) (some y) ≡ some fault
  on_read-again c args [] finished bounded emptied some_args enough small = absurd (omega arith)
  on_read-again c args (h ∷ t) finished bounded emptied some_args enough small =
      let y = h ∷ t in
      elim (append_to_buffer_lem net (note c timer_started) y bounded
        (omega (arith, ap length emptied))) [
          | inr (_, _, refused) ↦
              let clash : true ≡ false = sym (memory _) ∙ refused in absurd (ground arith)
          | inl (u, capacity, copied, _) ↦
              let held : c.ctx.buffer ++ y ≡ y = ap (λ s. s ++ y) emptied in
              on_read-fault f net c _ (length t) y refl copied (
                parse_buffer-again f net
                  (with_ctx (note c timer_started) (appended c.ctx y u capacity)) args
                  (appended-Finished c.ctx args y u capacity finished) some_args
                  (omega (arith, finished.last, ap length held)))
        ]

  module _ (name : Bytes) (rest : List Bytes) (all_short : All Short (name ∷ rest))
      (few : length rest ≤ 1023) (s : ServerContext f.Double) (reply : Reply Entry ExecuteResult)
      (run : execute_command f net.env s
          (some (terminated name))
          (pos (length rest))
          (map terminated rest)
          (map length rest)
        ≡ done reply)
      (fits : reply.result.body_length + 1 < 2 ^ 32) where
    -- Where memory is given and a request of at most 1024 strings of at most 8192 bytes comes to a new
    -- connection in any reads, none of them empty, and its command returns a body of at most 2^32 - 2
    -- bytes, so that it is answered: one more read of at least two bytes more than the last string has
    -- accesses memory out of bounds, whatever its bytes are.
    pub read_all-again :
        (x : Bytes) (xs : List Bytes) (es : List NetEvent) (y : Bytes)
        → joined (x ∷ xs) ≡ encode (name ∷ rest)
        → All Nonempty (x ∷ xs)
        → length (encode (name ∷ rest)) < 2 ^ 63
        → last_length (map length (name ∷ rest)) + 2 ≤ length y
        → length y < 2 ^ 63
        → read_all f net (conn s new_context es) ((x ∷ xs) ++ y ∷ []) ≡ some fault
    read_all-again x xs es y whole cuts small enough small_y =
        let (end, runs, emptied, finished, bounded) =
          read_all-request f net memory name rest all_short few s reply run fits x xs es whole cuts
            small in
        read_all-append f net _ _ (x ∷ xs) (y ∷ []) runs
        ∙ read_all-fault f net _ y
            (on_read-again _ (name ∷ rest) y finished bounded emptied (omega arith) enough small_y)
