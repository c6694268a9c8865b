-- ===== src/Server/Chunks.antt =====
-- A request that comes in several reads.
use simple_c_database.Command.Data.{Floats, Entry, ServerContext, ExecuteResult}
use mathlib.Core.List.{append_assoc}
use simple_c_database.Command.Execute.{execute_command}
use simple_c_database.Prelude.{
  ℕ, ◌+◌, ◌^◌, ◌≤◌, ◌<◌, ◌≡◌, ◌⊎◌, inl, inr, refl, sym, ap, ◌∙◌, subst, arith, true, false, some,
  List, [], ◌∷◌, ◌++◌, All, map, pos, length, length-append, length-map,
}
use simple_c_database.Server.Answer.{Finished, LastRead-answered}
use simple_c_database.Server.Append.{append_to_buffer_lem}
use simple_c_database.Server.Data.{
  ClientContext, new_context, NetEvent, timer_started, read_freed, Net, with_ctx, note,
}
use simple_c_database.Server.Handlers.{on_read}
use simple_c_database.Server.Holds.{Bounded}
use simple_c_database.Server.Parse.{parse_buffer}
use simple_c_database.Server.Feed.{feed}
use simple_c_database.Server.Progress.{
  Phase, in_type, at, todo, rebased, at-appended, at-buffer, todo-rebased,
}
use simple_c_database.Server.Read.{new_context-Bounded, on_read-parsed}
use simple_c_database.Server.Request.{terminated, encode, Short}
use simple_c_database.Server.Run.{parse_buffer-leaves, Reaches-Bounded, leave-Bounded}
use simple_c_database.Strings.{Bytes}
use simple_c_database.Table.Data.{done, Reply}
use simple_c_database.Server.Reads.{
  joined, Nonempty, read_all, read_all-step, read_all-last, quiet, conn, ended,
}

module _ (f : Floats) (net : Net) (memory : (m : ℕ) → net.env.malloc m ≡ true) (name : Bytes)
    (rest : List Bytes) (all_short : All Short (name ∷ rest)) (few : length rest ≤ 1023)
    (s : ServerContext f.Double) (reply : Reply Entry ExecuteResult)
    (run : execute_command f net.env s
        (some (terminated name))
        (pos (length rest))
        (map terminated rest)
        (map length rest)
      ≡ done reply)
    (fits : reply.result.body_length + 1 < 2 ^ 32) where
  abbrev P : Type 0
  P = Phase f net memory name rest all_short few

  abbrev ctx_at : P → Bytes → ClientContext
  ctx_at = at f net memory name rest all_short few

  abbrev todo_at : P → Bytes
  todo_at = todo f net memory name rest all_short few

  -- What `parse_buffer` makes of a part of the request: it waits for the rest, or it answers.
  abbrev Parsed : ClientContext → List NetEvent → Bytes → Type 0
  Parsed ctx es ys =
      ((ph : P) × (b : Bytes) × (parse_buffer f net (conn s ctx es)
          ≡ some (done (conn s (ctx_at ph b) es)))
        × (todo_at ph ≡ b ++ ys)
        × (1 ≤ length ys)
        × (length b ≤ length ctx.buffer)
        × Bounded (ctx_at ph b))
      ⊎ ((ys ≡ [])
          × (end : ClientContext) × (parse_buffer f net (conn s ctx es)
              ≡ some (done (ended net s reply end es)))
          × (end.buffer ≡ [])
          × Finished end (name ∷ rest)
          × Bounded end)

  parse_buffer-part :
      (ph : P) (b ys : Bytes) (es : List NetEvent)
      → Bounded (ctx_at ph b)
      → todo_at ph ≡ b ++ ys
      → Parsed (ctx_at ph b) es ys
  parse_buffer-part ph b ys es bounded e =
      let c = conn s (ctx_at ph b) es in
      elim (feed f net memory name rest all_short few c ph b ys e) [
        | inl (ph', b', d, r, out, e', more, le) ↦
            let (bounded_d, shorter) = Reaches-Bounded f net r bounded in
            inl (
              ph',
              b',
              parse_buffer-leaves f net _ bounded r out,
              e',
              more,
              omega (arith, le, shorter),
              leave-Bounded f net d _ out bounded_d,
            )
        | inr (e', l) ↦
            let (reached, idle) =
              LastRead-answered f net memory c _ (terminated name) (map terminated rest)
                (length name) (map length rest) (length rest) reply l
                (sym (length-map terminated rest)) (sym (length-map length rest)) few run fits in
            inr (
              e',
              l.final,
              parse_buffer-leaves f net _ bounded reached idle,
              l.emptied,
              record {
                state = l.state;
                total = l.total;
                parsed = l.parsed;
                small = l.small;
                last = l.last_read;
                argv = l.argv;
              },
              (Reaches-Bounded f net reached bounded).0,
            )
      ]

  -- What a read of a part of the request makes of the connection.
  abbrev Arrived : ClientContext → List NetEvent → Bytes → Bytes → Type 0
  Arrived ctx es x ys =
      ((ph : P) × (b : Bytes) × (on_read f net (conn s ctx es) (pos (length x)) (some x)
          ≡ some (done (conn s (ctx_at ph b) ((es ++ timer_started ∷ []) ++ read_freed ∷ []))))
        × (todo_at ph ≡ b ++ ys)
        × (1 ≤ length ys)
        × (length b ≤ length ctx.buffer + length x)
        × Bounded (ctx_at ph b))
      ⊎ ((ys ≡ [])
          × (end : ClientContext) × (on_read f net (conn s ctx es) (pos (length x)) (some x)
              ≡ some (done (note (ended net s reply end (es ++ timer_started ∷ [])) read_freed)))
          × (end.buffer ≡ [])
          × Finished end (name ∷ rest)
          × Bounded end)

  on_read-part :
      (ph : P) (b x ys : Bytes) (es : List NetEvent)
      → Bounded (ctx_at ph b)
      → todo_at ph ≡ b ++ (x ++ ys)
      → Nonempty x
      → length b + length x < 2 ^ 64
      → Arrived (ctx_at ph b) es x ys
  on_read-part ph b [] ys es bounded e some_bytes small = absurd (omega (arith, some_bytes))
  on_read-part ph b (h ∷ t) ys es bounded e some_bytes small =
      let x = h ∷ t in
      let c = conn s (ctx_at ph b) es in
      let held : (ctx_at ph b).buffer ≡ b = at-buffer f net memory name rest all_short few ph b in
      elim (append_to_buffer_lem net (note c timer_started) x bounded
        (omega (arith, small, ap length held))) [
          | inr (_, _, refused) ↦
              let clash : true ≡ false = sym (memory _) ∙ refused in absurd (ground arith)
          | inl (u, capacity, copied, bounded') ↦
              let same = at-appended f net memory name rest all_short few ph b x u capacity in
              let ph' = rebased f net memory name rest all_short few ph u capacity in
              let held' : (ctx_at ph' (b ++ x)).buffer ≡ b ++ x =
                at-buffer f net memory name rest all_short few ph' (b ++ x) in
              let started = copied ∙ ap (λ ctx. done (with_ctx (note c timer_started) ctx)) same in
              let e' : todo_at ph' ≡ (b ++ x) ++ ys =
                todo-rebased f net memory name rest all_short few ph u capacity
                ∙ e
                ∙ sym (append_assoc b x ys) in
              elim (parse_buffer-part ph' (b ++ x) ys (es ++ timer_started ∷ [])
                (subst Bounded same bounded') e') [
                  | inl (ph'', b'', parsed, e'', more, le, bounded'') ↦ inl (
                    ph'',
                    b'',
                    on_read-parsed f net c _ _ (length t) x refl started parsed,
                    e'',
                    more,
                    omega (arith, le, ap length held, ap length held', length-append b x),
                    bounded'',
                  )
                  | inr (none_left, end, parsed, emptied, finished, bounded_end) ↦ inr (
                    none_left,
                    end,
                    on_read-parsed f net c _ _ (length t) x refl started parsed,
                    emptied,
                    finished,
                    bounded_end,
                  )
                ]
        ]

  -- The end of a request that comes in several reads.
  abbrev Answered : ClientContext → List NetEvent → List Bytes → ℕ → Type 0
  Answered ctx es xs k =
      (end : ClientContext) × (read_all f net (conn s ctx es) xs
        ≡ some (done (note (ended net s reply end (quiet k es ++ timer_started ∷ [])) read_freed)))
      × (end.buffer ≡ [])
      × Finished end (name ∷ rest)
      × Bounded end

  reads :
      (ph : P) (b x : Bytes) (xs : List Bytes) (es : List NetEvent)
      → Bounded (ctx_at ph b)
      → todo_at ph ≡ b ++ joined (x ∷ xs)
      → All Nonempty (x ∷ xs)
      → length b + length (joined (x ∷ xs)) < 2 ^ 63
      → Answered (ctx_at ph b) es (x ∷ xs) (length xs)
  reads ph b x [] es bounded e (some_bytes, _) small =
      elim (on_read-part ph b x [] es bounded e some_bytes
        (omega (arith, small, length-append x []))) [
          | inl (_, _, _, _, more, _, _) ↦ absurd (omega (arith, more))
          | inr (_, end, run, emptied, finished, bounded_end) ↦
              (end, read_all-last f net _ _ x run, emptied, finished, bounded_end)
        ]
  reads ph b x (y ∷ xs) es bounded e (some_bytes, others) small =
      let count = length-append x (joined (y ∷ xs)) in
      elim (on_read-part ph b x (joined (y ∷ xs)) es bounded e some_bytes
        (omega (arith, small, count))) [
          | inl (ph', b', run, e', more, le, bounded') ↦
              let held = at-buffer f net memory name rest all_short few ph b in
              let (end, runs, emptied, finished, bounded_end) =
                reads ph' b' y xs ((es ++ timer_started ∷ []) ++ read_freed ∷ []) bounded' e' others
                  (omega (arith, le, ap length held, small, count)) in
              (end, read_all-step f net _ _ x (y ∷ xs) run ∙ runs, emptied, finished, bounded_end)
          | inr (none_left, _, _, _, _, _) ↦
              absurd (omega (arith, others.0, ap length none_left, length-append y (joined xs)))
        ]

  -- Where memory is given, a request of at most 1024 strings of at most 8192 bytes that comes to a new
  -- connection cut into any reads, none of them empty, is answered by the last read, and the reads before
  -- it only start the timer and keep their bytes. The answer does not depend on the cuts: the command that
  -- the strings name is run once, on the others as its arguments with their lengths, where it returns a
  -- body of at most 2^32 - 2 bytes, and the database is left as the command leaves it. A line feed is
  -- written to the byte past the end of the block of the response, and what is sent is as many bytes of the
  -- body as its length says and a carriage return. No byte is left to read, and the parser is left with
  -- all of the strings, in the state in which it read the last of them and within its bounds.
  pub read_all-request :
      (x : Bytes) (xs : List Bytes) (es : List NetEvent)
      → joined (x ∷ xs) ≡ encode (name ∷ rest)
      → All Nonempty (x ∷ xs)
      → length (encode (name ∷ rest)) < 2 ^ 63
      → (end : ClientContext) × (read_all f net (conn s new_context es) (x ∷ xs)
          ≡ some (
              done (
                note
                  (ended net s reply end (quiet (length xs) es ++ timer_started ∷ []))
                  read_freed)))
        × (end.buffer ≡ [])
        × Finished end (name ∷ rest)
        × Bounded end
  read_all-request x xs es whole cuts small =
      reads (in_type new_context) [] x xs es new_context-Bounded (sym whole) cuts
        (omega (arith, small, ap length whole))
