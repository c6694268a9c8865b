-- ===== src/Server/Run.antt =====
-- Iterations of the loop of `parse_buffer` one after the other.
use simple_c_database.Command.Data.{Floats}
use simple_c_database.Prelude.{ℕ, zero, suc, ◌≤◌, length, subst, ◌≡◌, refl, ◌∙◌, ap, arith, some}
use simple_c_database.Server.Next.{Next}
use simple_c_database.Server.Bounded.{by_state-Next, parse_buffer-Bounded}
use simple_c_database.Server.Holds.{Holds, Bounded}
use simple_c_database.Server.Data.{Net, Conn, Step, again, leave}
use simple_c_database.Server.Parse.{iteration, parse_loop, parse_buffer}
use simple_c_database.Table.Data.{Outcome, fault, done}

module _ (f : Floats) (net : Net) where
  -- From the first connection, iterations that go on lead to the second.
  pub data Reaches : Conn f.Double → Conn f.Double → Type 0 where
    here : {c : Conn f.Double} → Reaches c c
    step : {c d e : Conn f.Double} → iteration f net c ≡ done (again d) → Reaches d e → Reaches c e

  pub Reaches-trans : {c d e : Conn f.Double} → Reaches c d → Reaches d e → Reaches c e
  Reaches-trans here r = r
  Reaches-trans (step run s) r = step run (Reaches-trans s r)

  -- The loop gives one result, with whatever fuel it gives one.
  parse_loop-agree :
      (m n : ℕ) (c : Conn f.Double) (o o' : Outcome (Conn f.Double))
      → parse_loop f net m c ≡ some o
      → parse_loop f net n c ≡ some o'
      → o ≡ o'
  unfolding parse_loop
  parse_loop-agree zero n c o o' h h' = ground arith
  parse_loop-agree (suc m) zero c o o' h h' = ground arith
  parse_loop-agree (suc m) (suc n) c o o' h h' =
      by_result (iteration f net c) h h' (λ d. parse_loop-agree m n d o o')
    where
      by_result :
          (r : Outcome (Step (Conn f.Double)))
          → elim r [
            | fault ↦ some fault
            | done s ↦ elim s [ leave d ↦ some (done d) | again d ↦ parse_loop f net m d ]
          ]
            ≡ some o
          → elim r [
            | fault ↦ some fault
            | done s ↦ elim s [ leave d ↦ some (done d) | again d ↦ parse_loop f net n d ]
          ]
            ≡ some o'
          → ((d : Conn f.Double)
              → parse_loop f net m d ≡ some o
              → parse_loop f net n d ≡ some o'
              → o ≡ o')
          → o ≡ o'
      by_result fault h h' go = cc
      by_result (done (leave d)) h h' go = cc
      by_result (done (again d)) h h' go = go d h h'

  -- The loop ends where an iteration that is reached ends it.
  Reaches-loop :
      {c d : Conn f.Double} (o : Outcome (Conn f.Double))
      → Reaches c d
      → parse_loop f net 1 d ≡ some o
      → (n : ℕ) × (parse_loop f net n c ≡ some o)
  unfolding parse_loop
  Reaches-loop o here h = (1, h)
  Reaches-loop o (step run r) h =
      let (n, rest) = Reaches-loop o r h in (suc n, rw (run, parse_loop) rest)

  -- `parse_buffer` gives what the last iteration of a run gives.
  pub parse_buffer-Reaches :
      {c d : Conn f.Double} (o : Outcome (Conn f.Double))
      → Bounded c.ctx
      → Reaches c d
      → parse_loop f net 1 d ≡ some o
      → parse_buffer f net c ≡ some o
  unfolding parse_buffer
  parse_buffer-Reaches {c} o b r h =
      let (n, some_run) = Reaches-loop o r h in
      let (o', run, _) = parse_buffer-Bounded f net c b in
      run ∙ ap some (parse_loop-agree _ n c o' o run some_run)

  -- `parse_buffer` stops where an iteration that is reached leaves the loop.
  pub parse_buffer-leaves :
      {c d : Conn f.Double} (e : Conn f.Double)
      → Bounded c.ctx
      → Reaches c d
      → iteration f net d ≡ done (leave e)
      → parse_buffer f net c ≡ some (done e)
  unfolding parse_loop
  parse_buffer-leaves e b r h = parse_buffer-Reaches (done e) b r (rw (h, parse_loop) refl)

  -- What is reached keeps the bounds, and has no more bytes in the buffer.
  pub Reaches-Bounded :
      {c d : Conn f.Double}
      → Reaches c d
      → Bounded c.ctx
      → Bounded d.ctx × (length d.ctx.buffer ≤ length c.ctx.buffer)
  unfolding iteration
  Reaches-Bounded here b = (b, omega arith)
  Reaches-Bounded {c} (step {d} run r) b =
      let next = by_state-Next f net (length c.ctx.buffer) c.ctx.state c b (omega arith) in
      let (b', lt) = subst (Holds (Next (length c.ctx.buffer))) run next in
      let (b'', le) = Reaches-Bounded r b' in (b'', omega (arith, lt, le))

  pub leave-Bounded :
      (c d : Conn f.Double) → iteration f net c ≡ done (leave d) → Bounded c.ctx → Bounded d.ctx
  unfolding iteration
  leave-Bounded c d run b =
      subst (Holds (Next (length c.ctx.buffer))) run
        (by_state-Next f net (length c.ctx.buffer) c.ctx.state c b (omega arith))
