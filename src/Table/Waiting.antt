-- ===== src/Table/Waiting.antt =====
-- Threads that take locks in rising order never wait for each other in a circle.
use simple_c_database.Prelude.{
  ℕ, zero, suc, ◌+◌, ◌<◌, ◌≤◌, ◌≡◌, ◌⊎◌, inl, inr, refl, ap, ◌∙◌, sym, subst, arith, true, false,
  none, some, List, [], ◌∷◌, All, Option-cases,
}
use simple_c_database.Table.Data.{Event}
use simple_c_database.Table.Order.{lock_run}
use simple_c_database.Table.Threads.{
  Thread, among, wanted, IsFree, Move, InOrder, Finished, Among, here, there, Among-All, holder,
  Among-Move, taken_above, next_event,
}

-- One more than the lock that a thread takes next.
abbrev next_lock : List Event → ℕ
next_lock [] = 0
next_lock (e ∷ es) = elim (wanted e) [ none ↦ 0 | some i ↦ i + 1 ]

-- A bound on the locks that are taken next.
abbrev top : List Thread → ℕ
top [] = 0
top (t ∷ ts) = next_lock t.todo + top ts

next_lock-wanted :
    (t : Thread) (e : Event) (es : List Event) (i : ℕ)
    → t.todo ≡ e ∷ es
    → wanted e ≡ some i
    → next_lock t.todo ≡ i + 1
next_lock-wanted t e es i todo wants = rw (todo, wants, next_lock) refl

wanted-top :
    {t : Thread} {ts : List Thread} (e : Event) (es : List Event) (i : ℕ)
    → Among t ts
    → t.todo ≡ e ∷ es
    → wanted e ≡ some i
    → i < top ts
wanted-top {t} e es i here todo wants = omega (arith, next_lock-wanted t e es i todo wants)
wanted-top e es i (there a) todo wants = omega (arith, wanted-top e es i a todo wants)

-- A thread with nothing to do holds no lock.
nothing_held : (t : Thread) → InOrder t → t.todo ≡ [] → t.held ≡ []
unfolding lock_run
nothing_held t orderly todo = ground (arith, sym (ap (lock_run t.held) todo) ∙ orderly)

todo-cases : (es : List Event) → (es ≡ []) ⊎ ((e : Event) × (fs : List Event) × (es ≡ e ∷ fs))
todo-cases [] = inl refl
todo-cases (e ∷ es) = inr (e, es, refl)

-- From a thread that takes a lock to its holder, who takes a higher one, until one can move.
chase :
    (fuel : ℕ) (ts : List Thread)
    → All InOrder ts
    → (t : Thread) (e : Event) (es : List Event) (i : ℕ) → Among t ts
    → t.todo ≡ e ∷ es
    → wanted e ≡ some i
    → top ts ≤ fuel + i
    → (us : List Thread) × Move ts ts us
chase zero ts orderly t e es i a todo wants enough =
    absurd (omega (arith, wanted-top e es i a todo wants))
chase (suc fuel) ts orderly t e es i a todo wants enough = elim (holder i ts) [
  | inr free ↦
      let (held', step) = next_event t e es (Among-All InOrder a orderly) todo in
      Among-Move e es held' a todo
        (λ j h. let same : i ≡ j = ground arith in subst (λ l. IsFree l ts) same free) step
  | inl (u, b, has) ↦
      let in_order = Among-All InOrder b orderly in
      elim (todo-cases u.todo) [
        | inl idle ↦
            let clash : true ≡ false = sym has ∙ ap (among i) (nothing_held u in_order idle) in
            absurd (ground arith)
        | inr (e', es', todo') ↦
            let (held', step) = next_event u e' es' in_order todo' in
            elim (Option-cases (wanted e')) [
              | inl wants_none ↦ Among-Move e' es' held' b todo' (λ j h. absurd (ground arith)) step
              | inr (j, wants') ↦
                  chase fuel ts orderly u e' es' j b todo' wants'
                    (omega (arith, enough, taken_above u.held held' e' j i step wants' has))
            ]
      ]
]

unfinished :
    (ts : List Thread)
    → All InOrder ts
    → All Finished ts
      ⊎ ((t : Thread) × (e : Event) × (es : List Event) × Among t ts × (t.todo ≡ e ∷ es))
unfinished [] orderly = inl tt
unfinished (t ∷ ts) (in_order, orderly) = elim (todo-cases t.todo) [
  | inr (e, es, todo) ↦ inr (t, e, es, here, todo)
  | inl idle ↦ elim (unfinished ts orderly) [
    | inl finished ↦ inl ((idle, nothing_held t in_order idle), finished)
    | inr (u, e, es, a, todo) ↦ inr (u, e, es, there a, todo)
  ]
]

pub InOrder-moves :
    (ts : List Thread) → All InOrder ts → All Finished ts ⊎ ((us : List Thread) × Move ts ts us)
InOrder-moves ts orderly = elim (unfinished ts orderly) [
  | inl finished ↦ inl finished
  | inr (t, e, es, a, todo) ↦
      let (held', step) = next_event t e es (Among-All InOrder a orderly) todo in
      elim (Option-cases (wanted e)) [
        | inl wants_none ↦ inr (Among-Move e es held' a todo (λ j h. absurd (ground arith)) step)
        | inr (i, wants) ↦ inr (chase (top ts) ts orderly t e es i a todo wants (omega arith))
      ]
]
