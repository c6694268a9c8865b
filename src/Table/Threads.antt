-- ===== src/Table/Threads.antt =====
-- Threads that share the locks of a table. Every lock is held by at most one thread here, also where it is
-- taken for reading, so that a thread waits at least where it would with read locks that are shared.
use simple_c_database.Prelude.{
  ℕ, ◌<◌, ◌≡◌, ◌⊎◌, inl, inr, refl, ap, ◌∙◌, sym, arith, Bool, true, false, ◌||◌, Option, none,
  some, List, [], ◌∷◌, All, ◌==◌, Bool-cases, Option-cases,
}
use simple_c_database.Table.Data.{
  Event, allocated, freed, initialised, destroyed_lock, rdlocked, wrlocked, unlocked,
}
use simple_c_database.Table.Order.{lock_step, lock_run, all_below}

-- The locks that a thread holds, and the events that it has still to do.
pub record Thread : Type 0 where
  pub held : List ℕ
  pub todo : List Event

abbrev pub starting : List Event → Thread
starting es = record { held = []; todo = es }

abbrev pub among : ℕ → List ℕ → Bool
among i [] = false
among i (j ∷ js) = i == j || among i js

-- The lock that an event takes.
abbrev pub wanted : Event → Option ℕ
wanted (rdlocked i) = some i
wanted (wrlocked i) = some i
wanted (unlocked i) = none
wanted (allocated b) = none
wanted (freed b) = none
wanted (initialised i) = none
wanted (destroyed_lock i) = none

abbrev pub IsFree : ℕ → List Thread → Type 0
IsFree i ts = All (λ t. among i t.held ≡ false) ts

-- The first of some threads, or a later one, does its next event, with every lock that it takes free.
pub data Move (all : List Thread) : List Thread → List Thread → Type 0 where
  first :
      {t : Thread} {ts : List Thread} (e : Event) (es : List Event) (held' : List ℕ)
      → t.todo ≡ e ∷ es
      → ((i : ℕ) → wanted e ≡ some i → IsFree i all)
      → lock_step t.held e ≡ some held'
      → Move all (t ∷ ts) (record { held = held'; todo = es } ∷ ts)
  later : {t : Thread} {ts us : List Thread} → Move all ts us → Move all (t ∷ ts) (t ∷ us)

-- Moves one after the other.
pub data Moves : List Thread → List Thread → Type 0 where
  at_rest : {ts : List Thread} → Moves ts ts
  moves : {ts us vs : List Thread} → Move ts ts us → Moves us vs → Moves ts vs

abbrev pub InOrder : Thread → Type 0
InOrder t = lock_run t.held t.todo ≡ some []

-- All that a thread has to do is done, and it holds no lock.
abbrev pub Finished : Thread → Type 0
Finished t = (t.todo ≡ []) × (t.held ≡ [])

pub lock_run-next :
    (held held' : List ℕ) (e : Event) (es : List Event)
    → lock_step held e ≡ some held'
    → lock_run held (e ∷ es) ≡ lock_run held' es
unfolding lock_run
lock_run-next held held' e es h = rw (h, lock_run) refl

pub Move-InOrder : {all ts us : List Thread} → Move all ts us → All InOrder ts → All InOrder us
Move-InOrder (first {t} e es held' todo free step) (orderly, rest) =
    (sym (lock_run-next t.held held' e es step) ∙ ap (lock_run t.held) (sym todo) ∙ orderly, rest)
Move-InOrder (later m) (orderly, rest) = (orderly, Move-InOrder m rest)

pub Moves-InOrder : {ts us : List Thread} → Moves ts us → All InOrder ts → All InOrder us
Moves-InOrder at_rest o = o
Moves-InOrder (moves m ms) o = Moves-InOrder ms (Move-InOrder m o)

-- A thread stands among others.
pub data Among (t : Thread) : List Thread → Type 0 where
  here : {ts : List Thread} → Among t (t ∷ ts)
  there : {u : Thread} {ts : List Thread} → Among t ts → Among t (u ∷ ts)

pub Among-All : (P : Thread → Type 0) {t : Thread} {ts : List Thread} → Among t ts → All P ts → P t
Among-All P here (p, ps) = p
Among-All P (there a) (p, ps) = Among-All P a ps

-- Some thread holds a lock, or it is free.
pub holder :
    (i : ℕ) (ts : List Thread) → ((t : Thread) × Among t ts × (among i t.held ≡ true)) ⊎ IsFree i ts
holder i [] = inr tt
holder i (t ∷ ts) = elim (Bool-cases (among i t.held)) [
  | inl held ↦ inl (t, here, held)
  | inr free ↦ elim (holder i ts) [
    | inl (u, a, held) ↦ inl (u, there a, held)
    | inr all_free ↦ inr (free, all_free)
  ]
]

-- A thread that stands among others moves.
pub Among-Move :
    {all : List Thread} {t : Thread} {ts : List Thread} (e : Event) (es : List Event)
    (held' : List ℕ)
    → Among t ts
    → t.todo ≡ e ∷ es
    → ((i : ℕ) → wanted e ≡ some i → IsFree i all)
    → lock_step t.held e ≡ some held'
    → (us : List Thread) × Move all ts us
Among-Move e es held' here todo free step = (_, first e es held' todo free step)
Among-Move e es held' (there a) todo free step =
    let (us, m) = Among-Move e es held' a todo free step in (_, later m)

below_member : (i j : ℕ) (held : List ℕ) → all_below i held ≡ true → among j held ≡ true → j < i
below_member i j [] below has = absurd (ground arith)
below_member i j (k ∷ held) below has = ground (arith, below_member i j held)

-- A lock that is taken lies above every lock that is held.
pub taken_above :
    (held held' : List ℕ) (e : Event) (i j : ℕ)
    → lock_step held e ≡ some held'
    → wanted e ≡ some i
    → among j held ≡ true
    → j < i
taken_above held held' (rdlocked k) i j step wants has = elim (Bool-cases (all_below k held)) [
  | inl below ↦ ground (arith, below_member k j held below has)
  | inr other ↦ absurd (ground arith)
]
taken_above held held' (wrlocked k) i j step wants has = elim (Bool-cases (all_below k held)) [
  | inl below ↦ ground (arith, below_member k j held below has)
  | inr other ↦ absurd (ground arith)
]
taken_above held held' (unlocked k) i j step wants has = absurd (ground arith)
taken_above held held' (allocated b) i j step wants has = absurd (ground arith)
taken_above held held' (freed b) i j step wants has = absurd (ground arith)
taken_above held held' (initialised k) i j step wants has = absurd (ground arith)
taken_above held held' (destroyed_lock k) i j step wants has = absurd (ground arith)

-- A thread in order that has something to do can do it, where the locks allow.
pub next_event :
    (t : Thread) (e : Event) (es : List Event)
    → InOrder t
    → t.todo ≡ e ∷ es
    → (held' : List ℕ) × (lock_step t.held e ≡ some held')
unfolding lock_run
next_event t e es orderly todo = elim (Option-cases (lock_step t.held e)) [
  | inl stuck ↦ absurd (ground (arith, sym (ap (lock_run t.held) todo) ∙ orderly))
  | inr (held', step) ↦ (held', step)
]
