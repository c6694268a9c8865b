-- ===== src/Table/Order.antt =====
-- The order in which events take and release locks.
use mathlib.Core.List.{append_assoc}
use simple_c_database.Prelude.{
  ℕ, zero, suc, ◌+◌, ◌<◌, ◌≡◌, refl, ap, ◌∙◌, sym, arith, Bool, true, ◌&&◌, Option, none, some,
  List, [], ◌∷◌, ◌++◌, ltb, ◌==◌, if◌then◌else◌,
}
use simple_c_database.Table.Data.{
  Event, allocated, freed, initialised, destroyed_lock, rdlocked, wrlocked, unlocked, events_of,
}

-- All of the locks are below `i`.
abbrev pub all_below : ℕ → List ℕ → Bool
all_below i [] = true
all_below i (j ∷ held) = ltb j i && all_below i held

abbrev pub give_back : ℕ → List ℕ → Option (List ℕ)
give_back i [] = none
give_back i (j ∷ held) =
    if i == j
    then some held
    else elim (give_back i held) [ none ↦ none | some rest ↦ some (j ∷ rest) ]

-- The locks that a thread holds after an event: it may take a lock above all that it holds, and release
-- a lock that it holds.
abbrev pub lock_step : List ℕ → Event → Option (List ℕ)
lock_step held (rdlocked i) = if all_below i held then some (held ++ i ∷ []) else none
lock_step held (wrlocked i) = if all_below i held then some (held ++ i ∷ []) else none
lock_step held (unlocked i) = give_back i held
lock_step held (allocated b) = some held
lock_step held (freed b) = some held
lock_step held (initialised i) = some held
lock_step held (destroyed_lock i) = some held

unfoldable pub lock_run : List ℕ → List Event → Option (List ℕ)
lock_run held [] = some held
lock_run held (e ∷ es) = elim (lock_step held e) [ none ↦ none | some held' ↦ lock_run held' es ]

-- Locks are taken in rising order, each by one that does not hold it, only held locks are released, and
-- none is held in the end.
abbrev pub IsOrderly : List Event → Type 0
IsOrderly es = lock_run [] es ≡ some []

-- What takes a lock.
pub data Lock : (ℕ → Event) → Type 0 where
  reading : Lock rdlocked
  writing : Lock wrlocked

-- `i`, `i + 1`, up to `n` of them.
abbrev numbered : ℕ → ℕ → List ℕ
numbered i zero = []
numbered i (suc n) = i ∷ numbered (i + 1) n

all_below-numbered : (i n j : ℕ) → i + n < j + 1 → all_below j (numbered i n) ≡ true
all_below-numbered i zero j h = refl
all_below-numbered i (suc n) j h = ground (arith, all_below-numbered (i + 1) n j (omega arith))

numbered-last : (i n : ℕ) → numbered i n ++ (i + n) ∷ [] ≡ numbered i (suc n)
numbered-last i zero = ap (λ j. j ∷ []) (omega arith)
numbered-last i (suc n) =
    let e : (i + 1) + n ≡ i + suc n = omega arith in
    ap (λ js. i ∷ js) (rw (← e) (numbered-last (i + 1) n))

numbered-top : (n : ℕ) → numbered 0 n ++ n ∷ [] ≡ numbered 0 (suc n)
numbered-top n =
    let e : 0 + n ≡ n = omega arith in ap (λ i. numbered 0 n ++ i ∷ []) (sym e) ∙ numbered-last 0 n

lock_run-step :
    (held held' : List ℕ) (e : Event) (es : List Event)
    → lock_step held e ≡ some held'
    → lock_run held (e ∷ es) ≡ lock_run held' es
unfolding lock_run
lock_run-step held held' e es h = rw (h, lock_run) refl

lock_step-numbered :
    {locked : ℕ → Event}
    → Lock locked
    → (n : ℕ) → lock_step (numbered 0 n) (locked n) ≡ some (numbered 0 (suc n))
lock_step-numbered reading n =
    rw (all_below-numbered 0 n n (omega arith)) (ap some (numbered-top n))
lock_step-numbered writing n =
    rw (all_below-numbered 0 n n (omega arith)) (ap some (numbered-top n))

-- Locks `i`, `i + 1`, … are taken on top of those below.
lock_run-taking :
    {locked : ℕ → Event}
    → Lock locked
    → (n i : ℕ) (es : List Event)
    → lock_run (numbered 0 i) (events_of locked n i ++ es) ≡ lock_run (numbered 0 (i + n)) es
unfolding lock_run
lock_run-taking l zero i es =
    let e : i ≡ i + 0 = omega arith in ap (λ j. lock_run (numbered 0 j) es) e
lock_run-taking {locked} l (suc n) i es =
    let e : suc i + n ≡ i + suc n = omega arith in
    let next : i + 1 ≡ suc i = omega arith in
    lock_run-step _ _ (locked i) (events_of locked n (i + 1) ++ es) (lock_step-numbered l i)
    ∙ rw (next, ← e) (lock_run-taking l n (suc i) es)

give_back-first : (i : ℕ) (held : List ℕ) → give_back i (i ∷ held) ≡ some held
give_back-first i held = let same : (i == i) ≡ true = ground arith in rw same refl

lock_run-giving : (n i : ℕ) → lock_run (numbered i n) (events_of unlocked n i) ≡ some []
unfolding lock_run
lock_run-giving zero i = refl
lock_run-giving (suc n) i =
    lock_run-step (i ∷ numbered (i + 1) n) _ (unlocked i) (events_of unlocked n (i + 1))
      (give_back-first i (numbered (i + 1) n))
    ∙ lock_run-giving n (i + 1)

-- Neither takes nor releases a lock.
abbrev pub Other : List Event → Type 0
Other es = (held : List ℕ) (fs : List Event) → lock_run held (es ++ fs) ≡ lock_run held fs

-- A call that takes the locks below `n`, does no more with locks, and releases them.
pub all-IsOrderly :
    {locked : ℕ → Event}
    → Lock locked
    → (n : ℕ) (es : List Event) → Other es
    → IsOrderly (events_of locked n 0 ++ es ++ events_of unlocked n 0)
all-IsOrderly {locked} l n es other =
    let e : 0 + n ≡ n = omega arith in
    ap (lock_run []) (append_assoc (events_of locked n 0) es (events_of unlocked n 0))
    ∙ lock_run-taking l n 0 (es ++ events_of unlocked n 0)
    ∙ other _ (events_of unlocked n 0)
    ∙ rw e (lock_run-giving n 0)

-- A lock is taken and released, and then other things are done.
pub one-IsOrderly :
    {locked : ℕ → Event}
    → Lock locked
    → (i : ℕ) (es : List Event) → lock_run [] (locked i ∷ unlocked i ∷ es) ≡ lock_run [] es
unfolding lock_run
one-IsOrderly reading i es = lock_run-step (i ∷ []) [] (unlocked i) es (give_back-first i [])
one-IsOrderly writing i es = lock_run-step (i ∷ []) [] (unlocked i) es (give_back-first i [])
