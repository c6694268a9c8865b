-- ===== src/Table/Deadlock.antt =====
-- Threads that call the operations of hashtable.c never wait for each other in a circle.
use simple_c_database.Prelude.{
  ℕ, ◌≡◌, ◌⊎◌, inl, inr, refl, ap, ◌∙◌, sym, subst, arith, Bool, Option, some, List, [], ◌∷◌, ◌++◌,
  All, map, ℤ, Option-cases,
}
use simple_c_database.Strings.{Bytes}
use simple_c_database.Table.Data.{Table, Env, Event, Outcome, done, Reply}
use simple_c_database.Table.Keys.{
  table_set, table_add, table_delete, table_replace, table_exist, table_get,
}
use simple_c_database.Table.Life.{table_clear}
use simple_c_database.Table.KeyLocks.{
  Ordered, table_set-Ordered, table_add-Ordered, table_replace-Ordered, table_delete-Ordered,
  table_exist-Ordered, table_get-Ordered,
}
use simple_c_database.Table.AllLocks.{
  table_clear-Ordered, table_resize-Ordered, table_memory_usage-Ordered,
  table_occupied_bucket_counter-Ordered,
}
use simple_c_database.Table.Monitor.{table_memory_usage, table_occupied_bucket_counter}
use simple_c_database.Table.Resize.{table_resize}
use simple_c_database.Table.Order.{lock_step, lock_run, IsOrderly}
use simple_c_database.Table.Threads.{
  Thread, starting, Move, Moves, InOrder, Finished, Moves-InOrder, lock_run-next,
}
use simple_c_database.Table.Waiting.{InOrder-moves}

-- The events of a thread that calls operations one after the other, on tables as they are at each call.
pub data Calling {ℓ} (V : Type ℓ) (Double : Type 0) : List Event → Type ℓ where
  calls_none : Calling V Double []
  calls_set :
      (env : Env) (t : Option (Table V)) (key : Option Bytes) (value : Option V) (d : Bool)
      {r : Reply V ℤ} {es : List Event}
      → table_set env t key value d ≡ done r
      → Calling V Double es
      → Calling V Double (r.events ++ es)
  calls_add :
      (env : Env) (t : Option (Table V)) (key : Option Bytes) (value : Option V) {r : Reply V ℤ}
      {es : List Event}
      → table_add env t key value ≡ done r
      → Calling V Double es
      → Calling V Double (r.events ++ es)
  calls_replace :
      (env : Env) (t : Option (Table V)) (key : Option Bytes) (value : Option V) (d : Bool)
      {r : Reply V ℤ} {es : List Event}
      → table_replace env t key value d ≡ done r
      → Calling V Double es
      → Calling V Double (r.events ++ es)
  calls_delete :
      (env : Env) (t : Option (Table V)) (key : Option Bytes) (d : Bool) {r : Reply V ℤ}
      {es : List Event}
      → table_delete env t key d ≡ done r
      → Calling V Double es
      → Calling V Double (r.events ++ es)
  calls_exist :
      (env : Env) (t : Option (Table V)) (key : Option Bytes) {r : Reply V Bool} {es : List Event}
      → table_exist env t key ≡ done r
      → Calling V Double es
      → Calling V Double (r.events ++ es)
  calls_get :
      (env : Env) (copy : V → ℕ → V) (t : Option (Table V)) (key : Option Bytes)
      (sizer : Option (V → ℕ)) {r : Reply V (Option V)} {es : List Event}
      → table_get env copy t key sizer ≡ done r
      → Calling V Double es
      → Calling V Double (r.events ++ es)
  calls_clear :
      (env : Env) (t : Option (Table V)) (d : Bool) {r : Reply V ℤ} {es : List Event}
      → table_clear env t d ≡ done r
      → Calling V Double es
      → Calling V Double (r.events ++ es)
  calls_resize :
      (env : Env) (t : Option (Table V)) (n : ℕ) {r : Reply V ℤ} {es : List Event}
      → table_resize env t n ≡ done r
      → Calling V Double es
      → Calling V Double (r.events ++ es)
  calls_memory_usage :
      (env : Env) (t : Option (Table V)) (sizer : Option (V → ℕ)) {r : Reply V ℕ} {es : List Event}
      → table_memory_usage env t sizer ≡ done r
      → Calling V Double es
      → Calling V Double (r.events ++ es)
  calls_occupied :
      (zero_double : Double) (divide : ℕ → ℕ → Double) (env : Env) (t : Option (Table V))
      {r : Reply V Double} {es : List Event}
      → table_occupied_bucket_counter zero_double divide env t ≡ done r
      → Calling V Double es
      → Calling V Double (r.events ++ es)

lock_run-append :
    (held held' : List ℕ) (es fs : List Event)
    → lock_run held es ≡ some held'
    → lock_run held (es ++ fs) ≡ lock_run held' fs
unfolding lock_run
lock_run-append held held' [] fs h =
    let same : held ≡ held' = ground arith in ap (λ l. lock_run l fs) same
lock_run-append held held' (e ∷ es) fs h = elim (Option-cases (lock_step held e)) [
  | inl stuck ↦ absurd (ground arith)
  | inr (next, step) ↦
      lock_run-next held next e (es ++ fs) step
      ∙ lock_run-append next held' es fs (sym (lock_run-next held next e es step) ∙ h)
]

call_first {ℓ κ} :
    {V : Type ℓ} {R : Type κ} {o : Outcome (Reply V R)} {r : Reply V R} (es : List Event)
    → Ordered o
    → o ≡ done r
    → IsOrderly es
    → IsOrderly (r.events ++ es)
call_first {r = r} es ordered run orderly =
    lock_run-append [] [] r.events es (subst Ordered run ordered) ∙ orderly

module _ {ℓ} (V : Type ℓ) (Double : Type 0) where
  Calling-IsOrderly : {es : List Event} → Calling V Double es → IsOrderly es
  unfolding lock_run
  Calling-IsOrderly calls_none = refl
  Calling-IsOrderly (calls_set env t key value d run c) =
      call_first _ (table_set-Ordered env t key value d) run (Calling-IsOrderly c)
  Calling-IsOrderly (calls_add env t key value run c) =
      call_first _ (table_add-Ordered env t key value) run (Calling-IsOrderly c)
  Calling-IsOrderly (calls_replace env t key value d run c) =
      call_first _ (table_replace-Ordered env t key value d) run (Calling-IsOrderly c)
  Calling-IsOrderly (calls_delete env t key d run c) =
      call_first _ (table_delete-Ordered env t key d) run (Calling-IsOrderly c)
  Calling-IsOrderly (calls_exist env t key run c) =
      call_first _ (table_exist-Ordered env t key) run (Calling-IsOrderly c)
  Calling-IsOrderly (calls_get env copy t key sizer run c) =
      call_first _ (table_get-Ordered env copy t key sizer) run (Calling-IsOrderly c)
  Calling-IsOrderly (calls_clear env t d run c) =
      call_first _ (table_clear-Ordered env t d) run (Calling-IsOrderly c)
  Calling-IsOrderly (calls_resize env t n run c) =
      call_first _ (table_resize-Ordered env t n) run (Calling-IsOrderly c)
  Calling-IsOrderly (calls_memory_usage env t sizer run c) =
      call_first _ (table_memory_usage-Ordered env t sizer) run (Calling-IsOrderly c)
  Calling-IsOrderly (calls_occupied zero_double divide env t run c) =
      call_first _ (table_occupied_bucket_counter-Ordered env zero_double divide t) run
        (Calling-IsOrderly c)

  starting-InOrder :
      (ess : List (List Event)) → All (Calling V Double) ess → All InOrder (map starting ess)
  starting-InOrder [] calls = tt
  starting-InOrder (es ∷ ess) (c, calls) = (Calling-IsOrderly c, starting-InOrder ess calls)

  -- No deadlock: threads that each call operations of hashtable.c one after the other, with their events in
  -- any interleaving in which a lock is taken only when no thread holds it, are all finished and hold no
  -- lock, or some thread can do its next event.
  pub no_deadlock :
      (ess : List (List Event)) (ts : List Thread)
      → All (Calling V Double) ess
      → Moves (map starting ess) ts
      → All Finished ts ⊎ ((us : List Thread) × Move ts ts us)
  no_deadlock ess ts calls reached =
      InOrder-moves ts (Moves-InOrder reached (starting-InOrder ess calls))
