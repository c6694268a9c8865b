-- ===== src/Table/AllLocks.antt =====
-- How the operations that lock every bucket use the locks, on any table.
use mathlib.Core.List.{append-nil}
use simple_c_database.Prelude.{
  ℕ, ◌+◌, ◌≡◌, inl, inr, refl, ap, ◌∙◌, sym, ◌⊎◌, Bool, Option, none, some, List, [], ◌∷◌, ◌++◌,
  ltb, ◌==◌, Bool-cases, replicate,
}
use simple_c_database.Table.Order.{
  IsOrderly, Lock, reading, writing, Other, all-IsOrderly, one-IsOrderly, lock_run,
}
use simple_c_database.Table.Data.{
  Bucket, Table, Env, calloc, sizeof_bucket, Event, unlocked, events_of, allocated, freed,
  buckets_block, Outcome, fault, done, held, refused, outside, Locking, lock_each, empty_bucket,
}
use simple_c_database.Table.Life.{adjust_capacity, table_clear}
use simple_c_database.Table.Monitor.{
  table_memory_usage, add_occupied, count_occupied, table_occupied_bucket_counter,
}
use simple_c_database.Table.Resize.{
  Placing, crashed, no_room, placed, rehash_all, resize_locked, resize_reply, resize_to,
  table_resize,
}
use simple_c_database.Table.KeyLocks.{Ordered}

-- Locks that are taken in a loop and released.
whole :
    {locked : ℕ → Event}
    → Lock locked
    → (n : ℕ) → IsOrderly (events_of locked n 0 ++ events_of unlocked n 0)
whole {locked} l n =
    ap (λ es. lock_run [] (es ++ events_of unlocked n 0)) (sym (append-nil (events_of locked n 0)))
    ∙ all-IsOrderly l n [] (λ held fs. refl)

Locking-cases : (l : Locking) → (l ≡ held) ⊎ ((i : ℕ) × (l ≡ refused i)) ⊎ (l ≡ outside)
Locking-cases held = inl refl
Locking-cases (refused i) = inr (inl (i, refl))
Locking-cases outside = inr (inr refl)

-- What a loop over buckets, each locked in turn, has done.
abbrev InTurn : Outcome (ℕ × List Event) → Type 0
InTurn fault = Unit
InTurn (done (n, es)) = IsOrderly es

module _ {ℓ} {V : Type ℓ} (env : Env) where
  pub table_clear-Ordered : (t : Option (Table V)) (d : Bool) → Ordered (table_clear env t d)
  unfolding table_clear lock_run
  table_clear-Ordered none d = refl
  table_clear-Ordered (some t) d =
      elim (Locking-cases (lock_each env t.lock_count t.lock_count 0)) [
        | inr (inr e) ↦ rw (e, table_clear) tt
        | inr (inl (i, e)) ↦ rw (e, table_clear) (whole writing i)
        | inl e ↦ rw (e, table_clear) (whole writing t.lock_count)
      ]

  pub table_memory_usage-Ordered :
      (t : Option (Table V)) (sizer : Option (V → ℕ)) → Ordered (table_memory_usage env t sizer)
  unfolding table_memory_usage lock_run
  table_memory_usage-Ordered none sizer = refl
  table_memory_usage-Ordered (some t) none = refl
  table_memory_usage-Ordered (some t) (some sizer) =
      elim (Locking-cases (lock_each env t.lock_count t.buckets_count 0)) [
        | inr (inr e) ↦ rw (e, table_memory_usage) tt
        | inr (inl (i, e)) ↦ rw (e, table_memory_usage) (whole reading i)
        | inl e ↦ rw (e, table_memory_usage) (whole reading t.buckets_count)
      ]

  -- What is done with all locks held neither takes nor releases one.
  abbrev Quiet : Outcome (Option (Table V) × List Event) → Type 0
  Quiet fault = Unit
  Quiet (done (o, es)) = Other es

  resize_locked-Quiet : (t : Table V) (n : ℕ) → Quiet (resize_locked env t n)
  unfolding resize_locked lock_run
  resize_locked-Quiet t n = elim (Bool-cases (ltb n t.elem_count)) [
    | inl less ↦ rw less (λ held fs. refl)
    | inr enough ↦ elim (Bool-cases (calloc env n sizeof_bucket)) [
      | inr no_memory ↦ rw (enough, no_memory) (λ held fs. refl)
      | inl memory ↦
          rw (enough, memory) (by_placing (rehash_all n t.buckets (replicate n empty_bucket)))
    ]
  ]
    where
      by_placing :
          (p : Placing V)
          → Quiet (elim p [
            | crashed ↦ fault
            | no_room ↦ done (none, allocated buckets_block ∷ freed buckets_block ∷ [])
            | placed bs ↦ done (
              some (record t { buckets = bs; buckets_count = n }),
              allocated buckets_block ∷ freed buckets_block ∷ [],
            )
          ])
      by_placing crashed = tt
      by_placing no_room = λ held fs. refl
      by_placing (placed bs) = λ held fs. refl

  resize_reply-Ordered :
      (t : Table V) (o : Outcome (Option (Table V) × List Event))
      → Quiet o
      → Ordered (resize_reply t o)
  unfolding resize_reply
  resize_reply-Ordered t fault quiet = tt
  resize_reply-Ordered t (done (none, es)) quiet = all-IsOrderly writing t.lock_count es quiet
  resize_reply-Ordered t (done (some after, es)) quiet = all-IsOrderly writing t.lock_count es quiet

  pub table_resize-Ordered : (t : Option (Table V)) (n : ℕ) → Ordered (table_resize env t n)
  unfolding table_resize resize_to lock_run
  table_resize-Ordered none n = refl
  table_resize-Ordered (some t) n = elim (Bool-cases (n == 0)) [
    | inl nothing ↦ rw nothing refl
    | inr something ↦ elim (Bool-cases (adjust_capacity n == t.buckets_count)) [
      | inl same ↦ rw (something, same) refl
      | inr other ↦ elim (Locking-cases (lock_each env t.lock_count t.lock_count 0)) [
        | inr (inr e) ↦ rw (something, other, e, resize_to) tt
        | inr (inl (i, e)) ↦ rw (something, other, e, resize_to) (whole writing i)
        | inl e ↦
            rw (something, other, e, resize_to)
              (resize_reply-Ordered t _ (resize_locked-Quiet t (adjust_capacity n)))
      ]
    ]
  ]

  add_occupied-InTurn :
      (lock_count : ℕ) (b : Bucket V) (i : ℕ) (o : Outcome (ℕ × List Event))
      → InTurn o
      → InTurn (add_occupied env lock_count b i o)
  unfolding add_occupied
  add_occupied-InTurn lock_count b i fault done_so = tt
  add_occupied-InTurn lock_count b i (done (n, es)) done_so = elim (Bool-cases (ltb i lock_count)) [
    | inr past ↦ rw past tt
    | inl inside ↦ elim (Bool-cases (env.lock i)) [
      | inr not_given ↦ rw (inside, not_given) done_so
      | inl given ↦ rw (inside, given) (one-IsOrderly reading i es ∙ done_so)
    ]
  ]

  count_occupied-InTurn :
      (lock_count : ℕ) (bs : List (Bucket V)) (i : ℕ) → InTurn (count_occupied env lock_count bs i)
  unfolding count_occupied lock_run
  count_occupied-InTurn lock_count [] i = refl
  count_occupied-InTurn lock_count (b ∷ bs) i =
      add_occupied-InTurn lock_count b i _ (count_occupied-InTurn lock_count bs (i + 1))

  counted-Ordered :
      {Double : Type 0} (result : ℕ → Double) (t : Table V) (o : Outcome (ℕ × List Event))
      → InTurn o
      → Ordered {V = V} (elim o [
        | fault ↦ fault
        | done (n, e) ↦
            done (record { result = result n; table = some t; destroyed = []; events = e })
      ])
  counted-Ordered result t fault done_so = tt
  counted-Ordered result t (done (n, e)) done_so = done_so

  pub table_occupied_bucket_counter-Ordered :
      {Double : Type 0} (zero_double : Double) (divide : ℕ → ℕ → Double) (t : Option (Table V))
      → Ordered (table_occupied_bucket_counter zero_double divide env t)
  unfolding table_occupied_bucket_counter lock_run
  table_occupied_bucket_counter-Ordered zero_double divide none = refl
  table_occupied_bucket_counter-Ordered zero_double divide (some t) =
      elim (Bool-cases (t.buckets_count == 0)) [
        | inl nothing ↦ rw nothing refl
        | inr several ↦ rw several (
            counted-Ordered (λ n. divide n t.buckets_count) t _
              (count_occupied-InTurn t.lock_count t.buckets 0))
      ]
