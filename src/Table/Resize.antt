-- ===== src/Table/Resize.antt =====
-- `table_resize`: every slot in use moves to the bucket of its hash in a new array. The locks stay as
-- they are.
use simple_c_database.Prelude.{
  ℕ, ◌%◌, true, Option, none, some, List, [], ◌∷◌, ◌++◌, get_or, set, replicate, ℤ, pos, neg, ltb,
  ◌==◌, if◌then◌else◌,
}
use simple_c_database.Table.Data.{
  Slot, Bucket, Table, empty_bucket, sizeof_bucket, Env, calloc, Event, wrlocked, unlocked, Outcome,
  fault, done, Reply, unchanged, events_of, held, refused, outside, lock_each, allocated, freed,
  buckets_block,
}
use simple_c_database.Table.Life.{adjust_capacity}

-- The new array while it is filled: a bucket was full, or the capacity was 0 at the remainder.
pub data Placing {ℓ} (V : Type ℓ) : Type ℓ where
  crashed no_room : Placing V
  placed : List (Bucket V) → Placing V

module _ {ℓ} {V : Type ℓ} where
  -- The loop over `k`: the first free slot takes the entry.
  unfoldable pub place_slot : Slot V → Bucket V → Option (Bucket V)
  place_slot s [] = none
  place_slot s (d ∷ b) =
      let rest = place_slot s b in
      if d.in_use
      then elim rest [ none ↦ none | some b' ↦ some (d ∷ b') ]
      else some (record { in_use = true; hash = s.hash; key = s.key; value = s.value } ∷ b)

  unfoldable pub place_in : ℕ → Slot V → List (Bucket V) → Placing V
  place_in n s new_buckets =
      if s.in_use
      then (if n == 0 then crashed else elim (place_slot s (get_or new_buckets (s.hash % n) [])) [
        | none ↦ no_room
        | some b ↦ placed (set new_buckets (s.hash % n) b)
      ])
      else placed new_buckets

  -- The loops go on with the array, and leave at the first slot that they cannot move.
  abbrev pub then_placed : Placing V → (List (Bucket V) → Placing V) → Placing V
  then_placed crashed rest = crashed
  then_placed no_room rest = no_room
  then_placed (placed bs) rest = rest bs

  unfoldable pub rehash_bucket : ℕ → Bucket V → List (Bucket V) → Placing V
  rehash_bucket n [] new_buckets = placed new_buckets
  rehash_bucket n (s ∷ b) new_buckets = then_placed (place_in n s new_buckets) (rehash_bucket n b)

  unfoldable pub rehash_all : ℕ → List (Bucket V) → List (Bucket V) → Placing V
  rehash_all n [] new_buckets = placed new_buckets
  rehash_all n (b ∷ bs) new_buckets = then_placed (rehash_bucket n b new_buckets) (rehash_all n bs)

  -- What happens with all locks held: -1 and no change, or the new array in place of the old one.
  unfoldable pub resize_locked : Env → Table V → ℕ → Outcome (Option (Table V) × List Event)
  resize_locked env t n =
      if ltb n t.elem_count
      then done (none, [])
      else if calloc env n sizeof_bucket
      then elim (rehash_all n t.buckets (replicate n empty_bucket)) [
        | crashed ↦ fault
        | no_room ↦ done (none, allocated buckets_block ∷ freed buckets_block ∷ [])
        | placed bs ↦ done (
          some (record t { buckets = bs; buckets_count = n }),
          allocated buckets_block ∷ freed buckets_block ∷ [],
        )
      ]
      else done (none, [])

  -- The reply around it.
  unfoldable pub resize_reply :
      Table V → Outcome (Option (Table V) × List Event) → Outcome (Reply V ℤ)
  resize_reply t fault = fault
  resize_reply t (done (none, e)) = done (record {
    result = neg 1;
    table = some t;
    destroyed = [];
    events = events_of wrlocked t.lock_count 0 ++ e ++ events_of unlocked t.lock_count 0;
  })
  resize_reply t (done (some t', e)) = done (record {
    result = pos 0;
    table = some t';
    destroyed = [];
    events = events_of wrlocked t.lock_count 0 ++ e ++ events_of unlocked t.lock_count 0;
  })

  unfoldable pub resize_to : Env → Table V → ℕ → Outcome (Reply V ℤ)
  resize_to env t n =
      if n == t.buckets_count
      then done (unchanged (pos 0) (some t))
      else elim (lock_each env t.lock_count t.lock_count 0) [
        | outside ↦ fault
        | refused i ↦ done (record {
          result = neg 1;
          table = some t;
          destroyed = [];
          events = events_of wrlocked i 0 ++ events_of unlocked i 0;
        })
        | held ↦ resize_reply t (resize_locked env t n)
      ]

  unfoldable pub table_resize : Env → Option (Table V) → ℕ → Outcome (Reply V ℤ)
  table_resize env none new_capacity = done (unchanged (neg 1) none)
  table_resize env (some t) new_capacity =
      if new_capacity == 0
      then done (unchanged (neg 1) (some t))
      else resize_to env t (adjust_capacity new_capacity)
