-- ===== src/Table/Destroyed.antt =====
-- What `table_create` acquires and what `table_destroy` gives back.
use simple_c_database.Prelude.{
  ◌*◌, ◌%◌, ◌^◌, ℕ, zero, suc, ◌+◌, ◌≡◌, inl, inr, refl, arith, Bool, none, some, List, [], ◌∷◌,
  ◌++◌, pos, Option-cases, Bool-cases, ◌==◌,
}
use simple_c_database.Table.Data.{
  Table, Env, calloc, sizeof_table, sizeof_bucket, Block, table_block, buckets_block, locks_block,
  Event, allocated, freed, initialised, destroyed_lock, events_of,
}
use simple_c_database.Table.Life.{
  adjust_capacity, init_each, create_arrays, table_create, destroy_each, table_destroy,
}

-- The sum of a weight over events.
abbrev pub sum_of : (Event → ℕ) → List Event → ℕ
sum_of w [] = 0
sum_of w (e ∷ es) = w e + sum_of w es

sum_of-append :
    (w : Event → ℕ) (es fs : List Event) → sum_of w (es ++ fs) ≡ sum_of w es + sum_of w fs
sum_of-append w [] fs = omega arith
sum_of-append w (e ∷ es) fs = omega (arith, sum_of-append w es fs)

sum_of-same :
    (w u : Event → ℕ) (f g : ℕ → Event) (n i : ℕ)
    → ((j : ℕ) → w (f j) ≡ u (g j))
    → sum_of w (events_of f n i) ≡ sum_of u (events_of g n i)
sum_of-same w u f g zero i h = refl
sum_of-same w u f g (suc n) i h = omega (arith, h i, sum_of-same w u f g n (i + 1) h)

sum_of-zero :
    (w : Event → ℕ) (f : ℕ → Event) (n i : ℕ)
    → ((j : ℕ) → w (f j) ≡ 0)
    → sum_of w (events_of f n i) ≡ 0
sum_of-zero w f zero i h = refl
sum_of-zero w f (suc n) i h = omega (arith, h i, sum_of-zero w f n (i + 1) h)

abbrev created : ℕ → List Event
created n =
    allocated table_block
    ∷ allocated buckets_block
    ∷ allocated locks_block
    ∷ events_of initialised n 0

module _ (block_weight : Block → ℕ) (lock_weight : ℕ → ℕ) where
  -- The weight of what an event acquires, and of what it gives back.
  abbrev pub acquired : Event → ℕ
  acquired (allocated b) = block_weight b
  acquired (initialised i) = lock_weight i
  acquired e = 0

  abbrev pub released : Event → ℕ
  released (freed b) = block_weight b
  released (destroyed_lock i) = lock_weight i
  released e = 0

  -- As much is given back as is acquired.
  abbrev pub IsBalanced : List Event → Type 0
  IsBalanced es = sum_of acquired es ≡ sum_of released es

  module _ (n : ℕ) where
    abbrev locks_made :
        sum_of acquired (events_of initialised n 0) ≡ sum_of released (events_of destroyed_lock n 0)
    locks_made = sum_of-same acquired released initialised destroyed_lock n 0 (λ j. refl)

    abbrev made_frees_nothing : sum_of released (events_of initialised n 0) ≡ 0
    made_frees_nothing = sum_of-zero released initialised n 0 (λ j. refl)

    abbrev destroying_makes_nothing : sum_of acquired (events_of destroyed_lock n 0) ≡ 0
    destroying_makes_nothing = sum_of-zero acquired destroyed_lock n 0 (λ j. refl)

  -- Locks made and destroyed, between other events.
  made_and_destroyed :
      (w : Event → ℕ) (n : ℕ) (es : List Event)
      → sum_of w (events_of initialised n 0 ++ events_of destroyed_lock n 0 ++ es)
        ≡ sum_of w (events_of initialised n 0)
          + sum_of w (events_of destroyed_lock n 0)
          + sum_of w es
  made_and_destroyed w n es = omega (
    arith,
    sum_of-append w (events_of initialised n 0) (events_of destroyed_lock n 0),
    sum_of-append w (events_of initialised n 0 ++ events_of destroyed_lock n 0) es,
  )

  module _ {ℓ} (V : Type ℓ) (env : Env) where
    create_arrays-IsBalanced :
        (n : ℕ)
        → (create_arrays {V = V} env n).table ≡ none
        → IsBalanced (create_arrays {V = V} env n).events
    unfolding create_arrays
    create_arrays-IsBalanced n failed = elim (Bool-cases (calloc env n sizeof_bucket)) [
      | inr no_buckets ↦ rw no_buckets (omega arith)
      | inl buckets ↦ elim (Bool-cases (env.malloc (n * env.sizeof_lock % 2 ^ 64))) [
        | inr no_locks ↦ rw (buckets, no_locks) (omega arith)
        | inl locks ↦ elim (Option-cases (init_each env.init_lock n 0)) [
          | inl all_made ↦ absurd (ground arith)
          | inr (i, e) ↦
              let tail = freed locks_block ∷ freed buckets_block ∷ freed table_block ∷ [] in
              rw (buckets, locks, e, create_arrays)
                (omega (
                  arith,
                  made_and_destroyed acquired i tail,
                  made_and_destroyed released i tail,
                  locks_made i,
                  made_frees_nothing i,
                  destroying_makes_nothing i,
                ))
        ]
      ]
    ]

    -- Where `table_create` returns NULL, it has given back the blocks and the locks that it acquired: for
    -- any weights of blocks and locks, what was acquired and what was given back weigh the same.
    pub table_create-IsBalanced :
        (n : ℕ)
        → (table_create {V = V} env n).table ≡ none
        → IsBalanced (table_create {V = V} env n).events
    unfolding table_create
    table_create-IsBalanced n failed = elim (Bool-cases (n == 0)) [
      | inl none_asked ↦ rw none_asked refl
      | inr several ↦ elim (Bool-cases (env.malloc sizeof_table)) [
        | inr no_table ↦ rw (several, no_table) refl
        | inl memory ↦
            rw (several, memory)
              (create_arrays-IsBalanced (adjust_capacity n) (ground (arith, failed)))
      ]
    ]

    -- The events of a creation that succeeded.
    create_arrays-created :
        (n : ℕ) (t : Table V)
        → (create_arrays {V = V} env n).table ≡ some t
        → (create_arrays {V = V} env n).events ≡ created t.lock_count
    unfolding create_arrays
    create_arrays-created n t made = elim (Bool-cases (calloc env n sizeof_bucket)) [
      | inr no_buckets ↦ absurd (ground arith)
      | inl buckets ↦ elim (Bool-cases (env.malloc (n * env.sizeof_lock % 2 ^ 64))) [
        | inr no_locks ↦ absurd (ground arith)
        | inl locks ↦ elim (Option-cases (init_each env.init_lock n 0)) [
          | inr (i, e) ↦ absurd (ground arith)
          | inl e ↦
              let size : t.lock_count ≡ n = ground arith in
              rw (size, buckets, locks, e, create_arrays) refl
        ]
      ]
    ]

    table_create-created :
        (n : ℕ) (t : Table V)
        → (table_create {V = V} env n).table ≡ some t
        → (table_create {V = V} env n).events ≡ created t.lock_count
    unfolding table_create
    table_create-created n t made = elim (Bool-cases (n == 0)) [
      | inl none_asked ↦ absurd (ground arith)
      | inr several ↦ elim (Bool-cases (env.malloc sizeof_table)) [
        | inr no_table ↦ absurd (ground arith)
        | inl memory ↦
            rw (several, memory)
              (create_arrays-created (adjust_capacity n) t (ground (arith, made)))
      ]
    ]

    table_destroy-events :
        (t : Table V) (destroyer : Bool)
        → (table_destroy env (some t) destroyer).result ≡ pos 0
        → (table_destroy env (some t) destroyer).events
          ≡ events_of destroyed_lock t.lock_count 0
            ++ (freed locks_block ∷ freed buckets_block ∷ freed table_block ∷ [])
    unfolding table_destroy
    table_destroy-events t destroyer done =
        elim (Option-cases (destroy_each env.destroy_lock t.lock_count 0)) [
          | inl e ↦ rw (e, table_destroy) refl
          | inr (i, e) ↦ absurd (ground arith)
        ]

    -- As in `table_destroy-IsBalanced`, where calls in between left another table with as many locks.
    pub used_and_destroyed :
        (n : ℕ) (t t' : Table V) (destroyer : Bool)
        → (table_create {V = V} env n).table ≡ some t
        → t'.lock_count ≡ t.lock_count
        → (table_destroy env (some t') destroyer).result ≡ pos 0
        → IsBalanced
            ((table_create {V = V} env n).events ++ (table_destroy env (some t') destroyer).events)
    used_and_destroyed n t t' destroyer made as_many done =
        let tail = freed locks_block ∷ freed buckets_block ∷ freed table_block ∷ [] in
        let gone = events_of destroyed_lock t.lock_count 0 in
        rw (table_create-created n t made, table_destroy-events t' destroyer done, as_many)
          (omega (
            arith,
            sum_of-append acquired (created t.lock_count) (gone ++ tail),
            sum_of-append released (created t.lock_count) (gone ++ tail),
            sum_of-append acquired gone tail,
            sum_of-append released gone tail,
            locks_made t.lock_count,
            made_frees_nothing t.lock_count,
            destroying_makes_nothing t.lock_count,
          ))

    -- A table that `table_create` returned and that `table_destroy` then destroyed with result 0 has
    -- given back the blocks and the locks that it acquired: for any weights of blocks and locks, what
    -- was acquired and what was given back weigh the same.
    pub table_destroy-IsBalanced :
        (n : ℕ) (t : Table V) (destroyer : Bool)
        → (table_create {V = V} env n).table ≡ some t
        → (table_destroy env (some t) destroyer).result ≡ pos 0
        → IsBalanced
            ((table_create {V = V} env n).events ++ (table_destroy env (some t) destroyer).events)
    table_destroy-IsBalanced n t destroyer made done =
        used_and_destroyed n t t destroyer made refl done
