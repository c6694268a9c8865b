-- ===== src/Table/Safe.antt =====
-- Every operation on a valid table with its locks, whatever the locks and the allocations do.
use simple_c_database.Prelude.{
  ℕ, ◌+◌, ◌^◌, ◌≤◌, ◌<◌, ◌≡◌, ◌++◌, ◌-◌, ◌==◌, inl, inr, refl, arith, Bool, true, Option, none,
  some, List, [], ◌∷◌, length, ℤ, Bool-cases, ltb, one,
}
use simple_c_database.Strings.{Bytes, c_str}
use simple_c_database.Table.Change.{table_delete_lem, table_replace_lem}
use simple_c_database.Table.Cleared.{table_clear_lem}
use simple_c_database.Table.Created.{lock_each-inside}
use simple_c_database.Table.Data.{
  Bucket, Table, Env, Event, events_of, rdlocked, unlocked, unchanged, Outcome, done, Reply,
}
use simple_c_database.Table.Keys.{
  table_set, table_add, table_delete, table_replace, table_exist, table_get,
}
use simple_c_database.Table.Life.{table_clear}
use simple_c_database.Table.Monitor.{
  add_sizes, fixed_size, table_memory_usage, count_occupied, add_occupied, occupied,
  table_occupied_bucket_counter,
}
use simple_c_database.Table.Outcomes.{Wrote, Kept}
use simple_c_database.Table.Read.{table_get_lem, table_exist_lem}
use simple_c_database.Table.Refused.{lock_refused}
use simple_c_database.Table.Resize.{table_resize}
use simple_c_database.Table.Resized.{table_resize_lem}
use simple_c_database.Table.Set.{table_set_lem, table_add_lem}
use simple_c_database.Table.Valid.{IsValid, IsLocked, home}

-- The call returns, with a valid table that has the locks of `t`.
pub record Ends {ℓ κ} {V : Type ℓ} {R : Type κ} (t : Table V) (o : Outcome (Reply V R))
    : Type (ℓ ⊔ κ) where
  pub reply : Reply V R
  pub run : o ≡ done reply
  pub after : Table V
  pub table : reply.table ≡ some after
  pub valid : IsValid after
  pub same_locks : after.lock_count ≡ t.lock_count

module _ {ℓ κ} {V : Type ℓ} {R : Type κ} {t : Table V} (v : IsValid t) where
  -- A call that hands the table back.
  unchanged-Ends :
      (o : Outcome (Reply V R)) (r : Reply V R) → o ≡ done r → r.table ≡ some t → Ends t o
  unchanged-Ends o r run e = record {
    reply = r;
    run = run;
    after = t;
    table = e;
    valid = v;
    same_locks = refl;
  }

module _ {ℓ} {V : Type ℓ} {t : Table V} (v : IsValid t) where
  Wrote-Ends :
      (o : Outcome (Reply V ℤ)) (r : Reply V ℤ) (k : Bytes) (answer : Option (Option V))
      (d : List (Option V))
      → o ≡ done r
      → Wrote t k answer d r
      → Ends t o
  Wrote-Ends o r k answer d run w = record {
    reply = r;
    run = run;
    after = w.after;
    table = w.table;
    valid = w.updates.valid;
    same_locks = w.updates.shape.1;
  }

  Kept-Ends :
      (o : Outcome (Reply V ℤ)) (r : Reply V ℤ) (status : ℤ)
      → o ≡ done r
      → Kept t status r
      → Ends t o
  Kept-Ends o r status run kept = unchanged-Ends v o r run kept.1

  module _ (l : IsLocked t) (k : Bytes) (short : length (c_str k) < 255) (env : Env) where
    pub table_set-Ends :
        (value : Option V) (d : Bool) → Ends t (table_set env (some t) (some k) value d)
    table_set-Ends value d = elim (Bool-cases (env.lock (home v k))) [
      | inl given ↦
          let (r, run, outcome) = table_set_lem v k value short l env d given in
          elim outcome [
            | inl w ↦ Wrote-Ends _ r k _ _ run w
            | inr (_, _, kept) ↦ Kept-Ends _ r _ run kept
          ]
      | inr no_lock ↦
          unchanged-Ends v _ _ (lock_refused v l k short env no_lock value d (λ x n. x) (λ x. 0)).0
            refl
    ]

    pub table_add-Ends : (value : Option V) → Ends t (table_add env (some t) (some k) value)
    table_add-Ends value = elim (Bool-cases (env.lock (home v k))) [
      | inl given ↦
          let (r, run, outcome) = table_add_lem v k value short l env given in
          elim outcome [
            | inl (_, w) ↦ Wrote-Ends _ r k _ _ run w
            | inr (inl (_, kept)) ↦ Kept-Ends _ r _ run kept
            | inr (inr (_, _, kept)) ↦ Kept-Ends _ r _ run kept
          ]
      | inr no_lock ↦
          unchanged-Ends v _ _
            (lock_refused v l k short env no_lock value true (λ x n. x) (λ x. 0)).1 refl
    ]

    pub table_replace-Ends :
        (value : Option V) (d : Bool) → Ends t (table_replace env (some t) (some k) value d)
    table_replace-Ends value d = elim (Bool-cases (env.lock (home v k))) [
      | inl given ↦
          let (r, run, outcome) = table_replace_lem v k l env value d given in
          elim outcome [
            | inl (_, w) ↦ Wrote-Ends _ r k _ _ run w
            | inr (_, kept) ↦ Kept-Ends _ r _ run kept
          ]
      | inr no_lock ↦
          unchanged-Ends v _ _ (lock_refused v l k short env no_lock value d (λ x n. x) (λ x. 0)).2
            refl
    ]

    pub table_delete-Ends : (d : Bool) → Ends t (table_delete env (some t) (some k) d)
    table_delete-Ends d = elim (Bool-cases (env.lock (home v k))) [
      | inl given ↦
          let (r, run, outcome) = table_delete_lem v k l env d given in
          elim outcome [
            | inl (_, w) ↦ Wrote-Ends _ r k _ _ run w
            | inr (_, kept) ↦ Kept-Ends _ r _ run kept
          ]
      | inr no_lock ↦
          unchanged-Ends v _ _ (lock_refused v l k short env no_lock none d (λ x n. x) (λ x. 0)).3
            refl
    ]

    pub table_exist-Ends : Ends t (table_exist env (some t) (some k))
    table_exist-Ends = elim (Bool-cases (env.lock (home v k))) [
      | inl given ↦ unchanged-Ends v _ _ (table_exist_lem v k l env given) refl
      | inr no_lock ↦
          unchanged-Ends v _ _
            (lock_refused v l k short env no_lock none true (λ x n. x) (λ x. 0)).4 refl
    ]

    pub table_get-Ends :
        (copy : V → ℕ → V) (value_sizer : V → ℕ)
        → Ends t (table_get env copy (some t) (some k) (some value_sizer))
    table_get-Ends copy value_sizer = elim (Bool-cases (env.lock (home v k))) [
      | inl given ↦ unchanged-Ends v _ _ (table_get_lem v k l env given copy value_sizer) refl
      | inr no_lock ↦
          unchanged-Ends v _ _ (lock_refused v l k short env no_lock none true copy value_sizer).5
            refl
    ]

  pub table_resize-Ends :
      (env : Env) (capacity : ℕ)
      → 0 < capacity
      → capacity ≤ 2 ^ 63
      → Ends t (table_resize env (some t) capacity)
  table_resize-Ends env capacity h small =
      let (r, run, outcome) = table_resize_lem v env capacity h small in
      elim outcome [
        | inl d ↦ record {
          reply = r;
          run = run;
          after = d.after;
          table = d.table;
          valid = d.valid;
          same_locks = d.same_locks;
        }
        | inr (_, kept) ↦ Kept-Ends _ r _ run kept
      ]

  pub table_clear-Ends : (env : Env) (d : Bool) → Ends t (table_clear env (some t) d)
  table_clear-Ends env d = elim (table_clear_lem v env d) [
    | inl (after, c, run) ↦ record {
      reply = _;
      run = run;
      after = after;
      table = refl;
      valid = c.valid;
      same_locks = c.shape.1;
    }
    | inr (i, _, _, run) ↦ unchanged-Ends v _ _ run refl
  ]

  pub table_memory_usage-Ends :
      IsLocked t
      → (env : Env) (value_sizer : V → ℕ)
      → Ends t (table_memory_usage env (some t) (some value_sizer))
  unfolding table_memory_usage
  table_memory_usage-Ends l env value_sizer =
      elim (lock_each-inside env t.lock_count t.buckets_count 0 (omega (arith, l))) [
        | inl all_held ↦
            let r : Reply V ℕ = record {
              result = add_sizes value_sizer t.buckets (fixed_size env t);
              table = some t;
              destroyed = [];
              events = events_of rdlocked t.buckets_count 0 ++ events_of unlocked t.buckets_count 0;
            } in
            unchanged-Ends v _ r (rw (all_held, table_memory_usage) refl) refl
        | inr (i, e, _, _) ↦
            let r : Reply V ℕ = record {
              result = 2 ^ 64 - 1;
              table = some t;
              destroyed = [];
              events = events_of rdlocked i 0 ++ events_of unlocked i 0;
            } in
            unchanged-Ends v _ r (rw (e, table_memory_usage) refl) refl
      ]

  count_occupied-done :
      (env : Env) (bs : List (Bucket V)) (i : ℕ)
      → i + length bs ≤ t.lock_count
      → (r : ℕ × List Event) × (count_occupied env t.lock_count bs i ≡ done r)
  unfolding count_occupied add_occupied
  count_occupied-done env [] i h = (_, refl)
  count_occupied-done env (b ∷ bs) i h =
      let (r, run) = count_occupied-done env bs (i + 1) (omega arith) in
      let inside : ltb i t.lock_count ≡ true = ground arith in
      elim (Bool-cases (env.lock i)) [
        | inl given ↦
            ((one (occupied b) + r.0, rdlocked i ∷ unlocked i ∷ r.1), rw (run, inside, given) refl)
        | inr no_lock ↦ (r, rw (run, inside, no_lock) refl)
      ]

  pub table_occupied_bucket_counter-Ends :
      {Double : Type 0} (zero_double : Double) (divide : ℕ → ℕ → Double)
      → IsLocked t
      → (env : Env) → Ends t (table_occupied_bucket_counter zero_double divide env (some t))
  unfolding table_occupied_bucket_counter
  table_occupied_bucket_counter-Ends {Double} zero_double divide l env =
      let (r, run) = count_occupied-done env t.buckets 0 (omega (arith, v.width)) in
      elim (Bool-cases (t.buckets_count == 0)) [
        | inl none_there ↦
            unchanged-Ends v _ (unchanged zero_double (some t)) (rw none_there refl) refl
        | inr several ↦
            let reply : Reply V Double = record {
              result = divide r.0 t.buckets_count;
              table = some t;
              destroyed = [];
              events = r.1;
            } in
            unchanged-Ends v _ reply (rw (several, run, table_occupied_bucket_counter) refl) refl
      ]
