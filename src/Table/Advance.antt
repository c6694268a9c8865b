-- ===== src/Table/Advance.antt =====
-- Each call on a valid table does what it says of a map.
use simple_c_database.Prelude.{
  ℕ, ◌≤◌, ◌<◌, ◌≡◌, inl, inr, refl, ap, ◌∙◌, arith, ◌^◌, Bool, false, Option, none, some, List, [],
  ◌∷◌, length, length-append, ℤ, pos, neg, Bool-cases,
}
use simple_c_database.Strings.{Bytes, c_str}
use simple_c_database.Table.Calls.{
  Call, set_call, add_call, replace_call, delete_call, exist_call, get_call, clear_call,
  resize_call, Answer, status, found, copied, Said, said, saying, run_call, view, Step,
}
use simple_c_database.Table.Change.{table_delete_lem, table_replace_lem}
use simple_c_database.Table.Cleared.{table_clear_lem}
use simple_c_database.Table.Data.{Bucket, Table, Env, Outcome, done, Reply, unchanged}
use simple_c_database.Table.Life.{adjust_capacity, used_values, all_values}
use simple_c_database.Table.Outcomes.{Wrote, Kept}
use simple_c_database.Table.Read.{table_get_lem, table_exist_lem}
use simple_c_database.Table.Refused.{lock_refused}
use simple_c_database.Table.Resized.{table_resize_lem}
use simple_c_database.Table.Set.{table_set_lem, table_add_lem}
use simple_c_database.Table.Slots.{tally}
use simple_c_database.Table.Valid.{IsValid, IsLocked, used, total, contents, home}

module _ {ℓ} {V : Type ℓ} where
  -- A call does what it says of the entries, and leaves a valid table with its locks.
  pub record Advanced (copy : V → ℕ → V) (env : Env) (t : Table V) (c : Call V) : Type ℓ where
    pub after : Table V
    pub says : Said V
    pub run : run_call copy env (some t) c ≡ done (some after, says)
    pub step : Step copy env (view t) c says (view after)
    pub valid : IsValid after
    pub locked : IsLocked after
    pub locks : after.lock_count ≡ t.lock_count

  said-done {κ} :
      {R : Type κ} (answer : R → Answer V) (o : Outcome (Reply V R)) (r : Reply V R) (x : R)
      (after : Table V) (ds : List (Option V))
      → o ≡ done r
      → r.result ≡ x
      → r.table ≡ some after
      → r.destroyed ≡ ds
      → said answer o ≡ done (some after, record { answer = answer x; destroyed = ds })
  said-done answer o r x after ds run result table ds_are = rw (run, result, table, ds_are) refl

  module _ (copy : V → ℕ → V) (env : Env) {t : Table V} (v : IsValid t) (l : IsLocked t) where
    -- A call that left the table.
    left :
        {c : Call V} (s : Said V)
        → run_call copy env (some t) c ≡ done (some t, s)
        → Step copy env (view t) c s (view t)
        → Advanced copy env t c
    left s run step = record {
      after = t;
      says = s;
      run = run;
      step = step;
      valid = v;
      locked = l;
      locks = refl;
    }

    same_table : {n : ℤ} → Kept t n (unchanged n (some t))
    same_table = (refl, refl, refl)

    same : ((q : Bytes) → contents t q ≡ contents t q) × (t.elem_count ≡ t.elem_count)
    same = (λ q. refl, refl)

    -- A call whose reply is a status, and that kept the table or wrote an entry.
    module _ {c : Call V} {o : Outcome (Reply V ℤ)} {r : Reply V ℤ}
        (calls : run_call copy env (some t) c ≡ said status o) (run : o ≡ done r) where
      kept :
          (n : ℤ)
          → Kept t n r
          → Step copy env (view t) c (saying (status n)) (view t)
          → Advanced copy env t c
      kept n (result, table, none_destroyed) step =
          left (saying (status n))
            (calls ∙ said-done status o r n t [] run result table none_destroyed) step

      wrote :
          {k : Bytes} {answer : Option (Option V)} {ds : List (Option V)}
          (w : Wrote t k answer ds r)
          → Step copy env
              (view t)
              c
              (record { answer = status (pos 0); destroyed = ds })
              (view w.after)
          → Advanced copy env t c
      wrote {ds = ds} w step = record {
        after = w.after;
        says = record { answer = status (pos 0); destroyed = ds };
        run = calls ∙ said-done status o r (pos 0) w.after ds run w.result w.table w.destroys;
        step = step;
        valid = w.updates.valid;
        locked = omega (arith, w.updates.shape.0, w.updates.shape.1, l);
        locks = w.updates.shape.1;
      }

    module _ (k : Bytes) (short : length (c_str k) < 255) where
      pub set-Advanced : (value : Option V) (d : Bool) → Advanced copy env t (set_call k value d)
      unfolding run_call
      set-Advanced value d = elim (Bool-cases (env.lock (home v k))) [
        | inr no_lock ↦
            kept refl (lock_refused v l k short env no_lock value d copy (λ _. 0)).0 (neg 1)
              same_table (inr (inr (refl, (home v k, no_lock), same)))
        | inl given ↦
            let (r, run, outcome) = table_set_lem v k value short l env d given in
            elim outcome [
              | inl w ↦ wrote refl run w (inl (refl, (w.updates.reads, w.updates.counts)))
              | inr (absent, _, as_it_was) ↦
                  kept refl run (neg 2) as_it_was (inr (inl (refl, absent, same)))
            ]
      ]

      pub add-Advanced : (value : Option V) → Advanced copy env t (add_call k value)
      unfolding run_call
      add-Advanced value = elim (Bool-cases (env.lock (home v k))) [
        | inr no_lock ↦
            kept refl (lock_refused v l k short env no_lock value false copy (λ _. 0)).1 (neg 1)
              same_table (inr (inr (inr (refl, (home v k, no_lock), same))))
        | inl given ↦
            let (r, run, outcome) = table_add_lem v k value short l env given in
            elim outcome [
              | inl (absent, w) ↦
                  wrote refl run w (inl (refl, absent, (w.updates.reads, w.updates.counts)))
              | inr (inl (there, as_it_was)) ↦
                  kept refl run (neg 3) as_it_was (inr (inl (refl, there, same)))
              | inr (inr (absent, _, as_it_was)) ↦
                  kept refl run (neg 2) as_it_was (inr (inr (inl (refl, absent, same))))
            ]
      ]

      pub replace-Advanced :
          (value : Option V) (d : Bool) → Advanced copy env t (replace_call k value d)
      unfolding run_call
      replace-Advanced value d = elim (Bool-cases (env.lock (home v k))) [
        | inr no_lock ↦
            kept refl (lock_refused v l k short env no_lock value d copy (λ _. 0)).2 (neg 1)
              same_table (inr (inr (refl, (home v k, no_lock), same)))
        | inl given ↦
            let (r, run, outcome) = table_replace_lem v k l env value d given in
            elim outcome [
              | inl (there, w) ↦
                  wrote refl run w (inl (refl, there, (w.updates.reads, w.updates.counts)))
              | inr (absent, as_it_was) ↦
                  kept refl run (neg 2) as_it_was (inr (inl (refl, absent, same)))
            ]
      ]

      pub delete-Advanced : (d : Bool) → Advanced copy env t (delete_call k d)
      unfolding run_call
      delete-Advanced d = elim (Bool-cases (env.lock (home v k))) [
        | inr no_lock ↦
            kept refl (lock_refused v l k short env no_lock none d copy (λ _. 0)).3 (neg 2)
              same_table (inr (inr (refl, (home v k, no_lock), same)))
        | inl given ↦
            let (r, run, outcome) = table_delete_lem v k l env d given in
            elim outcome [
              | inl (there, w) ↦
                  wrote refl run w (inl (refl, there, (w.updates.reads, w.updates.counts)))
              | inr (absent, as_it_was) ↦
                  kept refl run (neg 1) as_it_was (inr (inl (refl, absent, same)))
            ]
      ]

      pub exist-Advanced : Advanced copy env t (exist_call k)
      unfolding run_call
      exist-Advanced = elim (Bool-cases (env.lock (home v k))) [
        | inr no_lock ↦
            left _
              (ap (said found) (lock_refused v l k short env no_lock none false copy (λ _. 0)).4)
              (inr (refl, (home v k, no_lock), same))
        | inl given ↦ left _ (ap (said found) (table_exist_lem v k l env given)) (inl (refl, same))
      ]

      pub get-Advanced : (sizer : V → ℕ) → Advanced copy env t (get_call k sizer)
      unfolding run_call
      get-Advanced sizer = elim (Bool-cases (env.lock (home v k))) [
        | inr no_lock ↦
            left _ (ap (said copied) (lock_refused v l k short env no_lock none false copy sizer).5)
              (inr (refl, (home v k, no_lock), same))
        | inl given ↦
            left _ (ap (said copied) (table_get_lem v k l env given copy sizer)) (inl (refl, same))
      ]

    length-used_values : (b : Bucket V) → length (used_values b) ≡ tally used b
    unfolding used_values tally
    length-used_values [] = refl
    length-used_values (s ∷ b) = ground (arith, length-used_values b)

    length-all_values : (bs : List (Bucket V)) → length (all_values bs) ≡ total used bs
    unfolding all_values total
    length-all_values [] = refl
    length-all_values (b ∷ bs) = omega (
      arith,
      length-append (used_values b) (all_values bs),
      length-used_values b,
      length-all_values bs,
    )

    pub clear-Advanced : (d : Bool) → Advanced copy env t (clear_call d)
    unfolding run_call
    clear-Advanced d = elim (table_clear_lem v env d) [
      | inl (after, cleared, run) ↦ record {
        after = after;
        says = _;
        run = ap (said status) run;
        step = inl (
          refl,
          ground (arith, length-all_values t.buckets, v.counted),
          cleared.no_entries.1,
          cleared.no_entries.0,
        );
        valid = cleared.valid;
        locked = omega (arith, cleared.shape.0, cleared.shape.1, l);
        locks = cleared.shape.1;
      }
      | inr (i, _, no_lock, run) ↦ left _ (ap (said status) run) (inr (refl, (i, no_lock), same))
    ]

    pub resize-Advanced :
        (n : ℕ)
        → 0 < n
        → n ≤ 2 ^ 63
        → adjust_capacity n ≤ t.lock_count
        → Advanced copy env t (resize_call n)
    unfolding run_call
    resize-Advanced n h small inside =
        let (r, run, outcome) = table_resize_lem v env n h small in
        elim outcome [
          | inl z ↦ record {
            after = z.after;
            says = saying (status (pos 0));
            run = said-done status _ r (pos 0) z.after [] run z.result z.table z.destroys;
            step = (inl refl, (z.reads, z.same_elems));
            valid = z.valid;
            locked = omega (arith, z.size, z.same_locks, inside);
            locks = z.same_locks;
          }
          | inr (_, as_it_was) ↦ kept refl run (neg 1) as_it_was (inr refl, same)
        ]
