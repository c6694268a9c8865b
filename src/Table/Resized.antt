-- ===== src/Table/Resized.antt =====
-- `table_resize` on a valid table.
use simple_c_database.Prelude.{
  ℕ, suc, ◌+◌, ◌*◌, ◌^◌, ◌≤◌, ◌<◌, ◌≡◌, ◌⊎◌, inl, inr, refl, sym, ap, subst, ◌∙◌, arith, false,
  Option, none, some, List, [], ◌∷◌, ◌++◌, length, get_or, replicate, ℤ, pos, neg, All, ltb, ltb→lt,
  Bool-cases, ◌==◌,
}
use simple_c_database.Strings.{Bytes}
use simple_c_database.Table.Data.{Bucket, Table}
use simple_c_database.Table.Resize.{Placing, crashed, no_room, placed, rehash_all}
use simple_c_database.Table.Slots.{SlotOk}
use simple_c_database.Table.Valid.{
  IsValid, used, total, contents, lookup_all, count_total-le, IsValid_locks,
}
use simple_c_database.Table.Created.{adjust_capacity_least, lock_each-inside}
use simple_c_database.Table.Data.{
  Env, calloc, Event, allocated, freed, buckets_block, Outcome, fault, done, Reply, unchanged,
  events_of, wrlocked, unlocked, empty_bucket, sizeof_bucket,
}
use simple_c_database.Table.Empty.{empty_table, empty_table-IsValid, contents-empty}
use simple_c_database.Table.Life.{adjust_capacity}
use simple_c_database.Table.Moved.{KeyOk}
use simple_c_database.Table.Outcomes.{Kept}
use simple_c_database.Table.Rehash.{or_else, Rehashed, stuck, gained, rehash_all-Rehashed}
use simple_c_database.Table.Resize.{resize_locked, resize_reply, resize_to, table_resize}

module _ {ℓ κ} {A : Type ℓ} (P : A → Type κ) where
  get_or-All : (d : A) (xs : List A) → ((i : ℕ) → i < length xs → P (get_or xs i d)) → All P xs
  get_or-All d [] h = tt
  get_or-All d (x ∷ xs) h = (h 0 (omega arith), get_or-All d xs (λ i lt. h (suc i) (omega arith)))

module _ {ℓ} {V : Type ℓ} where
  SlotOk-KeyOk : (n i : ℕ) (b : Bucket V) → All (SlotOk n i) b → All KeyOk b
  SlotOk-KeyOk n i [] ok = tt
  SlotOk-KeyOk n i (s ∷ b) ok =
      ((ok.0.0, λ taken. ((ok.0.1 taken).0, (ok.0.1 taken).1)), SlotOk-KeyOk n i b ok.1)

module _ {ℓ} {V : Type ℓ} {t : Table V} (v : IsValid t) where
  buckets-KeyOk : All (All KeyOk) t.buckets
  buckets-KeyOk =
      get_or-All (All KeyOk) [] t.buckets
        (λ i lt. SlotOk-KeyOk t.buckets_count i _ (v.each i lt).each)

  -- The new array of a resize to `2 ^ k` buckets has all entries, unless some bucket is too small.
  rehash-Rehashed :
      (k : ℕ)
      → 2 ^ k * sizeof_bucket < 2 ^ 64
      → Rehashed
          (empty_table (2 ^ k) t.lock_count)
          (λ q. lookup_all q t.buckets)
          (total used t.buckets)
          (rehash_all (2 ^ k) t.buckets (replicate (2 ^ k) empty_bucket))
  rehash-Rehashed k fits =
      let fresh = empty_table-IsValid {V = V} (2 ^ k) t.lock_count k refl fits in
      rehash_all-Rehashed t.buckets fresh buckets-KeyOk
        (λ q. ground (arith, count_total-le v q, contents-empty fresh q refl))

  -- What a resize to `n` buckets that returned 0 leaves.
  pub record Resized (n : ℕ) (r : Reply V ℤ) : Type ℓ where
    pub result : r.result ≡ pos 0
    pub after : Table V
    pub table : r.table ≡ some after
    pub valid : IsValid after
    pub size : after.buckets_count ≡ n
    pub same_locks : after.lock_count ≡ t.lock_count
    pub same_elems : after.elem_count ≡ t.elem_count
    pub reads : (q : Bytes) → contents after q ≡ contents t q
    pub destroys : r.destroyed ≡ []

  -- Why a resize to `n` buckets may be refused.
  abbrev pub Refusal : Env → ℕ → Type ℓ
  Refusal env n =
      ((i : ℕ) × (i < t.lock_count) × (env.lock i ≡ false))
      ⊎ (n < t.elem_count)
      ⊎ (calloc env n sizeof_bucket ≡ false)
      ⊎ (rehash_all n t.buckets (replicate n empty_bucket) ≡ no_room)

  abbrev pub ResizeOutcome : Env → ℕ → Reply V ℤ → Type ℓ
  ResizeOutcome env n r = Resized n r ⊎ (Refusal env n × Kept t (neg 1) r)

  or_else-none : (o : Option (Option V)) → or_else o none ≡ o
  or_else-none none = refl
  or_else-none (some x) = refl

  -- What happens with the locks held.
  data Locked (env : Env) (n : ℕ) : Outcome (Option (Table V) × List Event) → Type ℓ where
    refusing : (e : List Event) → Refusal env n → Locked env n (done (none, e))
    resizing :
        (after : Table V) (e : List Event)
        → IsValid after
        → after.buckets_count ≡ n
        → after.lock_count ≡ t.lock_count
        → after.elem_count ≡ t.elem_count
        → ((q : Bytes) → contents after q ≡ contents t q)
        → Locked env n (done (some after, e))

  abbrev finish : ℕ → Placing V → Outcome (Option (Table V) × List Event)
  finish n crashed = fault
  finish n no_room = done (none, allocated buckets_block ∷ freed buckets_block ∷ [])
  finish n (placed bs) = done (
    some (record t { buckets = bs; buckets_count = n }),
    allocated buckets_block ∷ freed buckets_block ∷ [],
  )

  finish-Locked :
      (env : Env) (k : ℕ) (p : Placing V)
      → rehash_all (2 ^ k) t.buckets (replicate (2 ^ k) empty_bucket) ≡ p
      → ((q : Bytes) → contents {V = V} (empty_table (2 ^ k) t.lock_count) q ≡ none)
      → Rehashed
          (empty_table (2 ^ k) t.lock_count)
          (λ q. lookup_all q t.buckets)
          (total used t.buckets)
          p
      → Locked env (2 ^ k) (finish (2 ^ k) p)
  finish-Locked env k crashed e nothing r = elim r [ ]
  finish-Locked env k no_room e nothing stuck = refusing _ (inr (inr (inr e)))
  finish-Locked env k (placed bs) e nothing (gained g) =
      resizing _ _ (IsValid_locks g.after _ g.valid g.buckets g.same_count (g.elems ∙ counted)) refl
        refl refl
        (λ q.
          ap (λ (cs : List (Bucket V)). lookup_all q cs) (sym g.buckets)
          ∙ g.reads q
          ∙ ap (or_else (lookup_all q t.buckets)) (nothing q)
          ∙ or_else-none (lookup_all q t.buckets))
    where
      counted : 0 + total used t.buckets ≡ t.elem_count
      counted = omega (arith, v.counted)

  resize_locked-Locked : (env : Env) (k : ℕ) → Locked env (2 ^ k) (resize_locked env t (2 ^ k))
  unfolding resize_locked
  resize_locked-Locked env k = elim (Bool-cases (ltb (2 ^ k) t.elem_count)) [
    | inl few ↦
        let e : resize_locked env t (2 ^ k) ≡ done (none, []) = ground arith in
        subst (Locked env (2 ^ k)) (sym e) (refusing _ (inr (inl (ltb→lt _ _ few))))
    | inr enough ↦ elim (Bool-cases (calloc env (2 ^ k) sizeof_bucket)) [
      | inr no_memory ↦
          let e : resize_locked env t (2 ^ k) ≡ done (none, []) = ground arith in
          subst (Locked env (2 ^ k)) (sym e) (refusing _ (inr (inr (inl no_memory))))
      | inl memory ↦
          let p = rehash_all (2 ^ k) t.buckets (replicate (2 ^ k) empty_bucket) in
          let fits : 2 ^ k * sizeof_bucket < 2 ^ 64 = ground arith in
          let fresh = empty_table-IsValid {V = V} (2 ^ k) t.lock_count k refl fits in
          let e : resize_locked env t (2 ^ k) ≡ finish (2 ^ k) p = ground arith in
          subst (Locked env (2 ^ k)) (sym e)
            (finish-Locked env k p refl (λ q. contents-empty fresh q refl) (rehash-Rehashed k fits))
    ]
  ]

  resize_reply-ResizeOutcome :
      (env : Env) (n : ℕ) (o : Outcome (Option (Table V) × List Event))
      → Locked env n o
      → (r : Reply V ℤ) × (resize_reply t o ≡ done r) × ResizeOutcome env n r
  unfolding resize_reply
  resize_reply-ResizeOutcome env n fault l = elim l [ ]
  resize_reply-ResizeOutcome env n (done (none, e)) (refusing _ why) =
      (_, refl, inr (why, (refl, refl, refl)))
  resize_reply-ResizeOutcome env n (done (some a, e)) (resizing _ _ valid size locks elems reads) =
      (
        _,
        refl,
        inl (record {
          result = refl;
          after = a;
          table = refl;
          valid = valid;
          size = size;
          same_locks = locks;
          same_elems = elems;
          reads = reads;
          destroys = refl;
        }),
      )

  resize_to-ResizeOutcome :
      (env : Env) (k : ℕ)
      → (r : Reply V ℤ) × (resize_to env t (2 ^ k) ≡ done r) × ResizeOutcome env (2 ^ k) r
  unfolding resize_to
  resize_to-ResizeOutcome env k = elim (Bool-cases (2 ^ k == t.buckets_count)) [
    | inl same ↦ (
      unchanged (pos 0) (some t),
      ground arith,
      inl (record {
        result = refl;
        after = t;
        table = refl;
        valid = v;
        size = ground arith;
        same_locks = refl;
        same_elems = refl;
        reads = λ q. refl;
        destroys = refl;
      }),
    )
    | inr other ↦ elim (lock_each-inside env t.lock_count t.lock_count 0 (omega arith)) [
      | inl all_held ↦
          let (r, run, outcome) =
            resize_reply-ResizeOutcome env (2 ^ k) _ (resize_locked-Locked env k) in
          (r, ground (arith, run), outcome)
      | inr (i, e, no_lock, lt) ↦ (
        record {
          result = neg 1;
          table = some t;
          destroyed = [];
          events = events_of wrlocked i 0 ++ events_of unlocked i 0;
        },
        ground (arith, e),
        inr (inl (i, omega arith, no_lock), (refl, refl, refl)),
      )
    ]
  ]

  -- `table_resize` on a valid table, for a capacity of 1 to 2^63, returns, with no access out of
  -- bounds and no division by zero. It returns 0 and leaves a valid table with the same entries under
  -- the same keys, the same count and the same locks, whose number of buckets is the adjusted
  -- capacity; or it returns -1 and changes nothing, and then a lock was refused, or the capacity is
  -- below the number of entries, or `calloc` failed, or a bucket of the new array was full. No value
  -- is destroyed.
  pub table_resize_lem :
      (env : Env) (capacity : ℕ)
      → 0 < capacity
      → capacity ≤ 2 ^ 63
      → (r : Reply V ℤ) × (table_resize env (some t) capacity ≡ done r)
        × ResizeOutcome env (adjust_capacity capacity) r
  unfolding table_resize
  table_resize_lem env capacity h small =
      let (k, e, narrow, enough, least) = adjust_capacity_least capacity h small in
      let (r, run, outcome) = resize_to-ResizeOutcome env k in
      (r, rw e (ground (arith, run)), rw e outcome)
