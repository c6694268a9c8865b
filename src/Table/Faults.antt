-- ===== src/Table/Faults.antt =====
-- Buckets that have no lock, and the operations on their keys after `table_resize`.
use simple_c_database.Hashing.{hash}
use simple_c_database.Prelude.{ℕ, ◌%◌, ◌≤◌, ◌<◌, ◌≡◌, arith, Bool, Option, some, length, ℤ}
use simple_c_database.Strings.{Bytes, c_str}
use simple_c_database.Table.Data.{Bucket, Table, Env, Event, rdlocked, wrlocked, fault, Reply}
use simple_c_database.Table.Keys.{
  table_set, table_add, table_delete, table_replace, table_exist, table_get,
}
use simple_c_database.Table.Resized.{table_resize_lem}
use simple_c_database.Table.Resize.{table_resize}
use simple_c_database.Table.Life.{adjust_capacity}
use simple_c_database.Table.Scan.{bucket_index, Work, with_bucket}
use simple_c_database.Table.Set.{short_key}
use simple_c_database.Prelude.{◌^◌, sym, ap, subst, ◌∙◌, inl, inr, pos, ◌<◌}
use simple_c_database.Table.Data.{done}
use simple_c_database.Table.Valid.{IsValid, bucket_index-mod}

module _ {ℓ κ} {V : Type ℓ} {R : Type κ} where
  -- An operation on a bucket that has no lock accesses the locks out of bounds.
  with_bucket-fault :
      (env : Env) (locked : ℕ → Event) (t : Table V) (i : ℕ) (refusal : R)
      (work : Bucket V → Work V R)
      → t.lock_count ≤ i
      → with_bucket env locked t i refusal work ≡ fault
  unfolding with_bucket
  with_bucket-fault env locked t i refusal work h = ground arith

-- Each operation on the key is an access out of bounds.
abbrev pub AllFault {ℓ} :
    {V : Type ℓ} → Table V → Bytes → Env → Option V → Bool → (V → ℕ → V) → (V → ℕ) → Type ℓ
AllFault t k env value d copy value_sizer =
    (table_set env (some t) (some k) value d ≡ fault)
    × (table_add env (some t) (some k) value ≡ fault)
    × (table_replace env (some t) (some k) value d ≡ fault)
    × (table_delete env (some t) (some k) d ≡ fault)
    × (table_exist env (some t) (some k) ≡ fault)
    × (table_get env copy (some t) (some k) (some value_sizer) ≡ fault)

module _ {ℓ} {V : Type ℓ} (k : Bytes) (short : length (c_str k) < 255) (env' : Env)
    (value : Option V) (d : Bool) (copy : V → ℕ → V) (value_sizer : V → ℕ) where
  bucket_without_lock :
      (t : Table V)
      → t.lock_count ≤ bucket_index (hash k) t.buckets_count
      → AllFault t k env' value d copy value_sizer
  unfolding table_set table_add table_replace table_delete table_exist table_get
  bucket_without_lock t h = (
    rw (short_key k short) (with_bucket-fault env' wrlocked t _ _ _ h),
    with_bucket-fault env' wrlocked t _ _ _ h,
    with_bucket-fault env' wrlocked t _ _ _ h,
    with_bucket-fault env' wrlocked t _ _ _ h,
    with_bucket-fault env' rdlocked t _ _ _ h,
    with_bucket-fault env' rdlocked t _ _ _ h,
  )

  -- `table_resize` makes no locks for its new buckets. After a resize of a valid table that returned 0,
  -- for a capacity of 1 to 2^63, each of `table_set`, `table_add`, `table_replace`, `table_delete`,
  -- `table_exist` and `table_get` accesses the array of locks out of bounds, on every key of fewer than
  -- 255 bytes whose hash modulo the adjusted capacity is not below the number of locks.
  pub resized_without_lock :
      {t : Table V} (v : IsValid t) (env : Env) (capacity : ℕ)
      → 0 < capacity
      → capacity ≤ 2 ^ 63
      → (r : Reply V ℤ) → table_resize env (some t) capacity ≡ done r
      → r.result ≡ pos 0
      → (after : Table V) → r.table ≡ some after
      → t.lock_count ≤ hash k % adjust_capacity capacity
      → AllFault after k env' value d copy value_sizer
  resized_without_lock {t} v env capacity h small r run zero_result after now beyond =
      let (r', run', outcome) = table_resize_lem v env capacity h small in
      let same : r' ≡ r = cc (sym run' ∙ run) in
      elim outcome [
        | inr (_, kept) ↦ absurd (cc (sym (ap (λ (x : Reply V ℤ). x.result) same)))
        | inl resized ↦
            let here : resized.after ≡ after = cc in
            subst (λ a. AllFault a k env' value d copy value_sizer) here
              (bucket_without_lock resized.after (
                rw
                  (
                    bucket_index-mod (hash k) resized.after.buckets_count resized.valid.exponent
                        resized.valid.power resized.valid.fits,
                    resized.same_locks,
                    resized.size,
                  )
                  beyond))
      ]
