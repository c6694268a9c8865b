-- ===== src/Table/KeyLocks.antt =====
-- How the operations on one key use the locks, on any table.
use simple_c_database.Hashing.{hash}
use simple_c_database.Prelude.{
  ℕ, inl, inr, refl, Bool, false, Option, none, some, [], ltb, leb, neg, length, Bool-cases,
}
use simple_c_database.Strings.{Bytes, key_max_len, ustrlen}
use simple_c_database.Table.Order.{IsOrderly, Lock, reading, writing, one-IsOrderly, lock_run}
use simple_c_database.Table.Data.{Bucket, Table, Env, Event, Outcome, fault, done, Reply}
use simple_c_database.Table.Keys.{
  table_set, table_add, table_delete, table_replace, table_exist, table_get,
}
use simple_c_database.Table.Scan.{bucket_index, Work, with_bucket}

-- If the call returns, its events are in order.
abbrev pub Ordered {ℓ κ} : {V : Type ℓ} {R : Type κ} → Outcome (Reply V R) → Type 0
Ordered fault = Unit
Ordered (done r) = IsOrderly r.events

module _ {ℓ κ} {V : Type ℓ} {R : Type κ} where
  with_bucket-Ordered :
      (env : Env) {locked : ℕ → Event}
      → Lock locked
      → (t : Table V) (i : ℕ) (refusal : R) (work : Bucket V → Work V R)
      → Ordered (with_bucket env locked t i refusal work)
  unfolding with_bucket lock_run
  with_bucket-Ordered env l t i refusal work = elim (Bool-cases (ltb i t.lock_count)) [
    | inr past ↦ rw past tt
    | inl inside ↦ elim (Bool-cases (env.lock i)) [
      | inr not_given ↦ rw (inside, not_given) refl
      | inl given ↦ elim (Bool-cases (ltb i (length t.buckets))) [
        | inr no_bucket ↦ rw (inside, given, no_bucket) tt
        | inl there ↦ rw (inside, given, there) (one-IsOrderly l i [])
      ]
    ]
  ]

module _ {ℓ} {V : Type ℓ} (env : Env) where
  pub table_set-Ordered :
      (t : Option (Table V)) (key : Option Bytes) (value : Option V) (d : Bool)
      → Ordered (table_set env t key value d)
  unfolding table_set lock_run
  table_set-Ordered none key value d = refl
  table_set-Ordered (some t) none value d = refl
  table_set-Ordered (some t) (some k) value d =
      elim (Bool-cases (leb key_max_len (ustrlen (some k)))) [
        | inl long ↦ rw long refl
        | inr short ↦
            rw short
              (with_bucket-Ordered env writing t (bucket_index (hash k) t.buckets_count) (neg 1) _)
      ]

  pub table_add-Ordered :
      (t : Option (Table V)) (key : Option Bytes) (value : Option V)
      → Ordered (table_add env t key value)
  unfolding table_add lock_run
  table_add-Ordered none key value = refl
  table_add-Ordered (some t) none value = refl
  table_add-Ordered (some t) (some k) value =
      with_bucket-Ordered env writing t (bucket_index (hash k) t.buckets_count) (neg 1) _

  pub table_delete-Ordered :
      (t : Option (Table V)) (key : Option Bytes) (d : Bool) → Ordered (table_delete env t key d)
  unfolding table_delete lock_run
  table_delete-Ordered none key d = refl
  table_delete-Ordered (some t) none d = refl
  table_delete-Ordered (some t) (some k) d =
      with_bucket-Ordered env writing t (bucket_index (hash k) t.buckets_count) (neg 2) _

  pub table_replace-Ordered :
      (t : Option (Table V)) (key : Option Bytes) (value : Option V) (d : Bool)
      → Ordered (table_replace env t key value d)
  unfolding table_replace lock_run
  table_replace-Ordered none key value d = refl
  table_replace-Ordered (some t) none value d = refl
  table_replace-Ordered (some t) (some k) value d =
      with_bucket-Ordered env writing t (bucket_index (hash k) t.buckets_count) (neg 1) _

  pub table_exist-Ordered :
      (t : Option (Table V)) (key : Option Bytes) → Ordered (table_exist env t key)
  unfolding table_exist lock_run
  table_exist-Ordered none key = refl
  table_exist-Ordered (some t) none = refl
  table_exist-Ordered (some t) (some k) =
      with_bucket-Ordered env reading t (bucket_index (hash k) t.buckets_count) false _

  pub table_get-Ordered :
      (copy : V → ℕ → V) (t : Option (Table V)) (key : Option Bytes) (sizer : Option (V → ℕ))
      → Ordered (table_get env copy t key sizer)
  unfolding table_get lock_run
  table_get-Ordered copy none key sizer = refl
  table_get-Ordered copy (some t) none sizer = refl
  table_get-Ordered copy (some t) (some k) none = refl
  table_get-Ordered copy (some t) (some k) (some sizer) =
      with_bucket-Ordered env reading t (bucket_index (hash k) t.buckets_count) none _
