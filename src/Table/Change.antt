-- ===== src/Table/Change.antt =====
-- `table_delete` and `table_replace` on a valid table.
use simple_c_database.Hashing.{hash}
use simple_c_database.Prelude.{
  ℕ, ◌≡◌, ◌≢◌, ◌⊎◌, inl, inr, refl, ◌∙◌, arith, Bool, true, Option, none, some, ℤ, neg,
}
use simple_c_database.Strings.{Bytes}
use simple_c_database.Table.Data.{Bucket, Table, Env, wrlocked, done, Reply}
use simple_c_database.Table.Keys.{delete_found, table_delete, replace_found, table_replace}
use simple_c_database.Table.Scan.{worked, find_slot}
use simple_c_database.Table.Slots.{lookup-eq-none, Found, absent, present, find_slot-Found}
use simple_c_database.Table.Valid.{IsValid, IsLocked, contents, home, home-lt, contents-home}
use simple_c_database.Table.Writes.{with_bucket-home, home_bucket, value-Updates, delete-Updates}
use simple_c_database.Table.Outcomes.{destroyed_entry, Wrote, Kept, unchanged_bucket}

module _ {ℓ} {V : Type ℓ} {t : Table V} (v : IsValid t) (k : Bytes) where
  -- What `table_delete` ends with: the entry is gone, or there was none.
  abbrev pub DeleteOutcome : Bool → Reply V ℤ → Type ℓ
  DeleteOutcome destroyer r =
      ((contents t k ≢ none) × Wrote t k none (destroyed_entry destroyer (contents t k)) r)
      ⊎ ((contents t k ≡ none) × Kept t (neg 1) r)

  delete_found-DeleteOutcome :
      (destroyer : Bool) (f : Option ℕ)
      → Found k (home_bucket v k) 0 f
      → DeleteOutcome destroyer
          (worked wrlocked t (home v k) (delete_found destroyer t.elem_count (home_bucket v k) f))
  unfolding delete_found
  delete_found-DeleteOutcome destroyer none (absent zero_count) = inr (
    contents-home v k ∙ lookup-eq-none k (home_bucket v k) zero_count,
    unchanged_bucket v k wrlocked,
  )
  delete_found-DeleteOutcome destroyer (some r) (present i at lt here old) =
      let p : r ≡ i = omega arith in
      rw p (
        inl (
          (λ no_entry. cc (contents-home v k)),
          record {
            result = refl;
            after = _;
            table = refl;
            updates = delete-Updates v k i lt here;
            destroys = rw (contents-home v k, old);
          },
        ))

  -- On a valid table with its locks and the lock of the key's bucket given, `table_delete` returns,
  -- with no access out of bounds. Where the key is in the table, it returns 0 and removes the entry
  -- of the key alone, whose value goes to the destroyer if there is one; otherwise it returns -1 and
  -- changes nothing.
  pub table_delete_lem :
      IsLocked t
      → (env : Env) (destroyer : Bool) → env.lock (home v k) ≡ true
      → (r : Reply V ℤ) × (table_delete env (some t) (some k) destroyer ≡ done r)
        × DeleteOutcome destroyer r
  unfolding table_delete
  table_delete_lem l env destroyer given =
      let work =
        λ (b : Bucket V). delete_found destroyer t.elem_count b (find_slot (hash k) k b 0) in
      (
        worked wrlocked t (home v k) (work (home_bucket v k)),
        rw (with_bucket-home v l env wrlocked k (neg 2) work, given),
        delete_found-DeleteOutcome destroyer _ (
            find_slot-Found t.buckets_count (home v k) k _ 0
              (v.each (home v k) (home-lt v k)).each),
      )

  -- What `table_replace` ends with: the new value is stored, or there was no entry.
  abbrev pub ReplaceOutcome : Bool → Option V → Reply V ℤ → Type ℓ
  ReplaceOutcome destroyer value r =
      ((contents t k ≢ none) × Wrote t k (some value) (destroyed_entry destroyer (contents t k)) r)
      ⊎ ((contents t k ≡ none) × Kept t (neg 2) r)

  replace_found-ReplaceOutcome :
      (destroyer : Bool) (value : Option V) (f : Option ℕ)
      → Found k (home_bucket v k) 0 f
      → ReplaceOutcome destroyer value (
          worked wrlocked t
            (home v k)
            (replace_found destroyer t.elem_count value (home_bucket v k) f))
  unfolding replace_found
  replace_found-ReplaceOutcome destroyer value none (absent zero_count) = inr (
    contents-home v k ∙ lookup-eq-none k (home_bucket v k) zero_count,
    unchanged_bucket v k wrlocked,
  )
  replace_found-ReplaceOutcome destroyer value (some r) (present i at lt here old) =
      let p : r ≡ i = omega arith in
      rw p (
        inl (
          (λ no_entry. cc (contents-home v k)),
          record {
            result = refl;
            after = _;
            table = refl;
            updates = value-Updates v k i value lt here;
            destroys = rw (contents-home v k, old);
          },
        ))

  -- On a valid table with its locks and the lock of the key's bucket given, `table_replace` returns,
  -- with no access out of bounds. Where the key is in the table, it returns 0 and stores the new
  -- value for the key alone, the old value going to the destroyer if there is one; otherwise it
  -- returns -2 and changes nothing.
  pub table_replace_lem :
      IsLocked t
      → (env : Env) (value : Option V) (destroyer : Bool) → env.lock (home v k) ≡ true
      → (r : Reply V ℤ) × (table_replace env (some t) (some k) value destroyer ≡ done r)
        × ReplaceOutcome destroyer value r
  unfolding table_replace
  table_replace_lem l env value destroyer given =
      let work =
        λ (b : Bucket V). replace_found destroyer t.elem_count value b (find_slot (hash k) k b 0) in
      (
        worked wrlocked t (home v k) (work (home_bucket v k)),
        rw (with_bucket-home v l env wrlocked k (neg 1) work, given),
        replace_found-ReplaceOutcome destroyer value _ (
            find_slot-Found t.buckets_count (home v k) k _ 0
              (v.each (home v k) (home-lt v k)).each),
      )
