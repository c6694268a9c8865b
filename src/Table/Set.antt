-- ===== src/Table/Set.antt =====
-- `table_set` and `table_add` on a valid table.
use simple_c_database.Hashing.{hash}
use simple_c_database.Prelude.{
  ℕ, ◌<◌, ◌≡◌, ◌≢◌, ◌⊎◌, inl, inr, refl, ◌∙◌, arith, Bool, true, false, Option, none, some, [],
  length, ℤ, neg, leb,
}
use simple_c_database.Strings.Length.{ustrlen-c_str}
use simple_c_database.Strings.{Bytes, c_str, ustrlen}
use simple_c_database.Table.Data.{Bucket, Table, Env, wrlocked, done, Reply}
use simple_c_database.Table.Keys.{set_found, table_set, add_found, table_add}
use simple_c_database.Table.Scan.{scan, worked}
use simple_c_database.Table.Slots.{
  lookup-eq-none, Found, absent, present, find_slot-Found, scan_result, scan-find_slot,
}
use simple_c_database.Table.Valid.{IsValid, IsLocked, contents, home, home-lt, contents-home}
use simple_c_database.Table.Writes.{with_bucket-home, home_bucket, value-Updates, fill-Updates}
use simple_c_database.Table.Outcomes.{
  Free, no_free, free_at, first_free-Free, destroyed_entry, IsFull, Wrote, Kept, unchanged_bucket,
}

pub short_key : (k : Bytes) → length (c_str k) < 255 → leb 255 (ustrlen (some k)) ≡ false
short_key k short = ground (arith, ustrlen-c_str k)

module _ {ℓ} {V : Type ℓ} {t : Table V} (v : IsValid t) (k : Bytes) (value : Option V)
    (short : length (c_str k) < 255) where
  -- What `table_set` ends with: the value is stored, or the home bucket is full of other keys.
  abbrev pub SetOutcome : Bool → Reply V ℤ → Type ℓ
  SetOutcome destroyer r =
      Wrote t k (some value) (destroyed_entry destroyer (contents t k)) r
      ⊎ ((contents t k ≡ none) × IsFull (home_bucket v k) × Kept t (neg 2) r)

  set_found-SetOutcome :
      (destroyer : Bool) (f e : Option ℕ)
      → Found k (home_bucket v k) 0 f
      → Free (home_bucket v k) 0 e
      → SetOutcome destroyer (
          worked wrlocked t
            (home v k)
            (set_found destroyer t.elem_count (hash k) k value (home_bucket v k) (scan_result f e)))
  unfolding set_found
  set_found-SetOutcome destroyer (some r) e (present i at lt here old) free =
      let p : r ≡ i = omega arith in
      rw p (
        inl (record {
          result = refl;
          after = _;
          table = refl;
          updates = value-Updates v k i value lt here;
          destroys = rw (contents-home v k, old);
        }))
  set_found-SetOutcome destroyer none (some r) (absent zero_count) (free_at i at lt free) =
      let p : r ≡ i = omega arith in
      rw p (
        inl (record {
          result = refl;
          after = _;
          table = refl;
          updates = fill-Updates v k i value short lt free zero_count;
          destroys = rw (contents-home v k, lookup-eq-none k (home_bucket v k) zero_count);
        }))
  set_found-SetOutcome destroyer none none (absent zero_count) (no_free all_used) = inr (
    contents-home v k ∙ lookup-eq-none k (home_bucket v k) zero_count,
    all_used ∙ (v.each (home v k) (home-lt v k)).slots,
    unchanged_bucket v k wrlocked,
  )

  -- On a valid table with its locks, a key of fewer than 255 bytes and the lock of its bucket given,
  -- `table_set` returns, with no access out of bounds. It returns 0 and stores the value for the key
  -- alone, the overwritten value going to the destroyer if there is one; or it returns -2 and changes
  -- nothing, where the key is not in the table and the 8 slots of its bucket are in use.
  pub table_set_lem :
      IsLocked t
      → (env : Env) (destroyer : Bool) → env.lock (home v k) ≡ true
      → (r : Reply V ℤ) × (table_set env (some t) (some k) value destroyer ≡ done r)
        × SetOutcome destroyer r
  unfolding table_set
  table_set_lem l env destroyer given =
      let b = home_bucket v k in
      let work = λ (b : Bucket V).
        set_found destroyer t.elem_count (hash k) k value b (scan (hash k) k b 0 none) in
      (
        worked wrlocked t (home v k) (work b),
        rw (short_key k short, with_bucket-home v l env wrlocked k (neg 1) work, given),
        rw (scan-find_slot (hash k) k b 0 none) (
            set_found-SetOutcome destroyer _ _
              (find_slot-Found t.buckets_count (home v k) k b 0
                (v.each (home v k) (home-lt v k)).each)
              (first_free-Free b 0)),
      )

  -- What `table_add` ends with: a new entry, or a key that is there, or a full bucket.
  abbrev pub AddOutcome : Reply V ℤ → Type ℓ
  AddOutcome r =
      ((contents t k ≡ none) × Wrote t k (some value) [] r)
      ⊎ ((contents t k ≢ none) × Kept t (neg 3) r)
      ⊎ ((contents t k ≡ none) × IsFull (home_bucket v k) × Kept t (neg 2) r)

  add_found-AddOutcome :
      (f e : Option ℕ)
      → Found k (home_bucket v k) 0 f
      → Free (home_bucket v k) 0 e
      → AddOutcome (
          worked wrlocked t
            (home v k)
            (add_found t.elem_count (hash k) k value (home_bucket v k) (scan_result f e)))
  unfolding add_found
  add_found-AddOutcome (some r) e (present i at lt here old) free =
      inr (inl ((λ no_entry. cc (contents-home v k)), unchanged_bucket v k wrlocked))
  add_found-AddOutcome none (some r) (absent zero_count) (free_at i at lt free) =
      let p : r ≡ i = omega arith in
      rw p (
        inl (
          contents-home v k ∙ lookup-eq-none k (home_bucket v k) zero_count,
          record {
            result = refl;
            after = _;
            table = refl;
            updates = fill-Updates v k i value short lt free zero_count;
            destroys = refl;
          },
        ))
  add_found-AddOutcome none none (absent zero_count) (no_free all_used) = inr (
      inr (
        contents-home v k ∙ lookup-eq-none k (home_bucket v k) zero_count,
        all_used ∙ (v.each (home v k) (home-lt v k)).slots,
        unchanged_bucket v k wrlocked,
      ))

  -- On a valid table with its locks, a key of fewer than 255 bytes and the lock of its bucket given,
  -- `table_add` returns, with no access out of bounds. It returns 0 and stores the value for the key
  -- alone, where the key is not in the table; it returns -3 where the key is there, and -2 where the
  -- key is not there and the 8 slots of its bucket are in use, and then changes nothing. No value
  -- goes to a destroyer.
  pub table_add_lem :
      IsLocked t
      → (env : Env) → env.lock (home v k) ≡ true
      → (r : Reply V ℤ) × (table_add env (some t) (some k) value ≡ done r) × AddOutcome r
  unfolding table_add
  table_add_lem l env given =
      let b = home_bucket v k in
      let work =
        λ (b : Bucket V). add_found t.elem_count (hash k) k value b (scan (hash k) k b 0 none) in
      (
        worked wrlocked t (home v k) (work b),
        rw (with_bucket-home v l env wrlocked k (neg 1) work, given),
        rw (scan-find_slot (hash k) k b 0 none) (
            add_found-AddOutcome _ _
              (find_slot-Found t.buckets_count (home v k) k b 0
                (v.each (home v k) (home-lt v k)).each)
              (first_free-Free b 0)),
      )
