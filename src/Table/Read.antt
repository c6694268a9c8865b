-- ===== src/Table/Read.antt =====
-- `table_get` and `table_exist` on a valid table.
use simple_c_database.Hashing.{hash}
use simple_c_database.Prelude.{
  ℕ, ◌≡◌, inl, inr, ap, arith, true, false, Option, none, some, [], ◌∷◌, get_or, if◌then◌else◌,
  Option-cases, ◌==◌,
}
use simple_c_database.Strings.{Bytes}
use simple_c_database.Table.Data.{Table, empty_slot, Env, rdlocked, unlocked, done}
use simple_c_database.Table.Keys.{get_found, table_get, table_exist}
use simple_c_database.Table.Scan.{find_slot, is_some}
use simple_c_database.Table.Slots.{lookup, lookup-eq-none, Found, absent, present, find_slot-Found}
use simple_c_database.Table.Valid.{IsValid, IsLocked, contents, home, home-lt, contents-home}
use simple_c_database.Table.Writes.{with_bucket-home, home_bucket}
use simple_c_database.Table.Outcomes.{read_bucket}

module _ {ℓ} {V : Type ℓ} where
  -- What `table_get` makes of the entry of a key: NULL where there is none, where its value is NULL,
  -- where the value has size 0, or where there is no memory for the copy.
  abbrev pub fetched : Env → (V → ℕ → V) → (V → ℕ) → Option (Option V) → Option V
  fetched env copy value_sizer none = none
  fetched env copy value_sizer (some none) = none
  fetched env copy value_sizer (some (some x)) =
      if value_sizer x == 0
      then none
      else if env.malloc (value_sizer x)
      then some (copy x (value_sizer x))
      else none

module _ {ℓ} {V : Type ℓ} {t : Table V} (v : IsValid t) (k : Bytes) where
  get_found-fetched :
      (env : Env) (copy : V → ℕ → V) (value_sizer : V → ℕ) (f : Option ℕ)
      → Found k (home_bucket v k) 0 f
      → get_found env copy value_sizer (home_bucket v k) f
        ≡ fetched env copy value_sizer (lookup k (home_bucket v k))
  unfolding get_found
  get_found-fetched env copy value_sizer none (absent zero_count) =
      rw (lookup-eq-none k (home_bucket v k) zero_count)
  get_found-fetched env copy value_sizer (some r) (present i at lt here old) =
      let p : r ≡ i = omega arith in
      rw (p, old)
        (elim (Option-cases (get_or (home_bucket v k) i empty_slot).value) [
          | inl e ↦ ground arith
          | inr (x, e) ↦ ground arith
        ])

  is_some-Found :
      (f : Option ℕ)
      → Found k (home_bucket v k) 0 f
      → is_some f ≡ is_some (lookup k (home_bucket v k))
  is_some-Found none (absent zero_count) = rw (lookup-eq-none k (home_bucket v k) zero_count)
  is_some-Found (some r) (present i at lt here old) = rw old

  module _ (l : IsLocked t) (env : Env) (given : env.lock (home v k) ≡ true) where
    -- On a valid table with its locks and the lock of the key's bucket given, `table_get` returns the
    -- copy of the value that the table holds for the key: NULL where there is no entry, where its
    -- value is NULL or has size 0, or where `malloc` fails. It changes nothing and locks the bucket
    -- for reading.
    pub table_get_lem :
        (copy : V → ℕ → V) (value_sizer : V → ℕ)
        → table_get env copy (some t) (some k) (some value_sizer)
          ≡ done (record {
            result = fetched env copy value_sizer (contents t k);
            table = some t;
            destroyed = [];
            events = rdlocked (home v k) ∷ unlocked (home v k) ∷ [];
          })
    unfolding table_get
    table_get_lem copy value_sizer =
        let found = find_slot (hash k) k (home_bucket v k) 0 in
        let result = get_found env copy value_sizer (home_bucket v k) found in
        let same : result ≡ fetched env copy value_sizer (contents t k) = rw (contents-home v k) (
          get_found-fetched env copy value_sizer found (
            find_slot-Found t.buckets_count (home v k) k _ 0
              (v.each (home v k) (home-lt v k)).each)) in
        rw
          (
            with_bucket-home v l env rdlocked k none (λ b. record {
              result = get_found env copy value_sizer b (find_slot (hash k) k b 0);
              bucket = b;
              elem_count = t.elem_count;
              destroyed = [];
            }),
            given,
            ← same,
          )
          (ap done (read_bucket v k result rdlocked))

    -- On a valid table with its locks and the lock of the key's bucket given, `table_exist` returns
    -- whether the table has an entry for the key, and changes nothing.
    pub table_exist_lem :
        table_exist env (some t) (some k)
        ≡ done (record {
          result = is_some (contents t k);
          table = some t;
          destroyed = [];
          events = rdlocked (home v k) ∷ unlocked (home v k) ∷ [];
        })
    unfolding table_exist
    table_exist_lem =
        let found = find_slot (hash k) k (home_bucket v k) 0 in
        let same : is_some found ≡ is_some (contents t k) = rw (contents-home v k) (
          is_some-Found found (
            find_slot-Found t.buckets_count (home v k) k _ 0
              (v.each (home v k) (home-lt v k)).each)) in
        rw
          (
            with_bucket-home v l env rdlocked k false (λ b. record {
              result = is_some (find_slot (hash k) k b 0);
              bucket = b;
              elem_count = t.elem_count;
              destroyed = [];
            }),
            given,
            ← same,
          )
          (ap done (read_bucket v k (is_some found) rdlocked))
