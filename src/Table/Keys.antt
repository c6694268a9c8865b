-- ===== src/Table/Keys.antt =====
-- The operations of hashtable.c on one key. The helpers `…_found` are what follows the loop over the
-- bucket.
use simple_c_database.Hashing.{hash}
use simple_c_database.Prelude.{
  ℕ, ◌+◌, ◌-◌, ◌%◌, ◌^◌, Bool, false, Option, none, some, [], get_or, set, ℤ, pos, neg, leb, ◌==◌,
  if◌then◌else◌,
}
use simple_c_database.Strings.{Bytes, key_max_len, ustrlen}
use simple_c_database.Table.Data.{
  Bucket, Table, empty_slot, Env, rdlocked, wrlocked, Outcome, done, Reply, unchanged,
}
use simple_c_database.Table.Scan.{
  bucket_index, Scan, match_at, empty_at, full, scan, find_slot, destroy_value, fill_slot,
  delete_slot, is_some, Work, with_bucket,
}

module _ {ℓ} {V : Type ℓ} where
  -- The rest of `table_set` after its loop.
  unfoldable pub set_found : Bool → ℕ → ℕ → Bytes → Option V → Bucket V → Scan → Work V ℤ
  unfolding fill_slot
  set_found destroyer count hash_full key value b (match_at i) =
      let s = get_or b i empty_slot in
      record {
        result = pos 0;
        bucket = set b i (record s { value = value });
        elem_count = count;
        destroyed = destroy_value destroyer s.value;
      }
  set_found destroyer count hash_full key value b (empty_at i) = record {
    result = pos 0;
    bucket = set b i (fill_slot hash_full key value (get_or b i empty_slot));
    elem_count = (count + 1) % 2 ^ 64;
    destroyed = [];
  }
  set_found destroyer count hash_full key value b full = record {
    result = neg 2;
    bucket = b;
    elem_count = count;
    destroyed = [];
  }

  -- `destroyer` says that `value_destroyer` is not NULL.
  unfoldable pub table_set :
      Env → Option (Table V) → Option Bytes → Option V → Bool → Outcome (Reply V ℤ)
  table_set env none key value destroyer = done (unchanged (neg 1) none)
  table_set env (some t) none value destroyer = done (unchanged (neg 1) (some t))
  table_set env (some t) (some key) value destroyer =
      if leb key_max_len (ustrlen (some key))
      then done (unchanged (neg 3) (some t))
      else (with_bucket env wrlocked t (bucket_index (hash key) t.buckets_count) (neg 1) (λ b.
          set_found destroyer t.elem_count (hash key) key value b (scan (hash key) key b 0 none)))

  unfoldable pub add_found : ℕ → ℕ → Bytes → Option V → Bucket V → Scan → Work V ℤ
  unfolding fill_slot
  add_found count hash_full key value b (match_at i) = record {
    result = neg 3;
    bucket = b;
    elem_count = count;
    destroyed = [];
  }
  add_found count hash_full key value b (empty_at i) = record {
    result = pos 0;
    bucket = set b i (fill_slot hash_full key value (get_or b i empty_slot));
    elem_count = (count + 1) % 2 ^ 64;
    destroyed = [];
  }
  add_found count hash_full key value b full = record {
    result = neg 2;
    bucket = b;
    elem_count = count;
    destroyed = [];
  }

  -- Unlike `table_set`, it does not look at the length of the key.
  unfoldable pub table_add : Env → Option (Table V) → Option Bytes → Option V → Outcome (Reply V ℤ)
  table_add env none key value = done (unchanged (neg 1) none)
  table_add env (some t) none value = done (unchanged (neg 1) (some t))
  table_add env (some t) (some key) value =
      with_bucket env wrlocked t (bucket_index (hash key) t.buckets_count) (neg 1)
        (λ b. add_found t.elem_count (hash key) key value b (scan (hash key) key b 0 none))

  unfoldable pub delete_found : Bool → ℕ → Bucket V → Option ℕ → Work V ℤ
  delete_found destroyer count b none = record {
    result = neg 1;
    bucket = b;
    elem_count = count;
    destroyed = [];
  }
  delete_found destroyer count b (some i) =
      let s = get_or b i empty_slot in
      record {
        result = pos 0;
        bucket = set b i (delete_slot s);
        elem_count = (count + 2 ^ 64 - 1) % 2 ^ 64;
        destroyed = destroy_value destroyer s.value;
      }

  unfoldable pub table_delete : Env → Option (Table V) → Option Bytes → Bool → Outcome (Reply V ℤ)
  table_delete env none key destroyer = done (unchanged (neg 3) none)
  table_delete env (some t) none destroyer = done (unchanged (neg 3) (some t))
  table_delete env (some t) (some key) destroyer =
      with_bucket env wrlocked t (bucket_index (hash key) t.buckets_count) (neg 2)
        (λ b. delete_found destroyer t.elem_count b (find_slot (hash key) key b 0))

  unfoldable pub replace_found : Bool → ℕ → Option V → Bucket V → Option ℕ → Work V ℤ
  replace_found destroyer count value b none = record {
    result = neg 2;
    bucket = b;
    elem_count = count;
    destroyed = [];
  }
  replace_found destroyer count value b (some i) =
      let s = get_or b i empty_slot in
      record {
        result = pos 0;
        bucket = set b i (record s { value = value });
        elem_count = count;
        destroyed = destroy_value destroyer s.value;
      }

  unfoldable pub table_replace :
      Env → Option (Table V) → Option Bytes → Option V → Bool → Outcome (Reply V ℤ)
  table_replace env none key value destroyer = done (unchanged (neg 1) none)
  table_replace env (some t) none value destroyer = done (unchanged (neg 1) (some t))
  table_replace env (some t) (some key) value destroyer =
      with_bucket env wrlocked t (bucket_index (hash key) t.buckets_count) (neg 1)
        (λ b. replace_found destroyer t.elem_count value b (find_slot (hash key) key b 0))

  unfoldable pub table_exist : Env → Option (Table V) → Option Bytes → Outcome (Reply V Bool)
  table_exist env none key = done (unchanged false none)
  table_exist env (some t) none = done (unchanged false (some t))
  table_exist env (some t) (some key) =
      with_bucket env rdlocked t (bucket_index (hash key) t.buckets_count) false (λ b. record {
        result = is_some (find_slot (hash key) key b 0);
        bucket = b;
        elem_count = t.elem_count;
        destroyed = [];
      })

  -- `internal_value`, and its copy: `copy v n` is the object whose bytes are the first `n` of `v`.
  unfoldable pub get_found : Env → (V → ℕ → V) → (V → ℕ) → Bucket V → Option ℕ → Option V
  get_found env copy value_sizer b none = none
  get_found env copy value_sizer b (some i) = elim ((get_or b i empty_slot).value) [
    | none ↦ none
    | some v ↦
        if value_sizer v == 0
        then none
        else if env.malloc (value_sizer v)
        then some (copy v (value_sizer v))
        else none
  ]

  unfoldable pub table_get :
      Env
      → (V → ℕ → V)
      → Option (Table V)
      → Option Bytes
      → Option (V → ℕ)
      → Outcome (Reply V (Option V))
  table_get env copy none key value_sizer = done (unchanged none none)
  table_get env copy (some t) none value_sizer = done (unchanged none (some t))
  table_get env copy (some t) (some key) none = done (unchanged none (some t))
  table_get env copy (some t) (some key) (some value_sizer) =
      with_bucket env rdlocked t (bucket_index (hash key) t.buckets_count) none (λ b. record {
        result = get_found env copy value_sizer b (find_slot (hash key) key b 0);
        bucket = b;
        elem_count = t.elem_count;
        destroyed = [];
      })
