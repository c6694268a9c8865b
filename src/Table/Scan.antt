-- ===== src/Table/Scan.antt =====
-- What the operations of hashtable.c on one key share: the index of the bucket, the loops over its
-- slots, the writes to a slot, and the frame of locking around them.
use mathlib.Core.Option
use simple_c_database.Prelude.{
  ℕ, ◌+◌, ◌-◌, ◌%◌, ◌^◌, bit_and, Bool, true, false, ◌&&◌, Option, none, some, List, [], ◌∷◌,
  length, get_or, set, is_zero, ltb, ◌==◌, if◌then◌else◌,
}
use simple_c_database.Strings.{Bytes, key_max_len, ustrncmp, ustrncpy}
use simple_c_database.Table.Data.{
  Slot, Bucket, Table, Env, Event, unlocked, Outcome, fault, done, Reply, unchanged,
}

-- `hash_full & (buckets_count - 1)`
unfoldable pub bucket_index : ℕ → ℕ → ℕ
bucket_index hash_full buckets_count = bit_and hash_full ((buckets_count + 2 ^ 64 - 1) % 2 ^ 64)

-- The outcome of the loop over a bucket: a slot with the key, the first free slot, or neither.
pub data Scan : Type 0 where
  match_at : ℕ → Scan
  empty_at : ℕ → Scan
  full : Scan

module _ {ℓ} {V : Type ℓ} where
  -- The test on slot `i` that every loop makes.
  unfoldable pub matches : ℕ → Bytes → Slot V → Bool
  matches hash_full key s =
      s.in_use && s.hash == hash_full && is_zero (ustrncmp s.key key key_max_len)

  -- `first_empty_slot` after slot `i`
  abbrev pub note_empty : Slot V → ℕ → Option ℕ → Option ℕ
  note_empty s i (some j) = some j
  note_empty s i none = if s.in_use then none else some i

  -- The loop of `table_set` and `table_add` from slot `i` on.
  unfoldable pub scan : ℕ → Bytes → Bucket V → ℕ → Option ℕ → Scan
  scan hash_full key [] i none = full
  scan hash_full key [] i (some j) = empty_at j
  scan hash_full key (s ∷ b) i first_empty =
      let rest = scan hash_full key b (i + 1) (note_empty s i first_empty) in
      if matches hash_full key s then match_at i else rest

  -- The loop of the other operations: the first slot that matches.
  unfoldable pub find_slot : ℕ → Bytes → Bucket V → ℕ → Option ℕ
  find_slot hash_full key [] i = none
  find_slot hash_full key (s ∷ b) i =
      let rest = find_slot hash_full key b (i + 1) in
      if matches hash_full key s then some i else rest

  -- `if (value_destroyer != NULL && value != NULL) value_destroyer(value)`
  abbrev pub destroy_value : Bool → Option V → List (Option V)
  destroy_value false value = []
  destroy_value true none = []
  destroy_value true (some v) = some v ∷ []

  -- A free slot after it took a key and a value.
  unfoldable pub fill_slot : ℕ → Bytes → Option V → Slot V → Slot V
  fill_slot hash_full key value s = record {
    in_use = true;
    hash = hash_full;
    key = Option.get_or (ustrncpy (some s.key) (some key) key_max_len) s.key;
    value = value;
  }

  -- A slot after its deletion: the key stays behind.
  abbrev pub delete_slot : Slot V → Slot V
  delete_slot s = record { in_use = false; hash = 0; key = s.key; value = none }

abbrev pub is_some {ℓ} : {A : Type ℓ} → Option A → Bool
is_some none = false
is_some (some a) = true

-- What the code between lock and unlock makes of its bucket.
pub record Work {ℓ κ} (V : Type ℓ) (R : Type κ) : Type (ℓ ⊔ κ) where
  pub result : R
  pub bucket : Bucket V
  pub elem_count : ℕ
  pub destroyed : List (Option V)

-- The table with another bucket `i` and another count.
abbrev pub put_bucket {ℓ} : {V : Type ℓ} → Table V → ℕ → Bucket V → ℕ → Table V
put_bucket t i b elems = record t { buckets = set t.buckets i b; elem_count = elems }

module _ {ℓ κ} {V : Type ℓ} {R : Type κ} where
  -- The reply after some work on bucket `i`.
  abbrev pub worked : (ℕ → Event) → Table V → ℕ → Work V R → Reply V R
  worked locked t i w = record {
    result = w.result;
    table = some (put_bucket t i w.bucket w.elem_count);
    destroyed = w.destroyed;
    events = locked i ∷ unlocked i ∷ [];
  }

  -- Lock `i`, work on bucket `i`, unlock: the frame of every operation on a key. Both arrays are
  -- accessed at `i`, and `refusal` is returned where the lock is refused.
  unfoldable pub with_bucket :
      Env → (ℕ → Event) → Table V → ℕ → R → (Bucket V → Work V R) → Outcome (Reply V R)
  with_bucket env locked t i refusal work =
      if ltb i t.lock_count
      then (if env.lock i
          then (if ltb i (length t.buckets)
              then done (worked locked t i (work (get_or t.buckets i [])))
              else fault)
          else done (unchanged refusal (some t)))
      else fault
