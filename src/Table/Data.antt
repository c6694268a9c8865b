-- ===== src/Table/Data.antt =====
-- The types of hashtable.h, and what its functions read of their surroundings.
--
-- A `void*` is an `Option V`, where `none` is NULL and `V` stands for what the pointers point to. The
-- four arrays of a bucket are one list of slots. Sizes and hashes are numbers below 2^64.
use simple_c_database.Prelude.{
  ℕ, zero, suc, ◌+◌, ◌*◌, ◌^◌, ◌&&◌, Bool, false, Option, none, List, [], ◌∷◌, replicate, ltb,
  if◌then◌else◌,
}
use simple_c_database.Strings.{Bytes, key_max_len}

abbrev pub bucket_capacity : ℕ
bucket_capacity = 8

-- `sizeof(hashtable_t)` and `sizeof(hashtable_bucket_t)` on x86-64: the second is 8 + 64 + 8 * 255 + 64
-- bytes, a multiple of its alignment.
abbrev pub sizeof_table : ℕ
sizeof_table = 40

abbrev pub sizeof_bucket : ℕ
sizeof_bucket = 2176

pub record Slot {ℓ} (V : Type ℓ) : Type ℓ where
  pub in_use : Bool
  pub hash : ℕ
  pub key : Bytes
  pub value : Option V

abbrev pub Bucket {ℓ} : Type ℓ → Type ℓ
Bucket V = List (Slot V)

-- `locks` is an array of `lock_count` locks; what is done to them is in the events of a call.
pub record Table {ℓ} (V : Type ℓ) : Type ℓ where
  pub buckets : List (Bucket V)
  pub buckets_count : ℕ
  pub elem_count : ℕ
  pub lock_count : ℕ

-- A slot and a bucket as `calloc` leaves them.
abbrev pub empty_slot {ℓ} : {V : Type ℓ} → Slot V
empty_slot = record { in_use = false; hash = 0; key = replicate key_max_len 0; value = none }

abbrev pub empty_bucket {ℓ} : {V : Type ℓ} → Bucket V
empty_bucket = replicate bucket_capacity empty_slot

-- What the C library and the threads library do during a call: whether an allocation of so many
-- bytes succeeds, whether the functions on lock `i` return 0, and the size of a lock.
pub record Env : Type 0 where
  pub malloc : ℕ → Bool
  pub lock : ℕ → Bool
  pub init_lock : ℕ → Bool
  pub destroy_lock : ℕ → Bool
  pub sizeof_lock : ℕ

-- `calloc(n, size)` fails where the product does not fit a `size_t`.
abbrev pub calloc : Env → ℕ → ℕ → Bool
calloc env n size = ltb (n * size) (2 ^ 64) && env.malloc (n * size)

pub data Block : Type 0 where
  table_block buckets_block locks_block : Block

pub data Event : Type 0 where
  allocated freed : Block → Event
  initialised destroyed_lock rdlocked wrlocked unlocked : ℕ → Event

-- `fault` is an access out of bounds, a null dereference or a division by zero.
pub data Outcome {ℓ} (A : Type ℓ) : Type ℓ where
  fault : Outcome A
  done : A → Outcome A

-- What a call returns, the table behind the pointer afterwards, the arguments of the calls of the
-- value destroyer, and the events, all in order.
pub record Reply {ℓ κ} (V : Type ℓ) (R : Type κ) : Type (ℓ ⊔ κ) where
  pub result : R
  pub table : Option (Table V)
  pub destroyed : List (Option V)
  pub events : List Event

-- A reply that leaves all as it is.
abbrev pub unchanged {ℓ κ} : {V : Type ℓ} {R : Type κ} → R → Option (Table V) → Reply V R
unchanged r t = record { result = r; table = t; destroyed = []; events = [] }

-- `f i`, `f (i + 1)`, up to `n` of them.
abbrev pub events_of : (ℕ → Event) → ℕ → ℕ → List Event
events_of f zero i = []
events_of f (suc n) i = f i ∷ events_of f n (i + 1)

-- The result of locking in a loop: all held, refused at an index, or past the end of the locks.
pub data Locking : Type 0 where
  held : Locking
  refused : ℕ → Locking
  outside : Locking

-- `for (; i < n; i++) if (lock(&locks[i]) != 0) …`, with `left` = n - i.
unfoldable pub lock_each : Env → ℕ → ℕ → ℕ → Locking
lock_each env lock_count zero i = held
lock_each env lock_count (suc left) i =
    let rest = lock_each env lock_count left (i + 1) in
    if ltb i lock_count then (if env.lock i then rest else refused i) else outside
