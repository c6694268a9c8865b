-- ===== src/Table/Created.antt =====
-- `table_create`, `table_clear` and `table_destroy` on what they are given.
use simple_c_database.Bits.{one_bit}
use simple_c_database.Bitwise.Power.{next_power_of_2_least, pow_mono, pow_reflect}
use simple_c_database.Prelude.{
  ℕ, zero, suc, ◌+◌, ◌-◌, ◌*◌, ◌%◌, ◌^◌, ◌≤◌, ◌<◌, ◌≡◌, ◌⊎◌, inl, inr, refl, sym, subst, arith,
  Bool, true, false, bit_and, none, some, ==_iff, Bool-cases, ◌==◌,
}
use simple_c_database.Strings.{Bytes}
use simple_c_database.Table.Data.{
  Table, sizeof_bucket, sizeof_table, Env, calloc, held, refused, lock_each,
}
use simple_c_database.Table.Empty.{empty_table, empty_table-IsValid, contents-empty}
use simple_c_database.Table.Life.{adjust_capacity, init_each, create_arrays, table_create}
use simple_c_database.Table.Valid.{IsValid, contents}

-- For 0 < n <= 2^63 the adjusted capacity is the least power of two that is not below n.
pub adjust_capacity_least :
    (n : ℕ)
    → 0 < n
    → n ≤ 2 ^ 63
    → (k : ℕ) × (adjust_capacity n ≡ 2 ^ k) × (k ≤ 63) × (n ≤ 2 ^ k) × ((j : ℕ) → n ≤ 2 ^ j → k ≤ j)
unfolding adjust_capacity
adjust_capacity_least n h small = elim (Bool-cases (bit_and n (n - 1) == 0)) [
  | inl power ↦
      let (k, e) = one_bit n h ((==_iff _ 0).0 power) in
      (
        k,
        rw power e,
        pow_reflect k 63 (omega arith),
        omega arith,
        λ j le. pow_reflect k j (omega arith),
      )
  | inr other ↦ rw other (next_power_of_2_least n h small)
]

-- A loop that locks within the array ends with all locks held or with one refused.
pub lock_each-inside :
    (env : Env) (lock_count left i : ℕ)
    → i + left ≤ lock_count
    → (lock_each env lock_count left i ≡ held)
      ⊎ ((j : ℕ) × (lock_each env lock_count left i ≡ refused j)
          × (env.lock j ≡ false)
          × (j < i + left))
unfolding lock_each
lock_each-inside env lock_count zero i h = inl refl
lock_each-inside env lock_count (suc left) i h = elim (Bool-cases (env.lock i)) [
  | inr no_lock ↦ inr (i, ground arith, no_lock, omega arith)
  | inl given ↦ elim (lock_each-inside env lock_count left (i + 1) (omega arith)) [
    | inl all_held ↦ inl (ground arith)
    | inr (j, e, no_lock, lt) ↦ inr (j, ground arith, no_lock, omega arith)
  ]
]

-- Where no lock is refused, all are held.
pub lock_each-held :
    (env : Env) (lock_count left i : ℕ)
    → i + left ≤ lock_count
    → ((j : ℕ) → j < lock_count → env.lock j ≡ true)
    → lock_each env lock_count left i ≡ held
unfolding lock_each
lock_each-held env lock_count zero i h given = refl
lock_each-held env lock_count (suc left) i h given =
    ground
      (arith, given i (omega arith), lock_each-held env lock_count left (i + 1) (omega arith) given)

init_each-none : (ok : ℕ → Bool) (left i : ℕ) → ((j : ℕ) → ok j ≡ true) → init_each ok left i ≡ none
unfolding init_each
init_each-none ok zero i h = refl
init_each-none ok (suc left) i h = rw (h i) (init_each-none ok left (i + 1) h)

module _ {ℓ} {V : Type ℓ} where
  -- The table that `create_arrays` makes is empty, and its array of buckets fits a `size_t`.
  create_arrays-table :
      (env : Env) (n : ℕ) (t : Table V)
      → (create_arrays env n).table ≡ some t
      → (t ≡ empty_table n n) × (n * sizeof_bucket < 2 ^ 64)
  unfolding create_arrays
  create_arrays-table env n t h = elim (Bool-cases (calloc env n sizeof_bucket)) [
    | inl there ↦ (ground arith, ground arith)
    | inr none_there ↦ absurd (ground arith)
  ]

  -- What a created table is: a power of two of buckets, the least one that is not below the
  -- requested capacity, each with its lock, and no entries.
  pub record Created (n : ℕ) (t : Table V) : Type ℓ where
    pub exponent : ℕ
    pub power : t.buckets_count ≡ 2 ^ exponent
    pub enough : n ≤ t.buckets_count
    pub least : (j : ℕ) → n ≤ 2 ^ j → exponent ≤ j
    pub valid : IsValid t
    pub locks : t.lock_count ≡ t.buckets_count
    pub no_entries : (t.elem_count ≡ 0) × ((q : Bytes) → contents t q ≡ none)

  empty_table-Created :
      (n k : ℕ)
      → n ≤ 2 ^ k
      → ((j : ℕ) → n ≤ 2 ^ j → k ≤ j)
      → 2 ^ k * sizeof_bucket < 2 ^ 64
      → Created n (empty_table (2 ^ k) (2 ^ k))
  empty_table-Created n k enough least fits =
      let valid = empty_table-IsValid {V = V} (2 ^ k) (2 ^ k) k refl fits in
      record {
        exponent = k;
        power = refl;
        enough = enough;
        least = least;
        valid = valid;
        locks = refl;
        no_entries = (refl, λ q. contents-empty valid q refl);
      }

  -- For 0 < n <= 2^63, a table that `table_create` returns is valid, has as many locks as buckets, and
  -- no entries; its number of buckets is the least power of two that is not below n.
  pub table_create-Created :
      (env : Env) (n : ℕ) (t : Table V)
      → 0 < n
      → n ≤ 2 ^ 63
      → (table_create env n).table ≡ some t
      → Created n t
  unfolding table_create
  table_create-Created env n t h small made =
      let (k, e, narrow, enough, least) = adjust_capacity_least n h small in
      let (same, fits) : (t ≡ empty_table (2 ^ k) (2 ^ k)) × (2 ^ k * sizeof_bucket < 2 ^ 64) =
        create_arrays-table env (2 ^ k) t (ground arith) in
      subst (Created n) (sym same) (empty_table-Created n k enough least fits)

  -- Where every allocation of a size that fits succeeds and every lock is initialised, `table_create`
  -- returns a table for each capacity from 1 to 2^52.
  pub table_create_total :
      (env : Env) (n : ℕ)
      → 0 < n
      → n ≤ 2 ^ 52
      → ((size : ℕ) → env.malloc size ≡ true)
      → ((i : ℕ) → env.init_lock i ≡ true)
      → (t : Table V) × ((table_create env n).table ≡ some t) × Created n t
  unfolding table_create create_arrays
  table_create_total env n h small memory locks =
      let (k, e, narrow, enough, least) = adjust_capacity_least n h (omega arith) in
      let fits : 2 ^ k * sizeof_bucket < 2 ^ 64 = omega (arith, pow_mono k 52 (least 52 small)) in
      (
        empty_table (2 ^ k) (2 ^ k),
        ground (
          arith,
          memory sizeof_table,
          memory (2 ^ k * sizeof_bucket),
          memory (2 ^ k * env.sizeof_lock % 2 ^ 64),
          init_each-none env.init_lock (2 ^ k) 0 locks,
        ),
        empty_table-Created n k enough least fits,
      )
