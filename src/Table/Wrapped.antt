-- ===== src/Table/Wrapped.antt =====
-- `table_resize` for a capacity whose next power of two does not fit a `size_t`.
use native.Mathlib.Nat.{one-le-pow}
use simple_c_database.Bits.{one_bit}
use simple_c_database.Bitwise.Power.{next_power_of_2_wraps, pow_mono}
use simple_c_database.Prelude.{
  ℕ, ◌-◌, ◌^◌, ◌<◌, ◌≡◌, inl, inr, refl, arith, true, false, bit_and, some, List, [], ◌∷◌, ◌++◌,
  ◌==◌, ==_iff, leb, Bool-cases, ℤ, pos,
}
use simple_c_database.Table.Created.{lock_each-held}
use simple_c_database.Table.Data.{
  Bucket, Table, Env, Reply, done, events_of, wrlocked, unlocked, allocated, freed, buckets_block,
}
use simple_c_database.Table.Life.{adjust_capacity}
use simple_c_database.Table.Resize.{
  placed, place_in, rehash_bucket, rehash_all, resize_locked, resize_reply, resize_to, table_resize,
}
use simple_c_database.Table.Slots.{tally}
use simple_c_database.Table.Valid.{IsValid, used, total}

adjust_capacity-wraps : (n : ℕ) → 2 ^ 63 < n → n < 2 ^ 64 → adjust_capacity n ≡ 0
unfolding adjust_capacity
adjust_capacity-wraps n big fits = elim (Bool-cases (bit_and n (n - 1) == 0)) [
  | inr other ↦ rw other (next_power_of_2_wraps n big fits)
  | inl power ↦
      let (k, e) = one_bit n (omega arith) ((==_iff _ 0).0 power) in
      elim (Bool-cases (leb k 63)) [
        | inl low ↦ absurd (omega (arith, pow_mono k 63 (ground arith)))
        | inr high ↦ absurd (omega (arith, pow_mono 64 k (ground arith)))
      ]
]

module _ {ℓ} {V : Type ℓ} where
  rehash_bucket-unused :
      (n : ℕ) (b : Bucket V) (bs : List (Bucket V))
      → tally used b ≡ 0
      → rehash_bucket n b bs ≡ placed bs
  unfolding rehash_bucket place_in tally
  rehash_bucket-unused n [] bs h = refl
  rehash_bucket-unused n (s ∷ b) bs h = ground (arith, rehash_bucket-unused n b bs)

  rehash_all-unused :
      (n : ℕ) (old bs : List (Bucket V)) → total used old ≡ 0 → rehash_all n old bs ≡ placed bs
  unfolding rehash_all total
  rehash_all-unused n [] bs h = refl
  rehash_all-unused n (b ∷ old) bs h =
      rw (rehash_bucket-unused n b bs (omega arith)) (rehash_all-unused n old bs (omega arith))

  -- The table without its buckets, and the reply that leaves it.
  abbrev bare : Table V → Table V
  bare t = record t { buckets = []; buckets_count = 0 }

  abbrev bared : Table V → Reply V ℤ
  bared t = record {
    result = pos 0;
    table = some (bare t);
    destroyed = [];
    events =
        events_of wrlocked t.lock_count 0
        ++ (allocated buckets_block ∷ freed buckets_block ∷ [])
        ++ events_of unlocked t.lock_count 0;
  }

  module _ (env : Env) {t : Table V} (v : IsValid t) (nothing : t.elem_count ≡ 0)
      (given : (i : ℕ) → i < t.lock_count → env.lock i ≡ true) (memory : env.malloc 0 ≡ true) where
    resize_locked-bare :
        resize_locked env t 0
        ≡ done (some (bare t), allocated buckets_block ∷ freed buckets_block ∷ [])
    unfolding resize_locked
    resize_locked-bare =
        ground (arith, rehash_all-unused 0 t.buckets [] (omega (arith, v.counted)), memory, nothing)

    resize_to-bare : resize_to env t 0 ≡ done (bared t)
    unfolding resize_to resize_reply
    resize_to-bare =
        let several : (0 == t.buckets_count) ≡ false =
          ground (arith, v.power, one-le-pow v.exponent 2 (omega arith)) in
        let held = lock_each-held env t.lock_count t.lock_count 0 (omega arith) given in
        rw (several, held, resize_to, resize_locked-bare) refl

    -- For 2^63 < n < 2^64, on a valid table with no entries, with every lock given and an allocation of
    -- 0 bytes that does not return NULL, `table_resize` returns 0 and leaves a table with no buckets.
    pub table_resize_wraps :
        (n : ℕ)
        → 2 ^ 63 < n
        → n < 2 ^ 64
        → (r : Reply V ℤ) × (table_resize env (some t) n ≡ done r)
          × (r.result ≡ pos 0)
          × (r.table ≡ some (record t { buckets = []; buckets_count = 0 }))
    unfolding table_resize
    table_resize_wraps n big fits =
        let asked : (n == 0) ≡ false = ground arith in
        (
          bared t,
          rw (asked, adjust_capacity-wraps n big fits, table_resize) resize_to-bare,
          refl,
          refl,
        )
