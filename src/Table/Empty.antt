-- ===== src/Table/Empty.antt =====
-- Tables with no entries: the buckets that `calloc` gives, and cleared ones.
use simple_c_database.Prelude.{
  ℕ, zero, suc, ◌*◌, ◌^◌, ◌≤◌, ◌<◌, ◌≡◌, refl, sym, ◌∙◌, arith, none, [], ◌∷◌, length-replicate,
  get_or, get_or-replicate, replicate, All, one,
}
use simple_c_database.Strings.{Bytes}
use simple_c_database.Table.Buckets.{BucketOk, holds-in_use}
use simple_c_database.Table.Data.{Slot, Bucket, Table, empty_slot, empty_bucket, sizeof_bucket}
use simple_c_database.Table.Slots.{SlotOk, holds, tally, count, lookup-eq-none}
use simple_c_database.Table.Valid.{
  IsValid, used, total, le-total, contents, home, home-lt, contents-home,
}

module _ {ℓ} {V : Type ℓ} where
  tally-replicate : (w : Slot V → ℕ) (n : ℕ) (s : Slot V) → w s ≡ 0 → tally w (replicate n s) ≡ 0
  unfolding tally
  tally-replicate w zero s h = refl
  tally-replicate w (suc n) s h = omega (arith, h, tally-replicate w n s h)

  All-replicate {κ} : (P : Slot V → Type κ) (n : ℕ) (s : Slot V) → P s → All P (replicate n s)
  All-replicate P zero s p = tt
  All-replicate P (suc n) s p = (p, All-replicate P n s p)

  pub empty_bucket-BucketOk : (n i : ℕ) → BucketOk {V = V} n i empty_bucket
  unfolding holds
  empty_bucket-BucketOk n i = record {
    slots = refl;
    each = All-replicate (SlotOk n i) 8 empty_slot (length-replicate {A = ℕ} 255 0, λ e. cc);
    unique = λ q. omega (arith, tally-replicate (λ s. one (holds q s)) 8 empty_slot refl);
  }

  total-replicate :
      (w : Slot V → ℕ) (n : ℕ) → w empty_slot ≡ 0 → total w (replicate n empty_bucket) ≡ 0
  unfolding total
  total-replicate w zero h = refl
  total-replicate w (suc n) h =
      omega (arith, tally-replicate w 8 empty_slot h, total-replicate w n h)

  -- A table of empty buckets.
  abbrev pub empty_table : ℕ → ℕ → Table V
  empty_table n locks = record {
    buckets = replicate n empty_bucket;
    buckets_count = n;
    elem_count = 0;
    lock_count = locks;
  }

  pub empty_table-IsValid :
      (n locks e : ℕ) → n ≡ 2 ^ e → n * sizeof_bucket < 2 ^ 64 → IsValid (empty_table n locks)
  empty_table-IsValid n locks e power fits = record {
    exponent = e;
    power = power;
    width = length-replicate n empty_bucket;
    fits = fits;
    each = λ i lt.
        rw
          (get_or-replicate n i empty_bucket []
            (omega (arith, length-replicate {A = Bucket V} n empty_bucket)))
          (empty_bucket-BucketOk n i);
    counted = sym (total-replicate used n refl);
  }

  count-le-used : (q : Bytes) (b : Bucket V) → count q b ≤ tally used b
  unfolding tally
  count-le-used q [] = omega arith
  count-le-used q (s ∷ b) = ground (arith, holds-in_use q s, count-le-used q b)

  -- A valid table that counts no entry has none.
  pub contents-empty :
      {t : Table V} (v : IsValid t) (q : Bytes) → t.elem_count ≡ 0 → contents t q ≡ none
  contents-empty {t} v q h =
      contents-home v q
      ∙ lookup-eq-none q _ (
          omega (
            arith,
            count-le-used q (get_or t.buckets (home v q) []),
            le-total used t.buckets (home v q) (home-lt v q),
            v.counted,
          ))
