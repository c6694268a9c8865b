-- ===== src/Table/Writes.antt =====
-- What a write to a valid table is, and that the writes of the code are such: a new value in a slot
-- that holds the key, a new entry in a free slot, and the deletion of an entry.
use simple_c_database.Hashing.{hash}
use simple_c_database.Prelude.{
  ℕ, ◌+◌, ◌-◌, ◌%◌, ◌^◌, ◌≤◌, ◌<◌, ◌≡◌, refl, ap, ◌∙◌, arith, Bool, true, false, ◌&&◌, Option, none,
  some, [], length, get_or, set, one, if◌then◌else◌,
}
use simple_c_database.Strings.Compare.{same_str, same_str_iff}
use simple_c_database.Strings.{Bytes, c_str}
use simple_c_database.Table.Buckets.{
  BucketOk, All-get_or, lookup-write, write-BucketOk, holds_same, holds_free, holds-in_use,
  holds_value, fill_slot-SlotOk, holds-fill_slot,
}
use simple_c_database.Table.Data.{Slot, Bucket, Table, empty_slot, Env, Event, done, unchanged}
use simple_c_database.Table.Scan.{
  bucket_index, put_bucket, is_some, Work, worked, with_bucket, fill_slot, delete_slot,
}
use simple_c_database.Table.Slots.{
  SlotOk, holds, tally, tally-set, le-tally, count, count-eq-zero, lookup-eq-none,
}
use simple_c_database.Table.Valid.{
  IsValid, IsLocked, used, le-total, elem_count-le, contents, home, home-lt, bucket_index-mod,
  contents-home, put_bucket-IsValid, contents-put_bucket,
}

-- `after` is a valid table that answers as `t` does, but for the key `k`, where it answers `answer`;
-- its count follows.
pub record Updates {ℓ} {V : Type ℓ} (t : Table V) (k : Bytes) (answer : Option (Option V))
    (after : Table V) : Type ℓ where
  pub valid : IsValid after
  pub shape : (after.buckets_count ≡ t.buckets_count) × (after.lock_count ≡ t.lock_count)
  pub reads : (q : Bytes) → contents after q ≡ (if same_str k q then answer else contents t q)
  pub counts : after.elem_count + one (is_some (contents t k)) ≡ t.elem_count + one (is_some answer)

-- Work on the home bucket of a key in a valid table that has its locks: nothing is accessed out of
-- bounds, and the work is done if the lock is given.
pub with_bucket-home {ℓ κ} :
    {V : Type ℓ} {R : Type κ} {t : Table V} (v : IsValid t)
    → IsLocked t
    → (env : Env) (locked : ℕ → Event) (k : Bytes) (refusal : R) (work : Bucket V → Work V R)
    → with_bucket env locked t (bucket_index (hash k) t.buckets_count) refusal work ≡ (
        if env.lock (home v k)
        then done (worked locked t (home v k) (work (get_or t.buckets (home v k) [])))
        else done (unchanged refusal (some t)))
unfolding with_bucket
with_bucket-home {t = t} v l env locked k refusal work =
    rw (bucket_index-mod (hash k) t.buckets_count v.exponent v.power v.fits)
      (ground (arith, home-lt v k, v.width))

module _ {ℓ} {V : Type ℓ} {t : Table V} (v : IsValid t) (k : Bytes) where
  abbrev pub home_bucket : Bucket V
  home_bucket = get_or t.buckets (home v k) []

  abbrev bok : BucketOk t.buckets_count (home v k) home_bucket
  bok = v.each (home v k) (home-lt v k)

  -- The whole table after a write to slot `j` of the home bucket of `k`.
  module _ (j : ℕ) (lt : j < length home_bucket) (s : Slot V) (old now : Bool)
      (before : (q : Bytes) → holds q (get_or home_bucket j empty_slot) ≡ (old && same_str k q))
      (after : (q : Bytes) → holds q s ≡ (now && same_str k q))
      (fresh : old ≡ false → count k home_bucket ≡ 0) (sok : SlotOk t.buckets_count (home v k) s)
      (now_used : s.in_use ≡ now) (old_used : (get_or home_bucket j empty_slot).in_use ≡ old)
      (elems : ℕ) (counted : elems + one old ≡ t.elem_count + one now) where
    pub slot-Updates :
        Updates t k
          (if now then some s.value else none)
          (put_bucket t (home v k) (set home_bucket j s) elems)
    slot-Updates =
        let kept : elems + tally used home_bucket
            ≡ t.elem_count + tally used (set home_bucket j s) =
          omega
            (arith, counted, tally-set used home_bucket j s lt, ap one now_used, ap one old_used) in
        let bucket =
          write-BucketOk t.buckets_count (home v k) home_bucket bok j lt k s old now before after
            fresh sok in
        let reads =
          lookup-write t.buckets_count (home v k) home_bucket bok j lt k s old now before after
            fresh in
        record {
          valid = put_bucket-IsValid v k (set home_bucket j s) elems _ bucket kept reads;
          shape = (refl, refl);
          reads = contents-put_bucket v k (set home_bucket j s) elems _ bucket kept reads;
          counts = ground (
            arith,
            contents-home v k,
            before k,
            same_str_iff k k,
            fresh,
            lookup-eq-none k home_bucket,
            count-eq-zero k home_bucket,
            le-tally (λ (x : Slot V). one (holds k x)) home_bucket j lt,
          );
        }

  -- A new value in the slot that holds the key.
  pub value-Updates :
      (j : ℕ) (value : Option V)
      → j < length home_bucket
      → holds k (get_or home_bucket j empty_slot) ≡ true
      → Updates t k (some value) (
          put_bucket t
            (home v k)
            (set home_bucket j (record (get_or home_bucket j empty_slot) { value = value }))
            t.elem_count)
  value-Updates j value lt here =
      let s = get_or home_bucket j empty_slot in
      let same = λ (q : Bytes). holds_same k q s here in
      slot-Updates j lt (record s { value = value }) true true same
        (λ q. holds_value q s value ∙ same q) (λ e. cc)
        (All-get_or (SlotOk t.buckets_count (home v k)) home_bucket j empty_slot lt bok.each)
        (holds-in_use k s here) (holds-in_use k s here) t.elem_count refl

  -- A new entry in a free slot, where the bucket has none for the key.
  pub fill-Updates :
      (j : ℕ) (value : Option V)
      → length (c_str k) < 255
      → j < length home_bucket
      → (get_or home_bucket j empty_slot).in_use ≡ false
      → count k home_bucket ≡ 0
      → Updates t k (some value) (
          put_bucket t
            (home v k)
            (set home_bucket j (fill_slot (hash k) k value (get_or home_bucket j empty_slot)))
            ((t.elem_count + 1) % 2 ^ 64))
  unfolding fill_slot
  fill-Updates j value short lt free absent =
      let s = get_or home_bucket j empty_slot in
      let sok =
        All-get_or (SlotOk t.buckets_count (home v k)) home_bucket j empty_slot lt bok.each in
      slot-Updates j lt (fill_slot (hash k) k value s) false true (λ q. holds_free q s free)
        (holds-fill_slot t.buckets_count (home v k) k value s short sok refl) (λ _. absent)
        (fill_slot-SlotOk t.buckets_count (home v k) k value s short sok refl) refl free _
        (omega (arith, v.fits, elem_count-le v))

  -- The deletion of the entry for the key.
  pub delete-Updates :
      (j : ℕ)
      → j < length home_bucket
      → holds k (get_or home_bucket j empty_slot) ≡ true
      → Updates t k none (
          put_bucket t
            (home v k)
            (set home_bucket j (delete_slot (get_or home_bucket j empty_slot)))
            ((t.elem_count + 2 ^ 64 - 1) % 2 ^ 64))
  delete-Updates j lt here =
      let s = get_or home_bucket j empty_slot in
      let sok =
        All-get_or (SlotOk t.buckets_count (home v k)) home_bucket j empty_slot lt bok.each in
      let some_used : 1 ≤ t.elem_count = omega (
        arith,
        v.counted,
        ap one (holds-in_use k s here),
        le-tally used home_bucket j lt,
        le-total used t.buckets (home v k) (home-lt v k),
      ) in
      slot-Updates j lt (delete_slot s) true false (λ q. holds_same k q s here)
        (λ q. holds_free q (delete_slot s) refl) (λ e. cc) (sok.0, λ e. cc) refl
        (holds-in_use k s here) _ (omega (arith, v.fits, elem_count-le v))
