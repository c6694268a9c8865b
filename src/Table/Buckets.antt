-- ===== src/Table/Buckets.antt =====
-- The invariant of a bucket, and what one write to a slot does to a bucket: in general, and for the
-- three writes of the code.
use mathlib.Core.Option
use simple_c_database.Hashing.{hash}
use simple_c_database.Hashing.Laws.{hash-c_str}
use simple_c_database.Prelude.{
  ℕ, zero, suc, ◌%◌, ◌≤◌, ◌<◌, ◌≡◌, refl, sym, ap, ◌∙◌, arith, Bool, true, false, ◌&&◌, Option,
  none, some, List, [], ◌∷◌, length, length-set, get_or, set, take_all, All, one, if◌then◌else◌,
}
use simple_c_database.Strings.Compare.{same_str, same_str_iff}
use simple_c_database.Strings.Copy.{ustrncpy-take}
use simple_c_database.Strings.{Bytes, c_str, ustrncpy, key_max_len}
use simple_c_database.Table.Data.{Slot, Bucket, empty_slot}
use simple_c_database.Table.Scan.{fill_slot}
use simple_c_database.Table.Slots.{
  SlotOk, holds, lookup, tally-set, le-tally, count, count_congr, lookup-eq-none, lookup-set_other,
  lookup-set_self,
}

-- A bucket has 8 slots, each in order, and no key twice.
pub record BucketOk {ℓ} {V : Type ℓ} (n i : ℕ) (b : Bucket V) : Type ℓ where
  pub slots : length b ≡ 8
  pub each : All (SlotOk n i) b
  pub unique : (q : Bytes) → count q b ≤ 1

module _ {ℓ κ} {A : Type ℓ} (P : A → Type κ) where
  pub All-get_or : (xs : List A) (i : ℕ) (d : A) → i < length xs → All P xs → P (get_or xs i d)
  All-get_or [] i d h a = absurd (omega arith)
  All-get_or (x ∷ xs) zero d h a = a.0
  All-get_or (x ∷ xs) (suc i) d h a = All-get_or xs i d (omega arith) a.1

  pub All-set : (xs : List A) (i : ℕ) (x : A) → P x → All P xs → All P (set xs i x)
  All-set [] i y p a = a
  All-set (x ∷ xs) zero y p a = (p, a.1)
  All-set (x ∷ xs) (suc i) y p a = (a.0, All-set xs i y p a.1)

-- A write of `s` to slot `j`, which held the key `k` if `old`, and holds it afterwards if `now`.
module _ {ℓ} {V : Type ℓ} (n i : ℕ) (b : Bucket V) (ok : BucketOk n i b) (j : ℕ) (lt : j < length b)
    (k : Bytes) (s : Slot V) (old now : Bool)
    (before : (q : Bytes) → holds q (get_or b j empty_slot) ≡ (old && same_str k q))
    (after : (q : Bytes) → holds q s ≡ (now && same_str k q))
    (fresh : old ≡ false → count k b ≡ 0) where
  count-write : (q : Bytes) → count q (set b j s) ≡ (if same_str k q then one now else count q b)
  count-write q = ground (
    arith,
    tally-set (λ (x : Slot V). one (holds q x)) b j s lt,
    le-tally (λ (x : Slot V). one (holds q x)) b j lt,
    before q,
    after q,
    same_str_iff k q,
    count_congr k q b,
    ok.unique q,
    fresh,
  )

  pub lookup-write :
      (q : Bytes)
      → lookup q (set b j s)
        ≡ (if same_str k q then (if now then some s.value else none) else lookup q b)
  lookup-write q = ground (
    arith,
    before q,
    after q,
    count-write q,
    lookup-set_self q b j s lt,
    lookup-set_other q b j s,
    lookup-eq-none q (set b j s),
  )

  pub write-BucketOk : SlotOk n i s → BucketOk n i (set b j s)
  write-BucketOk sok = record {
    slots = length-set b j s ∙ ok.slots;
    each = All-set (SlotOk n i) b j s sok ok.each;
    unique = λ q. ground (arith, count-write q, ok.unique q);
  }

copied_key :
    (dest k : Bytes)
    → length dest ≡ 255
    → length (c_str k) < 255
    → let out = Option.get_or (ustrncpy (some dest) (some k) key_max_len) dest in
      (length out ≡ 255) × (c_str out ≡ c_str k)
copied_key dest k e short =
    let (out, run, size, content) = ustrncpy-take dest k 255 (omega arith) (omega arith) in
    rw run (size ∙ e, content ∙ take_all 254 (c_str k) (omega arith))

module _ {ℓ} {V : Type ℓ} where
  -- A slot that holds `k` holds the keys that are the same string, and no others.
  pub holds_same :
      (k q : Bytes) (s : Slot V) → holds k s ≡ true → holds q s ≡ (true && same_str k q)
  unfolding holds
  holds_same k q s h = ground (arith, same_str_iff s.key k, same_str_iff s.key q, same_str_iff k q)

  pub holds-in_use : (q : Bytes) (s : Slot V) → holds q s ≡ true → s.in_use ≡ true
  unfolding holds
  holds-in_use q s h = ground arith

  -- The value of a slot does not matter to what it holds.
  pub holds_value :
      (q : Bytes) (s : Slot V) (value : Option V) → holds q (record s { value = value }) ≡ holds q s
  unfolding holds
  holds_value q s value = refl

  -- A slot that is not in use holds no key.
  pub holds_free : (q : Bytes) (s : Slot V) → s.in_use ≡ false → holds q s ≡ false
  unfolding holds
  holds_free q s e = ground arith

  module _ (n i : ℕ) (k : Bytes) (value : Option V) (s : Slot V) (short : length (c_str k) < 255)
      (sok : SlotOk n i s) (home : hash k % n ≡ i) where
    -- A filled slot is in order, and holds its key.
    pub fill_slot-SlotOk : SlotOk n i (fill_slot (hash k) k value s)
    unfolding fill_slot
    fill_slot-SlotOk =
        let (size, content) = copied_key s.key k sok.0 short in
        (
          size,
          λ _. (sym (hash-c_str _ k content), omega (arith, ap (length {A = ℕ}) content), home),
        )

    pub holds-fill_slot :
        (q : Bytes) → holds q (fill_slot (hash k) k value s) ≡ (true && same_str k q)
    unfolding fill_slot holds
    holds-fill_slot q =
        let (size, content) = copied_key s.key k sok.0 short in
        ground (
          arith,
          same_str_iff k q,
          same_str_iff (Option.get_or (ustrncpy (some s.key) (some k) key_max_len) s.key) q,
        )
