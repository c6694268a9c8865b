-- ===== src/Table/Valid.antt =====
-- The invariant of a table and its abstract view: a partial map from strings to values, read off all
-- buckets with no use of a hash.
use native.Mathlib.Nat.{mod-lt, one-le-pow}
use simple_c_database.Bits.{bit_and_ones}
use simple_c_database.Hashing.Laws.{hash-c_str}
use simple_c_database.Hashing.{hash}
use simple_c_database.Prelude.{
  ℕ, zero, suc, ◌+◌, ◌-◌, ◌*◌, ◌%◌, ◌^◌, ◌≤◌, ◌<◌, ◌≡◌, ◌≢◌, ◌⊎◌, inl, inr, refl, sym, ap, subst,
  ◌∙◌, arith, Option, none, some, List, [], ◌∷◌, length, length-set, get_or, get_or-set_self,
  get_or-set_ne, set, All, one, if◌then◌else◌, Bool-cases,
}
use simple_c_database.Strings.Compare.{same_str, same_str_iff}
use simple_c_database.Strings.{Bytes}
use simple_c_database.Table.Buckets.{BucketOk}
use simple_c_database.Table.Data.{Slot, Bucket, Table, sizeof_bucket}
use simple_c_database.Table.Scan.{bucket_index, put_bucket}
use simple_c_database.Table.Slots.{SlotOk, holds, lookup, tally, count, lookup-eq-none}

module _ {ℓ} {V : Type ℓ} where
  -- The sum of a weight over all slots.
  unfoldable pub total : (Slot V → ℕ) → List (Bucket V) → ℕ
  total w [] = 0
  total w (b ∷ bs) = tally w b + total w bs

  -- 1 for a slot in use.
  abbrev pub used : Slot V → ℕ
  used s = one s.in_use

  -- The value that the buckets hold for a key, wherever it stands.
  unfoldable pub lookup_all : Bytes → List (Bucket V) → Option (Option V)
  unfolding lookup
  lookup_all q [] = none
  lookup_all q (b ∷ bs) = elim (lookup q b) [ some v ↦ some v | none ↦ lookup_all q bs ]

  abbrev pub contents : Table V → Bytes → Option (Option V)
  contents t q = lookup_all q t.buckets

-- A table in order: a power of two of buckets whose array `calloc` could give, every entry in the
-- bucket of its hash, no key twice, and the number of entries counted.
pub record IsValid {ℓ} {V : Type ℓ} (t : Table V) : Type ℓ where
  pub exponent : ℕ
  pub power : t.buckets_count ≡ 2 ^ exponent
  pub width : length t.buckets ≡ t.buckets_count
  pub fits : t.buckets_count * sizeof_bucket < 2 ^ 64
  pub each : (i : ℕ) → i < length t.buckets → BucketOk t.buckets_count i (get_or t.buckets i [])
  pub counted : t.elem_count ≡ total used t.buckets

-- Every bucket has its lock.
abbrev pub IsLocked {ℓ} : {V : Type ℓ} → Table V → Type 0
IsLocked t = t.buckets_count ≤ t.lock_count

-- Where the number of buckets is a power of two and their array has fewer than 2^64 bytes, the mask of
-- the code is the remainder of the hash by the number of buckets.
pub bucket_index-mod :
    (h n e : ℕ) → n ≡ 2 ^ e → n * sizeof_bucket < 2 ^ 64 → bucket_index h n ≡ h % n
unfolding bucket_index
bucket_index-mod h n e p fits =
    let pos = one-le-pow e 2 (omega arith) in
    let m : (n + 2 ^ 64 - 1) % 2 ^ 64 ≡ 2 ^ e - 1 = omega arith in rw (m, p) (bit_and_ones e h)

Nat-eq : (a b : ℕ) → (a ≡ b) ⊎ (a ≢ b)
Nat-eq a b = ground arith

module _ {ℓ} {V : Type ℓ} where
  pub total-set :
      (w : Slot V → ℕ) (bs : List (Bucket V)) (i : ℕ) (b : Bucket V)
      → i < length bs
      → total w (set bs i b) + tally w (get_or bs i []) ≡ total w bs + tally w b
  unfolding total
  total-set w [] i b h = absurd (omega arith)
  total-set w (x ∷ bs) zero b h = omega arith
  total-set w (x ∷ bs) (suc i) b h = omega (arith, total-set w bs i b (omega arith))

  pub le-total :
      (w : Slot V → ℕ) (bs : List (Bucket V)) (i : ℕ)
      → i < length bs
      → tally w (get_or bs i []) ≤ total w bs
  unfolding total
  le-total w [] i h = absurd (omega arith)
  le-total w (x ∷ bs) zero h = omega arith
  le-total w (x ∷ bs) (suc i) h = omega (arith, le-total w bs i (omega arith))

  pub tally-used-le : (b : Bucket V) → tally used b ≤ length b
  unfolding tally
  tally-used-le [] = omega arith
  tally-used-le (s ∷ b) = ground (arith, tally-used-le b)

  total-used-le :
      (bs : List (Bucket V))
      → ((i : ℕ) → i < length bs → length (get_or bs i []) ≡ 8)
      → total used bs ≤ 8 * length bs
  unfolding total
  total-used-le [] h = omega arith
  total-used-le (b ∷ bs) h =
      let rest = total-used-le bs (λ i lt. h (suc i) (omega arith)) in
      omega (arith, h 0 (omega arith), tally-used-le b)

  -- A slot in another bucket than the key's does not hold the key.
  count_elsewhere :
      (n i : ℕ) (q : Bytes) (b : Bucket V) → All (SlotOk n i) b → hash q % n ≢ i → count q b ≡ 0
  unfolding tally holds
  count_elsewhere n i q [] ok away = refl
  count_elsewhere n i q (s ∷ b) ok away = elim (Bool-cases s.in_use) [
    | inl taken ↦
        let (e, short, home) = ok.0.1 taken in
        ground (arith, count_elsewhere n i q b ok.1 away, same_str_iff s.key q, hash-c_str s.key q)
    | inr free ↦ ground (arith, count_elsewhere n i q b ok.1 away)
  ]

  pub lookup_all-eq-none :
      (q : Bytes) (bs : List (Bucket V))
      → total (λ s. one (holds q s)) bs ≡ 0
      → lookup_all q bs ≡ none
  unfolding lookup_all total
  lookup_all-eq-none q [] h = refl
  lookup_all-eq-none q (b ∷ bs) h = ground (arith, lookup-eq-none q b, lookup_all-eq-none q bs)

  total_nowhere :
      (w : Slot V → ℕ) (bs : List (Bucket V))
      → ((i : ℕ) → i < length bs → tally w (get_or bs i []) ≡ 0)
      → total w bs ≡ 0
  unfolding total
  total_nowhere w [] h = refl
  total_nowhere w (b ∷ bs) h =
      omega (arith, h 0 (omega arith), total_nowhere w bs (λ i lt. h (suc i) (omega arith)))

  total_only :
      (w : Slot V → ℕ) (bs : List (Bucket V)) (j : ℕ)
      → ((i : ℕ) → i < length bs → i ≢ j → tally w (get_or bs i []) ≡ 0)
      → total w bs ≡ tally w (get_or bs j [])
  unfolding total tally
  total_only w [] j h = refl
  total_only w (b ∷ bs) zero h =
      omega (arith, total_nowhere w bs (λ i l. h (suc i) (omega arith) (omega arith)))
  total_only w (b ∷ bs) (suc j) h = omega (
    arith,
    h 0 (omega arith) (omega arith),
    total_only w bs j (λ i l ne. h (suc i) (omega arith) (omega arith)),
  )

  lookup_all_nowhere :
      (q : Bytes) (bs : List (Bucket V))
      → ((i : ℕ) → i < length bs → lookup q (get_or bs i []) ≡ none)
      → lookup_all q bs ≡ none
  unfolding lookup_all
  lookup_all_nowhere q [] h = refl
  lookup_all_nowhere q (b ∷ bs) h =
      let rest = lookup_all_nowhere q bs (λ i lt. h (suc i) (omega arith)) in
      ground (arith, h 0 (omega arith), rest)

  lookup_all_only :
      (q : Bytes) (bs : List (Bucket V)) (j : ℕ)
      → j < length bs
      → ((i : ℕ) → i < length bs → i ≢ j → lookup q (get_or bs i []) ≡ none)
      → lookup_all q bs ≡ lookup q (get_or bs j [])
  unfolding lookup_all
  lookup_all_only q [] j lt h = absurd (omega arith)
  lookup_all_only q (b ∷ bs) zero lt h =
      let rest = lookup_all_nowhere q bs (λ i l. h (suc i) (omega arith) (omega arith)) in
      ground (arith, rest)
  lookup_all_only q (b ∷ bs) (suc j) lt h =
      let rest =
        lookup_all_only q bs j (omega arith) (λ i l ne. h (suc i) (omega arith) (omega arith)) in
      ground (arith, h 0 (omega arith) (omega arith), rest)

-- Where the key of a valid table can stand.
module _ {ℓ} {V : Type ℓ} {t : Table V} (v : IsValid t) where
  abbrev pub home : Bytes → ℕ
  home q = hash q % t.buckets_count

  pub buckets_pos : 0 < t.buckets_count
  buckets_pos = omega (arith, v.power, one-le-pow v.exponent 2 (omega arith))

  -- The count is bounded by the slots, so that neither an increment nor a decrement of it wraps.
  pub elem_count-le : t.elem_count ≤ 8 * t.buckets_count
  elem_count-le =
      omega (arith, v.counted, v.width, total-used-le t.buckets (λ i lt. (v.each i lt).slots))

  pub home-lt : (q : Bytes) → home q < length t.buckets
  home-lt q = omega (arith, v.width, mod-lt (hash q) buckets_pos)

  -- The whole table answers for a key as the one bucket of its hash does.
  pub contents-home : (q : Bytes) → contents t q ≡ lookup q (get_or t.buckets (home q) [])
  contents-home q = lookup_all_only q t.buckets (home q) (home-lt q) (λ i lt ne.
      lookup-eq-none q _
        (count_elsewhere t.buckets_count i q _ (v.each i lt).each (λ e. ne (sym e))))

  -- No key stands twice in the whole table.
  pub count_total-le : (q : Bytes) → total (λ s. one (holds q s)) t.buckets ≤ 1
  count_total-le q = omega (
    arith,
    total_only (λ s. one (holds q s)) t.buckets (home q)
        (λ i lt ne. count_elsewhere t.buckets_count i q _ (v.each i lt).each (λ e. ne (sym e))),
    (v.each (home q) (home-lt q)).unique q,
  )

-- The locks do not matter to the invariant.
pub IsValid_locks {ℓ} :
    {V : Type ℓ} (s t : Table V)
    → IsValid s
    → s.buckets ≡ t.buckets
    → s.buckets_count ≡ t.buckets_count
    → s.elem_count ≡ t.elem_count
    → IsValid t
IsValid_locks s t v p q r =
    subst IsValid
      (λ i. record {
        buckets = p i;
        buckets_count = q i;
        elem_count = r i;
        lock_count = t.lock_count;
      })
      (record {
        exponent = v.exponent;
        power = v.power;
        width = v.width;
        fits = v.fits;
        each = v.each;
        counted = v.counted;
      })

-- A write that puts the bucket `b` in place of the home bucket of `k`, and changes there only the
-- answer for the key `k`, to `answer`.
module _ {ℓ} {V : Type ℓ} {t : Table V} (v : IsValid t) (k : Bytes) (b : Bucket V) (elems : ℕ)
    (answer : Option (Option V)) (bok : BucketOk t.buckets_count (home v k) b)
    (kept : elems + tally used (get_or t.buckets (home v k) []) ≡ t.elem_count + tally used b)
    (reads : (q : Bytes)
      → lookup q b
        ≡ (if same_str k q then answer else lookup q (get_or t.buckets (home v k) []))) where
  each_written :
      (i : ℕ)
      → i < length (set t.buckets (home v k) b)
      → BucketOk t.buckets_count i (get_or (set t.buckets (home v k) b) i [])
  each_written i lt = elim (Nat-eq i (home v k)) [
    | inl e ↦ rw (e, get_or-set_self t.buckets (home v k) b [] (home-lt v k)) bok
    | inr ne ↦
        rw (get_or-set_ne t.buckets (home v k) i b [] (λ e. ne (sym e)))
          (v.each i (omega (arith, length-set t.buckets (home v k) b)))
  ]

  pub put_bucket-IsValid : IsValid (put_bucket t (home v k) b elems)
  put_bucket-IsValid = record {
    exponent = v.exponent;
    power = v.power;
    width = length-set t.buckets (home v k) b ∙ v.width;
    fits = v.fits;
    each = each_written;
    counted = omega (arith, v.counted, total-set used t.buckets (home v k) b (home-lt v k));
  }

  pub contents-put_bucket :
      (q : Bytes)
      → contents (put_bucket t (home v k) b elems) q
        ≡ (if same_str k q then answer else contents t q)
  contents-put_bucket q =
      rw (contents-home put_bucket-IsValid q, contents-home v q)
        (elim (Nat-eq (home v q) (home v k)) [
          | inl e ↦ rw (e, get_or-set_self t.buckets (home v k) b [] (home-lt v k)) (reads q)
          | inr ne ↦
              rw (get_or-set_ne t.buckets (home v k) (home v q) b [] (λ e. ne (sym e)))
                (elim (Bool-cases (same_str k q)) [
                  | inl same ↦ absurd (
                      ne (
                        ap (λ (h : ℕ). h % t.buckets_count)
                          (sym (hash-c_str k q ((same_str_iff k q).0 same)))))
                  | inr other ↦ rw other
                ])
        ])
