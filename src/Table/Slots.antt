-- ===== src/Table/Slots.antt =====
-- One bucket: which keys its slots hold, what it answers for a key, and counts over its slots.
use simple_c_database.Hashing.Laws.{hash-c_str}
use simple_c_database.Hashing.{hash}
use simple_c_database.Prelude.{
  ℕ, zero, suc, ◌+◌, ◌%◌, ◌≤◌, ◌<◌, ◌≡◌, inl, inr, refl, arith, Bool, true, false, ◌&&◌, Option,
  none, some, [], ◌∷◌, length, get_or, set, All, one, if◌then◌else◌, Bool-cases,
}
use simple_c_database.Strings.Compare.{same_str, same_str_iff, ustrncmp-same_str}
use simple_c_database.Strings.{Bytes, c_str}
use simple_c_database.Table.Data.{Slot, Bucket, empty_slot}
use simple_c_database.Table.Scan.{
  Scan, match_at, empty_at, full, matches, note_empty, scan, find_slot,
}

-- The lock-step facts of a slot in bucket `i` of `n`: its key array has 255 bytes, and in use it holds
-- a key that ends in them, under the hash of that key, in the bucket of that hash.
abbrev pub SlotOk {ℓ} : {V : Type ℓ} → ℕ → ℕ → Slot V → Type 0
SlotOk n i s =
    (length s.key ≡ 255)
    × (s.in_use ≡ true → (s.hash ≡ hash s.key) × (length (c_str s.key) < 255) × (s.hash % n ≡ i))

abbrev pub scan_result : Option ℕ → Option ℕ → Scan
scan_result (some i) e = match_at i
scan_result none (some i) = empty_at i
scan_result none none = full

module _ {ℓ} {V : Type ℓ} where
  unfoldable pub holds : Bytes → Slot V → Bool
  holds q s = s.in_use && same_str s.key q

  -- What a bucket answers for a key: the value of the slot that holds it.
  unfoldable pub lookup : Bytes → Bucket V → Option (Option V)
  unfolding holds
  lookup q [] = none
  lookup q (s ∷ b) = if holds q s then some s.value else lookup q b

  -- The sum of a weight over the slots.
  unfoldable pub tally : (Slot V → ℕ) → Bucket V → ℕ
  tally w [] = 0
  tally w (s ∷ b) = w s + tally w b

  abbrev pub count : Bytes → Bucket V → ℕ
  count q b = tally (λ s. one (holds q s)) b

  pub tally-set :
      (w : Slot V → ℕ) (b : Bucket V) (i : ℕ) (s : Slot V)
      → i < length b
      → tally w (set b i s) + w (get_or b i empty_slot) ≡ tally w b + w s
  unfolding tally
  tally-set w [] i s h = absurd (omega arith)
  tally-set w (x ∷ b) zero s h = omega arith
  tally-set w (x ∷ b) (suc i) s h = omega (arith, tally-set w b i s (omega arith))

  pub le-tally :
      (w : Slot V → ℕ) (b : Bucket V) (i : ℕ) → i < length b → w (get_or b i empty_slot) ≤ tally w b
  unfolding tally
  le-tally w [] i h = absurd (omega arith)
  le-tally w (x ∷ b) zero h = omega arith
  le-tally w (x ∷ b) (suc i) h = omega (arith, le-tally w b i (omega arith))

  pub holds_congr : (k q : Bytes) (s : Slot V) → c_str k ≡ c_str q → holds k s ≡ holds q s
  unfolding holds same_str
  holds_congr k q s e = rw e

  pub count_congr : (k q : Bytes) (b : Bucket V) → c_str k ≡ c_str q → count k b ≡ count q b
  unfolding tally
  count_congr k q [] e = refl
  count_congr k q (s ∷ b) e = rw (holds_congr k q s e, count_congr k q b e)

  pub lookup-eq-none : (q : Bytes) (b : Bucket V) → count q b ≡ 0 → lookup q b ≡ none
  unfolding lookup tally
  lookup-eq-none q [] h = refl
  lookup-eq-none q (s ∷ b) h = ground (arith, lookup-eq-none q b)

  pub count-eq-zero : (q : Bytes) (b : Bucket V) → lookup q b ≡ none → count q b ≡ 0
  unfolding lookup tally
  count-eq-zero q [] h = refl
  count-eq-zero q (s ∷ b) h = ground (arith, count-eq-zero q b)

  -- A write to a slot that holds the key neither before nor after leaves the answer.
  pub lookup-set_other :
      (q : Bytes) (b : Bucket V) (i : ℕ) (s : Slot V)
      → holds q (get_or b i empty_slot) ≡ false
      → holds q s ≡ false
      → lookup q (set b i s) ≡ lookup q b
  unfolding lookup
  lookup-set_other q [] i s old new = refl
  lookup-set_other q (x ∷ b) zero s old new = ground arith
  lookup-set_other q (x ∷ b) (suc i) s old new = ground (arith, lookup-set_other q b i s)

  pub count-set_self :
      (q : Bytes) (b : Bucket V) (i : ℕ) (s : Slot V)
      → i < length b
      → holds q s ≡ true
      → 1 ≤ count q (set b i s)
  unfolding tally
  count-set_self q [] i s h new = absurd (omega arith)
  count-set_self q (x ∷ b) zero s h new = ground arith
  count-set_self q (x ∷ b) (suc i) s h new = ground (arith, count-set_self q b i s)

  -- A slot that alone holds the key gives the answer.
  pub lookup-set_self :
      (q : Bytes) (b : Bucket V) (i : ℕ) (s : Slot V)
      → i < length b
      → holds q s ≡ true
      → count q (set b i s) ≤ 1
      → lookup q (set b i s) ≡ some s.value
  unfolding lookup tally
  lookup-set_self q [] i s h new once = absurd (omega arith)
  lookup-set_self q (x ∷ b) zero s h new once = ground arith
  lookup-set_self q (x ∷ b) (suc i) s h new once =
      ground (arith, lookup-set_self q b i s, count-set_self q b i s)

  -- Under the invariant of a slot the code's test is whether the slot holds the key.
  pub matches-holds :
      (n i : ℕ) (k : Bytes) (s : Slot V) → SlotOk n i s → matches (hash k) k s ≡ holds k s
  unfolding matches holds
  matches-holds n i k s ok = elim (Bool-cases s.in_use) [
    | inl used ↦
        let (e, short, home) = ok.1 used in
        ground (arith, ustrncmp-same_str s.key k short, same_str_iff s.key k, hash-c_str s.key k)
    | inr free ↦ ground arith
  ]

  -- The first slot from `j` on that holds the key, if there is one.
  pub data Found (k : Bytes) (b : Bucket V) (j : ℕ) : Option ℕ → Type ℓ where
    absent : count k b ≡ 0 → Found k b j none
    present :
        (i : ℕ) {r : ℕ}
        → r ≡ j + i
        → i < length b
        → holds k (get_or b i empty_slot) ≡ true
        → lookup k b ≡ some (get_or b i empty_slot).value
        → Found k b j (some r)

  pub find_slot-Found :
      (n m : ℕ) (k : Bytes) (b : Bucket V) (j : ℕ)
      → All (SlotOk n m) b
      → Found k b j (find_slot (hash k) k b j)
  unfolding find_slot tally lookup
  find_slot-Found n m k [] j ok = absent refl
  find_slot-Found n m k (s ∷ b) j ok =
      rw (matches-holds n m k s ok.0) (elim (Bool-cases (holds k s)) [
        | inl here ↦ rw here (present 0 (omega arith) (omega arith) here (rw here))
        | inr not_here ↦ rw not_here (later not_here (find_slot-Found n m k b (j + 1) ok.1))
      ])
    where
      later : {r : Option ℕ} → holds k s ≡ false → Found k b (j + 1) r → Found k (s ∷ b) j r
      later not_here (absent e) = absent (rw (not_here, e) (omega arith))
      later not_here (present i e lt here value) =
          present (suc i) (omega arith) (omega arith) here (rw not_here value)

  -- The first slot from `j` on that is free, unless one before is known.
  abbrev pub first_free : Bucket V → ℕ → Option ℕ → Option ℕ
  first_free [] j e = e
  first_free (s ∷ b) j e = first_free b (j + 1) (note_empty s j e)

  -- The one loop of `table_set` finds what a search for the key and a search for a free slot find.
  pub scan-find_slot :
      (h : ℕ) (k : Bytes) (b : Bucket V) (j : ℕ) (e : Option ℕ)
      → scan h k b j e ≡ scan_result (find_slot h k b j) (first_free b j e)
  unfolding scan find_slot
  scan-find_slot h k [] j none = refl
  scan-find_slot h k [] j (some x) = refl
  scan-find_slot h k (s ∷ b) j e =
      rw (scan-find_slot h k b (j + 1) (note_empty s j e)) (ground arith)
