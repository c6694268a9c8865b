-- ===== src/Table/Growth.antt =====
-- Room in the new array of `table_resize`, where it is at least as large as the old one.
use native.Mathlib.Nat.{div-add-mod, mul-add-mod_self_left, mul_assoc, mod-lt, one-le-pow}
use simple_c_database.Prelude.{
  replicate, length-replicate, get_or-replicate, ℤ, ◌-◌, ◌^◌, ℕ, zero, suc, ◌+◌, ◌*◌, ◌/◌, ◌%◌, ◌≤◌,
  ◌<◌, ◌≡◌, ◌≢◌, inl, inr, refl, sym, ap, subst, ◌∙◌, arith, true, false, Option, none, some, List,
  [], ◌∷◌, length, length-set, get_or, get_or-set_self, get_or-set_ne, set, All, one, Bool-cases,
  ◌==◌,
}
use simple_c_database.Table.Data.{
  Slot, Bucket, Table, empty_bucket, Env, Reply, done, calloc, sizeof_bucket,
}
use simple_c_database.Table.Created.{adjust_capacity_least}
use simple_c_database.Table.Life.{adjust_capacity}
use simple_c_database.Table.Resized.{Resized, table_resize_lem}
use simple_c_database.Bitwise.Power.{pow-add, pow_reflect}
use simple_c_database.Table.Moved.{Placed, all_used, at, place_slot-Placed, moved}
use simple_c_database.Table.Resize.{
  Placing, no_room, placed, place_slot, place_in, table_resize, rehash_bucket, rehash_all,
}
use simple_c_database.Table.Slots.{SlotOk, tally, tally-set}
use simple_c_database.Table.Valid.{IsValid, used, tally-used-le}

-- The remainder by a multiple keeps the remainder by the number.
mod-mod_mul : (h m d : ℕ) → h % (m * d) % m ≡ h % m
mod-mod_mul h m d =
    sym (mul-add-mod_self_left m (d * (h / (m * d))) (h % (m * d)))
    ∙ ap (λ (x : ℕ). (x + h % (m * d)) % m) (sym (mul_assoc m d (h / (m * d))))
    ∙ ap (λ (x : ℕ). x % m) (div-add-mod h (m * d))

module _ {ℓ} {V : Type ℓ} where
  -- The slots in use of bucket `j`.
  abbrev load : List (Bucket V) → ℕ → ℕ
  load bs j = tally used (get_or bs j [])

  -- An array of `n` buckets of 8 slots.
  abbrev Shaped : ℕ → List (Bucket V) → Type 0
  Shaped n bs = (length bs ≡ n) × ((j : ℕ) → j < n → length (get_or bs j []) ≡ 8)

  -- One more entry in bucket `j`, the others as they are.
  record OneMore (n j : ℕ) (bs : List (Bucket V)) (p : Placing V) : Type ℓ where
    after : List (Bucket V)
    run : p ≡ placed after
    shape : Shaped n after
    more : load after j ≡ load bs j + 1
    others : (i : ℕ) → i ≢ j → load after i ≡ load bs i

  place_in-OneMore :
      (n : ℕ) (s : Slot V) (bs : List (Bucket V))
      → 0 < n
      → Shaped n bs
      → s.in_use ≡ true
      → load bs (s.hash % n) < 8
      → OneMore n (s.hash % n) bs (place_in n s bs)
  unfolding place_in
  place_in-OneMore n s bs pos shape taken room =
      settle (place_slot s (get_or bs (s.hash % n) [])) refl
        (omega (arith, mod-lt s.hash pos, shape.0)) (shape.1 (s.hash % n) (mod-lt s.hash pos))
        (place_slot-Placed s (get_or bs (s.hash % n) []))
    where
      settle :
          (p : Option (Bucket V))
          → place_slot s (get_or bs (s.hash % n) []) ≡ p
          → s.hash % n < length bs
          → length (get_or bs (s.hash % n) []) ≡ 8
          → Placed s (get_or bs (s.hash % n) []) p
          → OneMore n (s.hash % n) bs (place_in n s bs)
      settle none e lt full (all_used u) = absurd (omega arith)
      settle (some b) e lt full (at i inside free w) = record {
        after = set bs (s.hash % n) b;
        run = ground (arith, e);
        shape = (
          length-set bs (s.hash % n) b ∙ shape.0,
          λ q lt'. elim (Bool-cases (q == s.hash % n)) [
            | inl same ↦
                let here : q ≡ s.hash % n = ground arith in
                rw (here, get_or-set_self bs (s.hash % n) b [] lt, w)
                  (length-set (get_or bs (s.hash % n) []) i (moved s) ∙ full)
            | inr apart ↦ rw (get_or-set_ne bs (s.hash % n) q b [] (ground arith)) (shape.1 q lt')
          ],
        );
        more =
            rw (get_or-set_self bs (s.hash % n) b [] lt, w)
              (omega (
                arith,
                tally-set used (get_or bs (s.hash % n) []) i (moved s) inside,
                ap one free,
              ));
        others = λ i ne. ap (tally used) (get_or-set_ne bs (s.hash % n) i b [] (λ x. ne (sym x)));
      }

  place_in-free :
      (n : ℕ) (s : Slot V) (bs : List (Bucket V)) → s.in_use ≡ false → place_in n s bs ≡ placed bs
  unfolding place_in
  place_in-free n s bs e = rw e refl

  -- What the slots of bucket `i` of `m` fill: buckets of the new array whose index is `i` modulo `m`.
  record Fills (m i : ℕ) (n : ℕ) (bs : List (Bucket V)) (p : Placing V) : Type ℓ where
    after : List (Bucket V)
    run : p ≡ placed after
    shape : Shaped n after
    others : (j : ℕ) → j % m ≢ i → load after j ≡ load bs j

  abbrev HomeIn : ℕ → ℕ → Slot V → Type 0
  HomeIn m i s = s.in_use ≡ true → s.hash % m ≡ i

  module _ (n m d : ℕ) (pos : 0 < n) (multiple : n ≡ m * d) where
    rehash_bucket-Fills :
        (i : ℕ) (b : Bucket V) (bs : List (Bucket V))
        → Shaped n bs
        → All (HomeIn m i) b
        → ((j : ℕ) → j % m ≡ i → load bs j + tally used b ≤ 8)
        → Fills m i n bs (rehash_bucket n b bs)
    unfolding rehash_bucket tally
    rehash_bucket-Fills i [] bs shape homes room = record {
      after = bs;
      run = refl;
      shape = shape;
      others = λ j ne. refl;
    }
    rehash_bucket-Fills i (s ∷ b) bs shape homes room = elim (Bool-cases s.in_use) [
      | inr free ↦
          let rest = rehash_bucket-Fills i b bs shape homes.1 (λ j e. omega (arith, room j e)) in
          record {
            after = rest.after;
            run = rw (place_in-free n s bs free) rest.run;
            shape = rest.shape;
            others = rest.others;
          }
      | inl taken ↦
          let target : s.hash % n % m ≡ i = rw multiple (mod-mod_mul s.hash m d ∙ homes.0 taken) in
          let step =
            place_in-OneMore n s bs pos shape taken
              (omega (arith, room (s.hash % n) target, ap one taken)) in
          let rest = rehash_bucket-Fills i b step.after step.shape homes.1 (λ j e.
            elim (Bool-cases (j == s.hash % n)) [
              | inl same ↦
                  let here : j ≡ s.hash % n = ground arith in
                  rw here (omega (arith, room (s.hash % n) target, step.more, ap one taken))
              | inr apart ↦ omega (arith, room j e, step.others j (ground arith), ap one taken)
            ]) in
          record {
            after = rest.after;
            run = rw step.run rest.run;
            shape = rest.shape;
            others = λ j ne.
                rest.others j ne ∙ step.others j (λ e. ne (ap (λ (x : ℕ). x % m) e ∙ target));
          }
    ]

    rehash_all-room :
        (old bs : List (Bucket V)) (i : ℕ)
        → Shaped n bs
        → ((q : ℕ)
            → q < length old
            → All (HomeIn m (i + q)) (get_or old q []) × (tally used (get_or old q []) ≤ 8))
        → ((j : ℕ) → i ≤ j % m → load bs j ≡ 0)
        → (after : List (Bucket V)) × (rehash_all n old bs ≡ placed after)
    unfolding rehash_all
    rehash_all-room [] bs i shape fits empty = (bs, refl)
    rehash_all-room (b ∷ old) bs i shape fits empty =
        let e : i + 0 ≡ i = omega arith in
        let first = fits 0 (omega arith) in
        let homes = subst (λ (x : ℕ). All (HomeIn m x) b) e first.0 in
        let step =
          rehash_bucket-Fills i b bs shape homes
            (λ j at_i. omega (arith, empty j (omega arith), first.1)) in
        let (after, run) =
          rehash_all-room old step.after (i + 1) step.shape
            (λ q lt.
              let shift : i + suc q ≡ i + 1 + q = omega arith in
              subst
                (λ (x : ℕ). All (HomeIn m x) (get_or old q []) × (tally used (get_or old q []) ≤ 8))
                shift (fits (suc q) (omega arith)))
            (λ j above. step.others j (omega arith) ∙ empty j (omega arith)) in
        (after, rw step.run run)

module _ {ℓ} (V : Type ℓ) where
  load-replicate : (n j : ℕ) → tally {V = V} used (get_or (replicate n empty_bucket) j []) ≡ 0
  unfolding tally
  load-replicate zero j = refl
  load-replicate (suc n) zero = refl
  load-replicate (suc n) (suc j) = load-replicate n j

  replicate-Shaped : (n : ℕ) → Shaped n (replicate n (empty_bucket {V = V}))
  replicate-Shaped n =
      (length-replicate n empty_bucket, λ j lt. rw (get_or-replicate n j empty_bucket [] lt) refl)

module _ {ℓ} {V : Type ℓ} where
  SlotOk-HomeIn : (m i : ℕ) (b : Bucket V) → All (SlotOk m i) b → All (HomeIn m i) b
  SlotOk-HomeIn m i [] ok = tt
  SlotOk-HomeIn m i (s ∷ b) ok = (λ taken. (ok.0.1 taken).2, SlotOk-HomeIn m i b ok.1)

module _ {ℓ} {V : Type ℓ} {t : Table V} (v : IsValid t) where
  -- In an array of a multiple of the table's buckets, every entry finds room.
  multiple-room :
      (n d : ℕ)
      → 0 < n
      → n ≡ t.buckets_count * d
      → (after : List (Bucket V)) × (rehash_all n t.buckets (replicate n empty_bucket)
          ≡ placed after)
  multiple-room n d pos multiple =
      rehash_all-room n t.buckets_count d pos multiple t.buckets (replicate n empty_bucket) 0
        (replicate-Shaped V n)
        (λ q lt.
          let ok = v.each q lt in
          let e : 0 + q ≡ q = omega arith in
          (
            rw e (SlotOk-HomeIn t.buckets_count q (get_or t.buckets q []) ok.each),
            omega (arith, tally-used-le (get_or t.buckets q []), ok.slots),
          ))
        (λ j _. load-replicate V n j)

  -- For a capacity of 1 to 2^63, on a valid table, with every lock given, and with an adjusted capacity
  -- that is not below the number of buckets, not below the number of entries and whose array `calloc`
  -- gives, `table_resize` succeeds: no bucket of the new array is ever full. It returns 0 and leaves a
  -- valid table of the adjusted capacity with the same entries, count and locks.
  pub table_resize-grows :
      (env : Env) (capacity : ℕ)
      → 0 < capacity
      → capacity ≤ 2 ^ 63
      → ((i : ℕ) → i < t.lock_count → env.lock i ≡ true)
      → t.buckets_count ≤ adjust_capacity capacity
      → t.elem_count ≤ adjust_capacity capacity
      → calloc env (adjust_capacity capacity) sizeof_bucket ≡ true
      → (r : Reply V ℤ) × (table_resize env (some t) capacity ≡ done r)
        × Resized v (adjust_capacity capacity) r
  table_resize-grows env capacity h small given larger enough memory =
      let (k, e, narrow, _, _) = adjust_capacity_least capacity h small in
      let (r, run, outcome) = table_resize_lem v env capacity h small in
      elim outcome [
        | inl resized ↦ (r, run, resized)
        | inr (why, _) ↦ elim why [
          | inl (i, lt, refused) ↦ absurd (cc (given i lt))
          | inr (inl few) ↦ absurd (omega arith)
          | inr (inr (inl no_memory)) ↦ absurd (cc memory)
          | inr (inr (inr stuck)) ↦
              let wider = pow_reflect v.exponent k (omega (arith, v.power)) in
              let split : v.exponent + (k - v.exponent) ≡ k = omega arith in
              let multiple : adjust_capacity capacity ≡ t.buckets_count * 2 ^ (k - v.exponent) =
                e
                ∙ ap (λ (x : ℕ). 2 ^ x) (sym split)
                ∙ pow-add v.exponent (k - v.exponent)
                ∙ ap (λ (x : ℕ). x * 2 ^ (k - v.exponent)) (sym v.power) in
              let (after, run') =
                multiple-room (adjust_capacity capacity) (2 ^ (k - v.exponent))
                  (omega (arith, one-le-pow k 2)) multiple in
              let clash : no_room ≡ placed after = sym stuck ∙ run' in absurd (cc clash)
        ]
      ]
