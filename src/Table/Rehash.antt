-- ===== src/Table/Rehash.antt =====
-- The rehashing loops of `table_resize`: the new array, read as a table, gains the entries one by one.
use simple_c_database.Prelude.{
  ℕ, ◌+◌, ◌%◌, ◌≤◌, ◌<◌, ◌≡◌, ◌⊎◌, inl, inr, refl, sym, ap, subst, ◌∙◌, arith, true, Option, none,
  some, List, [], ◌∷◌, set, All, one, if◌then◌else◌, Bool-cases,
}
use simple_c_database.Strings.Compare.{same_str_iff}
use simple_c_database.Strings.{Bytes}
use simple_c_database.Table.Buckets.{holds-in_use}
use simple_c_database.Table.Data.{Slot, Bucket, Table}
use simple_c_database.Table.Resize.{
  Placing, no_room, placed, place_slot, place_in, then_placed, rehash_bucket, rehash_all,
}
use simple_c_database.Table.Scan.{put_bucket, is_some}
use simple_c_database.Table.Slots.{holds, lookup, tally, count, lookup-eq-none}
use simple_c_database.Table.Valid.{
  IsValid, used, total, contents, home, lookup_all, lookup_all-eq-none, buckets_pos,
}
use simple_c_database.Table.Writes.{home_bucket}
use simple_c_database.Table.Moved.{
  KeyOk, moved, Placed, all_used, at, place_slot-Placed, moved-Updates,
}

abbrev pub or_else {ℓ} : {A : Type ℓ} → Option A → Option A → Option A
or_else (some a) o = some a
or_else none o = o

-- `bs` is the array of a valid table that has the entries of `t` and `amount` more, which answer as
-- `answers` does.
pub record Gains {ℓ} {V : Type ℓ} (t : Table V) (answers : Bytes → Option (Option V)) (amount : ℕ)
    (bs : List (Bucket V)) : Type ℓ where
  pub after : Table V
  pub buckets : after.buckets ≡ bs
  pub valid : IsValid after
  pub same_count : after.buckets_count ≡ t.buckets_count
  pub elems : after.elem_count ≡ t.elem_count + amount
  pub reads : (q : Bytes) → contents after q ≡ or_else (answers q) (contents t q)

-- The rehashing ends with such an array, or finds a bucket full; it does not crash.
pub data Rehashed {ℓ} {V : Type ℓ} (t : Table V) (answers : Bytes → Option (Option V)) (amount : ℕ)
    : Placing V → Type ℓ where
  stuck : Rehashed t answers amount no_room
  gained :
      {bs : List (Bucket V)} → Gains t answers amount bs → Rehashed t answers amount (placed bs)

Nat-cases : (n : ℕ) → (n ≡ 0) ⊎ (0 < n)
Nat-cases n = omega arith

module _ {ℓ} {V : Type ℓ} where
  abbrev answer_of : Slot V → Bytes → Option (Option V)
  answer_of s q = if holds q s then some s.value else none

  holds-own_key : (s : Slot V) → s.in_use ≡ true → holds s.key s ≡ true
  unfolding holds
  holds-own_key s e = ground (arith, same_str_iff s.key s.key)

  after_slot : ℕ → List (Bucket V) → Option (Bucket V) → Placing V
  after_slot i bs none = no_room
  after_slot i bs (some b) = placed (set bs i b)

  module _ {t : Table V} (v : IsValid t) (s : Slot V) (ok : KeyOk s) where
    after_slot-Rehashed :
        (r : Option (Bucket V))
        → s.in_use ≡ true
        → contents t s.key ≡ none
        → Placed s (home_bucket v s.key) r
        → Rehashed t (answer_of s) 1 (after_slot (home v s.key) t.buckets r)
    unfolding after_slot holds
    after_slot-Rehashed none taken fresh (all_used e) = stuck
    after_slot-Rehashed (some b) taken fresh (at j lt free e) =
        let u = moved-Updates v s ok taken fresh j lt free in
        gained (record {
          after =
              put_bucket t (home v s.key) (set (home_bucket v s.key) j (moved s))
                (t.elem_count + 1);
          buckets = rw e;
          valid = u.valid;
          same_count = refl;
          elems = refl;
          reads = λ q. ground (arith, u.reads q);
        })

    place_in-Rehashed :
        (s.in_use ≡ true → contents t s.key ≡ none)
        → Rehashed t (answer_of s) (used s) (place_in t.buckets_count s t.buckets)
    unfolding place_in after_slot
    place_in-Rehashed fresh = elim (Bool-cases s.in_use) [
      | inr free ↦
          let e : place_in t.buckets_count s t.buckets ≡ placed t.buckets = ground arith in
          subst (Rehashed t (answer_of s) (used s)) (sym e) (
            gained (record {
              after = t;
              buckets = refl;
              valid = v;
              same_count = refl;
              elems = omega (arith, ap one free);
              reads = λ q. ground (arith, holds-in_use q s);
            }))
      | inl taken ↦
          let at_home : s.hash % t.buckets_count ≡ home v s.key =
            ap (λ (h : ℕ). h % t.buckets_count) (ok.1 taken).0 in
          let e : place_in t.buckets_count s t.buckets
              ≡ after_slot (home v s.key) t.buckets (place_slot s (home_bucket v s.key)) =
            ground (arith, at_home, buckets_pos v) in
          let amount : 1 ≡ used s = omega (arith, ap one taken) in
          subst (Rehashed t (answer_of s) (used s)) (sym e) (
            subst
              (λ a.
                Rehashed t (answer_of s) a
                  (after_slot (home v s.key) t.buckets (place_slot s (home_bucket v s.key))))
              amount
              (after_slot-Rehashed (place_slot s (home_bucket v s.key)) taken (fresh taken)
                (place_slot-Placed s (home_bucket v s.key))))
    ]

  -- Two steps, one after the other.
  Gains-trans :
      {t : Table V} {f g : Bytes → Option (Option V)} {a b : ℕ} {bs cs : List (Bucket V)}
      (first : Gains t f a bs)
      → Gains first.after g b cs
      → (h : Bytes → Option (Option V)) (c : ℕ) → c ≡ a + b
      → ((q : Bytes) (o : Option (Option V)) → or_else (g q) (or_else (f q) o) ≡ or_else (h q) o)
      → Gains t h c cs
  Gains-trans {t = t} first second h c sum same = record {
    after = second.after;
    buckets = second.buckets;
    valid = second.valid;
    same_count = second.same_count ∙ first.same_count;
    elems = omega (arith, first.elems, second.elems);
    reads = λ q. rw (second.reads q, first.reads q) (same q (contents t q));
  }

  Rehashed-trans :
      {t : Table V} {f g : Bytes → Option (Option V)} {a b : ℕ} {bs : List (Bucket V)}
      {p : Placing V} (first : Gains t f a bs)
      → Rehashed first.after g b p
      → (h : Bytes → Option (Option V)) (c : ℕ) → c ≡ a + b
      → ((q : Bytes) (o : Option (Option V)) → or_else (g q) (or_else (f q) o) ≡ or_else (h q) o)
      → Rehashed t h c p
  Rehashed-trans first stuck h c sum same = stuck
  Rehashed-trans first (gained second) h c sum same = gained (Gains-trans first second h c sum same)

  then_placed-Rehashed :
      {t : Table V} {f : Bytes → Option (Option V)} {a : ℕ} {p : Placing V}
      → Rehashed t f a p
      → (rest : List (Bucket V) → Placing V) (g h : Bytes → Option (Option V)) (b c : ℕ)
      → ((bs : List (Bucket V)) (first : Gains t f a bs) → Rehashed first.after g b (rest bs))
      → c ≡ a + b
      → ((q : Bytes) (o : Option (Option V)) → or_else (g q) (or_else (f q) o) ≡ or_else (h q) o)
      → Rehashed t h c (then_placed p rest)
  then_placed-Rehashed stuck rest g h b c go sum same = stuck
  then_placed-Rehashed (gained {bs = bs} first) rest g h b c go sum same =
      Rehashed-trans first (go bs first) h c sum same

  -- No key is twice among the slots still to move and the entries moved.
  abbrev pub Apart : Table V → (Bytes → ℕ) → Type 0
  Apart t f = (q : Bytes) → f q + one (is_some (contents t q)) ≤ 1

  pub rehash_bucket-Rehashed :
      (b : Bucket V) {t : Table V} (v : IsValid t)
      → All KeyOk b
      → Apart t (λ q. count q b)
      → Rehashed t (λ q. lookup q b) (tally used b) (rehash_bucket t.buckets_count b t.buckets)
  unfolding rehash_bucket lookup tally
  rehash_bucket-Rehashed [] {t} v ok apart = gained (record {
    after = t;
    buckets = refl;
    valid = v;
    same_count = refl;
    elems = omega arith;
    reads = λ q. refl;
  })
  rehash_bucket-Rehashed (s ∷ b) {t} v ok apart =
      then_placed-Rehashed
        (place_in-Rehashed v s ok.0 (λ taken. ground (arith, apart s.key, holds-own_key s)))
        (rehash_bucket t.buckets_count b) (λ q. lookup q b) (λ q. lookup q (s ∷ b)) (tally used b) _
        (λ bs first.
          subst
            (λ cs.
              Rehashed first.after (λ q. lookup q b) (tally used b)
                (rehash_bucket t.buckets_count b cs))
            first.buckets
            (subst
              (λ n.
                Rehashed first.after (λ q. lookup q b) (tally used b)
                  (rehash_bucket n b first.after.buckets))
              first.same_count
              (rehash_bucket-Rehashed b first.valid ok.1
                (λ q. ground (arith, apart q, first.reads q)))))
        refl (λ q o. ground (arith, apart q, lookup-eq-none q b))

  -- A key that is not twice among a bucket and other buckets is in one of them at most.
  one_answers :
      (q : Bytes) (b : Bucket V) (bs : List (Bucket V))
      → count q b + total (λ s. one (holds q s)) bs ≤ 1
      → (lookup q b ≡ none) ⊎ (lookup_all q bs ≡ none)
  one_answers q b bs h = elim (Nat-cases (count q b)) [
    | inl e ↦ inl (lookup-eq-none q b e)
    | inr pos ↦ inr (lookup_all-eq-none q bs (omega arith))
  ]

  pub rehash_all-Rehashed :
      (bs : List (Bucket V)) {t : Table V} (v : IsValid t)
      → All (All KeyOk) bs
      → Apart t (λ q. total (λ s. one (holds q s)) bs)
      → Rehashed t (λ q. lookup_all q bs) (total used bs) (rehash_all t.buckets_count bs t.buckets)
  unfolding rehash_all lookup_all total
  rehash_all-Rehashed [] {t} v ok apart = gained (record {
    after = t;
    buckets = refl;
    valid = v;
    same_count = refl;
    elems = omega arith;
    reads = λ q. refl;
  })
  rehash_all-Rehashed (b ∷ bs) {t} v ok apart =
      then_placed-Rehashed (rehash_bucket-Rehashed b v ok.0 (λ q. omega (arith, apart q)))
        (rehash_all t.buckets_count bs) (λ q. lookup_all q bs) (λ q. lookup_all q (b ∷ bs))
        (total used bs) _
        (λ cs first.
          subst
            (λ ds.
              Rehashed first.after (λ q. lookup_all q bs) (total used bs)
                (rehash_all t.buckets_count bs ds))
            first.buckets
            (subst
              (λ n.
                Rehashed first.after (λ q. lookup_all q bs) (total used bs)
                  (rehash_all n bs first.after.buckets))
              first.same_count
              (rehash_all-Rehashed bs first.valid ok.1
                (λ q. ground (arith, apart q, first.reads q, lookup-eq-none q b)))))
        refl
        (λ q o. elim (one_answers q b bs (omega (arith, apart q))) [
          | inl e ↦ ground (arith, e)
          | inr e ↦ ground (arith, e)
        ])
