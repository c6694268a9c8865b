-- ===== src/Table/Weights.antt =====
-- The values of a table weighed, before and after work on a bucket.
use simple_c_database.Hashing.{hash}
use simple_c_database.Prelude.{
  ℕ, ◌+◌, ◌<◌, ◌≡◌, inl, inr, refl, arith, true, false, Option, none, some, List, [], ◌∷◌, length,
  get_or, set, ℤ, negsuc, is_zero, if◌then◌else◌, Bool-cases,
}
use simple_c_database.Strings.{Bytes}
use simple_c_database.Table.Buckets.{holds-in_use}
use simple_c_database.Table.Data.{
  Slot, Bucket, Table, empty_slot, Env, wrlocked, Outcome, done, Reply, unchanged,
}
use simple_c_database.Table.Keys.{set_found, add_found, delete_found, replace_found}
use simple_c_database.Table.Outcomes.{Free, no_free, free_at}
use simple_c_database.Table.Scan.{
  bucket_index, Work, worked, with_bucket, fill_slot, delete_slot, destroy_value,
}
use simple_c_database.Table.Slots.{tally, tally-set, Found, absent, present, scan_result}
use simple_c_database.Table.Valid.{IsValid, IsLocked, total, total-set, home, home-lt}
use simple_c_database.Table.Writes.{with_bucket-home, home_bucket}

module _ {ℓ} {V : Type ℓ} (weight : V → ℕ) where
  -- NULL weighs nothing.
  abbrev pub value_weight : Option V → ℕ
  value_weight none = 0
  value_weight (some v) = weight v

  abbrev pub slot_weight : Slot V → ℕ
  slot_weight s = if s.in_use then value_weight s.value else 0

  abbrev pub weigh : List (Option V) → ℕ
  weigh [] = 0
  weigh (v ∷ vs) = value_weight v + weigh vs

  -- The values that are in use in a table.
  abbrev pub held_weight : Table V → ℕ
  held_weight t = total slot_weight t.buckets

  -- The weight of a value that a call took: it takes it where it returns 0.
  abbrev pub taken : Option V → ℤ → ℕ
  taken given result = if is_zero result then value_weight given else 0

  -- A reply that leaves a table that holds, with what was destroyed, what `t` held and what was taken.
  abbrev pub Conserves : Table V → Option V → Outcome (Reply V ℤ) → Type ℓ
  Conserves t given o =
      (r : Reply V ℤ) × (after : Table V) × (o ≡ done r)
      × (r.table ≡ some after)
      × (held_weight after + weigh r.destroyed ≡ held_weight t + taken given r.result)

  weigh-destroy_value : (v : Option V) → weigh (destroy_value true v) ≡ value_weight v
  weigh-destroy_value none = refl
  weigh-destroy_value (some v) = omega arith

  slot_weight-used : (s : Slot V) → s.in_use ≡ true → slot_weight s ≡ value_weight s.value
  slot_weight-used s e = rw e refl

  slot_weight-free : (s : Slot V) → s.in_use ≡ false → slot_weight s ≡ 0
  slot_weight-free s e = rw e refl

  abbrev pub KeptBy : Bucket V → Option V → Work V ℤ → Type 0
  KeptBy b given w =
      tally slot_weight w.bucket + weigh w.destroyed ≡ tally slot_weight b + taken given w.result

  module _ (b : Bucket V) (i : ℕ) (lt : i < length b) where
    abbrev old_slot : Slot V
    old_slot = get_or b i empty_slot

    -- A value takes the place of another, or of none.
    over :
        (given : Option V) (s : Slot V)
        → old_slot.in_use ≡ true
        → slot_weight s ≡ value_weight given
        → tally slot_weight (set b i s) + weigh (destroy_value true old_slot.value)
          ≡ tally slot_weight b + value_weight given
    over given s used now = omega (
      arith,
      tally-set slot_weight b i s lt,
      now,
      slot_weight-used old_slot used,
      weigh-destroy_value old_slot.value,
    )

    into_free :
        (given : Option V) (s : Slot V)
        → old_slot.in_use ≡ false
        → slot_weight s ≡ value_weight given
        → tally slot_weight (set b i s) + 0 ≡ tally slot_weight b + value_weight given
    into_free given s free now =
        omega (arith, tally-set slot_weight b i s lt, now, slot_weight-free old_slot free)

  module _ (k : Bytes) (b : Bucket V) (n : ℕ) where
    pub set_found-KeptBy :
        (value : Option V) (f e : Option ℕ)
        → Found k b 0 f
        → Free b 0 e
        → KeptBy b value (set_found true n (hash k) k value b (scan_result f e))
    unfolding set_found fill_slot
    set_found-KeptBy value (some r) e (present i at lt here old) free =
        let p : r ≡ i = omega arith in
        let s = get_or b i empty_slot in
        let used = holds-in_use k s here in
        rw p (
          over b i lt value (record s { value = value }) used
            (slot_weight-used (record s { value = value }) used))
    set_found-KeptBy value none (some r) (absent zero_count) (free_at i at lt free) =
        let p : r ≡ i = omega arith in
        rw p (into_free b i lt value (fill_slot (hash k) k value (get_or b i empty_slot)) free refl)
    set_found-KeptBy value none none (absent zero_count) (no_free all_used) = omega arith

    pub add_found-KeptBy :
        (value : Option V) (f e : Option ℕ)
        → Found k b 0 f
        → Free b 0 e
        → KeptBy b value (add_found n (hash k) k value b (scan_result f e))
    unfolding add_found fill_slot
    add_found-KeptBy value (some r) e (present i at lt here old) free = omega arith
    add_found-KeptBy value none (some r) (absent zero_count) (free_at i at lt free) =
        let p : r ≡ i = omega arith in
        rw p (into_free b i lt value (fill_slot (hash k) k value (get_or b i empty_slot)) free refl)
    add_found-KeptBy value none none (absent zero_count) (no_free all_used) = omega arith

    pub replace_found-KeptBy :
        (value : Option V) (f : Option ℕ)
        → Found k b 0 f
        → KeptBy b value (replace_found true n value b f)
    unfolding replace_found
    replace_found-KeptBy value (some r) (present i at lt here old) =
        let p : r ≡ i = omega arith in
        let s = get_or b i empty_slot in
        let used = holds-in_use k s here in
        rw p (
          over b i lt value (record s { value = value }) used
            (slot_weight-used (record s { value = value }) used))
    replace_found-KeptBy value none (absent zero_count) = omega arith

    pub delete_found-KeptBy :
        (f : Option ℕ) → Found k b 0 f → KeptBy b none (delete_found true n b f)
    unfolding delete_found
    delete_found-KeptBy (some r) (present i at lt here old) =
        let p : r ≡ i = omega arith in
        let s = get_or b i empty_slot in
        rw p (over b i lt none (delete_slot s) (holds-in_use k s here) refl)
    delete_found-KeptBy none (absent zero_count) = omega arith

  module _ {t : Table V} (v : IsValid t) (l : IsLocked t) (env : Env) (k : Bytes) where
    -- Work on the home bucket of a key.
    pub with_bucket-Conserves :
        (given : Option V) (n : ℕ) (work : Bucket V → Work V ℤ)
        → KeptBy (home_bucket v k) given (work (home_bucket v k))
        → Conserves t given
            (with_bucket env wrlocked t (bucket_index (hash k) t.buckets_count) (negsuc n) work)
    with_bucket-Conserves given n work kept = elim (Bool-cases (env.lock (home v k))) [
      | inr no_lock ↦ (
        unchanged (negsuc n) (some t),
        t,
        rw (with_bucket-home v l env wrlocked k (negsuc n) work, no_lock) refl,
        refl,
        omega arith,
      )
      | inl locked ↦
          let w = work (home_bucket v k) in
          (
            worked wrlocked t (home v k) w,
            _,
            rw (with_bucket-home v l env wrlocked k (negsuc n) work, locked) refl,
            refl,
            omega (arith, kept, total-set slot_weight t.buckets (home v k) w.bucket (home-lt v k)),
          )
    ]
