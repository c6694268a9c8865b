-- ===== src/Table/Moved.antt =====
-- One step of the rehashing loops of `table_resize`: an entry moves into the first free slot of its
-- bucket in the new array, which is read as a table.
use simple_c_database.Hashing.{hash}
use simple_c_database.Prelude.{
  ℕ, suc, ◌+◌, ◌%◌, ◌<◌, ◌≡◌, inl, inr, refl, sym, ap, subst, ◌∙◌, arith, true, false, Option, none,
  some, [], ◌∷◌, length, get_or, set, Bool-cases,
}
use simple_c_database.Strings.{c_str}
use simple_c_database.Table.Data.{Slot, Bucket, Table, empty_slot}
use simple_c_database.Table.Resize.{place_slot}
use simple_c_database.Table.Scan.{put_bucket}
use simple_c_database.Table.Slots.{holds, tally, count-eq-zero}
use simple_c_database.Table.Valid.{IsValid, used, contents, home, contents-home}
use simple_c_database.Table.Writes.{Updates, home_bucket, slot-Updates}

-- What a slot keeps when it moves: in use, it holds a short key under its hash.
abbrev pub KeyOk {ℓ} : {V : Type ℓ} → Slot V → Type 0
KeyOk s =
    (length s.key ≡ 255) × (s.in_use ≡ true → (s.hash ≡ hash s.key) × (length (c_str s.key) < 255))

module _ {ℓ} {V : Type ℓ} where
  abbrev pub moved : Slot V → Slot V
  moved s = record { in_use = true; hash = s.hash; key = s.key; value = s.value }

  -- The loop over `k` writes the first free slot, if there is one.
  pub data Placed (s : Slot V) (b : Bucket V) : Option (Bucket V) → Type ℓ where
    all_used : tally used b ≡ length b → Placed s b none
    at :
        (j : ℕ) {b' : Bucket V}
        → j < length b
        → (get_or b j empty_slot).in_use ≡ false
        → b' ≡ set b j (moved s)
        → Placed s b (some b')

  pub place_slot-Placed : (s : Slot V) (b : Bucket V) → Placed s b (place_slot s b)
  unfolding place_slot tally
  place_slot-Placed s [] = all_used refl
  place_slot-Placed s (d ∷ b) = elim (Bool-cases d.in_use) [
    | inl taken ↦
        let e : place_slot s (d ∷ b) ≡ after_used (place_slot s b) = ground arith in
        subst (Placed s (d ∷ b)) (sym e) (later taken (place_slot-Placed s b))
    | inr free ↦
        let e : place_slot s (d ∷ b) ≡ some (moved s ∷ b) = ground arith in
        subst (Placed s (d ∷ b)) (sym e) (at 0 (omega arith) free refl)
  ]
    where
      after_used : Option (Bucket V) → Option (Bucket V)
      after_used none = none
      after_used (some b') = some (d ∷ b')

      later :
          {r : Option (Bucket V)} → d.in_use ≡ true → Placed s b r → Placed s (d ∷ b) (after_used r)
      later taken (all_used e) = all_used (ground arith)
      later taken (at j lt free e) = at (suc j) (omega arith) free (ap (λ x. d ∷ x) e)

  -- The entry of a slot moves into a valid table that has none for its key.
  module _ {t : Table V} (v : IsValid t) (s : Slot V) (ok : KeyOk s) (taken : s.in_use ≡ true)
      (fresh : contents t s.key ≡ none) where
    pub moved-Updates :
        (j : ℕ)
        → j < length (home_bucket v s.key)
        → (get_or (home_bucket v s.key) j empty_slot).in_use ≡ false
        → Updates t s.key
            (some s.value)
            (put_bucket t (home v s.key) (set (home_bucket v s.key) j (moved s)) (t.elem_count + 1))
    unfolding holds
    moved-Updates j lt free =
        let (key_hash, short) = ok.1 taken in
        slot-Updates v s.key j lt (moved s) false true (λ q. ground arith) (λ q. refl)
          (λ _. count-eq-zero s.key _ (sym (contents-home v s.key) ∙ fresh))
          (ok.0, λ _. (key_hash, short, ap (λ (h : ℕ). h % t.buckets_count) key_hash)) refl free
          (t.elem_count + 1) (omega arith)
