-- ===== src/Table/Outcomes.antt =====
-- How a call can end, in the terms of the other proofs: with a write, or with nothing changed; and the
-- first free slot of a bucket.
use simple_c_database.Prelude.{
  ℕ, suc, ◌+◌, ◌<◌, ◌≡◌, inl, inr, refl, sym, ap, subst, arith, Bool, true, false, Option, none,
  some, List, [], ◌∷◌, length, get_or, set-get_or, Bool-cases, ℤ, pos,
}
use simple_c_database.Strings.{Bytes}
use simple_c_database.Table.Data.{Slot, Bucket, Table, empty_slot, Event, unlocked, Reply}
use simple_c_database.Table.Scan.{worked, destroy_value, note_empty}
use simple_c_database.Table.Slots.{tally, first_free}
use simple_c_database.Table.Valid.{IsValid, used, home}
use simple_c_database.Table.Writes.{Updates, home_bucket}

module _ {ℓ} {V : Type ℓ} where
  -- The first free slot from `j` on, if there is one.
  pub data Free (b : Bucket V) (j : ℕ) : Option ℕ → Type 0 where
    no_free : tally used b ≡ length b → Free b j none
    free_at :
        (i : ℕ) {r : ℕ}
        → r ≡ j + i
        → i < length b
        → (get_or b i empty_slot).in_use ≡ false
        → Free b j (some r)

  first_free-some : (b : Bucket V) (j x : ℕ) → first_free b j (some x) ≡ some x
  first_free-some [] j x = refl
  first_free-some (s ∷ b) j x = first_free-some b (j + 1) x

  note_taken : (s : Slot V) (j : ℕ) → s.in_use ≡ true → note_empty s j none ≡ none
  note_taken s j e = ground arith

  note_free : (s : Slot V) (j : ℕ) → s.in_use ≡ false → note_empty s j none ≡ some j
  note_free s j e = ground arith

  pub first_free-Free : (b : Bucket V) (j : ℕ) → Free b j (first_free b j none)
  unfolding tally
  first_free-Free [] j = no_free refl
  first_free-Free (s ∷ b) j = elim (Bool-cases s.in_use) [
    | inl taken ↦
        subst (λ e. Free (s ∷ b) j (first_free b (j + 1) e)) (sym (note_taken s j taken))
          (later taken (first_free-Free b (j + 1)))
    | inr free ↦
        subst (λ e. Free (s ∷ b) j (first_free b (j + 1) e)) (sym (note_free s j free))
          (subst (Free (s ∷ b) j) (sym (first_free-some b (j + 1) j))
            (free_at 0 (omega arith) (omega arith) free))
  ]
    where
      later : {r : Option ℕ} → s.in_use ≡ true → Free b (j + 1) r → Free (s ∷ b) j r
      later taken (no_free e) = no_free (ground arith)
      later taken (free_at i e lt free) = free_at (suc i) (omega arith) (omega arith) free

  -- The arguments of the destroyer where the entry of a key is overwritten or removed.
  abbrev pub destroyed_entry : Bool → Option (Option V) → List (Option V)
  destroyed_entry destroyer none = []
  destroyed_entry destroyer (some value) = destroy_value destroyer value

  abbrev pub IsFull : Bucket V → Type 0
  IsFull b = tally used b ≡ 8

-- A call that returned 0 and made of `t` a valid table that answers `answer` for `k`.
pub record Wrote {ℓ} {V : Type ℓ} (t : Table V) (k : Bytes) (answer : Option (Option V))
    (destroyed : List (Option V)) (r : Reply V ℤ) : Type ℓ where
  pub result : r.result ≡ pos 0
  pub after : Table V
  pub table : r.table ≡ some after
  pub updates : Updates t k answer after
  pub destroys : r.destroyed ≡ destroyed

-- A call that returned `status` and changed nothing.
abbrev pub Kept {ℓ} : {V : Type ℓ} → Table V → ℤ → Reply V ℤ → Type ℓ
Kept t status r = (r.result ≡ status) × (r.table ≡ some t) × (r.destroyed ≡ [])

-- Work that hands its bucket and the count back.
pub unchanged_bucket {ℓ} :
    {V : Type ℓ} {t : Table V} (v : IsValid t) (k : Bytes) {status : ℤ} (locked : ℕ → Event)
    → Kept t status (
        worked locked t (home v k) (record {
          result = status;
          bucket = home_bucket v k;
          elem_count = t.elem_count;
          destroyed = [];
        }))
unchanged_bucket {t = t} v k locked =
    (refl, ap (λ bs. some (record t { buckets = bs })) (set-get_or t.buckets (home v k) []), refl)

pub read_bucket {ℓ κ} :
    {V : Type ℓ} {R : Type κ} {t : Table V} (v : IsValid t) (k : Bytes) (result : R)
    (locked : ℕ → Event)
    → worked locked t (home v k) (record {
      result = result;
      bucket = home_bucket v k;
      elem_count = t.elem_count;
      destroyed = [];
    })
      ≡ record {
        result = result;
        table = some t;
        destroyed = [];
        events = locked (home v k) ∷ unlocked (home v k) ∷ [];
      }
read_bucket {t = t} v k result locked =
    ap
      (λ bs. record {
        result = result;
        table = some (record t { buckets = bs });
        destroyed = [];
        events = locked (home v k) ∷ unlocked (home v k) ∷ [];
      })
      (set-get_or t.buckets (home v k) [])
