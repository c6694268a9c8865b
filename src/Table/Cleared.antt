-- ===== src/Table/Cleared.antt =====
-- `table_clear` on a valid table.
use simple_c_database.Prelude.{
  ℕ, zero, suc, ◌<◌, ◌≡◌, ◌⊎◌, inl, inr, refl, sym, ap, subst, ◌∙◌, arith, Bool, false, none, some,
  List, [], ◌∷◌, ◌++◌, length, get_or, All, one, if◌then◌else◌, Bool-cases, pos, neg,
}
use simple_c_database.Strings.{Bytes}
use simple_c_database.Table.Buckets.{holds_free}
use simple_c_database.Table.Created.{lock_each-inside}
use simple_c_database.Table.Data.{Slot, Bucket, Table, Env, done, events_of, wrlocked, unlocked}
use simple_c_database.Table.Empty.{contents-empty}
use simple_c_database.Table.Life.{clear_slot, clear_bucket, clear_all, all_values, table_clear}
use simple_c_database.Table.Scan.{delete_slot}
use simple_c_database.Table.Slots.{SlotOk, holds, tally}
use simple_c_database.Table.Valid.{IsValid, used, total, contents}

module _ {ℓ} {V : Type ℓ} where
  length-clear_bucket : (b : Bucket V) → length (clear_bucket b) ≡ length b
  unfolding clear_bucket
  length-clear_bucket [] = refl
  length-clear_bucket (s ∷ b) = ap suc (length-clear_bucket b)

  clear_slot-SlotOk : (n i : ℕ) (s : Slot V) → SlotOk n i s → SlotOk n i (clear_slot s)
  unfolding clear_slot
  clear_slot-SlotOk n i s ok = elim (Bool-cases s.in_use) [
    | inl taken ↦
        let e : clear_slot s ≡ delete_slot s = ground arith in
        subst (SlotOk n i) (sym e) (ok.0, λ taken. cc)
    | inr free ↦ let e : clear_slot s ≡ s = ground arith in subst (SlotOk n i) (sym e) ok
  ]

  clear_bucket-All :
      (n i : ℕ) (b : Bucket V) → All (SlotOk n i) b → All (SlotOk n i) (clear_bucket b)
  unfolding clear_bucket
  clear_bucket-All n i [] ok = ok
  clear_bucket-All n i (s ∷ b) ok = (clear_slot-SlotOk n i s ok.0, clear_bucket-All n i b ok.1)

  clear_slot-free : (s : Slot V) → (clear_slot s).in_use ≡ false
  unfolding clear_slot
  clear_slot-free s = ground arith

  tally-clear_bucket :
      (w : Slot V → ℕ) (b : Bucket V)
      → ((s : Slot V) → s.in_use ≡ false → w s ≡ 0)
      → tally w (clear_bucket b) ≡ 0
  unfolding clear_bucket tally
  tally-clear_bucket w [] h = refl
  tally-clear_bucket w (s ∷ b) h =
      omega (arith, h (clear_slot s) (clear_slot-free s), tally-clear_bucket w b h)

  length-clear_all : (bs : List (Bucket V)) → length (clear_all bs) ≡ length bs
  unfolding clear_all
  length-clear_all [] = refl
  length-clear_all (b ∷ bs) = ap suc (length-clear_all bs)

  get_or-clear_all :
      (bs : List (Bucket V)) (i : ℕ) → get_or (clear_all bs) i [] ≡ clear_bucket (get_or bs i [])
  unfolding clear_all clear_bucket
  get_or-clear_all [] i = refl
  get_or-clear_all (b ∷ bs) zero = refl
  get_or-clear_all (b ∷ bs) (suc i) = get_or-clear_all bs i

  total-clear_all : (bs : List (Bucket V)) → total used (clear_all bs) ≡ 0
  unfolding clear_all total
  total-clear_all [] = refl
  total-clear_all (b ∷ bs) =
      omega (arith, tally-clear_bucket used b (λ s e. ap one e), total-clear_all bs)

module _ {ℓ} {V : Type ℓ} {t : Table V} (v : IsValid t) where
  abbrev cleared : Table V
  cleared = record t { buckets = clear_all t.buckets; elem_count = 0 }

  clear_all-IsValid : IsValid cleared
  clear_all-IsValid = record {
    exponent = v.exponent;
    power = v.power;
    width = length-clear_all t.buckets ∙ v.width;
    fits = v.fits;
    each = λ i lt.
        let ok = v.each i (omega (arith, length-clear_all t.buckets)) in
        let b = get_or t.buckets i [] in
        rw (get_or-clear_all t.buckets i) (record {
          slots = length-clear_bucket b ∙ ok.slots;
          each = clear_bucket-All t.buckets_count i b ok.each;
          unique = λ q. omega (
            arith,
            tally-clear_bucket (λ s. one (holds q s)) b (λ s e. ap one (holds_free q s e)),
          );
        });
    counted = sym (total-clear_all t.buckets);
  }

  -- What `table_clear` makes of a table.
  pub record Cleared (after : Table V) : Type ℓ where
    pub valid : IsValid after
    pub shape : (after.buckets_count ≡ t.buckets_count) × (after.lock_count ≡ t.lock_count)
    pub no_entries : (after.elem_count ≡ 0) × ((q : Bytes) → contents after q ≡ none)

  -- On a valid table `table_clear` returns, with no access out of bounds. With every lock given it
  -- returns 0 and leaves a valid table of the same size with no entries, having handed the value of
  -- every slot in use to the destroyer, if there is one, and unlocked every lock that it took. If a
  -- lock is refused, it returns -1, changes nothing, and unlocks the locks that it took before.
  pub table_clear_lem :
      (env : Env) (destroyer : Bool)
      → (((after : Table V) × Cleared after
          × (table_clear env (some t) destroyer
              ≡ done (record {
                result = pos 0;
                table = some after;
                destroyed = if destroyer then all_values t.buckets else [];
                events = events_of wrlocked t.lock_count 0 ++ events_of unlocked t.lock_count 0;
              }))))
        ⊎ ((i : ℕ) × (i < t.lock_count)
            × (env.lock i ≡ false)
            × (table_clear env (some t) destroyer
                ≡ done (record {
                  result = neg 1;
                  table = some t;
                  destroyed = [];
                  events = events_of wrlocked i 0 ++ events_of unlocked i 0;
                })))
  unfolding table_clear
  table_clear_lem env destroyer =
      elim (lock_each-inside env t.lock_count t.lock_count 0 (omega arith)) [
        | inl all_held ↦ inl (
          cleared,
          record {
            valid = clear_all-IsValid;
            shape = (refl, refl);
            no_entries = (refl, λ q. contents-empty clear_all-IsValid q refl);
          },
          rw (all_held, table_clear),
        )
        | inr (i, e, no_lock, lt) ↦ inr (i, omega arith, no_lock, rw (e, table_clear))
      ]
