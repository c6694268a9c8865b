-- ===== src/Table/Conserved.antt =====
-- What becomes of the values: each that is given to a valid table is in it or went to the destroyer.
use simple_c_database.Hashing.{hash}
use simple_c_database.Prelude.{
  ℕ, ◌+◌, ◌<◌, ◌≡◌, inl, inr, refl, arith, true, Option, none, some, List, [], ◌∷◌, ◌++◌, length,
  pos, neg, Bool-cases,
}
use simple_c_database.Strings.{Bytes, c_str}
use simple_c_database.Table.Data.{Bucket, Table, Env, wrlocked, unlocked, events_of, unchanged}
use simple_c_database.Table.Keys.{table_set, table_add, table_delete, table_replace}
use simple_c_database.Table.Created.{lock_each-inside}
use simple_c_database.Table.Set.{short_key}
use simple_c_database.Table.Life.{
  used_values, all_values, clear_slot, clear_bucket, clear_all, table_clear,
}
use simple_c_database.Table.Outcomes.{first_free-Free}
use simple_c_database.Table.Slots.{tally, find_slot-Found, scan-find_slot}
use simple_c_database.Table.Valid.{IsValid, IsLocked, total, home, home-lt}
use simple_c_database.Table.Writes.{home_bucket}
use simple_c_database.Table.Weights.{
  slot_weight, weigh, Conserves, set_found-KeptBy, add_found-KeptBy, replace_found-KeptBy,
  delete_found-KeptBy, with_bucket-Conserves,
}

module _ {ℓ} {V : Type ℓ} (weight : V → ℕ) where
  weigh-append :
      (vs ws : List (Option V)) → weigh weight (vs ++ ws) ≡ weigh weight vs + weigh weight ws
  weigh-append [] ws = omega arith
  weigh-append (v ∷ vs) ws = omega (arith, weigh-append vs ws)

  weigh-used_values : (b : Bucket V) → weigh weight (used_values b) ≡ tally (slot_weight weight) b
  unfolding used_values tally
  weigh-used_values [] = refl
  weigh-used_values (s ∷ b) = elim (Bool-cases s.in_use) [
    | inl used ↦ rw used (omega (arith, weigh-used_values b))
    | inr free ↦ rw free (omega (arith, weigh-used_values b))
  ]

  weigh-all_values :
      (bs : List (Bucket V)) → weigh weight (all_values bs) ≡ total (slot_weight weight) bs
  unfolding all_values total
  weigh-all_values [] = refl
  weigh-all_values (b ∷ bs) = omega (
    arith,
    weigh-append (used_values b) (all_values bs),
    weigh-used_values b,
    weigh-all_values bs,
  )

  clear_bucket-empty : (b : Bucket V) → tally (slot_weight weight) (clear_bucket b) ≡ 0
  unfolding clear_bucket clear_slot tally
  clear_bucket-empty [] = refl
  clear_bucket-empty (s ∷ b) = elim (Bool-cases s.in_use) [
    | inl used ↦ rw used (omega (arith, clear_bucket-empty b))
    | inr free ↦ rw free (omega (arith, clear_bucket-empty b))
  ]

  clear_all-empty : (bs : List (Bucket V)) → total (slot_weight weight) (clear_all bs) ≡ 0
  unfolding clear_all total
  clear_all-empty [] = refl
  clear_all-empty (b ∷ bs) = omega (arith, clear_bucket-empty b, clear_all-empty bs)

  table_clear-Conserves :
      (t : Table V) (env : Env) → Conserves weight t none (table_clear env (some t) true)
  unfolding table_clear
  table_clear-Conserves t env =
      elim (lock_each-inside env t.lock_count t.lock_count 0 (omega arith)) [
        | inl all_held ↦ (
          record {
            result = pos 0;
            table = some (record t { buckets = clear_all t.buckets; elem_count = 0 });
            destroyed = all_values t.buckets;
            events = events_of wrlocked t.lock_count 0 ++ events_of unlocked t.lock_count 0;
          },
          _,
          rw (all_held, table_clear) refl,
          refl,
          omega (arith, weigh-all_values t.buckets, clear_all-empty t.buckets),
        )
        | inr (i, e, _, _) ↦ (
          record (unchanged (neg 1) (some t)) {
            events = events_of wrlocked i 0 ++ events_of unlocked i 0;
          },
          t,
          rw (e, table_clear) refl,
          refl,
          omega arith,
        )
      ]

  -- On a valid table with its locks, whatever the locks do, and for values that weigh what one likes, NULL
  -- nothing: what the table holds after `table_set`, `table_add`, `table_replace`, `table_delete` or
  -- `table_clear`, with a destroyer where it takes one, and what went to the destroyer weigh as much as
  -- what the table held before and the value that was given, if the call returned 0. So no value that the
  -- table held is lost or destroyed twice, and a value that a call refused is neither in the table nor
  -- destroyed.
  pub values_conserved :
      {t : Table V} (v : IsValid t) (l : IsLocked t) (env : Env) (k : Bytes) (given : Option V)
      → length (c_str k) < 255
      → Conserves weight t given (table_set env (some t) (some k) given true)
        × Conserves weight t given (table_add env (some t) (some k) given)
        × Conserves weight t given (table_replace env (some t) (some k) given true)
        × Conserves weight t none (table_delete env (some t) (some k) true)
        × Conserves weight t none (table_clear env (some t) true)
  unfolding table_set table_add table_replace table_delete
  values_conserved {t} v l env k given short =
      let b = home_bucket v k in
      let n = t.elem_count in
      let finds =
        find_slot-Found t.buckets_count (home v k) k b 0 (v.each (home v k) (home-lt v k)).each in
      let scans = scan-find_slot (hash k) k b 0 none in
      let room = first_free-Free b 0 in
      (
        rw (short_key k short) (
            with_bucket-Conserves weight v l env k given 0 _
              (rw scans (set_found-KeptBy weight k b n given _ _ finds room))),
        with_bucket-Conserves weight v l env k given 0 _
            (rw scans (add_found-KeptBy weight k b n given _ _ finds room)),
        with_bucket-Conserves weight v l env k given 0 _
            (replace_found-KeptBy weight k b n given _ finds),
        with_bucket-Conserves weight v l env k none 1 _ (delete_found-KeptBy weight k b n _ finds),
        table_clear-Conserves t env,
      )
