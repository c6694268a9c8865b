-- ===== src/Table/LongKeys.antt =====
-- Keys of 255 bytes and more in `table_add`.

use simple_c_database.Hashing.{hash}
use simple_c_database.Prelude.{
  ℕ, ◌+◌, ◌%◌, ◌^◌, ◌≤◌, ◌<◌, ◌≡◌, inl, inr, refl, ap, arith, Bool, true, false, Option, none, some,
  [], ◌∷◌, length, length-set, length-take, get_or, get_or-set_self, set, All, ℤ, pos, neg,
  Bool-cases,
}
use simple_c_database.Strings.Compare.{same_str, same_str_iff, ustrncmp-same_str}
use simple_c_database.Strings.Copy.{ustrncpy-take}
use simple_c_database.Strings.{Bytes, c_str}
use simple_c_database.Table.Buckets.{All-set, All-get_or}
use simple_c_database.Table.Data.{
  Slot, Bucket, Table, Env, Event, rdlocked, wrlocked, done, Reply, empty_slot,
}
use simple_c_database.Table.Keys.{add_found, table_add, table_exist}
use simple_c_database.Table.Outcomes.{Free, no_free, free_at, first_free-Free}
use simple_c_database.Table.Scan.{
  bucket_index, matches, scan, find_slot, fill_slot, is_some, Work, with_bucket, worked, put_bucket,
}
use simple_c_database.Table.Slots.{SlotOk, scan_result, scan-find_slot, tally}
use simple_c_database.Table.Valid.{IsValid, IsLocked, used, home, home-lt, bucket_index-mod}
use simple_c_database.Table.Writes.{home_bucket}

-- A key array in which a string ends.
abbrev EndsInside {ℓ} : {V : Type ℓ} → Slot V → Type 0
EndsInside s = s.in_use ≡ true → length (c_str s.key) < 255

differs :
    (k : Bytes)
    → 255 ≤ length (c_str k)
    → (s : Bytes) → length (c_str s) < 255
    → same_str s k ≡ false
differs k long s short = elim (Bool-cases (same_str s k)) [
  | inr e ↦ e
  | inl e ↦ absurd (omega (arith, ap (length {A = ℕ}) ((same_str_iff s k).0 e)))
]

module _ {ℓ κ} {V : Type ℓ} {R : Type κ} where
  -- Work on a bucket with its lock given, both within their arrays.
  with_bucket-inside :
      (env : Env) (locked : ℕ → Event) (t : Table V) (i : ℕ) (refusal : R)
      (work : Bucket V → Work V R)
      → i < t.lock_count
      → i < length t.buckets
      → env.lock i ≡ true
      → with_bucket env locked t i refusal work
        ≡ done (worked locked t i (work (get_or t.buckets i [])))
  unfolding with_bucket
  with_bucket-inside env locked t i refusal work h g given = ground arith

module _ {ℓ} {V : Type ℓ} (k : Bytes) (long : 255 ≤ length (c_str k)) where
  no_match : (h : ℕ) (s : Slot V) → EndsInside s → matches h k s ≡ false
  unfolding matches
  no_match h s ok = elim (Bool-cases s.in_use) [
    | inr free ↦ rw free
    | inl taken ↦
        ground (arith, ustrncmp-same_str s.key k (ok taken), differs k long s.key (ok taken))
  ]

  long-find_slot : (h : ℕ) (b : Bucket V) (j : ℕ) → All EndsInside b → find_slot h k b j ≡ none
  unfolding find_slot
  long-find_slot h [] j ok = refl
  long-find_slot h (s ∷ b) j ok = rw (no_match h s ok.0, long-find_slot h b (j + 1) ok.1)

  cut_key :
      (h : ℕ) (value : Option V) (s : Slot V)
      → length s.key ≡ 255
      → EndsInside (fill_slot h k value s)
  unfolding fill_slot
  cut_key h value s size taken =
      let (out, run, _, cut) = ustrncpy-take s.key k 255 (omega arith) (omega arith) in
      rw run (omega (arith, ap (length {A = ℕ}) cut, length-take 254 (c_str k)))

  SlotOk-EndsInside : (n i : ℕ) (b : Bucket V) → All (SlotOk n i) b → All EndsInside b
  SlotOk-EndsInside n i [] ok = tt
  SlotOk-EndsInside n i (s ∷ b) ok = (λ taken. (ok.0.1 taken).1, SlotOk-EndsInside n i b ok.1)

-- What `table_add` does with a key that is too long: it reports success and counts an entry, and
-- `table_exist` on the table that it leaves says that the key is not there.
pub record Lost {ℓ} {V : Type ℓ} (env : Env) (t : Table V) (k : Bytes) (r : Reply V ℤ)
    : Type ℓ where
  pub result : r.result ≡ pos 0
  pub after : Table V
  pub table : r.table ≡ some after
  pub counted : after.elem_count ≡ (t.elem_count + 1) % 2 ^ 64
  pub answer : Reply V Bool
  pub asked : table_exist env (some after) (some k) ≡ done answer
  pub missing : answer.result ≡ false

module _ {ℓ} {V : Type ℓ} {t : Table V} (v : IsValid t) (l : IsLocked t) (k : Bytes)
    (long : 255 ≤ length (c_str k)) (env : Env) (given : env.lock (home v k) ≡ true)
    (value : Option V) where
  abbrev index_home : bucket_index (hash k) t.buckets_count ≡ home v k
  index_home = bucket_index-mod (hash k) t.buckets_count v.exponent v.power v.fits

  abbrev ends : All EndsInside (home_bucket v k)
  ends =
      SlotOk-EndsInside k long t.buckets_count (home v k) (home_bucket v k)
        (v.each (home v k) (home-lt v k)).each

  exist_after :
      (b : Bucket V) (n : ℕ)
      → All EndsInside b
      → (answer : Reply V Bool) × (table_exist env (some (put_bucket t (home v k) b n)) (some k)
          ≡ done answer)
        × (answer.result ≡ false)
  unfolding table_exist
  exist_after b n ok =
      let after = put_bucket t (home v k) b n in
      let work : Bucket V → Work V Bool = λ c. record {
        result = is_some (find_slot (hash k) k c 0);
        bucket = c;
        elem_count = n;
        destroyed = [];
      } in
      (
        worked rdlocked after (home v k) (work (get_or after.buckets (home v k) [])),
        rw index_home (
            with_bucket-inside env rdlocked after (home v k) false work
              (omega (arith, l, home-lt v k, v.width))
              (omega (arith, home-lt v k, length-set t.buckets (home v k) b)) given),
        rw
            (
              get_or-set_self t.buckets (home v k) b [] (home-lt v k),
              long-find_slot k long (hash k) b 0 ok,
            )
            refl,
      )

  add_found-Lost :
      (e : Option ℕ)
      → Free (home_bucket v k) 0 e
      → tally used (home_bucket v k) < 8
      → Lost env t k (
          worked wrlocked t
            (home v k)
            (add_found t.elem_count (hash k) k value (home_bucket v k) (scan_result none e)))
  unfolding add_found
  add_found-Lost none (no_free all_used) room =
      absurd (omega (arith, (v.each (home v k) (home-lt v k)).slots))
  add_found-Lost (some r) (free_at i at lt free) room =
      let p : r ≡ i = omega arith in
      let s = get_or (home_bucket v k) i empty_slot in
      let size =
        (All-get_or (SlotOk t.buckets_count (home v k)) (home_bucket v k) i empty_slot lt
          (v.each (home v k) (home-lt v k)).each).0 in
      let b = set (home_bucket v k) i (fill_slot (hash k) k value s) in
      let (answer, asked, missing) =
        exist_after b ((t.elem_count + 1) % 2 ^ 64)
          (All-set EndsInside (home_bucket v k) i _ (cut_key k long (hash k) value s size) ends) in
      rw p (record {
        result = refl;
        after = put_bucket t (home v k) b ((t.elem_count + 1) % 2 ^ 64);
        table = refl;
        counted = refl;
        answer = answer;
        asked = asked;
        missing = missing;
      })

  -- On a valid table with its locks, for a key of at least 255 bytes whose bucket has a free slot and
  -- whose lock is given, `table_add` returns 0 and counts one entry more, and `table_exist` of the same
  -- key on the table that it leaves returns false.
  pub table_add_long_key :
      tally used (home_bucket v k) < 8
      → (r : Reply V ℤ) × (table_add env (some t) (some k) value ≡ done r) × Lost env t k r
  unfolding table_add
  table_add_long_key room =
      let b = home_bucket v k in
      let work =
        λ (b : Bucket V). add_found t.elem_count (hash k) k value b (scan (hash k) k b 0 none) in
      (
        worked wrlocked t (home v k) (work b),
        rw index_home (
            with_bucket-inside env wrlocked t (home v k) (neg 1) work
              (omega (arith, l, home-lt v k, v.width)) (home-lt v k) given),
        rw (scan-find_slot (hash k) k b 0 none, long-find_slot k long (hash k) b 0 ends)
            (add_found-Lost _ (first_free-Free b 0) room),
      )
