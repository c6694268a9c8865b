-- ===== src/Table/Refused.antt =====
-- The operations on one key where the lock of the key's bucket is refused.
use simple_c_database.Prelude.{ℕ, ◌<◌, ◌≡◌, Bool, false, Option, none, some, length, neg}
use simple_c_database.Strings.{Bytes, c_str}
use simple_c_database.Table.Data.{Table, Env, rdlocked, wrlocked, done, unchanged}
use simple_c_database.Table.Keys.{
  table_set, table_add, table_delete, table_replace, table_exist, table_get,
}
use simple_c_database.Table.Set.{short_key}
use simple_c_database.Table.Valid.{IsValid, IsLocked, home}
use simple_c_database.Table.Writes.{with_bucket-home}

module _ {ℓ} {V : Type ℓ} {t : Table V} (v : IsValid t) (l : IsLocked t) (k : Bytes)
    (short : length (c_str k) < 255) (env : Env) (refused : env.lock (home v k) ≡ false)
    (value : Option V) (d : Bool) (copy : V → ℕ → V) (value_sizer : V → ℕ) where
  -- On a valid table with its locks, for a key of fewer than 255 bytes whose bucket's lock is refused,
  -- no operation changes anything, calls the destroyer or unlocks a lock: `table_set`, `table_add` and
  -- `table_replace` return -1, `table_delete` returns -2, `table_exist` false and `table_get` NULL.
  pub lock_refused :
      (table_set env (some t) (some k) value d ≡ done (unchanged (neg 1) (some t)))
      × (table_add env (some t) (some k) value ≡ done (unchanged (neg 1) (some t)))
      × (table_replace env (some t) (some k) value d ≡ done (unchanged (neg 1) (some t)))
      × (table_delete env (some t) (some k) d ≡ done (unchanged (neg 2) (some t)))
      × (table_exist env (some t) (some k) ≡ done (unchanged false (some t)))
      × (table_get env copy (some t) (some k) (some value_sizer) ≡ done (unchanged none (some t)))
  unfolding table_set table_add table_replace table_delete table_exist table_get
  lock_refused = (
    rw (short_key k short, with_bucket-home v l env wrlocked k, refused),
    rw (with_bucket-home v l env wrlocked k, refused),
    rw (with_bucket-home v l env wrlocked k, refused),
    rw (with_bucket-home v l env wrlocked k, refused),
    rw (with_bucket-home v l env rdlocked k, refused),
    rw (with_bucket-home v l env rdlocked k, refused),
  )
