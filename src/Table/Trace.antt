-- ===== src/Table/Trace.antt =====
-- Calls in turn on a valid table do what the calls say of a map.
use simple_c_database.Prelude.{ℕ, ◌≡◌, refl, some, List, [], ◌∷◌, All}
use simple_c_database.Table.Calls.{
  Call, set_call, add_call, replace_call, delete_call, exist_call, get_call, clear_call,
  resize_call, Said, run_calls, view, Steps, stop, next, Fits,
}
use simple_c_database.Table.Data.{Table, Env, done}
use simple_c_database.Table.Valid.{IsValid, IsLocked}
use simple_c_database.Table.Advance.{
  Advanced, set-Advanced, add-Advanced, replace-Advanced, delete-Advanced, exist-Advanced,
  get-Advanced, clear-Advanced, resize-Advanced,
}

module _ {ℓ} {V : Type ℓ} where
  step_lem :
      (copy : V → ℕ → V) (env : Env) {t : Table V} (v : IsValid t) (l : IsLocked t) (c : Call V)
      → Fits t.lock_count (env, c)
      → Advanced copy env t c
  step_lem copy env v l (set_call k value d) fits = set-Advanced copy env v l k fits value d
  step_lem copy env v l (add_call k value) fits = add-Advanced copy env v l k fits value
  step_lem copy env v l (replace_call k value d) fits = replace-Advanced copy env v l k fits value d
  step_lem copy env v l (delete_call k d) fits = delete-Advanced copy env v l k fits d
  step_lem copy env v l (exist_call k) fits = exist-Advanced copy env v l k fits
  step_lem copy env v l (get_call k sizer) fits = get-Advanced copy env v l k fits sizer
  step_lem copy env v l (clear_call d) fits = clear-Advanced copy env v l d
  step_lem copy env v l (resize_call n) (some_asked, small, inside) =
      resize-Advanced copy env v l n some_asked small inside

  -- On a valid table with its locks, any calls of the operations on a key, of `table_clear` and of
  -- `table_resize`, one after the other, each with locks and memory of its own, for keys of fewer than 255
  -- bytes and to capacities of 1 to 2^63 that do not need more buckets than there are locks, all return,
  -- with no access out of bounds. What they return and hand to the destroyer (of `table_clear`, how many
  -- values) is what they say of a map from strings to values: each call in turn takes the entries that the
  -- calls before it left to the entries that the next one finds, or changes nothing where it returns an
  -- error. The table is left valid with its locks.
  pub run_calls-Steps :
      (copy : V → ℕ → V) (t : Table V)
      → IsValid t
      → IsLocked t
      → (cs : List (Env × Call V)) → All (Fits t.lock_count) cs
      → (after : Table V) × (ss : List (Said V)) × (run_calls copy (some t) cs
          ≡ done (some after, ss))
        × Steps copy (view t) cs ss (view after)
        × IsValid after
        × IsLocked after
  unfolding run_calls
  run_calls-Steps copy t v l [] fits = (t, [], refl, stop, v, l)
  run_calls-Steps copy t v l ((env, c) ∷ cs) (fits, later) =
      let a = step_lem copy env v l c fits in
      let (after, ss, run, steps, valid, locked) =
        run_calls-Steps copy a.after a.valid a.locked cs (rw a.locks later) in
      (after, a.says ∷ ss, rw (a.run, run, run_calls) refl, next a.step steps, valid, locked)
