-- ===== src/Table/Calls.antt =====
-- Calls of hashtable.h one after the other on one table, and the map that they describe.
use simple_c_database.Prelude.{
  ℕ, ◌+◌, ◌≤◌, ◌<◌, ◌≡◌, ◌≢◌, ◌⊎◌, ◌^◌, Bool, false, Option, none, some, List, [], ◌∷◌, length, one,
  ℤ, pos, neg, if◌then◌else◌,
}
use simple_c_database.Strings.{Bytes, c_str}
use simple_c_database.Strings.Compare.{same_str}
use simple_c_database.Table.Data.{Table, Env, Outcome, fault, done, Reply}
use simple_c_database.Table.Keys.{
  table_set, table_add, table_delete, table_replace, table_exist, table_get,
}
use simple_c_database.Table.Life.{adjust_capacity, table_clear}
use simple_c_database.Table.Outcomes.{destroyed_entry}
use simple_c_database.Table.Read.{fetched}
use simple_c_database.Table.Resize.{table_resize}
use simple_c_database.Table.Scan.{is_some}
use simple_c_database.Table.Valid.{contents}

module _ {ℓ} (V : Type ℓ) where
  -- A call with its arguments but the table: `Bool` says whether there is a destroyer.
  pub data Call : Type ℓ where
    set_call replace_call : Bytes → Option V → Bool → Call
    add_call : Bytes → Option V → Call
    delete_call : Bytes → Bool → Call
    exist_call : Bytes → Call
    get_call : Bytes → (V → ℕ) → Call
    clear_call : Bool → Call
    resize_call : ℕ → Call

  pub data Answer : Type ℓ where
    status : ℤ → Answer
    found : Bool → Answer
    copied : Option V → Answer

  -- An answer, and what the destroyer was called with.
  pub record Said : Type ℓ where
    pub answer : Answer
    pub destroyed : List (Option V)

  -- The entries, and how many there are.
  pub record Entries : Type ℓ where
    pub read : Bytes → Option (Option V)
    pub size : ℕ

abbrev pub Refused : Env → Type 0
Refused env = (i : ℕ) × (env.lock i ≡ false)

module _ {ℓ} {V : Type ℓ} where
  -- What a call leaves and says.
  abbrev pub said {κ} :
      {R : Type κ} → (R → Answer V) → Outcome (Reply V R) → Outcome (Option (Table V) × Said V)
  said answer fault = fault
  said answer (done r) =
      done (r.table, record { answer = answer r.result; destroyed = r.destroyed })

  unfoldable pub run_call :
      (V → ℕ → V) → Env → Option (Table V) → Call V → Outcome (Option (Table V) × Said V)
  run_call copy env t (set_call k v d) = said status (table_set env t (some k) v d)
  run_call copy env t (add_call k v) = said status (table_add env t (some k) v)
  run_call copy env t (replace_call k v d) = said status (table_replace env t (some k) v d)
  run_call copy env t (delete_call k d) = said status (table_delete env t (some k) d)
  run_call copy env t (exist_call k) = said found (table_exist env t (some k))
  run_call copy env t (get_call k sizer) = said copied (table_get env copy t (some k) (some sizer))
  run_call copy env t (clear_call d) = said status (table_clear env t d)
  run_call copy env t (resize_call n) = said status (table_resize env t n)

  -- Calls in turn, each in surroundings of its own.
  unfoldable pub run_calls :
      (V → ℕ → V)
      → Option (Table V)
      → List (Env × Call V)
      → Outcome (Option (Table V) × List (Said V))
  run_calls copy t [] = done (t, [])
  run_calls copy t ((env, c) ∷ cs) = elim (run_call copy env t c) [
    | fault ↦ fault
    | done (t', s) ↦ elim (run_calls copy t' cs) [
      | fault ↦ fault
      | done (t'', ss) ↦ done (t'', s ∷ ss)
    ]
  ]

  abbrev pub view : Table V → Entries V
  view t = record { read = contents t; size = t.elem_count }

  -- The same entries.
  abbrev pub Same : Entries V → Entries V → Type ℓ
  Same m m' = ((q : Bytes) → m'.read q ≡ m.read q) × (m'.size ≡ m.size)

  -- The entry of one key is another; the keys are compared as strings.
  abbrev pub Changed : Bytes → Option (Option V) → Entries V → Entries V → Type ℓ
  Changed k now m m' =
      ((q : Bytes) → m'.read q ≡ (if same_str k q then now else m.read q))
      × (m'.size + one (is_some (m.read k)) ≡ m.size + one (is_some now))

  -- A call that says `a` and destroys nothing.
  abbrev pub saying : Answer V → Said V
  saying a = record { answer = a; destroyed = [] }

  -- What a call may do to the entries, and say.
  abbrev pub Step : (V → ℕ → V) → Env → Entries V → Call V → Said V → Entries V → Type ℓ
  Step copy env m (set_call k v d) s m' =
      ((s ≡ record { answer = status (pos 0); destroyed = destroyed_entry d (m.read k) })
        × Changed k (some v) m m')
      ⊎ ((s ≡ saying (status (neg 2))) × (m.read k ≡ none) × Same m m')
      ⊎ ((s ≡ saying (status (neg 1))) × Refused env × Same m m')
  Step copy env m (add_call k v) s m' =
      ((s ≡ saying (status (pos 0))) × (m.read k ≡ none) × Changed k (some v) m m')
      ⊎ ((s ≡ saying (status (neg 3))) × (m.read k ≢ none) × Same m m')
      ⊎ ((s ≡ saying (status (neg 2))) × (m.read k ≡ none) × Same m m')
      ⊎ ((s ≡ saying (status (neg 1))) × Refused env × Same m m')
  Step copy env m (replace_call k v d) s m' =
      ((s ≡ record { answer = status (pos 0); destroyed = destroyed_entry d (m.read k) })
        × (m.read k ≢ none)
        × Changed k (some v) m m')
      ⊎ ((s ≡ saying (status (neg 2))) × (m.read k ≡ none) × Same m m')
      ⊎ ((s ≡ saying (status (neg 1))) × Refused env × Same m m')
  Step copy env m (delete_call k d) s m' =
      ((s ≡ record { answer = status (pos 0); destroyed = destroyed_entry d (m.read k) })
        × (m.read k ≢ none)
        × Changed k none m m')
      ⊎ ((s ≡ saying (status (neg 1))) × (m.read k ≡ none) × Same m m')
      ⊎ ((s ≡ saying (status (neg 2))) × Refused env × Same m m')
  Step copy env m (exist_call k) s m' =
      ((s ≡ saying (found (is_some (m.read k)))) × Same m m')
      ⊎ ((s ≡ saying (found false)) × Refused env × Same m m')
  Step copy env m (get_call k sizer) s m' =
      ((s ≡ saying (copied (fetched env copy sizer (m.read k)))) × Same m m')
      ⊎ ((s ≡ saying (copied none)) × Refused env × Same m m')
  Step copy env m (clear_call d) s m' =
      ((s.answer ≡ status (pos 0))
        × (length s.destroyed ≡ (if d then m.size else 0))
        × ((q : Bytes) → m'.read q ≡ none)
        × (m'.size ≡ 0))
      ⊎ ((s ≡ saying (status (neg 1))) × Refused env × Same m m')
  Step copy env m (resize_call n) s m' =
      ((s ≡ saying (status (pos 0))) ⊎ (s ≡ saying (status (neg 1)))) × Same m m'

  -- Steps in turn, with what each says.
  pub data Steps (copy : V → ℕ → V)
      : Entries V → List (Env × Call V) → List (Said V) → Entries V → Type ℓ where
    stop : {m : Entries V} → Steps copy m [] [] m
    next :
        {m m' m'' : Entries V} {env : Env} {c : Call V} {s : Said V} {cs : List (Env × Call V)}
        {ss : List (Said V)}
        → Step copy env m c s m'
        → Steps copy m' cs ss m''
        → Steps copy m ((env, c) ∷ cs) (s ∷ ss) m''

  -- A key fits a slot; a table does not outgrow its locks, of which there are `locks`.
  abbrev pub Fits : ℕ → Env × Call V → Type 0
  Fits locks (env, set_call k v d) = length (c_str k) < 255
  Fits locks (env, add_call k v) = length (c_str k) < 255
  Fits locks (env, replace_call k v d) = length (c_str k) < 255
  Fits locks (env, delete_call k d) = length (c_str k) < 255
  Fits locks (env, exist_call k) = length (c_str k) < 255
  Fits locks (env, get_call k sizer) = length (c_str k) < 255
  Fits locks (env, clear_call d) = Unit
  Fits locks (env, resize_call n) = (0 < n) × (n ≤ 2 ^ 63) × (adjust_capacity n ≤ locks)
