-- ===== src/Command/Lookup.antt =====
-- The search for a command by its name, and for a kind of COUNT.
use simple_c_database.Command.Data.{
  Floats, Command, Registry, CountType, count_capacity, count_memory_usage, count_total_elem,
  count_occupied_bucket,
}
use simple_c_database.Command.Registry.{
  command_table, registry_create, bsearch_between, find_command_index, index_or, row, probe, side,
  found, stocmdcount,
}
use simple_c_database.Prelude.{
  ℕ, zero, suc, ◌+◌, ◌/◌, ◌≡◌, ◌↔◌, refl, sym, ap, ◌∙◌, arith, Bool, true, Option, none, some, List,
  [], ◌∷◌, ℤ, pos, negsuc, length, codes, is_zero,
}
use simple_c_database.Strings.Compare.{ustrcmp-c_str}
use simple_c_database.Strings.{Bytes, c_str, ustrcmp, head_byte, tail_bytes}

-- `ustrcmp` reads the two strings and no more.
ustrcmp-c_str_left : (s t : Bytes) → ustrcmp (c_str s) t ≡ ustrcmp s t
unfolding ustrcmp
ustrcmp-c_str_left [] t = refl
ustrcmp-c_str_left (c ∷ s) t = ground (arith, ustrcmp-c_str_left s (tail_bytes t))

side-found : (z : ℤ) → side z ≡ found → is_zero z ≡ true
side-found (pos zero) h = refl
side-found (pos (suc n)) h = absurd (cc h)
side-found (negsuc n) h = absurd (cc h)

index_or-pos : (o : Option ℕ) (i : ℕ) → index_or o ≡ pos i → o ≡ some i
index_or-pos none i h = absurd (cc h)
index_or-pos (some j) i h = cc

module _ {Double : Type 0} where
  -- An index that the search returns is that of an element equal to the key.
  bsearch_between-found :
      (fuel : ℕ) (key : Bytes) (cs : List (Command Double)) (lo hi : ℕ) (i : ℕ)
      → bsearch_between fuel key cs lo hi ≡ some i
      → probe key (row cs i) ≡ found
  unfolding bsearch_between
  bsearch_between-found zero key cs lo hi i h = cc
  bsearch_between-found (suc fuel) key cs lo hi i h = ground (
    arith,
    bsearch_between-found fuel key cs lo ((lo + hi) / 2) i,
    bsearch_between-found fuel key cs ((lo + hi) / 2 + 1) hi i,
  )

  probe-c_str : (key : Bytes) (o : Option (Command Double)) → probe (c_str key) o ≡ probe key o
  probe-c_str key none = refl
  probe-c_str key (some c) = ap side (ustrcmp-c_str_left key c.name)

  bsearch_between-c_str :
      (fuel : ℕ) (key : Bytes) (cs : List (Command Double)) (lo hi : ℕ)
      → bsearch_between fuel (c_str key) cs lo hi ≡ bsearch_between fuel key cs lo hi
  unfolding bsearch_between
  bsearch_between-c_str zero key cs lo hi = refl
  bsearch_between-c_str (suc fuel) key cs lo hi = ground (
    arith,
    probe-c_str key (row cs ((lo + hi) / 2)),
    bsearch_between-c_str fuel key cs lo ((lo + hi) / 2),
    bsearch_between-c_str fuel key cs ((lo + hi) / 2 + 1) hi,
  )

  find_command_index-c_str :
      (reg : Registry Double) (name : Bytes)
      → find_command_index (some reg) (some (c_str name))
        ≡ find_command_index (some reg) (some name)
  unfolding find_command_index
  find_command_index-c_str reg name =
      ap index_or (bsearch_between-c_str (reg.count + 1) name reg.commands 0 reg.count)

  probe-found :
      (key : Bytes) (o : Option (Command Double))
      → probe key o ≡ found
      → (c : Command Double) × (o ≡ some c) × (c_str key ≡ c_str c.name)
  probe-found key none h = absurd (cc h)
  probe-found key (some c) h = (c, refl, (ustrcmp-c_str key c.name).0 (side-found _ h))

  -- Each of the commands from row `i` on is found at its row.
  abbrev FoundFrom : Registry Double → ℕ → List (Command Double) → Type 0
  FoundFrom reg i [] = Unit
  FoundFrom reg i (c ∷ cs) =
      (find_command_index (some reg) (some (c_str c.name)) ≡ pos i) × FoundFrom reg (i + 1) cs

  FoundFrom-row :
      (reg : Registry Double) (i j : ℕ) (cs : List (Command Double)) (c : Command Double)
      → FoundFrom reg i cs
      → row cs j ≡ some c
      → find_command_index (some reg) (some (c_str c.name)) ≡ pos (i + j)
  FoundFrom-row reg i j [] c all h = absurd (cc h)
  FoundFrom-row reg i zero (d ∷ cs) c all h =
      let same : d ≡ c = cc in let e : i + 0 ≡ i = omega arith in rw (e, ← same) all.0
  FoundFrom-row reg i (suc j) (d ∷ cs) c all h =
      let e : i + suc j ≡ i + 1 + j = omega arith in rw e (FoundFrom-row reg (i + 1) j cs c all.1 h)

module _ (f : Floats) where
  -- The registry of a server.
  abbrev pub full_registry : Registry f.Double
  full_registry = record { commands = command_table f; count = length (command_table f) }

  all_found : FoundFrom full_registry 0 (command_table f)
  unfolding find_command_index ustrcmp
  all_found = (refl, (refl, (refl, (refl, (refl, (refl, (refl, (refl, (refl, (refl, tt))))))))))

  pub registry_create-rows :
      (alloc : ℕ → Bool) (reg : Registry f.Double)
      → registry_create f alloc ≡ some reg
      → reg.commands ≡ command_table f
  unfolding registry_create
  registry_create-rows alloc reg made = ground arith

  -- In the registry that `registry_create` returns, `find_command_index` of a name gives an index exactly
  -- where the row of the table at that index has that name.
  pub find_command_index_lem :
      (alloc : ℕ → Bool) (reg : Registry f.Double)
      → registry_create f alloc ≡ some reg
      → (name : Bytes) (i : ℕ)
      → (find_command_index (some reg) (some name) ≡ pos i)
        ↔ ((c : Command f.Double) × (row reg.commands i ≡ some c) × (c_str name ≡ c_str c.name))
  unfolding registry_create find_command_index
  find_command_index_lem alloc reg made name i =
      let same : reg ≡ full_registry = ground arith in
      rw same (
        (λ h.
            probe-found name (row (command_table f) i)
              (bsearch_between-found 11 name (command_table f) 0 10 i (index_or-pos _ i h))),
        (λ (c, at_i, e).
            let place : 0 + i ≡ i = omega arith in
            sym (find_command_index-c_str full_registry name)
            ∙ ap (λ (s : Bytes). find_command_index (some full_registry) (some s)) e
            ∙ FoundFrom-row full_registry 0 i (command_table f) c all_found at_i
            ∙ ap pos place),
      )

-- The name of each kind of COUNT.
abbrev pub count_name : CountType → Bytes
count_name count_capacity = codes "CAPACITY"
count_name count_memory_usage = codes "MEMORY_USAGE"
count_name count_total_elem = codes "TOTAL_ELEM"
count_name count_occupied_bucket = codes "OCCUPIED_BUCKET"

head-c_str : (s t : Bytes) → c_str s ≡ c_str t → head_byte s ≡ head_byte t
head-c_str [] [] h = refl
head-c_str [] (d ∷ t) h = ground arith
head-c_str (c ∷ s) [] h = ground arith
head-c_str (c ∷ s) (d ∷ t) h = ground arith

-- `stocmdcount` accepts a string as a kind of COUNT exactly where the string is the name of that kind.
pub stocmdcount_lem :
    (s : Bytes) (before kind : CountType)
    → (stocmdcount (some s) (some before) ≡ (true, some kind)) ↔ (c_str s ≡ c_str (count_name kind))
unfolding stocmdcount
stocmdcount_lem s before kind = (forward kind, backward kind)
  where
    forward :
        (kind : CountType)
        → stocmdcount (some s) (some before) ≡ (true, some kind)
        → c_str s ≡ c_str (count_name kind)
    forward count_capacity h = ground (arith, ustrcmp-c_str s (codes "CAPACITY"))
    forward count_memory_usage h = ground (arith, ustrcmp-c_str s (codes "MEMORY_USAGE"))
    forward count_total_elem h = ground (arith, ustrcmp-c_str s (codes "TOTAL_ELEM"))
    forward count_occupied_bucket h = ground (arith, ustrcmp-c_str s (codes "OCCUPIED_BUCKET"))

    backward :
        (kind : CountType)
        → c_str s ≡ c_str (count_name kind)
        → stocmdcount (some s) (some before) ≡ (true, some kind)
    backward count_capacity e =
        rw (head-c_str s (codes "CAPACITY") e, (ustrcmp-c_str s (codes "CAPACITY")).1 e) refl
    backward count_memory_usage e =
        rw (head-c_str s (codes "MEMORY_USAGE") e, (ustrcmp-c_str s (codes "MEMORY_USAGE")).1 e)
          refl
    backward count_total_elem e =
        rw (head-c_str s (codes "TOTAL_ELEM") e, (ustrcmp-c_str s (codes "TOTAL_ELEM")).1 e) refl
    backward count_occupied_bucket e =
        rw
          (
            head-c_str s (codes "OCCUPIED_BUCKET") e,
            (ustrcmp-c_str s (codes "OCCUPIED_BUCKET")).1 e,
          )
          refl
