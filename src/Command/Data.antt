-- ===== src/Command/Data.antt =====
-- The types of command.h, and what its functions read of the C library.
--
-- The unions of the inputs and outputs of a command have one field for each kind of content: each
-- command reads the member that was written for it. Only the counter of a COUNT is read through
-- another member than the one written, so it is a type of its own.
use simple_c_database.Prelude.{
  ℕ, zero, suc, ◌-◌, Bool, false, Option, none, List, [], ◌∷◌, ℤ, pos, take,
}
use simple_c_database.Strings.{Bytes}
use simple_c_database.Table.Data.{Table, Env, Outcome, fault, done, Reply}

-- `double`: division of two counts, the representation as a `size_t` and back, and what `snprintf`
-- writes for "%.nf", where `none` is a negative result.
pub record Floats : Type 1 where
  pub Double : Type 0
  pub zero_double : Double
  pub divide : ℕ → ℕ → Double
  pub bits : Double → ℕ
  pub of_bits : ℕ → Double
  pub print_fixed : ℕ → Double → Option Bytes

pub data Tag : Type 0 where
  type_get type_set type_add type_del type_exist type_replace : Tag
  type_resize type_clear type_loadfactor type_count type_error type_empty : Tag

pub data CountType : Type 0 where
  count_capacity count_memory_usage count_total_elem count_occupied_bucket : CountType

-- `data_entry_t`: `bytes` is the flexible array `data`.
pub record Entry : Type 0 where
  pub size : ℕ
  pub bytes : Bytes

abbrev pub sizeof_entry : ℕ
sizeof_entry = 8

-- What `memdup` of `n` bytes at an entry gives.
abbrev pub copy_entry : Entry → ℕ → Entry
copy_entry e n = record { size = e.size; bytes = take (n - sizeof_entry) e.bytes }

pub record CommandData : Type 0 where
  pub tag : Tag
  pub key : Option Bytes
  pub value : Option Entry
  pub new_size : ℕ
  pub count_type : CountType

-- `{0}`
abbrev pub no_data : CommandData
no_data = record {
  tag = type_get;
  key = none;
  value = none;
  new_size = 0;
  count_type = count_capacity;
}

pub data Counter (Double : Type 0) : Type 0 where
  counter_d : Double → Counter Double
  counter_s : ℕ → Counter Double

pub record CommandResult (Double : Type 0) : Type 0 where
  pub tag : Tag
  pub value : Option Entry
  pub error : ℤ
  pub existence : Bool
  pub load_factor : Double
  pub count_type : CountType
  pub counter : Counter Double

-- `{0}` with its type set to `CMD_TYPE_ERROR`, with which every command starts.
abbrev pub no_result : (f : Floats) → CommandResult f.Double
no_result f = record {
  tag = type_error;
  value = none;
  error = pos 0;
  existence = false;
  load_factor = f.zero_double;
  count_type = count_capacity;
  counter = counter_s 0;
}

abbrev pub Proc : Type 0 → Type 0
Proc Double =
    Env → Option (Table Entry) → Option CommandData → Outcome (Reply Entry (CommandResult Double))

pub record Command (Double : Type 0) : Type 0 where
  pub name : Bytes
  pub tag : Tag
  pub proc : Proc Double
  pub arity : ℤ
  pub flags : Bytes

pub record Registry (Double : Type 0) : Type 0 where
  pub commands : List (Command Double)
  pub count : ℕ

pub record ServerContext (Double : Type 0) : Type 0 where
  pub reg : Option (Registry Double)
  pub db : Option (Table Entry)

pub record ExecuteResult : Type 0 where
  pub status_code : ℕ
  pub body : Option Bytes
  pub body_length : ℕ

infixl 5 ◌>>=◌
abbrev pub ◌>>=◌ {ℓ κ} : {A : Type ℓ} {B : Type κ} → Outcome A → (A → Outcome B) → Outcome B
fault >>= f = fault
done a >>= f = f a

-- `xs[i]`
abbrev pub index {ℓ} : {A : Type ℓ} → List A → ℕ → Outcome A
index [] i = fault
index (x ∷ xs) zero = done x
index (x ∷ xs) (suc i) = index xs i

-- A reply with another result.
abbrev pub with_result {ℓ κ κ'} :
    {V : Type ℓ} {R : Type κ} {S : Type κ'} → S → Reply V R → Reply V S
with_result s r = record { result = s; table = r.table; destroyed = r.destroyed; events = r.events }
