-- ===== src/Server/Holds.antt =====
-- The bounds of the parser, and what the pieces of an iteration keep of them.
use simple_c_database.Command.Data.{◌>>=◌}
use simple_c_database.Prelude.{
  ℕ, suc, ◌+◌, ◌-◌, ◌≤◌, ◌<◌, ◌≡◌, refl, arith, Bool, true, false, Option, none, some, [], ◌∷◌,
  length, length-append, length-drop, drop, inl, inr, Bool-cases, Option-cases, ◌==◌, if◌then◌else◌,
}
use simple_c_database.Server.Buffer.{consume, cr, next_position, crlf_at}
use simple_c_database.Server.Data.{ClientContext}
use simple_c_database.Server.Arrays.{free_parser_resources, prepare, frees}
use simple_c_database.Strings.{Bytes}
use simple_c_database.Table.Data.{Env, Outcome, fault, done}

-- What a call returns, where it returns.
abbrev pub Holds : {A : Type 0} → (A → Type 0) → Outcome A → Type 0
Holds P fault = Unit
Holds P (done a) = P a

pub Holds-any : {A : Type 0} (o : Outcome A) → Holds (λ _. Unit) o
Holds-any fault = tt
Holds-any (done a) = tt

pub Holds-bind :
    {A B : Type 0} (P : A → Type 0) (Q : B → Type 0) (o : Outcome A) (k : A → Outcome B)
    → Holds P o
    → ((a : A) → P a → Holds Q (k a))
    → Holds Q (o >>= k)
Holds-bind P Q fault k h g = tt
Holds-bind P Q (done a) k h g = g a h

pub Holds-if :
    {A : Type 0} (P : A → Type 0) (b : Bool) (x y : Outcome A)
    → Holds P x
    → Holds P y
    → Holds P (if b then x else y)
Holds-if P true x y hx hy = hx
Holds-if P false x y hx hy = hy

-- The numbers of the parser are within the limits of the protocol, and the block of the buffer has
-- the size that is noted.
pub record Bounded (ctx : ClientContext) : Type 0 where
  pub total : ctx.args_total ≤ 1024
  pub small : ctx.data_to_read ≤ 8192
  pub block : length ctx.buffer + length ctx.unused ≡ ctx.buffer_capacity

pub consume-Bounded : (n : ℕ) (ctx : ClientContext) → Bounded ctx → Bounded (consume n ctx)
consume-Bounded n ctx b = record {
  total = b.total;
  small = b.small;
  block = omega (
    arith,
    b.block,
    length-drop n ctx.buffer,
    length-drop (length ctx.buffer - n) ctx.buffer,
    length-append (drop (length ctx.buffer - n) ctx.buffer) ctx.unused,
  );
}

next_position-lt :
    (o : Option ℕ) (n i : ℕ)
    → ((j : ℕ) → o ≡ some j → suc j < n)
    → next_position o ≡ some i
    → suc i < suc n
next_position-lt none n i h e = ground arith
next_position-lt (some j) n i h e = ground (arith, h j refl)

-- The two bytes that are found are among the bytes.
pub crlf_at-lt : (s : Bytes) (i : ℕ) → crlf_at s ≡ some i → suc i < length s
unfolding crlf_at
crlf_at-lt [] i h = ground arith
crlf_at-lt (c ∷ s) i h = elim (Bool-cases (c == cr)) [
  | inl here ↦ ground (arith, crlf_at-lt s)
  | inr on ↦
      next_position-lt (crlf_at s) (length s) i (λ j e. crlf_at-lt s j e) (rw (on, crlf_at) at h)
]

pub free_parser_resources-Bounded :
    (ctx : ClientContext) → Bounded ctx → Holds Bounded (free_parser_resources ctx)
unfolding free_parser_resources
free_parser_resources-Bounded ctx b = elim (Option-cases ctx.temp_argv) [
  | inl e ↦ rw e (record { total = b.total; small = b.small; block = b.block })
  | inr (argv, e) ↦ elim (Bool-cases (frees ctx.args_parsed argv)) [
    | inl freed ↦ rw (e, freed) (record { total = b.total; small = b.small; block = b.block })
    | inr left ↦ rw (e, left) tt
  ]
]

pub prepare-kept :
    (env : Env) (ctx : ClientContext)
    → Bounded ctx
    → Bounded (prepare env ctx)
      × (length (prepare env ctx).buffer ≡ length ctx.buffer)
      × ((prepare env ctx).data_to_read ≡ ctx.data_to_read)
prepare-kept env ctx b = (record { total = b.total; small = b.small; block = b.block }, refl, refl)
