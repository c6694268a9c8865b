-- ===== src/Server/Slots.antt =====
-- The arrays of a request while they are filled.
use simple_c_database.Prelude.{
  ℕ, suc, ◌+◌, ◌*◌, ◌/◌, ◌%◌, ◌^◌, ◌≤◌, ◌≡◌, refl, ap, arith, true, Option, none, some, List, [],
  ◌∷◌, ◌++◌, map, length, length-replicate, replicate, set, ltb,
}
use simple_c_database.Server.Arrays.{store, new_array, written_prefix}
use simple_c_database.Table.Data.{Env, done}

-- An array with its first elements written and `k` more.
abbrev pub slots : {A : Type 0} → List A → ℕ → List (Option A)
slots xs k = map some xs ++ replicate k none

pub length-slots : {A : Type 0} (xs : List A) (k : ℕ) → length (slots xs k) ≡ length xs + k
length-slots {A} [] k = omega (arith, length-replicate {A = Option A} k none)
length-slots (x ∷ xs) k = omega (arith, length-slots xs k)

set-slots :
    {A : Type 0} (xs : List A) (k : ℕ) (a : A)
    → set (slots xs (suc k)) (length xs) (some a) ≡ slots (xs ++ a ∷ []) k
set-slots [] k a = refl
set-slots (x ∷ xs) k a = ap (λ ys. some x ∷ ys) (set-slots xs k a)

-- The next element is stored in its place.
pub store-slots :
    {A : Type 0} (xs : List A) (k i : ℕ) (a : A)
    → i ≡ length xs
    → store (some (slots xs (suc k))) i a ≡ done (some (slots (xs ++ a ∷ []) k))
store-slots xs k i a e =
    let room : ltb (length xs) (length (slots xs (suc k))) ≡ true =
      ground (arith, length-slots xs (suc k)) in
    rw (e, room, set-slots xs k a) refl

pub new_array-slots :
    {A : Type 0} (env : Env) (n : ℕ)
    → ((m : ℕ) → env.malloc m ≡ true)
    → n ≤ 1024
    → new_array env n ≡ some (slots {A = A} [] n)
new_array-slots env n memory small =
    let size : (n * 8) % 2 ^ 64 / 8 ≡ n = omega arith in rw (memory ((n * 8) % 2 ^ 64), size) refl

pub written_prefix-slots : {A : Type 0} (xs : List A) → written_prefix (slots xs 0) ≡ xs
written_prefix-slots [] = refl
written_prefix-slots (x ∷ xs) = ap (λ ys. x ∷ ys) (written_prefix-slots xs)

pub append-one : {A : Type 0} (xs ys : List A) (a : A) → (xs ++ a ∷ []) ++ ys ≡ xs ++ a ∷ ys
append-one [] ys a = refl
append-one (x ∷ xs) ys a = ap (λ zs. x ∷ zs) (append-one xs ys a)
