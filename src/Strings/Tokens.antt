-- ===== src/Strings/Tokens.antt =====
-- `tokenize_string` of string_functionality.c. `strtok` is the C library's, and keeps a state of its own
-- between calls: it is a parameter, which takes a string or NULL and the delimiters, and returns a token
-- or NULL.
use simple_c_database.Prelude.{
  ℕ, zero, suc, ◌+◌, ◌≤◌, ◌≡◌, refl, arith, Option, none, some, List, [], ◌∷◌, ◌++◌, map, ℤ, pos,
  neg, negsuc, length, min, take, drop,
}
use simple_c_database.Strings.{Bytes}

take-nil : {A : Type 0} (n : ℕ) → take {A = A} n [] ≡ []
take-nil zero = refl
take-nil (suc n) = refl

module _ {State Token : Type 0} (strtok : State → Option Bytes → Bytes → Option Token × State) where
  -- The pointers that `out_tokens` points to, not written where they are NULL here.
  abbrev pub Tokens : Type 0
  Tokens = List (Option Token)

  -- What the loop gives: the count, `out_tokens` and the state of `strtok`.
  abbrev pub Tokenized : Type 0
  Tokenized = ℕ × Tokens × State

  -- A pointer is stored before the rest.
  abbrev pub stored : Token → Option Tokenized → Option Tokenized
  stored t none = none
  stored t (some (n, out, st)) = some (n, some t ∷ out, st)

  -- The loop, with `left` = max_tokens - count and what `out_tokens + count` points to. `none` is a write
  -- past the end.
  unfoldable pub tokenize_loop : ℕ → Bytes → ℕ → Option Token × State → Tokens → Option Tokenized
  tokenize_loop left delimiter count (none, st) out = some (count, out, st)
  tokenize_loop zero delimiter count (some t, st) out = some (count, out, st)
  tokenize_loop (suc left) delimiter count (some t, st) [] = none
  tokenize_loop (suc left) delimiter count (some t, st) (x ∷ out) =
      stored t (tokenize_loop left delimiter (count + 1) (strtok st none delimiter) out)

  -- No token is taken where `max_tokens` is negative.
  abbrev pub room : ℤ → ℕ
  room (pos n) = n
  room (negsuc n) = 0

  unfoldable pub tokenize_string :
      State → Option Bytes → Option Bytes → ℤ → Tokens → Option (ℤ × Tokens × State)
  tokenize_string st none input max_tokens out = some (neg 1, out, st)
  tokenize_string st (some delimiter) input max_tokens out =
      elim (tokenize_loop (room max_tokens) delimiter 0 (strtok st input delimiter) out) [
        | none ↦ none
        | some (n, out', st') ↦ some (pos n, out', st')
      ]

  -- What a call of `strtok` returned, with what later calls on the same string return: the tokens `ts`,
  -- and then NULL.
  pub data Gives (delimiter : Bytes) : Option Token × State → List Token → Type 0 where
    no_more : {st : State} → Gives delimiter (none, st) []
    one_more :
        {st : State} (t : Token) {ts : List Token}
        → Gives delimiter (strtok st none delimiter) ts
        → Gives delimiter (some t, st) (t ∷ ts)

  tokenize_loop-take :
      (left : ℕ) (delimiter : Bytes) (count : ℕ) {call : Option Token × State} (ts : List Token)
      (out : Tokens)
      → Gives delimiter call ts
      → left ≤ length out
      → (st : State) × (tokenize_loop left delimiter count call out
          ≡ some (
            count + min left (length ts),
            map some (take left ts) ++ drop (min left (length ts)) out,
            st,
          ))
  unfolding tokenize_loop
  tokenize_loop-take left delimiter count [] out (no_more {st}) fits =
      let nothing : min left 0 ≡ 0 = omega arith in
      let so_far : count + 0 ≡ count = omega arith in
      (st, rw (nothing, so_far, take-nil {A = Token} left) refl)
  tokenize_loop-take zero delimiter count (t ∷ ts) out (one_more {st} _ more) fits =
      let nothing : min 0 (suc (length ts)) ≡ 0 = omega arith in
      let so_far : count + 0 ≡ count = omega arith in (st, rw (nothing, so_far) refl)
  tokenize_loop-take (suc left) delimiter count (t ∷ ts) [] (one_more _ more) fits =
      absurd (omega arith)
  tokenize_loop-take (suc left) delimiter count (t ∷ ts) (x ∷ out) (one_more _ more) fits =
      let (st, rest) = tokenize_loop-take left delimiter (count + 1) ts out more (omega arith) in
      let m = min left (length ts) in
      let both : min (suc left) (suc (length ts)) ≡ suc m = omega arith in
      let one_on : count + suc m ≡ count + 1 + m = omega arith in (st, rw (rest, both, one_on) refl)

  -- Where `strtok` returns the tokens `ts` on the string and the calls after it, and then NULL, and
  -- `out_tokens` has room for `max_tokens` pointers, `tokenize_string` returns, with no write past the end,
  -- the number of the tokens or `max_tokens`, if there are more; it stores the first so many tokens in
  -- order, and leaves the pointers after them.
  pub tokenize_string_lem :
      (delimiter : Bytes) (st : State) (input : Option Bytes) (max_tokens : ℕ) (ts : List Token)
      (out : Tokens)
      → Gives delimiter (strtok st input delimiter) ts
      → max_tokens ≤ length out
      → (st' : State) × (tokenize_string st (some delimiter) input (pos max_tokens) out
          ≡ some (
            pos (min max_tokens (length ts)),
            map some (take max_tokens ts) ++ drop (min max_tokens (length ts)) out,
            st',
          ))
  unfolding tokenize_string
  tokenize_string_lem delimiter st input max_tokens ts out gives fits =
      let (st', run) = tokenize_loop-take max_tokens delimiter 0 ts out gives fits in
      let start : 0 + min max_tokens (length ts) ≡ min max_tokens (length ts) = omega arith in
      (st', rw (run, start, tokenize_string) refl)
