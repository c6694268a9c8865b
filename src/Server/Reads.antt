-- ===== src/Server/Reads.antt =====
-- Several reads of one connection, and what they leave of it.
use simple_c_database.Command.Data.{Floats, Entry, ServerContext, ExecuteResult}
use simple_c_database.Prelude.{
  ◌≡◌, refl, ap, arith, ℕ, zero, suc, ◌+◌, ◌≤◌, Option, none, some, List, [], ◌∷◌, ◌++◌, pos,
  length,
}
use simple_c_database.Server.Data.{
  ClientContext, NetEvent, timer_started, read_freed, overrun, written, Net, Conn,
}
use simple_c_database.Server.Response.{response}
use simple_c_database.Server.Handlers.{on_read}
use simple_c_database.Strings.{Bytes}
use simple_c_database.Table.Data.{Outcome, fault, done, Reply}

-- All bytes of several reads.
abbrev pub joined : List Bytes → Bytes
joined [] = []
joined (x ∷ xs) = x ++ joined xs

abbrev pub Nonempty : Bytes → Type 0
Nonempty x = 1 ≤ length x

-- Reads one after the other, each of all the bytes that it was handed.
pub read_all : (f : Floats) → Net → Conn f.Double → List Bytes → Option (Outcome (Conn f.Double))
read_all f net c [] = some (done c)
read_all f net c (x ∷ xs) = elim (on_read f net c (pos (length x)) (some x)) [
  | none ↦ none
  | some o ↦ elim o [ fault ↦ some fault | done d ↦ read_all f net d xs ]
]

pub read_all-step :
    (f : Floats) (net : Net) (c d : Conn f.Double) (x : Bytes) (xs : List Bytes)
    → on_read f net c (pos (length x)) (some x) ≡ some (done d)
    → read_all f net c (x ∷ xs) ≡ read_all f net d xs
unfolding read_all
read_all-step f net c d x xs run = rw (run, read_all) refl

pub read_all-last :
    (f : Floats) (net : Net) (c d : Conn f.Double) (x : Bytes)
    → on_read f net c (pos (length x)) (some x) ≡ some (done d)
    → read_all f net c (x ∷ []) ≡ some (done d)
unfolding read_all
read_all-last f net c d x run = read_all-step f net c d x [] run

pub read_all-append :
    (f : Floats) (net : Net) (c d : Conn f.Double) (xs ys : List Bytes)
    → read_all f net c xs ≡ some (done d)
    → read_all f net c (xs ++ ys) ≡ read_all f net d ys
unfolding read_all
read_all-append f net c d [] ys run = let same : c ≡ d = cc in ap (λ c'. read_all f net c' ys) same
read_all-append f net c d (x ∷ xs) ys run =
    by_result (on_read f net c (pos (length x)) (some x)) run
      (λ c' h. read_all-append f net c' d xs ys h)
  where
    by_result :
        (r : Option (Outcome (Conn f.Double)))
        → elim r [
          | none ↦ none
          | some o ↦ elim o [ fault ↦ some fault | done c' ↦ read_all f net c' xs ]
        ]
          ≡ some (done d)
        → ((c' : Conn f.Double)
            → read_all f net c' xs ≡ some (done d)
            → read_all f net c' (xs ++ ys) ≡ read_all f net d ys)
        → elim r [
          | none ↦ none
          | some o ↦ elim o [ fault ↦ some fault | done c' ↦ read_all f net c' (xs ++ ys) ]
        ]
          ≡ read_all f net d ys
    by_result none h go = absurd (ground arith)
    by_result (some fault) h go = absurd (ground arith)
    by_result (some (done c')) h go = go c' h

-- A read in which memory is accessed out of bounds is the last one.
pub read_all-fault :
    (f : Floats) (net : Net) (c : Conn f.Double) (x : Bytes)
    → on_read f net c (pos (length x)) (some x) ≡ some fault
    → read_all f net c (x ∷ []) ≡ some fault
unfolding read_all
read_all-fault f net c x run = rw (run, read_all) refl

-- The events of `k` reads that only fill the buffer, after others.
abbrev pub quiet : ℕ → List NetEvent → List NetEvent
quiet zero es = es
quiet (suc k) es = quiet k ((es ++ timer_started ∷ []) ++ read_freed ∷ [])

-- A connection in the course of a request.
abbrev pub conn :
    {Double : Type 0} → ServerContext Double → ClientContext → List NetEvent → Conn Double
conn s ctx es = record { ctx = ctx; server_ctx = s; events = es }

-- The connection after the answer: a line feed, which is 10, was written past the end of the block of
-- the response.
abbrev pub ended :
    {Double : Type 0}
    → Net
    → ServerContext Double
    → Reply Entry ExecuteResult
    → ClientContext
    → List NetEvent
    → Conn Double
ended net s reply ctx es = record {
  ctx = ctx;
  server_ctx = record s { db = reply.table };
  events =
      (es ++ overrun (reply.result.body_length + 1) 10 ∷ [])
      ++ written (response net.fresh reply.result.body reply.result.body_length) ∷ [];
}
