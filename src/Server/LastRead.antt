-- ===== src/Server/LastRead.antt =====
-- The iterations that read the arguments of a request.
use simple_c_database.Command.Data.{Floats}
use simple_c_database.Prelude.{
  ℕ, ◌+◌, ◌≤◌, ◌≡◌, refl, arith, true, false, Option, some, List, [], ◌∷◌, ◌++◌, ◌==◌,
}
use simple_c_database.Server.Data.{parse_state_expect_data, ClientContext, Net, Conn, with_ctx}
use simple_c_database.Server.Arrays.{array_for}
use simple_c_database.Server.Parse.{iteration, run_request}
use simple_c_database.Server.Run.{Reaches, Reaches-trans}
use simple_c_database.Server.Slots.{slots}
use simple_c_database.Strings.{Bytes}

-- The last of some lengths.
abbrev pub last_length : List ℕ → ℕ
last_length [] = 0
last_length (n ∷ []) = n
last_length (m ∷ n ∷ ns) = last_length (n ∷ ns)

pub last_length-append : (ns : List ℕ) (n : ℕ) → last_length (ns ++ n ∷ []) ≡ n
last_length-append [] n = refl
last_length-append (m ∷ []) n = refl
last_length-append (m ∷ k ∷ ns) n = last_length-append (k ∷ ns) n

module _ (f : Floats) (net : Net) (memory : (m : ℕ) → net.env.malloc m ≡ true) where
  -- From a connection, the loop reaches the reading of the last of `n` arguments, which runs the command of
  -- the strings `ss` with the lengths `ls`.
  pub record LastRead (c start : Conn f.Double) (n : ℕ) (ss : List Bytes) (ls : List ℕ)
      : Type 0 where
    pub last : ClientContext
    pub reaches : Reaches f net start (with_ctx c last)
    pub final : ClientContext
    pub run :
        iteration f net (with_ctx c last)
        ≡ run_request f net (with_ctx c final) (slots ss 0) (slots ls 0)
    pub emptied : final.buffer ≡ []
    pub state : final.state ≡ parse_state_expect_data
    pub total : final.args_total ≡ n
    pub parsed : final.args_parsed ≡ n
    pub small : final.data_to_read ≤ 8192
    pub last_read : final.data_to_read ≡ last_length ls
    pub argv : final.temp_argv ≡ some (slots ss 0)

  pub LastRead-step :
      {c start next : Conn f.Double} {n : ℕ} {ss : List Bytes} {ls : List ℕ}
      → Reaches f net start next
      → LastRead c next n ss ls
      → LastRead c start n ss ls
  LastRead-step r l = record {
    last = l.last;
    reaches = Reaches-trans f net r l.reaches;
    final = l.final;
    run = l.run;
    emptied = l.emptied;
    state = l.state;
    total = l.total;
    parsed = l.parsed;
    small = l.small;
    last_read = l.last_read;
    argv = l.argv;
  }

  pub array_for-later :
      {A : Type 0} (p total : ℕ) (old : Option (List (Option A)))
      → array_for net.env (p + 1) total old ≡ old
  array_for-later p total old = let later : (p + 1 == 0) ≡ false = ground arith in rw later refl
