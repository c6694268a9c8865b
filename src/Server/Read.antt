-- ===== src/Server/Read.antt =====
-- One read of a connection, by what `parse_buffer` makes of it.
use simple_c_database.Command.Data.{Floats}
use simple_c_database.Prelude.{ℕ, suc, ◌≡◌, refl, arith, some, pos, length, take_all}
use simple_c_database.Server.Holds.{Bounded}
use simple_c_database.Server.Buffer.{append_to_buffer}
use simple_c_database.Server.Data.{new_context, timer_started, read_freed, Net, Conn, note}
use simple_c_database.Server.Handlers.{on_read, parse_read}
use simple_c_database.Server.Parse.{parse_buffer}
use simple_c_database.Strings.{Bytes, ssizet_to_sizet}
use simple_c_database.Table.Data.{fault, done}

pub new_context-Bounded : Bounded new_context
new_context-Bounded = record { total = omega arith; small = omega arith; block = refl }

-- A read appends its bytes, parses the buffer and frees what it was handed.
pub on_read-parsed :
    (f : Floats) (net : Net) (c d e : Conn f.Double) (n : ℕ) (bytes : Bytes)
    → length bytes ≡ suc n
    → append_to_buffer net (note c timer_started) bytes ≡ done d
    → parse_buffer f net d ≡ some (done e)
    → on_read f net c (pos (suc n)) (some bytes) ≡ some (done (note e read_freed))
unfolding on_read ssizet_to_sizet
on_read-parsed f net c d e n bytes count run parsed =
    let whole = take_all (suc n) bytes (omega (arith, count)) in
    rw (whole, run, parse_read, parsed) refl

-- A read of which `parse_buffer` accesses memory out of bounds.
pub on_read-fault :
    (f : Floats) (net : Net) (c d : Conn f.Double) (n : ℕ) (bytes : Bytes)
    → length bytes ≡ suc n
    → append_to_buffer net (note c timer_started) bytes ≡ done d
    → parse_buffer f net d ≡ some fault
    → on_read f net c (pos (suc n)) (some bytes) ≡ some fault
unfolding on_read ssizet_to_sizet
on_read-fault f net c d n bytes count run parsed =
    let whole = take_all (suc n) bytes (omega (arith, count)) in
    rw (whole, run, parse_read, parsed) refl
