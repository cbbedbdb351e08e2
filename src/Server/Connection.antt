-- ===== src/Server/Connection.antt =====
-- A `TcpStream` in both directions, with the writes of `std::io::Write`, and the `?` of the source.
pub mod Laws
use ertw.Common.{take, ◌-◌, ◌++◌, length, leb, Option, if◌then◌else◌, ℕ, List}
use ertw.Server.Stream.{read_frame, err, ErrorKind, ok, Result, Stream}

-- What the peer sends, what it was sent, and how many more bytes it takes before a write fails with
-- `refusal`. `settings` is the error of setting the timeouts, if that fails.
pub record Connection : Type 0 where
  pub stream : Stream
  pub sent : List ℕ
  pub room : ℕ
  pub refusal : ErrorKind
  pub settings : Option ErrorKind

-- `?`: the rest of the steps runs where the first succeeded.
abbrev pub and_then {ℓ ℓ' ℓ''} :
    {S : Type ℓ} {A : Type ℓ'} {B : Type ℓ''} → Result A × S → (A → S → Result B × S) → Result B × S
and_then (ok a, s) f = f a s
and_then (err e, s) f = (err e, s)

-- `write_all`; a failed write has sent what there was room for.
unfoldable pub write_all : List ℕ → Connection → Result (Unit {0}) × Connection
write_all bytes c =
    if leb (length bytes) c.room
    then (ok tt, record c { sent = c.sent ++ bytes; room = c.room - length bytes })
    else (err (c.refusal), record c { sent = c.sent ++ take c.room bytes; room = 0 })

-- `read_frame` on a connection.
unfoldable pub receive_frame : Connection → Result (List ℕ) × Connection
receive_frame c = let (r, s) = read_frame c.stream in (r, record c { stream = s })
