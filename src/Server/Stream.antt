-- ===== src/Server/Stream.antt =====
-- crates/ertw_server/src/lib.rs: `read_frame` on a `TcpStream`. A stream is what its peer sends
-- before it stops, with the error that a read meets after that.
pub mod Laws
pub mod Suffix
use ertw.Interface.Wire.{wire_magic, word_at}
use ertw.Server.Frame.{max_frame_bytes, header_bytes, decode_header}
use ertw.Common.{
  none, some, Option, ◌++◌, [], ◌&&◌, drop, take, ◌==◌, length, leb, ◌-◌, Bool, if◌then◌else◌, ℕ,
  List,
}

pub data ErrorKind : Type 0 where
  would_block timed_out unexpected_eof broken_pipe connection_aborted connection_reset : ErrorKind
  invalid_data other : ErrorKind

pub data Result {ℓ} (A : Type ℓ) : Type ℓ where
  ok : A → Result A
  err : ErrorKind → Result A

pub record Stream : Type 0 where
  pub incoming : List ℕ
  pub ending : ErrorKind

-- `read_exact` of `n` bytes; what a failed read took is lost.
unfoldable pub read_exact : ℕ → Stream → Result (List ℕ) × Stream
read_exact n s =
    if leb n (length s.incoming)
    then (ok (take n s.incoming), record s { incoming = drop n s.incoming })
    else (err s.ending, record s { incoming = [] })

-- The checks of `read_frame` on the header: the magic, and a size from the header's own up to 16 MiB.
unfoldable pub is_frame_header : List ℕ → Bool
is_frame_header header =
    (word_at header 0 == wire_magic)
    && leb header_bytes (word_at header 3)
    && leb (word_at header 3) max_frame_bytes

-- The rest of a frame after its header.
unfoldable pub with_body : List ℕ → Result (List ℕ) × Stream → Result (List ℕ) × Stream
with_body header (ok body, s) = (ok (header ++ body), s)
with_body header (err e, s) = (err e, s)

unfoldable pub check_header : List ℕ → Option (List ℕ) → Stream → Result (List ℕ) × Stream
unfolding with_body is_frame_header
check_header bytes none s = (err invalid_data, s)
check_header bytes (some header) s =
    if is_frame_header header
    then with_body bytes (read_exact (word_at header 3 - header_bytes) s)
    else (err invalid_data, s)

unfoldable pub after_header : Result (List ℕ) × Stream → Result (List ℕ) × Stream
unfolding check_header
after_header (ok bytes, s) = check_header bytes (decode_header bytes) s
after_header (err e, s) = (err e, s)

unfoldable pub read_frame : Stream → Result (List ℕ) × Stream
unfolding after_header
read_frame s = after_header (read_exact header_bytes s)
