-- ===== src/Client/Tcp.antt =====
-- send_tcp_request of a3/tcp_connection.c: the request is written, and the answer is read into a buffer from malloc.
pub mod Sizes
pub mod Rooms
use csc469_a.Base.{
  ℕ, ◌-◌, Bool, Option, none, some, List, [], ◌∷◌, ◌++◌, ltb, if◌then◌else◌, take, length, Run, ok,
  out_of_fuel,
}

abbrev pub tcp_buffer_size : ℕ
tcp_buffer_size = 640

-- The loop of reads. Each read fails or gives bytes, of which only those that fit are taken, and
-- no bytes at the end of the answer. `buf` holds the bytes read so far.
unfoldable pub receive : List (Option (List ℕ)) → List ℕ → Run (Option (List ℕ))
receive [] buf = if ltb (length buf) tcp_buffer_size then out_of_fuel else ok (some buf)
receive (none ∷ reads) buf = if ltb (length buf) tcp_buffer_size then ok none else ok (some buf)
receive (some [] ∷ reads) buf = ok (some buf)
receive (some (x ∷ bytes) ∷ reads) buf =
    let rest = receive reads (buf ++ take (tcp_buffer_size - length buf) (x ∷ bytes)) in
    if ltb (length buf) tcp_buffer_size then rest else ok (some buf)

-- `written` is the success of the write.
unfoldable pub send_tcp_request : Bool → List (Option (List ℕ)) → Run (Option (List ℕ))
unfolding receive
send_tcp_request written reads = if written then receive reads [] else ok none

-- The buffer and the number of bytes received; `behind` is what malloc left behind these.
unfoldable pub in_buffer : List ℕ → List ℕ → List ℕ × ℕ
in_buffer received behind =
    (received ++ take (tcp_buffer_size - length received) behind, length received)
