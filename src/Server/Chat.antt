-- ===== src/Server/Chat.antt =====
-- process_chat_msg of a3/server_util.c. `received` is what recvfrom gives, and `sendto` says for an
-- address and a message how many bytes were sent, or that the call failed.
use csc469_a.Base.{
  ℕ, zero, suc, ◌+◌, ◌^◌, ltb, Option, none, some, List, ◌∷◌, ◌++◌, ◌==◌, if◌then◌else◌, update,
  take, drop, length, ok, fault, out_of_fuel,
}
use csc469_a.Protocol.{u16_at, max_member_name_len}
use csc469_a.Chain.{Ptr, null}
use csc469_a.Server.{UdpAddr, datagram, Step, return, ◌>>=◌, ◌>>◌, get, put, check}
use csc469_a.Server.Members.{find_member_with_id}

-- The buffer once `strcpy` has put the name over the sender's id. A name of 24 bytes puts its zero
-- into the first byte of `msg_len`.
unfoldable pub stamp : List ℕ → List ℕ → List ℕ
stamp name buf = take (length buf) (name ++ (0 ∷ drop (length name + 1) buf))

-- After sendto: `stop` if it failed, and otherwise `go` with what it returned.
unfoldable pub if_sent : {A : Type 0} → Option ℕ → A → (ℕ → A) → A
if_sent none stop go = stop
if_sent (some n) stop go = go n

-- The loop over the room's members from `mt`; `n` is the number of bytes to send, which each call of
-- sendto sets anew.
unfoldable pub broadcast : (UdpAddr → List ℕ → Option ℕ) → ℕ → List ℕ → ℕ → Ptr → Step (Unit {0})
unfolding if_sent
broadcast sendto zero msg n mt s = out_of_fuel
broadcast sendto (suc k) msg n mt s =
    let addr = s.member_udp_addr mt in
    let s' = record s { sent = datagram addr (take n msg) ∷ s.sent } in
    let rest = λ (n' : ℕ). broadcast sendto k msg n' (s.next_room_member mt) s' in
    if mt == null
    then ok (tt, s)
    else if s.member_live mt
    then if_sent (sendto addr (take n msg)) (ok (tt, s)) rest
    else fault

-- From the update of the sender on. The name and its zero are copied into an array of 24 bytes, and the two
-- counters are ints.
unfoldable pub relay : (UdpAddr → List ℕ → Option ℕ) → Ptr → List ℕ → Step (Unit {0})
relay sendto mt buf = do
  s ← get
  check (s.member_live mt)
  check (ltb (length (s.member_name mt)) max_member_name_len)
  check (ltb (s.num_chat_msgs mt + 1) (2 ^ 31))
  check (ltb (s.num_bytes_rcved mt + length buf) (2 ^ 31))
  let s' = record s {
    quiet_flag = update s.quiet_flag mt 0;
    num_chat_msgs = update s.num_chat_msgs mt (s.num_chat_msgs mt + 1);
    num_bytes_rcved = update s.num_bytes_rcved mt (s.num_bytes_rcved mt + length buf);
  }
  put s'
  let rt = s.current_room mt
  if rt == null then return tt else (do
    check (s.room_live rt)
    broadcast sendto (s.num_of_members rt + 1) (stamp (s.member_name mt) buf) (length buf)
        (s.member_list_head rt))

unfoldable pub process_chat_msg : (UdpAddr → List ℕ → Option ℕ) → Option (List ℕ) → Step (Unit {0})
process_chat_msg sendto none = return tt
process_chat_msg sendto (some buf) = do
  mt ← find_member_with_id (u16_at buf 0)
  if mt == null then return tt else relay sendto mt buf
