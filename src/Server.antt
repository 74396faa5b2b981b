-- ===== src/Server.antt =====
-- The state of the chat server: the objects and global variables of a3/server.h, the steps on it,
-- and the replies.
-- An object is an address; a field is an array over addresses (0 is NULL); `member_live` and
-- `room_live` say which addresses hold an allocated object.
pub mod Members
pub mod Rooms
pub mod Requests
pub mod Registration
pub mod Sweep
pub mod Chat
pub mod Control
pub mod Buffers
pub mod Start
use csc469_a.Base.{
  ℕ, zero, suc, ◌+◌, ◌-◌, Bool, true, false, Option, none, some, List, [], ◌∷◌, ◌++◌, ◌==◌, ltb,
  leb, if◌then◌else◌, update, length, Run, ok, fault, exited, out_of_fuel, of_option,
}
use csc469_a.Protocol.{max_msg_len, control_msghdr_size, header_bytes}
use csc469_a.Chain.{Ptr, null, Links}

-- The part of `struct sockaddr_in` that the code fills in.
pub record UdpAddr : Type 0 where
  pub sin_addr : ℕ
  pub sin_port : ℕ

abbrev pub no_addr : UdpAddr
no_addr = record { sin_addr = 0; sin_port = 0 }

-- One write to a socket or datagram.
pub data Output : Type 0 where
  reply : (fd : ℕ) → List ℕ → Output
  datagram : UdpAddr → List ℕ → Output

pub record Server : Type 0 where
  -- struct member_type
  pub member_live : Ptr → Bool
  pub member_id : Ptr → ℕ
  pub member_name : Ptr → List ℕ
  pub quiet_flag : Ptr → ℕ
  pub member_udp_addr : Ptr → UdpAddr
  pub num_chat_msgs : Ptr → ℕ
  pub num_bytes_rcved : Ptr → ℕ
  pub next_member : Ptr → Ptr
  pub prev_member : Ptr → Ptr
  pub next_room_member : Ptr → Ptr
  pub prev_room_member : Ptr → Ptr
  pub current_room : Ptr → Ptr
  -- struct room_type
  pub room_live : Ptr → Bool
  pub room_name : Ptr → List ℕ
  pub next_room : Ptr → Ptr
  pub num_of_members : Ptr → ℕ
  pub empty_flag : Ptr → ℕ
  pub member_list_head : Ptr → Ptr
  pub member_list_tail : Ptr → Ptr
  -- global variables
  pub mem_list_head : Ptr
  pub mem_list_tail : Ptr
  pub room_list_head : Ptr
  pub room_list_tail : Ptr
  pub total_num_of_members : ℕ
  pub total_num_of_rooms : ℕ
  -- what has been sent, newest first
  pub sent : List Output

-- A piece of code that works on the server's memory.
abbrev pub Step : Type 0 → Type 0
Step A = Server → Run (A × Server)

abbrev pub return : {A : Type 0} → A → Step A
return a s = ok (a, s)

abbrev pub bind_run {ℓ κ} : {A : Type ℓ} {B : Type κ} → Run A → (A → Run B) → Run B
bind_run (ok a) f = f a
bind_run fault f = fault
bind_run exited f = exited
bind_run out_of_fuel f = out_of_fuel

infixl 5 ◌>>=◌ ◌>>◌
abbrev pub ◌>>=◌ : {A B : Type 0} → Step A → (A → Step B) → Step B
◌>>=◌ m f s = bind_run (m s) (λ r. f r.0 r.1)

abbrev pub ◌>>◌ : {B : Type 0} → Step (Unit {0}) → Step B → Step B
m >> k = m >>= λ _. k

abbrev pub get : Step Server
get s = ok (s, s)

abbrev pub put : Server → Step (Unit {0})
put s _ = ok (tt, s)

abbrev pub lift : {A : Type 0} → Run A → Step A
lift r s = bind_run r (λ a. ok (a, s))

-- Dereferencing.
abbrev pub check : Bool → Step (Unit {0})
check b s = if b then ok (tt, s) else fault

-- `n --` on a counter. A counter below zero has no place in the state: it counts as a fault.
abbrev pub decrement : ℕ → Run ℕ
decrement n = if n == 0 then fault else ok (n - 1)

-- The session's member list, and the member list of room `r`.
abbrev pub member_links : Server → Links
member_links s = record {
  next = s.next_member;
  prev = s.prev_member;
  head = s.mem_list_head;
  tail = s.mem_list_tail;
}

abbrev pub set_member_links : Links → Server → Server
set_member_links l s = record s {
  next_member = l.next;
  prev_member = l.prev;
  mem_list_head = l.head;
  mem_list_tail = l.tail;
}

abbrev pub room_links : Ptr → Server → Links
room_links r s = record {
  next = s.next_room_member;
  prev = s.prev_room_member;
  head = s.member_list_head r;
  tail = s.member_list_tail r;
}

abbrev pub set_room_links : Ptr → Links → Server → Server
set_room_links r l s = record s {
  next_room_member = l.next;
  prev_room_member = l.prev;
  member_list_head = update s.member_list_head r l.head;
  member_list_tail = update s.member_list_tail r l.tail;
}

-- The state that `init_server` sets up before it reads the room file.
unfoldable pub init_lists : Server → Server
init_lists s = record s {
  mem_list_head = null;
  mem_list_tail = null;
  total_num_of_members = 0;
  room_list_head = null;
  room_list_tail = null;
  total_num_of_rooms = 0;
}

-- The reply with its data behind the header. The copy into `msg_buf` takes the bytes and a zero.
-- The header's length field and the write both count `len` bytes. The dump behind the write is
-- that of process_control_msg in Server/Control.antt.
unfoldable pub send_control_msg_reply : ℕ → ℕ → ℕ → Option (List ℕ) → Step (Unit {0})
send_control_msg_reply fd type id none s =
    ok (tt, record s { sent = reply fd (header_bytes type id control_msghdr_size) ∷ s.sent })
send_control_msg_reply fd type id (some body) s =
    if ltb max_msg_len (control_msghdr_size + length body + 1)
    then fault
    else (let len = control_msghdr_size + length body in
        ok (tt, record s { sent = reply fd (header_bytes type id len ++ body) ∷ s.sent }))
