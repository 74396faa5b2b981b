-- ===== src/Protocol.antt =====
-- Constants and the control message header of a3/defs.h, the bytes of a 16-bit field in network
-- order, and C strings inside a zero-filled buffer.
pub mod RoundTrip
use csc469_a.Base.{
  ℕ, zero, suc, ◌+◌, ◌*◌, ◌/◌, ◌%◌, ◌≡◌, refl, Bool, true, false, List, [], ◌∷◌, ◌++◌, ◌==◌,
  if◌then◌else◌, take, drop, ◌||◌,
}

-- The message types.
abbrev pub register_request : ℕ
register_request = 1

abbrev pub register_succ : ℕ
register_succ = 2

abbrev pub register_fail : ℕ
register_fail = 3

abbrev pub room_list_request : ℕ
room_list_request = 4

abbrev pub room_list_succ : ℕ
room_list_succ = 5

abbrev pub room_list_fail : ℕ
room_list_fail = 6

abbrev pub member_list_request : ℕ
member_list_request = 7

abbrev pub member_list_succ : ℕ
member_list_succ = 8

abbrev pub member_list_fail : ℕ
member_list_fail = 9

abbrev pub switch_room_request : ℕ
switch_room_request = 10

abbrev pub switch_room_succ : ℕ
switch_room_succ = 11

abbrev pub switch_room_fail : ℕ
switch_room_fail = 12

abbrev pub create_room_request : ℕ
create_room_request = 13

abbrev pub create_room_succ : ℕ
create_room_succ = 14

abbrev pub create_room_fail : ℕ
create_room_fail = 15

abbrev pub member_keep_alive : ℕ
member_keep_alive = 16

abbrev pub quit_request : ℕ
quit_request = 17

-- The limits.
abbrev pub max_member_name_len : ℕ
max_member_name_len = 24

abbrev pub max_room_name_len : ℕ
max_room_name_len = 24

abbrev pub max_num_of_rooms : ℕ
max_num_of_rooms = 40

abbrev pub max_num_of_members_per_room : ℕ
max_num_of_members_per_room = 30

abbrev pub max_num_of_members : ℕ
max_num_of_members = max_num_of_rooms * max_num_of_members_per_room

abbrev pub max_msg_len : ℕ
max_msg_len = 2048

-- sizeof(struct control_msghdr) and sizeof(struct chat_msghdr): both are packed.
abbrev pub control_msghdr_size : ℕ
control_msghdr_size = 8

abbrev pub chat_msghdr_size : ℕ
chat_msghdr_size = 26

-- The two bytes of `htons(n)` as they stand in memory, for an argument that is cut to 16 bits.
unfoldable pub u16_bytes : ℕ → List ℕ
u16_bytes n = (n / 256 % 256) ∷ (n % 256) ∷ []

-- Byte `i` of a buffer that is zero behind what was read into it.
abbrev pub byte : List ℕ → ℕ → ℕ
byte [] i = 0
byte (x ∷ xs) zero = x
byte (x ∷ xs) (suc i) = byte xs i

-- `ntohs` of the two bytes at `i`.
unfoldable pub u16_at : List ℕ → ℕ → ℕ
u16_at buf i = byte buf i * 256 + byte buf (i + 1)

-- `struct control_msghdr` in host order; the field `reserved` is never read.
pub record ControlMsghdr : Type 0 where
  pub msg_type : ℕ
  pub member_id : ℕ
  pub msg_len : ℕ

unfoldable pub read_header : List ℕ → ControlMsghdr
unfolding u16_at
read_header buf = record {
  msg_type = u16_at buf 0;
  member_id = u16_at buf 2;
  msg_len = u16_at buf 4;
}

-- The header in network order, and a zero `reserved` field.
unfoldable pub header_bytes : ℕ → ℕ → ℕ → List ℕ
unfolding u16_bytes
header_bytes type id len = u16_bytes type ++ (u16_bytes id ++ (u16_bytes len ++ (0 ∷ 0 ∷ [])))

-- The C string that starts a piece of memory: the bytes before the first zero.
unfoldable pub c_str : List ℕ → List ℕ
c_str [] = []
c_str (x ∷ xs) = if x == 0 then [] else x ∷ c_str xs

-- Is there a zero among the bytes?
unfoldable pub has_zero : List ℕ → Bool
has_zero [] = false
has_zero (x ∷ xs) = (x == 0) || has_zero xs
