-- ===== src/Session.antt =====
-- What the pointers of the chat server stand for: the members of the session, the rooms, and the
-- members of each room, as lists.
pub mod Rules
pub mod Leave
pub mod Remove
pub mod Drop
pub mod SweepRoom
pub mod SweepRooms
pub mod RoomSteps
pub mod MemberSteps
pub mod Safe
pub mod RoomFile
pub mod RoomWords
pub mod RoomNames
pub mod Crash
pub mod Quiet
pub mod Enrol
pub mod Draw
pub mod Register
pub mod Sender
pub mod Label
pub mod Broadcast
pub mod Added
pub mod Create
pub mod CreateReply
pub mod RoomList
pub mod Decimal
pub mod Joined
pub mod ListTexts
pub mod ListReplies
pub mod Switch
pub mod Find
pub mod Enter
use csc469_a.Base.{ℕ, ◌≤◌, ◌≡◌, ◌≢◌, Bool, true, false, List, has, length, Distinct, last_or}
use csc469_a.Protocol.{max_num_of_members, max_num_of_rooms, max_num_of_members_per_room}
use csc469_a.Chain.{Ptr, null, Links}
use csc469_a.Chain.Segment.{IsChain}
use csc469_a.Search.{Walk}
use csc469_a.Server.{Server, member_links, room_links}

-- `ms` are the members of the session, in order of registration.
pub record IsSession (live : Ptr → Bool) (links : Links) (total : ℕ) (ms : List Ptr) : Type 0 where
  pub chain : IsChain live links ms
  pub distinct : Distinct ms
  pub counted : total ≡ length ms
  pub bounded : length ms ≤ max_num_of_members

abbrev pub Members : Server → List Ptr → Type 0
Members s = IsSession s.member_live (member_links s) s.total_num_of_members

-- `rs` are the rooms, in order of creation. Nothing is said of `room_list_tail`.
pub record IsRoomList (live : Ptr → Bool) (next : Ptr → Ptr) (head : Ptr) (total : ℕ)
    (rs : List Ptr) : Type 0 where
  pub walk : Walk live next null head rs
  pub distinct : Distinct rs
  pub counted : total ≡ length rs
  pub bounded : length rs ≤ max_num_of_rooms
  pub null_dead : live null ≡ false

abbrev pub Rooms : Server → List Ptr → Type 0
Rooms s = IsRoomList s.room_live s.next_room s.room_list_head s.total_num_of_rooms

-- `room_list_tail` points to the last room.
abbrev pub TailIsLast : Server → List Ptr → Type 0
TailIsLast s rs = s.room_list_tail ≡ last_or null rs

-- `roster r` are the members of room `r`, in order of entry: those of `ms` whose current room is `r`.
pub record IsRosters (live : Ptr → Bool) (links : Ptr → Links) (num : Ptr → ℕ) (current : Ptr → Ptr)
    (ms rs : List Ptr) (roster : Ptr → List Ptr) : Type 0 where
  pub chain : (r : Ptr) → has r rs ≡ true → IsChain live (links r) (roster r)
  pub distinct : (r : Ptr) → has r rs ≡ true → Distinct (roster r)
  pub counted : (r : Ptr) → has r rs ≡ true → num r ≡ length (roster r)
  pub bounded : (r : Ptr) → has r rs ≡ true → length (roster r) ≤ max_num_of_members_per_room
  pub home :
      (r m : Ptr) → has r rs ≡ true → has m (roster r) ≡ true → (has m ms ≡ true) × (current m ≡ r)
  pub housed :
      (m : Ptr)
      → has m ms ≡ true
      → current m ≢ null
      → (has (current m) rs ≡ true) × (has m (roster (current m)) ≡ true)

abbrev pub Rosters : Server → List Ptr → List Ptr → (Ptr → List Ptr) → Type 0
Rosters s = IsRosters s.member_live (λ r. room_links r s) s.num_of_members s.current_room

-- The invariant of the server.
pub record Inv (s : Server) (ms rs : List Ptr) (roster : Ptr → List Ptr) : Type 0 where
  pub members : Members s ms
  pub rooms : Rooms s rs
  pub rosters : Rosters s ms rs roster
