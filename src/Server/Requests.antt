-- ===== src/Server/Requests.antt =====
-- The process_x_request functions of a3/server_util.c for a registered member, less registration.
-- `msgdata` is the buffer behind the control header; `room_lists` and `member_lists` write what
-- sprintf writes, with the number of members printed by `print_int`.
use csc469_a.Base.{
  ℕ, zero, suc, ◌+◌, ◌/◌, ◌%◌, Option, none, some, List, [], ◌∷◌, ◌++◌, ◌==◌, if◌then◌else◌, codes,
  Run, ok, fault, exited, out_of_fuel,
}
use csc469_a.Protocol.{
  max_num_of_members_per_room, create_room_succ, create_room_fail, room_list_succ, room_list_fail,
  switch_room_succ, switch_room_fail, member_list_succ, member_list_fail, c_str, has_zero,
}
use csc469_a.Chain.{Ptr, null}
use csc469_a.Server.{Server, Step, return, ◌>>=◌, ◌>>◌, get, lift, check, send_control_msg_reply}
use csc469_a.Server.Members.{leave_room, enter_room, remove_member, free_member}
use csc469_a.Server.Rooms.{create_room, find_room}

-- `%d` of a count, in decimal: the digits before `acc`, with fuel for each digit.
unfoldable pub print_digits : ℕ → ℕ → List ℕ → List ℕ
print_digits zero n acc = acc
print_digits (suc k) n acc =
    let d = (48 + n % 10) ∷ acc in
    let rest = print_digits k (n / 10) ((48 + n % 10) ∷ acc) in if n / 10 == 0 then d else rest

-- An int has at most ten digits.
unfoldable pub print_int : ℕ → List ℕ
unfolding print_digits
print_int n = print_digits 10 n []

-- A failure reply to member `mt`.
unfoldable pub refuse : ℕ → Ptr → ℕ → List ℕ → Step (Unit {0})
refuse fd mt type text = do
  s ← get
  check (s.member_live mt)
  send_control_msg_reply fd type (s.member_id mt) (some text)

-- A success reply to member `mt`.
unfoldable pub accept : ℕ → Ptr → ℕ → Option (List ℕ) → Step (Unit {0})
accept fd mt type body = do
  s ← get
  check (s.member_live mt)
  send_control_msg_reply fd type (s.member_id mt) body

-- The reply for what create_room returned.
unfoldable pub report_create_room : ℕ → Ptr → ℕ → Step (Unit {0})
report_create_room fd mt ret =
    if ret == 1
    then refuse fd mt create_room_fail (codes "Room name too long!")
    else if ret == 2
    then refuse fd mt create_room_fail (codes "Number of rooms reached maximum!")
    else if ret == 3
    then refuse fd mt create_room_fail (codes "Room exists!")
    else accept fd mt create_room_succ none

-- `strlen` of a name that has no zero runs past the buffer.
unfoldable pub process_create_room_request : ℕ → Ptr → Ptr → List ℕ → Step (Unit {0})
process_create_room_request fd fresh mt msgdata = do
  check (has_zero msgdata)
  ret ← create_room fresh (c_str msgdata)
  report_create_room fd mt ret

-- Text in front of the text that the rest of a loop writes.
unfoldable pub in_front : List ℕ → Run (List ℕ) → Run (List ℕ)
in_front item (ok text) = ok (item ++ text)
in_front item fault = fault
in_front item exited = exited
in_front item out_of_fuel = out_of_fuel

-- "[name (members)]".
unfoldable pub room_item : Server → Ptr → List ℕ
room_item s rt =
    codes "[" ++ (s.room_name rt ++ (codes " (" ++ (print_int (s.num_of_members rt) ++ codes ")]")))

-- The loop over the rooms from `rt`: an item for each, and a space unless the room is the tail. The
-- buffer is as large as the reply's, so a text that overruns it does not fit the reply either.
unfoldable pub room_lists : ℕ → Server → Ptr → Run (List ℕ)
unfolding in_front
room_lists zero s rt = out_of_fuel
room_lists (suc k) s rt =
    let rest = room_lists k s (s.next_room rt) in
    let space = if rt == s.room_list_tail then [] else codes " " in
    if rt == null
    then ok []
    else if s.room_live rt
    then in_front (room_item s rt) (in_front space rest)
    else fault

unfoldable pub process_room_list_request : ℕ → Ptr → Step (Unit {0})
process_room_list_request fd mt = do
  s ← get
  if s.total_num_of_rooms == 0
      then refuse fd mt room_list_fail (codes "No rooms available!")
      else (do
        text ← lift (room_lists (s.total_num_of_rooms + 1) s s.room_list_head)
        accept fd mt room_list_succ (some text))

-- process_switch_room_request once the room is found.
unfoldable pub switch_to : ℕ → Ptr → Ptr → Step (Unit {0})
switch_to fd mt rt = do
  s ← get
  check (s.member_live mt)
  if s.num_of_members rt == max_num_of_members_per_room
      then refuse fd mt switch_room_fail (codes "Room is full!")
      else if s.current_room mt == rt
      then refuse fd mt switch_room_fail (codes "Already in this room!")
      else (do
        if s.current_room mt == null then return tt else leave_room mt
        enter_room mt rt
        accept fd mt switch_room_succ none)

unfoldable pub process_switch_room_request : ℕ → Ptr → List ℕ → Step (Unit {0})
process_switch_room_request fd mt msgdata = do
  s ← get
  if s.room_list_head == null
      then refuse fd mt switch_room_fail (codes "No room available yet!")
      else (do
        rt ← find_room (c_str msgdata)
        if rt == null
            then refuse fd mt switch_room_fail (codes "Room not found!")
            else switch_to fd mt rt)

-- The loop over a room's members from `mt`: "(name)", and a space if another one follows.
unfoldable pub member_lists : ℕ → Server → Ptr → Run (List ℕ)
unfolding in_front
member_lists zero s mt = out_of_fuel
member_lists (suc k) s mt =
    let rest = member_lists k s (s.next_room_member mt) in
    let space = if s.next_room_member mt == null then [] else codes " " in
    if mt == null
    then ok []
    else if s.member_live mt
    then in_front (codes "(" ++ (s.member_name mt ++ codes ")")) (in_front space rest)
    else fault

-- process_member_list_request once the room is found.
unfoldable pub list_members : ℕ → Ptr → Ptr → Step (Unit {0})
list_members fd mt rt = do
  s ← get
  if s.member_list_head rt == null
      then refuse fd mt member_list_fail (codes "No member in this room!")
      else (do
        text ← lift (member_lists (s.num_of_members rt + 1) s (s.member_list_head rt))
        accept fd mt member_list_succ (some text))

unfoldable pub process_member_list_request : ℕ → Ptr → List ℕ → Step (Unit {0})
process_member_list_request fd mt msgdata = do
  s ← get
  if s.room_list_head == null
      then refuse fd mt member_list_fail (codes "No room available yet!")
      else (do
        rt ← find_room (c_str msgdata)
        if rt == null
            then refuse fd mt member_list_fail (codes "Room not found!")
            else list_members fd mt rt)

unfoldable pub process_quit_request : Ptr → Step (Unit {0})
process_quit_request mt = remove_member mt >> free_member mt
