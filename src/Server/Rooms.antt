-- ===== src/Server/Rooms.antt =====
-- create_room and remove_room of a3/server_util.c.
use csc469_a.Base.{
  ℕ, zero, suc, ◌+◌, true, false, List, ◌==◌, ltb, if◌then◌else◌, update, same, length, ok, fault,
  exited, out_of_fuel,
}
use csc469_a.Protocol.{max_room_name_len, max_num_of_rooms}
use csc469_a.Chain.{Ptr, null}
use csc469_a.Search.{search}
use csc469_a.Server.{Step, return, ◌>>=◌, ◌>>◌, get, put, lift, check}

-- The loop over the room list that compares a name.
unfoldable pub find_room : List ℕ → Step Ptr
find_room name = do
  s ← get
  lift (
      search (s.total_num_of_rooms + 1) s.room_live s.next_room (λ p. same name (s.room_name p))
        null s.room_list_head)

-- `malloc`, `bzero` and `strcpy` of the new room object. `fresh` is what malloc returns. The array
-- has 24 bytes, so a name of 24 bytes has no place for its zero.
unfoldable pub new_room : Ptr → List ℕ → Step (Unit {0})
new_room fresh name s =
    if fresh == null
    then exited
    else if ltb (length name) max_room_name_len
    then ok (
      tt,
      record s {
        room_live = update s.room_live fresh true;
        room_name = update s.room_name fresh name;
        next_room = update s.next_room fresh null;
        num_of_members = update s.num_of_members fresh 0;
        empty_flag = update s.empty_flag fresh 0;
        member_list_head = update s.member_list_head fresh null;
        member_list_tail = update s.member_list_tail fresh null;
      },
    )
    else fault

-- "add the new room to the tail".
unfoldable pub link_room : Ptr → Step (Unit {0})
link_room rt = do
  s ← get
  check (s.room_live s.room_list_tail)
  put (record s { next_room = update s.next_room s.room_list_tail rt; room_list_tail = rt })

unfoldable pub count_room : Step ℕ
count_room = do s ← get; put (record s { total_num_of_rooms = s.total_num_of_rooms + 1 }); return 0

-- create_room from the look-up of the name on, in a list that is not empty.
unfoldable pub add_room : Ptr → List ℕ → Step ℕ
add_room fresh name = do
  found ← find_room name
  if found == null then link_room fresh >> count_room else return 3

-- create_room from the test of the number of rooms on.
unfoldable pub insert_room : Ptr → List ℕ → Step ℕ
insert_room fresh name s =
    if s.total_num_of_rooms == max_num_of_rooms
    then ok (2, s)
    else if s.room_list_head == null
    then count_room (record s { room_list_head = fresh; room_list_tail = fresh })
    else add_room fresh name s

-- 0: done, 1: name too long, 2: too many rooms, 3: room exists.
unfoldable pub create_room : Ptr → List ℕ → Step ℕ
create_room fresh name =
    if ltb max_room_name_len (length name)
    then return 1
    else new_room fresh name >> insert_room fresh name

-- The loop of remove_room at `trt`.
unfoldable pub unlink_room_from : ℕ → Ptr → Ptr → Step (Unit {0})
unlink_room_from zero rt trt s = out_of_fuel
unlink_room_from (suc k) rt trt s =
    let rest = unlink_room_from k rt (s.next_room trt) s in
    if trt == null
    then ok (tt, s)
    else if s.room_live trt
    then (if trt == rt
        then ok (
          tt,
          if s.next_room trt == null
              then record s { room_list_head = s.next_room trt; room_list_tail = null }
              else record s { room_list_head = s.next_room trt },
        )
        else if s.next_room trt == rt
        then (let after = update s.next_room trt (s.next_room rt) in
            if s.room_live rt
            then ok (
              tt,
              if after trt == null
                  then record s { next_room = after; room_list_tail = null }
                  else record s { next_room = after },
            )
            else fault)
        else rest)
    else fault

unfoldable pub remove_room : Ptr → Step (Unit {0})
remove_room rt s = unlink_room_from (suc s.total_num_of_rooms) rt s.room_list_head s

-- `free(rt)`.
unfoldable pub free_room : Ptr → Step (Unit {0})
free_room rt = do
  s ← get
  check (s.room_live rt)
  put (record s { room_live = update s.room_live rt false })
