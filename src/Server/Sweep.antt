-- ===== src/Server/Sweep.antt =====
-- The sweep that the main loop of a3/server_main.c makes when select times out.
use csc469_a.Base.{ℕ, zero, suc, ◌+◌, ◌==◌, if◌then◌else◌, update, ok, fault, out_of_fuel}
use csc469_a.Chain.{Ptr, null}
use csc469_a.Server.{Server, Step, return, bind_run, ◌>>=◌, ◌>>◌, get, put, lift, decrement}
use csc469_a.Server.Members.{remove_member, free_member}
use csc469_a.Server.Rooms.{remove_room, free_room}

-- The body of the member loop: a member that was quiet in the last interval is removed.
unfoldable pub sweep_member : Ptr → Step (Unit {0})
sweep_member mt = do
  s ← get
  if s.quiet_flag mt == 0
      then put (record s { quiet_flag = update s.quiet_flag mt (s.quiet_flag mt + 1) })
      else remove_member mt >> free_member mt

-- The member loop from `mt`; the next member is read before the body.
unfoldable pub sweep_members : ℕ → Ptr → Step (Unit {0})
sweep_members zero mt s = out_of_fuel
sweep_members (suc k) mt s =
    let rest = λ (r : Unit {0} × Server). sweep_members k (s.next_member mt) r.1 in
    if mt == null
    then ok (tt, s)
    else if s.member_live mt
    then bind_run (sweep_member mt s) rest
    else fault

-- `total_num_of_rooms--; free(rt);`.
unfoldable pub drop_tail : Ptr → Step (Unit {0})
drop_tail rt = do
  s ← get
  n ← lift (decrement s.total_num_of_rooms)
  put (record s { total_num_of_rooms = n })
  free_room rt

-- `remove_room(rt);` and then the above.
unfoldable pub drop_room : Ptr → Step (Unit {0})
drop_room rt = remove_room rt >> drop_tail rt

-- The body of the room loop: a room that was empty in the last interval too is removed.
unfoldable pub sweep_room : Ptr → Step (Unit {0})
sweep_room rt = do
  s ← get
  if s.num_of_members rt == 0
      then if s.empty_flag rt == 0
        then put (record s { empty_flag = update s.empty_flag rt (s.empty_flag rt + 1) })
        else drop_room rt
      else return tt

unfoldable pub sweep_rooms : ℕ → Ptr → Step (Unit {0})
sweep_rooms zero rt s = out_of_fuel
sweep_rooms (suc k) rt s =
    let rest = λ (r : Unit {0} × Server). sweep_rooms k (s.next_room rt) r.1 in
    if rt == null
    then ok (tt, s)
    else if s.room_live rt
    then bind_run (sweep_room rt s) rest
    else fault

unfoldable pub sweep : Step (Unit {0})
sweep = do
  s ← get
  sweep_members (s.total_num_of_members + 1) s.mem_list_head
  s' ← get
  sweep_rooms (s'.total_num_of_rooms + 1) s'.room_list_head
