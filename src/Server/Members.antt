-- ===== src/Server/Members.antt =====
-- find_member_with_id and remove_member of a3/server_util.c, and moving a member between room
-- lists, which process_switch_room_request writes out in place.
use csc469_a.Base.{ℕ, ◌+◌, ◌==◌, if◌then◌else◌, update, false, of_option}
use csc469_a.Chain.{Ptr, null, unlink, append_tail}
use csc469_a.Search.{search}
use csc469_a.Server.{
  Step, return, ◌>>=◌, ◌>>◌, get, put, lift, check, decrement, member_links, set_member_links,
  room_links, set_room_links,
}

-- The loop over the member list. A list of `total_num_of_members` nodes takes one more round.
unfoldable pub find_member_with_id : ℕ → Step Ptr
find_member_with_id id = do
  s ← get
  lift (
      search (s.total_num_of_members + 1) s.member_live s.next_member (λ p. s.member_id p == id)
        null s.mem_list_head)

-- "remove the member from its current room": the member's room is not NULL.
unfoldable pub leave_room : Ptr → Step (Unit {0})
leave_room mt = do
  s ← get
  check (s.member_live mt)
  let rt = s.current_room mt
  check (s.room_live rt)
  links ← lift (of_option (unlink s.member_live mt (room_links rt s)))
  n ← lift (decrement (s.num_of_members rt))
  put (record (set_room_links rt links s) { num_of_members = update s.num_of_members rt n })

-- "put the member in the new room", from the reset of its links to the end of the update.
unfoldable pub enter_room : Ptr → Ptr → Step (Unit {0})
enter_room mt rt = do
  s ← get
  check (s.member_live mt)
  check (s.room_live rt)
  let s' = record s {
    next_room_member = update s.next_room_member mt null;
    prev_room_member = update s.prev_room_member mt null;
    current_room = update s.current_room mt rt;
  }
  links ← lift (of_option (append_tail s'.member_live mt (room_links rt s')))
  put (record (set_room_links rt links s') {
    num_of_members = update s.num_of_members rt (s.num_of_members rt + 1);
    empty_flag = update s.empty_flag rt 0;
  })

-- "remove the member from the member list".
unfoldable pub leave_session : Ptr → Step (Unit {0})
leave_session mt = do
  s ← get
  links ← lift (of_option (unlink s.member_live mt (member_links s)))
  n ← lift (decrement s.total_num_of_members)
  put (record (set_member_links links s) { total_num_of_members = n })

unfoldable pub remove_member : Ptr → Step (Unit {0})
remove_member mt = do
  s ← get
  check (s.member_live mt)
  if s.current_room mt == null then return tt else leave_room mt
  leave_session mt

-- `free(mt)`.
unfoldable pub free_member : Ptr → Step (Unit {0})
free_member mt = do
  s ← get
  check (s.member_live mt)
  put (record s { member_live = update s.member_live mt false })
