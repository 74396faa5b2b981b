-- ===== src/Server/Registration.antt =====
-- process_register_request of a3/server_util.c. `draws` are the values that `rand` returns,
-- `rand_max` is RAND_MAX, `fresh` is what malloc returns, and `peer` is the address that
-- getpeername gives, if it succeeds.
use csc469_a.Base.{
  ℕ, ◌+◌, ◌*◌, ◌/◌, ◌%◌, ◌^◌, true, Option, none, some, List, [], ◌∷◌, ◌==◌, if◌then◌else◌, codes,
  same, update, take, drop, ok, exited, out_of_fuel, of_option,
}
use csc469_a.Protocol.{
  max_num_of_members, max_member_name_len, register_succ, register_fail, c_str, u16_at,
}
use csc469_a.Chain.{Ptr, null, append_tail}
use csc469_a.Search.{search}
use csc469_a.Server.{
  Step, return, bind_run, ◌>>=◌, ◌>>◌, get, put, lift, member_links, set_member_links,
  send_control_msg_reply,
}

-- `1 + (u_int16_t) (65535.0 * rand()/(RAND_MAX+1.0))`, with the quotient cut to an integer.
unfoldable pub drawn_id : ℕ → ℕ → ℕ
drawn_id rand_max r = 1 + 65535 * r / (rand_max + 1) % 2 ^ 16

-- `malloc`, `bzero` and the fields that are set before getpeername. strncpy copies at most 24 bytes;
-- the array that follows in the object stays zero, so the name that is read is what was copied.
unfoldable pub new_member : Ptr → List ℕ → ℕ → Step (Unit {0})
new_member fresh name port s =
    if fresh == null
    then exited
    else ok (
      tt,
      record s {
        member_live = update s.member_live fresh true;
        member_id = update s.member_id fresh 0;
        member_name = update s.member_name fresh (take max_member_name_len name);
        quiet_flag = update s.quiet_flag fresh 0;
        member_udp_addr = update s.member_udp_addr fresh (record { sin_addr = 0; sin_port = port });
        num_chat_msgs = update s.num_chat_msgs fresh 0;
        num_bytes_rcved = update s.num_bytes_rcved fresh 0;
        next_member = update s.next_member fresh null;
        prev_member = update s.prev_member fresh null;
        next_room_member = update s.next_room_member fresh null;
        prev_room_member = update s.prev_room_member fresh null;
        current_room = update s.current_room fresh null;
      },
    )

-- The loop over the member list that compares a name.
unfoldable pub find_member_name : List ℕ → Step Ptr
find_member_name name = do
  s ← get
  lift (
      search (s.total_num_of_members + 1) s.member_live s.next_member
        (λ p. same (s.member_name p) name) null s.mem_list_head)

-- Adding the new member to the list and counting it.
unfoldable pub link_member : Ptr → Step (Unit {0})
link_member mt = do
  s ← get
  links ← lift (of_option (append_tail s.member_live mt (member_links s)))
  put (record (set_member_links links s) { total_num_of_members = s.total_num_of_members + 1 })

-- "create an id": the loop over the draws. A draw is taken if no member before the tail has it.
unfoldable pub create_id : ℕ → List ℕ → Step (Unit {0})
create_id rand_max [] s = out_of_fuel
create_id rand_max (r ∷ draws) s =
    let again = create_id rand_max draws s in
    bind_run
      (search (s.total_num_of_members + 1) s.member_live s.next_member
        (λ p. s.member_id p == drawn_id rand_max r) s.mem_list_tail s.mem_list_head)
      (λ p.
        if p == s.mem_list_tail
        then ok
            (tt, record s { member_id = update s.member_id s.mem_list_tail (drawn_id rand_max r) })
        else again)

-- From "create an id" to the accept message.
unfoldable pub confirm : ℕ → ℕ → List ℕ → Step (Unit {0})
confirm fd rand_max draws = do
  create_id rand_max draws
  s ← get
  send_control_msg_reply fd register_succ (s.member_id s.mem_list_tail) none

-- From the insertion into the member list on.
unfoldable pub insert_member : ℕ → ℕ → List ℕ → Ptr → Step (Unit {0})
insert_member fd rand_max draws mt = do
  s ← get
  if s.mem_list_head == null then link_member mt >> confirm fd rand_max draws else (do
    found ← find_member_name (s.member_name mt)
    if found == null
        then link_member mt >> confirm fd rand_max draws
        else send_control_msg_reply fd register_fail 0 (some (codes "Name has already been used!")))

-- `buf` is the whole message. When getpeername fails the function returns without a reply.
unfoldable pub process_register_request : ℕ → ℕ → List ℕ → Ptr → Option ℕ → List ℕ → Step (Unit {0})
process_register_request fd rand_max draws fresh peer buf s =
    if s.total_num_of_members == max_num_of_members
    then send_control_msg_reply fd register_fail 0
        (some (codes "Number of members reached maximum!")) s
    else ((do
      new_member fresh (c_str (drop 10 buf)) (u16_at buf 8)
      elim peer [
        | none ↦ return tt
        | some ip ↦ do
          s ← get
          put (record s {
            member_udp_addr =
                update s.member_udp_addr fresh (record { sin_addr = ip; sin_port = u16_at buf 8 });
          })
          insert_member fd rand_max draws fresh
      ])
        s)
