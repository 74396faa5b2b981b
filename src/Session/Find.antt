-- ===== src/Session/Find.antt =====
-- The look-ups, and the replies, in a state that has the invariant.
use csc469_a.Base.{
  ℕ, ltb, false, has, ◌≢◌, ◌+◌, ◌≤◌, ◌≡◌, refl, true, List, [], ◌∷◌, ◌++◌, none, some, arith, ◌==◌,
  same, length, ok,
}
use csc469_a.Protocol.{max_msg_len, control_msghdr_size, header_bytes}
use csc469_a.Chain.{Ptr, null}
use csc469_a.Search.{first, first-some, search-first, Walk-of_Seg}
use csc469_a.Server.{Server, reply, send_control_msg_reply}
use csc469_a.Server.Members.{find_member_with_id}
use csc469_a.Server.Rooms.{find_room}
use csc469_a.Server.Requests.{refuse, accept}
use csc469_a.Session.{Members, Rooms}

-- The room of a name, and the member of an id, on the lists.
abbrev pub room_named : Server → List ℕ → List Ptr → Ptr
room_named s name = first (λ p. same name (s.room_name p)) null

abbrev pub member_with_id : Server → ℕ → List Ptr → Ptr
member_with_id s id = first (λ p. s.member_id p == id) null

module _ (s : Server) where
  pub find_room_lem :
      (rs : List Ptr) (name : List ℕ) → Rooms s rs → find_room name s ≡ ok (room_named s name rs, s)
  unfolding find_room
  find_room_lem rs name v = rw (
      search-first s.room_live s.next_room null (s.total_num_of_rooms + 1)
        (λ p. same name (s.room_name p)) s.room_list_head rs v.walk (omega (arith, v.counted)))

  pub find_member_with_id_lem :
      (ms : List Ptr) (id : ℕ)
      → Members s ms
      → find_member_with_id id s ≡ ok (member_with_id s id ms, s)
  unfolding find_member_with_id
  find_member_with_id_lem ms id v = rw (
      search-first s.member_live s.next_member null (s.total_num_of_members + 1)
        (λ p. s.member_id p == id) s.mem_list_head ms
        (Walk-of_Seg s.member_live s.next_member s.prev_member null s.mem_list_head ms
          s.mem_list_tail v.chain)
        (omega (arith, v.counted)))

-- The state after a control message with a header and a body was written to `fd`.
abbrev pub replied : ℕ → ℕ → ℕ → List ℕ → Server → Server
replied fd type id body s = record s {
  sent = reply fd (header_bytes type id (control_msghdr_size + length body) ++ body) ∷ s.sent;
}

pub send_some :
    (fd type id : ℕ) (body : List ℕ) (s : Server)
    → control_msghdr_size + length body + 1 ≤ max_msg_len
    → send_control_msg_reply fd type id (some body) s ≡ ok (tt, replied fd type id body s)
unfolding send_control_msg_reply
send_some fd type id body s h = rw fits
  where
    fits : ltb max_msg_len (control_msghdr_size + length body + 1) ≡ false
    fits = ground arith

pub send_none :
    (fd type id : ℕ) (s : Server)
    → send_control_msg_reply fd type id none s ≡ ok (tt, replied fd type id [] s)
unfolding send_control_msg_reply header_bytes
send_none fd type id s = refl

pub refuse_lem :
    (fd : ℕ) (m : Ptr) (type : ℕ) (text : List ℕ) (s : Server)
    → s.member_live m ≡ true
    → control_msghdr_size + length text + 1 ≤ max_msg_len
    → refuse fd m type text s ≡ ok (tt, replied fd type (s.member_id m) text s)
unfolding refuse
refuse_lem fd m type text s live h = rw (live, send_some fd type (s.member_id m) text s h)

pub accept-none :
    (fd : ℕ) (m : Ptr) (type : ℕ) (s : Server)
    → s.member_live m ≡ true
    → accept fd m type none s ≡ ok (tt, replied fd type (s.member_id m) [] s)
unfolding accept
accept-none fd m type s live = rw (live, send_none fd type (s.member_id m) s)

pub accept-some :
    (fd : ℕ) (m : Ptr) (type : ℕ) (text : List ℕ) (s : Server)
    → s.member_live m ≡ true
    → control_msghdr_size + length text + 1 ≤ max_msg_len
    → accept fd m type (some text) s ≡ ok (tt, replied fd type (s.member_id m) text s)
unfolding accept
accept-some fd m type text s live h = rw (live, send_some fd type (s.member_id m) text s h)

pub has-room_named :
    (s : Server) (name : List ℕ) (rs : List Ptr)
    → room_named s name rs ≢ null
    → has (room_named s name rs) rs ≡ true
has-room_named s name rs ne = (first-some (λ p. same name (s.room_name p)) null rs ne).0

pub has-member_with_id :
    (s : Server) (id : ℕ) (ms : List Ptr)
    → member_with_id s id ms ≢ null
    → has (member_with_id s id ms) ms ≡ true
has-member_with_id s id ms ne = (first-some (λ p. s.member_id p == id) null ms ne).0
