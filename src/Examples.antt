-- ===== src/Examples.antt =====
-- The results at concrete inputs, most of them in the state of Examples/State.antt.
mod Talk
mod State
mod Requests
mod Messages
mod Outages
mod Events
use csc469_a.Base.{
  ℕ, suc, ◌+◌, ◌≡◌, ◌≢◌, ◌<◌, refl, Bool, true, false, List, [], ◌∷◌, ◌++◌, Option, none, some,
  arith, ◌==◌, update, erase, length, last_or, replicate, codes, take, drop, ok, fault, Ends,
  Yields, same, has, inl, inr, eq_cases, ◌≤◌, if◌then◌else◌,
}
use csc469_a.Protocol.{has_zero, read_header, header_bytes, ControlMsghdr, c_str, u16_at, u16_bytes}
use csc469_a.Chain.{Ptr, null, Links, unlink, append_tail}
use csc469_a.Chain.Unlink.{Unlinked, unlink-erase}
use csc469_a.Chain.Append.{Appended, append_tail_lem}
use csc469_a.Search.{search, first, search-first}
use csc469_a.Protocol.RoundTrip.{read_header-header_bytes}
use csc469_a.Server.{Server, UdpAddr, ◌>>◌, room_links, member_links}
use csc469_a.Server.Members.{remove_member}
use csc469_a.Server.Rooms.{create_room, remove_room}
use csc469_a.Server.Requests.{
  process_create_room_request, process_switch_room_request, process_quit_request,
}
use csc469_a.Server.Registration.{process_register_request, create_id, drawn_id}
use csc469_a.Server.Sweep.{sweep_members, sweep_room}
use csc469_a.Server.Chat.{process_chat_msg}
use csc469_a.Server.Control.{Env}
use csc469_a.Session.{Inv}
use csc469_a.Session.Switch.{Switched, process_switch_room_request-Switched}
use csc469_a.Session.Draw.{create_id-first_free, drawn_id_bounds}
use csc469_a.Session.Register.{Registered, process_register_request-Registered}
use csc469_a.Session.MemberSteps.{MembersSwept}
use csc469_a.Session.Quiet.{sweep_members-MembersSwept}
use csc469_a.Session.Broadcast.{Relayed, process_chat_msg-Relayed}
use csc469_a.Session.Create.{Created, create_room-Created, create_room_overflow}
use csc469_a.Session.Remove.{Kept, rosters_without, remove_member-erase, process_quit_request-erase}
use csc469_a.Session.Crash.{sweep_room-create_room-fault}
use csc469_a.Session.Drop.{RoomRemoved, remove_room-RoomRemoved}
use csc469_a.Session.SweepRoom.{RoomSwept, sweep_room-RoomSwept}
use csc469_a.Session.CreateReply.{CreateReplied, process_create_room_request-CreateReplied}
use csc469_a.Session.Sender.{Checked, process_message-Checked}
use csc469_a.Examples.State.{entry, state, members, rooms, roster, state-Inv}

-- The name "cpp" and the zero behind it, as a client sends it.
abbrev cpp : List ℕ
cpp = 99 ∷ 112 ∷ 112 ∷ 0 ∷ []

switch_example :
    Ends
      (λ a. Switched 7 state members rooms roster 21 (c_str cpp) a.1)
      (process_switch_room_request 7 21 cpp state)
switch_example =
    process_switch_room_request-Switched 7 state members rooms roster 21 state-Inv refl cpp

-- A register request with port 5000 and the name "dan".
abbrev register_dan : List ℕ
register_dan = 0 ∷ 1 ∷ 0 ∷ 0 ∷ 0 ∷ 14 ∷ 0 ∷ 0 ∷ 19 ∷ 136 ∷ 100 ∷ 97 ∷ 110 ∷ 0 ∷ []

register_example :
    Ends
      (λ a.
        Registered 8 state members rooms roster 24
          (c_str (drop 10 register_dan))
          (u16_at register_dan 8)
          77
          32768
          a.1)
      (process_register_request 8 99 (50 ∷ []) 24 (some 77) register_dan state)
unfolding drawn_id
register_example =
    process_register_request-Registered 8 state members rooms roster 24 77 99 (50 ∷ []) register_dan
      32768 state-Inv (omega arith) refl refl

sweep_members_example :
    Ends
      (λ a. MembersSwept state [] members rooms a.1)
      (sweep_members (state.total_num_of_members + 1) state.mem_list_head state)
sweep_members_example = sweep_members-MembersSwept state members rooms roster state-Inv

-- A datagram from the member 700.
abbrev hello : List ℕ
hello = 2 ∷ 188 ∷ 0 ∷ 0 ∷ 0 ∷ 2 ∷ 104 ∷ 105 ∷ []

abbrev send_whole : UdpAddr → List ℕ → Option ℕ
send_whole addr msg = some (length msg)

chat_example :
    Ends
      (λ a. Relayed state members roster hello a.1)
      (process_chat_msg send_whole (some hello) state)
unfolding u16_at
chat_example =
    process_chat_msg-Relayed send_whole hello state members rooms roster state-Inv
      (λ addr msg. refl)
      (λ found. record { name = omega arith; messages = omega arith; bytes = omega arith })

create_example :
    Ends
      (λ a. Created state members rooms roster 13 (codes "lisp") a.0 a.1)
      (create_room 13 (codes "lisp") state)
create_example =
    create_room-Created state members rooms roster 13 (codes "lisp") state-Inv (omega arith) refl
      refl (omega arith)

remove_member_example :
    Ends
      (λ a. Inv a.1 (erase 22 members) rooms (rosters_without state 22 roster) × Kept state a.1)
      (remove_member 22 state)
remove_member_example = remove_member-erase state members rooms roster 22 state-Inv refl

crash_example : (sweep_room 12 >> create_room 13 (codes "lisp")) state ≡ fault
crash_example =
    sweep_room-create_room-fault state members rooms roster 12 13 (codes "lisp") state-Inv refl refl
      (omega arith) refl (omega arith) (omega arith) refl (omega arith) no_lisp
  where
    no_lisp : (r : Ptr) → has r rooms ≡ true → same (codes "lisp") (state.room_name r) ≡ false
    no_lisp r h = elim (eq_cases r 11) [
      | inl e ↦ rw e
      | inr n ↦ elim (eq_cases r 12) [ inl e ↦ rw e | inr n' ↦ absurd (ground arith) ]
    ]

sweep_room_example : Ends (λ a. RoomSwept state members rooms roster 12 a.1) (sweep_room 12 state)
sweep_room_example = sweep_room-RoomSwept state members rooms roster 12 state-Inv refl

remove_room_example : Ends (λ a. RoomRemoved state rooms 11 a.1) (remove_room 11 state)
remove_room_example = remove_room-RoomRemoved state 11 rooms state-Inv.rooms refl

abbrev env : Env
env = record { rand_max = 99; draws = 50 ∷ []; fresh = 24; peer = some 77; named = true }

abbrev keep_alive_700 : ControlMsghdr
keep_alive_700 = record { msg_type = 16; member_id = 700; msg_len = 8 }

quit_example :
    Ends
      (λ a.
        Inv a.1 (erase 21 members) rooms (rosters_without state 21 roster)
        × (a.1.member_live ≡ update state.member_live 21 false)
        × (a.1.sent ≡ state.sent))
      (process_quit_request 21 state)
quit_example = process_quit_request-erase state members rooms roster 21 state-Inv refl

create_id_example :
    create_id 99 (0 ∷ 50 ∷ []) state
    ≡ ok (tt, record state { member_id = update state.member_id state.mem_list_tail 1 })
unfolding drawn_id
create_id_example =
    create_id-first_free state (21 ∷ 22 ∷ []) 23 99 (0 ∷ 50 ∷ []) 1 state-Inv.members refl refl refl

overflow_example : create_room 13 (replicate 24 65) state ≡ fault
overflow_example = create_room_overflow state 13 (replicate 24 65) (omega arith) refl

unlink_example :
    Yields
      (Unlinked state.member_live members (erase 22 members) (member_links state))
      (unlink state.member_live 22 (member_links state))
unlink_example =
    unlink-erase state.member_live (member_links state) 22 members state-Inv.members.chain
      state-Inv.members.distinct refl

append_example :
    Yields
      (Appended state.member_live 23 (21 ∷ 22 ∷ []) (room_links 11 state))
      (append_tail state.member_live 23 (room_links 11 state))
append_example =
    append_tail_lem state.member_live (room_links 11 state) 23 (21 ∷ 22 ∷ [])
      (state-Inv.rosters.chain 11 refl) (state-Inv.rosters.distinct 11 refl) refl refl (omega arith)
      refl refl

search_example :
    search 3 state.room_live state.next_room (λ p. p == 12) null 11
    ≡ ok (first (λ p. p == 12) null rooms)
search_example =
    search-first state.room_live state.next_room null 3 (λ p. p == 12) 11 rooms state-Inv.rooms.walk
      (omega arith)

create_reply_example :
    Ends
      (λ a. CreateReplied 7 state members rooms roster 13 21 (c_str cpp) a.1)
      (process_create_room_request 7 13 21 cpp state)
unfolding c_str has_zero
create_reply_example =
    process_create_room_request-CreateReplied 7 state members rooms roster 13 21 cpp state-Inv refl
      (omega arith) refl refl refl (omega arith)
