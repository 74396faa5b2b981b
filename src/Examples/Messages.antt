-- ===== src/Examples/Messages.antt =====
-- The results on the texts of the server's lists and on the receiver, at concrete inputs.
use csc469_a.Base.{
  ℕ, ◌^◌, ◌≡◌, ◌<◌, refl, true, false, none, some, List, [], ◌∷◌, ◌++◌, map, arith, codes, ok, inl,
  inr, eq_cases,
}
use csc469_a.Protocol.{c_str, has_zero}
use csc469_a.Server.Requests.{process_member_list_request}
use csc469_a.Session.ListReplies.{MembersListed, process_member_list_request-MembersListed}
use csc469_a.Session.ListTexts.{NamesFit}
use csc469_a.Receiver.{Context, Sockets, Screen, no_message, failed, received, receive_msgs}
use csc469_a.Receiver.Manager.{IpcCalls, init_ipc_with_receiver, shutdown_receiver}
use csc469_a.Receiver.Startup.{Started, init_receiver-Started}
use csc469_a.Receiver.Delivery.{Delivered, receiver_printf-Delivered}
use csc469_a.Receiver.Relay.{Heard, chat_datagram-Heard}
use csc469_a.Receiver.Loop.{Arrival, chat, status, receive_msgs-stops, round_of, all_lines}
use csc469_a.Examples.State.{state, members, rooms, roster, state-Inv}

pub rooms_fit : NamesFit state.room_name rooms
rooms_fit r h = elim (eq_cases r 11) [
  | inl e ↦ rw e (omega arith)
  | inr n ↦ elim (eq_cases r 12) [ inl e ↦ rw e (omega arith) | inr n' ↦ absurd (ground arith) ]
]

pub members_fit : NamesFit state.member_name members
members_fit m h = elim (eq_cases m 21) [
  | inl e ↦ rw e (omega arith)
  | inr n ↦ elim (eq_cases m 22) [
    | inl e ↦ rw e (omega arith)
    | inr n' ↦ elim (eq_cases m 23) [ inl e ↦ rw e (omega arith) | inr n'' ↦ absurd (ground arith) ]
  ]
]

member_list_example :
    MembersListed 7 state rooms roster 23
      (c_str (99 ∷ 0 ∷ []))
      (process_member_list_request 7 23 (99 ∷ 0 ∷ []) state)
member_list_example =
    process_member_list_request-MembersListed 7 state members rooms roster 23 state-Inv refl
      (99 ∷ 0 ∷ []) members_fit

abbrev bound_socket : Sockets
bound_socket = record { socket = some 5; bind = true; getsockname = some 40000 }

abbrev unset : Context
unset = record { udp_fd = 0; udp_port = 9 }

abbrev old_queue : IpcCalls
old_queue = record {
  mkstemp = true;
  create = none;
  exists = true;
  existing = some 3;
  removed = true;
  create_again = some 4;
}

handshake_example :
    Started bound_socket unset (no_message ∷ failed ∷ no_message ∷ []) 17 old_queue (some 99) 4
unfolding init_ipc_with_receiver
handshake_example =
    init_receiver-Started bound_socket unset (no_message ∷ failed ∷ no_message ∷ []) 17 old_queue
      (some 99) 4 tt port_fits refl
  where
    port_fits : (p : ℕ) → bound_socket.getsockname ≡ some p → p < 2 ^ 16
    port_fits p e = let at : 40000 ≡ p = cc in omega (arith, at)

abbrev blank : Screen
blank = record { printed = []; closed = []; quits = false }

delivered_example : Delivered unset true (codes "Sending room list request") 0 blank
unfolding has_zero
delivered_example =
    receiver_printf-Delivered unset true (codes "Sending room list request") 0 blank refl

heard_example : Heard (codes "ann") 700 (codes "hi") blank
unfolding has_zero
heard_example = chat_datagram-Heard (codes "ann") 700 (codes "hi") blank refl (omega arith) refl

abbrev talk : List Arrival
talk = chat (codes "ann") 700 (codes "hi") ∷ status (codes "ok") ∷ []

loop_example :
    receive_msgs unset
      (map round_of talk
        ++ (record {
          from_server = none;
          stale = true;
          from_client = received (shutdown_receiver 0).text;
        }
            ∷ []))
      blank
    ≡ ok (record {
      printed = all_lines talk ++ (codes "Exitting the chat. Have a good day.\n" ∷ []);
      closed = 9 ∷ [];
      quits = true;
    })
unfolding has_zero
loop_example =
    receive_msgs-stops unset 0 talk [] [] []
      ((refl, omega arith, refl, omega arith), ((refl, omega arith), tt))
