-- ===== src/Examples/Requests.antt =====
-- The results on the client and on the table of connections, at concrete inputs.
use csc469_a.Base.{
  ◌+◌, ◌≡◌, refl, none, some, [], ◌∷◌, ◌++◌, arith, ◌==◌, if◌then◌else◌, codes, take, drop, length,
  replicate, ok, fault, Ends,
}
use csc469_a.Protocol
use csc469_a.Protocol.{
  read_header, header_bytes, u16_at, u16_bytes, c_str, has_zero, max_msg_len, max_member_name_len,
  max_room_name_len, control_msghdr_size,
}
use csc469_a.Server.Control.{fill}
use csc469_a.Server.Requests.{process_create_room_request}
use csc469_a.Client.{
  prepare_register_request, prepare_room_request, handle_register_response, rejected,
}
use csc469_a.Client.Wire.{register_request-read, room_request-read, create_request-fault}
use csc469_a.Client.Answer.{shown, handle_register_response-answers}
use csc469_a.Client.Send.{
  Ask, send_switch_room_request, send_create_room_request, send_room_requests-succ,
}
use csc469_a.Connections.{Table, place, scan_table}
use csc469_a.Connections.Place.{Covered, Placed, place-Placed}
use csc469_a.Connections.Reading.{scan_table-Covered}
use csc469_a.Examples.State.{state}

create_request_example :
    process_create_room_request 7 13 21
      (drop control_msghdr_size (
        fill max_msg_len
          (prepare_room_request Protocol.create_room_request 700 (replicate 24 65) (0 ∷ 0 ∷ []))))
      state
    ≡ fault
unfolding has_zero
create_request_example =
    create_request-fault 7 13 21 700 (replicate 24 65) 0 0 state (omega arith) refl refl

register_request_example :
    (read_header (fill max_msg_len (prepare_register_request 5000 (codes "dan") (0 ∷ 0 ∷ [])))
      ≡ record {
        msg_type = Protocol.register_request;
        member_id = 0;
        msg_len = 10 + length (take max_member_name_len (codes "dan"));
      })
    × (u16_at (fill max_msg_len (prepare_register_request 5000 (codes "dan") (0 ∷ 0 ∷ []))) 8
        ≡ 5000)
    × (c_str (drop 10 (fill max_msg_len (prepare_register_request 5000 (codes "dan") (0 ∷ 0 ∷ []))))
        ≡ take max_member_name_len (codes "dan"))
unfolding has_zero
register_request_example = register_request-read 5000 (codes "dan") 0 0 (omega arith) refl

room_request_example :
    (read_header (fill max_msg_len (prepare_room_request 10 700 (codes "cpp") (0 ∷ 0 ∷ [])))
      ≡ record {
        msg_type = 10;
        member_id = 700;
        msg_len = control_msghdr_size + length (take max_room_name_len (codes "cpp"));
      })
    × (c_str (
          drop control_msghdr_size
            (fill max_msg_len (prepare_room_request 10 700 (codes "cpp") (0 ∷ 0 ∷ []))))
        ≡ take max_room_name_len (codes "cpp"))
unfolding has_zero
room_request_example = room_request-read 10 700 (codes "cpp") 0 0 (omega arith) (omega arith) refl

answer_example :
    (handle_register_response []
        (header_bytes Protocol.register_succ 700 control_msghdr_size ++ (0 ∷ []))
        control_msghdr_size
        0
      ≡ ok (none, 700))
    × (handle_register_response []
          (header_bytes Protocol.register_fail 0 (control_msghdr_size + length (codes "no"))
            ++ (codes "no" ++ (0 ∷ [])))
          (control_msghdr_size + length (codes "no"))
          0
        ≡ rejected (shown (codes "no") 0 []) 0)
unfolding has_zero
answer_example =
    handle_register_response-answers [] 700 (codes "no") 0 [] 0 (omega arith) refl (omega arith)

abbrev accepting : Ask
accepting request =
    (header_bytes (u16_at request 0 + 1) 700 control_msghdr_size, control_msghdr_size)

send_example :
    (send_switch_room_request accepting 700 [] (codes "cpp") (0 ∷ 0 ∷ [])
      ≡ ok (codes "Successfully switched to room " ++ codes "cpp", codes "cpp"))
    × (send_create_room_request accepting 700 (codes "cpp") (0 ∷ 0 ∷ [])
        ≡ ok (codes "Successfully created room "))
send_example =
    send_room_requests-succ accepting 700 700 [] (codes "cpp") (0 ∷ 0 ∷ []) (λ request. refl)
      (omega arith)

-- A table with the connection 9 in its first entry.
abbrev connections : Table
connections = record {
  fd_table = λ i. if i == 0 then some 9 else none;
  end_idx = 1;
  watched = λ fd. fd == 9;
  closed = [];
  processed = [];
}

connections-Covered : Covered connections
connections-Covered = record { within = omega arith; below = λ i h taken. ground arith }

place_example : Placed 10 connections (place 10 connections)
place_example = place-Placed 10 connections connections-Covered

scan_example : Ends Covered (scan_table (λ fd. fd == 9) 1 connections)
scan_example = scan_table-Covered (λ fd. fd == 9) 1 connections connections-Covered
