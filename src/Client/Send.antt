-- ===== src/Client/Send.antt =====
-- The send functions of a3/client_to_server_sender.c. `ask` gives, for a request, the buffer with the
-- answer that send_control_msg returns and the number of bytes received.
use csc469_a.Base.{
  ℕ, ◌+◌, ◌≤◌, ◌≡◌, ap, Option, List, [], ◌++◌, arith, ◌==◌, if◌then◌else◌, codes, take, length,
  take_all, length-append, Run, ok, fault, exited, out_of_fuel,
}
use csc469_a.Protocol
use csc469_a.Protocol.{header_bytes, u16_bytes, u16_at, max_room_name_len, control_msghdr_size}
use csc469_a.Client.{
  prepare_request_with_no_data, prepare_register_request, prepare_request_with_data,
  encode_control_msghdr, prepare_room_request, process_response, handle_register_response,
  message_size, text_size, carries_text,
}

abbrev pub Ask : Type 0
Ask = List ℕ → List ℕ × ℕ

-- `stale` is what malloc left in the block for the error text.
unfoldable pub send_register_request :
    List ℕ → Ask → ℕ → List ℕ → ℕ → List ℕ → Run (Option (List ℕ) × ℕ)
send_register_request stale ask udp_port member_name member_id reserved =
    let (response, response_len) = ask (prepare_register_request udp_port member_name reserved) in
    handle_register_response stale response response_len member_id

unfoldable pub send_room_list_request : Ask → ℕ → List ℕ → Run (List ℕ)
send_room_list_request ask member_id reserved =
    let (response, response_len) =
      ask (prepare_request_with_no_data Protocol.room_list_request member_id reserved) in
    process_response response response_len []

unfoldable pub send_member_list_request : Ask → ℕ → List ℕ → List ℕ → Run (List ℕ)
send_member_list_request ask member_id room_name reserved =
    let (response, response_len) =
      ask (prepare_room_request Protocol.member_list_request member_id room_name reserved) in
    process_response response response_len room_name

-- The text for the user, with the name of the client's room after the answer.
unfoldable pub with_room : Run (List ℕ) → List ℕ → Run (List ℕ × List ℕ)
with_room (ok text) curr_room = ok (text, curr_room)
with_room fault curr_room = fault
with_room exited curr_room = exited
with_room out_of_fuel curr_room = out_of_fuel

-- strncpy keeps at most 24 bytes of the name.
unfoldable pub send_switch_room_request : Ask → ℕ → List ℕ → List ℕ → List ℕ → Run (List ℕ × List ℕ)
send_switch_room_request ask member_id curr_room room_name reserved =
    let (response, response_len) =
      ask (prepare_room_request Protocol.switch_room_request member_id room_name reserved) in
    with_room (process_response response response_len room_name) (
      if u16_at response 0 == Protocol.switch_room_succ
      then take max_room_name_len room_name
      else curr_room)

-- The text of a created room is made with an empty name.
unfoldable pub send_create_room_request : Ask → ℕ → List ℕ → List ℕ → Run (List ℕ)
send_create_room_request ask member_id room_name reserved =
    let (response, response_len) =
      ask (prepare_room_request Protocol.create_room_request member_id room_name reserved) in
    process_response response response_len []

-- The answers to a quit request and to a keep-alive are dropped.
unfoldable pub quit_request_bytes : ℕ → List ℕ → List ℕ
quit_request_bytes member_id reserved =
    prepare_request_with_no_data Protocol.quit_request member_id reserved

unfoldable pub heart_beat_bytes : ℕ → List ℕ → List ℕ
heart_beat_bytes member_id reserved =
    prepare_request_with_no_data Protocol.member_keep_alive member_id reserved

-- When the server accepts a switch to a room whose name has at most 24 bytes, the client tells the user
-- the name and keeps it as its room. When the server accepts a new room, the text that the client
-- gives ends where the room's name should stand.
pub send_room_requests-succ :
    (ask : Ask) (member_id id : ℕ) (curr_room room_name reserved : List ℕ)
    → ((request : List ℕ)
        → ask request
          ≡ (header_bytes (u16_at request 0 + 1) id control_msghdr_size, control_msghdr_size))
    → length room_name ≤ max_room_name_len
    → (send_switch_room_request ask member_id curr_room room_name reserved
        ≡ ok (codes "Successfully switched to room " ++ room_name, room_name))
      × (send_create_room_request ask member_id room_name reserved
          ≡ ok (codes "Successfully created room "))
unfolding send_switch_room_request send_create_room_request with_room process_response message_size
    text_size carries_text header_bytes u16_bytes u16_at prepare_room_request
    prepare_request_with_data encode_control_msghdr
send_room_requests-succ ask member_id id curr_room room_name reserved accepts h = (
  rw
      (
        accepts (prepare_room_request Protocol.switch_room_request member_id room_name reserved),
        take_all max_room_name_len room_name h,
      )
      (ap (λ text. ok (text, room_name))
        (take_all 123 (codes "Successfully switched to room " ++ room_name)
          (omega (arith, h, length-append (codes "Successfully switched to room ") room_name)))),
  rw (accepts (prepare_room_request Protocol.create_room_request member_id room_name reserved)),
)
