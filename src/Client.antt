-- ===== src/Client.antt =====
-- The chat client: the control requests that a3/client_to_server_sender.c builds, and the answers that
-- it reads. `reserved` are the two bytes of the header that the code does not set.
pub mod Command
pub mod Wire
pub mod Answer
pub mod Send
pub mod Location
pub mod Reconnect
pub mod Tcp
pub mod Dialogue
pub mod Core
use csc469_a.Base.{
  ℕ, ◌+◌, ◌-◌, ◌%◌, ◌^◌, Option, none, some, Bool, true, false, List, [], ◌∷◌, ◌++◌, ◌==◌, leb, ltb,
  ◌&&◌, ◌||◌, if◌then◌else◌, codes, take, drop, length, replicate, Run, ok, fault, exited,
  out_of_fuel,
}
use csc469_a.Protocol
use csc469_a.Protocol.{
  max_member_name_len, max_room_name_len, max_msg_len, control_msghdr_size, chat_msghdr_size,
  u16_bytes, u16_at, c_str, has_zero,
}

-- `encode_control_msghdr`: the header of eight bytes.
unfoldable pub encode_control_msghdr : ℕ → ℕ → ℕ → List ℕ → List ℕ
encode_control_msghdr type id len reserved =
    u16_bytes type ++ (u16_bytes id ++ (u16_bytes len ++ reserved))

unfoldable pub prepare_request_with_no_data : ℕ → ℕ → List ℕ → List ℕ
unfolding encode_control_msghdr
prepare_request_with_no_data type id reserved =
    encode_control_msghdr type id control_msghdr_size reserved

-- The request's length is kept in 16 bits.
unfoldable pub prepare_request_with_data : ℕ → ℕ → List ℕ → List ℕ → List ℕ
unfolding encode_control_msghdr
prepare_request_with_data type id msgdata reserved =
    encode_control_msghdr type id ((control_msghdr_size + length msgdata) % 2 ^ 16) reserved
    ++ msgdata

-- The name has at most 24 bytes.
unfoldable pub prepare_register_request : ℕ → List ℕ → List ℕ → List ℕ
unfolding prepare_request_with_data
prepare_register_request udp_port member_name reserved =
    prepare_request_with_data Protocol.register_request 0
      (u16_bytes udp_port ++ take max_member_name_len member_name) reserved

-- The requests that name a room: the name has at most 24 bytes.
unfoldable pub prepare_room_request : ℕ → ℕ → List ℕ → List ℕ → List ℕ
unfolding prepare_request_with_data
prepare_room_request type id room_name reserved =
    prepare_request_with_data type id (take max_room_name_len room_name) reserved

-- `resp_len - sizeof(struct control_msghdr) + 1`, in 16 bits.
unfoldable pub text_size : ℕ → ℕ
text_size resp_len = (resp_len + 2 ^ 16 - control_msghdr_size + 1) % 2 ^ 16

-- What `strncpy` of `n` bytes leaves is read up to its zero; without one the read overruns.
unfoldable pub copy_text : ℕ → List ℕ → Run (List ℕ)
copy_text n text = if has_zero (take n text) then ok (c_str (take n text)) else fault

-- The copy of an error text in its block from malloc: behind the `n` bytes that `strncpy` copies, the block has the
-- bytes `spare`, and the text may end there. Without a zero in either, a read overruns the block.
unfoldable pub copy_error : ℕ → List ℕ → List ℕ → Run (List ℕ)
copy_error n text spare =
    if has_zero (take n text)
    then ok (c_str (take n text))
    else if (length (take n text) == n) && has_zero spare
    then ok (take n text ++ c_str spare)
    else fault

-- The error text, beside a member id that stays.
unfoldable pub rejected : Run (List ℕ) → ℕ → Run (Option (List ℕ) × ℕ)
rejected (ok text) member_id = ok (some text, member_id)
rejected fault member_id = fault
rejected exited member_id = exited
rejected out_of_fuel member_id = out_of_fuel

-- `response` is the buffer with the answer, `response_len` the number of bytes received, which is the
-- size of the block for the text. The copy leaves seven bytes of the block as malloc gave them, the first seven of
-- `stale`; an answer shorter than a header makes the copy overrun. The result is the error text, if any, and the
-- member id.
unfoldable pub handle_register_response : List ℕ → List ℕ → ℕ → ℕ → Run (Option (List ℕ) × ℕ)
unfolding copy_error
handle_register_response stale response response_len member_id =
    if u16_at response 0 == Protocol.register_fail
    then (if ltb response_len (text_size response_len)
        then fault
        else rejected
            (copy_error (text_size response_len) (drop control_msghdr_size response)
              (take (control_msghdr_size - 1) stale))
            member_id)
    else if u16_at response 0 == Protocol.register_succ
    then ok (none, u16_at response 2)
    else ok (none, member_id)

-- The types whose answer carries its text.
unfoldable pub carries_text : ℕ → Bool
carries_text type =
    type == Protocol.register_succ
    || type == Protocol.register_fail
    || type == Protocol.room_list_succ
    || type == Protocol.room_list_fail
    || type == Protocol.member_list_succ
    || type == Protocol.member_list_fail
    || type == Protocol.switch_room_fail
    || type == Protocol.create_room_fail

-- The size of the text buffer in process_response.
unfoldable pub message_size : ℕ → ℕ
unfolding text_size
message_size resp_len =
    if leb (text_size resp_len) 1 then 100 + max_room_name_len else text_size resp_len

-- The text that process_response makes for the user; snprintf cuts it to the buffer.
unfoldable pub process_response : List ℕ → ℕ → List ℕ → Run (List ℕ)
unfolding message_size carries_text
process_response resp resp_len extra =
    if carries_text (u16_at resp 0)
    then copy_text (message_size resp_len) (drop control_msghdr_size resp)
    else if u16_at resp 0 == Protocol.switch_room_succ
    then ok (take (message_size resp_len - 1) (codes "Successfully switched to room " ++ extra))
    else if u16_at resp 0 == Protocol.create_room_succ
    then ok (take (message_size resp_len - 1) (codes "Successfully created room " ++ extra))
    else ok []

-- The datagram of `send_chat_msg`: the id over the zeroed name, the length of the text and the text,
-- which is cut to the message size.
unfoldable pub chat_datagram : ℕ → List ℕ → List ℕ
chat_datagram member_id cmsg =
    let text = take (max_msg_len - chat_msghdr_size) cmsg in
    u16_bytes member_id ++ (replicate 22 0 ++ (u16_bytes (length text) ++ text))
