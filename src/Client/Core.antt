-- ===== src/Client/Core.antt =====
-- The client's core and its command line: the functions of a3/client_core.c that carry out the user's requests,
-- send_ctrl_request, handle_command_input and chat_interface of a3/client_main.c. The heartbeat thread, the
-- prompt and what goes to standard output are left out.
pub mod Asking
pub mod Conversation
use csc469_a.Base.{
  ℕ, ◌++◌, Bool, true, false, none, some, List, [], ◌∷◌, ◌==◌, if◌then◌else◌, codes, Run, ok, fault,
  length,
}
use csc469_a.Protocol
use csc469_a.Server.{bind_run}
use csc469_a.Client.{prepare_request_with_no_data, prepare_room_request, chat_datagram}
use csc469_a.Client.Command.{
  Request, list_rooms, create, list_members, switch_room, quit, unrecognized, handle_command_input,
}
use csc469_a.Client.Send.{
  send_room_list_request, send_member_list_request, send_switch_room_request,
  send_create_room_request, quit_request_bytes,
}
use csc469_a.Client.Reconnect.{Net, Core, send_control_msg}
use csc469_a.Receiver.{Ipc}
use csc469_a.Receiver.Manager.{receiver_printf, shutdown_receiver}

-- The text goes to the receiver through receiver_printf.
unfoldable pub tell : List ℕ → Core → Run Core
tell text core =
    bind_run (receiver_printf text)
      (λ ipc. ok (record core { printed = core.printed ++ (text ∷ []) }))

-- The request is sent, and the text made of the answer is told to the user.
unfoldable pub exchange : ℕ → Net → List ℕ → (List ℕ × ℕ → Run (List ℕ)) → Core → Run Core
unfolding tell
exchange k net request read core =
    bind_run (send_control_msg k net request core)
      (λ sent. bind_run (read sent.0) (λ text. tell text sent.1))

unfoldable pub cli_core_room_list_request : ℕ → Net → Core → Run Core
unfolding exchange tell
cli_core_room_list_request k net core =
    bind_run (tell (codes "Sending room list request") core) (λ core₁.
      exchange k net
        (prepare_request_with_no_data Protocol.room_list_request core₁.member_id net.reserved)
        (λ answer. send_room_list_request (λ request. answer) core₁.member_id net.reserved) core₁)

unfoldable pub cli_core_member_list_request : ℕ → Net → List ℕ → Core → Run Core
unfolding exchange tell
cli_core_member_list_request k net room_name core =
    bind_run (tell (codes "Sending member list request") core) (λ core₁.
      exchange k net
        (prepare_room_request Protocol.member_list_request core₁.member_id room_name net.reserved)
        (λ answer.
          send_member_list_request (λ request. answer) core₁.member_id room_name net.reserved)
        core₁)

-- send_switch_room_request writes the room of the core that a reconnection may have changed.
unfoldable pub cli_core_switch_room_request : ℕ → Net → List ℕ → Core → Run Core
unfolding tell
cli_core_switch_room_request k net room_name core =
    bind_run (tell (codes "Sending switch room request") core) (λ core₁.
      bind_run
        (send_control_msg k net
          (prepare_room_request Protocol.switch_room_request core₁.member_id room_name net.reserved)
          core₁)
        (λ sent.
          bind_run
            (send_switch_room_request (λ request. sent.0) core₁.member_id sent.1.curr_room room_name
              net.reserved)
            (λ result. tell result.0 (record sent.1 { curr_room = result.1 }))))

unfoldable pub cli_core_create_room_request : ℕ → Net → List ℕ → Core → Run Core
unfolding exchange tell
cli_core_create_room_request k net room_name core =
    bind_run (tell (codes "Sending create room request") core) (λ core₁.
      exchange k net
        (prepare_room_request Protocol.create_room_request core₁.member_id room_name net.reserved)
        (λ answer.
          send_create_room_request (λ request. answer) core₁.member_id room_name net.reserved)
        core₁)

-- The heartbeat thread has ended before.
unfoldable pub cli_core_quit : ℕ → Net → Core → Run Core
cli_core_quit k net core =
    bind_run (send_control_msg k net (quit_request_bytes core.member_id net.reserved) core)
      (λ sent. ok sent.1)

-- The core, and the chat datagrams sent to the server, newest last.
pub record Interface : Type 0 where
  pub core : Core
  pub datagrams : List (List ℕ)

-- Without a UDP connection send_udp_request reads through NULL.
unfoldable pub cli_core_send_chatmsg : Net → List ℕ → Interface → Run Interface
cli_core_send_chatmsg net chat_message i =
    if net.udp_opens (length i.datagrams)
    then ok
        (record i { datagrams = i.datagrams ++ (chat_datagram i.core.member_id chat_message ∷ []) })
    else fault

-- What send_ctrl_request does for a request.
unfoldable pub carry_out : ℕ → Net → Request → Core → Run Core
unfolding cli_core_room_list_request cli_core_member_list_request cli_core_switch_room_request
    cli_core_create_room_request
carry_out k net list_rooms core = cli_core_room_list_request k net core
carry_out k net (create room) core = cli_core_create_room_request k net room core
carry_out k net (list_members room) core = cli_core_member_list_request k net room core
carry_out k net (switch_room room) core = cli_core_switch_room_request k net room core
carry_out k net quit core = ok core
carry_out k net unrecognized core = ok core

-- A line from the user: a chat message, a command that is refused, or a request.
pub data Input : Type 0 where
  chat : Input
  refused : Input
  asked : Request → Input

unfoldable pub read_input : List ℕ → Input
read_input [] = chat
read_input (c ∷ line) =
    if c == 33
    then elim (handle_command_input (c ∷ line)) [ none ↦ refused | some request ↦ asked request ]
    else chat

-- Does the loop go on after the line?
unfoldable pub goes_on : Input → Bool
goes_on (asked quit) = false
goes_on input = true

unfoldable pub act : ℕ → Net → List ℕ → Input → Interface → Run Interface
unfolding cli_core_send_chatmsg carry_out
act k net line chat i = cli_core_send_chatmsg net line i
act k net line refused i = ok i
act k net line (asked request) i =
    bind_run (carry_out k net request i.core) (λ core. ok (record i { core = core }))

-- The loop over the lines that fgets gives, up to the end of the input.
unfoldable pub read_lines : ℕ → Net → List (List ℕ) → Interface → Run Interface
unfolding act read_input goes_on
read_lines k net [] i = ok i
read_lines k net (line ∷ lines) i =
    bind_run (act k net line (read_input line) i)
      (λ i'. if goes_on (read_input line) then read_lines k net lines i' else ok i')

-- The result has the message that ends the receiver; `value` is not set.
unfoldable pub chat_interface : ℕ → Net → ℕ → List (List ℕ) → Interface → Run (Interface × Ipc)
unfolding read_lines cli_core_quit
chat_interface k net value lines i = bind_run (read_lines k net lines i) (λ i'.
    bind_run (cli_core_quit k net i'.core)
      (λ core. ok (record i' { core = core }, shutdown_receiver value)))
