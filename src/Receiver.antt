-- ===== src/Receiver.antt =====
-- The process that prints what a client receives: a3/client_recv.c. What the socket and queue calls
-- answer is a parameter. A queue message is its type and the bytes behind the type; a `long` has
-- eight bytes, and the fields of `struct body_s` stand in memory with the low byte first.
pub mod Manager
pub mod Startup
pub mod Delivery
pub mod Relay
pub mod Loop
use csc469_a.Base.{
  ℕ, ◌+◌, ◌-◌, ◌*◌, ◌/◌, ◌%◌, ◌^◌, Bool, true, false, Option, none, some, List, [], ◌∷◌, ◌++◌, ◌==◌,
  ◌&&◌, ltb, if◌then◌else◌, codes, drop, length, Run, ok, fault, exited, out_of_fuel,
}
use csc469_a.Protocol.{max_msg_len, chat_msghdr_size, c_str, has_zero, byte}
use csc469_a.Server.Control.{fill}

-- Message types and status codes.
abbrev pub ctrl_type : ℕ
ctrl_type = 1

abbrev pub recv_type : ℕ
recv_type = 2

abbrev pub recv_ready : ℕ
recv_ready = 1

abbrev pub recv_notready : ℕ
recv_notready = 2

abbrev pub chat_quit : ℕ
chat_quit = 3

abbrev pub socket_failed : ℕ
socket_failed = 11

abbrev pub bind_failed : ℕ
bind_failed = 12

abbrev pub name_failed : ℕ
name_failed = 13

-- sizeof(long), and sizeof(msg_t) with its padding.
abbrev pub long_size : ℕ
long_size = 8

abbrev pub msg_t_size : ℕ
msg_t_size = 16

-- The int -1, in 32 bits.
abbrev pub minus_one : ℕ
minus_one = 2 ^ 32 - 1

pub record Ipc : Type 0 where
  pub mtype : ℕ
  pub text : List ℕ

-- A 16-bit field in memory.
unfoldable pub host_bytes : ℕ → List ℕ
host_bytes n = (n % 256) ∷ (n / 256 % 256) ∷ []

unfoldable pub host_u16 : List ℕ → ℕ → ℕ
host_u16 buf i = byte buf i + 256 * byte buf (i + 1)

unfoldable pub send_error : ℕ → Ipc
unfolding host_bytes
send_error code = record { mtype = ctrl_type; text = host_bytes recv_notready ++ host_bytes code }

unfoldable pub send_ok : ℕ → Ipc
unfolding host_bytes
send_ok port = record { mtype = ctrl_type; text = host_bytes recv_ready ++ host_bytes port }

-- `struct client_receiver_context`, less the queue. Both fields hold anything at first.
pub record Context : Type 0 where
  pub udp_fd : ℕ
  pub udp_port : ℕ

-- What socket, bind and getsockname answer.
pub record Sockets : Type 0 where
  pub socket : Option ℕ
  pub bind : Bool
  pub getsockname : Option ℕ

-- Once the socket is bound: the result, the context, and the messages sent.
unfoldable pub name_socket : ℕ → Option ℕ → Context → ℕ × Context × List Ipc
name_socket fd none ctx = (minus_one, ctx, send_error name_failed ∷ [])
name_socket fd (some port) ctx = (0, record { udp_fd = fd; udp_port = port }, [])

unfoldable pub bind_socket : Option ℕ → Bool → Option ℕ → Context → ℕ × Context × List Ipc
unfolding name_socket
bind_socket none bound name ctx = (minus_one, ctx, send_error socket_failed ∷ [])
bind_socket (some fd) false name ctx = (minus_one, ctx, send_error bind_failed ∷ [])
bind_socket (some fd) true name ctx = name_socket fd name ctx

unfoldable pub init_udp_socket : Sockets → Context → ℕ × Context × List Ipc
unfolding bind_socket
init_udp_socket net ctx = bind_socket net.socket net.bind net.getsockname ctx

-- The result is kept in 16 bits without a sign and is then compared with 0.
unfoldable pub init_receiver : Sockets → Context → Context × List Ipc
unfolding init_udp_socket
init_receiver net ctx =
    let (ret, ctx', sent) = init_udp_socket net ctx in
    if ltb (ret % 2 ^ 16) 0
    then (ctx', sent ++ (send_error (ret % 2 ^ 16) ∷ []))
    else (ctx', sent ++ (send_ok (ctx'.udp_port % 2 ^ 16) ∷ []))

-- The line that is printed for a message in a buffer. A string without a zero overruns the buffer.
unfoldable pub handle_received_msg : List ℕ → Run (List ℕ)
handle_received_msg buf =
    if has_zero buf && has_zero (drop chat_msghdr_size buf)
    then ok (c_str buf ++ (codes ": " ++ (c_str (drop chat_msghdr_size buf) ++ (10 ∷ []))))
    else fault

-- What one call of msgrcv answers.
pub data Msgrcv : Type 0 where
  no_message : Msgrcv
  failed : Msgrcv
  received : List ℕ → Msgrcv

-- What the process has done: the lines printed, newest last, the descriptors closed, and whether
-- it goes on.
pub record Screen : Type 0 where
  pub printed : List (List ℕ)
  pub closed : List ℕ
  pub quits : Bool

unfoldable pub print_line : Screen → Run (List ℕ) → Run Screen
print_line scr (ok line) = ok (record scr { printed = scr.printed ++ (line ∷ []) })
print_line scr fault = fault
print_line scr exited = exited
print_line scr out_of_fuel = out_of_fuel

-- The queue message `text` has been read behind the type at the start of the buffer.
unfoldable pub handle_text : Context → List ℕ → Screen → Run Screen
unfolding print_line host_u16
handle_text ctx text scr =
    let buf = fill (max_msg_len - long_size) text in
    if ltb (max_msg_len - long_size) (length text)
    then fault
    else if host_u16 buf 0 == chat_quit
    then ok (record {
      printed = scr.printed ++ (codes "Exitting the chat. Have a good day.\n" ∷ []);
      closed = scr.closed ++ (ctx.udp_port ∷ []);
      quits = true;
    })
    else print_line scr (handle_received_msg (drop (msg_t_size - long_size) buf))

-- For an empty text errno is what an earlier call left: `stale` says whether that is ENOMSG.
unfoldable pub handle_chatclient : Context → Bool → Msgrcv → Screen → Run Screen
unfolding handle_text
handle_chatclient ctx stale no_message scr = ok scr
handle_chatclient ctx stale failed scr = ok (record scr { quits = true })
handle_chatclient ctx stale (received []) scr =
    if stale then ok scr else ok (record scr { quits = true })
handle_chatclient ctx stale (received (b ∷ text)) scr = handle_text ctx (b ∷ text) scr

-- What select and recvfrom answer: a datagram of at least one byte, or not.
unfoldable pub handle_chatserver : Option (List ℕ) → Screen → Run Screen
unfolding print_line
handle_chatserver none scr = ok scr
handle_chatserver (some datagram) scr =
    print_line scr (handle_received_msg (fill max_msg_len datagram))

-- One round of the loop.
pub record Round : Type 0 where
  pub from_server : Option (List ℕ)
  pub stale : Bool
  pub from_client : Msgrcv

abbrev pub then_run : Run Screen → (Screen → Run Screen) → Run Screen
then_run (ok scr) f = f scr
then_run fault f = fault
then_run exited f = exited
then_run out_of_fuel f = out_of_fuel

unfoldable pub receive_round : Context → Round → Screen → Run Screen
unfolding handle_chatserver handle_chatclient
receive_round ctx round scr =
    then_run (handle_chatserver round.from_server scr)
      (handle_chatclient ctx round.stale round.from_client)

-- The loop over what the calls answer; it is out of fuel where the answers end.
unfoldable pub receive_msgs : Context → List Round → Screen → Run Screen
unfolding receive_round
receive_msgs ctx [] scr = out_of_fuel
receive_msgs ctx (round ∷ rounds) scr =
    then_run (receive_round ctx round scr)
      (λ scr'. if scr'.quits then ok scr' else receive_msgs ctx rounds scr')
