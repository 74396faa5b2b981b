-- ===== src/Receiver/Manager.antt =====
-- a3/receiver_mgr.c: the control process starts the receiver, learns its port, and sends it messages.
use csc469_a.Base.{
  ℕ, ◌+◌, ◌-◌, Bool, true, false, Option, none, some, List, [], ◌∷◌, ◌++◌, ◌==◌, ltb, if◌then◌else◌,
  codes, take, length, replicate, Run, ok, fault, exited, out_of_fuel,
}
use csc469_a.Protocol.{max_msg_len, chat_msghdr_size, max_member_name_len}
use csc469_a.Server.Control.{fill}
use csc469_a.Receiver.{
  Ipc, Msgrcv, no_message, failed, received, host_bytes, host_u16, minus_one, recv_type, recv_ready,
  chat_quit, long_size, msg_t_size,
}

abbrev pub ipc_get_udp_port_trials : ℕ
ipc_get_udp_port_trials = 20

-- What the calls of init_ipc_with_receiver answer: did mkstemp give a file, the queue that each msgget
-- gives, was the first refusal EEXIST, and was the old queue removed.
pub record IpcCalls : Type 0 where
  pub mkstemp : Bool
  pub create : Option ℕ
  pub exists : Bool
  pub existing : Option ℕ
  pub removed : Bool
  pub create_again : Option ℕ

-- The queue if there is one, and whether the file is unlinked.
unfoldable pub queue_or_unlink : Option ℕ → Option ℕ × Bool
queue_or_unlink none = (none, true)
queue_or_unlink (some qid) = (some qid, false)

unfoldable pub replace_queue : IpcCalls → Option ℕ → Option ℕ × Bool
unfolding queue_or_unlink
replace_queue calls none = (none, true)
replace_queue calls (some old) =
    if calls.removed then queue_or_unlink calls.create_again else (none, true)

unfoldable pub make_queue : IpcCalls → Option ℕ → Option ℕ × Bool
unfolding replace_queue
make_queue calls (some qid) = (some qid, false)
make_queue calls none = if calls.exists then replace_queue calls calls.existing else (none, true)

unfoldable pub init_ipc_with_receiver : IpcCalls → Option ℕ × Bool
unfolding make_queue
init_ipc_with_receiver calls =
    if calls.mkstemp then make_queue calls calls.create else (none, false)

-- In the parent: the child's id, or -1 if fork fails.
unfoldable pub start_receiver : Option ℕ → ℕ
start_receiver none = minus_one
start_receiver (some pid) = pid

-- The loop over what msgrcv answers, and the result with the port. An answer other than a message or
-- ENOMSG is not counted. The loop is out of fuel where the answers end.
unfoldable pub get_client_udp_port : ℕ → ℕ → List Msgrcv → Run (ℕ × ℕ)
unfolding host_u16
get_client_udp_port numtries port [] =
    if numtries == ipc_get_udp_port_trials then ok (minus_one, port) else out_of_fuel
get_client_udp_port numtries port (answer ∷ answers) =
    if numtries == ipc_get_udp_port_trials then ok (minus_one, port) else elim answer [
      | no_message ↦ get_client_udp_port (numtries + 1) port answers
      | failed ↦ get_client_udp_port numtries port answers
      | received text ↦
          if length text == 0
          then get_client_udp_port numtries port answers
          else if host_u16 text 0 == recv_ready
          then ok (0, host_u16 text 2)
          else ok (minus_one, port)
    ]

pub record ReceiverManager : Type 0 where
  pub receiver_pid : ℕ
  pub client_udp_port : ℕ
  pub ctrl2rcvr_qid : ℕ

-- The port is read whether or not it was learnt; it holds anything before.
unfoldable pub manager_of : ℕ → ℕ → Run (ℕ × ℕ) → Run (Option ReceiverManager)
manager_of pid qid (ok (ret, port)) =
    ok (some (record { receiver_pid = pid; client_udp_port = port; ctrl2rcvr_qid = qid }))
manager_of pid qid fault = fault
manager_of pid qid exited = exited
manager_of pid qid out_of_fuel = out_of_fuel

unfoldable pub with_queue : Option ℕ → Option ℕ → ℕ → List Msgrcv → Run (Option ReceiverManager)
unfolding manager_of start_receiver
with_queue none fork port answers = ok none
with_queue (some qid) fork port answers =
    manager_of (start_receiver fork) qid (get_client_udp_port 0 port answers)

unfoldable pub create_receiver_manager :
    IpcCalls → Option ℕ → ℕ → List Msgrcv → Run (Option ReceiverManager)
unfolding with_queue
create_receiver_manager calls fork port answers =
    with_queue (init_ipc_with_receiver calls).0 fork port answers

-- The message structure behind the type: status, value and padding, then the chat header with the
-- sender's name and the length, and the text.
unfoldable pub printf_block : List ℕ → List ℕ
unfolding host_bytes
printf_block text =
    host_bytes recv_ready
    ++ (replicate 6 0
        ++ (fill max_member_name_len (codes "--Ctrl req stat--")
            ++ (host_bytes (length text) ++ text)))

-- msgsnd counts the bytes behind the type, but the size passed counts the type too: it reads past the
-- allocated block when the message is long.
unfoldable pub receiver_printf : List ℕ → Run Ipc
unfolding printf_block
receiver_printf message =
    let text = take (max_msg_len - msg_t_size - chat_msghdr_size) message in
    let size = msg_t_size + chat_msghdr_size + length text in
    if ltb (max_msg_len - long_size) size
    then fault
    else ok (record {
      mtype = recv_type;
      text = take size (fill (max_msg_len - long_size) (printf_block text));
    })

-- `value` is not set.
unfoldable pub shutdown_receiver : ℕ → Ipc
unfolding host_bytes
shutdown_receiver value = record {
  mtype = recv_type;
  text = host_bytes chat_quit ++ host_bytes value;
}
