-- ===== src/Receiver/Startup.antt =====
-- The port that the control process learns from the receiver that it starts.
use csc469_a.Base.{
  ℕ, suc, ◌+◌, ◌%◌, ◌^◌, ◌<◌, ◌≤◌, ◌≡◌, refl, ap, ◌∙◌, true, false, Option, none, some, List, [],
  ◌∷◌, ◌++◌, map, Bool, Run, arith, ◌==◌, ok, inl, inr, eq_cases, if◌then◌else◌,
}
use csc469_a.Receiver.{
  Ipc, Msgrcv, no_message, failed, received, Context, Sockets, init_receiver, init_udp_socket,
  bind_socket, name_socket, send_ok, send_error, host_bytes, host_u16, minus_one, socket_failed,
  bind_failed, name_failed,
}
use csc469_a.Receiver.Manager.{
  get_client_udp_port, ipc_get_udp_port_trials, IpcCalls, create_receiver_manager,
  init_ipc_with_receiver, with_queue, manager_of, start_receiver,
}

-- Answers without a message, and how many of them say ENOMSG.
abbrev pub Silent : List Msgrcv → Type 0
Silent [] = Unit {0}
Silent (no_message ∷ answers) = Silent answers
Silent (failed ∷ answers) = Silent answers
Silent (received text ∷ answers) = ⊥

abbrev pub polls : List Msgrcv → ℕ
polls [] = 0
polls (no_message ∷ answers) = suc (polls answers)
polls (failed ∷ answers) = polls answers
polls (received text ∷ answers) = polls answers

-- What the queue gives once the messages are in it.
abbrev pub arriving : List Ipc → List Msgrcv
arriving = map (λ m. received m.text)

-- The code of the call that fails, if one does.
abbrev pub failure : Sockets → Option ℕ
failure net = elim net.socket [
  | none ↦ some socket_failed
  | some fd ↦
      if net.bind
      then elim net.getsockname [ none ↦ some name_failed | some port ↦ none ]
      else some bind_failed
]

wait_lem :
    (answers rest : List Msgrcv) (t port : ℕ)
    → Silent answers
    → t + polls answers < ipc_get_udp_port_trials
    → get_client_udp_port t port (answers ++ rest)
      ≡ get_client_udp_port (t + polls answers) port rest
unfolding get_client_udp_port
wait_lem [] rest t port q h = ap (λ n. get_client_udp_port n port rest) (omega arith)
wait_lem (no_message ∷ answers) rest t port q h =
    let more : (t == ipc_get_udp_port_trials) ≡ false = ground arith in
    rw more (
      wait_lem answers rest (t + 1) port q (omega arith)
      ∙ ap (λ n. get_client_udp_port n port rest) (omega arith))
wait_lem (failed ∷ answers) rest t port q h =
    let more : (t == ipc_get_udp_port_trials) ≡ false = ground arith in
    rw more (wait_lem answers rest t port q h)
wait_lem (received text ∷ answers) rest t port q h = absurd q

give_up_lem :
    (answers rest : List Msgrcv) (t port : ℕ)
    → Silent answers
    → t ≤ ipc_get_udp_port_trials
    → ipc_get_udp_port_trials ≤ t + polls answers
    → get_client_udp_port t port (answers ++ rest) ≡ ok (minus_one, port)
unfolding get_client_udp_port
give_up_lem [] [] t port q lo hi = ground arith
give_up_lem [] (r ∷ rest) t port q lo hi =
    let done : (t == ipc_get_udp_port_trials) ≡ true = ground arith in rw done refl
give_up_lem (no_message ∷ answers) rest t port q lo hi = elim (eq_cases t ipc_get_udp_port_trials) [
  | inl done ↦ let stop : (t == ipc_get_udp_port_trials) ≡ true = ground arith in rw stop refl
  | inr more ↦ rw more (give_up_lem answers rest (t + 1) port q (ground arith) (omega (arith, hi)))
]
give_up_lem (failed ∷ answers) rest t port q lo hi = elim (eq_cases t ipc_get_udp_port_trials) [
  | inl done ↦ let stop : (t == ipc_get_udp_port_trials) ≡ true = ground arith in rw stop refl
  | inr more ↦ rw more (give_up_lem answers rest t port q lo hi)
]
give_up_lem (received text ∷ answers) rest t port q lo hi = absurd q

port_read : (p : ℕ) → p < 2 ^ 16 → host_u16 (1 ∷ 0 ∷ host_bytes (p % 2 ^ 16)) 2 ≡ p
unfolding host_u16 host_bytes
port_read p h = omega arith

-- What the receiver sends when a call fails: the code, and then that it is ready.
sent_lem :
    (socket : Option ℕ) (bind : Bool) (name : Option ℕ) (ctx : Context) (code : ℕ)
    → failure (record { socket = socket; bind = bind; getsockname = name }) ≡ some code
    → (init_receiver (record { socket = socket; bind = bind; getsockname = name }) ctx).1
      ≡ send_error code ∷ send_ok (ctx.udp_port % 2 ^ 16) ∷ []
unfolding init_receiver init_udp_socket bind_socket name_socket
sent_lem none bind name ctx code e =
    ap (λ c. send_error c ∷ send_ok (ctx.udp_port % 2 ^ 16) ∷ []) cc
sent_lem (some fd) false name ctx code e =
    ap (λ c. send_error c ∷ send_ok (ctx.udp_port % 2 ^ 16) ∷ []) cc
sent_lem (some fd) true none ctx code e =
    ap (λ c. send_error c ∷ send_ok (ctx.udp_port % 2 ^ 16) ∷ []) cc
sent_lem (some fd) true (some port) ctx code e = cc

ready_lem :
    (socket : Option ℕ) (bind : Bool) (name : Option ℕ) (ctx : Context)
    → failure (record { socket = socket; bind = bind; getsockname = name }) ≡ none
    → (p : ℕ) × (name ≡ some p)
      × ((init_receiver (record { socket = socket; bind = bind; getsockname = name }) ctx).1
          ≡ send_ok (p % 2 ^ 16) ∷ [])
unfolding init_receiver init_udp_socket bind_socket name_socket
ready_lem none bind name ctx e = cc
ready_lem (some fd) false name ctx e = cc
ready_lem (some fd) true none ctx e = cc
ready_lem (some fd) true (some p) ctx e = (p, refl, refl)

module _ (net : Sockets) (ctx : Context) (answers : List Msgrcv) (port : ℕ) where
  -- What the control process reads: the answers without a message, and then the receiver's messages.
  abbrev pub polled : Run (ℕ × ℕ)
  polled = get_client_udp_port 0 port (answers ++ arriving (init_receiver net ctx).1)

  -- How the start of the receiver looks to the control process.
  pub record Started (calls : IpcCalls) (fork : Option ℕ) (qid : ℕ) : Type 0 where
    pub ready :
        failure net ≡ none
        → polls answers < ipc_get_udp_port_trials
        → (p : ℕ) × (net.getsockname ≡ some p) × (polled ≡ ok (0, p))
    pub refused :
        (code : ℕ)
        → failure net ≡ some code
        → polls answers < ipc_get_udp_port_trials
        → ((init_receiver net ctx).1 ≡ send_error code ∷ send_ok (ctx.udp_port % 2 ^ 16) ∷ [])
          × (polled ≡ ok (minus_one, port))
    pub late : ipc_get_udp_port_trials ≤ polls answers → polled ≡ ok (minus_one, port)
    pub ignored :
        polled ≡ ok (minus_one, port)
        → create_receiver_manager calls fork port (answers ++ arriving (init_receiver net ctx).1)
          ≡ ok (
              some (record {
                receiver_pid = start_receiver fork;
                client_udp_port = port;
                ctrl2rcvr_qid = qid;
              }))

  going :
      polls answers < ipc_get_udp_port_trials
      → (0 + polls answers == ipc_get_udp_port_trials) ≡ false
  going few = ground arith

  -- Let the control process have its queue, and find no message in the queue for a while. If socket,
  -- bind and getsockname succeed and fewer than 20 answers said that there is none, the control process
  -- learns the port of the receiver's socket. If one of the calls fails, the receiver sends the code,
  -- and a message that it is ready behind it; the control process takes the code and returns -1. With
  -- 20 answers it gives up with -1. When it returns -1, create_receiver_manager goes on all the same, with
  -- a manager whose port was never set.
  pub init_receiver-Started :
      (calls : IpcCalls) (fork : Option ℕ) (qid : ℕ)
      → Silent answers
      → ((p : ℕ) → net.getsockname ≡ some p → p < 2 ^ 16)
      → (init_ipc_with_receiver calls).0 ≡ some qid
      → Started calls fork qid
  unfolding create_receiver_manager with_queue manager_of get_client_udp_port send_ok send_error
  init_receiver-Started calls fork qid silent fits queue = record {
    ready = λ fine few.
        let (p, named, sent) = ready_lem net.socket net.bind net.getsockname ctx fine in
        (
          p,
          named,
          rw
              (
                wait_lem answers (arriving (init_receiver net ctx).1) 0 port silent (omega arith),
                sent,
                going few,
                port_read p (fits p named),
              )
              refl,
        );
    refused = λ code bad few.
        let sent = sent_lem net.socket net.bind net.getsockname ctx code bad in
        (
          sent,
          rw
              (
                wait_lem answers (arriving (init_receiver net ctx).1) 0 port silent (omega arith),
                sent,
                going few,
              )
              refl,
        );
    late = λ many. give_up_lem answers _ 0 port silent (omega arith) (omega arith);
    ignored = λ e. rw (queue, e);
  }
