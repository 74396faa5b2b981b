-- ===== src/Client/Reconnect.antt =====
-- send_control_msg and re_register_func of a3/client_to_server_sender.c: how the client goes on when its
-- server cannot be reached.
-- A connection attempt is create_tcp_connection and send_tcp_request for one request: it gives the
-- buffer with the answer and the number of bytes received, or fails. After a failure
-- refresh_chatserver asks for another server, which later attempts reach. The lock is recursive,
-- so the calls below do not wait for one another.
pub mod Outage
pub mod Rename
use csc469_a.Base.{
  ℕ, zero, suc, ◌+◌, Bool, true, false, ◌&&◌, ◌||◌, Option, none, some, List, [], ◌∷◌, ◌++◌, ◌==◌,
  ltb, if◌then◌else◌, codes, drop, length, Run, ok, fault, out_of_fuel,
}
use csc469_a.Protocol
use csc469_a.Protocol.{u16_at, max_member_name_len}
use csc469_a.Server.{bind_run}
use csc469_a.Client.{prepare_register_request, prepare_room_request}
use csc469_a.Client.Location.{refresh_chatserver}
use csc469_a.Client.Send.{Ask, send_register_request, send_switch_room_request}

-- What surrounds the client: the attempts, numbered from 0, the receiver's port, and the two bytes of
-- a request's header that are not set.
pub record Net : Type 0 where
  pub attempt : ℕ → List ℕ → Option (List ℕ × ℕ)
  pub udp_port : ℕ
  pub reserved : List ℕ
  -- does create_udp_connection succeed for the chat message after as many?
  pub udp_opens : ℕ → Bool
  -- what malloc leaves in the block for the text of a refusal, after as many attempts
  pub stale : ℕ → List ℕ
  -- the buffer with the location server's answer after a failed attempt, if it answers, and how many bytes
  -- malloc's block of so many bytes really holds
  pub locate : ℕ → Option (List ℕ)
  pub block : ℕ → ℕ

-- `struct client_core`, less its pointers, the number of attempts made, the calls of sleep, and the
-- messages for the user, newest last.
pub record Core : Type 0 where
  pub member_name : List ℕ
  pub member_id : ℕ
  pub curr_room : List ℕ
  pub tries : ℕ
  pub sleeps : ℕ
  pub printed : List (List ℕ)

abbrev pub tried : Core → Core
tried core = record core { tries = core.tries + 1 }

-- send_control_msg with `re_register` FALSE: the loop, with a round for each attempt.
unfoldable pub send_plain : ℕ → Net → List ℕ → Core → Run ((List ℕ × ℕ) × Core)
send_plain zero net request core = out_of_fuel
send_plain (suc k) net request core = elim (net.attempt core.tries request) [
  | none ↦
      bind_run (refresh_chatserver net.block (net.locate core.tries))
        (λ _. send_plain k net request (tried core))
  | some answer ↦ ok (answer, tried core)
]

-- Is `pattern` a prefix of the text? Does it occur in it, as strstr finds it?
unfoldable pub starts_with : List ℕ → List ℕ → Bool
starts_with [] text = true
starts_with (p ∷ pattern) [] = false
starts_with (p ∷ pattern) (x ∷ text) = p == x && starts_with pattern text

unfoldable pub contains : List ℕ → List ℕ → Bool
unfolding starts_with
contains pattern [] = starts_with pattern []
contains pattern (x ∷ text) = starts_with pattern (x ∷ text) || contains pattern text

-- `sprintf(name, "%s_", name)` in the array of 24 bytes, which glibc writes over itself.
unfoldable pub append_underscore : Core → Run Core
append_underscore core =
    if ltb max_member_name_len (length core.member_name + 2)
    then fault
    else ok (record core { member_name = core.member_name ++ codes "_" })

-- The error text of a refused registration is searched behind its first eight bytes.
unfoldable pub make_way : List ℕ → Core → Run Core
unfolding contains append_underscore
make_way error core =
    if ltb (length error) 8
    then fault
    else if contains (codes "already been used") (drop 8 error)
    then append_underscore core
    else ok (record core { sleeps = core.sleeps + 1 })

-- The loop, with a round for each registration; each registration gets the same fuel.
unfoldable pub re_register_func : ℕ → Net → Core → Run Core
unfolding send_plain make_way
re_register_func zero net core = out_of_fuel
re_register_func (suc k) net core =
    bind_run
      (send_plain k net (prepare_register_request net.udp_port core.member_name net.reserved) core)
      (λ sent.
        bind_run
          (send_register_request (net.stale core.tries) (λ request. sent.0) net.udp_port
            core.member_name core.member_id net.reserved)
          (λ result. elim result.0 [
            | none ↦ ok (record sent.1 { member_id = result.1 })
            | some error ↦
                bind_run (make_way error (record sent.1 { member_id = result.1 }))
                  (λ core'. re_register_func k net core')
          ]))

-- The text that send_switch_room_request returns is read as a message header.
unfoldable pub keep_room : List ℕ × List ℕ → Core → Core
keep_room (text, room) core = record core {
  curr_room = if u16_at text 0 == Protocol.switch_room_succ then room else [];
}

-- After a failed attempt, with `send` for the calls of send_control_msg.
unfoldable pub reconnect : ℕ → Net → (List ℕ → Core → Run ((List ℕ × ℕ) × Core)) → Core → Run Core
unfolding re_register_func keep_room
reconnect k net send core = bind_run (re_register_func k net core) (λ core₁.
    let core₂ = record core₁ {
      printed = core₁.printed ++ (codes "Successfully connected to a server" ∷ []);
    } in
    bind_run
      (send
        (prepare_room_request Protocol.switch_room_request core₂.member_id core₂.curr_room
          net.reserved)
        core₂)
      (λ sent.
        bind_run
          (send_switch_room_request (λ request. sent.0) core₂.member_id core₂.curr_room
            core₂.curr_room net.reserved)
          (λ result. ok (keep_room result sent.1))))

-- send_control_msg with `re_register` TRUE. The request stays as it was built.
unfoldable pub send_control_msg : ℕ → Net → List ℕ → Core → Run ((List ℕ × ℕ) × Core)
unfolding reconnect
send_control_msg zero net request core = out_of_fuel
send_control_msg (suc k) net request core = elim (net.attempt core.tries request) [
  | none ↦ bind_run (refresh_chatserver net.block (net.locate core.tries)) (λ _.
      bind_run (reconnect k net (send_control_msg k net) (tried core))
        (λ core'. send_control_msg k net request core'))
  | some answer ↦ ok (answer, tried core)
]
