-- ===== src/Client/Reconnect/Outage.antt =====
-- The client across an outage of its servers.
use csc469_a.Base.{
  ℕ, zero, suc, ◌+◌, ◌^◌, ◌-◌, ◌≤◌, ◌<◌, ◌≡◌, refl, sym, ap, subst, ◌∙◌, none, some, List, [], ◌∷◌,
  ◌++◌, arith, codes, ok, fault, ltb, if◌then◌else◌, Bool-cases, inl, inr,
}
use csc469_a.Protocol
use csc469_a.Protocol.{header_bytes, u16_bytes, u16_at, control_msghdr_size}
use csc469_a.Server.{bind_run}
use csc469_a.Client.{
  prepare_register_request, prepare_room_request, handle_register_response, process_response,
  carries_text, message_size, text_size,
}
use csc469_a.Client.Location.{refresh_chatserver, refresh_chatserver-fault}
use csc469_a.Client.Send.{send_register_request, send_switch_room_request, with_room}
use csc469_a.Client.Reconnect.{
  Net, Core, tried, send_plain, re_register_func, reconnect, keep_room, send_control_msg,
}

-- What a client has after a reconnection: the new id, no room, and a message for the user.
abbrev pub reconnected : Core → ℕ → ℕ → Core
reconnected core id tries = record core {
  member_id = id;
  curr_room = [];
  tries = tries;
  printed = core.printed ++ (codes "Successfully connected to a server" ∷ []);
}

-- A server's consent to a switch, as the client takes it after a reconnection.
switch_lem :
    (id id' : ℕ) (room reserved : List ℕ) (core : Core)
    → bind_run
        (send_switch_room_request
          (λ request.
            (header_bytes Protocol.switch_room_succ id' control_msghdr_size, control_msghdr_size))
          id
          room
          room
          reserved)
        (λ result. ok (keep_room result core))
      ≡ ok (record core { curr_room = [] })
unfolding send_switch_room_request with_room process_response carries_text message_size text_size
    header_bytes u16_bytes u16_at keep_room
switch_lem id id' room reserved core = refl

module _ (net : Net) (server : List ℕ → List ℕ × ℕ) (n : ℕ)
    (down : (i : ℕ) (request : List ℕ) → i < n → net.attempt i request ≡ none)
    (up : (i : ℕ) (request : List ℕ) → n ≤ i → net.attempt i request ≡ some (server request))
    (refreshed : (i : ℕ) → i < n → refresh_chatserver net.block (net.locate i) ≡ ok tt) where
  send_plain_lem :
      (d k : ℕ) (request : List ℕ) (core : Core)
      → d ≡ n - core.tries
      → d < k
      → send_plain k net request core
        ≡ ok (server request, record core { tries = core.tries + d + 1 })
  unfolding send_plain
  send_plain_lem d zero request core e h = absurd (omega arith)
  send_plain_lem zero (suc k) request core e h =
      rw (up core.tries request (omega arith), send_plain)
        (ap (λ t. ok (server request, record core { tries = t })) (omega arith))
  send_plain_lem (suc d) (suc k) request core e h =
      rw (down core.tries request (omega arith), send_plain, refreshed core.tries (omega arith))
        (send_plain_lem d k request (tried core) (omega (arith, e)) (omega (arith, h))
          ∙ ap (λ t. ok (server request, record core { tries = t })) (omega arith))

  up_lem :
      (k : ℕ) (request : List ℕ) (core : Core)
      → n ≤ core.tries
      → 0 < k
      → send_control_msg k net request core ≡ ok (server request, tried core)
  unfolding send_control_msg
  up_lem zero request core e h = absurd (omega arith)
  up_lem (suc k) request core e h = rw (up core.tries request e, send_control_msg) refl

  module _ (id id' : ℕ) (fits : id < 2 ^ 16)
      (registers : (name : List ℕ)
        → server (prepare_register_request net.udp_port name net.reserved)
          ≡ (header_bytes Protocol.register_succ id control_msghdr_size, control_msghdr_size))
      (room : List ℕ)
      (switches : server (prepare_room_request Protocol.switch_room_request id room net.reserved)
        ≡ (
          header_bytes Protocol.switch_room_succ id' control_msghdr_size,
          control_msghdr_size,
        )) where
    re_register_lem :
        (k : ℕ) (core : Core)
        → n - core.tries + 1 < k
        → re_register_func k net core
          ≡ ok (record core { member_id = id; tries = core.tries + (n - core.tries) + 1 })
    unfolding re_register_func send_register_request handle_register_response header_bytes u16_bytes
        u16_at
    re_register_lem zero core h = absurd (omega arith)
    re_register_lem (suc k) core h =
        rw
          (
            send_plain_lem (n - core.tries) k
                (prepare_register_request net.udp_port core.member_name net.reserved) core refl
                (omega (arith, h)),
            registers core.member_name,
          )
          (ap (λ i. ok (record core { member_id = i; tries = core.tries + (n - core.tries) + 1 }))
            (omega arith))

    abbrev switched : List ℕ × ℕ
    switched = (header_bytes Protocol.switch_room_succ id' control_msghdr_size, control_msghdr_size)

    reconnect_lem :
        (k : ℕ) (core : Core)
        → core.curr_room ≡ room
        → n - core.tries + 1 < k
        → reconnect k net (send_control_msg k net) core
          ≡ ok (reconnected core id (core.tries + (n - core.tries) + 2))
    unfolding reconnect
    reconnect_lem k core at h =
        let registered = record core {
          member_id = id;
          tries = core.tries + (n - core.tries) + 1;
          printed = core.printed ++ (codes "Successfully connected to a server" ∷ []);
        } in
        rw
          (
            re_register_lem k core h,
            up_lem k
                (prepare_room_request Protocol.switch_room_request id core.curr_room net.reserved)
                registered (omega arith) (omega arith),
            subst
                (λ r.
                  server (prepare_room_request Protocol.switch_room_request id r net.reserved)
                  ≡ switched)
                (sym at) switches,
          )
          (switch_lem id id' core.curr_room net.reserved (tried registered)
            ∙ ap (λ t. ok (reconnected core id t)) (omega arith))

    -- The server cannot be reached in the attempts before the `n`-th, each look-up of another server then ends without
    -- a fault, and every attempt from the `n`-th on is answered; there a registration succeeds with the id `id`, and so
    -- does a switch to the client's room. With one round for each failed attempt and two more, send_control_msg
    -- returns the answer to the request that it was given. If the first attempt fails, the client has then the new id,
    -- which the request does not carry, has told the user of the connection, has made three attempts after
    -- the outage, and has no room, although it is in one.
    pub send_control_msg-returns :
        (k : ℕ) (request : List ℕ) (core : Core)
        → core.curr_room ≡ room
        → n - core.tries + 2 ≤ k
        → send_control_msg k net request core
          ≡ ok
              (server request, if ltb core.tries n then reconnected core id (n + 3) else tried core)
    unfolding send_control_msg
    send_control_msg-returns zero request core at h = absurd (omega arith)
    send_control_msg-returns (suc k) request core at h = elim (Bool-cases (ltb core.tries n)) [
      | inl first ↦
          rw
            (
              down core.tries request (ground arith),
              send_control_msg,
              refreshed core.tries (ground arith),
              first,
              reconnect_lem k (tried core) at (ground arith),
              up_lem k request
                  (reconnected (tried core) id (core.tries + 1 + (n - (core.tries + 1)) + 2))
                  (ground arith) (omega (arith, h)),
            )
            (ap (λ t. ok (server request, reconnected core id t)) (ground arith))
      | inr up_now ↦ rw (up core.tries request (ground arith), send_control_msg, up_now) refl
    ]

-- If malloc's blocks have no byte more than asked for, every failed attempt ends in a fault.
send_control_msg-fault :
    (net : Net) (k : ℕ) (request : List ℕ) (core : Core)
    → ((size : ℕ) → net.block size ≤ size)
    → net.attempt core.tries request ≡ none
    → send_control_msg (suc k) net request core ≡ fault
unfolding send_control_msg
send_control_msg-fault net k request core exact failed =
    rw (failed, send_control_msg, refresh_chatserver-fault net.block (net.locate core.tries) exact)
      refl
