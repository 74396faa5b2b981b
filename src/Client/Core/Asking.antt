-- ===== src/Client/Core/Asking.antt =====
-- What one request of the user does while the client's server answers.
use csc469_a.Base.{
  ℕ, suc, ◌+◌, ◌≤◌, ◌≡◌, refl, sym, some, List, [], ◌∷◌, ◌++◌, ◌==◌, if◌then◌else◌, append_assoc,
  append-nil, codes, arith, take, length, Run, ok, fault, exited, out_of_fuel, Ends,
}
use csc469_a.Protocol
use csc469_a.Protocol.{u16_at, max_room_name_len}
use csc469_a.Server.{bind_run}
use csc469_a.Client.{prepare_request_with_no_data, prepare_room_request, process_response}
use csc469_a.Client.Command.{
  Request, list_rooms, create, list_members, switch_room, quit, unrecognized,
}
use csc469_a.Client.Send.{
  send_room_list_request, send_member_list_request, send_switch_room_request,
  send_create_room_request, with_room,
}
use csc469_a.Client.Reconnect.{Net, Core, send_control_msg, tried}
use csc469_a.Client.Core.{
  tell, exchange, cli_core_room_list_request, cli_core_member_list_request,
  cli_core_switch_room_request, cli_core_create_room_request, carry_out, Input, chat, refused,
  asked,
}
use csc469_a.Receiver.Delivery.{printf_lem}

abbrev pub Short : List ℕ → Type 0
Short text = length text ≤ 1998

abbrev said : List ℕ → Core → Core
said text core = record core { printed = core.printed ++ (text ∷ []) }

-- The text that a piece of code gives.
abbrev text_of : Run (List ℕ) → List ℕ
text_of (ok text) = text
text_of fault = []
text_of exited = []
text_of out_of_fuel = []

tell_lem : (text : List ℕ) (core : Core) → Short text → tell text core ≡ ok (said text core)
unfolding tell
tell_lem text core h = rw (printf_lem text h) refl

tell_all :
    (r : Run (List ℕ)) (core : Core)
    → Ends Short r
    → bind_run r (λ text. tell text core) ≡ ok (said (text_of r) core)
tell_all (ok text) core h = tell_lem text core h
tell_all fault core h = absurd h
tell_all exited core h = absurd h
tell_all out_of_fuel core h = absurd h

tell_switch :
    (r : Run (List ℕ)) (room : List ℕ) (core : Core)
    → Ends Short r
    → bind_run (with_room r room) (λ result. tell result.0 (record core { curr_room = result.1 }))
      ≡ ok (said (text_of r) (record core { curr_room = room }))
unfolding with_room
tell_switch (ok text) room core h = tell_lem text (record core { curr_room = room }) h
tell_switch fault room core h = absurd h
tell_switch exited room core h = absurd h
tell_switch out_of_fuel room core h = absurd h

-- The number of requests that go to the server for an input.
abbrev pub cost : Input → ℕ
cost chat = 0
cost refused = 0
cost (asked list_rooms) = 1
cost (asked (create room)) = 1
cost (asked (list_members room)) = 1
cost (asked (switch_room room)) = 1
cost (asked quit) = 0
cost (asked unrecognized) = 0

module _ (net : Net) (server : ℕ → List ℕ → List ℕ × ℕ) where
  -- What process_response makes of the server's answer to a request, the `n`-th of the client's attempts.
  abbrev answer_text : ℕ → List ℕ → List ℕ → List ℕ
  answer_text n request extra =
      text_of (process_response (server n request).0 (server n request).1 extra)

  -- The two messages for the user of an input of the member `id`: the note of the request, and the
  -- text of the answer to exactly this request.
  abbrev pub messages : ℕ → ℕ → Input → List (List ℕ)
  messages n id chat = []
  messages n id refused = []
  messages n id (asked list_rooms) =
      codes "Sending room list request"
      ∷ answer_text n (prepare_request_with_no_data Protocol.room_list_request id net.reserved) []
      ∷ []
  messages n id (asked (create name)) =
      codes "Sending create room request"
      ∷ answer_text n (prepare_room_request Protocol.create_room_request id name net.reserved) []
      ∷ []
  messages n id (asked (list_members name)) =
      codes "Sending member list request"
      ∷ answer_text n (prepare_room_request Protocol.member_list_request id name net.reserved) name
      ∷ []
  messages n id (asked (switch_room name)) =
      codes "Sending switch room request"
      ∷ answer_text n (prepare_room_request Protocol.switch_room_request id name net.reserved) name
      ∷ []
  messages n id (asked quit) = []
  messages n id (asked unrecognized) = []

  -- The client's room after an input of the member `id`.
  abbrev pub room_after : ℕ → ℕ → Input → List ℕ → List ℕ
  room_after n id chat room = room
  room_after n id refused room = room
  room_after n id (asked list_rooms) room = room
  room_after n id (asked (create name)) room = room
  room_after n id (asked (list_members name)) room = room
  room_after n id (asked (switch_room name)) room =
      if u16_at
          (server n (prepare_room_request Protocol.switch_room_request id name net.reserved)).0 0
        == Protocol.switch_room_succ
      then take max_room_name_len name
      else room
  room_after n id (asked quit) room = room
  room_after n id (asked unrecognized) room = room

  -- What an input does to the core.
  pub record Done (input : Input) (core c : Core) : Type 0 where
    pub tries : c.tries ≡ core.tries + cost input
    pub member_id : c.member_id ≡ core.member_id
    pub room : c.curr_room ≡ room_after core.tries core.member_id input core.curr_room
    pub printed : c.printed ≡ core.printed ++ messages core.tries core.member_id input

  module _ (up : (i : ℕ) (request : List ℕ) → net.attempt i request ≡ some (server i request)) where
    pub send_lem :
        (k : ℕ) (request : List ℕ) (core : Core)
        → send_control_msg (suc k) net request core ≡ ok (server core.tries request, tried core)
    unfolding send_control_msg
    send_lem k request core = rw (up core.tries request, send_control_msg) refl

    module _
        (readable : (i : ℕ) (request extra : List ℕ)
          → Ends Short (process_response (server i request).0 (server i request).1 extra)) where
      exchange_lem :
          (k : ℕ) (request : List ℕ) (read : List ℕ × ℕ → Run (List ℕ)) (core : Core)
          → Ends Short (read (server core.tries request))
          → exchange (suc k) net request read core
            ≡ ok (said (text_of (read (server core.tries request))) (tried core))
      unfolding exchange
      exchange_lem k request read core h =
          rw (send_lem k request core) (tell_all (read (server core.tries request)) (tried core) h)

      two_messages :
          (printed : List (List ℕ)) (first text : List ℕ)
          → (printed ++ (first ∷ [])) ++ (text ∷ []) ≡ printed ++ (first ∷ text ∷ [])
      two_messages printed first text = append_assoc printed (first ∷ []) (text ∷ [])

      pub carry_out-Done :
          (k : ℕ) (request : Request) (core : Core)
          → Ends (Done (asked request) core) (carry_out (suc k) net request core)
      unfolding carry_out cli_core_room_list_request cli_core_member_list_request
          cli_core_switch_room_request cli_core_create_room_request send_room_list_request
          send_member_list_request send_create_room_request send_switch_room_request
      carry_out-Done k list_rooms core =
          rw
            (
              tell_lem (codes "Sending room list request") core (omega arith),
              exchange_lem k _ _ (said (codes "Sending room list request") core)
                  (readable core.tries _ []),
            )
            (record {
              tries = refl;
              member_id = refl;
              room = refl;
              printed = two_messages core.printed _ _;
            })
      carry_out-Done k (create room) core =
          rw
            (
              tell_lem (codes "Sending create room request") core (omega arith),
              exchange_lem k _ _ (said (codes "Sending create room request") core)
                  (readable core.tries _ []),
            )
            (record {
              tries = refl;
              member_id = refl;
              room = refl;
              printed = two_messages core.printed _ _;
            })
      carry_out-Done k (list_members room) core =
          rw
            (
              tell_lem (codes "Sending member list request") core (omega arith),
              exchange_lem k _ _ (said (codes "Sending member list request") core)
                  (readable core.tries _ room),
            )
            (record {
              tries = refl;
              member_id = refl;
              room = refl;
              printed = two_messages core.printed _ _;
            })
      carry_out-Done k (switch_room room) core =
          let first = codes "Sending switch room request" in
          let request =
            prepare_room_request Protocol.switch_room_request core.member_id room net.reserved in
          let new =
            room_after core.tries core.member_id (asked (switch_room room)) core.curr_room in
          rw
            (
              tell_lem first core (omega arith),
              send_lem k request (said first core),
              tell_switch
                  (process_response (server core.tries request).0 (server core.tries request).1
                    room)
                  new (tried (said first core)) (readable core.tries request room),
            )
            (record {
              tries = refl;
              member_id = refl;
              room = refl;
              printed = two_messages core.printed _ _;
            })
      carry_out-Done k quit core = record {
        tries = omega arith;
        member_id = refl;
        room = refl;
        printed = sym (append-nil core.printed);
      }
      carry_out-Done k unrecognized core = record {
        tries = omega arith;
        member_id = refl;
        room = refl;
        printed = sym (append-nil core.printed);
      }
