-- ===== src/Examples/Talk.antt =====
-- The results on the command line of the client and on the answers that it reads, at concrete inputs.
use csc469_a.Base.{
  none, true, ℕ, take, drop, length, eq_cases, ◌+◌, refl, some, List, [], ◌∷◌, ◌++◌, arith, codes,
  inl, inr,
}
use csc469_a.Protocol
use csc469_a.Server.Requests.{room_item, print_int, print_digits}
use csc469_a.Session.ListTexts.{room_text}
use csc469_a.Examples.State.{state, members, rooms, roster, state-Inv}
use csc469_a.Examples.Messages.{rooms_fit}
use csc469_a.Client.Tcp.Rooms.{NamesPlain, RoomsSeen, process_room_list_request-Seen}
use csc469_a.Client.Tcp.Sizes.{concat, answer, Shown, send_tcp_request-Shown}
use csc469_a.Protocol.{control_msghdr_size, header_bytes, u16_bytes, u16_at, has_zero}
use csc469_a.Client.{carries_text}
use csc469_a.Client.Reconnect.{Net}
use csc469_a.Client.Core.{Interface}
use csc469_a.Client.Core.Conversation.{Conversation}

-- A server that agrees to everything, with an empty text.
abbrev agreeing : List ℕ → List ℕ × ℕ
agreeing request = (header_bytes (u16_at request 0 + 1) 77 8 ++ (0 ∷ []), 8)

abbrev reachable : Net
reachable = record {
  attempt = λ i request. some (agreeing request);
  udp_port = 40000;
  reserved = 0 ∷ 0 ∷ [];
  udp_opens = λ i. true;
  stale = λ i. [];
  locate = λ i. none;
  block = λ size. size;
}

abbrev ann : Interface
ann = record {
  core = record {
    member_name = codes "ann";
    member_id = 700;
    curr_room = codes "c";
    tries = 1;
    sleeps = 0;
    printed = [];
  };
  datagrams = [];
}

-- A chat message, a switch, a line that is no command, a list, the end, and a line behind it.
abbrev lines : List (List ℕ)
lines =
    (codes "hello" ++ (10 ∷ []))
    ∷ (codes "!s golf" ++ (10 ∷ []))
    ∷ (codes "!x" ++ (10 ∷ []))
    ∷ (codes "!r" ++ (10 ∷ []))
    ∷ (codes "!q" ++ (10 ∷ []))
    ∷ codes "late"
    ∷ []

-- A list of one room, in two pieces.
reply_example :
    Shown Protocol.room_list_succ 700 13
      (codes "c (1)")
      ((0 ∷ 5 ∷ 2 ∷ 188 ∷ 0 ∷ 13 ∷ 0 ∷ []) ∷ (0 ∷ codes "c (1)") ∷ [])
      []
      (7 ∷ [])
unfolding header_bytes u16_bytes has_zero carries_text
reply_example =
    send_tcp_request-Shown Protocol.room_list_succ 700 13 (codes "c (1)")
      ((0 ∷ 5 ∷ 2 ∷ 188 ∷ 0 ∷ 13 ∷ 0 ∷ []) ∷ (0 ∷ codes "c (1)") ∷ []) [] (7 ∷ []) (omega arith)
      refl refl tt refl

rooms_plain : NamesPlain state.room_name rooms
unfolding has_zero
rooms_plain r h = elim (eq_cases r 11) [
  | inl e ↦ rw e refl
  | inr n ↦ elim (eq_cases r 12) [ inl e ↦ rw e refl | inr n' ↦ absurd (ground arith) ]
]

-- The list of the rooms of Examples/State.antt for its member 21, in two pieces.
abbrev listed : List ℕ
listed =
    answer Protocol.room_list_succ (state.member_id 21)
      (control_msghdr_size + length (room_text state rooms)) (room_text state rooms)

abbrev pieces : List (List ℕ)
pieces = take 10 listed ∷ drop 10 listed ∷ []

rooms_example : RoomsSeen 7 state rooms 21 (concat pieces) pieces (0 ∷ 0 ∷ []) []
unfolding header_bytes u16_bytes room_item print_int print_digits
rooms_example =
    process_room_list_request-Seen 7 state members rooms roster 21 pieces (0 ∷ 0 ∷ []) [] state-Inv
      refl refl rooms_fit rooms_plain (λ e. cc e) tt refl
