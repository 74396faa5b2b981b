-- ===== src/Examples/Events.antt =====
-- The results on the sweep and on the server's states, at concrete inputs.
use csc469_a.Base.{ℕ, refl, false, some, List, [], ◌∷◌, arith, Ends}
use csc469_a.Chain.{Ptr, null}
use csc469_a.Server.{Server, init_lists, no_addr}
use csc469_a.Server.Control.{Env}
use csc469_a.Server.Sweep.{sweep}
use csc469_a.Session.Safe.{Sound}
use csc469_a.Session.Safe.Handled.{Handled}
use csc469_a.Session.Safe.Sweeps.{Swept, sweep-Swept}
use csc469_a.Session.Safe.Reach.{start-Sound}
use csc469_a.Base.{true, codes, map}
use csc469_a.Protocol.{has_zero}
use csc469_a.Server.Start.{load_rooms}
use csc469_a.Session.Safe.{Good}
use csc469_a.Session.RoomFile.{Loaded, load_rooms-Loaded, objects_of, file_text, all_words}
use csc469_a.Examples.Messages.{rooms_fit, members_fit}
use csc469_a.Examples.State.{state, members, rooms, roster, state-Inv}

sweep_example : Ends (λ a. Swept state members rooms a.1) (sweep state)
sweep_example = sweep-Swept state members rooms roster state-Inv

-- The server before its start.
abbrev blank : Server
blank = record {
  member_live = λ p. false;
  member_id = λ p. 0;
  member_name = λ p. [];
  quiet_flag = λ p. 0;
  member_udp_addr = λ p. no_addr;
  num_chat_msgs = λ p. 0;
  num_bytes_rcved = λ p. 0;
  next_member = λ p. null;
  prev_member = λ p. null;
  next_room_member = λ p. null;
  prev_room_member = λ p. null;
  current_room = λ p. null;
  room_live = λ p. false;
  room_name = λ p. [];
  next_room = λ p. null;
  num_of_members = λ p. 0;
  empty_flag = λ p. 0;
  member_list_head = λ p. null;
  member_list_tail = λ p. null;
  mem_list_head = 0;
  mem_list_tail = 0;
  room_list_head = 0;
  room_list_tail = 0;
  total_num_of_members = 0;
  total_num_of_rooms = 0;
  sent = [];
}

-- The first client: a register request with port 5000 and the name "dan".
abbrev dan : List ℕ
dan = 0 ∷ 1 ∷ 0 ∷ 0 ∷ 0 ∷ 14 ∷ 0 ∷ 0 ∷ 19 ∷ 136 ∷ 100 ∷ 97 ∷ 110 ∷ 0 ∷ []

abbrev env : Env
env = record { rand_max = 99; draws = 50 ∷ []; fresh = 24; peer = some 77; named = true }

-- The same message, by its effect.
abbrev at_start : Sound (init_lists blank)
at_start = start-Sound blank refl

state-Good : Good state members rooms roster
state-Good = record {
  inv = state-Inv;
  tail = refl;
  room_names = rooms_fit;
  member_names = members_fit;
}

-- A room file of two lines, with a new name and one that is in use.
abbrev file : List (List (Ptr × List ℕ))
file = ((13, codes "golf") ∷ (14, codes "c") ∷ []) ∷ [] ∷ []

room_file_example :
    Ends
      (λ a. Loaded state members rooms (all_words file) [] a.1)
      (load_rooms (map objects_of file) (file_text file) state)
unfolding has_zero
room_file_example =
    load_rooms-Loaded file state members rooms roster state-Good
      (omega arith, refl, refl, (omega arith, refl, refl, tt))
      (
        ((λ e. cc, refl, omega arith, refl, refl), ((λ e. cc, refl, omega arith, refl, refl), tt)),
        omega arith,
        omega arith,
        (tt, omega arith, omega arith, tt),
      )
