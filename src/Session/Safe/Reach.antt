-- ===== src/Session/Safe/Reach.antt =====
-- The server's states from its start on, one event after another.
use csc469_a.Base.{
  ℕ, ◌≡◌, ◌≢◌, refl, subst, false, Option, none, some, List, [], length, arith, ok, Ends, Ends-mono,
}
use csc469_a.Protocol.{max_room_name_len}
use csc469_a.Chain.{Ptr, null}
use csc469_a.Server.{Server, Step, UdpAddr, init_lists, return, ◌>>=◌}
use csc469_a.Server.Rooms.{create_room}
use csc469_a.Server.Control.{Env, process_control_msg}
use csc469_a.Server.Chat.{process_chat_msg}
use csc469_a.Server.Sweep.{sweep}
use csc469_a.Session.{Members}
use csc469_a.Session.Broadcast.{sender, Room}
use csc469_a.Session.Rules.{Ends-bind}
use csc469_a.Session.Safe.{Sound}
use csc469_a.Session.Safe.Creation.{Grown, Grown-Sound, create_room-Grown}
use csc469_a.Session.Safe.Arrivals.{chat-Sound}
use csc469_a.Session.Safe.Sweeps.{sweep-Sound}
use csc469_a.Session.Safe.Control.{Served, control-Sound}

-- What makes the server work: a room of the room file, a control message, a chat message, or a
-- timeout of select.
pub data Event : Type 0 where
  room_line : (fresh : Ptr) (name : List ℕ) → Event
  control : (fd : ℕ) (env : Env) (received : Option (List ℕ)) → Event
  chat : (sendto : UdpAddr → List ℕ → Option ℕ) (received : Option (List ℕ)) → Event
  timeout : Event

abbrev pub run : Event → Step (Unit {0})
run (room_line fresh name) = create_room fresh name >>= λ code. return tt
run (control fd env received) = process_control_msg fd env received
run (chat sendto received) = process_chat_msg sendto received
run timeout = sweep

-- What the server relies on. For a timeout: the last room was not marked as empty.
abbrev pub Allowed : Event → Server → Type 0
Allowed (room_line fresh name) s =
    (fresh ≢ null) × (s.room_live fresh ≡ false) × (length name ≢ max_room_name_len)
Allowed (control fd env none) s = Unit {0}
Allowed (control fd env (some packet)) s = Served s env packet
Allowed (chat sendto none) s = Unit {0}
Allowed (chat sendto (some buf)) s =
    ((addr : UdpAddr) (msg : List ℕ) → sendto addr msg ≡ some (length msg))
    × ((ms : List Ptr)
        → Members s ms
        → sender s ms buf ≢ null
        → Room s (sender s ms buf) (length buf))
Allowed timeout s = s.room_list_head ≢ null → s.empty_flag s.room_list_tail ≡ 0

pub data Reachable : Server → Type 0 where
  start : (s : Server) → s.room_live null ≡ false → Reachable (init_lists s)
  step : {s t : Server} (e : Event) → Reachable s → Allowed e s → run e s ≡ ok (tt, t) → Reachable t

pub start-Sound : (s : Server) → s.room_live null ≡ false → Sound (init_lists s)
unfolding init_lists
start-Sound s dead = (
  [],
  [],
  λ r. [],
  record {
    inv = record {
      members = record {
        chain = (refl, refl);
        distinct = tt;
        counted = refl;
        bounded = omega arith;
      };
      rooms = record {
        walk = refl;
        distinct = tt;
        counted = refl;
        bounded = omega arith;
        null_dead = dead;
      };
      rosters = record {
        chain = λ r h. cc;
        distinct = λ r h. tt;
        counted = λ r h. cc;
        bounded = λ r h. omega arith;
        home = λ r m h hm. cc;
        housed = λ m h. cc;
      };
    };
    tail = refl;
    room_names = λ r h. cc;
    member_names = λ r h. cc;
  },
)

run-Sound : (e : Event) (s : Server) → Sound s → Allowed e s → Ends (λ a. Sound a.1) (run e s)
unfolding process_control_msg process_chat_msg
run-Sound (room_line fresh name) s (ms, rs, roster, g) (ne, unused, fits) =
    Ends-bind (λ a. Sound a.1) (create_room fresh name s) (λ r. return tt r.1)
      (Ends-mono (λ a. Grown s ms rs fresh name a.1) (λ a. Sound a.1) (create_room fresh name s)
        (λ a w. Grown-Sound ms rs fresh name a.1 w)
        (create_room-Grown s ms rs roster g fresh name ne unused fits))
run-Sound (control fd env none) s sound allowed = sound
run-Sound (control fd env (some packet)) s (ms, rs, roster, g) ready =
    control-Sound s ms rs roster g fd env packet ready
run-Sound (chat sendto none) s sound allowed = sound
run-Sound (chat sendto (some buf)) s (ms, rs, roster, g) (all, room) =
    chat-Sound s ms rs roster g sendto buf all room
run-Sound timeout s (ms, rs, roster, g) fresh = sweep-Sound s ms rs roster g fresh

-- Every reachable state has the invariant.
pub Reachable-Sound : (s : Server) → Reachable s → Sound s
Reachable-Sound _ (start s dead) = start-Sound s dead
Reachable-Sound _ (step {s} {t} e reached allowed done) =
    subst (Ends (λ a. Sound a.1)) done (run-Sound e s (Reachable-Sound s reached) allowed)
