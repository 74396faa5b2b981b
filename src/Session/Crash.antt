-- ===== src/Session/Crash.antt =====
-- The sweep and create_room together, on a list that lost its last room.
use csc469_a.Base.{
  ℕ, ◌≡◌, ◌≢◌, ◌<◌, ◌∙◌, refl, ap, true, false, List, [], ◌∷◌, arith, ◌==◌, ltb, update, has, erase,
  length, last_or, eq_self, of_has-erase, length-erase, same, fault, Ends-mono, inl, inr,
}
use csc469_a.Protocol.{max_room_name_len, max_num_of_rooms}
use csc469_a.Chain.{Ptr, null}
use csc469_a.Search.{Walk-cases}
use csc469_a.Server.{Server, ◌>>◌}
use csc469_a.Server.Rooms.{create_room, new_room, insert_room, add_room, link_room}
use csc469_a.Server.Sweep.{sweep_room}
use csc469_a.Session.{Inv}
use csc469_a.Session.Added.{allocated, allocated-Inv, same_rooms, null_old}
use csc469_a.Session.SweepRoom.{RoomSwept, sweep_room-RoomSwept}
use csc469_a.Session.Find.{room_named, find_room_lem}
use csc469_a.Session.Rules.{Ends-fault}

-- No room of the list has the name.
abbrev pub Unnamed : Server → List ℕ → List Ptr → Type 0
Unnamed s name rs = (r : Ptr) → has r rs ≡ true → same name (s.room_name r) ≡ false

none_named :
    (s : Server) (name : List ℕ) (rs : List Ptr) → Unnamed s name rs → room_named s name rs ≡ null
none_named s name [] u = refl
none_named s name (x ∷ xs) u =
    let here : same name (s.room_name x) ≡ false = u x (ground arith) in
    rw (here, none_named s name xs (λ r h. u r (ground (arith, h))))

module _ (s : Server) (ms rs : List Ptr) (roster : Ptr → List Ptr) (fresh : Ptr) (name : List ℕ)
    (v : Inv s ms rs roster) (ne : fresh ≢ null) (unused : s.room_live fresh ≡ false)
    (short : length name < max_room_name_len) (u : Unnamed s name rs) where
  -- create_room writes through a tail that is NULL.
  create_faults :
      rs ≢ []
      → length rs < max_num_of_rooms
      → s.room_list_tail ≡ null
      → create_room fresh name s ≡ fault
  unfolding create_room new_room insert_room add_room link_room
  create_faults some_room few lost = rw (
    fits,
    got,
    room_for_zero,
    room,
    head,
    find_room_lem (allocated s fresh name) rs name alloc.rooms,
    new,
    dead,
  )
    where
      alloc : Inv (allocated s fresh name) ms rs roster
      alloc = allocated-Inv s ms rs roster fresh name v ne unused

      fits : ltb max_room_name_len (length name) ≡ false
      fits = ground arith

      got : (fresh == null) ≡ false
      got = ground arith

      room_for_zero : ltb (length name) max_room_name_len ≡ true
      room_for_zero = ground arith

      room : (s.total_num_of_rooms == max_num_of_rooms) ≡ false
      room = ground (arith, v.rooms.counted)

      head : (s.room_list_head == null) ≡ false
      head = elim (Walk-cases s.room_live s.next_room null s.room_list_head rs v.rooms.walk) [
        | inl (none_yet, h) ↦ absurd (some_room none_yet)
        | inr (there, h) ↦ h
      ]

      new : (room_named (allocated s fresh name) name rs == null) ≡ true
      new =
          ap (λ p. p == null)
            (same_rooms s ms rs roster fresh name v ne unused ∙ none_named s name rs u)

      dead : update s.room_live fresh true s.room_list_tail ≡ false
      dead =
          ap (update s.room_live fresh true) lost
          ∙ rw (null_old s ms rs roster fresh name v ne unused) v.rooms.null_dead

module _ (s : Server) (ms rs : List Ptr) (roster : Ptr → List Ptr) (rt fresh : Ptr)
    (name : List ℕ) where
  -- Once the sweep has dropped the last of several rooms, a room that should be created makes the
  -- server write through NULL: the sweep's step for a room that stands last in the list, that has no
  -- members and is marked as empty, followed by create_room with an unused object and a short name
  -- that no room has, faults, provided that another room stands in the list.
  pub sweep_room-create_room-fault :
      Inv s ms rs roster
      → has rt rs ≡ true
      → roster rt ≡ []
      → s.empty_flag rt ≢ 0
      → rt ≡ last_or null rs
      → 1 < length rs
      → fresh ≢ null
      → s.room_live fresh ≡ false
      → length name < max_room_name_len
      → Unnamed s name rs
      → (sweep_room rt >> create_room fresh name) s ≡ fault
  sweep_room-create_room-fault v hr nobody marked last several ne unused short u =
      Ends-fault (sweep_room rt s) (λ r. create_room fresh name r.1)
        (Ends-mono (λ a. RoomSwept s ms rs roster rt a.1) (λ a. create_room fresh name a.1 ≡ fault)
          (sweep_room rt s) (λ a w. after a.1 w) (sweep_room-RoomSwept s ms rs roster rt v hr))
    where
      after : (t : Server) → RoomSwept s ms rs roster rt t → create_room fresh name t ≡ fault
      after t w =
          let (inv, names, live, tail, rest) = w.dropped nobody marked in
          create_faults t ms (erase rt rs) roster fresh name inv ne
            (ap (λ f. f fresh) live ∙ rw unused (ground arith)) short
            (λ r h.
              ap (λ f. same name (f r)) names ∙ u r (of_has-erase r rt rs v.rooms.distinct h).0)
            (λ e. omega (arith, length-erase rt rs hr, ap length e))
            (omega (arith, length-erase rt rs hr, v.rooms.bounded))
            (tail ∙ rw (last, eq_self (last_or null rs)))
