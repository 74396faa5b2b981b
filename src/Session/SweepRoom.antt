-- ===== src/Session/SweepRoom.antt =====
-- The body of the sweep's room loop.
use csc469_a.Base.{
  ◌-◌, ◌≡◌, ◌≢◌, refl, sym, ap, ◌∙◌, subst, true, false, List, [], ◌∷◌, inl, inr, arith, ◌==◌,
  if◌then◌else◌, update, has, erase, length, last_or, Distinct-erase, length-erase, of_has-erase,
  to_has-erase, eq_cases, Bool-cases, ne_of_test, Ends, Ends-mono,
}
use csc469_a.Chain.{Ptr, null}
use csc469_a.Search.{Walk-live, Walk}
use csc469_a.Server.{Server}
use csc469_a.Server.Rooms.{remove_room, free_room}
use csc469_a.Server.Sweep.{sweep_room, drop_room, drop_tail}
use csc469_a.Session.{Inv}
use csc469_a.Session.RoomList.{Walk-frame}
use csc469_a.Session.Rules.{Ends-seq}
use csc469_a.Session.Drop.{RoomRemoved, remove_room-RoomRemoved}

nothing_in : (l : List Ptr) → length l ≡ 0 → l ≡ []
nothing_in [] e = refl
nothing_in (x ∷ xs) e = absurd (omega arith)

-- The state after `rt` is removed, uncounted and freed.
abbrev dropped_state : Server → Ptr → Server → Server
dropped_state s rt t = record t {
  total_num_of_rooms = s.total_num_of_rooms - 1;
  room_live = update t.room_live rt false;
}

-- `t` has the fields of `s`, but for the links, the number and the life of the rooms.
abbrev pub unlisted : Server → Ptr → Server → Server
unlisted s rt t = record s {
  next_room = t.next_room;
  room_list_head = t.room_list_head;
  room_list_tail = t.room_list_tail;
  total_num_of_rooms = t.total_num_of_rooms;
  room_live = update s.room_live rt false;
}

-- What the body of the sweep's room loop leaves.
pub record RoomSwept (s : Server) (ms rs : List Ptr) (roster : Ptr → List Ptr) (rt : Ptr)
    (t : Server) : Type 0 where
  pub occupied : roster rt ≢ [] → t ≡ s
  pub emptied :
      roster rt ≡ [] → s.empty_flag rt ≡ 0 → t ≡ record s { empty_flag = update s.empty_flag rt 1 }
  pub dropped :
      roster rt ≡ []
      → s.empty_flag rt ≢ 0
      → Inv t ms (erase rt rs) roster
        × (t.room_name ≡ s.room_name)
        × (t.room_live ≡ update s.room_live rt false)
        × (t.room_list_tail ≡ (if rt == last_or null rs then null else s.room_list_tail))
        × (t ≡ unlisted s rt t)

module _ (s : Server) (ms rs : List Ptr) (roster : Ptr → List Ptr) (rt : Ptr)
    (v : Inv s ms rs roster) (hr : has rt rs ≡ true) where
  -- The invariant once the room is gone, from the shape of what remove_room leaves.
  dropped-Inv :
      (next : Ptr → Ptr) (head tail : Ptr)
      → Walk s.room_live next null head (erase rt rs)
      → roster rt ≡ []
      → Inv
          (dropped_state s rt
            (record s { next_room = next; room_list_head = head; room_list_tail = tail }))
          ms
          (erase rt rs)
          roster
  dropped-Inv next head tail w nobody = record {
    members = v.members;
    rooms = record {
      walk =
          Walk-frame s.room_live next null (update s.room_live rt false) next head (erase rt rs) w
            (λ a h. (refl, rw (of_has-erase a rt rs v.rooms.distinct h).1));
      distinct = Distinct-erase rt rs v.rooms.distinct;
      counted = omega (arith, v.rooms.counted, length-erase rt rs hr);
      bounded = omega (arith, v.rooms.bounded, length-erase rt rs hr);
      null_dead = ground (arith, v.rooms.null_dead);
    };
    rosters = record {
      chain = λ r h. v.rosters.chain r (kept r h);
      distinct = λ r h. v.rosters.distinct r (kept r h);
      counted = λ r h. v.rosters.counted r (kept r h);
      bounded = λ r h. v.rosters.bounded r (kept r h);
      home = λ r m h hm. v.rosters.home r m (kept r h) hm;
      housed = λ m hm n.
          let (there, inside) = v.rosters.housed m hm n in
          (to_has-erase (s.current_room m) rt rs v.rooms.distinct there (other m inside), inside);
    };
  }
    where
      kept : (r : Ptr) → has r (erase rt rs) ≡ true → has r rs ≡ true
      kept r h = (of_has-erase r rt rs v.rooms.distinct h).0

      other :
          (m : Ptr) → has m (roster (s.current_room m)) ≡ true → (s.current_room m == rt) ≡ false
      other m inside = elim (eq_cases (s.current_room m) rt) [
        | inl e ↦
            let at_rt : has m (roster rt) ≡ true = rw e at inside in
            let at_nil : has m [] ≡ true = rw nobody at at_rt in cc
        | inr n ↦ n
      ]

  counted_rt : s.num_of_members rt ≡ length (roster rt)
  counted_rt = v.rosters.counted rt hr

  pub empty_roster : (s.num_of_members rt == 0) ≡ true → roster rt ≡ []
  empty_roster e = nothing_in (roster rt) (ground (arith, counted_rt))

  pub some_roster : (s.num_of_members rt == 0) ≡ false → roster rt ≢ []
  some_roster e nobody = ne_of_test _ _ e (counted_rt ∙ ap length nobody)

  -- The room is gone, and the other fields that create_room reads are known.
  abbrev pub Dropped : Server → Type 0
  Dropped t =
      Inv t ms (erase rt rs) roster
      × (t.room_name ≡ s.room_name)
      × (t.room_live ≡ update s.room_live rt false)
      × (t.room_list_tail ≡ (if rt == last_or null rs then null else s.room_list_tail))
      × (t ≡ unlisted s rt t)

  -- What follows remove_room in drop_room.
  uncount-Ends :
      roster rt ≡ []
      → (t : Server) → RoomRemoved s rs rt t
      → Ends (λ a. Dropped a.1) ((drop_tail rt) t)
  unfolding drop_tail free_room
  uncount-Ends nobody t r =
      subst (λ u. Ends (λ a. Dropped a.1) (drop_tail rt u)) (sym r.rest)
        (rw (some_room, live)
          (
            dropped-Inv t.next_room t.room_list_head t.room_list_tail r.walk nobody,
            refl,
            refl,
            r.tail,
            refl,
          ))
    where
      some_room : (s.total_num_of_rooms == 0) ≡ false
      some_room = ground (arith, v.rooms.counted, length-erase rt rs hr)

      live : s.room_live rt ≡ true
      live = (Walk-live s.room_live s.next_room null s.room_list_head rs rt v.rooms.walk hr).0

  pub drop-Ends : roster rt ≡ [] → Ends (λ a. Dropped a.1) (drop_room rt s)
  unfolding drop_room
  drop-Ends nobody =
      Ends-seq (λ a. Dropped a.1) (remove_room rt) (drop_tail rt) s
        (Ends-mono (λ a. RoomRemoved s rs rt a.1) (λ a. Ends (λ b. Dropped b.1) (drop_tail rt a.1))
          (remove_room rt s) (λ a r. uncount-Ends nobody a.1 r)
          (remove_room-RoomRemoved s rt rs v.rooms hr))

  -- The sweep leaves a room with members alone, marks a room that it finds empty for the first time,
  -- and takes out and frees a room that it finds empty again, all without a fault. It sets the tail
  -- to NULL if that room is the last one.
  pub sweep_room-RoomSwept : Ends (λ a. RoomSwept s ms rs roster rt a.1) (sweep_room rt s)
  unfolding sweep_room
  sweep_room-RoomSwept = elim (Bool-cases (s.num_of_members rt == 0)) [
    | inl empty ↦ elim (Bool-cases (s.empty_flag rt == 0)) [
      | inl fresh ↦
          rw (empty, fresh)
            (record {
              occupied = λ n. absurd (n (empty_roster empty));
              emptied = λ _ z. rw z;
              dropped = λ _ n. absurd (n (ground arith));
            })
      | inr again ↦
          rw (empty, again)
            (Ends-mono (λ a. Dropped a.1) _ (drop_room rt s)
              (λ a d. record {
                occupied = λ n. absurd (n (empty_roster empty));
                emptied = λ _ z. absurd (ne_of_test _ _ again z);
                dropped = λ _ _. d;
              })
              (drop-Ends (empty_roster empty)))
    ]
    | inr some_member ↦ rw some_member (record {
      occupied = λ _. refl;
      emptied = λ e. absurd (some_roster some_member e);
      dropped = λ e. absurd (some_roster some_member e);
    })
  ]
