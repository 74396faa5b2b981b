-- ===== src/Session/Added.antt =====
-- The states in which create_room leaves a new room object: allocated, and linked behind the others.
use csc469_a.Base.{
  ℕ, ◌+◌, ◌<◌, ◌≡◌, ◌≢◌, refl, sym, true, false, List, [], ◌∷◌, ◌++◌, inl, inr, arith, ◌==◌,
  if◌then◌else◌, update, has, length, has-append, length-append, Distinct-snoc, last_or-snoc,
  eq_cases, eq_self, Bool-cases, ne_of_has, same,
}
use csc469_a.Protocol.{max_num_of_rooms}
use csc469_a.Chain.{Ptr, null}
use csc469_a.Search.{Walk-live, Walk, first_cong}
use csc469_a.Server.{Server}
use csc469_a.Session.{IsRoomList, Rosters, TailIsLast, Inv}
use csc469_a.Session.RoomList.{Walk-frame, linked-Walk}
use csc469_a.Session.Find.{room_named}

-- The state once the object at `fresh` is allocated and holds the name.
abbrev pub allocated : Server → Ptr → List ℕ → Server
allocated s fresh name = record s {
  room_live = update s.room_live fresh true;
  room_name = update s.room_name fresh name;
  next_room = update s.next_room fresh null;
  num_of_members = update s.num_of_members fresh 0;
  empty_flag = update s.empty_flag fresh 0;
  member_list_head = update s.member_list_head fresh null;
  member_list_tail = update s.member_list_tail fresh null;
}

-- The state once the room is behind the others and counted.
abbrev pub linked : Server → Ptr → List ℕ → Server
linked s fresh name =
    let t = allocated s fresh name in
    if s.room_list_head == null
    then record t {
      room_list_head = fresh;
      room_list_tail = fresh;
      total_num_of_rooms = s.total_num_of_rooms + 1;
    }
    else record t {
      next_room = update t.next_room s.room_list_tail fresh;
      room_list_tail = fresh;
      total_num_of_rooms = s.total_num_of_rooms + 1;
    }

-- The rosters with an empty one for a new room.
abbrev pub rosters_with : Ptr → (Ptr → List Ptr) → Ptr → List Ptr
rosters_with fresh roster = update roster fresh []

module _ (s : Server) (ms rs : List Ptr) (roster : Ptr → List Ptr) (fresh : Ptr) (name : List ℕ)
    (v : Inv s ms rs roster) (ne : fresh ≢ null) (unused : s.room_live fresh ≡ false) where
  abbrev t : Server
  t = allocated s fresh name

  not_listed : has fresh rs ≡ false
  not_listed = elim (Bool-cases (has fresh rs)) [
    | inl there ↦ cc (
      unused,
      (Walk-live s.room_live s.next_room null s.room_list_head rs fresh v.rooms.walk there).0,
    )
    | inr gone ↦ gone
  ]

  pub old : (r : Ptr) → has r rs ≡ true → (r == fresh) ≡ false
  old r h = ground (arith, ne_of_has fresh r rs not_listed h)

  pub null_old : (null == fresh) ≡ false
  null_old = ground arith

  allocated-Walk :
      Walk (update s.room_live fresh true) (update s.next_room fresh null) null s.room_list_head rs
  allocated-Walk =
      Walk-frame s.room_live s.next_room null (update s.room_live fresh true)
        (update s.next_room fresh null) s.room_list_head rs v.rooms.walk
        (λ a h. (rw (old a h), rw (old a h)))

  -- An object that is allocated and not linked is not part of any list.
  pub allocated-Inv : Inv (allocated s fresh name) ms rs roster
  allocated-Inv = record {
    members = v.members;
    rooms = record {
      walk = allocated-Walk;
      distinct = v.rooms.distinct;
      counted = v.rooms.counted;
      bounded = v.rooms.bounded;
      null_dead = rw null_old v.rooms.null_dead;
    };
    rosters = record {
      chain = λ r h. rw (old r h) (v.rosters.chain r h);
      distinct = v.rosters.distinct;
      counted = λ r h. rw (old r h) (v.rosters.counted r h);
      bounded = v.rosters.bounded;
      home = v.rosters.home;
      housed = v.rosters.housed;
    };
  }

  linked-Rosters :
      Rosters (allocated s fresh name) ms (rs ++ (fresh ∷ [])) (rosters_with fresh roster)
  linked-Rosters = record {
    chain = λ r h. elim (eq_cases r fresh) [
      | inl e ↦ rw (e, eq_self fresh) (refl, refl)
      | inr n ↦ rw n (v.rosters.chain r (listed r n h))
    ];
    distinct = λ r h. elim (eq_cases r fresh) [
      | inl e ↦ rw (e, eq_self fresh) tt
      | inr n ↦ rw n (v.rosters.distinct r (listed r n h))
    ];
    counted = λ r h. elim (eq_cases r fresh) [
      | inl e ↦ rw (e, eq_self fresh)
      | inr n ↦ rw n (v.rosters.counted r (listed r n h))
    ];
    bounded = λ r h. elim (eq_cases r fresh) [
      | inl e ↦ rw (e, eq_self fresh) (omega arith)
      | inr n ↦ rw n (v.rosters.bounded r (listed r n h))
    ];
    home = λ r m h hm. elim (eq_cases r fresh) [
      | inl e ↦ absurd (nobody m (rw (e, eq_self fresh) at hm))
      | inr n ↦ v.rosters.home r m (listed r n h) (rw n at hm)
    ];
    housed = λ m hm n.
        let (there, inside) = v.rosters.housed m hm n in
        (
          ground (arith, has-append (s.current_room m) rs (fresh ∷ []), there),
          rw (old (s.current_room m) there) inside,
        );
  }
    where
      listed :
          (r : Ptr) → (r == fresh) ≡ false → has r (rs ++ (fresh ∷ [])) ≡ true → has r rs ≡ true
      listed r n h = ground (arith, has-append r rs (fresh ∷ []))

      nobody : (m : Ptr) → has m [] ≢ true
      nobody m e = cc

  pub linked-Inv :
      TailIsLast s rs
      → length rs < max_num_of_rooms
      → Inv (linked s fresh name) ms (rs ++ (fresh ∷ [])) (rosters_with fresh roster)
        × TailIsLast (linked s fresh name) (rs ++ (fresh ∷ []))
  linked-Inv at small = elim (Bool-cases (s.room_list_head == null)) [
    | inl h ↦ rw h (
      record { members = v.members; rooms = rooms_of (rw h at walk); rosters = linked-Rosters },
      sym (last_or-snoc null fresh rs),
    )
    | inr h ↦ rw h (
      record { members = v.members; rooms = rooms_of (rw h at walk); rosters = linked-Rosters },
      sym (last_or-snoc null fresh rs),
    )
  ]
    where
      walk :
          Walk t.room_live
            (if s.room_list_head == null
              then t.next_room
              else update t.next_room s.room_list_tail fresh)
            null
            (if s.room_list_head == null then fresh else s.room_list_head)
            (rs ++ (fresh ∷ []))
      walk =
          linked-Walk t.room_live t.next_room s.room_list_head s.room_list_tail fresh rs
            allocated-Walk v.rooms.distinct at not_listed (rw (eq_self fresh)) ne
            (rw (eq_self fresh))

      rooms_of :
          {next : Ptr → Ptr} {head : Ptr}
          → Walk t.room_live next null head (rs ++ (fresh ∷ []))
          → IsRoomList t.room_live next head (s.total_num_of_rooms + 1) (rs ++ (fresh ∷ []))
      rooms_of w = record {
        walk = w;
        distinct = Distinct-snoc fresh rs v.rooms.distinct not_listed;
        counted = omega (arith, v.rooms.counted, length-append rs (fresh ∷ []));
        bounded = omega (arith, small, length-append rs (fresh ∷ []));
        null_dead = rw null_old v.rooms.null_dead;
      }

  pub same_rooms : room_named (allocated s fresh name) name rs ≡ room_named s name rs
  same_rooms =
      first_cong (λ p. same name (t.room_name p)) (λ p. same name (s.room_name p)) null rs
        (λ a h. rw (old a h))
