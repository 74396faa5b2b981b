-- ===== src/Session/Create.antt =====
-- create_room on every branch, in a state whose room list has a correct tail.
use csc469_a.Base.{
  ℕ, ◌<◌, ◌≡◌, ◌≢◌, refl, sym, ◌∙◌, true, false, List, [], ◌∷◌, ◌++◌, inl, inr, arith, ◌==◌, ltb,
  update, has, length, has-last_or, subst, Bool-cases, ne_of_test, fault, Ends,
}
use csc469_a.Protocol.{max_room_name_len, max_num_of_rooms}
use csc469_a.Chain.{Ptr, null}
use csc469_a.Search.{Walk-live, Walk-cases}
use csc469_a.Server.{Server}
use csc469_a.Server.Rooms.{create_room, new_room, insert_room, add_room, link_room, count_room}
use csc469_a.Session.{TailIsLast, Inv}
use csc469_a.Session.Find.{find_room_lem, room_named}
use csc469_a.Session.Added.{allocated, linked, rosters_with, allocated-Inv, linked-Inv, same_rooms}

-- What create_room returns and leaves, in the order of its tests.
pub record Created (s : Server) (ms rs : List Ptr) (roster : Ptr → List Ptr) (fresh : Ptr)
    (name : List ℕ) (code : ℕ) (t : Server) : Type 0 where
  pub kept : (t.member_live ≡ s.member_live) × (t.member_id ≡ s.member_id)
  pub too_long : max_room_name_len < length name → (code ≡ 1) × (t ≡ s)
  -- on the two other failures the object stays allocated
  pub too_many :
      length name < max_room_name_len
      → length rs ≡ max_num_of_rooms
      → (code ≡ 2) × (t ≡ allocated s fresh name)
  pub exists :
      length name < max_room_name_len
      → length rs ≢ max_num_of_rooms
      → room_named s name rs ≢ null
      → (code ≡ 3) × (t ≡ allocated s fresh name)
  pub created :
      length name < max_room_name_len
      → length rs ≢ max_num_of_rooms
      → room_named s name rs ≡ null
      → (code ≡ 0)
        × (t ≡ linked s fresh name)
        × Inv t ms (rs ++ (fresh ∷ [])) (rosters_with fresh roster)
        × TailIsLast t (rs ++ (fresh ∷ []))

module _ (s : Server) (ms rs : List Ptr) (roster : Ptr → List Ptr) (fresh : Ptr) (name : List ℕ)
    (v : Inv s ms rs roster) (ne : fresh ≢ null) (unused : s.room_live fresh ≡ false) where
  abbrev t : Server
  t = allocated s fresh name

  alloc : Inv t ms rs roster
  alloc = allocated-Inv s ms rs roster fresh name v ne unused

  named : room_named t name rs ≡ room_named s name rs
  named = same_rooms s ms rs roster fresh name v ne unused

  linked-kept :
      ((linked s fresh name).member_live ≡ s.member_live)
      × ((linked s fresh name).member_id ≡ s.member_id)
  linked-kept = elim (Bool-cases (s.room_list_head == null)) [
    | inl h ↦ rw h (refl, refl)
    | inr h ↦ rw h (refl, refl)
  ]

  Created-linked :
      TailIsLast s rs
      → length name < max_room_name_len
      → length rs ≢ max_num_of_rooms
      → room_named s name rs ≡ null
      → Created s ms rs roster fresh name 0 (linked s fresh name)
  Created-linked at short room new =
      let (w, last) =
        linked-Inv s ms rs roster fresh name v ne unused at (omega (arith, v.rooms.bounded)) in
      record {
        kept = linked-kept;
        too_long = λ h. absurd (omega arith);
        too_many = λ _ h. absurd (room h);
        exists = λ _ _ n. absurd (n new);
        created = λ _ _ _. (refl, refl, w, last);
      }

  -- The last room is allocated.
  tail_live : TailIsLast s rs → rs ≢ [] → update s.room_live fresh true s.room_list_tail ≡ true
  tail_live at some_room =
      (Walk-live (update s.room_live fresh true) (update s.next_room fresh null) null
        s.room_list_head rs s.room_list_tail alloc.rooms.walk
        (subst (λ q. has q rs ≡ true) (sym at) (has-last_or null rs some_room))).0

  add_room_lem :
      TailIsLast s rs
      → length name < max_room_name_len
      → length rs ≢ max_num_of_rooms
      → (s.room_list_head == null) ≡ false
      → rs ≢ []
      → Ends
          (λ a. Created s ms rs roster fresh name a.0 a.1)
          (add_room fresh name (allocated s fresh name))
  unfolding add_room link_room count_room
  add_room_lem at short room h some_room = elim (Bool-cases (room_named s name rs == null)) [
    | inl new ↦
        rw (find_room_lem t rs name alloc.rooms, named, new, tail_live at some_room)
          (subst (Created s ms rs roster fresh name 0) (sym (rw h))
            (Created-linked at short room (ground arith)))
    | inr taken ↦
        rw (find_room_lem t rs name alloc.rooms, named, taken)
          (record {
            kept = (refl, refl);
            too_long = λ f. absurd (omega arith);
            too_many = λ _ f. absurd (room f);
            exists = λ _ _ _. (refl, refl);
            created = λ _ _ f. absurd (ne_of_test _ _ taken f);
          })
  ]

  insert_room_lem :
      TailIsLast s rs
      → length name < max_room_name_len
      → Ends
          (λ a. Created s ms rs roster fresh name a.0 a.1)
          (insert_room fresh name (allocated s fresh name))
  unfolding insert_room count_room
  insert_room_lem at short = elim (Bool-cases (s.total_num_of_rooms == max_num_of_rooms)) [
    | inl full ↦ rw full (record {
      kept = (refl, refl);
      too_long = λ h. absurd (omega arith);
      too_many = λ _ _. (refl, refl);
      exists = λ _ n. absurd (n (ground (arith, v.rooms.counted)));
      created = λ _ n. absurd (n (ground (arith, v.rooms.counted)));
    })
    | inr room ↦ elim (Walk-cases s.room_live s.next_room null s.room_list_head rs v.rooms.walk) [
      | inl (none_yet, h) ↦
          rw (room, h)
            (subst (Created s ms rs roster fresh name 0) (sym (rw h)) (
              Created-linked at short (λ e. ne_of_test _ _ room (v.rooms.counted ∙ e))
                (rw none_yet)))
      | inr (some_room, h) ↦
          rw (room, h)
            (add_room_lem at short (λ e. ne_of_test _ _ room (v.rooms.counted ∙ e)) h some_room)
    ]
  ]

  -- create_room, given an unused object from malloc and a name that does not have exactly 24 bytes,
  -- ends without a fault on a list with a correct tail: a longer name, a full table and a name in
  -- use are refused with the codes 1, 2 and 3 and leave the lists as they were; otherwise the room
  -- is added behind the others, with no members, and the invariant and the tail are kept.
  pub create_room-Created :
      TailIsLast s rs
      → length name ≢ max_room_name_len
      → Ends (λ a. Created s ms rs roster fresh name a.0 a.1) (create_room fresh name s)
  unfolding create_room new_room
  create_room-Created at fits = elim (Bool-cases (ltb max_room_name_len (length name))) [
    | inl long ↦ rw long (record {
      kept = (refl, refl);
      too_long = λ _. (refl, refl);
      too_many = λ h. absurd (ground arith);
      exists = λ h. absurd (ground arith);
      created = λ h. absurd (ground arith);
    })
    | inr ok_length ↦
        let short : length name < max_room_name_len = ground arith in
        let room_for_zero : ltb (length name) max_room_name_len ≡ true = ground arith in
        let got : (fresh == null) ≡ false = ground arith in
        rw (ok_length, got, room_for_zero) (insert_room_lem at short)
  ]

-- A name of exactly 24 bytes passes the length check of create_room, which then, if malloc gives an
-- object, faults: the copy overruns the array `room_name` by its zero.
pub create_room_overflow :
    (s : Server) (fresh : Ptr) (name : List ℕ)
    → fresh ≢ null
    → length name ≡ max_room_name_len
    → create_room fresh name s ≡ fault
unfolding create_room new_room
create_room_overflow s fresh name ne full =
    let got : (fresh == null) ≡ false = ground arith in
    let passes : ltb max_room_name_len (length name) ≡ false = ground arith in
    let too_small : ltb (length name) max_room_name_len ≡ false = ground arith in
    rw (passes, got, too_small)
