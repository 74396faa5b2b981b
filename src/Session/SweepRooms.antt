-- ===== src/Session/SweepRooms.antt =====
-- The room loop of the sweep, on the list of rooms.
use csc469_a.Base.{
  ℕ, zero, suc, ◌+◌, ◌<◌, ◌≡◌, refl, sym, subst, true, false, List, [], ◌∷◌, ◌++◌, inl, inr, arith,
  ◌==◌, update, has, length, Distinct, eq_self, Bool-cases, Ends, Ends-mono, has-append,
  Distinct-append, append_assoc, ne_of_test,
}
use csc469_a.Chain.{Ptr, null}
use csc469_a.Search.{Walk, Walk-live}
use csc469_a.Server.{Server}
use csc469_a.Server.Sweep.{sweep_rooms, sweep_room}
use csc469_a.Session.{Inv}
use csc469_a.Session.Rules.{Ends-bind}
use csc469_a.Session.SweepRoom.{RoomSwept, sweep_room-RoomSwept, empty_roster, some_roster}
use csc469_a.Session.MemberSteps.{head_or, erase-append}
use csc469_a.Session.RoomSteps.{RoomsSwept, next_room_head, stays_put, is_marked, is_gone}

-- One round of the room loop, given the rounds after it.
module _ (s : Server) (ms done : List Ptr) (x : Ptr) (xs : List Ptr) (roster : Ptr → List Ptr)
    (k : ℕ) (v : Inv s ms (done ++ (x ∷ xs)) roster)
    (later : (done' : List Ptr) (u : Server)
      → Inv u ms (done' ++ xs) roster
      → Ends (λ a. RoomsSwept u ms done' xs roster a.1) (sweep_rooms k (head_or null xs) u)) where
  abbrev Goal : Unit {0} × Server → Type 0
  Goal a = RoomsSwept s ms done (x ∷ xs) roster a.1

  here : has x (done ++ (x ∷ xs)) ≡ true
  here = ground (arith, has-append x done (x ∷ xs))

  parts : Distinct (x ∷ xs) × ((a : Ptr) → has a done ≡ true → has a (x ∷ xs) ≡ false)
  parts = let (a, b, c) = Distinct-append done (x ∷ xs) v.rooms.distinct in (b, c)

  not_done : has x done ≡ false
  not_done = elim (Bool-cases (has x done)) [
    | inl twice ↦ let off = parts.1 x twice in absurd (ground (arith, eq_self x))
    | inr once ↦ once
  ]

  -- The rest of the loop, in a state whose result counts for `s` too.
  continue :
      (done' : List Ptr) (u : Server)
      → Inv u ms (done' ++ xs) roster
      → ((t : Server) → RoomsSwept u ms done' xs roster t → RoomsSwept s ms done (x ∷ xs) roster t)
      → Ends Goal (sweep_rooms k (s.next_room x) u)
  continue done' u w counts_too =
      subst (λ p. Ends Goal (sweep_rooms k p u))
        (sym (next_room_head s.room_live s.next_room s.room_list_head done x xs v.rooms.walk))
        (Ends-mono (λ a. RoomsSwept u ms done' xs roster a.1) Goal
          (sweep_rooms k (head_or null xs) u) (λ a m. counts_too a.1 m) (later done' u w))

  round-Ends : Ends (λ a. Ends Goal (sweep_rooms k (s.next_room x) a.1)) (sweep_room x s)
  round-Ends =
      Ends-mono (λ a. RoomSwept s ms (done ++ (x ∷ xs)) roster x a.1) _ (sweep_room x s)
        (λ a m. after a.1 m) (sweep_room-RoomSwept s ms (done ++ (x ∷ xs)) roster x v here)
    where
      nobody : (s.num_of_members x == 0) ≡ true → roster x ≡ []
      nobody = empty_roster s ms (done ++ (x ∷ xs)) roster x v here

      along :
          (z : Server)
          → Inv z ms (done ++ (x ∷ xs)) roster
          → Inv z ms ((done ++ (x ∷ [])) ++ xs) roster
      along z = subst (λ l. Inv z ms l roster) (sym (append_assoc done (x ∷ []) xs))

      after :
          (t : Server)
          → RoomSwept s ms (done ++ (x ∷ xs)) roster x t
          → Ends Goal (sweep_rooms k (s.next_room x) t)
      after t m = elim (Bool-cases (s.num_of_members x == 0)) [
        | inl none_in ↦ elim (Bool-cases (s.empty_flag x == 0)) [
          | inl fresh ↦
              let flag : s.empty_flag x ≡ 0 = ground arith in
              subst (λ z. Ends Goal (sweep_rooms k (s.next_room x) z))
                (sym (m.emptied (nobody none_in) flag))
                (continue (done ++ (x ∷ [])) (record s { empty_flag = update s.empty_flag x 1 })
                  (along (record s { empty_flag = update s.empty_flag x 1 })
                    (record { members = v.members; rooms = v.rooms; rosters = v.rosters }))
                  (λ u r.
                    is_marked s ms done x xs roster parts.0.0 u (rw (none_in, fresh) refl) none_in
                      fresh r))
          | inr again ↦
              let (w, names, live, end, rest) = m.dropped (nobody none_in) (ne_of_test _ _ again) in
              continue done t (subst (λ l. Inv t ms l roster) (erase-append x done xs not_done) w)
                (λ u r.
                  is_gone s ms done x xs roster parts.0.0 u (rw (none_in, again) refl) t rest end r)
        ]
        | inr some_in ↦
            subst (λ z. Ends Goal (sweep_rooms k (s.next_room x) z))
              (sym (m.occupied (some_roster s ms (done ++ (x ∷ xs)) roster x v here some_in)))
              (continue (done ++ (x ∷ [])) s (along s v)
                (λ u r. stays_put s ms done x xs roster parts.0.0 u (rw some_in refl) some_in r))
      ]

-- The room loop over the rooms `todo`.
sweep_rooms-Ends :
    (todo ms done : List Ptr) (roster : Ptr → List Ptr) (s : Server) (k : ℕ)
    → Inv s ms (done ++ todo) roster
    → length todo < k
    → Ends (λ a. RoomsSwept s ms done todo roster a.1) (sweep_rooms k (head_or null todo) s)
unfolding sweep_rooms
sweep_rooms-Ends todo ms done roster s zero v h = absurd (omega arith)
sweep_rooms-Ends [] ms done roster s (suc k) v h = record {
  inv = v;
  flags = λ r. refl;
  tail = refl;
  rest = refl;
}
sweep_rooms-Ends (x ∷ xs) ms done roster s (suc k) v h =
    let here : has x (done ++ (x ∷ xs)) ≡ true = ground (arith, has-append x done (x ∷ xs)) in
    let (live, ne) =
      Walk-live s.room_live s.next_room null s.room_list_head (done ++ (x ∷ xs)) x v.rooms.walk
        here in
    let some_room : (x == null) ≡ false = ground arith in
    rw (some_room, live)
      (Ends-bind (λ a. RoomsSwept s ms done (x ∷ xs) roster a.1) (sweep_room x s)
        (λ r. sweep_rooms k (s.next_room x) r.1)
        (round-Ends s ms done x xs roster k v
          (λ done' u w. sweep_rooms-Ends xs ms done' roster u k w (omega (arith, h)))))

-- The room loop of the sweep, with a round for each room and one more, ends without a fault. It takes out
-- exactly the rooms without members whose flag was set, sets the flag of the other rooms without members and no other flag, sets the
-- tail to NULL if the last room goes, and writes no other field but the links, the number and the life of
-- the rooms.
pub sweep_rooms-RoomsSwept :
    (s : Server) (ms rs : List Ptr) (roster : Ptr → List Ptr)
    → Inv s ms rs roster
    → Ends
        (λ a. RoomsSwept s ms [] rs roster a.1)
        (sweep_rooms (s.total_num_of_rooms + 1) s.room_list_head s)
sweep_rooms-RoomsSwept s ms rs roster v =
    subst
      (λ p.
        Ends (λ a. RoomsSwept s ms [] rs roster a.1) (sweep_rooms (s.total_num_of_rooms + 1) p s))
      (sym (head_at rs v.rooms.walk))
      (sweep_rooms-Ends rs ms [] roster s (s.total_num_of_rooms + 1) v
        (omega (arith, v.rooms.counted)))
  where
    head_at :
        (l : List Ptr)
        → Walk s.room_live s.next_room null s.room_list_head l
        → s.room_list_head ≡ head_or null l
    head_at [] w = w
    head_at (y ∷ ys) w = w.0
