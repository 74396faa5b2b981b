-- ===== src/Session/Drop.antt =====
-- remove_room on the list of rooms.
use csc469_a.Base.{
  suc, ◌≡◌, refl, sym, ap, ◌∙◌, subst, true, false, List, [], ◌∷◌, inl, inr, arith, ◌==◌,
  if◌then◌else◌, has, erase, last_or, eq_cases, eq_self, Bool-cases, Ends,
}
use csc469_a.Chain.{Ptr, null}
use csc469_a.Search.{Walk}
use csc469_a.Server.{Server}
use csc469_a.Server.Rooms.{remove_room, unlink_room_from}
use csc469_a.Session.{Rooms}
use csc469_a.Session.RoomList.{next_ne_stop, next_last, unlink_room_from-Ends}

-- What remove_room leaves: the list without `rt`. The tail is NULL if `rt` was the last room, and is
-- not written otherwise.
pub record RoomRemoved (s : Server) (rs : List Ptr) (rt : Ptr) (t : Server) : Type 0 where
  pub rest : t ≡ record s {
    next_room = t.next_room;
    room_list_head = t.room_list_head;
    room_list_tail = t.room_list_tail;
  }
  pub walk : Walk s.room_live t.next_room null t.room_list_head (erase rt rs)
  pub tail : t.room_list_tail ≡ (if rt == last_or null rs then null else s.room_list_tail)

-- A room has NULL behind it exactly if it is the last one.
next_null :
    (s : Server) (rt : Ptr) (rs : List Ptr)
    → Walk s.room_live s.next_room null s.room_list_head rs
    → has rt rs ≡ true
    → (s.next_room rt == null) ≡ (rt == last_or null rs)
next_null s rt [] w h = cc
next_null s rt (x ∷ xs) w h = elim (eq_cases rt (last_or x xs)) [
  | inl e ↦
      let end : s.next_room (last_or x xs) ≡ null =
        next_last s.room_live s.next_room null s.room_list_head x xs w in
      rw (e, end, eq_self (last_or x xs))
  | inr ne ↦
      let more = next_ne_stop s.room_live s.next_room null s.room_list_head rt (x ∷ xs) w h ne in
      ground arith
]

module _ (s : Server) (rt : Ptr) where
  head_case :
      (x : Ptr) (xs : List Ptr)
      → Walk s.room_live s.next_room null s.room_list_head (x ∷ xs)
      → x ≡ rt
      → Ends (λ a. RoomRemoved s (x ∷ xs) rt a.1) (remove_room rt s)
  unfolding remove_room unlink_room_from
  head_case x xs w e = elim (Bool-cases (s.next_room s.room_list_head == null)) [
    | inl end ↦
        rw (not_null, head_live, found, end)
          (record { rest = refl; walk = rest; tail = rw (sym at_end ∙ end) })
    | inr more ↦
        rw (not_null, head_live, found, more)
          (record { rest = refl; walk = rest; tail = rw (sym at_end ∙ more) })
  ]
    where
      not_null : (s.room_list_head == null) ≡ false
      not_null = ground (arith, w.0, w.1)

      head_live : s.room_live s.room_list_head ≡ true
      head_live = ap s.room_live w.0 ∙ w.2

      found : (s.room_list_head == rt) ≡ true
      found = ground (arith, w.0)

      at_x : (rt == x) ≡ true
      at_x = ground arith

      h : has rt (x ∷ xs) ≡ true
      h = rw at_x

      at_end : (s.next_room s.room_list_head == null) ≡ (rt == last_or null (x ∷ xs))
      at_end = ap (λ q. s.next_room q == null) (w.0 ∙ e) ∙ next_null s rt (x ∷ xs) w h

      rest : Walk s.room_live s.next_room null (s.next_room s.room_list_head) (erase rt (x ∷ xs))
      rest =
          subst (λ q. Walk s.room_live s.next_room null q (erase rt (x ∷ xs)))
            (sym (ap s.next_room w.0)) (rw at_x w.3)

  inner_case :
      (x : Ptr) (xs : List Ptr)
      → Rooms s (x ∷ xs)
      → has rt (x ∷ xs) ≡ true
      → (x == rt) ≡ false
      → Ends (λ a. RoomRemoved s (x ∷ xs) rt a.1) (remove_room rt s)
  unfolding remove_room
  inner_case x xs v h ne =
      unlink_room_from-Ends (RoomRemoved s (x ∷ xs) rt) s rt (suc s.total_num_of_rooms)
        s.room_list_head x xs v.walk v.distinct (ground arith) ne (omega (arith, v.counted))
        (λ b hb bn w. elim (Bool-cases (s.next_room rt == null)) [
          | inl end ↦ rw end (record { rest = refl; walk = w; tail = rw (sym at_end ∙ end) })
          | inr more ↦ rw more (record { rest = refl; walk = w; tail = rw (sym at_end ∙ more) })
        ])
    where
      at_end : (s.next_room rt == null) ≡ (rt == last_or null (x ∷ xs))
      at_end = next_null s rt (x ∷ xs) v.walk h

  -- For a room of the list, remove_room ends without a fault and takes out that room alone.
  pub remove_room-RoomRemoved :
      (rs : List Ptr)
      → Rooms s rs
      → has rt rs ≡ true
      → Ends (λ a. RoomRemoved s rs rt a.1) (remove_room rt s)
  remove_room-RoomRemoved [] v h = cc
  remove_room-RoomRemoved (x ∷ xs) v h = elim (eq_cases x rt) [
    | inl e ↦ head_case x xs v.walk e
    | inr ne ↦ inner_case x xs v h ne
  ]
