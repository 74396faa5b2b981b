-- ===== src/Session/ListReplies.antt =====
-- process_room_list_request and process_member_list_request.
use csc469_a.Base.{
  refl, ℕ, ◌+◌, ◌*◌, ◌≤◌, ◌<◌, ◌≡◌, ◌≢◌, ap, ◌∙◌, true, false, List, [], ◌∷◌, map, arith, ◌==◌, inl,
  inr, has, codes, length, length_pos, Run, ok,
}
use csc469_a.Protocol.{
  max_msg_len, control_msghdr_size, room_list_succ, room_list_fail, member_list_succ,
  member_list_fail, c_str,
}
use csc469_a.Chain.{Ptr, null}
use csc469_a.Search.{Walk, Walk-cases, Walk-of_Seg}
use csc469_a.Server.{Server}
use csc469_a.Server.Requests.{
  room_item, process_room_list_request, process_member_list_request, list_members, print_int,
}
use csc469_a.Session.{Inv, TailIsLast}
use csc469_a.Session.Decimal.{read_digits, read-print_int}
use csc469_a.Session.Find.{
  replied, refuse_lem, accept-some, find_room_lem, room_named, has-room_named,
}
use csc469_a.Session.Joined.{
  joined, joined_size, member_item, room_lists-joined, member_lists-joined,
}
use csc469_a.Session.Remove.{member_live_lem}
use csc469_a.Session.ListTexts.{
  NamesFit, room_text, member_text, room_entry, room_item_size, member_item_size,
}

-- The reply to a room list request of `m`.
pub record RoomsListed (fd : ℕ) (s : Server) (rs : List Ptr) (roster : Ptr → List Ptr) (m : Ptr)
    : Type 0 where
  pub empty :
      rs ≡ []
      → process_room_list_request fd m s
        ≡ ok (tt, replied fd room_list_fail (s.member_id m) (codes "No rooms available!") s)
  pub listed :
      rs ≢ []
      → process_room_list_request fd m s
        ≡ ok (
          tt,
          replied fd room_list_succ (s.member_id m) (joined (map (room_entry s roster) rs)) s,
        )
  pub digits :
      (r : Ptr)
      → has r rs ≡ true
      → read_digits 0 (print_int (length (roster r))) ≡ length (roster r)

-- The reply to a request of `m` for the members of the room `name`.
pub record MembersListed (fd : ℕ) (s : Server) (rs : List Ptr) (roster : Ptr → List Ptr) (m : Ptr)
    (name : List ℕ) (outcome : Run (Unit {0} × Server)) : Type 0 where
  pub no_room :
      rs ≡ []
      → outcome
        ≡ ok (tt, replied fd member_list_fail (s.member_id m) (codes "No room available yet!") s)
  pub unknown :
      rs ≢ []
      → room_named s name rs ≡ null
      → outcome ≡ ok (tt, replied fd member_list_fail (s.member_id m) (codes "Room not found!") s)
  pub empty :
      room_named s name rs ≢ null
      → roster (room_named s name rs) ≡ []
      → outcome
        ≡ ok (tt, replied fd member_list_fail (s.member_id m) (codes "No member in this room!") s)
  pub listed :
      room_named s name rs ≢ null
      → roster (room_named s name rs) ≢ []
      → outcome
        ≡ ok (
          tt,
          replied fd member_list_succ
              (s.member_id m)
              (member_text s (roster (room_named s name rs)))
              s,
        )

module _ (fd : ℕ) (s : Server) (ms rs : List Ptr) (roster : Ptr → List Ptr) (m : Ptr)
    (v : Inv s ms rs roster) (hm : has m ms ≡ true) where
  live : s.member_live m ≡ true
  live = (member_live_lem s ms m hm v.members).0

  few : (r : Ptr) → has r rs ≡ true → s.num_of_members r < 100
  few r h = omega (arith, v.rosters.counted r h, v.rosters.bounded r h)

  pub room_text-le : NamesFit s.room_name rs → length (room_text s rs) ≤ 32 * length rs
  room_text-le names =
      joined_size (room_item s) rs (λ r h. room_item_size s r (names r h) (few r h))

  room_text_size :
      NamesFit s.room_name rs → control_msghdr_size + length (room_text s rs) + 1 ≤ max_msg_len
  room_text_size names = omega (arith, room_text-le names, v.rooms.bounded)

  -- The items of the code are the entries that the user is to read.
  room_items :
      (ps : List Ptr)
      → ((r : Ptr) → has r ps ≡ true → has r rs ≡ true)
      → map (room_item s) ps ≡ map (room_entry s roster) ps
  unfolding room_item
  room_items [] inside = refl
  room_items (r ∷ ps) inside =
      let counted : s.num_of_members r ≡ length (roster r) =
        v.rosters.counted r (inside r (ground arith)) in
      rw (counted, room_items ps (λ q h. inside q (ground arith))) refl

  -- The text, as the code makes it and as the user is to read it.
  pub room_text-entries : room_text s rs ≡ joined (map (room_entry s roster) rs)
  room_text-entries = ap joined (room_items rs (λ r h. h))

  pub process_room_list_request-text :
      TailIsLast s rs
      → NamesFit s.room_name rs
      → rs ≢ []
      → process_room_list_request fd m s
        ≡ ok (tt, replied fd room_list_succ (s.member_id m) (room_text s rs) s)
  unfolding process_room_list_request
  process_room_list_request-text at names some_left =
      let some_rooms : (s.total_num_of_rooms == 0) ≡ false =
        ground (arith, v.rooms.counted, length_pos rs some_left) in
      rw
        (
          some_rooms,
          room_lists-joined s (s.total_num_of_rooms + 1) s.room_list_head rs v.rooms.walk
              v.rooms.distinct at (omega (arith, v.rooms.counted)),
        )
        (accept-some fd m room_list_succ (room_text s rs) s live (room_text_size names))

  pub process_room_list_request-RoomsListed :
      TailIsLast s rs → NamesFit s.room_name rs → RoomsListed fd s rs roster m
  unfolding process_room_list_request
  process_room_list_request-RoomsListed at names = record {
    empty = λ none_left.
        let zero_rooms : (s.total_num_of_rooms == 0) ≡ true =
          ground (arith, v.rooms.counted, ap length none_left) in
        rw zero_rooms
          (refuse_lem fd m room_list_fail (codes "No rooms available!") s live (omega arith));
    listed = λ some_left.
        process_room_list_request-text at names some_left
        ∙ ap (λ text. ok (tt, replied fd room_list_succ (s.member_id m) text s)) room_text-entries;
    digits = λ r h. read-print_int (length (roster r)) (omega (arith, v.rosters.bounded r h));
  }

  member_text_size :
      (r : Ptr)
      → has r rs ≡ true
      → NamesFit s.member_name ms
      → control_msghdr_size + length (member_text s (roster r)) + 1 ≤ max_msg_len
  member_text_size r hr names =
      let size : length (member_text s (roster r)) ≤ 32 * length (roster r) =
        joined_size (member_item s) (roster r)
          (λ a h. member_item_size s a (names a (v.rosters.home r a hr h).0)) in
      omega (arith, v.rosters.bounded r hr)

  list_members_lem :
      (r : Ptr)
      → has r rs ≡ true
      → NamesFit s.member_name ms
      → (roster r ≡ []
          → list_members fd m r s
            ≡ ok (
              tt,
              replied fd member_list_fail (s.member_id m) (codes "No member in this room!") s,
            ))
        × (roster r ≢ []
            → list_members fd m r s
              ≡ ok (tt, replied fd member_list_succ (s.member_id m) (member_text s (roster r)) s))
  unfolding list_members
  list_members_lem r hr names =
      elim (Walk-cases s.member_live s.next_room_member null (s.member_list_head r) (roster r)
        walk) [
          | inl (none_in, head_null) ↦ (
            λ e. rw head_null (
                refuse_lem fd m member_list_fail (codes "No member in this room!") s live
                  (omega arith)),
            λ ne. absurd (ne none_in),
          )
          | inr (some_in, head) ↦ (
            λ e. absurd (some_in e),
            λ ne.
                rw
                  (
                    head,
                    member_lists-joined s (s.num_of_members r + 1) (s.member_list_head r) (roster r)
                        walk (omega (arith, v.rosters.counted r hr)),
                  )
                  (accept-some fd m member_list_succ (member_text s (roster r)) s live
                    (member_text_size r hr names)),
          )
        ]
    where
      walk : Walk s.member_live s.next_room_member null (s.member_list_head r) (roster r)
      walk =
          Walk-of_Seg s.member_live s.next_room_member s.prev_room_member null
            (s.member_list_head r) (roster r) (s.member_list_tail r) (v.rosters.chain r hr)

  -- A member's request for the members of a room, in a state with the invariant, ends without a fault
  -- if no member's name is longer than 24 bytes. It is refused without rooms, for a name that no room
  -- has, and for an empty room. Otherwise the reply's text is "(name)" for each member of the first
  -- room of that name in the order of entry, with single spaces between them.
  pub process_member_list_request-MembersListed :
      (msgdata : List ℕ)
      → NamesFit s.member_name ms
      → MembersListed fd s rs roster m (c_str msgdata) (process_member_list_request fd m msgdata s)
  unfolding process_member_list_request
  process_member_list_request-MembersListed msgdata names =
      elim (Walk-cases s.room_live s.next_room null s.room_list_head rs v.rooms.walk) [
        | inl (none_left, head_null) ↦ record {
          no_room = λ e. rw head_null (
              refuse_lem fd m member_list_fail (codes "No room available yet!") s live
                (omega arith));
          unknown = λ ne lost. absurd (ne none_left);
          empty = λ found e. absurd (found (ap (room_named s (c_str msgdata)) none_left));
          listed = λ found e. absurd (found (ap (room_named s (c_str msgdata)) none_left));
        }
        | inr (some_left, head) ↦ record {
          no_room = λ e. absurd (some_left e);
          unknown = λ ne lost.
              let gone : (room_named s (c_str msgdata) rs == null) ≡ true = ground (arith, lost) in
              rw (head, find_room_lem s rs (c_str msgdata) v.rooms, gone)
                (refuse_lem fd m member_list_fail (codes "Room not found!") s live (omega arith));
          empty = λ found e.
              let there : (room_named s (c_str msgdata) rs == null) ≡ false =
                ground (arith, found) in
              rw (head, find_room_lem s rs (c_str msgdata) v.rooms, there)
                ((list_members_lem _ (has-room_named s (c_str msgdata) rs found) names).0 e);
          listed = λ found e.
              let there : (room_named s (c_str msgdata) rs == null) ≡ false =
                ground (arith, found) in
              rw (head, find_room_lem s rs (c_str msgdata) v.rooms, there)
                ((list_members_lem _ (has-room_named s (c_str msgdata) rs found) names).1 e);
        }
      ]
