-- ===== src/Session/Switch.antt =====
-- process_switch_room_request on every branch.
use csc469_a.Base.{
  ℕ, ◌<◌, ◌≡◌, ◌≢◌, refl, true, false, List, [], ◌∷◌, ◌++◌, inl, inr, arith, ◌==◌, if◌then◌else◌,
  update, has, erase, length, Bool-cases, eq_self, ne_of_test, Ends, Ends-mono, codes, none,
}
use csc469_a.Protocol.{max_num_of_members_per_room, switch_room_succ, switch_room_fail, c_str}
use csc469_a.Chain.{Ptr, null, Links}
use csc469_a.Search.{Walk-live, Walk-cases}
use csc469_a.Server.{Server, return, ◌>>◌}
use csc469_a.Server.Members.{leave_room, enter_room}
use csc469_a.Server.Requests.{process_switch_room_request, switch_to, accept}
use csc469_a.Session.{Rosters, Rooms, Members, Inv}
use csc469_a.Session.Rules.{Ends-seq}
use csc469_a.Session.Leave.{left_room, leave_room-Ends, Rosters-without}
use csc469_a.Session.Enter.{entered, enter_room-Ends}
use csc469_a.Session.Remove.{member_live_lem, rosters_without}
use csc469_a.Session.Find.{
  find_room_lem, room_named, has-room_named, replied, refuse_lem, accept-none,
}

-- The rosters after `m` has moved to room `rt`: it stands last there, and nowhere else.
abbrev pub rosters_moved : Server → Ptr → Ptr → (Ptr → List Ptr) → Ptr → List Ptr
rosters_moved s m rt roster =
    update (rosters_without s m roster) rt (rosters_without s m roster rt ++ (m ∷ []))

-- After a move: the invariant with the new rosters, `rt` marked as not empty, the success reply.
pub record Moved (fd : ℕ) (s : Server) (ms rs : List Ptr) (roster : Ptr → List Ptr) (m rt : Ptr)
    (t : Server) : Type 0 where
  pub inv : Inv t ms rs (rosters_moved s m rt roster)
  pub at : t.current_room m ≡ rt
  pub not_empty : t.empty_flag ≡ update s.empty_flag rt 0
  pub tail : t.room_list_tail ≡ s.room_list_tail
  pub names : (t.room_name ≡ s.room_name) × (t.member_name ≡ s.member_name)
  pub ids : t.member_id ≡ s.member_id
  pub output : t.sent ≡ (replied fd switch_room_succ (s.member_id m) [] s).sent

-- Entering and accepting, in a state where `m` is on no room's list.
enter_accept :
    (P : Server → Type 0) (fd : ℕ) (t : Server) (ms rs : List Ptr) (roster : Ptr → List Ptr)
    (m rt : Ptr)
    → Members t ms
    → Rooms t rs
    → Rosters t (erase m ms) rs roster
    → has m ms ≡ true
    → has rt rs ≡ true
    → length (roster rt) < max_num_of_members_per_room
    → ((links : Links)
        → Inv
            (replied fd switch_room_succ (t.member_id m) [] (entered t m rt links))
            ms
            rs
            (update roster rt (roster rt ++ (m ∷ [])))
        → P (replied fd switch_room_succ (t.member_id m) [] (entered t m rt links)))
    → Ends (λ a. P a.1) ((enter_room m rt >> accept fd m switch_room_succ none) t)
enter_accept P fd t ms rs roster m rt vm vr vo hm hr room then_ =
    let (lm, ne) = member_live_lem t ms m hm vm in
    let lr = (Walk-live t.room_live t.next_room null t.room_list_head rs rt vr.walk hr).0 in
    Ends-seq (λ a. P a.1) (enter_room m rt) (accept fd m switch_room_succ none) t
      (enter_room-Ends t ms rs roster m rt vm.distinct vo hm hr room
        (λ u. Ends (λ a. P a.1) (accept fd m switch_room_succ none u)) lm ne lr
        (λ links x.
          rw (accept-none fd m switch_room_succ (entered t m rt links) lm)
            (then_ links (record { members = vm; rooms = vr; rosters = x }))))

abbrev pub refused : ℕ → Server → Ptr → List ℕ → Server
refused fd s m text = replied fd switch_room_fail (s.member_id m) text s

-- What a switch to room `rt` leads to: the first case that applies, in the order of the code.
pub record SwitchedTo (fd : ℕ) (s : Server) (ms rs : List Ptr) (roster : Ptr → List Ptr)
    (m rt : Ptr) (t : Server) : Type 0 where
  pub full :
      length (roster rt) ≡ max_num_of_members_per_room → t ≡ refused fd s m (codes "Room is full!")
  pub already :
      length (roster rt) ≢ max_num_of_members_per_room
      → s.current_room m ≡ rt
      → t ≡ refused fd s m (codes "Already in this room!")
  pub moved :
      length (roster rt) ≢ max_num_of_members_per_room
      → s.current_room m ≢ rt
      → Moved fd s ms rs roster m rt t

-- What the request to switch to the room `name` leads to.
pub record Switched (fd : ℕ) (s : Server) (ms rs : List Ptr) (roster : Ptr → List Ptr) (m : Ptr)
    (name : List ℕ) (t : Server) : Type 0 where
  pub no_rooms : rs ≡ [] → t ≡ refused fd s m (codes "No room available yet!")
  pub not_found :
      rs ≢ [] → room_named s name rs ≡ null → t ≡ refused fd s m (codes "Room not found!")
  pub found : room_named s name rs ≢ null → SwitchedTo fd s ms rs roster m (room_named s name rs) t

module _ (fd : ℕ) (s : Server) (ms rs : List Ptr) (roster : Ptr → List Ptr) (m : Ptr)
    (v : Inv s ms rs roster) (hm : has m ms ≡ true) where
  live : s.member_live m ≡ true
  live = (member_live_lem s ms m hm v.members).0

  ne_flip : (a b : ℕ) → (a == b) ≡ false → (b == a) ≡ false
  ne_flip a b h = ground arith

  module _ (rt : Ptr) (hr : has rt rs ≡ true) where
    -- The move itself, for a room that has a place and that `m` is not in.
    move-Ends :
        length (roster rt) < max_num_of_members_per_room
        → (s.current_room m == rt) ≡ false
        → Ends
            (λ a. Moved fd s ms rs roster m rt a.1)
            (((if s.current_room m == null then return tt else leave_room m)
                >> (enter_room m rt >> accept fd m switch_room_succ none))
              s)
    move-Ends room away = elim (Bool-cases (s.current_room m == null)) [
      | inl alone ↦ rw alone (
          enter_accept (Moved fd s ms rs roster m rt) fd s ms rs roster m rt v.members v.rooms
            (Rosters-without s ms rs roster v.rosters m v.rooms v.members.distinct (ground arith))
            hm hr room
            (λ links w. record {
              inv = rw alone w;
              at = rw (eq_self m);
              not_empty = refl;
              tail = refl;
              names = (refl, refl);
              ids = refl;
              output = refl;
            }))
      | inr inside ↦
          let (there, at) = v.rosters.housed m hm (λ e. ground arith) in
          let r : Ptr = s.current_room m in
          rw inside (
            Ends-seq (λ a. Moved fd s ms rs roster m rt a.1) (leave_room m)
              (enter_room m rt >> accept fd m switch_room_succ none) s
              (leave_room-Ends s ms rs roster v.rosters m r v.members.distinct there at
                (λ t.
                  Ends (λ a. Moved fd s ms rs roster m rt a.1)
                    ((enter_room m rt >> accept fd m switch_room_succ none) t))
                v.rooms live refl
                (λ links x.
                  enter_accept (Moved fd s ms rs roster m rt) fd (left_room s r links) ms rs
                    (update roster r (erase m (roster r))) m rt v.members v.rooms x hm hr
                    (rw (ne_flip r rt away) room)
                    (λ links' w. record {
                      inv = rw inside w;
                      at = rw (eq_self m);
                      not_empty = refl;
                      tail = refl;
                      names = (refl, refl);
                      ids = refl;
                      output = refl;
                    }))))
    ]

    switch_to-Ends : Ends (λ a. SwitchedTo fd s ms rs roster m rt a.1) (switch_to fd m rt s)
    unfolding switch_to
    switch_to-Ends = elim (Bool-cases (length (roster rt) == max_num_of_members_per_room)) [
      | inl full ↦
          rw
            (
              live,
              v.rosters.counted rt hr,
              full,
              refuse_lem fd m switch_room_fail (codes "Room is full!") s live (omega arith),
            )
            (record {
              full = λ _. refl;
              already = λ ne. absurd (ne (ground arith));
              moved = λ ne. absurd (ne (ground arith));
            })
      | inr room ↦ elim (Bool-cases (s.current_room m == rt)) [
        | inl here ↦
            rw
              (
                live,
                v.rosters.counted rt hr,
                room,
                here,
                refuse_lem fd m switch_room_fail (codes "Already in this room!") s live
                    (omega arith),
              )
              (record {
                full = λ e. ground arith;
                already = λ _ _. refl;
                moved = λ _ ne. absurd (ne (ground arith));
              })
        | inr away ↦
            rw (live, v.rosters.counted rt hr, room, away)
              (Ends-mono (λ a. Moved fd s ms rs roster m rt a.1)
                (λ a. SwitchedTo fd s ms rs roster m rt a.1) _
                (λ a w. record {
                  full = λ e. absurd (ground arith);
                  already = λ _ e. absurd (ground arith);
                  moved = λ _ _. w;
                })
                (move-Ends (ground (arith, v.rosters.bounded rt hr)) away))
      ]
    ]

  -- A request of a member to switch rooms ends without a fault, with the reply and the change that
  -- the first case that applies asks for: no rooms, no room of that name, a full room, the room that
  -- the member is in, or a move.
  pub process_switch_room_request-Switched :
      (msgdata : List ℕ)
      → Ends
          (λ a. Switched fd s ms rs roster m (c_str msgdata) a.1)
          (process_switch_room_request fd m msgdata s)
  unfolding process_switch_room_request
  process_switch_room_request-Switched msgdata =
      elim (Walk-cases s.room_live s.next_room null s.room_list_head rs v.rooms.walk) [
        | inl (none_yet, e) ↦
            rw
              (
                e,
                refuse_lem fd m switch_room_fail (codes "No room available yet!") s live
                    (omega arith),
              )
              (record {
                no_rooms = λ _. refl;
                not_found = λ ne. absurd (ne none_yet);
                found = λ ne. absurd (ne (rw none_yet));
              })
        | inr (some_yet, e) ↦ elim (Bool-cases (found == null)) [
          | inl missing ↦
              rw
                (
                  e,
                  find_room_lem s rs (c_str msgdata) v.rooms,
                  missing,
                  refuse_lem fd m switch_room_fail (codes "Room not found!") s live (omega arith),
                )
                (record {
                  no_rooms = λ f. absurd (some_yet f);
                  not_found = λ _ _. refl;
                  found = λ ne. absurd (ne (ground arith));
                })
          | inr there ↦
              let ne = ne_of_test found null there in
              let hr = has-room_named s (c_str msgdata) rs ne in
              rw (e, find_room_lem s rs (c_str msgdata) v.rooms, there)
                (Ends-mono (λ a. SwitchedTo fd s ms rs roster m found a.1)
                  (λ a. Switched fd s ms rs roster m (c_str msgdata) a.1) _
                  (λ a w. record {
                    no_rooms = λ f. absurd (some_yet f);
                    not_found = λ _ f. absurd (ne f);
                    found = λ _. w;
                  })
                  (switch_to-Ends found hr))
        ]
      ]
    where
      found : Ptr
      found = room_named s (c_str msgdata) rs
