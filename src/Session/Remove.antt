-- ===== src/Session/Remove.antt =====
-- remove_member and process_quit_request: a member leaves its room and the session.
use csc469_a.Base.{
  ◌-◌, ◌≡◌, ◌≢◌, refl, ap, true, false, List, inl, inr, arith, ◌==◌, if◌then◌else◌, update, has,
  erase, Distinct-erase, length-erase, not_has-erase, ◌∙◌, ne_of_has, Bool-cases, Ends, Ends-mono,
}
use csc469_a.Chain.{Ptr, null, Links}
use csc469_a.Chain.Segment.{Seg-frame, Seg-live}
use csc469_a.Chain.Unlink.{Unlinked, unlink-erase}
use csc469_a.Server.{Server, ◌>>◌, member_links, set_member_links}
use csc469_a.Server.Members.{leave_session, leave_room, remove_member, free_member}
use csc469_a.Server.Requests.{process_quit_request}
use csc469_a.Session.{Members, Inv}
use csc469_a.Session.Rules.{Ends-lift, Ends-seq}
use csc469_a.Session.Leave.{left_room, leave_room-Ends, Rosters-without}

abbrev pub left_session : Server → Links → Server
left_session s links = record (set_member_links links s) {
  total_num_of_members = s.total_num_of_members - 1;
}

-- The rosters after `m` has left: its room, if it has one, loses `m`.
abbrev pub rosters_without : Server → Ptr → (Ptr → List Ptr) → Ptr → List Ptr
rosters_without s m roster =
    if s.current_room m == null
    then roster
    else update roster (s.current_room m) (erase m (roster (s.current_room m)))

-- What the removal of a member does not touch.
pub record Kept (s t : Server) : Type 0 where
  pub live : t.member_live ≡ s.member_live
  pub ids : t.member_id ≡ s.member_id
  pub names : t.member_name ≡ s.member_name
  pub quiet : t.quiet_flag ≡ s.quiet_flag
  pub room_names : t.room_name ≡ s.room_name
  pub next_rooms : t.next_room ≡ s.next_room
  pub empty : t.empty_flag ≡ s.empty_flag
  pub tail : t.room_list_tail ≡ s.room_list_tail
  pub output : t.sent ≡ s.sent

module _ (s : Server) (ms : List Ptr) (m : Ptr) (hm : has m ms ≡ true) where
  pub member_live_lem : Members s ms → (s.member_live m ≡ true) × (m ≢ null)
  member_live_lem v =
      Seg-live s.member_live s.next_member s.prev_member null s.mem_list_head ms s.mem_list_tail
        null m v.chain hm

  leave_session-Ends :
      (P : Server → Type 0)
      → Members s ms
      → ((links : Links) → Members (left_session s links) (erase m ms) → P (left_session s links))
      → Ends (λ a. P a.1) (leave_session m s)
  unfolding leave_session
  leave_session-Ends P v then_ =
      let some_left : (s.total_num_of_members == 0) ≡ false =
        ground (arith, v.counted, length-erase m ms hm) in
      rw some_left (
        Ends-lift (λ a. P a.1) (Unlinked s.member_live ms (erase m ms) (member_links s)) _ s _
          (unlink-erase s.member_live (member_links s) m ms v.chain v.distinct hm)
          (λ links u. then_ links (record {
            chain = u.0;
            distinct = Distinct-erase m ms v.distinct;
            counted = omega (arith, v.counted, length-erase m ms hm);
            bounded = omega (arith, v.bounded, length-erase m ms hm);
          })))

module _ (s : Server) (ms rs : List Ptr) (roster : Ptr → List Ptr) (m : Ptr)
    (v : Inv s ms rs roster) (hm : has m ms ≡ true) where
  -- For a member of the session, remove_member ends without a fault: the session and the member's
  -- room lose `m` and nothing else, all counters follow, and nothing is sent.
  pub remove_member-erase :
      Ends
        (λ a. Inv a.1 (erase m ms) rs (rosters_without s m roster) × Kept s a.1)
        (remove_member m s)
  unfolding remove_member
  remove_member-erase = elim (Bool-cases (s.current_room m == null)) [
    | inl alone ↦
        rw (live, alone)
          (leave_session-Ends s ms m hm (λ t. Inv t (erase m ms) rs roster × Kept s t) v.members
            (λ links w. (
              record {
                members = w;
                rooms = v.rooms;
                rosters =
                    Rosters-without s ms rs roster v.rosters m v.rooms v.members.distinct
                      (ground arith);
              },
              untouched links,
            )))
    | inr inside ↦
        let (there, at) = v.rosters.housed m hm (λ e. ground arith) in
        rw (live, inside)
          (Ends-seq (λ a. P a.1) (leave_room m) (leave_session m) s
            (leave_room-Ends s ms rs roster v.rosters m (s.current_room m) v.members.distinct there
              at (λ t. Ends (λ a. P a.1) (leave_session m t)) v.rooms live refl
              (λ links x.
                leave_session-Ends (left_room s (s.current_room m) links) ms m hm P v.members
                  (λ links' w.
                    (record { members = w; rooms = v.rooms; rosters = x }, moved links links')))))
  ]
    where
      live : s.member_live m ≡ true
      live = (member_live_lem s ms m hm v.members).0

      P : Server → Type 0
      P t =
          Inv t (erase m ms) rs
            (update roster (s.current_room m) (erase m (roster (s.current_room m))))
          × Kept s t

      untouched : (links : Links) → Kept s (left_session s links)
      untouched links = record {
        live = refl;
        ids = refl;
        names = refl;
        quiet = refl;
        room_names = refl;
        next_rooms = refl;
        empty = refl;
        tail = refl;
        output = refl;
      }

      moved :
          (links links' : Links)
          → Kept s (left_session (left_room s (s.current_room m) links) links')
      moved links links' = record {
        live = refl;
        ids = refl;
        names = refl;
        quiet = refl;
        room_names = refl;
        next_rooms = refl;
        empty = refl;
        tail = refl;
        output = refl;
      }

-- `free` of an object that is on no list keeps the invariant.
module _ (s : Server) (ms rs : List Ptr) (roster : Ptr → List Ptr) (m : Ptr)
    (v : Inv s ms rs roster) (gone : has m ms ≡ false) where
  abbrev pub freed : Server
  freed = record s { member_live = update s.member_live m false }

  others : (a : Ptr) → has a ms ≡ true → (a == m) ≡ false
  others a h = ground (arith, ne_of_has m a ms gone h)

  pub freed-Inv : Inv freed ms rs roster
  freed-Inv = record {
    members = record {
      chain =
          Seg-frame s.member_live s.next_member s.prev_member freed.member_live s.next_member
            s.prev_member null s.mem_list_head ms s.mem_list_tail null v.members.chain
            (λ a h. (refl, refl, rw (others a h)));
      distinct = v.members.distinct;
      counted = v.members.counted;
      bounded = v.members.bounded;
    };
    rooms = v.rooms;
    rosters = record {
      chain = λ r hr.
          Seg-frame s.member_live s.next_room_member s.prev_room_member freed.member_live
            s.next_room_member s.prev_room_member null (s.member_list_head r) (roster r)
            (s.member_list_tail r) null (v.rosters.chain r hr)
            (λ a h. (refl, refl, rw (others a (v.rosters.home r a hr h).0)));
      distinct = v.rosters.distinct;
      counted = v.rosters.counted;
      bounded = v.rosters.bounded;
      home = v.rosters.home;
      housed = v.rosters.housed;
    };
  }

-- `remove_member(mt); free(mt);`, as the quit request and the sweep do it: the session loses `m`
-- without a fault, the object is freed, and the other fields are as before.
pub remove_free-Ends :
    (P : Server → Type 0) (s : Server) (ms rs : List Ptr) (roster : Ptr → List Ptr) (m : Ptr)
    → Inv s ms rs roster
    → has m ms ≡ true
    → ((t : Server)
        → Kept s t
        → Inv
            (record t { member_live = update t.member_live m false })
            (erase m ms)
            rs
            (rosters_without s m roster)
        → P (record t { member_live = update t.member_live m false }))
    → Ends (λ a. P a.1) ((remove_member m >> free_member m) s)
unfolding free_member
remove_free-Ends P s ms rs roster m v hm then_ =
    Ends-seq (λ a. P a.1) (remove_member m) (free_member m) s
      (Ends-mono _ _ (remove_member m s) after (remove_member-erase s ms rs roster m v hm))
  where
    after :
        (a : Unit {0} × Server)
        → Inv a.1 (erase m ms) rs (rosters_without s m roster) × Kept s a.1
        → Ends (λ b. P b.1) (free_member m a.1)
    after (u, t) (w, k) =
        let live : t.member_live m ≡ true =
          ap (λ f. f m) k.live ∙ (member_live_lem s ms m hm v.members).0 in
        rw live (
          then_ t k (
            freed-Inv t (erase m ms) rs (rosters_without s m roster) m w
              (not_has-erase m ms v.members.distinct)))

-- A quit request of a member ends without a fault and without a reply: the session and the member's
-- room lose that member and nobody else, and its object is freed.
pub process_quit_request-erase :
    (s : Server) (ms rs : List Ptr) (roster : Ptr → List Ptr) (m : Ptr)
    → Inv s ms rs roster
    → has m ms ≡ true
    → Ends
        (λ a.
          Inv a.1 (erase m ms) rs (rosters_without s m roster)
          × (a.1.member_live ≡ update s.member_live m false)
          × (a.1.sent ≡ s.sent))
        (process_quit_request m s)
unfolding process_quit_request
process_quit_request-erase s ms rs roster m v hm =
    remove_free-Ends
      (λ t.
        Inv t (erase m ms) rs (rosters_without s m roster)
        × (t.member_live ≡ update s.member_live m false)
        × (t.sent ≡ s.sent))
      s ms rs roster m v hm (λ t k w. (w, ap (λ f. update f m false) k.live, k.output))
