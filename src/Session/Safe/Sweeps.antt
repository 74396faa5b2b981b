-- ===== src/Session/Safe/Sweeps.antt =====
-- The sweep of the main loop as a whole.
use csc469_a.Base.{
  ℕ, ◌+◌, ◌≡◌, ◌≢◌, inl, inr, refl, ap, ◌∙◌, sym, true, false, List, [], ◌∷◌, has, arith, ◌==◌,
  Bool-cases, last_or, Ends, Ends-mono,
}
use csc469_a.Chain.{Ptr, null}
use csc469_a.Search.{Walk-cases}
use csc469_a.Server.{Server}
use csc469_a.Server.Sweep.{sweep, sweep_members, sweep_rooms}
use csc469_a.Session.{Inv, TailIsLast}
use csc469_a.Session.Rules.{Ends-bind}
use csc469_a.Session.MemberSteps.{MembersSwept, active}
use csc469_a.Session.Quiet.{sweep_members-MembersSwept}
use csc469_a.Session.RoomSteps.{RoomsSwept, staying, goes, tail_after}
use csc469_a.Session.SweepRooms.{sweep_rooms-RoomsSwept}
use csc469_a.Session.Safe.{Good, Sound, NamesFit-kept}

-- What the sweep leaves: `middle` is the state between the two loops.
pub record Swept (s : Server) (ms rs : List Ptr) (t : Server) : Type 0 where
  pub middle : Server
  pub members : MembersSwept s [] ms rs middle
  pub rooms : RoomsSwept middle (active s.quiet_flag ms) [] rs members.roster t

module _ (s : Server) (ms rs : List Ptr) (roster : Ptr → List Ptr) (v : Inv s ms rs roster) where
  -- The sweep ends without a fault. Its member loop leaves exactly the members that were active since the last
  -- sweep, in their order, and marks them. After it, its room loop takes out exactly the rooms that have no members
  -- and were marked as empty, marks the others that have no members, and sets the tail to NULL if the
  -- last room goes.
  pub sweep-Swept : Ends (λ a. Swept s ms rs a.1) (sweep s)
  unfolding sweep
  sweep-Swept =
      Ends-bind (λ a. Swept s ms rs a.1)
        (sweep_members (s.total_num_of_members + 1) s.mem_list_head s)
        (λ r. sweep_rooms (r.1.total_num_of_rooms + 1) r.1.room_list_head r.1)
        (Ends-mono (λ a. MembersSwept s [] ms rs a.1) _
          (sweep_members (s.total_num_of_members + 1) s.mem_list_head s)
          (λ a w.
            Ends-mono (λ b. RoomsSwept a.1 (active s.quiet_flag ms) [] rs w.roster b.1) _ _
              (λ b r. record { middle = a.1; members = w; rooms = r })
              (sweep_rooms-RoomsSwept a.1 (active s.quiet_flag ms) rs w.roster w.inv))
          (sweep_members-MembersSwept s ms rs roster v))

has-active :
    (quiet : Ptr → ℕ) (p : Ptr) (ms : List Ptr) → has p (active quiet ms) ≡ true → has p ms ≡ true
has-active quiet p [] h = h
has-active quiet p (x ∷ ms) h = elim (Bool-cases (quiet x == 0)) [
  | inl awake ↦
      let h' : has p (x ∷ active quiet ms) ≡ true = rw awake at h in
      ground (arith, has-active quiet p ms)
  | inr asleep ↦
      let h' : has p (active quiet ms) ≡ true = rw asleep at h in
      ground (arith, has-active quiet p ms h')
]

has-staying : (s : Server) (r : Ptr) (rs : List Ptr) → has r (staying s rs) ≡ true → has r rs ≡ true
has-staying s r [] h = h
has-staying s r (x ∷ rs) h = elim (Bool-cases (goes s x)) [
  | inl away ↦
      let h' : has r (staying s rs) ≡ true = rw away at h in ground (arith, has-staying s r rs h')
  | inr there ↦
      let h' : has r (x ∷ staying s rs) ≡ true = rw there at h in ground (arith, has-staying s r rs)
]

-- If the last room stays, it is the last one of those that stay.
last-staying :
    (s : Server) (d x : Ptr) (xs : List Ptr)
    → goes s (last_or x xs) ≡ false
    → last_or d (staying s (x ∷ xs)) ≡ last_or x xs
last-staying s d x [] there = rw there refl
last-staying s d x (y ∷ ys) there = elim (Bool-cases (goes s x)) [
  | inl away ↦ rw away (last-staying s d y ys there)
  | inr here ↦ rw here (last-staying s x y ys there)
]

fresh_stays : (s : Server) (r : Ptr) → s.empty_flag r ≡ 0 → goes s r ≡ false
fresh_stays s r e = ground arith

tail_lem :
    (s : Server) (rs : List Ptr)
    → TailIsLast s rs
    → (rs ≢ [] → s.empty_flag s.room_list_tail ≡ 0)
    → tail_after s rs ≡ last_or null (staying s rs)
tail_lem s [] at fresh = at
tail_lem s (x ∷ xs) at fresh =
    let flag : s.empty_flag (last_or x xs) ≡ 0 = ap s.empty_flag (sym at) ∙ fresh (λ e. cc) in
    let stays : goes s (last_or x xs) ≡ false = fresh_stays s (last_or x xs) flag in
    rw stays (at ∙ sym (last-staying s null x xs stays))

module _ (s : Server) (ms rs : List Ptr) (roster : Ptr → List Ptr) (g : Good s ms rs roster) where
  Swept-Sound :
      (s.room_list_head ≢ null → s.empty_flag s.room_list_tail ≡ 0)
      → (t : Server) → Swept s ms rs t
      → Sound t
  Swept-Sound fresh t w = (
    active s.quiet_flag ms,
    staying w.middle rs,
    w.members.roster,
    record {
      inv = w.rooms.inv;
      tail = w.rooms.tail ∙ tail_lem w.middle rs (w.members.tail ∙ g.tail) flag;
      room_names = λ r h.
          NamesFit-kept _ _ rs (ap (λ z. z.room_name) w.rooms.rest ∙ w.members.names) g.room_names r
            (has-staying w.middle r rs h);
      member_names = λ p h.
          NamesFit-kept _ _ ms (ap (λ z. z.member_name) w.rooms.rest ∙ w.members.member_names)
            g.member_names p (has-active s.quiet_flag p ms h);
    },
  )
    where
      flag : rs ≢ [] → w.middle.empty_flag w.middle.room_list_tail ≡ 0
      flag some_room =
          elim (Walk-cases s.room_live s.next_room null s.room_list_head rs g.inv.rooms.walk) [
            | inl (none_left, h) ↦ absurd (some_room none_left)
            | inr (left, h) ↦
                ap (λ f. f w.middle.room_list_tail) w.members.empty
                ∙ ap s.empty_flag w.members.tail
                ∙ fresh (λ e. absurd (ground arith))
          ]

  pub sweep-Sound :
      (s.room_list_head ≢ null → s.empty_flag s.room_list_tail ≡ 0)
      → Ends (λ a. Sound a.1) (sweep s)
  sweep-Sound fresh =
      Ends-mono (λ a. Swept s ms rs a.1) (λ a. Sound a.1) (sweep s) (λ a w. Swept-Sound fresh a.1 w)
        (sweep-Swept s ms rs roster g.inv)
