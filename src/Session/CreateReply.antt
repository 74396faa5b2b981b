-- ===== src/Session/CreateReply.antt =====
-- process_create_room_request: what create_room returned, as a reply.
use csc469_a.Base.{
  ℕ, ◌≡◌, ◌≢◌, ap, ◌∙◌, true, false, List, [], inl, inr, arith, ◌==◌, if◌then◌else◌, has, length,
  Bool-cases, codes, Ends, Ends-mono,
}
use csc469_a.Protocol.{create_room_succ, create_room_fail, c_str, has_zero, max_room_name_len}
use csc469_a.Chain.{Ptr, null}
use csc469_a.Server.{Server}
use csc469_a.Server.Rooms.{create_room}
use csc469_a.Server.Requests.{process_create_room_request, report_create_room}
use csc469_a.Session.{Inv, TailIsLast}
use csc469_a.Session.Rules.{Ends-bind}
use csc469_a.Session.Find.{replied, refuse_lem, accept-none}
use csc469_a.Session.Create.{Created, create_room-Created}
use csc469_a.Session.Remove.{member_live_lem}

abbrev pub create_reply_type : ℕ → ℕ
create_reply_type code =
    if code == 1
    then create_room_fail
    else if code == 2
    then create_room_fail
    else if code == 3
    then create_room_fail
    else create_room_succ

abbrev pub create_reply_text : ℕ → List ℕ
create_reply_text code =
    if code == 1
    then codes "Room name too long!"
    else if code == 2
    then codes "Number of rooms reached maximum!"
    else if code == 3
    then codes "Room exists!"
    else []

-- The state `t` is what create_room leaves with some code, and the reply for that code.
pub record CreateReplied (fd : ℕ) (s : Server) (ms rs : List Ptr) (roster : Ptr → List Ptr)
    (fresh m : Ptr) (name : List ℕ) (t : Server) : Type 0 where
  pub code : ℕ
  pub before : Server
  pub done : Created s ms rs roster fresh name code before
  pub answer :
      t ≡ replied fd (create_reply_type code) (s.member_id m) (create_reply_text code) before

module _ (fd : ℕ) (s : Server) (ms rs : List Ptr) (roster : Ptr → List Ptr) (fresh m : Ptr)
    (name : List ℕ) (live : s.member_live m ≡ true) where
  report_create_room-Ends :
      (code : ℕ) (t : Server)
      → Created s ms rs roster fresh name code t
      → Ends
          (λ a. CreateReplied fd s ms rs roster fresh m name a.1)
          (report_create_room fd m code t)
  unfolding report_create_room
  report_create_room-Ends code t c = elim (Bool-cases (code == 1)) [
    | inl one ↦
        rw
          (
            one,
            refuse_lem fd m create_room_fail (codes "Room name too long!") t live' (omega arith),
          )
          (replies (ap (reply_with create_room_fail (codes "Room name too long!")) id ∙ rw one))
    | inr n₁ ↦ elim (Bool-cases (code == 2)) [
      | inl two ↦
          rw
            (
              n₁,
              two,
              refuse_lem fd m create_room_fail (codes "Number of rooms reached maximum!") t live'
                  (omega arith),
            )
            (replies (
              ap (reply_with create_room_fail (codes "Number of rooms reached maximum!")) id
              ∙ rw (n₁, two)))
      | inr n₂ ↦ elim (Bool-cases (code == 3)) [
        | inl three ↦
            rw
              (
                n₁,
                n₂,
                three,
                refuse_lem fd m create_room_fail (codes "Room exists!") t live' (omega arith),
              )
              (replies
                (ap (reply_with create_room_fail (codes "Room exists!")) id ∙ rw (n₁, n₂, three)))
        | inr n₃ ↦
            rw (n₁, n₂, n₃, accept-none fd m create_room_succ t live')
              (replies (ap (reply_with create_room_succ []) id ∙ rw (n₁, n₂, n₃)))
      ]
    ]
  ]
    where
      live' : t.member_live m ≡ true
      live' = ap (λ f. f m) c.kept.0 ∙ live

      id : t.member_id m ≡ s.member_id m
      id = ap (λ f. f m) c.kept.1

      reply_with : ℕ → List ℕ → ℕ → Server
      reply_with type text i = replied fd type i text t

      replies :
          {u : Server}
          → u ≡ replied fd (create_reply_type code) (s.member_id m) (create_reply_text code) t
          → CreateReplied fd s ms rs roster fresh m name u
      replies e = record { code = code; before = t; done = c; answer = e }

-- A member's request to create a room, under the conditions of create_room-Created and with a zero
-- byte behind the name, ends without a fault: create_room runs, and its code decides the reply to the
-- member: the matching failure text for 1, 2 and 3, and success without a text otherwise.
pub process_create_room_request-CreateReplied :
    (fd : ℕ) (s : Server) (ms rs : List Ptr) (roster : Ptr → List Ptr) (fresh m : Ptr)
    (msgdata : List ℕ)
    → Inv s ms rs roster
    → has m ms ≡ true
    → fresh ≢ null
    → s.room_live fresh ≡ false
    → TailIsLast s rs
    → has_zero msgdata ≡ true
    → length (c_str msgdata) ≢ max_room_name_len
    → Ends
        (λ a. CreateReplied fd s ms rs roster fresh m (c_str msgdata) a.1)
        (process_create_room_request fd fresh m msgdata s)
unfolding process_create_room_request
process_create_room_request-CreateReplied fd s ms rs roster fresh m msgdata v hm ne unused at z
      fits =
    rw z (
      Ends-bind (λ a. CreateReplied fd s ms rs roster fresh m (c_str msgdata) a.1)
        (create_room fresh (c_str msgdata) s) (λ r. report_create_room fd m r.0 r.1)
        (Ends-mono (λ a. Created s ms rs roster fresh (c_str msgdata) a.0 a.1) _
          (create_room fresh (c_str msgdata) s)
          (λ a c.
            report_create_room-Ends fd s ms rs roster fresh m (c_str msgdata)
              (member_live_lem s ms m hm v.members).0 a.0 a.1 c)
          (create_room-Created s ms rs roster fresh (c_str msgdata) v ne unused at fits)))
