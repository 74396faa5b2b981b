-- ===== src/Session/Safe/Requests.antt =====
-- The requests and chat messages keep the server sound.
use csc469_a.Base.{
  ℕ, ◌≡◌, ◌≢◌, ◌⊎◌, inl, inr, refl, ◌∙◌, sym, subst, true, List, [], ◌∷◌, has, erase, length,
  of_has-erase, eq_cases, ne_of_test, Ends, Ends-mono, codes,
}
use csc469_a.Protocol.{
  switch_room_fail, room_list_fail, room_list_succ, member_list_fail, member_list_succ, c_str,
  max_num_of_members_per_room,
}
use csc469_a.Chain.{Ptr, null}
use csc469_a.Server.{Server}
use csc469_a.Server.Requests.{
  process_switch_room_request, process_room_list_request, process_member_list_request,
  process_quit_request,
}
use csc469_a.Session.Find.{replied, room_named}
use csc469_a.Session.Switch.{Switched, SwitchedTo, process_switch_room_request-Switched}
use csc469_a.Session.Remove.{remove_free-Ends, rosters_without}
use csc469_a.Session.ListReplies.{
  process_room_list_request-RoomsListed, process_member_list_request-MembersListed,
}
use csc469_a.Session.ListTexts.{member_text}
use csc469_a.Session.Safe.{Good, Sound, replied-Sound, NamesFit-kept}

-- A list is empty or not.
pub empty_or : (l : List Ptr) → (l ≡ []) ⊎ (l ≢ [])
empty_or [] = inl refl
empty_or (x ∷ xs) = inr (λ e. cc)

abbrev pub back : (P : Server → Type 0) (u t : Server) → t ≡ u → P u → P t
back P u t e = subst P (sym e)

module _ (s : Server) (ms rs : List Ptr) (roster : Ptr → List Ptr) (g : Good s ms rs roster) where
  here : Sound s
  here = (ms, rs, roster, g)

  abbrev answered : (fd type id : ℕ) (text : List ℕ) → Sound (replied fd type id text s)
  answered fd type id text = replied-Sound fd type id text s here

  SwitchedTo-Sound :
      (fd : ℕ) (m rt : Ptr) (t : Server) → SwitchedTo fd s ms rs roster m rt t → Sound t
  SwitchedTo-Sound fd m rt t w = elim (eq_cases (length (roster rt)) max_num_of_members_per_room) [
    | inl full ↦
        back Sound _ t (w.full full)
          (answered fd switch_room_fail (s.member_id m) (codes "Room is full!"))
    | inr room ↦ elim (eq_cases (s.current_room m) rt) [
      | inl at ↦
          back Sound _ t (w.already (ne_of_test _ _ room) at)
            (answered fd switch_room_fail (s.member_id m) (codes "Already in this room!"))
      | inr away ↦
          let moved = w.moved (ne_of_test _ _ room) (ne_of_test _ _ away) in
          (
            ms,
            rs,
            _,
            record {
              inv = moved.inv;
              tail = moved.tail ∙ g.tail;
              room_names = NamesFit-kept _ _ rs moved.names.0 g.room_names;
              member_names = NamesFit-kept _ _ ms moved.names.1 g.member_names;
            },
          )
    ]
  ]

  Switched-Sound :
      (fd : ℕ) (m : Ptr) (name : List ℕ) (t : Server)
      → Switched fd s ms rs roster m name t
      → Sound t
  Switched-Sound fd m name t w = elim (eq_cases (room_named s name rs) null) [
    | inl gone ↦ elim (empty_or rs) [
      | inl none_left ↦
          back Sound _ t (w.no_rooms none_left)
            (answered fd switch_room_fail (s.member_id m) (codes "No room available yet!"))
      | inr some_left ↦
          back Sound _ t (w.not_found some_left gone)
            (answered fd switch_room_fail (s.member_id m) (codes "Room not found!"))
    ]
    | inr found ↦ SwitchedTo-Sound fd m _ t (w.found (ne_of_test _ _ found))
  ]

  pub switch-Sound :
      (fd : ℕ) (m : Ptr) (msgdata : List ℕ)
      → has m ms ≡ true
      → Ends (λ a. Sound a.1) (process_switch_room_request fd m msgdata s)
  switch-Sound fd m msgdata hm =
      Ends-mono (λ a. Switched fd s ms rs roster m (c_str msgdata) a.1) (λ a. Sound a.1) _
        (λ a w. Switched-Sound fd m (c_str msgdata) a.1 w)
        (process_switch_room_request-Switched fd s ms rs roster m g.inv hm msgdata)

  pub quit-Sound : (m : Ptr) → has m ms ≡ true → Ends (λ a. Sound a.1) (process_quit_request m s)
  unfolding process_quit_request
  quit-Sound m hm = remove_free-Ends Sound s ms rs roster m g.inv hm (λ t k w. (
    erase m ms,
    rs,
    rosters_without s m roster,
    record {
      inv = w;
      tail = k.tail ∙ g.tail;
      room_names = NamesFit-kept _ _ rs k.room_names g.room_names;
      member_names = λ p h.
          NamesFit-kept _ _ ms k.names g.member_names p
            (of_has-erase p m ms g.inv.members.distinct h).0;
    },
  ))

  pub room_list-Sound :
      (fd : ℕ) (m : Ptr)
      → has m ms ≡ true
      → Ends (λ a. Sound a.1) (process_room_list_request fd m s)
  room_list-Sound fd m hm =
      let w =
        process_room_list_request-RoomsListed fd s ms rs roster m g.inv hm g.tail g.room_names in
      elim (empty_or rs) [
        | inl none_left ↦
            rw (w.empty none_left)
              (answered fd room_list_fail (s.member_id m) (codes "No rooms available!"))
        | inr some_left ↦ rw (w.listed some_left) (answered fd room_list_succ (s.member_id m) _)
      ]

  pub member_list-Sound :
      (fd : ℕ) (m : Ptr) (msgdata : List ℕ)
      → has m ms ≡ true
      → Ends (λ a. Sound a.1) (process_member_list_request fd m msgdata s)
  member_list-Sound fd m msgdata hm =
      let w =
        process_member_list_request-MembersListed fd s ms rs roster m g.inv hm msgdata
          g.member_names in
      let room = room_named s (c_str msgdata) rs in
      elim (eq_cases room null) [
        | inl gone ↦ elim (empty_or rs) [
          | inl none_left ↦
              rw (w.no_room none_left)
                (answered fd member_list_fail (s.member_id m) (codes "No room available yet!"))
          | inr some_left ↦
              rw (w.unknown some_left gone)
                (answered fd member_list_fail (s.member_id m) (codes "Room not found!"))
        ]
        | inr found ↦ elim (empty_or (roster room)) [
          | inl nobody ↦
              rw (w.empty (ne_of_test _ _ found) nobody)
                (answered fd member_list_fail (s.member_id m) (codes "No member in this room!"))
          | inr somebody ↦
              rw (w.listed (ne_of_test _ _ found) somebody)
                (answered fd member_list_succ (s.member_id m) (member_text s (roster room)))
        ]
      ]
