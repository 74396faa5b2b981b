-- ===== src/Session/Safe/Creation.antt =====
-- create_room keeps the server sound, and adds its name to the names of the rooms.
use csc469_a.Base.{
  ℕ, ◌<◌, ◌≡◌, ◌≢◌, inl, inr, refl, ap, ◌∙◌, sym, true, false, List, [], ◌∷◌, ◌++◌, has, update,
  length, arith, ◌==◌, eq_cases, ne_of_test, has-append, Ends, Ends-mono, ltb, Bool-cases, eq_self,
}
use csc469_a.Protocol.{c_str, has_zero, max_num_of_rooms, max_room_name_len}
use csc469_a.Chain.{Ptr, null}
use csc469_a.Server.{Server}
use csc469_a.Server.Rooms.{create_room}
use csc469_a.Server.Requests.{process_create_room_request}
use csc469_a.Session.Find.{room_named}
use csc469_a.Session.CreateReply.{CreateReplied, process_create_room_request-CreateReplied}
use csc469_a.Session.Create.{Created}
use csc469_a.Session.Added.{rosters_with, allocated, allocated-Inv, linked, old}
use csc469_a.Session.ListTexts.{NamesFit}
use csc469_a.Base.{map, not}
use csc469_a.Session.RoomNames.{
  enlist, named, length-map, map-append, map_cong, named-room_named, no_null,
}
use csc469_a.Session.Create.{create_room-Created}
use csc469_a.Session.Safe.Requests.{back}
use csc469_a.Session.Safe.{Good, Sound, replied-Sound, NamesFit-kept}

-- What create_room makes of the rooms `rs`.
pub record Grown (s : Server) (ms rs : List Ptr) (fresh : Ptr) (name : List ℕ) (t : Server)
    : Type 0 where
  pub rooms : List Ptr
  pub roster : Ptr → List Ptr
  pub good : Good t ms rooms roster
  pub names : map t.room_name rooms ≡ enlist (map s.room_name rs) name
  pub others : (p : Ptr) → (p == fresh) ≡ false → t.room_live p ≡ s.room_live p

pub Grown-Sound :
    {s : Server} (ms rs : List Ptr) (fresh : Ptr) (name : List ℕ) (u : Server)
    → Grown s ms rs fresh name u
    → Sound u
Grown-Sound ms rs fresh name u w = (ms, w.rooms, w.roster, w.good)

module _ (s : Server) (ms rs : List Ptr) (roster : Ptr → List Ptr) (g : Good s ms rs roster) where
  module _ (fresh : Ptr) (name : List ℕ) (ne : fresh ≢ null) (unused : s.room_live fresh ≡ false)
      (fits : length name ≢ max_room_name_len) where
    abbrev was : List (List ℕ)
    was = map s.room_name rs

    apart : (r : Ptr) → has r rs ≡ true → (r == fresh) ≡ false
    apart r h = old s ms rs roster fresh name g.inv ne unused r h

    allocated-Grown : enlist was name ≡ was → Grown s ms rs fresh name (allocated s fresh name)
    allocated-Grown no_more = record {
      rooms = rs;
      roster = roster;
      good = record {
        inv = allocated-Inv s ms rs roster fresh name g.inv ne unused;
        tail = g.tail;
        room_names = λ r h. rw (apart r h) (g.room_names r h);
        member_names = g.member_names;
      };
      names =
          map_cong (update s.room_name fresh name) s.room_name rs (λ r h. rw (apart r h) refl)
          ∙ sym no_more;
      others = λ p n. rw n refl;
    }

    linked_live : (linked s fresh name).room_live ≡ update s.room_live fresh true
    linked_live = elim (Bool-cases (s.room_list_head == null)) [ inl h ↦ rw h | inr h ↦ rw h ]

    linked_names : (linked s fresh name).room_name ≡ update s.room_name fresh name
    linked_names = elim (Bool-cases (s.room_list_head == null)) [ inl h ↦ rw h | inr h ↦ rw h ]

    linked_members : (linked s fresh name).member_name ≡ s.member_name
    linked_members = elim (Bool-cases (s.room_list_head == null)) [ inl h ↦ rw h | inr h ↦ rw h ]

    new_names :
        length name < max_room_name_len
        → NamesFit (update s.room_name fresh name) (rs ++ (fresh ∷ []))
    new_names few r h = elim (eq_cases r fresh) [
      | inl e ↦ rw (e, eq_self fresh) (omega arith)
      | inr n ↦ rw n (g.room_names r (ground (arith, has-append r rs (fresh ∷ []))))
    ]

    more_names : map (update s.room_name fresh name) (rs ++ (fresh ∷ [])) ≡ was ++ (name ∷ [])
    more_names =
        map-append (update s.room_name fresh name) rs (fresh ∷ [])
        ∙ rw
            (
              map_cong (update s.room_name fresh name) s.room_name rs (λ r h. rw (apart r h) refl),
              eq_self fresh,
            )
            refl

    found_lem : named name was ≡ not (room_named s name rs == null)
    found_lem = named-room_named s name rs (no_null s ms rs roster g.inv)

    same_length : length was ≡ length rs
    same_length = length-map s.room_name rs

    pub Created-Grown :
        (code : ℕ) (t : Server)
        → Created s ms rs roster fresh name code t
        → Grown s ms rs fresh name t
    Created-Grown code t w = elim (Bool-cases (ltb max_room_name_len (length name))) [
      | inl long ↦ back (Grown s ms rs fresh name) s t (w.too_long (ground arith)).1 (record {
        rooms = rs;
        roster = roster;
        good = g;
        names = rw long refl;
        others = λ p n. refl;
      })
      | inr short ↦
          let few : length name < max_room_name_len = ground arith in
          elim (eq_cases (length rs) max_num_of_rooms) [
            | inl full ↦
                let at_most : (length was == max_num_of_rooms) ≡ true =
                  ground (arith, same_length) in
                back (Grown s ms rs fresh name) _ t (w.too_many few full).1
                  (allocated-Grown (rw (short, at_most) refl))
            | inr room ↦
                let below : (length was == max_num_of_rooms) ≡ false = rw same_length room in
                elim (eq_cases (room_named s name rs) null) [
                  | inl new ↦
                      let (zero_code, e, inv, tail) = w.created few (ne_of_test _ _ room) new in
                      let unnamed : named name was ≡ false = found_lem ∙ rw new refl in
                      record {
                        rooms = rs ++ (fresh ∷ []);
                        roster = rosters_with fresh roster;
                        good = record {
                          inv = inv;
                          tail = tail;
                          room_names =
                              NamesFit-kept _ _ (rs ++ (fresh ∷ []))
                                (ap (λ z. z.room_name) e ∙ linked_names) (new_names few);
                          member_names =
                              NamesFit-kept _ _ ms (ap (λ z. z.member_name) e ∙ linked_members)
                                g.member_names;
                        };
                        names =
                            ap (λ f. map f (rs ++ (fresh ∷ [])))
                              (ap (λ z. z.room_name) e ∙ linked_names)
                            ∙ more_names
                            ∙ sym (rw (short, below, unnamed) refl);
                        others = λ p n.
                            ap (λ z. z.room_live p) e ∙ ap (λ f. f p) linked_live ∙ rw n refl;
                      }
                  | inr used ↦
                      let taken : named name was ≡ true = found_lem ∙ rw used refl in
                      back (Grown s ms rs fresh name) _ t
                        (w.exists few (ne_of_test _ _ room) (ne_of_test _ _ used)).1
                        (allocated-Grown (rw (short, below, taken) refl))
                ]
          ]
    ]

    pub create_room-Grown : Ends (λ a. Grown s ms rs fresh name a.1) (create_room fresh name s)
    create_room-Grown =
        Ends-mono (λ a. Created s ms rs roster fresh name a.0 a.1)
          (λ a. Grown s ms rs fresh name a.1) (create_room fresh name s)
          (λ a w. Created-Grown a.0 a.1 w)
          (create_room-Created s ms rs roster fresh name g.inv ne unused g.tail fits)

  pub create-Sound :
      (fd : ℕ) (fresh m : Ptr) (msgdata : List ℕ)
      → has m ms ≡ true
      → fresh ≢ null
      → s.room_live fresh ≡ false
      → has_zero msgdata ≡ true
      → length (c_str msgdata) ≢ max_room_name_len
      → Ends (λ a. Sound a.1) (process_create_room_request fd fresh m msgdata s)
  create-Sound fd fresh m msgdata hm ne unused z fits =
      Ends-mono (λ a. CreateReplied fd s ms rs roster fresh m (c_str msgdata) a.1) (λ a. Sound a.1)
        _
        (λ a w. back Sound _ a.1 w.answer (
          replied-Sound fd _ _ _ w.before (
            Grown-Sound ms rs fresh (c_str msgdata) w.before
              (Created-Grown fresh (c_str msgdata) ne unused fits w.code w.before w.done))))
        (process_create_room_request-CreateReplied fd s ms rs roster fresh m msgdata g.inv hm ne
          unused g.tail z fits)
