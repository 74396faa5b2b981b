-- ===== src/Session/Enter.antt =====
-- A member enters a room that it is not in, behind the room's other members.
use csc469_a.Base.{
  ◌+◌, ◌<◌, ◌≡◌, ◌≢◌, refl, sym, ◌∙◌, true, false, List, [], ◌∷◌, ◌++◌, inl, inr, arith, ◌==◌,
  update, has, erase, length, Distinct, has-append, length-append, of_has-erase, to_has-erase,
  eq_cases, eq_self, Bool-cases, Ends, Distinct-snoc,
}
use csc469_a.Protocol.{max_num_of_members_per_room}
use csc469_a.Chain.{Ptr, null, Links}
use csc469_a.Chain.Segment.{IsChain, Seg-frame}
use csc469_a.Chain.Append.{Appended, append_tail_lem}
use csc469_a.Server.{Server, room_links, set_room_links}
use csc469_a.Server.Members.{enter_room}
use csc469_a.Session.{Rosters}
use csc469_a.Session.Rules.{Ends-lift}
use csc469_a.Session.Leave.{rosters_apart}

-- The member's links and room are set before it is appended.
abbrev pub homed : Server → Ptr → Ptr → Server
homed s m rt = record s {
  next_room_member = update s.next_room_member m null;
  prev_room_member = update s.prev_room_member m null;
  current_room = update s.current_room m rt;
}

abbrev pub entered : Server → Ptr → Ptr → Links → Server
entered s m rt links = record (set_room_links rt links (homed s m rt)) {
  num_of_members = update s.num_of_members rt (s.num_of_members rt + 1);
  empty_flag = update s.empty_flag rt 0;
}

module _ (s : Server) (ms rs : List Ptr) (roster : Ptr → List Ptr) (m rt : Ptr) (dm : Distinct ms)
    (v : Rosters s (erase m ms) rs roster) (hm : has m ms ≡ true) (hr : has rt rs ≡ true) where
  -- Members on the lists are not `m`.
  other : (q a : Ptr) → has q rs ≡ true → has a (roster q) ≡ true → (a == m) ≡ false
  other q a hq ha = (of_has-erase a m ms dm (v.home q a hq ha).0).1

  not_in : (q : Ptr) → has q rs ≡ true → has m (roster q) ≡ false
  not_in q hq = elim (Bool-cases (has m (roster q))) [
    | inl there ↦ cc (other q m hq there, eq_self m)
    | inr gone ↦ gone
  ]

  homed-IsChain :
      (q : Ptr) → has q rs ≡ true → IsChain s.member_live (room_links q (homed s m rt)) (roster q)
  homed-IsChain q hq =
      Seg-frame s.member_live s.next_room_member s.prev_room_member s.member_live
        (update s.next_room_member m null) (update s.prev_room_member m null) null
        (s.member_list_head q) (roster q) (s.member_list_tail q) null (v.chain q hq)
        (λ a h. let ne = other q a hq h in (rw ne, rw ne, refl))

  module _ (room : length (roster rt) < max_num_of_members_per_room) where
    entered-Rosters :
        (links : Links)
        → Appended s.member_live m (roster rt) (room_links rt (homed s m rt)) links
        → Rosters (entered s m rt links) ms rs (update roster rt (roster rt ++ (m ∷ [])))
    entered-Rosters links (chain, off) = record {
      chain = λ q hq. elim (eq_cases q rt) [
        | inl e ↦ rw (e, eq_self rt) chain
        | inr ne ↦ rw ne (
            Seg-frame s.member_live (update s.next_room_member m null)
              (update s.prev_room_member m null) s.member_live links.next links.prev null
              (s.member_list_head q) (roster q) (s.member_list_tail q) null (homed-IsChain q hq)
              (λ a h.
                let apart = rosters_apart s (erase m ms) rs roster v rt q a hr hq ne h in
                let away : has a (roster rt ++ (m ∷ [])) ≡ false =
                  ground (arith, has-append a (roster rt) (m ∷ []), other q a hq h, apart) in
                let (n, p) = off a away in (n, p, refl)))
      ];
      distinct = λ q hq. elim (eq_cases q rt) [
        | inl e ↦ rw (e, eq_self rt) (Distinct-snoc m (roster rt) (v.distinct rt hr) (not_in rt hr))
        | inr ne ↦ rw ne (v.distinct q hq)
      ];
      counted = λ q hq. elim (eq_cases q rt) [
        | inl e ↦
            rw (e, eq_self rt) (omega (arith, v.counted rt hr, length-append (roster rt) (m ∷ [])))
        | inr ne ↦ rw ne (v.counted q hq)
      ];
      bounded = λ q hq. elim (eq_cases q rt) [
        | inl e ↦ rw (e, eq_self rt) (omega (arith, room, length-append (roster rt) (m ∷ [])))
        | inr ne ↦ rw ne (v.bounded q hq)
      ];
      home = λ q a hq ha. elim (eq_cases a m) [
        | inl e ↦ home_self q a hq e ha
        | inr ne ↦ home_other q a hq ne ha
      ];
      housed = λ a ha ne. elim (eq_cases a m) [
        | inl e ↦
            rw (e, eq_self m)
              (hr, rw (eq_self rt) (ground (arith, has-append m (roster rt) (m ∷ []))))
        | inr away ↦ rw away (housed_other a ha away (rw away at ne))
      ];
    }
      where
        roster' : Ptr → List Ptr
        roster' = update roster rt (roster rt ++ (m ∷ []))

        home_self :
            (q a : Ptr)
            → has q rs ≡ true
            → a ≡ m
            → has a (roster' q) ≡ true
            → (has a ms ≡ true) × (update s.current_room m rt a ≡ q)
        home_self q a hq e ha = elim (eq_cases q rt) [
          | inl e' ↦ (rw e hm, rw (e, eq_self m) (sym e'))
          | inr ne ↦
              let there : has a (roster q) ≡ true = rw ne at ha in
              let self : has m (roster q) ≡ true = rw e at there in cc (self, not_in q hq)
        ]

        home_other :
            (q a : Ptr)
            → has q rs ≡ true
            → (a == m) ≡ false
            → has a (roster' q) ≡ true
            → (has a ms ≡ true) × (update s.current_room m rt a ≡ q)
        home_other q a hq ne ha = elim (eq_cases q rt) [
          | inl e ↦
              let ha' : has a (roster rt ++ (m ∷ [])) ≡ true = rw (e, eq_self rt) at ha in
              let old : has a (roster rt) ≡ true =
                ground (arith, has-append a (roster rt) (m ∷ [])) in
              let (listed, at) = v.home rt a hr old in
              ((of_has-erase a m ms dm listed).0, rw ne (at ∙ sym e))
          | inr ne' ↦
              let (listed, at) = v.home q a hq (rw ne' at ha) in
              ((of_has-erase a m ms dm listed).0, rw ne at)
        ]

        housed_other :
            (a : Ptr)
            → has a ms ≡ true
            → (a == m) ≡ false
            → s.current_room a ≢ null
            → (has (s.current_room a) rs ≡ true) × (has a (roster' (s.current_room a)) ≡ true)
        housed_other a ha away ne =
            let (there, inside) = v.housed a (to_has-erase a m ms dm ha away) ne in
            (
              there,
              elim (eq_cases (s.current_room a) rt) [
                | inl e ↦
                    let old : has a (roster rt) ≡ true = rw e at inside in
                    rw (e, eq_self rt) (ground (arith, has-append a (roster rt) (m ∷ [])))
                | inr ne' ↦ rw ne' inside
              ],
            )

    -- The code appends `m` to the room without a fault.
    pub enter_room-Ends :
        (P : Server → Type 0)
        → s.member_live m ≡ true
        → m ≢ null
        → s.room_live rt ≡ true
        → ((links : Links)
            → Rosters (entered s m rt links) ms rs (update roster rt (roster rt ++ (m ∷ [])))
            → P (entered s m rt links))
        → Ends (λ a. P a.1) (enter_room m rt s)
    unfolding enter_room
    enter_room-Ends P lm ne lr then_ =
        let done =
          append_tail_lem s.member_live (room_links rt (homed s m rt)) m (roster rt)
            (homed-IsChain rt hr) (v.distinct rt hr) (not_in rt hr) lm ne (rw (eq_self m))
            (rw (eq_self m)) in
        rw (lm, lr)
          (Ends-lift (λ a. P a.1)
            (Appended s.member_live m (roster rt) (room_links rt (homed s m rt))) _ s _ done
            (λ links u. then_ links (entered-Rosters links u)))
