-- ===== src/Session/Leave.antt =====
-- A member leaves its room.
use csc469_a.Base.{
  ◌-◌, ◌≡◌, ◌≢◌, refl, sym, ap, ◌∙◌, true, false, List, inl, inr, arith, ◌==◌, update, has, erase,
  Distinct, Distinct-erase, length-erase, of_has-erase, to_has-erase, ne_of_has, Bool-cases,
  eq_cases, eq_self, Ends,
}
use csc469_a.Chain.{Ptr, null, Links}
use csc469_a.Chain.Segment.{Seg-frame}
use csc469_a.Chain.Unlink.{Unlinked, unlink-erase}
use csc469_a.Search.{Walk-live}
use csc469_a.Server.{Server, room_links, set_room_links}
use csc469_a.Server.Members.{leave_room}
use csc469_a.Session.Rules.{Ends-lift}
use csc469_a.Session.{Rosters, Rooms}

-- The state after member `m` is unlinked from room `r`.
abbrev pub left_room : Server → Ptr → Links → Server
left_room s r links = record (set_room_links r links s) {
  num_of_members = update s.num_of_members r (s.num_of_members r - 1);
}

module _ (s : Server) (ms rs : List Ptr) (roster : Ptr → List Ptr)
    (v : Rosters s ms rs roster) where
  -- Two rooms share no member.
  pub rosters_apart :
      (r q a : Ptr)
      → has r rs ≡ true
      → has q rs ≡ true
      → (q == r) ≡ false
      → has a (roster q) ≡ true
      → has a (roster r) ≡ false
  rosters_apart r q a hr hq ne h = elim (Bool-cases (has a (roster r))) [
    | inl there ↦ absurd (clash ((sym (v.home q a hq h).1) ∙ (v.home r a hr there).1))
    | inr gone ↦ gone
  ]
    where
      clash : q ≢ r
      clash e = ground arith

  -- A member that is in no room is not on any room's list.
  pub Rosters-without :
      (m : Ptr)
      → Rooms s rs
      → Distinct ms
      → s.current_room m ≡ null
      → Rosters s (erase m ms) rs roster
  Rosters-without m rooms d e = record {
    chain = v.chain;
    distinct = v.distinct;
    counted = v.counted;
    bounded = v.bounded;
    home = λ r a hr ha.
        let (listed, at) = v.home r a hr ha in
        let r_ne = (Walk-live s.room_live s.next_room null s.room_list_head rs r rooms.walk hr).1 in
        let other : (a == m) ≡ false = elim (eq_cases a m) [
          | inl f ↦ absurd (r_ne (sym at ∙ ap s.current_room f ∙ e))
          | inr ne ↦ ne
        ] in
        (to_has-erase a m ms d listed other, at);
    housed = λ a ha ne. v.housed a (of_has-erase a m ms d ha).0 ne;
  }

  module _ (m r : Ptr) (dm : Distinct ms) (hr : has r rs ≡ true)
      (hm : has m (roster r) ≡ true) where
    left_room-Rosters :
        (links : Links)
        → Unlinked s.member_live (roster r) (erase m (roster r)) (room_links r s) links
        → Rosters (left_room s r links) (erase m ms) rs (update roster r (erase m (roster r)))
    left_room-Rosters links (chain, off) = record {
      chain = λ q hq. elim (eq_cases q r) [
        | inl e ↦ rw (e, eq_self r) chain
        | inr ne ↦ rw ne (
            Seg-frame s.member_live s.next_room_member s.prev_room_member s.member_live links.next
              links.prev null (s.member_list_head q) (roster q) (s.member_list_tail q) null
              (v.chain q hq)
              (λ a h. let (n, p) = off a (rosters_apart r q a hr hq ne h) in (n, p, refl)))
      ];
      distinct = λ q hq. elim (eq_cases q r) [
        | inl e ↦ rw (e, eq_self r) (Distinct-erase m (roster r) (v.distinct r hr))
        | inr ne ↦ rw ne (v.distinct q hq)
      ];
      counted = λ q hq. elim (eq_cases q r) [
        | inl e ↦ rw (e, eq_self r) (omega (arith, v.counted r hr, length-erase m (roster r) hm))
        | inr ne ↦ rw ne (v.counted q hq)
      ];
      bounded = λ q hq. elim (eq_cases q r) [
        | inl e ↦ rw (e, eq_self r) (omega (arith, v.bounded r hr, length-erase m (roster r) hm))
        | inr ne ↦ rw ne (v.bounded q hq)
      ];
      home = λ q a hq ha. elim (eq_cases q r) [
        | inl e ↦
            let ha' : has a (erase m (roster r)) ≡ true = rw (e, eq_self r) at ha in
            let (old, other) = of_has-erase a m (roster r) (v.distinct r hr) ha' in
            let (listed, at) = v.home r a hr old in
            (to_has-erase a m ms dm listed other, at ∙ sym e)
        | inr ne ↦
            let ha' : has a (roster q) ≡ true = rw ne at ha in
            let (listed, at) = v.home q a hq ha' in
            let other = ne_of_has a m (roster r) (rosters_apart r q a hr hq ne ha') hm in
            (to_has-erase a m ms dm listed other, at)
      ];
      housed = λ a ha ne.
          let (listed, other) = of_has-erase a m ms dm ha in
          let (there, inside) = v.housed a listed ne in
          (
            there,
            elim (eq_cases (s.current_room a) r) [
              | inl e ↦
                  rw (e, eq_self r)
                    (to_has-erase a m (roster r) (v.distinct r hr) (rw e at inside) other)
              | inr away ↦ rw away inside
            ],
          );
    }

    -- The code unlinks `m` from its room without a fault, and the room's list loses `m` alone.
    pub leave_room-Ends :
        (P : Server → Type 0)
        → Rooms s rs
        → s.member_live m ≡ true
        → s.current_room m ≡ r
        → ((links : Links)
            → Rosters (left_room s r links) (erase m ms) rs (update roster r (erase m (roster r)))
            → P (left_room s r links))
        → Ends (λ a. P a.1) (leave_room m s)
    unfolding leave_room
    leave_room-Ends P rooms lm at then_ =
        let lr = (Walk-live s.room_live s.next_room null s.room_list_head rs r rooms.walk hr).0 in
        let done =
          unlink-erase s.member_live (room_links r s) m (roster r) (v.chain r hr) (v.distinct r hr)
            hm in
        let some_left : (s.num_of_members r == 0) ≡ false =
          ground (arith, v.counted r hr, length-erase m (roster r) hm) in
        rw (lm, at, lr, some_left)
          (Ends-lift _ _ _ s _ done (λ links u. then_ links (left_room-Rosters links u)))
