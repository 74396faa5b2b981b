-- ===== src/Session/Enrol.antt =====
-- process_register_request up to the member's place in the list.
use csc469_a.Base.{
  ℕ, ◌+◌, ◌<◌, ◌≡◌, ◌≢◌, ap, ◌∙◌, true, false, List, [], ◌∷◌, ◌++◌, inl, inr, arith, ◌==◌, update,
  has, length, last_or-snoc, has-append, length-append, Distinct-snoc, eq_cases, Bool-cases,
  ne_of_has, take, Ends,
}
use csc469_a.Protocol.{max_member_name_len, max_num_of_members}
use csc469_a.Chain.{Ptr, null, Links}
use csc469_a.Chain.Segment.{IsChain, Seg-frame, Seg-last}
use csc469_a.Chain.Append.{Appended, append_tail_lem}
use csc469_a.Server.{Server, member_links, set_member_links}
use csc469_a.Server.Registration.{link_member}
use csc469_a.Session.{Inv}
use csc469_a.Session.Rules.{Ends-lift}
use csc469_a.Session.Remove.{member_live_lem}

-- The state once the new object is filled in.
abbrev pub enrolled : Server → Ptr → List ℕ → ℕ → ℕ → Server
enrolled s fresh name port ip = record s {
  member_live = update s.member_live fresh true;
  member_id = update s.member_id fresh 0;
  member_name = update s.member_name fresh (take max_member_name_len name);
  quiet_flag = update s.quiet_flag fresh 0;
  member_udp_addr =
      update (update s.member_udp_addr fresh (record { sin_addr = 0; sin_port = port })) fresh
        (record { sin_addr = ip; sin_port = port });
  num_chat_msgs = update s.num_chat_msgs fresh 0;
  num_bytes_rcved = update s.num_bytes_rcved fresh 0;
  next_member = update s.next_member fresh null;
  prev_member = update s.prev_member fresh null;
  next_room_member = update s.next_room_member fresh null;
  prev_room_member = update s.prev_room_member fresh null;
  current_room = update s.current_room fresh null;
}

-- The state once the member is behind the others and counted.
abbrev pub listed : Server → Links → Server
listed s links = record (set_member_links links s) {
  total_num_of_members = s.total_num_of_members + 1;
}

module _ (s : Server) (ms rs : List Ptr) (roster : Ptr → List Ptr) (fresh : Ptr) (name : List ℕ)
    (port ip : ℕ) (v : Inv s ms rs roster) (unused : s.member_live fresh ≡ false) where
  pub not_listed : has fresh ms ≡ false
  not_listed = elim (Bool-cases (has fresh ms)) [
    | inl there ↦ cc (unused, (member_live_lem s ms fresh there v.members).0)
    | inr gone ↦ gone
  ]

  pub old : (a : Ptr) → has a ms ≡ true → (a == fresh) ≡ false
  old a h = ground (arith, ne_of_has fresh a ms not_listed h)

  -- An object that is not linked is not part of any list.
  pub enrolled-Inv : Inv (enrolled s fresh name port ip) ms rs roster
  enrolled-Inv = record {
    members = record {
      chain =
          Seg-frame s.member_live s.next_member s.prev_member (update s.member_live fresh true)
            (update s.next_member fresh null) (update s.prev_member fresh null) null s.mem_list_head
            ms s.mem_list_tail null v.members.chain (λ a h. let n = old a h in (rw n, rw n, rw n));
      distinct = v.members.distinct;
      counted = v.members.counted;
      bounded = v.members.bounded;
    };
    rooms = v.rooms;
    rosters = record {
      chain = λ r hr.
          Seg-frame s.member_live s.next_room_member s.prev_room_member
            (update s.member_live fresh true) (update s.next_room_member fresh null)
            (update s.prev_room_member fresh null) null (s.member_list_head r) (roster r)
            (s.member_list_tail r) null (v.rosters.chain r hr)
            (λ a h. let n = old a (v.rosters.home r a hr h).0 in (rw n, rw n, rw n));
      distinct = v.rosters.distinct;
      counted = v.rosters.counted;
      bounded = v.rosters.bounded;
      home = λ r a hr h. let (there, at) = v.rosters.home r a hr h in (there, rw (old a there) at);
      housed = λ a h n. rw (old a h) (v.rosters.housed a h (rw (old a h) at n));
    };
  }

module _ (s : Server) (ms rs : List Ptr) (roster : Ptr → List Ptr) (m : Ptr)
    (v : Inv s ms rs roster) (out : has m ms ≡ false) (free : length ms < max_num_of_members)
    (homeless : s.current_room m ≡ null) where
  listed-Inv :
      (links : Links)
      → IsChain s.member_live links (ms ++ (m ∷ []))
      → Inv (listed s links) (ms ++ (m ∷ [])) rs roster
  listed-Inv links chain = record {
    members = record {
      chain = chain;
      distinct = Distinct-snoc m ms v.members.distinct out;
      counted = omega (arith, v.members.counted, length-append ms (m ∷ []));
      bounded = omega (arith, free, length-append ms (m ∷ []));
    };
    rooms = v.rooms;
    rosters = record {
      chain = v.rosters.chain;
      distinct = v.rosters.distinct;
      counted = v.rosters.counted;
      bounded = v.rosters.bounded;
      home = λ r a hr h.
          let (there, at) = v.rosters.home r a hr h in
          (ground (arith, has-append a ms (m ∷ []), there), at);
      housed = λ a h n. elim (eq_cases a m) [
        | inl e ↦ absurd (n (ap s.current_room e ∙ homeless))
        | inr other ↦ v.rosters.housed a (ground (arith, has-append a ms (m ∷ []))) n
      ];
    };
  }

  -- The member is put behind the others without a fault.
  pub link_member-Ends :
      (P : Server → Type 0)
      → s.member_live m ≡ true
      → m ≢ null
      → s.next_member m ≡ null
      → s.prev_member m ≡ null
      → ((links : Links)
          → Inv (listed s links) (ms ++ (m ∷ [])) rs roster
          → links.tail ≡ m
          → P (listed s links))
      → Ends (λ a. P a.1) (link_member m s)
  unfolding link_member
  link_member-Ends P live ne nx pv then_ =
      Ends-lift (λ a. P a.1) (Appended s.member_live m ms (member_links s)) _ s _
        (append_tail_lem s.member_live (member_links s) m ms v.members.chain v.members.distinct out
          live ne nx pv)
        (λ links u. then_ links (listed-Inv links u.0) (
          Seg-last s.member_live links.next links.prev null links.head (ms ++ (m ∷ [])) links.tail
            null u.0
          ∙ last_or-snoc null m ms))
