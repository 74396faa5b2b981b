-- ===== src/Examples/State.antt =====
-- A small state of the server: the room "c" at 11 with the members at 21 and 22, the room "cpp" at
-- 12 with none, and a member at 23 in no room. The member at 22 was quiet since the last sweep, and
-- room 12 was empty.
use csc469_a.Base.{
  ◌≡◌, ◌≢◌, refl, sym, subst, true, false, List, [], ◌∷◌, inl, inr, arith, ◌==◌, if◌then◌else◌, has,
  codes, eq_cases, ◌≤◌, length, Distinct,
}
use csc469_a.Protocol.{max_num_of_members_per_room}
use csc469_a.Chain.Segment.{IsChain}
use csc469_a.Chain.{Ptr, null}
use csc469_a.Server.{Server, room_links}
use csc469_a.Session.{Inv, Members, Rooms, Rosters}

-- The value of `p` in a table.
abbrev pub entry {ℓ} : {A : Type ℓ} → List (Ptr × A) → A → Ptr → A
entry [] d p = d
entry ((q, a) ∷ rows) d p = if p == q then a else entry rows d p

abbrev pub state : Server
state = record {
  member_live = entry ((21, true) ∷ (22, true) ∷ (23, true) ∷ []) false;
  member_id = entry ((21, 700) ∷ (22, 800) ∷ (23, 900) ∷ []) 0;
  member_name = entry ((21, codes "ann") ∷ (22, codes "bob") ∷ (23, codes "cid") ∷ []) [];
  quiet_flag = entry ((22, 1) ∷ []) 0;
  member_udp_addr = λ p. record { sin_addr = 10; sin_port = p };
  num_chat_msgs = λ p. 0;
  num_bytes_rcved = λ p. 0;
  next_member = entry ((21, 22) ∷ (22, 23) ∷ []) null;
  prev_member = entry ((22, 21) ∷ (23, 22) ∷ []) null;
  next_room_member = entry ((21, 22) ∷ []) null;
  prev_room_member = entry ((22, 21) ∷ []) null;
  current_room = entry ((21, 11) ∷ (22, 11) ∷ []) null;
  room_live = entry ((11, true) ∷ (12, true) ∷ []) false;
  room_name = entry ((11, codes "c") ∷ (12, codes "cpp") ∷ []) [];
  next_room = entry ((11, 12) ∷ []) null;
  num_of_members = entry ((11, 2) ∷ []) 0;
  empty_flag = entry ((12, 1) ∷ []) 0;
  member_list_head = entry ((11, 21) ∷ []) null;
  member_list_tail = entry ((11, 22) ∷ []) null;
  mem_list_head = 21;
  mem_list_tail = 23;
  room_list_head = 11;
  room_list_tail = 12;
  total_num_of_members = 3;
  total_num_of_rooms = 2;
  sent = [];
}

abbrev pub members : List Ptr
members = 21 ∷ 22 ∷ 23 ∷ []

abbrev pub rooms : List Ptr
rooms = 11 ∷ 12 ∷ []

abbrev pub roster : Ptr → List Ptr
roster = entry ((11, 21 ∷ 22 ∷ []) ∷ []) []

-- What holds of each element of a list of two.
both : (a b : Ptr) (P : Ptr → Type 0) → P a → P b → (p : Ptr) → has p (a ∷ b ∷ []) ≡ true → P p
both a b P x y p h = elim (eq_cases p a) [
  | inl e ↦ subst P (sym e) x
  | inr n ↦ elim (eq_cases p b) [ inl e ↦ subst P (sym e) y | inr n' ↦ absurd (neither n n') ]
]
  where
    neither : (p == a) ≡ false → (p == b) ≡ false → ⊥
    neither n n' = ground arith

each :
    (a b c : Ptr) (P : Ptr → Type 0)
    → P a
    → P b
    → P c
    → (p : Ptr) → has p (a ∷ b ∷ c ∷ []) ≡ true
    → P p
each a b c P x y z p h = elim (eq_cases p a) [
  | inl e ↦ subst P (sym e) x
  | inr n ↦ both b c P y z p (ground arith)
]

state-Members : Members state members
state-Members = record {
  chain = (
    refl,
    omega arith,
    refl,
    refl,
    (refl, omega arith, refl, refl, (refl, omega arith, refl, refl, (refl, refl))),
  );
  distinct = (refl, (refl, (refl, tt)));
  counted = refl;
  bounded = omega arith;
}

state-Rooms : Rooms state rooms
state-Rooms = record {
  walk = (refl, omega arith, refl, (refl, omega arith, refl, refl));
  distinct = (refl, (refl, tt));
  counted = refl;
  bounded = omega arith;
  null_dead = refl;
}

state-Rosters : Rosters state members rooms roster
state-Rosters = record {
  chain =
      both 11 12 (λ r. IsChain state.member_live (room_links r state) (roster r))
        (refl, omega arith, refl, refl, (refl, omega arith, refl, refl, (refl, refl))) (refl, refl);
  distinct = both 11 12 (λ r. Distinct (roster r)) (refl, (refl, tt)) tt;
  counted = both 11 12 (λ r. state.num_of_members r ≡ length (roster r)) refl refl;
  bounded =
      both 11 12 (λ r. length (roster r) ≤ max_num_of_members_per_room) (omega arith) (omega arith);
  home = λ r m hr. at_home r hr m;
  housed =
      each 21 22 23
        (λ m.
          state.current_room m ≢ null
          → (has (state.current_room m) rooms ≡ true)
            × (has m (roster (state.current_room m)) ≡ true))
        (λ n. (refl, refl)) (λ n. (refl, refl)) (λ n. absurd (n refl));
}
  where
    Home : Ptr → Type 0
    Home r =
        (m : Ptr) → has m (roster r) ≡ true → (has m members ≡ true) × (state.current_room m ≡ r)

    at_home : (r : Ptr) → has r rooms ≡ true → Home r
    at_home =
        both 11 12 Home
          (both 21 22 (λ m. (has m members ≡ true) × (state.current_room m ≡ 11)) (refl, refl)
            (refl, refl))
          (λ m h. cc)

-- The lists are those of the state.
pub state-Inv : Inv state members rooms roster
state-Inv = record { members = state-Members; rooms = state-Rooms; rosters = state-Rosters }
