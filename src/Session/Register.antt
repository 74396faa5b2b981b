-- ===== src/Session/Register.antt =====
-- process_register_request on its branches, for a socket whose peer getpeername gives.
use csc469_a.Base.{
  ℕ, ◌+◌, ◌<◌, ◌≡◌, ◌≢◌, refl, ap, ◌∙◌, false, List, [], ◌∷◌, ◌++◌, inl, inr, arith, ◌==◌, update,
  has, length, same, eq_self, Bool-cases, ne_of_test, take, drop, some, ok, Ends, Ends-mono, codes,
}
use csc469_a.Protocol.{
  max_member_name_len, max_num_of_members, register_succ, register_fail, control_msghdr_size,
  header_bytes, c_str, u16_at,
}
use csc469_a.Chain.{Ptr, null, Links}
use csc469_a.Search.{first, first_cong, search-first, Walk, Walk-of_Seg, Walk-cases}
use csc469_a.Server.{Server, ◌>>◌, reply, send_control_msg_reply}
use csc469_a.Server.Registration.{
  process_register_request, new_member, insert_member, find_member_name, link_member, confirm,
}
use csc469_a.Session.{Inv, Members}
use csc469_a.Session.Rules.{Ends-seq}
use csc469_a.Session.Find.{replied, send_some}
use csc469_a.Session.Enrol.{enrolled, listed, not_listed, old, enrolled-Inv, link_member-Ends}
use csc469_a.Session.Draw.{first_free, first_free_cong, create_id-first_free}

-- The member of a name, on the list.
abbrev pub member_named : Server → List ℕ → List Ptr → Ptr
member_named s name = first (λ p. same (s.member_name p) name) null

-- The state in which `fresh` is a member, with the fields that the request and getpeername give.
pub record Enrolled (fd : ℕ) (s : Server) (ms rs : List Ptr) (roster : Ptr → List Ptr) (fresh : Ptr)
    (name : List ℕ) (port ip id : ℕ) (t : Server) : Type 0 where
  pub inv : Inv t (ms ++ (fresh ∷ [])) rs roster
  pub id_at : t.member_id ≡ update (update s.member_id fresh 0) fresh id
  pub name_at : t.member_name ≡ update s.member_name fresh (take max_member_name_len name)
  pub addr_at : t.member_udp_addr fresh ≡ record { sin_addr = ip; sin_port = port }
  pub homeless : t.current_room fresh ≡ null
  pub awake : t.quiet_flag fresh ≡ 0
  pub tail : t.room_list_tail ≡ s.room_list_tail
  pub room_names : t.room_name ≡ s.room_name
  pub output : t.sent ≡ reply fd (header_bytes register_succ id control_msghdr_size) ∷ s.sent

-- What a request to register leads to.
pub record Registered (fd : ℕ) (s : Server) (ms rs : List Ptr) (roster : Ptr → List Ptr)
    (fresh : Ptr) (name : List ℕ) (port ip id : ℕ) (t : Server) : Type 0 where
  pub full :
      length ms ≡ max_num_of_members
      → t ≡ replied fd register_fail 0 (codes "Number of members reached maximum!") s
  -- the object stays allocated
  pub in_use :
      length ms ≢ max_num_of_members
      → member_named s (take max_member_name_len name) ms ≢ null
      → t
        ≡ replied fd register_fail 0
            (codes "Name has already been used!")
            (enrolled s fresh name port ip)
  pub added :
      length ms ≢ max_num_of_members
      → member_named s (take max_member_name_len name) ms ≡ null
      → Enrolled fd s ms rs roster fresh name port ip id t

find_member_name_lem :
    (s : Server) (ms : List Ptr) (name : List ℕ)
    → Members s ms
    → find_member_name name s ≡ ok (member_named s name ms, s)
unfolding find_member_name
find_member_name_lem s ms name v = rw (
    search-first s.member_live s.next_member null (s.total_num_of_members + 1)
      (λ p. same (s.member_name p) name) s.mem_list_head ms
      (Walk-of_Seg s.member_live s.next_member s.prev_member null s.mem_list_head ms s.mem_list_tail
        v.chain)
      (omega (arith, v.counted)))

module _ (fd : ℕ) (s : Server) (ms rs : List Ptr) (roster : Ptr → List Ptr) (fresh : Ptr)
    (name : List ℕ) (port ip rand_max : ℕ) (draws : List ℕ) (id : ℕ) (v : Inv s ms rs roster)
    (ne : fresh ≢ null) (unused : s.member_live fresh ≡ false)
    (drawn : first_free s.member_id ms rand_max draws ≡ some id) where
  abbrev u : Server
  u = enrolled s fresh name port ip

  alloc : Inv u ms rs roster
  alloc = enrolled-Inv s ms rs roster fresh name port ip v unused

  out : has fresh ms ≡ false
  out = not_listed s ms rs roster fresh name port ip v unused

  still_drawn : first_free (update s.member_id fresh 0) ms rand_max draws ≡ some id
  still_drawn =
      first_free_cong (update s.member_id fresh 0) s.member_id ms rand_max draws
        (λ a h. rw (old s ms rs roster fresh name port ip v unused a h))
      ∙ drawn

  -- What the accept message leaves.
  confirmed :
      (links : Links)
      → Inv (listed u links) (ms ++ (fresh ∷ [])) rs roster
      → links.tail ≡ fresh
      → Ends
          (λ a. Enrolled fd s ms rs roster fresh name port ip id a.1)
          (confirm fd rand_max draws (listed u links))
  unfolding confirm send_control_msg_reply
  confirmed links w at =
      rw
        (create_id-first_free (listed u links) ms fresh rand_max draws id w.members out at
          still_drawn)
        (record {
          inv = record { members = w.members; rooms = w.rooms; rosters = w.rosters };
          id_at = ap (λ p. update (update s.member_id fresh 0) p id) at;
          name_at = refl;
          addr_at = rw (eq_self fresh);
          homeless = rw (eq_self fresh);
          awake = rw (eq_self fresh);
          tail = refl;
          room_names = refl;
          output = rw (eq_self links.tail);
        })

  enrol-Ends :
      length ms < max_num_of_members
      → Ends
          (λ a. Enrolled fd s ms rs roster fresh name port ip id a.1)
          ((link_member fresh >> confirm fd rand_max draws) u)
  enrol-Ends free =
      Ends-seq (λ a. Enrolled fd s ms rs roster fresh name port ip id a.1) (link_member fresh)
        (confirm fd rand_max draws) u
        (link_member-Ends u ms rs roster fresh alloc out free (rw (eq_self fresh))
          (λ t.
            Ends (λ a. Enrolled fd s ms rs roster fresh name port ip id a.1)
              (confirm fd rand_max draws t))
          (rw (eq_self fresh)) ne (rw (eq_self fresh)) (rw (eq_self fresh)) confirmed)

  same_names : (n : List ℕ) → member_named u n ms ≡ member_named s n ms
  same_names n =
      first_cong (λ p. same (u.member_name p) n) (λ p. same (s.member_name p) n) null ms
        (λ a h. rw (old s ms rs roster fresh name port ip v unused a h))

  -- The member is added, and no other case of Registered applies.
  added_only :
      length ms < max_num_of_members
      → member_named s (take max_member_name_len name) ms ≡ null
      → (t : Server) → Enrolled fd s ms rs roster fresh name port ip id t
      → Registered fd s ms rs roster fresh name port ip id t
  added_only free new t e = record {
    full = λ f. absurd (omega arith);
    in_use = λ _ n. absurd (n new);
    added = λ _ _. e;
  }

  add-Ends :
      length ms < max_num_of_members
      → member_named s (take max_member_name_len name) ms ≡ null
      → Ends
          (λ a. Registered fd s ms rs roster fresh name port ip id a.1)
          ((link_member fresh >> confirm fd rand_max draws) u)
  add-Ends free new =
      Ends-mono (λ a. Enrolled fd s ms rs roster fresh name port ip id a.1) _
        ((link_member fresh >> confirm fd rand_max draws) u) (λ a e. added_only free new a.1 e)
        (enrol-Ends free)

  -- The look-up of the new member's own name.
  looked_up :
      find_member_name (update s.member_name fresh (take max_member_name_len name) fresh) u
      ≡ ok (member_named s (take max_member_name_len name) ms, u)
  looked_up =
      ap (λ n. find_member_name n u) own
      ∙ find_member_name_lem u ms (take max_member_name_len name) alloc.members
      ∙ ap (λ p. ok (p, u)) (same_names (take max_member_name_len name))
    where
      own :
          update s.member_name fresh (take max_member_name_len name) fresh
          ≡ take max_member_name_len name
      own = rw (eq_self fresh)

  insert-Ends :
      length ms < max_num_of_members
      → Ends
          (λ a. Registered fd s ms rs roster fresh name port ip id a.1)
          (insert_member fd rand_max draws fresh u)
  unfolding insert_member
  insert-Ends free = elim (Walk-cases s.member_live s.next_member null s.mem_list_head ms walk) [
    | inl (nobody, h) ↦ rw h (add-Ends free (rw nobody))
    | inr (someone, h) ↦
        elim (Bool-cases (member_named s (take max_member_name_len name) ms == null)) [
          | inl new ↦ rw (h, looked_up, new) (add-Ends free (ground arith))
          | inr taken ↦
              rw
                (
                  h,
                  looked_up,
                  taken,
                  send_some fd register_fail 0 (codes "Name has already been used!") u
                      (omega arith),
                )
                (record {
                  full = λ f. absurd (omega arith);
                  in_use = λ _ _. refl;
                  added = λ _ new. absurd (ne_of_test _ _ taken new);
                })
        ]
  ]
    where
      walk : Walk s.member_live s.next_member null s.mem_list_head ms
      walk =
          Walk-of_Seg s.member_live s.next_member s.prev_member null s.mem_list_head ms
            s.mem_list_tail v.members.chain

-- A request to register, when getpeername succeeds, malloc gives an unused object, and a value of
-- rand among the draws gives an id that no member has, ends without a fault. With 1200 members it is
-- refused and nothing changes; with a name (its first 24 bytes) in use it is refused and only the
-- object that was allocated for it differs. Otherwise the new member is added behind the others, in no room, under the first drawn id that is free, with
-- its name and address, and is told its id; the invariant holds again.
pub process_register_request-Registered :
    (fd : ℕ) (s : Server) (ms rs : List Ptr) (roster : Ptr → List Ptr) (fresh : Ptr)
    (ip rand_max : ℕ) (draws buf : List ℕ) (id : ℕ)
    → Inv s ms rs roster
    → fresh ≢ null
    → s.member_live fresh ≡ false
    → first_free s.member_id ms rand_max draws ≡ some id
    → Ends
        (λ a. Registered fd s ms rs roster fresh (c_str (drop 10 buf)) (u16_at buf 8) ip id a.1)
        (process_register_request fd rand_max draws fresh (some ip) buf s)
unfolding process_register_request new_member
process_register_request-Registered fd s ms rs roster fresh ip rand_max draws buf id v ne unused
      drawn =
    elim (Bool-cases (s.total_num_of_members == max_num_of_members)) [
      | inl full ↦
          rw
            (
              full,
              send_some fd register_fail 0 (codes "Number of members reached maximum!") s
                  (omega arith),
            )
            (record {
              full = λ _. refl;
              in_use = λ n. absurd (n (ground (arith, v.members.counted)));
              added = λ n. absurd (n (ground (arith, v.members.counted)));
            })
      | inr place ↦
          let got : (fresh == null) ≡ false = ground arith in
          rw (place, got)
            (insert-Ends fd s ms rs roster fresh (c_str (drop 10 buf)) (u16_at buf 8) ip rand_max
              draws id v ne unused drawn (ground (arith, v.members.counted, v.members.bounded)))
    ]
