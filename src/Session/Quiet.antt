-- ===== src/Session/Quiet.antt =====
-- The member loop of the sweep, on the list of members.
use csc469_a.Base.{
  ℕ, zero, suc, ◌+◌, ◌<◌, ◌≡◌, ◌≢◌, refl, sym, subst, true, false, List, [], ◌∷◌, ◌++◌, inl, inr,
  arith, ◌==◌, update, has, length, Distinct, Bool-cases, Ends, Ends-mono, Run, has-append,
  Distinct-append,
}
use csc469_a.Chain.{Ptr, null}
use csc469_a.Chain.Segment.{Seg}
use csc469_a.Server.{Server}
use csc469_a.Server.Sweep.{sweep_members, sweep_member}
use csc469_a.Session.{Inv}
use csc469_a.Session.Rules.{Ends-bind}
use csc469_a.Session.Remove.{remove_free-Ends, member_live_lem, rosters_without}
use csc469_a.Session.MemberSteps.{
  head_or, snoc_append, erase-append, MembersSwept, next_head, stays, leaves,
}

-- One round of the member loop, given the rounds after it.
module _ (s : Server) (done : List Ptr) (x : Ptr) (xs rs : List Ptr) (roster : Ptr → List Ptr)
    (k : ℕ) (v : Inv s (done ++ (x ∷ xs)) rs roster)
    (later : (done' : List Ptr) (roster' : Ptr → List Ptr) (u : Server)
      → Inv u (done' ++ xs) rs roster'
      → Ends (λ a. MembersSwept u done' xs rs a.1) (sweep_members k (head_or null xs) u)) where
  abbrev Goal : Unit {0} × Server → Type 0
  Goal a = MembersSwept s done (x ∷ xs) rs a.1

  abbrev rest : Unit {0} × Server → Run (Unit {0} × Server)
  rest r = sweep_members k (s.next_member x) r.1

  there : has x (done ++ (x ∷ xs)) ≡ true
  there = ground (arith, has-append x done (x ∷ xs))

  parts : Distinct (x ∷ xs) × ((a : Ptr) → has a done ≡ true → has a (x ∷ xs) ≡ false)
  parts = let (a, b, c) = Distinct-append done (x ∷ xs) v.members.distinct in (b, c)

  -- The rest of the loop, in a state whose result counts for `s` too.
  continue :
      (done' : List Ptr) (roster' : Ptr → List Ptr) (u : Server)
      → Inv u (done' ++ xs) rs roster'
      → ((t : Server) → MembersSwept u done' xs rs t → MembersSwept s done (x ∷ xs) rs t)
      → Ends Goal (sweep_members k (s.next_member x) u)
  continue done' roster' u w counts =
      subst (λ p. Ends Goal (sweep_members k p u)) (sym (next_head s done x xs v.members))
        (Ends-mono (λ a. MembersSwept u done' xs rs a.1) Goal (sweep_members k (head_or null xs) u)
          (λ a m. counts a.1 m) (later done' roster' u w))

  not_done : has x done ≡ false
  not_done = elim (Bool-cases (has x done)) [
    | inl twice ↦ absurd (both twice (parts.1 x twice))
    | inr once ↦ once
  ]
    where
      both : has x done ≡ true → has x (x ∷ xs) ≢ false
      both e f = ground arith

  round-Ends : Ends (λ a. Ends Goal (rest a)) (sweep_member x s)
  unfolding sweep_member
  round-Ends = elim (Bool-cases (s.quiet_flag x == 0)) [
    | inl awake ↦ rw awake (
        continue (done ++ (x ∷ [])) roster
          (record s { quiet_flag = update s.quiet_flag x (s.quiet_flag x + 1) })
          (subst
            (λ l.
              Inv (record s { quiet_flag = update s.quiet_flag x (s.quiet_flag x + 1) }) l rs
                roster)
            (sym (snoc_append done x xs))
            (record { members = v.members; rooms = v.rooms; rosters = v.rosters }))
          (stays s done x xs rs awake parts.0.0))
    | inr asleep ↦ rw asleep (
        remove_free-Ends (λ t. Ends Goal (rest (tt, t))) s (done ++ (x ∷ xs)) rs roster x v there
          (λ u kept w.
            continue done (rosters_without s x roster)
              (record u { member_live = update u.member_live x false })
              (subst
                (λ l.
                  Inv (record u { member_live = update u.member_live x false }) l rs
                    (rosters_without s x roster))
                (erase-append x done xs not_done) w)
              (leaves s done x xs rs asleep u kept)))
  ]

-- The member loop over the members `todo`.
sweep_members-Ends :
    (todo done rs : List Ptr) (roster : Ptr → List Ptr) (s : Server) (k : ℕ)
    → Inv s (done ++ todo) rs roster
    → length todo < k
    → Ends (λ a. MembersSwept s done todo rs a.1) (sweep_members k (head_or null todo) s)
unfolding sweep_members
sweep_members-Ends todo done rs roster s zero v h = absurd (omega arith)
sweep_members-Ends [] done rs roster s (suc k) v h = record {
  roster = roster;
  inv = v;
  flags = λ m. refl;
  names = refl;
  member_names = refl;
  empty = refl;
  tail = refl;
  output = refl;
}
sweep_members-Ends (x ∷ xs) done rs roster s (suc k) v h =
    let here : has x (done ++ (x ∷ xs)) ≡ true = ground (arith, has-append x done (x ∷ xs)) in
    let (live, ne) = member_live_lem s (done ++ (x ∷ xs)) x here v.members in
    let nonnull : (x == null) ≡ false = ground arith in
    rw (nonnull, live)
      (Ends-bind (λ a. MembersSwept s done (x ∷ xs) rs a.1) (sweep_member x s)
        (λ r. sweep_members k (s.next_member x) r.1)
        (round-Ends s done x xs rs roster k v
          (λ done' roster' u w. sweep_members-Ends xs done' rs roster' u k w (omega (arith, h)))))

-- The member loop of the sweep, with a round for each member and one more, ends without a fault and
-- sends nothing: it removes exactly the members that were quiet since the last sweep, which have
-- their flag set, sets the flag of the others, and changes no other flag.
pub sweep_members-MembersSwept :
    (s : Server) (ms rs : List Ptr) (roster : Ptr → List Ptr)
    → Inv s ms rs roster
    → Ends
        (λ a. MembersSwept s [] ms rs a.1)
        (sweep_members (s.total_num_of_members + 1) s.mem_list_head s)
sweep_members-MembersSwept s ms rs roster v =
    subst
      (λ p.
        Ends (λ a. MembersSwept s [] ms rs a.1) (sweep_members (s.total_num_of_members + 1) p s))
      (sym (head_at ms v.members.chain))
      (sweep_members-Ends ms [] rs roster s (s.total_num_of_members + 1) v
        (omega (arith, v.members.counted)))
  where
    head_at :
        (l : List Ptr)
        → Seg s.member_live s.next_member s.prev_member null s.mem_list_head l s.mem_list_tail null
        → s.mem_list_head ≡ head_or null l
    head_at [] g = g.0
    head_at (y ∷ ys) g = g.0
