-- ===== src/Session/Draw.antt =====
-- The ids that process_register_request draws.
use csc469_a.Base.{
  ℕ, ◌+◌, ◌*◌, ◌/◌, ◌≤◌, ◌<◌, ◌≡◌, refl, sym, ap, true, false, Option, none, some, List, [], ◌∷◌,
  ◌++◌, inl, inr, arith, ◌==◌, if◌then◌else◌, update, has, length-append, Bool, Bool-cases, ok,
  eq_self, subst,
}
use native.Mathlib.Nat.{div-lt_iff_lt-mul}
use csc469_a.Chain.{Ptr, null}
use csc469_a.Chain.Segment.{Seg}
use csc469_a.Search.{Walk, first, search-first, search}
use csc469_a.Server.{Server}
use csc469_a.Server.Registration.{drawn_id, create_id}
use csc469_a.Session.{Members}

-- Does one of the members have the id?
abbrev pub id_taken : (Ptr → ℕ) → ℕ → List Ptr → Bool
id_taken ids id [] = false
id_taken ids id (x ∷ xs) = if ids x == id then true else id_taken ids id xs

-- The first drawn id that none of the members has.
abbrev pub first_free : (Ptr → ℕ) → List Ptr → ℕ → List ℕ → Option ℕ
first_free ids ms rand_max [] = none
first_free ids ms rand_max (r ∷ draws) =
    let later = first_free ids ms rand_max draws in
    if id_taken ids (drawn_id rand_max r) ms then later else some (drawn_id rand_max r)

-- A chain leads to its last node through the nodes before it.
Walk-to_last :
    (live : Ptr → Bool) (next prev : Ptr → Ptr) (b p : Ptr) (ms : List Ptr) (m l : Ptr)
    → has m ms ≡ false
    → Seg live next prev b p (ms ++ (m ∷ [])) l null
    → Walk live next m p ms
Walk-to_last live next prev b p [] m l out g = g.0
Walk-to_last live next prev b p (x ∷ xs) m l out (e, ne, lv, pv, g) =
    (e, λ f. ground arith, lv, Walk-to_last live next prev x (next x) xs m l (ground arith) g)

-- Stopping at the last node tells whether one before it has the id.
stops :
    (s : Server) (id m : Ptr) (ms : List Ptr)
    → has m ms ≡ false
    → (first (λ p. s.member_id p == id) m ms == m)
      ≡ (if id_taken s.member_id id ms then false else true)
stops s id m [] out = eq_self m
stops s id m (x ∷ xs) out = elim (Bool-cases (s.member_id x == id)) [
  | inl hit ↦ rw (hit) (ground arith)
  | inr miss ↦ rw miss (stops s id m xs (ground arith))
]

-- The search of one round, in a list whose last member is `m`.
round :
    (s : Server) (ms : List Ptr) (m id : Ptr)
    → Members s (ms ++ (m ∷ []))
    → has m ms ≡ false
    → s.mem_list_tail ≡ m
    → search
        (s.total_num_of_members + 1)
        s.member_live
        s.next_member
        (λ p. s.member_id p == id)
        s.mem_list_tail
        s.mem_list_head
      ≡ ok (first (λ p. s.member_id p == id) s.mem_list_tail ms)
round s ms m id v out at =
    search-first s.member_live s.next_member s.mem_list_tail (s.total_num_of_members + 1)
      (λ p. s.member_id p == id) s.mem_list_head ms
      (subst (λ q. Walk s.member_live s.next_member q s.mem_list_head ms) (sym at)
        (Walk-to_last s.member_live s.next_member s.prev_member null s.mem_list_head ms m
          s.mem_list_tail out v.chain))
      (omega (arith, v.counted, length-append ms (m ∷ [])))

stops_at_tail :
    (s : Server) (ms : List Ptr) (m id : Ptr)
    → has m ms ≡ false
    → s.mem_list_tail ≡ m
    → (first (λ p. s.member_id p == id) s.mem_list_tail ms == s.mem_list_tail)
      ≡ (if id_taken s.member_id id ms then false else true)
stops_at_tail s ms m id out at =
    subst
      (λ q.
        (first (λ p. s.member_id p == id) q ms == q)
        ≡ (if id_taken s.member_id id ms then false else true))
      (sym at) (stops s id m ms out)

-- If one of the drawn ids is that of none of the other members, the loop of process_register_request
-- that makes an id ends without a fault: the last member, the one that registers, gets the first such
-- id, and nothing else changes.
pub create_id-first_free :
    (s : Server) (ms : List Ptr) (m : Ptr) (rand_max : ℕ) (draws : List ℕ) (id : ℕ)
    → Members s (ms ++ (m ∷ []))
    → has m ms ≡ false
    → s.mem_list_tail ≡ m
    → first_free s.member_id ms rand_max draws ≡ some id
    → create_id rand_max draws s
      ≡ ok (tt, record s { member_id = update s.member_id s.mem_list_tail id })
unfolding create_id
create_id-first_free s ms m rand_max [] id v out at h = cc
create_id-first_free s ms m rand_max (r ∷ draws) id v out at h =
    elim (Bool-cases (id_taken s.member_id (drawn_id rand_max r) ms)) [
      | inl taken ↦
          let again : first_free s.member_id ms rand_max draws ≡ some id = rw taken at h in
          rw
            (
              round s ms m (drawn_id rand_max r) v out at,
              stops_at_tail s ms m (drawn_id rand_max r) out at,
              taken,
            )
            (create_id-first_free s ms m rand_max draws id v out at again)
      | inr free ↦
          let here : some (drawn_id rand_max r) ≡ some id = rw free at h in
          let e : drawn_id rand_max r ≡ id = cc in
          rw
            (
              round s ms m (drawn_id rand_max r) v out at,
              stops_at_tail s ms m (drawn_id rand_max r) out at,
              free,
            )
            (ap (λ i. ok (tt, record s { member_id = update s.member_id s.mem_list_tail i })) e)
    ]

-- An id that was found free is the id of no member.
pub first_free-unused :
    (ids : Ptr → ℕ) (ms : List Ptr) (rand_max : ℕ) (draws : List ℕ) (id : ℕ)
    → first_free ids ms rand_max draws ≡ some id
    → id_taken ids id ms ≡ false
first_free-unused ids ms rand_max [] id h = cc
first_free-unused ids ms rand_max (r ∷ draws) id h =
    elim (Bool-cases (id_taken ids (drawn_id rand_max r) ms)) [
      | inl taken ↦ first_free-unused ids ms rand_max draws id (rw taken at h)
      | inr free ↦
          let here : some (drawn_id rand_max r) ≡ some id = rw free at h in
          let e : drawn_id rand_max r ≡ id = cc in subst (λ i. id_taken ids i ms ≡ false) e free
    ]

id_taken_cong :
    (f g : Ptr → ℕ) (id : ℕ) (ms : List Ptr)
    → ((a : Ptr) → has a ms ≡ true → f a ≡ g a)
    → id_taken f id ms ≡ id_taken g id ms
id_taken_cong f g id [] same = refl
id_taken_cong f g id (x ∷ xs) same =
    let here : f x ≡ g x = same x (ground arith) in
    rw (here, id_taken_cong f g id xs (λ a h. same a (ground (arith, h))))

pub first_free_cong :
    (f g : Ptr → ℕ) (ms : List Ptr) (rand_max : ℕ) (draws : List ℕ)
    → ((a : Ptr) → has a ms ≡ true → f a ≡ g a)
    → first_free f ms rand_max draws ≡ first_free g ms rand_max draws
first_free_cong f g ms rand_max [] same = refl
first_free_cong f g ms rand_max (r ∷ draws) same =
    rw (id_taken_cong f g (drawn_id rand_max r) ms same, first_free_cong f g ms rand_max draws same)

below : (rand_max r : ℕ) → r ≤ rand_max → 65535 * r / (rand_max + 1) < 65535
below rand_max r h =
    (div-lt_iff_lt-mul {k = rand_max + 1} {x = 65535 * r} {y = 65535} (omega arith)).1 (omega arith)

-- For a value of rand, which is at most RAND_MAX, the drawn id is between 1 and 65535.
pub drawn_id_bounds :
    (rand_max r : ℕ) → r ≤ rand_max → (1 ≤ drawn_id rand_max r) × (drawn_id rand_max r ≤ 65535)
unfolding drawn_id
drawn_id_bounds rand_max r h =
    let small = below rand_max r h in (omega (arith, small), omega (arith, small))
