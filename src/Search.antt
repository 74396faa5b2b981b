-- ===== src/Search.antt =====
-- The loops of a3/server_util.c that follow one link field of a list to the first node that passes
-- a test: find_member_with_id, the name checks of create_room and process_register_request, the
-- look-ups of a room by name, and the check that a drawn id is unused, which stops at the tail.
use csc469_a.Base.{
  ℕ, zero, suc, ◌<◌, ◌≡◌, ◌≢◌, ◌⊎◌, refl, Bool, true, false, List, [], ◌∷◌, arith, ◌==◌,
  if◌then◌else◌, has, length, Bool-cases, eq_cases, inl, inr, Run, ok, fault, out_of_fuel,
}
use csc469_a.Chain.{Ptr, null}
use csc469_a.Chain.Segment.{Seg}

-- From `p` along `next` until `stop` or a node that passes `test`, in at most the given rounds.
unfoldable pub search : ℕ → (Ptr → Bool) → (Ptr → Ptr) → (Ptr → Bool) → Ptr → Ptr → Run Ptr
search zero live next test stop p = out_of_fuel
search (suc k) live next test stop p =
    let rest = search k live next test stop (next p) in
    if p == stop then ok p else if live p then (if test p then ok p else rest) else fault

-- The specification on the list of nodes.
abbrev pub first : (Ptr → Bool) → Ptr → List Ptr → Ptr
first test d [] = d
first test d (x ∷ xs) = if test x then x else first test d xs

-- From `p` the links lead through the live nodes `xs`, none of them `stop`, to `stop`.
abbrev pub Walk : (Ptr → Bool) → (Ptr → Ptr) → Ptr → Ptr → List Ptr → Type 0
Walk live next stop p [] = p ≡ stop
Walk live next stop p (x ∷ xs) =
    (p ≡ x) × (x ≢ stop) × (live x ≡ true) × Walk live next stop (next x) xs

pub Walk-of_Seg :
    (live : Ptr → Bool) (next prev : Ptr → Ptr) (b p : Ptr) (xs : List Ptr) (l : Ptr)
    → Seg live next prev b p xs l null
    → Walk live next null p xs
Walk-of_Seg live next prev b p [] l s = s.0
Walk-of_Seg live next prev b p (x ∷ xs) l (e, ne, lv, pv, s) =
    (e, ne, lv, Walk-of_Seg live next prev x (next x) xs l s)

module _ (live : Ptr → Bool) (next : Ptr → Ptr) (stop : Ptr) where
  -- With a round for each node and one more, the loop, from the head of a list of live nodes, ends
  -- without a fault at the first node that passes the test, or at `stop` if none does.
  pub search-first :
      (k : ℕ) (test : Ptr → Bool) (p : Ptr) (xs : List Ptr)
      → Walk live next stop p xs
      → length xs < k
      → search k live next test stop p ≡ ok (first test stop xs)
  unfolding search
  search-first zero test p xs w h = elim h [ ]
  search-first (suc k) test p [] w h = ground arith
  search-first (suc k) test p (x ∷ xs) (e, ne, lv, w) h =
      ground (arith, search-first k test (next x) xs w)

-- The search fails exactly if no node passes.
pub first-none :
    (test : Ptr → Bool) (d : Ptr) (xs : List Ptr)
    → has d xs ≡ false
    → first test d xs ≡ d
    → (a : Ptr) → has a xs ≡ true
    → test a ≡ false
first-none test d [] out e a h = cc
first-none test d (x ∷ xs) out e a h = elim (Bool-cases (test x)) [
  | inl hit ↦ absurd (stands (rw hit at e))
  | inr miss ↦ elim (eq_cases a x) [
    | inl same ↦ rw same miss
    | inr other ↦ first-none test d xs (ground arith) (rw miss at e) a (ground arith)
  ]
]
  where
    stands : x ≢ d
    stands f = ground arith

-- A node that is found stands in the list and passes.
pub first-some :
    (test : Ptr → Bool) (d : Ptr) (xs : List Ptr)
    → first test d xs ≢ d
    → (has (first test d xs) xs ≡ true) × (test (first test d xs) ≡ true)
first-some test d [] ne = absurd (ne refl)
first-some test d (x ∷ xs) ne = ground (arith, first-some test d xs)

-- The list is empty exactly if the head is the stop.
pub Walk-cases :
    (live : Ptr → Bool) (next : Ptr → Ptr) (stop p : Ptr) (xs : List Ptr)
    → Walk live next stop p xs
    → ((xs ≡ []) × ((p == stop) ≡ true)) ⊎ ((xs ≢ []) × ((p == stop) ≡ false))
Walk-cases live next stop p [] w = inl (refl, ground arith)
Walk-cases live next stop p (x ∷ xs) (e, ne, lv, w) = inr (λ f. cc, ground arith)

-- Tests that agree on the list find the same node.
pub first_cong :
    (f g : Ptr → Bool) (d : Ptr) (xs : List Ptr)
    → ((a : Ptr) → has a xs ≡ true → f a ≡ g a)
    → first f d xs ≡ first g d xs
first_cong f g d [] same = refl
first_cong f g d (x ∷ xs) same =
    let here : f x ≡ g x = same x (ground arith) in
    rw (here, first_cong f g d xs (λ a h. same a (ground (arith, h))))

-- What the links lead through is live and is not the stop.
pub Walk-live :
    (live : Ptr → Bool) (next : Ptr → Ptr) (stop p : Ptr) (rs : List Ptr) (r : Ptr)
    → Walk live next stop p rs
    → has r rs ≡ true
    → (live r ≡ true) × (r ≢ stop)
Walk-live live next stop p [] r w h = cc
Walk-live live next stop p (x ∷ rs) r (e, ne, lv, w) h = elim (eq_cases r x) [
  | inl f ↦ (rw f lv, rw f ne)
  | inr f ↦ Walk-live live next stop (next x) rs r w (ground arith)
]
