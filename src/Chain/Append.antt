-- ===== src/Chain/Append.antt =====
-- `append_tail` puts one node behind the last of a doubly linked list.
use csc469_a.Base.{
  ◌≡◌, ◌≢◌, refl, sym, Bool, true, false, List, [], ◌∷◌, ◌++◌, arith, ◌==◌, update, has, Distinct,
  Yields, ne_of_has, has_left, has_right, subst,
}
use csc469_a.Chain.{Ptr, null, Links, append_tail}
use csc469_a.Chain.Segment.{
  IsChain, SameOff, Seg-join, Seg-frame, Seg-last, Seg-live, relink_last, has_last,
}

-- What appending leaves: `m` behind the others, and only the tail and `m` written.
abbrev pub Appended : (Ptr → Bool) → Ptr → List Ptr → Links → Links → Type 0
Appended live m xs c c' = IsChain live c' (xs ++ (m ∷ [])) × SameOff (xs ++ (m ∷ [])) c c'

module _ (live : Ptr → Bool) (c : Links) (m : Ptr) where
  -- A live node with NULL links that the chain, one without repetitions, does not hold is appended
  -- without a fault: it stands last in the chain, and no link of another node outside is written.
  pub append_tail_lem :
      (xs : List Ptr)
      → IsChain live c xs
      → Distinct xs
      → has m xs ≡ false
      → live m ≡ true
      → m ≢ null
      → c.next m ≡ null
      → c.prev m ≡ null
      → Yields (Appended live m xs c) (append_tail live m c)
  unfolding append_tail
  append_tail_lem [] s d out lm ne nx pv =
      rw (s.0) ((refl, ne, lm, pv, (nx, refl)), λ a h. (refl, refl))
  append_tail_lem (x ∷ xs) s d out lm ne nx pv =
      let at_end = Seg-last live c.next c.prev null c.head (x ∷ xs) c.tail null s in
      let there : has c.tail (x ∷ xs) ≡ true =
        subst (λ a. has a (x ∷ xs) ≡ true) (sym at_end) (has_last x xs) in
      let tail_live =
        (Seg-live live c.next c.prev null c.head (x ∷ xs) c.tail null c.tail s there).0 in
      let m_off = ne_of_has m c.tail (x ∷ xs) out there in
      let not_empty : (c.head == null) ≡ false = ground (arith, s.0, s.1) in
      rw (not_empty, tail_live, lm)
        (
          Seg-join live next' prev' null c.head (x ∷ xs) (m ∷ []) c.tail m (next' c.tail) null
              (Seg-frame live next' c.prev live next' prev' null c.head (x ∷ xs) c.tail m
                (relink_last live c.next c.prev null c.head x xs c.tail null m s d)
                (λ a h. (refl, ground (arith, ne_of_has m a (x ∷ xs) out h), refl)))
              (refl, ne, lm, ground arith, (rw m_off nx, ground arith)),
          λ a h.
              let off = ne_of_has a c.tail (x ∷ xs) (has_left a (x ∷ xs) (m ∷ []) h) there in
              (rw off, ground (arith, has_right a (x ∷ xs) (m ∷ []) h)),
        )
    where
      next' : Ptr → Ptr
      next' = update c.next c.tail m

      prev' : Ptr → Ptr
      prev' = update c.prev m c.tail
