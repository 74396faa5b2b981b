-- ===== src/Chain/Segment.antt =====
-- What a doubly linked list stands for: the addresses of its nodes, in order.
use csc469_a.Base.{
  ◌≡◌, ◌≢◌, refl, sym, Bool, true, false, List, [], ◌∷◌, ◌++◌, arith, ◌==◌, update, has, Distinct,
  inl, inr, eq_cases, last_or,
}
use csc469_a.Chain.{Ptr, null, Links}

-- From `p`, whose predecessor is `b`, the nodes `xs` lead to `q`, whose predecessor is `l`.
abbrev pub Seg :
    (Ptr → Bool) → (Ptr → Ptr) → (Ptr → Ptr) → Ptr → Ptr → List Ptr → Ptr → Ptr → Type 0
Seg live next prev b p [] l q = (p ≡ q) × (b ≡ l)
Seg live next prev b p (x ∷ xs) l q =
    (p ≡ x) × (x ≢ null) × (live x ≡ true) × (prev x ≡ b) × Seg live next prev x (next x) xs l q

abbrev pub IsChain : (Ptr → Bool) → Links → List Ptr → Type 0
IsChain live c xs = Seg live c.next c.prev null c.head xs c.tail null

-- `c'` has the links of `c` at every node outside `xs`.
abbrev pub SameOff : List Ptr → Links → Links → Type 0
SameOff xs c c' = (a : Ptr) → has a xs ≡ false → (c'.next a ≡ c.next a) × (c'.prev a ≡ c.prev a)

-- The last of `xs` is one of its elements.
pub last_has :
    (x : Ptr) (xs : List Ptr) (a : Ptr) → has a (x ∷ xs) ≡ false → (a == last_or x xs) ≡ false
last_has x [] a h = ground arith
last_has x (y ∷ ys) a h = last_has y ys a (ground arith)

pub has_last : (x : Ptr) (xs : List Ptr) → has (last_or x xs) (x ∷ xs) ≡ true
has_last x [] = ground arith
has_last x (y ∷ ys) = ground (arith, has_last y ys)

module _ (live : Ptr → Bool) (next prev : Ptr → Ptr) where
  pub Seg-split :
      (b p : Ptr) (ys zs : List Ptr) (l q : Ptr)
      → Seg live next prev b p (ys ++ zs) l q
      → (k : Ptr) × (r : Ptr) × Seg live next prev b p ys k r × Seg live next prev k r zs l q
  Seg-split b p [] zs l q s = (b, p, (refl, refl), s)
  Seg-split b p (y ∷ ys) zs l q (e, ne, lv, pv, s) =
      let (k, r, s₁, s₂) = Seg-split y (next y) ys zs l q s in (k, r, (e, ne, lv, pv, s₁), s₂)

  pub Seg-join :
      (b p : Ptr) (ys zs : List Ptr) (k r l q : Ptr)
      → Seg live next prev b p ys k r
      → Seg live next prev k r zs l q
      → Seg live next prev b p (ys ++ zs) l q
  Seg-join b p [] zs k r l q (e, f) t = rw (e, f) t
  Seg-join b p (y ∷ ys) zs k r l q (e, ne, lv, pv, s) t =
      (e, ne, lv, pv, Seg-join y (next y) ys zs k r l q s t)

  -- A segment survives writes to other nodes, and the death of other nodes.
  pub Seg-frame :
      (live' : Ptr → Bool) (next' prev' : Ptr → Ptr) (b p : Ptr) (xs : List Ptr) (l q : Ptr)
      → Seg live next prev b p xs l q
      → ((a : Ptr) → has a xs ≡ true → (next' a ≡ next a) × (prev' a ≡ prev a) × (live' a ≡ live a))
      → Seg live' next' prev' b p xs l q
  Seg-frame live' next' prev' b p [] l q s same = s
  Seg-frame live' next' prev' b p (x ∷ xs) l q (e, ne, lv, pv, s) same =
      let (nx, px, lx) = same x (ground arith) in
      (
        e,
        ne,
        rw lx lv,
        rw px pv,
        rw nx (Seg-frame live' next' prev' x (next x) xs l q s (λ a h. same a (ground (arith, h)))),
      )

  -- The predecessor of the end is the last node.
  pub Seg-last :
      (b p : Ptr) (xs : List Ptr) (l q : Ptr) → Seg live next prev b p xs l q → l ≡ last_or b xs
  Seg-last b p [] l q s = sym s.1
  Seg-last b p (x ∷ xs) l q (e, ne, lv, pv, s) = Seg-last x (next x) xs l q s

  pub Seg-live :
      (b p : Ptr) (xs : List Ptr) (l q : Ptr) (a : Ptr)
      → Seg live next prev b p xs l q
      → has a xs ≡ true
      → (live a ≡ true) × (a ≢ null)
  Seg-live b p [] l q a s h = cc
  Seg-live b p (x ∷ xs) l q a (e, ne, lv, pv, s) h = elim (eq_cases a x) [
    | inl f ↦ (rw f lv, rw f ne)
    | inr f ↦ Seg-live x (next x) xs l q a s (ground arith)
  ]

  -- Writing `next` of the last node moves the end of a segment.
  pub relink_last :
      (b p x : Ptr) (xs : List Ptr) (l q q' : Ptr)
      → Seg live next prev b p (x ∷ xs) l q
      → Distinct (x ∷ xs)
      → Seg live (update next l q') prev b p (x ∷ xs) l q'
  relink_last b p x [] l q q' (e, ne, lv, pv, s) d = (e, ne, lv, pv, (ground arith, s.1))
  relink_last b p x (y ∷ ys) l q q' (e, ne, lv, pv, s) d =
      (e, ne, lv, pv, rw (kept) (relink_last x (next x) y ys l q q' s d.1))
    where
      kept : update next l q' x ≡ next x
      kept = ground (arith, Seg-last y (next y) ys l q s.4, last_has y ys x)

  -- Writing `prev` of the first node changes what stands before a segment.
  pub relink_first :
      (b b' p x : Ptr) (xs : List Ptr) (l q : Ptr)
      → Seg live next prev b p (x ∷ xs) l q
      → Distinct (x ∷ xs)
      → Seg live next (update prev p b') b' p (x ∷ xs) l q
  relink_first b b' p x xs l q (e, ne, lv, pv, s) d = (
    e,
    ne,
    lv,
    ground arith,
    Seg-frame live next (update prev p b') x (next x) xs l q s
        (λ a h. (refl, ground (arith, h), refl)),
  )
