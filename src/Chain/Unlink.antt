-- ===== src/Chain/Unlink.antt =====
-- `unlink` takes one node out of a doubly linked list.
use csc469_a.Base.{
  ◌≡◌, refl, sym, Bool, true, false, List, [], ◌∷◌, ◌++◌, arith, ◌==◌, update, has, Distinct,
  Distinct-append, Yields, ne_of_has, has_left, has_right, erase, split_at, subst,
}
use csc469_a.Chain.{Ptr, null, Links, unlink, unlink_first, unlink_inner}
use csc469_a.Chain.Segment.{
  Seg, IsChain, SameOff, Seg-split, Seg-join, Seg-frame, Seg-last, Seg-live, has_last, relink_last,
  relink_first,
}

-- What unlinking leaves: the chain of the other nodes, and every other node as it was.
abbrev pub Unlinked : (Ptr → Bool) → List Ptr → List Ptr → Links → Links → Type 0
Unlinked live before after c c' = IsChain live c' after × SameOff before c c'

module _ (live : Ptr → Bool) (c : Links) (m : Ptr) where
  unlink_first_lem :
      (zs : List Ptr)
      → IsChain live c (m ∷ zs)
      → Distinct (m ∷ zs)
      → Yields (Unlinked live (m ∷ zs) zs c) (unlink_first live m c)
  unfolding unlink_first
  unlink_first_lem [] (e, ne, lv, pv, s) d = rw (s.0) ((refl, refl), λ a h. (refl, refl))
  unlink_first_lem (z ∷ zs) (e, ne, lv, pv, s) d =
      rw (not_end, z_live)
        (
          relink_first live c.next c.prev m null (c.next m) z zs c.tail null s d.1,
          λ a h. (refl, ground (arith, h, s.0)),
        )
    where
      not_end : (c.next m == null) ≡ false
      not_end = ground arith

      z_live : live (c.next m) ≡ true
      z_live = rw (s.0) s.2

  -- The node `k` before `m` is live, stands in the front part, and is not `m`.
  before_facts :
      (y k r : Ptr) (ys zs : List Ptr)
      → Seg live c.next c.prev null c.head (y ∷ ys) k r
      → Distinct ((y ∷ ys) ++ (m ∷ zs))
      → (live k ≡ true)
        × (has k (y ∷ ys) ≡ true)
        × ((m == k) ≡ false)
        × (has k zs ≡ false)
        × Distinct (y ∷ ys)
        × Distinct (m ∷ zs)
        × ((a : Ptr) → has a (y ∷ ys) ≡ true → has a (m ∷ zs) ≡ false)
  before_facts y k r ys zs s d =
      let (dy, dz, apart) = Distinct-append (y ∷ ys) (m ∷ zs) d in
      let at_end = Seg-last live c.next c.prev null c.head (y ∷ ys) k r s in
      let there : has k (y ∷ ys) ≡ true =
        subst (λ a. has a (y ∷ ys) ≡ true) (sym at_end) (has_last y ys) in
      let away = apart k there in
      (
        (Seg-live live c.next c.prev null c.head (y ∷ ys) k r k s there).0,
        there,
        ground arith,
        ground arith,
        dy,
        dz,
        apart,
      )

  unlink_inner_lem :
      (y k r : Ptr) (ys zs : List Ptr)
      → Seg live c.next c.prev null c.head (y ∷ ys) k r
      → Seg live c.next c.prev k r (m ∷ zs) c.tail null
      → Distinct ((y ∷ ys) ++ (m ∷ zs))
      → Yields (Unlinked live ((y ∷ ys) ++ (m ∷ zs)) ((y ∷ ys) ++ zs) c) (unlink_inner live m c)
  unfolding unlink_inner
  unlink_inner_lem y k r ys [] s (e, ne, lv, pv, t) d =
      let (lk, there, mk, away, dy, dz, apart) = before_facts y k r ys [] s d in
      rw (pv, lk, mk, t.0)
        (
          Seg-join live (update c.next k null) c.prev null c.head (y ∷ ys) [] k null k null
              (relink_last live c.next c.prev null c.head y ys k r null s dy) (refl, refl),
          λ a h.
              let off = ne_of_has a k (y ∷ ys) (has_left a (y ∷ ys) (m ∷ []) h) there in
              (rw off, refl),
        )
  unlink_inner_lem y k r ys (z ∷ zs) s (e, ne, lv, pv, t) d =
      let (lk, there, mk, away, dy, dz, apart) = before_facts y k r ys (z ∷ zs) s d in
      rw (pv, lk, mk, not_end, z_live)
        (
          Seg-join live next' prev' null c.head (y ∷ ys) (z ∷ zs) k (c.next m) c.tail null
              (Seg-frame live next' c.prev live next' prev' null c.head (y ∷ ys) k (c.next m)
                (relink_last live c.next c.prev null c.head y ys k r (c.next m) s dy)
                (λ a h. (refl, ground (arith, apart a h, t.0), refl)))
              (relink_first live next' c.prev m k (c.next m) z zs c.tail null
                (Seg-frame live c.next c.prev live next' c.prev m (c.next m) (z ∷ zs) c.tail null t
                  (λ a h. (ground (arith, ne_of_has k a (z ∷ zs) away h), refl, refl)))
                dz.1),
          λ a h.
              let off = ne_of_has a k (y ∷ ys) (has_left a (y ∷ ys) (m ∷ z ∷ zs) h) there in
              let out = has_right a (y ∷ ys) (m ∷ z ∷ zs) h in (rw off, ground (arith, out, t.0)),
        )
    where
      next' : Ptr → Ptr
      next' = update c.next k (c.next m)

      prev' : Ptr → Ptr
      prev' = update c.prev (c.next m) k

      not_end : (c.next m == null) ≡ false
      not_end = ground arith

      z_live : live (c.next m) ≡ true
      z_live = rw (t.0) t.2

  -- Unlinking a node of a chain of distinct nodes never faults, and leaves the chain of the others.
  pub unlink_split :
      (ys zs : List Ptr)
      → IsChain live c (ys ++ (m ∷ zs))
      → Distinct (ys ++ (m ∷ zs))
      → Yields (Unlinked live (ys ++ (m ∷ zs)) (ys ++ zs) c) (unlink live m c)
  unfolding unlink
  unlink_split [] zs s d = rw (s.2, s.3) (unlink_first_lem zs s d)
  unlink_split (y ∷ ys) zs s d =
      let (k, r, front, back) =
        Seg-split live c.next c.prev null c.head (y ∷ ys) (m ∷ zs) c.tail null s in
      let (lk, there, mk, away, dy, dz, apart) = before_facts y k r ys zs front d in
      let k_ne = (Seg-live live c.next c.prev null c.head (y ∷ ys) k r k front there).1 in
      let inner : (c.prev m == null) ≡ false = ground (arith, back.3) in
      rw (back.2, inner) (unlink_inner_lem y k r ys zs front back d)

  -- Unlinking a node of a chain without repetitions does not fault: what is left is a chain of the
  -- other nodes in their order, and no link of a node outside the chain is written.
  pub unlink-erase :
      (xs : List Ptr)
      → IsChain live c xs
      → Distinct xs
      → has m xs ≡ true
      → Yields (Unlinked live xs (erase m xs) c) (unlink live m c)
  unlink-erase xs s d h =
      let (ys, zs, e, f) = split_at m xs h in
      rw (f) (
        subst (λ l. Yields (Unlinked live l (ys ++ zs) c) (unlink live m c)) (sym e)
          (unlink_split ys zs (subst (IsChain live c) e s) (subst Distinct e d)))
