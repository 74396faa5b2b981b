-- ===== src/Session/RoomList.antt =====
-- Singly linked lists of rooms: frames, a new last room, and the loop of remove_room.
use csc469_a.Base.{
  ℕ, subst, zero, suc, ◌≡◌, ◌≢◌, ◌<◌, refl, sym, ◌∙◌, Bool, true, false, List, [], ◌∷◌, ◌++◌, inl,
  inr, arith, ◌==◌, if◌then◌else◌, update, has, erase, length, Distinct, last_or, eq_cases, eq_self,
  ne_of_has, Ends,
}
use csc469_a.Chain.{Ptr, null}
use csc469_a.Chain.Segment.{last_has}
use csc469_a.Search.{Walk}
use csc469_a.Server.{Server}
use csc469_a.Server.Rooms.{unlink_room_from}

module _ (live : Ptr → Bool) (next : Ptr → Ptr) (stop : Ptr) where
  pub Walk-frame :
      (live' : Ptr → Bool) (next' : Ptr → Ptr) (p : Ptr) (xs : List Ptr)
      → Walk live next stop p xs
      → ((a : Ptr) → has a xs ≡ true → (next' a ≡ next a) × (live' a ≡ live a))
      → Walk live' next' stop p xs
  Walk-frame live' next' p [] w same = w
  Walk-frame live' next' p (x ∷ xs) (e, ne, lv, w) same =
      let (nx, lx) = same x (ground arith) in
      (
        e,
        ne,
        rw lx lv,
        rw nx (Walk-frame live' next' (next x) xs w (λ a h. same a (ground (arith, h)))),
      )

  -- Linking `r` behind the last node.
  pub Walk-snoc :
      (p r x : Ptr) (xs : List Ptr)
      → Walk live next stop p (x ∷ xs)
      → Distinct (x ∷ xs)
      → has r (x ∷ xs) ≡ false
      → live r ≡ true
      → r ≢ stop
      → next r ≡ stop
      → Walk live (update next (last_or x xs) r) stop p ((x ∷ xs) ++ (r ∷ []))
  Walk-snoc p r x [] (e, ne, lv, w) d out lr nr end =
      (e, ne, lv, (rw (eq_self x), nr, lr, ground arith))
  Walk-snoc p r x (y ∷ ys) (e, ne, lv, w) d out lr nr end =
      let kept : (x == last_or y ys) ≡ false = last_has y ys x d.0 in
      (e, ne, lv, rw kept (Walk-snoc (next x) r y ys w d.1 (ground arith) lr nr end))

  -- A node with nodes behind it does not link to the stop.
  pub next_ne_stop :
      (p r : Ptr) (xs : List Ptr)
      → Walk live next stop p xs
      → has r xs ≡ true
      → (r == last_or stop xs) ≡ false
      → next r ≢ stop
  next_ne_stop p r [] w h ne = cc
  next_ne_stop p r (x ∷ []) w h ne = absurd (ground arith)
  next_ne_stop p r (x ∷ y ∷ ys) (e, nx, lv, w) h ne = elim (eq_cases r x) [
    | inl f ↦ rw f (λ end. w.1 (sym w.0 ∙ end))
    | inr f ↦ next_ne_stop (next x) r (y ∷ ys) w (ground arith) ne
  ]

  pub next_last :
      (p x : Ptr) (xs : List Ptr) → Walk live next stop p (x ∷ xs) → next (last_or x xs) ≡ stop
  next_last p x [] w = w.3
  next_last p x (y ∷ ys) (e, nx, lv, w) = next_last (next x) y ys w

flip : (a b : Ptr) → (a == b) ≡ false → (b == a) ≡ false
flip a b h = ground arith

self_test : (a b : Ptr) → a ≡ b → (b == a) ≡ true
self_test a b h = ground arith

-- The state after the loop has unlinked `rt` from behind `b`.
abbrev pub unlinked_after : Server → Ptr → Ptr → Server
unlinked_after s b rt =
    if s.next_room rt == null
    then record s { next_room = update s.next_room b (s.next_room rt); room_list_tail = null }
    else record s { next_room = update s.next_room b (s.next_room rt) }

module _ (P : Server → Type 0) (s : Server) (rt : Ptr) where
  -- The loop from a node `y` that is not `rt`.
  pub unlink_room_from-Ends :
      (k : ℕ) (p y : Ptr) (ys : List Ptr)
      → Walk s.room_live s.next_room null p (y ∷ ys)
      → Distinct (y ∷ ys)
      → has rt ys ≡ true
      → (y == rt) ≡ false
      → length ys < k
      → ((b : Ptr)
          → has b (y ∷ ys) ≡ true
          → (b == rt) ≡ false
          → Walk s.room_live (update s.next_room b (s.next_room rt)) null p (erase rt (y ∷ ys))
          → P (unlinked_after s b rt))
      → Ends (λ a. P a.1) (unlink_room_from k rt p s)
  unfolding unlink_room_from
  unlink_room_from-Ends zero p y ys w d h ne f then_ = elim f [ ]
  unlink_room_from-Ends (suc k) p y [] w d h ne f then_ = cc
  unlink_room_from-Ends (suc k) p y (z ∷ zs) (e, nn, lv, w) d h ne f then_ = elim (eq_cases z rt) [
    | inl hit ↦
        let at_rt : (s.next_room y == rt) ≡ true = ground (arith, w.0) in
        let rt_live : s.room_live rt ≡ true = rw (← hit) w.2 in
        let rest : Walk s.room_live s.next_room null (s.next_room rt) zs = rw (← hit) w.3 in
        rw (e, not_null, lv, ne, at_rt, rt_live, eq_self y)
          (then_ y y_in ne (
            rw (flip y rt ne, self_test z rt hit)
              (
                e,
                nn,
                lv,
                rw (eq_self y) (
                    Walk-frame s.room_live s.next_room null s.room_live (next' y) (s.next_room rt)
                      zs rest (λ a ha. (ground (arith, ha), refl))),
              )))
    | inr miss ↦
        let away : (s.next_room y == rt) ≡ false = ground (arith, w.0) in
        rw (e, not_null, lv, ne, away)
          (unlink_room_from-Ends k (s.next_room y) z zs w d.1 (ground arith) miss (omega arith)
            (λ b hb bn v.
              then_ b (ground (arith, hb)) bn (rw (flip y rt ne) (e, nn, lv, rw (apart b hb) v))))
  ]
    where
      next' : Ptr → Ptr → Ptr
      next' b = update s.next_room b (s.next_room rt)

      not_null : (y == null) ≡ false
      not_null = ground arith

      y_in : has y (y ∷ z ∷ zs) ≡ true
      y_in = ground (arith, eq_self y)

      apart : (b : Ptr) → has b (z ∷ zs) ≡ true → (y == b) ≡ false
      apart b hb = ne_of_has y b (z ∷ zs) d.0 hb

-- Linking a new room: it becomes the head of an empty list, or stands behind the tail.
pub linked-Walk :
    (live : Ptr → Bool) (next : Ptr → Ptr) (head tail fresh : Ptr) (rs : List Ptr)
    → Walk live next null head rs
    → Distinct rs
    → tail ≡ last_or null rs
    → has fresh rs ≡ false
    → live fresh ≡ true
    → fresh ≢ null
    → next fresh ≡ null
    → Walk live
        (if head == null then next else update next tail fresh)
        null
        (if head == null then fresh else head)
        (rs ++ (fresh ∷ []))
linked-Walk live next head tail fresh [] w d at out lf ne end = rw w (refl, ne, lf, end)
linked-Walk live next head tail fresh (x ∷ xs) w d at out lf ne end =
    let some_room : (head == null) ≡ false = ground (arith, w.0, w.1) in
    subst
      (λ (b : Bool).
        Walk live (if b then next else update next tail fresh) null (if b then fresh else head)
          ((x ∷ xs) ++ (fresh ∷ [])))
      (sym some_room)
      (subst (λ q. Walk live (update next q fresh) null head ((x ∷ xs) ++ (fresh ∷ []))) (sym at)
        (Walk-snoc live next null head fresh x xs w d out lf ne end))
