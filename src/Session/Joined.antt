-- ===== src/Session/Joined.antt =====
-- The text that the two list requests write: items with single spaces between them.
use csc469_a.Base.{
  ℕ, zero, suc, ◌*◌, ◌≤◌, ◌<◌, ◌≡◌, refl, ap, true, false, List, [], ◌∷◌, ◌++◌, map, arith, ◌==◌,
  has, codes, length, length-append, append-nil, ok, Distinct, last_or,
}
use csc469_a.Chain.{Ptr, null}
use csc469_a.Chain.Segment.{last_has}
use csc469_a.Search.{Walk}
use csc469_a.Server.{Server}
use csc469_a.Server.Requests.{in_front, room_item, room_lists, member_lists}

abbrev pub joined : List (List ℕ) → List ℕ
joined [] = []
joined (x ∷ []) = x
joined (x ∷ y ∷ ys) = x ++ (codes " " ++ joined (y ∷ ys))

-- "(name)".
abbrev pub member_item : Server → Ptr → List ℕ
member_item s m = codes "(" ++ (s.member_name m ++ codes ")")

-- Items of at most 31 bytes.
pub joined_size :
    (f : Ptr → List ℕ) (ps : List Ptr)
    → ((p : Ptr) → has p ps ≡ true → length (f p) ≤ 31)
    → length (joined (map f ps)) ≤ 32 * length ps
joined_size f [] h = omega arith
joined_size f (p ∷ []) h = let one : length (f p) ≤ 31 = h p (ground arith) in omega arith
joined_size f (p ∷ q ∷ ps) h =
    let one : length (f p) ≤ 31 = h p (ground arith) in
    let rest : length (joined (map f (q ∷ ps))) ≤ 32 * length (q ∷ ps) =
      joined_size f (q ∷ ps) (λ a k. h a (ground (arith, k))) in
    omega (arith, length-append (f p) (codes " " ++ joined (map f (q ∷ ps))))

module _ (s : Server) where
  room_lists_end : (k : ℕ) → 0 < k → room_lists k s null ≡ ok []
  unfolding room_lists
  room_lists_end zero h = absurd (omega arith)
  room_lists_end (suc k) h = refl

  member_lists_end : (k : ℕ) → 0 < k → member_lists k s null ≡ ok []
  unfolding member_lists
  member_lists_end zero h = absurd (omega arith)
  member_lists_end (suc k) h = refl

  pub room_lists-joined :
      (k : ℕ) (p : Ptr) (rs : List Ptr)
      → Walk s.room_live s.next_room null p rs
      → Distinct rs
      → s.room_list_tail ≡ last_or null rs
      → length rs < k
      → room_lists k s p ≡ ok (joined (map (room_item s) rs))
  unfolding room_lists in_front
  room_lists-joined zero p rs w d at h = absurd (omega arith)
  room_lists-joined (suc k) p [] w d at h = rw w refl
  room_lists-joined (suc k) p (r ∷ []) (e, ne, lv, w) d at h =
      let some_room : (r == null) ≡ false = ground arith in
      let last : (r == s.room_list_tail) ≡ true = ground arith in
      rw (e, some_room, lv, last, w, room_lists_end k (omega arith))
        (ap ok (append-nil (room_item s r)))
  room_lists-joined (suc k) p (r ∷ q ∷ rs) (e, ne, lv, w) d at h =
      let some_room : (r == null) ≡ false = ground arith in
      let not_last : (r == s.room_list_tail) ≡ false = ground (arith, last_has q rs r d.0) in
      rw
        (
          e,
          some_room,
          lv,
          not_last,
          room_lists-joined k (s.next_room r) (q ∷ rs) w d.1 at (omega arith),
        )
        refl

  pub member_lists-joined :
      (k : ℕ) (p : Ptr) (ms : List Ptr)
      → Walk s.member_live s.next_room_member null p ms
      → length ms < k
      → member_lists k s p ≡ ok (joined (map (member_item s) ms))
  unfolding member_lists in_front
  member_lists-joined zero p ms w h = absurd (omega arith)
  member_lists-joined (suc k) p [] w h = rw w refl
  member_lists-joined (suc k) p (m ∷ []) (e, ne, lv, w) h =
      let some_member : (m == null) ≡ false = ground arith in
      rw (e, some_member, lv, w, member_lists_end k (omega arith))
        (ap ok (append-nil (member_item s m)))
  member_lists-joined (suc k) p (m ∷ q ∷ ms) (e, ne, lv, w) h =
      let some_member : (m == null) ≡ false = ground arith in
      let more : (s.next_room_member m == null) ≡ false = ground (arith, w.0, w.1) in
      rw
        (
          e,
          some_member,
          lv,
          more,
          member_lists-joined k (s.next_room_member m) (q ∷ ms) w (omega arith),
        )
        refl
