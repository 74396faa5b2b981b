-- ===== src/Session/RoomSteps.antt =====
-- What the room loop of the sweep leaves, and the steps of one round.
use csc469_a.Base.{
  ℕ, ◌≡◌, refl, ap, ◌∙◌, subst, Bool, true, false, not, ◌&&◌, List, [], ◌∷◌, ◌++◌, inl, inr, arith,
  ◌==◌, if◌then◌else◌, update, has, eq_self, eq_cases, last_or, ne_of_has, append_assoc,
}
use csc469_a.Chain.{Ptr, null}
use csc469_a.Chain.Segment.{last_has}
use csc469_a.Search.{Walk}
use csc469_a.Server.{Server}
use csc469_a.Session.{Inv}
use csc469_a.Session.SweepRoom.{unlisted}
use csc469_a.Session.MemberSteps.{head_or}

-- A room without members whose flag is set goes; one whose flag is not set is marked.
abbrev pub goes : Server → Ptr → Bool
goes s r = (s.num_of_members r == 0) && not (s.empty_flag r == 0)

abbrev pub staying : Server → List Ptr → List Ptr
staying s [] = []
staying s (x ∷ xs) = if goes s x then staying s xs else x ∷ staying s xs

abbrev pub marked : Server → List Ptr → Ptr → ℕ
marked s xs r =
    if has r xs && ((s.num_of_members r == 0) && (s.empty_flag r == 0)) then 1 else s.empty_flag r

-- The tail, if the rooms `xs` are the last ones.
abbrev pub tail_after : Server → List Ptr → Ptr
tail_after s [] = s.room_list_tail
tail_after s (x ∷ xs) = if goes s (last_or x xs) then null else s.room_list_tail

-- What the room loop leaves when the rooms `done` are behind it and `todo` are before it.
pub record RoomsSwept (s : Server) (ms done todo : List Ptr) (roster : Ptr → List Ptr) (t : Server)
    : Type 0 where
  pub inv : Inv t ms (done ++ staying s todo) roster
  pub flags : (r : Ptr) → t.empty_flag r ≡ marked s todo r
  pub tail : t.room_list_tail ≡ tail_after s todo
  pub rest : t ≡ record s {
    next_room = t.next_room;
    room_list_head = t.room_list_head;
    room_list_tail = t.room_list_tail;
    total_num_of_rooms = t.total_num_of_rooms;
    room_live = t.room_live;
    empty_flag = t.empty_flag;
  }

pub next_room_head :
    (live : Ptr → Bool) (next : Ptr → Ptr) (p : Ptr) (done : List Ptr) (x : Ptr) (xs : List Ptr)
    → Walk live next null p (done ++ (x ∷ xs))
    → next x ≡ head_or null xs
next_room_head live next p [] x [] w = w.3
next_room_head live next p [] x (y ∷ ys) w = w.3.0
next_room_head live next p (d ∷ done) x xs w = next_room_head live next (next d) done x xs w.3

pub staying_cong :
    (s u : Server) (xs : List Ptr)
    → ((a : Ptr) → has a xs ≡ true → goes u a ≡ goes s a)
    → staying u xs ≡ staying s xs
staying_cong s u [] same = refl
staying_cong s u (x ∷ xs) same =
    let here : goes u x ≡ goes s x = same x (ground arith) in
    rw (here, staying_cong s u xs (λ a h. same a (ground (arith, h))))

last_or-append : (d x : ℕ) (xs ys : List ℕ) → last_or d (xs ++ (x ∷ ys)) ≡ last_or x ys
last_or-append d x [] ys = refl
last_or-append d x (z ∷ xs) ys = last_or-append z x xs ys

-- The state `s` with other links and flags of the rooms.
abbrev relinked : Server → (Ptr → Ptr) → Ptr → Ptr → ℕ → (Ptr → Bool) → (Ptr → ℕ) → Server
relinked s next head tail total live empty = record s {
  next_room = next;
  room_list_head = head;
  room_list_tail = tail;
  total_num_of_rooms = total;
  room_live = live;
  empty_flag = empty;
}

module _ (s : Server) (ms done : List Ptr) (x : Ptr) (xs : List Ptr) (roster : Ptr → List Ptr)
    (next : Ptr → Ptr) (head tail : Ptr) (total : ℕ) (live : Ptr → Bool) (empty : Ptr → ℕ) where
  abbrev u : Server
  u = relinked s next head tail total live empty

  -- The result of the rounds after the one for `x`, which left `u`, counts for `s`.
  counts :
      (done' : List Ptr)
      → ((a : Ptr) → has a xs ≡ true → empty a ≡ s.empty_flag a)
      → done' ++ staying s xs ≡ done ++ staying s (x ∷ xs)
      → tail_after u xs ≡ tail_after s (x ∷ xs)
      → ((r : Ptr) → marked u xs r ≡ marked s (x ∷ xs) r)
      → (t : Server) → RoomsSwept u ms done' xs roster t
      → RoomsSwept s ms done (x ∷ xs) roster t
  counts done' same left end flags t w = record {
    inv =
        subst (λ l. Inv t ms l roster)
          (ap (λ l. done' ++ l) (staying_cong s u xs (λ a h. rw (same a h) refl)) ∙ left) w.inv;
    flags = λ r. w.flags r ∙ flags r;
    tail = w.tail ∙ end;
    rest = w.rest;
  }

module _ (s : Server) (ms done : List Ptr) (x : Ptr) (xs : List Ptr) (roster : Ptr → List Ptr)
    (out : has x xs ≡ false) (t : Server) where
  pub stays_put :
      goes s x ≡ false
      → (s.num_of_members x == 0) ≡ false
      → RoomsSwept s ms (done ++ (x ∷ [])) xs roster t
      → RoomsSwept s ms done (x ∷ xs) roster t
  stays_put keeps some w =
      counts s ms done x xs roster s.next_room s.room_list_head s.room_list_tail
        s.total_num_of_rooms s.room_live s.empty_flag (done ++ (x ∷ [])) (λ a h. refl)
        (rw keeps (append_assoc done (x ∷ []) (staying s xs))) (ends xs)
        (λ r. elim (eq_cases r x) [ inl e ↦ rw (e, out, some, eq_self x) refl | inr n ↦ rw n refl ])
        t w
    where
      ends : (l : List Ptr) → tail_after s l ≡ tail_after s (x ∷ l)
      ends [] = rw keeps refl
      ends (y ∷ ys) = refl

  pub is_marked :
      goes s x ≡ false
      → (s.num_of_members x == 0) ≡ true
      → (s.empty_flag x == 0) ≡ true
      → RoomsSwept
          (record s { empty_flag = update s.empty_flag x 1 })
          ms
          (done ++ (x ∷ []))
          xs
          roster
          t
      → RoomsSwept s ms done (x ∷ xs) roster t
  is_marked keeps none_in fresh w =
      counts s ms done x xs roster s.next_room s.room_list_head s.room_list_tail
        s.total_num_of_rooms s.room_live (update s.empty_flag x 1) (done ++ (x ∷ []))
        (λ a h. rw (other a h)) (rw keeps (append_assoc done (x ∷ []) (staying s xs))) (ends xs out)
        (λ r. elim (eq_cases r x) [
          | inl e ↦ rw (e, out, none_in, fresh, eq_self x) refl
          | inr n ↦ rw n refl
        ])
        t w
    where
      other : (a : Ptr) → has a xs ≡ true → (a == x) ≡ false
      other a h = ground (arith, ne_of_has x a xs out h)

      after : Server
      after = record s { empty_flag = update s.empty_flag x 1 }

      ends : (l : List Ptr) → has x l ≡ false → tail_after after l ≡ tail_after s (x ∷ l)
      ends [] h = rw keeps refl
      ends (y ∷ ys) h =
          let apart : (last_or y ys == x) ≡ false = ground (arith, last_has y ys x h) in
          rw apart refl

  pub is_gone :
      goes s x ≡ true
      → (v : Server) → v ≡ unlisted s x v
      → v.room_list_tail ≡ (if x == last_or null (done ++ (x ∷ xs)) then null else s.room_list_tail)
      → RoomsSwept v ms done xs roster t
      → RoomsSwept s ms done (x ∷ xs) roster t
  is_gone drops v e end w =
      counts s ms done x xs roster v.next_room v.room_list_head v.room_list_tail
        v.total_num_of_rooms (update s.room_live x false) s.empty_flag done (λ a h. refl)
        (rw drops refl) (ends xs out end)
        (λ r. elim (eq_cases r x) [
          | inl f ↦ rw (f, out, set, eq_self x) (ground arith)
          | inr n ↦ rw n refl
        ])
        t (subst (λ z. RoomsSwept z ms done xs roster t) e w)
    where
      set : (s.empty_flag x == 0) ≡ false
      set = ground arith

      ends :
          (l : List Ptr)
          → has x l ≡ false
          → v.room_list_tail
            ≡ (if x == last_or null (done ++ (x ∷ l)) then null else s.room_list_tail)
          → tail_after (record s { room_list_tail = v.room_list_tail }) l ≡ tail_after s (x ∷ l)
      ends [] h at = at ∙ rw (last_or-append null x done [], eq_self x, drops) refl
      ends (y ∷ ys) h at =
          let apart : (x == last_or y ys) ≡ false = last_has y ys x h in
          let same : v.room_list_tail ≡ s.room_list_tail =
            at ∙ rw (last_or-append null x done (y ∷ ys), apart) refl in
          rw same refl
