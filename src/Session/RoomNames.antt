-- ===== src/Session/RoomNames.antt =====
-- The names of the rooms, and what one more name makes of them.
use csc469_a.Base.{
  ℕ, suc, ◌≡◌, inl, inr, refl, ap, Bool, true, false, not, ◌||◌, List, [], ◌∷◌, ◌++◌, map, arith,
  ◌==◌, ltb, if◌then◌else◌, has, length, same, Bool-cases,
}
use csc469_a.Protocol.{max_room_name_len, max_num_of_rooms}
use csc469_a.Chain.{Ptr, null}
use csc469_a.Search.{Walk-live}
use csc469_a.Server.{Server}
use csc469_a.Session.{Inv}
use csc469_a.Session.Find.{room_named}

-- Is the name one of these?
abbrev pub named : List ℕ → List (List ℕ) → Bool
named name [] = false
named name (x ∷ names) = same name x || named name names

-- The names after one more word: it is added if it is short enough, there is a place, and it is new.
abbrev pub enlist : List (List ℕ) → List ℕ → List (List ℕ)
enlist names word =
    if ltb max_room_name_len (length word) || (length names == max_num_of_rooms) || named word names
    then names
    else names ++ (word ∷ [])

abbrev pub enlist_all : List (List ℕ) → List (List ℕ) → List (List ℕ)
enlist_all names [] = names
enlist_all names (word ∷ words) = enlist_all (enlist names word) words

pub length-map : (f : Ptr → List ℕ) (rs : List Ptr) → length (map f rs) ≡ length rs
length-map f [] = refl
length-map f (x ∷ rs) = ap suc (length-map f rs)

pub map-append : (f : Ptr → List ℕ) (rs qs : List Ptr) → map f (rs ++ qs) ≡ map f rs ++ map f qs
map-append f [] qs = refl
map-append f (x ∷ rs) qs = ap (λ l. f x ∷ l) (map-append f rs qs)

pub map_cong :
    (f g : Ptr → List ℕ) (rs : List Ptr)
    → ((r : Ptr) → has r rs ≡ true → f r ≡ g r)
    → map f rs ≡ map g rs
map_cong f g [] agree = refl
map_cong f g (x ∷ rs) agree =
    let here : f x ≡ g x = agree x (ground arith) in
    rw (here, map_cong f g rs (λ r h. agree r (ground (arith, h))))

-- A room of the name is found exactly if the name is one of the names.
pub named-room_named :
    (s : Server) (name : List ℕ) (rs : List Ptr)
    → has null rs ≡ false
    → named name (map s.room_name rs) ≡ not (room_named s name rs == null)
named-room_named s name [] out = refl
named-room_named s name (x ∷ rs) out = elim (Bool-cases (same name (s.room_name x))) [
  | inl hit ↦ let there : (x == null) ≡ false = ground arith in rw (hit, there) refl
  | inr miss ↦ rw miss (named-room_named s name rs (ground arith))
]

pub no_null :
    (s : Server) (ms rs : List Ptr) (roster : Ptr → List Ptr)
    → Inv s ms rs roster
    → has null rs ≡ false
no_null s ms rs roster v = elim (Bool-cases (has null rs)) [
  | inl there ↦
      absurd (
        (Walk-live s.room_live s.next_room null s.room_list_head rs null v.rooms.walk there).1 refl)
  | inr gone ↦ gone
]
