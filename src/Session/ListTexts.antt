-- ===== src/Session/ListTexts.antt =====
-- The texts of the two list requests, and their sizes.
use csc469_a.Base.{
  ℕ, ◌≤◌, ◌<◌, ◌≡◌, true, List, [], ◌∷◌, ◌++◌, map, arith, has, codes, length, length-append,
}
use csc469_a.Chain.{Ptr}
use csc469_a.Server.{Server}
use csc469_a.Server.Requests.{room_item, print_int}
use csc469_a.Session.Decimal.{print_int_size}
use csc469_a.Session.Joined.{joined, member_item}

-- No name is longer than the array that a request copies it into.
abbrev pub NamesFit : (Ptr → List ℕ) → List Ptr → Type 0
NamesFit name ps = (p : Ptr) → has p ps ≡ true → length (name p) ≤ 24

abbrev pub room_text : Server → List Ptr → List ℕ
room_text s rs = joined (map (room_item s) rs)

abbrev pub member_text : Server → List Ptr → List ℕ
member_text s ms = joined (map (member_item s) ms)

-- What the user is to read of room `r`: its name, and the number of its members in decimal digits.
abbrev pub room_entry : Server → (Ptr → List Ptr) → Ptr → List ℕ
room_entry s roster r =
    (91 ∷ s.room_name r) ++ (32 ∷ 40 ∷ (print_int (length (roster r)) ++ (41 ∷ 93 ∷ [])))

pub room_item_size :
    (s : Server) (r : Ptr)
    → length (s.room_name r) ≤ 24
    → s.num_of_members r < 100
    → length (room_item s r) ≤ 31
unfolding room_item
room_item_size s r name num =
    let digits : length (print_int (s.num_of_members r)) ≤ 2 = print_int_size _ num in
    omega (
      arith,
      length-append (s.room_name r) (codes " (" ++ (print_int (s.num_of_members r) ++ codes ")]")),
      length-append (print_int (s.num_of_members r)) (codes ")]"),
    )

pub member_item_size :
    (s : Server) (m : Ptr) → length (s.member_name m) ≤ 24 → length (member_item s m) ≤ 31
member_item_size s m name = omega (arith, length-append (s.member_name m) (codes ")"))
