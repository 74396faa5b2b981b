-- ===== src/Client/Tcp/Rooms.antt =====
-- The list of rooms, from the server to the client.
use csc469_a.Base.{
  ℕ, zero, suc, some, ◌+◌, ◌/◌, ◌%◌, ◌≤◌, ◌<◌, ◌≡◌, ◌≢◌, refl, true, false, ◌==◌, List, [], ◌∷◌,
  ◌++◌, arith, codes, has, length, map, take, Bool-cases, inl, inr, ok, fault, Ends,
}
use csc469_a.Protocol
use csc469_a.Protocol.{has_zero, control_msghdr_size}
use csc469_a.Chain.{Ptr}
use csc469_a.Server.{Server, reply}
use csc469_a.Server.Requests.{print_int, print_digits, room_item, process_room_list_request}
use csc469_a.Client.{carries_text}
use csc469_a.Client.Send.{send_room_list_request}
use csc469_a.Client.Tcp.{tcp_buffer_size, send_tcp_request, in_buffer}
use csc469_a.Client.Tcp.Sizes.{concat, Filled, reads_of, answer, send_tcp_request-Shown}
use csc469_a.Session.{Inv}
use csc469_a.Session.Joined.{joined}
use csc469_a.Session.{TailIsLast}
use csc469_a.Session.ListReplies.{room_text-le, process_room_list_request-text}
use csc469_a.Session.ListTexts.{NamesFit, room_text}

-- No name has a zero byte.
abbrev pub NamesPlain : (Ptr → List ℕ) → List Ptr → Type 0
NamesPlain name ps = (p : Ptr) → has p ps ≡ true → has_zero (name p) ≡ false

both_plain :
    (xs ys : List ℕ) → has_zero xs ≡ false → has_zero ys ≡ false → has_zero (xs ++ ys) ≡ false
unfolding has_zero
both_plain [] ys hx hy = hy
both_plain (x ∷ xs) ys hx hy = ground (arith, both_plain xs ys)

print_digits_plain :
    (k n : ℕ) (acc : List ℕ) → has_zero acc ≡ false → has_zero (print_digits k n acc) ≡ false
unfolding print_digits has_zero
print_digits_plain zero n acc h = h
print_digits_plain (suc k) n acc h = elim (Bool-cases (n / 10 == 0)) [
  | inl last ↦ rw last (ground arith)
  | inr more ↦ rw more (print_digits_plain k (n / 10) ((48 + n % 10) ∷ acc) (ground arith))
]

room_item_plain :
    (s : Server) (r : Ptr) → has_zero (s.room_name r) ≡ false → has_zero (room_item s r) ≡ false
unfolding room_item print_int has_zero
room_item_plain s r h =
    both_plain (s.room_name r) (codes " (" ++ (print_int (s.num_of_members r) ++ codes ")]")) h (
      both_plain (print_int (s.num_of_members r)) (codes ")]")
        (print_digits_plain 10 (s.num_of_members r) [] refl) refl)

joined_plain :
    (f : Ptr → List ℕ) (ps : List Ptr)
    → ((p : Ptr) → has p ps ≡ true → has_zero (f p) ≡ false)
    → has_zero (joined (map f ps)) ≡ false
unfolding has_zero
joined_plain f [] h = refl
joined_plain f (p ∷ []) h = h p (ground arith)
joined_plain f (p ∷ q ∷ ps) h =
    both_plain (f p) (codes " " ++ joined (map f (q ∷ ps))) (h p (ground arith))
      (joined_plain f (q ∷ ps) (λ a k. h a (ground (arith, k))))

-- What the user sees of the rooms, for an answer that arrives in the pieces `cs`.
pub record RoomsSeen (fd : ℕ) (s : Server) (rs : List Ptr) (m : Ptr) (bytes : List ℕ)
    (cs : List (List ℕ)) (reserved behind : List ℕ) : Type 0 where
  pub sent : Ends (λ a. a.1.sent ≡ reply fd bytes ∷ s.sent) (process_room_list_request fd m s)
  pub received : send_tcp_request true (reads_of cs) ≡ ok (some (take tcp_buffer_size bytes))
  pub shown :
      length rs ≤ 19
      → send_room_list_request
          (λ request. in_buffer (take tcp_buffer_size bytes) (0 ∷ behind))
          (s.member_id m)
          reserved
        ≡ ok (room_text s rs)
  pub too_long :
      631 < length (room_text s rs)
      → send_room_list_request
          (λ request. in_buffer (take tcp_buffer_size bytes) behind)
          (s.member_id m)
          reserved
        ≡ fault

-- A member asks for the rooms, in a state with the invariant, with the tail at the last room and room names of at
-- most 24 bytes without a zero. The server sends the list of all rooms. In whatever nonempty pieces
-- it arrives, the client takes its first 640 bytes. If there are at most 19 rooms and the byte behind the
-- answer in its buffer is zero, the user sees the whole list; with a list of more than 631 bytes the client reads past
-- its buffer.
pub process_room_list_request-Seen :
    (fd : ℕ) (s : Server) (ms rs : List Ptr) (roster : Ptr → List Ptr) (m : Ptr)
    (cs : List (List ℕ)) (reserved behind : List ℕ)
    → Inv s ms rs roster
    → has m ms ≡ true
    → TailIsLast s rs
    → NamesFit s.room_name rs
    → NamesPlain s.room_name rs
    → rs ≢ []
    → Filled cs
    → concat cs
      ≡ answer Protocol.room_list_succ
          (s.member_id m)
          (control_msghdr_size + length (room_text s rs))
          (room_text s rs)
    → RoomsSeen fd s rs m (concat cs) cs reserved behind
unfolding send_room_list_request carries_text
process_room_list_request-Seen fd s ms rs roster m cs reserved behind v hm at fit plain some_room f
      arrives =
    let text = room_text s rs in
    let plain_text : has_zero text ≡ false =
      joined_plain (room_item s) rs (λ r h. room_item_plain s r (plain r h)) in
    let size = room_text-le fd s ms rs roster m v hm fit in
    let seen =
      send_tcp_request-Shown Protocol.room_list_succ (s.member_id m)
        (control_msghdr_size + length text) text cs [] behind (omega arith) refl plain_text f
        arrives in
    rw arrives (record {
      sent = rw (process_room_list_request-text fd s ms rs roster m v hm at fit some_room) refl;
      received = seen.received;
      shown = λ h. seen.fits (omega (arith, size, h));
      too_long = seen.too_long;
    })
