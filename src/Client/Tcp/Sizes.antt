-- ===== src/Client/Tcp/Sizes.antt =====
-- What the size of the buffer means for the answers of the server.
use csc469_a.Base.{
  ℕ, zero, suc, ◌+◌, ◌-◌, ◌*◌, ◌/◌, ◌%◌, ◌^◌, ◌≤◌, ◌<◌, ◌≡◌, refl, sym, ap, ◌∙◌, true, false,
  Option, some, List, [], ◌∷◌, ◌++◌, arith, ltb, take, length, length-take, append_assoc,
  append-nil, take_all, Bool-cases, inl, inr, map, ok, fault,
}
use csc469_a.Protocol.{header_bytes, u16_at, u16_bytes, has_zero, control_msghdr_size}
use csc469_a.Server.Buffers.{has_zero-take, has_zero-append, c_str-append}
use csc469_a.Client.{copy_text, message_size, text_size, carries_text, process_response}
use csc469_a.Client.Tcp.{tcp_buffer_size, receive, send_tcp_request, in_buffer}

abbrev pub concat : List (List ℕ) → List ℕ
concat [] = []
concat (c ∷ cs) = c ++ concat cs

abbrev pub Filled : List (List ℕ) → Type 0
Filled [] = Unit {0}
Filled ([] ∷ cs) = ⊥
Filled ((x ∷ c) ∷ cs) = Filled cs

-- The reads of an answer that arrives in pieces, and its end.
abbrev pub reads_of : List (List ℕ) → List (Option (List ℕ))
reads_of cs = map some cs ++ (some [] ∷ [])

take-take-append :
    (n : ℕ) (xs ys : List ℕ) → take n xs ++ take (n - length (take n xs)) ys ≡ take n (xs ++ ys)
take-take-append zero [] ys = refl
take-take-append (suc n) [] ys = let e : suc n - 0 ≡ suc n = omega arith in ap (λ k. take k ys) e
take-take-append zero (x ∷ xs) [] = refl
take-take-append zero (x ∷ xs) (y ∷ ys) = refl
take-take-append (suc n) (x ∷ xs) ys =
    ap (λ k. x ∷ (take n xs ++ take k ys)) (omega arith)
    ∙ ap (λ l. x ∷ l) (take-take-append n xs ys)

take-full : (n : ℕ) (xs ys : List ℕ) → n ≤ length (take n xs) → take n (xs ++ ys) ≡ take n xs
take-full zero [] [] h = refl
take-full zero [] (y ∷ ys) h = refl
take-full zero (x ∷ xs) ys h = refl
take-full (suc n) [] ys h = absurd (omega (arith, h))
take-full (suc n) (x ∷ xs) ys h = ap (λ l. x ∷ l) (take-full n xs ys (omega (arith, h)))

receive_lem :
    (cs : List (List ℕ)) (before : List ℕ)
    → Filled cs
    → receive (reads_of cs) (take tcp_buffer_size before)
      ≡ ok (some (take tcp_buffer_size (before ++ concat cs)))
unfolding receive
receive_lem [] before f = ap (λ l. ok (some (take tcp_buffer_size l))) (sym (append-nil before))
receive_lem ([] ∷ cs) before f = absurd f
receive_lem ((x ∷ c) ∷ cs) before f =
    elim (Bool-cases (ltb (length (take tcp_buffer_size before)) tcp_buffer_size)) [
      | inl room ↦
          rw (room, take-take-append tcp_buffer_size before (x ∷ c))
            (receive_lem cs (before ++ (x ∷ c)) f
              ∙ ap (λ l. ok (some (take tcp_buffer_size l)))
                  (append_assoc before (x ∷ c) (concat cs)))
      | inr none_left ↦ rw none_left (
          ap (λ l. ok (some l))
            (sym (take-full tcp_buffer_size before (concat ((x ∷ c) ∷ cs)) (ground arith))))
    ]

take-past :
    (xs : List ℕ) (m x : ℕ) (ys : List ℕ)
    → take (length xs + suc m) (xs ++ (x ∷ ys)) ≡ xs ++ (x ∷ take m ys)
take-past [] m x ys = let e : 0 + suc m ≡ suc m = omega arith in ap (λ k. take k (x ∷ ys)) e
take-past (y ∷ xs) m x ys =
    let e : suc (length xs) + suc m ≡ suc (length xs + suc m) = omega arith in
    ap (λ k. take k (y ∷ (xs ++ (x ∷ ys)))) e ∙ ap (λ l. y ∷ l) (take-past xs m x ys)

copy_text-past :
    (k : ℕ) (text rest : List ℕ)
    → has_zero text ≡ false
    → length text < k
    → copy_text k (text ++ (0 ∷ rest)) ≡ ok text
unfolding copy_text
copy_text-past k text rest z h =
    let e : k ≡ length text + suc (k - length text - 1) = omega (arith, h) in
    let cut = take-past text (k - length text - 1) 0 rest in
    let whole : take k (text ++ (0 ∷ rest)) ≡ text ++ (0 ∷ take (k - length text - 1) rest) =
      ap (λ n. take n (text ++ (0 ∷ rest))) e ∙ cut in
    rw (
      whole,
      has_zero-append text (take (k - length text - 1) rest),
      c_str-append text (take (k - length text - 1) rest) z,
    )

id_round : (n : ℕ) → n < 2 ^ 16 → n / 256 % 256 * 256 + n % 256 ≡ n
id_round n h = omega arith

message_size-text : (n size : ℕ) → n ≤ 631 → size ≡ control_msghdr_size + n → n < message_size size
unfolding message_size text_size
message_size-text n size h e = ground (arith, h, e)

copy_text-fault : (k : ℕ) (bytes : List ℕ) → has_zero bytes ≡ false → copy_text k bytes ≡ fault
unfolding copy_text
copy_text-fault k bytes z = rw (has_zero-take k bytes z) refl

take-one : (k x : ℕ) (xs : List ℕ) → 0 < k → take k (x ∷ xs) ≡ x ∷ take (k - 1) xs
take-one k x xs h = let e : k ≡ suc (k - 1) = omega (arith, h) in ap (λ n. take n (x ∷ xs)) e

take-none : (k : ℕ) (xs : List ℕ) → k ≡ 0 → take k xs ≡ []
take-none k [] e = ap (λ n. take n []) e ∙ refl
take-none k (x ∷ xs) e = ap (λ n. take n (x ∷ xs)) e

-- An answer of the server with a text.
abbrev pub answer : ℕ → ℕ → ℕ → List ℕ → List ℕ
answer type id len text = header_bytes type id len ++ text

process_lem :
    (type id len size : ℕ) (extra bytes : List ℕ)
    → type < 2 ^ 16
    → carries_text type ≡ true
    → process_response (answer type id len bytes) size extra ≡ copy_text (message_size size) bytes
unfolding process_response header_bytes u16_bytes u16_at
process_lem type id len size extra bytes h carries = rw (id_round type h, carries) refl

-- What a client makes of an answer with a text that arrives in the pieces `cs`, with `behind` in the memory
-- that malloc gave.
pub record Shown (type id len : ℕ) (text : List ℕ) (cs : List (List ℕ)) (extra behind : List ℕ)
    : Type 0 where
  pub received :
      send_tcp_request true (reads_of cs)
      ≡ ok (some (take tcp_buffer_size (answer type id len text)))
  pub fits :
      length text ≤ 631
      → (let (buf, size) =
            in_buffer (take tcp_buffer_size (answer type id len text)) (0 ∷ behind) in
          process_response buf size extra)
        ≡ ok text
  pub too_long :
      631 < length text
      → (let (buf, size) = in_buffer (take tcp_buffer_size (answer type id len text)) behind in
          process_response buf size extra)
        ≡ fault

-- An answer with a text without a zero byte, of a type whose text process_response copies, is received in
-- whatever pieces it arrives, cut to the 640 bytes of the buffer. A text of at most 631 bytes is shown as the
-- server sent it, if the byte behind it in the buffer is zero. With a longer text, like the list of the rooms of a
-- busy server, process_response reads past the end of the buffer.
pub send_tcp_request-Shown :
    (type id len : ℕ) (text : List ℕ) (cs : List (List ℕ)) (extra behind : List ℕ)
    → type < 2 ^ 16
    → carries_text type ≡ true
    → has_zero text ≡ false
    → Filled cs
    → concat cs ≡ answer type id len text
    → Shown type id len text cs extra behind
unfolding send_tcp_request in_buffer header_bytes u16_bytes
send_tcp_request-Shown type id len text cs extra behind ht carries z f arrives = record {
  received = receive_lem cs [] f ∙ ap (λ l. ok (some (take tcp_buffer_size l))) arrives;
  fits = λ h.
      let size = length (header_bytes type id len ++ text) in
      let n : size ≡ control_msghdr_size + length text = omega arith in
      rw (take_all 632 text (omega (arith, h))) (
        process_lem type id len size extra (text ++ take (tcp_buffer_size - size) (0 ∷ behind)) ht
          carries
        ∙ ap (λ l. copy_text (message_size size) (text ++ l))
            (take-one (tcp_buffer_size - size) 0 behind (omega (arith, h, n)))
        ∙ copy_text-past (message_size size) text (take (tcp_buffer_size - size - 1) behind) z
            (message_size-text (length text) size h n));
  too_long = λ h.
      let cut = take 632 text in
      let size = length (header_bytes type id len ++ cut) in
      let n : size ≡ tcp_buffer_size = omega (arith, length-take 632 text (omega (arith, h))) in
      process_lem type id len size extra (cut ++ take (tcp_buffer_size - size) behind) ht carries
      ∙ ap (λ l. copy_text (message_size size) (cut ++ l))
          (take-none (tcp_buffer_size - size) behind (omega (arith, n)))
      ∙ ap (copy_text (message_size size)) (append-nil cut)
      ∙ copy_text-fault (message_size size) cut (has_zero-take 632 text z);
}
