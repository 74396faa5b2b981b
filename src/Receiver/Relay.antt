-- ===== src/Receiver/Relay.antt =====
-- A chat message on its way from the sender's client through the server to a receiver.
use csc469_a.Base.{
  ℕ, ◌+◌, ◌≤◌, ◌<◌, ◌≡◌, refl, ap, ◌∙◌, sym, true, false, List, [], ◌∷◌, ◌++◌, arith, codes, some,
  take, drop, length, length-append, length-drop, length-take, drop-append, drop_inside, take_all,
  append_assoc, replicate, ok, fault,
}
use csc469_a.Protocol.{max_member_name_len, c_str, has_zero, u16_bytes}
use csc469_a.Server.Control.{fill}
use csc469_a.Server.Chat.{stamp}
use csc469_a.Server.Buffers.{
  c_str-fill, has_zero-fill, has_zero-full, has_zero-take, fill-append, c_str-append,
  has_zero-append,
}
use csc469_a.Client.{chat_datagram}
use csc469_a.Receiver.{Screen, handle_chatserver, handle_received_msg, print_line}

-- The line that a member reads.
abbrev pub chat_line : List ℕ → List ℕ → List ℕ
chat_line name text = name ++ (codes ": " ++ (text ++ (10 ∷ [])))

-- The header of a chat datagram.
abbrev chat_header : ℕ → ℕ → List ℕ
chat_header id len = u16_bytes id ++ (replicate 22 0 ++ u16_bytes len)

-- The header once the name is over the id.
abbrev stamped : List ℕ → List ℕ → List ℕ
stamped name header = name ++ (0 ∷ drop (length name + 1) header)

stamped_size :
    (name header : List ℕ)
    → length name < length header
    → length (stamped name header) ≡ length header
stamped_size name header h = omega (
  arith,
  length-append name (0 ∷ drop (length name + 1) header),
  length-drop (length name + 1) header,
)

stamp_lem :
    (name header text : List ℕ)
    → length name < length header
    → stamp name (header ++ text) ≡ stamped name header ++ text
unfolding stamp
stamp_lem name header text h = rw (drop_inside (length name + 1) header text (omega arith)) (
    ap (take (length (header ++ text)))
      (sym (append_assoc name (0 ∷ drop (length name + 1) header) text))
    ∙ take_all (length (header ++ text)) (stamped name header ++ text) (
        omega (
          arith,
          length-append header text,
          length-append (stamped name header) text,
          stamped_size name header h,
        )))

-- What the receiver makes of a buffer with the strings `name` and `text`.
line_lem :
    (buf rest name text : List ℕ)
    → (has_zero buf ≡ true) × (c_str buf ≡ name)
    → drop 26 buf ≡ rest
    → (has_zero rest ≡ true) × (c_str rest ≡ text)
    → handle_received_msg buf ≡ ok (chat_line name text)
unfolding handle_received_msg
line_lem buf rest name text (z, e) at (zt, et) = rw (z, at, zt, e, et)

overrun_lem :
    (buf rest : List ℕ)
    → has_zero buf ≡ true
    → drop 26 buf ≡ rest
    → has_zero rest ≡ false
    → handle_received_msg buf ≡ fault
unfolding handle_received_msg
overrun_lem buf rest z at zt = rw (z, at, zt)

-- A stamped header in front of the rest of a buffer.
module _ (name header rest : List ℕ) (size : length header ≡ 26) (short : length name < 26)
    (z : has_zero name ≡ false) where
  joins : stamped name header ++ rest ≡ name ++ (0 ∷ (drop (length name + 1) header ++ rest))
  joins = append_assoc name (0 ∷ drop (length name + 1) header) rest

  name_at :
      (has_zero (stamped name header ++ rest) ≡ true) × (c_str (stamped name header ++ rest) ≡ name)
  name_at = (
    ap has_zero joins ∙ has_zero-append name (drop (length name + 1) header ++ rest),
    ap c_str joins ∙ c_str-append name (drop (length name + 1) header ++ rest) z,
  )

  width : length (stamped name header) ≡ 26
  width = stamped_size name header (omega arith) ∙ size

  rest_at : drop 26 (stamped name header ++ rest) ≡ rest
  rest_at =
      ap (λ n. drop n (stamped name header ++ rest)) (sym width)
      ∙ drop-append (stamped name header) rest

  filled : fill 2048 (stamped name header ++ rest) ≡ stamped name header ++ fill 2022 rest
  filled =
      ap (λ n. fill (n + 2022) (stamped name header ++ rest)) (sym width)
      ∙ fill-append (stamped name header) rest 2022

-- What becomes of a chat message of the member `name`.
pub record Heard (name : List ℕ) (id : ℕ) (text : List ℕ) (scr : Screen) : Type 0 where
  pub shown :
      length text < 2022
      → handle_chatserver (some (stamp name (chat_datagram id text))) scr
        ≡ ok (record scr { printed = scr.printed ++ (chat_line name text ∷ []) })
  pub overrun :
      2022 ≤ length text → handle_chatserver (some (stamp name (chat_datagram id text))) scr ≡ fault

datagram_lem :
    (id : ℕ) (text : List ℕ)
    → chat_datagram id text ≡ chat_header id (length (take 2022 text)) ++ take 2022 text
unfolding chat_datagram u16_bytes
datagram_lem id text = refl

header_size : (id len : ℕ) → length (chat_header id len) ≡ 26
unfolding u16_bytes
header_size id len = refl

-- A chat message without a zero byte, as the client packs it, with the sender's name put over the id by
-- the server, the name having at most 24 bytes and no zero byte. If the text has fewer than 2022 bytes,
-- the receiver prints the name, ": " and the text on a line. If it has 2022 bytes or more, the text, cut to
-- 2022 bytes, fills the receiver's buffer, and the receiver reads past its end.
pub chat_datagram-Heard :
    (name : List ℕ) (id : ℕ) (text : List ℕ) (scr : Screen)
    → has_zero name ≡ false
    → length name ≤ max_member_name_len
    → has_zero text ≡ false
    → Heard name id text scr
unfolding handle_chatserver print_line
chat_datagram-Heard name id text scr z short zt = record {
  shown = λ few.
      let line =
        line_lem (stamped name header ++ fill 2022 sent) (fill 2022 sent) name sent
          (name_at name header (fill 2022 sent) size fits z)
          (rest_at name header (fill 2022 sent) size fits z)
          (
            has_zero-fill 2022 sent (omega (arith, ap length (whole few))),
            c_str-fill 2022 sent zs (omega (arith, ap length (whole few))),
          ) in
      rw (arrives, line)
        (ap (λ t. ok (record scr { printed = scr.printed ++ (chat_line name t ∷ []) }))
          (whole few));
  overrun = λ many.
      rw
        (
          arrives,
          overrun_lem (stamped name header ++ fill 2022 sent) (fill 2022 sent)
              (name_at name header (fill 2022 sent) size fits z).0
              (rest_at name header (fill 2022 sent) size fits z)
              (has_zero-full 2022 sent zs (omega (arith, length-take 2022 text many))),
        )
        refl;
}
  where
    sent : List ℕ
    sent = take 2022 text

    header : List ℕ
    header = chat_header id (length sent)

    size : length header ≡ 26
    size = header_size id (length sent)

    fits : length name < 26
    fits = omega arith

    zs : has_zero sent ≡ false
    zs = has_zero-take 2022 text zt

    whole : length text < 2022 → sent ≡ text
    whole few = take_all 2022 text (omega arith)

    arrives : fill 2048 (stamp name (chat_datagram id text)) ≡ stamped name header ++ fill 2022 sent
    arrives =
        ap (λ d. fill 2048 (stamp name d)) (datagram_lem id text)
        ∙ ap (fill 2048) (stamp_lem name header sent (omega (arith, size)))
        ∙ filled name header sent size fits z
