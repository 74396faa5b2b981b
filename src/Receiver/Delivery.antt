-- ===== src/Receiver/Delivery.antt =====
-- What the receiver does with the messages of the control process.
use csc469_a.Base.{
  ℕ, ◌+◌, ◌≤◌, ◌<◌, ◌≡◌, refl, ◌∙◌, Bool, true, false, List, [], ◌∷◌, ◌++◌, arith, ◌==◌, ltb, codes,
  take, drop, length, take_all, length-take, le-length-take, ok, fault,
}
use csc469_a.Protocol.{c_str, has_zero}
use csc469_a.Server.Control.{fill}
use csc469_a.Server.Buffers.{c_str-fill, has_zero-fill, fill-take, length-fill}
use csc469_a.Receiver.{
  Context, Screen, Ipc, received, handle_chatclient, handle_text, handle_received_msg, print_line,
  host_u16, host_bytes, recv_type,
}
use csc469_a.Receiver.Manager.{receiver_printf, printf_block, shutdown_receiver}

-- The line that the user reads for a status message.
abbrev pub status_line : List ℕ → List ℕ
status_line message = codes "--Ctrl req stat--: " ++ (message ++ (10 ∷ []))

-- What msgsnd puts into the queue for a message.
abbrev pub status_text : List ℕ → List ℕ
status_text message = take (42 + length message) (fill 2040 (printf_block message))

pub printf_lem :
    (message : List ℕ)
    → length message ≤ 1998
    → receiver_printf message ≡ ok (record { mtype = recv_type; text = status_text message })
unfolding receiver_printf
printf_lem message h =
    let fits : ltb 2040 (42 + length message) ≡ false = ground arith in
    rw (take_all 2006 message (omega arith), fits) refl

-- The chat header in front of a message, as the receiver prints it.
header_line :
    (len : ℕ) (rest message : List ℕ)
    → has_zero rest ≡ true
    → c_str rest ≡ message
    → handle_received_msg (fill 24 (codes "--Ctrl req stat--") ++ (host_bytes len ++ rest))
      ≡ ok (status_line message)
unfolding handle_received_msg host_bytes fill has_zero c_str
header_line len rest message z e = rw (z, e)

pub status_line_lem :
    (message : List ℕ)
    → has_zero message ≡ false
    → length message ≤ 1998
    → handle_received_msg (drop 8 (fill 2040 (printf_block message))) ≡ ok (status_line message)
unfolding printf_block host_bytes fill
status_line_lem message z h =
    header_line (length message) (fill 2006 message) message
      (has_zero-fill 2006 message (omega arith)) (c_str-fill 2006 message z (omega arith))

-- How the receiver takes what the control process sends.
pub record Delivered (ctx : Context) (stale : Bool) (message : List ℕ) (value : ℕ) (scr : Screen)
    : Type 0 where
  pub shown :
      length message ≤ 1998
      → (ipc : Ipc) × (receiver_printf message ≡ ok ipc)
        × (handle_chatclient ctx stale (received ipc.text) scr
            ≡ ok (record scr { printed = scr.printed ++ (status_line message ∷ []) }))
  pub overrun : 1998 < length message → receiver_printf message ≡ fault
  pub stopped :
      handle_chatclient ctx stale (received (shutdown_receiver value).text) scr
      ≡ ok (record {
        printed = scr.printed ++ (codes "Exitting the chat. Have a good day.\n" ∷ []);
        closed = scr.closed ++ (ctx.udp_port ∷ []);
        quits = true;
      })

text_lem :
    (ctx : Context) (stale : Bool) (text : List ℕ) (scr : Screen)
    → 0 < length text
    → handle_chatclient ctx stale (received text) scr ≡ handle_text ctx text scr
unfolding handle_chatclient
text_lem ctx stale [] scr h = absurd (omega arith)
text_lem ctx stale (b ∷ text) scr h = refl

no_quit : (message : List ℕ) → (host_u16 (fill 2040 (printf_block message)) 0 == 3) ≡ false
unfolding host_u16 fill printf_block host_bytes
no_quit message = refl

block_size : (message : List ℕ) → length (printf_block message) ≡ 34 + length message
unfolding fill printf_block host_bytes
block_size message = omega arith

pub shown_lem :
    (ctx : Context) (stale : Bool) (message : List ℕ) (scr : Screen)
    → has_zero message ≡ false
    → length message ≤ 1998
    → handle_chatclient ctx stale (received (status_text message)) scr
      ≡ ok (record scr { printed = scr.printed ++ (status_line message ∷ []) })
unfolding handle_text print_line
shown_lem ctx stale message scr z h =
    let size : length (status_text message) ≡ 42 + length message =
      length-take (42 + length message) (fill 2040 (printf_block message))
        (omega (arith, length-fill 2040 (printf_block message))) in
    let fits : ltb 2040 (length (status_text message)) ≡ false = ground (arith, size) in
    text_lem ctx stale (status_text message) scr (omega (arith, size))
    ∙ rw
        (
          fits,
          fill-take 2040 (42 + length message) (printf_block message)
              (omega (arith, block_size message)),
          no_quit message,
          status_line_lem message z h,
        )
        refl

too_long : (n : ℕ) → 1999 ≤ n → ltb 2040 (42 + n) ≡ true
too_long n h = ground arith

-- A status message without a zero byte. If it has at most 1998 bytes, the control process queues it and
-- the receiver prints it behind "--Ctrl req stat--: " and goes on. If it is longer, the control process
-- reads past the end of the block that it passes to msgsnd. The message of shutdown_receiver makes the
-- receiver print a last line, close the descriptor whose number is its port, and quit.
pub receiver_printf-Delivered :
    (ctx : Context) (stale : Bool) (message : List ℕ) (value : ℕ) (scr : Screen)
    → has_zero message ≡ false
    → Delivered ctx stale message value scr
unfolding receiver_printf handle_chatclient shutdown_receiver host_u16 fill host_bytes
receiver_printf-Delivered ctx stale message value scr z = record {
  shown = λ h. (_, printf_lem message h, shown_lem ctx stale message scr z h);
  overrun = λ h.
      let long : 1999 ≤ length (take 2006 message) =
        le-length-take 1999 2006 message (omega arith) h in
      rw (too_long (length (take 2006 message)) long) refl;
  stopped = refl;
}
