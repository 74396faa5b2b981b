-- ===== src/Receiver/Loop.antt =====
-- The loop of the receiver over what arrives, until the control process stops it.
use csc469_a.Base.{
  ℕ, ◌≤◌, ◌<◌, ◌≡◌, refl, sym, ap, ◌∙◌, true, false, Option, none, some, List, [], ◌∷◌, ◌++◌, map,
  codes, length, ok, append_assoc, append-nil,
}
use csc469_a.Protocol.{max_member_name_len, has_zero}
use csc469_a.Server.Chat.{stamp}
use csc469_a.Client.{chat_datagram}
use csc469_a.Receiver.{
  Context, Screen, Round, Msgrcv, no_message, received, receive_round, receive_msgs,
  handle_chatserver, handle_chatclient,
}
use csc469_a.Receiver.Manager.{shutdown_receiver}
use csc469_a.Receiver.Delivery.{status_line, status_text, shown_lem, receiver_printf-Delivered}
use csc469_a.Receiver.Relay.{chat_line, chat_datagram-Heard}

-- What arrives in one round: nothing, a chat message of a member, a status message, or one of each.
pub data Arrival : Type 0 where
  nothing : Arrival
  chat : (name : List ℕ) (id : ℕ) (text : List ℕ) → Arrival
  status : List ℕ → Arrival
  both : (name : List ℕ) (id : ℕ) (text message : List ℕ) → Arrival

abbrev round : Option (List ℕ) → Msgrcv → Round
round datagram answer = record { from_server = datagram; stale = true; from_client = answer }

-- The round in which it arrives.
abbrev pub round_of : Arrival → Round
round_of nothing = round none no_message
round_of (chat name id text) = round (some (stamp name (chat_datagram id text))) no_message
round_of (status message) = round none (received (status_text message))
round_of (both name id text message) =
    round (some (stamp name (chat_datagram id text))) (received (status_text message))

-- The lines that are printed for it.
abbrev pub lines_of : Arrival → List (List ℕ)
lines_of nothing = []
lines_of (chat name id text) = chat_line name text ∷ []
lines_of (status message) = status_line message ∷ []
lines_of (both name id text message) = chat_line name text ∷ status_line message ∷ []

abbrev FitsChat : List ℕ → List ℕ → Type 0
FitsChat name text =
    (has_zero name ≡ false)
    × (length name ≤ max_member_name_len)
    × (has_zero text ≡ false)
    × (length text < 2022)

abbrev FitsStatus : List ℕ → Type 0
FitsStatus message = (has_zero message ≡ false) × (length message ≤ 1998)

-- Strings that the buffers hold.
abbrev pub Fits : Arrival → Type 0
Fits nothing = Unit {0}
Fits (chat name id text) = FitsChat name text
Fits (status message) = FitsStatus message
Fits (both name id text message) = FitsChat name text × FitsStatus message

abbrev pub AllFit : List Arrival → Type 0
AllFit [] = Unit {0}
AllFit (a ∷ later) = Fits a × AllFit later

abbrev pub all_lines : List Arrival → List (List ℕ)
all_lines [] = []
all_lines (a ∷ later) = lines_of a ++ all_lines later

module _ (ctx : Context) where
  chat_lem :
      (name : List ℕ) (id : ℕ) (text : List ℕ) (scr : Screen)
      → FitsChat name text
      → handle_chatserver (some (stamp name (chat_datagram id text))) scr
        ≡ ok (record scr { printed = scr.printed ++ (chat_line name text ∷ []) })
  chat_lem name id text scr (z, short, zt, few) =
      (chat_datagram-Heard name id text scr z short zt).shown few

  -- A round prints the lines of what arrives in it, and goes on.
  round_lem :
      (a : Arrival) (scr : Screen)
      → Fits a
      → receive_round ctx (round_of a) scr ≡ ok (record scr { printed = scr.printed ++ lines_of a })
  unfolding receive_round handle_chatserver handle_chatclient
  round_lem nothing scr h = ap (λ l. ok (record scr { printed = l })) (sym (append-nil scr.printed))
  round_lem (chat name id text) scr h = rw (chat_lem name id text scr h) refl
  round_lem (status message) scr (z, few) = shown_lem ctx true message scr z few
  round_lem (both name id text message) scr (h, (z, few)) = rw (chat_lem name id text scr h) (
      shown_lem ctx true message
        (record scr { printed = scr.printed ++ (chat_line name text ∷ []) }) z few
      ∙ ap (λ l. ok (record scr { printed = l }))
          (append_assoc scr.printed (chat_line name text ∷ []) (status_line message ∷ [])))

  -- While no shutdown message arrives and all that arrives fits its buffers, each round goes on; the
  -- round with the message of shutdown_receiver ends the loop. The lines of everything that arrived before are printed
  -- in the order of arrival, and the farewell after them; nothing that arrives later is read.
  pub receive_msgs-stops :
      (value : ℕ) (arrivals : List Arrival) (later : List Round) (printed : List (List ℕ))
      (closed : List ℕ)
      → AllFit arrivals
      → receive_msgs ctx
          (map round_of arrivals ++ (round none (received (shutdown_receiver value).text) ∷ later))
          (record { printed = printed; closed = closed; quits = false })
        ≡ ok (record {
          printed =
              printed
              ++ (all_lines arrivals ++ (codes "Exitting the chat. Have a good day.\n" ∷ []));
          closed = closed ++ (ctx.udp_port ∷ []);
          quits = true;
        })
  unfolding receive_msgs receive_round handle_chatserver has_zero
  receive_msgs-stops value [] later printed closed h =
      let last =
        (receiver_printf-Delivered ctx true [] value
          (record { printed = printed; closed = closed; quits = false }) refl).stopped in
      rw last refl
  receive_msgs-stops value (a ∷ arrivals) later printed closed (h, rest) =
      rw (round_lem a (record { printed = printed; closed = closed; quits = false }) h) (
        receive_msgs-stops value arrivals later (printed ++ lines_of a) closed rest
        ∙ ap
            (λ l. ok (record { printed = l; closed = closed ++ (ctx.udp_port ∷ []); quits = true }))
            (append_assoc printed (lines_of a) (all_lines arrivals ++ bye)
              ∙ ap (λ l. printed ++ l) (sym (append_assoc (lines_of a) (all_lines arrivals) bye))))
    where
      bye : List (List ℕ)
      bye = codes "Exitting the chat. Have a good day.\n" ∷ []
