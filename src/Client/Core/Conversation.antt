-- ===== src/Client/Core/Conversation.antt =====
-- What the user's lines come to while the client's server answers.
use csc469_a.Base.{ℕ, ◌+◌, ◌≡◌, Bool, true, false, List, [], ◌∷◌, ◌++◌, if◌then◌else◌, map}
use csc469_a.Client.{chat_datagram}
use csc469_a.Client.Command.{list_rooms, create, list_members, switch_room, quit, unrecognized}
use csc469_a.Client.Reconnect.{Net}
use csc469_a.Client.Core.{Interface, Input, chat, refused, asked, read_input}
use csc469_a.Client.Core.Asking.{cost, room_after, Done, messages}

abbrev is_quit : Input → Bool
is_quit chat = false
is_quit refused = false
is_quit (asked list_rooms) = false
is_quit (asked (create room)) = false
is_quit (asked (list_members room)) = false
is_quit (asked (switch_room room)) = false
is_quit (asked quit) = true
is_quit (asked unrecognized) = false

-- The lines in front of the first quit command.
abbrev pub before_quit : List (List ℕ) → List (List ℕ)
before_quit [] = []
before_quit (line ∷ lines) = if is_quit (read_input line) then [] else line ∷ before_quit lines

abbrev is_chat : Input → Bool
is_chat chat = true
is_chat refused = false
is_chat (asked request) = false

abbrev pub chats : List (List ℕ) → List (List ℕ)
chats [] = []
chats (line ∷ lines) = if is_chat (read_input line) then line ∷ chats lines else chats lines

abbrev pub requests : List (List ℕ) → ℕ
requests [] = 0
requests (line ∷ lines) = cost (read_input line) + requests lines

module _ (net : Net) (server : ℕ → List ℕ → List ℕ × ℕ) where
  -- The client's room after the lines, the first request being the `n`-th of the client's attempts.
  abbrev room_at_end : ℕ → ℕ → List (List ℕ) → List ℕ → List ℕ
  room_at_end n id [] room = room
  room_at_end n id (line ∷ lines) room =
      room_at_end (n + cost (read_input line)) id lines
        (room_after net server n id (read_input line) room)

  -- The messages for the user.
  abbrev transcript : ℕ → ℕ → List (List ℕ) → List (List ℕ)
  transcript n id [] = []
  transcript n id (line ∷ lines) =
      messages net server n id (read_input line) ++ transcript (n + cost (read_input line)) id lines

  -- What the lines `ls`, without a quit command among them, do.
  pub record Conversation (ls : List (List ℕ)) (i j : Interface) : Type 0 where
    pub tries : j.core.tries ≡ i.core.tries + requests ls
    pub member_id : j.core.member_id ≡ i.core.member_id
    pub room : j.core.curr_room ≡ room_at_end i.core.tries i.core.member_id ls i.core.curr_room
    pub printed : j.core.printed ≡ i.core.printed ++ transcript i.core.tries i.core.member_id ls
    pub datagrams : j.datagrams ≡ i.datagrams ++ map (chat_datagram i.core.member_id) (chats ls)

  -- What one line does.
  record Acted (line : List ℕ) (input : Input) (i j : Interface) : Type 0 where
    pub core : Done net server input i.core j.core
    pub datagrams : j.datagrams ≡ (
        if is_chat input
        then i.datagrams ++ (chat_datagram i.core.member_id line ∷ [])
        else i.datagrams)
