-- ===== src/Client/Command.antt =====
-- The commands of a3/client_main.c: validate_and_extract_data_from_ctrl_command, send_ctrl_request and
-- handle_command_input.
use csc469_a.Base.{
  ℕ, ◌+◌, ◌≤◌, ◌≡◌, false, Bool, Option, none, some, List, [], ◌∷◌, ◌==◌, ltb, ◌||◌, if◌then◌else◌,
  length, arith,
}
use csc469_a.Protocol.{max_room_name_len}

-- The characters ' ', '\t' and '\n'.
unfoldable pub is_space : ℕ → Bool
is_space c = c == 32 || c == 9 || c == 10

-- `strcspn(line, " \t\n")`.
unfoldable pub strcspn : List ℕ → ℕ
unfolding is_space
strcspn [] = 0
strcspn (c ∷ cs) = if is_space c then 0 else 1 + strcspn cs

-- The rest of a 'c', 'm' or 's' command, behind its space.
unfoldable pub room_argument : List ℕ → Option (List ℕ)
room_argument name =
    if length name == strcspn name
    then (if ltb max_room_name_len (length name) then none else some name)
    else none

-- A 'c', 'm' or 's' command: a space and a room name.
unfoldable pub after_space : List ℕ → Option (List ℕ)
after_space [] = none
after_space (c ∷ name) = if c == 32 then room_argument name else none

unfoldable pub takes_nothing : ℕ → Bool
takes_nothing cmd = cmd == 114 || cmd == 113

unfoldable pub takes_room : ℕ → Bool
takes_room cmd = cmd == 99 || cmd == 109 || cmd == 115

-- `cmd` is the character of the command, and `line` the text behind it.
unfoldable pub validate_and_extract_data_from_ctrl_command : ℕ → List ℕ → Option (List ℕ)
validate_and_extract_data_from_ctrl_command cmd line =
    if takes_nothing cmd
    then (if length line == 0 then some line else none)
    else if takes_room cmd
    then after_space line
    else none

-- What send_ctrl_request asks of the client's core. Only `quit` ends the program.
pub data Request : Type 0 where
  list_rooms : Request
  create : List ℕ → Request
  list_members : List ℕ → Request
  switch_room : List ℕ → Request
  quit : Request
  unrecognized : Request

unfoldable pub send_ctrl_request : ℕ → List ℕ → Request
send_ctrl_request cmd msgdata =
    if cmd == 114
    then list_rooms
    else if cmd == 99
    then create msgdata
    else if cmd == 109
    then list_members msgdata
    else if cmd == 115
    then switch_room msgdata
    else if cmd == 113
    then quit
    else unrecognized

-- Without its newline at the end.
unfoldable pub chomp : List ℕ → List ℕ
chomp [] = []
chomp (c ∷ []) = if c == 10 then [] else c ∷ []
chomp (c ∷ d ∷ cs) = c ∷ chomp (d ∷ cs)

unfoldable pub run_command : ℕ → List ℕ → Option Request
run_command cmd line = elim (validate_and_extract_data_from_ctrl_command cmd line) [
  | none ↦ none
  | some msgdata ↦ some (send_ctrl_request cmd msgdata)
]

-- `line` starts with '!'. A line that ends there has the command character 0, which is refused before
-- its text is read.
unfoldable pub handle_command : List ℕ → Option Request
handle_command [] = none
handle_command (bang ∷ []) = run_command 0 []
handle_command (bang ∷ cmd ∷ line) = run_command cmd line

unfoldable pub handle_command_input : List ℕ → Option Request
handle_command_input line = handle_command (chomp line)

-- No character of the name is a space, a tab or a newline.
abbrev pub Unspaced : List ℕ → Type 0
Unspaced [] = Unit {0}
Unspaced (c ∷ cs) = (is_space c ≡ false) × Unspaced cs

strcspn-le : (cs : List ℕ) → strcspn cs ≤ length cs
unfolding strcspn
strcspn-le [] = omega arith
strcspn-le (c ∷ cs) = ground (arith, strcspn-le cs)

-- What a room command may look like.
pub record RoomCommand (line name : List ℕ) : Type 0 where
  pub shape : line ≡ 32 ∷ name
  pub unspaced : Unspaced name
  pub short : length name ≤ max_room_name_len
