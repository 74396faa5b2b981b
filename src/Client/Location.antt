-- ===== src/Client/Location.antt =====
-- The look-up of another server after a failure: refresh_chatserver of a3/chatserver_manager.c, with
-- send_http_request of a3/http_connection.c.
use csc469_a.Base.{
  ℕ, ◌+◌, ◌≤◌, ◌≡◌, refl, true, false, Option, none, some, List, [], ◌∷◌, ◌++◌, ◌==◌, ◌||◌, ltb,
  if◌then◌else◌, arith, length, Bool-cases, inl, inr, Run, ok, fault,
}
use csc469_a.Protocol.{c_str, has_zero}
use csc469_a.Server.{bind_run}
use csc469_a.Server.Start.{word_before}

abbrev pub max_host_name_len : ℕ
max_host_name_len = 80

-- The tokens that strtok finds between carriage returns and newlines, with `token` read so far.
unfoldable pub line_tokens : List ℕ → List ℕ → List (List ℕ)
unfolding word_before
line_tokens token [] = word_before token []
line_tokens token (x ∷ text) = elim (x == 13 || x == 10) [
  | true ↦ word_before token (line_tokens [] text)
  | false ↦ line_tokens (token ++ (x ∷ [])) text
]

-- The copy of the last token into the block of as many bytes; `block n` is what malloc's block of `n` bytes really
-- holds. Without a token, sscanf reads NULL.
unfoldable pub copy_last : (ℕ → ℕ) → List (List ℕ) → Run (List ℕ)
copy_last block [] = fault
copy_last block (token ∷ []) =
    if ltb (block (length token)) (length token + 1) then fault else ok token
copy_last block (token ∷ next ∷ tokens) = copy_last block (next ∷ tokens)

-- `answer` is the buffer with the location server's answer. Without a connection the code reads through
-- NULL, and without an answer sscanf reads NULL. Nothing sets a zero behind the answer.
unfoldable pub send_http_request : (ℕ → ℕ) → Option (List ℕ) → Run (List ℕ)
unfolding copy_last line_tokens
send_http_request block none = fault
send_http_request block (some raw) =
    if has_zero raw then copy_last block (line_tokens [] (c_str raw)) else fault

-- The first word of a text, as the `%s` of sscanf reads it.
unfoldable pub word_in : List ℕ → List ℕ
word_in [] = []
word_in (x ∷ text) =
    let rest = word_in text in if x == 32 || (x == 9 || (x == 11 || x == 12)) then [] else x ∷ rest

unfoldable pub skip_spaces : List ℕ → List ℕ
skip_spaces [] = []
skip_spaces (x ∷ text) =
    let rest = skip_spaces text in
    if x == 32 || (x == 9 || (x == 11 || x == 12)) then rest else x ∷ text

-- The host's name is stored with a zero; the ports, and which server later attempts reach, are a part of what these
-- give.
unfoldable pub refresh_chatserver : (ℕ → ℕ) → Option (List ℕ) → Run (Unit {0})
unfolding send_http_request word_in skip_spaces
refresh_chatserver block answer = bind_run (send_http_request block answer) (λ response.
    if ltb max_host_name_len (length (word_in (skip_spaces response)) + 1) then fault else ok tt)

copy_last-fault :
    (block : ℕ → ℕ) (tokens : List (List ℕ))
    → ((n : ℕ) → block n ≤ n)
    → copy_last block tokens ≡ fault
unfolding copy_last
copy_last-fault block [] exact = refl
copy_last-fault block (token ∷ []) exact =
    let over : ltb (block (length token)) (length token + 1) ≡ true =
      ground (arith, exact (length token)) in
    rw over refl
copy_last-fault block (token ∷ next ∷ tokens) exact = copy_last-fault block (next ∷ tokens) exact

-- If malloc's blocks have no byte more than asked for, every look-up writes past its block or reads through NULL.
pub refresh_chatserver-fault :
    (block : ℕ → ℕ) (answer : Option (List ℕ))
    → ((n : ℕ) → block n ≤ n)
    → refresh_chatserver block answer ≡ fault
unfolding refresh_chatserver send_http_request
refresh_chatserver-fault block none exact = refl
refresh_chatserver-fault block (some raw) exact = elim (Bool-cases (has_zero raw)) [
  | inl ends ↦ rw (ends, copy_last-fault block (line_tokens [] (c_str raw)) exact) refl
  | inr unended ↦ rw unended refl
]
