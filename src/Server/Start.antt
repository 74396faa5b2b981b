-- ===== src/Server/Start.antt =====
-- The rooms of the room file, as init_server of a3/server_util.c makes them.
use csc469_a.Base.{
  true, false, ◌||◌, ◌-◌, ℕ, List, [], ◌∷◌, ◌++◌, ◌==◌, if◌then◌else◌, take, length, last_or, Run,
  ok, fault,
}
use csc469_a.Protocol.{max_num_of_rooms, c_str}
use csc469_a.Chain.{Ptr, null}
use csc469_a.Server.{Step, return, ◌>>=◌, ◌>>◌, lift}
use csc469_a.Server.Rooms.{create_room}

abbrev pub max_line_len : ℕ
max_line_len = 256

-- The buffers that the calls of fgets fill, one after another, while feof says no: each goes up to a newline, or has
-- the 255 bytes that fit. `left` bytes still fit behind the bytes of `buf`. What is read at the end of the file
-- without a newline is dropped, since feof says yes then.
unfoldable pub fgets_buffers : ℕ → List ℕ → List ℕ → List (List ℕ)
fgets_buffers left buf [] = []
fgets_buffers left buf (x ∷ text) = elim (x == 10 || left == 1) [
  | true ↦ (buf ++ (x ∷ [])) ∷ fgets_buffers (max_line_len - 1) [] text
  | false ↦ fgets_buffers (left - 1) (buf ++ (x ∷ [])) text
]

-- The string without a newline at its end; on an empty string the code reads in front of the buffer.
unfoldable pub chop_string : List ℕ → Run (List ℕ)
chop_string [] = fault
chop_string (x ∷ line) =
    if last_or x line == 10 then ok (take (length line) (x ∷ line)) else ok (x ∷ line)

-- The string of the buffer ends at its first zero.
unfoldable pub chop : List ℕ → Run (List ℕ)
unfolding chop_string
chop line = chop_string (c_str line)

-- A word in front of the words that follow, unless it is empty.
unfoldable pub word_before : List ℕ → List (List ℕ) → List (List ℕ)
word_before [] rest = rest
word_before (x ∷ word) rest = (x ∷ word) ∷ rest

-- The words that strtok finds, with `word` read so far.
unfoldable pub words_from : List ℕ → List ℕ → List (List ℕ)
unfolding word_before
words_from word [] = word_before word []
words_from word (x ∷ line) =
    if x == 32 then word_before word (words_from [] line) else words_from (word ++ (x ∷ [])) line

unfoldable pub strtok_words : List ℕ → List (List ℕ)
unfolding words_from
strtok_words line = words_from [] line

-- `objects` is what malloc gives, or would give, for the words, one after another; NULL comes behind them.
unfoldable pub create_words : List Ptr → List (List ℕ) → Step (Unit {0})
create_words objects [] = return tt
create_words [] (word ∷ words) = do ret ← create_room null word; create_words [] words
create_words (fresh ∷ objects) (word ∷ words) = do
  ret ← create_room fresh word
  create_words objects words

-- At most 40 words of a line are read.
unfoldable pub load_line : List Ptr → List ℕ → Step (Unit {0})
unfolding create_words strtok_words
load_line objects line = do
  text ← lift (chop line)
  create_words objects (take max_num_of_rooms (strtok_words text))

-- The buffers, each with the objects that malloc gives while it is read.
unfoldable pub load_buffers : List (List Ptr × List ℕ) → Step (Unit {0})
unfolding load_line
load_buffers [] = return tt
load_buffers ((objects, line) ∷ lines) = load_line objects line >> load_buffers lines

unfoldable pub with_objects : List (List Ptr) → List (List ℕ) → List (List Ptr × List ℕ)
with_objects objects [] = []
with_objects [] (line ∷ lines) = ([], line) ∷ with_objects [] lines
with_objects (ps ∷ objects) (line ∷ lines) = (ps, line) ∷ with_objects objects lines

-- The whole file, with the objects that malloc gives for each buffer.
unfoldable pub load_rooms : List (List Ptr) → List ℕ → Step (Unit {0})
unfolding load_buffers with_objects fgets_buffers
load_rooms objects text =
    load_buffers (with_objects objects (fgets_buffers (max_line_len - 1) [] text))
