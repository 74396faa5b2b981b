-- ===== src/Session/RoomFile.antt =====
-- The room file, and the rooms that its words make.
use csc469_a.Base.{
  ℕ, ◌≤◌, ◌<◌, ◌-◌, ◌≡◌, ◌≢◌, refl, sym, ap, ◌∙◌, true, false, List, [], ◌∷◌, ◌++◌, map, arith,
  ◌==◌, has, length, ne_of_has, take_all, Ends, Ends-mono,
}
use csc469_a.Protocol.{max_num_of_rooms}
use csc469_a.Chain.{Ptr, null}
use csc469_a.Server.{Server}
use csc469_a.Server.Rooms.{create_room}
use csc469_a.Server.Start.{
  create_words, load_line, load_buffers, load_rooms, with_objects, fgets_buffers, max_line_len,
}
use csc469_a.Session.Rules.{Ends-bind, Ends-seq}
use csc469_a.Session.RoomNames.{enlist, enlist_all}
use csc469_a.Session.Safe.{Good}
use csc469_a.Session.Safe.Creation.{Grown, create_room-Grown}
use csc469_a.Session.RoomWords.{Words, line_of, chop_line, split_line, fgets_buffers-line}

ne_of_has_flip : (a b : ℕ) (xs : List ℕ) → has a xs ≡ false → has b xs ≡ true → (b == a) ≡ false
ne_of_has_flip a b xs h k = ground (arith, ne_of_has a b xs h k)

-- The objects and the words of entries.
abbrev pub objects_of : List (Ptr × List ℕ) → List Ptr
objects_of = map (λ e. e.0)

abbrev pub words_of : List (Ptr × List ℕ) → List (List ℕ)
words_of = map (λ e. e.1)

-- Different objects that no room uses.
abbrev pub Supplied : Server → List (Ptr × List ℕ) → Type 0
Supplied s [] = Unit {0}
Supplied s ((p, w) ∷ es) =
    (p ≢ null) × (s.room_live p ≡ false) × (has p (objects_of es) ≡ false) × Supplied s es

Supplied-kept :
    (s t : Server) (es : List (Ptr × List ℕ))
    → ((p : Ptr) → has p (objects_of es) ≡ true → t.room_live p ≡ s.room_live p)
    → Supplied s es
    → Supplied t es
Supplied-kept s t [] same h = tt
Supplied-kept s t ((p, w) ∷ es) same (ne, dead, new, rest) = (
  ne,
  same p (ground arith) ∙ dead,
  new,
  Supplied-kept s t es (λ q h. same q (ground (arith, h))) rest,
)

-- What the words make of the rooms `rs`; `more` are entries of later lines.
pub record Loaded (s : Server) (ms rs : List Ptr) (words : List (List ℕ))
    (more : List (Ptr × List ℕ)) (t : Server) : Type 0 where
  pub rooms : List Ptr
  pub roster : Ptr → List Ptr
  pub good : Good t ms rooms roster
  pub names : map t.room_name rooms ≡ enlist_all (map s.room_name rs) words
  pub supplied : Supplied t more

enlist-append :
    (names us vs : List (List ℕ))
    → enlist_all names (us ++ vs) ≡ enlist_all (enlist_all names us) vs
enlist-append names [] vs = refl
enlist-append names (u ∷ us) vs = enlist-append (enlist names u) us vs

create_words-Ends :
    (es more : List (Ptr × List ℕ)) (s : Server) (ms rs : List Ptr) (roster : Ptr → List Ptr)
    → Good s ms rs roster
    → Supplied s (es ++ more)
    → Words (words_of es)
    → Ends
        (λ a. Loaded s ms rs (words_of es) more a.1)
        (create_words (objects_of es) (words_of es) s)
unfolding create_words
create_words-Ends [] more s ms rs roster g free h = record {
  rooms = rs;
  roster = roster;
  good = g;
  names = refl;
  supplied = free;
}
create_words-Ends ((p, w) ∷ es) more s ms rs roster g (ne, dead, new, free)
      ((some_word, plain, fits, line, z), rest) =
    Ends-bind (λ a. Loaded s ms rs (w ∷ words_of es) more a.1) (create_room p w s)
      (λ r. create_words (objects_of es) (words_of es) r.1)
      (Ends-mono (λ a. Grown s ms rs p w a.1) _ (create_room p w s)
        (λ a grown.
          Ends-mono (λ b. Loaded a.1 ms grown.rooms (words_of es) more b.1) _
            (create_words (objects_of es) (words_of es) a.1)
            (λ b l. record {
              rooms = l.rooms;
              roster = l.roster;
              good = l.good;
              names = l.names ∙ ap (λ n. enlist_all n (words_of es)) grown.names;
              supplied = l.supplied;
            })
            (create_words-Ends es more a.1 ms grown.rooms grown.roster grown.good
              (Supplied-kept s a.1 (es ++ more)
                (λ q h. grown.others q (ne_of_has_flip p q (objects_of (es ++ more)) new h)) free)
              rest))
        (create_room-Grown s ms rs roster g p w ne dead fits))

-- A line of entries: the objects that malloc gives, and the text.
abbrev pub entry_line : List (Ptr × List ℕ) → List Ptr × List ℕ
entry_line es = (objects_of es, line_of (words_of es))

abbrev pub all_entries : List (List (Ptr × List ℕ)) → List (Ptr × List ℕ)
all_entries [] = []
all_entries (es ∷ lines) = es ++ all_entries lines

abbrev pub Lines : List (List (Ptr × List ℕ)) → Type 0
Lines [] = Unit {0}
Lines (es ∷ lines) =
    Words (words_of es)
    × (length (words_of es) ≤ max_num_of_rooms)
    × (length (line_of (words_of es)) < max_line_len)
    × Lines lines

abbrev pub all_words : List (List (Ptr × List ℕ)) → List (List ℕ)
all_words [] = []
all_words (es ∷ lines) = words_of es ++ all_words lines

load_line-Ends :
    (es more : List (Ptr × List ℕ)) (s : Server) (ms rs : List Ptr) (roster : Ptr → List Ptr)
    → Good s ms rs roster
    → Supplied s (es ++ more)
    → Words (words_of es)
    → length (words_of es) ≤ max_num_of_rooms
    → Ends
        (λ a. Loaded s ms rs (words_of es) more a.1)
        (load_line (objects_of es) (line_of (words_of es)) s)
unfolding load_line
load_line-Ends es more s ms rs roster g free h few =
    rw
      (
        chop_line (words_of es) h,
        split_line (words_of es) h,
        take_all max_num_of_rooms (words_of es) few,
      )
      (create_words-Ends es more s ms rs roster g free h)

load_buffers-Loaded :
    (lines : List (List (Ptr × List ℕ))) (s : Server) (ms rs : List Ptr) (roster : Ptr → List Ptr)
    → Good s ms rs roster
    → Supplied s (all_entries lines)
    → Lines lines
    → Ends (λ a. Loaded s ms rs (all_words lines) [] a.1) (load_buffers (map entry_line lines) s)
unfolding load_buffers
load_buffers-Loaded [] s ms rs roster g free h = record {
  rooms = rs;
  roster = roster;
  good = g;
  names = refl;
  supplied = tt;
}
load_buffers-Loaded (es ∷ lines) s ms rs roster g free (h, few, fits, rest) =
    Ends-seq (λ a. Loaded s ms rs (words_of es ++ all_words lines) [] a.1)
      (load_line (objects_of es) (line_of (words_of es))) (load_buffers (map entry_line lines)) s
      (Ends-mono (λ a. Loaded s ms rs (words_of es) (all_entries lines) a.1) _
        (load_line (objects_of es) (line_of (words_of es)) s)
        (λ a first.
          Ends-mono (λ b. Loaded a.1 ms first.rooms (all_words lines) [] b.1) _ _
            (λ b l. record {
              rooms = l.rooms;
              roster = l.roster;
              good = l.good;
              names =
                  l.names
                  ∙ ap (λ n. enlist_all n (all_words lines)) first.names
                  ∙ sym (enlist-append (map s.room_name rs) (words_of es) (all_words lines));
              supplied = tt;
            })
            (load_buffers-Loaded lines a.1 ms first.rooms first.roster first.good first.supplied
              rest))
        (load_line-Ends es (all_entries lines) s ms rs roster g free h few))

-- The text of the file.
abbrev pub file_text : List (List (Ptr × List ℕ)) → List ℕ
file_text [] = []
file_text (es ∷ lines) = line_of (words_of es) ++ file_text lines

buffers_lem :
    (lines : List (List (Ptr × List ℕ)))
    → Lines lines
    → with_objects (map objects_of lines) (fgets_buffers (max_line_len - 1) [] (file_text lines))
      ≡ map entry_line lines
unfolding with_objects fgets_buffers
buffers_lem [] h = refl
buffers_lem (es ∷ lines) (h, few, fits, rest) =
    rw (fgets_buffers-line (words_of es) (file_text lines) h fits, buffers_lem lines rest) refl

-- A room file whose lines have at most 255 bytes with their newline and at most 40 words, with single spaces between
-- the words and no word of 24 bytes or with a zero, is read without a fault in any state with the invariant, if
-- malloc gives different objects that no room uses. The invariant holds again, and the names of the rooms
-- are those from before and, in order, each word that has fewer than 24 bytes and is no room's name yet,
-- as long as there are fewer than 40 rooms.
pub load_rooms-Loaded :
    (lines : List (List (Ptr × List ℕ))) (s : Server) (ms rs : List Ptr) (roster : Ptr → List Ptr)
    → Good s ms rs roster
    → Supplied s (all_entries lines)
    → Lines lines
    → Ends
        (λ a. Loaded s ms rs (all_words lines) [] a.1)
        (load_rooms (map objects_of lines) (file_text lines) s)
unfolding load_rooms
load_rooms-Loaded lines s ms rs roster g free h =
    rw (buffers_lem lines h) (load_buffers-Loaded lines s ms rs roster g free h)
