-- ===== src/Session/RoomWords.antt =====
-- The lines of the room file and their words.
use csc469_a.Base.{
  ◌-◌, ◌<◌, ◌||◌, has-append, ℕ, suc, ◌≡◌, ◌≢◌, refl, sym, ap, ◌∙◌, false, List, [], ◌∷◌, ◌++◌,
  arith, ◌==◌, has, length, length-append, append-nil, append_assoc, last_or, last_or-snoc, take,
  ok,
}
use csc469_a.Protocol.{max_room_name_len, has_zero, c_str}
use csc469_a.Server.Start.{
  chop, chop_string, fgets_buffers, max_line_len, word_before, words_from, strtok_words,
}
use csc469_a.Session.Joined.{joined}

-- A word without spaces, newlines and zeros whose length create_room can take.
abbrev pub Word : List ℕ → Type 0
Word w =
    (w ≢ [])
    × (has 32 w ≡ false)
    × (length w ≢ max_room_name_len)
    × (has 10 w ≡ false)
    × (has_zero w ≡ false)

abbrev pub Words : List (List ℕ) → Type 0
Words [] = Unit {0}
Words (w ∷ ws) = Word w × Words ws

-- A line of words.
abbrev pub line_of : List (List ℕ) → List ℕ
line_of ws = joined ws ++ (10 ∷ [])

take_front : (xs ys : List ℕ) → take (length xs) (xs ++ ys) ≡ xs
take_front [] ys = refl
take_front (x ∷ xs) ys = ap (λ zs. x ∷ zs) (take_front xs ys)

c_str-none : (xs : List ℕ) → has_zero xs ≡ false → c_str xs ≡ xs
unfolding c_str has_zero
c_str-none [] z = refl
c_str-none (x ∷ xs) z =
    let here : (x == 0) ≡ false = ground arith in
    rw here (ap (λ ys. x ∷ ys) (c_str-none xs (ground arith)))

plain_before :
    (xs ys : List ℕ) → has_zero xs ≡ false → has_zero ys ≡ false → has_zero (xs ++ ys) ≡ false
unfolding has_zero
plain_before [] ys hx hy = hy
plain_before (x ∷ xs) ys hx hy = ground (arith, plain_before xs ys)

joined_zero : (ws : List (List ℕ)) → Words ws → has_zero (joined ws) ≡ false
unfolding has_zero
joined_zero [] h = refl
joined_zero (v ∷ []) ((ne, plain, fits, line, z), rest) = z
joined_zero (v ∷ w ∷ ws) ((ne, plain, fits, line, z), rest) =
    plain_before v (32 ∷ joined (w ∷ ws)) z (joined_zero (w ∷ ws) rest)

joined_newline : (ws : List (List ℕ)) → Words ws → has 10 (joined ws) ≡ false
joined_newline [] h = refl
joined_newline (v ∷ []) ((ne, plain, fits, line, z), rest) = line
joined_newline (v ∷ w ∷ ws) ((ne, plain, fits, line, z), rest) =
    has-append 10 v (32 ∷ joined (w ∷ ws)) ∙ rw (line, joined_newline (w ∷ ws) rest) refl

chop_text : (text : List ℕ) → chop_string (text ++ (10 ∷ [])) ≡ ok text
unfolding chop_string
chop_text [] = refl
chop_text (x ∷ xs) =
    let newline : last_or x (xs ++ (10 ∷ [])) ≡ 10 = last_or-snoc x 10 xs in
    let size : length (xs ++ (10 ∷ [])) ≡ suc (length xs) =
      length-append xs (10 ∷ []) ∙ omega arith in
    rw (newline, size) (ap ok (take_front (x ∷ xs) (10 ∷ [])))

pub chop_line : (ws : List (List ℕ)) → Words ws → chop (line_of ws) ≡ ok (joined ws)
unfolding chop has_zero
chop_line ws h =
    ap chop_string
      (c_str-none (line_of ws) (plain_before (joined ws) (10 ∷ []) (joined_zero ws h) refl))
    ∙ chop_text (joined ws)

-- fgets reads a line that fits the buffer as a whole.
one_buffer :
    (left : ℕ) (buf xs rest : List ℕ)
    → has 10 xs ≡ false
    → length xs < left
    → fgets_buffers left buf (xs ++ (10 ∷ rest))
      ≡ (buf ++ (xs ++ (10 ∷ []))) ∷ fgets_buffers (max_line_len - 1) [] rest
unfolding fgets_buffers
one_buffer left buf [] rest h few = refl
one_buffer left buf (x ∷ xs) rest h few =
    let inside : (x == 10 || left == 1) ≡ false = ground (arith, h, few) in
    rw (inside, fgets_buffers)
      (one_buffer (left - 1) (buf ++ (x ∷ [])) xs rest (ground (arith, h)) (omega (arith, few))
        ∙ ap (λ b. b ∷ fgets_buffers (max_line_len - 1) [] rest)
            (append_assoc buf (x ∷ []) (xs ++ (10 ∷ []))))

pub fgets_buffers-line :
    (ws : List (List ℕ)) (rest : List ℕ)
    → Words ws
    → length (line_of ws) < max_line_len
    → fgets_buffers (max_line_len - 1) [] (line_of ws ++ rest)
      ≡ line_of ws ∷ fgets_buffers (max_line_len - 1) [] rest
fgets_buffers-line ws rest h few =
    ap (fgets_buffers (max_line_len - 1) []) (append_assoc (joined ws) (10 ∷ []) rest)
    ∙ one_buffer (max_line_len - 1) [] (joined ws) rest (joined_newline ws h)
        (omega (arith, few, length-append (joined ws) (10 ∷ [])))

words_space :
    (word v rest : List ℕ)
    → has 32 v ≡ false
    → words_from word (v ++ (32 ∷ rest)) ≡ word_before (word ++ v) (words_from [] rest)
unfolding words_from
words_space word [] rest h = ap (λ w. word_before w (words_from [] rest)) (sym (append-nil word))
words_space word (x ∷ v) rest h =
    let other : (x == 32) ≡ false = ground arith in
    rw other (
      words_space (word ++ (x ∷ [])) v rest (ground arith)
      ∙ ap (λ w. word_before w (words_from [] rest)) (append_assoc word (x ∷ []) v))

words_end : (word v : List ℕ) → has 32 v ≡ false → words_from word v ≡ word_before (word ++ v) []
unfolding words_from
words_end word [] h = ap (λ w. word_before w []) (sym (append-nil word))
words_end word (x ∷ v) h =
    let other : (x == 32) ≡ false = ground arith in
    rw other (
      words_end (word ++ (x ∷ [])) v (ground arith)
      ∙ ap (λ w. word_before w []) (append_assoc word (x ∷ []) v))

before_lem : (w : List ℕ) (ws : List (List ℕ)) → w ≢ [] → word_before w ws ≡ w ∷ ws
unfolding word_before
before_lem [] ws ne = absurd (ne refl)
before_lem (x ∷ w) ws ne = refl

-- strtok finds the words of a line.
pub split_line : (ws : List (List ℕ)) → Words ws → strtok_words (joined ws) ≡ ws
unfolding strtok_words words_from
split_line [] h = refl
split_line (v ∷ []) ((ne, plain, fits, line, z), rest) = words_end [] v plain ∙ before_lem v [] ne
split_line (v ∷ w ∷ ws) ((ne, plain, fits, line, z), rest) =
    words_space [] v (joined (w ∷ ws)) plain
    ∙ ap (word_before v) (split_line (w ∷ ws) rest)
    ∙ before_lem v (w ∷ ws) ne
