-- ===== src/Client/Answer.antt =====
-- What the client reads of the server's answer to a register request.
use csc469_a.Base.{
  true, append_assoc, length-append, ℕ, suc, ◌+◌, ◌*◌, ◌/◌, ◌%◌, ◌^◌, ◌<◌, ◌≡◌, refl, ap, ◌∙◌,
  false, eq_cases, none, List, [], ◌∷◌, ◌++◌, arith, ◌==◌, ltb, Run, Option, if◌then◌else◌, take,
  length, ok, fault, inl, inr,
}
use csc469_a.Protocol
use csc469_a.Protocol.{header_bytes, u16_at, u16_bytes, c_str, has_zero, control_msghdr_size}
use csc469_a.Client.{text_size, copy_error, rejected, handle_register_response}

take-front :
    (text : List ℕ) (x : ℕ) (rest : List ℕ)
    → take (suc (length text)) (text ++ (x ∷ rest)) ≡ text ++ (x ∷ [])
take-front [] x rest = refl
take-front (t ∷ ts) x rest = ap (λ l. t ∷ l) (take-front ts x rest)

has_zero-snoc :
    (text : List ℕ) (x : ℕ) → has_zero text ≡ false → has_zero (text ++ (x ∷ [])) ≡ (x == 0)
unfolding has_zero
has_zero-snoc [] x z = ground arith
has_zero-snoc (t ∷ ts) x z = ground (arith, has_zero-snoc ts x)

c_str-snoc : (text : List ℕ) → has_zero text ≡ false → c_str (text ++ (0 ∷ [])) ≡ text
unfolding c_str has_zero
c_str-snoc [] z = refl
c_str-snoc (t ∷ ts) z =
    let here : (t == 0) ≡ false = ground arith in
    rw here (ap (λ l. t ∷ l) (c_str-snoc ts (ground arith)))

-- What the block holds after the copy of a text with the byte `x` behind it, when seven more bytes follow.
abbrev pub shown : List ℕ → ℕ → List ℕ → Run (List ℕ)
shown text x spare =
    if x == 0 then ok text else if has_zero spare then ok (text ++ (x ∷ c_str spare)) else fault

-- The text is copied with the byte behind it.
copied :
    (text : List ℕ) (x : ℕ) (rest spare : List ℕ)
    → has_zero text ≡ false
    → copy_error (suc (length text)) (text ++ (x ∷ rest)) spare ≡ shown text x spare
unfolding copy_error
copied text x rest spare z = elim (eq_cases x 0) [
  | inl e ↦ rw (take-front text x rest, has_zero-snoc text x z, e, c_str-snoc text z)
  | inr n ↦
      let full : (length (text ++ (x ∷ [])) == suc (length text)) ≡ true =
        ground (arith, length-append text (x ∷ [])) in
      rw (
        take-front text x rest,
        has_zero-snoc text x z,
        n,
        full,
        append_assoc text (x ∷ []) (c_str spare),
      )
]

text_size-text : (n : ℕ) → n + 9 < 2 ^ 16 → text_size (control_msghdr_size + n) ≡ suc n
unfolding text_size
text_size-text n h = omega arith

id_round : (n : ℕ) → n < 2 ^ 16 → n / 256 % 256 * 256 + n % 256 ≡ n
id_round n h = omega arith

-- Of an accepting answer the client takes the id that the server put into the header, for ids of 16
-- bits. Of a refusal (with a text without a zero byte that fits a 16-bit length) it takes the text if
-- the byte `x` behind the answer in its buffer is zero. If not, the text goes on with that byte and what malloc left
-- in the last seven bytes of the block, up to a zero there, and without one a read overruns the block.
pub handle_register_response-answers :
    (stale : List ℕ) (id : ℕ) (text : List ℕ) (x : ℕ) (rest : List ℕ) (old : ℕ)
    → id < 2 ^ 16
    → has_zero text ≡ false
    → length text + 9 < 2 ^ 16
    → (handle_register_response stale
          (header_bytes Protocol.register_succ id control_msghdr_size ++ (x ∷ rest))
          control_msghdr_size
          old
        ≡ ok (none, id))
      × (handle_register_response stale
            (header_bytes Protocol.register_fail 0 (control_msghdr_size + length text)
              ++ (text ++ (x ∷ rest)))
            (control_msghdr_size + length text)
            old
          ≡ rejected (shown text x (take 7 stale)) old)
unfolding handle_register_response header_bytes u16_bytes u16_at
handle_register_response-answers stale id text x rest old hi z h = (
  ap (λ n. ok (none, n)) (id_round id hi),
  fits
      ∙ ap (λ r. rejected r old)
          (ap (λ n. copy_error n (text ++ (x ∷ rest)) (take 7 stale))
              (text_size-text (length text) h)
            ∙ copied text x rest (take 7 stale) z),
)
  where
    whole : Run (Option (List ℕ) × ℕ)
    whole =
        rejected
          (copy_error (text_size (control_msghdr_size + length text)) (text ++ (x ∷ rest))
            (take 7 stale))
          old

    fits :
        (if ltb (control_msghdr_size + length text) (text_size (control_msghdr_size + length text))
          then fault
          else whole)
        ≡ whole
    fits =
        let enough : ltb (control_msghdr_size + length text)
              (text_size (control_msghdr_size + length text))
            ≡ false =
          ground (arith, text_size-text (length text) h) in
        rw enough
