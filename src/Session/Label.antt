-- ===== src/Session/Label.antt =====
-- The name that process_chat_msg writes over the front of a message.
use csc469_a.Base.{
  take_all, length-take, length-drop, ◌-◌, ℕ, zero, suc, ◌+◌, ◌≤◌, ◌<◌, ◌≡◌, refl, ap, ◌∙◌, List,
  [], ◌∷◌, ◌++◌, arith, length, length-append, take, drop,
}
use csc469_a.Server.Buffers.{drop_nil}
use csc469_a.Server.Chat.{stamp}

-- The name does not change the length of the datagram.
pub length-stamp : (name buf : List ℕ) → length (stamp name buf) ≡ length buf
unfolding stamp
length-stamp name buf = length-take (length buf) (name ++ (0 ∷ drop (length name + 1) buf)) (
    omega (
      arith,
      length-append name (0 ∷ drop (length name + 1) buf),
      length-drop (length name + 1) buf,
    ))

-- The buffer `msg` is the buffer `buf` with the name and a zero written over its front.
pub record Labelled (name buf msg : List ℕ) : Type 0 where
  pub size : length msg ≡ length buf
  pub label : length name < length buf → take (length name + 1) msg ≡ name ++ (0 ∷ [])
  pub rest : drop (length name + 1) msg ≡ drop (length name + 1) buf

drop-take-past :
    (xs : List ℕ) (z : ℕ) (ys : List ℕ) (n : ℕ)
    → length ys ≤ n - (length xs + 1)
    → drop (length xs + 1) (take n (xs ++ (z ∷ ys))) ≡ ys
drop-take-past [] z [] zero h = refl
drop-take-past [] z (y ∷ ys) zero h = absurd (omega (arith, h))
drop-take-past [] z ys (suc n) h = take_all n ys (omega (arith, h))
drop-take-past (x ∷ xs) z [] zero h = drop_nil (suc (length xs) + 1)
drop-take-past (x ∷ xs) z (y ∷ ys) zero h = absurd (omega (arith, h))
drop-take-past (x ∷ xs) z ys (suc n) h =
    let e : suc (length xs) + 1 ≡ suc (length xs + 1) = omega arith in
    ap (λ k. drop k (x ∷ take n (xs ++ (z ∷ ys)))) e ∙ drop-take-past xs z ys n (omega (arith, h))

take-take-past :
    (xs : List ℕ) (z : ℕ) (ys : List ℕ) (n : ℕ)
    → length xs < n
    → take (length xs + 1) (take n (xs ++ (z ∷ ys))) ≡ xs ++ (z ∷ [])
take-take-past xs z ys zero h = absurd (omega (arith, h))
take-take-past [] z [] (suc zero) h = refl
take-take-past [] z [] (suc (suc n)) h = refl
take-take-past [] z (y ∷ ys) (suc zero) h = refl
take-take-past [] z (y ∷ ys) (suc (suc n)) h = refl
take-take-past (x ∷ xs) z ys (suc n) h =
    let e : suc (length xs) + 1 ≡ suc (length xs + 1) = omega arith in
    ap (λ k. take k (x ∷ take n (xs ++ (z ∷ ys)))) e
    ∙ ap (λ l. x ∷ l) (take-take-past xs z ys n (omega (arith, h)))

pub stamp-Labelled : (name buf : List ℕ) → Labelled name buf (stamp name buf)
unfolding stamp
stamp-Labelled name buf = record {
  size = length-stamp name buf;
  label = λ h. take-take-past name 0 (drop (length name + 1) buf) (length buf) h;
  rest =
      drop-take-past name 0 (drop (length name + 1) buf) (length buf)
        (omega (arith, length-drop (length name + 1) buf));
}
