-- ===== src/Server/Buffers.antt =====
-- Buffers that are zero behind what was read into them, and the strings in them.
use csc469_a.Base.{
  ℕ, zero, suc, ◌+◌, ◌≤◌, ◌<◌, ◌≡◌, refl, ap, ◌∙◌, true, false, List, [], ◌∷◌, ◌++◌, arith, ◌==◌,
  take, drop, length,
}
use csc469_a.Protocol.{c_str, has_zero}
use csc469_a.Server.Control.{fill}

pub c_str-fill :
    (k : ℕ) (xs : List ℕ) → has_zero xs ≡ false → length xs < k → c_str (fill k xs) ≡ xs
unfolding c_str fill has_zero
c_str-fill zero xs z h = absurd (omega arith)
c_str-fill (suc k) [] z h = refl
c_str-fill (suc k) (x ∷ xs) z h =
    let here : (x == 0) ≡ false = ground arith in
    rw here (ap (λ ys. x ∷ ys) (c_str-fill k xs (ground arith) (omega (arith, h))))

pub has_zero-fill : (k : ℕ) (xs : List ℕ) → length xs < k → has_zero (fill k xs) ≡ true
unfolding fill has_zero
has_zero-fill zero xs h = absurd (omega arith)
has_zero-fill (suc k) [] h = refl
has_zero-fill (suc k) (x ∷ xs) h = ground (arith, has_zero-fill k xs)

pub has_zero-take : (n : ℕ) (xs : List ℕ) → has_zero xs ≡ false → has_zero (take n xs) ≡ false
unfolding has_zero
has_zero-take zero [] z = refl
has_zero-take zero (x ∷ xs) z = refl
has_zero-take (suc n) [] z = refl
has_zero-take (suc n) (x ∷ xs) z = ground (arith, has_zero-take n xs)

pub length-take-le : (n : ℕ) (xs : List ℕ) → length (take n xs) ≤ n
length-take-le zero [] = omega arith
length-take-le zero (x ∷ xs) = omega arith
length-take-le (suc n) [] = omega arith
length-take-le (suc n) (x ∷ xs) = omega (arith, length-take-le n xs)

-- Cutting off zeros that the buffer has anyway.
pub fill-take : (n m : ℕ) (xs : List ℕ) → length xs ≤ m → fill n (take m (fill n xs)) ≡ fill n xs
unfolding fill
fill-take zero m xs h = refl
fill-take (suc n) zero [] h = refl
fill-take (suc n) zero (x ∷ xs) h = absurd (omega arith)
fill-take (suc n) (suc m) [] h = ap (λ ys. 0 ∷ ys) (fill-take n m [] (omega arith))
fill-take (suc n) (suc m) (x ∷ xs) h = ap (λ ys. x ∷ ys) (fill-take n m xs (omega (arith, h)))

pub has_zero-full :
    (k : ℕ) (xs : List ℕ) → has_zero xs ≡ false → k ≤ length xs → has_zero (fill k xs) ≡ false
unfolding fill has_zero
has_zero-full zero xs z h = refl
has_zero-full (suc k) [] z h = absurd (omega arith)
has_zero-full (suc k) (x ∷ xs) z h =
    let here : (x == 0) ≡ false = ground arith in
    rw here (has_zero-full k xs (ground arith) (omega (arith, h)))

pub fill-append : (xs ys : List ℕ) (k : ℕ) → fill (length xs + k) (xs ++ ys) ≡ xs ++ fill k ys
unfolding fill
fill-append [] ys k = ap (λ n. fill n ys) (omega arith)
fill-append (x ∷ xs) ys k =
    let e : suc (length xs) + k ≡ suc (length xs + k) = omega arith in
    rw e (ap (λ zs. x ∷ zs) (fill-append xs ys k))

pub c_str-append : (xs ys : List ℕ) → has_zero xs ≡ false → c_str (xs ++ (0 ∷ ys)) ≡ xs
unfolding c_str has_zero
c_str-append [] ys z = refl
c_str-append (x ∷ xs) ys z =
    let here : (x == 0) ≡ false = ground arith in
    rw here (ap (λ zs. x ∷ zs) (c_str-append xs ys (ground arith)))

pub has_zero-append : (xs ys : List ℕ) → has_zero (xs ++ (0 ∷ ys)) ≡ true
unfolding has_zero
has_zero-append [] ys = refl
has_zero-append (x ∷ xs) ys = ground (arith, has_zero-append xs ys)

pub length-fill : (n : ℕ) (xs : List ℕ) → length (fill n xs) ≡ n
unfolding fill
length-fill zero xs = refl
length-fill (suc n) [] = ap suc (length-fill n [])
length-fill (suc n) (x ∷ xs) = ap suc (length-fill n xs)

pub drop_nil : (k : ℕ) → drop {A = ℕ} k [] ≡ []
drop_nil zero = refl
drop_nil (suc k) = refl

pub drop-fill : (k n : ℕ) (xs : List ℕ) → drop k (fill (k + n) xs) ≡ fill n (drop k xs)
unfolding fill
drop-fill zero n xs = ap (λ m. fill m xs) (omega arith)
drop-fill (suc k) n [] =
    let e : suc k + n ≡ suc (k + n) = omega arith in
    rw e (drop-fill k n [] ∙ ap (fill n) (drop_nil k))
drop-fill (suc k) n (x ∷ xs) =
    let e : suc k + n ≡ suc (k + n) = omega arith in rw e (drop-fill k n xs)
