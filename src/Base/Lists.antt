-- ===== src/Base/Lists.antt =====
-- Lists of addresses and of bytes, measured by native numbers.
use Prim.Native.Nat.{◌≤◌, ◌<◌, ℕ, zero, suc, ◌+◌, ◌-◌}
use mathlib.Core.Path.{◌≡◌, refl, ap}
use mathlib.Core.Logic.{inl, inr, ◌≢◌}
use mathlib.Core.Bool.{Bool, true, false, ◌||◌, ◌&&◌}
use mathlib.Core.List.{List, [], ◌∷◌, ◌++◌}
use native.Mathlib.Omega.{arith}
use Prim.Native.Char.{code}
use Prim.Native.String.{String}
use csc469_a.Base.Tests
use csc469_a.Base.Tests.{◌==◌, if◌then◌else◌}

module _ {ℓ} {A : Type ℓ} where
  abbrev pub length : List A → ℕ
  length [] = 0
  length (x ∷ xs) = suc (length xs)

  abbrev pub take : ℕ → List A → List A
  take zero xs = []
  take (suc n) [] = []
  take (suc n) (x ∷ xs) = x ∷ take n xs

  abbrev pub drop : ℕ → List A → List A
  drop zero xs = xs
  drop (suc n) [] = []
  drop (suc n) (x ∷ xs) = drop n xs

  abbrev pub replicate : ℕ → A → List A
  replicate zero a = []
  replicate (suc n) a = a ∷ replicate n a

  pub length-append : (xs ys : List A) → length (xs ++ ys) ≡ length xs + length ys
  length-append [] ys = omega arith
  length-append (x ∷ xs) ys = omega (arith, length-append xs ys)

  pub length_pos : (xs : List A) → xs ≢ [] → 0 < length xs
  length_pos [] ne = absurd (ne refl)
  length_pos (x ∷ xs) ne = omega arith

-- Membership by the test on addresses.
abbrev pub has : ℕ → List ℕ → Bool
has a [] = false
has a (x ∷ xs) = (a == x) || has a xs

abbrev pub Distinct : List ℕ → Type 0
Distinct [] = Unit {0}
Distinct (x ∷ xs) = (has x xs ≡ false) × Distinct xs

-- The list without its first `a`.
abbrev pub erase : ℕ → List ℕ → List ℕ
erase a [] = []
erase a (x ∷ xs) = if a == x then xs else x ∷ erase a xs

-- The last element, or `d`.
abbrev pub last_or : ℕ → List ℕ → ℕ
last_or d [] = d
last_or d (x ∷ xs) = last_or x xs

-- Equality of two byte strings, as `strcmp` tests it.
abbrev pub same : List ℕ → List ℕ → Bool
same [] [] = true
same [] (y ∷ ys) = false
same (x ∷ xs) [] = false
same (x ∷ xs) (y ∷ ys) = (x == y) && same xs ys

pub same_refl : (xs : List ℕ) → same xs xs ≡ true
same_refl [] = refl
same_refl (x ∷ xs) = ground (arith, same_refl xs)

pub same_sound : (xs ys : List ℕ) → same xs ys ≡ true → xs ≡ ys
same_sound [] [] h = refl
same_sound [] (y ∷ ys) h = cc
same_sound (x ∷ xs) [] h = cc
same_sound (x ∷ xs) (y ∷ ys) h = ground (arith, same_sound xs ys)

-- The bytes of a literal.
abbrev pub codes : String → List ℕ
codes String.[] = []
codes (String.◌∷◌ c s) = code c ∷ codes s

pub drop-append {ℓ} : {A : Type ℓ} (xs ys : List A) → drop (length xs) (xs ++ ys) ≡ ys
drop-append [] ys = refl
drop-append (x ∷ xs) ys = drop-append xs ys

pub length-take {ℓ} : {A : Type ℓ} (n : ℕ) (xs : List A) → n ≤ length xs → length (take n xs) ≡ n
length-take zero xs h = refl
length-take (suc n) [] h = absurd (omega arith)
length-take (suc n) (x ∷ xs) h = omega (arith, length-take n xs (omega (arith, h)))

pub le-length-take {ℓ} :
    {A : Type ℓ} (k n : ℕ) (xs : List A) → k ≤ n → k ≤ length xs → k ≤ length (take n xs)
le-length-take zero n xs lo hi = omega arith
le-length-take (suc k) zero xs lo hi = absurd (omega arith)
le-length-take (suc k) (suc n) [] lo hi = absurd (omega arith)
le-length-take (suc k) (suc n) (x ∷ xs) lo hi =
    omega (arith, le-length-take k n xs (omega (arith, lo)) (omega (arith, hi)))

pub drop_inside {ℓ} :
    {A : Type ℓ} (k : ℕ) (xs ys : List A) → k ≤ length xs → drop k (xs ++ ys) ≡ drop k xs ++ ys
drop_inside zero xs ys h = refl
drop_inside (suc k) [] ys h = absurd (omega arith)
drop_inside (suc k) (x ∷ xs) ys h = drop_inside k xs ys (omega arith)

pub length-drop {ℓ} : {A : Type ℓ} (k : ℕ) (xs : List A) → length (drop k xs) ≡ length xs - k
length-drop zero xs = omega arith
length-drop (suc k) [] = omega arith
length-drop (suc k) (x ∷ xs) = omega (arith, length-drop k xs)

pub has-append : (a : ℕ) (xs ys : List ℕ) → has a (xs ++ ys) ≡ (has a xs || has a ys)
has-append a [] ys = refl
has-append a (x ∷ xs) ys = ground (arith, has-append a xs ys)

pub has-erase :
    (a b : ℕ) (xs : List ℕ)
    → Distinct xs
    → has a (erase b xs) ≡ (if a == b then false else has a xs)
has-erase a b [] d = ground arith
has-erase a b (x ∷ xs) d = ground (arith, has-erase a b xs d.1)

pub Distinct-erase : (a : ℕ) (xs : List ℕ) → Distinct xs → Distinct (erase a xs)
Distinct-erase a [] d = tt
Distinct-erase a (x ∷ xs) d = ground (arith, Distinct-erase a xs d.1, has-erase x a xs d.1)

pub length-erase : (a : ℕ) (xs : List ℕ) → has a xs ≡ true → suc (length (erase a xs)) ≡ length xs
length-erase a [] h = cc
length-erase a (x ∷ xs) h = ground (arith, length-erase a xs)

-- Distinct elements of a list that is split in two.
pub Distinct-append :
    (xs ys : List ℕ)
    → Distinct (xs ++ ys)
    → Distinct xs × Distinct ys × ((a : ℕ) → has a xs ≡ true → has a ys ≡ false)
Distinct-append [] ys d = (tt, d, λ a h. cc)
Distinct-append (x ∷ xs) ys d =
    let (dx, dy, apart) = Distinct-append xs ys d.1 in
    (
      (ground (arith, has-append x xs ys), dx),
      dy,
      λ a h. ground (arith, has-append x xs ys, apart a),
    )

-- Where `a` occurs, the list splits there, and `erase` joins the two sides.
pub split_at :
    (a : ℕ) (xs : List ℕ)
    → has a xs ≡ true
    → (ys : List ℕ) × (zs : List ℕ) × (xs ≡ ys ++ (a ∷ zs)) × (erase a xs ≡ ys ++ zs)
split_at a [] h = cc
split_at a (x ∷ xs) h = elim (Tests.eq_cases a x) [
  | inl e ↦ ([], xs, ground arith, ground arith)
  | inr ne ↦
      let (ys, zs, e, f) = split_at a xs (ground arith) in
      (x ∷ ys, zs, ap (◌∷◌ x) e, rw ne (ap (◌∷◌ x) f))
]

-- An element is not equal to what the list does not hold.
pub ne_of_has : (a b : ℕ) (xs : List ℕ) → has a xs ≡ false → has b xs ≡ true → (a == b) ≡ false
ne_of_has a b xs h k = elim (Tests.eq_cases a b) [ inl e ↦ cc (ap (λ x. has x xs) e) | inr e ↦ e ]

pub has_left : (a : ℕ) (xs ys : List ℕ) → has a (xs ++ ys) ≡ false → has a xs ≡ false
has_left a xs ys h = ground (arith, has-append a xs ys)

pub has_right : (a : ℕ) (xs ys : List ℕ) → has a (xs ++ ys) ≡ false → has a ys ≡ false
has_right a xs ys h = ground (arith, has-append a xs ys)

-- What an erasure of distinct elements keeps.
pub of_has-erase :
    (a b : ℕ) (xs : List ℕ)
    → Distinct xs
    → has a (erase b xs) ≡ true
    → (has a xs ≡ true) × ((a == b) ≡ false)
of_has-erase a b xs d h = ground (arith, has-erase a b xs d)

pub to_has-erase :
    (a b : ℕ) (xs : List ℕ)
    → Distinct xs
    → has a xs ≡ true
    → (a == b) ≡ false
    → has a (erase b xs) ≡ true
to_has-erase a b xs d h ne = ground (arith, has-erase a b xs d)

pub not_has-erase : (a : ℕ) (xs : List ℕ) → Distinct xs → has a (erase a xs) ≡ false
not_has-erase a xs d = ground (arith, has-erase a a xs d)

pub Distinct-snoc :
    (a : ℕ) (xs : List ℕ) → Distinct xs → has a xs ≡ false → Distinct (xs ++ (a ∷ []))
Distinct-snoc a [] d out = (refl, tt)
Distinct-snoc a (x ∷ xs) d out =
    (ground (arith, has-append x xs (a ∷ [])), Distinct-snoc a xs d.1 (ground arith))

pub last_or-snoc : (d a : ℕ) (xs : List ℕ) → last_or d (xs ++ (a ∷ [])) ≡ a
last_or-snoc d a [] = refl
last_or-snoc d a (x ∷ xs) = last_or-snoc x a xs

pub has-last_or : (d : ℕ) (xs : List ℕ) → xs ≢ [] → has (last_or d xs) xs ≡ true
has-last_or d [] ne = absurd (ne refl)
has-last_or d (x ∷ []) ne = ground arith
has-last_or d (x ∷ y ∷ ys) ne =
    let there = has-last_or x (y ∷ ys) (λ e. cc) in ground (arith, there)

pub take_all {ℓ} : {A : Type ℓ} (n : ℕ) (xs : List A) → length xs ≤ n → take n xs ≡ xs
take_all zero [] h = refl
take_all zero (x ∷ xs) h = absurd (omega arith)
take_all (suc n) [] h = refl
take_all (suc n) (x ∷ xs) h = ap (λ ys. x ∷ ys) (take_all n xs (omega arith))
