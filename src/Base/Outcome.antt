-- ===== src/Base/Outcome.antt =====
-- How a piece of C code ends, and postconditions of such pieces.
use mathlib.Core.Option.{Option, none, some}

-- `fault`: undefined behaviour (a read or write through NULL or a freed object, past the end of an
-- array, or a counter that would turn negative). `exited`: the process called `exit`.
-- `out_of_fuel`: a loop used up the rounds that the model gives it.
pub data Run {ℓ} (A : Type ℓ) : Type ℓ where
  ok : A → Run A
  fault : Run A
  exited : Run A
  out_of_fuel : Run A

abbrev pub of_option {ℓ} : {A : Type ℓ} → Option A → Run A
of_option none = fault
of_option (some a) = ok a

-- The step does not fault, and its result has the property.
abbrev pub Yields {ℓ} : {A : Type ℓ} → (A → Type 0) → Option A → Type 0
Yields P none = ⊥
Yields P (some a) = P a

-- The code comes to its end, and the result has the property.
abbrev pub Ends {ℓ} : {A : Type ℓ} → (A → Type 0) → Run A → Type 0
Ends P (ok a) = P a
Ends P fault = ⊥
Ends P exited = ⊥
Ends P out_of_fuel = ⊥

pub Yields-mono {ℓ} :
    {A : Type ℓ} (P Q : A → Type 0) (o : Option A) → ((a : A) → P a → Q a) → Yields P o → Yields Q o
Yields-mono P Q none f h = h
Yields-mono P Q (some a) f h = f a h

pub Ends-of_option {ℓ} :
    {A : Type ℓ} (P : A → Type 0) (o : Option A) → Yields P o → Ends P (of_option o)
Ends-of_option P none h = h
Ends-of_option P (some a) h = h

pub Ends-mono {ℓ} :
    {A : Type ℓ} (P Q : A → Type 0) (r : Run A) → ((a : A) → P a → Q a) → Ends P r → Ends Q r
Ends-mono P Q (ok a) f h = f a h
Ends-mono P Q fault f h = h
Ends-mono P Q exited f h = h
Ends-mono P Q out_of_fuel f h = h
