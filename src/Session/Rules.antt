-- ===== src/Session/Rules.antt =====
-- Rules for the sequence of steps, in terms of what the rest of the code needs.
use csc469_a.Base.{
  Run, ok, fault, exited, out_of_fuel, ◌≡◌, refl, Ends, Yields, Option, none, some, of_option,
  Ends-mono,
}
use csc469_a.Server.{Server, Step, ◌>>◌, bind_run, lift}

module _ {A B : Type 0} (P : B → Type 0) where
  pub Ends-bind : (r : Run A) (f : A → Run B) → Ends (λ a. Ends P (f a)) r → Ends P (bind_run r f)
  Ends-bind (ok a) f h = h
  Ends-bind fault f h = h
  Ends-bind exited f h = h
  Ends-bind out_of_fuel f h = h

  -- A pointer operation that does not fault, and then the rest.
  pub Ends-lift :
      (Q : A → Type 0) (o : Option A) (s : Server) (f : A × Server → Run B)
      → Yields Q o
      → ((a : A) → Q a → Ends P (f (a, s)))
      → Ends P (bind_run (lift (of_option o) s) f)
  Ends-lift Q none s f y rest = absurd y
  Ends-lift Q (some a) s f y rest = rest a y

-- A piece of code, and then the rest from its postcondition.
pub Ends-run :
    {A B : Type 0} (P : A → Type 0) (Q : B → Type 0) (r : Run A) (f : A → Run B)
    → ((a : A) → P a → Ends Q (f a))
    → Ends P r
    → Ends Q (bind_run r f)
Ends-run P Q r f h e = Ends-bind Q r f (Ends-mono P (λ a. Ends Q (f a)) r h e)

-- One step after another.
pub Ends-seq :
    {A : Type 0} (P : A × Server → Type 0) (m : Step (Unit {0})) (k : Step A) (s : Server)
    → Ends (λ a. Ends P (k a.1)) (m s)
    → Ends P ((m >> k) s)
Ends-seq P m k s h = Ends-bind P (m s) (λ r. k r.1) h

-- A sequence faults if its second part faults after the first.
pub Ends-fault :
    {A B : Type 0} (r : Run A) (f : A → Run B) → Ends (λ a. f a ≡ fault) r → bind_run r f ≡ fault
Ends-fault (ok a) f h = h
Ends-fault fault f h = refl
Ends-fault exited f h = absurd h
Ends-fault out_of_fuel f h = absurd h
