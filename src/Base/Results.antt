-- ===== src/Base/Results.antt =====
-- How a call of a C function ends: with a value, or in one of the ways that stop the process.
-- A null pointer is read through, `exit(1)` is called, an `assert` fails, or a loop of the model
-- has used up its fuel.
pub data Stop : Type 0 where
  null_read exit_failure assert_failure out_of_fuel : Stop

pub data Outcome {ℓ} (A : Type ℓ) : Type ℓ where
  ok : A → Outcome A
  stop : Stop → Outcome A

infixl 5 ◌>>=◌
abbrev pub ◌>>=◌ {ℓ κ} : {A : Type ℓ} {B : Type κ} → Outcome A → (A → Outcome B) → Outcome B
stop why >>= next = stop why
ok value >>= next = next value

-- The call returns, and its value satisfies the predicate.
abbrev pub Returns {ℓ} : {A : Type ℓ} → (A → Type 0) → Outcome A → Type 0
Returns P (ok a) = P a
Returns P (stop e) = ⊥

-- If the call returns, its value satisfies the predicate.
abbrev pub Allows {ℓ} : {A : Type ℓ} → (A → Type 0) → Outcome A → Type 0
Allows P (ok a) = P a
Allows P (stop e) = Unit

module _ {ℓ κ} {A : Type ℓ} {B : Type κ} (P : A → Type 0) (Q : B → Type 0) where
  pub Returns-bind :
      (m : Outcome A) (f : A → Outcome B)
      → Returns P m
      → ((a : A) → P a → Returns Q (f a))
      → Returns Q (m >>= f)
  Returns-bind (ok a) f p next = next a p
  Returns-bind (stop e) f p next = elim p [ ]

  pub Allows-bind :
      (m : Outcome A) (f : A → Outcome B)
      → Allows P m
      → ((a : A) → P a → Allows Q (f a))
      → Allows Q (m >>= f)
  Allows-bind (ok a) f p next = next a p
  Allows-bind (stop e) f p next = tt

pub Returns-map {ℓ} :
    {A : Type ℓ} (P Q : A → Type 0) (m : Outcome A)
    → Returns P m
    → ((a : A) → P a → Q a)
    → Returns Q m
Returns-map P Q (ok a) p f = f a p
Returns-map P Q (stop e) p f = p

-- A call that returns, with what it allows besides.
pub Returns-Allows {ℓ} :
    {A : Type ℓ} (P Q R : A → Type 0) (m : Outcome A)
    → Returns P m
    → Allows Q m
    → ((a : A) → P a → Q a → R a)
    → Returns R m
Returns-Allows P Q R (ok a) p q f = f a p q
Returns-Allows P Q R (stop e) p q f = p
