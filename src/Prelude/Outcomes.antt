-- ===== src/Prelude/Outcomes.antt =====
-- How a call of the platform ends: with a value, in an abort (`sc_assert`, `assert`, or
-- `REPORT( FATAL, … )`, whose default action aborts), or outside the language's defined behaviour.
use mathlib.Core.Path.{◌≡◌, refl, subst}
use mathlib.Core.Logic.{◌⊎◌, inl, inr}
use mathlib.Core.Bool.{Bool, true, false}
use mathlib.Core.Option.{Option, none, some}
use sc_platform.Prelude.Tests.{if◌then◌else◌}

pub data Outcome {ℓ} (A : Type ℓ) : Type ℓ where
  done : A → Outcome A
  aborted : Outcome A
  undefined : Outcome A

infixl 5 ◌>>=◌ ◌>>◌
abbrev pub ◌>>=◌ {ℓ κ} : {A : Type ℓ} {B : Type κ} → Outcome A → (A → Outcome B) → Outcome B
done a >>= f = f a
aborted >>= f = aborted
undefined >>= f = undefined

abbrev pub ◌>>◌ {ℓ} : {B : Type ℓ} → Outcome (Unit {0}) → Outcome B → Outcome B
m >> k = m >>= λ _. k

-- `sc_assert( b )`.
abbrev pub require : Bool → Outcome (Unit {0})
require true = done tt
require false = aborted

-- An access that the language defines only where it is in range.
abbrev pub defined {ℓ} : {A : Type ℓ} → Option A → Outcome A
defined none = undefined
defined (some a) = done a

pub >>=-eq-done {ℓ κ} :
    {A : Type ℓ} {B : Type κ} (m : Outcome A) (f : A → Outcome B) {b : B}
    → (m >>= f) ≡ done b
    → (a : A) × (m ≡ done a) × (f a ≡ done b)
>>=-eq-done (done a) f h = (a, refl, h)
>>=-eq-done aborted f h = cc
>>=-eq-done undefined f h = cc

-- The outcome is defined behaviour, and a value that it has satisfies `P`.
abbrev pub IsDefined {ℓ} : {A : Type ℓ} → (A → Type 0) → Outcome A → Type 0
IsDefined P (done a) = P a
IsDefined P aborted = Unit
IsDefined P undefined = ⊥

pub >>=-IsDefined {ℓ κ} :
    {A : Type ℓ} {B : Type κ} (P : A → Type 0) (Q : B → Type 0) (m : Outcome A) (f : A → Outcome B)
    → IsDefined P m
    → ((a : A) → P a → IsDefined Q (f a))
    → IsDefined Q (m >>= f)
>>=-IsDefined P Q (done a) f h k = k a h
>>=-IsDefined P Q aborted f h k = tt
>>=-IsDefined P Q undefined f h k = absurd h

pub require-IsDefined {κ} :
    {B : Type κ} (Q : B → Type 0) (b : Bool) (m : Outcome B)
    → (b ≡ true → IsDefined Q m)
    → IsDefined Q (require b >> m)
require-IsDefined Q true m h = h refl
require-IsDefined Q false m h = tt

pub if-IsDefined {κ} :
    {B : Type κ} (Q : B → Type 0) (b : Bool) (m n : Outcome B)
    → (b ≡ true → IsDefined Q m)
    → (b ≡ false → IsDefined Q n)
    → IsDefined Q (if b then m else n)
if-IsDefined Q true m n h k = h refl
if-IsDefined Q false m n h k = k refl

pub IsDefined-cases {ℓ} :
    {A : Type ℓ} (P : A → Type 0) (m : Outcome A)
    → IsDefined P m
    → (m ≡ aborted) ⊎ ((a : A) × (m ≡ done a) × P a)
IsDefined-cases P (done a) h = inr (a, refl, h)
IsDefined-cases P aborted h = inl refl
IsDefined-cases P undefined h = absurd h

-- A value that the outcome has satisfies `P`.
abbrev pub Ensures {ℓ} : {A : Type ℓ} → (A → Type 0) → Outcome A → Type 0
Ensures P (done a) = P a
Ensures P aborted = Unit
Ensures P undefined = Unit

pub >>=-Ensures {ℓ κ} :
    {A : Type ℓ} {B : Type κ} (Q : B → Type 0) (m : Outcome A) (f : A → Outcome B)
    → ((a : A) → m ≡ done a → Ensures Q (f a))
    → Ensures Q (m >>= f)
>>=-Ensures Q (done a) f k = k a refl
>>=-Ensures Q aborted f k = tt
>>=-Ensures Q undefined f k = tt

pub if-Ensures {κ} :
    {B : Type κ} (Q : B → Type 0) (b : Bool) (m n : Outcome B)
    → (b ≡ true → Ensures Q m)
    → (b ≡ false → Ensures Q n)
    → Ensures Q (if b then m else n)
if-Ensures Q true m n h k = h refl
if-Ensures Q false m n h k = k refl

pub Ensures-done {ℓ} :
    {A : Type ℓ} (P : A → Type 0) (m : Outcome A) {a : A} → Ensures P m → m ≡ done a → P a
Ensures-done P m h e = subst (Ensures P) e h

pub require-Ensures {κ} :
    {B : Type κ} (Q : B → Type 0) (b : Bool) (m : Outcome B)
    → (b ≡ true → Ensures Q m)
    → Ensures Q (require b >> m)
require-Ensures Q true m h = h refl
require-Ensures Q false m h = tt

pub Ensures-map {ℓ} :
    {A : Type ℓ} (P Q : A → Type 0) (m : Outcome A)
    → ((a : A) → P a → Q a)
    → Ensures P m
    → Ensures Q m
Ensures-map P Q (done a) h p = h a p
Ensures-map P Q aborted h p = tt
Ensures-map P Q undefined h p = tt
