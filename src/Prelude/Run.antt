-- ===== src/Prelude/Run.antt =====
-- The result of running a C function.
use mathlib.Core.Path.{◌≡◌, refl}
use mathlib.Core.Option.{Option, none, some}
use mathlib.Core.Bool.{Bool, true, false}

-- `fault` is undefined behaviour: an access outside an object, or through NULL.
-- `exited` is the `exit(-1)` of an allocation that failed.
pub data Outcome {ℓ} (A : Type ℓ) : Type ℓ where
  ok : A → Outcome A
  fault exited : Outcome A

infixl 5 ◌>>=◌ ◌>>◌
abbrev pub ◌>>=◌ {ℓ κ} : {A : Type ℓ} {B : Type κ} → Outcome A → (A → Outcome B) → Outcome B
ok a >>= f = f a
fault >>= f = fault
exited >>= f = exited

abbrev pub ◌>>◌ {ℓ} : {B : Type ℓ} → Outcome (Unit {0}) → Outcome B → Outcome B
m >> k = m >>= λ _. k

-- A value that an access reads, or the fault of reading it.
abbrev pub access {ℓ} : {A : Type ℓ} → Option A → Outcome A
access none = fault
access (some a) = ok a

-- An allocation that succeeds, or the end of the process.
abbrev pub allocated : Bool → Outcome (Unit {0})
allocated true = ok tt
allocated false = exited

abbrev pub Faultless {ℓ} : {A : Type ℓ} → Outcome A → Type 0
Faultless (ok a) = Unit
Faultless fault = ⊥
Faultless exited = Unit

pub >>=-assoc {ℓ κ μ} :
    {A : Type ℓ} {B : Type κ} {C : Type μ} (m : Outcome A) (f : A → Outcome B) (g : B → Outcome C)
    → (m >>= f >>= g) ≡ (m >>= (λ a. f a >>= g))
>>=-assoc (ok a) f g = refl
>>=-assoc fault f g = refl
>>=-assoc exited f g = refl

-- Two chains that begin with the same step agree where what follows it does.
pub bind_under {ℓ κ μ} :
    {A : Type ℓ} {B : Type κ} {C : Type κ} {D : Type μ} (m : Outcome A) (f : A → Outcome B)
    (g : A → Outcome C) (h : B → Outcome D) (k : C → Outcome D)
    → ((a : A) → (f a >>= h) ≡ (g a >>= k))
    → (m >>= f >>= h) ≡ (m >>= g >>= k)
bind_under (ok a) f g h k e = e a
bind_under fault f g h k e = refl
bind_under exited f g h k e = refl

pub >>=-cong {ℓ κ} :
    {A : Type ℓ} {B : Type κ} (m : Outcome A) (f g : A → Outcome B)
    → ((a : A) → f a ≡ g a)
    → (m >>= f) ≡ (m >>= g)
>>=-cong (ok a) f g e = e a
>>=-cong fault f g e = refl
>>=-cong exited f g e = refl

-- What a result satisfies, if there is one.
abbrev pub Yields {ℓ} : {A : Type ℓ} → (A → Type 0) → Outcome A → Type 0
Yields P (ok a) = P a
Yields P fault = Unit
Yields P exited = Unit

-- There is no fault, and a result satisfies a property.
abbrev pub Safely {ℓ} : {A : Type ℓ} → (A → Type 0) → Outcome A → Type 0
Safely P (ok a) = P a
Safely P fault = ⊥
Safely P exited = Unit

pub >>=-Yields {ℓ κ} :
    {A : Type ℓ} {B : Type κ} (Q : B → Type 0) (m : Outcome A) (f : A → Outcome B)
    → ((a : A) → Yields Q (f a))
    → Yields Q (m >>= f)
>>=-Yields Q (ok a) f next = next a
>>=-Yields Q fault f next = tt
>>=-Yields Q exited f next = tt

pub >>=-Safely {ℓ κ} :
    {A : Type ℓ} {B : Type κ} (P : A → Type 0) (Q : B → Type 0) (m : Outcome A) (f : A → Outcome B)
    → Safely P m
    → ((a : A) → P a → Safely Q (f a))
    → Safely Q (m >>= f)
>>=-Safely P Q (ok a) f y next = next a y
>>=-Safely P Q fault f y next = absurd y
>>=-Safely P Q exited f y next = tt

pub bind_under-Yields {ℓ κ μ} :
    {A : Type ℓ} {B : Type κ} {C : Type κ} {D : Type μ} (P : A → Type 0) (m : Outcome A)
    (f : A → Outcome B) (g : A → Outcome C) (h : B → Outcome D) (k : C → Outcome D)
    → Yields P m
    → ((a : A) → P a → (f a >>= h) ≡ (g a >>= k))
    → (m >>= f >>= h) ≡ (m >>= g >>= k)
bind_under-Yields P (ok a) f g h k y e = e a y
bind_under-Yields P fault f g h k y e = refl
bind_under-Yields P exited f g h k y e = refl

pub Safely-weaken {ℓ} :
    {A : Type ℓ} (P Q : A → Type 0) (m : Outcome A)
    → Safely P m
    → ((a : A) → P a → Q a)
    → Safely Q m
Safely-weaken P Q (ok a) y weaken = weaken a y
Safely-weaken P Q fault y weaken = absurd y
Safely-weaken P Q exited y weaken = tt
