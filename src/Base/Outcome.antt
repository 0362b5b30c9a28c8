-- ===== src/Base/Outcome.antt =====
-- A computation that may stop with a fault, and its `do` blocks.
use mathlib.Core.Path.{◌≡◌, refl, subst}
use Prim.{Unit, tt}

-- `out_of_range` is the `std::out_of_range` that memory and registers throw; `undefined` is an
-- operation to which C++ gives no meaning, such as a division by zero.
pub data Fault : Type 0 where
  out_of_range undefined : Fault

pub data Result {ℓ} (A : Type ℓ) : Type ℓ where
  ok : A → Result A
  err : Fault → Result A

infixl 5 ◌>>=◌
abbrev pub ◌>>=◌ {ℓ κ} : {A : Type ℓ} {B : Type κ} → Result A → (A → Result B) → Result B
ok a >>= f = f a
err e >>= f = err e

pub bind_assoc {ℓ κ μ} :
    {A : Type ℓ} {B : Type κ} {C : Type μ} (m : Result A) (f : A → Result B) (g : B → Result C)
    → (m >>= f >>= g) ≡ (m >>= λ a. f a >>= g)
bind_assoc (ok a) f g = refl
bind_assoc (err e) f g = refl

pub bind_congr {ℓ κ} :
    {A : Type ℓ} {B : Type κ} (m : Result A) {f g : A → Result B}
    → ((a : A) → f a ≡ g a)
    → (m >>= f) ≡ (m >>= g)
bind_congr m h = λ i. m >>= λ a. h a i

-- `P` holds of the value, if there is one.
pub data Ensures {ℓ κ} {A : Type ℓ} (P : A → Type κ) : Result A → Type (ℓ ⊔ κ) where
  returns : {a : A} → P a → Ensures P (ok a)
  faults : {e : Fault} → Ensures P (err e)

pub Ensures-bind {ℓ κ μ ν} :
    {A : Type ℓ} {B : Type κ} {P : A → Type μ} {Q : B → Type ν} {m : Result A} {f : A → Result B}
    → Ensures P m
    → ((a : A) → P a → Ensures Q (f a))
    → Ensures Q (m >>= f)
Ensures-bind (returns p) k = k _ p
Ensures-bind faults k = faults

-- Two continuations that agree on the values that can arise.
pub bind_congr_of {ℓ κ μ} :
    {A : Type ℓ} {B : Type κ} {P : A → Type μ} {m : Result A} (f g : A → Result B)
    → Ensures P m
    → ((a : A) → P a → f a ≡ g a)
    → (m >>= f) ≡ (m >>= g)
bind_congr_of f g (returns p) h = h _ p
bind_congr_of f g faults h = refl

pub Ensures-both {ℓ κ μ} :
    {A : Type ℓ} {P : A → Type κ} {Q : A → Type μ} (m : Result A)
    → Ensures P m
    → Ensures Q m
    → Ensures (λ a. P a × Q a) m
Ensures-both (ok a) (returns p) (returns q) = returns (p, q)
Ensures-both (err e) p q = faults

pub Ensures-ok {ℓ κ} :
    {A : Type ℓ} (P : A → Type κ) {a : A} {r : Result A} → Ensures P r → r ≡ ok a → P a
Ensures-ok P {a} h e = holds (subst (Ensures P) e h)
  where
    holds : Ensures P (ok a) → P a
    holds (returns p) = p

pub anything {ℓ} : {A : Type ℓ} (r : Result A) → Ensures (λ (_ : A). Unit {ℓ}) r
anything (ok a) = returns tt
anything (err e) = faults

pub known {ℓ} : {A : Type ℓ} (r : Result A) → Ensures (λ a. r ≡ ok a) r
known (ok a) = returns refl
known (err e) = faults
