-- ===== src/Base/Outcome.antt =====
-- How a call ends: a value, a returned error, a run-time panic, or the model's fuel running out.
use go_dispatch.Base.Shared.{◌≡◌, refl, Option, none, some}

pub data Outcome {ℓ κ} (E : Type ℓ) (A : Type κ) : Type (ℓ ⊔ κ) where
  ok : A → Outcome E A
  err : E → Outcome E A
  panic out_of_fuel : Outcome E A

infixl 5 ◌>>=◌
abbrev pub ◌>>=◌ {ℓ κ μ} :
    {E : Type ℓ} {A : Type κ} {B : Type μ} → Outcome E A → (A → Outcome E B) → Outcome E B
ok a >>= f = f a
err e >>= f = err e
panic >>= f = panic
out_of_fuel >>= f = out_of_fuel

-- A read that panics where it finds nothing.
abbrev pub or_panic {ℓ κ} : {E : Type ℓ} {A : Type κ} → Option A → Outcome E A
or_panic (some a) = ok a
or_panic none = panic

-- The call returns a value, and the value satisfies `P`.
abbrev pub Returns {ℓ κ} : {E : Type ℓ} {A : Type κ} → (A → Type 0) → Outcome E A → Type 0
Returns P (ok a) = P a
Returns P (err e) = ⊥
Returns P panic = ⊥
Returns P out_of_fuel = ⊥

pub Returns-inv {ℓ κ} :
    {E : Type ℓ} {A : Type κ} (P : A → Type 0) (r : Outcome E A)
    → Returns P r
    → (a : A) × (r ≡ ok a) × P a
Returns-inv P (ok a) h = (a, refl, h)
Returns-inv P (err e) h = absurd h
Returns-inv P panic h = absurd h
Returns-inv P out_of_fuel h = absurd h

-- The call returns a value that satisfies `P` or an error: it does not panic or run out of fuel.
abbrev pub Ensures {ℓ κ} : {E : Type ℓ} {A : Type κ} → (A → Type 0) → Outcome E A → Type 0
Ensures P (ok a) = P a
Ensures P (err e) = Unit
Ensures P panic = ⊥
Ensures P out_of_fuel = ⊥

pub Ensures-bind {ℓ κ μ} :
    {E : Type ℓ} {A : Type κ} {B : Type μ} (P : A → Type 0) (Q : B → Type 0) (r : Outcome E A)
    (f : A → Outcome E B)
    → Ensures P r
    → ((a : A) → P a → Ensures Q (f a))
    → Ensures Q (r >>= f)
Ensures-bind P Q (ok a) f h k = k a h
Ensures-bind P Q (err e) f h k = tt
Ensures-bind P Q panic f h k = absurd h
Ensures-bind P Q out_of_fuel f h k = absurd h

pub Ensures-mono {ℓ κ} :
    {E : Type ℓ} {A : Type κ} (P Q : A → Type 0) (r : Outcome E A)
    → Ensures P r
    → ((a : A) → P a → Q a)
    → Ensures Q r
Ensures-mono P Q (ok a) h f = f a h
Ensures-mono P Q (err e) h f = tt
Ensures-mono P Q panic h f = h
Ensures-mono P Q out_of_fuel h f = h

-- The call returns a value that satisfies `P`, or an error that satisfies `Q`.
abbrev pub Ends {ℓ κ} :
    {E : Type ℓ} {A : Type κ} → (A → Type 0) → (E → Type 0) → Outcome E A → Type 0
Ends P Q (ok a) = P a
Ends P Q (err e) = Q e
Ends P Q panic = ⊥
Ends P Q out_of_fuel = ⊥

pub Ends-bind {ℓ κ μ} :
    {E : Type ℓ} {A : Type κ} {B : Type μ} (P : A → Type 0) (P' : B → Type 0) (Q : E → Type 0)
    (r : Outcome E A) (f : A → Outcome E B)
    → Ends P Q r
    → ((a : A) → P a → Ends P' Q (f a))
    → Ends P' Q (r >>= f)
Ends-bind P P' Q (ok a) f h k = k a h
Ends-bind P P' Q (err e) f h k = h
Ends-bind P P' Q panic f h k = h
Ends-bind P P' Q out_of_fuel f h k = h

pub Ends-mono {ℓ κ} :
    {E : Type ℓ} {A : Type κ} (P P' : A → Type 0) (Q Q' : E → Type 0) (r : Outcome E A)
    → Ends P Q r
    → ((a : A) → P a → P' a)
    → ((e : E) → Q e → Q' e)
    → Ends P' Q' r
Ends-mono P P' Q Q' (ok a) h f g = f a h
Ends-mono P P' Q Q' (err e) h f g = g e h
Ends-mono P P' Q Q' panic h f g = h
Ends-mono P P' Q Q' out_of_fuel h f g = h

pub Returns-both {ℓ κ} :
    {E : Type ℓ} {A : Type κ} (P Q : A → Type 0) (r : Outcome E A)
    → Returns P r
    → Returns Q r
    → Returns (λ a. P a × Q a) r
Returns-both P Q (ok a) h k = (h, k)
Returns-both P Q (err e) h k = absurd h
Returns-both P Q panic h k = absurd h
Returns-both P Q out_of_fuel h k = absurd h

-- A common continuation of the continuations can be taken out.
pub bind_assoc {ℓ κ μ ν} :
    {E : Type ℓ} {A : Type κ} {B : Type μ} {C : Type ν} (r : Outcome E A) (f : A → Outcome E C)
    (k : A → Outcome E B) (h : B → Outcome E C)
    → ((a : A) → f a ≡ (k a >>= h))
    → (r >>= f) ≡ (r >>= k >>= h)
bind_assoc (ok a) f k h e = e a
bind_assoc (err x) f k h e = refl
bind_assoc panic f k h e = refl
bind_assoc out_of_fuel f k h e = refl
