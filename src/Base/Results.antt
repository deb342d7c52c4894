-- ===== src/Base/Results.antt =====
-- What a Go function that returns `(value, error)` does: it returns a value with a nil error, it
-- returns an error, or it panics (a nil dereference, an index out of range).
use mathlib.Core.Bool.{Bool, true, false}
use mathlib.Core.Option.{Option, none, some}
use mathlib.Core.Path.{◌≡◌, refl, subst}
use mathlib.Core.Logic.{◌≢◌, ◌⊎◌, inl, inr}

pub data Outcome {ℓ κ} (E : Type ℓ) (A : Type κ) : Type (ℓ ⊔ κ) where
  ok : A → Outcome E A
  err : E → Outcome E A
  panic : Outcome E A

infixl 5 ◌>>=◌ ◌>>◌
abbrev pub ◌>>=◌ {ℓ κ ι} :
    {E : Type ℓ} {A : Type κ} {B : Type ι} → Outcome E A → (A → Outcome E B) → Outcome E B
ok a >>= f = f a
err e >>= f = err e
panic >>= f = panic

abbrev pub ◌>>◌ {ℓ ι} : {E : Type ℓ} {B : Type ι} → Outcome E (Unit {0}) → Outcome E B → Outcome E B
m >> k = m >>= λ _. k

-- `if cond { return nil, err }`
abbrev pub fail_if {ℓ} : {E : Type ℓ} → Bool → E → Outcome E (Unit {0})
fail_if true e = err e
fail_if false e = ok tt

-- `*p`
abbrev pub deref {ℓ κ} : {E : Type ℓ} {A : Type κ} → Option A → Outcome E A
deref none = panic
deref (some a) = ok a

-- `return nil, fmt.Errorf(…, err)`: a callee's error is wrapped.
abbrev pub wrap {ℓ κ ι} :
    {E : Type ℓ} {F : Type κ} {A : Type ι} → (E → F) → Outcome E A → Outcome F A
wrap f (ok a) = ok a
wrap f (err e) = err (f e)
wrap f panic = panic

-- Inversion of steps that succeeded.
pub >>=-eq-ok {ℓ κ ι} :
    {E : Type ℓ} {A : Type κ} {B : Type ι} (step : Outcome E A) (next : A → Outcome E B) {end_ : B}
    → (step >>= next) ≡ ok end_
    → (middle : A) × (step ≡ ok middle) × (next middle ≡ ok end_)
>>=-eq-ok (ok middle) next h = (middle, refl, h)
>>=-eq-ok (err x) next h = cc
>>=-eq-ok panic next h = cc

pub fail_if-eq-ok {ℓ ι} :
    {E : Type ℓ} {B : Type ι} (c : Bool) (e : E) (m : Outcome E B) {b : B}
    → (fail_if c e >> m) ≡ ok b
    → (c ≡ false) × (m ≡ ok b)
fail_if-eq-ok true e m h = cc
fail_if-eq-ok false e m h = (refl, h)

pub wrap-eq-ok {ℓ κ ι} :
    {E : Type ℓ} {F : Type κ} {A : Type ι} (f : E → F) (m : Outcome E A) {a : A}
    → wrap f m ≡ ok a
    → m ≡ ok a
wrap-eq-ok f (ok a) h = cc
wrap-eq-ok f (err e) h = cc
wrap-eq-ok f panic h = cc

-- The step does not panic.
pub data Safe {ℓ κ} {E : Type ℓ} {A : Type κ} : Outcome E A → Type (ℓ ⊔ κ) where
  safe_ok : {a : A} → Safe (ok a)
  safe_err : {e : E} → Safe (err e)

pub Safe->>= {ℓ κ ι} :
    {E : Type ℓ} {A : Type κ} {B : Type ι} (m : Outcome E A) (f : A → Outcome E B)
    → Safe m
    → ((a : A) → m ≡ ok a → Safe (f a))
    → Safe (m >>= f)
Safe->>= (ok a) f s h = h a refl
Safe->>= (err e) f s h = safe_err
Safe->>= panic f s h = elim s [ ]

pub Safe-fail_if {ℓ κ} :
    {E : Type ℓ} {A : Type κ} (c : Bool) (e : E) (m : Outcome E A)
    → (c ≡ false → Safe m)
    → Safe (fail_if c e >> m)
Safe-fail_if true e m h = safe_err
Safe-fail_if false e m h = h refl

pub Safe-wrap {ℓ κ ι} :
    {E : Type ℓ} {F : Type κ} {A : Type ι} (f : E → F) (m : Outcome E A) → Safe m → Safe (wrap f m)
Safe-wrap f (ok a) s = safe_ok
Safe-wrap f (err e) s = safe_err
Safe-wrap f panic s = elim s [ ]

pub Safe-ne-panic {ℓ κ} : {E : Type ℓ} {A : Type κ} (m : Outcome E A) → Safe m → m ≢ panic
Safe-ne-panic (ok a) s e = cc
Safe-ne-panic (err e) s e' = cc
Safe-ne-panic panic s e = elim s [ ]

pub Safe-of-ne {ℓ κ} : {E : Type ℓ} {A : Type κ} (m : Outcome E A) → m ≢ panic → Safe m
Safe-of-ne (ok a) h = safe_ok
Safe-of-ne (err e) h = safe_err
Safe-of-ne panic h = absurd (h refl)

-- What holds of the value if the step returns one.
pub data Ensures {ℓ κ ι} {E : Type ℓ} {A : Type κ} (P : A → Type ι)
    : Outcome E A → Type (ℓ ⊔ κ ⊔ ι) where
  returns : {a : A} → P a → Ensures P (ok a)
  fails : {e : E} → Ensures P (err e)
  panics : Ensures P panic

pub Ensures->>= {ℓ κ ι υ} :
    {E : Type ℓ} {A : Type κ} {B : Type ι} (P : B → Type υ) (m : Outcome E A) (f : A → Outcome E B)
    → ((a : A) → m ≡ ok a → Ensures P (f a))
    → Ensures P (m >>= f)
Ensures->>= P (ok a) f h = h a refl
Ensures->>= P (err e) f h = fails
Ensures->>= P panic f h = panics

pub Ensures-fail_if {ℓ κ ι} :
    {E : Type ℓ} {A : Type κ} (P : A → Type ι) (c : Bool) (e : E) (m : Outcome E A)
    → (c ≡ false → Ensures P m)
    → Ensures P (fail_if c e >> m)
Ensures-fail_if P true e m h = fails
Ensures-fail_if P false e m h = h refl

Ensures-value {ℓ κ ι} :
    {E : Type ℓ} {A : Type κ} (P : A → Type ι) (a : A) → Ensures {E = E} P (ok a) → P a
Ensures-value P a (returns p) = p

pub Ensures-ok {ℓ κ ι} :
    {E : Type ℓ} {A : Type κ} (P : A → Type ι) (m : Outcome E A) (a : A)
    → Ensures P m
    → m ≡ ok a
    → P a
Ensures-ok P m a h e = Ensures-value P a (subst (Ensures P) e h)

pub Outcome-cases {ℓ κ} :
    {E : Type ℓ} {A : Type κ} (m : Outcome E A)
    → ((a : A) × (m ≡ ok a)) ⊎ (((e : E) × (m ≡ err e)) ⊎ (m ≡ panic))
Outcome-cases (ok a) = inl (a, refl)
Outcome-cases (err e) = inr (inl (e, refl))
Outcome-cases panic = inr (inr refl)
