-- ===== src/Prelude/Results.antt =====
-- A call that may raise returns a `Result`; a method that may raise and changes an object returns
-- the object beside the result, since what was written before a raise stays written.
use mathlib.Core.Path.{◌≡◌, refl}
use mathlib.Core.Logic.{◌⊎◌, inl, inr}
use mathlib.Core.Bool.{Bool, true, false}
use depotflux_demo.Prelude.Tests.{if◌then◌else◌}

pub data Result {ℓ κ} (E : Type ℓ) (A : Type κ) : Type (ℓ ⊔ κ) where
  ok : A → Result E A
  err : E → Result E A

pub Result-cases {ℓ κ} :
    {E : Type ℓ} {A : Type κ} (r : Result E A) → ((a : A) × (r ≡ ok a)) ⊎ ((e : E) × (r ≡ err e))
Result-cases (ok a) = inl (a, refl)
Result-cases (err e) = inr (e, refl)

infixl 5 ◌>>=◌ ◌>>◌
abbrev pub ◌>>=◌ {ℓ κ ι} :
    {E : Type ℓ} {A : Type κ} {B : Type ι} → Result E A → (A → Result E B) → Result E B
ok a >>= f = f a
err e >>= f = err e

abbrev pub ◌>>◌ {ℓ κ} : {E : Type ℓ} {B : Type κ} → Result E (Unit {0}) → Result E B → Result E B
m >> k = m >>= λ _. k

-- `if not condition: raise e`
abbrev pub guard {ℓ} : {E : Type ℓ} → Bool → E → Result E (Unit {0})
guard true e = ok tt
guard false e = err e

-- `if condition: raise e`
abbrev pub raise_if {ℓ} : {E : Type ℓ} → Bool → E → Result E (Unit {0})
raise_if true e = err e
raise_if false e = ok tt

-- What follows a call on an object: nothing, if it raised.
abbrev pub and_then :
    {E A B S : Type 0} → Result E A × S → (A → S → Result E B × S) → Result E B × S
and_then (ok a, s) f = f a s
and_then (err e, s) f = (err e, s)

-- A last step that leaves the object alone.
pub and_then_keeps :
    {E A B S : Type 0} (p : Result E A × S) (f : A → S → Result E B × S)
    → ((a : A) (s : S) → (f a s).1 ≡ s)
    → (and_then p f).1 ≡ p.1
and_then_keeps (ok a, s) f h = h a s
and_then_keeps (err e, s) f h = refl

pub and_then_refused :
    {E A B S : Type 0} (p : Result E A × S) (f : A → S → Result E B × S) (e : E)
    → p.0 ≡ err e
    → and_then p f ≡ (err e, p.1)
and_then_refused (ok a, s) f e h = cc h
and_then_refused (err d, s) f e h = cc h

pub and_then_passed :
    {E A B S : Type 0} (p : Result E A × S) (f : A → S → Result E B × S) (a : A)
    → p.0 ≡ ok a
    → and_then p f ≡ f a p.1
and_then_passed (ok b, s) f a h = cc h
and_then_passed (err d, s) f a h = cc h

-- A last step that leaves a part of the object alone.
pub and_then_part :
    {E A B S C : Type 0} (part : S → C) (p : Result E A × S) (f : A → S → Result E B × S)
    → ((a : A) (s : S) → part (f a s).1 ≡ part s)
    → part (and_then p f).1 ≡ part p.1
and_then_part part (ok a, s) f h = h a s
and_then_part part (err e, s) f h = refl

-- A call that returns, with what its value satisfies.
abbrev pub Returns {ℓ κ ι} :
    {E : Type ℓ} {A : Type κ} → (A → Type ι) → Result E A → Type (ℓ ⊔ κ ⊔ ι)
Returns {A = A} P m = (a : A) × (m ≡ ok a) × P a

pub bind-Returns :
    {E A B : Type 0} {P : A → Type 0} {Q : B → Type 0} {m : Result E A} {k : A → Result E B}
    → Returns P m
    → ((a : A) → P a → Returns Q (k a))
    → Returns Q (m >>= k)
bind-Returns {k = k} (a, e, p) h = let (b, e', q) = h a p in (b, rw (e, e') refl, q)

pub if-Returns {ℓ} :
    {E A : Type 0} {P : A → Type ℓ} {x y : Result E A} (b : Bool)
    → (b ≡ true → Returns P x)
    → (b ≡ false → Returns P y)
    → Returns P (if b then x else y)
if-Returns true h k = h refl
if-Returns false h k = k refl
