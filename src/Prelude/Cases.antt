-- ===== src/Prelude/Cases.antt =====
-- Splits on a computed value that keep the equation.
use mathlib.Core.Path.{◌≡◌, refl}
use mathlib.Core.Logic.{◌⊎◌, inl, inr}
use mathlib.Core.Bool.{Bool, true, false}
use mathlib.Core.Option.{Option, none, some}
use pithos.Prelude.Tests.{if◌then◌else◌}

pub Bool-cases : (b : Bool) → (b ≡ true) ⊎ (b ≡ false)
Bool-cases true = inl refl
Bool-cases false = inr refl

pub Option-cases {ℓ} : {A : Type ℓ} (o : Option A) → (o ≡ none) ⊎ ((a : A) × (o ≡ some a))
Option-cases none = inl refl
Option-cases (some a) = inr (a, refl)

-- What the `else` branch says, when the test fails.
pub from_else {ℓ} :
    {A : Type ℓ} (test : Bool) (x : A) {y z : A}
    → test ≡ false
    → (if test then x else y) ≡ z
    → y ≡ z
from_else true x h q = cc
from_else false x h q = q

-- What both branches of a conditional have, each under its test.
pub if_either {ℓ κ} :
    {A : Type ℓ} (P : A → Type κ) (test : Bool) (x y : A)
    → (test ≡ true → P x)
    → (test ≡ false → P y)
    → P (if test then x else y)
if_either P true x y p q = p refl
if_either P false x y p q = q refl
