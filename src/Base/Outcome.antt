-- ===== src/Base/Outcome.antt =====
-- Code that may end the process: a failed `assert` or `LOG(FATAL)`.

use mathlib.Core.Path.{◌≡◌, refl}
use mathlib.Core.Option.{Option, none, some}
use mathlib.Core.Bool.{Bool, true, false}
use native.Mathlib.Omega.{arith}
use cbtree.Base.Tests.{if◌then◌else◌}

pub data Run {ℓ} (A : Type ℓ) : Type ℓ where
  done : A → Run A
  aborted : Run A

-- The run ends normally, with a result that satisfies `P`.
abbrev pub Returns {ℓ} : {A : Type ℓ} → Run A → (A → Type 0) → Type 0
Returns (done a) P = P a
Returns aborted P = ⊥

infixl 5 ◌>>=◌
abbrev pub ◌>>=◌ {ℓ κ} : {A : Type ℓ} {B : Type κ} → Run A → (A → Run B) → Run B
done a >>= f = f a
aborted >>= f = aborted

pub Returns-map {ℓ} :
    {A : Type ℓ} (P Q : A → Type 0) (r : Run A) → ((a : A) → P a → Q a) → Returns r P → Returns r Q
Returns-map P Q (done a) h p = h a p
Returns-map P Q aborted h p = p

pub Returns-bind {ℓ κ} :
    {A : Type ℓ} {B : Type κ} (P : A → Type 0) (Q : B → Type 0) (r : Run A) (f : A → Run B)
    → ((a : A) → P a → Returns (f a) Q)
    → Returns r P
    → Returns (r >>= f) Q
Returns-bind P Q (done a) f h p = h a p
Returns-bind P Q aborted f h p = absurd p

pub Returns-done {ℓ} :
    {A : Type ℓ} (P : A → Type 0) (r : Run A) → Returns r P → (a : A) × (r ≡ done a) × P a
Returns-done P (done a) p = (a, refl, p)
Returns-done P aborted p = absurd p

-- The branch of a test that is known to fail.
pub Returns-else {ℓ} :
    {A : Type ℓ} (P : A → Type 0) (b : Bool) (x y : Run A)
    → b ≡ false
    → Returns y P
    → Returns (if b then x else y) P
Returns-else P true x y e p = absurd (ground arith)
Returns-else P false x y e p = p

-- A test, or an optional value, that is known.
pub else_lem {ℓ} : {A : Type ℓ} (b : Bool) (x y : A) → b ≡ false → (if b then x else y) ≡ y
else_lem true x y e = absurd (ground arith)
else_lem false x y e = refl

pub then_lem {ℓ} : {A : Type ℓ} (b : Bool) (x y : A) → b ≡ true → (if b then x else y) ≡ x
then_lem true x y e = refl
then_lem false x y e = absurd (ground arith)

pub none_lem {ℓ κ} :
    {A : Type ℓ} {B : Type κ} (o : Option A) (x : B) (f : A → B)
    → o ≡ none
    → (elim o [ none ↦ x | some b ↦ f b ]) ≡ x
none_lem none x f e = refl
none_lem (some b) x f e = absurd (ground arith)

pub some_lem {ℓ κ} :
    {A : Type ℓ} {B : Type κ} (o : Option A) (a : A) (x : B) (f : A → B)
    → o ≡ some a
    → (elim o [ none ↦ x | some b ↦ f b ]) ≡ f a
some_lem none a x f e = absurd (ground arith)
some_lem (some b) a x f e = ground arith

-- A run that ends has a result that satisfies `P`; one that is aborted says nothing.
abbrev pub Whenever {ℓ} : {A : Type ℓ} → Run A → (A → Type 0) → Type 0
Whenever (done a) P = P a
Whenever aborted P = Unit

pub Whenever-bind {ℓ κ} :
    {A : Type ℓ} {B : Type κ} (P : B → Type 0) (r : Run A) (f : A → Run B)
    → ((a : A) → Whenever (f a) P)
    → Whenever (r >>= f) P
Whenever-bind P (done a) f h = h a
Whenever-bind P aborted f h = tt

pub Whenever-if {ℓ} :
    {A : Type ℓ} (P : A → Type 0) (b : Bool) (x y : Run A)
    → Whenever x P
    → Whenever y P
    → Whenever (if b then x else y) P
Whenever-if P true x y p q = p
Whenever-if P false x y p q = q

pub Whenever-then {ℓ κ} :
    {A : Type ℓ} {B : Type κ} (P : A → Type 0) (Q : B → Type 0) (r : Run A) (f : A → Run B)
    → ((a : A) → P a → Whenever (f a) Q)
    → Whenever r P
    → Whenever (r >>= f) Q
Whenever-then P Q (done a) f h p = h a p
Whenever-then P Q aborted f h p = tt

pub Whenever-option {ℓ κ} :
    {A : Type ℓ} {B : Type κ} (P : B → Type 0) (o : Option A) (x : Run B) (f : A → Run B)
    → Whenever x P
    → ((a : A) → Whenever (f a) P)
    → Whenever (elim o [ none ↦ x | some a ↦ f a ]) P
Whenever-option P none x f p q = p
Whenever-option P (some a) x f p q = q a

pub Whenever-map {ℓ} :
    {A : Type ℓ} (P Q : A → Type 0) (r : Run A)
    → ((a : A) → P a → Q a)
    → Whenever r P
    → Whenever r Q
Whenever-map P Q (done a) h p = h a p
Whenever-map P Q aborted h p = tt

pub Returns-if {ℓ} :
    {A : Type ℓ} (P : A → Type 0) (b : Bool) (x y : Run A)
    → Returns x P
    → Returns y P
    → Returns (if b then x else y) P
Returns-if P true x y p q = p
Returns-if P false x y p q = q
