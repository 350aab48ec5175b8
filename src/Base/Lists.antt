-- ===== src/Base/Lists.antt =====
-- Lists indexed and counted by the native numbers, and the predicates that the parts share.
use Prim.Native.Nat.{ℕ, zero, suc, ◌+◌, ◌-◌, ◌≤◌, ◌<◌}
use mathlib.Core.Path.{◌≡◌, refl, ap}
use mathlib.Core.Option.{Option, none, some}
use mathlib.Core.List.{List, [], ◌∷◌, ◌++◌}
use native.Mathlib.Omega.{arith}
use cbtree.Base.Tests.{◌==◌, if◌then◌else◌}

module _ {ℓ} {A : Type ℓ} where
  abbrev pub length : List A → ℕ
  length [] = 0
  length (x ∷ xs) = suc (length xs)

  abbrev pub get_elem? : List A → ℕ → Option A
  get_elem? [] i = none
  get_elem? (x ∷ xs) zero = some x
  get_elem? (x ∷ xs) (suc i) = get_elem? xs i

  abbrev pub take : ℕ → List A → List A
  take zero xs = []
  take (suc n) [] = []
  take (suc n) (x ∷ xs) = x ∷ take n xs

  abbrev pub drop : ℕ → List A → List A
  drop zero xs = xs
  drop (suc n) [] = []
  drop (suc n) (x ∷ xs) = drop n xs

  pub length-append : (xs ys : List A) → length (xs ++ ys) ≡ length xs + length ys
  length-append [] ys = omega arith
  length-append (x ∷ xs) ys = omega (arith, length-append xs ys)

  pub length-take : (n : ℕ) (xs : List A) → n ≤ length xs → length (take n xs) ≡ n
  length-take zero xs h = refl
  length-take (suc n) [] h = absurd (omega arith)
  length-take (suc n) (x ∷ xs) h = omega (arith, length-take n xs)

  pub length-drop : (n : ℕ) (xs : List A) → length (drop n xs) ≡ length xs - n
  length-drop zero xs = omega arith
  length-drop (suc n) [] = omega arith
  length-drop (suc n) (x ∷ xs) = omega (arith, length-drop n xs)

  pub take-append-drop : (n : ℕ) (xs : List A) → take n xs ++ drop n xs ≡ xs
  take-append-drop zero xs = refl
  take-append-drop (suc n) [] = refl
  take-append-drop (suc n) (x ∷ xs) = ap (◌∷◌ x) (take-append-drop n xs)

  pub take-length_append : (n : ℕ) (xs ys : List A) → length xs ≡ n → take n (xs ++ ys) ≡ xs
  take-length_append zero [] ys h = refl
  take-length_append (suc n) [] ys h = absurd (omega arith)
  take-length_append zero (x ∷ xs) ys h = absurd (omega arith)
  take-length_append (suc n) (x ∷ xs) ys h = ap (◌∷◌ x) (take-length_append n xs ys (omega arith))

  pub drop-length_append : (n : ℕ) (xs ys : List A) → length xs ≡ n → drop n (xs ++ ys) ≡ ys
  drop-length_append zero [] ys h = refl
  drop-length_append (suc n) [] ys h = absurd (omega arith)
  drop-length_append zero (x ∷ xs) ys h = absurd (omega arith)
  drop-length_append (suc n) (x ∷ xs) ys h = drop-length_append n xs ys (omega arith)

  pub get_elem?-drop :
      (xs : List A) (i : ℕ) (y : A) (ys : List A) → drop i xs ≡ y ∷ ys → get_elem? xs i ≡ some y
  get_elem?-drop [] zero y ys e = absurd (ground arith)
  get_elem?-drop [] (suc i) y ys e = absurd (ground arith)
  get_elem?-drop (x ∷ xs) zero y ys e = ground arith
  get_elem?-drop (x ∷ xs) (suc i) y ys e = get_elem?-drop xs i y ys e

  pub drop-suc :
      (xs : List A) (i : ℕ) (y : A) (ys : List A) → drop i xs ≡ y ∷ ys → drop (i + 1) xs ≡ ys
  drop-suc [] zero y ys e = absurd (ground arith)
  drop-suc [] (suc i) y ys e = absurd (ground arith)
  drop-suc (x ∷ xs) zero y ys e = ground arith
  drop-suc (x ∷ xs) (suc i) y ys e =
      let next : suc i + 1 ≡ suc (i + 1) = omega arith in rw next (drop-suc xs i y ys e)

  pub length-of_drop :
      (xs : List A) (i : ℕ) (ys : List A)
      → drop i xs ≡ ys
      → i ≤ length xs
      → length xs ≡ i + length ys
  length-of_drop xs zero ys e h = rw e (omega arith)
  length-of_drop [] (suc i) ys e h = absurd (omega arith)
  length-of_drop (x ∷ xs) (suc i) ys e h = omega (arith, length-of_drop xs i ys e (omega arith))

  pub drop_cons-lt :
      (xs : List A) (i : ℕ) (y : A) (ys : List A) → drop i xs ≡ y ∷ ys → i < length xs
  drop_cons-lt [] zero y ys e = absurd (ground arith)
  drop_cons-lt [] (suc i) y ys e = absurd (ground arith)
  drop_cons-lt (x ∷ xs) zero y ys e = omega arith
  drop_cons-lt (x ∷ xs) (suc i) y ys e = omega (arith, drop_cons-lt xs i y ys e)

  abbrev pub All {κ} : (A → Type κ) → List A → Type κ
  All P [] = Unit
  All P (x ∷ xs) = P x × All P xs

-- How often a number occurs.
abbrev pub count : ℕ → List ℕ → ℕ
count a [] = 0
count a (x ∷ xs) = (if x == a then 1 else 0) + count a xs

pub count-append : (a : ℕ) (xs ys : List ℕ) → count a (xs ++ ys) ≡ count a xs + count a ys
count-append a [] ys = omega arith
count-append a (x ∷ xs) ys = ground (arith, count-append a xs ys)

-- `first`, `first + 1`, ..., `n` numbers of them.
abbrev pub range : ℕ → ℕ → List ℕ
range first zero = []
range first (suc n) = first ∷ range (first + 1) n
