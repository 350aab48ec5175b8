-- ===== src/Base/Sort.antt =====
-- `std::sort` on page ids, as insertion, with what its callers need of it.
use Prim.Native.Nat.{ℕ, ◌+◌, ◌≤◌}
use mathlib.Core.Path.{◌≡◌, refl}
use mathlib.Core.List.{List, [], ◌∷◌}
use native.Mathlib.Omega.{arith}
use cbtree.Base.Tests.{leb, if◌then◌else◌}
use cbtree.Base.Lists.{count, length}

insert_sorted : ℕ → List ℕ → List ℕ
insert_sorted x [] = x ∷ []
insert_sorted x (y ∷ ys) = if leb x y then x ∷ y ∷ ys else y ∷ insert_sorted x ys

unfoldable pub sort : List ℕ → List ℕ
unfolding insert_sorted
sort [] = []
sort (x ∷ xs) = insert_sorted x (sort xs)

-- The bound of a list's head; vacuous on the empty list.
abbrev pub LeHead : ℕ → List ℕ → Type 0
LeHead x [] = Unit
LeHead x (y ∷ ys) = x ≤ y

abbrev pub IsSorted : List ℕ → Type 0
IsSorted [] = Unit
IsSorted (x ∷ xs) = LeHead x xs × IsSorted xs

abbrev pub SameItems : List ℕ → List ℕ → Type 0
SameItems xs ys = (a : ℕ) → count a xs ≡ count a ys

insert_sorted-LeHead : (b x : ℕ) (ys : List ℕ) → b ≤ x → LeHead b ys → LeHead b (insert_sorted x ys)
unfolding insert_sorted
insert_sorted-LeHead b x [] h k = h
insert_sorted-LeHead b x (y ∷ ys) h k = ground arith

insert_sorted-IsSorted : (x : ℕ) (ys : List ℕ) → IsSorted ys → IsSorted (insert_sorted x ys)
unfolding insert_sorted
insert_sorted-IsSorted x [] s = (tt, tt)
insert_sorted-IsSorted x (y ∷ ys) s =
    ground (arith, insert_sorted-IsSorted x ys, insert_sorted-LeHead y x ys)

pub sort-IsSorted : (xs : List ℕ) → IsSorted (sort xs)
unfolding sort
sort-IsSorted [] = tt
sort-IsSorted (x ∷ xs) = insert_sorted-IsSorted x (sort xs) (sort-IsSorted xs)

count-insert_sorted : (a x : ℕ) (ys : List ℕ) → count a (insert_sorted x ys) ≡ count a (x ∷ ys)
unfolding insert_sorted
count-insert_sorted a x [] = refl
count-insert_sorted a x (y ∷ ys) = ground (arith, count-insert_sorted a x ys)

pub count-sort : (a : ℕ) (xs : List ℕ) → count a (sort xs) ≡ count a xs
unfolding sort
count-sort a [] = refl
count-sort a (x ∷ xs) = ground (arith, count-insert_sorted a x (sort xs), count-sort a xs)

insert_sorted-LeHead_eq : (x : ℕ) (ys : List ℕ) → LeHead x ys → insert_sorted x ys ≡ x ∷ ys
unfolding insert_sorted
insert_sorted-LeHead_eq x [] h = refl
insert_sorted-LeHead_eq x (y ∷ ys) h = ground arith

-- Sorting changes nothing in a sorted list.
pub sort-IsSorted_eq : (xs : List ℕ) → IsSorted xs → sort xs ≡ xs
unfolding sort
sort-IsSorted_eq [] s = refl
sort-IsSorted_eq (x ∷ xs) s =
    ground (arith, sort-IsSorted_eq xs s.1, insert_sorted-LeHead_eq x xs s.0)

length-insert_sorted : (x : ℕ) (ys : List ℕ) → length (insert_sorted x ys) ≡ length ys + 1
unfolding insert_sorted
length-insert_sorted x [] = omega arith
length-insert_sorted x (y ∷ ys) = ground (arith, length-insert_sorted x ys)

pub length-sort : (xs : List ℕ) → length (sort xs) ≡ length xs
unfolding sort
length-sort [] = refl
length-sort (x ∷ xs) = omega (arith, length-insert_sorted x (sort xs), length-sort xs)
