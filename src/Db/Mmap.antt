-- ===== src/Db/Mmap.antt =====
-- The size of the memory map: `DB::getMmapSize` of db.cc.
use cbtree.Base.{
  ℕ, zero, suc, ◌+◌, ◌-◌, ◌^◌, ◌≤◌, ◌<◌, ◌≡◌, refl, leb, ltb, ◌==◌, Bool-cases, true, false, inl,
  inr, Option, none, some, done, aborted, arith,
}
use cbtree.Db.{mmap_loop, get_mmap_size, max_map_size}

-- The least power of two from the `i`th on, and below the `end`th, that holds the target.
abbrev IsLeast : (i end target : ℕ) → Option ℕ → Type 0
IsLeast i end target none = (j : ℕ) → i ≤ j → j < end → 2 ^ j < target
IsLeast i end target (some size) =
    (j : ℕ) × (i ≤ j)
    × (j < end)
    × (size ≡ 2 ^ j)
    × (target ≤ 2 ^ j)
    × ((k : ℕ) → i ≤ k → k < j → 2 ^ k < target)

earlier :
    (i n target : ℕ) (o : Option ℕ)
    → 2 ^ i < target
    → IsLeast (i + 1) (i + 1 + n) target o
    → IsLeast i (i + suc n) target o
earlier i n target none h l = λ j a b. elim (Bool-cases (j == i)) [
  | inl e ↦ let e' : j ≡ i = ground arith in rw e' h
  | inr e ↦ l j (ground arith) (omega arith)
]
earlier i n target (some size) h (j, a, b, e, f, below) = (
  j,
  omega arith,
  omega arith,
  e,
  f,
  λ k p q. elim (Bool-cases (k == i)) [
    | inl e ↦ let e' : k ≡ i = ground arith in rw e' h
    | inr e ↦ below k (ground arith) q
  ],
)

mmap_loop-IsLeast : (n i target : ℕ) → IsLeast i (i + n) target (mmap_loop n i target)
unfolding mmap_loop
mmap_loop-IsLeast zero i target = λ j a b. absurd (omega arith)
mmap_loop-IsLeast (suc n) i target = elim (Bool-cases (leb target (2 ^ i))) [
  | inl fits ↦
      rw fits (i, omega arith, omega arith, refl, ground arith, λ k p q. absurd (omega arith))
  | inr large ↦ rw large (
      earlier i n target (mmap_loop n (i + 1) target) (ground arith)
        (mmap_loop-IsLeast n (i + 1) target))
]

pow-le : (j n : ℕ) → 2 ^ j ≤ 2 ^ (j + n)
pow-le j zero = rw (add_zero j) (omega arith)
  where
    add_zero : (j : ℕ) → j + zero ≡ j
    add_zero j = omega arith
pow-le j (suc n) = let e : j + suc n ≡ suc (j + n) = omega arith in rw e (omega (arith, pow-le j n))

pow_mono : (j k : ℕ) → j ≤ k → 2 ^ j ≤ 2 ^ k
pow_mono j k h = let e : j + (k - j) ≡ k = omega arith in rw e at (pow-le j (k - j))

get_mmap_size_cases :
    (target : ℕ)
    → (target ≤ 2 ^ 30
        → (i : ℕ) × (15 ≤ i)
          × (i ≤ 30)
          × (get_mmap_size target ≡ done (some (2 ^ i)))
          × (target ≤ 2 ^ i)
          × ((k : ℕ) → 15 ≤ k → k < i → 2 ^ k < target))
      × (2 ^ 30 < target → target ≤ max_map_size → get_mmap_size target ≡ aborted)
      × (max_map_size < target → get_mmap_size target ≡ done none)
unfolding get_mmap_size
get_mmap_size_cases target = go (mmap_loop 16 15 target) (mmap_loop-IsLeast 16 15 target) refl
  where
    go :
        (o : Option ℕ)
        → IsLeast 15 31 target o
        → mmap_loop 16 15 target ≡ o
        → (target ≤ 2 ^ 30
            → (i : ℕ) × (15 ≤ i)
              × (i ≤ 30)
              × (get_mmap_size target ≡ done (some (2 ^ i)))
              × (target ≤ 2 ^ i)
              × ((k : ℕ) → 15 ≤ k → k < i → 2 ^ k < target))
          × (2 ^ 30 < target → target ≤ max_map_size → get_mmap_size target ≡ aborted)
          × (max_map_size < target → get_mmap_size target ≡ done none)
    go none l e =
        let large : 2 ^ 30 < target = l 30 (omega arith) (omega arith) in
        (
          λ h. absurd (omega arith),
          λ h k. let b : ltb max_map_size target ≡ false = ground arith in rw (e, b) refl,
          λ h. let b : ltb max_map_size target ≡ true = ground arith in rw (e, b) refl,
        )
    go (some size) (i, a, b, p, fits, below) e =
        let small : 2 ^ i ≤ 2 ^ 30 = pow_mono i 30 (omega arith) in
        (
          λ h. (i, a, omega arith, rw (e, p) refl, fits, below),
          λ h k. absurd (omega arith),
          λ h. absurd (omega arith),
        )

-- A target of at most 2 ^ 30: `getMmapSize` returns the least power of two from 2 ^ 15 on that
-- holds it.
pub get_mmap_size_lem :
    (target : ℕ)
    → target ≤ 2 ^ 30
    → (i : ℕ) × (15 ≤ i)
      × (i ≤ 30)
      × (get_mmap_size target ≡ done (some (2 ^ i)))
      × (target ≤ 2 ^ i)
      × ((k : ℕ) → 15 ≤ k → k < i → 2 ^ k < target)
get_mmap_size_lem target h = (get_mmap_size_cases target).0 h

-- A target above 2 ^ 30 and up to `MAXMAPSIZE` fails the assertion at the end of `getMmapSize`.
pub get_mmap_size_aborted :
    (target : ℕ) → 2 ^ 30 < target → target ≤ max_map_size → get_mmap_size target ≡ aborted
get_mmap_size_aborted target h k = (get_mmap_size_cases target).1 h k
