-- ===== src/Pool/Slots.antt =====
-- `Malloc` and `Free` of obj_pool.h hand every object to one owner at a time.
use native.Mathlib.Nat.{mul-lt-mul_of_pos_right, mul-div_cancel, mul-mod_left}
use cbtree.Base.{
  ℕ, zero, suc, ◌+◌, ◌*◌, ◌/◌, ◌%◌, ◌≤◌, ◌<◌, ◌≡◌, ◌⊎◌, refl, sym, ap, ◌∙◌, leb, ◌==◌,
  if◌then◌else◌, Bool, true, false, Bool-cases, inl, inr, Option, none, some, List, [], ◌∷◌, length,
  All, count, sub64, sub64_exact, u64, Run, done, aborted, arith,
}
use cbtree.Pool.{
  Pool, get_index, malloc, free, bit, set_elem, bump, counted, new_pool, slots, replicate,
}

abbrev pub slot : Pool → ℕ → ℕ
slot p i = p.base + i * p.obj_size

-- The objects are inside the address space.
pub record IsPlaced (p : Pool) : Type 0 where
  pub sized : 0 < p.obj_size
  pub inside : p.base + p.obj_cnt * p.obj_size < u64

-- `a` is the address of an object that is not in use.
abbrev pub IsUnused : Pool → ℕ → Type 0
IsUnused p a = (i : ℕ) × (i < p.obj_cnt) × (a ≡ slot p i) × (bit p.bitmap i ≡ false)

abbrev pub IsDistinct : List ℕ → Type 0
IsDistinct [] = Unit
IsDistinct (x ∷ xs) = (count x xs ≡ 0) × IsDistinct xs

-- The free list has addresses of unused objects, each once.
pub record IsPool (p : Pool) : Type 0 where
  pub placed : IsPlaced p
  pub mapped : length p.bitmap ≡ p.obj_cnt
  pub unused : All (IsUnused p) p.free_list
  pub distinct : IsDistinct p.free_list

-- The address of an object gives its index.
get_index-slot : (p : Pool) (i : ℕ) → IsPlaced p → i < p.obj_cnt → get_index p (slot p i) ≡ some i
unfolding get_index
get_index-slot p i v h =
    let below : i * p.obj_size < p.obj_cnt * p.obj_size = mul-lt-mul_of_pos_right h v.sized in
    let offset : sub64 (slot p i) p.base ≡ i * p.obj_size =
      sub64_exact (slot p i) p.base (omega arith) (omega (arith, v.inside)) ∙ omega arith in
    let comm : p.obj_size * p.obj_cnt ≡ p.obj_cnt * p.obj_size = omega arith in
    let inside : leb (p.obj_cnt * p.obj_size) (i * p.obj_size) ≡ false = ground arith in
    let whole : (i * p.obj_size) % p.obj_size ≡ 0 = mul-mod_left i p.obj_size in
    let index : (i * p.obj_size) / p.obj_size ≡ i = mul-div_cancel i v.sized in
    rw (offset, comm, inside, whole, index) refl

bit-set_elem :
    (i j : ℕ) (b : Bool) (bs : List Bool)
    → i < length bs
    → bit (set_elem i b bs) j ≡ (if i == j then b else bit bs j)
bit-set_elem i j b [] h = absurd (omega arith)
bit-set_elem zero zero b (x ∷ bs) h = refl
bit-set_elem zero (suc j) b (x ∷ bs) h = ground arith
bit-set_elem (suc i) zero b (x ∷ bs) h = ground arith
bit-set_elem (suc i) (suc j) b (x ∷ bs) h = ground (arith, bit-set_elem i j b bs (omega arith))

length-set_elem : (i : ℕ) (b : Bool) (bs : List Bool) → length (set_elem i b bs) ≡ length bs
length-set_elem i b [] = refl
length-set_elem zero b (x ∷ bs) = refl
length-set_elem (suc i) b (x ∷ bs) = omega (arith, length-set_elem i b bs)

module _ (p : Pool) (i : ℕ) (mapped : length p.bitmap ≡ p.obj_cnt) (h : i < p.obj_cnt) where
  bit-set :
      (b : Bool) (j : ℕ) → bit (set_elem i b p.bitmap) j ≡ (if i == j then b else bit p.bitmap j)
  bit-set b j = bit-set_elem i j b p.bitmap (omega arith)

  -- Unused objects other than the `i`th stay unused when that one comes into use.
  used-IsUnused :
      (xs : List ℕ)
      → count (slot p i) xs ≡ 0
      → All (IsUnused p) xs
      → All (IsUnused (record p { bitmap = set_elem i true p.bitmap })) xs
  used-IsUnused [] c u = tt
  used-IsUnused (x ∷ xs) c ((j, k, e, b), us) =
      let apart : (i == j) ≡ false = elim (Bool-cases (i == j)) [
        | inl same ↦
            let eq : i ≡ j = ground arith in
            let hit : (x == slot p i) ≡ true = rw (e, ← eq) (ground arith) in absurd (ground arith)
        | inr other ↦ other
      ] in
      ((j, k, e, bit-set true j ∙ rw apart b), used-IsUnused xs (ground arith) us)

  freed-IsUnused :
      (xs : List ℕ)
      → All (IsUnused p) xs
      → All (IsUnused (record p { bitmap = set_elem i false p.bitmap })) xs
  freed-IsUnused [] u = tt
  freed-IsUnused (x ∷ xs) ((j, k, e, b), us) =
      ((j, k, e, bit-set false j ∙ ground arith), freed-IsUnused xs us)

  -- An object in use is not in the free list.
  count-used :
      IsPlaced p
      → bit p.bitmap i ≡ true
      → (xs : List ℕ) → All (IsUnused p) xs
      → count (slot p i) xs ≡ 0
  count-used v used [] u = refl
  count-used v used (x ∷ xs) ((j, k, e, b), us) = elim (Bool-cases (x == slot p i)) [
    | inl hit ↦
        let eq : slot p j ≡ slot p i = sym e ∙ ground arith in
        let index : some j ≡ some i =
          sym (get_index-slot p j v k) ∙ (ap (get_index p) eq ∙ get_index-slot p i v h) in
        let same : j ≡ i = ground arith in ground arith
    | inr miss ↦ ground (arith, count-used v used xs us)
  ]

-- The bits of `p'` are those of `p` but for that of the object `i`.
abbrev pub SetsBit : ℕ → Bool → Pool → Pool → Type 0
SetsBit i b p p' = (j : ℕ) → bit p'.bitmap j ≡ (if i == j then b else bit p.bitmap j)

-- What `Malloc` does: nothing is free and it returns a null pointer, or it hands out an object that
-- was not in use and that from then on is.
abbrev pub Mallocs : Pool → Run (Pool × Option ℕ) → Type 0
Mallocs p r =
    ((p.free_list ≡ []) × (r ≡ done (record p { malloc_failed = p.malloc_failed + 1 }, none)))
    ⊎ ((p' : Pool) × (i : ℕ) × (r ≡ done (p', some (slot p i)))
        × (i < p.obj_cnt)
        × (bit p.bitmap i ≡ false)
        × SetsBit i true p p'
        × IsPool p')

malloc_nil :
    (p : Pool)
    → p.free_list ≡ []
    → malloc p ≡ done (record p { malloc_failed = p.malloc_failed + 1 }, none)
unfolding malloc
malloc_nil p e = rw e refl

malloc_cons :
    (p : Pool) (a : ℕ) (rest : List ℕ)
    → IsPool p
    → p.free_list ≡ a ∷ rest
    → All (IsUnused p) (a ∷ rest)
    → IsDistinct (a ∷ rest)
    → Mallocs p (malloc p)
unfolding malloc
malloc_cons p a rest v e ((i, h, s, b), us) (once, distinct) =
    let q : Pool = counted (record p { free_list = rest }) in
    let q' : Pool = record q { bitmap = set_elem i true p.bitmap; mallocs = bump i p.mallocs } in
    let index : get_index p a ≡ some i = rw s (get_index-slot p i v.placed h) in
    let alone : count (slot p i) rest ≡ 0 = rw (← s) once in
    inr (
      q',
      i,
      rw (e, index, b, s) refl,
      h,
      b,
      bit-set p i v.mapped h true,
      record {
        placed = record { sized = v.placed.sized; inside = v.placed.inside };
        mapped = length-set_elem i true p.bitmap ∙ v.mapped;
        unused = used-IsUnused p i v.mapped h rest alone us;
        distinct = distinct;
      },
    )

-- `Malloc` on a pool inside the address space whose free list has the addresses of unused objects,
-- each once: it ends without a failed assertion; it returns a null pointer only if nothing is
-- free; otherwise it hands out an object that was not in use, marks that one and no other, and the
-- pool is again such a pool.
pub malloc_lem : (p : Pool) → IsPool p → Mallocs p (malloc p)
malloc_lem p v = go p.free_list refl v.unused v.distinct
  where
    go :
        (xs : List ℕ)
        → p.free_list ≡ xs
        → All (IsUnused p) xs
        → IsDistinct xs
        → Mallocs p (malloc p)
    go [] e u d = inl (e, malloc_nil p e)
    go (a ∷ rest) e u d = malloc_cons p a rest v e u d

-- `Free` of an object in use, on a pool inside the address space whose free list has the addresses
-- of unused objects, each once: it ends without a failed assertion, marks that object as unused
-- and no other, and the pool is again such a pool. Freed a second time at once, the object fails
-- the assertion.
pub free-IsPool :
    (p : Pool) (i : ℕ)
    → IsPool p
    → i < p.obj_cnt
    → bit p.bitmap i ≡ true
    → (p' : Pool) × (free (slot p i) p ≡ done p')
      × IsPool p'
      × SetsBit i false p p'
      × (free (slot p i) p' ≡ aborted)
unfolding free
free-IsPool p i v h used =
    let q : Pool = record p {
      free_cnt = p.free_cnt + 1;
      bitmap = set_elem i false p.bitmap;
      frees = bump i p.frees;
      free_list = slot p i ∷ p.free_list;
    } in
    let index : get_index p (slot p i) ≡ some i = get_index-slot p i v.placed h in
    let placed : IsPlaced q = record { sized = v.placed.sized; inside = v.placed.inside } in
    let index' : get_index q (slot p i) ≡ some i = get_index-slot q i placed h in
    let off : bit (set_elem i false p.bitmap) i ≡ false =
      bit-set p i v.mapped h false i ∙ ground arith in
    (
      q,
      rw (index, used) refl,
      record {
        placed = placed;
        mapped = length-set_elem i false p.bitmap ∙ v.mapped;
        unused = ((i, h, refl, off), freed-IsUnused p i v.mapped h p.free_list v.unused);
        distinct = (count-used p i v.mapped h v.placed used p.free_list v.unused, v.distinct);
      },
      bit-set p i v.mapped h false,
      rw (index', off) refl,
    )

bit-replicate : (n i : ℕ) → bit (replicate n false) i ≡ false
bit-replicate zero i = refl
bit-replicate (suc n) zero = refl
bit-replicate (suc n) (suc i) = bit-replicate n i

length-replicate : (n : ℕ) → length (replicate n false) ≡ n
length-replicate zero = refl
length-replicate (suc n) = ap suc (length-replicate n)

slots-IsUnused :
    (base obj_cnt obj_size n : ℕ)
    → n ≤ obj_cnt
    → All (IsUnused (new_pool base obj_cnt obj_size)) (slots base obj_size n)
unfolding slots new_pool
slots-IsUnused base obj_cnt obj_size zero h = tt
slots-IsUnused base obj_cnt obj_size (suc n) h = (
  (n, omega arith, refl, bit-replicate obj_cnt n),
  slots-IsUnused base obj_cnt obj_size n (omega arith),
)

count-slots :
    (base obj_size n k : ℕ)
    → 0 < obj_size
    → n ≤ k
    → count (base + k * obj_size) (slots base obj_size n) ≡ 0
unfolding slots
count-slots base obj_size zero k s h = refl
count-slots base obj_size (suc n) k s h =
    let below : n * obj_size < k * obj_size = mul-lt-mul_of_pos_right (omega arith) s in
    ground (arith, count-slots base obj_size n k s (omega arith))

slots-IsDistinct : (base obj_size n : ℕ) → 0 < obj_size → IsDistinct (slots base obj_size n)
unfolding slots
slots-IsDistinct base obj_size zero s = tt
slots-IsDistinct base obj_size (suc n) s =
    (count-slots base obj_size n n s (omega arith), slots-IsDistinct base obj_size n s)

-- A new pool, of objects that take up memory, in a block that ends inside the address space: it
-- has a bit for each object, and its free list has the addresses of unused objects, each once.
pub new_pool-IsPool :
    (base obj_cnt obj_size : ℕ)
    → 0 < obj_size
    → base + obj_cnt * obj_size < u64
    → IsPool (new_pool base obj_cnt obj_size)
unfolding new_pool
new_pool-IsPool base obj_cnt obj_size s h = record {
  placed = record { sized = s; inside = h };
  mapped = length-replicate obj_cnt;
  unused = slots-IsUnused base obj_cnt obj_size obj_cnt (omega arith);
  distinct = slots-IsDistinct base obj_size obj_cnt s;
}
