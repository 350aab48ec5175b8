-- ===== src/Pool.antt =====
-- `ObjPool` of src/Bolt/obj_pool.h: objects of one size in one block of memory. An address is a
-- number; the constructors and destructors of the objects do not touch the pool. The assertions
-- are compiled in, and `aborted` is a failed one.
pub mod Slots
use cbtree.Base.{
  ℕ, zero, suc, ◌+◌, ◌-◌, ◌*◌, ◌/◌, ◌%◌, leb, ltb, ◌==◌, if◌then◌else◌, Bool, true, false, Option,
  none, some, List, [], ◌∷◌, min, sub64, Run, done, aborted, ◌>>=◌, length,
}

-- The head of `free_list` is the end of `free_list_`. `lowest_free` is `lowest_free_cnt_`.
pub record Pool : Type 0 where
  pub base : ℕ
  pub obj_cnt : ℕ
  pub obj_size : ℕ
  pub free_list : List ℕ
  pub bitmap : List Bool
  pub mallocs : List ℕ
  pub frees : List ℕ
  pub malloc_succeed : ℕ
  pub malloc_failed : ℕ
  pub free_cnt : ℕ
  pub lowest_free : ℕ

abbrev pub replicate {ℓ} : {A : Type ℓ} → ℕ → A → List A
replicate zero a = []
replicate (suc n) a = a ∷ replicate n a

-- The addresses of the first `n` objects, the last in front.
pub slots : (base obj_size n : ℕ) → List ℕ
slots base obj_size zero = []
slots base obj_size (suc n) = (base + n * obj_size) ∷ slots base obj_size n

-- The constructor, where `posix_memalign` returned the block at `base`.
unfoldable pub new_pool : (base obj_cnt obj_size : ℕ) → Pool
unfolding slots
new_pool base obj_cnt obj_size = record {
  base = base;
  obj_cnt = obj_cnt;
  obj_size = obj_size;
  free_list = slots base obj_size obj_cnt;
  bitmap = replicate obj_cnt false;
  mallocs = replicate obj_cnt 0;
  frees = replicate obj_cnt 0;
  malloc_succeed = 0;
  malloc_failed = 0;
  free_cnt = 0;
  lowest_free = 2147483647;
}

-- `GetIndex`; `none` is -1.
unfoldable pub get_index : Pool → ℕ → Option ℕ
get_index p a =
    let offset = sub64 a p.base in
    if leb (p.obj_size * p.obj_cnt) offset
    then none
    else if offset % p.obj_size == 0
    then some (offset / p.obj_size)
    else none

abbrev pub set_elem {ℓ} : {A : Type ℓ} → ℕ → A → List A → List A
set_elem i a [] = []
set_elem zero a (x ∷ xs) = a ∷ xs
set_elem (suc i) a (x ∷ xs) = x ∷ set_elem i a xs

-- `++counts[i]`.
abbrev pub bump : ℕ → List ℕ → List ℕ
bump i [] = []
bump zero (x ∷ xs) = (x + 1) ∷ xs
bump (suc i) (x ∷ xs) = x ∷ bump i xs

-- `bitmap_[idx]` and what the two checks do with it; a stray index does not occur.
abbrev pub bit : List Bool → ℕ → Bool
bit [] i = false
bit (b ∷ bs) zero = b
bit (b ∷ bs) (suc i) = bit bs i

-- `MallocCheckAndSet` in its assertion, where the free list has been popped.
abbrev pub mark_used : Pool → Option ℕ → Run Pool
mark_used p none = aborted
mark_used p (some i) =
    if bit p.bitmap i
    then aborted
    else done (record p { bitmap = set_elem i true p.bitmap; mallocs = bump i p.mallocs })

abbrev pub counted : Pool → Pool
counted p = record p {
  malloc_succeed = p.malloc_succeed + 1;
  lowest_free = min (length p.free_list) p.lowest_free;
}

-- `Malloc`; `none` is a null pointer.
unfoldable pub malloc : Pool → Run (Pool × Option ℕ)
unfolding get_index
malloc p = elim p.free_list [
  | [] ↦ done (record p { malloc_failed = p.malloc_failed + 1 }, none)
  | a ∷ rest ↦ mark_used (counted (record p { free_list = rest })) (get_index p a) >>= λ p'.
      done (p', some a)
]

-- `FreeCheckAndSet` in its assertion.
abbrev pub mark_free : Pool → Option ℕ → Run Pool
mark_free p none = aborted
mark_free p (some i) =
    if bit p.bitmap i
    then done (record p { bitmap = set_elem i false p.bitmap; frees = bump i p.frees })
    else aborted

-- `Free`.
unfoldable pub free : ℕ → Pool → Run Pool
unfolding get_index
free a p = mark_free (record p { free_cnt = p.free_cnt + 1 }) (get_index p a) >>= λ p'.
    done (record p' { free_list = a ∷ p'.free_list })
