-- ===== src/Examples/Lists.antt =====
-- Runs of freeList.cc, `Tx::allocate` and obj_pool.h.
use cbtree.Base.{
  ℕ, ◌+◌, ◌*◌, ◌/◌, ◌≡◌, ◌≢◌, ◌≤◌, refl, leb, ltb, if◌then◌else◌, true, false, none, some, [], ◌∷◌,
  range, count, Returns, arith,
}
use cbtree.Base.Assoc.{lookup}
use cbtree.Base.Sort.{IsSorted}
use cbtree.Page.{Page, raw}
use cbtree.FreeList.{FreeList, flatten}
use cbtree.FreeList
use cbtree.FreeList.Runs.{IsIdList}
use cbtree.FreeList.Allocate.{Outcome, allocate-Outcome}
use cbtree.FreeList.Pending.{IsUnmarked, held, Freed, free_lem, free_twice, release_lem}
use cbtree.FreeList.Persist.{reload-write, write-fits, bytes_used}
use cbtree.TxPages.{TxPages, tx_allocate}
use cbtree.TxPages.Allocate.{Allocates, tx_allocate-Allocates}
use cbtree.Pool.{Pool, malloc, new_pool}
use cbtree.Pool.Slots.{IsPool, Mallocs, malloc_lem, new_pool-IsPool}

-- Pages 3, 4 and 6 are free; transaction 9 has freed page 8.
abbrev some_list : FreeList
some_list = record { ids = 3 ∷ 4 ∷ 6 ∷ []; pending = (9, 8 ∷ []) ∷ []; cache = [] }

abbrev some_page : Page
some_page = record { id = 10; flag = 0; count = 0; overflow = 1; body = raw }

some_list-IsSorted : IsSorted some_list.ids
some_list-IsSorted = (omega arith, (omega arith, (tt, tt)))

some_list-IsIdList : IsIdList some_list.ids
some_list-IsIdList = record {
  sorted = some_list-IsSorted;
  data_pages = (omega arith, (omega arith, (omega arith, tt)));
  small = (omega arith, (omega arith, (omega arith, tt)));
}

some_page-IsUnmarked : IsUnmarked 2 10 some_list.cache
some_page-IsUnmarked k a b e = ground arith

allocate-Outcome_example :
    Returns (FreeList.allocate 2 some_list) (λ r. Outcome 2 some_list r.0 r.1)
allocate-Outcome_example = allocate-Outcome 2 some_list (omega arith) some_list-IsIdList

release_lem_example :
    ((a : ℕ) → count a (held (FreeList.release 9 some_list)) ≡ count a (held some_list))
    × IsSorted (FreeList.release 9 some_list).ids
    × ((t : ℕ)
        → lookup t (FreeList.release 9 some_list).pending
          ≡ (if leb t 9 then none else lookup t some_list.pending))
release_lem_example = release_lem 9 some_list some_list-IsSorted

free_lem_example : Returns (FreeList.free 12 some_page some_list) (Freed 12 some_page some_list)
free_lem_example = free_lem 12 some_page some_list some_page-IsUnmarked

free_twice_example : Returns (FreeList.free 12 some_page some_list) (λ g.
    Returns
      (FreeList.free 12 some_page g)
      (λ h. (a : ℕ) → count a (held h) ≡ count a (held some_list) + 2 * count a (range 10 2)))
free_twice_example = free_twice 12 some_page some_list some_page-IsUnmarked

reload-write_example :
    (h : FreeList) × (FreeList.reload (FreeList.write some_list some_page) some_list ≡ some h)
    × (h.pending ≡ some_list.pending)
    × ((a : ℕ)
        → count a h.ids
          ≡ (if ltb 0 (count a (flatten some_list.pending)) then 0 else count a (held some_list)))
reload-write_example = reload-write some_list some_list some_page (omega arith)

some_list-counted : FreeList.count some_list ≢ 0
unfolding FreeList.count
some_list-counted e = ground arith

write-fits_example :
    bytes_used (FreeList.write some_list some_page) ≤ (FreeList.size some_list / 4096 + 1) * 4096
write-fits_example = write-fits some_list some_page (omega arith) some_list-counted

-- A file of ten pages, and a map that can grow to any length.
abbrev ten_pages : TxPages
ten_pages = record {
  total = 10;
  dirty = [];
  free_list = some_list;
  mapped = 40960;
  file = λ i. some_page;
}

tx_allocate-Allocates_example :
    Returns (tx_allocate 4096 (λ wanted. some wanted) 2 some_page ten_pages) (Allocates 2 ten_pages)
tx_allocate-Allocates_example =
    tx_allocate-Allocates 4096 (λ wanted. some wanted) 2 some_page ten_pages (omega arith)
      (omega arith) some_list-IsIdList

abbrev some_pool : Pool
some_pool = new_pool 4096 3 24

some_pool-IsPool : IsPool some_pool
some_pool-IsPool = new_pool-IsPool 4096 3 24 (omega arith) (omega arith)

malloc_lem_example : Mallocs some_pool (malloc some_pool)
malloc_lem_example = malloc_lem some_pool some_pool-IsPool

-- A pool whose object 0 is in use.
abbrev used_pool : Pool
used_pool = record {
  base = 4096;
  obj_cnt = 2;
  obj_size = 24;
  free_list = 4120 ∷ [];
  bitmap = true ∷ false ∷ [];
  mallocs = 1 ∷ 0 ∷ [];
  frees = 0 ∷ 0 ∷ [];
  malloc_succeed = 1;
  malloc_failed = 0;
  free_cnt = 0;
  lowest_free = 1;
}

used_pool-IsPool : IsPool used_pool
used_pool-IsPool = record {
  placed = record { sized = omega arith; inside = omega arith };
  mapped = refl;
  unused = ((1, omega arith, refl, refl), tt);
  distinct = (refl, tt);
}
