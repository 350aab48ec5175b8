-- ===== src/FreeList/Persist.antt =====
-- The list on its pages: `write`, `read`, `reload` and `reindex` of freeList.cc.
use cbtree.Base.{
  ℕ, ◌+◌, ◌*◌, ◌/◌, ◌%◌, ◌≤◌, ◌<◌, ◌≡◌, ◌∙◌, sym, refl, ap, ltb, ◌==◌, if◌then◌else◌, Bool, true,
  Bool-cases, inl, inr, ◌≢◌, none, some, List, [], ◌∷◌, arith, length, length-append, count,
  count-append, append-nil, u32, ◌^◌, take, take-length_append,
}
use cbtree.Base.Assoc.{lookup, insert, lookup-insert}
use cbtree.Base.Sort.{IsSorted, SameItems, sort, sort-IsSorted, count-sort, length-sort}
use cbtree.Page.{Page, id_array}
use cbtree.FreeList.{
  FreeList, flatten, sum_sizes, free_count, pending_count, copyall, size, mark_all, reindex, read,
  read_ids, write, reload, without, page_words,
}
use cbtree.FreeList
use cbtree.FreeList.Merge.{count-merge_ids, merge_ids-IsSorted, length-merge_ids}
use cbtree.FreeList.Pending.{held}

sum_sizes-flatten :
    (m : List (ℕ × List ℕ)) (r : ℕ)
    → r + length (flatten m) < u32
    → sum_sizes m r ≡ r + length (flatten m)
unfolding sum_sizes
sum_sizes-flatten [] r h = omega arith
sum_sizes-flatten ((t, ps) ∷ m) r h =
    let l = length-append ps (flatten m) in
    let e : (r + length ps) % u32 ≡ r + length ps = omega (arith, l) in
    rw e (omega (arith, l, sum_sizes-flatten m (r + length ps) (omega (arith, l))))

-- As long as it fits 32 bits, the count is that of the pages that the list holds.
pub count-held : (f : FreeList) → length (held f) < u32 → FreeList.count f ≡ length (held f)
unfolding FreeList.count free_count pending_count
count-held f h =
    let l = length-append f.ids (flatten f.pending) in
    rw (sum_sizes-flatten f.pending 0 (omega (arith, l))) (omega (arith, l))

length-copyall : (f : FreeList) → length (copyall f []) ≡ length (held f)
unfolding copyall
length-copyall f = omega (
  arith,
  length-merge_ids (sort (flatten f.pending)) f.ids,
  length-sort (flatten f.pending),
  length-append f.ids (flatten f.pending),
)

copyall-SameItems : (f : FreeList) → SameItems (copyall f []) (held f)
unfolding copyall
copyall-SameItems f a = omega (
  arith,
  count-merge_ids a [] (sort (flatten f.pending)) f.ids,
  count-sort a (flatten f.pending),
  count-append a f.ids (flatten f.pending),
)

copyall-IsSorted : (f : FreeList) → IsSorted f.ids → IsSorted (copyall f [])
unfolding copyall
copyall-IsSorted f s = merge_ids-IsSorted _ f.ids (sort-IsSorted (flatten f.pending)) s

read_ids-all : (xs : List ℕ) (n : ℕ) → length xs ≡ n → read_ids n 0 xs ≡ some xs
read_ids-all xs n h = ground (arith, take_all)
  where
    take_all : take n xs ≡ xs
    take_all = ap (take n) (sym (append-nil xs)) ∙ take-length_append n xs [] h

read_ids-behind : (w : ℕ) (xs : List ℕ) (n : ℕ) → length xs ≡ n → read_ids n 1 (w ∷ xs) ≡ some xs
read_ids-behind w xs n h = ground (arith, take_all)
  where
    take_all : take n xs ≡ xs
    take_all = ap (take n) (sym (append-nil xs)) ∙ take-length_append n xs [] h

nil_of_length : (xs : List ℕ) → length xs ≡ 0 → xs ≡ []
nil_of_length [] h = refl
nil_of_length (x ∷ xs) h = absurd (omega arith)

-- `read` of a page whose count field holds the count, and of one whose first word does.
read_short :
    (p : Page) (g : FreeList) (xs : List ℕ)
    → p.count ≡ length xs
    → p.count ≢ 0
    → p.count < 0xffff
    → p.body ≡ id_array xs
    → read p g ≡ some (reindex (record g { ids = sort xs }))
unfolding read
read_short p g xs e some_held short b = rw b (ground (arith, read_ids-all xs p.count (sym e)))

read_long :
    (p : Page) (g : FreeList) (xs : List ℕ)
    → p.count ≡ 0xffff
    → p.body ≡ id_array (length xs ∷ xs)
    → read p g ≡ some (reindex (record g { ids = sort xs }))
unfolding read
read_long p g xs e b = rw b (ground (arith, read_ids-behind (length xs) xs (length xs) refl))

read_none :
    (p : Page) (g : FreeList) → p.count ≡ 0 → read p g ≡ some (reindex (record g { ids = [] }))
unfolding read
read_none p g e = ground arith

module _ (f g : FreeList) (p : Page) (fits : length (held f) < u32) where
  -- `read` of what `write` has written, on each of its three branches.
  read-write_sorted : read (write f p) g ≡ some (reindex (record g { ids = sort (copyall f []) }))
  unfolding write sort
  read-write_sorted =
      let n = FreeList.count f in
      let l : length (copyall f []) ≡ n = length-copyall f ∙ sym (count-held f fits) in
      elim (Bool-cases (n == 0)) [
        | inl none_held ↦
            rw none_held (rw (nil_of_length (copyall f []) (ground arith)) (read_none _ g refl))
        | inr held_some ↦ elim (Bool-cases (ltb n 0xffff)) [
          | inl short ↦
              rw (held_some, short)
                (read_short _ g (copyall f []) (sym l) (ground arith) (ground arith) refl)
          | inr long ↦ rw (held_some, long, ← l) (read_long _ g (copyall f []) refl refl)
        ]
      ]

-- What `read` recovers from a page that `write` filled from a list whose free ids are in order: as
-- long as the count fits 32 bits, it returns, its ids are in order, and they are all pages that
-- the written list held, pending ones included, each as often; the pending pages of the reader are
-- as they were.
pub read-write :
    (f g : FreeList) (p : Page)
    → length (held f) < u32
    → IsSorted f.ids
    → (h : FreeList) × (read (write f p) g ≡ some h)
      × IsSorted h.ids
      × SameItems h.ids (held f)
      × (h.pending ≡ g.pending)
unfolding reindex
read-write f g p fits s = (
  reindex (record g { ids = sort (copyall f []) }),
  read-write_sorted f g p fits,
  sort-IsSorted (copyall f []),
  λ a. count-sort a (copyall f []) ∙ copyall-SameItems f a,
  refl,
)

lookup-mark_all :
    (k : ℕ) (ps : List ℕ) (c : List (ℕ × Bool))
    → lookup k (mark_all ps c) ≡ (if ltb 0 (count k ps) then some true else lookup k c)
unfolding mark_all
lookup-mark_all k [] c = refl
lookup-mark_all k (p ∷ ps) c =
    ground (arith, lookup-mark_all k ps (insert p true c), lookup-insert k p true c)

-- After `reindex` the cache marks exactly the pages that the list holds.
pub reindex_lem :
    (f : FreeList) (k : ℕ)
    → lookup k (reindex f).cache ≡ (if ltb 0 (count k (held f)) then some true else none)
unfolding reindex
reindex_lem f k = ground (
  arith,
  lookup-mark_all k (flatten f.pending) (mark_all f.ids []),
  lookup-mark_all k f.ids [],
  count-append k f.ids (flatten f.pending),
)

count-without :
    (a : ℕ) (m : List (ℕ × Bool)) (xs : List ℕ)
    → count a (without m xs) ≡ (elim (lookup a m) [ none ↦ count a xs | some b ↦ 0 ])
unfolding without
count-without a m [] = ground arith
count-without a m (x ∷ xs) = elim (Bool-cases (x == a)) [
  | inl same ↦ let same' : x ≡ a = ground arith in rw same' (ground (arith, count-without a m xs))
  | inr other ↦ ground (arith, count-without a m xs)
]

-- Reloading a page that `write` filled from a list of fewer than 2 ^ 32 pages: it returns, and of
-- the pages that the written list held the free ids are those, each as often, that are not pending
-- in the list that reloads; what is pending there stays.
pub reload-write :
    (f g : FreeList) (p : Page)
    → length (held f) < u32
    → (h : FreeList) × (reload (write f p) g ≡ some h)
      × (h.pending ≡ g.pending)
      × ((a : ℕ)
          → count a h.ids ≡ (if ltb 0 (count a (flatten g.pending)) then 0 else count a (held f)))
unfolding reload reindex
reload-write f g p fits = (
  reindex (record g { ids = without (mark_all (flatten g.pending) []) (sort (copyall f [])) }),
  rw (read-write_sorted f g p fits) refl,
  refl,
  λ a. ground (
    arith,
    count-without a (mark_all (flatten g.pending) []) (sort (copyall f [])),
    lookup-mark_all a (flatten g.pending) [],
    count-sort a (copyall f []),
    copyall-SameItems f a,
  ),
)

-- The bytes from a page's start to the end of its array of ids.
abbrev pub bytes_used : Page → ℕ
bytes_used p = elim (page_words p.body) [ none ↦ 16 | some words ↦ 16 + 8 * length words ]

-- `write` of a list of at least one and fewer than 2 ^ 28 pages stays inside the pages that
-- `commit` allocates for it from `size`.
pub write-fits :
    (f : FreeList) (p : Page)
    → length (held f) < 2 ^ 28
    → FreeList.count f ≢ 0
    → bytes_used (write f p) ≤ (size f / 4096 + 1) * 4096
unfolding write size
write-fits f p h e =
    let n = FreeList.count f in
    let l : length (copyall f []) ≡ n = length-copyall f ∙ sym (count-held f (omega arith)) in
    let c = count-held f (omega arith) in
    elim (Bool-cases (ltb n 0xffff)) [ inl short ↦ ground arith | inr long ↦ ground arith ]
