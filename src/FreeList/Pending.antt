-- ===== src/FreeList/Pending.antt =====
-- The pages that transactions have freed: `free`, `release` and `rollback` of freeList.cc, and the
-- multiset of the pages that the list holds.
use cbtree.Base.{
  ℕ, zero, suc, ◌+◌, ◌≤◌, ◌<◌, ◌≡◌, ◌≢◌, refl, leb, ◌==◌, if◌then◌else◌, Bool, true, false,
  Bool-cases, inl, inr, none, some, List, [], ◌∷◌, ◌++◌, arith, range, Run, done, aborted, Returns,
  Returns-map, ◌>>=◌, ◌∙◌, ◌↔◌, ◌*◌, append-nil, Option, count, count-append, append_assoc,
}
use cbtree.Base.Assoc.{lookup, insert, erase, lookup-insert, lookup-erase}
use cbtree.Base.Sort.{IsSorted, sort, count-sort, sort-IsSorted}
use cbtree.Page.{Page}
use cbtree.FreeList.{
  FreeList, flatten, pending_of, kept, released, release, rollback, free, free_loop, touch, touched,
  merge_ids,
}
use cbtree.FreeList.Merge.{count-merge_ids, merge_ids-IsSorted}

-- All pages that the list holds, free or pending.
abbrev pub held : FreeList → List ℕ
held f = f.ids ++ flatten f.pending

count-released-kept :
    (a t : ℕ) (m : List (ℕ × List ℕ))
    → count a (released t m) + count a (flatten (kept t m)) ≡ count a (flatten m)
unfolding released kept
count-released-kept a t [] = refl
count-released-kept a t ((j, ps) ∷ m) = ground (
  arith,
  count-released-kept a t m,
  count-append a ps (released t m),
  count-append a ps (flatten (kept t m)),
  count-append a ps (flatten m),
)

lookup-kept :
    (j t : ℕ) (m : List (ℕ × List ℕ)) → lookup j (kept t m) ≡ (if leb j t then none else lookup j m)
unfolding kept
lookup-kept j t [] = ground arith
lookup-kept j t ((i, ps) ∷ m) = ground (arith, lookup-kept j t m)

-- On a list whose free ids are in order, `release` loses no page and makes none up; the free ids
-- stay in order; and of the transactions it keeps exactly those above `txid`, with the pages they
-- had.
pub release_lem :
    (txid : ℕ) (f : FreeList)
    → IsSorted f.ids
    → ((a : ℕ) → count a (held (release txid f)) ≡ count a (held f))
      × IsSorted (release txid f).ids
      × ((t : ℕ)
          → lookup t (release txid f).pending ≡ (if leb t txid then none else lookup t f.pending))
unfolding release
release_lem txid f s = (
  λ a. omega (
    arith,
    count-append a (merge_ids [] (sort (released txid f.pending)) f.ids)
        (flatten (kept txid f.pending)),
    count-append a f.ids (flatten f.pending),
    count-merge_ids a [] (sort (released txid f.pending)) f.ids,
    count-sort a (released txid f.pending),
    count-released-kept a txid f.pending,
  ),
  merge_ids-IsSorted _ _ (sort-IsSorted (released txid f.pending)) s,
  λ t. lookup-kept t txid f.pending,
)

-- No page of the `n` from `id` on is marked in the cache.
abbrev pub IsUnmarked : (n id : ℕ) → List (ℕ × Bool) → Type 0
IsUnmarked n id cache = (k : ℕ) → id ≤ k → k < id + n → lookup k cache ≢ some true

touch-marked :
    (id k : ℕ) (cache : List (ℕ × Bool))
    → (lookup k (touch id cache).1 ≡ some true) ↔ (lookup k cache ≡ some true)
touch-marked id k cache = go (lookup id cache) refl
  where
    go :
        (o : Option Bool)
        → lookup id cache ≡ o
        → (lookup k (touched id cache o).1 ≡ some true) ↔ (lookup k cache ≡ some true)
    go none e = (
      λ h. ground (arith, lookup-insert k id false cache),
      λ h. ground (arith, lookup-insert k id false cache),
    )
    go (some b) e = (λ h. h, λ h. h)

touch-unmarked :
    (id : ℕ) (cache : List (ℕ × Bool)) → lookup id cache ≢ some true → (touch id cache).0 ≡ false
touch-unmarked id cache h = go (lookup id cache) h
  where
    go : (o : Option Bool) → o ≢ some true → (touched id cache o).0 ≡ false
    go none e = refl
    go (some true) e = absurd (e refl)
    go (some false) e = refl

-- The loop appends its pages, and what is marked stays what was marked.
abbrev FreeLoop :
    (n id : ℕ) (cache : List (ℕ × Bool)) (ids : List ℕ) → List (ℕ × Bool) × List ℕ → Type 0
FreeLoop n id cache ids r =
    (r.1 ≡ ids ++ range id n)
    × ((k : ℕ) → (lookup k r.0 ≡ some true) ↔ (lookup k cache ≡ some true))

free_loop_lem :
    (n id : ℕ) (cache : List (ℕ × Bool)) (ids : List ℕ)
    → IsUnmarked n id cache
    → Returns (free_loop n id cache ids) (FreeLoop n id cache ids)
unfolding free_loop
free_loop_lem zero id cache ids h = (rw (append-nil ids) refl, λ k. (λ e. e, λ e. e))
free_loop_lem (suc n) id cache ids h =
    rw (touch-unmarked id cache (h id (omega arith) (omega arith))) (
      Returns-map (FreeLoop n (id + 1) (touch id cache).1 (ids ++ id ∷ []))
        (FreeLoop (suc n) id cache ids) (free_loop n (id + 1) (touch id cache).1 (ids ++ id ∷ []))
        (λ r p. (
          p.0 ∙ append_assoc ids (id ∷ []) (range (id + 1) n),
          λ k. (
            λ e. (touch-marked id k cache).0 ((p.1 k).0 e),
            λ e. (p.1 k).1 ((touch-marked id k cache).1 e),
          ),
        ))
        (free_loop_lem n (id + 1) (touch id cache).1 (ids ++ id ∷ [])
          (λ k a b e. h k (omega arith) (omega arith) ((touch-marked id k cache).0 e))))

count-pending_insert :
    (a t : ℕ) (new : List ℕ) (m : List (ℕ × List ℕ))
    → count a (flatten (insert t (pending_of t m ++ new) m)) ≡ count a (flatten m) + count a new
count-pending_insert a t new [] = omega (arith, count-append a new [])
count-pending_insert a t new ((j, ps) ∷ m) = elim (Bool-cases (j == t)) [
  | inl same ↦ ground (
    arith,
    count-append a (ps ++ new) (flatten m),
    count-append a ps new,
    count-append a ps (flatten m),
  )
  | inr other ↦ ground (
    arith,
    count-pending_insert a t new m,
    count-append a ps (flatten m),
    count-append a ps (flatten (insert t (pending_of t m ++ new) m)),
  )
]

-- What `free` makes of the list.
pub record Freed (txid : ℕ) (p : Page) (f g : FreeList) : Type 0 where
  pub ids_kept : g.ids ≡ f.ids
  pub held_grown :
      (a : ℕ) → count a (held g) ≡ count a (held f) + count a (range p.id (suc p.overflow))
  pub pending_grown :
      g.pending ≡ insert txid (pending_of txid f.pending ++ range p.id (suc p.overflow)) f.pending
  pub marks_kept : (k : ℕ) → (lookup k g.cache ≡ some true) ↔ (lookup k f.cache ≡ some true)

free-Freed :
    (txid : ℕ) (p : Page) (f : FreeList) (r : List (ℕ × Bool) × List ℕ)
    → FreeLoop (suc p.overflow) p.id f.cache (pending_of txid f.pending) r
    → Freed txid p f (record f { cache = r.0; pending = insert txid r.1 f.pending })
free-Freed txid p f r h = record {
  ids_kept = refl;
  held_grown = λ a. rw h.0 (
      omega (
        arith,
        count-append a f.ids (
            flatten
              (insert txid (pending_of txid f.pending ++ range p.id (suc p.overflow)) f.pending)),
        count-append a f.ids (flatten f.pending),
        count-pending_insert a txid (range p.id (suc p.overflow)) f.pending,
      ));
  pending_grown = rw h.0 refl;
  marks_kept = h.1;
}

-- Where the cache marks none of its pages, `free` returns: the pages of `p`, overflow pages
-- included, are appended to those pending for `txid`, so the list holds each once more than it
-- did; the free ids are as they were, and so are the marks of the cache.
pub free_lem :
    (txid : ℕ) (p : Page) (f : FreeList)
    → IsUnmarked (suc p.overflow) p.id f.cache
    → Returns (free txid p f) (Freed txid p f)
unfolding free
free_lem txid p f h =
    bind (free_loop (suc p.overflow) p.id f.cache (pending_of txid f.pending))
      (free_loop_lem (suc p.overflow) p.id f.cache (pending_of txid f.pending) h)
  where
    bind :
        (m : Run (List (ℕ × Bool) × List ℕ))
        → Returns m (FreeLoop (suc p.overflow) p.id f.cache (pending_of txid f.pending))
        → Returns
            (m >>= λ r. done (record f { cache = r.0; pending = insert txid r.1 f.pending }))
            (Freed txid p f)
    bind (done r) e = free-Freed txid p f r e
    bind aborted e = e

free_loop_marked :
    (n id k : ℕ) (cache : List (ℕ × Bool)) (ids : List ℕ)
    → id ≤ k
    → k < id + n
    → lookup k cache ≡ some true
    → free_loop n id cache ids ≡ aborted
unfolding free_loop
free_loop_marked zero id k cache ids a b e = absurd (omega arith)
free_loop_marked (suc n) id k cache ids a b e = elim (Bool-cases (id == k)) [
  | inl same ↦ let same' : id ≡ k = ground arith in rw (same', e, touch) refl
  | inr other ↦ ground (
    arith,
    free_loop_marked n (id + 1) k (touch id cache).1 (ids ++ id ∷ []),
    (touch-marked id k cache).1 e,
  )
]

-- If the cache marks one of the pages, `free` ends the process.
pub free_marked :
    (txid k : ℕ) (p : Page) (f : FreeList)
    → p.id ≤ k
    → k ≤ p.id + p.overflow
    → lookup k f.cache ≡ some true
    → free txid p f ≡ aborted
unfolding free
free_marked txid k p f a b e =
    rw
      (free_loop_marked (suc p.overflow) p.id k f.cache (pending_of txid f.pending) a (omega arith)
        e)
      refl

-- Where the cache marks none of the pages of `p`, `free` of `p` returns, and a second `free` of
-- the same page returns too; the list then holds each of its pages two times more than before.
pub free_twice :
    (txid : ℕ) (p : Page) (f : FreeList)
    → IsUnmarked (suc p.overflow) p.id f.cache
    → Returns (free txid p f) (λ g. Returns (free txid p g) (λ h.
      (a : ℕ) → count a (held h) ≡ count a (held f) + 2 * count a (range p.id (suc p.overflow))))
free_twice txid p f u =
    Returns-map (Freed txid p f) _ (free txid p f)
      (λ g first.
        Returns-map (Freed txid p g) _ (free txid p g)
          (λ h second a. omega (arith, first.held_grown a, second.held_grown a))
          (free_lem txid p g (λ k b c e. u k b c ((first.marks_kept k).0 e))))
      (free_lem txid p f u)

lookup-insert-erase :
    (t u : ℕ) (v : List ℕ) (m : List (ℕ × List ℕ))
    → lookup u m ≡ none
    → lookup t (erase u (insert u v m)) ≡ lookup t m
lookup-insert-erase t u v m h =
    rw (lookup-erase t u (insert u v m), lookup-insert t u v m) (split (u == t) refl)
  where
    split :
        (b : Bool)
        → (u == t) ≡ b
        → (if b then none else (if b then some v else lookup t m)) ≡ lookup t m
    split true e = let same : u ≡ t = ground arith in rw (← same) (rw h refl)
    split false e = refl

-- A transaction that had freed nothing before, and a page none of whose pages the cache marks:
-- `free` returns, and rolling the transaction back after it leaves the free ids and the pending
-- pages of every transaction as they were before the `free`.
pub rollback-free :
    (txid : ℕ) (p : Page) (f : FreeList)
    → IsUnmarked (suc p.overflow) p.id f.cache
    → lookup txid f.pending ≡ none
    → Returns (free txid p f) (λ g.
      ((rollback txid g).ids ≡ f.ids)
      × ((t : ℕ) → lookup t (rollback txid g).pending ≡ lookup t f.pending))
unfolding rollback
rollback-free txid p f u h =
    Returns-map (Freed txid p f) _ (free txid p f)
      (λ g freed.
        (freed.ids_kept, λ t. rw freed.pending_grown (lookup-insert-erase t txid _ f.pending h)))
      (free_lem txid p f u)
