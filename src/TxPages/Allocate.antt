-- ===== src/TxPages/Allocate.antt =====
-- What `Tx::allocate` of tx.cc gives to a transaction.
use cbtree.Base.{
  ℕ, ◌+◌, ◌≤◌, ◌<◌, ◌≡◌, ◌⊎◌, ◌++◌, refl, leb, ◌==◌, true, false, inl, inr, Option, none, some,
  List, Run, done, aborted, ◌>>=◌, Returns, range, arith,
}
use cbtree.Base.Assoc.{insert, lookup-insert}
use cbtree.Page.{Page}
use cbtree.FreeList.{FreeList}
use cbtree.FreeList
use cbtree.FreeList.Runs.{IsIdList}
use cbtree.FreeList.Allocate.{Outcome, allocate-Outcome}
use cbtree.TxPages.{
  TxPages, get_page, db_allocate, tx_allocate, found_page, extend, mapped_for, keep_dirty,
}

-- The pages of `p`: a run that was in the free list of `s` and has left it, or pages behind the end
-- of the file, which has grown by them.
abbrev pub ComesFrom : (n : ℕ) (s s' : TxPages) (p : Page) → Type 0
ComesFrom n s s' p =
    ((front : List ℕ) × (back : List ℕ) × (s.free_list.ids ≡ front ++ (range p.id n ++ back))
      × (s'.free_list.ids ≡ front ++ back)
      × (s'.total ≡ s.total))
    ⊎ ((p.id ≡ s.total) × (s'.total ≡ s.total + n) × (s'.free_list ≡ s.free_list))

-- What an allocation makes of the pages of a transaction.
abbrev pub Allocates : (n : ℕ) (s : TxPages) → TxPages × Option Page → Type 0
Allocates n s (s', none) =
    (s'.dirty ≡ s.dirty) × (s'.total ≡ s.total) × (s'.free_list ≡ s.free_list) × (s'.file ≡ s.file)
Allocates n s (s', some p) =
    ComesFrom n s s' p
    × (p.overflow + 1 ≡ n)
    × (s'.dirty ≡ insert p.id p s.dirty)
    × (s'.file ≡ s.file)

module _ (page_size : ℕ) (remap : ℕ → Option ℕ) (n : ℕ) (fresh : Page) (s : TxPages)
    (some_pages : 1 ≤ n) where
  extended :
      (g : FreeList) (o : Option ℕ)
      → g ≡ s.free_list
      → Allocates n s (
          keep_dirty page_size remap
            (extend page_size remap n fresh (record s { free_list = g }) o))
  extended g none e = (refl, refl, e, refl)
  extended g (some mapped) e = (inr (refl, refl, e), omega arith, refl, refl)

  found-Allocates :
      (r : ℕ × FreeList)
      → Outcome n s.free_list r.0 r.1
      → Allocates n s (keep_dirty page_size remap (found_page page_size remap n fresh s r))
  found-Allocates (id, g) (Outcome.none_left no_page same short) =
      rw no_page (extended g (mapped_for page_size remap n s) same)
  found-Allocates (id, g) (Outcome.taken front back data_page whole rest kept) =
      let given : (id == 0) ≡ false = ground arith in
      rw given (inl (front, back, whole, rest, refl), omega arith, refl, refl)

  bind :
      (m : Run (ℕ × FreeList))
      → Returns m (λ r. Outcome n s.free_list r.0 r.1)
      → Returns
          ((m >>= λ r. done (found_page page_size remap n fresh s r)) >>= λ q.
            done (keep_dirty page_size remap q))
          (Allocates n s)
  bind (done r) o = found-Allocates r o
  bind aborted o = o

  -- `Tx::allocate` of at least one and fewer than 0x1000 pages, where the free ids are in order and
  -- those of data pages, however mapping the file anew ends: it returns, and the pages in the file
  -- are as they were. If it returns a null pointer, the dirty pages, the number of pages and the
  -- free list are what they were. If it returns a page, its pages are a run of that length that was
  -- in the free list and has left it, or follow the last page of the file, which has grown by them;
  -- its overflow count says how many they are; and the dirty pages are those from before with this
  -- one under its id.
  pub tx_allocate-Allocates :
      n < 0x1000
      → IsIdList s.free_list.ids
      → Returns (tx_allocate page_size remap n fresh s) (Allocates n s)
  unfolding tx_allocate db_allocate
  tx_allocate-Allocates few v =
      let room : leb 0x1000 n ≡ false = ground arith in
      rw room (bind (FreeList.allocate n s.free_list) (allocate-Outcome n s.free_list some_pages v))

  -- A page that `Tx::allocate` has returned and that lies inside the file is what `getPage` returns
  -- for its id from then on.
  get_page-allocated :
      (s' : TxPages) (p : Page)
      → Allocates n s (s', some p)
      → p.id < s'.total
      → get_page s' p.id ≡ some p
  unfolding get_page
  get_page-allocated s' p (from, size, dirty, same_file) inside =
      let there : leb s'.total p.id ≡ false = ground arith in
      let self : (p.id == p.id) ≡ true = ground arith in
      rw (there, dirty, lookup-insert p.id p.id p s.dirty, self) refl
