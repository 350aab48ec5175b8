-- ===== src/TxPages.antt =====
-- `DB::allocate` of src/Bolt/db.cc, and `Tx::allocate` and `Tx::getPage` of tx.cc: the pages that a
-- transaction sees, and the new ones that it gets. The memory of a new page is not cleared: `fresh`
-- is what stands in it. `DB::initMeta`, which maps the file anew, is a parameter: it gets the
-- length and returns the length that is mapped then, or nothing if it fails.
pub mod Allocate
use cbtree.Base.{
  ℕ, ◌+◌, ◌-◌, ◌*◌, ◌%◌, ◌^◌, u32, ◌&&◌, leb, ltb, ◌==◌, if◌then◌else◌, Bool, true, false, Option,
  none, some, List, Run, done, aborted, ◌>>=◌,
}
use cbtree.Base.Assoc.{lookup, insert}
use cbtree.Page.{Page}
use cbtree.FreeList.{FreeList}
use cbtree.FreeList

-- `totalPageNumber_` of the transaction's meta, `dirtyPageTable_`, the free list of the database,
-- `datasz_`, and `getPagePtr`.
pub record TxPages : Type 0 where
  pub total : ℕ
  pub dirty : List (ℕ × Page)
  pub free_list : FreeList
  pub mapped : ℕ
  pub file : ℕ → Page

-- `Tx::getPage`; `none` is a null pointer.
abbrev dirty_or : Page → Option Page → Page
dirty_or p none = p
dirty_or p (some q) = q

unfoldable pub get_page : TxPages → ℕ → Option Page
get_page s id = if leb s.total id then none else some (dirty_or (s.file id) (lookup id s.dirty))

module _ (page_size : ℕ) (remap : ℕ → Option ℕ) where
  -- The end of the file grows by `n` pages; `mapped` is what is mapped now.
  abbrev pub extend : (n : ℕ) (fresh : Page) → TxPages → Option ℕ → TxPages × Option Page
  extend n fresh s none = (s, none)
  extend n fresh s (some mapped) = (
    record s { total = s.total + n; mapped = mapped },
    some (record fresh { overflow = n - 1; id = s.total }),
  )

  -- `initMeta(minLen)` where the map is too short. `minLen` and `datasz_` are an `int`: a length
  -- that comes out negative is not above that of the map.
  abbrev pub mapped_for : (n : ℕ) → TxPages → Option ℕ
  mapped_for n s =
      let wanted = (s.total + n + 1) * page_size % u32 in
      if ltb wanted (2 ^ 31) && ltb s.mapped wanted then remap wanted else some s.mapped

  abbrev pub found_page : (n : ℕ) (fresh : Page) → TxPages → ℕ × FreeList → TxPages × Option Page
  found_page n fresh s (id, f) =
      if id == 0
      then extend n fresh (record s { free_list = f }) (mapped_for n s)
      else (record s { free_list = f }, some (record fresh { overflow = n - 1; id = id }))

  -- `DB::allocate`.
  unfoldable pub db_allocate : (n : ℕ) (fresh : Page) → TxPages → Run (TxPages × Option Page)
  db_allocate n fresh s =
      let found = FreeList.allocate n s.free_list >>= λ r. done (found_page n fresh s r) in
      if leb 0x1000 n then aborted else found

  -- `Tx::allocate`: the new page is dirty.
  abbrev pub keep_dirty : TxPages × Option Page → TxPages × Option Page
  keep_dirty (s, none) = (s, none)
  keep_dirty (s, some p) = (record s { dirty = insert p.id p s.dirty }, some p)

  unfoldable pub tx_allocate : (n : ℕ) (fresh : Page) → TxPages → Run (TxPages × Option Page)
  unfolding db_allocate
  tx_allocate n fresh s = db_allocate n fresh s >>= λ r. done (keep_dirty r)
