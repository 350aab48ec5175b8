-- ===== src/Commit.antt =====
-- `Tx::commit`, `Tx::write`, `Tx::writeMeta` and `Tx::rollback` of src/Bolt/tx.cc on the pages of a
-- write transaction, and `DB::grow`. The file is what stands at each page number; the memory map
-- shows the file. What the calls of the system do is a parameter: which writes go through whole,
-- what a write that does not leaves behind, and whether the file is synchronized and extended.
pub mod Apart
pub mod Keeps
pub mod Succeeds
pub mod Durable
use cbtree.Base.{
  ℕ, ◌+◌, ◌-◌, ◌*◌, ◌/◌, ◌%◌, leb, ltb, ◌==◌, if◌then◌else◌, Bool, true, false, not, ◌&&◌, ◌||◌,
  Option, none, some, List, [], ◌∷◌, map, u32, u64, Run, done, aborted, ◌>>=◌,
}
use cbtree.Base.Assoc.{insert}
use cbtree.Page.{Meta, Page}
use cbtree.FreeList.{FreeList}
use cbtree.FreeList
use cbtree.Meta
use cbtree.Meta.{zero_page}
use cbtree.TxPages.{TxPages, tx_allocate}

-- The page numbers that a page takes up.
abbrev pub covers : Page → ℕ → Bool
covers p i = leb p.id i && leb i (p.id + p.overflow)

-- The file after a write of `p` that goes through, and after one that does not and leaves `torn` in
-- the place of `p`. What stands behind the first page of `p` belongs to `p`.
abbrev pub write_page : Page → (ℕ → Page) → ℕ → Page
write_page p file i = if i == p.id then p else if covers p i then zero_page else file i

abbrev pub tear_page : (torn : ℕ → Page) → Page → (ℕ → Page) → ℕ → Page
tear_page torn p file i = if covers p i then torn i else file i

-- What the system does in a commit: `order` is what `std::sort` makes of the dirty pages, by
-- address.
pub record System : Type 0 where
  pub order : List Page → List Page
  pub goes_through : Page → Bool
  pub torn : ℕ → Page
  pub syncs_data : Bool
  pub syncs_meta : Bool
  pub truncates : Bool
  pub syncs_size : Bool
  pub remap : ℕ → Option ℕ
  pub fresh : Page

-- `noSync_`, `NoGrowSync_`, `readOnly_`, `AllocSize_`, `pageSize_`, `filesz_`, and the transaction.
pub record Commit : Type 0 where
  pub managed : Bool
  pub writable : Bool
  pub no_sync : Bool
  pub no_grow_sync : Bool
  pub read_only : Bool
  pub alloc_size : ℕ
  pub page_size : ℕ
  pub file_size : ℕ
  pub meta : Meta
  pub pages : TxPages

module _ (sys : System) where
  -- The loop of `Tx::write`.
  pub write_pages : List Page → (ℕ → Page) → (ℕ → Page) × Bool
  write_pages [] file = (file, true)
  write_pages (p ∷ ps) file =
      let later = write_pages ps (write_page p file) in
      if sys.goes_through p then later else (tear_page sys.torn p file, false)

  -- `Tx::write`.
  unfoldable pub write : Commit → Commit × Bool
  unfolding write_pages
  write c =
      let (file, ok) = write_pages (sys.order (map (λ e. e.1) c.pages.dirty)) c.pages.file in
      (
        record c { pages = record c.pages { dirty = []; file = file } },
        ok && (c.no_sync || sys.syncs_data),
      )

  -- `Tx::writeMeta`; `none` is a failed assertion of `meta::write`.
  unfoldable pub write_meta : Commit → Option (Commit × Bool)
  write_meta c = elim (Meta.write c.meta zero_page) [
    | none ↦ none
    | some p ↦
        let ok = sys.goes_through p in
        let file = if ok then write_page p c.pages.file else tear_page sys.torn p c.pages.file in
        some
          (record c { pages = record c.pages { file = file } }, ok && (c.no_sync || sys.syncs_meta))
  ]

  -- `DB::grow`.
  unfoldable pub grow : (sz : ℕ) → Commit → Commit × Bool
  grow sz c =
      let sz' =
        if leb c.pages.mapped c.alloc_size then c.pages.mapped else (sz + c.alloc_size) % u32 in
      let grown = record c { file_size = sz' } in
      if leb sz c.file_size
      then (c, true)
      else if c.no_grow_sync || c.read_only
      then (grown, true)
      else if not sys.truncates
      then (c, false)
      else if not sys.syncs_size
      then (c, false)
      else (grown, true)

  -- `Tx::rollback` in `commit`, which then returns -1.
  abbrev pub with_list : Commit → FreeList → Commit
  with_list c f = record c { pages = record c.pages { free_list = f } }

  unfoldable pub give_up : Commit → Run (Commit × ℕ)
  give_up c =
      elim (FreeList.reload (c.pages.file c.meta.free_list_page_number)
        (FreeList.rollback c.meta.txid c.pages.free_list)) [
          | none ↦ aborted
          | some f ↦ done (with_list c f, 1)
        ]

  -- The end of `commit`: the pages, then the meta.
  abbrev pub meta_written : Option (Commit × Bool) → Run (Commit × ℕ)
  meta_written none = aborted
  meta_written (some (c, true)) = done (c, 0)
  meta_written (some (c, false)) = give_up c

  abbrev pub pages_written : Commit × Bool → Run (Commit × ℕ)
  pages_written (c, true) = meta_written (write_meta c)
  pages_written (c, false) = give_up c

  abbrev pub grown_file : Commit × Bool → Run (Commit × ℕ)
  grown_file (c, true) = pages_written (write c)
  grown_file (c, false) = give_up c

  -- The file must grow where the number of pages has.
  abbrev pub grow_file : (total : ℕ) → Commit → Run (Commit × ℕ)
  grow_file total c = grown_file (
      if ltb total c.pages.total
      then grow ((c.pages.total + 1) * c.page_size % u32) c
      else (c, true))

  -- The free list goes to its new page, which is dirty.
  abbrev pub store_list : (total : ℕ) → Commit → TxPages × Option Page → Run (Commit × ℕ)
  store_list total c (s, none) = give_up (record c { pages = s })
  store_list total c (s, some p) = grow_file total (record c {
    pages = record s { dirty = insert p.id (FreeList.write s.free_list p) s.dirty };
    meta = record c.meta { free_list_page_number = p.id; total_page_number = s.total };
  })

  abbrev pub allocate_list : Commit → Run (Commit × ℕ)
  allocate_list c =
      tx_allocate c.page_size sys.remap (FreeList.size c.pages.free_list / 4096 + 1) sys.fresh
        c.pages
      >>= store_list c.pages.total c

  -- `commit` after the spill, with the new root page.
  unfoldable pub commit_spilled : (root : ℕ) → Commit → Run (Commit × ℕ)
  commit_spilled root c =
      FreeList.free c.meta.txid (c.pages.file c.meta.free_list_page_number) c.pages.free_list
      >>= λ f. allocate_list (
          with_list
            (record c { meta = record c.meta { root = record c.meta.root { root = root } } }) f)

  -- `commit`; `spill` stands for the rebalancing and spilling of the root bucket, which hands back
  -- the pages and the new root page, or nothing if it fails.
  unfoldable pub commit : (spill : TxPages → Run (TxPages × Option ℕ)) → Commit → Run (Commit × ℕ)
  unfolding commit_spilled
  commit spill c =
      let run = spill c.pages >>= λ r. elim r.1 [
        | none ↦ give_up (record c { pages = r.0 })
        | some root ↦ commit_spilled root (record c { pages = r.0 })
      ] in
      if c.managed then done (c, 1) else if not c.writable then done (c, 1) else run
