-- ===== src/Commit/Succeeds.antt =====
-- `Tx::commit` of tx.cc when every call of the system succeeds.
use cbtree.Base.{
  ℕ, ◌+◌, ◌*◌, ◌/◌, ◌%◌, ◌<◌, ◌≡◌, refl, ltb, leb, ◌==◌, if◌then◌else◌, Bool, true, false, ◌||◌,
  Bool-cases, inl, inr, some, List, [], ◌∷◌, map, u32, done, Returns, arith,
}
use cbtree.Base.Assoc.{insert}
use cbtree.Page.{Meta, Page, meta, meta_page_flag}
use cbtree.FreeList.{FreeList}
use cbtree.FreeList
use cbtree.Meta
use cbtree.Meta.{zero_page}
use cbtree.TxPages.{TxPages, tx_allocate}
use cbtree.Commit.{
  System, Commit, write_page, write_pages, write, write_meta, grow, meta_written, pages_written,
  grow_file, commit_spilled,
}

-- No call fails.
pub record Works (sys : System) : Type 0 where
  pub goes_through : (p : Page) → sys.goes_through p ≡ true
  pub syncs_data : sys.syncs_data ≡ true
  pub syncs_meta : sys.syncs_meta ≡ true
  pub truncates : sys.truncates ≡ true
  pub syncs_size : sys.syncs_size ≡ true

pub or_true : (b : Bool) → (b || true) ≡ true
or_true true = refl
or_true false = refl

module _ (sys : System) (v : Works sys) where
  pub write_pages-true : (ps : List Page) (file : ℕ → Page) → (write_pages sys ps file).1 ≡ true
  unfolding write_pages
  write_pages-true [] file = refl
  write_pages-true (p ∷ ps) file = rw (v.goes_through p) (write_pages-true ps (write_page p file))

  -- The meta `m` stands on its page, behind the header of a meta page.
  abbrev pub ShowsMeta : Meta → (ℕ → Page) → Type 0
  ShowsMeta m file = (file (m.txid % 2)).body ≡ meta (record m { checksum = 0 })

  -- The commit ends with the status 0, the meta `m`, and the file showing it.
  abbrev pub Committed : Meta → Commit × ℕ → Type 0
  Committed m (c, status) =
      (status ≡ 0) × (c.meta ≡ m) × ShowsMeta m c.pages.file × (c.pages.dirty ≡ [])

  meta_written-Committed :
      (c : Commit)
      → c.meta.root.root < c.meta.total_page_number
      → c.meta.free_list_page_number < c.meta.total_page_number
      → c.pages.dirty ≡ []
      → Returns (meta_written sys (write_meta sys c)) (Committed c.meta)
  unfolding write_meta Meta.write
  meta_written-Committed c root list clean =
      let root_ok : leb c.meta.total_page_number c.meta.root.root ≡ false = ground arith in
      let list_ok : leb c.meta.total_page_number c.meta.free_list_page_number ≡ false =
        ground arith in
      let p : Page = record zero_page {
        id = c.meta.txid % 2;
        flag = meta_page_flag;
        body = meta (record c.meta { checksum = 0 });
      } in
      let own : (c.meta.txid % 2 == c.meta.txid % 2) ≡ true = ground arith in
      let synced : (c.no_sync || sys.syncs_meta) ≡ true = rw v.syncs_meta (or_true c.no_sync) in
      rw (write_meta, root_ok, list_ok, v.goes_through p, synced, own) (refl, refl, refl, clean)

  pages_written-Committed :
      (c : Commit)
      → c.meta.root.root < c.meta.total_page_number
      → c.meta.free_list_page_number < c.meta.total_page_number
      → Returns (pages_written sys (write sys c)) (Committed c.meta)
  unfolding write
  pages_written-Committed c root list =
      let file = write_pages sys (sys.order (map (λ e. e.1) c.pages.dirty)) c.pages.file in
      let synced : (c.no_sync || sys.syncs_data) ≡ true = rw v.syncs_data (or_true c.no_sync) in
      rw (write_pages-true (sys.order (map (λ e. e.1) c.pages.dirty)) c.pages.file, synced)
        (meta_written-Committed (record c { pages = record c.pages { dirty = []; file = file.0 } })
          root list refl)

  pub grow_lem :
      (sz : ℕ) (c : Commit) → (size : ℕ) × (grow sys sz c ≡ (record c { file_size = size }, true))
  unfolding grow
  grow_lem sz c =
      let size =
        if leb c.pages.mapped c.alloc_size then c.pages.mapped else (sz + c.alloc_size) % u32 in
      elim (Bool-cases (leb sz c.file_size)) [
        | inl fits ↦ (c.file_size, rw fits refl)
        | inr short ↦ elim (Bool-cases (c.no_grow_sync || c.read_only)) [
          | inl lazy ↦ (size, rw (short, lazy) refl)
          | inr eager ↦ (size, rw (short, eager, v.truncates, v.syncs_size) refl)
        ]
      ]

  grow_file-Committed :
      (total : ℕ) (c : Commit)
      → c.meta.root.root < c.meta.total_page_number
      → c.meta.free_list_page_number < c.meta.total_page_number
      → Returns (grow_file sys total c) (Committed c.meta)
  grow_file-Committed total c root list = elim (Bool-cases (ltb total c.pages.total)) [
    | inl more ↦
        let (size, e) = grow_lem ((c.pages.total + 1) * c.page_size % u32) c in
        rw (more, e) (pages_written-Committed (record c { file_size = size }) root list)
    | inr enough ↦ rw enough (pages_written-Committed c root list)
  ]

  -- The meta that a commit writes.
  abbrev pub new_meta : (root : ℕ) → Commit → TxPages → Page → Meta
  new_meta root c s p = record c.meta {
    root = record c.meta.root { root = root };
    free_list_page_number = p.id;
    total_page_number = s.total;
  }

  -- `commit` after the spill, where no call of the system fails, the page of the old free list can
  -- be freed, a page is found for the new one, and that page and the root page are inside the
  -- file: it returns 0; the transaction's meta names the new root page, the page of the new free
  -- list and the new number of pages; the file shows this meta, with the checksum 0, on the page
  -- with the parity of the transaction id; and no page is dirty any more.
  pub commit_spilled-Committed :
      (root : ℕ) (c : Commit) (f : FreeList) (s : TxPages) (p : Page)
      → FreeList.free c.meta.txid (c.pages.file c.meta.free_list_page_number) c.pages.free_list
        ≡ done f
      → tx_allocate c.page_size sys.remap
          (FreeList.size f / 4096 + 1)
          sys.fresh
          (record c.pages { free_list = f })
        ≡ done (s, some p)
      → root < s.total
      → p.id < s.total
      → Returns (commit_spilled sys root c) (Committed (new_meta root c s p))
  unfolding commit_spilled
  commit_spilled-Committed root c f s p freed given inside list_inside =
      rw (freed, given)
        (grow_file-Committed c.pages.total
          (record c {
            pages = record s { dirty = insert p.id (FreeList.write s.free_list p) s.dirty };
            meta = new_meta root c s p;
          })
          inside list_inside)
