-- ===== src/Commit/Durable.antt =====
-- What the file shows after `Tx::commit` of tx.cc when every call of the system succeeds.
use cbtree.Base.{
  ℕ, ◌+◌, ◌*◌, ◌/◌, ◌%◌, ◌≤◌, ◌<◌, ◌≡◌, ◌⊎◌, refl, ◌∙◌, subst, ltb, leb, ◌==◌, true, false, ◌||◌,
  Bool-cases, inl, inr, some, List, [], ◌∷◌, All, map, count, u32, done, Returns, arith,
}
use cbtree.Base.Assoc.{lookup, insert, lookup-insert}
use cbtree.Page.{Page, meta, meta_page_flag}
use cbtree.FreeList.{FreeList}
use cbtree.FreeList
use cbtree.FreeList.Runs.{IsIdList}
use cbtree.Meta
use cbtree.Meta.{zero_page}
use cbtree.TxPages.{TxPages, tx_allocate}
use cbtree.TxPages.Allocate.{Allocates, tx_allocate-Allocates}
use cbtree.Commit.{
  System, Commit, covers, write_page, write_pages, write, write_meta, meta_written, pages_written,
  grow_file, commit_spilled,
}
use cbtree.Commit.Apart.{Avoids, IsApart, All-insert, ComesFrom-Avoids}
use cbtree.Commit.Keeps.{Sorts}
use cbtree.Commit.Succeeds.{Works, or_true, write_pages-true, grow_lem}

-- The page is in the list.
abbrev pub Has : Page → List Page → Type 0
Has q [] = ⊥
Has q (p ∷ ps) = (p ≡ q) ⊎ Has q ps

-- `p` is the page `q`, or takes up another place.
abbrev pub IsAside : Page → Page → Type 0
IsAside q p = (p ≡ q) ⊎ (covers p q.id ≡ false)

covers-own : (p : Page) → covers p p.id ≡ true
covers-own p = ground arith

write_page-aside :
    (q p : Page) (file : ℕ → Page) → covers p q.id ≡ false → write_page p file q.id ≡ file q.id
write_page-aside q p file c =
    let other : (q.id == p.id) ≡ false = ground arith in rw (other, c) refl

write_page-own : (q : Page) (file : ℕ → Page) → write_page q file q.id ≡ q
write_page-own q file = let own : (q.id == q.id) ≡ true = ground arith in rw own refl

Has-lookup :
    (k : ℕ) (q : Page) (m : List (ℕ × Page)) → lookup k m ≡ some q → Has q (map (λ e. e.1) m)
Has-lookup k q [] e = absurd (ground arith)
Has-lookup k q ((j, p) ∷ m) e = elim (Bool-cases (j == k)) [
  | inl hit ↦ inl (ground (arith, e, hit))
  | inr miss ↦ inr (Has-lookup k q m (rw miss at e))
]

All-values :
    (P : Page → Type 0) (m : List (ℕ × Page)) → All (λ e. P e.1) m → All P (map (λ e. e.1) m)
All-values P [] a = tt
All-values P (e ∷ m) (p, a) = (p, All-values P m a)

module _ (sys : System) (v : Works sys) (q : Page) where
  write_pages-shows :
      (ps : List Page) (file : ℕ → Page)
      → All (IsAside q) ps
      → (file q.id ≡ q) ⊎ Has q ps
      → (write_pages sys ps file).0 q.id ≡ q
  unfolding write_pages
  write_pages-shows [] file a (inl e) = e
  write_pages-shows [] file a (inr h) = absurd h
  write_pages-shows (p ∷ ps) file (inl own, a) h =
      rw (v.goes_through p)
        (write_pages-shows ps (write_page p file) a (inl (rw own (write_page-own q file))))
  write_pages-shows (p ∷ ps) file (inr aside, a) (inl e) =
      rw (v.goes_through p)
        (write_pages-shows ps (write_page p file) a (inl (write_page-aside q p file aside ∙ e)))
  write_pages-shows (p ∷ ps) file (inr aside, a) (inr (inl own)) =
      let both : covers q q.id ≡ false = subst (λ x. covers x q.id ≡ false) own aside in
      absurd (ground (arith, covers-own q, both))
  write_pages-shows (p ∷ ps) file (inr aside, a) (inr (inr h)) =
      rw (v.goes_through p) (write_pages-shows ps (write_page p file) a (inr h))

  abbrev pub Shows : Commit × ℕ → Type 0
  Shows (c, status) = c.pages.file q.id ≡ q

  module _ (data_page : 2 ≤ q.id) where
    meta_written-Shows :
        (c : Commit)
        → c.meta.root.root < c.meta.total_page_number
        → c.meta.free_list_page_number < c.meta.total_page_number
        → c.pages.file q.id ≡ q
        → Returns (meta_written sys (write_meta sys c)) Shows
    unfolding write_meta Meta.write
    meta_written-Shows c root list shown =
        let root_ok : leb c.meta.total_page_number c.meta.root.root ≡ false = ground arith in
        let list_ok : leb c.meta.total_page_number c.meta.free_list_page_number ≡ false =
          ground arith in
        let p : Page = record zero_page {
          id = c.meta.txid % 2;
          flag = meta_page_flag;
          body = meta (record c.meta { checksum = 0 });
        } in
        let synced : (c.no_sync || sys.syncs_meta) ≡ true = rw v.syncs_meta (or_true c.no_sync) in
        let below : c.meta.txid % 2 < 2 = omega arith in
        let aside : covers p q.id ≡ false = ground (arith, below, data_page) in
        rw (write_meta, root_ok, list_ok, v.goes_through p, synced)
          (write_page-aside q p c.pages.file aside ∙ shown)

    module _ (sorts : Sorts sys.order)
        (keeps : (ps : List Page) → Has q ps → Has q (sys.order ps)) where
      pages_written-Shows :
          (c : Commit)
          → c.meta.root.root < c.meta.total_page_number
          → c.meta.free_list_page_number < c.meta.total_page_number
          → All (λ e. IsAside q e.1) c.pages.dirty
          → lookup q.id c.pages.dirty ≡ some q
          → Returns (pages_written sys (write sys c)) Shows
      unfolding write
      pages_written-Shows c root list aside there =
          let ps = map (λ e. e.1) c.pages.dirty in
          let file = write_pages sys (sys.order ps) c.pages.file in
          let synced : (c.no_sync || sys.syncs_data) ≡ true = rw v.syncs_data (or_true c.no_sync) in
          let shown =
            write_pages-shows (sys.order ps) c.pages.file
              (sorts (IsAside q) ps (All-values (IsAside q) c.pages.dirty aside))
              (inr (keeps ps (Has-lookup q.id q c.pages.dirty there))) in
          rw (write_pages-true sys v (sys.order ps) c.pages.file, synced)
            (meta_written-Shows (record c { pages = record c.pages { dirty = []; file = file.0 } })
              root list shown)

      grow_file-Shows :
          (total : ℕ) (c : Commit)
          → c.meta.root.root < c.meta.total_page_number
          → c.meta.free_list_page_number < c.meta.total_page_number
          → All (λ e. IsAside q e.1) c.pages.dirty
          → lookup q.id c.pages.dirty ≡ some q
          → Returns (grow_file sys total c) Shows
      grow_file-Shows total c root list aside there = elim (Bool-cases (ltb total c.pages.total)) [
        | inl more ↦
            let (size, e) = grow_lem sys v ((c.pages.total + 1) * c.page_size % u32) c in
            rw (more, e) (pages_written-Shows (record c { file_size = size }) root list aside there)
        | inr enough ↦ rw enough (pages_written-Shows c root list aside there)
      ]

      -- The page of the new free list stands aside of a page inside the file that is not free.
      list_page-aside :
          (n : ℕ) (s s' : TxPages) (p : Page) (f : FreeList)
          → Allocates n s (s', some p)
          → q.id < s.total
          → count q.id s.free_list.ids ≡ 0
          → (covers p q.id ≡ false) × (covers (FreeList.write f p) q.id ≡ false)
      unfolding FreeList.write
      list_page-aside n s s' p f (from, size, dirty, same) inside used =
          let only : IsApart (λ i. i == q.id) (record s { dirty = [] }) = record {
            inside = λ i u. ground (arith, inside);
            not_free = λ i u. let e : i ≡ q.id = ground arith in rw e used;
            not_dirty = tt;
          } in
          let away : Avoids (λ i. i == q.id) p =
            ComesFrom-Avoids (λ i. i == q.id) n (record s { dirty = [] }) only s' p from size in
          let no_place : (r : Page)
              → (covers r q.id ≡ true → covers p q.id ≡ true)
              → covers r q.id ≡ false =
            λ r h. elim (Bool-cases (covers r q.id)) [
              | inl c ↦ absurd (ground (arith, away q.id (h c)))
              | inr c ↦ c
            ] in
          (no_place p (λ c. c), no_place (FreeList.write f p) (λ c. ground arith))

      -- `commit` after the spill, where no call of the system fails, sorting only orders and loses
      -- no page, the page of the old free list can be freed, a page is found for the new one, fewer
      -- than 0x1000 pages are asked for, the free ids are in order and those of data pages, and the
      -- new free list and the root page are inside the file: it returns, and the file then shows
      -- the page `q`, where `q` is a dirty data page inside the file that is not free, and no other
      -- dirty page takes up its place.
      pub commit_spilled-Shows :
          (root : ℕ) (c : Commit) (f : FreeList) (s : TxPages) (p : Page)
          → FreeList.free c.meta.txid (c.pages.file c.meta.free_list_page_number) c.pages.free_list
            ≡ done f
          → tx_allocate c.page_size sys.remap
              (FreeList.size f / 4096 + 1)
              sys.fresh
              (record c.pages { free_list = f })
            ≡ done (s, some p)
          → FreeList.size f / 4096 + 1 < 0x1000
          → IsIdList f.ids
          → root < s.total
          → p.id < s.total
          → q.id < c.pages.total
          → count q.id f.ids ≡ 0
          → All (λ e. IsAside q e.1) c.pages.dirty
          → lookup q.id c.pages.dirty ≡ some q
          → Returns (commit_spilled sys root c) Shows
      unfolding commit_spilled
      commit_spilled-Shows root c f s p freed given few ids inside list_inside own used aside
            there =
          let n = FreeList.size f / 4096 + 1 in
          let s0 = record c.pages { free_list = f } in
          let a : Allocates n s0 (s, some p) =
            subst (λ r. Returns r (Allocates n s0)) given
              (tx_allocate-Allocates c.page_size sys.remap n sys.fresh s0 (omega arith) few ids) in
          let list = FreeList.write s.free_list p in
          let (away, list_away) = list_page-aside n s0 s p s.free_list a own used in
          let dirty : s.dirty ≡ insert p.id p c.pages.dirty = a.2 in
          let other : (p.id == q.id) ≡ false = ground (arith, away) in
          let still : lookup q.id s.dirty ≡ some q =
            rw dirty (lookup-insert q.id p.id p c.pages.dirty ∙ rw other there) in
          rw (freed, given)
            (grow_file-Shows c.pages.total
              (record c {
                pages = record s { dirty = insert p.id list s.dirty };
                meta = record c.meta {
                  root = record c.meta.root { root = root };
                  free_list_page_number = p.id;
                  total_page_number = s.total;
                };
              })
              inside list_inside
              (All-insert (λ e. IsAside q e.1) p.id list s.dirty (inr list_away)
                (rw dirty (All-insert (λ e. IsAside q e.1) p.id p c.pages.dirty (inr away) aside)))
              (lookup-insert q.id p.id list s.dirty ∙ rw other still))
