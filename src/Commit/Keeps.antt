-- ===== src/Commit/Keeps.antt =====
-- What `Tx::commit` of tx.cc leaves alone in the file, wherever it is interrupted.
use cbtree.Base.{
  ℕ, suc, ◌+◌, ◌*◌, ◌/◌, ◌%◌, ◌≡◌, refl, sym, subst, ◌∙◌, ltb, leb, ◌==◌, if◌then◌else◌, Bool, true,
  false, u32, ◌&&◌, ◌||◌, Bool-cases, inl, inr, Option, none, some, List, [], ◌∷◌, All, map, Run,
  done, aborted, ◌>>=◌, Returns, Whenever, arith,
}
use cbtree.Base.Assoc.{insert}
use cbtree.Page.{Meta, Page}
use cbtree.FreeList.{FreeList}
use cbtree.FreeList
use cbtree.FreeList.Runs.{IsIdList}
use cbtree.Meta
use cbtree.Meta.{zero_page}
use cbtree.TxPages.{TxPages, tx_allocate, db_allocate}
use cbtree.Commit.{
  System, Commit, covers, write_page, tear_page, write_pages, write, write_meta, grow, give_up,
  with_list, meta_written, pages_written, grown_file, grow_file, store_list, allocate_list,
  commit_spilled,
}
use cbtree.Commit.Apart.{Avoids, IsApart, All-insert, StaysApart, tx_allocate-IsApart}

-- `std::sort` hands back pages that it was given.
abbrev pub Sorts : (List Page → List Page) → Type 1
Sorts order = (P : Page → Type 0) (ps : List Page) → All P ps → All P (order ps)

-- Freeing a page does not change the ids that are free.
pub free-ids :
    (txid : ℕ) (p : Page) (f : FreeList) → Whenever (FreeList.free txid p f) (λ g. g.ids ≡ f.ids)
unfolding FreeList.free
free-ids txid p f =
    go (FreeList.free_loop (suc p.overflow) p.id f.cache (FreeList.pending_of txid f.pending))
  where
    go :
        (r : Run (List (ℕ × Bool) × List ℕ))
        → Whenever
            (r >>= λ q. done (record f { cache = q.0; pending = insert txid q.1 f.pending }))
            (λ g. g.ids ≡ f.ids)
    go (done q) = refl
    go aborted = tt

module _ (sys : System) (used : ℕ → Bool) where
  -- The file shows at the page numbers in `used` what `file` shows.
  abbrev pub KeepsFile : (file file' : ℕ → Page) → Type 0
  KeepsFile file file' = (i : ℕ) → used i ≡ true → file' i ≡ file i

  covers-false : (p : Page) (i : ℕ) → Avoids used p → used i ≡ true → covers p i ≡ false
  covers-false p i a u = elim (Bool-cases (covers p i)) [
    | inl c ↦ absurd (ground (arith, a i c))
    | inr c ↦ c
  ]

  write_page-KeepsFile :
      (p : Page) (file : ℕ → Page) → Avoids used p → KeepsFile file (write_page p file)
  write_page-KeepsFile p file a i u =
      let c = covers-false p i a u in
      let other : (i == p.id) ≡ false = ground arith in rw (other, c) refl

  tear_page-KeepsFile :
      (torn : ℕ → Page) (p : Page) (file : ℕ → Page)
      → Avoids used p
      → KeepsFile file (tear_page torn p file)
  tear_page-KeepsFile torn p file a i u = rw (covers-false p i a u) refl

  write_pages-KeepsFile :
      (ps : List Page) (file : ℕ → Page)
      → All (Avoids used) ps
      → KeepsFile file (write_pages sys ps file).0
  unfolding write_pages
  write_pages-KeepsFile [] file a i u = refl
  write_pages-KeepsFile (p ∷ ps) file (a, later) i u = elim (Bool-cases (sys.goes_through p)) [
    | inl ok ↦
        rw ok (
          write_pages-KeepsFile ps (write_page p file) later i u
          ∙ write_page-KeepsFile p file a i u)
    | inr bad ↦ rw bad (tear_page-KeepsFile sys.torn p file a i u)
  ]

  -- Whatever way a run ends, the file keeps the pages in `used`.
  abbrev pub KeepsUsed : (ℕ → Page) → Run (Commit × ℕ) → Type 0
  KeepsUsed file r = Whenever r (λ q. KeepsFile file q.0.pages.file)

  pub give_up-KeepsUsed :
      (c : Commit) (file : ℕ → Page) → KeepsFile file c.pages.file → KeepsUsed file (give_up sys c)
  unfolding give_up
  give_up-KeepsUsed c file k = go (
      FreeList.reload (c.pages.file c.meta.free_list_page_number)
        (FreeList.rollback c.meta.txid c.pages.free_list))
    where
      go :
          (o : Option FreeList)
          → KeepsUsed file (elim o [ none ↦ aborted | some f ↦ done (with_list sys c f, 1) ])
      go none = tt
      go (some f) = k

  meta_page-Avoids :
      (m : Meta) (p : Page)
      → used (m.txid % 2) ≡ false
      → Meta.write m zero_page ≡ some p
      → Avoids used p
  unfolding Meta.write
  meta_page-Avoids m p free_slot e i c = elim (Bool-cases (leb m.total_page_number m.root.root)) [
    | inl bad ↦ absurd (ground arith)
    | inr ok ↦ elim (Bool-cases (leb m.total_page_number m.free_list_page_number)) [
      | inl bad ↦ absurd (ground arith)
      | inr fine ↦
          let id : p.id ≡ m.txid % 2 = ground arith in
          let one : p.overflow ≡ 0 = ground arith in
          let here : i ≡ m.txid % 2 = ground arith in rw here free_slot
    ]
  ]

  meta_written-KeepsUsed :
      (c : Commit) (file : ℕ → Page)
      → used (c.meta.txid % 2) ≡ false
      → KeepsFile file c.pages.file
      → KeepsUsed file (meta_written sys (write_meta sys c))
  unfolding write_meta
  meta_written-KeepsUsed c file free_slot k = go (Meta.write c.meta zero_page) refl
    where
      stored : Page → Commit
      stored p = record c {
        pages = record c.pages {
          file =
              if sys.goes_through p
              then write_page p c.pages.file
              else tear_page sys.torn p c.pages.file;
        };
      }

      stored-KeepsFile : (p : Page) → Avoids used p → KeepsFile file (stored p).pages.file
      stored-KeepsFile p a i u = elim (Bool-cases (sys.goes_through p)) [
        | inl ok ↦ rw ok (write_page-KeepsFile p c.pages.file a i u ∙ k i u)
        | inr bad ↦ rw bad (tear_page-KeepsFile sys.torn p c.pages.file a i u ∙ k i u)
      ]

      ended :
          (p : Page) (b : Bool)
          → Avoids used p
          → KeepsUsed file (meta_written sys (some (stored p, b)))
      ended p true a = stored-KeepsFile p a
      ended p false a = give_up-KeepsUsed (stored p) file (stored-KeepsFile p a)

      go :
          (o : Option Page)
          → Meta.write c.meta zero_page ≡ o
          → KeepsUsed file (
              meta_written sys (elim o [
                | none ↦ none
                | some p ↦ some (stored p, sys.goes_through p && (c.no_sync || sys.syncs_meta))
              ]))
      go none e = tt
      go (some p) e =
          ended p (sys.goes_through p && (c.no_sync || sys.syncs_meta))
            (meta_page-Avoids c.meta p free_slot e)

  All-values :
      (m : List (ℕ × Page)) → All (λ e. Avoids used e.1) m → All (Avoids used) (map (λ e. e.1) m)
  All-values [] a = tt
  All-values ((k, p) ∷ m) (a, rest) = (a, All-values m rest)

  module _ (sorts : Sorts sys.order) where
    pages_written-KeepsUsed :
        (c : Commit) (file : ℕ → Page)
        → used (c.meta.txid % 2) ≡ false
        → All (λ e. Avoids used e.1) c.pages.dirty
        → KeepsFile file c.pages.file
        → KeepsUsed file (pages_written sys (write sys c))
    unfolding write
    pages_written-KeepsUsed c file free_slot away k =
        go (write_pages sys (sys.order (map (λ e. e.1) c.pages.dirty)) c.pages.file) (
          write_pages-KeepsFile (sys.order (map (λ e. e.1) c.pages.dirty)) c.pages.file
            (sorts (Avoids used) (map (λ e. e.1) c.pages.dirty) (All-values c.pages.dirty away)))
      where
        after : (ℕ → Page) → Commit
        after f = record c { pages = record c.pages { dirty = []; file = f } }

        ended :
            (f : ℕ → Page) (b : Bool)
            → KeepsFile file f
            → KeepsUsed file (pages_written sys (after f, b))
        ended f true kf = meta_written-KeepsUsed (after f) file free_slot kf
        ended f false kf = give_up-KeepsUsed (after f) file kf

        go :
            (r : (ℕ → Page) × Bool)
            → KeepsFile c.pages.file r.0
            → KeepsUsed file (pages_written sys (after r.0, r.1 && (c.no_sync || sys.syncs_data)))
        go (f, ok) kf = ended f (ok && (c.no_sync || sys.syncs_data)) (λ i u. kf i u ∙ k i u)

    -- Growing the file changes nothing of what a commit writes.
    abbrev SamePages : Commit → Commit → Type 0
    SamePages c c' = (c'.pages ≡ c.pages) × (c'.meta ≡ c.meta)

    grow-SamePages : (sz : ℕ) (c : Commit) → SamePages c (grow sys sz c).0
    unfolding grow
    grow-SamePages sz c = ground arith

    grown_file-KeepsUsed :
        (c : Commit) (r : Commit × Bool) (file : ℕ → Page)
        → SamePages c r.0
        → used (c.meta.txid % 2) ≡ false
        → All (λ e. Avoids used e.1) c.pages.dirty
        → KeepsFile file c.pages.file
        → KeepsUsed file (grown_file sys r)
    grown_file-KeepsUsed c (c', true) file (p, m) free_slot away k =
        pages_written-KeepsUsed c' file (rw m free_slot) (rw p away) (rw p k)
    grown_file-KeepsUsed c (c', false) file (p, m) free_slot away k =
        give_up-KeepsUsed c' file (rw p k)

    grow_file-KeepsUsed :
        (total : ℕ) (c : Commit) (file : ℕ → Page)
        → used (c.meta.txid % 2) ≡ false
        → All (λ e. Avoids used e.1) c.pages.dirty
        → KeepsFile file c.pages.file
        → KeepsUsed file (grow_file sys total c)
    grow_file-KeepsUsed total c file free_slot away k =
        elim (Bool-cases (ltb total c.pages.total)) [
          | inl more ↦ rw more (
              grown_file-KeepsUsed c (grow sys ((c.pages.total + 1) * c.page_size % u32) c) file
                (grow-SamePages ((c.pages.total + 1) * c.page_size % u32) c) free_slot away k)
          | inr enough ↦
              rw enough (grown_file-KeepsUsed c (c, true) file (refl, refl) free_slot away k)
        ]

    list_page-Avoids : (f : FreeList) (p : Page) → Avoids used p → Avoids used (FreeList.write f p)
    unfolding FreeList.write
    list_page-Avoids f p away i c = away i (ground arith)

    store_list-KeepsUsed :
        (total n : ℕ) (c : Commit) (v : IsApart used c.pages) (r : TxPages × Option Page)
        → used (c.meta.txid % 2) ≡ false
        → StaysApart used n c.pages v r
        → KeepsUsed c.pages.file (store_list sys total c r)
    store_list-KeepsUsed total n c v (s, none) free_slot (a, same_file) =
        give_up-KeepsUsed (record c { pages = s }) c.pages.file (rw same_file (λ i u. refl))
    store_list-KeepsUsed total n c v (s, some p) free_slot (a, same_file, away) =
        grow_file-KeepsUsed total
          (record c {
            pages = record s { dirty = insert p.id (FreeList.write s.free_list p) s.dirty };
            meta = record c.meta { free_list_page_number = p.id; total_page_number = s.total };
          })
          c.pages.file free_slot
          (All-insert (λ e. Avoids used e.1) p.id (FreeList.write s.free_list p) s.dirty
            (list_page-Avoids s.free_list p away) a.not_dirty)
          (rw same_file (λ i u. refl))

    allocated-KeepsUsed :
        (total n : ℕ) (c : Commit) (v : IsApart used c.pages) (r : Run (TxPages × Option Page))
        → used (c.meta.txid % 2) ≡ false
        → Returns r (StaysApart used n c.pages v)
        → KeepsUsed c.pages.file (r >>= store_list sys total c)
    allocated-KeepsUsed total n c v (done r) free_slot a =
        store_list-KeepsUsed total n c v r free_slot a
    allocated-KeepsUsed total n c v aborted free_slot a = absurd a

    allocate_list-KeepsUsed :
        (c : Commit)
        → IsApart used c.pages
        → IsIdList c.pages.free_list.ids
        → used (c.meta.txid % 2) ≡ false
        → KeepsUsed c.pages.file (allocate_list sys c)
    allocate_list-KeepsUsed c v ids free_slot =
        let n = FreeList.size c.pages.free_list / 4096 + 1 in
        elim (Bool-cases (leb 0x1000 n)) [
          | inl many ↦ rw (too_many n c many) tt
          | inr few ↦
              allocated-KeepsUsed c.pages.total n c v
                (tx_allocate c.page_size sys.remap n sys.fresh c.pages) free_slot
                (tx_allocate-IsApart used n c.pages v c.page_size sys.remap sys.fresh (omega arith)
                  (ground arith) ids)
        ]
      where
        too_many :
            (n : ℕ) (c : Commit)
            → leb 0x1000 n ≡ true
            → tx_allocate c.page_size sys.remap n sys.fresh c.pages ≡ aborted
        too_many n c many = unfold tx_allocate db_allocate in rw many refl

    -- `commit` after the spill, on a file with data pages for its free pages in order, of a writer
    -- whose meta goes to a page that is not in `used`, where the pages in `used` are inside the
    -- file, not free and not dirty, and `std::sort` only orders: whichever write or call fails, and
    -- whatever a write that fails leaves behind, if `commit` comes to an end then all pages in
    -- `used` are in the file as they were. A reader of an older meta sees what it saw before.
    pub commit_spilled-KeepsUsed :
        (root : ℕ) (c : Commit)
        → IsApart used c.pages
        → IsIdList c.pages.free_list.ids
        → used (c.meta.txid % 2) ≡ false
        → KeepsUsed c.pages.file (commit_spilled sys root c)
    unfolding commit_spilled
    commit_spilled-KeepsUsed root c v ids free_slot =
        go (FreeList.free c.meta.txid (c.pages.file c.meta.free_list_page_number) c.pages.free_list)
          (free-ids _ _ _)
      where
        rooted : FreeList → Commit
        rooted f =
            with_list sys
              (record c { meta = record c.meta { root = record c.meta.root { root = root } } }) f

        allocated :
            (f : FreeList)
            → f.ids ≡ c.pages.free_list.ids
            → KeepsUsed c.pages.file (allocate_list sys (rooted f))
        allocated f e =
            let v' : IsApart used (rooted f).pages = record {
              inside = v.inside;
              not_free = λ i u. rw e (v.not_free i u);
              not_dirty = v.not_dirty;
            } in
            allocate_list-KeepsUsed (rooted f) v' (subst IsIdList (sym e) ids) free_slot

        go :
            (r : Run FreeList)
            → Whenever r (λ f. f.ids ≡ c.pages.free_list.ids)
            → KeepsUsed c.pages.file (r >>= λ f. allocate_list sys (rooted f))
        go aborted e = tt
        go (done f) e = allocated f e
