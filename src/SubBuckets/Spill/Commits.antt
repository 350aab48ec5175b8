-- ===== src/SubBuckets/Spill/Commits.antt =====
-- `Tx::commit` of src/Bolt/tx.cc with the rebalancing and the spilling of all its buckets.
use cbtree.Base.{
  ℕ, ◌%◌, ◌≡◌, refl, subst, ◌∙◌, leb, Bool, true, false, not, Bool-cases, inl, inr, Option, none,
  some, Run, done, aborted, Returns, Whenever, Whenever-then, Whenever-if, Whenever-option, range,
  arith,
}
use cbtree.Page.{Page}
use cbtree.FreeList.{FreeList}
use cbtree.FreeList
use cbtree.FreeList.Runs.{IsIdList}
use cbtree.FreeList.Allocate.{IsIdList-remove}
use cbtree.TxPages.{TxPages, tx_allocate, db_allocate}
use cbtree.TxPages.Allocate.{Allocates, ComesFrom, tx_allocate-Allocates}
use cbtree.Commit.{System, Commit, commit_spilled, commit}
use cbtree.Commit.Apart.{Avoids, IsApart, All-insert, Allocates-StaysApart}
use cbtree.Commit.Keeps.{
  Sorts, KeepsFile, KeepsUsed, give_up-KeepsUsed, free-ids, commit_spilled-KeepsUsed,
}
use cbtree.Work.{Setting}
use cbtree.Work.Keeps.{Given, IsKept}
use cbtree.SubBuckets.{BucketTree}
use cbtree.SubBuckets.Spill.{spill_all}
use cbtree.SubBuckets.Spill.Keeps.{spill_all-Keeps}

module _ (used : ℕ → Bool) (file : ℕ → Page) where
  -- The pages in `used` stay out of reach, and the file is `file`.
  abbrev pub IsSafe : TxPages → Type 0
  IsSafe s = IsApart used s × IsIdList s.free_list.ids × (s.file ≡ file)

  ComesFrom-IsIdList :
      (n : ℕ) (s s' : TxPages) (p : Page)
      → ComesFrom n s s' p
      → IsIdList s.free_list.ids
      → IsIdList s'.free_list.ids
  ComesFrom-IsIdList n s s' p (inl (front, back, whole, rest, same)) v =
      rw rest (IsIdList-remove front (range p.id n) back (subst IsIdList whole v))
  ComesFrom-IsIdList n s s' p (inr (at_end, grown, same)) v = rw same v

  Allocates-Given :
      (set : Setting) (n : ℕ) (s : TxPages) (r : TxPages × Option Page)
      → IsSafe s
      → Allocates n s r
      → Given set IsSafe r
  Allocates-Given set n s (s', none) (a, ids, same) (dirty, total, list, f) = (
    (Allocates-StaysApart used n s a (s', none) (dirty, total, list, f)).0,
    rw list ids,
    f ∙ same,
  )
  Allocates-Given set n s (s', some p) (a, ids, same) (from, size, dirty, f) = λ q i o.
      let (b, f', away) = Allocates-StaysApart used n s a (s', some p) (from, size, dirty, f) in
      let away' : Avoids used q = λ j c. away j (ground arith) in
      (
        record {
          inside = b.inside;
          not_free = b.not_free;
          not_dirty = All-insert (λ e. Avoids used e.1) p.id q s'.dirty away' b.not_dirty;
        },
        ComesFrom-IsIdList n s s' p from ids,
        f ∙ same,
      )

  IsSafe-IsKept : (set : Setting) → IsKept set IsSafe
  IsSafe-IsKept set = record {
    freed = λ p s (a, ids, same).
        Whenever-map p s a ids same (FreeList.free set.txid p s.free_list)
          (free-ids set.txid p s.free_list);
    allocated = λ n s some_pages (a, ids, same). elim (Bool-cases (leb 0x1000 n)) [
      | inl many ↦ rw (too_many set n s many) tt
      | inr few ↦
          given set n s (a, ids, same) (tx_allocate set.page_size set.remap n set.fresh s)
            (tx_allocate-Allocates set.page_size set.remap n set.fresh s some_pages (ground arith)
              ids)
    ];
  }
    where
      Whenever-map :
          (p : Page) (s : TxPages)
          → IsApart used s
          → IsIdList s.free_list.ids
          → s.file ≡ file
          → (r : Run FreeList) → Whenever r (λ f. f.ids ≡ s.free_list.ids)
          → Whenever r (λ f. IsSafe (record s { free_list = f }))
      Whenever-map p s a ids same aborted e = tt
      Whenever-map p s a ids same (done f) e = (
        record {
          inside = a.inside;
          not_free = λ i u. rw e (a.not_free i u);
          not_dirty = a.not_dirty;
        },
        rw e ids,
        same,
      )

      too_many :
          (set : Setting) (n : ℕ) (s : TxPages)
          → leb 0x1000 n ≡ true
          → tx_allocate set.page_size set.remap n set.fresh s ≡ aborted
      too_many set n s many = unfold tx_allocate db_allocate in rw many refl

      given :
          (set : Setting) (n : ℕ) (s : TxPages)
          → IsSafe s
          → (r : Run (TxPages × Option Page)) → Returns r (Allocates n s)
          → Whenever r (Given set IsSafe)
      given set n s v (done r) a = Allocates-Given set n s r v a
      given set n s v aborted a = absurd a

module _ (sys : System) (used : ℕ → Bool) (sorts : Sorts sys.order) (set : Setting) (fuel : ℕ) where
  -- `commit`, with the rebalancing and spilling of the root bucket and all buckets in it, of a
  -- transaction whose free pages are in order and those of data pages, whose meta goes to a page
  -- that is not in `used`, where the pages in `used` are inside the file, not free and not dirty,
  -- and `std::sort` only orders: whichever buckets and nodes there are, whichever write or call
  -- fails, and whatever a write that fails leaves behind, if `commit` comes to an end then all
  -- pages in `used` are in the file as they were.
  pub commit-KeepsUsed :
      (t : BucketTree) (c : Commit)
      → IsApart used c.pages
      → IsIdList c.pages.free_list.ids
      → used (c.meta.txid % 2) ≡ false
      → KeepsUsed sys used c.pages.file (commit sys (spill_all set fuel t) c)
  unfolding commit
  commit-KeepsUsed t c a ids free_slot =
      let P : Commit × ℕ → Type 0 = λ q. KeepsFile sys used c.pages.file q.0.pages.file in
      Whenever-if P c.managed _ _ (λ i u. refl)
        (Whenever-if P (not c.writable) _ _ (λ i u. refl)
          (Whenever-then (λ r. IsSafe used c.pages.file r.0) P (spill_all set fuel t c.pages) _
            (λ r (a', ids', same).
              Whenever-option P r.1 _ _
                (give_up-KeepsUsed sys used (record c { pages = r.0 }) c.pages.file
                  (rw same (λ i u. refl)))
                (λ root.
                  subst
                    (λ g. KeepsUsed sys used g (commit_spilled sys root (record c { pages = r.0 })))
                    same
                    (commit_spilled-KeepsUsed sys used sorts root (record c { pages = r.0 }) a' ids'
                      free_slot)))
            (spill_all-Keeps set fuel (IsSafe used c.pages.file)
              (IsSafe-IsKept used c.pages.file set) t c.pages (a, ids, refl))))
