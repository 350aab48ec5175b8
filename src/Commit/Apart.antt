-- ===== src/Commit/Apart.antt =====
-- Pages that a write transaction must not touch, and how the allocations of tx.cc stay away from
-- them.
use cbtree.Base.{
  ℕ, zero, suc, ◌+◌, ◌≤◌, ◌<◌, ◌≡◌, ◌++◌, ◌==◌, Bool, true, false, Bool-cases, inl, inr, Option,
  none, some, List, [], ◌∷◌, All, count, count-append, range, Returns, Returns-map, arith,
}
use cbtree.Base.Assoc.{insert}
use cbtree.Page.{Page}
use cbtree.FreeList.Runs.{IsIdList}
use cbtree.TxPages.{TxPages, tx_allocate}
use cbtree.TxPages.Allocate.{Allocates, ComesFrom, tx_allocate-Allocates}
use cbtree.Commit.{covers}

-- The page takes up none of the page numbers in `used`.
abbrev pub Avoids : (ℕ → Bool) → Page → Type 0
Avoids used p = (i : ℕ) → covers p i ≡ true → used i ≡ false

-- The page numbers in `used` are inside the file, not free, and not those of dirty pages.
pub record IsApart (used : ℕ → Bool) (s : TxPages) : Type 0 where
  pub inside : (i : ℕ) → used i ≡ true → i < s.total
  pub not_free : (i : ℕ) → used i ≡ true → count i s.free_list.ids ≡ 0
  pub not_dirty : All (λ e. Avoids used e.1) s.dirty

pub All-insert {ℓ} :
    {V : Type ℓ} (P : ℕ × V → Type 0) (k : ℕ) (v : V) (m : List (ℕ × V))
    → P (k, v)
    → All P m
    → All P (insert k v m)
All-insert P k v [] p a = (p, tt)
All-insert P k v ((j, w) ∷ m) p (q, a) = elim (Bool-cases (j == k)) [
  | inl e ↦ rw e (p, a)
  | inr e ↦ rw e (q, All-insert P k v m p a)
]

count-range : (i first n : ℕ) → first ≤ i → i < first + n → 0 < count i (range first n)
count-range i first zero h k = absurd (omega arith)
count-range i first (suc n) h k = elim (Bool-cases (first == i)) [
  | inl e ↦ ground arith
  | inr e ↦ ground (arith, count-range i (first + 1) n)
]

module _ (used : ℕ → Bool) (n : ℕ) (s : TxPages) (v : IsApart used s) where
  pub ComesFrom-Avoids :
      (s' : TxPages) (p : Page) → ComesFrom n s s' p → p.overflow + 1 ≡ n → Avoids used p
  ComesFrom-Avoids s' p (inl (front, back, whole, rest, same_total)) size i c =
      elim (Bool-cases (used i)) [
        | inl u ↦
            let held : 0 < count i (range p.id n) =
              count-range i p.id n (ground arith) (ground arith) in
            let gone : count i (front ++ (range p.id n ++ back)) ≡ 0 =
              rw (← whole) (v.not_free i u) in
            absurd (
              omega (
                arith,
                count-append i front (range p.id n ++ back),
                count-append i (range p.id n) back,
              ))
        | inr u ↦ u
      ]
  ComesFrom-Avoids s' p (inr (at_end, grown, same_list)) size i c = elim (Bool-cases (used i)) [
    | inl u ↦ absurd (ground (arith, v.inside i u))
    | inr u ↦ u
  ]

  ComesFrom-IsApart :
      (s' : TxPages) (p : Page)
      → ComesFrom n s s' p
      → All (λ e. Avoids used e.1) s'.dirty
      → IsApart used s'
  ComesFrom-IsApart s' p (inl (front, back, whole, rest, same_total)) a = record {
    inside = λ i u. omega (arith, v.inside i u);
    not_free = λ i u.
        let gone : count i (front ++ (range p.id n ++ back)) ≡ 0 = rw (← whole) (v.not_free i u) in
        rw rest (
          omega (
            arith,
            count-append i front (range p.id n ++ back),
            count-append i (range p.id n) back,
            count-append i front back,
          ));
    not_dirty = a;
  }
  ComesFrom-IsApart s' p (inr (at_end, grown, same_list)) a = record {
    inside = λ i u. omega (arith, v.inside i u);
    not_free = λ i u. rw same_list (v.not_free i u);
    not_dirty = a;
  }

  -- An allocation leaves the file alone, and what it gives stays away from the pages in `used`.
  abbrev pub StaysApart : TxPages × Option Page → Type 0
  StaysApart (s', none) = IsApart used s' × (s'.file ≡ s.file)
  StaysApart (s', some p) = IsApart used s' × (s'.file ≡ s.file) × Avoids used p

  pub Allocates-StaysApart : (r : TxPages × Option Page) → Allocates n s r → StaysApart r
  Allocates-StaysApart (s', none) (dirty, total, list, file) = (
    record {
      inside = λ i u. omega (arith, v.inside i u);
      not_free = λ i u. rw list (v.not_free i u);
      not_dirty = rw dirty v.not_dirty;
    },
    file,
  )
  Allocates-StaysApart (s', some p) (from, size, dirty, file) =
      let away = ComesFrom-Avoids s' p from size in
      (
        ComesFrom-IsApart s' p from
            (rw dirty (All-insert (λ e. Avoids used e.1) p.id p s.dirty away v.not_dirty)),
        file,
        away,
      )

  -- `Tx::allocate` of at least one and fewer than 0x1000 pages, where the free ids are in order and
  -- those of data pages: it returns; if the pages in `used` were inside the file, not free and not
  -- dirty, they still are; the file is as it was; and a page that it gives takes up none of them.
  pub tx_allocate-IsApart :
      (page_size : ℕ) (remap : ℕ → Option ℕ) (fresh : Page)
      → 1 ≤ n
      → n < 0x1000
      → IsIdList s.free_list.ids
      → Returns (tx_allocate page_size remap n fresh s) StaysApart
  tx_allocate-IsApart page_size remap fresh some_pages few ids =
      Returns-map (Allocates n s) StaysApart (tx_allocate page_size remap n fresh s)
        Allocates-StaysApart (tx_allocate-Allocates page_size remap n fresh s some_pages few ids)
