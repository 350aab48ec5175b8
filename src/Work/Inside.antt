-- ===== src/Work/Inside.antt =====
-- The pages that `Tx::allocate` of tx.cc gives lie inside the file, as `Tx::getTotalPageNumber`
-- tells it to `Node::spill`.
use cbtree.Base.{
  ℕ, zero, suc, ◌+◌, ◌^◌, ◌≤◌, ◌<◌, inl, inr, List, [], ◌∷◌, subst, ◌++◌, All, range, arith,
}
use cbtree.Page.{Page}
use cbtree.TxPages.{TxPages}
use cbtree.TxPages.Allocate.{ComesFrom}
use cbtree.Work.{total_page_number}

-- The first page of a run that is among others.
front-run :
    (P : ℕ → Type 0) (front back : List ℕ) (first n : ℕ)
    → All P (front ++ (range first n ++ back))
    → 1 ≤ n
    → P first
front-run P [] back first zero h k = absurd (omega arith)
front-run P [] back first (suc n) h k = h.0
front-run P (x ∷ xs) back first n h k = front-run P xs back first n h.1 k

pub ComesFrom-inside :
    (n : ℕ) (s s' : TxPages) (p : Page)
    → ComesFrom n s s' p
    → 1 ≤ n
    → All (λ i. i < s.total) s.free_list.ids
    → s.total + n < 2 ^ 32
    → p.id < total_page_number s'
ComesFrom-inside n s s' p (inl (front, back, whole, rest, same)) k below few =
    let first =
      front-run (λ i. i < s.total) front back p.id n (subst (All (λ i. i < s.total)) whole below)
        k in
    omega (arith, first, same)
ComesFrom-inside n s s' p (inr (at_end, grown, same)) k below few = omega (arith, at_end, grown)
