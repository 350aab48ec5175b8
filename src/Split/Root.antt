-- ===== src/Split/Root.antt =====
-- `split` of a node without a parent: the first cut makes one.
use cbtree.Base.{
  ℕ, zero, suc, ◌+◌, ◌≤◌, ◌<◌, ◌≡◌, ◌==◌, refl, sym, ◌∙◌, ap, false, none, some, List, [], ◌∷◌,
  length, u32, arith,
}
use cbtree.Node.{Node, new_node, split_index, size_less_than}
use cbtree.Node.Sizes.{node_bytes}
use cbtree.Heap.{
  Heap, get, alloc, IsHeap, get-store, get-alloc, lt-next, alloc-IsHeap, store-IsHeap,
}
use cbtree.Split.{
  split_two, split_from, split_at, cut_under, stays_whole, parent_of, split_threshold,
}
use cbtree.Split.Two.{IsChild}
use cbtree.Split.Pieces.{Pieces, split_from-Splits}

split_two-cut_under :
    (page_size fill : ℕ) (h : Heap) (a : ℕ) (nd : Node)
    → get h a ≡ some nd
    → stays_whole page_size nd ≡ false
    → split_two page_size fill h a ≡ cut_under page_size fill a nd (parent_of h a nd nd.parent)
unfolding split_two
split_two-cut_under page_size fill h a nd e w = rw (e, w) refl

module _ (page_size fill : ℕ) (h : Heap) (a : ℕ) (nd : Node) (v : IsHeap h)
    (here : get h a ≡ some nd) (orphan : nd.parent ≡ none) where
  grown : Heap
  grown = (parent_of h a nd none).0

  child : Node
  child = record nd { parent = some h.next }

  stays_whole-child : stays_whole page_size child ≡ stays_whole page_size nd
  unfolding child size_less_than
  stays_whole-child = refl

  split_index-child : (threshold : ℕ) → split_index child threshold ≡ split_index nd threshold
  unfolding child split_index
  split_index-child threshold = refl

  cut_under-child :
      (r : Heap × ℕ) → cut_under page_size fill a child r ≡ cut_under page_size fill a nd r
  unfolding cut_under
  cut_under-child (g, p) = ap (split_at g a p) (split_index-child (split_threshold page_size fill))

  get-grown : get grown a ≡ some child
  unfolding grown child
  get-grown = ground (
    arith,
    get-store a a (record nd { parent = some h.next })
        (alloc (record (new_node none) { children = a ∷ [] }) h),
  )

  grown_next : grown.next ≡ h.next + 1
  unfolding grown
  grown_next = refl

  get-grown_old : (c : ℕ) → (a == c) ≡ false → c < h.next → get grown c ≡ get h c
  unfolding grown
  get-grown_old c x y =
      let root = record (new_node none) { children = a ∷ [] } in
      ground (
        arith,
        get-store c a (record nd { parent = some h.next }) (alloc root h),
        get-alloc c root h,
      )

  split_two-grown :
      stays_whole page_size nd ≡ false
      → split_two page_size fill h a ≡ split_two page_size fill grown a
  unfolding grown child
  split_two-grown w =
      split_two-cut_under page_size fill h a nd here w
      ∙ (ap (cut_under page_size fill a nd) under
          ∙ (sym (cut_under-child (grown, h.next))
              ∙ (ap (cut_under page_size fill a child) child_under
                  ∙ sym (
                      split_two-cut_under page_size fill grown a child get-grown
                        (stays_whole-child ∙ w)))))
    where
      under : parent_of h a nd nd.parent ≡ (grown, h.next)
      under = ap (parent_of h a nd) orphan

      child_under : (grown, h.next) ≡ parent_of grown a child child.parent
      child_under = refl

  grown-IsChild : IsChild grown a h.next child (record (new_node none) { children = a ∷ [] })
  unfolding grown child
  grown-IsChild =
      let old = lt-next h a nd v here in
      let root = record (new_node none) { children = a ∷ [] } in
      record {
        heap = store-IsHeap a child (alloc root h) (alloc-IsHeap root h v) (omega arith);
        here = ground (arith, get-store a a child (alloc root h));
        parent = ground (arith, get-store h.next a child (alloc root h), get-alloc h.next root h);
        apart = ground arith;
      }

  split_from-grown :
      (fuel : ℕ)
      → stays_whole page_size nd ≡ false
      → split_from (suc fuel) page_size fill h a ≡ split_from (suc fuel) page_size fill grown a
  unfolding split_from
  split_from-grown fuel w = rw (split_two-grown w) refl

  -- `split` of a node without a parent that is too large for a page, with at least two inodes and
  -- less than 2 ^ 32 bytes, on a heap of nodes: it ends, with as much fuel as there are inodes. A
  -- new node is the parent of the pieces; in order they hold the inodes of the node; each is a
  -- leaf if the node was, has at least two inodes, and fits a page or has at most four. No other
  -- node of the heap has changed.
  pub split-root :
      (fuel : ℕ)
      → stays_whole page_size nd ≡ false
      → length nd.inodes ≤ fuel
      → 2 ≤ length nd.inodes
      → node_bytes nd < u32
      → (h' : Heap) × (rs : List ℕ) × (split_from fuel page_size fill h a ≡ some (h', rs))
        × Pieces page_size h.next nd.is_leaf h' rs nd.inodes
        × ((c : ℕ) → (a == c) ≡ false → c < h.next → get h' c ≡ get h c)
  unfolding child
  split-root zero w enough two small = absurd (omega arith)
  split-root (suc fuel) w enough two small =
      let (h', rs, e, pieces, frame) =
        split_from-Splits page_size fill (suc fuel) grown a h.next child
          (record (new_node none) { children = a ∷ [] }) grown-IsChild refl enough two small in
      (
        h',
        rs,
        split_from-grown fuel w ∙ e,
        pieces,
        λ c x y. frame c x (ground arith) (rw grown_next (omega arith)) ∙ get-grown_old c x y,
      )
