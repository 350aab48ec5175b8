-- ===== src/Split/Two.antt =====
-- One `splitTwo` of node.cc: what it does to the heap.
use cbtree.Base.{
  ℕ, ◌+◌, ◌*◌, ◌/◌, ◌≤◌, ◌≡◌, ◌==◌, refl, ap, true, false, none, some, [], ◌∷◌, ◌++◌, take, drop,
  arith,
}
use cbtree.Node.{Node, new_node, split_index}
use cbtree.Heap.{
  Heap, get, store, alloc, IsHeap, get-store, get-alloc, lt-next, alloc-IsHeap, store-IsHeap,
}
use cbtree.Split.{split_two, split_at, split_threshold, stays_whole, parent_of, add_child}

scaled-le : (n c : ℕ) → c ≤ 10 → n * c / 10 ≤ n
scaled-le n c h = let scaled : n * c ≤ n * 10 = grind arith in omega (arith, scaled)

-- The threshold is at most the page size.
pub split_threshold-le : (page_size fill : ℕ) → split_threshold page_size fill ≤ page_size
unfolding split_threshold
split_threshold-le page_size fill = scaled-le page_size _ (ground arith)

-- A node that has a parent in the heap other than itself.
pub record IsChild (h : Heap) (a p : ℕ) (nd pn : Node) : Type 0 where
  pub heap : IsHeap h
  pub here : get h a ≡ some nd
  pub parent : get h p ≡ some pn
  pub apart : (a == p) ≡ false

-- What the cut at `index` leaves: the node's first inodes at `a`, the others at the new address,
-- which is the parent's last child; every other node as it was.
pub record IsCut (h : Heap) (a p index : ℕ) (nd pn : Node) (h' : Heap) : Type 0 where
  pub heap : IsHeap h'
  pub next : h'.next ≡ h.next + 1
  pub left : get h' a ≡ some (record nd { parent = some p; inodes = take index nd.inodes })
  pub right :
      get h' h.next
      ≡ some (record (new_node (some p)) { is_leaf = nd.is_leaf; inodes = drop index nd.inodes })
  pub parent : get h' p ≡ some (record pn { children = pn.children ++ h.next ∷ [] })
  pub others :
      (c : ℕ) → (a == c) ≡ false → (p == c) ≡ false → (h.next == c) ≡ false → get h' c ≡ get h c

module _ (h : Heap) (a p index : ℕ) (nd pn : Node) (v : IsChild h a p nd pn) where
  pub cut_heap : Heap
  cut_heap =
      store a (record nd { parent = some p; inodes = take index nd.inodes })
        (store p (record pn { children = pn.children ++ h.next ∷ [] })
          (alloc
            (record (new_node (some p)) { is_leaf = nd.is_leaf; inodes = drop index nd.inodes }) h))

  split_at-cut_heap : split_at h a p index ≡ some (cut_heap, a, some h.next)
  unfolding split_at add_child cut_heap
  split_at-cut_heap =
      let p_old = lt-next h p pn v.heap v.parent in
      let e =
        get-alloc p
          (record (new_node (some p)) { is_leaf = nd.is_leaf; inodes = drop index nd.inodes }) h in
      ground (arith, v.here, v.parent, e)

  pub cut_heap-IsCut : IsCut h a p index nd pn cut_heap
  unfolding cut_heap
  cut_heap-IsCut =
      let a_old = lt-next h a nd v.heap v.here in
      let p_old = lt-next h p pn v.heap v.parent in
      let apart = v.apart in
      let new = record (new_node (some p)) {
        is_leaf = nd.is_leaf;
        inodes = drop index nd.inodes;
      } in
      let h1 = alloc new h in
      let pn' = record pn { children = pn.children ++ h.next ∷ [] } in
      let h2 = store p pn' h1 in
      let nd' = record nd { parent = some p; inodes = take index nd.inodes } in
      record {
        heap =
            store-IsHeap a nd' h2 (store-IsHeap p pn' h1 (alloc-IsHeap new h v.heap) (omega arith))
              (omega arith);
        next = refl;
        left = ground (arith, get-store a a nd' h2);
        right =
            ground
              (arith, get-store h.next a nd' h2, get-store h.next p pn' h1, get-alloc h.next new h);
        parent = ground (arith, get-store p a nd' h2, get-store p p pn' h1);
        others = λ c x y z.
            ground (arith, get-store c a nd' h2, get-store c p pn' h1, get-alloc c new h);
      }

  -- A node that is too large and has a parent is cut at `split_index`.
  pub split_two_cut :
      (page_size fill : ℕ)
      → nd.parent ≡ some p
      → stays_whole page_size nd ≡ false
      → index ≡ split_index nd (split_threshold page_size fill)
      → split_two page_size fill h a ≡ some (cut_heap, a, some h.next)
  unfolding split_two
  split_two_cut page_size fill e w i =
      let under : parent_of h a nd nd.parent ≡ (h, p) = ap (parent_of h a nd) e in
      rw (v.here, w, under, ← i) split_at-cut_heap

-- A node that is small enough is left alone.
pub split_two_whole :
    (page_size fill : ℕ) (h : Heap) (a : ℕ) (nd : Node)
    → get h a ≡ some nd
    → stays_whole page_size nd ≡ true
    → split_two page_size fill h a ≡ some (h, a, none)
unfolding split_two
split_two_whole page_size fill h a nd e w = rw (e, w) refl
