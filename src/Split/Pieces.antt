-- ===== src/Split/Pieces.antt =====
-- The whole of `split` of node.cc: it ends, and what it ends with.
use cbtree.Base.{
  ℕ, zero, suc, ◌+◌, ◌≤◌, ◌<◌, ◌≡◌, ◌⊎◌, ◌==◌, refl, sym, ◌∙◌, leb, Bool, true, false, Bool-cases,
  inl, inr, some, List, [], ◌∷◌, ◌++◌, append-nil, length, length-drop, length-take, take, drop,
  take-append-drop, u32, arith,
}
use cbtree.Node.{Node, Inode, new_node, split_index}
use cbtree.Node.Sizes.{node_bytes, bytes, size_less_than-node_bytes}
use cbtree.Node.Index.{split_index_lem}
use cbtree.Heap.{Heap, get, lt-next}
use cbtree.Split.{split_from, split_threshold, stays_whole}
use cbtree.Split.Two.{
  IsChild, IsCut, cut_heap, cut_heap-IsCut, split_two_cut, split_two_whole, split_threshold-le,
}

-- A node fits a page, or has at most four inodes, which are never cut.
abbrev pub Fits : ℕ → Node → Type 0
Fits page_size nd = (node_bytes nd ≤ page_size) ⊎ (length nd.inodes ≤ 4)

-- The nodes at `rs`, in order, hold the inodes `xs` between them; each is a leaf if the node that
-- was split is, hangs under `p`, has at least two inodes and fits.
abbrev pub Pieces : (page_size p : ℕ) (leaf : Bool) → Heap → List ℕ → List Inode → Type 0
Pieces page_size p leaf h [] xs = xs ≡ []
Pieces page_size p leaf h (r ∷ rs) xs =
    (nd : Node) × (ys : List Inode) × (get h r ≡ some nd)
    × (xs ≡ nd.inodes ++ ys)
    × (nd.is_leaf ≡ leaf)
    × (nd.parent ≡ some p)
    × (2 ≤ length nd.inodes)
    × Fits page_size nd
    × Pieces page_size p leaf h rs ys

-- What `split` leaves alone: all nodes but the one that is split and its parent.
abbrev Frame : (h h' : Heap) (a p : ℕ) → Type 0
Frame h h' a p = (c : ℕ) → (a == c) ≡ false → (p == c) ≡ false → c < h.next → get h' c ≡ get h c

abbrev pub Splits : (page_size fill fuel : ℕ) (h : Heap) (a p : ℕ) (nd : Node) → Type 0
Splits page_size fill fuel h a p nd =
    (h' : Heap) × (rs : List ℕ) × (split_from fuel page_size fill h a ≡ some (h', rs))
    × Pieces page_size p nd.is_leaf h' rs nd.inodes
    × Frame h h' a p

bytes-take-le : (n : ℕ) (xs : List Inode) → bytes 16 (take n xs) ≤ bytes 16 xs
bytes-take-le zero xs = omega arith
bytes-take-le (suc n) [] = omega arith
bytes-take-le (suc n) (x ∷ xs) = omega (arith, bytes-take-le n xs)

bytes-drop-le : (n : ℕ) (xs : List Inode) → bytes 16 (drop n xs) ≤ bytes 16 xs
bytes-drop-le zero xs = omega arith
bytes-drop-le (suc n) [] = omega arith
bytes-drop-le (suc n) (x ∷ xs) = omega (arith, bytes-drop-le n xs)

whole-Fits :
    (page_size : ℕ) (nd : Node)
    → 2 ≤ length nd.inodes
    → node_bytes nd < u32
    → stays_whole page_size nd ≡ true
    → Fits page_size nd
whole-Fits page_size nd two small w =
    let e = size_less_than-node_bytes nd page_size (omega arith) small in
    elim (Bool-cases (leb (length nd.inodes) 4)) [
      | inl few ↦ inr (ground arith)
      | inr many ↦ inl (ground (arith, e))
    ]

whole-Splits :
    (page_size fill fuel : ℕ) (h : Heap) (a p : ℕ) (nd : Node)
    → get h a ≡ some nd
    → nd.parent ≡ some p
    → 2 ≤ length nd.inodes
    → node_bytes nd < u32
    → stays_whole page_size nd ≡ true
    → Splits page_size fill (suc fuel) h a p nd
unfolding split_from
whole-Splits page_size fill fuel h a p nd e par two small w = (
  h,
  a ∷ [],
  rw (split_two_whole page_size fill h a nd e w) refl,
  (
    nd,
    [],
    e,
    sym (append-nil nd.inodes),
    refl,
    par,
    two,
    whole-Fits page_size nd two small w,
    refl,
  ),
  λ c x y z. refl,
)

-- A tail of a cut, seen from the heap before the cut.
Frame-cut :
    (h h1 h' : Heap) (a p index : ℕ) (nd pn : Node)
    → IsCut h a p index nd pn h1
    → a < h.next
    → Frame h1 h' h.next p
    → (((h.next == a) ≡ false) × ((p == a) ≡ false) → get h' a ≡ get h1 a) × Frame h h' a p
Frame-cut h h1 h' a p index nd pn cut old frame = (
  λ q. frame a q.0 q.1 (omega (arith, cut.next)),
  λ c x y z. frame c (ground arith) y (omega (arith, cut.next)) ∙ cut.others c x y (ground arith),
)

cut-Fits :
    (page_size fill : ℕ) (nd : Node)
    → 4 < length nd.inodes
    → node_bytes nd < u32
    → (16 + bytes 16 (take (split_index nd (split_threshold page_size fill)) nd.inodes) ≤ page_size)
      ⊎ (length (take (split_index nd (split_threshold page_size fill)) nd.inodes) ≤ 4)
cut-Fits page_size fill nd many small =
    let i = split_index nd (split_threshold page_size fill) in
    let l = split_index_lem nd (split_threshold page_size fill) many small in
    let le = split_threshold-le page_size fill in
    let n = length-take i nd.inodes (omega arith) in
    elim l.2 [ inl two ↦ inr (omega arith) | inr fit ↦ inl (omega arith) ]

many_of_cut : (page_size : ℕ) (nd : Node) → stays_whole page_size nd ≡ false → 4 < length nd.inodes
many_of_cut page_size nd w = ground arith

-- `split` of a node of at least two inodes and less than 2 ^ 32 bytes that has a parent, on a heap
-- of nodes: with as much fuel as there are inodes it ends, with pieces that in order hold the
-- inodes of the node. Each is a leaf if the node is, hangs under that parent, has at least two
-- inodes, and fits a page or has at most four. No other node than that one and its parent has
-- changed.
pub split_from-Splits :
    (page_size fill fuel : ℕ) (h : Heap) (a p : ℕ) (nd pn : Node)
    → IsChild h a p nd pn
    → nd.parent ≡ some p
    → length nd.inodes ≤ fuel
    → 2 ≤ length nd.inodes
    → node_bytes nd < u32
    → Splits page_size fill fuel h a p nd
unfolding split_from
split_from-Splits page_size fill zero h a p nd pn v par enough two small = absurd (omega arith)
split_from-Splits page_size fill (suc fuel) h a p nd pn v par enough two small =
    elim (Bool-cases (stays_whole page_size nd)) [
      | inl w ↦ whole-Splits page_size fill fuel h a p nd v.here par two small w
      | inr w ↦
          let i = split_index nd (split_threshold page_size fill) in
          let many = many_of_cut page_size nd w in
          let l = split_index_lem nd (split_threshold page_size fill) many small in
          let h1 = cut_heap h a p i nd pn v in
          let cut = cut_heap-IsCut h a p i nd pn v in
          let a_old = lt-next h a nd v.heap v.here in
          let p_old = lt-next h p pn v.heap v.parent in
          let apart = v.apart in
          let right = record (new_node (some p)) {
            is_leaf = nd.is_leaf;
            inodes = drop i nd.inodes;
          } in
          let (h', rs, e, pieces, frame) =
            split_from-Splits page_size fill fuel h1 h.next p right
              (record pn { children = pn.children ++ h.next ∷ [] })
              (record {
                heap = cut.heap;
                here = cut.right;
                parent = cut.parent;
                apart = ground arith;
              })
              refl (omega (arith, length-drop i nd.inodes)) (omega (arith, length-drop i nd.inodes))
              (omega (arith, bytes-drop-le i nd.inodes)) in
          let kept = Frame-cut h h1 h' a p i nd pn cut a_old frame in
          (
            h',
            a ∷ rs,
            rw (split_two_cut h a p i nd pn v page_size fill par w refl) (rw e refl),
            (
              record nd { parent = some p; inodes = take i nd.inodes },
              drop i nd.inodes,
              kept.0 (ground arith, ground arith) ∙ cut.left,
              sym (take-append-drop i nd.inodes),
              refl,
              refl,
              omega (arith, length-take i nd.inodes),
              cut-Fits page_size fill nd many small,
              pieces,
            ),
            kept.1,
          )
    ]
